-- ===== src/Database/Tags/Laws.antt =====
-- The numbers of tags.
use apk_tools.Blob.{is_eq, apk_blob_compare, blob}
use apk_tools.Prelude.{
  List, ◌≡◌, All, ◌∷◌, length, ◌<◌, ℕ, ◌++◌, Option, Bytes, [], none, true, false, some, arith, ◌+◌,
  refl, Bool-cases, zero, inl, ap, inr, ◌-◌, ◌≢◌, ◌∙◌, ◌⊎◌, length-append, Option-cases, leb,
}
use apk_tools.Blob.Compare.{is_eq-compare, compare-tail, is_eq-compare_self}
use apk_tools.Database.Tags.{
  RepoTag, length, apk_max_tags, ℕ, find_tag, Option, Bytes, [], none, true, false, some, suc,
  is_eq, add_tag, apk_db_get_tag_id, is_at, new_tag, leb,
}

-- Each tag has its '@' and its plain name is what follows.
abbrev pub IsTag : RepoTag → Type 0
IsTag t = t.tag ≡ b'@' ∷ t.plain_name

-- The table fits its array.
abbrev pub IsTable : List RepoTag → Type 0
IsTable tags = All IsTag tags × (length tags < apk_max_tags)

-- The plain name at an index of the table.
abbrev pub plain_at : List RepoTag → ℕ → Option Bytes
plain_at [] i = none
plain_at (t ∷ tags) zero = some t.plain_name
plain_at (t ∷ tags) (suc i) = plain_at tags i

find-at :
    (i : ℕ) (tags : List RepoTag) (name : Bytes)
    → All IsTag tags
    → find_tag true i tags (b'@' ∷ name) ≡ find_tag false i tags name
unfolding find_tag
find-at i [] name h = refl
find-at i (t ∷ tags) name (h, hs) =
    rw (h, compare-tail b'@' t.plain_name name, find-at (i + 1) tags name hs) refl

-- A number that is found is that of the name.
find-plain :
    (i n : ℕ) (tags : List RepoTag) (name : Bytes)
    → find_tag false i tags name ≡ some n
    → (k : ℕ) × (n ≡ i + k) × (k < length tags) × (plain_at tags k ≡ some name)
unfolding find_tag
find-plain i n [] name h = absurd (ground arith)
find-plain i n (t ∷ tags) name h = elim (Bool-cases (is_eq (apk_blob_compare t.plain_name name))) [
  | inl s ↦
      let same : t.plain_name ≡ name = is_eq-compare t.plain_name name s in
      let here : i ≡ n = ground arith in (0, omega arith, omega arith, ap (λ x. some x) same)
  | inr f ↦
      let (k, e, b, p) = find-plain (i + 1) n tags name (ground arith) in
      (suc k, omega arith, omega arith, p)
]

-- What is added behind the table is found where the table does not have the name.
find-append :
    (i : ℕ) (tags : List RepoTag) (t : RepoTag) (name : Bytes)
    → t.plain_name ≡ name
    → find_tag false i tags name ≡ none
    → find_tag false i (tags ++ (t ∷ [])) name ≡ some (i + length tags)
unfolding find_tag
find-append i [] t name e h =
    let z : i + 0 ≡ i = omega arith in rw (e, is_eq-compare_self name, z) refl
find-append i (u ∷ tags) t name e h =
    elim (Bool-cases (is_eq (apk_blob_compare u.plain_name name))) [
      | inl s ↦ absurd (ground arith)
      | inr f ↦
          let z : i + 1 + length tags ≡ i + suc (length tags) = omega arith in
          rw (f, find-append (i + 1) tags t name e (ground arith), z) refl
    ]

plain_at-length :
    (tags : List RepoTag) (t : RepoTag)
    → plain_at (tags ++ (t ∷ [])) (length tags) ≡ some t.plain_name
plain_at-length [] t = refl
plain_at-length (u ∷ tags) t = plain_at-length tags t

plain_at-append :
    (tags more : List RepoTag) (i : ℕ) (r : Bytes)
    → plain_at tags i ≡ some r
    → plain_at (tags ++ more) i ≡ some r
plain_at-append [] more i r h = absurd (ground arith)
plain_at-append (t ∷ tags) more zero r h = h
plain_at-append (t ∷ tags) more (suc i) r h = plain_at-append tags more i r h

tags-append :
    (tags : List RepoTag) (t : RepoTag) → All IsTag tags → IsTag t → All IsTag (tags ++ (t ∷ []))
tags-append [] t h k = (k, tt)
tags-append (u ∷ tags) t (h, hs) k = (h, tags-append tags t hs k)

new-plain :
    (name : Bytes)
    → is_at name ≡ false
    → new_tag name ≡ record { tag = b'@' ∷ name; plain_name = name }
new-plain name p = rw p refl

-- What holds of the number and the table that a name leads to.
pub record IsNumbered (tags : List RepoTag) (name : Bytes) (n : ℕ) (tags' : List RepoTag)
    : Type 0 where
  pub table : IsTable tags'
  pub small : (0 < n) × (n < apk_max_tags)
  pub named : plain_at tags' (n - 1) ≡ some name
  pub kept : (i : ℕ) (r : Bytes) → plain_at tags i ≡ some r → plain_at tags' i ≡ some r
  pub again : apk_db_get_tag_id tags' (blob name) ≡ (some n, tags')
  pub with_at : apk_db_get_tag_id tags' (blob (b'@' ∷ name)) ≡ (some n, tags')

both-found :
    (tags : List RepoTag) (name : Bytes) (n : ℕ)
    → All IsTag tags
    → is_at name ≡ false
    → find_tag false 1 tags name ≡ some n
    → (apk_db_get_tag_id tags (blob name) ≡ (some n, tags))
      × (apk_db_get_tag_id tags (blob (b'@' ∷ name)) ≡ (some n, tags))
unfolding apk_db_get_tag_id add_tag
both-found tags name n h p e = (rw (p, e) refl, rw (find-at 1 tags name h, e) refl)

IsNumbered-found :
    (tags : List RepoTag) (name : Bytes) (n : ℕ)
    → IsTable tags
    → is_at name ≡ false
    → find_tag false 1 tags name ≡ some n
    → IsNumbered tags name n tags
IsNumbered-found tags name n (h, l) p e =
    let (k, m, b, q) = find-plain 1 n tags name e in
    let j : n - 1 ≡ k = omega arith in
    let (one, two) = both-found tags name n h p e in
    record {
      table = (h, l);
      small = (omega arith, omega arith);
      named = rw j q;
      kept = λ i r x. x;
      again = one;
      with_at = two;
    }

IsNumbered-new :
    (tags : List RepoTag) (name : Bytes)
    → IsTable tags
    → is_at name ≡ false
    → length tags + 1 < apk_max_tags
    → find_tag false 1 tags name ≡ none
    → IsNumbered tags name (length tags + 1) (tags ++ (new_tag name ∷ []))
IsNumbered-new tags name (h, l) p s e =
    let t : RepoTag = record { tag = b'@' ∷ name; plain_name = name } in
    let tags' = tags ++ (t ∷ []) in
    let all : All IsTag tags' = tags-append tags t h refl in
    let found = find-append 1 tags t name refl e in
    let one : 1 + length tags ≡ length tags + 1 = omega arith in
    let back : length tags + 1 - 1 ≡ length tags = omega arith in
    let (again, at) =
      both-found tags' name (length tags + 1) all p (found ∙ ap (λ x. some x) one) in
    rw (new-plain name p) (record {
      table = (all, omega (arith, length-append tags (t ∷ [])));
      small = (omega arith, omega arith);
      named = rw back (plain_at-length tags t);
      kept = λ i r x. plain_at-append tags (t ∷ []) i r x;
      again = again;
      with_at = at;
    })

-- A tag is numbered alike with its '@' and without: in a table that fits its array, either spelling
-- gives the same table, and the number of the entry with that name. Both spellings then lead back
-- to that number and leave the table as it is, and no entry moves. The name does not itself begin
-- with '@', and the table had room or the name.
pub apk_db_get_tag_id-IsNumbered :
    (tags : List RepoTag) (name : Bytes)
    → IsTable tags
    → is_at name ≡ false
    → (find_tag false 1 tags name ≢ none) ⊎ (length tags + 1 < apk_max_tags)
    → (n : ℕ) × (tags' : List RepoTag) × (apk_db_get_tag_id tags (blob name) ≡ (some n, tags'))
      × (apk_db_get_tag_id tags (blob (b'@' ∷ name)) ≡ (some n, tags'))
      × IsNumbered tags name n tags'
unfolding apk_db_get_tag_id add_tag
apk_db_get_tag_id-IsNumbered tags name h p room = elim (Option-cases (find_tag false 1 tags name)) [
  | inr (n, e) ↦
      let (one, two) = both-found tags name n h.0 p e in
      (n, tags, one, two, IsNumbered-found tags name n h p e)
  | inl e ↦
      let fits : length tags + 1 < apk_max_tags = elim room [ inl x ↦ absurd (x e) | inr y ↦ y ] in
      let small : leb apk_max_tags (length tags + 1) ≡ false = ground arith in
      (
        length tags + 1,
        tags ++ (new_tag name ∷ []),
        rw (p, e, small, new-plain name p) refl,
        rw (find-at 1 tags name h.0, e, small, new-plain name p) refl,
        IsNumbered-new tags name h p fits e,
      )
]
