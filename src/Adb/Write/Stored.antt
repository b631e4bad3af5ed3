-- ===== src/Adb/Write/Stored.antt =====
-- What `adb_w_data` stores is where it says, whether it is new or shared.
use apk_tools.Blob.Compare.{starts_with→append}
use apk_tools.Blob.{apk_blob_starts_with}
use apk_tools.Prelude.{
  refl, ℕ, Bytes, concat, ◌≡◌, ◌≤◌, ◌++◌, append_assoc, length, List, ◌+◌, All, drop, true, take,
  sym, arith, [], take-append-drop, ◌∙◌, ap, length-take, length-append, ◌==◌, Bool-cases, ◌&&◌,
  inl, if◌then◌else◌, length-drop, inr, ◌%◌, subst, not,
}
use apk_tools.Adb.Write.{
  iovec_memcmp, Entry, search_bucket, length, List, drop, true, take, ◌∷◌, share, Search, following,
  add, not,
}

-- The bytes stand at an offset of a block.
abbrev pub IsAt : Bytes → ℕ → Bytes → Type 0
IsAt adb offs b = (front back : Bytes) × (adb ≡ front ++ (b ++ back)) × (length front ≡ offs)

pub IsAt-append : (adb b more : Bytes) (offs : ℕ) → IsAt adb offs b → IsAt (adb ++ more) offs b
IsAt-append adb b more offs (front, back, e, n) = (
  front,
  back ++ more,
  rw (e, append_assoc front (b ++ back) more, append_assoc b back more) refl,
  n,
)

drop-IsAt :
    (adb b rest : Bytes) (offs : ℕ)
    → offs ≤ length adb
    → drop offs adb ≡ b ++ rest
    → IsAt adb offs b
drop-IsAt adb b rest offs h e = (
  take offs adb,
  rest,
  sym (take-append-drop offs adb) ∙ ap (λ x. take offs adb ++ x) e,
  length-take offs adb h,
)

iovec_memcmp-append :
    (vec : List Bytes) (base : Bytes)
    → length (concat vec) ≤ length base
    → iovec_memcmp vec base ≡ true
    → (rest : Bytes) × (base ≡ concat vec ++ rest)
unfolding iovec_memcmp
iovec_memcmp-append [] base h e = (base, refl)
iovec_memcmp-append (v ∷ vec) base h e =
    let fits : length v + length (concat vec) ≤ length base =
      omega (arith, h, length-append v (concat vec)) in
    let starts : apk_blob_starts_with base v ≡ true =
      unfold apk_blob_starts_with in ground (arith, fits, e) in
    let behind = drop (length v) base in
    let at = starts_with→append base v starts in
    let (rest, same) =
      iovec_memcmp-append vec behind (rw (length-drop (length v) base) (omega (arith, fits)))
        (ground (arith, e)) in
    (rest, at ∙ ap (λ x. v ++ x) same ∙ sym (append_assoc v (concat vec) rest))

-- An entry lies inside the block.
abbrev pub IsInside : Bytes → Entry → Type 0
IsInside adb e = e.offs + e.len ≤ length adb

following_share : (s : Search) (offs : ℕ) → following s ≡ share offs → s ≡ share offs
following_share (share x) offs e = e
following_share (add i) offs e = absurd (ground (arith, e))

share_here :
    (adb : Bytes) (vec : List Bytes) (entry : Entry) (offs alignment : ℕ)
    → IsInside adb entry
    → ((entry.len == length (concat vec)) && iovec_memcmp vec (drop entry.offs adb)) ≡ true
    → (if entry.offs % alignment == 0 then share entry.offs else add 0) ≡ share offs
    → IsAt adb offs (concat vec)
share_here adb vec entry offs alignment inside found e =
    let len : entry.len ≡ length (concat vec) = ground (arith, found) in
    let match : iovec_memcmp vec (drop entry.offs adb) ≡ true = ground (arith, found) in
    let same : entry.offs ≡ offs = ground (arith, e) in
    let (rest, at) =
      iovec_memcmp-append vec (drop entry.offs adb)
        (rw (length-drop entry.offs adb) (omega (arith, len, inside))) match in
    subst (λ o. IsAt adb o (concat vec)) same
      (drop-IsAt adb (concat vec) rest entry.offs (omega (arith, inside)) at)

pub search_share :
    (adb : Bytes) (vec : List Bytes) (hash alignment offs : ℕ) (entries : List Entry)
    → All (IsInside adb) entries
    → search_bucket adb vec hash (length (concat vec)) alignment entries ≡ share offs
    → IsAt adb offs (concat vec)
unfolding search_bucket
search_share adb vec hash alignment offs [] h e = absurd (ground (arith, e))
search_share adb vec hash alignment offs (entry ∷ entries) (inside, h) e =
    let len = length (concat vec) in
    let later = λ (k : following (search_bucket adb vec hash len alignment entries) ≡ share offs).
      search_share adb vec hash alignment offs entries h
        (following_share (search_bucket adb vec hash len alignment entries) offs k) in
    elim (Bool-cases (entry.len == 0)) [
      | inl free ↦ absurd (ground (arith, e, free))
      | inr used ↦ elim (Bool-cases (not (entry.hash == hash))) [
        | inl other ↦ later (ground (arith, e, used, other))
        | inr hashed ↦
            elim (Bool-cases ((entry.len == len) && iovec_memcmp vec (drop entry.offs adb))) [
              | inl found ↦
                  share_here adb vec entry offs alignment inside found
                    (ground (arith, e, used, hashed, found))
              | inr differs ↦ later (ground (arith, e, used, hashed, differs))
            ]
      ]
    ]
