-- ===== src/Atom/Interns/Distinct.antt =====
-- Over a whole sequence of calls, one pointer stands for one text.
use mathlib.Core.Option.{some-ne-none}
use mathlib.Core.Option
use apk_tools.Prelude.{
  ℕ, Bytes, List, ◌≡◌, Option, some, [], suc, ◌↔◌, none, refl, ◌++◌, Bool-cases, ap, ◌∙◌, sym, inl,
  arith, get_or, Option-cases,
}
use apk_tools.Blob.{Blob, bytes, is_eq, apk_blob_compare}
use apk_tools.Blob.Compare.{is_eq-compare, is_eq-compare_self}
use apk_tools.Atom.{
  AtomPool, ◌∷◌, Option, apk_atomize_dup, some, [], apk_atom_init, none, is_eq, apk_blob_compare,
}
use apk_tools.Atom.Interns.{
  index_of, intern, intern_at, Represents, apk_atomize_dup-intern, init-Represents, arith, get_or,
  inr, Option-cases, index_of-append, is_eq-compare_self,
}

-- The calls one after the other.
pub atomize_all : AtomPool → List Blob → AtomPool
atomize_all atoms [] = atoms
atomize_all atoms (b ∷ bs) = atomize_all (apk_atomize_dup atoms b).1 bs

-- The number that a text has.
number : List Bytes → Bytes → Option ℕ
number texts [] = some 0
number texts (c ∷ b) = Option.map suc (index_of texts (c ∷ b))

map-suc : (o : Option ℕ) (n : ℕ) → Option.map suc o ≡ some n → (i : ℕ) × (n ≡ suc i) × (o ≡ some i)
map-suc none n h = absurd (ground arith)
map-suc (some i) n h = (i, ground arith, refl)

none_not_some : (i : ℕ) → ¬ (none ≡ some i)
none_not_some i h = ground arith

some-injective : {i j : ℕ} → some i ≡ some j → i ≡ j
some-injective h = ground arith

at-index_of :
    (texts : List Bytes) (b : Bytes) (i : ℕ) → index_of texts b ≡ some i → get_or texts i [] ≡ b
unfolding index_of
at-index_of [] b i h = absurd (ground arith)
at-index_of (t ∷ texts) b i h = elim (Bool-cases (is_eq (apk_blob_compare b t))) [
  | inl s ↦
      let first : 0 ≡ i = some-injective (rw s at h) in rw (sym first) (sym (is_eq-compare b t s))
  | inr n ↦
      let (k, e, f) = map-suc (index_of texts b) i (rw n at h) in rw e (at-index_of texts b k f)
]

number_distinct :
    (texts : List Bytes) (a b : Bytes) (n : ℕ)
    → number texts a ≡ some n
    → number texts b ≡ some n
    → a ≡ b
unfolding number
number_distinct texts [] [] n h k = refl
number_distinct texts [] (d ∷ b) n h k =
    let (i, e, f) = map-suc (index_of texts (d ∷ b)) n k in absurd (ground arith)
number_distinct texts (c ∷ a) [] n h k =
    let (i, e, f) = map-suc (index_of texts (c ∷ a)) n h in absurd (ground arith)
number_distinct texts (c ∷ a) (d ∷ b) n h k =
    let (i, e, f) = map-suc (index_of texts (c ∷ a)) n h in
    let (j, e', f') = map-suc (index_of texts (d ∷ b)) n k in
    let same : j ≡ i = omega arith in
    sym (at-index_of texts (c ∷ a) i f) ∙ at-index_of texts (d ∷ b) i (f' ∙ ap (λ x. some x) same)

index_of-kept :
    (texts : List Bytes) (key b : Bytes) (i : ℕ)
    → index_of texts key ≡ some i
    → index_of texts b ≡ none
    → index_of (texts ++ (b ∷ [])) key ≡ some i
index_of-kept texts key b i h k = elim (Bool-cases (is_eq (apk_blob_compare key b))) [
  | inl s ↦ let e = is_eq-compare key b s in absurd (none_not_some i (sym k ∙ rw (sym e) h))
  | inr n ↦ index_of-append texts b key k ∙ rw n h
]

intern-number :
    (texts : List Bytes) (b : Bytes) → number (intern texts b).1 b ≡ some (intern texts b).0
unfolding number intern intern_at
intern-number texts [] = refl
intern-number texts (c ∷ b) = elim (Option-cases (index_of texts (c ∷ b))) [
  | inl e ↦ rw (e, index_of-append texts (c ∷ b) (c ∷ b) e, is_eq-compare_self (c ∷ b)) refl
  | inr (i, e) ↦ rw (e, e) refl
]

intern-again :
    (texts : List Bytes) (b : Bytes) (n : ℕ) → number texts b ≡ some n → (intern texts b).0 ≡ n
unfolding number intern intern_at
intern-again texts [] n h = ground arith
intern-again texts (c ∷ b) n h = elim (Option-cases (index_of texts (c ∷ b))) [
  | inl e ↦ absurd (ground arith)
  | inr (i, e) ↦ rw e (ground arith)
]

intern-kept :
    (texts : List Bytes) (key b : Bytes) (n : ℕ)
    → number texts key ≡ some n
    → number (intern texts b).1 key ≡ some n
unfolding number intern intern_at
intern-kept texts key [] n h = h
intern-kept texts [] (c ∷ b) n h = h
intern-kept texts (d ∷ key) (c ∷ b) n h = elim (Option-cases (index_of texts (c ∷ b))) [
  | inl e ↦
      let (i, s, f) = map-suc (index_of texts (d ∷ key)) n h in
      rw (e, index_of-kept texts (d ∷ key) (c ∷ b) i f e) (ap (λ x. some x) (sym s))
  | inr (i, e) ↦ rw e h
]

-- What stays of a text's number over any calls.
all-kept :
    (atoms : AtomPool) (texts : List Bytes) (bs : List Blob) (key : Bytes) (n : ℕ)
    → Represents atoms texts
    → number texts key ≡ some n
    → (texts' : List Bytes) × Represents (atomize_all atoms bs) texts'
      × (number texts' key ≡ some n)
unfolding atomize_all
all-kept atoms texts [] key n r h = (texts, r, h)
all-kept atoms texts (b ∷ bs) key n r h =
    all-kept (apk_atomize_dup atoms b).1 (intern texts (bytes b)).1 bs key n
      (apk_atomize_dup-intern atoms texts b r).1 (intern-kept texts key (bytes b) n h)

all-Represents :
    (atoms : AtomPool) (texts : List Bytes) (bs : List Blob)
    → Represents atoms texts
    → (texts' : List Bytes) × Represents (atomize_all atoms bs) texts'
unfolding number
all-Represents atoms texts bs r =
    let (texts', s, e) = all-kept atoms texts bs [] 0 r refl in (texts', s)

-- Of any two calls in the life of a pool, with any calls before and between, the pointers are equal
-- exactly when the texts are; NULL counts as the empty text.
pub apk_atomize_dup_iff :
    (before between : List Blob) (a b : Blob)
    → let first = apk_atomize_dup (atomize_all apk_atom_init before) a in
      let second = apk_atomize_dup (atomize_all first.1 between) b in
      (first.0.ptr ≡ second.0.ptr) ↔ (bytes a ≡ bytes b)
apk_atomize_dup_iff before between a b =
    let (texts, r) = all-Represents apk_atom_init [] before init-Represents in
    let (x, r1) = apk_atomize_dup-intern (atomize_all apk_atom_init before) texts a r in
    let na = (intern texts (bytes a)).0 in
    let (texts2, r2, k2) =
      all-kept _ (intern texts (bytes a)).1 between (bytes a) na r1
        (intern-number texts (bytes a)) in
    let (y, r3) = apk_atomize_dup-intern _ texts2 b r2 in
    let nb = (intern texts2 (bytes b)).0 in
    let px = ap (λ t. t.ptr) x in
    let py = ap (λ t. t.ptr) y in
    (
      λ e.
          number_distinct (intern texts2 (bytes b)).1 (bytes a) (bytes b) na
            (intern-kept texts2 (bytes a) (bytes b) na k2)
            (intern-number texts2 (bytes b) ∙ ap (λ n. some n) (sym py ∙ sym e ∙ px)),
      λ e. px ∙ sym (intern-again texts2 (bytes b) na (rw (sym e) k2)) ∙ sym py,
    )
