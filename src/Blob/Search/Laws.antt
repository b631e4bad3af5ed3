-- ===== src/Blob/Search/Laws.antt =====
-- What the search finds is the first occurrence.
use mathlib.Core.Option
use apk_tools.Blob.{apk_blob_starts_with, true, some, false, length, drop, take, memcmp}
use apk_tools.Prelude.{
  ℕ, zero, suc, Bytes, [], ◌∷◌, ◌≡◌, ap, arith, Bool-cases, Option, inl, ◌++◌, true, false, ◌≤◌,
  inr, length, none, refl, ◌≢◌, drop, take, sym, ◌+◌, length-append, ◌∙◌, append_assoc,
  take-length_append, drop-length_append, true_not_false, subst, All,
}
use apk_tools.Blob.Search.{apk_blob_contains, apk_blob_split, apk_blob_starts_with, Option}
use apk_tools.Blob.Compare.{apk_blob_starts_with_iff, append→starts_with}

-- The needle stands behind the first `i` bytes.
abbrev pub At : Bytes → Bytes → ℕ → Type 0
At b needle i = (l : Bytes) × (r : Bytes) × (b ≡ l ++ (needle ++ r)) × (length l ≡ i)

At-suc : (c : ℕ) (b needle : Bytes) (i : ℕ) → At b needle i → At (c ∷ b) needle (suc i)
At-suc c b needle i (l, r, e, n) = (c ∷ l, r, ap (◌∷◌ c) e, ap suc n)

-- An occurrence further on is one in the tail.
At-tail : (c : ℕ) (b needle : Bytes) (i : ℕ) → At (c ∷ b) needle (suc i) → At b needle i
At-tail c b needle i ([], r, e, n) = absurd (omega arith)
At-tail c b needle i (x ∷ l, r, e, n) = (l, r, cc, omega arith)

At-zero : (b needle : Bytes) → At b needle 0 → apk_blob_starts_with b needle ≡ true
At-zero b needle ([], r, e, n) = (apk_blob_starts_with_iff b needle).1 (r, e)
At-zero b needle (x ∷ l, r, e, n) = absurd (omega arith)

zero-At : (b needle : Bytes) → apk_blob_starts_with b needle ≡ true → At b needle 0
zero-At b needle h = let (r, e) = (apk_blob_starts_with_iff b needle).0 h in ([], r, e, refl)

-- The offset found is that of an occurrence, and none is nearer; nothing is found where there is
-- none.
abbrev IsFirst : Bytes → Bytes → Option ℕ → Type 0
IsFirst b needle none = (i : ℕ) → ¬ At b needle i
IsFirst b needle (some i) = At b needle i × ((j : ℕ) → At b needle j → i ≤ j)

no-At_nil : (needle : Bytes) (i : ℕ) → apk_blob_starts_with [] needle ≡ false → ¬ At [] needle i
no-At_nil needle i h ([], r, e, n) =
    true_not_false _ ((apk_blob_starts_with_iff [] needle).1 (r, e)) h
no-At_nil needle i h (x ∷ l, r, e, n) = cc

IsFirst-cons :
    (c : ℕ) (b needle : Bytes) (o : Option ℕ)
    → apk_blob_starts_with (c ∷ b) needle ≡ false
    → IsFirst b needle o
    → IsFirst (c ∷ b) needle (Option.map suc o)
IsFirst-cons c b needle none n h = absent
  where
    absent : (i : ℕ) → ¬ At (c ∷ b) needle i
    absent zero a = true_not_false _ (At-zero (c ∷ b) needle a) n
    absent (suc i) a = h i (At-tail c b needle i a)
IsFirst-cons c b needle (some i) n (a, near) = (At-suc c b needle i a, farther)
  where
    farther : (j : ℕ) → At (c ∷ b) needle j → suc i ≤ j
    farther zero k = absurd (true_not_false _ (At-zero (c ∷ b) needle k) n)
    farther (suc j) k = omega (arith, near j (At-tail c b needle j k))

pub apk_blob_contains-IsFirst : (b needle : Bytes) → IsFirst b needle (apk_blob_contains b needle)
unfolding apk_blob_contains
apk_blob_contains-IsFirst [] needle = elim (Bool-cases (apk_blob_starts_with [] needle)) [
  | inl s ↦ rw s (zero-At [] needle s, λ j a. omega arith)
  | inr n ↦ rw n (λ i. no-At_nil needle i n)
]
apk_blob_contains-IsFirst (c ∷ b) needle = elim (Bool-cases (apk_blob_starts_with (c ∷ b) needle)) [
  | inl s ↦ rw s (zero-At (c ∷ b) needle s, λ j a. omega arith)
  | inr n ↦
      rw n (
        IsFirst-cons c b needle (apk_blob_contains b needle) n (apk_blob_contains-IsFirst b needle))
]

drop_past : (l s r : Bytes) (i : ℕ) → length l ≡ i → drop (i + length s) (l ++ (s ++ r)) ≡ r
drop_past l s r i h =
    ap (λ (n : ℕ). drop n (l ++ (s ++ r))) (omega (arith, length-append l s))
    ∙ ap (drop (length (l ++ s))) (sym (append_assoc l s r))
    ∙ drop-length_append (l ++ s) r

take_past : (l r : Bytes) (i : ℕ) → length l ≡ i → take i (l ++ r) ≡ l
take_past l r i h = ap (λ (n : ℕ). take n (l ++ r)) (sym h) ∙ take-length_append l r

split_at :
    (b s l r : Bytes) (i : ℕ)
    → b ≡ l ++ (s ++ r)
    → length l ≡ i
    → ◌≡◌ {A = Bytes × Bytes} (take i b, drop (i + length s) b) (l, r)
split_at b s l r i e n = rw (e, take_past l (s ++ r) i n, drop_past l s r i n) refl

-- The parts of a split are those around the first occurrence of the separator.
abbrev pub IsSplit : Bytes → Bytes → Option (Bytes × Bytes) → Type 0
IsSplit b s none = (l r : Bytes) → b ≢ l ++ (s ++ r)
IsSplit b s (some (l, r)) =
    (b ≡ l ++ (s ++ r)) × ((l' r' : Bytes) → b ≡ l' ++ (s ++ r') → length l ≤ length l')

IsSplit-found :
    (b s : Bytes) (o : Option ℕ)
    → IsFirst b s o
    → IsSplit b s (Option.map (λ offs. (take offs b, drop (offs + length s) b)) o)
IsSplit-found b s none h = λ l r e. h (length l) (l, r, e, refl)
IsSplit-found b s (some i) ((l, r, e, n), near) =
    let nearest : (l' r' : Bytes) → b ≡ l' ++ (s ++ r') → length l ≤ length l' =
      λ l' r' e'. rw n (near (length l') (l', r', e', refl)) in
    subst (λ p. IsSplit b s (some p)) (sym (split_at b s l r i e n)) (e, nearest)

-- `apk_blob_split` gives the parts around the first occurrence of the separator, and fails exactly
-- where the separator does not occur.
pub apk_blob_split-IsSplit : (b s : Bytes) → IsSplit b s (apk_blob_split b s)
unfolding apk_blob_split
apk_blob_split-IsSplit b s =
    IsSplit-found b s (apk_blob_contains b s) (apk_blob_contains-IsFirst b s)

-- No byte of the text is the given one.
abbrev pub Without : ℕ → Bytes → Type 0
Without c b = All (λ x. x ≢ c) b

starts-other : (x c : ℕ) (s b : Bytes) → x ≢ c → apk_blob_starts_with (x ∷ b) (c ∷ s) ≡ false
unfolding apk_blob_starts_with memcmp
starts-other x c s b h = ground arith

starts-nil : (c : ℕ) (s : Bytes) → apk_blob_starts_with [] (c ∷ s) ≡ false
unfolding apk_blob_starts_with
starts-nil c s = ground arith

module _ (c : ℕ) (s : Bytes) where
  contains-Without :
      (w b : Bytes)
      → Without c w
      → apk_blob_contains (w ++ ((c ∷ s) ++ b)) (c ∷ s) ≡ some (length w)
  unfolding apk_blob_contains
  contains-Without [] b h = rw (append→starts_with (c ∷ s) b) refl
  contains-Without (x ∷ w) b (hx, h) =
      rw (starts-other x c s (w ++ ((c ∷ s) ++ b)) hx, contains-Without w b h) refl

  contains-absent : (w : Bytes) → Without c w → apk_blob_contains w (c ∷ s) ≡ none
  unfolding apk_blob_contains
  contains-absent [] h = rw (starts-nil c s) refl
  contains-absent (x ∷ w) (hx, h) = rw (starts-other x c s w hx, contains-absent w h) refl

  -- A text with no occurrence of the separator's first byte is in front of it.
  pub split-Without :
      (w b : Bytes) → Without c w → apk_blob_split (w ++ ((c ∷ s) ++ b)) (c ∷ s) ≡ some (w, b)
  unfolding apk_blob_split
  split-Without w b h =
      rw (contains-Without w b h)
        (ap some (split_at (w ++ ((c ∷ s) ++ b)) (c ∷ s) w b (length w) refl refl))

  pub split-absent : (w : Bytes) → Without c w → apk_blob_split w (c ∷ s) ≡ none
  unfolding apk_blob_split
  split-absent w h = rw (contains-absent w h) refl
