-- ===== src/Blob/Compare.antt =====
-- The two comparisons of blobs as orders, and the prefix and suffix tests as concatenations.
use apk_tools.Prelude.{
  ◌-◌, ◌<◌, ◌^◌, ℕ, suc, ◌≤◌, [], ◌∷◌, ◌++◌, Ordering, compare, min, length, drop, Bytes, arith,
  ◌≡◌, refl, sym, ap, ◌∙◌, length-append, ◌↔◌, drop-length_append, length-drop, take-append-drop,
}
use apk_tools.Prelude.Order.{
  ◌then_by◌, flip, Trans, compare-flip, compare_self, compare-Trans, flip-then_by, then_by_Trans,
  int_sign-compare,
}
use apk_tools.Blob.{
  memcmp, apk_blob_sort, blob_order, apk_blob_starts_with, apk_blob_ends_with,
  apk_blob_pull_blob_match, true, some, take, apk_blob_compare, is_eq,
}

-- Lexicographic order by unsigned bytes: the first difference decides, and a prefix comes first.
abbrev pub lex : Bytes → Bytes → Ordering
lex [] [] = Ordering.eq
lex [] (y ∷ b) = Ordering.lt
lex (x ∷ a) [] = Ordering.gt
lex (x ∷ a) (y ∷ b) = compare x y then_by lex a b

then_by_assoc : (o p q : Ordering) → (o then_by p) then_by q ≡ o then_by (p then_by q)
then_by_assoc o p q = ground arith

min_zero_left : (n : ℕ) → min 0 n ≡ 0
min_zero_left n = omega arith

min_zero_right : (n : ℕ) → min n 0 ≡ 0
min_zero_right n = omega arith

min-suc : (a b : ℕ) → min (suc a) (suc b) ≡ suc (min a b)
min-suc a b = omega arith

compare-suc : (a b : ℕ) → compare (suc a) (suc b) ≡ compare a b
compare-suc a b = ground arith

pub blob_order-lex : (a b : Bytes) → blob_order a b ≡ lex a b
unfolding blob_order memcmp
blob_order-lex [] [] = refl
blob_order-lex [] (y ∷ b) = rw (min_zero_left (suc (length b))) (ground arith)
blob_order-lex (x ∷ a) [] = rw (min_zero_right (suc (length a))) (ground arith)
blob_order-lex (x ∷ a) (y ∷ b) =
    rw (min-suc (length a) (length b), compare-suc (length a) (length b))
      (then_by_assoc (compare x y) _ _ ∙ ap (◌then_by◌ (compare x y)) (blob_order-lex a b))

-- `apk_blob_sort` of blobs of less than 2^31 bytes is the lexicographic order by unsigned bytes, in
-- which a prefix comes first.
pub apk_blob_sort-lex :
    (a b : Bytes) → length a < 2 ^ 31 → length b < 2 ^ 31 → apk_blob_sort a b ≡ lex a b
unfolding apk_blob_sort
apk_blob_sort-lex a b h k =
    rw (int_sign-compare (length a) (length b) h k) (unfold blob_order in blob_order-lex a b)

pub lex-flip : (a b : Bytes) → lex b a ≡ flip (lex a b)
lex-flip [] [] = refl
lex-flip [] (y ∷ b) = refl
lex-flip (x ∷ a) [] = refl
lex-flip (x ∷ a) (y ∷ b) =
    rw (compare-flip x y, lex-flip a b) (sym (flip-then_by (compare x y) (lex a b)))

pub lex_self : (a : Bytes) → lex a a ≡ Ordering.eq
lex_self [] = refl
lex_self (x ∷ a) = rw (compare_self x) (lex_self a)

pub lex-Trans : (a b c : Bytes) → Trans (lex a b) (lex b c) (lex a c)
lex-Trans (x ∷ a) (y ∷ b) (z ∷ c) =
    then_by_Trans _ _ _ _ _ _ (compare-Trans x y z) (λ _ _. lex-Trans a b c)
lex-Trans _ _ _ = ground arith

pub lex-eq : (a b : Bytes) → lex a b ≡ Ordering.eq → a ≡ b
lex-eq (x ∷ a) (y ∷ b) h = ground (arith, lex-eq a b)
lex-eq _ _ h = ground arith

-- `memcmp` over equal lengths tells equal from different.
pub memcmp-eq : (a b : Bytes) → length a ≡ length b → memcmp a b (length a) ≡ Ordering.eq → a ≡ b
unfolding memcmp
memcmp-eq (x ∷ a) (y ∷ b) e h = ground (arith, memcmp-eq a b)
memcmp-eq _ _ e h = ground arith

pub memcmp_self : (a b : Bytes) → memcmp (a ++ b) a (length a) ≡ Ordering.eq
unfolding memcmp
memcmp_self [] b = refl
memcmp_self (x ∷ a) b = rw (compare_self x) (memcmp_self a b)

pub memcmp_prefix :
    (a b : Bytes)
    → length b ≤ length a
    → memcmp a b (length b) ≡ Ordering.eq
    → a ≡ b ++ drop (length b) a
unfolding memcmp
memcmp_prefix a [] e h = refl
memcmp_prefix [] (y ∷ b) e h = absurd (omega arith)
memcmp_prefix (x ∷ a) (y ∷ b) e h = ground (arith, memcmp_prefix a b)

pub memcmp_whole : (a : Bytes) → memcmp a a (length a) ≡ Ordering.eq
unfolding memcmp
memcmp_whole [] = refl
memcmp_whole (x ∷ a) = rw (compare_self x) (memcmp_whole a)

pub is_eq-compare : (a b : Bytes) → is_eq (apk_blob_compare a b) ≡ true → a ≡ b
unfolding apk_blob_compare
is_eq-compare a b h = ground (arith, memcmp-eq a b)

pub is_eq-compare_self : (a : Bytes) → is_eq (apk_blob_compare a a) ≡ true
unfolding apk_blob_compare
is_eq-compare_self a = ground (arith, memcmp_whole a)

pub compare-tail : (c : ℕ) (a b : Bytes) → apk_blob_compare (c ∷ a) (c ∷ b) ≡ apk_blob_compare a b
unfolding apk_blob_compare memcmp
compare-tail c a b = rw (compare_self c) (ground arith)

pub starts_with→append :
    (a b : Bytes) → apk_blob_starts_with a b ≡ true → a ≡ b ++ drop (length b) a
unfolding apk_blob_starts_with
starts_with→append a b h = ground (arith, memcmp_prefix a b)

pub append→starts_with : (b r : Bytes) → apk_blob_starts_with (b ++ r) b ≡ true
unfolding apk_blob_starts_with
append→starts_with b r = ground (arith, memcmp_self b r, length-append b r)

-- `apk_blob_starts_with a b` is true exactly when `a` is `b` followed by some rest.
pub apk_blob_starts_with_iff :
    (a b : Bytes) → (apk_blob_starts_with a b ≡ true) ↔ ((r : Bytes) × (a ≡ b ++ r))
apk_blob_starts_with_iff a b =
    (λ h. (drop (length b) a, starts_with→append a b h), λ e. rw (e.1) (append→starts_with b e.0))

memcmp_all : (a b : Bytes) → length a ≡ length b → memcmp a b (length b) ≡ Ordering.eq → a ≡ b
memcmp_all a b e h = memcmp-eq a b e (rw e h)

ends_with→append :
    (a b : Bytes) → apk_blob_ends_with a b ≡ true → a ≡ take (length a - length b) a ++ b
unfolding apk_blob_ends_with
ends_with→append a b h =
    let tail = drop (length a - length b) a in
    let same = memcmp_all tail b in
    ground
      (arith, same, length-drop (length a - length b) a, take-append-drop (length a - length b) a)

append→ends_with : (l b : Bytes) → apk_blob_ends_with (l ++ b) b ≡ true
unfolding apk_blob_ends_with
append→ends_with l b =
    let cut : length (l ++ b) - length b ≡ length l = omega (arith, length-append l b) in
    rw (cut, drop-length_append l b) (ground (arith, memcmp_whole b, length-append l b))

-- `apk_blob_ends_with a b` is true exactly when `a` is some beginning followed by `b`.
pub apk_blob_ends_with_iff :
    (a b : Bytes) → (apk_blob_ends_with a b ≡ true) ↔ ((l : Bytes) × (a ≡ l ++ b))
apk_blob_ends_with_iff a b = (
  λ h. (take (length a - length b) a, ends_with→append a b h),
  λ e. rw (e.1) (append→ends_with e.0 b),
)

-- `apk_blob_pull_blob_match b match` succeeds exactly when `b` begins with `match`, and then
-- leaves what follows it.
pub apk_blob_pull_blob_match_iff :
    (b match r : Bytes) → (apk_blob_pull_blob_match b match ≡ some r) ↔ (b ≡ match ++ r)
unfolding apk_blob_pull_blob_match
apk_blob_pull_blob_match_iff b match r = (
  λ h. ground (arith, memcmp_prefix b match),
  λ e.
      rw e (ground (arith, memcmp_self match r, length-append match r, drop-length_append match r)),
)
