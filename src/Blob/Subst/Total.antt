-- ===== src/Blob/Subst/Total.antt =====
-- The loop of `apk_blob_subst` ends.
use apk_tools.Blob.Search.{apk_blob_split}
use apk_tools.Prelude.{
  ℕ, Bytes, refl, ◌≡◌, ◌⊎◌, some, Option, length, inl, ◌<◌, ◌+◌, ◌≤◌, inr, arith, codes, subst,
  Option-cases, [], ap, length-append, Bool-cases, ◌++◌, zero,
}
use apk_tools.Blob.{
  Buffer, some, Option, length, room, suc, [], apk_blob_push_blob, is_null, apk_blob_pushed,
}
use apk_tools.Errors.{Result, ok, err, Error, apke_format_invalid, enobufs}
use apk_tools.Blob.Search.Laws.{apk_blob_split-IsSplit, IsSplit}
use apk_tools.Blob.Subst.{
  subst_loop, apk_blob_subst, apk_blob_split, subst_variable, subst_round, codes,
  apke_format_invalid, subst_done, subst_key, enobufs,
}

-- What is behind a separator is shorter.
pub split_shorter :
    (b s l r : Bytes) → apk_blob_split b s ≡ some (l, r) → length r + length s ≤ length b
split_shorter b s l r e =
    let p : IsSplit b s (some (l, r)) = subst (λ o. IsSplit b s o) e (apk_blob_split-IsSplit b s) in
    omega (arith, ap length p.0, length-append l (s ++ r), length-append s r)

Result-cases : {A : Type 0} (r : Result A) → ((e : Error) × (r ≡ err e)) ⊎ ((a : A) × (r ≡ ok a))
Result-cases (err e) = inl (e, refl)
Result-cases (ok a) = inr (a, refl)

module _ (res : Bytes → Buffer → Result Buffer) where
  variable-total :
      (next : Bytes → Buffer → Option (Result Bytes)) (to : Buffer) (key : Bytes)
      → ((fmt : Bytes) (to' : Buffer)
          → length fmt < length key
          → (r : Result Bytes) × (next fmt to' ≡ some r))
      → (r : Result Bytes) × (subst_variable res next to (apk_blob_split key (codes "}")) ≡ some r)
  unfolding subst_variable
  variable-total next to key ends = elim (Option-cases (apk_blob_split key (codes "}"))) [
    | inl n ↦ (err apke_format_invalid, rw n refl)
    | inr ((name, fmt), e) ↦ elim (Result-cases (subst_key res to name)) [
      | inl (x, f) ↦ (err x, rw (e, f, subst_variable) refl)
      | inr (to', f) ↦
          let (r, g) = ends fmt to' (omega (arith, split_shorter key (codes "}") name fmt e)) in
          (r, rw (e, f, subst_variable) g)
    ]
  ]

  loop-total :
      (fuel : ℕ) (fmt : Bytes) (to : Buffer)
      → length fmt < fuel
      → (r : Result Bytes) × (subst_loop res fuel fmt to ≡ some r)
  unfolding subst_loop subst_round
  loop-total zero fmt to h = absurd (omega arith)
  loop-total (suc fuel) fmt to h = elim (Option-cases (apk_blob_split fmt (codes "${"))) [
    | inl n ↦ (subst_done to fmt, rw n refl)
    | inr ((prefix, key), e) ↦
        let to' = apk_blob_push_blob to prefix in
        let shorter = split_shorter fmt (codes "${") prefix key e in
        elim (Bool-cases (is_null (apk_blob_pushed to'))) [
          | inl s ↦ (err enobufs, rw (e, s) refl)
          | inr f ↦
              let (r, g) =
                variable-total (λ f t. subst_loop res fuel f t) to' key
                  (λ f t k. loop-total fuel f t (omega arith)) in
              (r, rw (e, f) g)
        ]
  ]

  -- `apk_blob_subst` returns, on every format and whatever the values are: each round leaves a
  -- shorter format.
  pub apk_blob_subst-total :
      (sz : ℕ) (fmt : Bytes) → (r : Result Bytes) × (apk_blob_subst res sz fmt ≡ some r)
  unfolding apk_blob_subst
  apk_blob_subst-total sz fmt = loop-total (length fmt + 1) fmt (room [] sz) (omega arith)
