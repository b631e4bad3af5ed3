-- ===== src/Ctype/Spans.antt =====
-- What a span is: the longest prefix with no stopping character, and the rest.
use apk_tools.Prelude.{
  ℕ, Bool, true, false, [], ◌∷◌, ◌++◌, ◌≡◌, refl, ap, arith, Bool-cases, Bytes, All, inl, inr, not,
  All-imp, length, ◌≤◌, length-append,
}
use apk_tools.Ctype.{span_until, not, apk_blob_spn, in_class, apk_blob_cspn, length}

-- The rest of a span that stopped begins with a stopping character.
abbrev pub StopsAt : (ℕ → Bool) → Bool → Bytes → Type 0
StopsAt stop false r = r ≡ []
StopsAt stop true [] = ⊥
StopsAt stop true (c ∷ r) = stop c ≡ true

module _ (stop : ℕ → Bool) where
  pub span_until-append : (b : Bytes) → (span_until stop b).l ++ (span_until stop b).r ≡ b
  unfolding span_until
  span_until-append [] = refl
  span_until-append (c ∷ b) = ground (arith, span_until-append b)

  pub span_until-All : (b : Bytes) → All (λ c. stop c ≡ false) (span_until stop b).l
  unfolding span_until
  span_until-All [] = tt
  span_until-All (c ∷ b) = elim (Bool-cases (stop c)) [
    | inl s ↦ rw s (tt)
    | inr n ↦ rw n (n, span_until-All b)
  ]

  pub span_until-StopsAt : (b : Bytes) → StopsAt stop (span_until stop b).ret (span_until stop b).r
  unfolding span_until
  span_until-StopsAt [] = refl
  span_until-StopsAt (c ∷ b) = elim (Bool-cases (stop c)) [
    | inl s ↦ rw s s
    | inr n ↦ rw n (span_until-StopsAt b)
  ]

  -- A run of characters that do not stop is passed over whole.
  pub span_until-run :
      (l r : Bytes)
      → All (λ c. stop c ≡ false) l
      → (span_until stop (l ++ r)).l ≡ l ++ (span_until stop r).l
  unfolding span_until
  span_until-run [] r h = refl
  span_until-run (c ∷ l) r (h, t) = rw h (ap (◌∷◌ c) (span_until-run l r t))

  pub span_until-run_rest :
      (l r : Bytes)
      → All (λ c. stop c ≡ false) l
      → (span_until stop (l ++ r)).r ≡ (span_until stop r).r
  unfolding span_until
  span_until-run_rest [] r h = refl
  span_until-run_rest (c ∷ l) r (h, t) = rw h (span_until-run_rest l r t)

  pub span_until-run_ret :
      (l r : Bytes)
      → All (λ c. stop c ≡ false) l
      → (span_until stop (l ++ r)).ret ≡ (span_until stop r).ret
  unfolding span_until
  span_until-run_ret [] r h = refl
  span_until-run_ret (c ∷ l) r (h, t) = rw h (span_until-run_ret l r t)

not-false : (b : Bool) → not b ≡ false → b ≡ true
not-false b h = ground arith

module _ (ctype : ℕ) where
  pub apk_blob_spn-append : (b : Bytes) → (apk_blob_spn ctype b).l ++ (apk_blob_spn ctype b).r ≡ b
  unfolding apk_blob_spn
  apk_blob_spn-append b = span_until-append (λ ch. not (in_class ctype ch)) b

  pub apk_blob_spn-All : (b : Bytes) → All (λ c. in_class ctype c ≡ true) (apk_blob_spn ctype b).l
  unfolding apk_blob_spn
  apk_blob_spn-All b =
      All-imp (λ c. not (in_class ctype c) ≡ false) (λ c. in_class ctype c ≡ true)
        (apk_blob_spn ctype b).l (λ c h. not-false (in_class ctype c) h)
        (span_until-All (λ ch. not (in_class ctype ch)) b)

  -- A run of characters outside the class, up to one in it or to the end.
  pub apk_blob_cspn-run :
      (l r : Bytes) (c : ℕ)
      → All (λ x. in_class ctype x ≡ false) l
      → in_class ctype c ≡ true
      → apk_blob_cspn ctype (l ++ (c ∷ r)) ≡ record { ret = true; l = l; r = c ∷ r }
  unfolding apk_blob_cspn span_until
  apk_blob_cspn-run [] r c h k = rw k refl
  apk_blob_cspn-run (x ∷ l) r c (hx, h) k = rw (hx, apk_blob_cspn-run l r c h k) refl

  pub apk_blob_cspn-whole :
      (l : Bytes)
      → All (λ x. in_class ctype x ≡ false) l
      → apk_blob_cspn ctype l ≡ record { ret = false; l = l; r = [] }
  unfolding apk_blob_cspn span_until
  apk_blob_cspn-whole [] h = refl
  apk_blob_cspn-whole (x ∷ l) (hx, h) = rw (hx, apk_blob_cspn-whole l h) refl

  -- A run of characters in the class, up to one outside.
  pub apk_blob_spn-run :
      (l r : Bytes) (c : ℕ)
      → All (λ x. in_class ctype x ≡ true) l
      → in_class ctype c ≡ false
      → apk_blob_spn ctype (l ++ (c ∷ r)) ≡ record { ret = true; l = l; r = c ∷ r }
  unfolding apk_blob_spn span_until
  apk_blob_spn-run [] r c h k = rw k refl
  apk_blob_spn-run (x ∷ l) r c (hx, h) k = rw (hx, apk_blob_spn-run l r c h k) refl

pub span_rest : (stop : ℕ → Bool) (b : Bytes) → length (span_until stop b).r ≤ length b
span_rest stop b = omega (
  arith,
  ap length (span_until-append stop b),
  length-append (span_until stop b).l (span_until stop b).r,
)
