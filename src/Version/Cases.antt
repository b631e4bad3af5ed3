-- ===== src/Version/Cases.antt =====
-- The ways on which `token_next` reads a character, each with what it asks of the token before.
use apk_tools.Prelude.{
  ℕ, ◌≤◌, ◌<◌, Bool, true, false, ◌≡◌, refl, arith, [], ◌∷◌, some, Bytes, ltb, leb, ◌==◌,
  if◌then◌else◌, inl, inr, Option-cases, codes,
}
use apk_tools.Ctype.{apk_blob_spn, apk_ctype_hexdigit, apk_ctype_version_suffix}
use apk_tools.Ctype.Classes.{is_digit, is_lower}
use apk_tools.Blob.{apk_blob_pull_blob_match}
use apk_tools.Version.{
  Token, TokenState, index, token_letter, token_revision_no, invalid, token_parse_digits,
  token_next, number_token, next_number, next_suffix, next_hash, next_revision,
}

pub data Next (t : TokenState) (c : ℕ) (b : Bytes) : TokenState × Bytes → Type 0 where
  stop : {rest : Bytes} → Next t c b (invalid t, rest)
  letter :
      is_lower c ≡ true
      → index t.token ≤ 1
      → Next t c b (record t { value = c ∷ []; token = token_letter }, b)
  point :
      c ≡ b'.'
      → (k : Token) → number_token t.token ≡ some k
      → index t.token ≤ 1
      → Next t c b (token_parse_digits (record t { token = k }) b)
  number :
      is_digit c ≡ true
      → (k : Token) → number_token t.token ≡ some k
      → Next t c b (token_parse_digits (record t { token = k }) (c ∷ b))
  suffixed :
      c ≡ b'_'
      → index t.token ≤ 4
      → Next t c b (next_suffix t (apk_blob_spn apk_ctype_version_suffix b))
  hash : c ≡ b'~' → index t.token < 5 → Next t c b (next_hash t (apk_blob_spn apk_ctype_hexdigit b))
  revision :
      c ≡ b'-'
      → index t.token < 6
      → (rest : Bytes) → apk_blob_pull_blob_match (c ∷ b) (codes "-r") ≡ some rest
      → Next t c b (token_parse_digits (record t { token = token_revision_no }) rest)

module _ (t : TokenState) (c : ℕ) (b : Bytes) where
  point_case : c ≡ b'.' → index t.token ≤ 1 → Next t c b (next_number (number_token t.token) t b)
  unfolding next_number
  point_case e h = elim (Option-cases (number_token t.token)) [
    | inl n ↦ rw n stop
    | inr (k, s) ↦ rw s (point e k s h)
  ]

  number_case : is_digit c ≡ true → Next t c b (next_number (number_token t.token) t (c ∷ b))
  unfolding next_number
  number_case e = elim (Option-cases (number_token t.token)) [
    | inl n ↦ rw n stop
    | inr (k, s) ↦ rw s (number e k s)
  ]

  revision_case :
      c ≡ b'-'
      → index t.token < 6
      → Next t c b (next_revision t (c ∷ b) (apk_blob_pull_blob_match (c ∷ b) (codes "-r")))
  unfolding next_revision
  revision_case e h = elim (Option-cases (apk_blob_pull_blob_match (c ∷ b) (codes "-r"))) [
    | inl n ↦ rw n stop
    | inr (r, s) ↦ rw s (revision e h r s)
  ]

  by_test :
      (test : Bool) {x y : TokenState × Bytes}
      → (test ≡ true → Next t c b x)
      → (test ≡ false → Next t c b y)
      → Next t c b (if test then x else y)
  by_test true f g = f refl
  by_test false f g = g refl

  pub token_next-Next : Next t c b (token_next t (c ∷ b))
  unfolding token_next
  token_next-Next =
      by_test (is_lower c)
        (λ l. by_test (ltb 1 (index t.token)) (λ _. stop) (λ h. letter l (ground arith)))
        λ _.
          by_test (c == b'.')
            (λ e.
              by_test (ltb 1 (index t.token)) (λ _. stop)
                (λ h. point_case (ground arith) (ground arith)))
            λ _.
              by_test (is_digit c) (λ d. number_case d)
                λ _.
                  by_test (c == b'_')
                    (λ e.
                      by_test (ltb 4 (index t.token)) (λ _. stop)
                        (λ h. suffixed (ground arith) (ground arith)))
                    λ _.
                      by_test (c == b'~')
                        (λ e.
                          by_test (leb 5 (index t.token)) (λ _. stop)
                            (λ h. hash (ground arith) (ground arith)))
                        λ _.
                          by_test (c == b'-')
                            (λ e.
                              by_test (leb 6 (index t.token)) (λ _. stop)
                                (λ h. revision_case (ground arith) (ground arith)))
                            (λ _. stop)
