-- ===== src/Package/Info/Write/OneLine.antt =====
-- Numbers and digests are written without an end of line.
use apk_tools.Prelude.{
  ℕ, Bytes, [], ◌∷◌, ◌≡◌, ◌≢◌, ◌++◌, refl, arith, leb, Bool-cases, inl, inr, true, codes, subst,
  ◌+◌, ◌==◌, false, ◌*◌, ◌%◌, ◌^◌,
}
use apk_tools.Blob.{Buffer, overflow, room, apk_blob_push_blob}
use apk_tools.Blob.Search.Laws.{Without}
use apk_tools.Blob.Number.{dx, pull_digits, apk_blob_pull_uint}
use apk_tools.Blob.Base64.{base64, apk_blob_push_base64}
use apk_tools.Blob.Base64.OneLine.{base64-Without}
use apk_tools.Blob.Digest.{apk_blob_push_hash}

newline_no_digit : leb 10 (dx b'\n') ≡ true
unfolding dx
newline_no_digit = refl

digit-is_text : (c : ℕ) → (leb 10 (dx c)) ≡ false → c ≢ b'\n'
digit-is_text c h e = let no = newline_no_digit in ground (arith, no, h, e)

pull_digits-Without : (b : Bytes) (v n : ℕ) → pull_digits 10 v b ≡ (n, []) → Without b'\n' b
unfolding pull_digits
pull_digits-Without [] v n e = tt
pull_digits-Without (c ∷ b) v n e = elim (Bool-cases (c == 0)) [
  | inl z ↦ absurd (ground (arith, z, e))
  | inr nz ↦ elim (Bool-cases (leb 10 (dx c))) [
    | inl s ↦ absurd (ground (arith, nz, s, e))
    | inr d ↦ (
      digit-is_text c d,
      pull_digits-Without b ((v * 10 % 2 ^ 64 + dx c) % 2 ^ 64) n (ground (arith, nz, d, e)),
    )
  ]
]

-- The digits of a number that is read whole.
pub pull_uint-Without : (b : Bytes) (n : ℕ) → apk_blob_pull_uint b 10 ≡ (n, []) → Without b'\n' b
unfolding apk_blob_pull_uint
pull_uint-Without b n e = pull_digits-Without b 0 n e

abbrev written : Buffer → Bytes
written overflow = []
written (room w len) = w

-- The text of a hash behind a label of two characters.
pub push_hash-Without :
    (x y len left : ℕ) (hash text : Bytes)
    → apk_blob_push_hash (room (x ∷ y ∷ []) len) hash ≡ room (x ∷ y ∷ text) left
    → Without b'\n' text
unfolding apk_blob_push_hash apk_blob_push_blob apk_blob_push_base64
push_hash-Without x y len left hash text e =
    let same : codes "Q1" ++ base64 hash ≡ text = ground (arith, e) in
    subst (λ t. Without b'\n' t) same (omega arith, (omega arith, base64-Without hash))
