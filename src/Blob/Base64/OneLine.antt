-- ===== src/Blob/Base64/OneLine.antt =====
-- Base64 is written without an end of line.
use apk_tools.Prelude.{
  ℕ, Bytes, [], ◌∷◌, ◌≡◌, ◌≢◌, ◌≤◌, ◌<◌, ap, refl, arith, ltb, Bool-cases, inl, inr, get_or-ge,
}
use apk_tools.Blob.Search.Laws.{Without}
use apk_tools.Blob.Base64.{base64, encode_group, enc, dec, push_b64_tail, b64encode}
use apk_tools.Blob.Base64.Bits.{dec-enc}

newline_decodes : dec b'\n' ≡ 255
unfolding dec
newline_decodes = refl

enc-out : (i : ℕ) → 64 ≤ i → enc i ≡ 0
unfolding enc
enc-out i h = get_or-ge b64encode i 0 h

enc-is_text : (i : ℕ) → enc i ≢ b'\n'
enc-is_text i e = elim (Bool-cases (ltb i 64)) [
  | inl s ↦
      let small : i < 64 = ground (arith, s) in
      omega (arith, dec-enc i small, ap dec e, newline_decodes, small)
  | inr n ↦ let big : 64 ≤ i = ground (arith, n) in omega (arith, enc-out i big, e)
]

-- No character that is written is an end of line.
pub base64-Without : (b : Bytes) → Without b'\n' (base64 b)
unfolding base64 encode_group push_b64_tail
base64-Without [] = tt
base64-Without (f0 ∷ []) = (enc-is_text _, (enc-is_text _, (omega arith, (omega arith, tt))))
base64-Without (f0 ∷ f1 ∷ []) = (enc-is_text _, (enc-is_text _, (enc-is_text _, (omega arith, tt))))
base64-Without (s0 ∷ s1 ∷ s2 ∷ b) =
    (enc-is_text _, (enc-is_text _, (enc-is_text _, (enc-is_text _, base64-Without b))))
