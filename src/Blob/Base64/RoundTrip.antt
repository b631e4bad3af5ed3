-- ===== src/Blob/Base64/RoundTrip.antt =====
-- Base64 is read back as the bytes that it was made of.
use apk_tools.Blob.{room, blob, ltb}
use apk_tools.Blob.Hex.Accepts.{or_below_64}
use apk_tools.Blob.Hex.RoundTrip.{AreBytes}
use apk_tools.Blob.Base64.Bits.{
  dec-enc, low4, low2, high2, low6, byte0_lem, byte1_lem, byte2_lem, high4, or_4_2, or_2_4,
  dec_padding,
}
use apk_tools.Prelude.{
  refl, ℕ, Bytes, ◌<◌, ◌/◌, bit_or, ◌≡◌, ◌^◌, bit_and, true, arith, ◌*◌, ◌%◌, ◌+◌, length, ◌++◌,
  ◌∙◌, ◌∷◌, ◌==◌, [], ap₂, false, ◌≤◌, ◌-◌, ltb, length-append, ap, sym, drop-length_append,
}
use apk_tools.Blob.Base64.{
  ℕ, Bytes, pull_groups, bit_or, dec, Base64Read, base64, bit_and, enc, byte0, byte1, byte2, at,
  true, pull_b64_tail, or4, length, encode_group, false, after, needed, apk_blob_push_base64,
  apk_blob_pull_base64, room,
}

-- The four indices of a group.
abbrev i0 : ℕ → ℕ
i0 s0 = s0 / 2 ^ 2

abbrev i1 : ℕ → ℕ → ℕ
i1 s0 s1 = bit_or (bit_and s0 0x03 * 2 ^ 4) (bit_and s1 0xf0 / 2 ^ 4)

abbrev i2 : ℕ → ℕ → ℕ
i2 s1 s2 = bit_or (bit_and s1 0x0f * 2 ^ 2) (bit_and s2 0xc0 / 2 ^ 6)

i1_lem : (s0 s1 : ℕ) → s0 < 256 → s1 < 256 → i1 s0 s1 ≡ s0 % 4 * 16 + s1 / 16
i1_lem s0 s1 h k =
    rw (low2 s0 h, high4 s1 k) (or_2_4 (s0 % 4) (s1 / 16) (omega arith) (omega arith))

i2_lem : (s1 s2 : ℕ) → s1 < 256 → s2 < 256 → i2 s1 s2 ≡ s1 % 16 * 4 + s2 / 64
i2_lem s1 s2 h k =
    rw (low4 s1 h, high2 s2 k) (or_4_2 (s1 % 16) (s2 / 64) (omega arith) (omega arith))

i2_last : (s1 : ℕ) → s1 < 256 → bit_and s1 0x0f * 2 ^ 2 ≡ s1 % 16 * 4
i2_last s1 h = rw (low4 s1 h)

-- The indices decode, and their bytes are those encoded.
record Group (s0 s1 s2 : ℕ) : Type 0 where
  t0 : dec (enc (i0 s0)) ≡ s0 / 4
  t1 : dec (enc (i1 s0 s1)) ≡ s0 % 4 * 16 + s1 / 16
  t2 : dec (enc (i2 s1 s2)) ≡ s1 % 16 * 4 + s2 / 64
  t3 : dec (enc (bit_and s2 0x3f)) ≡ s2 % 64

group : (s0 s1 s2 : ℕ) → s0 < 256 → s1 < 256 → s2 < 256 → Group s0 s1 s2
group s0 s1 s2 h k l = record {
  t0 = dec-enc (s0 / 4) (omega arith);
  t1 = rw (i1_lem s0 s1 h k) (dec-enc (s0 % 4 * 16 + s1 / 16) (omega arith));
  t2 = rw (i2_lem s1 s2 k l) (dec-enc (s1 % 16 * 4 + s2 / 64) (omega arith));
  t3 = rw (low6 s2 l) (dec-enc (s2 % 64) (omega arith));
}

first_byte : (s0 s1 : ℕ) → s0 < 256 → s1 < 256 → byte0 (s0 / 4) (s0 % 4 * 16 + s1 / 16) ≡ s0
first_byte s0 s1 h k =
    byte0_lem (s0 / 4) (s0 % 4 * 16 + s1 / 16) (omega arith) (omega arith) ∙ omega arith

second_byte :
    (x s1 y : ℕ) → x < 4 → s1 < 256 → y < 4 → byte1 (x * 16 + s1 / 16) (s1 % 16 * 4 + y) ≡ s1
second_byte x s1 y h k l =
    byte1_lem (x * 16 + s1 / 16) (s1 % 16 * 4 + y) (omega arith) (omega arith) ∙ omega arith

third_byte : (x s2 : ℕ) → x < 16 → s2 < 256 → byte2 (x * 4 + s2 / 64) (s2 % 64) ≡ s2
third_byte x s2 h k =
    byte2_lem (x * 4 + s2 / 64) (s2 % 64) (omega arith) (omega arith) ∙ omega arith

or4_small :
    (r : ℕ) (src : Bytes)
    → r < 64
    → dec (at src 0) < 64
    → dec (at src 1) < 64
    → dec (at src 2) < 64
    → dec (at src 3) < 64
    → or4 r src < 64
or4_small r src h a b c d =
    or_below_64 _ _ (or_below_64 _ _ (or_below_64 _ _ (or_below_64 _ _ h a) b) c) d

abbrev Whole : Bytes → Base64Read
Whole binary = record { ok = true; out = binary }

three :
    (s0 s1 s2 : ℕ) (src : Bytes)
    → s0 < 256
    → s1 < 256
    → s2 < 256
    → (byte0 (dec (enc (i0 s0))) (dec (enc (i1 s0 s1)))
        ∷ byte1 (dec (enc (i1 s0 s1))) (dec (enc (i2 s1 s2)))
        ∷ byte2 (dec (enc (i2 s1 s2))) (dec (enc (bit_and s2 0x3f)))
        ∷ [])
      ≡ (s0 ∷ s1 ∷ s2 ∷ [])
three s0 s1 s2 src h k l =
    let g = group s0 s1 s2 h k l in
    rw (
      g.t0,
      g.t1,
      g.t2,
      g.t3,
      first_byte s0 s1 h k,
      second_byte (s0 % 4) s1 (s2 / 64) (omega arith) k (omega arith),
      third_byte (s1 % 16) s2 (omega arith) l,
    )

group_small :
    (s0 s1 s2 r : ℕ) (src : Bytes)
    → s0 < 256
    → s1 < 256
    → s2 < 256
    → r < 64
    → or4 r (encode_group s0 s1 s2 ++ src) < 64
unfolding encode_group
group_small s0 s1 s2 r src h k l m =
    let g = group s0 s1 s2 h k l in
    or4_small r (encode_group s0 s1 s2 ++ src) m (omega (arith, g.t0)) (omega (arith, g.t1))
      (omega (arith, g.t2)) (omega (arith, g.t3))

pull_b64_tail-one :
    (s0 x : ℕ) (rest : Bytes)
    → s0 < 256
    → pull_b64_tail (base64 (s0 ∷ []) ++ rest) (x ∷ []) ≡ Whole (s0 ∷ [])
unfolding pull_b64_tail base64
pull_b64_tail-one s0 x rest h =
    let g = group s0 0 0 h (omega arith) (omega arith) in
    let small =
      or4_small 0 (base64 (s0 ∷ []) ++ rest) (omega arith) (omega (arith, g.t0))
        (omega (arith, g.t1)) (omega (arith, dec_padding)) (omega (arith, dec_padding)) in
    let good : (or4 0 (base64 (s0 ∷ []) ++ rest) == 0xff) ≡ false = ground arith in
    rw good (rw (g.t0, g.t1, first_byte s0 0 h (omega arith)))

pull_b64_tail-two :
    (s0 s1 x y : ℕ) (rest : Bytes)
    → s0 < 256
    → s1 < 256
    → pull_b64_tail (base64 (s0 ∷ s1 ∷ []) ++ rest) (x ∷ y ∷ []) ≡ Whole (s0 ∷ s1 ∷ [])
unfolding pull_b64_tail base64
pull_b64_tail-two s0 s1 x y rest h k =
    let g = group s0 s1 0 h k (omega arith) in
    let t2 : dec (enc (bit_and s1 0x0f * 2 ^ 2)) ≡ s1 % 16 * 4 =
      rw (i2_last s1 k) (dec-enc (s1 % 16 * 4) (omega arith)) in
    let small =
      or4_small 0 (base64 (s0 ∷ s1 ∷ []) ++ rest) (omega arith) (omega (arith, g.t0))
        (omega (arith, g.t1)) (omega (arith, t2)) (omega (arith, dec_padding)) in
    let good : (or4 0 (base64 (s0 ∷ s1 ∷ []) ++ rest) == 0xff) ≡ false = ground arith in
    let last : byte1 (s0 % 4 * 16 + s1 / 16) (s1 % 16 * 4) ≡ s1 =
      byte1_lem (s0 % 4 * 16 + s1 / 16) (s1 % 16 * 4) (omega arith) (omega arith) ∙ omega arith in
    rw good (rw (g.t0, g.t1, t2, first_byte s0 s1 h k, last))

not_error : (r : ℕ) → r < 64 → (r == 0xff) ≡ false
not_error r h = ground arith

pull_groups-base64 :
    (binary to rest : Bytes) (r : ℕ)
    → AreBytes binary
    → length to ≡ length binary
    → r < 64
    → pull_groups r (base64 binary ++ rest) to ≡ Whole binary
unfolding pull_groups base64 encode_group
pull_groups-base64 [] [] rest r h e k = rw (not_error r k) (unfold pull_b64_tail in refl)
pull_groups-base64 (s0 ∷ []) (x ∷ []) rest r h e k =
    rw (not_error r k) (pull_b64_tail-one s0 x rest h.0)
pull_groups-base64 (s0 ∷ s1 ∷ []) (x ∷ y ∷ []) rest r h e k =
    rw (not_error r k) (pull_b64_tail-two s0 s1 x y rest h.0 h.1.0)
pull_groups-base64 (s0 ∷ s1 ∷ s2 ∷ binary) (x ∷ y ∷ z ∷ to) rest r (h, (k, (l, hs))) e m =
    ap₂ after (three s0 s1 s2 rest h k l) (
      pull_groups-base64 binary to rest _ hs (omega arith)
        (group_small s0 s1 s2 r (base64 binary ++ rest) h k l m))
pull_groups-base64 _ _ rest r h e k = absurd (omega arith)

length-base64 : (binary : Bytes) → length (base64 binary) ≡ needed (length binary)
unfolding base64 encode_group
length-base64 [] = refl
length-base64 (s0 ∷ []) = refl
length-base64 (s0 ∷ s1 ∷ []) = refl
length-base64 (s0 ∷ s1 ∷ s2 ∷ binary) = omega (arith, length-base64 binary)

-- Bytes whose text fits the buffer are written in groups of four characters, and these are read
-- back as the same bytes into a target of their number, with what follows them left unread.
pub apk_blob_pull_base64-apk_blob_push_base64 :
    (w : Bytes) (len : ℕ) (binary rest to : Bytes)
    → AreBytes binary
    → needed (length binary) ≤ len
    → length to ≡ length binary
    → (text : Bytes) × (apk_blob_push_base64 (room w len) binary
        ≡ room (w ++ text) (len - needed (length binary)))
      × (apk_blob_pull_base64 (blob (text ++ rest)) to ≡ (blob rest, binary))
unfolding apk_blob_push_base64 apk_blob_pull_base64
apk_blob_pull_base64-apk_blob_push_base64 w len binary rest to h fits same_length =
    let enough : ltb (length (base64 binary ++ rest)) (needed (length to)) ≡ false =
      ground
        (arith, length-append (base64 binary) rest, length-base64 binary, ap needed same_length) in
    let cut : needed (length to) ≡ length (base64 binary) =
      ap needed same_length ∙ sym (length-base64 binary) in
    (
      base64 binary,
      ground arith,
      rw (enough, pull_groups-base64 binary to rest 0 h same_length (omega arith), cut)
          (ap (λ x. (blob x, binary)) (drop-length_append (base64 binary) rest)),
    )
