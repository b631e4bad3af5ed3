-- ===== src/Blob/Base64.antt =====
-- src/blob.c: `apk_blob_push_base64` and `apk_blob_pull_base64`, with their tails.
pub mod Bits
pub mod RoundTrip
pub mod OneLine
use apk_tools.Prelude.{
  Bytes, ℕ, Bool, codes, replicate, get_or, ◌/◌, bit_or, [], ◌+◌, ◌++◌, true, ◌∷◌, ◌^◌, bit_and,
  ◌*◌, if◌then◌else◌, ◌==◌, drop, ◌%◌, ◌&&◌, ltb, false, zero, length, ◌-◌,
}
use apk_tools.Blob.{
  Blob, Buffer, Bytes, ℕ, Bool, [], ◌∷◌, room, true, blob, suc, drop, ltb, false, length, overflow,
  null,
}

b64encode : Bytes
b64encode = codes "ABCDEFGHIJKLMNOPQRSTUVWXYZabcdefghijklmnopqrstuvwxyz0123456789+/"

-- `n` entries that count up from `v`.
count_up : ℕ → ℕ → Bytes
count_up zero v = []
count_up (suc n) v = v ∷ count_up n (v + 1)

-- The 256 entries of the table, its runs of 0xff as one `replicate` each; '=' stands for 0.
b64decode : Bytes
unfolding count_up
b64decode =
    replicate 43 0xff
    ++ (0x3e ∷ 0xff ∷ 0xff ∷ 0xff ∷ 0x3f ∷ [])
    ++ count_up 10 0x34
    ++ (0xff ∷ 0xff ∷ 0xff ∷ 0x00 ∷ 0xff ∷ 0xff ∷ 0xff ∷ [])
    ++ count_up 26 0x00
    ++ replicate 6 0xff
    ++ count_up 26 0x1a
    ++ replicate 133 0xff

pub enc : ℕ → ℕ
unfolding b64encode
enc i = get_or b64encode i 0

pub dec : ℕ → ℕ
unfolding b64decode
dec c = get_or b64decode c 0xff

-- The four characters of three bytes.
pub encode_group : ℕ → ℕ → ℕ → Bytes
encode_group s0 s1 s2 =
    enc (s0 / 2 ^ 2)
    ∷ enc (bit_or (bit_and s0 0x03 * 2 ^ 4) (bit_and s1 0xf0 / 2 ^ 4))
    ∷ enc (bit_or (bit_and s1 0x0f * 2 ^ 2) (bit_and s2 0xc0 / 2 ^ 6))
    ∷ enc (bit_and s2 0x3f)
    ∷ []

-- The last group: `f1` and the third character `t2` are 0 and '=' where one byte is left.
push_b64_tail : ℕ → ℕ → ℕ → Bytes
push_b64_tail f0 f1 t2 =
    enc (f0 / 2 ^ 2)
    ∷ enc (bit_or (bit_and f0 0x03 * 2 ^ 4) (bit_and f1 0xf0 / 2 ^ 4))
    ∷ t2
    ∷ b'='
    ∷ []

-- The loop over the groups of three, and the tail.
pub base64 : Bytes → Bytes
unfolding push_b64_tail
base64 [] = []
base64 (f0 ∷ []) = push_b64_tail f0 0 b'='
base64 (f0 ∷ f1 ∷ []) = push_b64_tail f0 f1 (enc (bit_and f1 0x0f * 2 ^ 2))
base64 (s0 ∷ s1 ∷ s2 ∷ binary) = encode_group s0 s1 s2 ++ base64 binary

abbrev pub needed : ℕ → ℕ
needed len = (len + 2) / 3 * 4

unfoldable pub apk_blob_push_base64 : Buffer → Bytes → Buffer
apk_blob_push_base64 overflow binary = overflow
apk_blob_push_base64 (room w len) binary =
    if ltb len (needed (length binary))
    then overflow
    else room (w ++ base64 binary) (len - needed (length binary))

abbrev pub byte0 : ℕ → ℕ → ℕ
byte0 t0 t1 = bit_or (t0 * 2 ^ 2) (t1 / 2 ^ 4) % 256

abbrev pub byte1 : ℕ → ℕ → ℕ
byte1 t1 t2 = bit_or (t1 * 2 ^ 4) (t2 / 2 ^ 2) % 256

abbrev pub byte2 : ℕ → ℕ → ℕ
byte2 t2 t3 = bit_or (bit_and (t2 * 2 ^ 6) 0xc0) t3 % 256

-- The decoded character at an index of the text. The text has it: `needed` was tested.
abbrev pub at : Bytes → ℕ → ℕ
at src i = get_or src i 0

abbrev pub or4 : ℕ → Bytes → ℕ
or4 r src =
    bit_or (bit_or (bit_or (bit_or r (dec (at src 0))) (dec (at src 1))) (dec (at src 2)))
      (dec (at src 3))

-- What is returned and what the target then holds.
pub record Base64Read : Type 0 where
  pub ok : Bool
  pub out : Bytes

abbrev pub after : Bytes → Base64Read → Base64Read
after bs g = record g { out = bs ++ g.out }

-- The second byte of a tail, and the padding that a tail of one or two bytes has to end with.
tail_second : Bytes → Bytes → Base64Read
tail_second src [] = record { ok = (at src 2 == b'=') && (at src 3 == b'='); out = [] }
tail_second src (y ∷ to) = record {
  ok = at src 3 == b'=';
  out = byte1 (dec (at src 1)) (dec (at src 2)) ∷ to;
}

-- `pull_b64_tail` at a target of one or two bytes, which are its only lengths here.
pub pull_b64_tail : Bytes → Bytes → Base64Read
unfolding tail_second
pull_b64_tail src [] = record { ok = true; out = [] }
pull_b64_tail src (x ∷ to) =
    if or4 0 src == 0xff
    then record { ok = false; out = x ∷ to }
    else after (byte0 (dec (at src 0)) (dec (at src 1)) ∷ []) (tail_second src to)

-- The loop over the groups from `r`, the test of `r` behind it, and the tail.
pub pull_groups : ℕ → Bytes → Bytes → Base64Read
pull_groups r src (x ∷ y ∷ z ∷ to) =
    let t0 = dec (at src 0) in
    let t1 = dec (at src 1) in
    let t2 = dec (at src 2) in
    let t3 = dec (at src 3) in
    after (byte0 t0 t1 ∷ byte1 t1 t2 ∷ byte2 t2 t3 ∷ []) (pull_groups (or4 r src) (drop 4 src) to)
pull_groups r src to = if r == 0xff then record { ok = false; out = to } else pull_b64_tail src to

-- The blob behind the text, or NULL, and the contents of `to`, which are `to` before.
unfoldable pub apk_blob_pull_base64 : Blob → Bytes → Blob × Bytes
apk_blob_pull_base64 null to = (null, to)
apk_blob_pull_base64 (blob b) to =
    let g = pull_groups 0 b to in
    if ltb (length b) (needed (length to))
    then (null, to)
    else (if g.ok then blob (drop (needed (length to)) b) else null, g.out)
