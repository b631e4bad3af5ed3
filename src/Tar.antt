-- ===== src/Tar.antt =====
-- src/tar.c: the number fields of a header, and the padding behind the data of an entry.
pub mod Octal
use apk_tools.Prelude.{
  ℕ, zero, suc, Bytes, Bool, true, false, [], ◌∷◌, replicate, ◌++◌, ◌/◌, ◌%◌, ◌==◌, if◌then◌else◌,
  Option, ◌+◌, ◌-◌, ◌||◌, length, bit_and, some,
}
use apk_tools.Blob.Number.{apk_blob_pull_uint}
use apk_tools.Errors.{Error, apke_v2pkg_format}

-- The loop over the bytes 0 and 0x20 behind the digits.
pub skip_blank : Bytes → Bytes
skip_blank [] = []
skip_blank (c ∷ b) = if c == 0 || c == 0x20 then skip_blank b else c ∷ b

-- The value, and what `*r` becomes: the error where something else stands in the field.
pub get_octal : Bytes → Option Error → ℕ × Option Error
unfolding skip_blank
get_octal s r =
    let (val, b) = apk_blob_pull_uint s 8 in
    (val, if length (skip_blank b) == 0 then r else some apke_v2pkg_format)

-- The two loops from the end of the field on: `left` bytes are free, and `out` are those behind
-- `ptr`.
pub put_rest : ℕ → Bytes → Bytes
put_rest zero out = out
put_rest (suc left) out = put_rest left (b'0' ∷ out)

pub put_octal_digits : ℕ → ℕ → Bytes → Bytes
unfolding put_rest
put_octal_digits zero value out = out
put_octal_digits (suc left) value out =
    let rest = put_octal_digits left (value / 8) ((b'0' + value % 8) ∷ out) in
    if value == 0 then put_rest (suc left) out else rest

-- The bytes of a field of `l` bytes, at least one.
pub put_octal : ℕ → ℕ → Bool → Bytes
unfolding put_octal_digits
put_octal l value true = put_octal_digits (l - 1) value (0 ∷ [])
put_octal l value false = put_octal_digits l value []

-- What is written to the stream behind `size` bytes.
pub apk_tar_write_padding : ℕ → Bytes
apk_tar_write_padding size =
    let pad = 512 - bit_and size 511 in if pad == 512 then [] else replicate pad 0
