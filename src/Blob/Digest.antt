-- ===== src/Blob/Digest.antt =====
-- src/crypto.c, src/apk_crypto.h, src/blob.c: digests, and their text form.
pub mod RoundTrip
use apk_tools.Blob.Number.{dx}
use apk_tools.Blob.Hex.{apk_blob_pull_hexdump, apk_blob_push_hexdump}
use apk_tools.Blob.Base64.{apk_blob_pull_base64, apk_blob_push_base64, dec}
use apk_tools.Prelude.{
  ℕ, Bytes, Option, get_or, if◌then◌else◌, take, length, ◌∷◌, ◌==◌, ◌++◌, drop, ◌&&◌, ◌+◌, not,
  codes, none,
}
use mathlib.Core.Option
use apk_tools.Blob.{
  Blob, Buffer, ℕ, Bytes, null, Option, take, length, some, drop, bytes, blob, apk_blob_push_blob,
  overflow,
}

abbrev pub apk_digest_none : ℕ
apk_digest_none = 0

abbrev pub apk_digest_sha1 : ℕ
apk_digest_sha1 = 2

abbrev pub apk_digest_sha256 : ℕ
apk_digest_sha256 = 3

abbrev pub apk_digest_sha512 : ℕ
apk_digest_sha512 = 4

abbrev pub apk_digest_sha256_160 : ℕ
apk_digest_sha256_160 = 5

unfoldable pub apk_digest_alg_len : ℕ → ℕ
apk_digest_alg_len alg =
    if alg == apk_digest_sha1
    then 20
    else if alg == apk_digest_sha256_160
    then 20
    else if alg == apk_digest_sha256
    then 32
    else if alg == apk_digest_sha512
    then 64
    else 0

unfoldable pub apk_digest_alg_by_len : ℕ → ℕ
apk_digest_alg_by_len len =
    if len == 0
    then apk_digest_none
    else if len == 20
    then apk_digest_sha1
    else if len == 32
    then apk_digest_sha256
    else if len == 64
    then apk_digest_sha512
    else apk_digest_none

-- `bytes` are the 64 of `data`.
pub record Digest : Type 0 where
  pub alg : ℕ
  pub len : ℕ
  pub contents : Bytes

-- `APK_DIGEST_BLOB(d)`.
abbrev pub digest_blob : Digest → Bytes
digest_blob d = take d.len d.contents

unfoldable pub apk_digest_reset : Digest → Digest
apk_digest_reset d = record d { alg = apk_digest_none; len = 0 }

unfoldable pub apk_digest_set : Digest → ℕ → Digest
apk_digest_set d alg = record d { alg = alg; len = apk_digest_alg_len alg }

-- `memcpy(d->data, b.ptr, d->len)` writes the front of `data`.
unfoldable pub apk_digest_from_blob : Digest → Bytes → Digest
apk_digest_from_blob d b =
    let alg = apk_digest_alg_by_len (length b) in
    if alg == apk_digest_none
    then record d { alg = alg; len = 0 }
    else record d { alg = alg; len = length b; contents = b ++ drop (length b) d.contents }

unfoldable pub apk_blob_push_hash : Buffer → Bytes → Buffer
apk_blob_push_hash to hash =
    if length hash == 20
    then apk_blob_push_base64 (apk_blob_push_blob to (codes "Q1")) hash
    else overflow

unfoldable pub apk_blob_push_hash_hex : Buffer → Bytes → Buffer
apk_blob_push_hash_hex to hash =
    if length hash == 20
    then apk_blob_push_hexdump (apk_blob_push_blob to (codes "X1")) hash
    else overflow

-- The bytes read into `data` from `offset` on.
abbrev pub store_at : ℕ → Digest → Bytes → Digest
store_at offset d out = record d {
  contents = take offset d.contents ++ (out ++ drop (offset + length out) d.contents);
}

abbrev pub read_at : ℕ → ℕ → Digest → Bytes
read_at offset len d = take len (drop offset d.contents)

abbrev pub first_char : Blob → ℕ
first_char b = get_or (bytes b) 0 0

-- `fail:` of `apk_blob_pull_digest`.
abbrev pub digest_fail : Digest → Blob × Digest
digest_fail d = (null, apk_digest_reset d)

-- After the digits of a SHA1: the rest of a SHA256, where 24 more characters follow.
hex_more : Option (Blob × Bytes) → Digest → Option (Blob × Digest)
hex_more none d = none
hex_more (some (b, out)) d =
    let d' = store_at 0 d out in
    let d2 = apk_digest_set d' apk_digest_sha256 in
    let tail = apk_blob_pull_hexdump b (read_at 20 12 d2) in
    if (d.alg == apk_digest_sha1) && (length (bytes b) == 24) && not (dx (first_char b) == 0xff)
    then Option.map (λ p. (p.0, store_at 20 d2 p.1)) tail
    else some (b, d')

base64_more : Blob × Bytes → Digest → Blob × Digest
base64_more (b, out) d =
    let d' = store_at 0 d out in
    let d2 = apk_digest_set d' apk_digest_sha256 in
    let tail = apk_blob_pull_base64 b (read_at 20 12 d2) in
    if (d.alg == apk_digest_sha1) && (length (bytes b) == 16) && not (dec (first_char b) == 0xff)
    then (tail.0, store_at 20 d2 tail.1)
    else (b, d')

pull_encoded : ℕ → Bytes → Digest → Option (Blob × Digest)
unfolding hex_more base64_more
pull_encoded encoding b d =
    if encoding == b'X'
    then hex_more (apk_blob_pull_hexdump (blob b) (read_at 0 d.len d)) d
    else if encoding == b'Q'
    then some (base64_more (apk_blob_pull_base64 (blob b) (read_at 0 d.len d)) d)
    else some (digest_fail d)

-- The blob behind the digest, or NULL, and the digest; `none` is the read behind the end of the
-- text that `apk_blob_pull_hexdump` may make.
pub apk_blob_pull_digest : Blob → Digest → Option (Blob × Digest)
unfolding pull_encoded
apk_blob_pull_digest (blob (encoding ∷ kind ∷ b)) d =
    if kind == b'1'
    then pull_encoded encoding b (apk_digest_set d apk_digest_sha1)
    else if kind == b'2'
    then pull_encoded encoding b (apk_digest_set d apk_digest_sha256)
    else some (digest_fail d)
apk_blob_pull_digest _ d = some (digest_fail d)
