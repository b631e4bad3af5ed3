-- ===== src/Tests/CodecTests.antt =====
-- Hexadecimal, base64 and digests: the results at small texts.
use apk_tools.Tar.Octal.{get_octal-put_octal}
use apk_tools.Tar.{get_octal, put_octal}
use apk_tools.Blob.Digest.RoundTrip.{apk_blob_pull_digest-apk_blob_push_hash}
use apk_tools.Blob.Base64.RoundTrip.{apk_blob_pull_base64-apk_blob_push_base64}
use apk_tools.Blob.Hex.Accepts.{apk_blob_pull_hexdump_overread, is_taken, apk_blob_pull_hexdump_iff}
use apk_tools.Blob.Base64.{apk_blob_push_base64, needed, apk_blob_pull_base64}
use apk_tools.Blob.Digest.{Digest, apk_blob_push_hash, apk_blob_pull_digest, apk_digest_sha1}
use apk_tools.Blob.Hex.{apk_blob_pull_hexdump, apk_blob_push_hexdump}
use apk_tools.Blob.{Blob, blob, room, null}
use apk_tools.Prelude.{
  [], replicate, refl, arith, Bytes, ◌∷◌, codes, ◌≡◌, ◌++◌, some, none, ◌-◌, ◌≢◌, length, ◌*◌, ◌↔◌,
  All, drop, true, take,
}
use apk_tools.Blob.Hex.RoundTrip.{apk_blob_pull_hexdump-apk_blob_push_hexdump, AreBytes}

abbrev beef : Bytes
beef = 0xbe ∷ 0xef ∷ []

beef-AreBytes : AreBytes beef
beef-AreBytes = (omega arith, (omega arith, tt))

apk_blob_pull_hexdump-apk_blob_push_hexdump_example :
    (text : Bytes) × (apk_blob_push_hexdump (room [] 10) beef
      ≡ room ([] ++ text) (10 - length beef * 2))
    × (apk_blob_pull_hexdump (blob (text ++ codes " x")) (replicate 2 0)
        ≡ some (blob (codes " x"), beef))
apk_blob_pull_hexdump-apk_blob_push_hexdump_example =
    apk_blob_pull_hexdump-apk_blob_push_hexdump [] 10 beef (codes " x") (replicate 2 0)
      beef-AreBytes (omega arith) refl

abbrev no_bytes : Bytes
no_bytes = replicate 2 0

apk_blob_pull_hexdump_iff_example :
    (end : Blob) × (out : Bytes) × (apk_blob_pull_hexdump (blob (codes "be+f.")) no_bytes
      ≡ some (end, out))
    × ((end ≢ null) ↔ All (λ c. is_taken c ≡ true) (take (length no_bytes * 2) (codes "be+f.")))
apk_blob_pull_hexdump_iff_example = apk_blob_pull_hexdump_iff (codes "be+f.") no_bytes (omega arith)

apk_blob_pull_hexdump_overread_example :
    apk_blob_pull_hexdump (blob (codes "bee")) (replicate 4 0) ≡ none
apk_blob_pull_hexdump_overread_example =
    apk_blob_pull_hexdump_overread (codes "bee") (replicate 4 0) (omega arith) (omega arith)

apk_blob_pull_base64-apk_blob_push_base64_example :
    (text : Bytes) × (apk_blob_push_base64 (room [] 10) beef
      ≡ room ([] ++ text) (10 - needed (length beef)))
    × (apk_blob_pull_base64 (blob (text ++ codes " x")) (replicate 2 0) ≡ (blob (codes " x"), beef))
apk_blob_pull_base64-apk_blob_push_base64_example =
    apk_blob_pull_base64-apk_blob_push_base64 [] 10 beef (codes " x") (replicate 2 0) beef-AreBytes
      (omega arith) refl

abbrev hash : Bytes
hash = replicate 20 0xa5

hash-AreBytes : AreBytes hash
hash-AreBytes = omega arith

abbrev unset : Digest
unset = record { alg = 0; len = 0; contents = replicate 64 0 }

apk_blob_pull_digest-apk_blob_push_hash_example :
    (text : Bytes) × (apk_blob_push_hash (room [] 64) hash ≡ room ([] ++ text) (64 - 30))
    × (apk_blob_pull_digest (blob (text ++ codes "\n")) unset
        ≡ some (
          blob (codes "\n"),
          record { alg = apk_digest_sha1; len = 20; contents = hash ++ drop 20 unset.contents },
        ))
apk_blob_pull_digest-apk_blob_push_hash_example =
    apk_blob_pull_digest-apk_blob_push_hash [] 64 hash (codes "\n") unset refl hash-AreBytes
      (omega arith) (omega arith) (omega arith)

get_octal-put_octal_example : get_octal (put_octal 8 420 true) none ≡ (420, none)
get_octal-put_octal_example = get_octal-put_octal 8 420 true none (omega arith) (omega arith)
