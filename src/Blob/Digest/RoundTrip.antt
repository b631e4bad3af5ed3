-- ===== src/Blob/Digest/RoundTrip.antt =====
-- A SHA1 is read back from its text.
use apk_tools.Blob.Base64.RoundTrip.{apk_blob_pull_base64-apk_blob_push_base64}
use apk_tools.Blob.Hex.RoundTrip.{AreBytes}
use apk_tools.Blob.Base64.{apk_blob_push_base64, apk_blob_pull_base64, needed}
use apk_tools.Blob.{apk_blob_push_blob, length, take, drop, room, blob, some, ltb, false}
use apk_tools.Prelude.{
  length-take, ℕ, Bytes, ◌≤◌, length, ◌≡◌, ◌++◌, take, ◌≢◌, drop, arith, codes, ◌-◌, some, ◌==◌,
  ltb, ◌∙◌, false, append_assoc, sym, ap,
}
use apk_tools.Blob.Digest.{
  apk_blob_push_hash, apk_blob_pull_digest, Digest, ℕ, apk_digest_set, apk_blob_push_blob, Bytes,
  apk_digest_sha1, apk_digest_alg_len, apk_blob_push_base64, codes,
}

abbrev after_sha1 : Digest → Bytes → Digest
after_sha1 d hash = record {
  alg = apk_digest_sha1;
  len = 20;
  contents = hash ++ drop 20 d.contents;
}

pull_digest-text :
    (text rest hash : Bytes) (d : Digest)
    → length hash ≡ 20
    → length rest ≢ 16
    → apk_blob_pull_base64 (blob (text ++ rest)) (take 20 d.contents) ≡ (blob rest, hash)
    → apk_blob_pull_digest (blob (codes "Q1" ++ (text ++ rest))) d
      ≡ some (blob rest, after_sha1 d hash)
unfolding apk_blob_pull_digest apk_digest_set apk_digest_alg_len
pull_digest-text text rest hash d n other e =
    let short : (length rest == 16) ≡ false = ground arith in rw (e, short, n)

left_over : (len : ℕ) → len - 2 - needed 20 ≡ len - 30
left_over len = omega arith

push_hash-text :
    (w hash text : Bytes) (len : ℕ)
    → length hash ≡ 20
    → 30 ≤ len
    → apk_blob_push_base64 (room (w ++ codes "Q1") (len - 2)) hash
      ≡ room ((w ++ codes "Q1") ++ text) (len - 2 - needed (length hash))
    → apk_blob_push_hash (room w len) hash ≡ room (w ++ (codes "Q1" ++ text)) (len - 30)
unfolding apk_blob_push_hash apk_blob_push_blob
push_hash-text w hash text len n fits e =
    let open_room : ltb len 2 ≡ false = ground arith in
    rw (n, open_room)
      (e ∙ rw (n, append_assoc) (ap (room (w ++ (codes "Q1" ++ text))) (left_over len)))

-- A SHA1 that fits the buffer is written as "Q1" and 28 characters. It is read back as a SHA1 of
-- 20 bytes, which are the hash, with what follows it left unread. This is for a rest that is not
-- 16 characters long.
pub apk_blob_pull_digest-apk_blob_push_hash :
    (w : Bytes) (len : ℕ) (hash rest : Bytes) (d : Digest)
    → length hash ≡ 20
    → AreBytes hash
    → 30 ≤ len
    → 20 ≤ length d.contents
    → length rest ≢ 16
    → (text : Bytes) × (apk_blob_push_hash (room w len) hash ≡ room (w ++ text) (len - 30))
      × (apk_blob_pull_digest (blob (text ++ rest)) d
          ≡ some (
            blob rest,
            record { alg = apk_digest_sha1; len = 20; contents = hash ++ drop 20 d.contents },
          ))
apk_blob_pull_digest-apk_blob_push_hash w len hash rest d n h fits full other =
    let (text, push, pull) =
      apk_blob_pull_base64-apk_blob_push_base64 (w ++ codes "Q1") (len - 2) hash rest
        (take 20 d.contents) h (rw n (omega arith)) (length-take 20 d.contents full ∙ sym n) in
    (
      codes "Q1" ++ text,
      push_hash-text w hash text len n fits push,
      pull_digest-text text rest hash d n other pull,
    )
