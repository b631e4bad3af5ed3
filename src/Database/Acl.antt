-- ===== src/Database/Acl.antt =====
-- src/database.c, src/apk_database.h: owners and modes in the lines of the installed database.
pub mod RoundTrip
use mathlib.Core.Option
use apk_tools.Prelude.{
  ℕ, Bytes, Option, some, none, [], ◌∷◌, ◌%◌, ◌^◌, ◌==◌, if◌then◌else◌, bit_and, codes, length,
}
use apk_tools.Blob.{
  Blob, blob, null, Buffer, apk_blob_push_blob, apk_blob_pull_char, apk_blob_pull_blob_match,
}
use apk_tools.Blob.Number.{apk_blob_pull_uint, apk_blob_push_uint}
use apk_tools.Blob.Digest.{
  Digest, digest_blob, apk_digest_reset, apk_blob_pull_digest, apk_blob_push_hash,
}

-- `struct apk_db_acl`; the hash has `xattr_hash_len` bytes.
pub record Acl : Type 0 where
  pub mode : ℕ
  pub uid : ℕ
  pub gid : ℕ
  pub xattr_hash : Bytes

-- `apk_db_acl_atomize_digest`: uid_t, gid_t and mode_t have 32 bits.
pub apk_db_acl_atomize_digest : ℕ → ℕ → ℕ → Digest → Acl
apk_db_acl_atomize_digest mode uid gid dig = record {
  mode = bit_and (mode % 2 ^ 32) 4095;
  uid = uid % 2 ^ 32;
  gid = gid % 2 ^ 32;
  xattr_hash = digest_blob dig;
}

-- A number of a blob that may be NULL.
pub pull_number : Blob → ℕ → ℕ × Blob
pull_number null radix = (0, null)
pull_number (blob b) radix = let (n, rest) = apk_blob_pull_uint b radix in (n, blob rest)

-- The digest behind ':', or none; `none` is a read behind the end of its text.
pull_xattr : Blob → Digest → Option (Blob × Digest)
pull_xattr null dig = some (null, apk_digest_reset dig)
pull_xattr (blob b) dig = elim (apk_blob_pull_blob_match b (codes ":")) [
  | none ↦ some (blob b, apk_digest_reset dig)
  | some rest ↦ apk_blob_pull_digest (blob rest) dig
]

-- The entries 'M' and 'a' of `apk_db_fdb_read`: what is left of the line, and the acl. `dig` is what
-- the variable held before.
pub read_acl : Blob → Digest → Option (Blob × Acl)
unfolding pull_number pull_xattr
read_acl l dig =
    let uid = pull_number l 10 in
    let gid = pull_number (apk_blob_pull_char uid.1 b':') 10 in
    let mode = pull_number (apk_blob_pull_char gid.1 b':') 8 in
    Option.map (λ p. (p.0, apk_db_acl_atomize_digest mode.0 uid.0 gid.0 p.1))
      (pull_xattr mode.1 dig)

push_xattr : Buffer → Bytes → Buffer
push_xattr b hash =
    if length hash == 0 then b else apk_blob_push_hash (apk_blob_push_blob b (codes ":")) hash

-- The digits run on fuel, which is enough.
pub apk_blob_push_db_acl : Buffer → ℕ → Acl → Option Buffer
unfolding push_xattr
apk_blob_push_db_acl b field acl =
    Option.bind (apk_blob_push_uint (apk_blob_push_blob b (field ∷ b':' ∷ [])) acl.uid 10) (λ b1.
      Option.bind (apk_blob_push_uint (apk_blob_push_blob b1 (codes ":")) acl.gid 10) (λ b2.
        Option.map (λ b3. apk_blob_push_blob (push_xattr b3 acl.xattr_hash) (codes "\n"))
          (apk_blob_push_uint (apk_blob_push_blob b2 (codes ":")) acl.mode 8)))
