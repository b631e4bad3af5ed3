-- ===== src/Adb/Verify.antt =====
-- src/adb.c, src/adb.h, src/apk_trust.h, src/crypto_openssl.c: the digest of the ADB block, the
-- identity of a package, and signatures. The functions of the cryptographic library are a record,
-- a parameter of what uses them.
pub mod Laws
pub mod Signed
pub mod Identity
pub mod Complete
use apk_tools.Adb.Words.{le_bytes}
use apk_tools.Blob.{blob, Blob, is_eq, is_null, apk_blob_compare, memcmp, blob, null}
use apk_tools.Prelude.{
  ℕ, Bytes, Option, List, Bool, if◌then◌else◌, ◌==◌, take, ◌||◌, some, ◌++◌, not, false, ◌∷◌, none,
  drop, true, length, get_or, ltb, [],
}
use apk_tools.Errors.{
  Error, Result, ok, err, apke_adb_block, apke_adb_integrity, apke_crypto_error,
  apke_crypto_not_supported, ◌>>=◌, apke_adb_signature, apke_signature_untrusted,
}
use apk_tools.Blob.Digest.{
  Digest, apk_digest_sha256_160, apk_digest_sha512, apk_digest_alg_len, apk_digest_sha256,
  apk_digest_set, apk_digest_none, apk_digest_sha1,
}

-- `evp_digest alg b` is EVP_Digest, with `none` for its failure. `digest_verify key alg text sig` is
-- whether EVP_DigestVerifyInit, the updates and EVP_DigestVerifyFinal all succeed on the text of the
-- updates, `digest_sign key alg text room` the same for signing into `room` bytes.
pub record Crypto (Key : Type 0) : Type 0 where
  pub evp_digest : ℕ → Bytes → Option Bytes
  pub digest_verify : Key → ℕ → Bytes → Bytes → Bool
  pub digest_sign : Key → ℕ → Bytes → ℕ → Result Bytes

-- `struct apk_pkey`; the id has 16 bytes.
pub record TrustKey (Key : Type 0) : Type 0 where
  pub id : Bytes
  pub priv : Key

pub record Trust (Key : Type 0) : Type 0 where
  pub trusted_key_list : List (TrustKey Key)
  pub private_key_list : List (TrustKey Key)
  pub allow_untrusted : Bool

-- `calc` is a word in the source, with a bit for each algorithm.
pub record VerifyCtx : Type 0 where
  pub calc : ℕ → Bool
  pub sha256 : Digest
  pub sha512 : Digest

-- `struct adb` as a reader sees it.
pub record Adb : Type 0 where
  pub adb : Blob
  pub schema : ℕ

-- What `struct apk_extract_ctx` has for the identity; `generate_identity` may be NULL.
pub record ExtractCtx : Type 0 where
  pub generate_identity : Option Digest
  pub generate_alg : ℕ
  pub verify_alg : ℕ
  pub verify_digest : Bytes

-- The digest that an algorithm is cut from, by the `switch`.
unfoldable pub base_alg : ℕ → Option ℕ
base_alg hash_alg =
    if hash_alg == apk_digest_sha256_160
    then some apk_digest_sha256
    else if hash_alg == apk_digest_sha256
    then some apk_digest_sha256
    else if hash_alg == apk_digest_sha512
    then some apk_digest_sha512
    else none

abbrev pub digest_of : VerifyCtx → ℕ → Digest
digest_of vfy alg = if alg == apk_digest_sha512 then vfy.sha512 else vfy.sha256

abbrev pub set_digest : VerifyCtx → ℕ → Digest → VerifyCtx
set_digest vfy alg d =
    let calc : ℕ → Bool = λ a. (a == alg) || vfy.calc a in
    if alg == apk_digest_sha512
    then record vfy { sha512 = d; calc = calc }
    else record vfy { sha256 = d; calc = calc }

-- `*pmd`.
abbrev pub cut_digest : VerifyCtx → ℕ → ℕ → Bytes
cut_digest vfy alg hash_alg = take (apk_digest_alg_len hash_alg) (digest_of vfy alg).contents

-- The text that a signature is of: schema, header and digest.
unfoldable pub adb_digest_v0_signature : ℕ → Bytes → Bytes → Bytes
adb_digest_v0_signature schema sig0 md = le_bytes 4 schema ++ (take 18 sig0 ++ md)

-- 1 where the block is identified, 0 where there is nothing to say; and the generated identity.
unfoldable pub compare_identity : ExtractCtx → Bytes → Result ℕ
compare_identity ectx calculated =
    if is_eq (apk_blob_compare ectx.verify_digest calculated)
    then ok 1
    else if ectx.verify_alg == apk_digest_sha256_160
    then ok 0
    else err apke_adb_integrity

unfoldable pub take_identity : ExtractCtx → ℕ → Bytes → Result (ℕ × ExtractCtx)
unfolding compare_identity
take_identity ectx alg calculated = elim ectx.generate_identity [
  | some d ↦
      let d' = apk_digest_set d alg in
      let d2 : Digest = record d' {
        contents = calculated ++ drop (length calculated) d'.contents;
      } in
      ok (0, record ectx { generate_identity = some d2 })
  | none ↦ compare_identity ectx calculated >>= (λ r. ok (r, ectx))
]

-- Behind the digest of the block.
abbrev pub use_digest :
    ExtractCtx → ℕ → Bytes × VerifyCtx → Result (ℕ × (Option ExtractCtx × VerifyCtx))
use_digest ectx alg (calculated, vfy) =
    take_identity ectx alg calculated >>= (λ (r, ectx'). ok (r, (some ectx', vfy)))

module _ {Key : Type 0} (crypto : Crypto Key) where
  unfoldable pub apk_digest_calc : Digest → ℕ → Bytes → Result Digest
  apk_digest_calc d alg b = elim (crypto.evp_digest alg b) [
    | none ↦ err apke_crypto_error
    | some md ↦ ok (apk_digest_set (record d { contents = md ++ drop (length md) d.contents }) alg)
  ]

  -- The algorithm is one of the two.
  unfoldable pub calc_digest : VerifyCtx → ℕ → Blob → Result VerifyCtx
  unfolding apk_digest_calc
  calc_digest vfy alg null = if vfy.calc alg then ok vfy else err apke_adb_block
  calc_digest vfy alg (blob b) =
      if vfy.calc alg
      then ok vfy
      else (apk_digest_calc (digest_of vfy alg) alg b >>= (λ d. ok (set_digest vfy alg d)))

  -- The digest, and the context with what was calculated.
  unfoldable pub adb_digest_adb : VerifyCtx → ℕ → Blob → Result (Bytes × VerifyCtx)
  adb_digest_adb vfy hash_alg b = elim (base_alg hash_alg) [
    | none ↦ err apke_crypto_not_supported
    | some alg ↦ calc_digest vfy alg b >>= (λ vfy'. ok (cut_digest vfy' alg hash_alg, vfy'))
  ]

  unfoldable pub __adb_handle_identity :
      Option ExtractCtx → VerifyCtx → Bytes → Result (ℕ × (Option ExtractCtx × VerifyCtx))
  unfolding adb_digest_adb take_identity
  __adb_handle_identity none vfy b = ok (0, (none, vfy))
  __adb_handle_identity (some ectx) vfy b =
      let alg = if ectx.generate_alg == 0 then ectx.verify_alg else ectx.generate_alg in
      if (alg == apk_digest_none) || (alg == apk_digest_sha1)
      then ok (0, (some ectx, vfy))
      else (adb_digest_adb vfy alg (blob b) >>= use_digest ectx alg)

  -- One key of the loop: the context, and whether the key accepts.
  unfoldable pub try_key : Adb → Bytes → TrustKey Key → VerifyCtx → Bool × VerifyCtx
  unfolding adb_digest_adb adb_digest_v0_signature
  try_key db sigb tkey vfy =
      if not (is_eq (memcmp (drop 2 sigb) tkey.id 16))
      then (false, vfy)
      else elim (adb_digest_adb vfy (get_or sigb 1 0) db.adb) [
        | err e ↦ (false, vfy)
        | ok (md, vfy') ↦ (
          crypto.digest_verify tkey.priv apk_digest_sha512
              (adb_digest_v0_signature db.schema sigb md) (drop 18 sigb),
          vfy',
        )
      ]

  unfoldable pub try_keys : Adb → Bytes → List (TrustKey Key) → VerifyCtx → Bool × VerifyCtx
  unfolding try_key
  try_keys db sigb [] vfy = (false, vfy)
  try_keys db sigb (tkey ∷ keys) vfy =
      let (accepted, vfy') = try_key db sigb tkey vfy in
      let rest = try_keys db sigb keys vfy' in if accepted then (true, vfy') else rest

  -- The error, or `none` for 0, and the context.
  unfoldable pub adb_trust_verify_signature :
      Trust Key → Adb → VerifyCtx → Bytes → Option Error × VerifyCtx
  unfolding try_keys
  adb_trust_verify_signature trust db vfy sigb =
      if is_null db.adb
      then (some apke_adb_block, vfy)
      else if ltb (length sigb) 2
      then (some apke_adb_signature, vfy)
      else if not (get_or sigb 0 0 == 0)
      then (some apke_adb_signature, vfy)
      else if ltb (length sigb) 18
      then (some apke_adb_signature, vfy)
      else let (accepted, vfy') = try_keys db sigb trust.trusted_key_list vfy in
        (if accepted then none else some apke_signature_untrusted, vfy')
