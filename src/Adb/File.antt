-- ===== src/Adb/File.antt =====
-- src/adb.c, src/adb.h: whole files in memory, written and read.
pub mod RoundTrip
pub mod Signed
pub mod Whole
pub mod Keys
pub mod Process
pub mod ReadBack
use apk_tools.Blob.Digest.{apk_digest_sha512}
use apk_tools.Blob.{null, blob}
use apk_tools.Prelude.{
  ℕ, Bytes, concat, List, ◌++◌, ◌∷◌, false, replicate, if◌then◌else◌, Option, take, ◌==◌, some, ◌-◌,
  bit_and, none, [], not, ltb, ◌%◌, length, ◌^◌, ◌&&◌, drop,
}
use apk_tools.Errors.{Error, Result, ok, ◌>>=◌, err, apke_adb_header, apke_adb_schema}
use apk_tools.Adb.Words.{le_bytes, le_value}
use apk_tools.Adb.Block.{adb_c_block, adb_block_sig, adb_block_adb}
use apk_tools.Adb.Verify.{
  Crypto, TrustKey, Adb, VerifyCtx, Trust, adb_digest_adb, adb_digest_v0_signature, ExtractCtx,
}
use apk_tools.Adb.Parse.{Parse, adb_format_magic, __adb_m_parse, start, adb_schema_implied}
use mathlib.Core.Option

-- What `adb_c_header` writes to a stream without errors.
unfoldable pub adb_c_header : ℕ → Bytes
adb_c_header schema = le_bytes 4 adb_format_magic ++ le_bytes 4 schema

-- The signature header of a key, before its signature: version, algorithm and id.
abbrev pub sign_v0 : {Key : Type 0} → TrustKey Key → Bytes
sign_v0 tkey = 0 ∷ apk_digest_sha512 ∷ take 16 tkey.id

abbrev pub empty_adb : ℕ → Adb
empty_adb schema = record { adb = null; schema = schema }

module _ {Key : Type 0} (crypto : Crypto Key) where
  -- The payload of the block for a key; the buffer has 2048 bytes.
  unfoldable pub sign_with : ℕ → Bytes → TrustKey Key → Result Bytes
  sign_with schema md tkey =
      let sig0 = sign_v0 tkey in
      crypto.digest_sign tkey.priv apk_digest_sha512 (adb_digest_v0_signature schema sig0 md)
        (2048 - 18)
      >>= (λ sig. ok (sig0 ++ sig))

  -- The blocks for the keys; an error cancels the stream.
  unfoldable pub sign_keys : ℕ → Bytes → List (TrustKey Key) → Result Bytes
  unfolding sign_with
  sign_keys schema md [] = ok []
  sign_keys schema md (tkey ∷ keys) =
      sign_with schema md tkey
      >>= (λ sig. sign_keys schema md keys >>= (λ rest. ok (adb_c_block adb_block_sig sig ++ rest)))

  abbrev pub fresh_vfy : VerifyCtx
  fresh_vfy = record {
    calc = λ alg. false;
    sha256 = record { alg = 0; len = 0; contents = replicate 64 0 };
    sha512 = record { alg = 0; len = 0; contents = replicate 64 0 };
  }

  -- With no `vfy`. Where the digest fails nothing is written and the stream is not cancelled.
  unfoldable pub adb_trust_write_signatures : Trust Key → ℕ → Bytes → Result Bytes
  unfolding sign_keys
  adb_trust_write_signatures trust schema adb =
      elim (adb_digest_adb crypto fresh_vfy apk_digest_sha512 (blob adb)) [
        | err e ↦ ok []
        | ok (md, vfy) ↦ sign_keys schema md trust.private_key_list
      ]

  -- The file.
  unfoldable pub adb_c_adb : Trust Key → ℕ → Bytes → Result Bytes
  unfolding adb_trust_write_signatures adb_c_header
  adb_c_adb trust schema adb =
      if schema == 0
      then err apke_adb_header
      else (adb_trust_write_signatures trust schema adb
          >>= (λ sigs. ok (adb_c_header schema ++ (adb_c_block adb_block_adb adb ++ sigs))))

  module _ {S : Type 0} (trust : Trust Key) (cb : Adb → Bytes → Bytes → S → Result ℕ × S) where
    -- `adb_free` on an error: the block and the schema are gone.
    abbrev pub freed : Option Error × Parse S → Option Error × Parse S
    freed (none, p) = (none, p)
    freed (some e, p) = (some e, record p { db = empty_adb 0 })

    unfoldable pub __adb_m_mmap :
        Adb → Bytes → ℕ → Option ExtractCtx → S → Option (Option Error × Parse S)
    __adb_m_mmap db mmap expected_schema ectx user =
        let p = start crypto trust db ectx user in
        if not (bit_and expected_schema adb_schema_implied == 0)
        then Option.map freed (__adb_m_parse crypto trust cb db mmap ectx user)
        else if ltb (length mmap) 8
        then some (some apke_adb_header, p)
        else if not (le_value (take 4 mmap) == adb_format_magic)
        then some (some apke_adb_header, p)
        else if not (expected_schema == 0)
            && not (expected_schema == le_value (take 4 (drop 4 mmap)))
        then some (some apke_adb_schema, p)
        else Option.map freed (
            __adb_m_parse crypto trust cb (record db { schema = le_value (take 4 (drop 4 mmap)) })
              (drop 8 mmap) ectx user)

    -- For a stream whose file is in memory.
    unfoldable pub adb_m_process :
        Bytes → ℕ → Option ExtractCtx → S → Option (Option Error × Parse S)
    unfolding __adb_m_mmap
    adb_m_process mmap expected_schema ectx user =
        let schema =
          if bit_and expected_schema adb_schema_implied == 0 then 0 else expected_schema % 2 ^ 31 in
        __adb_m_mmap (empty_adb schema) mmap expected_schema ectx user

    unfoldable pub adb_m_blob : Bytes → S → Option (Option Error × Parse S)
    adb_m_blob b user = __adb_m_parse crypto trust cb (empty_adb 0) b none user
