-- ===== src/Adb/File/ReadBack.antt =====
-- A file is read as it was written, by a reader that trusts a key of the writer.
use apk_tools.Adb.File.Process.{AreSigned-IsPayload}
use apk_tools.Adb.File.Whole.{__adb_m_parse-written}
use apk_tools.Adb.Block.{adb_c_block, adb_block_adb}
use apk_tools.Adb.File.Process.{AreSigned-IsPayload, AreSigned-IsTrustedSig}
use apk_tools.Adb.File.Keys.{FitsRoom, IsPair, sign_keys-AreSigned}
use apk_tools.Blob.{null, blob}
use apk_tools.Adb.Verify.Complete.{adb_digest_adb-ok}
use apk_tools.Errors.{ok, ok->>=, ok-injective}
use apk_tools.Adb.Parse.{adb_format_magic, adb_schema_implied, __adb_m_parse, Parse}
use apk_tools.Blob.Digest.{apk_digest_sha512, apk_digest_alg_len}
use apk_tools.Adb.Words.{le_bytes, le_value, le_value-le_bytes}
use apk_tools.Prelude.{
  refl, ℕ, Bytes, ◌<◌, ◌≤◌, drop, ◌≡◌, take, ◌^◌, ◌++◌, length, arith, some, bit_and, ◌⊎◌,
  true_not_false, none, ltb, false, not, ◌==◌, ◌&&◌, get_or, true, sym, ◌∙◌, ap, inl, inr,
}
use apk_tools.Adb.Verify.{Crypto, Trust, base_alg}
use apk_tools.Adb.Verify.Laws.{IsSized, IsCalculated, IsDigest, Any}
use apk_tools.Adb.File.{
  sign_keys, adb_c_header, Trust, le_bytes, adb_m_process, adb_trust_write_signatures, le_value,
  drop, __adb_m_mmap, apk_digest_sha512, take, length, adb_format_magic, some, bit_and, ok,
  adb_schema_implied, fresh_vfy, none, freed, __adb_m_parse, null, ltb, false, not, adb_c_adb,
  Parse, blob, adb_c_block,
}
use apk_tools.Adb.File.RoundTrip.{__adb_dummy_cb, IsPayload, sig_blocks}
use mathlib.Core.Option

header_magic :
    (schema : ℕ) (body : Bytes) → le_value (take 4 (adb_c_header schema ++ body)) ≡ adb_format_magic
unfolding adb_c_header le_bytes le_value
header_magic schema body = refl

header_schema :
    (schema : ℕ) (body : Bytes)
    → schema < 2 ^ 32
    → le_value (take 4 (drop 4 (adb_c_header schema ++ body))) ≡ schema
unfolding adb_c_header le_bytes
header_schema schema body h = le_value-le_bytes 4 schema h

header_rest : (schema : ℕ) (body : Bytes) → drop 8 (adb_c_header schema ++ body) ≡ body
unfolding adb_c_header le_bytes
header_rest schema body = refl

header_long : (schema : ℕ) (body : Bytes) → 8 ≤ length (adb_c_header schema ++ body)
unfolding adb_c_header le_bytes
header_long schema body = omega arith

sha512-IsDigest :
    {Key : Type 0} (crypto : Crypto Key) (adb full : Bytes)
    → crypto.evp_digest apk_digest_sha512 adb ≡ some full
    → IsDigest crypto apk_digest_sha512 adb (take 64 full)
unfolding base_alg apk_digest_alg_len
sha512-IsDigest crypto adb full is = (apk_digest_sha512, full, refl, is, refl)

written_signatures :
    {Key : Type 0} (crypto : Crypto Key) (writer : Trust Key) (schema : ℕ)
    (adb full written : Bytes)
    → IsSized crypto
    → crypto.evp_digest apk_digest_sha512 adb ≡ some full
    → adb_trust_write_signatures crypto writer schema adb ≡ ok written
    → sign_keys crypto schema (take 64 full) writer.private_key_list ≡ ok written
unfolding adb_trust_write_signatures
written_signatures crypto writer schema adb full written sized is e =
    let calculated : IsCalculated crypto adb (fresh_vfy crypto) = record {
      holds_256 = λ t. absurd (true_not_false _ t refl);
      holds_512 = λ t. absurd (true_not_false _ t refl);
    } in
    let (vfy, done) =
      adb_digest_adb-ok crypto (fresh_vfy crypto) apk_digest_sha512 adb (take 64 full) sized
        calculated (sha512-IsDigest crypto adb full is) in
    ground (arith, e, done)

module _ {Key S : Type 0} (crypto : Crypto Key) (trust : Trust Key) where
  -- A file with the header that the reader expects.
  process_header :
      (file : Bytes) (expected schema : ℕ) (user : S)
      → 8 ≤ length file
      → le_value (take 4 file) ≡ adb_format_magic
      → le_value (take 4 (drop 4 file)) ≡ schema
      → bit_and expected adb_schema_implied ≡ 0
      → (expected ≡ 0) ⊎ (expected ≡ schema)
      → adb_m_process crypto trust __adb_dummy_cb file expected none user
        ≡ Option.map (freed crypto trust __adb_dummy_cb) (
            __adb_m_parse crypto trust __adb_dummy_cb
              (record { adb = null; schema = schema })
              (drop 8 file)
              none
              user)
  unfolding adb_m_process __adb_m_mmap
  process_header file expected schema user long magic word plain match =
      let fits : ltb (length file) 8 ≡ false = ground (arith, long) in
      let same : (not (expected == 0) && not (expected == schema)) ≡ false =
        ground (arith, match) in
      rw (plain, fits, magic, word, same) refl

  -- A file that `adb_c_adb` writes is read by `adb_m_process` with its schema and its block, where the
  -- reader asks for untrusted files or trusts the public key to one of the writer's private keys.
  -- This is for a schema that is not 0, a block of version 0 with a header, at most 2^64 - 24 bytes
  -- of it, and a reader that expects the schema or any; and for a library whose digests have their
  -- size and whose signatures fit their room. The digest of the block does not fail.
  pub adb_m_process-adb_c_adb :
      (writer : Trust Key) (schema expected : ℕ) (adb full file : Bytes) (user : S)
      → IsSized crypto
      → FitsRoom crypto
      → crypto.evp_digest apk_digest_sha512 adb ≡ some full
      → 0 < schema
      → schema < 2 ^ 32
      → bit_and expected adb_schema_implied ≡ 0
      → (expected ≡ 0) ⊎ (expected ≡ schema)
      → 8 ≤ length adb
      → get_or adb 0 0 ≡ 0
      → IsPayload adb
      → (trust.allow_untrusted ≡ true)
        ⊎ Any (λ tkey. Any (IsPair crypto tkey) trust.trusted_key_list) writer.private_key_list
      → adb_c_adb crypto writer schema adb ≡ ok file
      → (p : Parse S) × (adb_m_process crypto trust __adb_dummy_cb file expected none user
          ≡ some (none, p))
        × (p.db ≡ record { adb = blob adb; schema = schema })
  adb_m_process-adb_c_adb writer schema expected adb full file user sized room is pos word plain
        match long version small trusts e =
      let digest = sha512-IsDigest crypto adb full is in
      let some_schema : (schema == 0) ≡ false = ground (arith, pos) in
      let (written, wrote, same) =
        ok->>= (adb_trust_write_signatures crypto writer schema adb)
          (λ sigs. ok (adb_c_header schema ++ (adb_c_block adb_block_adb adb ++ sigs))) file
          (unfold adb_c_adb in ground (arith, e, some_schema)) in
      let (sigs, blocks, signed) =
        sign_keys-AreSigned crypto schema adb (take 64 full) digest writer.private_key_list written
          (written_signatures crypto writer schema adb full written sized is wrote) in
      let body = adb_c_block adb_block_adb adb ++ sig_blocks sigs in
      let whole : file ≡ adb_c_header schema ++ body =
        sym (
          ok-injective (adb_c_header schema ++ (adb_c_block adb_block_adb adb ++ written)) file
            same)
        ∙ ap (λ x. adb_c_header schema ++ (adb_c_block adb_block_adb adb ++ x)) blocks in
      let (p, parsed, has) =
        __adb_m_parse-written crypto trust schema adb sigs user sized long version small
          (AreSigned-IsPayload crypto schema adb (take 64 full) digest writer.private_key_list sigs
            room signed)
          (elim trusts [
            | inl untrusted ↦ inl untrusted
            | inr pair ↦ inr (
                AreSigned-IsTrustedSig crypto schema adb (take 64 full) digest trust
                  writer.private_key_list sigs pair signed)
          ]) in
      (
        p,
        ap (λ f. adb_m_process crypto trust __adb_dummy_cb f expected none user) whole
            ∙ process_header (adb_c_header schema ++ body) expected schema user
                (header_long schema body) (header_magic schema body)
                (header_schema schema body word) plain match
            ∙ ap
                (λ b. Option.map (freed crypto trust __adb_dummy_cb) (
                  __adb_m_parse crypto trust __adb_dummy_cb (record { adb = null; schema = schema })
                    b none user))
                (header_rest schema body)
            ∙ ap (λ o. Option.map (freed crypto trust __adb_dummy_cb) o) parsed,
        has,
      )
