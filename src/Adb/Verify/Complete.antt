-- ===== src/Adb/Verify/Complete.antt =====
-- A signature that a trusted key accepts is accepted, wherever the key stands in the list.
use apk_tools.Blob.Digest.{apk_digest_alg_len}
use apk_tools.Blob.{blob}
use apk_tools.Prelude.{
  refl, ℕ, Bytes, ◌≡◌, some-injective, some, List, sym, ◌≤◌, ◌∙◌, true, length, ap, Bool-cases,
  get_or, inl, take, none, inr, arith, [],
}
use apk_tools.Adb.Verify.{
  Crypto, calc_digest, VerifyCtx, try_key, try_keys, adb_trust_verify_signature, some,
  adb_digest_adb, TrustKey, List, Trust, blob, ok, true, length, cut_digest, get_or, ◌∷◌, take,
  none, apk_digest_alg_len, Adb, apk_digest_calc, base_alg,
}
use apk_tools.Adb.Verify.Laws.{
  IsSized, IsCalculated, Any, Accepts, IsDigest, adb_digest_adb-IsDigest,
}
use apk_tools.Adb.Verify.Signed.{try_key-Accepts}
use apk_tools.Errors.{ok}

module _ {Key : Type 0} (crypto : Crypto Key) where
  IsDigest-unique :
      (h : ℕ) (b md md' : Bytes) → IsDigest crypto h b md → IsDigest crypto h b md' → md ≡ md'
  IsDigest-unique h b md md' (alg, full, base, is, e) (alg', full', base', is', e') =
      let same_alg : alg ≡ alg' = some-injective alg alg' (sym base ∙ base') in
      let same : full ≡ full' =
        some-injective full full' (sym is ∙ ap (λ (a : ℕ). crypto.evp_digest a b) same_alg ∙ is') in
      e ∙ ap (λ x. take (apk_digest_alg_len h) x) same ∙ sym e'

  calc_digest-ok :
      (vfy : VerifyCtx) (alg : ℕ) (b full : Bytes)
      → crypto.evp_digest alg b ≡ some full
      → (vfy' : VerifyCtx) × (calc_digest crypto vfy alg (blob b) ≡ ok vfy')
  unfolding calc_digest
  calc_digest-ok vfy alg b full is = elim (Bool-cases (vfy.calc alg)) [
    | inl there ↦ rw there (_, refl)
    | inr missing ↦ rw (missing, apk_digest_calc, is) (_, refl)
  ]

  digest_found :
      (vfy vfy' : VerifyCtx) (h alg : ℕ) (b : Bytes)
      → base_alg h ≡ some alg
      → calc_digest crypto vfy alg (blob b) ≡ ok vfy'
      → adb_digest_adb crypto vfy h (blob b) ≡ ok (cut_digest vfy' alg h, vfy')
  unfolding adb_digest_adb
  digest_found vfy vfy' h alg b base done = rw (base, adb_digest_adb, done) refl

  pub adb_digest_adb-ok :
      (vfy : VerifyCtx) (h : ℕ) (b md : Bytes)
      → IsSized crypto
      → IsCalculated crypto b vfy
      → IsDigest crypto h b md
      → (vfy' : VerifyCtx) × (adb_digest_adb crypto vfy h (blob b) ≡ ok (md, vfy'))
  adb_digest_adb-ok vfy h b md sized calculated (alg, full, base, is, e) =
      let (vfy', done) = calc_digest-ok vfy alg b full is in
      let found : adb_digest_adb crypto vfy h (blob b) ≡ ok (cut_digest vfy' alg h, vfy') =
        digest_found vfy vfy' h alg b base done in
      let (digest, _) =
        adb_digest_adb-IsDigest crypto b vfy vfy' h (cut_digest vfy' alg h) sized calculated
          found in
      let same = IsDigest-unique h b (cut_digest vfy' alg h) md digest (alg, full, base, is, e) in
      (vfy', found ∙ ap (λ x. ok (x, vfy')) same)

  try_key-ok :
      (b sigb : Bytes) (schema : ℕ) (tkey : TrustKey Key) (vfy : VerifyCtx)
      → IsSized crypto
      → IsCalculated crypto b vfy
      → Accepts crypto schema b sigb tkey
      → (try_key crypto (record { adb = blob b; schema = schema }) sigb tkey vfy).0 ≡ true
  unfolding try_key
  try_key-ok b sigb schema tkey vfy sized calculated (md, id, digest, verified) =
      let (vfy', is) = adb_digest_adb-ok vfy (get_or sigb 1 0) b md sized calculated digest in
      rw (id, is) verified

  try_keys-ok :
      (b sigb : Bytes) (schema : ℕ) (keys : List (TrustKey Key)) (vfy : VerifyCtx)
      → IsSized crypto
      → IsCalculated crypto b vfy
      → Any (Accepts crypto schema b sigb) keys
      → (try_keys crypto (record { adb = blob b; schema = schema }) sigb keys vfy).0 ≡ true
  unfolding try_keys
  try_keys-ok b sigb schema [] vfy sized calculated h = absurd h
  try_keys-ok b sigb schema (tkey ∷ keys) vfy sized calculated (inl here) =
      rw (try_key-ok b sigb schema tkey vfy sized calculated here) refl
  try_keys-ok b sigb schema (tkey ∷ keys) vfy sized calculated (inr there) =
      let db : Adb = record { adb = blob b; schema = schema } in
      let (calculated2, _) = try_key-Accepts crypto b sigb schema tkey vfy sized calculated in
      let later =
        try_keys-ok b sigb schema keys (try_key crypto db sigb tkey vfy).1 sized calculated2
          there in
      elim (Bool-cases (try_key crypto db sigb tkey vfy).0) [
        | inl first ↦ rw first refl
        | inr other ↦ rw other later
      ]

  -- A signature of version 0 and at least a header's length that some trusted key accepts is
  -- accepted, wherever the key stands.
  pub accepted_signature :
      (trust : Trust Key) (b sigb : Bytes) (schema : ℕ) (vfy : VerifyCtx)
      → IsSized crypto
      → IsCalculated crypto b vfy
      → 18 ≤ length sigb
      → get_or sigb 0 0 ≡ 0
      → Any (Accepts crypto schema b sigb) trust.trusted_key_list
      → (adb_trust_verify_signature crypto trust
          (record { adb = blob b; schema = schema })
          vfy
          sigb).0
        ≡ none
  unfolding adb_trust_verify_signature
  accepted_signature trust b sigb schema vfy sized calculated long version keys =
      let accepted = try_keys-ok b sigb schema trust.trusted_key_list vfy sized calculated keys in
      ground arith
