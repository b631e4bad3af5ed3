-- ===== src/Adb/Verify/Signed.antt =====
-- What an accepted signature shows, and what a matching identity does.
use apk_tools.Blob.{is_eq, blob, memcmp}
use apk_tools.Errors.{Result-cases, ok}
use apk_tools.Prelude.{
  refl, ℕ, Bytes, List, ◌≡◌, true, none, Bool-cases, arith, drop, inr, inl, get_or, [], subst, sym,
}
use apk_tools.Adb.Verify.{
  Crypto, try_key, try_keys, adb_trust_verify_signature, TrustKey, List, Trust, VerifyCtx, is_eq,
  blob, memcmp, true, none, ok, drop, adb_digest_adb, ◌∷◌, get_or, Adb,
}
use apk_tools.Adb.Verify.Laws.{IsSized, IsCalculated, Any, Accepts, adb_digest_adb-IsDigest}

module _ {Key : Type 0} (crypto : Crypto Key) where
  try_key-digested :
      (b sigb md : Bytes) (schema : ℕ) (tkey : TrustKey Key) (vfy vfy' : VerifyCtx)
      → IsSized crypto
      → IsCalculated crypto b vfy
      → is_eq (memcmp (drop 2 sigb) tkey.id 16) ≡ true
      → adb_digest_adb crypto vfy (get_or sigb 1 0) (blob b) ≡ ok (md, vfy')
      → let (accepted, vfy2) =
          try_key crypto (record { adb = blob b; schema = schema }) sigb tkey vfy in
        IsCalculated crypto b vfy2 × (accepted ≡ true → Accepts crypto schema b sigb tkey)
  unfolding try_key
  try_key-digested b sigb md schema tkey vfy vfy' sized calculated id e =
      let (digest, calculated2) =
        adb_digest_adb-IsDigest crypto b vfy vfy' (get_or sigb 1 0) md sized calculated e in
      rw (id, e) (calculated2, λ a. (md, refl, digest, a))

  pub try_key-Accepts :
      (b sigb : Bytes) (schema : ℕ) (tkey : TrustKey Key) (vfy : VerifyCtx)
      → IsSized crypto
      → IsCalculated crypto b vfy
      → let (accepted, vfy2) =
          try_key crypto (record { adb = blob b; schema = schema }) sigb tkey vfy in
        IsCalculated crypto b vfy2 × (accepted ≡ true → Accepts crypto schema b sigb tkey)
  unfolding try_key
  try_key-Accepts b sigb schema tkey vfy sized calculated =
      elim (Bool-cases (is_eq (memcmp (drop 2 sigb) tkey.id 16))) [
        | inr other ↦ rw other (calculated, λ a. absurd (ground (arith, a)))
        | inl id ↦ elim (Result-cases (adb_digest_adb crypto vfy (get_or sigb 1 0) (blob b))) [
          | inl (x, e) ↦ rw (id, e) (calculated, λ a. absurd (ground (arith, a)))
          | inr ((md, vfy'), e) ↦
              try_key-digested b sigb md schema tkey vfy vfy' sized calculated id e
        ]
      ]

  try_keys-Accepts :
      (b sigb : Bytes) (schema : ℕ) (keys : List (TrustKey Key)) (vfy : VerifyCtx)
      → IsSized crypto
      → IsCalculated crypto b vfy
      → let (accepted, vfy2) =
          try_keys crypto (record { adb = blob b; schema = schema }) sigb keys vfy in
        IsCalculated crypto b vfy2 × (accepted ≡ true → Any (Accepts crypto schema b sigb) keys)
  unfolding try_keys
  try_keys-Accepts b sigb schema [] vfy sized calculated =
      (calculated, λ a. absurd (ground (arith, a)))
  try_keys-Accepts b sigb schema (tkey ∷ keys) vfy sized calculated =
      let db : Adb = record { adb = blob b; schema = schema } in
      let (calculated2, this) = try_key-Accepts b sigb schema tkey vfy sized calculated in
      let (calculated3, later) =
        try_keys-Accepts b sigb schema keys (try_key crypto db sigb tkey vfy).1 sized calculated2 in
      elim (Bool-cases (try_key crypto db sigb tkey vfy).0) [
        | inl here ↦ rw here (calculated2, λ _. inl (this here))
        | inr other ↦ rw other (calculated3, λ a. inr (later a))
      ]

  verify-Accepts :
      (trust : Trust Key) (b sigb : Bytes) (schema : ℕ) (vfy : VerifyCtx)
      → IsSized crypto
      → IsCalculated crypto b vfy
      → let (e, vfy2) =
          adb_trust_verify_signature crypto trust
            (record { adb = blob b; schema = schema })
            vfy
            sigb in
        IsCalculated crypto b vfy2
        × (e ≡ none → Any (Accepts crypto schema b sigb) trust.trusted_key_list)
  unfolding adb_trust_verify_signature
  verify-Accepts trust b sigb schema vfy sized calculated =
      let (calculated2, accepts) =
        try_keys-Accepts b sigb schema trust.trusted_key_list vfy sized calculated in
      ground arith

  -- A signature is accepted only where some trusted key has its id and verifies it for the schema,
  -- the header and the block's digest; whether it is or not, the digests kept are still the block's.
  -- This is for a context that holds no other block's digests, and digests of their algorithm's size.
  pub adb_trust_verify_signature-Accepts :
      (trust : Trust Key) (b sigb : Bytes) (db : Adb) (vfy : VerifyCtx)
      → IsSized crypto
      → db.adb ≡ blob b
      → IsCalculated crypto b vfy
      → let (e, vfy2) = adb_trust_verify_signature crypto trust db vfy sigb in
        IsCalculated crypto b vfy2
        × (e ≡ none → Any (Accepts crypto db.schema b sigb) trust.trusted_key_list)
  adb_trust_verify_signature-Accepts trust b sigb db vfy sized has calculated =
      subst
        (λ a.
          let (e, vfy2) =
            adb_trust_verify_signature crypto trust (record { adb = a; schema = db.schema }) vfy
              sigb in
          IsCalculated crypto b vfy2
          × (e ≡ none → Any (Accepts crypto db.schema b sigb) trust.trusted_key_list))
        (sym has) (verify-Accepts trust b sigb db.schema vfy sized calculated)
