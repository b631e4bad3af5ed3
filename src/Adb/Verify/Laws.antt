-- ===== src/Adb/Verify/Laws.antt =====
-- What an accepted signature and a matching identity show.
use apk_tools.Errors.{ok, ok->>=, ok-injective}
use apk_tools.Blob.{is_eq, memcmp, blob}
use apk_tools.Blob.Digest.{
  Digest, apk_digest_sha256, apk_digest_alg_len, apk_digest_set, apk_digest_sha512,
}
use apk_tools.Prelude.{
  ℕ, Bytes, ◌≡◌, List, some, ◌⊎◌, length, take, ◌++◌, true, Option-cases, drop, [], ◌≤◌, inl,
  get_or, arith, inr, Bool-cases, false, subst, sym, take_front, ap,
}
use apk_tools.Adb.Verify.{
  Crypto, List, base_alg, Digest, VerifyCtx, TrustKey, apk_digest_calc, calc_digest, ◌∷◌, some,
  apk_digest_sha256, is_eq, apk_digest_alg_len, apk_digest_set, length, take, true, memcmp, ok,
  apk_digest_sha512, drop, get_or, blob, adb_digest_v0_signature, digest_of, false, set_digest,
  cut_digest, adb_digest_adb,
}

abbrev pub Any {ℓ} : {A : Type ℓ} → (A → Type 0) → List A → Type 0
Any P [] = ⊥
Any P (x ∷ xs) = P x ⊎ Any P xs

-- EVP_Digest gives as many bytes as the algorithm has.
abbrev pub IsSized : {Key : Type 0} → Crypto Key → Type 0
IsSized crypto =
    (alg : ℕ) (b md : Bytes)
    → crypto.evp_digest alg b ≡ some md
    → length md ≡ apk_digest_alg_len alg

module _ {Key : Type 0} (crypto : Crypto Key) where
  -- The digest of a block by an algorithm, cut to its length.
  abbrev pub IsDigest : ℕ → Bytes → Bytes → Type 0
  IsDigest hash_alg b md =
      (alg : ℕ) × (full : Bytes) × (base_alg hash_alg ≡ some alg)
      × (crypto.evp_digest alg b ≡ some full)
      × (md ≡ take (apk_digest_alg_len hash_alg) full)

  abbrev pub Holds : ℕ → Bytes → Digest → Type 0
  Holds alg b d =
      (full rest : Bytes) × (crypto.evp_digest alg b ≡ some full) × (d.contents ≡ full ++ rest)

  -- What the context holds was calculated of the block.
  pub record IsCalculated (b : Bytes) (vfy : VerifyCtx) : Type 0 where
    pub holds_256 : vfy.calc apk_digest_sha256 ≡ true → Holds apk_digest_sha256 b vfy.sha256
    pub holds_512 : vfy.calc apk_digest_sha512 ≡ true → Holds apk_digest_sha512 b vfy.sha512

  abbrev Calculates : Bytes → VerifyCtx → ℕ → Type 0
  Calculates b vfy alg = IsCalculated b vfy × Holds alg b (digest_of vfy alg)

  -- A key that accepts a signature of a block.
  abbrev pub Accepts : ℕ → Bytes → Bytes → TrustKey Key → Type 0
  Accepts schema b sigb tkey =
      (md : Bytes) × (is_eq (memcmp (drop 2 sigb) tkey.id 16) ≡ true)
      × IsDigest (get_or sigb 1 0) b md
      × (crypto.digest_verify tkey.priv apk_digest_sha512 (adb_digest_v0_signature schema sigb md)
            (drop 18 sigb)
          ≡ true)

  base_alg_cases :
      (h alg : ℕ)
      → base_alg h ≡ some alg
      → ((alg ≡ apk_digest_sha256) ⊎ (alg ≡ apk_digest_sha512))
        × (apk_digest_alg_len h ≤ apk_digest_alg_len alg)
  unfolding base_alg apk_digest_alg_len
  base_alg_cases h alg e = ground arith

  Holds-calc :
      (d d' : Digest) (alg : ℕ) (b : Bytes)
      → apk_digest_calc crypto d alg b ≡ ok d'
      → Holds alg b d'
  unfolding apk_digest_calc apk_digest_set
  Holds-calc d d' alg b e = elim (Option-cases (crypto.evp_digest alg b)) [
    | inl failed ↦ ground arith
    | inr (full, is) ↦ (full, drop (length full) d.contents, is, ground arith)
  ]

  calc_there :
      (b : Bytes) (vfy vfy' : VerifyCtx) (alg : ℕ)
      → (alg ≡ apk_digest_sha256) ⊎ (alg ≡ apk_digest_sha512)
      → IsCalculated b vfy
      → vfy.calc alg ≡ true
      → calc_digest crypto vfy alg (blob b) ≡ ok vfy'
      → Calculates b vfy' alg
  unfolding calc_digest
  calc_there b vfy vfy' alg (inl x) calculated there e = ground arith
  calc_there b vfy vfy' alg (inr x) calculated there e = ground arith

  set-Calculates :
      (b : Bytes) (vfy : VerifyCtx) (d : Digest) (alg : ℕ)
      → (alg ≡ apk_digest_sha256) ⊎ (alg ≡ apk_digest_sha512)
      → IsCalculated b vfy
      → Holds alg b d
      → Calculates b (set_digest vfy alg d) alg
  set-Calculates b vfy d alg (inl x) calculated h =
      subst (λ (a : ℕ). Holds a b d → Calculates b (set_digest vfy a d) a) (sym x)
        (λ g. (record { holds_256 = λ _. g; holds_512 = calculated.holds_512 }, g)) h
  set-Calculates b vfy d alg (inr x) calculated h =
      subst (λ (a : ℕ). Holds a b d → Calculates b (set_digest vfy a d) a) (sym x)
        (λ g. (record { holds_256 = calculated.holds_256; holds_512 = λ _. g }, g)) h

  calc_missing :
      (b : Bytes) (vfy vfy' : VerifyCtx) (alg : ℕ)
      → (alg ≡ apk_digest_sha256) ⊎ (alg ≡ apk_digest_sha512)
      → IsCalculated b vfy
      → vfy.calc alg ≡ false
      → calc_digest crypto vfy alg (blob b) ≡ ok vfy'
      → Calculates b vfy' alg
  unfolding calc_digest
  calc_missing b vfy vfy' alg known calculated missing e =
      let (d, is, same) =
        ok->>= (apk_digest_calc crypto (digest_of vfy alg) alg b) (λ d. ok (set_digest vfy alg d))
          vfy' (ground (arith, missing, e)) in
      let done =
        set-Calculates b vfy d alg known calculated (Holds-calc (digest_of vfy alg) d alg b is) in
      subst (λ v. Calculates b v alg) (ok-injective (set_digest vfy alg d) vfy' same) done

  calc-Holds :
      (b : Bytes) (vfy vfy' : VerifyCtx) (alg : ℕ)
      → (alg ≡ apk_digest_sha256) ⊎ (alg ≡ apk_digest_sha512)
      → IsCalculated b vfy
      → calc_digest crypto vfy alg (blob b) ≡ ok vfy'
      → Calculates b vfy' alg
  unfolding calc_digest
  calc-Holds b vfy vfy' alg known calculated e = elim (Bool-cases (vfy.calc alg)) [
    | inl there ↦ calc_there b vfy vfy' alg known calculated there e
    | inr missing ↦ calc_missing b vfy vfy' alg known calculated missing e
  ]

  calculated-IsDigest :
      (h alg : ℕ) (b : Bytes) (vfy : VerifyCtx)
      → IsSized crypto
      → base_alg h ≡ some alg
      → Holds alg b (digest_of vfy alg)
      → IsDigest h b (cut_digest vfy alg h)
  calculated-IsDigest h alg b vfy sized base (full, rest, is, e) =
      let n = sized alg b full is in
      (
        alg,
        full,
        base,
        is,
        rw e (
            take_front (apk_digest_alg_len h) full rest
              (omega (arith, n, (base_alg_cases h alg base).1))),
      )

  -- The digest that `adb_digest_adb` gives is the block's, also where it was calculated before.
  pub adb_digest_adb-IsDigest :
      (b : Bytes) (vfy vfy' : VerifyCtx) (h : ℕ) (md : Bytes)
      → IsSized crypto
      → IsCalculated b vfy
      → adb_digest_adb crypto vfy h (blob b) ≡ ok (md, vfy')
      → IsDigest h b md × IsCalculated b vfy'
  unfolding adb_digest_adb
  adb_digest_adb-IsDigest b vfy vfy' h md sized calculated e = elim (Option-cases (base_alg h)) [
    | inl unknown ↦ absurd (ground (arith, e))
    | inr (alg, base) ↦
        let (vfy2, is, same) =
          ok->>= {B = Bytes × VerifyCtx} (calc_digest crypto vfy alg (blob b))
            (λ v. ok (cut_digest v alg h, v)) (md, vfy') (ground (arith, base, e)) in
        let (calculated2, h2) =
          calc-Holds b vfy vfy2 alg (base_alg_cases h alg base).0 calculated is in
        let same2 = ok-injective (cut_digest vfy2 alg h, vfy2) (md, vfy') same in
        (
          subst (λ m. IsDigest h b m) (ap (λ p. p.0) same2)
              (calculated-IsDigest h alg b vfy2 sized base h2),
          subst (λ v. IsCalculated b v) (ap (λ p. p.1) same2) calculated2,
        )
  ]
