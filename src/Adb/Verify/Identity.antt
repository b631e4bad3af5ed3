-- ===== src/Adb/Verify/Identity.antt =====
-- What a matching identity shows.
use apk_tools.Blob.Digest.{apk_digest_none, apk_digest_sha1}
use apk_tools.Blob.{blob}
use apk_tools.Errors.{ok, ◌>>=◌, ok->>=, ok-injective}
use apk_tools.Prelude.{
  refl, ℕ, Bytes, Option, ◌≡◌, if◌then◌else◌, ◌==◌, some, arith, Option-cases, inr, Bool-cases, inl,
  ◌||◌, none, subst, ap, sym,
}
use apk_tools.Adb.Verify.{
  Crypto, ExtractCtx, Option, compare_identity, take_identity, __adb_handle_identity, VerifyCtx,
  some, ok, adb_digest_adb, blob, apk_digest_none, apk_digest_sha1, use_digest,
}
use apk_tools.Blob.Compare.{is_eq-compare}
use apk_tools.Adb.Verify.Laws.{IsSized, IsCalculated, IsDigest, adb_digest_adb-IsDigest}

-- The algorithm of an identity.
abbrev pub identity_alg : ExtractCtx → ℕ
identity_alg ectx = if ectx.generate_alg == 0 then ectx.verify_alg else ectx.generate_alg

module _ {Key : Type 0} (crypto : Crypto Key) where
  -- The caller's digest is the block's.
  abbrev pub IsIdentified : Option ExtractCtx → Bytes → Type 0
  IsIdentified ectx b =
      (x : ExtractCtx) × (ectx ≡ some x) × IsDigest crypto (identity_alg x) b x.verify_digest

  compare_identity-match :
      (ectx : ExtractCtx) (md : Bytes) → compare_identity ectx md ≡ ok 1 → ectx.verify_digest ≡ md
  unfolding compare_identity
  compare_identity-match ectx md e = ground (arith, is_eq-compare ectx.verify_digest md)

  take_identity-match :
      (ectx ectx' : ExtractCtx) (alg : ℕ) (md : Bytes)
      → take_identity ectx alg md ≡ ok (1, ectx')
      → ectx.verify_digest ≡ md
  unfolding take_identity
  take_identity-match ectx ectx' alg md e = elim (Option-cases ectx.generate_identity) [
    | inr (d, some_d) ↦ absurd (ground (arith, some_d, e))
    | inl none_d ↦
        let (r, is, same) =
          ok->>= {B = ℕ × ExtractCtx} (compare_identity ectx md) (λ r. ok (r, ectx)) (1, ectx')
            (ground (arith, none_d, e)) in
        compare_identity-match ectx md (ground (arith, is, same))
  ]

  identity-digested :
      (ectx : ExtractCtx) (vfy : VerifyCtx) (b : Bytes) (r : ℕ) (ectx' : Option ExtractCtx)
      (vfy' : VerifyCtx)
      → IsSized crypto
      → IsCalculated crypto b vfy
      → (adb_digest_adb crypto vfy (identity_alg ectx) (blob b)
          >>= use_digest ectx (identity_alg ectx))
        ≡ ok (r, (ectx', vfy'))
      → IsCalculated crypto b vfy' × (r ≡ 1 → IsIdentified (some ectx) b)
  identity-digested ectx vfy b r ectx' vfy' sized calculated e =
      let alg = identity_alg ectx in
      let ((md, v), is, rest) =
        ok->>= {A = Bytes × VerifyCtx} (adb_digest_adb crypto vfy alg (blob b))
          (use_digest ectx alg) (r, (ectx', vfy')) e in
      let ((r1, x1), is1, same) =
        ok->>= {A = ℕ × ExtractCtx} {B = ℕ × (Option ExtractCtx × VerifyCtx)}
          (take_identity ectx alg md) (λ q. ok (q.0, (some q.1, v))) (r, (ectx', vfy')) rest in
      let (digest, calculated2) =
        adb_digest_adb-IsDigest crypto b vfy v alg md sized calculated is in
      let same2 : (r1, (some x1, v)) ≡ (r, (ectx', vfy')) =
        ok-injective (r1, (some x1, v)) (r, (ectx', vfy')) same in
      (
        subst (λ w. IsCalculated crypto b w) (ap (λ p. p.1.1) same2) calculated2,
        λ one. (
          ectx,
          refl,
          subst (λ m. IsDigest crypto alg b m)
              (sym (take_identity-match ectx x1 alg md (ground (arith, is1, same2, one)))) digest,
        ),
      )

  -- An identity is found to match only where the digest that the caller gave is the block's.
  pub __adb_handle_identity-IsIdentified :
      (ectx : Option ExtractCtx) (vfy : VerifyCtx) (b : Bytes) (r : ℕ) (ectx' : Option ExtractCtx)
      (vfy' : VerifyCtx)
      → IsSized crypto
      → IsCalculated crypto b vfy
      → __adb_handle_identity crypto ectx vfy b ≡ ok (r, (ectx', vfy'))
      → IsCalculated crypto b vfy' × (r ≡ 1 → IsIdentified ectx b)
  unfolding __adb_handle_identity
  __adb_handle_identity-IsIdentified none vfy b r ectx' vfy' sized calculated e =
      ground (arith, calculated, e)
  __adb_handle_identity-IsIdentified (some x) vfy b r ectx' vfy' sized calculated e =
      let alg = identity_alg x in
      elim (Bool-cases ((alg == apk_digest_none) || (alg == apk_digest_sha1))) [
        | inl nothing ↦ ground (arith, calculated, e)
        | inr digest ↦
            identity-digested x vfy b r ectx' vfy' sized calculated (ground (arith, digest, e))
      ]
