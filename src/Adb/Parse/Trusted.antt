-- ===== src/Adb/Parse/Trusted.antt =====
-- Who vouches for the ADB block, as an invariant of the loop.
use apk_tools.Blob.Digest.{apk_digest_sha256, apk_digest_sha512}
use apk_tools.Adb.Block.{adb_block_data}
use apk_tools.Adb.Verify.Signed.{adb_trust_verify_signature-Accepts}
use apk_tools.Errors.{ok, Error, ok-injective, ok->>=}
use apk_tools.Blob.{null, blob}
use apk_tools.Adb.Verify.Identity.{IsIdentified, __adb_handle_identity-IsIdentified}
use apk_tools.Prelude.{
  refl, ℕ, Bytes, ◌≡◌, ◌⊎◌, true, Option, inl, arith, inr, false, subst, Bool-cases, ◌==◌, ◌||◌,
  ltb, ◌^◌, ==_iff, none, length, true_not_false, not, get_or, if-holds, ◌∙◌,
}
use apk_tools.Adb.Verify.{
  Crypto, Trust, ExtractCtx, VerifyCtx, __adb_handle_identity, adb_trust_verify_signature,
}
use apk_tools.Adb.Verify.Laws.{IsSized, IsCalculated, Any, Accepts}
use apk_tools.Adb.Parse.Allowed.{first_type, later_type}
use apk_tools.Adb.Parse.{
  Parse, is_allowed, Trust, true, Option, ExtractCtx, null, blob, false, case_adb, case_sig,
  case_data, ok, Error, VerifyCtx, is_zero, __adb_handle_identity, ltb, none, identified, length,
  adb_block_data, some, not, get_or, adb_trust_verify_signature, handle_type,
}

is_zero-none : (e : Option Error) → is_zero e ≡ true → e ≡ none
is_zero-none none t = refl
is_zero-none (some x) t = absurd (ground (arith, t))

module _ {Key : Type 0} (crypto : Crypto Key) (trust : Trust Key) (schema : ℕ)
    (given : Option ExtractCtx) where
  -- Untrusted files are asked for, the caller knows the digest of the block, or a trusted key has
  -- signed it.
  abbrev pub IsAuthorised : Bytes → Type 0
  IsAuthorised adb =
      (trust.allow_untrusted ≡ true)
      ⊎ (IsIdentified crypto given adb
          ⊎ ((sigb : Bytes) × Any (Accepts crypto schema adb sigb) trust.trusted_key_list))

  module _ {S : Type 0} where
    -- In front of the ADB block.
    pub record IsFirst (p : Parse S) : Type 0 where
      pub only_adb : p.allowed ≡ 1
      pub none_yet : p.db.adb ≡ null
      pub same_ectx : p.ectx ≡ given
      pub nothing_calculated : (alg : ℕ) → p.vfy.calc alg ≡ false
      pub trusted_untrusted : p.trusted ≡ true → trust.allow_untrusted ≡ true

    -- Behind it.
    pub record IsLater (p : Parse S) : Type 0 where
      pub no_adb : (p.allowed ≡ 6) ⊎ (p.allowed ≡ 4)
      pub adb : Bytes
      pub has_adb : p.db.adb ≡ blob adb
      pub calculated : IsCalculated crypto adb p.vfy
      pub authorised : p.trusted ≡ true → IsAuthorised adb

    abbrev pub IsValid : Parse S → Type 0
    IsValid p = (p.db.schema ≡ schema) × (IsFirst p ⊎ IsLater p)

    module _ (sized : IsSized crypto) where
      identified-IsAuthorised :
          (b : Bytes) (p : Parse S) (r : ℕ)
          → IsFirst p
          → (r ≡ 1 → IsIdentified crypto p.ectx b)
          → ((r == 1) || p.trusted) ≡ true
          → IsAuthorised b
      identified-IsAuthorised b p r first ident t = elim (Bool-cases (r == 1)) [
        | inl one ↦ inr (
            inl (subst (λ x. IsIdentified crypto x b) first.same_ectx (ident ((==_iff r 1).0 one))))
        | inr other ↦ inl (first.trusted_untrusted (ground (arith, t, other)))
      ]

      identity-IsLater :
          (b : Bytes) (p : Parse S) (r : ℕ) (ectx : Option ExtractCtx) (vfy : VerifyCtx)
          → IsFirst p
          → __adb_handle_identity crypto p.ectx p.vfy b ≡ ok (r, (ectx, vfy))
          → IsLater (identified b p r ectx vfy)
      identity-IsLater b p r ectx vfy first e =
          let nothing : IsCalculated crypto b p.vfy = record {
            holds_256 =
                λ t. absurd (true_not_false _ t (first.nothing_calculated apk_digest_sha256));
            holds_512 =
                λ t. absurd (true_not_false _ t (first.nothing_calculated apk_digest_sha512));
          } in
          let (calculated, ident) =
            __adb_handle_identity-IsIdentified crypto p.ectx p.vfy b r ectx vfy sized nothing e in
          record {
            no_adb = inl refl;
            adb = b;
            has_adb = refl;
            calculated = calculated;
            authorised = identified-IsAuthorised b p r first ident;
          }

      pub case_adb-IsLater :
          (b : Bytes) (p p' : Parse S)
          → IsFirst p
          → case_adb crypto b p ≡ ok p'
          → (p'.db.schema ≡ p.db.schema) × IsLater p'
      unfolding case_adb
      case_adb-IsLater b p p' first e = elim (Bool-cases (ltb (length b) 8)) [
        | inl short ↦ absurd (ground (arith, e, short))
        | inr long ↦ elim (Bool-cases (not (get_or b 0 0 == 0))) [
          | inl other ↦ absurd (ground (arith, e, long, other))
          | inr compat ↦
              let (q, is, same) =
                ok->>= {A = ℕ × (Option ExtractCtx × VerifyCtx)}
                  (__adb_handle_identity crypto p.ectx p.vfy b)
                  (λ q. ok (identified b p q.0 q.1.0 q.1.1)) p' (ground (arith, e, long, compat)) in
              let same2 = ok-injective (identified b p q.0 q.1.0 q.1.1) p' same in
              subst (λ x. (x.db.schema ≡ p.db.schema) × IsLater x) same2
                (refl, identity-IsLater b p q.0 q.1.0 q.1.1 first is)
        ]
      ]

      pub case_sig-IsLater :
          (b : Bytes) (p : Parse S)
          → p.db.schema ≡ schema
          → IsLater p
          → ((case_sig crypto trust b p).db.schema ≡ schema) × IsLater (case_sig crypto trust b p)
      unfolding case_sig
      case_sig-IsLater b p same later =
          let (calculated, accepts) =
            adb_trust_verify_signature-Accepts crypto trust later.adb b p.db p.vfy sized
              later.has_adb later.calculated in
          let (e, vfy) = adb_trust_verify_signature crypto trust p.db p.vfy b in
          let next : Parse S = record p { vfy = vfy; trusted = is_zero e } in
          if-holds (λ x. (x.db.schema ≡ schema) × IsLater x) p.trusted p next (λ _. (same, later))
            (λ _. (
              same,
              record {
                no_adb = later.no_adb;
                adb = later.adb;
                has_adb = later.has_adb;
                calculated = calculated;
                authorised = λ t. inr (
                    inr (
                      b,
                      subst (λ n. Any (Accepts crypto n later.adb b) trust.trusted_key_list) same
                          (accepts (is_zero-none e t)),
                    ));
              },
            ))

      case_data-IsLater :
          (p p' : Parse S)
          → IsLater p
          → case_data p ≡ ok p'
          → (p'.db.schema ≡ p.db.schema) × ((p'.trusted ≡ true) × IsLater p')
      unfolding case_data
      case_data-IsLater p p' later e = elim (Bool-cases p.trusted) [
        | inr nobody ↦ absurd (ground (arith, e, nobody))
        | inl vouched ↦
            let q : Parse S = record p { allowed = 2 ^ adb_block_data } in
            let same : q ≡ p' = ok-injective q p' (ground (arith, e, vouched)) in
            subst (λ x. (x.db.schema ≡ p.db.schema) × ((x.trusted ≡ true) × IsLater x)) same
              (
                refl,
                (
                  vouched,
                  record {
                    no_adb = inr refl;
                    adb = later.adb;
                    has_adb = later.has_adb;
                    calculated = later.calculated;
                    authorised = later.authorised;
                  },
                ),
              )
      ]

      -- What a block of an allowed type leaves: a DATA block has been trusted.
      pub handle_type-IsLater :
          (type : ℕ) (b : Bytes) (p p' : Parse S)
          → is_allowed type p.allowed ≡ true
          → IsValid p
          → handle_type crypto trust type b p ≡ ok p'
          → ((p'.db.schema ≡ schema) × IsLater p') × (type ≡ adb_block_data → p'.trusted ≡ true)
      unfolding handle_type
      handle_type-IsLater type b p p' allowed (same, inl first) e =
          let zero_type =
            first_type type (subst (λ a. is_allowed type a ≡ true) first.only_adb allowed) in
          let (schema', later) =
            case_adb-IsLater b p p' first
              (subst (λ t. handle_type crypto trust t b p ≡ ok p') zero_type e) in
          ((schema' ∙ same, later), λ two. absurd (omega arith))
      handle_type-IsLater type b p p' allowed (same, inr later) e =
          elim (later_type type p.allowed later.no_adb allowed) [
            | inl one ↦
                let is : ok (case_sig crypto trust b p) ≡ ok p' =
                  subst (λ t. handle_type crypto trust t b p ≡ ok p') one e in
                (
                  subst (λ x. (x.db.schema ≡ schema) × IsLater x)
                      (ok-injective (case_sig crypto trust b p) p' is)
                      (case_sig-IsLater b p same later),
                  λ two. absurd (omega arith),
                )
            | inr two ↦
                let (schema', (vouched, later')) =
                  case_data-IsLater p p' later
                    (subst (λ t. handle_type crypto trust t b p ≡ ok p') two e) in
                ((schema' ∙ same, later'), λ _. vouched)
          ]
