-- ===== src/Adb/File/Process.antt =====
-- A file is read as it was written, by a reader that trusts a key of the writer.
use apk_tools.Blob.Digest.{apk_digest_sha512}
use apk_tools.Prelude.{
  refl, ℕ, Bytes, List, All, inl, length, [], length-append, ◌≡◌, inr, take, arith, length-take,
  length-take_le,
}
use apk_tools.Adb.Verify.{Crypto, TrustKey, Trust}
use apk_tools.Adb.Verify.Laws.{Any, Accepts, IsDigest}
use apk_tools.Adb.File.{sign_v0, apk_digest_sha512, List, TrustKey, Trust, ◌∷◌, length, take}
use apk_tools.Adb.File.RoundTrip.{IsPayload}
use apk_tools.Adb.File.Signed.{IsTrustedSig}
use apk_tools.Adb.File.Keys.{IsPair, AreSigned, FitsRoom, IsSignedWith, pair-Accepts}

module _ {Key : Type 0} (crypto : Crypto Key) (schema : ℕ) (adb md : Bytes)
    (digest : IsDigest crypto apk_digest_sha512 adb md) where
  pub AreSigned-IsPayload :
      (keys : List (TrustKey Key)) (sigs : List Bytes)
      → FitsRoom crypto
      → AreSigned crypto schema adb md digest keys sigs
      → All IsPayload sigs
  AreSigned-IsPayload [] [] room signed = tt
  AreSigned-IsPayload [] (sig ∷ sigs) room signed = absurd signed
  AreSigned-IsPayload (tkey ∷ keys) [] room signed = absurd signed
  AreSigned-IsPayload (tkey ∷ keys) (payload ∷ sigs) room ((sig, e, is), signed) = (
    rw (e, length-append (sign_v0 tkey) sig)
        (omega (arith, length-take_le 16 tkey.id, room tkey.priv _ sig is)),
    AreSigned-IsPayload keys sigs room signed,
  )

  accepted_by :
      (tkey : TrustKey Key) (publics : List (TrustKey Key)) (payload : Bytes)
      → Any (IsPair crypto tkey) publics
      → IsSignedWith crypto schema adb md digest tkey payload
      → (length tkey.id ≡ 16) × Any (Accepts crypto schema adb payload) publics
  accepted_by tkey [] payload h signed = absurd h
  accepted_by tkey (public ∷ publics) payload (inl here) signed =
      (here.0, inl (pair-Accepts crypto schema adb md digest tkey public payload here signed))
  accepted_by tkey (public ∷ publics) payload (inr there) signed =
      let (sixteen, later) = accepted_by tkey publics payload there signed in (sixteen, inr later)

  trusted_sig :
      (trust : Trust Key) (tkey : TrustKey Key) (payload : Bytes)
      → Any (IsPair crypto tkey) trust.trusted_key_list
      → IsSignedWith crypto schema adb md digest tkey payload
      → IsTrustedSig crypto trust schema adb payload
  trusted_sig trust tkey payload pair signed =
      let (sixteen, accepts) = accepted_by tkey trust.trusted_key_list payload pair signed in
      let n : length (take 16 tkey.id) ≡ 16 = length-take 16 tkey.id (omega (arith, sixteen)) in
      (
        rw (signed.1, length-append (sign_v0 tkey) signed.0) (omega (arith, n)),
        rw (signed.1) refl,
        accepts,
      )

  pub AreSigned-IsTrustedSig :
      (trust : Trust Key) (keys : List (TrustKey Key)) (sigs : List Bytes)
      → Any (λ tkey. Any (IsPair crypto tkey) trust.trusted_key_list) keys
      → AreSigned crypto schema adb md digest keys sigs
      → Any (IsTrustedSig crypto trust schema adb) sigs
  AreSigned-IsTrustedSig trust [] sigs pair signed = absurd pair
  AreSigned-IsTrustedSig trust (tkey ∷ keys) [] pair signed = absurd signed
  AreSigned-IsTrustedSig trust (tkey ∷ keys) (payload ∷ sigs) (inl here) (sig, signed) =
      inl (trusted_sig trust tkey payload here sig)
  AreSigned-IsTrustedSig trust (tkey ∷ keys) (payload ∷ sigs) (inr there) (sig, signed) =
      inr (AreSigned-IsTrustedSig trust keys sigs there signed)
