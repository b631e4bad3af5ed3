-- ===== src/Adb/File/Keys.antt =====
-- The signatures of a writer's keys, for a reader that trusts one of them.
use apk_tools.Adb.Block.{adb_c_block, adb_block_sig}
use apk_tools.Blob.Compare.{memcmp_self}
use apk_tools.Blob.{memcmp, is_eq}
use apk_tools.Errors.{ok, ok->>=, ◌>>=◌, ok-injective}
use apk_tools.Blob.Digest.{apk_digest_sha512}
use apk_tools.Prelude.{
  ℕ, Bytes, length, ◌-◌, ◌≡◌, take, drop, ◌++◌, subst, ◌≤◌, true, take_whole, take-length_append,
  drop-length_append, arith, length-take, List, ◌∙◌, [], sym, Ordering, ap,
}
use apk_tools.Adb.Verify.{Crypto, TrustKey, adb_digest_v0_signature}
use apk_tools.Adb.Verify.Laws.{Accepts, IsDigest}
use apk_tools.Adb.File.{
  sign_keys, sign_v0, length, apk_digest_sha512, TrustKey, adb_digest_v0_signature, take, drop, ok,
  List, ◌∷◌, sign_with, adb_c_block,
}
use apk_tools.Adb.File.RoundTrip.{sig_blocks}

take_exact : (n : ℕ) (xs ys : Bytes) → length xs ≡ n → take n (xs ++ ys) ≡ xs
take_exact n xs ys e = subst (λ (m : ℕ). take m (xs ++ ys) ≡ xs) e (take-length_append xs ys)

drop_exact : (n : ℕ) (xs ys : Bytes) → length xs ≡ n → drop n (xs ++ ys) ≡ ys
drop_exact n xs ys e = subst (λ (m : ℕ). drop m (xs ++ ys) ≡ ys) e (drop-length_append xs ys)

module _ {Key : Type 0} (crypto : Crypto Key) where
  abbrev pub sign_room : ℕ
  sign_room = 2048 - 18

  -- A signature is no longer than its room.
  abbrev pub FitsRoom : Type 0
  FitsRoom =
      (key : Key) (text sig : Bytes)
      → crypto.digest_sign key apk_digest_sha512 text sign_room ≡ ok sig
      → length sig ≤ sign_room

  -- A private key and the public key that verifies what it signs.
  abbrev pub IsPair : TrustKey Key → TrustKey Key → Type 0
  IsPair private public =
      (length private.id ≡ 16)
      × (private.id ≡ public.id)
      × ((text sig : Bytes)
          → crypto.digest_sign private.priv apk_digest_sha512 text sign_room ≡ ok sig
          → crypto.digest_verify public.priv apk_digest_sha512 text sig ≡ true)

  module _ (schema : ℕ) (adb md : Bytes) (digest : IsDigest crypto apk_digest_sha512 adb md) where
    -- What was signed with a key.
    abbrev pub IsSignedWith : TrustKey Key → Bytes → Type 0
    IsSignedWith tkey payload =
        (sig : Bytes) × (payload ≡ sign_v0 tkey ++ sig)
        × (crypto.digest_sign tkey.priv apk_digest_sha512
              (adb_digest_v0_signature schema (sign_v0 tkey) md) sign_room
            ≡ ok sig)

    verified :
        (tkey public : TrustKey Key) (sig : Bytes)
        → IsPair tkey public
        → crypto.digest_sign tkey.priv apk_digest_sha512
            (adb_digest_v0_signature schema (sign_v0 tkey) md)
            sign_room
          ≡ ok sig
        → let payload = sign_v0 tkey ++ sig in
          crypto.digest_verify public.priv apk_digest_sha512
            (adb_digest_v0_signature schema payload md)
            (drop 18 payload)
          ≡ true
    unfolding adb_digest_v0_signature
    verified tkey public sig (sixteen, same, verifies) signed =
        let n : length (take 16 tkey.id) ≡ 16 = length-take 16 tkey.id (omega (arith, sixteen)) in
        let front : take 16 (take 16 tkey.id ++ sig) ≡ take 16 (take 16 tkey.id) =
          take_exact 16 (take 16 tkey.id) sig n
          ∙ sym (take_whole 16 (take 16 tkey.id) (omega (arith, n))) in
        rw (front, drop_exact 16 (take 16 tkey.id) sig n)
          (verifies (adb_digest_v0_signature schema (sign_v0 tkey) md) sig signed)

    pub pair-Accepts :
        (tkey public : TrustKey Key) (payload : Bytes)
        → IsPair tkey public
        → IsSignedWith tkey payload
        → Accepts crypto schema adb payload public
    pair-Accepts tkey public payload (sixteen, same, verifies) (sig, e, signed) =
        let n : length (take 16 tkey.id) ≡ 16 = length-take 16 tkey.id (omega (arith, sixteen)) in
        let id : take 16 tkey.id ≡ public.id =
          take_whole 16 tkey.id (omega (arith, sixteen)) ∙ same in
        let found : memcmp (take 16 tkey.id ++ sig) public.id 16 ≡ Ordering.eq =
          subst (λ x. memcmp (take 16 tkey.id ++ sig) x 16 ≡ Ordering.eq) id
            (subst (λ (m : ℕ). memcmp (take 16 tkey.id ++ sig) (take 16 tkey.id) m ≡ Ordering.eq) n
              (memcmp_self (take 16 tkey.id) sig)) in
        subst (λ b. Accepts crypto schema adb b public) (sym e)
          (md, ap is_eq found, digest, verified tkey public sig (sixteen, same, verifies) signed)

    -- The payloads of the keys, in order.
    abbrev pub AreSigned : List (TrustKey Key) → List Bytes → Type 0
    AreSigned [] [] = Unit
    AreSigned (tkey ∷ keys) (sig ∷ sigs) = IsSignedWith tkey sig × AreSigned keys sigs
    AreSigned _ _ = ⊥

    pub sign_keys-AreSigned :
        (keys : List (TrustKey Key)) (written : Bytes)
        → sign_keys crypto schema md keys ≡ ok written
        → (sigs : List Bytes) × (written ≡ sig_blocks sigs) × AreSigned keys sigs
    unfolding sign_keys
    sign_keys-AreSigned [] written e = ([], ground (arith, e), tt)
    sign_keys-AreSigned (tkey ∷ keys) written e =
        let (payload, is, e2) =
          ok->>= (sign_with crypto schema md tkey)
            (λ sig.
              sign_keys crypto schema md keys
              >>= (λ rest. ok (adb_c_block adb_block_sig sig ++ rest)))
            written e in
        let (rest, is2, e3) =
          ok->>= (sign_keys crypto schema md keys)
            (λ rest. ok (adb_c_block adb_block_sig payload ++ rest)) written e2 in
        let (sig, is3, e4) =
          ok->>=
            (crypto.digest_sign tkey.priv apk_digest_sha512
              (adb_digest_v0_signature schema (sign_v0 tkey) md) sign_room)
            (λ sig. ok (sign_v0 tkey ++ sig)) payload (unfold sign_with in is) in
        let (sigs, blocks, signed) = sign_keys-AreSigned keys rest is2 in
        (
          payload ∷ sigs,
          sym (ok-injective (adb_c_block adb_block_sig payload ++ rest) written e3)
              ∙ ap (λ x. adb_c_block adb_block_sig payload ++ x) blocks,
          ((sig, sym (ok-injective (sign_v0 tkey ++ sig) payload e4), is3), signed),
        )
