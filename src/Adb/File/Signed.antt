-- ===== src/Adb/File/Signed.antt =====
-- The signature blocks of a written file, and the file.
use apk_tools.Adb.Verify.Complete.{accepted_signature}
use apk_tools.Adb.Block.{at_end, adb_block_validate, adb_block_sig}
use apk_tools.Errors.{ok}
use apk_tools.Adb.Verify.Signed.{adb_trust_verify_signature-Accepts}
use apk_tools.Blob.{blob}
use apk_tools.Prelude.{
  refl, ℕ, Bytes, ◌≤◌, ◌≡◌, List, Option, length, true, ◌∷◌, All, get_or, ◌⊎◌, false, some, ◌<◌,
  if-holds, ap, inl, true_not_false, arith, suc, inr, subst, none, sym, [], zero,
}
use apk_tools.Adb.Verify.{Crypto, Trust, Adb, adb_trust_verify_signature}
use apk_tools.Adb.Verify.Laws.{IsSized, Any, Accepts, IsCalculated}
use apk_tools.Adb.Parse.{Parse, is_zero, case_sig, Ended, parse_loop, is_allowed, handle_type}
use apk_tools.Adb.File.RoundTrip.{sig_blocks, IsPayload, __adb_dummy_cb, written_round}

module _ {Key : Type 0} (crypto : Crypto Key) (trust : Trust Key) (schema : ℕ) (adb : Bytes) where
  -- A signature that the reader trusts.
  abbrev pub IsTrustedSig : Bytes → Type 0
  IsTrustedSig sigb =
      (18 ≤ length sigb)
      × (get_or sigb 0 0 ≡ 0)
      × Any (Accepts crypto schema adb sigb) trust.trusted_key_list

  abbrev db_of : Adb
  db_of = record { adb = blob adb; schema = schema }

  module _ {S : Type 0} (sized : IsSized crypto) where
    -- Behind the ADB block.
    abbrev Behind : Parse S → Type 0
    Behind p = (p.db ≡ db_of) × IsCalculated crypto adb p.vfy × (p.allowed ≡ 6)

    abbrev Ready : List Bytes → Parse S → Type 0
    Ready sigs p = (p.trusted ≡ true) ⊎ Any IsTrustedSig sigs

    sig_untrusted :
        (sig : Bytes) (sigs : List Bytes) (p : Parse S)
        → Behind p
        → Ready (sig ∷ sigs) p
        → p.trusted ≡ false
        → let (e, vfy) = adb_trust_verify_signature crypto trust p.db p.vfy sig in
          let q : Parse S = record p { vfy = vfy; trusted = is_zero e } in Behind q × Ready sigs q
    sig_untrusted sig sigs p (is, calculated, allowed) ready nobody =
        let (calculated2, _) =
          adb_trust_verify_signature-Accepts crypto trust adb sig p.db p.vfy sized
            (ap (λ (d : Adb). d.adb) is) calculated in
        (
          (is, calculated2, allowed),
          elim ready [
            | inl vouched ↦ absurd (true_not_false _ vouched nobody)
            | inr (inr later) ↦ inr later
            | inr (inl (long, version, keys)) ↦
                let e =
                  accepted_signature crypto trust adb sig schema p.vfy sized calculated long version
                    keys in
                inl (
                  ap is_zero (
                    subst (λ d. (adb_trust_verify_signature crypto trust d p.vfy sig).0 ≡ none)
                      (sym is) e))
          ],
        )

    sig_step :
        (sig : Bytes) (sigs : List Bytes) (p : Parse S)
        → Behind p
        → Ready (sig ∷ sigs) p
        → Behind (case_sig crypto trust sig p) × Ready sigs (case_sig crypto trust sig p)
    unfolding case_sig
    sig_step sig sigs p behind ready =
        let (e, vfy) = adb_trust_verify_signature crypto trust p.db p.vfy sig in
        let q : Parse S = record p { vfy = vfy; trusted = is_zero e } in
        if-holds (λ x. Behind x × Ready sigs x) p.trusted p q (λ vouched. (behind, inl vouched))
          (λ nobody. sig_untrusted sig sigs p behind ready nobody)

    -- Where the loop ends behind the last block.
    abbrev EndsWell : Option (Ended S) → Type 0
    EndsWell o =
        (e : Ended S) × (o ≡ some e)
        × (e.r ≡ ok 0)
        × (e.blk ≡ at_end)
        × (e.at.trusted ≡ true)
        × (e.at.db ≡ db_of)

    pub sig_loop :
        (sigs : List Bytes) (fuel : ℕ) (p : Parse S)
        → All IsPayload sigs
        → length sigs < fuel
        → Behind p
        → Ready sigs p
        → EndsWell
            (parse_loop crypto trust __adb_dummy_cb fuel (adb_block_validate (sig_blocks sigs)) 0 p)
    sig_loop [] zero p small h behind ready = absurd (omega arith)
    sig_loop [] (suc fuel) p small h behind (inl vouched) =
        let e : Ended S = record { r = ok 0; blk = at_end; at = p } in
        (e, unfold parse_loop adb_block_validate in refl, refl, refl, vouched, behind.0)
    sig_loop [] (suc fuel) p small h behind (inr none_left) = absurd none_left
    sig_loop (sig ∷ sigs) zero p small h behind ready = absurd (omega arith)
    sig_loop (sig ∷ sigs) (suc fuel) p small h behind ready =
        let (behind', ready') = sig_step sig sigs p behind ready in
        let q : Parse S = record (case_sig crypto trust sig p) { user = p.user } in
        subst EndsWell
          (sym (
            written_round crypto trust fuel 0 adb_block_sig sig (sig_blocks sigs) p
              (case_sig crypto trust sig p) (omega arith) small.0
              (subst (λ a. is_allowed adb_block_sig a ≡ true) (sym behind.2) refl)
              (unfold handle_type in refl)))
          (sig_loop sigs fuel q small.1 (omega arith) behind' ready')
