-- ===== src/Adb/File/Whole.antt =====
-- A whole file is read as it was written.
use apk_tools.Errors.{ok}
use apk_tools.Blob.{null, blob}
use apk_tools.Adb.Block.{
  adb_c_block, adb_block_hdrsize, adb_block_first, adb_block_init, adb_block_adb, header_bytes,
  adb_block_sig, at_end, adb_block_padding, adb_block_validate,
}
use apk_tools.Prelude.{
  refl, ℕ, Bytes, List, length, ◌<◌, ◌≤◌, arith, ◌≡◌, none, get_or, length-append, ◌∷◌, All, ltb,
  true, ◌++◌, false, ◌⊎◌, [], replicate, some, ◌+◌, true_not_false, suc, ap, ◌∙◌,
}
use apk_tools.Adb.Verify.{Crypto, Trust, Adb}
use apk_tools.Adb.Verify.Laws.{IsSized, Any, IsCalculated}
use apk_tools.Adb.Parse.{
  Parse, outcome, start, handle_type, __adb_m_parse, Ended, identified, parse_loop, close_parse,
  returned,
}
use apk_tools.Adb.File.RoundTrip.{sig_blocks, IsPayload, __adb_dummy_cb, written_round}
use apk_tools.Adb.File.Signed.{IsTrustedSig, sig_loop}
use apk_tools.Adb.Block.RoundTrip.{length-header_bytes}
use mathlib.Core.Option

some_block : (type : ℕ) (val : Bytes) → 0 < length (adb_c_block type val)
unfolding adb_c_block adb_block_hdrsize
some_block type val =
    let blk = adb_block_init type (length val) in
    rw
      (
        length-append (header_bytes blk) (val ++ replicate (adb_block_padding blk) 0),
        length-header_bytes,
      )
      (ground arith)

enough_blocks : (sigs : List Bytes) → length sigs ≤ length (sig_blocks sigs)
enough_blocks [] = omega arith
enough_blocks (sig ∷ sigs) =
    rw (length-append (adb_c_block adb_block_sig sig) (sig_blocks sigs))
      (omega (arith, some_block adb_block_sig sig, enough_blocks sigs))

module _ {Key S : Type 0} (crypto : Crypto Key) (trust : Trust Key) where
  close_parse-none :
      (e : Ended S) (adb : Bytes)
      → e.r ≡ ok 0
      → e.blk ≡ at_end
      → e.at.trusted ≡ true
      → e.at.db.adb ≡ blob adb
      → outcome e ≡ none
  unfolding outcome
  close_parse-none e adb r end vouched has = rw (r, outcome, end, vouched, has) refl

  -- The variables behind the ADB block.
  abbrev behind_adb : ℕ → Bytes → S → Parse S
  behind_adb schema adb user =
      let p = start crypto trust (record { adb = null; schema = schema }) none user in
      identified adb p 0 none p.vfy

  first_block :
      (schema : ℕ) (adb : Bytes) (user : S)
      → 8 ≤ length adb
      → get_or adb 0 0 ≡ 0
      → handle_type crypto trust adb_block_adb adb
          (start crypto trust (record { adb = null; schema = schema }) none user)
        ≡ ok (behind_adb schema adb user)
  unfolding handle_type start
  first_block schema adb user long version =
      let fits : ltb (length adb) 8 ≡ false = ground (arith, long) in rw (fits, version) refl

  nothing_yet :
      (schema : ℕ) (adb : Bytes) (user : S)
      → let q = behind_adb schema adb user in
        (q.db ≡ record { adb = blob adb; schema = schema })
        × IsCalculated crypto adb q.vfy
        × (q.allowed ≡ 6)
  unfolding start
  nothing_yet schema adb user = (
    refl,
    record {
      holds_256 = λ t. absurd (true_not_false _ t refl);
      holds_512 = λ t. absurd (true_not_false _ t refl);
    },
    refl,
  )

  -- What a reader gets of a block and signature blocks that it trusts.
  pub __adb_m_parse-written :
      (schema : ℕ) (adb : Bytes) (sigs : List Bytes) (user : S)
      → IsSized crypto
      → 8 ≤ length adb
      → get_or adb 0 0 ≡ 0
      → IsPayload adb
      → All IsPayload sigs
      → (trust.allow_untrusted ≡ true) ⊎ Any (IsTrustedSig crypto trust schema adb) sigs
      → (p : Parse S) × (__adb_m_parse crypto trust __adb_dummy_cb
            (record { adb = null; schema = schema })
            (adb_c_block adb_block_adb adb ++ sig_blocks sigs)
            none
            user
          ≡ some (none, p))
        × (p.db ≡ record { adb = blob adb; schema = schema })
  __adb_m_parse-written schema adb sigs user sized long version small smalls trusts =
      let mem = adb_c_block adb_block_adb adb ++ sig_blocks sigs in
      let p = start crypto trust (record { adb = null; schema = schema }) none user in
      let q = behind_adb schema adb user in
      let fuel : length mem + 2 ≡ suc (length mem + 1) = omega arith in
      let enough : length sigs < length mem + 1 =
        rw (length-append (adb_c_block adb_block_adb adb) (sig_blocks sigs))
          (omega (arith, enough_blocks sigs)) in
      let round =
        written_round crypto trust (length mem + 1) 0 adb_block_adb adb (sig_blocks sigs) p q
          (omega arith) small (unfold start in refl) (first_block schema adb user long version) in
      let (e, is, r, end, vouched, has) =
        sig_loop crypto trust schema adb sized sigs (length mem + 1) (record q { user = p.user })
          smalls enough (nothing_yet schema adb user) (unfold start in trusts) in
      let whole : parse_loop crypto trust __adb_dummy_cb (length mem + 2) (adb_block_first mem) 0 p
          ≡ some e =
        unfold adb_block_first in
        (ap (λ f. parse_loop crypto trust __adb_dummy_cb f (adb_block_validate mem) 0 p) fuel
          ∙ round
          ∙ is) in
      (
        e.at,
        unfold __adb_m_parse in
            (ap (λ o. Option.map close_parse o) whole
              ∙ unfold close_parse in
                ap (λ o. some (returned o e.at))
                  (close_parse-none e adb r end vouched (ap (λ (d : Adb). d.adb) has))),
        has,
      )
