-- ===== src/Adb/File/RoundTrip.antt =====
-- A file is read as it was written.
use apk_tools.Adb.Block.RoundTrip.{adb_block_validate-adb_c_block}
use apk_tools.Adb.Block.{
  adb_c_block, adb_block_sig, adb_block_validate, adb_block_blob, adb_block_type, block_at,
  adb_block_next,
}
use apk_tools.Errors.{Result, ok}
use apk_tools.Prelude.{
  refl, ℕ, Bytes, List, length, ◌∷◌, ◌+◌, ◌<◌, ◌^◌, ◌≡◌, ◌++◌, true, [], suc, ap, ◌∙◌,
}
use apk_tools.Adb.Verify.{Crypto, Adb, Trust}
use apk_tools.Adb.Parse.{Parse, parse_loop, handle_block, is_allowed, handle_type, after_block}

-- Signature blocks.
abbrev pub sig_blocks : List Bytes → Bytes
sig_blocks [] = []
sig_blocks (sig ∷ sigs) = adb_c_block adb_block_sig sig ++ sig_blocks sigs

-- `__adb_dummy_cb`.
unfoldable pub __adb_dummy_cb : {S : Type 0} → Adb → Bytes → Bytes → S → Result ℕ × S
__adb_dummy_cb db blk b s = (ok 0, s)

-- A payload that a block can have.
abbrev pub IsPayload : Bytes → Type 0
IsPayload b = length b + 23 < 2 ^ 64

module _ {Key S : Type 0} (crypto : Crypto Key) (trust : Trust Key) where
  allowed_block :
      (blk val : Bytes) (type : ℕ) (p p' : Parse S)
      → adb_block_blob blk ≡ val
      → adb_block_type (block_at blk) ≡ type
      → is_allowed type p.allowed ≡ true
      → handle_type crypto trust type val p ≡ ok p'
      → handle_block crypto trust __adb_dummy_cb blk p ≡ (ok 0, record p' { user = p.user })
  unfolding handle_block __adb_dummy_cb
  allowed_block blk val type p p' payload kind allowed is =
      rw (kind, payload, allowed, handle_block, is) refl

  -- A written block is one round of the loop.
  pub written_round :
      (fuel r type : ℕ) (val rest : Bytes) (p p' : Parse S)
      → type < 3
      → IsPayload val
      → is_allowed type p.allowed ≡ true
      → handle_type crypto trust type val p ≡ ok p'
      → parse_loop crypto trust __adb_dummy_cb
          (suc fuel)
          (adb_block_validate (adb_c_block type val ++ rest))
          r
          p
        ≡ parse_loop crypto trust __adb_dummy_cb fuel
            (adb_block_validate rest)
            0
            (record p' { user = p.user })
  unfolding parse_loop
  written_round fuel r type val rest p p' h small allowed is =
      let written = adb_c_block type val ++ rest in
      let q : Parse S = record p' { user = p.user } in
      let (accepted, kind, payload, next) = adb_block_validate-adb_c_block type val rest h small in
      ap (λ c. parse_loop crypto trust __adb_dummy_cb (suc fuel) c r p) accepted
      ∙ ap
          (λ o.
            after_block written o
              (λ n p2. parse_loop crypto trust __adb_dummy_cb fuel (adb_block_next written) n p2))
          (allowed_block written val type p p' payload kind allowed is)
      ∙ ap (λ c. parse_loop crypto trust __adb_dummy_cb fuel c 0 q) next
