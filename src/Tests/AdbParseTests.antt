-- ===== src/Tests/AdbParseTests.antt =====
-- Blocks and their reading at small inputs.
use apk_tools.Blob.{null}
use apk_tools.Adb.Words.{le_value}
use apk_tools.Blob.Digest.{apk_digest_alg_len}
use apk_tools.Adb.File.RoundTrip.{__adb_dummy_cb}
use apk_tools.Adb.Parse.{__adb_m_parse, Parse, parse_loop, handle_block, start, handle_type}
use apk_tools.Adb.Block.{
  adb_block_validate, adb_block_next, adb_block_rawsize, block_at, adb_block_type, adb_c_block,
  adb_block_hdrsize, at_block, at_end, adb_block_first, adb_block_blob, adb_block_sig,
  adb_block_length, adb_block_padding, adb_block_size,
}
use apk_tools.Adb.Verify.Laws.{IsSized}
use apk_tools.Prelude.{
  refl, ℕ, Bytes, [], ◌∷◌, length-replicate, arith, some, none, replicate, true, ◌≡◌, Returns,
  Option, ap, get_or, length, ◌++◌, ◌+◌, subst, ◌^◌, ◌==◌, sym, ◌<◌, ◌-◌, some-injective, ◌∙◌, drop,
  ◌≤◌,
}
use apk_tools.Errors.{ok, Error}
use apk_tools.Adb.Verify.{Crypto, Trust}
use apk_tools.Adb.Parse.Safety.{IsSafe, __adb_m_parse-IsSafe}
use apk_tools.Adb.Parse.Total.{IsBlockOf, first, next, __adb_m_parse-total, parse_loop_stuck}
use apk_tools.Adb.Block.Bounds.{adb_block_validate-inside, adb_block_validate-at_block, Fits}
use apk_tools.Adb.Block.RoundTrip.{adb_block_validate-adb_c_block}

abbrev flat : Crypto ℕ
flat = record {
  evp_digest = λ alg b. some (replicate (apk_digest_alg_len alg) 7);
  digest_verify = λ key alg text sig. get_or sig 0 0 == key;
  digest_sign = λ key alg text room. ok (key ∷ []);
}

flat-IsSized : IsSized flat
flat-IsSized alg b md e =
    ap length (sym (some-injective (replicate (apk_digest_alg_len alg) 7) md e))
    ∙ length-replicate {A = ℕ} (apk_digest_alg_len alg) 7

abbrev anyone : Trust ℕ
anyone = record { trusted_key_list = []; private_key_list = []; allow_untrusted = true }

-- An ADB block of 16 bytes.
abbrev lone_block : Bytes
lone_block = 16 ∷ 0 ∷ 0 ∷ 0 ∷ replicate 12 0

adb_block_validate-adb_c_block_example :
    (adb_block_validate (adb_c_block 1 (7 ∷ 8 ∷ []) ++ lone_block)
      ≡ at_block (adb_c_block 1 (7 ∷ 8 ∷ []) ++ lone_block))
    × (adb_block_type (block_at (adb_c_block 1 (7 ∷ 8 ∷ []) ++ lone_block)) ≡ 1)
    × (adb_block_blob (adb_c_block 1 (7 ∷ 8 ∷ []) ++ lone_block) ≡ 7 ∷ 8 ∷ [])
    × (adb_block_next (adb_c_block 1 (7 ∷ 8 ∷ []) ++ lone_block) ≡ adb_block_validate lone_block)
adb_block_validate-adb_c_block_example =
    adb_block_validate-adb_c_block 1 (7 ∷ 8 ∷ []) lone_block (omega arith) (omega arith)

lone_valid : adb_block_validate lone_block ≡ at_block lone_block
unfolding adb_block_validate le_value
lone_valid = refl

lone_last : adb_block_next lone_block ≡ at_end
unfolding adb_block_next le_value
lone_last = refl

lone_fits : adb_block_rawsize (block_at lone_block) + 7 < 2 ^ 64
unfolding adb_block_rawsize block_at le_value
lone_fits = omega arith

adb_block_validate-inside_example :
    let blk = block_at lone_block in
    (lone_block ≡ lone_block)
    × (adb_block_hdrsize blk + adb_block_length blk ≡ adb_block_rawsize blk)
    × (adb_block_rawsize blk + adb_block_padding blk ≡ adb_block_size blk)
    × (adb_block_padding blk < 8)
    × (adb_block_size blk ≤ length lone_block)
    × (length (adb_block_blob lone_block) ≡ adb_block_length blk)
    × (length (drop (adb_block_size blk) lone_block) < length lone_block)
adb_block_validate-inside_example =
    adb_block_validate-inside lone_block lone_block lone_valid lone_fits

lone_only : (blk : Bytes) → IsBlockOf lone_block blk → blk ≡ lone_block
lone_only blk (first e) =
    (adb_block_validate-at_block lone_block blk (unfold adb_block_first in e)).0
lone_only blk (next prev h e) =
    let same = lone_only prev h in
    absurd (ground (arith, subst (λ m. adb_block_next m ≡ at_block blk) same e, lone_last))

abbrev no_user : ℕ
no_user = 0

__adb_m_parse-total_example : Returns (
    __adb_m_parse flat anyone __adb_dummy_cb
      (record { adb = null; schema = 1 })
      lone_block
      none
      no_user)
__adb_m_parse-total_example =
    __adb_m_parse-total flat anyone __adb_dummy_cb (record { adb = null; schema = 1 }) lone_block
      none no_user (λ blk h. subst Fits (sym (lone_only blk h)) lone_fits)

abbrev result_of : Option (Option Error × Parse ℕ) → Option Error × Parse ℕ
result_of none = (none, start flat anyone (record { adb = null; schema = 0 }) none 0)
result_of (some r) = r

abbrev lone_result : Option Error × Parse ℕ
lone_result =
    result_of (
      __adb_m_parse flat anyone __adb_dummy_cb (record { adb = null; schema = 1 }) lone_block none
        0)

lone_parsed :
    __adb_m_parse flat anyone __adb_dummy_cb (record { adb = null; schema = 1 }) lone_block none 0
    ≡ some lone_result
unfolding __adb_m_parse parse_loop adb_block_validate adb_block_next handle_block adb_block_blob
    adb_block_type handle_type le_value __adb_dummy_cb
lone_parsed = refl

__adb_m_parse-IsSafe_example :
    IsSafe flat anyone 1 none flat-IsSized __adb_dummy_cb (λ (n : ℕ). n ≡ 0) lone_result
__adb_m_parse-IsSafe_example =
    __adb_m_parse-IsSafe flat anyone 1 none flat-IsSized __adb_dummy_cb (λ (n : ℕ). n ≡ 0)
      (record { adb = null; schema = 1 }) lone_block 0 lone_result
      (λ db blk b s sees h. unfold __adb_dummy_cb in h) refl refl refl lone_parsed

-- A signature block that claims 2^64 - 1 bytes.
abbrev huge_block : Bytes
huge_block = 1 ∷ 0 ∷ 0 ∷ 192 ∷ 0 ∷ 0 ∷ 0 ∷ 0 ∷ replicate 8 255

huge_valid : adb_block_validate huge_block ≡ at_block huge_block
unfolding adb_block_validate le_value
huge_valid = refl

huge_sig : adb_block_type (block_at huge_block) ≡ adb_block_sig
unfolding adb_block_type block_at le_value
huge_sig = refl

huge_size : adb_block_rawsize (block_at huge_block) ≡ 2 ^ 64 - 1
unfolding adb_block_rawsize block_at le_value
huge_size = refl

abbrev behind_first_block : Parse ℕ
behind_first_block = record (start flat anyone (record { adb = null; schema = 1 }) none 0) {
  allowed = 6;
}

parse_loop_stuck_example :
    parse_loop flat anyone __adb_dummy_cb 100 (at_block huge_block) 0 behind_first_block ≡ none
parse_loop_stuck_example =
    parse_loop_stuck flat anyone __adb_dummy_cb 100 0 huge_block behind_first_block
      (λ db blk b s. (0, unfold __adb_dummy_cb in refl)) huge_valid huge_sig
      (omega (arith, huge_size)) (omega (arith, huge_size)) refl
