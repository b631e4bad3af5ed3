-- ===== src/Adb/Parse.antt =====
-- src/adb.c: reading a file that is in memory, block by block. `cb` is the callback, with a state of
-- its own; it does not change the `struct adb`. The trust is not NULL.
pub mod Allowed
pub mod Trusted
pub mod Safety
pub mod Total
use apk_tools.Prelude.{
  ℕ, Bytes, if◌then◌else◌, Bool, Option, ltb, ◌==◌, none, length, true, ◌^◌, suc, false, some, ◌&&◌,
  not, replicate, ◌+◌, get_or, bit_and, ◌||◌, bit_or, zero,
}
use apk_tools.Blob.{blob, null, is_null}
use apk_tools.Errors.{
  Error, Result, ok, err, apke_adb_block, apke_signature_untrusted, apke_adb_version, ◌>>=◌,
}
use apk_tools.Adb.Block.{
  Cursor, adb_block_type, adb_block_next, adb_block_first, block_at, adb_block_adb, adb_block_max,
  adb_block_blob, adb_block_data, adb_block_sig, at_block, at_error,
}
use apk_tools.Adb.Verify.{
  Crypto, Adb, Trust, VerifyCtx, __adb_handle_identity, adb_trust_verify_signature, ExtractCtx,
}
use mathlib.Core.Option

abbrev pub adb_format_magic : ℕ
adb_format_magic = 0x2e424441

abbrev pub adb_schema_implied : ℕ
adb_schema_implied = 0x80000000

-- The variables of the loop.
pub record Parse (S : Type 0) : Type 0 where
  pub db : Adb
  pub vfy : VerifyCtx
  pub ectx : Option ExtractCtx
  pub trusted : Bool
  pub allowed : ℕ
  pub user : S

-- Where the loop ends: `r`, `blk` and the variables.
pub record Ended (S : Type 0) : Type 0 where
  pub r : Result ℕ
  pub blk : Cursor
  pub at : Parse S

abbrev pub is_allowed : ℕ → ℕ → Bool
is_allowed type allowed = ltb type adb_block_max && not (bit_and (2 ^ type) allowed == 0)

abbrev pub is_zero : Option Error → Bool
is_zero none = true
is_zero (some e) = false

module _ {S : Type 0} where
  -- `db->adb = b`, and what the identity says.
  abbrev pub identified : Bytes → Parse S → ℕ → Option ExtractCtx → VerifyCtx → Parse S
  identified b p r ectx vfy = record p {
    db = record (p.db) { adb = blob b };
    vfy = vfy;
    ectx = ectx;
    trusted = (r == 1) || p.trusted;
    allowed = bit_or (2 ^ adb_block_sig) (2 ^ adb_block_data);
  }

  unfoldable pub case_data : Parse S → Result (Parse S)
  case_data p =
      if p.trusted
      then ok (record p { allowed = 2 ^ adb_block_data })
      else err apke_signature_untrusted

  -- Behind `err:`.
  unfoldable pub outcome : Ended S → Option Error
  outcome e = elim e.r [
    | err x ↦ some x
    | ok (suc r) ↦ some apke_adb_block
    | ok zero ↦ elim e.blk [
      | at_error x ↦ some x
      | _ ↦
          if not e.at.trusted
          then some apke_signature_untrusted
          else if is_null e.at.db.adb
          then some apke_adb_block
          else none
    ]
  ]

  -- `if (r < 0) break`, or the next round.
  abbrev pub after_block :
      Bytes → Result ℕ × Parse S → (ℕ → Parse S → Option (Ended S)) → Option (Ended S)
  after_block blk (err e, p) round = some (record { r = err e; blk = at_block blk; at = p })
  after_block blk (ok n, p) round = round n p

  -- The error, or `none` for 0, and the variables at the return: `db->adb` is NULL on an error.
  abbrev pub returned : Option Error → Parse S → Option Error × Parse S
  returned none p = (none, p)
  returned (some x) p = (some x, record p { db = record (p.db) { adb = null } })

  unfoldable pub close_parse : Ended S → Option Error × Parse S
  unfolding outcome
  close_parse e = returned (outcome e) e.at

module _ {Key S : Type 0} (crypto : Crypto Key) where
  unfoldable pub case_adb : Bytes → Parse S → Result (Parse S)
  unfolding __adb_handle_identity
  case_adb b p =
      if ltb (length b) 8
      then err apke_adb_block
      else if not (get_or b 0 0 == 0)
      then err apke_adb_version
      else (__adb_handle_identity crypto p.ectx p.vfy b
          >>= (λ (r, (ectx, vfy)). ok (identified b p r ectx vfy)))

  module _ (trust : Trust Key) where
    unfoldable pub case_sig : Bytes → Parse S → Parse S
    unfolding adb_trust_verify_signature
    case_sig b p =
        if p.trusted
        then p
        else (let (e, vfy) = adb_trust_verify_signature crypto trust p.db p.vfy b in
            record p { vfy = vfy; trusted = is_zero e })

    -- The `switch`, for a type that is allowed.
    unfoldable pub handle_type : ℕ → Bytes → Parse S → Result (Parse S)
    unfolding case_adb case_sig case_data
    handle_type type b p =
        if type == adb_block_adb
        then case_adb b p
        else if type == adb_block_sig
        then ok (case_sig b p)
        else if type == adb_block_data
        then case_data p
        else ok p

    unfoldable pub start : Adb → Option ExtractCtx → S → Parse S
    start db ectx user = record {
      db = db;
      vfy = record {
        calc = λ alg. false;
        sha256 = record { alg = 0; len = 0; contents = replicate 64 0 };
        sha512 = record { alg = 0; len = 0; contents = replicate 64 0 };
      };
      ectx = ectx;
      trusted = trust.allow_untrusted;
      allowed = 2 ^ adb_block_adb;
      user = user;
    }

    module _ (cb : Adb → Bytes → Bytes → S → Result ℕ × S) where
      -- The body of the loop: `r` and the variables.
      unfoldable pub handle_block : Bytes → Parse S → Result ℕ × Parse S
      handle_block blk p =
          let b = adb_block_blob blk in
          let type = adb_block_type (block_at blk) in
          if not (is_allowed type p.allowed)
          then (err apke_adb_block, p)
          else elim (handle_type type b p) [
            | err e ↦ (err e, p)
            | ok p' ↦ let (r, user) = cb p'.db blk b p.user in (r, record p' { user = user })
          ]

      unfoldable pub parse_loop : ℕ → Cursor → ℕ → Parse S → Option (Ended S)
      parse_loop zero cur r p = none
      parse_loop (suc fuel) (at_block blk) r p =
          after_block blk (handle_block blk p) (λ n p'. parse_loop fuel (adb_block_next blk) n p')
      parse_loop (suc fuel) cur r p = some (record { r = ok r; blk = cur; at = p })

      -- On fuel, of which the data has enough where no size wraps.
      unfoldable pub __adb_m_parse :
          Adb → Bytes → Option ExtractCtx → S → Option (Option Error × Parse S)
      unfolding parse_loop start close_parse adb_block_first
      __adb_m_parse db mem ectx user =
          Option.map close_parse
            (parse_loop (length mem + 2) (adb_block_first mem) 0 (start db ectx user))
