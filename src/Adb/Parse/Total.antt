-- ===== src/Adb/Parse/Total.antt =====
-- Whether the loop over the blocks ends.
use apk_tools.Adb.Block.{
  adb_block_first, adb_block_next, adb_block_validate, at_block, Cursor, adb_block_type, at_error,
  block_at, adb_block_size, adb_block_sig, at_end, adb_block_rawsize, adb_block_blob,
}
use apk_tools.Prelude.{
  refl, ℕ, Bytes, ◌≡◌, length, subst, ◌<◌, Returns, Option, sym, drop, arith, ◌+◌, ◌^◌, ◌≤◌, none,
  zero, ◌∙◌, if-holds, ap,
}
use apk_tools.Adb.Verify.{Crypto, Trust, Adb, ExtractCtx, adb_trust_verify_signature}
use apk_tools.Adb.Parse.{
  Parse, adb_block_first, adb_block_next, Trust, Adb, Result, length, parse_loop, __adb_m_parse, ok,
  Option, ExtractCtx, suc, handle_block, none, start, handle_type, case_sig,
  adb_trust_verify_signature, is_zero, Ended, after_block, err,
}
use apk_tools.Errors.{Result, ok}
use apk_tools.Adb.Block.Bounds.{
  Fits, adb_block_validate-at_block, adb_block_validate-inside, round_up8-wraps,
}

-- The blocks that the enumeration gives for a file.
pub data IsBlockOf (mem : Bytes) : Bytes → Type 0 where
  first : {blk : Bytes} → adb_block_first mem ≡ at_block blk → IsBlockOf mem blk
  next :
      {blk : Bytes} (prev : Bytes)
      → IsBlockOf mem prev
      → adb_block_next prev ≡ at_block blk
      → IsBlockOf mem blk

valid_block : (mem blk : Bytes) → IsBlockOf mem blk → adb_block_validate blk ≡ at_block blk
unfolding adb_block_first adb_block_next
valid_block mem blk (first e) =
    let (same, _, _, _) = adb_block_validate-at_block mem blk e in
    subst (λ m. adb_block_validate m ≡ at_block blk) (sym same) e
valid_block mem blk (next prev h e) =
    let rest = drop (adb_block_size (block_at prev)) prev in
    let (same, _, _, _) = adb_block_validate-at_block rest blk e in
    subst (λ m. adb_block_validate m ≡ at_block blk) (sym same) e

-- A block that fits is followed by one with less data.
shorter :
    (prev blk : Bytes)
    → adb_block_validate prev ≡ at_block prev
    → Fits prev
    → adb_block_next prev ≡ at_block blk
    → length blk < length prev
unfolding adb_block_next
shorter prev blk valid fits e =
    let rest = drop (adb_block_size (block_at prev)) prev in
    let (same, _, _, _) = adb_block_validate-at_block rest blk e in
    let (_, _, _, _, _, _, less) = adb_block_validate-inside prev prev valid fits in
    subst (λ (m : Bytes). length m < length prev) (sym same) less

module _ {Key S : Type 0} (crypto : Crypto Key) (trust : Trust Key)
    (cb : Adb → Bytes → Bytes → S → Result ℕ × S) where
  -- The fuel that a place needs.
  abbrev Enough : Bytes → ℕ → Cursor → Type 0
  Enough mem fuel at_end = 0 < fuel
  Enough mem fuel (at_error x) = 0 < fuel
  Enough mem fuel (at_block blk) = IsBlockOf mem blk × (length blk + 1 < fuel)

  Enough-first :
      (mem : Bytes) (cur : Cursor) → adb_block_first mem ≡ cur → Enough mem (length mem + 2) cur
  unfolding adb_block_first
  Enough-first mem at_end e = omega arith
  Enough-first mem (at_error x) e = omega arith
  Enough-first mem (at_block blk) e =
      let (same, _, _, _) = adb_block_validate-at_block mem blk e in
      (first e, rw same (omega arith))

  Enough-next :
      (mem blk : Bytes) (fuel : ℕ)
      → IsBlockOf mem blk
      → Fits blk
      → length blk < fuel
      → (cur : Cursor) → adb_block_next blk ≡ cur
      → Enough mem fuel cur
  Enough-next mem blk fuel h fits k at_end e = omega arith
  Enough-next mem blk fuel h fits k (at_error x) e = omega arith
  Enough-next mem blk fuel h fits k (at_block after) e =
      let less = shorter blk after (valid_block mem blk h) fits e in (next blk h e, omega arith)

  after_block-total :
      (blk : Bytes) (o : Result ℕ × Parse S) (round : ℕ → Parse S → Option (Ended S))
      → ((n : ℕ) (p : Parse S) → Returns (round n p))
      → Returns (after_block blk o round)
  after_block-total blk (err e, p) round h = (_, refl)
  after_block-total blk (ok n, p) round h = h n p

  parse_loop-total :
      (mem : Bytes) (fuel r : ℕ) (cur : Cursor) (p : Parse S)
      → ((blk : Bytes) → IsBlockOf mem blk → Fits blk)
      → Enough mem fuel cur
      → Returns (parse_loop crypto trust cb fuel cur r p)
  unfolding parse_loop
  parse_loop-total mem zero r at_end p fit h = absurd (omega arith)
  parse_loop-total mem zero r (at_error x) p fit h = absurd (omega arith)
  parse_loop-total mem zero r (at_block blk) p fit h = absurd (omega (arith, h.1))
  parse_loop-total mem (suc fuel) r at_end p fit h = (_, refl)
  parse_loop-total mem (suc fuel) r (at_error x) p fit h = (_, refl)
  parse_loop-total mem (suc fuel) r (at_block blk) p fit (h, k) =
      after_block-total blk (handle_block crypto trust cb blk p)
        (λ n p'. parse_loop crypto trust cb fuel (adb_block_next blk) n p')
        (λ n p'.
          parse_loop-total mem fuel n (adb_block_next blk) p' fit
            (Enough-next mem blk fuel h (fit blk h) (omega arith) (adb_block_next blk) refl))

  -- The parse returns, with any trust and any callback, for a file none of whose blocks claims a
  -- size that ROUND_UP wraps.
  pub __adb_m_parse-total :
      (db : Adb) (mem : Bytes) (given : Option ExtractCtx) (user : S)
      → ((blk : Bytes) → IsBlockOf mem blk → Fits blk)
      → Returns (__adb_m_parse crypto trust cb db mem given user)
  unfolding __adb_m_parse
  __adb_m_parse-total db mem given user fit =
      let (e, ends) =
        parse_loop-total mem (length mem + 2) 0 (adb_block_first mem)
          (start crypto trust db given user) fit (Enough-first mem (adb_block_first mem) refl) in
      rw ends (_, refl)

  sig_block :
      (blk : Bytes) (p : Parse S)
      → adb_block_type (block_at blk) ≡ adb_block_sig
      → p.allowed ≡ 6
      → let q = case_sig crypto trust (adb_block_blob blk) p in
        let (r, user) = cb q.db blk (adb_block_blob blk) p.user in
        handle_block crypto trust cb blk p ≡ (r, record q { user = user })
  unfolding handle_block handle_type
  sig_block blk p sig allowed = rw (sig, allowed) refl

  pub case_sig-allowed : (b : Bytes) (p : Parse S) → (case_sig crypto trust b p).allowed ≡ p.allowed
  unfolding case_sig
  case_sig-allowed b p =
      let (e, vfy) = adb_trust_verify_signature crypto trust p.db p.vfy b in
      if-holds (λ (x : Parse S). x.allowed ≡ p.allowed) p.trusted p
        (record p { vfy = vfy; trusted = is_zero e }) (λ _. refl) (λ _. refl)

  same_block :
      (blk : Bytes)
      → adb_block_validate blk ≡ at_block blk
      → adb_block_rawsize (block_at blk) < 2 ^ 64
      → 2 ^ 64 ≤ adb_block_rawsize (block_at blk) + 7
      → adb_block_next blk ≡ at_block blk
  unfolding adb_block_next
  same_block blk valid fits wraps =
      let none_left : adb_block_size (block_at blk) ≡ 0 =
        round_up8-wraps (adb_block_rawsize (block_at blk)) fits wraps in
      rw none_left valid

  -- A signature block that is accepted, and whose uint64_t size wraps to 0, is not left: where
  -- signature and data blocks are allowed and the callback returns no error, no number of rounds is
  -- enough.
  pub parse_loop_stuck :
      (fuel r : ℕ) (blk : Bytes) (p : Parse S)
      → ((db : Adb) (blk b : Bytes) (s : S) → (n : ℕ) × ((cb db blk b s).0 ≡ ok n))
      → adb_block_validate blk ≡ at_block blk
      → adb_block_type (block_at blk) ≡ adb_block_sig
      → adb_block_rawsize (block_at blk) < 2 ^ 64
      → 2 ^ 64 ≤ adb_block_rawsize (block_at blk) + 7
      → p.allowed ≡ 6
      → parse_loop crypto trust cb fuel (at_block blk) r p ≡ none
  unfolding parse_loop
  parse_loop_stuck zero r blk p fine valid sig fits wraps allowed = refl
  parse_loop_stuck (suc fuel) r blk p fine valid sig fits wraps allowed =
      let b = adb_block_blob blk in
      let q = case_sig crypto trust b p in
      let (n, is) = fine q.db blk b p.user in
      let p' : Parse S = record q { user = (cb q.db blk b p.user).1 } in
      let block : handle_block crypto trust cb blk p ≡ (ok n, p') =
        sig_block blk p sig allowed ∙ ap (λ x. (x, p')) is in
      ap
        (λ o. after_block blk o (λ n p'. parse_loop crypto trust cb fuel (adb_block_next blk) n p'))
        block
      ∙ ap (λ c. parse_loop crypto trust cb fuel c n p') (same_block blk valid fits wraps)
      ∙ parse_loop_stuck fuel n blk p' fine valid sig fits wraps (case_sig-allowed b p ∙ allowed)
