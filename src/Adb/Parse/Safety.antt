-- ===== src/Adb/Parse/Safety.antt =====
-- What a reader may rely on: authority for what it accepts and for what its callback sees.
use apk_tools.Blob.{blob, is_null, null}
use apk_tools.Adb.Block.{
  adb_block_type, block_at, adb_block_data, adb_block_blob, Cursor, at_error, at_block,
  adb_block_next, at_end, adb_block_first,
}
use apk_tools.Prelude.{
  some-injective, ℕ, Bytes, Option, ◌≡◌, Bool-cases, true, inr, inl, some, arith, subst, ap, zero,
  Option-cases, none, false, refl, length, ◌+◌,
}
use apk_tools.Adb.Verify.{Crypto, Trust, ExtractCtx, Adb}
use apk_tools.Adb.Verify.Laws.{IsSized}
use apk_tools.Adb.Parse.{
  Parse, Trust, Option, ExtractCtx, Adb, Result, adb_block_type, handle_block, blob, true,
  is_allowed, handle_type, some, parse_loop, Ended, ok, suc, err, outcome, is_null, Error,
  close_parse, start, __adb_m_parse, none, false, null, length, returned,
}
use apk_tools.Errors.{Result-cases, Result, ok, err, Error}
use apk_tools.Adb.Parse.Trusted.{IsValid, IsLater, IsAuthorised, handle_type-IsLater}

abbrev ended : {S : Type 0} → ℕ → Cursor → Parse S → Ended S
ended r cur p = record { r = ok r; blk = cur; at = p }

module _ {Key S : Type 0} (crypto : Crypto Key) (trust : Trust Key) (schema : ℕ)
    (given : Option ExtractCtx) (sized : IsSized crypto)
    (cb : Adb → Bytes → Bytes → S → Result ℕ × S) (P : S → Type 0) where
  -- The ADB block that the callback is given is one that is authorised.
  abbrev pub SeesAuthorised : Adb → Type 0
  SeesAuthorised db =
      (adb : Bytes) × (db.adb ≡ blob adb) × IsAuthorised crypto trust schema given adb

  -- The callback keeps `P`, where a DATA block comes with authority.
  abbrev pub Keeps : Type 0
  Keeps =
      (db : Adb) (blk b : Bytes) (s : S)
      → (adb_block_type (block_at blk) ≡ adb_block_data → SeesAuthorised db)
      → P s
      → P (cb db blk b s).1

  abbrev Good : Parse S → Type 0
  Good p = IsValid crypto trust schema given p × P p.user

  after_callback :
      (blk b : Bytes) (p : Parse S) (s : S)
      → Keeps
      → p.db.schema ≡ schema
      → IsLater crypto trust schema given p
      → (adb_block_type (block_at blk) ≡ adb_block_data → p.trusted ≡ true)
      → P s
      → Good (record p { user = (cb p.db blk b s).1 })
  after_callback blk b p s keeps same later vouched h = (
    (
      same,
      inr (record {
        no_adb = later.no_adb;
        adb = later.adb;
        has_adb = later.has_adb;
        calculated = later.calculated;
        authorised = later.authorised;
      }),
    ),
    keeps p.db blk b s (λ two. (later.adb, later.has_adb, later.authorised (vouched two))) h,
  )

  handle_block-Good :
      (blk : Bytes) (p : Parse S) → Keeps → Good p → Good (handle_block crypto trust cb blk p).1
  unfolding handle_block
  handle_block-Good blk p keeps (valid, h) =
      let type = adb_block_type (block_at blk) in
      let b = adb_block_blob blk in
      elim (Bool-cases (is_allowed type p.allowed)) [
        | inr refused ↦ rw refused (valid, h)
        | inl allowed ↦ elim (Result-cases (handle_type crypto trust type b p)) [
          | inl (x, e) ↦ rw (allowed, e) (valid, h)
          | inr (p', e) ↦
              let ((same, later), vouched) =
                handle_type-IsLater crypto trust schema given sized type b p p' allowed valid e in
              rw (allowed, e) (after_callback blk b p' p.user keeps same later vouched h)
        ]
      ]

  parse_loop-Good :
      (fuel r : ℕ) (cur : Cursor) (p : Parse S) (e : Ended S)
      → Keeps
      → Good p
      → parse_loop crypto trust cb fuel cur r p ≡ some e
      → Good (e.at)
  unfolding parse_loop
  parse_loop-Good zero r cur p e keeps good h = absurd (ground (arith, h))
  parse_loop-Good (suc fuel) r at_end p e keeps good h =
      subst Good (ap (λ x. x.at) (some-injective (ended r at_end p) e h)) good
  parse_loop-Good (suc fuel) r (at_error x) p e keeps good h =
      subst Good (ap (λ x. x.at) (some-injective (ended r (at_error x) p) e h)) good
  parse_loop-Good (suc fuel) r (at_block blk) p e keeps good h =
      let good' = handle_block-Good blk p keeps good in
      let p' = (handle_block crypto trust cb blk p).1 in
      elim (Result-cases (handle_block crypto trust cb blk p).0) [
        | inl (x, is) ↦
            let failed : Ended S = record { r = err x; blk = at_block blk; at = p' } in
            subst Good (ap (λ x. x.at) (some-injective failed e (ground (arith, is, h)))) good'
        | inr (n, is) ↦
            parse_loop-Good fuel n (adb_block_next blk) p' e keeps good' (ground (arith, is, h))
      ]

  outcome-none :
      (e : Ended S) → outcome e ≡ none → (e.at.trusted ≡ true) × (is_null e.at.db.adb ≡ false)
  unfolding outcome
  outcome-none e h = ground arith

  IsValid-authorised :
      (p : Parse S)
      → IsValid crypto trust schema given p
      → p.trusted ≡ true
      → is_null p.db.adb ≡ false
      → SeesAuthorised p.db
  IsValid-authorised p (same, inl first) vouched some_adb =
      absurd (ground (arith, some_adb, first.none_yet))
  IsValid-authorised p (same, inr later) vouched some_adb =
      (later.adb, later.has_adb, later.authorised vouched)

  -- What the function leaves: on success an ADB block with authority, on failure none.
  abbrev pub IsSafe : Option Error × Parse S → Type 0
  IsSafe (none, p) = P p.user × SeesAuthorised p.db
  IsSafe (some x, p) = P p.user × (p.db.adb ≡ null)

  returned-IsSafe :
      (o : Option Error) (p : Parse S)
      → P p.user
      → (o ≡ none → SeesAuthorised p.db)
      → IsSafe (returned o p)
  returned-IsSafe none p h sees = (h, sees refl)
  returned-IsSafe (some x) p h sees = (h, refl)

  close_parse-IsSafe : (e : Ended S) → Good (e.at) → IsSafe (close_parse e)
  unfolding close_parse
  close_parse-IsSafe e (valid, h) = returned-IsSafe (outcome e) e.at h (λ fine.
      let (vouched, some_adb) = outcome-none e fine in
      IsValid-authorised e.at valid vouched some_adb)

  start-Good :
      (db : Adb) (user : S)
      → db.adb ≡ null
      → db.schema ≡ schema
      → P user
      → Good (start crypto trust db given user)
  unfolding start
  start-Good db user empty same h = (
    (
      same,
      inl (record {
        only_adb = refl;
        none_yet = empty;
        same_ectx = refl;
        nothing_calculated = λ alg. refl;
        trusted_untrusted = λ t. t;
      }),
    ),
    h,
  )

  -- Whatever file is read with an empty `struct adb`: where 0 is returned, an ADB block is there, and
  -- untrusted files were asked for, or the caller's digest is that block's, or a trusted key has
  -- signed its digest with the schema. Where an error is returned, no block is left. A property that
  -- the callback keeps holds behind the call, also if it is kept only where DATA blocks come behind
  -- an ADB block with such authority. The digests are of their algorithm's size.
  pub __adb_m_parse-IsSafe :
      (db : Adb) (mem : Bytes) (user : S) (result : Option Error × Parse S)
      → Keeps
      → db.adb ≡ null
      → db.schema ≡ schema
      → P user
      → __adb_m_parse crypto trust cb db mem given user ≡ some result
      → IsSafe result
  unfolding __adb_m_parse
  __adb_m_parse-IsSafe db mem user result keeps empty same h is =
      let first = adb_block_first mem in
      let p = start crypto trust db given user in
      elim (Option-cases (parse_loop crypto trust cb (length mem + 2) first 0 p)) [
        | inl lost ↦ absurd (ground (arith, lost, is))
        | inr (e, ends) ↦
            subst IsSafe (some-injective (close_parse e) result (ground (arith, ends, is))) (
              close_parse-IsSafe e (
                parse_loop-Good (length mem + 2) 0 first p e keeps (start-Good db user empty same h)
                  ends))
      ]
