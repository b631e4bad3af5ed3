-- ===== src/Adb/Object/RoundTrip.antt =====
-- An object is read back as it was built.
use apk_tools.Adb.Write.Reading.{IsRead, unchanged, written_IsRead}
use apk_tools.Adb.Write.Stored.{IsAt}
use apk_tools.Adb.Write.Cache.{IsCached, four}
use apk_tools.Adb.Write.{Writer}
use apk_tools.Adb.Value.{adb_type_array, adb_type_object}
use apk_tools.Adb.Words.{adb_val_type, adb_null, adb_val_value}
use apk_tools.Prelude.{
  refl, ℕ, Bytes, List, All, ◌<◌, ◌≤◌, length, ◌^◌, get_or, take, some, ◌≡◌, Bool-cases, arith, ◌∷◌,
  ◌++◌, ltb, ◌-◌, inl, length-take, drop, inr, leb, if◌then◌else◌, zero, [], ◌∙◌, ◌⊎◌, ◌+◌, ◌*◌,
  subst, append-nil, sym, ap,
}
use apk_tools.Adb.Object.{
  Building, adb_ro_val, List, adb_r_obj, trim, adb_val_type, get_or, take, adb_null, some, set_at,
  entry_words, ltb, drop, suc, leb, adb_type_array, __adb_w_obj, committed, Option, Writer,
  adb_type_object, Obj,
}
use apk_tools.Adb.Object.Words.{
  IsWord, trim_le, trim_zero, length-set_at, obj_of-entry, All-take, All-set_at, get_or-take,
  get_or-set_at, obj_of-entry_words, length-entry_words,
}

-- The entries are words, and there is room for those in use, of which the first is the number.
pub record AreEntries (o : Building) : Type 0 where
  pub are_words : All IsWord o.obj
  pub some_entry : 0 < o.num
  pub room : o.num ≤ length o.obj

-- Entry `i`, where it is in use, and NULL behind.
abbrev pub in_use : Building → ℕ → ℕ
in_use o i = if ltb i o.num then get_or o.obj i 0 else adb_null

-- Entry `i` of the object that a value is.
abbrev pub entry : ℕ → Bytes → ℕ → ℕ
entry i adb v = adb_ro_val (adb_r_obj adb v) i

-- What is left out is NULL.
trimmed : (o : Building) (i : ℕ) → AreEntries o → 0 < i → trim o.obj o.num ≤ i → in_use o i ≡ 0
trimmed o i building pos h = elim (Bool-cases (ltb i o.num)) [
  | inl used ↦ rw used (trim_zero o.obj o.num i pos (ground (arith, used)) h)
  | inr unused ↦ rw unused refl
]

used_inside : (o : Building) (i : ℕ) → i < o.num → in_use o i ≡ get_or o.obj i 0
used_inside o i h = ground (arith, h)

-- The words that are written begin with their number.
first_word :
    (n : ℕ) (obj : List ℕ)
    → 0 < n
    → 0 < length obj
    → take n (set_at 0 n obj) ≡ n ∷ take (n - 1) (drop 1 obj)
first_word zero obj pos some_room = absurd (omega arith)
first_word (suc n) [] pos some_room = absurd (omega arith)
first_word (suc n) (x ∷ obj) pos some_room = let less : suc n - 1 ≡ n = omega arith in rw less refl

null_entry : (adb : Bytes) (i : ℕ) → 0 < i → entry i adb adb_null ≡ 0
unfolding adb_ro_val adb_r_obj adb_val_type
null_entry adb i pos = ground (arith, pos)

written_entry :
    (o : Building) (i : ℕ) (adb rest : Bytes)
    → AreEntries o
    → o.num < 2 ^ 26
    → 0 < i
    → let n = trim o.obj o.num in
      adb_ro_val
        (record { db = adb; num = n; obj = some (entry_words (take n (set_at 0 n o.obj)) ++ rest) })
        i
      ≡ in_use o i
written_entry o i adb rest building small pos =
    let n = trim o.obj o.num in
    let le = trim_le o.obj o.num in
    let ws = take n (set_at 0 n o.obj) in
    let word : IsWord n = omega (arith, le, small) in
    let len : length ws ≡ n =
      length-take n (set_at 0 n o.obj)
        (rw (length-set_at n o.obj) (omega (arith, le, building.room))) in
    elim (Bool-cases (leb n i)) [
      | inl out ↦ unfold adb_ro_val in rw (out, trimmed o i building pos (ground (arith, out))) refl
      | inr inside ↦
          obj_of-entry adb rest n i ws
            (All-take n (set_at 0 n o.obj) (All-set_at n o.obj word building.are_words)) len
            (ground (arith, inside))
          ∙ get_or-take n i (set_at 0 n o.obj) (ground (arith, inside))
          ∙ get_or-set_at n i o.obj pos
          ∙ sym (used_inside o i (ground (arith, inside, le)))
    ]

-- A block where the words of the object stand.
stored_entry :
    (o : Building) (i : ℕ) (adb : Bytes) (v : ℕ)
    → AreEntries o
    → o.num < 2 ^ 26
    → 1 < trim o.obj o.num
    → 0 < i
    → (adb_val_type v ≡ adb_type_array) ⊎ (adb_val_type v ≡ adb_type_object)
    → let n = trim o.obj o.num in
      IsAt adb (adb_val_value v) (entry_words (take n (set_at 0 n o.obj)))
      → entry i adb v ≡ in_use o i
stored_entry o i adb v building small some_entries pos type at =
    let n = trim o.obj o.num in
    let le = trim_le o.obj o.num in
    let first =
      first_word n o.obj (omega (arith, some_entries))
        (omega (arith, building.room, building.some_entry)) in
    let ws = take n (set_at 0 n o.obj) in
    let vs = take (n - 1) (drop 1 o.obj) in
    let len : length ws ≡ n =
      length-take n (set_at 0 n o.obj)
        (rw (length-set_at n o.obj) (omega (arith, le, building.room))) in
    let are_words =
      All-take n (set_at 0 n o.obj)
        (All-set_at n o.obj (omega (arith, le, small)) building.are_words) in
    let (rest, is) =
      obj_of-entry_words adb v n vs (subst (All IsWord) first are_words)
        (sym (ap length first) ∙ len) type
        (subst (λ l. IsAt adb (adb_val_value v) (entry_words l)) first at) in
    ap (λ (x : Obj). adb_ro_val x i) is
    ∙ ap (λ l. adb_ro_val (record { db = adb; num = n; obj = some (entry_words l ++ rest) }) i)
        (sym first)
    ∙ written_entry o i adb rest building small pos

-- An object or an array that is written is read back as its `pre_commit` leaves it, or as it was
-- built where there is no such hook: every entry in use from the first on, and NULL behind the
-- last, also when the block has grown since. This is for a hook that writes to the object alone and
-- leaves entries that are words, one or more of them in use and all of those inside the object, for
-- sound buckets, and where the block and the entries are less than 2^28 bytes; the buckets stay
-- sound, and what the block had it keeps.
pub adb_ro_val-__adb_w_obj :
    (pre_commit : Option (Building → Building)) (t i : ℕ) (db : Writer) (built : Building)
    → (t ≡ 13) ⊎ (t ≡ 14)
    → 0 < i
    → AreEntries (committed pre_commit built)
    → IsCached db
    → length db.adb + 4 + 4 * (committed pre_commit built).num < 2 ^ 28
    → let (v, (db', o')) = __adb_w_obj pre_commit (t * 2 ^ 28) db built in
      IsRead (entry i) (in_use (committed pre_commit built) i) db (v, db')
unfolding __adb_w_obj
adb_ro_val-__adb_w_obj pre_commit t i db built type pos building cached fits =
    let o = committed pre_commit built in
    let n = trim o.obj o.num in
    let ws = take n (set_at 0 n o.obj) in
    let le = trim_le o.obj o.num in
    let whole = append-nil (entry_words ws) in
    let len : length ws ≡ n =
      length-take n (set_at 0 n o.obj)
        (rw (length-set_at n o.obj) (omega (arith, le, building.room))) in
    elim (Bool-cases (ltb 1 n)) [
      | inr empty ↦ rw empty (
          unchanged (entry i) (in_use o i) db adb_null cached (λ adb.
            null_entry adb i pos ∙ sym (trimmed o i building pos (ground (arith, empty, pos)))))
      | inl entries ↦ rw entries (
          written_IsRead (entry i) (in_use o i) db (entry_words ws ∷ []) 4 t (ground (arith, type))
            four cached (rw whole (omega (arith, length-entry_words ws, len, le, fits)))
            (λ adb v is at.
              stored_entry o i adb v building (omega (arith, fits)) (ground (arith, entries)) pos
                (ground (arith, type, is)) (subst (λ b. IsAt adb (adb_val_value v) b) whole at)))
    ]
