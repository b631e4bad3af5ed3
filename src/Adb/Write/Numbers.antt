-- ===== src/Adb/Write/Numbers.antt =====
-- Numbers are read back from the values that are written for them.
use apk_tools.Adb.Write.Reading.{
  unchanged, IsRead, written_IsRead, read_word-le_bytes, int_type, adb_val-fields, unchanged,
}
use apk_tools.Adb.Words.{adb_val_type, le_bytes, adb_val, length-le_bytes, adb_val_value}
use apk_tools.Prelude.{
  ℕ, Bytes, ◌<◌, ◌^◌, length, ◌+◌, ◌≡◌, ◌*◌, ◌∷◌, [], append-nil, if-holds, leb, ◌∙◌, if◌then◌else◌,
  arith, subst,
}
use apk_tools.Adb.Write.{Writer, adb_w_int, length, adb_w_data, [], leb}
use apk_tools.Adb.Write.Cache.{IsCached, four}
use apk_tools.Adb.Write.Stored.{IsAt}
use apk_tools.Adb.Value.{adb_type_int, adb_r_int, read_word, adb_type_int_32, adb_type_int_64}

-- A number of `s` bytes, at a value of type `t`.
word_IsRead :
    (db : Writer) (val s t : ℕ)
    → val < 256 ^ s
    → t < 16
    → IsCached db
    → length db.adb + 4 + s < 2 ^ 28
    → ((adb : Bytes) (v : ℕ) → adb_val_type v ≡ t * 2 ^ 28 → adb_r_int adb v ≡ read_word adb v s)
    → let (offs, db') = adb_w_data db (le_bytes s val ∷ []) 4 in
      IsRead adb_r_int val db (adb_val (t * 2 ^ 28) offs, db')
word_IsRead db val s t small h cached fits typed =
    let whole = append-nil (le_bytes s val) in
    written_IsRead adb_r_int val db (le_bytes s val ∷ []) 4 t h four cached
      (rw (whole, length-le_bytes s val) fits)
      (λ adb v type at.
        typed adb v type
        ∙ read_word-le_bytes adb v s val small (subst (λ b. IsAt adb (adb_val_value v) b) whole at))

-- A uint64_t is read back from the value that is written for it, and so it is when the block has
-- grown since; the buckets stay sound, and what the block had it keeps. This is for sound buckets,
-- and where the block and 12 more bytes are less than 2^28.
pub adb_r_int-adb_w_int :
    (db : Writer) (val : ℕ)
    → val < 2 ^ 64
    → IsCached db
    → length db.adb + 12 < 2 ^ 28
    → IsRead adb_r_int val db (adb_w_int db val)
unfolding adb_w_int
adb_r_int-adb_w_int db val small cached fits =
    let (offs8, db8) = adb_w_data db (le_bytes 8 val ∷ []) 4 in
    let (offs4, db4) = adb_w_data db (le_bytes 4 val ∷ []) 4 in
    let word : ℕ × Writer = (adb_val adb_type_int_32 offs4, db4) in
    let plain : ℕ × Writer = (adb_val adb_type_int val, db) in
    if-holds (IsRead adb_r_int val db) (leb (2 ^ 32) val) (adb_val adb_type_int_64 offs8, db8)
      (if leb (2 ^ 28) val then word else plain)
      (λ _.
        word_IsRead db val 8 3 small (omega arith) cached (omega (arith, fits))
          (λ adb v type. int_type adb v adb_type_int_64 type))
      (λ below.
        if-holds (IsRead adb_r_int val db) (leb (2 ^ 28) val) word plain
          (λ _.
            word_IsRead db val 4 2 (ground (arith, below)) (omega arith) cached (omega arith)
              (λ adb v type. int_type adb v adb_type_int_32 type))
          (λ tiny.
            let (type, value) = adb_val-fields 1 val (omega arith) (ground (arith, tiny)) in
            unchanged adb_r_int val db (adb_val adb_type_int val) cached
              (λ adb. int_type adb (adb_val adb_type_int val) adb_type_int type ∙ value)))
