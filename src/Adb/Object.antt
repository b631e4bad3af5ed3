-- ===== src/Adb/Object.antt =====
-- src/adb.c, src/adb.h: objects and arrays of values, read and written. An `adb_val_t[]` of a writer
-- is a list, whose entry 0 is the number of entries there is room for. A failed assertion is `none`;
-- `adb_w_error` is one.
pub mod Words
pub mod RoundTrip
pub mod Build
use apk_tools.Prelude.{
  ℕ, Bytes, concat, Option, none, if◌then◌else◌, List, ◌∷◌, get_or, ◌==◌, not, leb, suc, replicate,
  ◌++◌, ltb, ◌*◌, [], ◌&&◌, ◌-◌, some, drop, take, zero, ◌+◌,
}
use apk_tools.Adb.Words.{le_bytes, adb_val, adb_val_type, adb_null, le_value}
use apk_tools.Adb.Value.{
  adb_type_array, adb_r_root, adb_r_int, Read, adb_type_object, adb_r_blob, adb_r_deref,
}
use apk_tools.Adb.Write.{Writer, adb_w_data}

-- `struct adb_obj` as read: `obj` is the memory from the pointer on, or NULL.
pub record Obj : Type 0 where
  pub db : Bytes
  pub num : ℕ
  pub obj : Option Bytes

abbrev pub no_obj : Bytes → Obj
no_obj db = record { db = db; num = 1; obj = none }

-- An object whose number of entries is known.
unfoldable pub obj_of : Bytes → ℕ → ℕ → Obj
obj_of db v num = if num == 0 then no_obj db else elim (adb_r_deref db v 0 (4 * num)) [
  | none ↦ no_obj db
  | some o ↦ record { db = db; num = num; obj = some o }
]

unfoldable pub adb_r_obj : Bytes → ℕ → Obj
adb_r_obj db v =
    let type = adb_val_type v in
    if not (type == adb_type_array) && not (type == adb_type_object)
    then no_obj db
    else elim (adb_r_deref db v 0 4) [
      | none ↦ no_obj db
      | some o ↦ obj_of db v (le_value (take 4 o))
    ]

unfoldable pub adb_r_rootobj : Bytes → Obj
adb_r_rootobj db = adb_r_obj db (adb_r_root db)

unfoldable pub adb_ro_num : Obj → ℕ
adb_ro_num o = o.num

unfoldable pub adb_ra_num : Obj → ℕ
adb_ra_num o = (if o.num == 0 then 1 else o.num) - 1

-- Entry `i` of the memory; a NULL pointer is not read, its number being 1.
unfoldable pub entry_at : Option Bytes → ℕ → ℕ
entry_at none i = adb_null
entry_at (some o) i = le_value (take 4 (drop (4 * i) o))

-- For `i` of at least 1.
unfoldable pub adb_ro_val : Obj → ℕ → ℕ
adb_ro_val o i = if leb o.num i then adb_null else entry_at o.obj i

unfoldable pub adb_ro_int : Obj → ℕ → ℕ
adb_ro_int o i = adb_r_int o.db (adb_ro_val o i)

unfoldable pub adb_ro_blob : Obj → ℕ → Read
adb_ro_blob o i = adb_r_blob o.db (adb_ro_val o i)

-- `struct adb_obj` of a writer.
pub record Building : Type 0 where
  pub obj : List ℕ
  pub num : ℕ

abbrev pub set_at : ℕ → ℕ → List ℕ → List ℕ
set_at i v [] = []
set_at zero v (x ∷ xs) = v ∷ xs
set_at (suc i) v (x ∷ xs) = x ∷ set_at i v xs

-- `num_fields` is at least 1.
unfoldable pub adb_wo_init : ℕ → Building
adb_wo_init num_fields = record { obj = num_fields ∷ replicate (num_fields - 1) 0; num = 1 }

-- `memset` over the entries in use, and the maximum again.
unfoldable pub adb_wo_reset : Building → Building
adb_wo_reset o =
    let max = get_or o.obj 0 0 in
    record { obj = set_at 0 max (replicate o.num 0 ++ drop o.num o.obj); num = 1 }

-- The loop that leaves out NULL entries at the end.
unfoldable pub trim : List ℕ → ℕ → ℕ
trim obj zero = zero
trim obj (suc zero) = 1
trim obj (suc (suc n)) =
    let rest = trim obj (suc n) in if get_or obj (suc n) 0 == adb_null then rest else suc (suc n)

-- The memory of an array of values.
unfoldable pub entry_words : List ℕ → Bytes
unfolding le_bytes
entry_words [] = []
entry_words (v ∷ vs) = le_bytes 4 v ++ entry_words vs

-- `o->schema->pre_commit(o)`, where there is a schema with that hook.
abbrev pub committed : Option (Building → Building) → Building → Building
committed none o = o
committed (some pre_commit) o = pre_commit o

-- The hook of the schema is an argument; it may read the block, and writes to the object alone.
unfoldable pub __adb_w_obj :
    Option (Building → Building) → ℕ → Writer → Building → ℕ × (Writer × Building)
unfolding trim adb_wo_reset
__adb_w_obj pre_commit type db built =
    let max = get_or built.obj 0 0 in
    let o = committed pre_commit built in
    let n = trim o.obj o.num in
    let reset = adb_wo_reset o in
    let o' : Building = record reset { obj = set_at 0 max reset.obj } in
    if ltb 1 n
    then (let (offs, db') = adb_w_data db (entry_words (take n (set_at 0 n o.obj)) ∷ []) 4 in
        (adb_val type offs, (db', o')))
    else (adb_null, (db, o'))

unfoldable pub adb_w_obj :
    Option (Building → Building) → Writer → Building → ℕ × (Writer × Building)
unfolding __adb_w_obj
adb_w_obj pre_commit db o = __adb_w_obj pre_commit adb_type_object db o

unfoldable pub adb_w_arr :
    Option (Building → Building) → Writer → Building → ℕ × (Writer × Building)
unfolding __adb_w_obj
adb_w_arr pre_commit db o = __adb_w_obj pre_commit adb_type_array db o

abbrev pub adb_type_error : ℕ
adb_type_error = 0xf0000000

unfoldable pub adb_wo_val : Building → ℕ → ℕ → Option Building
adb_wo_val o i v =
    if leb (get_or o.obj 0 0) i
    then none
    else if adb_val_type v == adb_type_error
    then none
    else some (record {
      obj = set_at i v o.obj;
      num = if not (v == adb_null) && leb o.num i then i + 1 else o.num;
    })

-- `reallocarray` to twice the room, with zeroes behind; it does not fail.
abbrev pub enlarge : List ℕ → List ℕ
enlarge obj = let num = get_or obj 0 0 in set_at 0 (num * 2) (take num obj ++ replicate num 0)

-- The value that is returned, with the array.
unfoldable pub adb_wa_append : Building → ℕ → Option Building
adb_wa_append o v =
    if adb_val_type v == adb_type_error
    then none
    else if v == adb_null
    then some o
    else let obj = if leb (get_or o.obj 0 0) o.num then enlarge o.obj else o.obj in
      some (record { obj = set_at o.num v obj; num = o.num + 1 })
