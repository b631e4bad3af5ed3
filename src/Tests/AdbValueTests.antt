-- ===== src/Tests/AdbValueTests.antt =====
-- Values and objects at small inputs.
use apk_tools.Adb.Write.Stored.{IsInside}
use apk_tools.Adb.Object.{Building, __adb_w_obj, set_at}
use apk_tools.Adb.Value.{adb_r_int, adb_r_blob, read}
use apk_tools.Prelude.{
  refl, ℕ, [], ◌∷◌, arith, replicate, All, get_or, ◌*◌, suc, some, ◌≡◌, ◌^◌, inr, zero,
}
use apk_tools.Adb.Write.{Writer, adb_w_int, adb_w_blob_vec}
use apk_tools.Adb.Write.Cache.{IsCached}
use apk_tools.Adb.Write.Reading.{IsRead}
use apk_tools.Adb.Write.Numbers.{adb_r_int-adb_w_int}
use apk_tools.Adb.Write.Blobs.{adb_r_blob-adb_w_blob_vec}
use apk_tools.Adb.Object.RoundTrip.{AreEntries, entry, adb_ro_val-__adb_w_obj}

abbrev new_writer : Writer
new_writer = record { adb = replicate 8 0; no_cache = 0; bucket = [] ∷ [] }

nothing-IsInside : (i : ℕ) → All (IsInside (replicate 8 0)) (get_or ([] ∷ []) i [])
nothing-IsInside zero = tt
nothing-IsInside (suc i) = tt

new_writer-IsCached : IsCached new_writer
new_writer-IsCached = record { inside = nothing-IsInside; some_bucket = λ _. omega arith }

adb_r_int-adb_w_int_example :
    IsRead adb_r_int 5000000000 new_writer (adb_w_int new_writer 5000000000)
adb_r_int-adb_w_int_example =
    adb_r_int-adb_w_int new_writer 5000000000 (omega arith) new_writer-IsCached (omega arith)

adb_r_blob-adb_w_blob_vec_example :
    (w : ℕ × Writer) × (adb_w_blob_vec new_writer ((1 ∷ 2 ∷ []) ∷ (3 ∷ []) ∷ []) ≡ some w)
    × IsRead adb_r_blob (read (1 ∷ 2 ∷ 3 ∷ [])) new_writer w
adb_r_blob-adb_w_blob_vec_example =
    adb_r_blob-adb_w_blob_vec new_writer ((1 ∷ 2 ∷ []) ∷ (3 ∷ []) ∷ []) (omega arith) (omega arith)
      new_writer-IsCached (omega arith)

-- A hook that writes the first field again, at the second, and leaves out the third.
abbrev copied : Building → Building
copied o = record { obj = set_at 2 (get_or o.obj 1 0) o.obj; num = 3 }

abbrev three_fields : Building
three_fields = record { obj = 4 ∷ 17 ∷ 42 ∷ 43 ∷ []; num = 4 }

copied-AreEntries : AreEntries (copied three_fields)
copied-AreEntries = record {
  are_words = (omega arith, (omega arith, (omega arith, (omega arith, tt))));
  some_entry = omega arith;
  room = omega arith;
}

adb_ro_val-__adb_w_obj_example : IsRead (entry 2) 17 new_writer (
  (__adb_w_obj (some copied) (14 * 2 ^ 28) new_writer three_fields).0,
  (__adb_w_obj (some copied) (14 * 2 ^ 28) new_writer three_fields).1.0,
)
adb_ro_val-__adb_w_obj_example =
    adb_ro_val-__adb_w_obj (some copied) 14 2 new_writer three_fields (inr refl) (omega arith)
      copied-AreEntries new_writer-IsCached (omega arith)
