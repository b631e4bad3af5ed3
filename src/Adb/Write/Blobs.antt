-- ===== src/Adb/Write/Blobs.antt =====
-- Blobs are read back from the values that are written for them.
use apk_tools.Adb.Write.Reading.{IsRead, written_IsRead, read_blob-le_bytes, blob_type}
use apk_tools.Adb.Words.{adb_val_type, le_bytes, adb_val, length-le_bytes, adb_null}
use apk_tools.Prelude.{
  ℕ, Bytes, concat, List, ◌<◌, length, ◌^◌, ◌+◌, ◌≡◌, ◌*◌, ◌∷◌, length-append, arith, if-holds, ◌∙◌,
  ltb, if◌then◌else◌, leb, ◌≤◌, some, true, refl,
}
use apk_tools.Adb.Write.{
  Writer, List, adb_w_blob_vec, blob_vec, max_vec_size, length, adb_w_data, ltb,
}
use apk_tools.Adb.Write.Cache.{two, IsCached, IsAlignment, four, two, one}
use apk_tools.Adb.Value.{
  adb_r_blob, read, read_blob, adb_type_blob_16, adb_type_blob_8, adb_type_blob_32,
}

-- A blob whose length has `s` bytes, at a value of type `t`.
sized_IsRead :
    (db : Writer) (vec : List Bytes) (s t : ℕ)
    → length (concat vec) < 256 ^ s
    → t < 16
    → IsAlignment s
    → IsCached db
    → length db.adb + s + s + length (concat vec) < 2 ^ 28
    → ((adb : Bytes) (v : ℕ) → adb_val_type v ≡ t * 2 ^ 28 → adb_r_blob adb v ≡ read_blob adb v s)
    → let (offs, db') = adb_w_data db (le_bytes s (length (concat vec)) ∷ vec) s in
      IsRead adb_r_blob (read (concat vec)) db (adb_val (t * 2 ^ 28) offs, db')
sized_IsRead db vec s t small h al cached fits typed =
    let size = le_bytes s (length (concat vec)) in
    let n = length-le_bytes s (length (concat vec)) in
    written_IsRead adb_r_blob (read (concat vec)) db (size ∷ vec) s t h al cached
      (rw (length-append size (concat vec)) (omega (arith, n, fits)))
      (λ adb v type at. typed adb v type ∙ read_blob-le_bytes adb (concat vec) v s small at)

-- What is written behind the assertion is read back.
blob_vec-IsRead :
    (db : Writer) (vec : List Bytes)
    → 0 < length (concat vec)
    → IsCached db
    → length db.adb + 8 + length (concat vec) < 2 ^ 28
    → IsRead adb_r_blob (read (concat vec)) db (blob_vec db vec)
unfolding blob_vec
blob_vec-IsRead db vec some_bytes cached fits =
    let sz = length (concat vec) in
    let b = read (concat vec) in
    let (offs32, db32) = adb_w_data db (le_bytes 4 sz ∷ vec) 4 in
    let (offs16, db16) = adb_w_data db (le_bytes 2 sz ∷ vec) 2 in
    let (offs8, db8) = adb_w_data db (le_bytes 1 sz ∷ vec) 1 in
    let blob16 : ℕ × Writer = (adb_val adb_type_blob_16 offs16, db16) in
    let blob8 : ℕ × Writer = (adb_val adb_type_blob_8 offs8, db8) in
    let nothing : ℕ × Writer = (adb_null, db) in
    if-holds (IsRead adb_r_blob b db) (ltb 0xffff sz) (adb_val adb_type_blob_32 offs32, db32)
      (if ltb 0xff sz then blob16 else if ltb 0 sz then blob8 else nothing)
      (λ _.
        sized_IsRead db vec 4 10 (omega (arith, fits)) (omega arith) four cached
          (omega (arith, fits)) (λ adb v type. blob_type adb v adb_type_blob_32 type))
      (λ below.
        if-holds (IsRead adb_r_blob b db) (ltb 0xff sz) blob16 (if ltb 0 sz then blob8 else nothing)
          (λ _.
            sized_IsRead db vec 2 9 (ground (arith, below)) (omega arith) two cached
              (omega (arith, fits)) (λ adb v type. blob_type adb v adb_type_blob_16 type))
          (λ short.
            if-holds (IsRead adb_r_blob b db) (ltb 0 sz) blob8 nothing
              (λ _.
                sized_IsRead db vec 1 8 (ground (arith, short)) (omega arith) one cached
                  (omega (arith, fits)) (λ adb v type. blob_type adb v adb_type_blob_8 type))
              (λ zero_bytes. absurd (ground (arith, zero_bytes, some_bytes)))))

-- A blob of one or more bytes, in at most four pieces, is written without a failed assertion. It is
-- read back whole from the value that is written for it, and so it is when the block has grown
-- since; the buckets stay sound, and what the block had it keeps. This is for sound buckets, and
-- where the block, the blob and 8 more bytes are less than 2^28.
pub adb_r_blob-adb_w_blob_vec :
    (db : Writer) (vec : List Bytes)
    → length vec ≤ max_vec_size
    → 0 < length (concat vec)
    → IsCached db
    → length db.adb + 8 + length (concat vec) < 2 ^ 28
    → (w : ℕ × Writer) × (adb_w_blob_vec db vec ≡ some w)
      × IsRead adb_r_blob (read (concat vec)) db w
unfolding adb_w_blob_vec
adb_r_blob-adb_w_blob_vec db vec few some_bytes cached fits =
    let holds : leb (length vec) max_vec_size ≡ true = ground (arith, few) in
    (blob_vec db vec, rw holds refl, blob_vec-IsRead db vec some_bytes cached fits)
