-- ===== src/Adb/Write.antt =====
-- src/adb.c, src/adb.h: the values of an ADB block, written. The memory that the block grows into is
-- left out: it is always enough.
pub mod Stored
pub mod Cache
pub mod Data
pub mod Reading
pub mod Numbers
pub mod Blobs
use apk_tools.Blob.{is_eq, memcmp}
use apk_tools.Prelude.{
  ℕ, Bytes, concat, List, ◌+◌, suc, if◌then◌else◌, ◌∷◌, ◌-◌, ◌++◌, Bool, ◌==◌, not, ltb, length, [],
  Option, some, none, leb, ◌/◌, replicate, true, ◌&&◌, ◌%◌, take, ◌^◌, zero, ◌*◌, drop, get_or,
  false,
}
use apk_tools.Adb.Words.{le_bytes, adb_val, adb_null}
use apk_tools.Adb.Value.{
  adb_type_int, adb_type_blob_32, adb_type_blob_16, adb_type_int_64, adb_type_blob_8,
  adb_type_int_32,
}
use apk_tools.Blob.Hash.{apk_blob_hash_seed}
use apk_tools.Hash.{change_at}

-- `struct adb_w_bucket_entry`.
pub record Entry : Type 0 where
  pub hash : ℕ
  pub offs : ℕ
  pub len : ℕ

-- `struct adb` of a writer. A bucket is a list of arrays of 40 entries; here it is the list of the
-- entries in use, in their order.
pub record Writer : Type 0 where
  pub adb : Bytes
  pub no_cache : ℕ
  pub bucket : List (List Entry)

-- `ROUND_UP(len, alignment) - len`, for an alignment that is a power of two.
abbrev pub pad_to : ℕ → ℕ → ℕ
pad_to len alignment = (len + alignment - 1) / alignment * alignment - len

-- The offset of what was written, and the writer.
unfoldable pub adb_w_raw : Writer → List Bytes → ℕ → ℕ × Writer
adb_w_raw db vec alignment =
    let padded = db.adb ++ replicate (pad_to (length db.adb) alignment) 0 in
    (length padded, record db { adb = padded ++ concat vec })

-- `iovec_hash` and its `len`.
unfoldable pub iovec_hash : ℕ → List Bytes → ℕ
iovec_hash hash [] = hash
iovec_hash hash (v ∷ vec) = iovec_hash (apk_blob_hash_seed v hash) vec

-- Whether `iovec_memcmp` finds the vector at an offset.
unfoldable pub iovec_memcmp : List Bytes → Bytes → Bool
iovec_memcmp [] base = true
iovec_memcmp (v ∷ vec) base =
    if is_eq (memcmp base v (length v)) then iovec_memcmp vec (drop (length v) base) else false

-- What the search of a bucket comes to: an offset to share, or the index of the entry to fill.
pub data Search : Type 0 where
  share : ℕ → Search
  add : ℕ → Search

abbrev pub following : Search → Search
following (share offs) = share offs
following (add i) = add (suc i)

unfoldable pub search_bucket : Bytes → List Bytes → ℕ → ℕ → ℕ → List Entry → Search
unfolding iovec_memcmp
search_bucket adb vec hash len alignment [] = add 0
search_bucket adb vec hash len alignment (entry ∷ entries) =
    let rest = following (search_bucket adb vec hash len alignment entries) in
    if entry.len == 0
    then add 0
    else if not (entry.hash == hash)
    then rest
    else if (entry.len == len) && iovec_memcmp vec (drop entry.offs adb)
    then (if entry.offs % alignment == 0 then share entry.offs else add 0)
    else rest

-- The entry at an index, or the one behind the last.
abbrev pub set_entry : ℕ → Entry → List Entry → List Entry
set_entry i e [] = e ∷ []
set_entry zero e (entry ∷ entries) = e ∷ entries
set_entry (suc i) e (entry ∷ entries) = entry ∷ set_entry i e entries

-- Behind the loops: the entry found, or the one at `add:`.
unfoldable pub after_search : Writer → List Bytes → ℕ → ℕ → ℕ → Search → ℕ × Writer
unfolding adb_w_raw
after_search db vec alignment hash bucketno (share offs) = (offs, db)
after_search db vec alignment hash bucketno (add i) =
    let (offs, db') = adb_w_raw db vec alignment in
    let entry : Entry = record {
      hash = hash;
      offs = offs % 2 ^ 32;
      len = length (concat vec) % 2 ^ 32;
    } in
    (offs % 2 ^ 32, record db' { bucket = change_at (set_entry i entry) bucketno db'.bucket })

unfoldable pub adb_w_data : Writer → List Bytes → ℕ → ℕ × Writer
unfolding adb_w_raw iovec_hash search_bucket after_search
adb_w_data db vec alignment =
    if not (db.no_cache == 0)
    then adb_w_raw db vec alignment
    else (let hash = iovec_hash 5381 vec in
        let bucketno = hash % length db.bucket in
        after_search db vec alignment hash bucketno (
          search_bucket db.adb vec hash (length (concat vec)) alignment
            (get_or db.bucket bucketno [])))

unfoldable pub adb_w_root : Writer → ℕ → Writer
adb_w_root db root_val =
    if ltb (length db.adb) 8
    then db
    else record db { adb = take 4 db.adb ++ (le_bytes 4 root_val ++ drop 8 db.adb) }

-- Behind the assertion of `adb_w_blob_vec`: nothing is written for no bytes.
unfoldable pub blob_vec : Writer → List Bytes → ℕ × Writer
blob_vec db b =
    let sz = length (concat b) in
    if ltb 0xffff sz
    then (let (offs, db') = adb_w_data db (le_bytes 4 sz ∷ b) 4 in
        (adb_val adb_type_blob_32 offs, db'))
    else if ltb 0xff sz
    then (let (offs, db') = adb_w_data db (le_bytes 2 sz ∷ b) 2 in
        (adb_val adb_type_blob_16 offs, db'))
    else if ltb 0 sz
    then (let (offs, db') = adb_w_data db (le_bytes 1 sz ∷ b) 1 in
        (adb_val adb_type_blob_8 offs, db'))
    else (adb_null, db)

abbrev pub max_vec_size : ℕ
max_vec_size = 4

-- `none` is the failed assertion.
unfoldable pub adb_w_blob_vec : Writer → List Bytes → Option (ℕ × Writer)
unfolding blob_vec
adb_w_blob_vec db b = if leb (length b) max_vec_size then some (blob_vec db b) else none

-- The assertion holds of one piece.
unfoldable pub adb_w_blob : Writer → Bytes → ℕ × Writer
unfolding blob_vec
adb_w_blob db b = blob_vec db (b ∷ [])

unfoldable pub adb_w_blob_raw : Writer → Bytes → ℕ × Writer
unfolding adb_w_blob
adb_w_blob_raw db b =
    let (val, db') = adb_w_blob (record db { no_cache = suc db.no_cache }) b in
    (val, record db' { no_cache = db'.no_cache - 1 })

-- `val` is a uint64_t.
unfoldable pub adb_w_int : Writer → ℕ → ℕ × Writer
adb_w_int db val =
    if leb (2 ^ 32) val
    then (let (offs, db') = adb_w_data db (le_bytes 8 val ∷ []) 4 in
        (adb_val adb_type_int_64 offs, db'))
    else if leb (2 ^ 28) val
    then (let (offs, db') = adb_w_data db (le_bytes 4 val ∷ []) 4 in
        (adb_val adb_type_int_32 offs, db'))
    else (adb_val adb_type_int val, db)
