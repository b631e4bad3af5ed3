-- ===== src/Adb/Write/Cache.antt =====
-- The buckets as an invariant, and what a write leaves.
use apk_tools.Hash.{change_at}
use apk_tools.Prelude.{
  refl, ℕ, Bytes, concat, length-replicate, All, ◌≡◌, List, ◌<◌, get_or, ◌++◌, arith, All-imp, [],
  length, length-append, ◌+◌, if-holds, replicate, zero, append_assoc, ◌==◌, append-nil, subst, sym,
}
use apk_tools.Adb.Write.{
  Writer, pad_to, List, Entry, adb_w_raw, get_or, set_entry, [], length, suc, ◌∷◌, change_at,
  replicate,
}
use apk_tools.Hash.Laws.{get_or-change_at, length-change_at}
use apk_tools.Adb.Write.Stored.{IsAt, IsInside}

-- Every entry lies inside the block, and a writer that shares has a bucket.
pub record IsCached (db : Writer) : Type 0 where
  pub inside : (i : ℕ) → All (IsInside db.adb) (get_or db.bucket i [])
  pub some_bucket : db.no_cache ≡ 0 → 0 < length db.bucket

-- What a write of `b` to `db` leaves, with its alignment: the bytes are at the offset, the block has
-- only grown, by those bytes and less than the alignment at most, and the buckets are still sound.
pub record Wrote (db : Writer) (b : Bytes) (alignment offs : ℕ) (db' : Writer) : Type 0 where
  pub stored_at : IsAt db'.adb offs b
  pub more : Bytes
  pub grown : db'.adb ≡ db.adb ++ more
  pub small : length db'.adb < length db.adb + alignment + length b
  pub cached : IsCached db'
  pub same_cache : db'.no_cache ≡ db.no_cache

pub data IsAlignment : ℕ → Type 0 where
  one : IsAlignment 1
  two : IsAlignment 2
  four : IsAlignment 4

pad_to-lt : (len alignment : ℕ) → IsAlignment alignment → pad_to len alignment < alignment
pad_to-lt len alignment one = omega arith
pad_to-lt len alignment two = omega arith
pad_to-lt len alignment four = omega arith

IsInside-more :
    (adb more : Bytes) (entries : List Entry)
    → All (IsInside adb) entries
    → All (IsInside (adb ++ more)) entries
IsInside-more adb more entries h =
    All-imp (IsInside adb) (IsInside (adb ++ more)) entries
      (λ e k. rw (length-append adb more) (omega arith)) h

set_entry-All :
    (adb : Bytes) (i : ℕ) (e : Entry) (entries : List Entry)
    → IsInside adb e
    → All (IsInside adb) entries
    → All (IsInside adb) (set_entry i e entries)
set_entry-All adb zero e [] k h = (k, tt)
set_entry-All adb (suc i) e [] k h = (k, tt)
set_entry-All adb zero e (entry ∷ entries) k h = (k, h.1)
set_entry-All adb (suc i) e (entry ∷ entries) k h = (h.0, set_entry-All adb i e entries k h.1)

pub adb_w_raw-Wrote :
    (db : Writer) (vec : List Bytes) (alignment : ℕ)
    → IsAlignment alignment
    → IsCached db
    → let (offs, db') = adb_w_raw db vec alignment in
      Wrote db (concat vec) alignment offs db'
      × (offs < length db.adb + alignment)
      × (offs + length (concat vec) ≡ length db'.adb)
      × (db'.bucket ≡ db.bucket)
unfolding adb_w_raw
adb_w_raw-Wrote db vec alignment al cached =
    let zeroes : Bytes = replicate (pad_to (length db.adb) alignment) 0 in
    let padded = length-append db.adb zeroes in
    let n = length-replicate {A = ℕ} (pad_to (length db.adb) alignment) 0 in
    let lt = pad_to-lt (length db.adb) alignment al in
    let whole = length-append (db.adb ++ zeroes) (concat vec) in
    let assoc = append_assoc db.adb zeroes (concat vec) in
    (
      record {
        stored_at = (db.adb ++ zeroes, [], rw (append-nil (concat vec)) refl, refl);
        more = zeroes ++ concat vec;
        grown = assoc;
        small = omega (arith, whole, padded, n, lt);
        cached = record {
          inside = λ i.
              subst (λ a. All (IsInside a) (get_or db.bucket i [])) (sym assoc)
                (IsInside-more db.adb (zeroes ++ concat vec) (get_or db.bucket i [])
                  (cached.inside i));
          some_bucket = cached.some_bucket;
        };
        same_cache = refl;
      },
      omega (arith, padded, n, lt),
      sym whole,
      refl,
    )

-- The writer with a new entry.
pub IsCached-entry :
    (db : Writer) (i bucketno : ℕ) (entry : Entry)
    → IsCached db
    → IsInside db.adb entry
    → (db.no_cache ≡ 0 → bucketno < length db.bucket)
    → db.no_cache ≡ 0
    → IsCached (record db { bucket = change_at (set_entry i entry) bucketno db.bucket })
IsCached-entry db i bucketno entry cached inside lt sharing = record {
  inside = λ j. rw (get_or-change_at (set_entry i entry) bucketno j db.bucket (lt sharing)) (
      if-holds (All (IsInside db.adb)) (bucketno == j)
        (set_entry i entry (get_or db.bucket bucketno [])) (get_or db.bucket j [])
        (λ _.
          set_entry-All db.adb i entry (get_or db.bucket bucketno []) inside
            (cached.inside bucketno))
        (λ _. cached.inside j));
  some_bucket =
      λ z. rw (length-change_at (set_entry i entry) bucketno db.bucket) (cached.some_bucket z);
}
