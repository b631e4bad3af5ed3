-- ===== src/Adb/Write/Data.antt =====
-- What `adb_w_data` leaves.
use apk_tools.Prelude.{
  refl, ℕ, Bytes, concat, ◌<◌, arith, ◌+◌, List, length, [], ◌^◌, sym, ◌≡◌, append-nil, ◌%◌, get_or,
  if-holds, not, ◌==◌,
}
use apk_tools.Adb.Write.{
  Writer, after_search, adb_w_data, List, length, Search, [], iovec_hash, share, add, get_or,
  adb_w_raw, search_bucket, Entry, not,
}
use apk_tools.Adb.Write.Cache.{
  IsCached, Wrote, IsAlignment, IsCached-entry, adb_w_raw-Wrote, one, two, four,
}
use apk_tools.Adb.Write.Stored.{IsAt, search_share}
use native.Mathlib.Nat.{mod-lt}

Wrote-share :
    (db : Writer) (b : Bytes) (alignment offs : ℕ)
    → 0 < alignment + length b
    → IsCached db
    → IsAt db.adb offs b
    → Wrote db b alignment offs db
Wrote-share db b alignment offs pos cached at = record {
  stored_at = at;
  more = [];
  grown = sym (append-nil db.adb);
  small = omega (arith, pos);
  cached = cached;
  same_cache = refl;
}

positive : (alignment : ℕ) → IsAlignment alignment → 0 < alignment
positive alignment one = omega arith
positive alignment two = omega arith
positive alignment four = omega arith

after_search-Wrote :
    (db : Writer) (vec : List Bytes) (alignment hash bucketno : ℕ) (s : Search)
    → IsAlignment alignment
    → IsCached db
    → length db.adb + alignment + length (concat vec) < 2 ^ 32
    → db.no_cache ≡ 0
    → bucketno < length db.bucket
    → ((offs : ℕ) → s ≡ share offs → IsAt db.adb offs (concat vec))
    → 0 < alignment
    → let (offs, db') = after_search db vec alignment hash bucketno s in
      Wrote db (concat vec) alignment offs db'
unfolding after_search
after_search-Wrote db vec alignment hash bucketno (share offs) al cached fits sharing lt at pos =
    Wrote-share db (concat vec) alignment offs (omega (arith, pos)) cached (at offs refl)
after_search-Wrote db vec alignment hash bucketno (add i) al cached fits sharing lt at pos =
    let (offs, db') = adb_w_raw db vec alignment in
    let (wrote, below, whole, same) = adb_w_raw-Wrote db vec alignment al cached in
    let word : offs % 2 ^ 32 ≡ offs = omega (arith, below, fits) in
    let entry : Entry = record {
      hash = hash;
      offs = offs % 2 ^ 32;
      len = length (concat vec) % 2 ^ 32;
    } in
    record {
      stored_at = rw word (wrote.stored_at);
      more = wrote.more;
      grown = wrote.grown;
      small = wrote.small;
      cached =
          IsCached-entry db' i bucketno entry wrote.cached (omega (arith, below, fits, whole))
            (λ _. rw same lt) sharing;
      same_cache = wrote.same_cache;
    }

-- What is written stands at the offset that is returned, new or shared, in a block of less than
-- 2^32 bytes; and the buckets stay sound.
pub adb_w_data-Wrote :
    (db : Writer) (vec : List Bytes) (alignment : ℕ)
    → IsAlignment alignment
    → IsCached db
    → length db.adb + alignment + length (concat vec) < 2 ^ 32
    → let (offs, db') = adb_w_data db vec alignment in Wrote db (concat vec) alignment offs db'
unfolding adb_w_data
adb_w_data-Wrote db vec alignment al cached fits =
    let hash = iovec_hash 5381 vec in
    let bucketno = hash % length db.bucket in
    let entries = get_or db.bucket bucketno [] in
    let found = search_bucket db.adb vec hash (length (concat vec)) alignment entries in
    if-holds (λ (p : ℕ × Writer). Wrote db (concat vec) alignment p.0 p.1) (not (db.no_cache == 0))
      (adb_w_raw db vec alignment) (after_search db vec alignment hash bucketno found)
      (λ _. (adb_w_raw-Wrote db vec alignment al cached).0)
      (λ shares.
        let sharing : db.no_cache ≡ 0 = ground (arith, shares) in
        after_search-Wrote db vec alignment hash bucketno found al cached fits sharing
          (mod-lt hash (cached.some_bucket sharing))
          (λ offs e. search_share db.adb vec hash alignment offs entries (cached.inside bucketno) e)
          (positive alignment al))
