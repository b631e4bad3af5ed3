-- ===== src/Adb/Write/Reading.antt =====
-- What is stored is read through its value.
use apk_tools.Adb.Write.Data.{adb_w_data-Wrote}
use apk_tools.Prelude.{
  refl, ℕ, Bytes, concat, ◌+◌, ◌++◌, ◌<◌, ◌∙◌, length, ◌≤◌, ◌≡◌, ap, ◌^◌, some, append_assoc, take,
  sym, drop, ◌*◌, ltb, arith, length-append, false, drop-length_append, take-length_append, List,
  [], append-nil, if◌then◌else◌, ◌==◌,
}
use apk_tools.Adb.Write.{Writer, length, take, drop, ltb, false, List, adb_w_data, []}
use apk_tools.Adb.Write.Cache.{IsCached, IsAlignment}
use apk_tools.Adb.Write.Stored.{IsAt, IsAt-append}
use apk_tools.Adb.Words.{
  adb_val_sum, adb_val_type, adb_val_value, adb_val, le_bytes, length-le_bytes, le_value-le_bytes,
  le_value,
}
use apk_tools.Adb.Value.{
  adb_r_deref, read_word, read_blob, read, adb_r_int, adb_r_blob, adb_type_int, adb_type_blob_8,
  adb_type_int_32, adb_type_blob_16, adb_type_int_64, adb_type_blob_32, read_null,
}

take_at :
    (adb b : Bytes) (offs : ℕ)
    → IsAt adb offs b
    → (offs + length b ≤ length adb) × (take (length b) (drop offs adb) ≡ b)
take_at adb b offs (front, back, e, n) = (
  rw e (omega (arith, length-append front (b ++ back), length-append b back, n)),
  rw (e, sym n, drop-length_append front (b ++ back)) (take-length_append b back),
)

-- The value of an offset below 2^28 gives it back, and its type.
pub adb_val-fields :
    (t offs : ℕ)
    → t < 16
    → offs < 2 ^ 28
    → (adb_val_type (adb_val (t * 2 ^ 28) offs) ≡ t * 2 ^ 28)
      × (adb_val_value (adb_val (t * 2 ^ 28) offs) ≡ offs)
unfolding adb_val_type adb_val_value
adb_val-fields t offs h k = rw (adb_val_sum t offs h k) (omega arith, omega arith)

-- What stands at an offset is dereferenced.
pub deref_at :
    (adb b : Bytes) (v offs s n : ℕ)
    → s + adb_val_value v ≡ offs
    → length b ≡ n
    → IsAt adb offs b
    → (ptr : Bytes) × (adb_r_deref adb v s n ≡ some ptr) × (take n ptr ≡ b)
unfolding adb_r_deref
deref_at adb b v offs s n e len at =
    let (inside, same) = take_at adb b offs at in
    let fits : ltb (length adb) (s + adb_val_value v + n) ≡ false =
      ground (arith, inside, e, len) in
    (drop offs adb, rw (fits, e) refl, rw⁻¹ len same)

pub read_word-le_bytes :
    (adb : Bytes) (v s val : ℕ)
    → val < 256 ^ s
    → IsAt adb (adb_val_value v) (le_bytes s val)
    → read_word adb v s ≡ val
unfolding read_word
read_word-le_bytes adb v s val small at =
    let (ptr, is, same) =
      deref_at adb (le_bytes s val) v (adb_val_value v) 0 s (omega arith) (length-le_bytes s val)
        at in
    rw (is, read_word, same) (le_value-le_bytes s val small)

IsAt-behind : (adb a b : Bytes) (offs : ℕ) → IsAt adb offs (a ++ b) → IsAt adb (length a + offs) b
IsAt-behind adb a b offs (front, back, e, n) = (
  front ++ a,
  back,
  e ∙ ap (λ x. front ++ x) (append_assoc a b back) ∙ sym (append_assoc front a (b ++ back)),
  length-append front a ∙ omega (arith, n),
)

pub IsAt-front : (adb a b : Bytes) (offs : ℕ) → IsAt adb offs (a ++ b) → IsAt adb offs a
IsAt-front adb a b offs (front, back, e, n) =
    (front, b ++ back, e ∙ ap (λ x. front ++ x) (append_assoc a b back), n)

read_blob_of :
    (adb ptr ptr2 b : Bytes) (v s : ℕ)
    → adb_r_deref adb v 0 s ≡ some ptr
    → le_value (take s ptr) ≡ length b
    → adb_r_deref adb v s (length b) ≡ some ptr2
    → take (length b) ptr2 ≡ b
    → read_blob adb v s ≡ read b
unfolding read_blob
read_blob_of adb ptr ptr2 b v s is len is2 same2 = rw (is, read_blob, len, is2, len, same2) refl

pub read_blob-le_bytes :
    (adb b : Bytes) (v s : ℕ)
    → length b < 256 ^ s
    → IsAt adb (adb_val_value v) (le_bytes s (length b) ++ b)
    → read_blob adb v s ≡ read b
read_blob-le_bytes adb b v s small at =
    let n = length-le_bytes s (length b) in
    let (ptr, is, same) =
      deref_at adb (le_bytes s (length b)) v (adb_val_value v) 0 s (omega arith) n
        (IsAt-front adb (le_bytes s (length b)) b (adb_val_value v) at) in
    let (ptr2, is2, same2) =
      deref_at adb b v (length (le_bytes s (length b)) + adb_val_value v) s (length b)
        (omega (arith, n)) refl (IsAt-behind adb (le_bytes s (length b)) b (adb_val_value v) at) in
    read_blob_of adb ptr ptr2 b v s is (ap le_value same ∙ le_value-le_bytes s (length b) small) is2
      same2

-- A write of some bytes, and the reading of its value from a block that has grown since.
abbrev pub IsRead : {A : Type 0} → (Bytes → ℕ → A) → A → Writer → ℕ × Writer → Type 0
IsRead read_back a db (v, db') =
    ((later : Bytes) → read_back (db'.adb ++ later) v ≡ a)
    × IsCached db'
    × ((more : Bytes) × (db'.adb ≡ db.adb ++ more))
    × (db'.no_cache ≡ db.no_cache)

-- A value of type `t` for the bytes, of which `get` reads `a`.
pub written_IsRead :
    {A : Type 0} (get : Bytes → ℕ → A) (a : A) (db : Writer) (vec : List Bytes) (alignment t : ℕ)
    → t < 16
    → IsAlignment alignment
    → IsCached db
    → length db.adb + alignment + length (concat vec) < 2 ^ 28
    → ((adb : Bytes) (v : ℕ)
        → adb_val_type v ≡ t * 2 ^ 28
        → IsAt adb (adb_val_value v) (concat vec)
        → get adb v ≡ a)
    → let (offs, db') = adb_w_data db vec alignment in
      IsRead get a db (adb_val (t * 2 ^ 28) offs, db')
written_IsRead get a db vec alignment t h al cached fits reads =
    let (offs, db') = adb_w_data db vec alignment in
    let wrote = adb_w_data-Wrote db vec alignment al cached (omega (arith, fits)) in
    let (inside, same) = take_at db'.adb (concat vec) offs wrote.stored_at in
    let (type, value) = adb_val-fields t offs h (omega (arith, fits, inside, wrote.small)) in
    (
      λ later.
          reads (db'.adb ++ later) (adb_val (t * 2 ^ 28) offs) type
            (rw value (IsAt-append db'.adb (concat vec) later offs wrote.stored_at)),
      wrote.cached,
      (wrote.more, wrote.grown),
      wrote.same_cache,
    )

pub int_type :
    (adb : Bytes) (v t : ℕ)
    → adb_val_type v ≡ t
    → adb_r_int adb v ≡ (
        if t == adb_type_int
        then adb_val_value v
        else if t == adb_type_int_32
        then read_word adb v 4
        else if t == adb_type_int_64
        then read_word adb v 8
        else 0)
unfolding adb_r_int
int_type adb v t e = rw e refl

pub blob_type :
    (adb : Bytes) (v t : ℕ)
    → adb_val_type v ≡ t
    → adb_r_blob adb v ≡ (
        if t == adb_type_blob_8
        then read_blob adb v 1
        else if t == adb_type_blob_16
        then read_blob adb v 2
        else if t == adb_type_blob_32
        then read_blob adb v 4
        else read_null 0)
unfolding adb_r_blob
blob_type adb v t e = rw e refl

pub unchanged :
    {A : Type 0} (get : Bytes → ℕ → A) (a : A) (db : Writer) (v : ℕ)
    → IsCached db
    → ((adb : Bytes) → get adb v ≡ a)
    → IsRead get a db (v, db)
unchanged get a db v cached reads =
    (λ later. reads (db.adb ++ later), cached, ([], sym (append-nil db.adb)), refl)
