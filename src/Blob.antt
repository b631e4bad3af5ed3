-- ===== src/Blob.antt =====
-- src/blob.c, src/apk_blob.h: blobs and their comparisons. The other operations are in the child
-- modules, each with its proofs beside it.
pub mod Compare
pub mod Number
pub mod Hex
pub mod Base64
pub mod Digest
pub mod Search
pub mod Subst
pub mod Hash
use apk_tools.Prelude.{
  ℕ, zero, suc, ◌+◌, ◌-◌, Bool, true, false, List, [], ◌∷◌, ◌++◌, Ordering, compare, min, ltb, ◌==◌,
  if◌then◌else◌, length, drop, take, Option, none, some, Bytes,
}
use apk_tools.Prelude.Order.{◌then_by◌, int_sign}

-- A blob that is read: the pointer may be NULL, which an empty blob is not.
pub data Blob : Type 0 where
  null : Blob
  blob : Bytes → Blob

-- The bytes from `ptr` on, `len` of them; a NULL blob has the length 0.
abbrev pub bytes : Blob → Bytes
bytes null = []
bytes (blob b) = b

abbrev pub is_null : Blob → Bool
is_null null = true
is_null (blob b) = false

-- A blob that is written to: what was written in front of `ptr`, and the room `len` that is left.
pub data Buffer : Type 0 where
  overflow : Buffer
  room : Bytes → ℕ → Buffer

-- The sign of `memcmp` over `n` bytes. Both arguments have that many.
unfoldable pub memcmp : Bytes → Bytes → ℕ → Ordering
memcmp a b zero = Ordering.eq
memcmp [] b (suc n) = Ordering.eq
memcmp (x ∷ a) [] (suc n) = Ordering.eq
memcmp (x ∷ a) (y ∷ b) (suc n) = compare x y then_by memcmp a b n

-- The sign of the result: shorter blobs come first, whatever they hold.
unfoldable pub apk_blob_compare : Bytes → Bytes → Ordering
apk_blob_compare a b =
    if length a == length b
    then memcmp a b (length a)
    else if ltb (length a) (length b)
    then Ordering.lt
    else Ordering.gt

-- The sign of the result. The difference of the lengths is cut to an `int`.
unfoldable pub apk_blob_sort : Bytes → Bytes → Ordering
apk_blob_sort a b = memcmp a b (min (length a) (length b)) then_by int_sign (length a) (length b)

-- `apk_blob_sort` where the difference of the lengths fits an `int`.
unfoldable pub blob_order : Bytes → Bytes → Ordering
blob_order a b = memcmp a b (min (length a) (length b)) then_by compare (length a) (length b)

abbrev pub is_eq : Ordering → Bool
is_eq Ordering.eq = true
is_eq _ = false

unfoldable pub apk_blob_starts_with : Bytes → Bytes → Bool
apk_blob_starts_with a b =
    if ltb (length a) (length b) then false else is_eq (memcmp a b (length b))

unfoldable pub apk_blob_ends_with : Bytes → Bytes → Bool
apk_blob_ends_with a b =
    if ltb (length a) (length b)
    then false
    else is_eq (memcmp (drop (length a - length b) a) b (length b))

-- The rest of `b` behind `match`, or `none` where the function returns 0 and leaves `b`.
unfoldable pub apk_blob_pull_blob_match : Bytes → Bytes → Option Bytes
apk_blob_pull_blob_match b match =
    if ltb (length b) (length match)
    then none
    else if is_eq (memcmp b match (length match))
    then some (drop (length match) b)
    else none

-- A character that is not the one expected makes the blob NULL.
unfoldable pub apk_blob_pull_char : Blob → ℕ → Blob
apk_blob_pull_char null expected = null
apk_blob_pull_char (blob []) expected = null
apk_blob_pull_char (blob (c ∷ b)) expected = if c == expected then blob b else null

unfoldable pub apk_blob_push_blob : Buffer → Bytes → Buffer
apk_blob_push_blob overflow literal = overflow
apk_blob_push_blob (room w len) literal =
    if ltb len (length literal) then overflow else room (w ++ literal) (len - length literal)

-- `apk_blob_pushed (APK_BLOB_BUF(buf), to)`: what was written since the buffer was empty.
unfoldable pub apk_blob_pushed : Buffer → Blob
apk_blob_pushed overflow = null
apk_blob_pushed (room w len) = blob w
