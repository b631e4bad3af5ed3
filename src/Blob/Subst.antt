-- ===== src/Blob/Subst.antt =====
-- src/blob.c: `apk_blob_subst`. The function `res` that pushes the value of a key is an argument.
pub mod Expands
pub mod Total
use apk_tools.Errors.{◌>>=◌}
use apk_tools.Blob.Number.{apk_blob_pull_uint}
use apk_tools.Blob.Search.{apk_blob_split}
use apk_tools.Errors.{Result, err, enobufs, ok, apke_format_invalid}
use apk_tools.Blob.{
  Buffer, room, length, Option, ltb, is_null, overflow, take, apk_blob_pushed, apk_blob_push_blob,
}
use apk_tools.Prelude.{
  ℕ, zero, suc, Bytes, [], ◌∷◌, some, none, length, if◌then◌else◌, Option, ltb, ◌+◌, codes, take,
  ◌-◌, ◌==◌, ◌++◌, ◌%◌, ◌^◌,
}

-- `to.ptr`, from the beginning of the buffer; a NULL pointer is below every other.
abbrev pub position : Buffer → ℕ
position overflow = 0
position (room w len) = length w

-- What was written behind `max_advance` is given back.
pub cut_back : ℕ → Buffer → Buffer
cut_back max overflow = overflow
cut_back max (room w len) =
    if ltb max (length w) then room (take max w) (len + (length w - max)) else room w len

-- The text without the 0 byte behind it.
pub subst_done : Buffer → Bytes → Result Bytes
subst_done overflow fmt = err enobufs
subst_done (room w len) fmt =
    if is_null (apk_blob_pushed (apk_blob_push_blob (apk_blob_push_blob (room w len) fmt) (0 ∷ [])))
    then err enobufs
    else ok (w ++ fmt)

module _ (res : Bytes → Buffer → Result Buffer) where
  -- The key, and how far its value may reach. The sum is of a pointer and a uint64_t, and wraps. A
  -- limit that wraps to a pointer below the buffer's, so that the text would be cut in front of the
  -- buffer, is taken as one that cuts nothing.
  pub key_limit : Buffer → Bytes → Option (Bytes × Bytes) → Result (Bytes × Option ℕ)
  key_limit to key none = ok (key, none)
  key_limit to key (some (k, len)) =
      let (n, rest) = apk_blob_pull_uint len 10 in
      if length rest == 0
      then ok (k, some ((position to + n) % 2 ^ 64))
      else err apke_format_invalid

  abbrev limited : Option ℕ → Buffer → Buffer
  limited none to = to
  limited (some max) to = cut_back max to

  -- The buffer with the value of a key, which may have a limit behind ':'.
  pub subst_key : Buffer → Bytes → Result Buffer
  unfolding key_limit
  subst_key to key = do
    (k, max) ← key_limit to key (apk_blob_split key (codes ":"))
    to' ← res k to
    ok (limited max to')

  -- Behind a variable: the format behind '}'.
  pub subst_variable :
      (Bytes → Buffer → Option (Result Bytes))
      → Buffer
      → Option (Bytes × Bytes)
      → Option (Result Bytes)
  subst_variable next to none = some (err apke_format_invalid)
  subst_variable next to (some (key, fmt)) = elim (subst_key to key) [
    | err e ↦ some (err e)
    | ok to' ↦ next fmt to'
  ]

  -- One round of the loop: a prefix and what is behind "${", or the end.
  pub subst_round :
      (Bytes → Buffer → Option (Result Bytes))
      → Bytes
      → Buffer
      → Option (Bytes × Bytes)
      → Option (Result Bytes)
  subst_round next fmt to none = some (subst_done to fmt)
  subst_round next fmt to (some (prefix, key)) =
      if is_null (apk_blob_pushed (apk_blob_push_blob to prefix))
      then some (err enobufs)
      else subst_variable next (apk_blob_push_blob to prefix) (apk_blob_split key (codes "}"))

  -- The loop; `none` is out of fuel.
  pub subst_loop : ℕ → Bytes → Buffer → Option (Result Bytes)
  subst_loop zero fmt to = none
  subst_loop (suc fuel) fmt to =
      subst_round (λ f t. subst_loop fuel f t) fmt to (apk_blob_split fmt (codes "${"))

  -- The text in `buf`, of `sz` bytes.
  pub apk_blob_subst : ℕ → Bytes → Option (Result Bytes)
  unfolding subst_loop subst_round subst_variable subst_key
  apk_blob_subst sz fmt = subst_loop (length fmt + 1) fmt (room [] sz)
