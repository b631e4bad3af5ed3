-- ===== src/Blob/Search.antt =====
-- src/blob.c, src/apk_blob.h: searching a blob, and cutting it at what is found.
pub mod Laws
pub mod Tokens
use mathlib.Core.Option
use apk_tools.Blob.{Blob, apk_blob_starts_with, length, null, blob, bytes, drop}
use apk_tools.Prelude.{
  ℕ, zero, suc, Bytes, take, [], ◌∷◌, some, none, Option, if◌then◌else◌, min, List, ◌==◌, length,
  ◌+◌, codes, drop,
}

-- `memmem` of the C library: the first offset at which the needle stands.
unfoldable pub apk_blob_contains : Bytes → Bytes → Option ℕ
apk_blob_contains [] needle = if apk_blob_starts_with [] needle then some 0 else none
apk_blob_contains (c ∷ b) needle =
    if apk_blob_starts_with (c ∷ b) needle
    then some 0
    else Option.map suc (apk_blob_contains b needle)

-- The parts on both sides of what separates them; `none` is the return value 0.
pub apk_blob_split : Bytes → Bytes → Option (Bytes × Bytes)
apk_blob_split b split =
    Option.map (λ offs. (take offs b, drop (offs + length split) b)) (apk_blob_contains b split)

-- `memrchr`, and the parts on both sides of the last such character.
pub apk_blob_rsplit : Bytes → ℕ → Option (Bytes × Bytes)
apk_blob_rsplit [] split = none
apk_blob_rsplit (c ∷ b) split = elim (apk_blob_rsplit b split) [
  | some (l, r) ↦ some (c ∷ l, r)
  | none ↦ if c == split then some ([], b) else none
]

pub apk_blob_trim_start : Bytes → ℕ → Bytes
apk_blob_trim_start [] ch = []
apk_blob_trim_start (c ∷ b) ch = if c == ch then apk_blob_trim_start b ch else c ∷ b

-- One character in front of a text whose end is trimmed.
abbrev keep_unless : ℕ → ℕ → Bytes → Bytes
keep_unless ch c [] = if c == ch then [] else c ∷ []
keep_unless ch c (d ∷ b) = c ∷ d ∷ b

unfoldable pub apk_blob_trim_end : Bytes → ℕ → Bytes
apk_blob_trim_end [] ch = []
apk_blob_trim_end (c ∷ b) ch = keep_unless ch c (apk_blob_trim_end b ch)

pub apk_blob_truncate : Bytes → ℕ → Bytes
apk_blob_truncate b maxlen = take (min (length b) maxlen) b

-- One round of `apk_blob_tokenize`: the token, and what is left.
pub token_of : Bytes → Option (Bytes × Bytes) → Bytes × Blob
token_of b none = (b, null)
token_of b (some (iter, left)) = (iter, blob left)

-- The token and what is left; `none` is the return value 0, or out of fuel.
pub apk_blob_tokenize : ℕ → Blob → Bytes → Option (Bytes × Blob)
unfolding token_of
apk_blob_tokenize zero b token = none
apk_blob_tokenize (suc fuel) null token = none
apk_blob_tokenize (suc fuel) (blob b) token =
    let (iter, left) = token_of b (apk_blob_split b token) in
    let rest = apk_blob_tokenize fuel left token in
    if length iter == 0 then rest else some (iter, left)

-- `apk_blob_foreach_token`: the tokens that the loop's body sees, in order.
pub foreach_token : ℕ → Blob → Bytes → List Bytes
foreach_token zero b token = []
foreach_token (suc fuel) b token = elim (apk_blob_tokenize (length (bytes b) + 2) b token) [
  | none ↦ []
  | some (iter, left) ↦ iter ∷ foreach_token fuel left token
]

pub apk_blob_foreach_word : Bytes → List Bytes
unfolding foreach_token
apk_blob_foreach_word b = foreach_token (length b + 2) (blob b) (codes " ")
