-- ===== src/PathBuilder.antt =====
-- src/pathbuilder.c, src/apk_pathbuilder.h: a path in a buffer of PATH_MAX bytes.
pub mod Laws
use apk_tools.Prelude.{
  ℕ, zero, suc, Bytes, Option, take, ◌∷◌, ◌+◌, if◌then◌else◌, some, ◌++◌, [], length, leb, none,
  drop, ◌==◌,
}

abbrev pub path_max : ℕ
path_max = 4096

-- `name` is the whole array; its length is PATH_MAX.
pub record PathBuilder : Type 0 where
  pub namelen : ℕ
  pub name : Bytes

-- `memcpy (&name[i], b.ptr, b.len)`.
pub write_at : ℕ → Bytes → Bytes → Bytes
write_at i b name = take i name ++ (b ++ drop (i + length b) name)

-- The length is `i`, and the byte behind it 0.
abbrev pub end_at : ℕ → Bytes → PathBuilder
end_at i name = record { namelen = i; name = write_at i (0 ∷ []) name }

-- The path behind the separator, which an empty path does not get.
abbrev pub append_at : ℕ → Bytes → Bytes → PathBuilder
append_at i b name = end_at (i + length b) (write_at i b name)

-- The old length, or `none` for -ENAMETOOLONG.
pub apk_pathbuilder_pushb : PathBuilder → Bytes → PathBuilder × Option ℕ
unfolding write_at
apk_pathbuilder_pushb pb b =
    if leb path_max (pb.namelen + length b + 2)
    then (pb, none)
    else if pb.namelen == 0
    then (append_at 0 b pb.name, some pb.namelen)
    else (append_at (pb.namelen + 1) b (write_at pb.namelen (b'/' ∷ []) pb.name), some pb.namelen)

-- A negative position, an error of the push, leaves the path.
pub apk_pathbuilder_pop : PathBuilder → Option ℕ → PathBuilder
unfolding write_at
apk_pathbuilder_pop pb none = pb
apk_pathbuilder_pop pb (some pos) = end_at pos pb.name

pub apk_pathbuilder_setb : PathBuilder → Bytes → PathBuilder × Option ℕ
apk_pathbuilder_setb pb b = apk_pathbuilder_pushb (record pb { namelen = 0 }) b

abbrev pub apk_pathbuilder_get : PathBuilder → Bytes
apk_pathbuilder_get pb = take pb.namelen pb.name
