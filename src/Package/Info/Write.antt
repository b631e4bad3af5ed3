-- ===== src/Package/Info/Write.antt =====
-- src/package.c: the lines of an index, written by `apk_pkg_write_index_header`.
pub mod ReadBack
pub mod OneLine
pub mod Lines
use apk_tools.Package.Parse.{Tags, apk_blob_push_dep}
use mathlib.Core.Option
use apk_tools.Prelude.{
  ℕ, Bytes, List, Option, some, none, [], ◌∷◌, ◌==◌, if◌then◌else◌, length, codes, take, ◌++◌, Bool,
  false, not, ◌+◌,
}
use apk_tools.Blob.{
  Buffer, room, apk_blob_push_blob, Blob, apk_blob_pushed, blob, bytes, null, is_null,
}
use apk_tools.Blob.Number.{apk_blob_push_uint}
use apk_tools.Blob.Digest.{apk_blob_push_hash}
use apk_tools.Errors.{Result, ok, err, enobufs, eio}
use apk_tools.Package.{Dependency, Bool, false}
use apk_tools.Package.Info.{Template, not}

abbrev name_of : Option Bytes → Bytes
name_of none = []
name_of (some name) = name

-- The statements that push: a label and a value behind it, which may be left out where it is empty
-- or 0. The digits run on fuel, which is enough.
pub push_field : Bytes → Bytes → Buffer → Option Buffer
push_field label value to = some (apk_blob_push_blob (apk_blob_push_blob to label) value)

pub push_optional : Bytes → Bytes → Buffer → Option Buffer
unfolding push_field
push_optional label value to = if length value == 0 then some to else push_field label value to

pub push_number : Bytes → ℕ → Buffer → Option Buffer
push_number label n to = apk_blob_push_uint (apk_blob_push_blob to label) n 10

pub push_nonzero : Bytes → ℕ → Buffer → Option Buffer
unfolding push_number
push_nonzero label n to = if n == 0 then some to else push_number label n to

abbrev pub push_hash_line : Template → Buffer → Buffer
push_hash_line info to =
    apk_blob_push_hash (apk_blob_push_blob to (codes "C:")) (take 20 info.id.contents)

-- The statements behind the first line, in order.
pub header_lines : Template → List (Buffer → Option Buffer)
header_lines info =
    push_field (codes "\nP:") (name_of info.name)
    ∷ push_field (codes "\nV:") info.version
    ∷ push_optional (codes "\nA:") info.arch
    ∷ push_number (codes "\nS:") info.size
    ∷ push_number (codes "\nI:") info.installed_size
    ∷ push_field (codes "\nT:") info.description
    ∷ push_field (codes "\nU:") info.url
    ∷ push_field (codes "\nL:") info.license
    ∷ push_optional (codes "\no:") info.origin
    ∷ push_optional (codes "\nm:") info.maintainer
    ∷ push_nonzero (codes "\nt:") info.build_time
    ∷ push_optional (codes "\nc:") info.commit
    ∷ push_nonzero (codes "\nk:") info.provider_priority
    ∷ []

-- One statement after the other.
pub push_all : List (Buffer → Option Buffer) → Buffer → Option Buffer
push_all [] to = some to
push_all (push ∷ pushes) to = Option.bind (push to) (λ to'. push_all pushes to')

-- The whole text in `buf`.
pub push_header : Template → Buffer → Option Buffer
unfolding header_lines push_all
push_header info to =
    Option.map (λ to'. apk_blob_push_blob to' (codes "\n"))
      (push_all (header_lines info) (push_hash_line info to))

-- The stream is the bytes written to it; its own errors are left out. One dependency at a time, in
-- 256 bytes; the result is the stream and the length written, or `none` for -1. `layer` is `none`
-- for all layers.
is_skipped : Option ℕ → Dependency → Bool
is_skipped none dep = false
is_skipped (some layer) dep = not (dep.layer == layer)

write_layer_loop : Option Tags → List Dependency → Bytes → Option ℕ → Bytes → ℕ → Option (Bytes × ℕ)
unfolding is_skipped
write_layer_loop db [] separator layer os n = some (os, n)
write_layer_loop db (dep ∷ deps) separator layer os n =
    let start = if n == 0 then room [] 256 else apk_blob_push_blob (room [] 256) separator in
    let text = apk_blob_pushed (apk_blob_push_dep start db dep) in
    let skipped = write_layer_loop db deps separator layer os n in
    let written =
      write_layer_loop db deps separator layer (os ++ bytes text) (n + length (bytes text)) in
    if is_skipped layer dep then skipped else if is_null text then none else written

pub apk_deps_write_layer :
    Option Tags → List Dependency → Bytes → Bytes → Option ℕ → Option (Bytes × ℕ)
unfolding write_layer_loop
apk_deps_write_layer db deps os separator layer = write_layer_loop db deps separator layer os 0

pub apk_deps_write : Option Tags → List Dependency → Bytes → Bytes → Option (Bytes × ℕ)
unfolding apk_deps_write_layer
apk_deps_write db deps os separator = apk_deps_write_layer db deps os separator none

write_depends : Bytes → Bytes → List Dependency → Option Bytes
unfolding apk_deps_write
write_depends os field [] = some os
write_depends os field (dep ∷ deps) =
    Option.map (λ p. p.0 ++ codes "\n") (apk_deps_write none (dep ∷ deps) (os ++ field) (codes " "))

-- The three lists, or -EIO.
pub write_lists : Template → Bytes → Result Bytes
unfolding write_depends
write_lists info os = elim (write_depends os (codes "D:") info.depends) [
  | none ↦ err eio
  | some os1 ↦ elim (write_depends os1 (codes "p:") info.provides) [
    | none ↦ err eio
    | some os2 ↦ elim (write_depends os2 (codes "i:") info.install_if) [
      | none ↦ err eio
      | some os3 ↦ ok os3
    ]
  ]
]

write_pushed : Template → Bytes → Blob → Result Bytes
unfolding write_lists
write_pushed info os null = err enobufs
write_pushed info os (blob text) = write_lists info (os ++ text)

-- The stream behind the entry; `none` is out of fuel.
pub apk_pkg_write_index_header : Template → Bytes → Option (Result Bytes)
unfolding push_header write_pushed
apk_pkg_write_index_header info os =
    Option.map (λ to. write_pushed info os (apk_blob_pushed to)) (push_header info (room [] 2048))

end_entry : Result Bytes → Result Bytes
end_entry (err e) = err e
end_entry (ok os) = ok (os ++ codes "\n")

pub apk_pkg_write_index_entry : Template → Bytes → Option (Result Bytes)
unfolding apk_pkg_write_index_header end_entry
apk_pkg_write_index_entry info os = Option.map end_entry (apk_pkg_write_index_header info os)
