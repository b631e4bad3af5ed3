-- ===== src/Package/Pull.antt =====
-- src/package.c: reading dependencies from a text.
pub mod Listed
pub mod RoundTrip
pub mod Total
use apk_tools.Version.Loop.{apk_version_validate}
use apk_tools.Version.{apk_depmask_checksum}
use apk_tools.Blob.Search.{apk_blob_split}
use apk_tools.Ctype.{apk_blob_cspn, apk_ctype_dependency_separator, apk_blob_spn}
use apk_tools.Package.Parse.{DepParse, apk_dep_parse}
use apk_tools.Errors.{Error, apke_pkgversion_format, apke_dependency_format}
use apk_tools.Package.{Dependency}
use apk_tools.Blob.{Blob, blob, null, bytes}
use apk_tools.Prelude.{
  ℕ, zero, suc, Bytes, List, some, none, Option, ◌%◌, Bool, [], not, if◌then◌else◌, length, bit_and,
  codes, ◌==◌, ◌+◌, ◌&&◌, ◌++◌, ◌∷◌,
}
use apk_tools.Database.Tags.{apk_db_get_tag_id, RepoTag}

-- `*apk_atomize_dup (…)`: NULL is the empty atom.
abbrev pub atom : Blob → Blob
atom null = blob []
atom (blob b) = blob b

-- What a call leaves in `b`, in `dep` (`none` where its name is NULL) and in the table of tags.
pub record DepPull : Type 0 where
  pub b : Blob
  pub dep : Option Dependency
  pub tags : List RepoTag

pub pull_fail : List RepoTag → DepPull
pull_fail tags = record { b = null; dep = none; tags = tags }

-- The 6 bits of `repository_tag`: -1, of a full table, is stored as 63.
abbrev tag_bits : Option ℕ → ℕ
tag_bits none = 63
tag_bits (some i) = i % 64

unfoldable pub dep_broken : ℕ → Blob → Bool
dep_broken op version =
    not (bit_and op apk_depmask_checksum == apk_depmask_checksum)
    && not (apk_version_validate version)

pull_tagged : Bytes → List RepoTag → Bool → DepParse → Option (Bytes × Bytes) → DepPull
unfolding dep_broken
pull_tagged b tags allow_tag p none = record {
  b = blob b;
  tags = tags;
  dep = some (record {
    name = bytes p.name;
    version = atom p.version;
    op = p.rop % 256;
    broken = dep_broken p.rop p.version;
    repository_tag = 0;
    layer = 0;
  });
}
pull_tagged b tags allow_tag p (some (name, tag)) =
    let (id, tags') = apk_db_get_tag_id tags (blob tag) in
    if not allow_tag then pull_fail tags else record {
      b = blob b;
      tags = tags';
      dep = some (record {
        name = name;
        version = atom p.version;
        op = p.rop % 256;
        broken = dep_broken p.rop p.version;
        repository_tag = tag_bits id;
        layer = 0;
      });
    }

pull_parsed : Bytes → List RepoTag → Bool → DepParse → DepPull
unfolding pull_tagged
pull_parsed b tags allow_tag p = elim (p.ret) [
  | some e ↦ pull_fail tags
  | none ↦ pull_tagged b tags allow_tag p (apk_blob_split (bytes p.name) (codes "@"))
]

-- One token and the separators behind it. A name is NULL only where memory runs out.
pub apk_blob_pull_dep : Blob → List RepoTag → Bool → DepPull
unfolding pull_parsed
apk_blob_pull_dep null tags allow_tag = pull_fail tags
apk_blob_pull_dep (blob b) tags allow_tag =
    let token = apk_blob_cspn apk_ctype_dependency_separator b in
    let rest = apk_blob_spn apk_ctype_dependency_separator token.r in
    pull_parsed rest.r tags allow_tag (apk_dep_parse (blob token.l))

-- What `apk_blob_pull_deps` returns, and leaves in `deps` and the table.
pub record DepsPull : Type 0 where
  pub rc : Option Error
  pub deps : List Dependency
  pub tags : List RepoTag

pub rc_of : Option Error → Dependency → Option Error
rc_of rc dep = if dep.broken then some apke_pkgversion_format else rc

-- A round of the loop behind its test: the dependency is added, or the text is given up.
pull_deps_round :
    (Blob → DepsPull → Option DepsPull) → DepsPull → DepPull → Option Dependency → Option DepsPull
unfolding rc_of
pull_deps_round next s p none =
    next p.b (record s { rc = some apke_dependency_format; tags = p.tags })
pull_deps_round next s p (some dep) =
    next p.b (record { rc = rc_of s.rc dep; deps = s.deps ++ (dep ∷ []); tags = p.tags })

-- The loop, from the state that the record has; `none` is out of fuel.
pub pull_deps_loop : ℕ → Blob → Bool → DepsPull → Option DepsPull
unfolding pull_deps_round
pull_deps_loop zero b allow_tag s = none
pull_deps_loop (suc fuel) b allow_tag s =
    let p = apk_blob_pull_dep b s.tags allow_tag in
    let rest = pull_deps_round (λ b' s'. pull_deps_loop fuel b' allow_tag s') s p p.dep in
    if length (bytes b) == 0 then some s else rest

pub apk_blob_pull_deps : Blob → List RepoTag → List Dependency → Bool → Option DepsPull
unfolding pull_deps_loop
apk_blob_pull_deps b tags deps allow_tag =
    pull_deps_loop (length (bytes b) + 1) b allow_tag
      (record { rc = none; deps = deps; tags = tags })
