-- ===== src/Package/Parse.antt =====
-- src/package.c: `apk_dep_parse`, and `apk_blob_push_dep` of a dependency with no tag.
pub mod RoundTrip
use apk_tools.Errors.{Error, apke_dependency_format}
use apk_tools.Version.Ops.{apk_version_op_string, apk_version_result_mask_blob, without_conflict}
use apk_tools.Version.{apk_version_conflict, apk_depmask_any}
use apk_tools.Ctype.{Span, apk_blob_cspn, apk_ctype_dependency_comparer, apk_blob_spn}
use apk_tools.Package.{Dependency, apk_dep_conflict}
use apk_tools.Prelude.{
  Option, some, ℕ, Bytes, List, bit_or, if◌then◌else◌, codes, ◌∷◌, none, ◌==◌, [], not,
}
use apk_tools.Blob.{Blob, Buffer, bytes, blob, apk_blob_pull_blob_match, apk_blob_push_blob, null}

-- What `apk_dep_parse` returns and writes.
pub record DepParse : Type 0 where
  pub ret : Option Error
  pub name : Blob
  pub rop : ℕ
  pub version : Blob

abbrev pub parse_failed : DepParse
parse_failed = record {
  ret = some apke_dependency_format;
  name = null;
  rop = apk_depmask_any;
  version = null;
}

-- With an operator: the name in front of it, and the version behind it.
parse_operator : ℕ → Bytes → Span → DepParse
parse_operator op name s =
    let op' = bit_or op (apk_version_result_mask_blob s.l) in
    if not s.ret
    then parse_failed
    else if without_conflict op' == 0
    then parse_failed
    else record { ret = none; name = blob name; rop = op'; version = blob s.r }

parse_name : ℕ → Bytes → Span → DepParse
parse_name op spec s =
    if s.ret
    then parse_operator op s.l (apk_blob_spn apk_ctype_dependency_comparer s.r)
    else record { ret = none; name = blob spec; rop = bit_or op apk_depmask_any; version = null }

parse_spec : ℕ → Bytes → DepParse
parse_spec op spec = parse_name op spec (apk_blob_cspn apk_ctype_dependency_comparer spec)

parse_conflict : Bytes → Option Bytes → DepParse
parse_conflict spec none = parse_spec 0 spec
parse_conflict spec (some rest) = parse_spec apk_version_conflict rest

pub apk_dep_parse : Blob → DepParse
apk_dep_parse null = parse_failed
apk_dep_parse (blob spec) = parse_conflict spec (apk_blob_pull_blob_match spec (codes "!"))

-- `db->repo_tags[dep->repository_tag].tag`, where there is a database.
abbrev pub Tags : Type 0
Tags = ℕ → Bytes

push_tag : Buffer → Option Tags → Dependency → Buffer
push_tag to none dep = to
push_tag to (some tags) dep =
    if dep.repository_tag == 0 then to else apk_blob_push_blob to (tags dep.repository_tag)

push_version : Buffer → ℕ → Blob → Buffer
push_version to op null = to
push_version to op (blob version) =
    apk_blob_push_blob (apk_blob_push_blob to (apk_version_op_string op)) version

pub apk_blob_push_dep : Buffer → Option Tags → Dependency → Buffer
apk_blob_push_dep to db dep =
    let to1 = if apk_dep_conflict dep then apk_blob_push_blob to (codes "!") else to in
    let to2 = apk_blob_push_blob to1 dep.name in
    push_version (push_tag to2 db dep) dep.op dep.version

unfoldable pub push_deps_rest : Buffer → Option Tags → List Dependency → Buffer
push_deps_rest to db [] = to
push_deps_rest to db (dep ∷ deps) =
    push_deps_rest (apk_blob_push_dep (apk_blob_push_blob to (codes " ")) db dep) db deps

-- A space in front of each dependency but the first.
unfoldable pub apk_blob_push_deps : Buffer → Option Tags → List Dependency → Buffer
apk_blob_push_deps to db [] = to
apk_blob_push_deps to db (dep ∷ deps) = push_deps_rest (apk_blob_push_dep to db dep) db deps
