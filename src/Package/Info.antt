-- ===== src/Package/Info.antt =====
-- src/package.c: the lines of an index that describe a package, read by `apk_pkgtmpl_add_info`.
pub mod Write
use apk_tools.Prelude.{
  ℕ, Bytes, List, Option, some, none, [], ◌∷◌, ◌==◌, if◌then◌else◌, ◌%◌, Bool, false, replicate,
  ◌^◌, true, ◌||◌, not,
}
use apk_tools.Blob.{Blob, blob, null, bytes, is_null}
use apk_tools.Blob.Number.{apk_blob_pull_uint}
use apk_tools.Blob.Digest.{Digest, apk_blob_pull_digest}
use apk_tools.Errors.{Result, ok, err, apke_v2pkg_format}
use apk_tools.Package.{Dependency, Bool, false}
use apk_tools.Package.Pull.{apk_blob_pull_deps, DepsPull}
use apk_tools.Database.Tags.{RepoTag}

-- `struct apk_package_tmpl`, with the fields of its package that the index has; a package has a copy
-- of the digest `id`.
pub record Template : Type 0 where
  pub name : Option Bytes
  pub version : Bytes
  pub description : Bytes
  pub url : Bytes
  pub license : Bytes
  pub arch : Bytes
  pub origin : Bytes
  pub maintainer : Bytes
  pub commit : Bytes
  pub depends : List Dependency
  pub provides : List Dependency
  pub install_if : List Dependency
  pub size : ℕ
  pub installed_size : ℕ
  pub build_time : ℕ
  pub provider_priority : ℕ
  pub uninstallable : Bool
  pub id : Digest

-- The parts of the database that change.
pub record Compat : Type 0 where
  pub tags : List RepoTag
  pub depversions : Bool
  pub newfeatures : Bool
  pub notinstallable : Bool

-- The bytes of the digest are zeroed, as the whole template is.
unfoldable pub apk_pkgtmpl_reset : Template
apk_pkgtmpl_reset = record {
  name = none;
  version = [];
  description = [];
  url = [];
  license = [];
  arch = [];
  origin = [];
  maintainer = [];
  commit = [];
  depends = [];
  provides = [];
  install_if = [];
  size = 0;
  installed_size = 0;
  build_time = 0;
  provider_priority = 0;
  uninstallable = false;
  id = record { alg = 0; len = 0; contents = replicate 64 0 };
}

-- What a call gives: the return value, the template and the database.
abbrev pub AddInfo : Type 0
AddInfo = Result ℕ × (Template × Compat)

-- The test behind the switch.
abbrev finish_info : Blob → Template → Compat → AddInfo
finish_info null tmpl db = (err apke_v2pkg_format, (tmpl, db))
finish_info (blob b) tmpl db = (ok 0, (tmpl, db))

-- The fields whose value is interned.
pub text_field : ℕ → Option (Bytes → Template → Template)
text_field field =
    if field == b'P'
    then some (λ v t. record t { name = some v })
    else if field == b'V'
    then some (λ v t. record t { version = v })
    else if field == b'T'
    then some (λ v t. record t { description = v })
    else if field == b'U'
    then some (λ v t. record t { url = v })
    else if field == b'L'
    then some (λ v t. record t { license = v })
    else if field == b'A'
    then some (λ v t. record t { arch = v })
    else if field == b'o'
    then some (λ v t. record t { origin = v })
    else if field == b'm'
    then some (λ v t. record t { maintainer = v })
    else if field == b'c'
    then some (λ v t. record t { commit = v })
    else none

-- The fields with a number; `provider_priority` has 16 bits.
pub number_field : ℕ → Option (ℕ → Template → Template)
number_field field =
    if field == b'S'
    then some (λ n t. record t { size = n })
    else if field == b'I'
    then some (λ n t. record t { installed_size = n })
    else if field == b't'
    then some (λ n t. record t { build_time = n })
    else if field == b'k'
    then some (λ n t. record t { provider_priority = n % 2 ^ 16 })
    else none

-- A field with dependencies: the list that it adds to, how the list is kept, and what an error does.
-- With no error the value is NULL behind the list only if it was before.
deps_field :
    (List Dependency → Template)
    → (List Dependency → Template)
    → Bool
    → Blob
    → Compat
    → Option DepsPull
    → Option AddInfo
deps_field keep broken installable value db none = none
deps_field keep broken installable value db (some p) = elim (p.rc) [
  | none ↦ some (finish_info value (keep p.deps) (record db { tags = p.tags }))
  | some e ↦ some (
    ok 2,
    (
      broken p.deps,
      record db {
        tags = p.tags;
        depversions = true;
        notinstallable = db.notinstallable || not installable;
      },
    ),
  )
]

-- The digest; a read behind the end of its text is `none`.
digest_field : Template → Compat → Option (Blob × Digest) → Option AddInfo
digest_field tmpl db none = none
digest_field tmpl db (some (value, id)) = some (finish_info value (record tmpl { id = id }) db)

-- The fields of the installed database that `database.c` reads.
abbrev pub is_installed_field : ℕ → Bool
is_installed_field field =
    field == b'F'
    || field == b'M'
    || field == b'R'
    || field == b'Z'
    || field == b'r'
    || field == b'q'
    || field == b'a'
    || field == b's'
    || field == b'f'
    || field == b'g'

-- `islower` is the C library's.
module _ (islower : ℕ → Bool) where
  other_field : Template → Compat → ℕ → AddInfo
  other_field tmpl db field =
      if is_installed_field field
      then (ok 1, (tmpl, db))
      else if islower field
      then (ok 2, (tmpl, record db { newfeatures = true }))
      else (
        ok 2,
        (
          record tmpl { uninstallable = true },
          record db { newfeatures = true; notinstallable = true },
        ),
      )

  list_field : Template → Compat → ℕ → Blob → Option AddInfo
  unfolding deps_field digest_field other_field
  list_field tmpl db field value =
      if field == b'D'
      then deps_field (λ ds. record tmpl { depends = ds })
          (λ ds. record tmpl { depends = ds; uninstallable = true }) false value db
          (apk_blob_pull_deps value db.tags tmpl.depends false)
      else if field == b'p'
      then deps_field (λ ds. record tmpl { provides = ds }) (λ ds. record tmpl { provides = ds })
          true value db (apk_blob_pull_deps value db.tags tmpl.provides false)
      else if field == b'i'
      then deps_field (λ ds. record tmpl { install_if = ds })
          (λ ds. record tmpl { install_if = [] }) true value db
          (apk_blob_pull_deps value db.tags tmpl.install_if false)
      else if field == b'C'
      then digest_field tmpl db (apk_blob_pull_digest value tmpl.id)
      else some (other_field tmpl db field)

  number_or_list : Template → Compat → ℕ → Blob → Option (ℕ → Template → Template) → Option AddInfo
  unfolding list_field
  number_or_list tmpl db field value (some set) =
      some (finish_info value (set (apk_blob_pull_uint (bytes value) 10).0 tmpl) db)
  number_or_list tmpl db field value none = list_field tmpl db field value

  text_or_other :
      Template → Compat → ℕ → Blob → Option (Bytes → Template → Template) → Option AddInfo
  unfolding number_or_list number_field
  text_or_other tmpl db field value (some set) =
      some (finish_info value (set (bytes value) tmpl) db)
  text_or_other tmpl db field value none = number_or_list tmpl db field value (number_field field)

  -- `none` is a read behind the end of the text of a digest: the loop over dependencies returns.
  pub apk_pkgtmpl_add_info : Template → Compat → ℕ → Blob → Option AddInfo
  unfolding text_or_other text_field
  apk_pkgtmpl_add_info tmpl db field value = text_or_other tmpl db field value (text_field field)
