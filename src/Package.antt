-- ===== src/Package.antt =====
-- src/package.c, src/apk_package.h: dependencies and packages, as far as matching reads them.
-- A name is interned by the database, so a `struct apk_name *` is modelled by its text: two
-- pointers are equal exactly when the texts are. A package is told apart from others by `id`,
-- which stands for its address.
pub mod Parse
pub mod Array
pub mod Satisfies
pub mod Pull
pub mod Info
pub mod Replaces
use apk_tools.Version.{apk_version_conflict}
use apk_tools.Version.Loop.{has}
use apk_tools.Prelude.{Bytes, Bool, List, ℕ, Option, false, some, none}
use apk_tools.Blob.{Blob, bytes, is_eq, apk_blob_compare}

pub record Dependency : Type 0 where
  pub name : Bytes
  pub version : Blob
  pub op : ℕ
  pub broken : Bool
  pub repository_tag : ℕ
  pub layer : ℕ

abbrev pub apk_dep_conflict : Dependency → Bool
apk_dep_conflict dep = has dep.op apk_version_conflict

-- The fields of `struct apk_installed_package` that the modelled functions read.
pub record Installed : Type 0 where
  pub replaces : List Dependency
  pub replaces_priority : ℕ
  pub to_be_removed : Bool

-- The fields of `struct apk_package` that the modelled functions read; the name is `none` for the
-- overlay, and `digest` are its first 20 bytes.
pub record Package : Type 0 where
  pub id : ℕ
  pub name : Option Bytes
  pub version : Blob
  pub origin : Blob
  pub provides : List Dependency
  pub digest : Bytes

-- `struct apk_provider`: a package under the version that it provides.
pub record Provider : Type 0 where
  pub pkg : Package
  pub version : Blob

-- Equality of names, which are pointers into the table of names.
abbrev pub same_name : Bytes → Bytes → Bool
same_name a b = is_eq (apk_blob_compare a b)

-- Equality with a name that may be NULL.
abbrev pub is_named : Option Bytes → Bytes → Bool
is_named none name = false
is_named (some n) name = same_name n name
