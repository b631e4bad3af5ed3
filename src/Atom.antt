-- ===== src/Atom.antt =====
-- src/atom.c, src/apk_atom.h: interned blobs. A node is known by its number in the order in which
-- `apk_balloc_new_extra` gives them out, from 1 on; 0 is `apk_atom_null`.
pub mod Interns
use apk_tools.Prelude.{ℕ, Bytes, Bool, List, [], ◌∷◌, ◌+◌, Option, some, none}
use apk_tools.Blob.{Blob, null, blob, is_eq, apk_blob_compare}
use apk_tools.Blob.Hash.{apk_blob_hash}
use apk_tools.Hash.{HashTable, apk_hash_init, apk_hash_get_hashed, apk_hash_insert_hashed}

pub record Atom : Type 0 where
  pub ptr : ℕ
  pub blob : Bytes

pub record AtomPool : Type 0 where
  pub hash : HashTable Atom
  pub next : ℕ

abbrev pub apk_atom_null : Atom
apk_atom_null = record { ptr = 0; blob = [] }

-- `compare` of `atom_ops`, of a key with that of an item.
abbrev pub is_atom : Atom → Bytes → Bool
is_atom atom key = is_eq (apk_blob_compare key atom.blob)

pub apk_atom_init : AtomPool
apk_atom_init = record { hash = apk_hash_init 10000; next = 1 }

-- The node that was found, or a new one.
pub atom_or_new : AtomPool → Bytes → Option Atom → Atom × AtomPool
atom_or_new atoms b (some atom) = (atom, atoms)
atom_or_new atoms b none =
    let atom : Atom = record { ptr = atoms.next; blob = b } in
    (
      atom,
      record {
        hash = apk_hash_insert_hashed atoms.hash atom (apk_blob_hash b);
        next = atoms.next + 1;
      },
    )

pub apk_atomize_dup : AtomPool → Blob → Atom × AtomPool
unfolding atom_or_new
apk_atomize_dup atoms null = (apk_atom_null, atoms)
apk_atomize_dup atoms (blob []) = (apk_atom_null, atoms)
apk_atomize_dup atoms (blob (c ∷ b)) =
    atom_or_new atoms (c ∷ b)
      (apk_hash_get_hashed is_atom atoms.hash (c ∷ b) (apk_blob_hash (c ∷ b)))
