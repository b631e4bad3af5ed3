-- ===== src/Atom/Interns.antt =====
-- The pool refines the list of the texts that were interned, in their order.
use apk_tools.Blob.Hash.{apk_blob_hash}
pub mod Distinct
use mathlib.Core.Option
use apk_tools.Prelude.{
  length-replicate, ℕ, Bytes, List, suc, ◌<◌, ◌≡◌, Option, length, none, [], if◌then◌else◌, ◌++◌,
  Option-cases, ◌+◌, inl, inr, false, Bool-cases, true, arith, true_not_false, length-append, sym,
  ◌∙◌, ap, refl, ◌==◌, get_or, zero,
}
use apk_tools.Blob.{Blob, bytes, is_eq, apk_blob_compare, null}
use apk_tools.Blob.Compare.{is_eq-compare, is_eq-compare_self}
use apk_tools.Atom.{
  AtomPool, Atom, Option, ◌∷◌, apk_atomize_dup, none, some, atom_or_new, is_atom,
  apk_hash_insert_hashed, is_eq, apk_blob_hash, blob, apk_blob_compare, apk_atom_null,
  apk_atom_init, apk_hash_init,
}
use apk_tools.Hash.{apk_hash_get_hashed, apk_hash_insert_hashed, bucket_of, apk_hash_init}
use apk_tools.Hash.Laws.{apk_hash_get_hashed-apk_hash_insert_hashed, length-insert, get_hashed-init}

-- Where a text stands in the list.
pub index_of : List Bytes → Bytes → Option ℕ
index_of [] b = none
index_of (t ∷ texts) b =
    if is_eq (apk_blob_compare b t) then some 0 else Option.map suc (index_of texts b)

-- What a call gives on the list: the number, and the list behind it. The empty text has 0.
pub intern_at : List Bytes → Bytes → Option ℕ → ℕ × List Bytes
intern_at texts b (some i) = (suc i, texts)
intern_at texts b none = (suc (length texts), texts ++ (b ∷ []))

pub intern : List Bytes → Bytes → ℕ × List Bytes
unfolding intern_at
intern texts [] = (0, texts)
intern texts (c ∷ b) = intern_at texts (c ∷ b) (index_of texts (c ∷ b))

abbrev atom_at : Bytes → ℕ → Atom
atom_at b i = record { ptr = suc i; blob = b }

abbrev atom_of : Bytes → ℕ → Atom
atom_of b n = record { ptr = n; blob = b }

-- The pool finds exactly the texts of the list, each by its place.
pub record Represents (atoms : AtomPool) (texts : List Bytes) : Type 0 where
  pub buckets : 0 < length atoms.hash.buckets
  pub next_eq : atoms.next ≡ suc (length texts)
  pub found :
      (key : Bytes)
      → apk_hash_get_hashed is_atom atoms.hash key (apk_blob_hash key)
        ≡ Option.map (λ i. atom_at key i) (index_of texts key)

text-miss :
    (texts : List Bytes) (t b : Bytes)
    → index_of (t ∷ texts) b ≡ none
    → (is_eq (apk_blob_compare b t) ≡ false) × (index_of texts b ≡ none)
unfolding index_of
text-miss texts t b h = elim (Bool-cases (is_eq (apk_blob_compare b t))) [
  | inl s ↦ absurd (ground arith)
  | inr n ↦ (n, ground arith)
]

other_text :
    (key b t : Bytes)
    → is_eq (apk_blob_compare b t) ≡ false
    → is_eq (apk_blob_compare key t) ≡ true
    → is_eq (apk_blob_compare key b) ≡ false
other_text key b t h k = elim (Bool-cases (is_eq (apk_blob_compare key b))) [
  | inl s ↦
      let one = is_eq-compare key b s in
      let two = is_eq-compare key t k in
      let same : b ≡ t = sym one ∙ two in
      let yes : is_eq (apk_blob_compare b t) ≡ true = rw (sym same) (is_eq-compare_self b) in
      absurd (ground arith)
  | inr n ↦ n
]

index_of-append :
    (texts : List Bytes) (b key : Bytes)
    → index_of texts b ≡ none
    → index_of (texts ++ (b ∷ [])) key
      ≡ (if is_eq (apk_blob_compare key b) then some (length texts) else index_of texts key)
unfolding index_of
index_of-append [] b key h = refl
index_of-append (t ∷ texts) b key h =
    let (miss, rest) = text-miss texts t b h in
    let next = index_of-append texts b key rest in
    elim (Bool-cases (is_eq (apk_blob_compare key t))) [
      | inl s ↦ rw (s, other_text key b t miss s) refl
      | inr n ↦ elim (Bool-cases (is_eq (apk_blob_compare key b))) [
        | inl s ↦ rw (n, next, s) refl
        | inr m ↦ rw (n, next, m) refl
      ]
    ]

Represents-insert :
    (atoms : AtomPool) (texts : List Bytes) (b : Bytes)
    → Represents atoms texts
    → index_of texts b ≡ none
    → Represents
        (record {
          hash =
              apk_hash_insert_hashed atoms.hash
                (record { ptr = atoms.next; blob = b })
                (apk_blob_hash b);
          next = atoms.next + 1;
        })
        (texts ++ (b ∷ []))
Represents-insert atoms texts b r h =
    let item : Atom = record { ptr = atoms.next; blob = b } in
    let at = apk_blob_hash b in
    record {
      buckets = rw (length-insert atoms.hash item at) r.buckets;
      next_eq = omega (arith, r.next_eq, length-append texts (b ∷ []));
      found = λ key.
          rw
            (
              apk_hash_get_hashed-apk_hash_insert_hashed is_atom atoms.hash item key at
                  (apk_blob_hash key) r.buckets,
              index_of-append texts b key h,
            )
            (elim (Bool-cases (is_eq (apk_blob_compare key b))) [
              | inl s ↦
                  let e = is_eq-compare key b s in
                  let i : (bucket_of atoms.hash at == bucket_of atoms.hash (apk_blob_hash key))
                      ≡ true =
                    rw e (ground arith) in
                  rw (s, i, e, r.next_eq) refl
              | inr n ↦
                  elim (Bool-cases
                    (bucket_of atoms.hash at == bucket_of atoms.hash (apk_blob_hash key))) [
                      | inl t ↦ rw (n, t) (r.found key)
                      | inr f ↦ rw (n, f) (r.found key)
                    ]
            ]);
    }

-- `apk_atomize_dup` refines `intern`.
pub apk_atomize_dup-intern :
    (atoms : AtomPool) (texts : List Bytes) (b : Blob)
    → Represents atoms texts
    → ((apk_atomize_dup atoms b).0 ≡ record { ptr = (intern texts (bytes b)).0; blob = bytes b })
      × Represents ((apk_atomize_dup atoms b).1) ((intern texts (bytes b)).1)
unfolding apk_atomize_dup intern atom_or_new intern_at
apk_atomize_dup-intern atoms texts null r = ((λ i. apk_atom_null), r)
apk_atomize_dup-intern atoms texts (blob []) r = ((λ i. apk_atom_null), r)
apk_atomize_dup-intern atoms texts (blob (c ∷ b)) r =
    rw (r.found (c ∷ b)) (elim (Option-cases (index_of texts (c ∷ b))) [
      | inl e ↦
          rw e (ap (λ n. atom_of (c ∷ b) n) r.next_eq, Represents-insert atoms texts (c ∷ b) r e)
      | inr (i, e) ↦ rw e ((λ j. atom_at (c ∷ b) i), r)
    ])

pub init-Represents : Represents apk_atom_init []
unfolding apk_atom_init index_of apk_hash_init
init-Represents = record {
  buckets = omega (arith, length-replicate {A = List Atom} 10000 []);
  next_eq = refl;
  found = λ key. get_hashed-init is_atom 10000 key (apk_blob_hash key);
}
