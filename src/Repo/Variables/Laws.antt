-- ===== src/Repo/Variables/Laws.antt =====
-- The variables as a map from names to values.
use apk_tools.Errors.{err, apke_repo_variable}
use apk_tools.Hash.Laws.{get_hashed-change_at, apk_hash_get_hashed-apk_hash_insert_hashed}
use apk_tools.Blob.{is_eq, apk_blob_compare, Buffer}
use apk_tools.Blob.Hash.{apk_blob_hash}
use mathlib.Core.Option
use apk_tools.Prelude.{
  ℕ, Bytes, Bool, Option, true, some, List, not, none, bit_and, ◌≡◌, ◌==◌, if◌then◌else◌, ◌&&◌,
  false, Bool-cases, inl, ◌∙◌, inr, sym, ◌∷◌, [], arith, refl, ◌<◌, length, Option-cases, ==_iff,
  get_or, ◌%◌, take, ◌≤◌, take_whole, ap, length-take_le,
}
use apk_tools.Blob.Compare.{is_eq-compare, is_eq-compare_self}
use apk_tools.Hash.{
  HashTable, apk_hash_get_hashed, find_item, change_at, bucket_of, apk_hash_insert_hashed,
}
use apk_tools.Repo.Variables.{
  Variable, change_item, is_variable, apk_blob_hash, apk_varf_overwrite, is_eq, apk_varf_readonly,
  apk_variable_set, set_found, apk_variable_subst, push_found, err,
}

-- The variable of a name.
abbrev pub variable : HashTable Variable → Bytes → Option Variable
variable vars key = apk_hash_get_hashed is_variable vars key (apk_blob_hash key)

-- Whether a definition with these flags takes the place of what is there.
abbrev pub replaces : ℕ → Option Variable → Bool
replaces flags none = true
replaces flags (some var) =
    not (bit_and flags apk_varf_overwrite == 0) && bit_and var.flags apk_varf_readonly == 0

-- The value and flags of a name, as a user of the table sees them.
abbrev pub entry : Option Variable → Option (Bytes × ℕ)
entry none = none
entry (some var) = some (var.value, var.flags)

other_key :
    (var : Variable) (key key' : Bytes)
    → is_variable var key ≡ true
    → is_eq (apk_blob_compare key' key) ≡ false
    → is_variable var key' ≡ false
other_key var key key' h k = elim (Bool-cases (is_variable var key')) [
  | inl s ↦
      let same : key' ≡ key = is_eq-compare _ _ s ∙ sym (is_eq-compare _ _ h) in
      let yes : is_eq (apk_blob_compare key' key) ≡ true = rw same (is_eq-compare_self key) in
      absurd (ground arith)
  | inr n ↦ n
]

find-change_item :
    (f : Variable → Variable) (key key' : Bytes) (items : List Variable)
    → ((v : Variable) (k : Bytes) → is_variable (f v) k ≡ is_variable v k)
    → find_item is_variable (change_item f key items) key' ≡ (
        if is_eq (apk_blob_compare key' key)
        then Option.map f (find_item is_variable items key')
        else find_item is_variable items key')
unfolding change_item find_item
find-change_item f key key' [] same = elim (Bool-cases (is_eq (apk_blob_compare key' key))) [
  | inl c ↦ rw c refl
  | inr c ↦ rw c refl
]
find-change_item f key key' (var ∷ items) same = elim (Bool-cases (is_variable var key)) [
  | inl a ↦ elim (Bool-cases (is_eq (apk_blob_compare key' key))) [
    | inl c ↦
        let b : is_variable var key' ≡ true = rw (is_eq-compare key' key c) a in
        rw (a, same var key', b, c) refl
    | inr c ↦
        let b : is_variable var key' ≡ false = other_key var key key' a c in
        rw (a, same var key', b, c) refl
  ]
  | inr a ↦ elim (Bool-cases (is_eq (apk_blob_compare key' key))) [
    | inl c ↦
        let b : is_variable var key' ≡ false = rw (is_eq-compare key' key c) a in
        rw (a, b, find-change_item f key key' items same, c) refl
    | inr c ↦ rw (a, find-change_item f key key' items same, c) refl
  ]
]

variable_changed :
    (f : Variable → Variable) (vars : HashTable Variable) (key key' : Bytes)
    → ((v : Variable) (k : Bytes) → is_variable (f v) k ≡ is_variable v k)
    → 0 < length vars.buckets
    → variable
        (record vars {
          buckets = change_at (change_item f key) (bucket_of vars (apk_blob_hash key)) vars.buckets;
        })
        key'
      ≡ (if is_eq (apk_blob_compare key' key)
          then Option.map f (variable vars key')
          else variable vars key')
unfolding apk_hash_get_hashed
variable_changed f vars key key' same pos =
    let i = bucket_of vars (apk_blob_hash key) in
    let j = bucket_of vars (apk_blob_hash key') in
    rw
      (get_hashed-change_at is_variable vars (change_item f key) key' (apk_blob_hash key)
        (apk_blob_hash key') pos)
      (elim (Bool-cases (i == j)) [
        | inl s ↦
            let e = (==_iff i j).0 s in
            rw (s, find-change_item f key key' (get_or vars.buckets i []) same, e) refl
        | inr n ↦ elim (Bool-cases (is_eq (apk_blob_compare key' key))) [
          | inl c ↦
              let e = is_eq-compare key' key c in
              let yes : (i == j) ≡ true = rw e (ground arith) in absurd (ground arith)
          | inr c ↦ rw (n, c) refl
        ]
      ])

variable_added :
    (vars : HashTable Variable) (key key' value : Bytes) (flags : ℕ)
    → 0 < length vars.buckets
    → length key < 256
    → let var : Variable = record {
      value = value;
      flags = flags;
      keylen = length key % 256;
      key = key;
    } in
      variable (apk_hash_insert_hashed vars var (apk_blob_hash key)) key'
      ≡ (if is_eq (apk_blob_compare key' key) then some var else variable vars key')
variable_added vars key key' value flags pos small =
    let var : Variable = record {
      value = value;
      flags = flags;
      keylen = length key % 256;
      key = key;
    } in
    let i = bucket_of vars (apk_blob_hash key) in
    let j = bucket_of vars (apk_blob_hash key') in
    let whole : take (length key % 256) key ≡ key =
      take_whole (length key % 256) key (omega arith) in
    rw
      (
        apk_hash_get_hashed-apk_hash_insert_hashed is_variable vars var key' (apk_blob_hash key)
            (apk_blob_hash key') pos,
        whole,
      )
      (elim (Bool-cases (is_eq (apk_blob_compare key' key))) [
        | inl c ↦
            let e = is_eq-compare key' key c in
            let yes : (i == j) ≡ true = rw e (ground arith) in rw (c, yes) refl
        | inr c ↦ elim (Bool-cases (i == j)) [ inl s ↦ rw (c, s) refl | inr n ↦ rw (c, n) refl ]
      ])

variable_kept :
    (vars : HashTable Variable) (key key' value : Bytes) (flags : ℕ) (var : Variable)
    → 0 < length vars.buckets
    → variable vars key ≡ some var
    → entry (variable (set_found vars key value flags (some var)) key') ≡ (
        if is_eq (apk_blob_compare key' key) && replaces flags (some var)
        then some (value, flags)
        else entry (variable vars key'))
unfolding set_found
variable_kept vars key key' value flags var pos e =
    let f : Variable → Variable = λ v. record v { value = value; flags = flags } in
    elim (Bool-cases (is_eq (apk_blob_compare key' key))) [
      | inl c ↦
          let same = is_eq-compare key' key c in
          let here : variable vars key' ≡ some var = rw same e in
          elim (Bool-cases (bit_and flags apk_varf_overwrite == 0)) [
            | inl s ↦ rw (c, s) refl
            | inr n ↦ elim (Bool-cases (bit_and var.flags apk_varf_readonly == 0)) [
              | inl s ↦
                  rw (c, n, s, variable_changed f vars key key' (λ v k. refl) pos, c, here) refl
              | inr m ↦ rw (c, n, m) refl
            ]
          ]
      | inr c ↦ elim (Bool-cases (bit_and flags apk_varf_overwrite == 0)) [
        | inl s ↦ rw (c, s) refl
        | inr n ↦ elim (Bool-cases (bit_and var.flags apk_varf_readonly == 0)) [
          | inl s ↦ rw (c, n, s, variable_changed f vars key key' (λ v k. refl) pos, c) refl
          | inr m ↦ rw (c, n, m) refl
        ]
      ]
    ]

-- Behind a definition of a name of less than 256 bytes, that name has the new value and flags
-- unless it was there and either the definition does not overwrite or it is read-only; each other
-- name has what it had. The table has a bucket.
pub apk_variable_subst-apk_variable_set :
    (vars : HashTable Variable) (key key' value : Bytes) (flags : ℕ)
    → 0 < length vars.buckets
    → length key < 256
    → entry (variable (apk_variable_set vars key value flags) key') ≡ (
        if is_eq (apk_blob_compare key' key) && replaces flags (variable vars key)
        then some (value, flags)
        else entry (variable vars key'))
unfolding apk_variable_set set_found
apk_variable_subst-apk_variable_set vars key key' value flags pos small =
    elim (Option-cases (variable vars key)) [
      | inl e ↦
          rw (e, variable_added vars key key' value flags pos small)
            (elim (Bool-cases (is_eq (apk_blob_compare key' key))) [
              | inl c ↦ rw c refl
              | inr c ↦ rw c refl
            ])
      | inr (var, e) ↦ rw e (variable_kept vars key key' value flags var pos e)
    ]

cut-differs :
    (key : Bytes)
    → 256 ≤ length key
    → is_eq (apk_blob_compare key (take (length key % 256) key)) ≡ false
cut-differs key long =
    elim (Bool-cases (is_eq (apk_blob_compare key (take (length key % 256) key)))) [
      | inl s ↦
          let same = ap length (is_eq-compare key _ s) in
          absurd (omega (arith, length-take_le (length key % 256) key, same))
      | inr n ↦ n
    ]

-- A name of 256 bytes or more that was not there is lost: it is stored with its length cut to 8
-- bits, and the variable stays undefined. The table has a bucket.
pub apk_variable_set-lost :
    (vars : HashTable Variable) (key value : Bytes) (flags : ℕ) (to : Buffer)
    → 0 < length vars.buckets
    → 256 ≤ length key
    → variable vars key ≡ none
    → apk_variable_subst (apk_variable_set vars key value flags) key to ≡ err apke_repo_variable
unfolding apk_variable_set set_found apk_variable_subst push_found
apk_variable_set-lost vars key value flags to pos long e =
    let var : Variable = record {
      value = value;
      flags = flags;
      keylen = length key % 256;
      key = key;
    } in
    let miss : is_variable var key ≡ false = cut-differs key long in
    let found =
      apk_hash_get_hashed-apk_hash_insert_hashed is_variable vars var key (apk_blob_hash key)
        (apk_blob_hash key) pos in
    let i = bucket_of vars (apk_blob_hash key) in
    let yes : (i == i) ≡ true = ground arith in rw (e, found, yes, miss, e) refl
