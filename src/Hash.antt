-- ===== src/Hash.antt =====
-- src/hash.c, src/apk_hash.h: hash tables, for items and keys of any type. An operation of `ops` is
-- a parameter; a table is used with one test, `compare_item` or `compare` with `get_key`, which
-- `matches` stands for. The bucket lists keep the newest item in front.
pub mod Laws
use apk_tools.Prelude.{
  ℕ, zero, suc, List, replicate, ◌%◌, ◌∷◌, Bool, [], length, ◌+◌, Option, if◌then◌else◌, none,
  get_or, some, true, ◌-◌, false,
}

pub record HashTable {ℓ} (Item : Type ℓ) : Type ℓ where
  pub buckets : List (List Item)
  pub num_items : ℕ

module _ {ℓ} {Item : Type ℓ} where
  abbrev pub is_none : Option Item → Bool
  is_none none = true
  is_none (some item) = false

  -- A change of the bucket at an index.
  pub change_at : (List Item → List Item) → ℕ → List (List Item) → List (List Item)
  change_at f i [] = []
  change_at f zero (bucket ∷ buckets) = f bucket ∷ buckets
  change_at f (suc i) (bucket ∷ buckets) = bucket ∷ change_at f i buckets

  unfoldable pub apk_hash_init : ℕ → HashTable Item
  apk_hash_init num_buckets = record { buckets = replicate num_buckets []; num_items = 0 }

  -- `hash %= apk_array_len (h->buckets)`.
  abbrev pub bucket_of : HashTable Item → ℕ → ℕ
  bucket_of h hash = hash % length h.buckets

  pub apk_hash_insert_hashed : HashTable Item → Item → ℕ → HashTable Item
  unfolding change_at
  apk_hash_insert_hashed h item hash = record {
    buckets = change_at (λ bucket. item ∷ bucket) (bucket_of h hash) h.buckets;
    num_items = h.num_items + 1;
  }

  module _ {κ} {Key : Type κ} (matches : Item → Key → Bool) where
    unfoldable pub find_item : List Item → Key → Option Item
    find_item [] key = none
    find_item (item ∷ items) key = if matches item key then some item else find_item items key

    unfoldable pub apk_hash_get_hashed : HashTable Item → Key → ℕ → Option Item
    unfolding find_item
    apk_hash_get_hashed h key hash = find_item (get_or h.buckets (bucket_of h hash) []) key

    pub delete_item : Key → List Item → List Item
    delete_item key [] = []
    delete_item key (item ∷ items) =
        if matches item key then items else item ∷ delete_item key items

    pub apk_hash_delete_hashed : HashTable Item → Key → ℕ → HashTable Item
    unfolding delete_item change_at
    apk_hash_delete_hashed h key hash =
        if is_none (apk_hash_get_hashed h key hash) then h else record {
          buckets = change_at (delete_item key) (bucket_of h hash) h.buckets;
          num_items = h.num_items - 1;
        }
