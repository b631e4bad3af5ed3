-- ===== src/Hash/Laws.antt =====
-- Lookups after an insertion, and the number of items.
use apk_tools.Prelude.{
  ℕ, zero, suc, ◌<◌, List, Bool, length, ◌≡◌, get_or, ◌+◌, ap, [], if◌then◌else◌, ◌==◌, arith, refl,
  ◌&&◌, some, Bool-cases, ◌%◌, false, inl, ==_iff, inr, replicate, none,
}
use native.Mathlib.Nat.{mod-lt}
use apk_tools.Hash.{
  HashTable, change_at, List, Bool, length, ◌∷◌, apk_hash_get_hashed, delete_item, get_or,
  apk_hash_insert_hashed, find_item, [], apk_hash_delete_hashed, bucket_of, some, false, is_none,
  apk_hash_init, replicate, none,
}

pub in_table : (n hash : ℕ) → 0 < n → hash % n < n
in_table n hash pos = mod-lt hash pos

module _ {ℓ} {Item : Type ℓ} where
  pub get_or-change_at :
      (f : List Item → List Item) (i j : ℕ) (buckets : List (List Item))
      → i < length buckets
      → get_or (change_at f i buckets) j []
        ≡ (if i == j then f (get_or buckets i []) else get_or buckets j [])
  unfolding change_at
  get_or-change_at f i j [] h = absurd (omega arith)
  get_or-change_at f zero zero (b ∷ buckets) h = refl
  get_or-change_at f zero (suc j) (b ∷ buckets) h =
      let no : (0 == suc j) ≡ false = ground arith in rw no refl
  get_or-change_at f (suc i) zero (b ∷ buckets) h =
      let no : (suc i == 0) ≡ false = ground arith in rw no refl
  get_or-change_at f (suc i) (suc j) (b ∷ buckets) h =
      let less : (suc i == suc j) ≡ (i == j) = ground arith in
      rw less (get_or-change_at f i j buckets (omega arith))

  pub length-change_at :
      (f : List Item → List Item) (i : ℕ) (buckets : List (List Item))
      → length (change_at f i buckets) ≡ length buckets
  unfolding change_at
  length-change_at f i [] = refl
  length-change_at f zero (b ∷ buckets) = refl
  length-change_at f (suc i) (b ∷ buckets) = ap suc (length-change_at f i buckets)

  pub length-insert :
      (h : HashTable Item) (item : Item) (hash : ℕ)
      → length (apk_hash_insert_hashed h item hash).buckets ≡ length h.buckets
  unfolding apk_hash_insert_hashed
  length-insert h item hash = length-change_at (λ b. item ∷ b) (bucket_of h hash) h.buckets

  get_or-replicate : (n i : ℕ) → get_or {A = List Item} (replicate n []) i [] ≡ []
  get_or-replicate zero i = refl
  get_or-replicate (suc n) zero = refl
  get_or-replicate (suc n) (suc i) = get_or-replicate n i

  -- The number of items in the buckets.
  abbrev pub total : List (List Item) → ℕ
  total [] = 0
  total (b ∷ buckets) = length b + total buckets

  -- The table has buckets, and its count is that of the items in them.
  abbrev pub IsCounted : HashTable Item → Type 0
  IsCounted h = (0 < length h.buckets) × (h.num_items ≡ total h.buckets)

  total-change_at :
      (f : List Item → List Item) (i : ℕ) (buckets : List (List Item))
      → i < length buckets
      → total (change_at f i buckets) + length (get_or buckets i [])
        ≡ total buckets + length (f (get_or buckets i []))
  unfolding change_at
  total-change_at f i [] h = absurd (omega arith)
  total-change_at f zero (b ∷ buckets) h = omega arith
  total-change_at f (suc i) (b ∷ buckets) h =
      omega (arith, total-change_at f i buckets (omega arith))

  module _ {κ} {Key : Type κ} (matches : Item → Key → Bool) where
    -- Behind an insertion, a key in the same bucket that the new item matches finds it; every other
    -- lookup finds what it found before. The table has a bucket.
    pub apk_hash_get_hashed-apk_hash_insert_hashed :
        (h : HashTable Item) (item : Item) (key : Key) (hash hash' : ℕ)
        → 0 < length h.buckets
        → apk_hash_get_hashed matches (apk_hash_insert_hashed h item hash) key hash' ≡ (
            if (bucket_of h hash == bucket_of h hash') && matches item key
            then some item
            else apk_hash_get_hashed matches h key hash')
    unfolding apk_hash_get_hashed apk_hash_insert_hashed find_item
    apk_hash_get_hashed-apk_hash_insert_hashed h item key hash hash' pos =
        let i = bucket_of h hash in
        let j = bucket_of h hash' in
        let there : i < length h.buckets = in_table (length h.buckets) hash pos in
        rw
          (
            length-change_at (λ b. item ∷ b) i h.buckets,
            get_or-change_at (λ b. item ∷ b) i j h.buckets there,
          )
          (elim (Bool-cases (i == j)) [ inl s ↦ rw (s, (==_iff i j).0 s) refl | inr n ↦ rw n refl ])

    pub get_hashed-init :
        (n : ℕ) (key : Key) (hash : ℕ)
        → apk_hash_get_hashed matches (apk_hash_init n) key hash ≡ none
    unfolding apk_hash_get_hashed apk_hash_init find_item
    get_hashed-init n key hash = rw (get_or-replicate n (bucket_of (apk_hash_init n) hash)) refl

    -- A lookup behind a change of one bucket.
    pub get_hashed-change_at :
        (h : HashTable Item) (f : List Item → List Item) (key : Key) (hash hash' : ℕ)
        → 0 < length h.buckets
        → apk_hash_get_hashed matches
            (record h { buckets = change_at f (bucket_of h hash) h.buckets })
            key
            hash'
          ≡ find_item matches
              (if bucket_of h hash == bucket_of h hash'
                then f (get_or h.buckets (bucket_of h hash) [])
                else get_or h.buckets (bucket_of h hash') [])
              key
    unfolding apk_hash_get_hashed
    get_hashed-change_at h f key hash hash' pos =
        let i = bucket_of h hash in
        let there : i < length h.buckets = in_table (length h.buckets) hash pos in
        rw
          (length-change_at f i h.buckets, get_or-change_at f i (bucket_of h hash') h.buckets there)
          refl

    length-delete_item :
        (key : Key) (items : List Item)
        → is_none (find_item matches items key) ≡ false
        → length (delete_item matches key items) + 1 ≡ length items
    unfolding delete_item find_item
    length-delete_item key [] h = absurd (ground arith)
    length-delete_item key (item ∷ items) h = ground (arith, length-delete_item key items)

    -- Insertion and deletion, of a key that is there or not, keep the count of the items right.
    pub apk_hash-IsCounted :
        (h : HashTable Item) (item : Item) (key : Key) (hash : ℕ)
        → IsCounted h
        → IsCounted (apk_hash_insert_hashed h item hash)
          × IsCounted (apk_hash_delete_hashed matches h key hash)
    unfolding apk_hash_get_hashed apk_hash_insert_hashed apk_hash_delete_hashed
    apk_hash-IsCounted h item key hash (pos, count) =
        let i = bucket_of h hash in
        let there : i < length h.buckets = in_table (length h.buckets) hash pos in
        let add : List Item → List Item = λ b. item ∷ b in
        let drop_one : List Item → List Item = delete_item matches key in
        (
          (
            omega (arith, length-change_at add i h.buckets),
            omega (arith, total-change_at add i h.buckets there),
          ),
          elim (Bool-cases (is_none (apk_hash_get_hashed matches h key hash))) [
            | inl s ↦ rw s (pos, count)
            | inr n ↦ rw n (
              omega (arith, length-change_at drop_one i h.buckets),
              omega (
                arith,
                total-change_at drop_one i h.buckets there,
                length-delete_item key (get_or h.buckets i []) n,
              ),
            )
          ],
        )
