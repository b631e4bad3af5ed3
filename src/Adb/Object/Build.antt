-- ===== src/Adb/Object/Build.antt =====
-- Building an object: a new one, one more entry, and the object that a write leaves.
use apk_tools.Adb.Words.{adb_val_type, adb_null}
use apk_tools.Prelude.{
  some-injective, refl, ℕ, All, get_or, List, ◌≤◌, ◌<◌, length, ◌≢◌, replicate, ◌≡◌, ◌^◌, ◌∷◌,
  arith, ap, ◌-◌, some, [], ◌∙◌, Bool-cases, zero, leb, inl, inr, ◌==◌, subst, if◌then◌else◌,
  ==_iff, sym, not, ◌&&◌, ◌+◌,
}
use apk_tools.Adb.Object.{
  get_or, List, adb_wo_init, adb_wo_val, replicate, set_at, Building, suc, ◌∷◌, some, leb,
  adb_val_type, adb_type_error, not, adb_null,
}
use apk_tools.Adb.Object.Words.{IsWord}

-- An object under construction: the entries are words, the ones in use are inside, the others NULL.
pub record IsBuilding (o : Building) : Type 0 where
  pub are_words : All IsWord o.obj
  pub some_entry : 0 < o.num
  pub room : o.num ≤ length o.obj
  pub rest_null : (i : ℕ) → o.num ≤ i → get_or o.obj i 0 ≡ 0

zeroes_words : (n : ℕ) → All IsWord (replicate n 0)
zeroes_words zero = tt
zeroes_words (suc n) = (omega arith, zeroes_words n)

get_or-zeroes : (n i : ℕ) → get_or {A = ℕ} (replicate n 0) i 0 ≡ 0
get_or-zeroes zero i = refl
get_or-zeroes (suc n) zero = refl
get_or-zeroes (suc n) (suc i) = get_or-zeroes n i

behind_first : (v i : ℕ) (xs : List ℕ) → 1 ≤ i → get_or (v ∷ xs) i 0 ≡ get_or xs (i - 1) 0
behind_first v zero xs h = absurd (omega arith)
behind_first v (suc i) xs h = let less : suc i - 1 ≡ i = omega arith in rw less refl

-- A new object is one under construction.
pub adb_wo_init-IsBuilding :
    (num_fields : ℕ) → num_fields < 2 ^ 32 → IsBuilding (adb_wo_init num_fields)
unfolding adb_wo_init
adb_wo_init-IsBuilding num_fields small = record {
  are_words = (small, zeroes_words (num_fields - 1));
  some_entry = omega arith;
  room = omega arith;
  rest_null = λ i h.
      behind_first num_fields i (replicate (num_fields - 1) 0) h
      ∙ get_or-zeroes (num_fields - 1) (i - 1);
}

All-set : (i v : ℕ) (xs : List ℕ) → IsWord v → All IsWord xs → All IsWord (set_at i v xs)
All-set i v [] k h = tt
All-set zero v (x ∷ xs) k h = (k, h.1)
All-set (suc i) v (x ∷ xs) k h = (h.0, All-set i v xs k h.1)

length-set : (i v : ℕ) (xs : List ℕ) → length (set_at i v xs) ≡ length xs
length-set i v [] = refl
length-set zero v (x ∷ xs) = refl
length-set (suc i) v (x ∷ xs) = ap suc (length-set i v xs)

get_or-set : (i j v : ℕ) (xs : List ℕ) → i ≢ j → get_or (set_at i v xs) j 0 ≡ get_or xs j 0
get_or-set i j v [] h = refl
get_or-set zero zero v (x ∷ xs) h = absurd (h refl)
get_or-set zero (suc j) v (x ∷ xs) h = refl
get_or-set (suc i) zero v (x ∷ xs) h = refl
get_or-set (suc i) (suc j) v (x ∷ xs) h = get_or-set i j v xs (λ e. h (ap suc e))

get_or-set_same : (i v : ℕ) (xs : List ℕ) → i < length xs → get_or (set_at i v xs) i 0 ≡ v
get_or-set_same i v [] h = absurd (omega arith)
get_or-set_same zero v (x ∷ xs) h = refl
get_or-set_same (suc i) v (x ∷ xs) h = get_or-set_same i v xs (omega arith)

-- The number of entries in use behind a store.
abbrev used_with : Building → ℕ → ℕ → ℕ
used_with o i v = if not (v == adb_null) && leb o.num i then i + 1 else o.num

rest_null_with :
    (o : Building) (i v j : ℕ)
    → IsBuilding o
    → i < length o.obj
    → used_with o i v ≤ j
    → get_or (set_at i v o.obj) j 0 ≡ 0
rest_null_with o i v j building inside h = elim (Bool-cases (i == j)) [
  | inl same ↦
      let at : get_or (set_at i v o.obj) j 0 ≡ v =
        subst (λ (k : ℕ). get_or (set_at i v o.obj) k 0 ≡ v) ((==_iff i j).0 same)
          (get_or-set_same i v o.obj inside) in
      at ∙ ground (arith, h, same)
  | inr other ↦
      get_or-set i j v o.obj (λ e. ground (arith, other, e))
      ∙ building.rest_null j (ground (arith, h))
]

set-IsBuilding :
    (o : Building) (i v : ℕ)
    → IsBuilding o
    → i < length o.obj
    → v < 2 ^ 32
    → IsBuilding (record { obj = set_at i v o.obj; num = used_with o i v })
set-IsBuilding o i v building inside small = record {
  are_words = All-set i v o.obj small building.are_words;
  some_entry = ground (arith, building.some_entry);
  room = rw (length-set i v o.obj) (ground (arith, building.room, inside));
  rest_null = λ j h. rest_null_with o i v j building inside h;
}

-- What a store leaves.
abbrev pub Stores : Building → ℕ → ℕ → Building → Type 0
Stores o i v o' =
    IsBuilding o'
    × (length o'.obj ≡ get_or o'.obj 0 0)
    × (get_or o'.obj i 0 ≡ v)
    × ((j : ℕ) → i ≢ j → get_or o'.obj j 0 ≡ get_or o.obj j 0)

-- An entry of an object that has room for as many as it says: the entry has the value, every other
-- keeps its own, and the object is still one under construction.
pub adb_wo_val-IsBuilding :
    (o o' : Building) (i v : ℕ)
    → IsBuilding o
    → length o.obj ≡ get_or o.obj 0 0
    → 0 < i
    → v < 2 ^ 32
    → adb_wo_val o i v ≡ some o'
    → Stores o i v o'
unfolding adb_wo_val
adb_wo_val-IsBuilding o o' i v building full pos small e =
    elim (Bool-cases (leb (get_or o.obj 0 0) i)) [
      | inl out ↦ absurd (ground (arith, e, out))
      | inr inside ↦ elim (Bool-cases (adb_val_type v == adb_type_error)) [
        | inl failed ↦ absurd (ground (arith, e, inside, failed))
        | inr value ↦
            let q : Building = record { obj = set_at i v o.obj; num = used_with o i v } in
            let room : i < length o.obj = ground (arith, full, inside) in
            let same : q ≡ o' = some-injective q o' (ground (arith, e, inside, value)) in
            subst (Stores o i v) same (
              set-IsBuilding o i v building room small,
              length-set i v o.obj
                  ∙ full
                  ∙ sym (get_or-set i 0 v o.obj (λ k. omega (arith, k, pos))),
              get_or-set_same i v o.obj room,
              λ j. get_or-set i j v o.obj,
            )
      ]
    ]
