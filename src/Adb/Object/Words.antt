-- ===== src/Adb/Object/Words.antt =====
-- The words of an object, and its entries as they are read.
use apk_tools.Adb.Value.{adb_type_array, adb_type_object, adb_r_deref}
use apk_tools.Adb.Words.{
  le_value, adb_val_type, le_value-le_bytes, adb_val_value, le_bytes, length-le_bytes,
}
use apk_tools.Prelude.{
  refl, ℕ, Bytes, ◌<◌, List, ◌≤◌, length, ◌^◌, All, get_or, arith, ◌≡◌, take, ◌∷◌, ◌*◌, drop, suc,
  [], Bool-cases, ◌++◌, zero, ◌==◌, inr, ◌⊎◌, inl, some, ◌∙◌, ap, sym, false, take-append-drop, leb,
}
use apk_tools.Adb.Object.{
  trim, entry_words, List, adb_r_obj, get_or, obj_of, le_value, take, set_at, suc, drop,
  adb_val_type, adb_type_array, adb_type_object, some, le_bytes, adb_r_deref, adb_ro_val, entry_at,
  leb,
}
use apk_tools.Adb.Write.Reading.{deref_at, IsAt-front}
use apk_tools.Adb.Write.Stored.{IsAt}

pub trim_le : (obj : List ℕ) (n : ℕ) → trim obj n ≤ n
unfolding trim
trim_le obj zero = omega arith
trim_le obj (suc zero) = omega arith
trim_le obj (suc (suc n)) = ground (arith, trim_le obj (suc n))

pub trim_zero : (obj : List ℕ) (n i : ℕ) → 0 < i → i < n → trim obj n ≤ i → get_or obj i 0 ≡ 0
unfolding trim
trim_zero obj zero i pos lt h = absurd (omega arith)
trim_zero obj (suc zero) i pos lt h = absurd (omega arith)
trim_zero obj (suc (suc n)) i pos lt h = elim (Bool-cases (get_or obj (suc n) 0 == 0)) [
  | inr used ↦ absurd (ground (arith, used, h, lt))
  | inl null_entry ↦ elim (Bool-cases (i == suc n)) [
    | inl last ↦ ground (arith, last, null_entry)
    | inr before ↦
        trim_zero obj (suc n) i pos (ground (arith, before, lt)) (ground (arith, null_entry, h))
  ]
]

pub length-entry_words : (vs : List ℕ) → length (entry_words vs) ≡ 4 * length vs
unfolding entry_words
length-entry_words [] = refl
length-entry_words (v ∷ vs) = omega (arith, length-entry_words vs)

abbrev pub IsWord : ℕ → Type 0
IsWord v = v < 2 ^ 32

word_of :
    (vs : List ℕ) (i : ℕ) (rest : Bytes)
    → All IsWord vs
    → i < length vs
    → le_value (take 4 (drop (4 * i) (entry_words vs ++ rest))) ≡ get_or vs i 0
unfolding entry_words
word_of [] i rest h lt = absurd (omega arith)
word_of (v ∷ vs) zero rest h lt = le_value-le_bytes 4 v h.0
word_of (v ∷ vs) (suc i) rest h lt =
    let four : 4 * suc i ≡ suc (suc (suc (suc (4 * i)))) = omega arith in
    rw four (word_of vs i rest h.1 (omega arith))

pub get_or-take : (n i : ℕ) (xs : List ℕ) → i < n → get_or (take n xs) i 0 ≡ get_or xs i 0
get_or-take zero i xs lt = absurd (omega arith)
get_or-take (suc n) i [] lt = refl
get_or-take (suc n) zero (x ∷ xs) lt = refl
get_or-take (suc n) (suc i) (x ∷ xs) lt = get_or-take n i xs (omega arith)

pub get_or-set_at : (v i : ℕ) (xs : List ℕ) → 0 < i → get_or (set_at 0 v xs) i 0 ≡ get_or xs i 0
get_or-set_at v i [] pos = refl
get_or-set_at v zero (x ∷ xs) pos = absurd (omega arith)
get_or-set_at v (suc i) (x ∷ xs) pos = refl

pub length-set_at : (v : ℕ) (xs : List ℕ) → length (set_at 0 v xs) ≡ length xs
length-set_at v [] = refl
length-set_at v (x ∷ xs) = refl

pub All-take : (n : ℕ) (xs : List ℕ) → All IsWord xs → All IsWord (take n xs)
All-take zero xs h = tt
All-take (suc n) [] h = tt
All-take (suc n) (x ∷ xs) h = (h.0, All-take n xs h.1)

pub All-set_at : (v : ℕ) (xs : List ℕ) → IsWord v → All IsWord xs → All IsWord (set_at 0 v xs)
All-set_at v [] k h = tt
All-set_at v (x ∷ xs) k h = (k, h.1)

obj_of-some :
    (adb ptr : Bytes) (v n : ℕ)
    → 0 < n
    → adb_r_deref adb v 0 (4 * n) ≡ some ptr
    → obj_of adb v n ≡ record { db = adb; num = n; obj = some ptr }
unfolding obj_of
obj_of-some adb ptr v n pos is =
    let some_entry : (n == 0) ≡ false = ground (arith, pos) in rw (some_entry, is) refl

adb_r_obj-obj_of :
    (adb ptr : Bytes) (v n : ℕ)
    → (adb_val_type v ≡ adb_type_array) ⊎ (adb_val_type v ≡ adb_type_object)
    → adb_r_deref adb v 0 4 ≡ some ptr
    → le_value (take 4 ptr) ≡ n
    → adb_r_obj adb v ≡ obj_of adb v n
unfolding adb_r_obj
adb_r_obj-obj_of adb ptr v n (inl array) is word = rw (array, is, word) refl
adb_r_obj-obj_of adb ptr v n (inr object) is word = rw (object, is, word) refl

-- The object that is read where the words of `n ∷ vs` stand, of which there are `n`.
pub obj_of-entry_words :
    (adb : Bytes) (v n : ℕ) (vs : List ℕ)
    → All IsWord (n ∷ vs)
    → suc (length vs) ≡ n
    → (adb_val_type v ≡ adb_type_array) ⊎ (adb_val_type v ≡ adb_type_object)
    → IsAt adb (adb_val_value v) (entry_words (n ∷ vs))
    → (rest : Bytes) × (adb_r_obj adb v
        ≡ record { db = adb; num = n; obj = some (entry_words (n ∷ vs) ++ rest) })
obj_of-entry_words adb v n vs small len type at =
    let (ptr, is, same) =
      deref_at adb (entry_words (n ∷ vs)) v (adb_val_value v) 0 (4 * n) (omega arith)
        (length-entry_words (n ∷ vs) ∙ ap (λ (m : ℕ). 4 * m) len) at in
    let (ptr4, is4, same4) =
      deref_at adb (le_bytes 4 n) v (adb_val_value v) 0 4 (omega arith) (length-le_bytes 4 n) (
        IsAt-front adb (le_bytes 4 n) (entry_words vs) (adb_val_value v)
          (unfold entry_words in at)) in
    let whole : ptr ≡ entry_words (n ∷ vs) ++ drop (4 * n) ptr =
      sym (take-append-drop (4 * n) ptr) ∙ ap (λ x. x ++ drop (4 * n) ptr) same in
    (
      drop (4 * n) ptr,
      adb_r_obj-obj_of adb ptr4 v n type is4 (ap le_value same4 ∙ le_value-le_bytes 4 n small.0)
          ∙ obj_of-some adb ptr v n (omega (arith, len)) is
          ∙ ap (λ x. record { db = adb; num = n; obj = some x }) whole,
    )

-- The entries of such an object.
pub obj_of-entry :
    (adb rest : Bytes) (n i : ℕ) (ws : List ℕ)
    → All IsWord ws
    → length ws ≡ n
    → i < n
    → adb_ro_val (record { db = adb; num = n; obj = some (entry_words ws ++ rest) }) i
      ≡ get_or ws i 0
unfolding adb_ro_val entry_at
obj_of-entry adb rest n i ws small len lt =
    let inside : leb n i ≡ false = ground (arith, lt) in
    rw inside (word_of ws i rest small (omega (arith, len, lt)))
