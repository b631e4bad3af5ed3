-- ===== src/PathBuilder/Laws.antt =====
-- Pushing an element and popping it again.
use apk_tools.Prelude.{
  ℕ, zero, suc, length, Bytes, ◌≡◌, ◌≤◌, ◌+◌, arith, take, ◌++◌, ◌<◌, ap, ◌∙◌, length-append, [],
  refl, sym, drop, take-length_append, append_assoc, length-drop, if◌then◌else◌, ◌==◌, false, some,
  none, ◌⊎◌, Bool-cases, leb, inl, inr,
}
use apk_tools.PathBuilder.{
  PathBuilder, write_at, length, Bytes, ◌∷◌, path_max, take, drop, apk_pathbuilder_get, append_at,
  apk_pathbuilder_pop, apk_pathbuilder_pushb, end_at, some, none, leb, apk_pathbuilder_setb,
}

-- A path with its end fits the array.
abbrev pub IsPath : PathBuilder → Type 0
IsPath pb = (length pb.name ≡ path_max) × (pb.namelen < path_max)

take_all : (xs ys : Bytes) (n : ℕ) → n ≤ length xs → take n (xs ++ ys) ≡ take n xs
take_all xs ys zero h = refl
take_all [] ys (suc n) h = absurd (omega arith)
take_all (x ∷ xs) ys (suc n) h = ap (◌∷◌ x) (take_all xs ys n (omega arith))

length-take : (n : ℕ) (xs : Bytes) → n ≤ length xs → length (take n xs) ≡ n
length-take zero xs h = refl
length-take (suc n) [] h = absurd (omega arith)
length-take (suc n) (x ∷ xs) h = omega (arith, length-take n xs (omega arith))

take_within : (i : ℕ) (xs : Bytes) (j : ℕ) → i ≤ j → take i (take j xs) ≡ take i xs
take_within zero xs j h = refl
take_within (suc i) xs zero h = absurd (omega arith)
take_within (suc i) [] (suc j) h = refl
take_within (suc i) (x ∷ xs) (suc j) h = ap (◌∷◌ x) (take_within i xs j (omega arith))

-- What is in front of a write stays.
take-write_at :
    (i j : ℕ) (b name : Bytes) → i ≤ j → j ≤ length name → take i (write_at j b name) ≡ take i name
unfolding write_at
take-write_at i j b name h k =
    take_all (take j name) _ i (rw (length-take j name k) h) ∙ take_within i name j h

-- The front of a text up to the end of its first part is that part.
take_exact : (xs ys : Bytes) (n : ℕ) → length xs ≡ n → take n (xs ++ ys) ≡ xs
take_exact xs ys n h = ap (λ m. take m (xs ++ ys)) (sym h) ∙ take-length_append xs ys

take_written :
    (i : ℕ) (b name : Bytes)
    → i ≤ length name
    → take (i + length b) (write_at i b name) ≡ take i name ++ b
unfolding write_at
take_written i b name h =
    ap (take (i + length b)) (sym (append_assoc (take i name) b (drop (i + length b) name)))
    ∙ take_exact (take i name ++ b) (drop (i + length b) name) (i + length b)
        (length-append (take i name) b ∙ rw (length-take i name h) refl)

length-write_at :
    (i : ℕ) (b name : Bytes) → i + length b ≤ length name → length (write_at i b name) ≡ length name
unfolding write_at
length-write_at i b name h = omega (
  arith,
  length-append (take i name) (b ++ drop (i + length b) name),
  length-append b (drop (i + length b) name),
  length-drop (i + length b) name,
  length-take i name (omega arith),
)

-- The path that a push makes of `old`.
abbrev pub joined : Bytes → Bytes → Bytes
joined old b = if length old == 0 then b else old ++ (b'/' ∷ b)

abbrev Fits : ℕ → Bytes → Bytes → Type 0
Fits i b name = (length name ≡ path_max) × (i + length b + 1 < path_max)

append_at-get :
    (i : ℕ) (b name : Bytes)
    → Fits i b name
    → apk_pathbuilder_get (append_at i b name) ≡ take i name ++ b
append_at-get i b name (full, fits) =
    take-write_at (i + length b) (i + length b) (0 ∷ []) (write_at i b name) (omega arith)
      (rw (length-write_at i b name (omega arith)) (omega arith))
    ∙ take_written i b name (omega arith)

append_at-IsPath : (i : ℕ) (b name : Bytes) → Fits i b name → IsPath (append_at i b name)
append_at-IsPath i b name (full, fits) =
    let inner : length (write_at i b name) ≡ length name = length-write_at i b name (omega arith) in
    (
      length-write_at (i + length b) (0 ∷ []) (write_at i b name) (omega arith) ∙ inner ∙ full,
      omega arith,
    )

-- The front that a later pop goes back to.
append_at-front :
    (pos i : ℕ) (b name : Bytes)
    → pos ≤ i
    → Fits i b name
    → take pos (append_at i b name).name ≡ take pos name
append_at-front pos i b name h (full, fits) =
    let inner : length (write_at i b name) ≡ length name = length-write_at i b name (omega arith) in
    take-write_at pos (i + length b) (0 ∷ []) (write_at i b name) (omega arith) (omega arith)
    ∙ take-write_at pos i b name h (omega arith)

end_at-get :
    (pos : ℕ) (name : Bytes)
    → pos ≤ length name
    → apk_pathbuilder_get (end_at pos name) ≡ take pos name
end_at-get pos name h = take-write_at pos pos (0 ∷ []) name (omega arith) h

-- A push that succeeds.
abbrev Pushed : PathBuilder → Bytes → PathBuilder → Type 0
Pushed pb b pb' =
    IsPath pb'
    × (apk_pathbuilder_get pb' ≡ joined (apk_pathbuilder_get pb) b)
    × (apk_pathbuilder_get (apk_pathbuilder_pop pb' (some pb.namelen)) ≡ apk_pathbuilder_get pb)

popped :
    (pb pb' : PathBuilder)
    → IsPath pb
    → IsPath pb'
    → take pb.namelen pb'.name ≡ take pb.namelen pb.name
    → apk_pathbuilder_get (apk_pathbuilder_pop pb' (some pb.namelen)) ≡ apk_pathbuilder_get pb
unfolding apk_pathbuilder_pop
popped pb pb' (full, small) (full', small') e = end_at-get pb.namelen pb'.name (omega arith) ∙ e

first-Pushed :
    (pb : PathBuilder) (b : Bytes)
    → IsPath pb
    → pb.namelen ≡ 0
    → length b + 2 < path_max
    → Pushed pb b (append_at 0 b pb.name)
first-Pushed pb b (full, small) z fits =
    let pb' = append_at 0 b pb.name in
    let ok : Fits 0 b pb.name = (full, omega arith) in
    let whole = append_at-IsPath 0 b pb.name ok in
    (
      whole,
      rw z (append_at-get 0 b pb.name ok),
      popped pb pb' (full, small) whole (append_at-front pb.namelen 0 b pb.name (omega arith) ok),
    )

next-Pushed :
    (pb : PathBuilder) (b : Bytes)
    → IsPath pb
    → (pb.namelen == 0) ≡ false
    → pb.namelen + length b + 2 < path_max
    → Pushed pb b (append_at (pb.namelen + 1) b (write_at pb.namelen (b'/' ∷ []) pb.name))
next-Pushed pb b (full, small) z fits =
    let n = pb.namelen in
    let name = write_at n (b'/' ∷ []) pb.name in
    let same_size : length name ≡ length pb.name =
      length-write_at n (b'/' ∷ []) pb.name (omega arith) in
    let pb' = append_at (n + 1) b name in
    let ok : Fits (n + 1) b name = (same_size ∙ full, omega arith) in
    let whole = append_at-IsPath (n + 1) b name ok in
    (
      whole,
      append_at-get (n + 1) b name ok
          ∙ ap (λ p. p ++ b) (take_written n (b'/' ∷ []) pb.name (omega arith))
          ∙ rw (length-take n pb.name (omega arith), z, append_assoc) refl,
      popped pb pb' (full, small) whole
          (append_at-front n (n + 1) b name (omega arith) ok
            ∙ take-write_at n n (b'/' ∷ []) pb.name (omega arith) (omega arith)),
    )

-- A push leaves the path where it and two more bytes would not fit in PATH_MAX. Else it appends the
-- element, with a separator behind a path that is not empty, the result is a path that fits, and a
-- pop to the position that the push returned gives the path from before.
pub apk_pathbuilder_pop-apk_pathbuilder_pushb :
    (pb : PathBuilder) (b : Bytes)
    → IsPath pb
    → ((path_max ≤ pb.namelen + length b + 2) × (apk_pathbuilder_pushb pb b ≡ (pb, none)))
      ⊎ ((pb' : PathBuilder) × (apk_pathbuilder_pushb pb b ≡ (pb', some pb.namelen))
          × IsPath pb'
          × (apk_pathbuilder_get pb' ≡ joined (apk_pathbuilder_get pb) b)
          × (apk_pathbuilder_get (apk_pathbuilder_pop pb' (some pb.namelen))
              ≡ apk_pathbuilder_get pb))
unfolding apk_pathbuilder_pushb
apk_pathbuilder_pop-apk_pathbuilder_pushb pb b ok =
    elim (Bool-cases (leb path_max (pb.namelen + length b + 2))) [
      | inl s ↦ inl (ground arith, rw s refl)
      | inr f ↦ elim (Bool-cases (pb.namelen == 0)) [
        | inl z ↦
            let (path, appended, back) = first-Pushed pb b ok (ground arith) (ground arith) in
            inr (append_at 0 b pb.name, rw (f, z) refl, path, appended, back)
        | inr n ↦
            let (path, appended, back) = next-Pushed pb b ok n (ground arith) in
            inr (
              append_at (pb.namelen + 1) b (write_at pb.namelen (b'/' ∷ []) pb.name),
              rw (f, n) refl,
              path,
              appended,
              back,
            )
      ]
    ]

pub length-get : (pb : PathBuilder) → IsPath pb → length (apk_pathbuilder_get pb) ≡ pb.namelen
length-get pb (full, small) = length-take pb.namelen pb.name (omega arith)

pub pop-IsPath :
    (pb : PathBuilder) (pos : ℕ)
    → IsPath pb
    → pos < path_max
    → IsPath (apk_pathbuilder_pop pb (some pos))
unfolding apk_pathbuilder_pop
pop-IsPath pb pos (full, small) h = (length-write_at pos (0 ∷ []) pb.name (omega arith) ∙ full, h)

-- A path that is set is the whole text.
pub setb-Pushed :
    (pb : PathBuilder) (b : Bytes)
    → length pb.name ≡ path_max
    → length b + 2 < path_max
    → IsPath (apk_pathbuilder_setb pb b).0 × (apk_pathbuilder_get (apk_pathbuilder_setb pb b).0 ≡ b)
unfolding apk_pathbuilder_setb
setb-Pushed pb b full fits =
    let empty : PathBuilder = record pb { namelen = 0 } in
    elim (apk_pathbuilder_pop-apk_pathbuilder_pushb empty b (full, omega arith)) [
      | inl (long, e) ↦ absurd (omega arith)
      | inr (pb', e, path, get, back) ↦ rw e (path, get)
    ]
