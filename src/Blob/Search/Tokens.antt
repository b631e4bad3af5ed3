-- ===== src/Blob/Search/Tokens.antt =====
-- The words of a text that was joined from words.
use apk_tools.Blob.Search.Laws.{Without, split-Without, split-absent}
use apk_tools.Blob.{false, some, none, length, null, blob, Blob, bytes}
use apk_tools.Prelude.{
  ℕ, suc, Bytes, List, [], ◌∷◌, All, ◌≢◌, replicate, ◌++◌, codes, ◌≡◌, ◌==◌, false, some, none,
  arith, ap, length, refl, ◌<◌, ◌≤◌, ◌+◌, length-append, zero, append-nil, sym, ◌∙◌,
}
use apk_tools.Blob.Search.{
  apk_blob_split, codes, apk_blob_tokenize, foreach_token, apk_blob_foreach_word, token_of,
}

-- A word is not empty and has no space.
abbrev pub NoSpace : Bytes → Type 0
NoSpace w = Without b' ' w

abbrev pub IsWord : Bytes → Type 0
IsWord w = (w ≢ []) × NoSpace w

-- Any number of spaces, then each word with any number of spaces behind it, at least one between
-- two words.
abbrev pub spaces : ℕ → Bytes
spaces n = replicate n b' '

abbrev pub spaced : List (Bytes × ℕ) → Bytes
spaced [] = []
spaced ((w, n) ∷ []) = w ++ spaces n
spaced ((w, n) ∷ v ∷ ws) = w ++ (spaces (suc n) ++ spaced (v ∷ ws))

abbrev pub words : List (Bytes × ℕ) → List Bytes
words [] = []
words ((w, n) ∷ ws) = w ∷ words ws

split-word : (w b : Bytes) → NoSpace w → apk_blob_split (w ++ b' ' ∷ b) (codes " ") ≡ some (w, b)
split-word w b h = split-Without b' ' [] w b h

split-none : (w : Bytes) → NoSpace w → apk_blob_split w (codes " ") ≡ none
split-none w h = split-absent b' ' [] w h

abbrev pub AreWords : List (Bytes × ℕ) → Type 0
AreWords ws = All (λ p. IsWord p.0) ws

nonempty : (w : Bytes) → IsWord w → (length w == 0) ≡ false
nonempty [] (n, h) = absurd (n refl)
nonempty (c ∷ w) h = ground arith

tokenize-word :
    (k fuel : ℕ) (w b : Bytes)
    → IsWord w
    → k < fuel
    → apk_blob_tokenize fuel (blob (spaces k ++ (w ++ b' ' ∷ b))) (codes " ") ≡ some (w, blob b)
unfolding apk_blob_tokenize token_of
tokenize-word k zero w b h f = absurd (omega arith)
tokenize-word zero (suc fuel) w b h f = rw (split-word w b h.1, nonempty w h) refl
tokenize-word (suc k) (suc fuel) w b h f =
    rw (split-word [] (spaces k ++ (w ++ b' ' ∷ b)) tt) (tokenize-word k fuel w b h (omega arith))

tokenize-last :
    (k fuel : ℕ) (w : Bytes)
    → IsWord w
    → k < fuel
    → apk_blob_tokenize fuel (blob (spaces k ++ w)) (codes " ") ≡ some (w, null)
unfolding apk_blob_tokenize token_of
tokenize-last k zero w h f = absurd (omega arith)
tokenize-last zero (suc fuel) w h f = rw (split-none w h.1, nonempty w h) refl
tokenize-last (suc k) (suc fuel) w h f =
    rw (split-word [] (spaces k ++ w) tt) (tokenize-last k fuel w h (omega arith))

tokenize-null : (fuel : ℕ) → apk_blob_tokenize fuel null (codes " ") ≡ none
unfolding apk_blob_tokenize
tokenize-null zero = refl
tokenize-null (suc fuel) = refl

tokenize-spaces : (k fuel : ℕ) → apk_blob_tokenize fuel (blob (spaces k)) (codes " ") ≡ none
unfolding apk_blob_tokenize token_of
tokenize-spaces k zero = refl
tokenize-spaces zero (suc fuel) = rw (split-none [] tt) (tokenize-null fuel)
tokenize-spaces (suc k) (suc fuel) = rw (split-word [] (spaces k) tt) (tokenize-spaces k fuel)

length-spaces : (k : ℕ) (b : Bytes) → k + length b ≡ length (spaces k ++ b)
length-spaces zero b = omega arith
length-spaces (suc k) b = omega (arith, length-spaces k b)

enough : (k : ℕ) (b : Bytes) → k < length (spaces k ++ b) + 2
enough k b = omega (arith, length-spaces k b)

foreach-done :
    (fuel : ℕ) (b : Blob) (token : Bytes)
    → apk_blob_tokenize (length (bytes b) + 2) b token ≡ none
    → foreach_token (suc fuel) b token ≡ []
unfolding foreach_token
foreach-done fuel b token e = rw (e, foreach_token) refl

foreach-step :
    (fuel : ℕ) (b : Blob) (token iter : Bytes) (left : Blob)
    → apk_blob_tokenize (length (bytes b) + 2) b token ≡ some (iter, left)
    → foreach_token (suc fuel) b token ≡ iter ∷ foreach_token fuel left token
unfolding foreach_token
foreach-step fuel b token iter left e = rw (e, foreach_token) refl

foreach-words :
    (k fuel : ℕ) (ws : List (Bytes × ℕ))
    → AreWords ws
    → length ws < fuel
    → foreach_token fuel (blob (spaces k ++ spaced ws)) (codes " ") ≡ words ws
foreach-words k zero ws h f = absurd (omega arith)
foreach-words k (suc fuel) [] h f =
    rw (append-nil (spaces k)) (foreach-done fuel (blob (spaces k)) _ (tokenize-spaces k _))
foreach-words k (suc zero) ((w, n) ∷ ws) h f = absurd (omega arith)
foreach-words k (suc (suc fuel)) ((w, zero) ∷ []) (h, t) f = rw (append-nil w) (
    foreach-step (suc fuel) (blob (spaces k ++ w)) _ w null (tokenize-last k _ w h (enough k w))
    ∙ ap (◌∷◌ w) (foreach-done fuel null _ (tokenize-null 2)))
foreach-words k (suc (suc fuel)) ((w, suc n) ∷ []) (h, t) f =
    foreach-step (suc fuel) (blob (spaces k ++ (w ++ b' ' ∷ spaces n))) _ w (blob (spaces n))
      (tokenize-word k _ w (spaces n) h (enough k _))
    ∙ ap (λ x. w ∷ foreach_token (suc fuel) (blob x) (codes " ")) (sym (append-nil (spaces n)))
    ∙ ap (◌∷◌ w) (foreach-words n (suc fuel) [] tt (omega arith))
foreach-words k (suc (suc fuel)) ((w, n) ∷ v ∷ ws) (h, t) f =
    let rest = spaces n ++ spaced (v ∷ ws) in
    foreach-step (suc fuel) (blob (spaces k ++ (w ++ b' ' ∷ rest))) _ w (blob rest)
      (tokenize-word k _ w rest h (enough k _))
    ∙ ap (◌∷◌ w) (foreach-words n (suc fuel) (v ∷ ws) t (omega arith))

word-pos : (w : Bytes) → IsWord w → 0 < length w
word-pos [] (n, h) = absurd (n refl)
word-pos (c ∷ w) h = omega arith

length-spaced : (ws : List (Bytes × ℕ)) → AreWords ws → length ws ≤ length (spaced ws)
length-spaced [] h = omega arith
length-spaced ((w, n) ∷ []) (h, t) = omega (arith, length-append w (spaces n), word-pos w h)
length-spaced ((w, n) ∷ v ∷ ws) (h, t) = omega (
  arith,
  length-append w (spaces (suc n) ++ spaced (v ∷ ws)),
  length-spaces (suc n) (spaced (v ∷ ws)),
  word-pos w h,
  length-spaced (v ∷ ws) t,
)

-- `apk_blob_foreach_word` sees each word once and in order, whatever spaces stand in front of the
-- words, between them (one at least) and behind them. A word is not empty and has no space.
pub apk_blob_foreach_word_lem :
    (k : ℕ) (ws : List (Bytes × ℕ))
    → AreWords ws
    → apk_blob_foreach_word (spaces k ++ spaced ws) ≡ words ws
unfolding apk_blob_foreach_word
apk_blob_foreach_word_lem k ws h =
    foreach-words k _ ws h (omega (arith, length-spaces k (spaced ws), length-spaced ws h))
