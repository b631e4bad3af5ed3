-- ===== src/Blob/Subst/Expands.antt =====
-- A format whose variables have values is expanded.
use apk_tools.Errors.{Result, ok}
use apk_tools.Blob.{Buffer, apk_blob_push_blob, ◌∷◌, length, room, suc, apk_blob_pushed, ltb}
use apk_tools.Blob.Search.Laws.{Without, split-absent, split-Without}
use apk_tools.Blob.Number.{apk_blob_pull_uint}
use apk_tools.Prelude.{
  take_whole, length-take, ◌^◌, ◌%◌, ℕ, Bytes, [], some, none, All, Option, ◌≡◌, List, ◌++◌, take,
  ◌∷◌, length, arith, ◌≤◌, codes, ◌+◌, ◌-◌, refl, ap, length-append, ◌∙◌, Bool-cases, zero, ltb,
  inl, ◌<◌, inr, append_assoc,
}
use apk_tools.Blob.Subst.{
  Option, apk_blob_pull_uint, take, Buffer, apk_blob_push_blob, subst_key, Result, key_limit, codes,
  ok, cut_back, subst_done, subst_loop, apk_blob_subst, subst_round, subst_variable,
}

-- A part of a format: a text, and the name of a variable with the digits of its limit, if it has
-- one.
pub record Part : Type 0 where
  pub text : Bytes
  pub key : Bytes
  pub limit : Option (Bytes × ℕ)

-- The digits are the limit, which is less than 2^63, and no '}'.
abbrev pub IsLimit : Option (Bytes × ℕ) → Type 0
IsLimit none = Unit
IsLimit (some (digits, n)) =
    Without b'}' digits × (apk_blob_pull_uint digits 10 ≡ (n, [])) × (n < 2 ^ 63)

-- The text has no '$', and the name neither '}' nor ':'.
abbrev pub IsPart : Part → Type 0
IsPart p = Without b'$' p.text × Without b'}' p.key × Without b':' p.key × IsLimit p.limit

abbrev name_text : Bytes → Option (Bytes × ℕ) → Bytes
name_text key none = key
name_text key (some (digits, n)) = key ++ (b':' ∷ digits)

-- The format of the parts and the text behind the last one.
abbrev pub format : List Part → Bytes → Bytes
format [] last = last
format (p ∷ ps) last =
    p.text ++ (codes "${" ++ (name_text p.key p.limit ++ (codes "}" ++ format ps last)))

abbrev shorten : Bytes → Option (Bytes × ℕ) → Bytes
shorten v none = v
shorten v (some (digits, n)) = take n v

Without-append : (c : ℕ) (a b : Bytes) → Without c a → Without c b → Without c (a ++ b)
Without-append c [] b h k = k
Without-append c (x ∷ a) b (hx, h) k = (hx, Without-append c a b h k)

Without-name :
    (key : Bytes) (limit : Option (Bytes × ℕ))
    → Without b'}' key
    → IsLimit limit
    → Without b'}' (name_text key limit)
Without-name key none h l = h
Without-name key (some (digits, n)) h l =
    Without-append b'}' key (b':' ∷ digits) h (omega arith, l.0)

take-append : (w v : Bytes) (n : ℕ) → take (length w + n) (w ++ v) ≡ w ++ take n v
take-append [] v n = let z : 0 + n ≡ n = omega arith in rw z refl
take-append (x ∷ w) v n =
    let z : suc (length w) + n ≡ suc (length w + n) = omega arith in
    rw z (ap (◌∷◌ x) (take-append w v n))

cut_back-room :
    (w v : Bytes) (n len : ℕ)
    → (left : ℕ) × (len ≤ left)
      × (length (w ++ take n v) + left ≡ length (w ++ v) + len)
      × (cut_back (length w + n) (room (w ++ v) len) ≡ room (w ++ take n v) left)
unfolding cut_back
cut_back-room w v n len =
    let m = length-append w v in
    elim (Bool-cases (ltb (length w + n) (length (w ++ v)))) [
      | inl s ↦
          let less : n ≤ length v = ground (arith, s, m) in
          (
            len + (length (w ++ v) - (length w + n)),
            omega arith,
            omega (arith, m, less, length-append w (take n v), length-take n v less),
            rw (s, take-append w v n) refl,
          )
      | inr f ↦
          let short : length v ≤ n = ground arith in
          (len, omega arith, rw (take_whole n v short) refl, rw (f, take_whole n v short) refl)
    ]

module _ (value : Bytes → Bytes) where
  -- Each variable is replaced by its value, cut to its limit.
  abbrev pub expanded : List Part → Bytes → Bytes
  expanded [] last = last
  expanded (p ∷ ps) last = p.text ++ (shorten (value p.key) p.limit ++ expanded ps last)

  -- The bytes that the buffer needs for the text so far and the uncut values.
  abbrev pub room_for : List Part → Bytes → ℕ
  room_for [] last = length last + 1
  room_for (p ∷ ps) last = length p.text + length (value p.key) + room_for ps last

  abbrev pub push_value : Bytes → Buffer → Result Buffer
  push_value key to = ok (apk_blob_push_blob to (value key))

  push-room :
      (w b : Bytes) (len : ℕ)
      → length b ≤ len
      → apk_blob_push_blob (room w len) b ≡ room (w ++ b) (len - length b)
  unfolding apk_blob_push_blob
  push-room w b len h = ground arith

  -- A value that fits is written and cut to its limit, with no less room than before.
  subst_key-room :
      (w key : Bytes) (len : ℕ) (limit : Option (Bytes × ℕ))
      → Without b':' key
      → IsLimit limit
      → length (value key) ≤ len
      → length w + len < 2 ^ 63
      → (left : ℕ) × (len - length (value key) ≤ left)
        × (length (w ++ shorten (value key) limit) + left < 2 ^ 63)
        × (subst_key push_value (room w len) (name_text key limit)
            ≡ ok (room (w ++ shorten (value key) limit) left))
  unfolding subst_key key_limit
  subst_key-room w key len none c l h below = (
    len - length (value key),
    omega arith,
    omega (arith, length-append w (value key)),
    rw (split-absent b':' [] key c, push-room w (value key) len h) refl,
  )
  subst_key-room w key len (some (digits, n)) c (_, read, small) h below =
      let (left, more, sum, e) = cut_back-room w (value key) n (len - length (value key)) in
      let inside : (length w + n) % 2 ^ 64 ≡ length w + n = omega (arith, small, below) in
      (
        left,
        more,
        omega (arith, sum, length-append w (value key)),
        rw (split-Without b':' [] key digits c, read, push-room w (value key) len h, inside)
            (ap ok e),
      )

  subst_done-room :
      (w last : Bytes) (len : ℕ)
      → length last + 1 ≤ len
      → subst_done (room w len) last ≡ ok (w ++ last)
  unfolding subst_done apk_blob_pushed apk_blob_push_blob
  subst_done-room w last len h = ground arith

  subst_variable-ok :
      (next : Bytes → Buffer → Option (Result Bytes)) (to to' : Buffer) (key fmt : Bytes)
      → subst_key push_value to key ≡ ok to'
      → subst_variable push_value next to (some (key, fmt)) ≡ next fmt to'
  unfolding subst_variable
  subst_variable-ok next to to' key fmt e = rw (e, subst_variable) refl

  subst_loop-format :
      (fuel : ℕ) (ps : List Part) (last w : Bytes) (len : ℕ)
      → All IsPart ps
      → Without b'$' last
      → length ps < fuel
      → room_for ps last ≤ len
      → length w + len < 2 ^ 63
      → subst_loop push_value fuel (format ps last) (room w len) ≡ some (ok (w ++ expanded ps last))
  unfolding subst_loop subst_round apk_blob_pushed
  subst_loop-format zero ps last w len h n f k below = absurd (omega arith)
  subst_loop-format (suc fuel) [] last w len h n f k below =
      rw (split-absent b'$' (codes "{") last n) (ap some (subst_done-room w last len k))
  subst_loop-format (suc fuel) (p ∷ ps) last w len ((t, kb, kc, l), h) n f k below =
      let w' = w ++ p.text in
      let rest = codes "}" ++ format ps last in
      let joined = length-append w p.text in
      let (left, more, fits, e) =
        subst_key-room w' p.key (len - length p.text) p.limit kc l (omega arith)
          (omega (arith, joined)) in
      rw
        (
          split-Without b'$' (codes "{") p.text (name_text p.key p.limit ++ rest) t,
          push-room w p.text len (omega arith),
          split-Without b'}' [] (name_text p.key p.limit) (format ps last)
              (Without-name p.key p.limit kb l),
        )
        (subst_variable-ok (λ f t. subst_loop push_value fuel f t) (room w' (len - length p.text)) _
            (name_text p.key p.limit) (format ps last) e
          ∙ subst_loop-format fuel ps last (w' ++ shorten (value p.key) p.limit) left h n
              (omega arith) (omega arith) fits
          ∙ ap (λ t. some (ok t)) (append_assoc w' _ _ ∙ append_assoc w p.text _))

  length-format : (ps : List Part) (last : Bytes) → length ps ≤ length (format ps last)
  length-format [] last = omega arith
  length-format (p ∷ ps) last = omega (
    arith,
    length-append p.text (codes "${" ++ (name_text p.key p.limit ++ (codes "}" ++ format ps last))),
    length-append (name_text p.key p.limit) (codes "}" ++ format ps last),
    length-format ps last,
  )

  -- A format of texts and variables is expanded to the texts and the values, each value cut to its
  -- variable's limit, where the buffer has room for the uncut values and the 0 byte at the end. The
  -- texts have no '$', and the names neither '}' nor ':'. This is for limits below 2^63 and a buffer
  -- of less than 2^63 bytes.
  pub apk_blob_subst-expanded :
      (sz : ℕ) (ps : List Part) (last : Bytes)
      → All IsPart ps
      → Without b'$' last
      → room_for ps last ≤ sz
      → sz < 2 ^ 63
      → apk_blob_subst push_value sz (format ps last) ≡ some (ok (expanded ps last))
  unfolding apk_blob_subst
  apk_blob_subst-expanded sz ps last h n k small =
      subst_loop-format _ ps last [] sz h n (omega (arith, length-format ps last)) k
        (omega (arith, small))

-- A text with no '$' that fits stands for itself.
pub apk_blob_subst-plain :
    (res : Bytes → Buffer → Result Buffer) (sz : ℕ) (b : Bytes)
    → Without b'$' b
    → length b + 1 ≤ sz
    → apk_blob_subst res sz b ≡ some (ok b)
unfolding apk_blob_subst subst_loop subst_round
apk_blob_subst-plain res sz b n h =
    let start : length b + 1 ≡ suc (length b) = omega arith in
    rw (start, split-absent b'$' (codes "{") b n) (ap some (subst_done-room (λ k. k) [] b sz h))
