-- ===== src/Blob/Hex/Accepts.antt =====
-- Which texts `apk_blob_pull_hexdump` takes, and where it reads behind their end.
use apk_tools.Ctype.Classes.{is_hexdigit}
use apk_tools.Blob.{Blob, blob, some, suc, take, null, [], false}
use apk_tools.Blob.Number.Digits.{dx-digit_value}
use apk_tools.Blob.Number.{dx}
use apk_tools.Prelude.Table.{all_below, all_below_sound}
use apk_tools.Prelude.{
  inl, inr, ℕ, ◌<◌, Bool, ◌≡◌, bit_or, ◌⊎◌, arith, true, ◌↔◌, ltb, ◌&&◌, refl, ◌==◌, Bytes, All,
  ◌*◌, length, ◌≢◌, ◌≤◌, none, ◌∷◌, some, take, zero, [], ◌^◌, ◌+◌, ◌%◌, false, Bool-cases, All-imp,
  ◌||◌, leb,
}
use apk_tools.Blob.Hex.{
  apk_blob_pull_hexdump, ℕ, dx, bit_or, ltb, Bytes, pull_hex, length, none, HexRead, Blob, blob,
  hex_done,
}

-- An `or` of decoded characters: below 64, or the error value.
abbrev IsCode : ℕ → Type 0
IsCode r = (r < 64) ⊎ (r ≡ 0xff)

dx-IsCode : (c : ℕ) → IsCode (dx c)
dx-IsCode c = ground (arith, dx-digit_value c)

abbrev code_or : ℕ → ℕ → Bool
code_or a b = ltb (bit_or a b) 64 && (bit_or a 0xff == 0xff) && (bit_or 0xff b == 0xff)

or_table : all_below 64 (λ a. all_below 64 (λ b. code_or a b)) ≡ true
unfolding all_below
or_table = refl

or_codes : (a b : ℕ) → a < 64 → b < 64 → code_or a b ≡ true
or_codes a b h k =
    let row = all_below_sound 64 (λ a. all_below 64 (λ b. code_or a b)) a or_table h in
    all_below_sound 64 (λ b. code_or a b) b row k

or-IsCode : (a b : ℕ) → IsCode a → IsCode b → IsCode (bit_or a b)
or-IsCode a b (inl h) (inl k) = ground (arith, or_codes a b h k)
or-IsCode a b (inl h) (inr k) = rw k (ground (arith, or_codes a 0 h (omega arith)))
or-IsCode a b (inr h) (inl k) = rw h (ground (arith, or_codes 0 b (omega arith) k))
or-IsCode a b (inr h) (inr k) = rw (h, k) (inr refl)

or_error : (a b : ℕ) → IsCode a → IsCode b → (bit_or a b ≡ 0xff) ↔ ((a ≡ 0xff) ⊎ (b ≡ 0xff))
or_error a b (inl h) (inl k) = ground (arith, or_codes a b h k)
or_error a b (inl h) (inr k) = rw k (ground (arith, or_codes a 0 h (omega arith)))
or_error a b (inr h) (inl k) = rw h (ground (arith, or_codes 0 b (omega arith) k))
or_error a b (inr h) (inr k) = rw (h, k) (ground arith)

abbrev Decodes : Bytes → Type 0
Decodes = All (λ c. dx c ≢ 0xff)

combine :
    {T : Type 0} (r x y r1 r2 g : ℕ)
    → (r1 ≡ 0xff) ↔ ((r ≡ 0xff) ⊎ (x ≡ 0xff))
    → (r2 ≡ 0xff) ↔ ((r1 ≡ 0xff) ⊎ (y ≡ 0xff))
    → (g ≢ 0xff) ↔ ((r2 ≢ 0xff) × T)
    → (g ≢ 0xff) ↔ ((r ≢ 0xff) × ((x ≢ 0xff) × ((y ≢ 0xff) × T)))
combine {T} r x y r1 r2 g f s i = (to, from)
  where
    to : g ≢ 0xff → (r ≢ 0xff) × ((x ≢ 0xff) × ((y ≢ 0xff) × T))
    to n =
        let (n2, t) = i.0 n in
        (
          λ e. n2 (s.1 (inl (f.1 (inl e)))),
          (λ e. n2 (s.1 (inl (f.1 (inr e)))), (λ e. n2 (s.1 (inr e)), t)),
        )

    from : (r ≢ 0xff) × ((x ≢ 0xff) × ((y ≢ 0xff) × T)) → g ≢ 0xff
    from (nr, (nx, (ny, t))) = i.1 (
      (λ e. elim (s.0 e) [
        | inl e1 ↦ elim (f.0 e1) [ inl a ↦ nr a | inr b ↦ nx b ]
        | inr e2 ↦ ny e2
      ]),
      t,
    )

abbrev twice : ℕ → ℕ
twice zero = zero
twice (suc n) = suc (suc (twice n))

twice_lem : (n : ℕ) → twice n ≡ n * 2
twice_lem zero = refl
twice_lem (suc n) = omega (arith, twice_lem n)

hex_result :
    (h : HexRead) {T : Type 0}
    → (h.r ≢ 0xff) ↔ T
    → (end : Blob) × (out : Bytes) × (hex_done (some h) ≡ some (end, out)) × ((end ≢ null) ↔ T)
hex_result h i = elim (Bool-cases (h.r == 0xff)) [
  | inl bad ↦ (null, h.out, rw bad, ((λ n. absurd (n refl)), (λ t. absurd (i.1 t (ground arith)))))
  | inr good ↦ (blob h.left, h.out, rw good, ((λ _. i.0 (ground arith)), (λ _ e. cc)))
]

pull_hex_lem :
    (n r : ℕ) (s : Bytes)
    → twice n ≤ length s
    → IsCode r
    → (h : HexRead) × (pull_hex n r s ≡ some h)
      × ((h.r ≢ 0xff) ↔ ((r ≢ 0xff) × Decodes (take (twice n) s)))
unfolding pull_hex
pull_hex_lem zero r s h k =
    (record { r = r; out = []; left = s }, refl, ((λ e. (e, tt)), (λ e. e.0)))
pull_hex_lem (suc n) r (x ∷ y ∷ s) h k =
    let r' = bit_or (bit_or r (dx x)) (dx y) in
    let first_or = or_error r (dx x) k (dx-IsCode x) in
    let second_or =
      or_error (bit_or r (dx x)) (dx y) (or-IsCode r (dx x) k (dx-IsCode x)) (dx-IsCode y) in
    let (g, e, i) =
      pull_hex_lem n r' s (omega arith)
        (or-IsCode _ _ (or-IsCode _ _ k (dx-IsCode x)) (dx-IsCode y)) in
    (
      record g { out = (dx x * 2 ^ 4 + dx y) % 256 ∷ g.out },
      rw e,
      combine r (dx x) (dx y) (bit_or r (dx x)) r' g.r first_or second_or i,
    )
pull_hex_lem (suc n) r _ h k = absurd (omega arith)

pull_hex-none : (n r : ℕ) (s : Bytes) → length s < n * 2 → pull_hex n r s ≡ none
unfolding pull_hex
pull_hex-none zero r s h = absurd (omega arith)
pull_hex-none (suc n) r (x ∷ y ∷ s) h =
    rw (pull_hex-none n (bit_or (bit_or r (dx x)) (dx y)) s (omega arith))
pull_hex-none (suc n) r _ h = refl

-- A hexadecimal digit of either case, or '+', which the table has for base64.
abbrev pub is_taken : ℕ → Bool
is_taken c = is_hexdigit c || (leb b'A' c && leb c b'F') || c == b'+'

dx_iff : (c : ℕ) → (dx c ≢ 0xff) ↔ (is_taken c ≡ true)
dx_iff c = (λ h. ground (arith, dx-digit_value c), λ h e. ground (arith, dx-digit_value c))

Decodes-iff : (b : Bytes) → Decodes b ↔ All (λ c. is_taken c ≡ true) b
Decodes-iff b = (
  All-imp (λ c. dx c ≢ 0xff) (λ c. is_taken c ≡ true) b (λ c. (dx_iff c).0),
  All-imp (λ c. is_taken c ≡ true) (λ c. dx c ≢ 0xff) b (λ c. (dx_iff c).1),
)

-- Where the text has two characters for each byte of `to`, it is accepted exactly when each of
-- these is a hexadecimal digit, of either case, or '+'.
pub apk_blob_pull_hexdump_iff :
    (b to : Bytes)
    → length to * 2 ≤ length b
    → (end : Blob) × (out : Bytes) × (apk_blob_pull_hexdump (blob b) to ≡ some (end, out))
      × ((end ≢ null) ↔ All (λ c. is_taken c ≡ true) (take (length to * 2) b))
unfolding apk_blob_pull_hexdump
apk_blob_pull_hexdump_iff b to h =
    let (g, e, i) =
      pull_hex_lem (length to) 0 b (omega (arith, twice_lem (length to))) (inl (omega arith)) in
    let enough : ltb (length b * 2) (length to) ≡ false = ground arith in
    let d = Decodes-iff (take (twice (length to)) b) in
    let whole : (g.r ≢ 0xff) ↔ All (λ c. is_taken c ≡ true) (take (twice (length to)) b) =
      ((λ n. d.0 (i.0 n).1), (λ t. i.1 ((λ z. absurd (omega arith)), d.1 t))) in
    rw (enough, e, ← twice_lem (length to)) (hex_result g whole)

-- The length check lets through texts that are too short for `to`, down to a quarter of what is
-- needed: on each of these the loop reads behind the end of the text.
pub apk_blob_pull_hexdump_overread :
    (b to : Bytes)
    → length to ≤ length b * 2
    → length b < length to * 2
    → apk_blob_pull_hexdump (blob b) to ≡ none
unfolding apk_blob_pull_hexdump
apk_blob_pull_hexdump_overread b to h k = ground (arith, pull_hex-none (length to) 0 b k)

pub or_below_64 : (a b : ℕ) → a < 64 → b < 64 → bit_or a b < 64
or_below_64 a b h k = ground (arith, or_codes a b h k)
