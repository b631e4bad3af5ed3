-- ===== src/Adb/Words.antt =====
-- src/adb.h: little-endian numbers in memory, and the tagged values of ADB_VAL.
use apk_tools.Prelude.{
  zero, suc, refl, ℕ, Bytes, [], ◌∷◌, length, ◌≡◌, ◌<◌, bit_or, ◌%◌, ◌+◌, ◌^◌, ◌*◌, arith, ◌/◌, ◌≤◌,
  ap,
}
use native.Mathlib.Nat.{pow-suc, le_refl}
use Prim.Native.Nat.{max, digits, bit_or-bitwise}

-- `htole32`, `htole64` and the like: a number in `n` bytes.
unfoldable pub le_bytes : ℕ → ℕ → Bytes
le_bytes zero v = []
le_bytes (suc n) v = v % 256 ∷ le_bytes n (v / 256)

unfoldable pub le_value : Bytes → ℕ
le_value [] = 0
le_value (b ∷ bs) = b + 256 * le_value bs

pub length-le_bytes : (n v : ℕ) → length (le_bytes n v) ≡ n
unfolding le_bytes
length-le_bytes zero v = refl
length-le_bytes (suc n) v = ap suc (length-le_bytes n (v / 256))

pub le_value-le_bytes : (n v : ℕ) → v < 256 ^ n → le_value (le_bytes n v) ≡ v
unfolding le_bytes le_value
le_value-le_bytes zero v h = omega arith
le_value-le_bytes (suc n) v h =
    omega (arith, le_value-le_bytes n (v / 256) (omega (arith, pow-suc 256 n)))

abbrev pub adb_null : ℕ
adb_null = 0

-- `ADB_VAL(type, val)` in uint32_t.
unfoldable pub adb_val : ℕ → ℕ → ℕ
adb_val type val = bit_or type val % 2 ^ 32

-- `ADB_VAL_TYPE (v)`: the upper four bits; `ADB_VAL_VALUE (v)`: the lower 28.
unfoldable pub adb_val_type : ℕ → ℕ
adb_val_type v = v % 2 ^ 32 / 2 ^ 28 * 2 ^ 28

unfoldable pub adb_val_value : ℕ → ℕ
adb_val_value v = v % 2 ^ 28

or_high : (n k q r a : ℕ) → a ≡ q * 2 ^ k → a ≤ n → r < 2 ^ k → digits (λ b. b) max n a r ≡ a + r
or_high zero k q r a e le lt = omega arith
or_high (suc n) k q r zero e le lt = omega arith
or_high (suc n) zero q r (suc a) e le lt =
    omega
      (arith, or_high n 0 (suc a / 2) (r / 2) (suc a / 2) (omega arith) (omega arith) (omega arith))
or_high (suc n) (suc k) q r (suc a) e le lt =
    let double : q * 2 ^ suc k ≡ 2 * (q * 2 ^ k) =
      omega (arith, ap (λ (t : ℕ). q * t) (pow-suc 2 k)) in
    omega (
      arith,
      or_high n k q (r / 2) (suc a / 2) (omega arith) (omega arith) (omega (arith, pow-suc 2 k)),
    )

-- A type of ADB_VAL, and a value that fits its 28 bits.
pub adb_val_sum : (t val : ℕ) → t < 16 → val < 2 ^ 28 → adb_val (t * 2 ^ 28) val ≡ t * 2 ^ 28 + val
unfolding adb_val
adb_val_sum t val h k =
    let or : bit_or (t * 2 ^ 28) val ≡ t * 2 ^ 28 + val =
      simp bit_or-bitwise (or_high (t * 2 ^ 28) 28 t val (t * 2 ^ 28) refl (le_refl _) k) in
    omega arith
