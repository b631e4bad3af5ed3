-- ===== src/Blob/Hash.antt =====
-- src/blob.c: the hash of a blob, murmur3 in uint32_t.
use apk_tools.Prelude.{
  ℕ, Bytes, [], ◌∷◌, ◌^◌, bit_or, ◌*◌, ◌+◌, ◌%◌, codes, ◌/◌, ◌≡◌, ◌-◌, refl, bit_xor, length,
}

abbrev w32 : ℕ
w32 = 2 ^ 32

pub rotl32 : ℕ → ℕ → ℕ
rotl32 x r = bit_or (x * 2 ^ r % w32) (x / 2 ^ (32 - r))

-- `k *= c1; k = rotl32 (k, 15); k *= c2`.
pub scramble : ℕ → ℕ
unfolding rotl32
scramble k = rotl32 (k * 0xcc9e2d51 % w32) 15 * 0x1b873593 % w32

-- A block of four bytes, read in the order of a little-endian machine.
pub mix_block : ℕ → ℕ → ℕ
unfolding scramble rotl32
mix_block h k = (rotl32 (bit_xor h (scramble k)) 13 * 5 + 0xe6546b64) % w32

-- The loop over the blocks, and the tail of up to three bytes.
pub mix : ℕ → Bytes → ℕ
unfolding mix_block scramble
mix h (k0 ∷ k1 ∷ k2 ∷ k3 ∷ key) =
    mix (mix_block h (k0 + k1 * 2 ^ 8 + k2 * 2 ^ 16 + k3 * 2 ^ 24)) key
mix h (k0 ∷ k1 ∷ k2 ∷ []) = bit_xor h (scramble (bit_xor (bit_xor (k2 * 2 ^ 16) (k1 * 2 ^ 8)) k0))
mix h (k0 ∷ k1 ∷ []) = bit_xor h (scramble (bit_xor (k1 * 2 ^ 8) k0))
mix h (k0 ∷ []) = bit_xor h (scramble k0)
mix h [] = h

pub finish : ℕ → ℕ
finish h =
    let h1 = bit_xor h (h / 2 ^ 16) * 0x85ebca6b % w32 in
    let h2 = bit_xor h1 (h1 / 2 ^ 13) * 0xc2b2ae35 % w32 in bit_xor h2 (h2 / 2 ^ 16)

-- The length is taken in uint32_t.
pub murmur3_32 : Bytes → ℕ → ℕ
unfolding mix finish
murmur3_32 key seed = finish (bit_xor (mix seed key) (length key % w32))

pub apk_blob_hash_seed : Bytes → ℕ → ℕ
apk_blob_hash_seed b seed = murmur3_32 b (seed % w32)

pub apk_blob_hash : Bytes → ℕ
unfolding apk_blob_hash_seed murmur3_32
apk_blob_hash b = apk_blob_hash_seed b 5381

known_hash : murmur3_32 (codes "test") 0 ≡ 0xba6bd213
unfolding murmur3_32
known_hash = refl
