-- ===== src/BlockBased/Filter.antt =====
-- The filter of block_based_table_format.cpp: `hashKeyWithSeed` and `addKeyToFilter`.
pub mod Bits
use tiny_kv.Common.{ℕ, zero, suc, ◌+◌, ◌*◌, ◌/◌, ◌%◌, [], ◌∷◌, Bytes, length, ◌≡◌, ap, ◌∙◌, refl}
use Prim.Native.Nat.{bit_xor, bit_or}
use tiny_kv.Common.Words.{u64_mod}

abbrev pub filter_num_bits : ℕ
filter_num_bits = 8192

abbrev pub filter_num_hashes : ℕ
filter_num_hashes = 7

-- the loop over the key's bytes
unfoldable pub hash_loop : ℕ → Bytes → ℕ
hash_loop hash [] = hash
hash_loop hash (byte ∷ key) = hash_loop (bit_xor hash byte * 1099511628211 % u64_mod) key

unfoldable pub hash_key_with_seed : Bytes → ℕ → ℕ
unfolding hash_loop
hash_key_with_seed key seed = hash_loop (bit_xor 1469598103934665603 seed) key

unfoldable pub bit_index : Bytes → ℕ → ℕ
unfolding hash_key_with_seed
bit_index key seed = hash_key_with_seed key seed % filter_num_bits

-- `bitset[i] |= mask`
unfoldable pub set_mask : Bytes → ℕ → ℕ → Bytes
set_mask [] i mask = []
set_mask (b ∷ bs) zero mask = bit_or b mask ∷ bs
set_mask (b ∷ bs) (suc i) mask = b ∷ set_mask bs i mask

-- `1u << bit`, for the bits of a byte
unfoldable pub bit_mask : ℕ → ℕ
bit_mask zero = 1
bit_mask (suc n) = 2 * bit_mask n

unfoldable pub set_bit : Bytes → ℕ → Bytes
unfolding set_mask bit_mask
set_bit bitset bit = set_mask bitset (bit / 8) (bit_mask (bit % 8))

-- the loop over the seeds, from `seed` on, `rounds` of them
unfoldable pub add_seeds : ℕ → ℕ → Bytes → Bytes → Bytes
unfolding set_bit bit_index
add_seeds zero seed bitset key = bitset
add_seeds (suc rounds) seed bitset key =
    add_seeds rounds (seed + 1) (set_bit bitset (bit_index key seed)) key

unfoldable pub add_key_to_filter : Bytes → Bytes → Bytes
unfolding add_seeds
add_key_to_filter bitset key = add_seeds filter_num_hashes 0 bitset key

-- `filterBitset((FILTER_NUM_BITS + 7) / 8, 0)`
unfoldable pub zeros : ℕ → Bytes
zeros zero = []
zeros (suc n) = 0 ∷ zeros n

length-set_mask : (bs : Bytes) (i mask : ℕ) → length (set_mask bs i mask) ≡ length bs
unfolding set_mask
length-set_mask [] i mask = refl
length-set_mask (b ∷ bs) zero mask = refl
length-set_mask (b ∷ bs) (suc i) mask = ap suc (length-set_mask bs i mask)

pub length-set_bit : (bs : Bytes) (bit : ℕ) → length (set_bit bs bit) ≡ length bs
unfolding set_bit
length-set_bit bs bit = length-set_mask bs (bit / 8) (bit_mask (bit % 8))

length-add_seeds :
    (rounds seed : ℕ) (bs key : Bytes) → length (add_seeds rounds seed bs key) ≡ length bs
unfolding add_seeds
length-add_seeds zero seed bs key = refl
length-add_seeds (suc rounds) seed bs key =
    length-add_seeds rounds (seed + 1) (set_bit bs (bit_index key seed)) key
    ∙ length-set_bit bs (bit_index key seed)

pub length-add_key_to_filter : (bs key : Bytes) → length (add_key_to_filter bs key) ≡ length bs
unfolding add_key_to_filter
length-add_key_to_filter bs key = length-add_seeds filter_num_hashes 0 bs key

pub length-zeros : (n : ℕ) → length (zeros n) ≡ n
unfolding zeros
length-zeros zero = refl
length-zeros (suc n) = ap suc (length-zeros n)
