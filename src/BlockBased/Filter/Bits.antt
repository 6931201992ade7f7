-- ===== src/BlockBased/Filter/Bits.antt =====
-- The bits of a block-based table's filter: what `addKeyToFilter` sets, and that it clears none.
use tiny_kv.Common.{
  ℕ, zero, suc, ◌+◌, ◌≤◌, ◌/◌, ◌%◌, ◌<◌, ◌≡◌, ◌∙◌, refl, Bool, true, false, not, ◌&&◌, ◌||◌, ◌==◌,
  none, some, List, [], ◌∷◌, ◌++◌, arith, ltb, get_elem?, Bytes, length, All, inl, inr, All-append,
  Bool-cases,
}
use Prim.Native.Nat.{bit_or}
use tiny_kv.BlockBased.Filter.{
  bit_mask, set_mask, set_bit, bit_index, add_seeds, add_key_to_filter, filter_num_hashes,
  filter_num_bits, length-add_key_to_filter, zeros, length-set_bit, length-zeros,
}
use tiny_kv.Types.{Entry}

-- bit `k` of a byte, the lowest first
unfoldable pub byte_has : ℕ → ℕ → Bool
unfolding bit_mask
byte_has b k = b / bit_mask k % 2 == 1

-- bit `k` of byte `i`
unfoldable pub has_at : Bytes → ℕ → ℕ → Bool
unfolding byte_has
has_at bs i k = elim (get_elem? bs i) [ none ↦ false | some b ↦ byte_has b k ]

-- a bit of the filter, eight to a byte
unfoldable pub has_bit : Bytes → ℕ → Bool
unfolding has_at
has_bit bs bit = has_at bs (bit / 8) (bit % 8)

-- `test` holds of `count` numbers, the first of them `from`
holds_on : (ℕ → Bool) → ℕ → ℕ → Bool
holds_on test from zero = true
holds_on test from (suc count) = test from && holds_on test (from + 1) count

holds_on_lem :
    (test : ℕ → Bool) (n from count : ℕ)
    → from ≤ n
    → n < from + count
    → holds_on test from count ≡ true
    → test n ≡ true
unfolding holds_on
holds_on_lem test n from zero low high h = absurd (omega arith)
holds_on_lem test n from (suc count) low high h = elim (Bool-cases (n == from)) [
  | inl first ↦ (let same : n ≡ from = ground (arith, first) in rw same (ground (arith, h)))
  | inr behind ↦
      holds_on_lem test n (from + 1) count (ground (arith, behind)) (omega arith)
        (ground (arith, h))
]

abbrev mask_ok : ℕ → ℕ → ℕ → Bool
mask_ok b j k =
    ltb (bit_or b (bit_mask j)) 256
    && (byte_has (bit_or b (bit_mask j)) j
        && (not (byte_has b k) || byte_has (bit_or b (bit_mask j)) k))

-- the bits of one byte under one mask, and all masks of one byte
abbrev bits_ok : ℕ → ℕ → Bool
bits_ok b j = holds_on (mask_ok b j) 0 8

abbrev masks_ok : ℕ → Bool
masks_ok b = holds_on (bits_ok b) 0 8

-- Every mask on every byte, by evaluation.
bytes_ok : holds_on masks_ok 0 256 ≡ true
unfolding holds_on byte_has bit_mask
bytes_ok = refl

mask_lem : (b j k : ℕ) → b < 256 → j < 8 → k < 8 → mask_ok b j k ≡ true
mask_lem b j k hb hj hk =
    let masks : masks_ok b ≡ true = holds_on_lem masks_ok b 0 256 (omega arith) hb bytes_ok in
    let bits : bits_ok b j ≡ true = holds_on_lem (bits_ok b) j 0 8 (omega arith) hj masks in
    holds_on_lem (mask_ok b j) k 0 8 (omega arith) hk bits

abbrev pub AllBytes : Bytes → Type 0
AllBytes bs = All (λ b. b < 256) bs

set_mask_bytes :
    (bs : Bytes) (i j : ℕ) → j < 8 → AllBytes bs → AllBytes (set_mask bs i (bit_mask j))
unfolding set_mask
set_mask_bytes [] i j hj h = tt
set_mask_bytes (b ∷ bs) zero j hj h = (ground (arith, mask_lem b j 0 h.0 hj (omega arith)), h.1)
set_mask_bytes (b ∷ bs) (suc i) j hj h = (h.0, set_mask_bytes bs i j hj h.1)

set_mask_sets :
    (bs : Bytes) (i j : ℕ)
    → j < 8
    → AllBytes bs
    → i < length bs
    → has_at (set_mask bs i (bit_mask j)) i j ≡ true
unfolding set_mask has_at
set_mask_sets [] i j hj h lt = absurd (omega arith)
set_mask_sets (b ∷ bs) zero j hj h lt = ground (arith, mask_lem b j j h.0 hj hj)
set_mask_sets (b ∷ bs) (suc i) j hj h lt = set_mask_sets bs i j hj h.1 (omega arith)

set_mask_keeps :
    (bs : Bytes) (i j n k : ℕ)
    → j < 8
    → k < 8
    → AllBytes bs
    → has_at bs n k ≡ true
    → has_at (set_mask bs i (bit_mask j)) n k ≡ true
unfolding set_mask has_at
set_mask_keeps [] i j n k hj hk h was = was
set_mask_keeps (b ∷ bs) zero j zero k hj hk h was = ground (arith, mask_lem b j k h.0 hj hk, was)
set_mask_keeps (b ∷ bs) zero j (suc n) k hj hk h was = was
set_mask_keeps (b ∷ bs) (suc i) j zero k hj hk h was = was
set_mask_keeps (b ∷ bs) (suc i) j (suc n) k hj hk h was = set_mask_keeps bs i j n k hj hk h.1 was

set_bit_bytes : (bs : Bytes) (bit : ℕ) → AllBytes bs → AllBytes (set_bit bs bit)
unfolding set_bit
set_bit_bytes bs bit h = set_mask_bytes bs (bit / 8) (bit % 8) (omega arith) h

set_bit_keeps :
    (bs : Bytes) (bit n : ℕ) → AllBytes bs → has_bit bs n ≡ true → has_bit (set_bit bs bit) n ≡ true
unfolding set_bit has_bit
set_bit_keeps bs bit n h was =
    set_mask_keeps bs (bit / 8) (bit % 8) (n / 8) (n % 8) (omega arith) (omega arith) h was

set_bit_sets :
    (bs : Bytes) (bit : ℕ) → AllBytes bs → bit / 8 < length bs → has_bit (set_bit bs bit) bit ≡ true
unfolding set_bit has_bit
set_bit_sets bs bit h lt = set_mask_sets bs (bit / 8) (bit % 8) (omega arith) h lt

add_seeds_bytes :
    (rounds seed : ℕ) (bs key : Bytes) → AllBytes bs → AllBytes (add_seeds rounds seed bs key)
unfolding add_seeds
add_seeds_bytes zero seed bs key h = h
add_seeds_bytes (suc rounds) seed bs key h =
    add_seeds_bytes rounds (seed + 1) (set_bit bs (bit_index key seed)) key
      (set_bit_bytes bs (bit_index key seed) h)

add_seeds_keeps :
    (rounds seed : ℕ) (bs key : Bytes) (n : ℕ)
    → AllBytes bs
    → has_bit bs n ≡ true
    → has_bit (add_seeds rounds seed bs key) n ≡ true
unfolding add_seeds
add_seeds_keeps zero seed bs key n h was = was
add_seeds_keeps (suc rounds) seed bs key n h was =
    add_seeds_keeps rounds (seed + 1) (set_bit bs (bit_index key seed)) key n
      (set_bit_bytes bs (bit_index key seed) h) (set_bit_keeps bs (bit_index key seed) n h was)

bit_index_lt : (key : Bytes) (seed : ℕ) → bit_index key seed < filter_num_bits
unfolding bit_index
bit_index_lt key seed = omega arith

add_seeds_sets :
    (rounds seed x : ℕ) (bs key : Bytes)
    → AllBytes bs
    → length bs ≡ 1024
    → seed ≤ x
    → x < seed + rounds
    → has_bit (add_seeds rounds seed bs key) (bit_index key x) ≡ true
unfolding add_seeds
add_seeds_sets zero seed x bs key h l low high = absurd (omega arith)
add_seeds_sets (suc rounds) seed x bs key h l low high =
    let next : Bytes = set_bit bs (bit_index key seed) in
    let next_bytes : AllBytes next = set_bit_bytes bs (bit_index key seed) h in
    elim (Bool-cases (x == seed)) [
      | inl now ↦
          let same : x ≡ seed = ground (arith, now) in
          add_seeds_keeps rounds (seed + 1) next key (bit_index key x) next_bytes (
            rw same
              (set_bit_sets bs (bit_index key seed) h (omega (arith, bit_index_lt key seed, l))))
      | inr later ↦
          add_seeds_sets rounds (seed + 1) x next key next_bytes
            (length-set_bit bs (bit_index key seed) ∙ l) (ground (arith, later)) (omega arith)
    ]

-- every bit of the key is set
abbrev pub Covers : Bytes → Bytes → Type 0
Covers bs key = (seed : ℕ) → seed < filter_num_hashes → has_bit bs (bit_index key seed) ≡ true

-- the filter covers the keys of these entries
pub record FilterOf (bs : Bytes) (es : List Entry) : Type 0 where
  pub bytes : AllBytes bs
  pub size : length bs ≡ 1024
  pub covers : All (λ e. Covers bs e.key) es

add_key_to_filter-Covers :
    (bs key : Bytes) → AllBytes bs → length bs ≡ 1024 → Covers (add_key_to_filter bs key) key
unfolding add_key_to_filter
add_key_to_filter-Covers bs key h l seed lt =
    add_seeds_sets filter_num_hashes 0 seed bs key h l (omega arith) (omega arith)

Covers-kept :
    (bs key : Bytes) (es : List Entry)
    → AllBytes bs
    → All (λ e. Covers bs e.key) es
    → All (λ e. Covers (add_key_to_filter bs key) e.key) es
unfolding add_key_to_filter
Covers-kept bs key [] h cs = tt
Covers-kept bs key (e ∷ es) h cs = (
  λ seed lt. add_seeds_keeps filter_num_hashes 0 bs key (bit_index e.key seed) h (cs.0 seed lt),
  Covers-kept bs key es h cs.1,
)

-- An added key is covered, and so is every key that was.
pub add_key_to_filter-FilterOf :
    (bs : Bytes) (es : List Entry) (e : Entry)
    → FilterOf bs es
    → FilterOf (add_key_to_filter bs e.key) (es ++ e ∷ [])
add_key_to_filter-FilterOf bs es e h = record {
  bytes = unfold add_key_to_filter in add_seeds_bytes filter_num_hashes 0 bs e.key h.bytes;
  size = length-add_key_to_filter bs e.key ∙ h.size;
  covers =
      All-append (λ (f : Entry). Covers (add_key_to_filter bs e.key) f.key) es (e ∷ [])
        (Covers-kept bs e.key es h.bytes h.covers)
        (add_key_to_filter-Covers bs e.key h.bytes h.size, tt);
}

zeros_bytes : (n : ℕ) → AllBytes (zeros n)
unfolding zeros
zeros_bytes zero = tt
zeros_bytes (suc n) = (omega arith, zeros_bytes n)

pub zeros-FilterOf : FilterOf (zeros 1024) []
zeros-FilterOf = record { bytes = zeros_bytes 1024; size = length-zeros 1024; covers = tt }
