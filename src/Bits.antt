-- ===== src/Bits.antt =====
-- include/bits.hpp and include/sketch_fast.hpp: the word-level primitives.
pub mod TopBit
pub mod HighDiff
use Prim.Native.Nat.{bit_and, bit_or, bit_xor}
use fusion_tree_benchmark.Prelude.{
  ℕ, zero, suc, ◌+◌, ◌-◌, ◌*◌, ◌/◌, ◌%◌, ◌^◌, Bool, List, [], ◌∷◌, length, ◌==◌, if◌then◌else◌,
}
use fusion_tree_benchmark.Word.{word, shr, shl64}
use fusion_tree_benchmark.Word.Masks.{count_bits}

-- `__builtin_clzll`: the zeros above the highest 1 bit, looking down from bit `k - 1`.
unfoldable pub clz_from : ℕ → ℕ → ℕ
clz_from zero x = 0
clz_from (suc k) x = if x / 2 ^ k % 2 == 1 then 0 else suc (clz_from k x)

unfoldable pub clz64 : ℕ → ℕ
clz64 x = clz_from 64 x

-- The assertion `x != 0` is a hypothesis of the theorems.
unfoldable pub msb : ℕ → ℕ
msb x = 63 - clz64 x

unfoldable pub highest_diff_bit : ℕ → ℕ → ℕ
highest_diff_bit a b = msb (bit_xor a b)

unfoldable pub popcount : ℕ → ℕ
popcount x = count_bits 64 x

-- The loop over the positions, from index `i` on with the sketch so far.
unfoldable pub extract_from : ℕ → List ℕ → ℕ → ℕ → ℕ
extract_from x [] i s = s
extract_from x (p ∷ positions) i s =
    extract_from x positions (i + 1) (bit_or s (shl64 (bit_and (shr x p) 1) i))

unfoldable pub extract_bits_naive : ℕ → List ℕ → ℕ
unfolding extract_from
extract_bits_naive x positions = extract_from x positions 0 0

unfoldable pub mask_from : List ℕ → ℕ → ℕ
mask_from [] m = m
mask_from (p ∷ positions) m = mask_from positions (bit_or m (shl64 1 p))

unfoldable pub mask_from_positions : List ℕ → ℕ
unfolding mask_from
mask_from_positions positions = mask_from positions 0
