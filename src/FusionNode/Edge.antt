-- ===== src/FusionNode/Edge.antt =====
-- The repair values, bit by bit: the far edges of a query's sibling subtree.
use Prim.Native.Nat.{bit_and, bit_or}
use native.Mathlib.Nat.{pow-suc}
use fusion_tree_benchmark.Prelude.{
  ℕ, suc, ◌-◌, ◌/◌, ◌%◌, ◌^◌, ◌<◌, ◌≡◌, ltb, ◌==◌, if◌then◌else◌, arith,
}
use fusion_tree_benchmark.Word.{word, sub64, sub64-eq, shl64, pow_pos, pow_mono}
use fusion_tree_benchmark.Word.Bit.{bit_and-bit, bit_or-bit, pow-bit, low_mask-bit, complement-bit}
use fusion_tree_benchmark.FusionNode.Repair.{not64}

-- `(q & ~(1 << h)) | ((1 << h) - 1)` and `(q | (1 << h)) & ~((1 << h) - 1)`.
abbrev pub high_edge : ℕ → ℕ → ℕ
high_edge q h = bit_or (bit_and q (not64 (shl64 1 h))) (sub64 (shl64 1 h) 1)

abbrev pub low_edge : ℕ → ℕ → ℕ
low_edge q h = bit_and (bit_or q (shl64 1 h)) (not64 (sub64 (shl64 1 h) 1))

module _ (q h p : ℕ) (small : h < 64) (inside : p < 64) where
  one : shl64 1 h ≡ 2 ^ h
  unfolding shl64
  one = omega (arith, pow_mono (suc h) 64 (omega arith), pow-suc 2 h, pow_pos h)

  bound : 2 ^ h < word
  bound = omega (arith, pow_mono (suc h) 64 (omega arith), pow-suc 2 h, pow_pos h)

  below : sub64 (shl64 1 h) 1 ≡ 2 ^ h - 1
  below = rw one (sub64-eq (2 ^ h) 1 (pow_pos h) bound)

  not-bit : (x : ℕ) → x < word → not64 x / 2 ^ p % 2 ≡ 1 - x / 2 ^ p % 2
  unfolding not64
  not-bit x l = complement-bit 64 p x l inside

  -- Above `h` the bits of `q`, at `h` a 0, and below only 1s.
  pub high_edge-bit :
      high_edge q h / 2 ^ p % 2 ≡ (if ltb p h then 1 else if p == h then 0 else q / 2 ^ p % 2)
  high_edge-bit =
      rw (below, one)
        (let outer = bit_or-bit p (bit_and q (not64 (2 ^ h))) (2 ^ h - 1) in
          let inner = bit_and-bit p q (not64 (2 ^ h)) in
          let flipped = not-bit (2 ^ h) bound in
          let set = pow-bit h p in
          let ones = low_mask-bit h p in ground (arith, outer, inner, flipped, set, ones))

  -- Above `h` the bits of `q`, at `h` a 1, and below only 0s.
  pub low_edge-bit :
      low_edge q h / 2 ^ p % 2 ≡ (if ltb p h then 0 else if p == h then 1 else q / 2 ^ p % 2)
  low_edge-bit =
      rw (below, one)
        (let outer = bit_and-bit p (bit_or q (2 ^ h)) (not64 (2 ^ h - 1)) in
          let inner = bit_or-bit p q (2 ^ h) in
          let flipped = not-bit (2 ^ h - 1) (omega (arith, bound)) in
          let set = pow-bit h p in
          let ones = low_mask-bit h p in ground (arith, outer, inner, flipped, set, ones))
