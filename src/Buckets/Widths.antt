-- ===== src/Buckets/Widths.antt =====
-- The shift is in range for `>>`, and the number of buckets is what was asked for.
use fusion_tree_benchmark.Prelude.{
  ℕ, zero, suc, ◌+◌, ◌-◌, ◌^◌, ◌≤◌, ◌<◌, ◌≡◌, ltb, Bool-cases, inl, inr, arith, tests,
}
use native.Mathlib.Decide.{dec_lt}
use fusion_tree_benchmark.Word.{word, shr, shr-lt, pow_mono, pow_add}
use fusion_tree_benchmark.Bits.{clz64}
use fusion_tree_benchmark.Bits.TopBit.{clz64-lt, clz64-le, lt-clz64}
use fusion_tree_benchmark.Buckets.{width_of, shift_for}

pub width_of-bounds : (x : ℕ) → x < word → (width_of x ≤ 64) × (x < 2 ^ width_of x)
unfolding width_of
width_of-bounds zero h = (omega arith, omega arith)
width_of-bounds (suc x) h = ground (arith, lt-clz64 (suc x) (omega arith) h)

-- A word below `2 ^ k` has at most `k` significant bits.
pub width_of-le : (x k : ℕ) → x < word → x < 2 ^ k → width_of x ≤ k
unfolding width_of
width_of-le zero k w h = omega arith
width_of-le (suc x) k w h = elim (dec_lt (63 - clz64 (suc x)) k) [
  | yes short ↦ ground (arith, clz64-lt (suc x) (omega arith) w)
  | no long ↦ absurd (
      omega
        (arith, clz64-le (suc x) (omega arith) w, pow_mono k (63 - clz64 (suc x)) (omega arith)))
]

-- At most `2 ^ bits` buckets come out.
pub shr-shift_for : (span bits : ℕ) → span < word → shr span (shift_for span bits) < 2 ^ bits
unfolding shift_for
shr-shift_for span bits h =
    let (a, b) = width_of-bounds span h in
    elim (Bool-cases (ltb bits (width_of span))) [
      | inl wide ↦
          let e : bits + (width_of span - bits) ≡ width_of span = omega tests in
          rw wide (
            shr-lt span (2 ^ bits) (width_of span - bits)
              (rw (pow_add bits (width_of span - bits), e) b))
      | inr narrow ↦
          rw narrow (shr-lt span (2 ^ bits) 0 (omega (tests, pow_mono (width_of span) bits)))
    ]

-- `>>` by the shift is defined.
pub shift_for-le : (span bits k : ℕ) → span < word → span < 2 ^ k → shift_for span bits ≤ k - bits
unfolding shift_for
shift_for-le span bits k w h = ground (arith, width_of-le span k w h)
