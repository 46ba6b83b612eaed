-- ===== src/SplineIndex/Window.antt =====
-- The scan of include/spline_index.hpp, and the pieces over which its S+ tree stands.
use fusion_tree_benchmark.Prelude.{
  ℕ, zero, suc, ◌+◌, ◌-◌, ◌*◌, ◌≤◌, ◌<◌, ◌≡◌, ap, Bool, List, map, length, ◌!◌, Bool-cases, inl,
  inr, ◌||◌, ok, arith,
}
use fusion_tree_benchmark.Word.Masks.{count_true, count_true-length, count_bits-mask_of}
use fusion_tree_benchmark.Bits.{popcount}
use fusion_tree_benchmark.Spec.{IsKeys, Chain}
use fusion_tree_benchmark.Search.Scan.{compare4-ok, lanes4}
use fusion_tree_benchmark.SplineIndex.{DoubleOps, scan_window, double_of, slope, corridor}

module _ (less : ℕ → Bool) (keys : List ℕ) where
  -- How many of the `4 * left` keys from `p` on pass.
  abbrev pub passing : ℕ → ℕ → ℕ
  passing zero p = 0
  passing (suc left) p = count_true (lanes4 less keys p) + passing left (p + 4)

  pub passing-le : (left p : ℕ) → passing left p ≤ 4 * left
  passing-le zero p = omega arith
  passing-le (suc left) p =
      omega (arith, passing-le left (p + 4), count_true-length (lanes4 less keys p))

  -- The scan ends, reads only inside the keys, and counts those that pass.
  pub scan_window-passing :
      (left p lb : ℕ)
      → p + 4 * left ≤ length keys
      → scan_window left less keys p lb ≡ ok (lb + passing left p)
  unfolding scan_window popcount
  scan_window-passing zero p lb h = ap ok (omega arith)
  scan_window-passing (suc left) p lb h =
      rw
        (
          compare4-ok less keys p (omega arith),
          count_bits-mask_of 64 (lanes4 less keys p) (omega arith),
          scan_window-passing left (p + 4) (lb + count_true (lanes4 less keys p)) (omega arith),
        )
        (ap ok (omega arith))

module _ {F : Type 0} (d : DoubleOps F) (half : ℕ) where
  abbrev pub firsts : List (ℕ × F) → List ℕ
  firsts points = map (λ p. p.0) points

  module _ (a : List ℕ) (keys : IsKeys a) where
    -- The points of the corridor are keys, in order.
    pub corridor-Chain :
        (left i base : ℕ) (upper lower : F)
        → base < i
        → i + left ≡ length a
        → Chain (a ! base) (firsts (corridor d half a left i base upper lower))
    unfolding corridor
    corridor-Chain zero i base upper lower h e = (
      keys.sorted base (length a - 1) (omega arith) (omega arith),
      keys.words (length a - 1) (omega arith),
      tt,
    )
    corridor-Chain (suc left) i base upper lower h e =
        elim (Bool-cases (
          d.less upper (slope d half a base i (double_of d half 0))
          || d.less (slope d half a base i (double_of d half 0)) lower)) [
            | inl leaves ↦ rw leaves (
              keys.sorted base (i - 1) (omega arith) (omega arith),
              keys.words (i - 1) (omega arith),
              corridor-Chain left (suc i) (i - 1) _ _ (omega arith) (omega arith),
            )
            | inr stays ↦
                rw stays (corridor-Chain left (suc i) base _ _ (omega arith) (omega arith))
          ]

    pub corridor-length :
        (left i base : ℕ) (upper lower : F)
        → length (corridor d half a left i base upper lower) ≤ suc left
    unfolding corridor
    corridor-length zero i base upper lower = omega arith
    corridor-length (suc left) i base upper lower =
        elim (Bool-cases (
          d.less upper (slope d half a base i (double_of d half 0))
          || d.less (slope d half a base i (double_of d half 0)) lower)) [
            | inl leaves ↦ rw leaves (omega (arith, corridor-length left (suc i) (i - 1)))
            | inr stays ↦ rw stays (omega (arith, corridor-length left (suc i) base))
          ]
