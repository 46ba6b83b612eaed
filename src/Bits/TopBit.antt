-- ===== src/Bits/TopBit.antt =====
-- The highest set bit.
use fusion_tree_benchmark.Prelude.{ℕ, zero, suc, ◌-◌, ◌/◌, ◌^◌, ◌≤◌, ◌<◌, ◌≡◌, arith}
use native.Mathlib.Nat.{pow-suc, div-eq_of_lt-le, div-eq_of_lt}
use native.Mathlib.Decide.{dec_lt}
use fusion_tree_benchmark.Word.{word}
use fusion_tree_benchmark.Bits.{clz_from, clz64, msb}

top_set : (k x : ℕ) → 2 ^ k ≤ x → x < 2 ^ suc k → x / 2 ^ k ≡ 1
top_set k x g h = div-eq_of_lt-le (2 ^ k) (omega arith) (omega (arith, pow-suc 2 k))

top_clear : (k x : ℕ) → x < 2 ^ k → x / 2 ^ k ≡ 0
top_clear k x h = div-eq_of_lt h

-- What the count of leading zeros tells of a number of `k` bits.
pub clz_from-bounds :
    (k x : ℕ)
    → 0 < x
    → x < 2 ^ k
    → (clz_from k x < k) × (2 ^ (k - 1 - clz_from k x) ≤ x) × (x < 2 ^ (k - clz_from k x))
unfolding clz_from
clz_from-bounds zero x p h = absurd (omega arith)
clz_from-bounds (suc k) x p h = elim (dec_lt x (2 ^ k)) [
  | yes low ↦
      let (c, lo, hi) = clz_from-bounds k x p low in
      let e : suc k - 1 - suc (clz_from k x) ≡ k - 1 - clz_from k x = omega arith in
      let e' : suc k - suc (clz_from k x) ≡ k - clz_from k x = omega arith in
      rw (top_clear k x low, e, e') (omega arith, lo, hi)
  | no high ↦
      let e : suc k - 1 - 0 ≡ k = omega arith in
      let e' : suc k - 0 ≡ suc k = omega arith in
      rw (top_set k x (omega arith) h, e, e') (omega arith, omega arith, h)
]

-- msb(x) is the index of the highest set bit of a non-zero 64-bit word: 2 ^ msb(x) ≤ x < 2 ^ (msb(x) + 1).
pub msb_bounds : (x : ℕ) → 0 < x → x < word → (2 ^ msb x ≤ x) × (x < 2 ^ suc (msb x))
unfolding msb clz64
msb_bounds x p h =
    let (c, lo, hi) = clz_from-bounds 64 x p h in
    let e : 64 - 1 - clz_from 64 x ≡ 63 - clz_from 64 x = omega arith in
    let e' : 64 - clz_from 64 x ≡ suc (63 - clz_from 64 x) = omega arith in
    (rw e at lo, rw e' at hi)

pub clz64-lt : (x : ℕ) → 0 < x → x < word → clz64 x < 64
unfolding clz64
clz64-lt x p h = (clz_from-bounds 64 x p h).0

-- A word has as many significant bits as `64 - clz` says.
pub lt-clz64 : (x : ℕ) → 0 < x → x < word → x < 2 ^ (64 - clz64 x)
unfolding clz64
lt-clz64 x p h = (clz_from-bounds 64 x p h).2

pub clz64-le : (x : ℕ) → 0 < x → x < word → 2 ^ (63 - clz64 x) ≤ x
unfolding clz64
clz64-le x p h = (clz_from-bounds 64 x p h).1
