-- ===== src/Word.antt =====
-- 64-bit words (include/bits.hpp: `u64`, `W`) as natural numbers below 2 ^ 64, with the wrap-around
-- of unsigned arithmetic written out.
pub mod Digits
pub mod Bit
pub mod Masks
pub mod Signed
pub mod Fields
pub mod Compare
pub mod CompareFirst
pub use Digits.{pow_pos, pow_add}
use fusion_tree_benchmark.Prelude.{ℕ, ◌+◌, ◌-◌, ◌*◌, ◌/◌, ◌%◌, ◌^◌, ◌≤◌, ◌<◌, ◌≡◌, arith}
use native.Mathlib.Nat.{
  pow-le-pow_right, le-div_iff_mul-le, div-lt_iff_lt-mul, div-mul-le_self, le_trans,
}

abbrev pub word : ℕ
word = 2 ^ 64

-- `a + b`, `a - b`, `a * b` and `x << k` on `u64`.
unfoldable pub add64 : ℕ → ℕ → ℕ
add64 a b = (a + b) % word

unfoldable pub sub64 : ℕ → ℕ → ℕ
sub64 a b = (a + word - b) % word

unfoldable pub mul64 : ℕ → ℕ → ℕ
mul64 a b = a * b % word

unfoldable pub shl64 : ℕ → ℕ → ℕ
shl64 x k = x * 2 ^ k % word

-- `x >> k`. The code's shift has a result for k below 64 only, and the code shifts by places of bits in
-- a word and by widths of ranges less the bits of a table; a larger k gives 0 here.
unfoldable pub shr : ℕ → ℕ → ℕ
shr x k = x / 2 ^ k

pub pow_mono : (i j : ℕ) → i ≤ j → 2 ^ i ≤ 2 ^ j
pow_mono i j h = pow-le-pow_right (omega arith) h

pub sub64-eq : (a b : ℕ) → b ≤ a → a < word → sub64 a b ≡ a - b
unfolding sub64
sub64-eq a b h w = omega arith

pub add64-eq : (a b : ℕ) → a + b < word → add64 a b ≡ a + b
unfolding add64
add64-eq a b h = omega arith

pub shr_mono : (x y k : ℕ) → x ≤ y → shr x k ≤ shr y k
unfolding shr
shr_mono x y k h = (le-div_iff_mul-le (pow_pos k)).1 (le_trans (div-mul-le_self x (2 ^ k)) h)

pub shr-lt : (x y k : ℕ) → x < y * 2 ^ k → shr x k < y
unfolding shr
shr-lt x y k h = (div-lt_iff_lt-mul (pow_pos k)).1 h
