-- ===== src/Word/Digits.antt =====
-- The native bit operations, one binary digit at a time: the step laws and the laws of single bits
-- that the code's masks and shifts rest on.
use Prim.Native.Nat.{
  ℕ, zero, suc, ◌+◌, ◌-◌, ◌*◌, ◌/◌, ◌%◌, ◌^◌, ◌≤◌, ◌<◌, min, max, bit_and, bit_or, bit_xor, digits,
  differ, bit_and-bitwise, bit_or-bitwise, bit_xor-bitwise,
}
use native.Mathlib.Nat.{pow-suc}
use native.Mathlib.Decide.{dec_le}
use fusion_tree_benchmark.Prelude.{◌≡◌, refl, ap, ◌∙◌, arith}

-- The digit recursion needs as much fuel as its first number, and more does not change it.
module _ (low : ℕ → ℕ) (op : ℕ → ℕ → ℕ) where
  one_more : (n x y : ℕ) → x ≤ n → digits low op (suc n) x y ≡ digits low op n x y
  one_more zero zero y h = refl
  one_more (suc n) zero y h = refl
  one_more zero (suc x) y h = absurd (omega arith)
  one_more (suc n) (suc x) y h = rw (one_more n (suc x / 2) (y / 2) (omega arith)) refl

  enough : (n x y : ℕ) → x ≤ n → digits low op n x y ≡ digits low op x x y
  enough zero x y h = let e : x ≡ 0 = omega arith in rw e refl
  enough (suc n) x y h = elim (dec_le x n) [
    | yes below ↦ one_more n x y below ∙ enough n x y below
    | no above ↦ (let e : x ≡ suc n = omega arith in rw e refl)
  ]

  lowest_digit :
      ((y : ℕ) → low y ≡ low (y / 2) * 2 + op 0 (y % 2))
      → (x y : ℕ)
      → digits low op x x y ≡ digits low op (x / 2) (x / 2) (y / 2) * 2 + op (x % 2) (y % 2)
  lowest_digit h zero y = h y
  lowest_digit h (suc x) y = omega (arith, enough x (suc x / 2) (y / 2) (omega arith))

digit_cases : (x y : ℕ) → x < 2 → y < 2 → differ x y ≡ (x + y) % 2
digit_cases zero y p q = omega arith
digit_cases (suc zero) zero p q = refl
digit_cases (suc zero) (suc zero) p q = refl
digit_cases x y p q = absurd (omega arith)

pub bit_and_step : (a b : ℕ) → bit_and a b ≡ bit_and (a / 2) (b / 2) * 2 + min (a % 2) (b % 2)
bit_and_step a b = omega (
  arith,
  bit_and-bitwise a b,
  bit_and-bitwise (a / 2) (b / 2),
  lowest_digit (λ _. 0) min (λ c. omega arith) a b,
)

pub bit_or_step : (a b : ℕ) → bit_or a b ≡ bit_or (a / 2) (b / 2) * 2 + max (a % 2) (b % 2)
bit_or_step a b = omega (
  arith,
  bit_or-bitwise a b,
  bit_or-bitwise (a / 2) (b / 2),
  lowest_digit (λ c. c) max (λ c. omega arith) a b,
)

pub bit_xor_step : (a b : ℕ) → bit_xor a b ≡ bit_xor (a / 2) (b / 2) * 2 + (a + b) % 2
bit_xor_step a b = omega (
  arith,
  bit_xor-bitwise a b,
  bit_xor-bitwise (a / 2) (b / 2),
  lowest_digit (λ c. c) differ (λ c. omega arith) a b,
  digit_cases (a % 2) (b % 2) (omega arith) (omega arith),
)

pub zero-bit_and : (b : ℕ) → bit_and 0 b ≡ 0
zero-bit_and b = bit_and-bitwise 0 b

-- `a & 0` is 0, and so is the mask of no bits.
bit_and-zero_below : (n a : ℕ) → a ≤ n → bit_and a 0 ≡ 0
bit_and-zero_below n zero h = zero-bit_and 0
bit_and-zero_below zero (suc a) h = absurd (omega arith)
bit_and-zero_below (suc n) (suc a) h =
    omega (arith, bit_and_step (suc a) 0, bit_and-zero_below n (suc a / 2) (omega arith))

pub bit_and-zero : (a : ℕ) → bit_and a 0 ≡ 0
bit_and-zero a = bit_and-zero_below a a (omega arith)

bit_or-zero_below : (n a : ℕ) → a ≤ n → bit_or a 0 ≡ a
bit_or-zero_below n zero h = bit_or-bitwise 0 0
bit_or-zero_below zero (suc a) h = absurd (omega arith)
bit_or-zero_below (suc n) (suc a) h =
    omega (arith, bit_or_step (suc a) 0, bit_or-zero_below n (suc a / 2) (omega arith))

pub bit_or-zero : (a : ℕ) → bit_or a 0 ≡ a
bit_or-zero a = bit_or-zero_below a a (omega arith)

pub zero-bit_or : (b : ℕ) → bit_or 0 b ≡ b
zero-bit_or b = bit_or-bitwise 0 b

pub pow_pos : (k : ℕ) → 0 < 2 ^ k
pow_pos zero = omega arith
pow_pos (suc k) = omega (arith, pow-suc 2 k, pow_pos k)

pub pow_add : (i j : ℕ) → 2 ^ i * 2 ^ j ≡ 2 ^ (i + j)
pow_add zero j = let e : j ≡ zero + j = omega arith in omega (arith, ap (λ (t : ℕ). 2 ^ t) e)
pow_add (suc i) j =
    let e : suc (i + j) ≡ suc i + j = omega arith in
    let double : 2 ^ suc i * 2 ^ j ≡ 2 * (2 ^ i * 2 ^ j) =
      ap (λ (t : ℕ). t * 2 ^ j) (pow-suc 2 i) ∙ omega arith in
    omega (arith, double, pow_add i j, pow-suc 2 (i + j), ap (λ (t : ℕ). 2 ^ t) e)

pub twice_field : (b k : ℕ) → b * 2 ^ suc k ≡ 2 * (b * 2 ^ k)
twice_field b k = ap (λ (t : ℕ). b * t) (pow-suc 2 k) ∙ omega arith

half_pow : (k : ℕ) → 2 ^ suc k / 2 ≡ 2 ^ k
half_pow k = omega (arith, pow-suc 2 k)

half_field : (b k : ℕ) → b * 2 ^ suc k / 2 ≡ b * 2 ^ k
half_field b k = omega (arith, twice_field b k)

-- `a | (b << k)` joins two fields that do not overlap.
pub bit_or_join : (k a b : ℕ) → a < 2 ^ k → bit_or a (b * 2 ^ k) ≡ a + b * 2 ^ k
bit_or_join zero zero b h = zero-bit_or (b * 2 ^ 0) ∙ omega arith
bit_or_join zero (suc a) b h = absurd (omega arith)
bit_or_join (suc k) a b h =
    let step = rw (half_field b k) at (bit_or_step a (b * 2 ^ suc k)) in
    omega (arith, step, bit_or_join k (a / 2) b (omega (arith, pow-suc 2 k)), twice_field b k)

-- `x ^ (1 << k)` sets the bit, if `x` stays below it, and clears it, if it is the top bit of `x`.
pub bit_xor_set : (k x : ℕ) → x < 2 ^ k → bit_xor x (2 ^ k) ≡ x + 2 ^ k
bit_xor_set zero zero h = bit_xor-bitwise 0 1
bit_xor_set zero (suc x) h = absurd (omega arith)
bit_xor_set (suc k) x h =
    let step = rw (half_pow k) at (bit_xor_step x (2 ^ suc k)) in
    omega (arith, step, bit_xor_set k (x / 2) (omega (arith, pow-suc 2 k)), pow-suc 2 k)

pub bit_xor_clear : (k x : ℕ) → 2 ^ k ≤ x → x < 2 ^ suc k → bit_xor x (2 ^ k) ≡ x - 2 ^ k
bit_xor_clear zero x g h = one_bit x (omega arith)
  where
    one_bit : (y : ℕ) → y ≡ 1 → bit_xor y (2 ^ 0) ≡ y - 2 ^ 0
    one_bit y e = rw e (bit_xor-bitwise 1 1)
bit_xor_clear (suc k) x g h =
    let step = rw (half_pow k) at (bit_xor_step x (2 ^ suc k)) in
    let rest =
      bit_xor_clear k (x / 2) (omega (arith, pow-suc 2 k))
        (omega (arith, pow-suc 2 (suc k), pow-suc 2 k)) in
    omega (arith, step, rest, pow-suc 2 k, pow-suc 2 (suc k))

-- `x & ((1 << k) - 1)` keeps the low `k` bits: a field above them goes away.
pub bit_and_low : (k a b : ℕ) → a < 2 ^ k → bit_and (a + b * 2 ^ k) (2 ^ k - 1) ≡ a
bit_and_low zero a b h = omega (arith, bit_and-zero (a + b * 2 ^ 0))
bit_and_low (suc k) a b h =
    let e : (2 ^ suc k - 1) / 2 ≡ 2 ^ k - 1 = omega (arith, pow-suc 2 k, pow_pos k) in
    let e' : (a + b * 2 ^ suc k) / 2 ≡ a / 2 + b * 2 ^ k = omega (arith, twice_field b k) in
    let step = rw (e, e') at (bit_and_step (a + b * 2 ^ suc k) (2 ^ suc k - 1)) in
    omega (
      arith,
      step,
      bit_and_low k (a / 2) b (omega (arith, pow-suc 2 k)),
      twice_field b k,
      pow-suc 2 k,
      pow_pos k,
    )
