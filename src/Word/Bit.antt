-- ===== src/Word/Bit.antt =====
-- One bit of a word, and what `&`, `|`, `^` and `~` do to it.
use Prim.Native.Nat.{min, max, bit_and, bit_or, bit_xor}
use native.Mathlib.Nat.{pow-suc, div-div-eq-div-mul, div-eq_of_lt, le-div_iff_mul-le}
use native.Mathlib.Decide.{dec_lt}
use fusion_tree_benchmark.Prelude.{
  ℕ, zero, suc, ◌+◌, ◌-◌, ◌*◌, ◌/◌, ◌%◌, ◌^◌, ◌≤◌, ◌<◌, ◌≡◌, refl, sym, ap, ◌∙◌, ltb, ◌==◌,
  if◌then◌else◌, arith,
}
use fusion_tree_benchmark.Word.Digits.{pow_pos, bit_and_step, bit_or_step, bit_xor_step}

-- The quotients by powers of 2, one digit at a time.
pub div-pow_suc : (x p : ℕ) → x / 2 ^ suc p ≡ x / 2 ^ p / 2
div-pow_suc x p =
    let e : 2 ^ suc p ≡ 2 ^ p * 2 = omega (arith, pow-suc 2 p) in
    ap (λ (t : ℕ). x / t) e ∙ sym (div-div-eq-div-mul x (2 ^ p) 2)

pub div-half_pow : (x p : ℕ) → x / 2 ^ suc p ≡ x / 2 / 2 ^ p
div-half_pow x p =
    let e : 2 ^ suc p ≡ 2 * 2 ^ p = omega (arith, pow-suc 2 p) in
    ap (λ (t : ℕ). x / t) e ∙ sym (div-div-eq-div-mul x 2 (2 ^ p))

-- Numbers that agree from bit `k` up agree from every higher bit up.
pub agree_up : (x y k j : ℕ) → x / 2 ^ k ≡ y / 2 ^ k → x / 2 ^ (j + k) ≡ y / 2 ^ (j + k)
agree_up x y k zero e = let z : zero + k ≡ k = omega arith in rw z e
agree_up x y k (suc j) e =
    let z : suc j + k ≡ suc (j + k) = omega arith in
    rw (z, div-pow_suc x (j + k), div-pow_suc y (j + k), agree_up x y k j e) refl

pub agree_above : (x y k p : ℕ) → x / 2 ^ k ≡ y / 2 ^ k → k ≤ p → x / 2 ^ p ≡ y / 2 ^ p
agree_above x y k p e h = let z : p - k + k ≡ p = omega arith in rw z at (agree_up x y k (p - k) e)

pub bit_and-bit : (p a b : ℕ) → bit_and a b / 2 ^ p % 2 ≡ min (a / 2 ^ p % 2) (b / 2 ^ p % 2)
bit_and-bit zero a b = omega (arith, bit_and_step a b)
bit_and-bit (suc p) a b =
    let half : bit_and a b / 2 ≡ bit_and (a / 2) (b / 2) = omega (arith, bit_and_step a b) in
    rw (div-half_pow (bit_and a b) p, div-half_pow a p, div-half_pow b p, half)
      (bit_and-bit p (a / 2) (b / 2))

pub bit_or-bit : (p a b : ℕ) → bit_or a b / 2 ^ p % 2 ≡ max (a / 2 ^ p % 2) (b / 2 ^ p % 2)
bit_or-bit zero a b = omega (arith, bit_or_step a b)
bit_or-bit (suc p) a b =
    let half : bit_or a b / 2 ≡ bit_or (a / 2) (b / 2) = omega (arith, bit_or_step a b) in
    rw (div-half_pow (bit_or a b) p, div-half_pow a p, div-half_pow b p, half)
      (bit_or-bit p (a / 2) (b / 2))

pub bit_xor-shift : (p a b : ℕ) → bit_xor a b / 2 ^ p ≡ bit_xor (a / 2 ^ p) (b / 2 ^ p)
bit_xor-shift zero a b =
    let e : (x : ℕ) → x / 2 ^ 0 ≡ x = λ x. omega arith in rw (e a, e b, e (bit_xor a b)) refl
bit_xor-shift (suc p) a b =
    let half : bit_xor a b / 2 ≡ bit_xor (a / 2) (b / 2) = omega (arith, bit_xor_step a b) in
    rw (div-half_pow (bit_xor a b) p, div-half_pow a p, div-half_pow b p, half)
      (bit_xor-shift p (a / 2) (b / 2))

xor_zero_below : (n a b : ℕ) → a ≤ n → b ≤ n → bit_xor a b ≡ 0 → a ≡ b
xor_zero_below zero a b h l e = omega arith
xor_zero_below (suc n) a b h l e =
    let step = bit_xor_step a b in
    let rest =
      xor_zero_below n (a / 2) (b / 2) (omega arith) (omega arith) (omega (arith, step, e)) in
    omega (arith, step, e, rest)

-- Only equal numbers have no bit apart.
pub bit_xor-zero_eq : (a b : ℕ) → bit_xor a b ≡ 0 → a ≡ b
bit_xor-zero_eq a b e = xor_zero_below (a + b) a b (omega arith) (omega arith) e

xor_self_below : (n a : ℕ) → a ≤ n → bit_xor a a ≡ 0
xor_self_below zero zero h = refl
xor_self_below zero (suc a) h = absurd (omega arith)
xor_self_below (suc n) a h = omega (arith, bit_xor_step a a, xor_self_below n (a / 2) (omega arith))

pub bit_xor_self : (a : ℕ) → bit_xor a a ≡ 0
bit_xor_self a = xor_self_below a a (omega arith)

pub bit_xor-lt : (k a b : ℕ) → a < 2 ^ k → b < 2 ^ k → bit_xor a b < 2 ^ k
bit_xor-lt k a b h l = elim (dec_lt (bit_xor a b) (2 ^ k)) [
  | yes p ↦ p
  | no p ↦
      let quotient = rw (div-eq_of_lt h, div-eq_of_lt l) at (bit_xor-shift k a b) in
      let one : 1 ≤ bit_xor a b / 2 ^ k = (le-div_iff_mul-le (pow_pos k)).1 (omega arith) in
      absurd (omega (arith, one, quotient, bit_xor_self 0))
]

-- The bits of one bit, of a mask of low bits, and of a complement.
pub pow-bit : (h p : ℕ) → 2 ^ h / 2 ^ p % 2 ≡ (if p == h then 1 else 0)
pow-bit zero zero = refl
pow-bit zero (suc p) =
    let e : 2 ^ 0 / 2 ≡ 0 = refl in
    rw (div-half_pow (2 ^ 0) p, e, div-eq_of_lt (pow_pos p)) (ground arith)
pow-bit (suc h) zero = ground (arith, pow-suc 2 h)
pow-bit (suc h) (suc p) =
    let e : 2 ^ suc h / 2 ≡ 2 ^ h = omega (arith, pow-suc 2 h) in
    rw (div-half_pow (2 ^ suc h) p, e, pow-bit h p) (ground arith)

pub low_mask-bit : (h p : ℕ) → (2 ^ h - 1) / 2 ^ p % 2 ≡ (if ltb p h then 1 else 0)
low_mask-bit zero p =
    let e : 2 ^ 0 - 1 ≡ 0 = refl in rw (e, div-eq_of_lt (pow_pos p)) (ground arith)
low_mask-bit (suc h) zero = ground (arith, pow-suc 2 h, pow_pos h)
low_mask-bit (suc h) (suc p) =
    let e : (2 ^ suc h - 1) / 2 ≡ 2 ^ h - 1 = omega (arith, pow-suc 2 h, pow_pos h) in
    rw (div-half_pow (2 ^ suc h - 1) p, e, low_mask-bit h p) (ground arith)

pub complement-bit :
    (w p x : ℕ) → x < 2 ^ w → p < w → (2 ^ w - 1 - x) / 2 ^ p % 2 ≡ 1 - x / 2 ^ p % 2
complement-bit zero p x h l = absurd (omega arith)
complement-bit (suc w) zero x h l = omega (arith, pow-suc 2 w)
complement-bit (suc w) (suc p) x h l =
    let e : (2 ^ suc w - 1 - x) / 2 ≡ 2 ^ w - 1 - x / 2 = omega (arith, pow-suc 2 w) in
    rw (div-half_pow (2 ^ suc w - 1 - x) p, div-half_pow x p, e)
      (complement-bit w p (x / 2) (omega (arith, pow-suc 2 w)) (omega arith))
