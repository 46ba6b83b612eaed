-- ===== src/Word/Signed.antt =====
-- `(long long)x` on a 64-bit word and the order of AVX2's signed comparison. Every array-based index
-- stores its keys with the top bit flipped (`FLIP`, include/radix_jump.hpp and others), so that this
-- order on what is stored is the unsigned order on the keys.
use Prim.Native.Nat.{bit_xor}
use fusion_tree_benchmark.Prelude.{
  ℕ, ◌+◌, ◌-◌, ◌^◌, ◌≤◌, ◌<◌, ◌≡◌, Bool, true, false, ltb, if◌then◌else◌, ◌⊎◌, inl, inr, arith,
}
use native.Mathlib.Decide.{dec_lt}
use fusion_tree_benchmark.Word.Digits.{bit_xor_set, bit_xor_clear}

-- `negsuc n` is -(n + 1).
pub data ℤ : Type 0 where
  pos : ℕ → ℤ
  negsuc : ℕ → ℤ

unfoldable pub ltbℤ : ℤ → ℤ → Bool
ltbℤ (pos a) (pos b) = ltb a b
ltbℤ (pos a) (negsuc b) = false
ltbℤ (negsuc a) (pos b) = true
ltbℤ (negsuc a) (negsuc b) = ltb b a

-- The two's complement value of a word: `(long long)x`.
unfoldable pub signed : ℕ → ℤ
signed x = if ltb x (2 ^ 63) then pos x else negsuc (2 ^ 64 - x - 1)

-- `(long long)a < (long long)b`.
unfoldable pub slt : ℕ → ℕ → Bool
unfolding ltbℤ signed
slt a b = ltbℤ (signed a) (signed b)

abbrev pub flip_bit : ℕ
flip_bit = 0x8000000000000000

-- `x ^ FLIP`.
unfoldable pub flip : ℕ → ℕ
flip x = bit_xor x flip_bit

pub flip_low : (x : ℕ) → x < 2 ^ 63 → flip x ≡ x + 2 ^ 63
unfolding flip
flip_low x h = bit_xor_set 63 x h

pub flip_high : (x : ℕ) → 2 ^ 63 ≤ x → x < 2 ^ 64 → flip x ≡ x - 2 ^ 63
unfolding flip
flip_high x g h = bit_xor_clear 63 x g h

flip_cases :
    (x : ℕ)
    → x < 2 ^ 64
    → ((x < 2 ^ 63) × (flip x ≡ x + 2 ^ 63)) ⊎ ((2 ^ 63 ≤ x) × (flip x ≡ x - 2 ^ 63))
flip_cases x h = elim (dec_lt x (2 ^ 63)) [
  | yes low ↦ inl (low, flip_low x low)
  | no high ↦ inr (omega arith, flip_high x (omega arith) h)
]

-- Flipping twice gives the key back.
pub flip-flip : (x : ℕ) → x < 2 ^ 64 → flip (flip x) ≡ x
flip-flip x h = elim (flip_cases x h) [
  | inl (a, e) ↦ omega (arith, flip_high (flip x))
  | inr (a, e) ↦ omega (arith, flip_low (flip x))
]

-- For 64-bit words, the signed order on the flipped words is the unsigned order on the words.
pub slt-flip : (x y : ℕ) → x < 2 ^ 64 → y < 2 ^ 64 → slt (flip x) (flip y) ≡ ltb x y
unfolding slt
slt-flip x y hx hy = elim (flip_cases x hx) [
  | inl (a, e) ↦ elim (flip_cases y hy) [
    | inl (b, e') ↦ rw (e, e') (ground arith)
    | inr (b, e') ↦ rw (e, e') (ground arith)
  ]
  | inr (a, e) ↦ elim (flip_cases y hy) [
    | inl (b, e') ↦ rw (e, e') (ground arith)
    | inr (b, e') ↦ rw (e, e') (ground arith)
  ]
]
