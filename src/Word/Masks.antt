-- ===== src/Word/Masks.antt =====
-- Masks of test results: what `_mm256_movemask_pd` delivers and `popcount` (include/bits.hpp) counts.
use Prim.Native.Nat.{bit_and, bit_or}
use native.Mathlib.Nat.{pow-suc}
use fusion_tree_benchmark.Prelude.{
  ℕ, zero, suc, ◌+◌, ◌-◌, ◌*◌, ◌/◌, ◌%◌, ◌^◌, ◌≤◌, ◌<◌, ◌≡◌, refl, sym, ap, ◌∙◌, Bool, true, false,
  List, [], ◌∷◌, ◌++◌, length, take, if◌then◌else◌, arith,
}
use fusion_tree_benchmark.Word.Digits.{pow_pos, bit_or_join, bit_and_low}

-- The number of 1 bits among the lowest `w`.
unfoldable pub count_bits : ℕ → ℕ → ℕ
count_bits zero x = 0
count_bits (suc w) x = x % 2 + count_bits w (x / 2)

abbrev pub bit_of : Bool → ℕ
bit_of b = if b then 1 else 0

-- Bit `i` of the mask is test `i`.
unfoldable pub mask_of : List Bool → ℕ
mask_of [] = 0
mask_of (b ∷ bs) = bit_of b + 2 * mask_of bs

-- How many tests passed.
unfoldable pub count_true : List Bool → ℕ
count_true [] = 0
count_true (b ∷ bs) = bit_of b + count_true bs

pub count_true-length : (bs : List Bool) → count_true bs ≤ length bs
unfolding count_true
count_true-length [] = omega arith
count_true-length (b ∷ bs) = ground (arith, count_true-length bs)

pub count_bits-zero : (w : ℕ) → count_bits w 0 ≡ 0
unfolding count_bits
count_bits-zero zero = refl
count_bits-zero (suc w) = omega (arith, count_bits-zero w)

pub mask_of-lt : (bs : List Bool) → mask_of bs < 2 ^ length bs
unfolding mask_of
mask_of-lt [] = omega arith
mask_of-lt (true ∷ bs) = omega (arith, mask_of-lt bs, pow-suc 2 (length bs))
mask_of-lt (false ∷ bs) = omega (arith, mask_of-lt bs, pow-suc 2 (length bs))

pub count_bits-mask_of :
    (w : ℕ) (bs : List Bool) → length bs ≤ w → count_bits w (mask_of bs) ≡ count_true bs
unfolding count_bits mask_of count_true
count_bits-mask_of w [] h = count_bits-zero w
count_bits-mask_of zero (b ∷ bs) h = absurd (omega arith)
count_bits-mask_of (suc w) (true ∷ bs) h =
    let e : (1 + 2 * mask_of bs) / 2 ≡ mask_of bs = omega arith in
    rw e (omega (arith, count_bits-mask_of w bs (omega arith)))
count_bits-mask_of (suc w) (false ∷ bs) h =
    let e : (0 + 2 * mask_of bs) / 2 ≡ mask_of bs = omega arith in
    rw e (omega (arith, count_bits-mask_of w bs (omega arith)))

mask_of-append : (xs ys : List Bool) → mask_of (xs ++ ys) ≡ mask_of xs + mask_of ys * 2 ^ length xs
unfolding mask_of
mask_of-append [] ys = omega arith
mask_of-append (x ∷ xs) ys =
    omega (arith, mask_of-append xs ys, ap (λ (t : ℕ). mask_of ys * t) (pow-suc 2 (length xs)))

-- `m |= next << i` appends the tests of the next lanes.
pub bit_or-mask_of :
    (xs ys : List Bool) (k : ℕ)
    → length xs ≡ k
    → bit_or (mask_of xs) (mask_of ys * 2 ^ k) ≡ mask_of (xs ++ ys)
bit_or-mask_of xs ys k e =
    rw (← e) (
      bit_or_join (length xs) (mask_of xs) (mask_of ys) (mask_of-lt xs)
      ∙ sym (mask_of-append xs ys))

-- The mask of the first `k` tests, and the rest.
mask_of-take :
    (k : ℕ) (bs : List Bool)
    → (r : ℕ) × (mask_of bs ≡ mask_of (take k bs) + r * 2 ^ k) × (mask_of (take k bs) < 2 ^ k)
unfolding mask_of
mask_of-take zero bs = (mask_of bs, omega arith, omega arith)
mask_of-take (suc k) [] = (0, omega arith, pow_pos (suc k))
mask_of-take (suc k) (b ∷ bs) =
    let (r, e, l) = mask_of-take k bs in
    (r, omega (arith, e, ap (λ (t : ℕ). r * t) (pow-suc 2 k)), ground (arith, l, pow-suc 2 k))

-- `m & ((1 << k) - 1)` keeps the first `k` tests.
pub bit_and-mask_of :
    (k : ℕ) (bs : List Bool) → bit_and (mask_of bs) (2 ^ k - 1) ≡ mask_of (take k bs)
bit_and-mask_of k bs =
    let (r, e, l) = mask_of-take k bs in rw e (bit_and_low k (mask_of (take k bs)) r l)
