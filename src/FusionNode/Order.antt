-- ===== src/FusionNode/Order.antt =====
-- Sketches as numbers, and when they keep an order: by bits at the important positions.
use Prim.Native.Nat.{bit_and}
use native.Mathlib.Nat.{pow-suc}
use native.Mathlib.Decide.{dec_le}
use fusion_tree_benchmark.Prelude.{
  ℕ, suc, ◌+◌, ◌*◌, ◌/◌, ◌%◌, ◌^◌, ◌≤◌, ◌<◌, ◌≡◌, ap, ◌∙◌, true, Bool-cases, inl, inr, List, [],
  ◌∷◌, length, ◌==◌, ==_iff, All, arith,
}
use fusion_tree_benchmark.Word.{shr}
use fusion_tree_benchmark.Bits.{extract_from, extract_bits_naive}
use fusion_tree_benchmark.FusionNode.{seen}
use fusion_tree_benchmark.FusionNode.Pack.{join_field}
use fusion_tree_benchmark.FusionNode.Sketch.{bit_and-one}

-- The bits at the positions as the digits of a number, the first position lowest.
unfoldable pub digits_at : ℕ → List ℕ → ℕ
digits_at x [] = 0
digits_at x (p ∷ positions) = x / 2 ^ p % 2 + 2 * digits_at x positions

extract_from-digits_at :
    (x : ℕ) (positions : List ℕ) (i s : ℕ)
    → s < 2 ^ i
    → i + length positions ≤ 64
    → extract_from x positions i s ≡ s + 2 ^ i * digits_at x positions
unfolding extract_from digits_at shr
extract_from-digits_at x [] i s h room = omega arith
extract_from-digits_at x (p ∷ positions) i s h room =
    let bit = bit_and (shr x p) 1 in
    let value : bit ≡ x / 2 ^ p % 2 = shifted_bit x p in
    let (joined, bound) = join_field 1 i s bit h (omega (arith, value)) (omega arith) in
    let e : i + 1 ≡ suc i = omega arith in
    let rest = extract_from-digits_at x positions (i + 1) (s + bit * 2 ^ i) bound (omega arith) in
    let power : 2 ^ (i + 1) * digits_at x positions ≡ 2 ^ i * (2 * digits_at x positions) =
      ap (λ (t : ℕ). 2 ^ t * digits_at x positions) e
      ∙ ap (λ (t : ℕ). t * digits_at x positions) (pow-suc 2 i)
      ∙ omega arith in
    let one : bit * 2 ^ i ≡ 2 ^ i * (x / 2 ^ p % 2) =
      ap (λ (t : ℕ). t * 2 ^ i) value ∙ omega arith in
    rw joined (omega (arith, rest, power, one))
  where
    shifted_bit : (y r : ℕ) → bit_and (shr y r) 1 ≡ y / 2 ^ r % 2
    shifted_bit y r = bit_and-one (y / 2 ^ r)

-- For at most 64 positions `extract_bits_naive` is the number whose binary digits are the bits at the
-- positions, the first position lowest.
pub extract_bits_naive-digits_at :
    (x : ℕ) (positions : List ℕ)
    → length positions ≤ 64
    → extract_bits_naive x positions ≡ digits_at x positions
unfolding extract_bits_naive
extract_bits_naive-digits_at x positions h =
    extract_from-digits_at x positions 0 0 (omega arith) (omega arith) ∙ omega arith

-- No bit of `x` at the positions exceeds that of `y`.
abbrev pub Dominated : ℕ → ℕ → List ℕ → Type 0
Dominated x y positions = All (λ p. x / 2 ^ p % 2 ≤ y / 2 ^ p % 2) positions

pub digits_at-le :
    (x y : ℕ) (positions : List ℕ)
    → Dominated x y positions
    → digits_at x positions ≤ digits_at y positions
unfolding digits_at
digits_at-le x y [] h = omega arith
digits_at-le x y (p ∷ positions) h = omega (arith, h.0, digits_at-le x y positions h.1)

-- Each position is at most the later ones.
abbrev pub Ascending : List ℕ → Type 0
Ascending [] = Unit
Ascending (p ∷ positions) = All (λ r. p ≤ r) positions × Ascending positions

later-Dominated :
    (x y p : ℕ) (positions : List ℕ)
    → All (λ r. p ≤ r) positions
    → x / 2 ^ p % 2 ≤ y / 2 ^ p % 2
    → ((r : ℕ) → p < r → r < 64 → x / 2 ^ r % 2 ≡ y / 2 ^ r % 2)
    → All (λ r. r < 64) positions
    → Dominated x y positions
later-Dominated x y p [] up h agree words = tt
later-Dominated x y p (r ∷ positions) up h agree words = (
  elim (dec_le r p) [
    | yes same ↦ (let e : r ≡ p = omega (arith, up.0) in rw e h)
    | no later ↦ omega (arith, agree r (omega arith) words.0)
  ],
  later-Dominated x y p positions up.1 h agree words.1,
)

-- Where a position is one at which two words differ first among the bits below 64, the sketches
-- compare as that bit does.
pub digits_at-lt :
    (x y p : ℕ) (positions : List ℕ)
    → Ascending positions
    → All (λ r. r < 64) positions
    → seen p positions ≡ true
    → x / 2 ^ p % 2 ≡ 0
    → y / 2 ^ p % 2 ≡ 1
    → ((r : ℕ) → p < r → r < 64 → x / 2 ^ r % 2 ≡ y / 2 ^ r % 2)
    → digits_at x positions < digits_at y positions
unfolding digits_at seen
digits_at-lt x y p [] up words found zero_bit one_bit agree = absurd (ground (arith, found))
digits_at-lt x y p (r ∷ positions) up words found zero_bit one_bit agree =
    elim (Bool-cases (r == p)) [
      | inl here ↦
          let e : r ≡ p = (==_iff r p).0 here in
          let rest =
            digits_at-le x y positions
              (later-Dominated x y p positions (rw e at up.0) (omega arith) agree words.1) in
          rw e (omega (arith, rest, zero_bit, one_bit))
      | inr later ↦
          let rest =
            digits_at-lt x y p positions up.1 words.1 (rw later at found) zero_bit one_bit agree in
          omega (arith, rest)
    ]
