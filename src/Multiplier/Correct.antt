-- ===== src/Multiplier/Correct.antt =====
-- include/sketch_fast.hpp find_multiplier: what the multiplier that it returns keeps.
use Prim.Native.Nat.{bit_or, max}
use native.Mathlib.Nat.{div-eq_of_lt}
use fusion_tree_benchmark.Word.{pow_pos}
use fusion_tree_benchmark.Word.Masks.{bit_of}
use fusion_tree_benchmark.FusionNode.{seen}
use native.Mathlib.Decide.{dec_lt}
use fusion_tree_benchmark.Prelude.{
  ℕ, suc, ◌+◌, ◌/◌, ◌%◌, ◌^◌, ◌≤◌, ◌<◌, ◌≡◌, ◌⊎◌, inl, inr, refl, sym, ap, ◌∙◌, Bool, true, false,
  ◌==◌, List, [], ◌∷◌, All, length, replicate, length-replicate, get_or, ◌!◌, ltb, lt→ltb, le→ltb,
  if◌then◌else◌, fault, Returns, returns, arith,
}
use fusion_tree_benchmark.Word.Bit.{bit_or-bit, pow-bit}
use fusion_tree_benchmark.Multiplier.{
  Multiplier, limit, lowest, highest, product_of, place, find_multiplier,
}
use fusion_tree_benchmark.Multiplier.Ends.{lowest-le, lowest-at, highest-le, highest-at}
use fusion_tree_benchmark.Multiplier.Occupied.{marked-replicate}
use fusion_tree_benchmark.Multiplier.Landings.{Apart, place-Apart, size}

-- Bit `b` of the product is set if it was, or if `b` is one of the shifts.
abbrev Bits : List ℕ → ℕ → ℕ → Type 0
Bits shifts acc product =
    (b : ℕ) → product / 2 ^ b % 2 ≡ max (acc / 2 ^ b % 2) (bit_of (seen b shifts))

abbrev pub Large : List ℕ → Type 0
Large shifts = (t : ℕ) × (t < length shifts) × (64 ≤ shifts ! t)

bits_join :
    (b m : ℕ) (found : Bool) (old : ℕ)
    → old < 2
    → max (max old (if b == m then 1 else 0)) (bit_of found)
      ≡ max old (bit_of (if m == b then true else found))
bits_join b m true old h = ground arith
bits_join b m false old h = ground arith

product_of-Bits :
    (shifts : List ℕ) (acc : ℕ)
    → Returns (Bits shifts acc) (product_of shifts acc)
      ⊎ (product_of shifts acc ≡ fault) × Large shifts
unfolding product_of seen
product_of-Bits [] acc = inl (returns (λ b. omega arith))
product_of-Bits (m ∷ shifts) acc = elim (dec_lt m 64) [
  | no large ↦
      rw (le→ltb m 64 (omega (arith, large))) (inr (refl, (0, omega arith, omega (arith, large))))
  | yes small ↦ rw (lt→ltb m 64 small) (elim (product_of-Bits shifts (bit_or acc (2 ^ m))) [
    | inr (e, (t, h, l)) ↦ inr (e, (suc t, omega (arith, h), l))
    | inl (product, run, bits) ↦ inl (
      product,
      run,
      λ b.
          bits b
          ∙ rw (bit_or-bit b acc (2 ^ m), pow-bit m b)
              (bits_join b m (seen b shifts) (acc / 2 ^ b % 2) (omega arith)),
    )
  ])
]

-- Shifts for the positions: one for each, all below LIMIT, and no two landings are the same.
pub record Spreads (pos shifts : List ℕ) : Type 0 where
  count : length shifts ≡ length pos
  small : (t : ℕ) → t < length shifts → shifts ! t < limit
  distinct :
      (s t i j : ℕ)
      → s < length shifts
      → t < length shifts
      → i < length pos
      → j < length pos
      → pos ! i + shifts ! s ≡ pos ! j + shifts ! t
      → (s ≡ t) × (i ≡ j)

-- The multiplier of some shifts: its product has exactly the bits of the shifts, and `lo` and `hi` are
-- the lowest and the highest landing of a position with its own shift.
pub record IsMultiplier (pos shifts : List ℕ) (made : Multiplier) : Type 0 where
  m : made.m ≡ shifts
  bits : (b : ℕ) → made.product / 2 ^ b % 2 ≡ bit_of (seen b shifts)
  above : (i : ℕ) → i < length pos → made.lo ≤ pos ! i + shifts ! i
  low : 0 < length pos → (i : ℕ) × (i < length pos) × (made.lo ≡ pos ! i + shifts ! i)
  below : (i : ℕ) → i < length pos → pos ! i + shifts ! i ≤ made.hi
  high : 0 < length pos → (i : ℕ) × (i < length pos) × (made.hi ≡ pos ! i + shifts ! i)
  fits : made.fits ≡ ltb made.hi 64

module _ (pos : List ℕ) (few : length pos ≤ 16) (low : All (λ p. p < 64) pos)
    (different : (i j : ℕ) → i < length pos → j < length pos → pos ! i ≡ pos ! j → i ≡ j) where
  abbrev none_used : List Bool
  none_used = replicate size false

  Apart-distinct :
      (shifts : List ℕ)
      → Apart pos few low none_used shifts
      → (s t i j : ℕ) → s < length shifts
      → t < length shifts
      → i < length pos
      → j < length pos
      → pos ! i + shifts ! s ≡ pos ! j + shifts ! t
      → (s ≡ t) × (i ≡ j)
  Apart-distinct shifts a s t i j h k m n e = elim (dec_lt s t) [
    | yes l ↦ absurd (a.apart s t i j l k m n e)
    | no l ↦ elim (dec_lt t s) [
      | yes g ↦ absurd (a.apart t s j i g h n m (sym e))
      | no g ↦
          let same : s ≡ t = omega (arith, l, g) in
          (same, different i j m n (omega (arith, e, ap (λ x. shifts ! x) same)))
    ]
  ]

  place-Spreads : Returns (Spreads pos) (place pos (length pos) none_used)
  place-Spreads =
      let (shifts, run, (count, apart)) =
        place-Apart pos few low (length pos) none_used (length-replicate size false)
          (omega (arith, marked-replicate size)) in
      (
        shifts,
        run,
        record { count = count; small = apart.small; distinct = Apart-distinct shifts apart },
      )

zero_bits : (b : ℕ) (found : Bool) → max (0 / 2 ^ b % 2) (bit_of found) ≡ bit_of found
zero_bits b found = let none : 0 / 2 ^ b ≡ 0 = div-eq_of_lt (pow_pos b) in rw none (ground arith)

no_bits : (b : ℕ) → 0 / 2 ^ b % 2 ≡ 0
no_bits b = let none : 0 / 2 ^ b ≡ 0 = div-eq_of_lt (pow_pos b) in omega (arith, none)

-- The end of find_multiplier, over at least one position.
made-IsMultiplier :
    (p : ℕ) (pos shifts : List ℕ) (product : ℕ)
    → length shifts ≡ suc (length pos)
    → Bits shifts 0 product
    → IsMultiplier (p ∷ pos) shifts (record {
      product = product;
      m = shifts;
      lo = lowest (p ∷ pos) shifts (p + get_or shifts 0 0);
      hi = highest (p ∷ pos) shifts (p + get_or shifts 0 0);
      fits = ltb (highest (p ∷ pos) shifts (p + get_or shifts 0 0)) 64;
    })
made-IsMultiplier p pos shifts product count bits = record {
  m = refl;
  bits = λ b. bits b ∙ zero_bits b (seen b shifts);
  above = λ i h. (lowest-le (p ∷ pos) shifts _).1 i h (omega (arith, h, count));
  low = λ h. elim (lowest-at (p ∷ pos) shifts (p + get_or shifts 0 0)) [
    | inl e ↦ (0, omega arith, e)
    | inr (i, l, k, e) ↦ (i, l, e)
  ];
  below = λ i h. (highest-le (p ∷ pos) shifts _).1 i h (omega (arith, h, count));
  high = λ h. elim (highest-at (p ∷ pos) shifts (p + get_or shifts 0 0)) [
    | inl e ↦ (0, omega arith, e)
    | inr (i, l, k, e) ↦ (i, l, e)
  ];
  fits = refl;
}

-- For at most 16 different positions below 64: the search ends with a shift below 4096 for each position,
-- and no two landings of a position with a shift are the same. Then find_multiplier either returns the
-- multiplier of these shifts, whose product has exactly their bits, whose `lo` and `hi` are the lowest and
-- the highest landing of a position with its own shift, and whose `ok` says whether `hi` is below 64; or
-- one of the shifts is 64 or more, and the product's left shift by it is undefined.
pub find_multiplier-IsMultiplier :
    (pos : List ℕ)
    → length pos ≤ 16
    → All (λ p. p < 64) pos
    → ((i j : ℕ) → i < length pos → j < length pos → pos ! i ≡ pos ! j → i ≡ j)
    → Returns
        (λ shifts.
          Spreads pos shifts
          × (Returns (IsMultiplier pos shifts) (find_multiplier pos)
              ⊎ (find_multiplier pos ≡ fault) × Large shifts))
        (place pos (length pos) (replicate (limit + 64) false))
unfolding find_multiplier seen place
find_multiplier-IsMultiplier [] few low different = returns (
  record {
    count = refl;
    small = λ t h. absurd (omega (arith, h));
    distinct = λ s t i j h. absurd (omega (arith, h));
  },
  inl (
      returns (record {
        m = refl;
        bits = λ b. no_bits b;
        above = λ i h. absurd (omega (arith, h));
        low = λ h. absurd (omega (arith, h));
        below = λ i h. absurd (omega (arith, h));
        high = λ h. absurd (omega (arith, h));
        fits = refl;
      })),
)
find_multiplier-IsMultiplier (p ∷ pos) few low different =
    let (shifts, run, spreads) = place-Spreads (p ∷ pos) few low different in
    rw run (
      returns (
        spreads,
        elim (product_of-Bits shifts 0) [
          | inr (e, large) ↦ rw e (inr (refl, large))
          | inl (product, e, bits) ↦
              rw e (inl (returns (made-IsMultiplier p pos shifts product spreads.count bits)))
        ],
      ))
