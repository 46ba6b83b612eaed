-- ===== src/PatriciaNode/Scan.antt =====
-- The comparison of all lanes of include/patricia_node.hpp, eight at a time, and its last set bit.
use native.Mathlib.Nat.{pow-suc}
use native.Mathlib.Decide.{dec_lt}
use fusion_tree_benchmark.Prelude.{
  ℕ, zero, suc, ◌+◌, ◌-◌, ◌*◌, ◌^◌, ◌≤◌, ◌<◌, ◌≡◌, refl, ap, ◌∙◌, Bool, true, false, List, [], ◌∷◌,
  ◌++◌, length, get_or, length-append, eq_pos, ok, Returns, returns, arith,
}
use fusion_tree_benchmark.Word.{pow_mono, pow_pos, pow_add}
use fusion_tree_benchmark.Word.Fields.{field_bound}
use mathlib.Core.List.{append_assoc, append-nil}
use fusion_tree_benchmark.Word.Masks.{mask_of, bit_of, mask_of-lt, bit_or-mask_of}
use fusion_tree_benchmark.Bits.{clz_from}
use fusion_tree_benchmark.Bits.TopBit.{clz_from-bounds}
use fusion_tree_benchmark.Search.{shl32}
use fusion_tree_benchmark.Search.Scan.{lanes4, compare4-ok}
use fusion_tree_benchmark.PatriciaNode.{compare8, scan8, last_bit}

-- Bits shifted to the left inside 32 stay.
shl32-join : (f x k : ℕ) → x < 2 ^ f → f + k ≤ 32 → shl32 x k ≡ x * 2 ^ k
unfolding shl32
shl32-join f x k h room =
    omega (arith, field_bound k 0 x (2 ^ f) (pow_pos k) h, pow_add f k, pow_mono (f + k) 32 room)

module _ (test : ℕ → Bool) (arr : List ℕ) where
  abbrev pub lanes8 : ℕ → List Bool
  lanes8 p = lanes4 test arr p ++ lanes4 test arr (p + 4)

  -- The tests of the lanes, in order.
  abbrev pub all_lanes : ℕ → ℕ → List Bool
  all_lanes zero p = []
  all_lanes (suc rounds) p = lanes8 p ++ all_lanes rounds (p + 8)

  compare8-ok : (p : ℕ) → p + 8 ≤ length arr → compare8 test arr p ≡ ok (mask_of (lanes8 p))
  unfolding compare8
  compare8-ok p h =
      rw
        (
          compare4-ok test arr p (omega arith),
          compare4-ok test arr (p + 4) (omega arith),
          shl32-join 4 (mask_of (lanes4 test arr (p + 4))) 4 (mask_of-lt (lanes4 test arr (p + 4)))
              (omega arith),
          bit_or-mask_of (lanes4 test arr p) (lanes4 test arr (p + 4)) 4 refl,
        )
        refl

  scan8_from :
      (rounds i : ℕ) (xs : List Bool)
      → length xs ≡ i
      → i + 8 * rounds ≤ 32
      → i + 8 * rounds ≤ length arr
      → scan8 rounds test arr i (mask_of xs) ≡ ok (mask_of (xs ++ all_lanes rounds i))
  unfolding scan8
  scan8_from zero i xs e small fits = rw (append-nil xs) refl
  scan8_from (suc rounds) i xs e small fits =
      let grown : length (xs ++ lanes8 i) ≡ i + 8 =
        omega (arith, length-append {0} xs (lanes8 i)) in
      rw
        (
          compare8-ok i (omega arith),
          shl32-join 8 (mask_of (lanes8 i)) i (mask_of-lt (lanes8 i)) (omega arith),
          bit_or-mask_of xs (lanes8 i) i e,
          scan8_from rounds (i + 8) (xs ++ lanes8 i) grown (omega arith) (omega arith),
          append_assoc xs (lanes8 i) (all_lanes rounds (i + 8)),
        )
        refl

  -- The loop reads only inside the array, and bit `i` of its mask is the test of entry `i`.
  pub scan8-ok :
      (rounds : ℕ)
      → rounds ≤ 4
      → 8 * rounds ≤ length arr
      → scan8 rounds test arr 0 0 ≡ ok (mask_of (all_lanes rounds 0))
  unfolding mask_of
  scan8-ok rounds few fits = scan8_from rounds 0 [] refl (omega arith) (omega arith)

  pub length-all_lanes : (rounds p : ℕ) → length (all_lanes rounds p) ≡ 8 * rounds
  length-all_lanes zero p = refl
  length-all_lanes (suc rounds) p = omega (arith, length-all_lanes rounds (p + 8))

  pub get_or-all_lanes :
      (rounds p i : ℕ)
      → i < 8 * rounds
      → get_or (all_lanes rounds p) i false ≡ test (get_or arr (p + i) 0)
  get_or-all_lanes zero p i h = absurd (omega (arith, h))
  get_or-all_lanes (suc rounds) p zero h = ap (λ k. test (get_or arr k 0)) (omega arith)
  get_or-all_lanes (suc rounds) p (suc zero) h = refl
  get_or-all_lanes (suc rounds) p (suc (suc zero)) h = refl
  get_or-all_lanes (suc rounds) p (suc (suc (suc zero))) h = refl
  get_or-all_lanes (suc rounds) p (suc (suc (suc (suc zero)))) h =
      ap (λ k. test (get_or arr k 0)) (omega arith)
  get_or-all_lanes (suc rounds) p (suc (suc (suc (suc (suc zero))))) h =
      ap (λ k. test (get_or arr k 0)) (omega arith)
  get_or-all_lanes (suc rounds) p (suc (suc (suc (suc (suc (suc zero)))))) h =
      ap (λ k. test (get_or arr k 0)) (omega arith)
  get_or-all_lanes (suc rounds) p (suc (suc (suc (suc (suc (suc (suc zero))))))) h =
      ap (λ k. test (get_or arr k 0)) (omega arith)
  get_or-all_lanes (suc rounds) p (suc (suc (suc (suc (suc (suc (suc (suc i)))))))) h =
      get_or-all_lanes rounds (p + 8) i (omega (arith, h))
      ∙ ap (λ k. test (get_or arr k 0)) (omega arith)

bit_of-le : (b : Bool) → bit_of b ≤ 1
bit_of-le true = omega arith
bit_of-le false = omega arith

mask_of-pos : (bs : List Bool) → get_or bs 0 false ≡ true → 0 < mask_of bs
unfolding mask_of
mask_of-pos [] e = cc
mask_of-pos (b ∷ bs) e = rw e (omega arith)

mask_of-below :
    (bs : List Bool) (n : ℕ)
    → ((i : ℕ) → n ≤ i → i < length bs → get_or bs i false ≡ false)
    → mask_of bs < 2 ^ n
unfolding mask_of
mask_of-below [] n h = pow_pos n
mask_of-below (b ∷ bs) zero h =
    let rest = mask_of-below bs zero (λ i l m. h (suc i) (omega arith) (omega (arith, m))) in
    rw (h 0 (omega arith) (omega arith)) (omega (arith, rest))
mask_of-below (b ∷ bs) (suc n) h =
    let rest = mask_of-below bs n (λ i l m. h (suc i) (omega (arith, l)) (omega (arith, m))) in
    omega (arith, rest, bit_of-le b, pow-suc 2 n)

-- Where the first test passes and none from `n` on does, the last set bit is below `n`.
pub last_bit-below :
    (bs : List Bool) (n : ℕ)
    → length bs ≤ 32
    → 0 < length bs
    → get_or bs 0 false ≡ true
    → ((i : ℕ) → n ≤ i → i < length bs → get_or bs i false ≡ false)
    → Returns (λ j. j < n) (last_bit (mask_of bs))
unfolding last_bit
last_bit-below bs n few some first none =
    let low = mask_of-below bs n none in
    let pos = mask_of-pos bs first in
    let (c, from, upto) =
      clz_from-bounds 32 (mask_of bs) pos
        (omega (arith, mask_of-lt bs, pow_mono (length bs) 32 few)) in
    let below : 31 - clz_from 32 (mask_of bs) < n =
      elim (dec_lt (31 - clz_from 32 (mask_of bs)) n) [
        | yes h ↦ h
        | no h ↦
            let e : 32 - 1 - clz_from 32 (mask_of bs) ≡ 31 - clz_from 32 (mask_of bs) =
              omega arith in
            absurd (
              omega (
                arith,
                low,
                rw e at from,
                pow_mono n (31 - clz_from 32 (mask_of bs)) (omega (arith, h)),
              ))
      ] in
    rw (eq_pos (mask_of bs) pos) (returns below)
