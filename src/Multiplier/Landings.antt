-- ===== src/Multiplier/Landings.antt =====
-- The search of include/sketch_fast.hpp find_multiplier: enough candidates, and no two landings the same.
use native.Mathlib.Nat.{mul-le-mul, add-mul}
use fusion_tree_benchmark.Prelude.{
  ℕ, zero, suc, ◌+◌, ◌*◌, ◌≤◌, ◌<◌, ◌≡◌, ◌≢◌, refl, ap, ◌∙◌, Bool, true, false, List, [], ◌∷◌, some,
  length, put, length-put, ◌!◌, Bool-cases, inl, inr, ◌||◌, ok, load-ok, Returns, returns, arith,
  All,
}
use fusion_tree_benchmark.Multiplier.{limit, clashes, first_free, occupy, taken, shift_of, place}
use fusion_tree_benchmark.Multiplier.Occupied.{
  count, count-false, count-or, count-shift, in_use, marked, count-marked, free-put, length-occupy,
  marked-occupy,
}

or-false : (a b : Bool) → (a || b) ≡ false → (a ≡ false) × (b ≡ false)
or-false true b e = cc
or-false false b e = (refl, e)

-- `used` has a place for every landing.
abbrev pub size : ℕ
size = limit + 64

free-occupy :
    (used : List Bool) (cand : ℕ) (pos : List ℕ) (i : ℕ)
    → length used ≡ size
    → cand < limit
    → All (λ p. p < 64) pos
    → in_use (occupy used cand pos) i ≡ false
    → (in_use used i ≡ false) × ((j : ℕ) → j < length pos → pos ! j + cand ≢ i)
unfolding occupy
free-occupy used cand [] i l c low e = (e, λ j h. absurd (omega (arith, h)))
free-occupy used cand (p ∷ pos) i l c (low, lows) e =
    let l' : length (put used (p + cand) true) ≡ size = length-put used (p + cand) true ∙ l in
    let (free, others) = free-occupy (put used (p + cand) true) cand pos i l' c lows e in
    let (old, other) = free-put used (p + cand) i (omega (arith, l)) free in
    (old, elim [ zero ↦ λ h. other | suc j ↦ λ h. others j (omega (arith, h)) ])

-- Some position lands on a used place.
abbrev clash_at : List Bool → List ℕ → ℕ → Bool
clash_at used [] cand = false
clash_at used (p ∷ pos) cand = in_use used (p + cand) || clash_at used pos cand

module _ (used : List Bool) (whole : length used ≡ size) where
  clashes-ok :
      (pos : List ℕ) (cand : ℕ)
      → cand < limit
      → All (λ p. p < 64) pos
      → clashes used cand pos ≡ ok (clash_at used pos cand)
  unfolding clashes
  clashes-ok [] cand c low = refl
  clashes-ok (p ∷ pos) cand c (low, lows) =
      rw (load-ok used (p + cand) false (omega (arith, whole)))
        (elim (Bool-cases (in_use used (p + cand))) [
          | inl busy ↦ rw busy refl
          | inr free ↦ rw (free, clashes-ok pos cand c lows) refl
        ])

  clash_at-count : (pos : List ℕ) (n : ℕ) → count (clash_at used pos) 0 n ≤ length pos * marked used
  clash_at-count [] n = omega (arith, count-false (clash_at used []) 0 n (λ i. refl))
  clash_at-count (p ∷ pos) n = omega (
    arith,
    count-or (λ c. in_use used (p + c)) (clash_at used pos) 0 n,
    count-shift (in_use used) p 0 n,
    count-marked used (p + 0) n,
    clash_at-count pos n,
    add-mul 1 (length pos) (marked used),
  )

  free-at :
      (pos : List ℕ) (cand j : ℕ)
      → j < length pos
      → clash_at used pos cand ≡ false
      → in_use used (pos ! j + cand) ≡ false
  free-at [] cand j h e = absurd (omega (arith, h))
  free-at (p ∷ pos) cand zero h e = (or-false _ _ e).0
  free-at (p ∷ pos) cand (suc j) h e = free-at pos cand j (omega (arith, h)) (or-false _ _ e).1

  -- Where fewer than `left` of the next candidates clash, one is found.
  first_free-Found :
      (pos : List ℕ) (left cand : ℕ)
      → cand + left ≤ limit
      → All (λ p. p < 64) pos
      → count (clash_at used pos) cand left < left
      → (c : ℕ) × (first_free used pos left cand ≡ ok (some c))
        × c < limit
        × (clash_at used pos c ≡ false)
  unfolding first_free
  first_free-Found pos zero cand h low few = absurd (omega (arith, few))
  first_free-Found pos (suc left) cand h low few =
      rw (clashes-ok pos cand (omega arith) low) (elim (Bool-cases (clash_at used pos cand)) [
        | inl busy ↦ rw busy (first_free-Found pos left (suc cand) (omega arith) low (ground arith))
        | inr free ↦ rw free (cand, refl, omega arith, free)
      ])

module _ (pos : List ℕ) (few : length pos ≤ 16) (low : All (λ p. p < 64) pos) where
  -- The shifts of the coming rounds: their landings are free, and none is another's.
  pub record Apart (used : List Bool) (shifts : List ℕ) : Type 0 where
    pub small : (t : ℕ) → t < length shifts → shifts ! t < limit
    pub free :
        (t i : ℕ) → t < length shifts → i < length pos → in_use used (pos ! i + shifts ! t) ≡ false
    pub apart :
        (s t i j : ℕ)
        → s < t
        → t < length shifts
        → i < length pos
        → j < length pos
        → pos ! i + shifts ! s ≢ pos ! j + shifts ! t

  apart-cons :
      (cand : ℕ) (shifts : List ℕ)
      → ((s t i j : ℕ)
          → s < t
          → t < length shifts
          → i < length pos
          → j < length pos
          → pos ! i + shifts ! s ≢ pos ! j + shifts ! t)
      → ((t i : ℕ)
          → t < length shifts
          → i < length pos
          → (j : ℕ) → j < length pos
          → pos ! j + cand ≢ pos ! i + shifts ! t)
      → (s t i j : ℕ) → s < t
      → t < suc (length shifts)
      → i < length pos
      → j < length pos
      → pos ! i + (cand ∷ shifts) ! s ≢ pos ! j + (cand ∷ shifts) ! t
  apart-cons cand shifts rest new s zero i j h k m n = absurd (omega (arith, h))
  apart-cons cand shifts rest new zero (suc t) i j h k m n = new t j (omega (arith, k)) n i m
  apart-cons cand shifts rest new (suc s) (suc t) i j h k m n =
      rest s t i j (omega (arith, h)) (omega (arith, k)) m n

  Apart-cons :
      (used : List Bool) (cand : ℕ) (shifts : List ℕ)
      → length used ≡ size
      → cand < limit
      → clash_at used pos cand ≡ false
      → Apart (occupy used cand pos) shifts
      → Apart used (cand ∷ shifts)
  Apart-cons used cand shifts l c e rest =
      let old : (t i : ℕ)
          → t < length shifts
          → i < length pos
          → (in_use used (pos ! i + shifts ! t) ≡ false)
            × ((j : ℕ) → j < length pos → pos ! j + cand ≢ pos ! i + shifts ! t) =
        (λ t i h k. free-occupy used cand pos (pos ! i + shifts ! t) l c low (rest.free t i h k)) in
      record {
        small = elim [ zero ↦ λ h. c | suc t ↦ λ h. rest.small t (omega (arith, h)) ];
        free = elim [
          | zero ↦ λ i h k. free-at used l pos cand i k e
          | suc t ↦ λ i h k. (old t i (omega (arith, h)) k).0
        ];
        apart = apart-cons cand shifts rest.apart (λ t i h k. (old t i h k).1);
      }

  few_clash :
      (used : List Bool) (n : ℕ)
      → length used ≡ size
      → marked used ≤ 240
      → 16 * 240 < n
      → count (clash_at used pos) 0 n < n
  few_clash used n l m h =
      let bound : length pos * marked used ≤ 16 * 240 = mul-le-mul few m in
      omega (arith, clash_at-count used l pos n)

  pub place-Apart :
      (left : ℕ) (used : List Bool)
      → length used ≡ size
      → marked used + 16 * left ≤ 256
      → Returns (λ shifts. (length shifts ≡ left) × Apart used shifts) (place pos left used)
  unfolding place taken shift_of
  place-Apart zero used l m = returns (
    refl,
    record {
      small = λ t h. absurd (omega (arith, h));
      free = λ t i h. absurd (omega (arith, h));
      apart = λ s t i j h h'. absurd (omega (arith, h'));
    },
  )
  place-Apart (suc left) used l m =
      let (cand, found, c, e) =
        first_free-Found used l pos limit 0 (omega arith) low
          (few_clash used limit l (omega arith) (omega arith)) in
      let l' : length (occupy used cand pos) ≡ size = length-occupy used cand pos ∙ l in
      let (shifts, run, (size', rest)) =
        place-Apart left (occupy used cand pos) l' (omega (arith, marked-occupy used cand pos)) in
      rw (found, run) (returns (ap suc size', Apart-cons used cand shifts l c e rest))
