-- ===== src/Multiplier/Ends.antt =====
-- include/sketch_fast.hpp find_multiplier: `lo` and `hi` are the lowest and the highest landing.
use fusion_tree_benchmark.Prelude.{
  ℕ, zero, suc, ◌+◌, ◌≤◌, ◌<◌, ◌≡◌, ◌⊎◌, inl, inr, refl, ◌∙◌, Bool-cases, List, [], ◌∷◌, length,
  ◌!◌, ltb, if◌then◌else◌, arith,
}
use fusion_tree_benchmark.Multiplier.{lowest, highest}

pub lowest-le :
    (pos shifts : List ℕ) (lo : ℕ)
    → (lowest pos shifts lo ≤ lo)
      × ((i : ℕ) → i < length pos → i < length shifts → lowest pos shifts lo ≤ pos ! i + shifts ! i)
unfolding lowest
lowest-le [] shifts lo = (omega arith, λ i h. absurd (omega (arith, h)))
lowest-le (p ∷ pos) [] lo = (omega arith, λ i h k. absurd (omega (arith, k)))
lowest-le (p ∷ pos) (m ∷ shifts) lo =
    let (all, each) = lowest-le pos shifts (if ltb (p + m) lo then p + m else lo) in
    (
      ground (arith, all),
      elim [
        | zero ↦ λ h k. ground (arith, all)
        | suc i ↦ λ h k. each i (omega (arith, h)) (omega (arith, k))
      ],
    )

pub lowest-at :
    (pos shifts : List ℕ) (lo : ℕ)
    → (lowest pos shifts lo ≡ lo)
      ⊎ ((i : ℕ) × (i < length pos)
          × (i < length shifts)
          × (lowest pos shifts lo ≡ pos ! i + shifts ! i))
unfolding lowest
lowest-at [] shifts lo = inl refl
lowest-at (p ∷ pos) [] lo = inl refl
lowest-at (p ∷ pos) (m ∷ shifts) lo =
    elim (lowest-at pos shifts (if ltb (p + m) lo then p + m else lo)) [
      | inr (i, h, k, e) ↦ inr (suc i, omega (arith, h), omega (arith, k), e)
      | inl e ↦ elim (Bool-cases (ltb (p + m) lo)) [
        | inl lower ↦ inr (0, omega arith, omega arith, e ∙ rw lower refl)
        | inr kept ↦ inl (e ∙ rw kept refl)
      ]
    ]

pub highest-at :
    (pos shifts : List ℕ) (hi : ℕ)
    → (highest pos shifts hi ≡ hi)
      ⊎ ((i : ℕ) × (i < length pos)
          × (i < length shifts)
          × (highest pos shifts hi ≡ pos ! i + shifts ! i))
unfolding highest
highest-at [] shifts hi = inl refl
highest-at (p ∷ pos) [] hi = inl refl
highest-at (p ∷ pos) (m ∷ shifts) hi =
    elim (highest-at pos shifts (if ltb hi (p + m) then p + m else hi)) [
      | inr (i, h, k, e) ↦ inr (suc i, omega (arith, h), omega (arith, k), e)
      | inl e ↦ elim (Bool-cases (ltb hi (p + m))) [
        | inl higher ↦ inr (0, omega arith, omega arith, e ∙ rw higher refl)
        | inr kept ↦ inl (e ∙ rw kept refl)
      ]
    ]

pub highest-le :
    (pos shifts : List ℕ) (hi : ℕ)
    → (hi ≤ highest pos shifts hi)
      × ((i : ℕ)
          → i < length pos
          → i < length shifts
          → pos ! i + shifts ! i ≤ highest pos shifts hi)
unfolding highest
highest-le [] shifts hi = (omega arith, λ i h. absurd (omega (arith, h)))
highest-le (p ∷ pos) [] hi = (omega arith, λ i h k. absurd (omega (arith, k)))
highest-le (p ∷ pos) (m ∷ shifts) hi =
    let (all, each) = highest-le pos shifts (if ltb hi (p + m) then p + m else hi) in
    (
      ground (arith, all),
      elim [
        | zero ↦ λ h k. ground (arith, all)
        | suc i ↦ λ h k. each i (omega (arith, h)) (omega (arith, k))
      ],
    )
