-- ===== src/Tests/Multiplier.antt =====
-- The search for a multiplier at inputs: four positions, and nine next to each other, whose shifts do
-- not fit into a word.
use fusion_tree_benchmark.Prelude.{
  ℕ, zero, suc, ◌+◌, ◌<◌, ◌≡◌, ◌⊎◌, refl, List, [], ◌∷◌, ◌!◌, true, false, ok, fault, replicate,
  Returns, load, arith,
}
use fusion_tree_benchmark.Multiplier.{
  limit, clashes, first_free, occupy, taken, shift_of, place, lowest, highest, product_of,
  find_multiplier,
}
use fusion_tree_benchmark.Multiplier.Correct.{
  Spreads, Large, IsMultiplier, find_multiplier-IsMultiplier,
}

abbrev four : List ℕ
four = 2 ∷ 3 ∷ 7 ∷ 20 ∷ []

abbrev nine : List ℕ
nine = 0 ∷ 1 ∷ 2 ∷ 3 ∷ 4 ∷ 5 ∷ 6 ∷ 7 ∷ 8 ∷ []

four_run :
    find_multiplier four
    ≡ ok (record { product = 1285; m = 0 ∷ 2 ∷ 8 ∷ 10 ∷ []; lo = 2; hi = 30; fits = true })
unfolding find_multiplier clashes first_free occupy taken shift_of place lowest highest product_of
    load
four_run = refl

nine_run : find_multiplier nine ≡ fault
unfolding find_multiplier clashes first_free occupy taken shift_of place lowest highest product_of
    load
nine_run = refl

abbrev three : List ℕ
three = 2 ∷ 3 ∷ 20 ∷ []

three_different : (i j : ℕ) → i < 3 → j < 3 → three ! i ≡ three ! j → i ≡ j
three_different zero zero h k e = refl
three_different zero (suc zero) h k e = absurd (omega (arith, e))
three_different zero (suc (suc zero)) h k e = absurd (omega (arith, e))
three_different (suc zero) zero h k e = absurd (omega (arith, e))
three_different (suc zero) (suc zero) h k e = refl
three_different (suc zero) (suc (suc zero)) h k e = absurd (omega (arith, e))
three_different (suc (suc zero)) zero h k e = absurd (omega (arith, e))
three_different (suc (suc zero)) (suc zero) h k e = absurd (omega (arith, e))
three_different (suc (suc zero)) (suc (suc zero)) h k e = refl
three_different (suc (suc (suc i))) j h k e = absurd (omega (arith, h))
three_different zero (suc (suc (suc j))) h k e = absurd (omega (arith, k))
three_different (suc zero) (suc (suc (suc j))) h k e = absurd (omega (arith, k))
three_different (suc (suc zero)) (suc (suc (suc j))) h k e = absurd (omega (arith, k))

find_multiplier-IsMultiplier_example :
    Returns
      (λ shifts.
        Spreads three shifts
        × (Returns (IsMultiplier three shifts) (find_multiplier three)
            ⊎ (find_multiplier three ≡ fault) × Large shifts))
      (place three 3 (replicate (limit + 64) false))
find_multiplier-IsMultiplier_example =
    find_multiplier-IsMultiplier three (omega arith) (omega arith, (omega arith, (omega arith, tt)))
      three_different
