-- ===== src/Search/Count.antt =====
-- The comparison of all keys of a node or box, and the count of those below the query: the same four
-- lines in include/splus_tree.hpp `rank` and include/cluster_jump_dynamic.hpp `rank16`.
use fusion_tree_benchmark.Prelude.{
  ℕ, zero, suc, ◌+◌, ◌*◌, ◌≤◌, ◌<◌, ◌≡◌, refl, ap, ◌∙◌, Bool, true, false, List, [], ◌∷◌, length,
  take, ◌!◌, Run, ok, ◌>>=◌, arith,
}
use fusion_tree_benchmark.Word.Masks.{count_true, count_bits-mask_of}
use fusion_tree_benchmark.Bits.{popcount}
use fusion_tree_benchmark.Search.{scan}
use fusion_tree_benchmark.Search.Scan.{
  lane_tests, scan-ok, length-lane_tests, get_or-lane_tests, count_true-take,
}

-- `for (i = 0; i < 4 * rounds; i += 4) m |= ...; return popcount(m);` from place `p` on.
unfoldable pub count_less : ℕ → (ℕ → Bool) → List ℕ → ℕ → Run ℕ
count_less rounds less arr p = do m ← scan rounds less arr p 0 0; ok (popcount m)

take-length_self : (n : ℕ) (bs : List Bool) → length bs ≡ n → take n bs ≡ bs
take-length_self zero [] e = refl
take-length_self zero (b ∷ bs) e = absurd (omega (arith, e))
take-length_self (suc n) [] e = absurd (omega (arith, e))
take-length_self (suc n) (b ∷ bs) e = ap (λ r. b ∷ r) (take-length_self n bs (omega (arith, e)))

-- Where the first `r` places pass and the others fail, the count is `r`.
pub count_less-ok :
    (rounds : ℕ) (less : ℕ → Bool) (arr : List ℕ) (p r : ℕ)
    → rounds ≤ 8
    → r ≤ 4 * rounds
    → p + 4 * rounds ≤ length arr
    → ((i : ℕ) → i < r → less (arr ! (p + i)) ≡ true)
    → ((i : ℕ) → r ≤ i → i < 4 * rounds → less (arr ! (p + i)) ≡ false)
    → count_less rounds less arr p ≡ ok r
unfolding count_less popcount
count_less-ok rounds less arr p r few within inside pass fail =
    let lanes = lane_tests less arr rounds p in
    let size = length-lane_tests less arr rounds p in
    let counted : count_true (take (4 * rounds) lanes) ≡ r =
      count_true-take lanes (4 * rounds) r within (omega arith)
        (λ i l. get_or-lane_tests less arr rounds p i (omega arith) ∙ pass i l)
        (λ i g l. get_or-lane_tests less arr rounds p i l ∙ fail i g l) in
    rw
      (
        scan-ok less arr rounds p (omega arith) inside,
        count_bits-mask_of 64 lanes (omega arith),
        ← (ap count_true (take-length_self (4 * rounds) lanes size)),
        counted,
      )
      refl
