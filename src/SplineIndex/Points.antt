-- ===== src/SplineIndex/Points.antt =====
-- The points and pieces of include/spline_index.hpp, and the bounds of a search on them.
use fusion_tree_benchmark.Prelude.{
  ℕ, suc, ◌-◌, ◌≤◌, ◌<◌, ◌≡◌, refl, ap, List, [], ◌∷◌, length, ltb, if◌then◌else◌, ◌==◌, arith,
}
use fusion_tree_benchmark.Word.{word}
use fusion_tree_benchmark.Word.Signed.{ℤ, pos, negsuc}
use fusion_tree_benchmark.Spec.{IsKeys, Chain}
use fusion_tree_benchmark.SplineIndex.{DoubleOps, Seg, window_start, double_of, fit, pieces}
use fusion_tree_benchmark.SplineIndex.Window.{firsts, corridor-Chain, corridor-length}

-- The window starts at a key or just behind the last one.
pub window_start-le : (e n : ℕ) (guess : ℤ) → window_start e n guess ≤ n
unfolding window_start
window_start-le e n (pos guess) = ground arith
window_start-le e n (negsuc guess) = omega arith

pub clamp-lt :
    (q low high : ℕ)
    → q < word
    → low < word
    → high < word
    → (if ltb q low then low else (if ltb high q then high else q)) < word
clamp-lt q low high a b c = ground arith

pub piece-lt : (r n : ℕ) → 0 < n → r ≤ n → (if r == 0 then 0 else r - 1) < n
piece-lt r n a b = ground arith

module _ {F : Type 0} (d : DoubleOps F) (half : ℕ) where
  abbrev pub no_seg : Seg F
  no_seg = record { y = double_of d half 0; slope = double_of d half 0 }

  pub length-pieces : (points : List (ℕ × F)) → length (pieces d half points) ≡ length points
  unfolding pieces
  length-pieces [] = refl
  length-pieces ((x, y) ∷ []) = refl
  length-pieces ((x, y) ∷ (x', y') ∷ points) = ap suc (length-pieces ((x', y') ∷ points))

  pub fit-Chain : (a : List ℕ) → IsKeys a → Chain 0 (firsts d half (fit d half a))
  unfolding fit
  fit-Chain [] keys = tt
  fit-Chain (x ∷ []) keys = (omega arith, keys.words 0 (omega arith), tt)
  fit-Chain (x ∷ y ∷ a) keys = (
    omega arith,
    keys.words 0 (omega arith),
    corridor-Chain d half (x ∷ y ∷ a) keys (length a) 2 0 _ _ (omega arith) (omega arith),
  )

  pub fit-length : (a : List ℕ) → IsKeys a → length (fit d half a) ≤ length a
  unfolding fit
  fit-length [] keys = omega arith
  fit-length (x ∷ []) keys = omega arith
  fit-length (x ∷ y ∷ a) keys =
      omega (arith, corridor-length d half (x ∷ y ∷ a) keys (length a) 2 0)

  pub fit_some : (x : ℕ) (a : List ℕ) → 0 < length (fit d half (x ∷ a))
  unfolding fit
  fit_some x [] = omega arith
  fit_some x (y ∷ a) = omega arith
