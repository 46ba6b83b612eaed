-- ===== src/Learned/Correct.antt =====
-- A bound that holds the answer's position is enough: the wrapped indexes find the predecessor.
use fusion_tree_benchmark.Prelude.{
  ℕ, ◌-◌, ◌≤◌, ◌<◌, ◌≡◌, refl, Bool, true, false, List, length, ◌!◌, ltb, ltb→le, ◌||◌, Returns,
  returns, arith,
}
use fusion_tree_benchmark.Word.{word, sub64-eq}
use fusion_tree_benchmark.Spec.{IsKeys, IsPredecessor, rank, rank-Splits, before-IsPredecessor}
use fusion_tree_benchmark.Search.{flipped_copy}
use fusion_tree_benchmark.Search.LastMile.{last_mile-Splits, answer-before}
use fusion_tree_benchmark.Learned.{rs_build, cht_build, predecessor}

-- The bound [begin, end) of a query holds the position of the first key that is not below it, or that
-- position is its end.
abbrev pub Holds : List ℕ → ℕ → ℕ × ℕ → Type 0
Holds a q (begin, end) = (begin ≤ rank a q) × (rank a q ≤ end) × (end ≤ length a)

neither : (x y : Bool) → (x || y) ≡ false → (x ≡ false) × (y ≡ false)
neither false y e = (refl, e)
neither true y e = ground (arith, e)

module _ (a : List ℕ) (q : ℕ) (keys : IsKeys a) (short : length a < word) (query : q < word) where
  -- Both ways to choose the range end in the shared last step.
  predecessor-Returns :
      (small : Bool) (bound : ℕ → ℕ × ℕ)
      → (small ≡ false → Holds a q (bound q))
      → Returns (IsPredecessor a q) (
          predecessor
            (record { keys = flipped_copy 8 a; n = length a; small = small; bound = bound })
            q)
  unfolding predecessor
  predecessor-Returns true bound h =
      let s = rank-Splits a q keys in
      rw
        (
          last_mile-Splits 2 a q (rank a q) keys query s 0 (length a) (omega arith) (omega arith)
              (omega (arith, s.inside)) (omega arith),
          answer-before 8 a (rank a q) keys s.inside,
        )
        (returns (before-IsPredecessor a q (rank a q) keys s))
  predecessor-Returns false bound h =
      let s = rank-Splits a q keys in
      let (from, upto, inside) = h refl in
      let gap = sub64-eq (bound q).1 (bound q).0 (omega (arith, from, upto)) (omega arith) in
      rw
        (
          gap,
          last_mile-Splits 2 a q (rank a q) keys query s (bound q).0 ((bound q).1 - (bound q).0)
              (omega arith) from (omega (arith, from, upto)) (omega (arith, from, upto)),
          answer-before 8 a (rank a q) keys s.inside,
        )
        (returns (before-IsPredecessor a q (rank a q) keys s))

  -- RSIndex over fewer than 2 ^ 64 sorted keys, where the spline's bound holds the position of `q` if
  -- there are two keys or more, returns the largest key below `q`, or that there is none, and reads
  -- only inside the stored keys.
  pub rs_index_correct :
      (finalize : List ℕ → ℕ → ℕ × ℕ)
      → (2 ≤ length a → Holds a q (finalize a q))
      → Returns (IsPredecessor a q) (predecessor (rs_build finalize a) q)
  unfolding rs_build
  rs_index_correct finalize h =
      predecessor-Returns (ltb (length a) 2) (finalize a) (λ e. h (ltb→le (length a) 2 e))

  -- CHTIndex over fewer than 2 ^ 64 sorted keys, where the tree's bound holds the position of `q` if
  -- there are two keys or more and they span at least as many numbers as the tree has bins, returns
  -- the largest key below `q`, or that there is none, and reads only inside the stored keys.
  pub cht_index_correct :
      (bins : ℕ) (finalize : List ℕ → ℕ → ℕ × ℕ)
      → (2 ≤ length a → bins ≤ a ! (length a - 1) - a ! 0 → Holds a q (finalize a q))
      → Returns (IsPredecessor a q) (predecessor (cht_build bins finalize a) q)
  unfolding cht_build
  cht_index_correct bins finalize h = predecessor-Returns _ (finalize a) (λ e.
      let (many, wide) = neither (ltb (length a) 2) _ e in
      let two = ltb→le (length a) 2 many in
      let span =
        sub64-eq (a ! (length a - 1)) (a ! 0)
          (keys.sorted 0 (length a - 1) (omega arith) (omega arith))
          (keys.words (length a - 1) (omega arith)) in
      h two (omega (arith, span, ltb→le _ bins wide)))
