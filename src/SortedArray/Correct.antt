-- ===== src/SortedArray/Correct.antt =====
-- The binary search finds the dividing position and the predecessor.
use fusion_tree_benchmark.Prelude.{
  ℕ, zero, suc, ◌-◌, ◌≤◌, ◌≡◌, refl, List, length, ltb, lt→ltb, le→ltb, ok, Returns, returns,
  load-ok, arith,
}
use fusion_tree_benchmark.Spec.{
  IsKeys, IsPredecessor, rank, rank-Splits, before, before-IsPredecessor,
}
use fusion_tree_benchmark.Search.Narrow.{Divides, narrow-Narrowed}
use fusion_tree_benchmark.SortedArray.{build, lower_bound, read_before, predecessor}

-- The loop ends, reads only inside the array, and returns the number of keys below `q`.
pub sorted_array-lower_bound :
    (a : List ℕ) (q : ℕ) → IsKeys a → lower_bound (build a) q ≡ ok (rank a q)
unfolding lower_bound build
sorted_array-lower_bound a q keys =
    let s = rank-Splits a q keys in
    let d : Divides (λ k. ltb k q) a 0 (length a) (rank a q) = record {
      below = λ i g h. lt→ltb _ _ (s.below i h);
      above = λ i g h. le→ltb _ _ (s.above i g h);
    } in
    let ((lo, len), run, (b, short)) =
      narrow-Narrowed 0 _ a 0 (length a) (rank a q) d (omega arith) (suc (length a)) 0 (length a)
        (omega arith)
        (record {
          start = omega arith;
          from = omega arith;
          upto = omega (arith, s.inside);
          inside = omega arith;
        }) in
    let e : lo ≡ rank a q = omega (arith, b.from, b.upto) in rw (run, e)

read_before-before : (a : List ℕ) (lo : ℕ) → lo ≤ length a → read_before a lo ≡ ok (before a lo)
unfolding read_before
read_before-before a zero h = refl
read_before-before a (suc lo) h =
    let e : suc lo - 1 ≡ lo = omega arith in rw (e, load-ok a lo 0 h) (ground arith)

-- On sorted keys predecessor(q) of the sorted array ends, reads only inside the array and returns the
-- largest key below `q`, or that there is none.
pub sorted_array_correct :
    (a : List ℕ) (q : ℕ) → IsKeys a → Returns (IsPredecessor a q) (predecessor (build a) q)
unfolding predecessor build
sorted_array_correct a q keys =
    let s = rank-Splits a q keys in
    rw (sorted_array-lower_bound a q keys, read_before-before a (rank a q) s.inside)
      (returns (before-IsPredecessor a q (rank a q) keys s))
