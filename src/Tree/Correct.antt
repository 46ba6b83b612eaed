-- ===== src/Tree/Correct.antt =====
-- The tree finds predecessors, whatever its node type, if the nodes do what the tree relies on.
use fusion_tree_benchmark.Prelude.{
  ℕ, zero, suc, ◌+◌, ◌-◌, ◌*◌, ◌^◌, ◌≤◌, ◌<◌, ◌≡◌, refl, true, List, [], ◌∷◌, none, length, ltb,
  lt→ltb, Returns, returns, suc-eq_zero, arith,
}
use fusion_tree_benchmark.Word.{word}
use fusion_tree_benchmark.Spec.{
  IsKeys, IsDistinct, IsPredecessor, before, rank, rank-Splits, before-IsPredecessor,
}
use fusion_tree_benchmark.Search.LastMile.{Splits-Window}
use fusion_tree_benchmark.Tree.{NodeType, Tree, build, predecessor}
use fusion_tree_benchmark.Tree.Descend.{NodeLaws, within}
use fusion_tree_benchmark.Tree.Build.{build_range-Built}

within-before : (a : List ℕ) (lb : ℕ) → within a 0 lb none ≡ before a lb
within-before a zero = refl
within-before a (suc lb) =
    let pos : ltb 0 (suc lb) ≡ true = lt→ltb 0 (suc lb) (omega arith) in
    let e : suc lb - 1 ≡ lb = omega arith in rw (pos, e) refl

module _ {N : Type 0} (node : NodeType N) (arity : ℕ) (laws : NodeLaws node arity) where
  -- A tree over any node type that, for sorted and distinct keys, counts the keys below a query and
  -- gives its keys back: for nodes of at least one key, at most 2 ^ 31 keys, and so few that their number
  -- times (arity + 1) is below 2 ^ 64, the construction ends, and on the tree it gives the search for any
  -- 64-bit query ends, reads only inside the node vector and the nodes' children, and returns the
  -- largest key below the query, or that there is none.
  pub tree_correct :
      (a : List ℕ)
      → IsKeys a
      → IsDistinct a
      → 0 < arity
      → length a * (arity + 1) < word
      → length a ≤ 2 ^ 31
      → Returns
          (λ (tree : Tree N).
            (q : ℕ) → q < word → Returns (IsPredecessor a q) (predecessor node tree q))
          (build node arity a)
  unfolding build predecessor rank
  tree_correct [] keys distinct pos room ints =
      returns (λ q query. returns (before-IsPredecessor [] q 0 keys (rank-Splits [] q keys)))
  tree_correct (x ∷ xs) keys distinct pos room ints =
      let a = x ∷ xs in
      let ((root, nodes), run, b) =
        build_range-Built node arity laws a keys distinct (suc (length a)) 0 (length a) [] pos room
          (omega arith) (omega arith) (omega arith) (omega arith) in
      rw (suc-eq_zero (length xs), run)
        (returns (λ q query.
          let s = rank-Splits a q keys in
          rw
            (
              b.answers nodes (record { reaches = omega arith; same = λ i g h. refl }) q (rank a q)
                  (suc (length nodes)) none query
                  (Splits-Window a q 0 (length a) (rank a q) s (omega arith) s.inside (omega arith))
                  (omega arith),
              within-before a (rank a q),
            )
            (returns (before-IsPredecessor a q (rank a q) keys s))))
