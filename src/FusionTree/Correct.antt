-- ===== src/FusionTree/Correct.antt =====
-- The fusion tree finds predecessors.
use fusion_tree_benchmark.Prelude.{
  ℕ, ◌+◌, ◌*◌, ◌^◌, ◌≤◌, ◌<◌, ◌≡◌, ap, false, List, length, ◌!◌, ok, load, load-ok, Returns, arith,
}
use fusion_tree_benchmark.Word.{word}
use fusion_tree_benchmark.Spec.{IsKeys, IsDistinct, IsPredecessor}
use fusion_tree_benchmark.FusionNode.{FusionNode}
use fusion_tree_benchmark.FusionNode
use fusion_tree_benchmark.FusionNode.Correct.{rank-rank}
use fusion_tree_benchmark.Tree.{Tree}
use fusion_tree_benchmark.Tree.Descend.{NodeLaws}
use fusion_tree_benchmark.Tree.Correct.{tree_correct}
use fusion_tree_benchmark.FusionTree.{fusion_node, build, predecessor}

read-key :
    (xs : List ℕ) (i : ℕ) → i < length xs → load (FusionNode.build false xs).keys i ≡ ok (xs ! i)
unfolding FusionNode.build
read-key xs i h = load-ok xs i 0 h

-- A fusion node does what the tree relies on.
fusion_node-Laws : (arity : ℕ) → arity ≤ 8 → NodeLaws fusion_node arity
fusion_node-Laws arity small = record {
  rank_ok = λ xs q keys distinct some few query.
      ap ok (rank-rank xs keys distinct (omega arith) some q query);
  key_ok = λ xs i few h. read-key xs i h;
}

-- A fusion tree of nodes with 1 to 8 keys, built without PEXT, over at most 2 ^ 31 sorted and distinct
-- 64-bit keys, so few that their number times (arity + 1) is below 2 ^ 64: the construction ends, and on its tree the
-- search for any 64-bit query ends, reads only inside the arrays, and returns the largest key below the
-- query, or that there is none.
pub fusion_tree_correct :
    (arity : ℕ) (a : List ℕ)
    → 0 < arity
    → arity ≤ 8
    → IsKeys a
    → IsDistinct a
    → length a * (arity + 1) < word
    → length a ≤ 2 ^ 31
    → Returns
        (λ (tree : Tree FusionNode).
          (q : ℕ) → q < word → Returns (IsPredecessor a q) (predecessor tree q))
        (build arity a)
unfolding build predecessor
fusion_tree_correct arity a pos small keys distinct room ints =
    tree_correct fusion_node arity (fusion_node-Laws arity small) a keys distinct pos room ints
