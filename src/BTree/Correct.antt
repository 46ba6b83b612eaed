-- ===== src/BTree/Correct.antt =====
-- The B-tree in each of its forms finds predecessors.
use fusion_tree_benchmark.Prelude.{ℕ, ◌+◌, ◌*◌, ◌^◌, ◌≤◌, ◌<◌, List, length, Returns}
use fusion_tree_benchmark.Word.{word}
use fusion_tree_benchmark.Spec.{IsKeys, IsDistinct, IsPredecessor}
use fusion_tree_benchmark.Tree.{Tree}
use fusion_tree_benchmark.Tree.Correct.{tree_correct}
use fusion_tree_benchmark.BTree.{NodeScan, KeyNode, key_node, build, predecessor}
use fusion_tree_benchmark.BTree.Nodes.{key_node-Laws}

-- A B-tree of 1 to 16 slots, with either scan, over at most 2 ^ 31 sorted and distinct 64-bit keys,
-- so few that their number times (slots + 1) is below 2 ^ 64: the construction ends, and on its tree the search for any
-- 64-bit query ends, reads only inside the arrays, and returns the largest key below the query, or
-- that there is none.
pub btree_correct :
    (mode : NodeScan) (slots : ℕ) (a : List ℕ)
    → 0 < slots
    → slots ≤ 16
    → IsKeys a
    → IsDistinct a
    → length a * (slots + 1) < word
    → length a ≤ 2 ^ 31
    → Returns
        (λ (tree : Tree KeyNode).
          (q : ℕ) → q < word → Returns (IsPredecessor a q) (predecessor mode slots tree q))
        (build mode slots a)
unfolding build predecessor
btree_correct mode slots a pos small keys distinct room ints =
    tree_correct (key_node mode slots) slots (key_node-Laws mode slots small) a keys distinct pos
      room ints
