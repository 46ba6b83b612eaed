-- ===== src/Tests/Trees.antt =====
-- Runs of the trees and of their nodes, and their theorems at inputs.
use fusion_tree_benchmark.Prelude.{
  true, ℕ, ◌<◌, ◌≡◌, refl, false, [], ◌∷◌, none, some, ok, ◌>>=◌, Returns, arith,
}
use fusion_tree_benchmark.Word.{word, mul64}
use fusion_tree_benchmark.Spec.{
  IsKeys, IsDistinct, IsPredecessor, rank, Chain-IsKeys, Rising-IsDistinct,
}
use fusion_tree_benchmark.Bits.{highest_diff_bit, extract_bits_naive, mask_from_positions}
use fusion_tree_benchmark.Bits.HighDiff.{Top, highest_diff_bit-Top}
use fusion_tree_benchmark.FusionNode
use fusion_tree_benchmark.FusionNode.{FusionNode}
use fusion_tree_benchmark.FusionNode.Repair
use fusion_tree_benchmark.FusionNode.Order.{digits_at, extract_bits_naive-digits_at}
use fusion_tree_benchmark.FusionNode.Correct.{rank-rank}
use fusion_tree_benchmark.Tree
use fusion_tree_benchmark.Tree.{Tree, separators}
use fusion_tree_benchmark.Tree.Branch.{Cuts}
use fusion_tree_benchmark.Tree.Separators.{separators-Cuts}
use fusion_tree_benchmark.Tree.Correct.{tree_correct}
use fusion_tree_benchmark.BTree
use fusion_tree_benchmark.BTree.{
  KeyNode, early_exit, avx2, portable, key_node, make, node_rank, count_live, rank_avx2,
}
use fusion_tree_benchmark.BTree.Nodes.{node_rank-rank, key_node-Laws}
use fusion_tree_benchmark.BTree.Correct.{btree_correct}
use fusion_tree_benchmark.FusionNode.Pext.{sketch_pext-extract_bits_naive}
use fusion_tree_benchmark.FusionNode.Positions.{node_correct}
use fusion_tree_benchmark.FusionTree
use fusion_tree_benchmark.FusionTree.Correct.{fusion_tree_correct}
use fusion_tree_benchmark.Tests.{twelve, twelve-IsKeys, program, five}

twelve-IsDistinct : IsDistinct twelve
twelve-IsDistinct = Rising-IsDistinct twelve (ground arith)

pub five-IsKeys : IsKeys five
five-IsKeys = Chain-IsKeys five (omega arith)

pub five-IsDistinct : IsDistinct five
five-IsDistinct = Rising-IsDistinct five (ground arith)

trees : Unit {0}
unfolding program mul64 Tree.to_index separators Tree.build_kids Tree.build_range Tree.build
    Tree.descend Tree.predecessor make count_live rank_avx2 node_rank BTree.build BTree.predecessor
    FusionTree.build FusionTree.predecessor
trees = tt

btree_runs :
    ((do tree ← BTree.build early_exit 2 twelve; BTree.predecessor early_exit 2 tree 60)
      ≡ ok (some 55))
    × ((do tree ← BTree.build avx2 4 twelve; BTree.predecessor avx2 4 tree 3) ≡ ok none)
    × ((do tree ← BTree.build portable 3 twelve; BTree.predecessor portable 3 tree 22)
        ≡ ok (some 21))
unfolding trees
btree_runs = (refl, refl, refl)

fusion_tree_run :
    (do tree ← FusionTree.build 3 twelve; FusionTree.predecessor tree 0x8000000000000003)
    ≡ ok (some 0x8000000000000001)
unfolding trees
fusion_tree_run = refl

fusion_tree_correct_example :
    Returns
      (λ (tree : Tree FusionNode).
        (q : ℕ) → q < word → Returns (IsPredecessor twelve q) (FusionTree.predecessor tree q))
      (FusionTree.build 3 twelve)
fusion_tree_correct_example =
    fusion_tree_correct 3 twelve (omega arith) (omega arith) twelve-IsKeys twelve-IsDistinct
      (omega arith) (omega arith)

btree_correct_example :
    Returns
      (λ (tree : Tree KeyNode).
        (q : ℕ) → q < word → Returns (IsPredecessor twelve q) (BTree.predecessor avx2 4 tree q))
      (BTree.build avx2 4 twelve)
btree_correct_example =
    btree_correct avx2 4 twelve (omega arith) (omega arith) twelve-IsKeys twelve-IsDistinct
      (omega arith) (omega arith)

tree_correct_example :
    Returns
      (λ (tree : Tree KeyNode).
        (q : ℕ)
        → q < word
        → Returns (IsPredecessor twelve q) (Tree.predecessor (key_node portable 3) tree q))
      (Tree.build (key_node portable 3) 3 twelve)
tree_correct_example =
    tree_correct (key_node portable 3) 3 (key_node-Laws portable 3 (omega arith)) twelve
      twelve-IsKeys twelve-IsDistinct (omega arith) (omega arith) (omega arith)

rank-rank_example : Repair.rank false (FusionNode.build false five) 199 ≡ rank five 199
rank-rank_example =
    rank-rank five five-IsKeys five-IsDistinct (omega arith) (omega arith) 199 (omega arith)

node_correct_example :
    Returns (IsPredecessor five 199) (Repair.predecessor true (FusionNode.build true five) 199)
node_correct_example =
    node_correct true five 199 five-IsKeys five-IsDistinct (omega arith) (omega arith) (omega arith)

-- The route that PEXT replaces, and the loop that stands in for it, on one key.
sketch_pext-extract_bits_naive_example :
    FusionNode.sketch_pext 200 (mask_from_positions (2 ∷ 3 ∷ 7 ∷ 63 ∷ []))
    ≡ extract_bits_naive 200 (2 ∷ 3 ∷ 7 ∷ 63 ∷ [])
sketch_pext-extract_bits_naive_example =
    sketch_pext-extract_bits_naive 200 (2 ∷ 3 ∷ 7 ∷ 63 ∷ []) (omega arith) (omega arith)

node_rank-rank_example : node_rank avx2 8 (make 8 five) 199 ≡ ok (rank five 199)
node_rank-rank_example =
    node_rank-rank avx2 8 five 199 (omega arith) five-IsKeys (omega arith) (omega arith)

separators-Cuts_example : Cuts 0 12 (separators 3 0 12 3 1)
separators-Cuts_example = separators-Cuts 3 0 12 (omega arith) (omega arith)

extract_bits_naive-digits_at_example :
    extract_bits_naive 200 (2 ∷ 3 ∷ 7 ∷ []) ≡ digits_at 200 (2 ∷ 3 ∷ 7 ∷ [])
extract_bits_naive-digits_at_example =
    extract_bits_naive-digits_at 200 (2 ∷ 3 ∷ 7 ∷ []) (omega arith)

highest_diff_bit-Top_example : Top 12 200 (highest_diff_bit 12 200)
highest_diff_bit-Top_example =
    highest_diff_bit-Top 12 200 (omega arith) (omega arith) (λ e. absurd (omega (arith, e)))
