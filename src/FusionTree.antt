-- ===== src/FusionTree.antt =====
-- include/structures.hpp, FusionTree<K> = FusionTreeT<FusionNode<K>, K>: the tree of fusion nodes, built
-- without PEXT.
pub mod Correct
use fusion_tree_benchmark.Prelude.{ℕ, false, List, Option, Run, ok, load}
use fusion_tree_benchmark.FusionNode.{FusionNode}
use fusion_tree_benchmark.FusionNode
use fusion_tree_benchmark.FusionNode.Repair
use fusion_tree_benchmark.Tree
use fusion_tree_benchmark.Tree.{NodeType, Tree}

-- The three operations of a node that the tree calls.
abbrev pub fusion_node : NodeType FusionNode
fusion_node = record {
  make = FusionNode.build false;
  rank = λ nd q. ok (Repair.rank false nd q);
  key = λ nd i. load nd.keys i;
}

unfoldable pub build : ℕ → List ℕ → Run (Tree FusionNode)
build arity s = Tree.build fusion_node arity s

unfoldable pub predecessor : Tree FusionNode → ℕ → Run (Option ℕ)
predecessor tree q = Tree.predecessor fusion_node tree q
