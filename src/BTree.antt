-- ===== src/BTree.antt =====
-- include/structures.hpp, class BTree: the static B-tree. Construction and descent are those of the
-- fusion tree; the nodes are arrays of `slots` keys, scanned.
pub mod Nodes
pub mod Correct
use Prim.Native.Nat.{bit_and}
use fusion_tree_benchmark.Prelude.{
  ℕ, zero, suc, ◌+◌, ◌-◌, ◌/◌, ◌%◌, ◌^◌, Bool, ◌&&◌, List, [], ◌∷◌, ◌++◌, Option, length, replicate,
  ◌!◌, ltb, ◌==◌, if◌then◌else◌, Run, ok, ◌>>=◌, load, advance,
}
use fusion_tree_benchmark.Word.Masks.{count_bits}
use fusion_tree_benchmark.Word.Signed.{slt, flip}
use fusion_tree_benchmark.Search.{scan, shl32}
use fusion_tree_benchmark.Tree
use fusion_tree_benchmark.Tree.{NodeType, Tree, Node}

-- `Branchless = false`; `Branchless = true` where AVX2 is there, and where it is not.
pub data NodeScan : Type 0 where
  early_exit avx2 portable : NodeScan

-- The keys of a node, unused slots 0, and how many are live.
pub record KeyNode : Type 0 where
  pub key : List ℕ
  pub n : ℕ

unfoldable pub make : ℕ → List ℕ → KeyNode
make slots xs = record { key = xs ++ replicate (slots - length xs) 0; n = length xs }

-- `for (i < B) r += (i < nd.n) & (nd.key[i] < q)`, from slot `i` on.
unfoldable pub count_live : ℕ → ℕ → List ℕ → ℕ → ℕ
count_live n q [] i = 0
count_live n q (k ∷ key) i = (if ltb i n && ltb k q then 1 else 0) + count_live n q key (suc i)

-- Four keys per compare, top bits flipped on both sides.
unfoldable pub rank_avx2 : ℕ → KeyNode → ℕ → Run ℕ
rank_avx2 slots nd q = do
  m ← scan (slots / 4) (λ k. slt (flip k) (flip q)) nd.key 0 0 0
  ok (count_bits 64 (bit_and m (shl32 1 nd.n - 1)))

unfoldable pub node_rank : NodeScan → ℕ → KeyNode → ℕ → Run ℕ
unfolding count_live rank_avx2
node_rank early_exit slots nd q = ok (advance (λ r. ltb (nd.key ! r) q) nd.n 0)
node_rank avx2 slots nd q =
    if slots % 4 == 0 then rank_avx2 slots nd q else ok (count_live nd.n q nd.key 0)
node_rank portable slots nd q = ok (count_live nd.n q nd.key 0)

abbrev pub key_node : NodeScan → ℕ → NodeType KeyNode
key_node mode slots = record {
  make = make slots;
  rank = node_rank mode slots;
  key = λ nd i. load nd.key i;
}

unfoldable pub build_range :
    NodeScan → ℕ → ℕ → List ℕ → ℕ → ℕ → List (Node KeyNode) → Run (ℕ × List (Node KeyNode))
build_range mode slots fuel s lo hi nodes =
    Tree.build_range (key_node mode slots) slots s fuel lo hi nodes

unfoldable pub build : NodeScan → ℕ → List ℕ → Run (Tree KeyNode)
build mode slots s = Tree.build (key_node mode slots) slots s

unfoldable pub predecessor : NodeScan → ℕ → Tree KeyNode → ℕ → Run (Option ℕ)
predecessor mode slots tree q = Tree.predecessor (key_node mode slots) tree q
