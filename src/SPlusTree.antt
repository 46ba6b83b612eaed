-- ===== src/SPlusTree.antt =====
-- include/splus_tree.hpp, class SPlusTree<B>: a static B+ tree with no pointers, for B = 4 * rounds. The
-- layers stand one behind the other in one allocation; here each is a list, and a read outside it is a
-- fault. Memory is not released.
pub mod Correct
pub mod Counts
pub mod Descent
pub mod Layers
pub mod Search
use fusion_tree_benchmark.Prelude.{
  ℕ, zero, suc, ◌+◌, ◌-◌, ◌*◌, ◌/◌, Bool, ◌&&◌, List, [], ◌∷◌, ◌++◌, Option, length, ◌!◌, ltb,
  if◌then◌else◌, Run, fault, ok, ◌>>=◌, load,
}
use fusion_tree_benchmark.Word.{add64, mul64}
use fusion_tree_benchmark.Word.Signed.{slt, flip}
use fusion_tree_benchmark.Search.{pad, flipped_copy, answer}
use fusion_tree_benchmark.Search.Count.{count_less}

pub record SPlusTree : Type 0 where
  -- `layer_[0]`.
  pub leaves : List ℕ
  -- `layer_[1]`, `layer_[2]`, ..., the root last.
  pub upper : List (List ℕ)
  pub n : ℕ

-- `nodes[H] = (nodes[H - 1] + B) / (B + 1); ++H;` while the last entry `m` is more than 1. The array has
-- `room` places left for entries behind `m`.
unfoldable pub node_counts : ℕ → ℕ → ℕ → Run (List ℕ)
node_counts b zero m = if ltb 1 m then fault else ok []
node_counts b (suc room) m =
    let next = (m + b) / (b + 1) in
    let more : Run (List ℕ) = (do rest ← node_counts b room next; ok (next ∷ rest)) in
    if ltb 1 m then more else ok []

-- Separator `j` of node `k`: the first key of leaf `(k * (B + 1) + j + 1) * span`.
unfoldable pub separator : ℕ → List ℕ → ℕ → ℕ → ℕ → ℕ → ℕ
separator b a leaves span k j =
    let leaf = mul64 (add64 (mul64 k (b + 1)) (j + 1)) span in
    let idx = mul64 leaf b in if ltb leaf leaves && ltb idx (length a) then flip (a ! idx) else pad

-- `for (j = 0; j < B; ++j)`, with `left` separators to go.
unfoldable pub node_keys : ℕ → List ℕ → ℕ → ℕ → ℕ → ℕ → ℕ → List ℕ
unfolding separator
node_keys b a leaves span k zero j = []
node_keys b a leaves span k (suc left) j =
    separator b a leaves span k j ∷ node_keys b a leaves span k left (suc j)

-- `for (k = 0; k < nodes[h]; ++k)`, with `left` nodes to go.
unfoldable pub layer : ℕ → List ℕ → ℕ → ℕ → ℕ → ℕ → List ℕ
unfolding node_keys
layer b a leaves span zero k = []
layer b a leaves span (suc left) k =
    node_keys b a leaves span k b 0 ++ layer b a leaves span left (suc k)

-- The loop over the upper layers, whose numbers of nodes are given.
unfoldable pub upper_layers : ℕ → List ℕ → ℕ → ℕ → List ℕ → List (List ℕ)
unfolding layer
upper_layers b a leaves span [] = []
upper_layers b a leaves span (count ∷ counts) =
    layer b a leaves span count 0 ∷ upper_layers b a leaves (mul64 span (b + 1)) counts

-- `nodes` has 16 places, and the first is the leaves'.
unfoldable pub build : ℕ → List ℕ → Run SPlusTree
unfolding node_counts upper_layers
build rounds a = do
  let b = 4 * rounds
  let leaves = length a / b + 1
  counts ← node_counts b 15 leaves
  ok (record {
    leaves = flipped_copy (leaves * b - length a) a;
    upper = upper_layers b a leaves 1 counts;
    n = length a;
  })

-- How many of the B keys from place `p` on are less than `q`.
unfoldable pub rank : ℕ → List ℕ → ℕ → ℕ → Run ℕ
rank rounds keys p q = count_less rounds (λ k. slt k (flip q)) keys p

-- `for (h = H - 1; h > 0; --h) k = k * (B + 1) + rank(layer[h] + k * B)`: the upper layers come first.
unfoldable pub descend : ℕ → List (List ℕ) → ℕ → Run ℕ
unfolding rank
descend rounds [] q = ok 0
descend rounds (keys ∷ above) q = do
  k ← descend rounds above q
  r ← rank rounds keys (k * (4 * rounds)) q
  ok (k * (4 * rounds + 1) + r)

unfoldable pub lower_bound_index : ℕ → SPlusTree → ℕ → Run ℕ
unfolding descend
lower_bound_index rounds t q = do
  k ← descend rounds t.upper q
  r ← rank rounds t.leaves (k * (4 * rounds)) q
  ok (k * (4 * rounds) + r)

unfoldable pub predecessor : ℕ → SPlusTree → ℕ → Run (Option ℕ)
unfolding lower_bound_index
predecessor rounds t q = do lb ← lower_bound_index rounds t q; answer t.leaves lb

-- `layer_[0][i] ^ FLIP`.
unfoldable pub key_at : SPlusTree → ℕ → Run ℕ
key_at t i = do k ← load t.leaves i; ok (flip k)
