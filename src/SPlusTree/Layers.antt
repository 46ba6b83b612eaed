-- ===== src/SPlusTree/Layers.antt =====
-- Where the separators of include/splus_tree.hpp stand in their layer.
use fusion_tree_benchmark.Prelude.{
  ℕ, zero, suc, ◌+◌, ◌*◌, ◌<◌, ◌≡◌, refl, ap, ◌∙◌, List, length, ◌!◌, arith, length-append,
  get_or-append_left, get_or-append_right,
}
use fusion_tree_benchmark.SPlusTree.{separator, node_keys, layer}

module _ (b : ℕ) (a : List ℕ) (leaves span : ℕ) where
  length-node_keys : (k left j : ℕ) → length (node_keys b a leaves span k left j) ≡ left
  unfolding node_keys
  length-node_keys k zero j = refl
  length-node_keys k (suc left) j = ap suc (length-node_keys k left (suc j))

  node_keys-get :
      (k left j i : ℕ)
      → i < left
      → node_keys b a leaves span k left j ! i ≡ separator b a leaves span k (j + i)
  unfolding node_keys
  node_keys-get k zero j i h = absurd (omega arith)
  node_keys-get k (suc left) j zero h = ap (λ t. separator b a leaves span k t) (omega arith)
  node_keys-get k (suc left) j (suc i) h =
      node_keys-get k left (suc j) i (omega arith)
      ∙ ap (λ t. separator b a leaves span k t) (omega arith)

  pub length-layer : (left k : ℕ) → length (layer b a leaves span left k) ≡ left * b
  unfolding layer
  length-layer zero k = omega arith
  length-layer (suc left) k = omega (
    arith,
    length-append {0} (node_keys b a leaves span k b 0) (layer b a leaves span left (suc k)),
    length-node_keys k b 0,
    length-layer left (suc k),
  )

  -- Separator `j` of node `m`.
  pub layer-get :
      (left k m j : ℕ)
      → m < left
      → j < b
      → layer b a leaves span left k ! (m * b + j) ≡ separator b a leaves span (k + m) j
  unfolding layer
  layer-get zero k m j h l = absurd (omega arith)
  layer-get (suc left) k zero j h l =
      let size = length-node_keys k b 0 in
      get_or-append_left (node_keys b a leaves span k b 0) (layer b a leaves span left (suc k))
        (0 * b + j) 0 (omega arith)
      ∙ ap (λ t. node_keys b a leaves span k b 0 ! t) (omega arith)
      ∙ node_keys-get k b 0 j l
      ∙ ap (λ t. separator b a leaves span k t) (omega arith)
      ∙ ap (λ t. separator b a leaves span t j) (omega arith)
  layer-get (suc left) k (suc m) j h l =
      let size = length-node_keys k b 0 in
      get_or-append_right (node_keys b a leaves span k b 0) (layer b a leaves span left (suc k))
        (m * b + j) (suc m * b + j) 0 (omega arith)
      ∙ layer-get left (suc k) m j (omega arith) l
      ∙ ap (λ t. separator b a leaves span t j) (omega arith)
