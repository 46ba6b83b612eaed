-- ===== src/SPlusTree/Counts.antt =====
-- The numbers of nodes on the layers of include/splus_tree.hpp: the loop ends, and within its array.
use native.Mathlib.Nat.{pow-zero, pow-suc, div-lt_iff_lt-mul}
use fusion_tree_benchmark.Prelude.{
  ℕ, zero, suc, ◌+◌, ◌*◌, ◌/◌, ◌^◌, ◌≤◌, ◌<◌, ◌≡◌, refl, List, [], ◌∷◌, ltb, le→ltb, Bool-cases,
  inl, inr, ltb→lt, ltb→le, Returns, returns, arith,
}
use fusion_tree_benchmark.SPlusTree.{node_counts}

-- The layers above a layer of `m` nodes: each has one node for `b + 1` of the layer below, and the last
-- layer has one node.
abbrev pub Counted : ℕ → ℕ → List ℕ → Type 0
Counted b m [] = m ≤ 1
Counted b m (c ∷ cs) = (1 < m) × (c ≡ (m + b) / (b + 1)) × Counted b c cs

next-le : (b m p : ℕ) → m ≤ p * (b + 1) → (m + b) / (b + 1) ≤ p
next-le b m p h =
    let bound : m + b < (p + 1) * (b + 1) = grind arith in
    let below = (div-lt_iff_lt-mul (omega arith)).1 bound in omega (arith, below)

-- For every node size and any number m of nodes that is at most (b + 1) ^ room: the loop that counts the
-- nodes of the layers ends within the room left in its array, and counts b + 1 nodes of a layer as one
-- of the next, up to a single node.
pub node_counts-Counted :
    (b room m : ℕ) → m ≤ (b + 1) ^ room → Returns (Counted b m) (node_counts b room m)
unfolding node_counts
node_counts-Counted b zero m h =
    let one : m ≤ 1 = omega (arith, h, pow-zero (b + 1)) in rw (le→ltb 1 m one) (returns one)
node_counts-Counted b (suc room) m h = elim (Bool-cases (ltb 1 m)) [
  | inr done ↦ rw done (returns (ltb→le 1 m done))
  | inl more ↦
      let fit = next-le b m ((b + 1) ^ room) (omega (arith, h, pow-suc (b + 1) room)) in
      let (cs, run, counted) = node_counts-Counted b room ((m + b) / (b + 1)) fit in
      rw (more, run) (returns (ltb→lt 1 m more, refl, counted))
]
