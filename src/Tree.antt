-- ===== src/Tree.antt =====
-- include/structures.hpp, class FusionTreeT: a static multiway search tree over any node type. BTree has
-- the same construction and descent, with its own nodes. Nodes stand in one vector and name their
-- children by index; an index of -1 is `none`. An index is an `int` in the code (`to_index`).
pub mod Descend
pub mod Branch
pub mod Separators
pub mod Build
pub mod Correct
use fusion_tree_benchmark.Prelude.{
  ℕ, zero, suc, ◌+◌, ◌-◌, ◌/◌, ◌^◌, Bool, true, false, List, [], ◌∷◌, ◌++◌, map, Option, none, some,
  length, slice, put, ◌!◌, ltb, leb, ◌==◌, if◌then◌else◌, Run, ok, fault, out_of_fuel, ◌>>=◌, load,
}
use fusion_tree_benchmark.Word.{mul64}

-- What a tree uses of its node type: `build`, `rank` and `key`.
pub record NodeType (N : Type 0) : Type 0 where
  pub make : List ℕ → N
  pub rank : N → ℕ → Run ℕ
  pub key : N → ℕ → Run ℕ

pub record Node (N : Type 0) : Type 0 where
  pub fn : N
  pub child : List (Option ℕ)
  pub leaf : Bool

pub record Tree (N : Type 0) : Type 0 where
  pub nodes : List (Node N)
  pub root : Option ℕ

-- The positions of the separators `i`, `i + 1`, ... of which `left` remain:
-- `bounds[i] = lo + (count * i) / (K + 1)`, clamped to the range.
unfoldable pub separators : ℕ → ℕ → ℕ → ℕ → ℕ → List ℕ
separators arity lo hi zero i = []
separators arity lo hi (suc left) i =
    let bound = lo + mul64 (hi - lo) i / (arity + 1) in
    (if leb hi bound then hi - 1 else bound) ∷ separators arity lo hi left (suc i)

-- `(int)nodes_.size()`, at once the place of a write. From 2 ^ 31 nodes on the cast gives a negative
-- number, and the write through it lies outside the vector.
unfoldable pub to_index : ℕ → Run ℕ
to_index n = if ltb n (2 ^ 31) then ok n else fault

module _ {N : Type 0} where
  -- The loop over the children's ranges, which end at `ends`, from `start` on.
  unfoldable pub build_kids :
      (ℕ → ℕ → List (Node N) → Run (ℕ × List (Node N)))
      → List ℕ
      → ℕ
      → List (Node N)
      → Run (List (Option ℕ) × List (Node N))
  build_kids build [] start nodes = ok ([], nodes)
  build_kids build (end ∷ ends) start nodes = do
    let built : Run (Option ℕ × List (Node N)) = (do
      (idx, grown) ← build start end nodes
      ok (some idx, grown))
    (kid, grown) ← if ltb start end then built else ok (none, nodes)
    (kids, last) ← build_kids build ends (suc end) grown
    ok (kid ∷ kids, last)

  -- The recursion is on ranges that get smaller.
  unfoldable pub build_range :
      NodeType N → ℕ → List ℕ → ℕ → ℕ → ℕ → List (Node N) → Run (ℕ × List (Node N))
  unfolding build_kids separators to_index
  build_range node arity s zero lo hi nodes = out_of_fuel
  build_range node arity s (suc fuel) lo hi nodes =
      let leaf : Node N = record { fn = node.make (slice s lo hi); child = []; leaf = true } in
      let seps = separators arity lo hi arity 1 in
      let fn = node.make (map (λ p. s ! p) seps) in
      let inner : List (Option ℕ) → Node N =
        λ kids. record { fn = fn; child = kids; leaf = false } in
      let branch : ℕ → Run (ℕ × List (Node N)) = λ self. (do
        (kids, grown) ←
            build_kids (build_range node arity s fuel) (seps ++ hi ∷ []) lo (nodes ++ inner [] ∷ [])
        ok (self, put grown self (inner kids))) in
      do
        self ← to_index (length nodes)
        if leb (hi - lo) arity then ok (self, nodes ++ leaf ∷ []) else branch self

  unfoldable pub build : NodeType N → ℕ → List ℕ → Run (Tree N)
  unfolding build_range
  build node arity s =
      let built : Run (Tree N) = (do
        (root, nodes) ← build_range node arity s (suc (length s)) 0 (length s) []
        ok (record { nodes = nodes; root = some root })) in
      let empty : Tree N = record { nodes = []; root = none } in
      if length s == 0 then ok empty else built

  -- `while (idx >= 0)`, with what was found so far.
  unfoldable pub descend : NodeType N → ℕ → List (Node N) → ℕ → Option ℕ → Option ℕ → Run (Option ℕ)
  descend node fuel nodes q none out = ok out
  descend node zero nodes q (some idx) out = out_of_fuel
  descend node (suc fuel) nodes q (some idx) out = do
    nd ← load nodes idx
    r ← node.rank nd.fn q
    let read : Run (Option ℕ) = (do k ← node.key nd.fn (r - 1); ok (some k))
    found ← if ltb 0 r then read else ok out
    next ← if nd.leaf then ok none else load nd.child r
    descend node fuel nodes q next found

  unfoldable pub predecessor : NodeType N → Tree N → ℕ → Run (Option ℕ)
  unfolding descend
  predecessor node tree q = descend node (suc (length tree.nodes)) tree.nodes q tree.root none
