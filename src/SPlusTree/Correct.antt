-- ===== src/SPlusTree/Correct.antt =====
-- The descent of include/splus_tree.hpp reaches the leaf of the key in front of the dividing position.
use native.Mathlib.Nat.{
  le-div_iff_mul-le, div-div-eq-div-mul, div-add-mod', div-mul-le_self, mod-lt, mul-le-mul_right,
  mul_comm, mul_assoc, add-mul, le-mul_of_pos_right, mod-eq_of_lt,
}
use fusion_tree_benchmark.Prelude.{
  ℕ, ◌+◌, ◌-◌, ◌*◌, ◌/◌, ◌%◌, ◌≤◌, ◌<◌, ◌≡◌, refl, List, [], ◌∷◌, ap, sym, ◌∙◌, ok, arith,
}
use fusion_tree_benchmark.Word.{word, mul64}
use fusion_tree_benchmark.Word.Signed.{slt, flip}
use fusion_tree_benchmark.Spec.{IsKeys, Splits}
use fusion_tree_benchmark.Search.Count.{count_less-ok}
use fusion_tree_benchmark.SPlusTree.{separator, layer, upper_layers, rank, descend}
use fusion_tree_benchmark.SPlusTree.Counts.{Counted}
use fusion_tree_benchmark.SPlusTree.Layers.{length-layer, layer-get}
use fusion_tree_benchmark.SPlusTree.Descent.{Target, child_iff, separator_passes, separator_fails}

-- A layer of `c` nodes above a layer of `m`.
module _ (b m c : ℕ) (e : c ≡ (m + b) / (b + 1)) where
  parent-lt : (x : ℕ) → x < m → x / (b + 1) < c
  parent-lt x h =
      let low = div-mul-le_self x (b + 1) in
      let fits =
        (le-div_iff_mul-le {k = b + 1} {x = x / (b + 1) + 1} {y = m + b} (omega arith)).1 in
      let sum = add-mul (x / (b + 1)) 1 (b + 1) in omega (arith, e, fits (omega arith))

  last_parent : 1 < m → (c - 1) * (b + 1) ≤ m - 1
  last_parent h =
      let high = div-mul-le_self (m + b) (b + 1) in
      let whole : c * (b + 1) ≤ m + b = rw e high in
      let some_node : 0 < c = omega (arith, parent-lt 0 (omega arith)) in
      let split : c ≡ c - 1 + 1 = omega arith in
      let sum = add-mul (c - 1) 1 (b + 1) in
      let again : c * (b + 1) ≡ (c - 1 + 1) * (b + 1) = ap (λ (x : ℕ). x * (b + 1)) split in
      omega arith

module _ (rounds : ℕ) (a : List ℕ) (q leaves lb t : ℕ) (keys : IsKeys a) (small : q < word)
    (s : Splits a q lb) (g : Target (4 * rounds) a leaves lb t) (wide : 0 < rounds)
    (few : rounds ≤ 8) (room : leaves * (4 * rounds + 1) * (4 * rounds) < word) where
  abbrev b : ℕ
  b = 4 * rounds

  module _ (span m c : ℕ) (pos : 0 < span) (more : 1 < m) (e : c ≡ (m + b) / (b + 1))
      (below : t / span < m) (bound : (m - 1) * span < leaves) where
    abbrev node : ℕ
    node = t / (span * (b + 1))

    abbrev child : ℕ
    child = t / span % (b + 1)

    node-eq : node ≡ t / span / (b + 1)
    node-eq = sym (div-div-eq-div-mul t span (b + 1))

    node-lt : node < c
    node-lt = omega (arith, node-eq, parent-lt b m c e (t / span) below)

    last_node : (c - 1) * (b + 1) * span < leaves
    last_node =
        let up : (c - 1) * (b + 1) * span ≤ (m - 1) * span =
          mul-le-mul_right span (last_parent b m c e more) in
        omega arith

    span-lt : span < leaves
    span-lt =
        let one : 1 * span ≤ (m - 1) * span = mul-le-mul_right span (omega arith) in omega arith

    in_range : (j : ℕ) → j < b → (node * (b + 1) + (j + 1)) * span < leaves * (b + 1)
    in_range j h =
        let left : node * (b + 1) ≤ (c - 1) * (b + 1) =
          mul-le-mul_right (b + 1) (omega (arith, node-lt)) in
        let left' : node * (b + 1) * span ≤ (c - 1) * (b + 1) * span = mul-le-mul_right span left in
        let right : (j + 1) * span ≤ b * span = mul-le-mul_right span (omega arith) in
        let right' : span * b ≤ leaves * b = mul-le-mul_right b (omega (arith, span-lt)) in
        let sum = add-mul (node * (b + 1)) (j + 1) span in omega (arith, last_node, mul_comm b span)

    -- In the layer above, the rank in the node of leaf `t` is the number of its child.
    step : rank rounds (layer b a leaves span c 0) (node * b) q ≡ ok child
    unfolding rank
    step =
        let size = length-layer b a leaves span c 0 in
        let stop : (node + 1) * b ≤ c * b = mul-le-mul_right b (omega (arith, node-lt)) in
        let at = λ (j : ℕ) (h : j < b).
          layer-get b a leaves span c 0 node j node-lt h
          ∙ ap (λ k. separator b a leaves span k j) (omega arith) in
        let child_lem = λ (j : ℕ). child_iff t span b node j pos refl in
        let some_keys : 0 < b = omega arith in
        let within : child ≤ b = omega (arith, mod-lt (t / span) {m = b + 1} (omega arith)) in
        count_less-ok rounds (λ k. slt k (flip q)) (layer b a leaves span c 0) (node * b) child few
          within (omega arith)
          (λ j h.
            let l : j < b = omega arith in
            let leaf_upto = (child_lem j).0 h in
            rw (at j l) (
              separator_passes b a q leaves lb t keys small s g some_keys room span node j pos
                (in_range j l) leaf_upto))
          (λ j h l.
            let leaf_past = (child_lem j).1 h in
            rw (at j l) (
              separator_fails b a q leaves lb t keys small s g some_keys room span node j pos
                (in_range j l) leaf_past))

    joined : node * (b + 1) + child ≡ t / span
    joined = ap (λ (x : ℕ). x * (b + 1) + child) node-eq ∙ div-add-mod' (t / span) (b + 1)

  -- Through the layers above a layer of `m` nodes, each over `span` leaves, to the node over leaf `t`.
  pub descend-node :
      (counts : List ℕ) (m span : ℕ)
      → Counted b m counts
      → 0 < span
      → t / span < m
      → (m - 1) * span < leaves
      → descend rounds (upper_layers b a leaves span counts) q ≡ ok (t / span)
  unfolding descend upper_layers mul64
  descend-node [] m span h pos below bound = ap ok (omega (arith, h))
  descend-node (c ∷ counts) m span (more, e, h) pos below bound =
      let span' = span * (b + 1) in
      let wider : span ≤ span' = le-mul_of_pos_right span (omega arith) in
      let total : span' ≤ leaves * (b + 1) =
        mul-le-mul_right (b + 1) (omega (arith, span-lt span m c pos more e below bound)) in
      let top : leaves * (b + 1) ≤ leaves * (b + 1) * b = le-mul_of_pos_right _ (omega arith) in
      let wrap : span' % word ≡ span' = mod-eq_of_lt (omega arith) in
      let ordered : (c - 1) * span' ≡ (c - 1) * (b + 1) * span =
        ap (λ (x : ℕ). (c - 1) * x) (mul_comm span (b + 1))
        ∙ sym (mul_assoc (c - 1) (b + 1) span) in
      let above =
        descend-node counts c span' h (omega arith) (node-lt span m c pos more e below bound)
          (omega (arith, last_node span m c pos more e below bound)) in
      rw (wrap, above, step span m c pos more e below bound, joined span m c pos more e below bound)
        refl
