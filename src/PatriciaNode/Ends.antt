-- ===== src/PatriciaNode/Ends.antt =====
-- Construction and search of include/patricia_node.hpp end, and read only inside the node.
use Prim.Native.Nat.{bit_and}
use native.Mathlib.Nat.{div-eq_of_lt}
use fusion_tree_benchmark.Prelude.{
  ℕ, suc, ◌-◌, ◌*◌, ◌/◌, ◌%◌, ◌^◌, ◌≤◌, ◌<◌, ◌≡◌, ap, ◌∙◌, Bool, true, false, List, ◌++◌, map, take,
  length, replicate, length-replicate, length-append, length-map, length-take, get_or-append_right,
  get_or-append_left, get_or-replicate, get_or-map, get_or-take, ◌!◌, ◌==◌, ==_iff, eq_zero,
  Bool-cases, inl, inr, ◌>>=◌, load-ok, Returns, returns, arith,
}
use fusion_tree_benchmark.Word.{pow_mono}
use fusion_tree_benchmark.Word.Bit.{bit_and-bit}
use fusion_tree_benchmark.Word.Masks.{count_true-length, count_bits-mask_of}
use fusion_tree_benchmark.Word.Digits.{zero-bit_and}
use fusion_tree_benchmark.Bits.{popcount}
use fusion_tree_benchmark.Spec.{IsKeys, IsDistinct}
use fusion_tree_benchmark.FusionNode.{sketch_pext}
use fusion_tree_benchmark.FusionNodeWide.{neighbour_mask}
use fusion_tree_benchmark.PatriciaNode.{
  PatriciaNode, to_u32, sparse_row, build, step, slt32, flip32, edge_sketch, rank,
}
use fusion_tree_benchmark.PatriciaNode.Path.{split-Keeps}
use fusion_tree_benchmark.PatriciaNode.Scan.{
  all_lanes, scan8-ok, length-all_lanes, get_or-all_lanes, last_bit-below,
}
use fusion_tree_benchmark.FusionNodeWide.Sketches.{
  sketch_pext-lt, sketch_pext-zero, neighbour_mask_few,
}

-- All ones is no part of fewer bits.
padding_fails : (dq : ℕ) → dq < 2 ^ 31 → (bit_and 0xffffffff dq == 0xffffffff) ≡ false
padding_fails dq h = elim (Bool-cases (bit_and 0xffffffff dq == 0xffffffff)) [
  | inr not_all ↦ not_all
  | inl all ↦
      let same : bit_and 0xffffffff dq ≡ 0xffffffff = (==_iff _ _).0 all in
      let clear : dq / 2 ^ 31 ≡ 0 = div-eq_of_lt h in
      absurd
        (omega (arith, bit_and-bit 31 0xffffffff dq, ap (λ (t : ℕ). t / 2 ^ 31 % 2) same, clear))
]

zero_passes : (dq : ℕ) → (bit_and 0 dq == 0) ≡ true
zero_passes dq = eq_zero (bit_and 0 dq) (zero-bit_and dq)

-- A row filled up to `size` entries.
module _ (row : List ℕ) (size pad : ℕ) (fits : length row ≤ size) where
  abbrev filled : List ℕ
  filled = row ++ replicate (size - length row) pad

  length-filled : length filled ≡ size
  length-filled = omega (
    arith,
    length-append row (replicate (size - length row) pad),
    length-replicate (size - length row) pad,
  )

  filled-pad : (i : ℕ) → length row ≤ i → i < size → filled ! i ≡ pad
  filled-pad i h l =
      get_or-append_right row (replicate (size - length row) pad) (i - length row) i 0 (omega arith)
      ∙ get_or-replicate (size - length row) (i - length row) pad 0 (omega arith)

module _ (rounds : ℕ) (k : List ℕ) (few : rounds ≤ 4) (some : 0 < length k)
    (fits : length k ≤ 8 * rounds) where
  -- What the search relies on.
  record Made (t : PatriciaNode) : Type 0 where
    all : length t.sparse ≡ 8 * rounds
    first : t.sparse ! 0 ≡ 0
    padding : (i : ℕ) → length k ≤ i → i < 8 * rounds → t.sparse ! i ≡ 0xffffffff
    dense : length t.dense ≡ 8 * rounds
    keys : length k ≤ length t.key
    narrow : popcount t.mask ≤ 31

  abbrev sparse_of : List ℕ → List ℕ
  sparse_of path =
      map (λ x. to_u32 (sketch_pext x (neighbour_mask k 0))) (take (length k) path)
      ++ replicate (8 * rounds - length k) 0xffffffff

  sparse-Made :
      (path : List ℕ)
      → length k ≤ length path
      → path ! 0 ≡ 0
      → (length (sparse_of path) ≡ 8 * rounds)
        × (sparse_of path ! 0 ≡ 0)
        × ((i : ℕ) → length k ≤ i → i < 8 * rounds → sparse_of path ! i ≡ 0xffffffff)
  sparse-Made path long head =
      let squeeze : ℕ → ℕ = (λ x. to_u32 (sketch_pext x (neighbour_mask k 0))) in
      let row : List ℕ = map squeeze (take (length k) path) in
      let taken : length (take (length k) path) ≡ length k = length-take (length k) path long in
      let length-row : length row ≡ length k =
        length-map {0, 0} squeeze (take (length k) path) ∙ taken in
      let inside : length row ≤ 8 * rounds = omega (arith, length-row) in
      let none : squeeze 0 ≡ 0 = ap to_u32 (sketch_pext-zero (neighbour_mask k 0)) in
      (
        rw length-row at (length-filled row (8 * rounds) 0xffffffff inside),
        get_or-append_left row (replicate (8 * rounds - length k) 0xffffffff) 0 0
              (omega (arith, length-row))
            ∙ get_or-map squeeze (take (length k) path) 0 0 0 (omega (arith, taken))
            ∙ ap squeeze (get_or-take (length k) path 0 0 some ∙ head)
            ∙ none,
        λ i h l.
            rw length-row at
              (filled-pad row (8 * rounds) 0xffffffff inside i (omega (arith, length-row)) l),
      )

  build-Made : IsKeys k → IsDistinct k → Returns Made (build rounds k)
  unfolding build sparse_row
  build-Made keys distinct =
      let squeeze : ℕ → ℕ = (λ x. to_u32 (sketch_pext x (neighbour_mask k 0))) in
      let zeros : List ℕ = replicate (8 * rounds) 0 in
      let whole : length zeros ≡ 8 * rounds = length-replicate (8 * rounds) 0 in
      let (path, run, (size, head)) =
        split-Keeps k keys distinct (suc (length k)) zeros 0 (length k) (omega arith)
          (omega arith) in
      let row : List ℕ = map squeeze (take (length k) path) in
      let length-row : length row ≡ length k =
        length-map {0, 0} squeeze (take (length k) path)
        ∙ length-take (length k) path (omega (arith, size, whole)) in
      let length-dense : length (map squeeze k) ≡ length k = length-map {0, 0} squeeze k in
      let sparse =
        sparse-Made path (omega (arith, size, whole))
          (head ∙ get_or-replicate (8 * rounds) 0 0 0 (omega arith)) in
      rw run (
        returns (record {
          all = sparse.0;
          first = sparse.1;
          padding = sparse.2;
          dense =
              rw length-dense at (
                length-filled (map squeeze k) (8 * rounds) 0xffffffff
                  (omega (arith, length-dense)));
          keys =
              omega (arith, length-append k (replicate (8 * rounds - length k) 0xffffffffffffffff));
          narrow = neighbour_mask_few k 31 (omega arith);
        }))

  dq-lt : (t : PatriciaNode) (q : ℕ) → Made t → to_u32 (sketch_pext q t.mask) < 2 ^ 31
  dq-lt t q m = omega (arith, sketch_pext-lt q t.mask, pow_mono (popcount t.mask) 31 m.narrow)

  step-inside : (t : PatriciaNode) (q : ℕ) → Made t → Returns (λ j. j < length k) (step rounds t q)
  unfolding step
  step-inside t q m =
      let dq = to_u32 (sketch_pext q t.mask) in
      let test : ℕ → Bool = (λ s. bit_and s dq == s) in
      let size = length-all_lanes test t.sparse rounds 0 in
      rw (scan8-ok test t.sparse rounds few (omega (arith, m.all))) (
        last_bit-below (all_lanes test t.sparse rounds 0) (length k) (omega (arith, size))
          (omega (arith, size))
          (get_or-all_lanes test t.sparse rounds 0 0 (omega arith)
            ∙ ap test m.first
            ∙ zero_passes dq)
          (λ i h l.
            get_or-all_lanes test t.sparse rounds 0 i (omega (arith, size, l))
            ∙ ap (λ j. test (t.sparse ! j)) (omega arith)
            ∙ ap test (m.padding i h (omega (arith, size, l)))
            ∙ padding_fails dq (dq-lt t q m)))

  rank-inside :
      (t : PatriciaNode) (q : ℕ) → Made t → Returns (λ c. c ≤ 8 * rounds) (rank rounds t q)
  unfolding rank popcount
  rank-inside t q m =
      let (j, run, inside) = step-inside t q m in
      let test : ℕ → Bool = (λ d. slt32 (flip32 d) (flip32 (edge_sketch t.mask q (t.key ! j)))) in
      let lanes = all_lanes test t.dense rounds 0 in
      let size = length-all_lanes test t.dense rounds 0 in
      rw
        (
          run,
          load-ok t.key j 0 (omega (arith, inside, m.keys)),
          scan8-ok test t.dense rounds few (omega (arith, m.dense)),
          count_bits-mask_of 64 lanes (omega (arith, size)),
        )
        (returns (omega (arith, count_true-length lanes, size)))

  -- For K of at most 32 and one to K sorted and distinct 64-bit keys: the construction ends, since both
  -- parts of every split are smaller; for every query the comparison in step passes for some key, the
  -- key that step lands on is one of the node's, and rank ends, reads only inside the node's arrays and
  -- counts at most K.
  pub patricia_node-Returns :
      (q : ℕ)
      → IsKeys k
      → IsDistinct k
      → Returns (λ j. j < length k) (build rounds k >>= λ t. step rounds t q)
        × Returns (λ c. c ≤ 8 * rounds) (build rounds k >>= λ t. rank rounds t q)
  patricia_node-Returns q keys distinct =
      let (t, run, m) = build-Made keys distinct in rw run (step-inside t q m, rank-inside t q m)
