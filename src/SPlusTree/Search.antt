-- ===== src/SPlusTree/Search.antt =====
-- Construction and search of include/splus_tree.hpp: lower_bound_index and predecessor are right.
use native.Mathlib.Nat.{
  div-mul-le_self, lt-div-mul-add, mul-le-mul_right, mul-le-mul_left, pow-le-pow_left,
  div-lt_iff_lt-mul, add-mul, div-one,
}
use fusion_tree_benchmark.Prelude.{
  ℕ, ◌+◌, ◌-◌, ◌*◌, ◌/◌, ◌^◌, ◌≤◌, ◌<◌, ◌≡◌, refl, List, map, length, replicate, ◌!◌, ◌∙◌, lt→ltb,
  le→ltb, true, false, Returns, load-ok, returns, ok, ◌>>=◌, arith, length-map, get_or-append_right,
  get_or-replicate,
}
use native.Mathlib.Decide.{dec_lt}
use fusion_tree_benchmark.Word.{word}
use fusion_tree_benchmark.Word.Signed.{slt, flip, slt-flip, flip-flip}
use fusion_tree_benchmark.Spec.{IsKeys, IsPredecessor, Splits, rank-Splits, before-IsPredecessor}
use fusion_tree_benchmark.Spec
use fusion_tree_benchmark.Search.{pad, flipped_copy}
use fusion_tree_benchmark.Search.Count.{count_less-ok}
use fusion_tree_benchmark.Search.LastMile.{length-flipped_copy, flipped_copy-key, answer-before}
use fusion_tree_benchmark.SPlusTree.{
  SPlusTree, upper_layers, build, rank, lower_bound_index, predecessor, key_at,
}
use fusion_tree_benchmark.SortedArray
use fusion_tree_benchmark.SortedArray.Correct.{sorted_array-lower_bound}
use fusion_tree_benchmark.SPlusTree.Counts.{node_counts-Counted}
use fusion_tree_benchmark.SPlusTree.Descent.{Target}
use fusion_tree_benchmark.SPlusTree.Correct.{descend-node}

flipped_copy-pad :
    (w : ℕ) (a : List ℕ) (i : ℕ) → length a ≤ i → i < length a + w → flipped_copy w a ! i ≡ pad
unfolding flipped_copy
flipped_copy-pad w a i h l =
    get_or-append_right (map flip a) (replicate w pad) (i - length a) i 0
      (omega (arith, length-map {0, 0} flip a))
    ∙ get_or-replicate w (i - length a) pad 0 (omega arith)

-- A stored place is below the query exactly in front of the dividing position.
module _ (w : ℕ) (a : List ℕ) (q lb : ℕ) (keys : IsKeys a) (small : q < word)
    (s : Splits a q lb) where
  pub stored_below : (i : ℕ) → i < lb → slt (flipped_copy w a ! i) (flip q) ≡ true
  stored_below i h =
      let l : i < length a = omega (arith, s.inside) in
      rw (flipped_copy-key w a i l, slt-flip (a ! i) q (keys.words i l) small)
        (lt→ltb _ _ (s.below i h))

  pub stored_above :
      (i : ℕ) → lb ≤ i → i < length a + w → slt (flipped_copy w a ! i) (flip q) ≡ false
  stored_above i h r = elim (dec_lt i (length a)) [
    | yes l ↦
        rw (flipped_copy-key w a i l, slt-flip (a ! i) q (keys.words i l) small)
          (le→ltb _ _ (s.above i h l))
    | no free ↦
        rw
          (
            flipped_copy-pad w a i (omega arith) r,
            slt-flip 0xffffffffffffffff q (omega arith) small,
          )
          (le→ltb _ _ (omega arith))
  ]

-- What a tree over sorted keys answers.
pub record Searches (rounds : ℕ) (a : List ℕ) (made : SPlusTree) : Type 0 where
  pub at_most_n : (q : ℕ) → Spec.rank a q ≤ length a
  pub index : (q : ℕ) → q < word → lower_bound_index rounds made q ≡ ok (Spec.rank a q)
  pub key : (i : ℕ) → i < length a → key_at made i ≡ ok (a ! i)

module _ (rounds : ℕ) (a : List ℕ) (few : 2 ≤ rounds) (fit : rounds ≤ 4)
    (short : length a < 2 ^ 49) where
  abbrev b : ℕ
  b = 4 * rounds

  abbrev leaves : ℕ
  leaves = length a / b + 1

  enough : length a < leaves * b
  enough =
      omega (arith, lt-div-mul-add {a = length a} {b = b} (omega arith), add-mul (length a / b) 1 b)

  leaves-le : leaves ≤ 2 ^ 46 + 1
  leaves-le =
      let eight : length a / b * 8 ≤ length a / b * b =
        mul-le-mul_left (length a / b) (omega arith) in
      omega (arith, div-mul-le_self (length a) b)

  leaves-pow : leaves ≤ (b + 1) ^ 15
  leaves-pow =
      let nine : 9 ^ 15 ≤ (b + 1) ^ 15 = pow-le-pow_left {n = 9} {m = b + 1} (omega arith) 15 in
      omega (arith, leaves-le)

  room : leaves * (b + 1) * b < word
  room =
      let x : leaves * (b + 1) ≤ leaves * 17 = mul-le-mul_left leaves (omega arith) in
      let y : leaves * (b + 1) * b ≤ leaves * 17 * b = mul-le-mul_right b x in
      let z : leaves * 17 * b ≤ leaves * 17 * 16 = mul-le-mul_left (leaves * 17) (omega arith) in
      omega (arith, leaves-le)

  abbrev counts : List ℕ
  counts = (node_counts-Counted b 15 leaves leaves-pow).0

  abbrev tree : SPlusTree
  tree = record {
    leaves = flipped_copy (leaves * b - length a) a;
    upper = upper_layers b a leaves 1 counts;
    n = length a;
  }

  -- For B of 8, 12 or 16 and fewer than 2 ^ 49 keys: the construction ends and stays within its array
  -- of 16 layers.
  build-tree : build rounds a ≡ ok tree
  unfolding build
  build-tree = rw (node_counts-Counted b 15 leaves leaves-pow).1 refl

  module _ (q lb : ℕ) (keys : IsKeys a) (small : q < word) (s : Splits a q lb) where
    abbrev t : ℕ
    t = (lb - 1) / b

    target : Target b a leaves lb t
    target =
        let low = div-mul-le_self (lb - 1) b in
        let high = lt-div-mul-add {a = lb - 1} {b = b} (omega arith) in
        record {
          inside =
              (div-lt_iff_lt-mul {k = b} {x = lb - 1} {y = leaves} (omega arith)).1
                (omega (arith, enough, s.inside));
          from = low;
          upto = omega arith;
        }

    leaf_rank : rank rounds (flipped_copy (leaves * b - length a) a) (t * b) q ≡ ok (lb - t * b)
    unfolding rank
    leaf_rank =
        let g = target in
        let last : (t + 1) * b ≤ leaves * b = mul-le-mul_right b (omega (arith, g.inside)) in
        count_less-ok rounds (λ k. slt k (flip q)) (flipped_copy (leaves * b - length a) a) (t * b)
          (lb - t * b) (omega arith) (omega (arith, g.upto))
          (omega (arith, enough, length-flipped_copy (leaves * b - length a) a))
          (λ i h.
            stored_below (leaves * b - length a) a q lb keys small s (t * b + i) (omega arith))
          (λ i h l.
            stored_above (leaves * b - length a) a q lb keys small s (t * b + i) (omega arith)
              (omega (arith, enough)))

    lower_bound_index-tree : lower_bound_index rounds tree q ≡ ok lb
    unfolding lower_bound_index
    lower_bound_index-tree =
        let counted = (node_counts-Counted b 15 leaves leaves-pow).2 in
        let g = target in
        let whole : t / 1 ≡ t = div-one t in
        let down =
          descend-node rounds a q leaves lb t keys small s g (omega arith) (omega arith) room counts
            leaves 1 counted (omega arith) (omega (arith, g.inside, div-one t)) (omega arith) in
        let at : t * b + (lb - t * b) ≡ lb = omega (arith, g.from) in
        rw (down, whole, leaf_rank, at) refl

  -- For B of 8, 12 or 16, fewer than 2 ^ 49 sorted 64-bit keys and a 64-bit query: the construction ends
  -- with at most 16 layers, and lower_bound_index on the tree it makes ends, reads only inside the
  -- layers and returns the number of keys below the query, as the binary search of SortedArray does.
  pub lower_bound_index-lower_bound :
      (q : ℕ)
      → IsKeys a
      → q < word
      → (build rounds a >>= λ made. lower_bound_index rounds made q)
        ≡ SortedArray.lower_bound (SortedArray.build a) q
  lower_bound_index-lower_bound q keys small =
      rw
        (
          build-tree,
          lower_bound_index-tree q (Spec.rank a q) keys small (rank-Splits a q keys),
          sorted_array-lower_bound a q keys,
        )
        refl

  -- For B of 8, 12 or 16, fewer than 2 ^ 49 sorted 64-bit keys and a 64-bit query: the construction ends
  -- with at most 16 layers, and the search of the tree it makes ends, reads only inside the layers and
  -- returns the largest key below the query, or that there is none.
  pub splus_tree_correct :
      (q : ℕ)
      → IsKeys a
      → q < word
      → Returns (IsPredecessor a q) (build rounds a >>= λ made. predecessor rounds made q)
  unfolding predecessor
  splus_tree_correct q keys small =
      let s = rank-Splits a q keys in
      rw
        (
          build-tree,
          lower_bound_index-tree q (Spec.rank a q) keys small s,
          answer-before (leaves * b - length a) a (Spec.rank a q) keys s.inside,
        )
        (returns (before-IsPredecessor a q (Spec.rank a q) keys s))

  pub build-Searches : IsKeys a → Returns (Searches rounds a) (build rounds a)
  unfolding key_at
  build-Searches keys = rw build-tree (
      returns (record {
        at_most_n = λ q. (rank-Splits a q keys).inside;
        index =
            λ q small. lower_bound_index-tree q (Spec.rank a q) keys small (rank-Splits a q keys);
        key = λ i h.
            rw
              (
                load-ok tree.leaves i 0
                    (omega (arith, length-flipped_copy (leaves * b - length a) a)),
                flipped_copy-key (leaves * b - length a) a i h,
                flip-flip (a ! i) (keys.words i h),
              )
              refl;
      }))
