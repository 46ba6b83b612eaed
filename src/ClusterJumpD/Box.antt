-- ===== src/ClusterJumpD/Box.antt =====
-- One box of include/cluster_jump_dynamic.hpp: what it holds, and the count of its keys below a query.
use fusion_tree_benchmark.Prelude.{
  ℕ, ◌+◌, ◌≤◌, ◌<◌, ◌≡◌, Bool, false, List, length, ◌!◌, lt→ltb, le→ltb, ok, arith,
}
use native.Mathlib.Decide.{dec_lt}
use fusion_tree_benchmark.Word.{word}
use fusion_tree_benchmark.Word.Signed.{slt, flip, slt-flip}
use fusion_tree_benchmark.Spec.{IsKeys, rank, rank-Splits}
use fusion_tree_benchmark.Search.{pad}
use fusion_tree_benchmark.Search.Count.{count_less-ok}
use fusion_tree_benchmark.ClusterJumpD.{cap, rank16}

-- The box at place `p` of the blocks holds the keys `ks`, in this order, and padding behind them.
pub record Holds (blocks : List ℕ) (p : ℕ) (ks : List ℕ) : Type 0 where
  pub inside : p + cap ≤ length blocks
  pub few : length ks ≤ cap
  pub key : (i : ℕ) → i < length ks → blocks ! (p + i) ≡ flip (ks ! i)
  pub padding : (i : ℕ) → length ks ≤ i → i < cap → blocks ! (p + i) ≡ pad

module _ (blocks : List ℕ) (p : ℕ) (ks : List ℕ) (q : ℕ) (h : Holds blocks p ks) (keys : IsKeys ks)
    (small : q < word) where
  abbrev less : ℕ → Bool
  less k = slt k (flip q)

  padding_fails : (i : ℕ) → length ks ≤ i → i < cap → less (blocks ! (p + i)) ≡ false
  padding_fails i g l =
      rw (h.padding i g l, slt-flip 0xffffffffffffffff q (omega arith) small)
        (le→ltb _ _ (omega arith))

  place_fails : (i : ℕ) → rank ks q ≤ i → i < cap → less (blocks ! (p + i)) ≡ false
  place_fails i g l = elim (dec_lt i (length ks)) [
    | yes live ↦
        rw (h.key i live, slt-flip (ks ! i) q (keys.words i live) small)
          (le→ltb _ _ ((rank-Splits ks q keys).above i g live))
    | no free ↦ padding_fails i (omega arith) l
  ]

  -- In a box that holds sorted 64-bit keys, for a 64-bit query: the comparison of all sixteen places
  -- ends, reads only inside the blocks, and returns the number of the keys below the query.
  pub rank16-rank : rank16 blocks p q ≡ ok (rank ks q)
  unfolding rank16
  rank16-rank =
      let s = rank-Splits ks q keys in
      count_less-ok 4 less blocks p (rank ks q) (omega arith) (omega (arith, s.inside, h.few))
        h.inside
        (λ i l.
          rw
            (
              h.key i (omega (arith, s.inside)),
              slt-flip (ks ! i) q (keys.words i (omega (arith, s.inside))) small,
            )
            (lt→ltb _ _ (s.below i l)))
        place_fails
