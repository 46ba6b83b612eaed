-- ===== src/Rivals/Tlx.antt =====
-- TlxSet of include/dynamic_rivals.hpp, over a container that keeps its documented promises.
use fusion_tree_benchmark.Prelude.{
  ℕ, zero, suc, ◌≤◌, ◌<◌, ◌≡◌, refl, List, length, ◌!◌, ◌==◌, suc-eq_zero, arith,
}
use fusion_tree_benchmark.Spec.{
  IsKeys, IsPredecessor, rank, rank-Splits, before, before-IsPredecessor,
}
use fusion_tree_benchmark.Rivals.{TlxOps, tlx_predecessor}

-- An ordered set: iterators are positions among the sorted keys, and lower_bound is the position of the
-- first key that is not below the query.
pub record TlxLaws {S It : Type 0} (tlx : TlxOps S It) (keys : S → List ℕ) (at : S → ℕ → It)
    : Type 0 where
  pub sorted : (s : S) → IsKeys (keys s)
  pub lower_bound_lem : (s : S) (q : ℕ) → tlx.lower_bound s q ≡ at s (rank (keys s) q)
  pub begin_lem : (s : S) → tlx.begin s ≡ at s 0
  pub same_lem :
      (s : S) (i j : ℕ)
      → i ≤ length (keys s)
      → j ≤ length (keys s)
      → tlx.same (at s i) (at s j) ≡ (i == j)
  pub prev_lem : (s : S) (i : ℕ) → i < length (keys s) → tlx.prev (at s (suc i)) ≡ at s i
  pub read_lem : (s : S) (i : ℕ) → i < length (keys s) → tlx.read (at s i) ≡ keys s ! i

module _ {S It : Type 0} (tlx : TlxOps S It) (keys : S → List ℕ) (at : S → ℕ → It)
    (laws : TlxLaws tlx keys at) where
  tlx_predecessor-before :
      (s : S) (q r : ℕ)
      → rank (keys s) q ≡ r
      → r ≤ length (keys s)
      → tlx_predecessor tlx s q ≡ before (keys s) r
  unfolding tlx_predecessor
  tlx_predecessor-before s q zero e h =
      rw (laws.lower_bound_lem s q, e, laws.begin_lem s, laws.same_lem s 0 0 h h) refl
  tlx_predecessor-before s q (suc r) e h =
      rw
        (
          laws.lower_bound_lem s q,
          e,
          laws.begin_lem s,
          laws.same_lem s (suc r) 0 h (omega arith),
          suc-eq_zero r,
          laws.prev_lem s r (omega arith),
          laws.read_lem s r (omega arith),
        )
        refl

  -- Over an ordered set whose iterators are positions and whose lower_bound is the first key not below
  -- the query: predecessor(q) of TlxSet is the largest key below q, or that there is none.
  pub tlx_predecessor-IsPredecessor :
      (s : S) (q : ℕ) → IsPredecessor (keys s) q (tlx_predecessor tlx s q)
  tlx_predecessor-IsPredecessor s q =
      let d = rank-Splits (keys s) q (laws.sorted s) in
      rw (tlx_predecessor-before s q (rank (keys s) q) refl d.inside)
        (before-IsPredecessor (keys s) q (rank (keys s) q) (laws.sorted s) d)
