-- ===== src/ClusterJump2/Range.antt =====
-- What the robust fit of include/cluster_jump2.hpp leaves out of a bucket.
use fusion_tree_benchmark.Prelude.{ℕ, ◌+◌, ◌≤◌, ◌<◌, Bool, true, false, List, arith}
use fusion_tree_benchmark.ClusterJump2.{fit_range}

-- For a bucket [i0, i1) of at least one key, whatever the keys: the fitted range has at least one key
-- and lies in the bucket, and at most 8 keys are left out at each end.
pub fit_range-bounds :
    (robust : Bool) (a : List ℕ) (i0 i1 : ℕ)
    → i0 < i1
    → (i0 ≤ (fit_range robust a i0 i1).0)
      × ((fit_range robust a i0 i1).0 ≤ i0 + 8)
      × ((fit_range robust a i0 i1).0 ≤ (fit_range robust a i0 i1).1)
      × ((fit_range robust a i0 i1).1 < i1)
      × (i1 ≤ (fit_range robust a i0 i1).1 + 9)
unfolding fit_range
fit_range-bounds true a i0 i1 h = ground arith
fit_range-bounds false a i0 i1 h = ground arith
