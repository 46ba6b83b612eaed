-- ===== src/Tests/Compact.antt =====
-- Runs of the compact node and of ClusterJump2, and theorems at inputs.
use fusion_tree_benchmark.Prelude.{
  ◌≤◌, ◌<◌, ◌+◌, ◌-◌, ◌^◌, suc, arith, ◌≡◌, refl, [], map, true, ok, some, none,
}
use fusion_tree_benchmark.FusionNodeCompact
use fusion_tree_benchmark.FusionNodeCompact.{rank_le}
use fusion_tree_benchmark.FusionNodeCompact.Counts.{rank_le-rank}
use fusion_tree_benchmark.FusionNode.{sketch_pext}
use fusion_tree_benchmark.Spec.{rank}
use fusion_tree_benchmark.ClusterJump2
use fusion_tree_benchmark.ClusterJump2.{fit_range}
use fusion_tree_benchmark.ClusterJump2.Range.{fit_range-bounds}
use fusion_tree_benchmark.Tests.{program, twelve, five, queries}

compact_run :
    map (λ q. FusionNodeCompact.rank (FusionNodeCompact.build five) q) queries
    ≡ map (λ q. ok (rank five q)) queries
unfolding program FusionNodeCompact.build FusionNodeCompact.rank
compact_run = refl

rank_le_runs :
    (rank_le (FusionNodeCompact.build five) 0 0 ≡ ok 1)
    × (rank_le (FusionNodeCompact.build five) 0 1 ≡ ok 0)
    × (rank_le (FusionNodeCompact.build []) 0 0 ≡ ok 0)
unfolding program FusionNodeCompact.build rank_le
rank_le_runs = (refl, refl, refl)

two_fits : 2 < 2 ^ (FusionNodeCompact.build five).r
unfolding program FusionNodeCompact.build
two_fits = omega arith

rank_le-rank_example :
    rank_le (FusionNodeCompact.build five) 2 1
    ≡ ok (rank (map (λ x. sketch_pext x (FusionNodeCompact.build five).mask) five) (suc 2 - 1))
rank_le-rank_example = rank_le-rank five 2 1 (omega arith) two_fits (omega arith)

cluster_jump2_runs :
    (ClusterJump2.predecessor 4 (ClusterJump2.build 3 4 true twelve) 60 ≡ ok (some 55))
    × (ClusterJump2.predecessor 2 (ClusterJump2.build 2 2 true twelve) 3 ≡ ok none)
    × (ClusterJump2.predecessor 4 (ClusterJump2.build 4 4 true []) 60 ≡ ok none)
unfolding program ClusterJump2.build ClusterJump2.predecessor
cluster_jump2_runs = (refl, refl, refl)

fit_range-bounds_example :
    (0 ≤ (fit_range true twelve 0 12).0)
    × ((fit_range true twelve 0 12).0 ≤ 0 + 8)
    × ((fit_range true twelve 0 12).0 ≤ (fit_range true twelve 0 12).1)
    × ((fit_range true twelve 0 12).1 < 12)
    × (12 ≤ (fit_range true twelve 0 12).1 + 9)
fit_range-bounds_example = fit_range-bounds true twelve 0 12 (omega arith)
