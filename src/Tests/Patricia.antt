-- ===== src/Tests/Patricia.antt =====
-- The Patricia node at inputs: five keys, the answers of rank at them and around them.
use fusion_tree_benchmark.Prelude.{◌*◌, ◌≤◌, ◌<◌, ◌≡◌, refl, length, ok, ◌>>=◌, Returns, arith}
use fusion_tree_benchmark.PatriciaNode.{
  build, step, rank, split, sparse_row, mark_right, first_right, scan8, compare8, last_bit, slt32,
  signed32, edge_sketch,
}
use fusion_tree_benchmark.PatriciaNode.Ends.{patricia_node-Returns}
use fusion_tree_benchmark.Tests.{program, five}
use fusion_tree_benchmark.Tests.Trees.{five-IsKeys, five-IsDistinct}

patricia_node_runs :
    ((build 2 five >>= λ t. rank 2 t 3) ≡ ok 0)
    × ((build 2 five >>= λ t. rank 2 t 4) ≡ ok 1)
    × ((build 2 five >>= λ t. rank 2 t 200) ≡ ok 3)
    × ((build 2 five >>= λ t. rank 2 t 201) ≡ ok 4)
    × ((build 2 five >>= λ t. rank 2 t 0xffffffffffffffff) ≡ ok 5)
unfolding program build step rank split sparse_row mark_right first_right scan8 compare8 last_bit
    slt32 signed32 edge_sketch
patricia_node_runs = (refl, refl, refl, refl, refl)

patricia_node-Returns_example :
    Returns (λ j. j < length five) (build 2 five >>= λ t. step 2 t 199)
    × Returns (λ c. c ≤ 8 * 2) (build 2 five >>= λ t. rank 2 t 199)
patricia_node-Returns_example =
    patricia_node-Returns 2 five (omega arith) (omega arith) (omega arith) 199 five-IsKeys
      five-IsDistinct
