-- ===== src/FusionNodeWide.antt =====
-- include/fusion_node_wide.hpp, class FusionNodeWide: up to 16 keys, one 16-bit lane for each sketch.
-- The comparison is the portable loop; AVX2 does the same subtraction in each lane and counts the
-- sign bits of the live lanes.
pub mod Build
pub mod Lanes
pub mod Sketches
use Prim.Native.Nat.{bit_and, bit_or}
use fusion_tree_benchmark.Prelude.{
  ℕ, zero, suc, ◌+◌, ◌-◌, ◌%◌, ◌^◌, List, [], ◌∷◌, ◌++◌, map, length, take, replicate, ◌==◌,
  if◌then◌else◌,
}
use fusion_tree_benchmark.Word.{sub64, shl64, shr}
use fusion_tree_benchmark.Bits.{highest_diff_bit, popcount}
use fusion_tree_benchmark.FusionNode.{sketch_pext}
use fusion_tree_benchmark.FusionNode.BranchFree.{branchfree_rank}

pub record FusionNodeWide : Type 0 where
  pub packed : List ℕ
  pub keys : List ℕ
  pub mask : ℕ
  pub n : ℕ
  pub r : ℕ

-- `mask_ |= 1ull << highest_diff_bit(keys_[i], keys_[i + 1])` for each pair of neighbours.
unfoldable pub neighbour_mask : List ℕ → ℕ → ℕ
neighbour_mask (x ∷ y ∷ keys) mask =
    neighbour_mask (y ∷ keys) (bit_or mask (shl64 1 (highest_diff_bit x y)))
neighbour_mask _ mask = mask

abbrev pub to_u16 : ℕ → ℕ
to_u16 x = x % 2 ^ 16

-- The assertion `n <= K` is a hypothesis of the theorems; unused places hold 0.
unfoldable pub build : List ℕ → FusionNodeWide
unfolding neighbour_mask
build keys =
    let mask = neighbour_mask keys 0 in
    let unused = replicate (16 - length keys) 0 in
    record {
      packed = map (λ x. to_u16 (sketch_pext x mask)) keys ++ unused;
      keys = keys ++ unused;
      mask = mask;
      n = length keys;
      r = popcount mask;
    }

-- `for (i < n_) c += ((uint16_t)(qv - packed_[i]) >> 15) & 1`, with `left` lanes to go.
unfoldable pub count_lanes : ℕ → ℕ → List ℕ → ℕ
count_lanes qv zero packed = 0
count_lanes qv (suc left) [] = 0
count_lanes qv (suc left) (p ∷ packed) =
    bit_and (shr (to_u16 (qv + 2 ^ 16 - p)) 15) 1 + count_lanes qv left packed

unfoldable pub lanes_rank : FusionNodeWide → ℕ → ℕ → ℕ
unfolding count_lanes
lanes_rank node s minus = count_lanes (to_u16 (sub64 (bit_or s 0x8000) minus)) node.n node.packed

unfoldable pub rank : FusionNodeWide → ℕ → ℕ
unfolding lanes_rank
rank node q =
    let keys = take node.n node.keys in
    let rk = branchfree_rank (λ x. sketch_pext x node.mask) (lanes_rank node) keys q in
    if node.n == 0 then 0 else rk
