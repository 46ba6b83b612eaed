-- ===== src/FusionNode.antt =====
-- include/fusion_node.hpp, class FusionNode: construction, sketches and the parallel comparison, with
-- include/sketch_fast.hpp sketch_pext.
pub mod Sketch
pub mod Pack
pub mod Pext
pub mod Rank
pub mod Order
pub mod Positions
pub mod Important
pub mod Repair
pub mod Edge
pub mod Nearest
pub mod Candidates
pub mod Siblings
pub mod Correct
pub mod BranchFree
use Prim.Native.Nat.{bit_and, bit_or, bit_xor}
use fusion_tree_benchmark.Prelude.{
  ℕ, zero, suc, ◌+◌, ◌-◌, ◌*◌, ◌≤◌, ◌<◌, Bool, true, false, not, ◌||◌, ◌&&◌, List, [], ◌∷◌, ◌++◌,
  map, length, ◌!◌, ltb, leb, ◌==◌, if◌then◌else◌, Option, none, some,
}
use fusion_tree_benchmark.Word.{word, sub64, mul64, shl64, shr}
use fusion_tree_benchmark.Bits.{highest_diff_bit, popcount, extract_bits_naive, mask_from_positions}

-- The portable loop of `sketch_pext`, from bit `b` on: `left` bits remain, `out` were taken.
unfoldable pub pext_from : ℕ → ℕ → ℕ → ℕ → ℕ → ℕ → ℕ
pext_from x mask zero b out s = s
pext_from x mask (suc left) b out s =
    let took = bit_and (shr mask b) 1 == 1 in
    pext_from x mask left (b + 1) (if took then out + 1 else out)
      (if took then bit_or s (shl64 (bit_and (shr x b) 1) out) else s)

unfoldable pub sketch_pext : ℕ → ℕ → ℕ
unfolding pext_from
sketch_pext x mask = pext_from x mask 64 0 0 0

pub record FusionNode : Type 0 where
  pub n : ℕ
  pub r : ℕ
  pub field : ℕ
  pub packed : ℕ
  pub broadcast : ℕ
  pub sentinels : ℕ
  pub keys : List ℕ
  pub imp : List ℕ
  pub mask : ℕ

-- `for (j < r_) if (imp_[j] == b) { seen = true; break; }`
unfoldable pub seen : ℕ → List ℕ → Bool
seen b [] = false
seen b (p ∷ imp) = if p == b then true else seen b imp

-- The loop over neighbouring keys: each new position is appended.
unfoldable pub important : List ℕ → List ℕ → List ℕ
unfolding seen
important (x ∷ y ∷ keys) imp =
    let b = highest_diff_bit x y in important (y ∷ keys) (if seen b imp then imp else imp ++ b ∷ [])
important _ imp = imp

-- `std::sort`, ascending.
unfoldable pub insert_sorted : ℕ → List ℕ → List ℕ
insert_sorted b [] = b ∷ []
insert_sorted b (p ∷ ps) = if leb b p then b ∷ p ∷ ps else p ∷ insert_sorted b ps

unfoldable pub sort : List ℕ → List ℕ
unfolding insert_sorted
sort [] = []
sort (p ∷ ps) = insert_sorted p (sort ps)

-- `sketch`: PEXT where FT_USE_PEXT is defined, and the loop over the positions where it is not.
unfoldable pub sketch_with : Bool → List ℕ → ℕ → ℕ → ℕ
sketch_with use_pext imp mask x = if use_pext then sketch_pext x mask else extract_bits_naive x imp

unfoldable pub sketch : Bool → FusionNode → ℕ → ℕ
unfolding sketch_with
sketch use_pext node x = sketch_with use_pext node.imp node.mask x

-- The packing loop: for each key's sketch, from index `i` on.
unfoldable pub pack : ℕ → List ℕ → ℕ → ℕ × ℕ × ℕ → ℕ × ℕ × ℕ
pack r [] i acc = acc
pack r (s ∷ sketches) i (packed, broadcast, sentinels) = pack r sketches (i + 1) (
  bit_or packed (shl64 s (i * (r + 1))),
  bit_or broadcast (shl64 1 (i * (r + 1))),
  bit_or sentinels (shl64 1 (i * (r + 1) + r)),
)

-- The assertion `n <= K` is a hypothesis of the theorems.
unfoldable pub build : Bool → List ℕ → FusionNode
unfolding important sort pack sketch_with
build use_pext keys =
    let imp = sort (important keys []) in
    let mask = mask_from_positions imp in
    let r = length imp in
    let (packed, broadcast, sentinels) =
      pack r (map (sketch_with use_pext imp mask) keys) 0 (0, 0, 0) in
    record {
      n = length keys;
      r = r;
      field = r + 1;
      packed = packed;
      broadcast = broadcast;
      sentinels = sentinels;
      keys = keys;
      imp = imp;
      mask = mask;
    }

unfoldable pub sketch_rank_le : FusionNode → ℕ → ℕ
sketch_rank_le node s =
    let query = mul64 (bit_or s (shl64 1 node.r)) node.broadcast in
    let diff = sub64 query node.packed in
    if node.n == 0 then 0 else popcount (bit_and diff node.sentinels)

unfoldable pub sketch_rank_lt : FusionNode → ℕ → ℕ
unfolding sketch_rank_le
sketch_rank_lt node s = if s == 0 then 0 else sketch_rank_le node (s - 1)
