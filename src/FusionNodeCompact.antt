-- ===== src/FusionNodeCompact.antt =====
-- include/fusion_node_compact.hpp, class FusionNodeCompact: a node of up to eight keys whose constants
-- come from tables that all nodes share.
pub mod Counts
use Prim.Native.Nat.{bit_and, bit_or}
use fusion_tree_benchmark.Prelude.{
  ℕ, zero, suc, ◌+◌, ◌-◌, ◌*◌, List, [], ◌∷◌, ◌++◌, map, length, take, replicate, ◌==◌,
  if◌then◌else◌, Run, ok, ◌>>=◌, load,
}
use fusion_tree_benchmark.Word.{mul64, sub64, shl64}
use fusion_tree_benchmark.Bits.{popcount}
use fusion_tree_benchmark.FusionNode.{sketch_pext}
use fusion_tree_benchmark.FusionNode.BranchFree.{branchfree_rank}
use fusion_tree_benchmark.FusionNodeWide.{neighbour_mask}

-- `for (...) t |= 1ull << (i * f);` from `i` on, with `left` rounds to go.
unfoldable pub broadcast_from : ℕ → ℕ → ℕ → ℕ → ℕ
broadcast_from r zero i t = t
broadcast_from r (suc left) i t = broadcast_from r left (i + 1) (bit_or t (shl64 1 (i * (r + 1))))

-- `for (...) t |= 1ull << (i * f + r);`.
unfoldable pub sentinels_from : ℕ → ℕ → ℕ → ℕ → ℕ
sentinels_from r zero i t = t
sentinels_from r (suc left) i t =
    sentinels_from r left (i + 1) (bit_or t (shl64 1 (i * (r + 1) + r)))

pub record FieldTables : Type 0 where
  pub broadcast : List ℕ
  pub sentinels : List (List ℕ)

-- `for (int r = 0; r < 8; ++r) for (int i = 0; i < 8; ++i) ...` from `r` on.
unfoldable pub broadcast_rows : ℕ → ℕ → List ℕ
unfolding broadcast_from
broadcast_rows zero r = []
broadcast_rows (suc left) r = broadcast_from r 8 0 0 ∷ broadcast_rows left (suc r)

-- `for (int n = 0; n <= 8; ++n) for (int i = 0; i < n; ++i) ...` from `n` on.
unfoldable pub sentinels_row : ℕ → ℕ → ℕ → List ℕ
unfolding sentinels_from
sentinels_row r zero n = []
sentinels_row r (suc left) n = sentinels_from r n 0 0 ∷ sentinels_row r left (suc n)

unfoldable pub sentinels_rows : ℕ → ℕ → List (List ℕ)
unfolding sentinels_row
sentinels_rows zero r = []
sentinels_rows (suc left) r = sentinels_row r 9 0 ∷ sentinels_rows left (suc r)

-- kFieldTables.
unfoldable pub make_field_tables : FieldTables
unfolding broadcast_rows sentinels_rows
make_field_tables = record { broadcast = broadcast_rows 8 0; sentinels = sentinels_rows 8 0 }

pub record FusionNodeCompact : Type 0 where
  pub keys : List ℕ
  pub packed : ℕ
  pub mask : ℕ
  pub n : ℕ
  pub r : ℕ

-- `packed_ |= sketch(keys_[i]) << (i * f)` for each sketch, from `i` on.
unfoldable pub pack_sketches : ℕ → List ℕ → ℕ → ℕ → ℕ
pack_sketches r [] i packed = packed
pack_sketches r (s ∷ sketches) i packed =
    pack_sketches r sketches (i + 1) (bit_or packed (shl64 s (i * (r + 1))))

-- The assertion `n <= K` is a hypothesis of the theorems; unused places hold 0.
unfoldable pub build : List ℕ → FusionNodeCompact
unfolding pack_sketches
build keys =
    let mask = neighbour_mask keys 0 in
    let r = popcount mask in
    record {
      keys = keys ++ replicate (8 - length keys) 0;
      packed = pack_sketches r (map (λ x. sketch_pext x mask) keys) 0 0;
      mask = mask;
      n = length keys;
      r = r;
    }

-- The words of the tables that a node uses: the ones of each field, and the sentinels of its keys.
unfoldable pub table_words : FusionNodeCompact → Run (ℕ × ℕ)
unfolding make_field_tables
table_words node = do
  broadcast ← load make_field_tables.broadcast node.r
  row ← load make_field_tables.sentinels node.r
  sentinels ← load row node.n
  ok (broadcast, sentinels)

-- The comparison with these words.
unfoldable pub rank_words : ℕ × ℕ → FusionNodeCompact → ℕ → ℕ → ℕ
rank_words (broadcast, sentinels) node s minus =
    let query = mul64 (sub64 (bit_or s (shl64 1 node.r)) minus) broadcast in
    popcount (bit_and (sub64 query node.packed) sentinels)

unfoldable pub rank_le : FusionNodeCompact → ℕ → ℕ → Run ℕ
unfolding table_words rank_words
rank_le node s minus = do words ← table_words node; ok (rank_words words node s minus)

-- Every comparison of a node reads the same words.
unfoldable pub rank : FusionNodeCompact → ℕ → Run ℕ
unfolding table_words rank_words
rank node q =
    let keys = take node.n node.keys in
    let found : Run ℕ = (do
      words ← table_words node
      ok (branchfree_rank (λ x. sketch_pext x node.mask) (rank_words words node) keys q)) in
    if node.n == 0 then ok 0 else found
