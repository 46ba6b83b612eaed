-- ===== src/PatriciaNode.antt =====
-- include/patricia_node.hpp, class PatriciaNode<K> for K = 8 * rounds: the sparse sketches of a blind
-- descent and the dense sketches of the keys. `_pext_u64` is the portable loop of sketch_pext. The eight
-- 32-bit lanes of a comparison are written as two times four.
pub mod Ends
pub mod Path
pub mod Scan
use Prim.Native.Nat.{bit_and, bit_or, bit_xor}
use fusion_tree_benchmark.Prelude.{
  ℕ, zero, suc, ◌+◌, ◌-◌, ◌*◌, ◌/◌, ◌%◌, ◌^◌, Bool, List, [], ◌∷◌, ◌++◌, map, length, replicate,
  take, ◌!◌, put, ltb, ◌==◌, if◌then◌else◌, Run, out_of_fuel, fault, ok, ◌>>=◌, load,
}
use fusion_tree_benchmark.Word.{shl64, shr}
use fusion_tree_benchmark.Word.Signed.{ℤ, pos, negsuc, ltbℤ}
use fusion_tree_benchmark.Bits.{clz_from, clz64, msb, highest_diff_bit, popcount}
use fusion_tree_benchmark.Search.{compare4, shl32}
use fusion_tree_benchmark.FusionNode.{sketch_pext}
use fusion_tree_benchmark.FusionNode.Repair.{not64}
use fusion_tree_benchmark.FusionNodeWide.{neighbour_mask}

pub record PatriciaNode : Type 0 where
  pub sparse : List ℕ
  pub dense : List ℕ
  pub key : List ℕ
  pub mask : ℕ
  pub n : ℕ

abbrev pub to_u32 : ℕ → ℕ
to_u32 x = x % 2 ^ 32

-- `for (i = m; i < hi; ++i) path[i] |= 1ull << d`, with `left` keys to go.
unfoldable pub mark_right : List ℕ → ℕ → ℕ → ℕ → List ℕ
mark_right path d i zero = path
mark_right path d i (suc left) =
    mark_right (put path i (bit_or (path ! i) (shl64 1 d))) d (suc i) left

-- `while (!((k[m] >> d) & 1)) ++m;`
unfoldable pub first_right : ℕ → List ℕ → ℕ → ℕ → Run ℕ
first_right zero k d m = out_of_fuel
first_right (suc fuel) k d m = do
  x ← load k m
  let next = first_right fuel k d (suc m)
  if bit_and (shr x d) 1 == 0 then next else ok m

unfoldable pub split : ℕ → List ℕ → List ℕ → ℕ → ℕ → Run (List ℕ)
unfolding mark_right first_right
split zero k path lo hi = out_of_fuel
split (suc fuel) k path lo hi =
    let parts : Run (List ℕ) = (do
      let d = highest_diff_bit (k ! lo) (k ! (hi - 1))
      m ← first_right (suc (length k)) k d lo
      left ← split fuel k (mark_right path d m (hi - m)) lo m
      split fuel k left m hi) in
    if ltb (hi - lo) 2 then ok path else parts

-- `sparse[i]` for the first `left` keys.
unfoldable pub sparse_row : ℕ → List ℕ → ℕ → List ℕ
sparse_row mask path left = map (λ x. to_u32 (sketch_pext x mask)) (take left path)

unfoldable pub build : ℕ → List ℕ → Run PatriciaNode
unfolding split sparse_row
build rounds k = do
  let mask = neighbour_mask k 0
  let unused = 8 * rounds - length k
  path ← split (suc (length k)) k (replicate (8 * rounds) 0) 0 (length k)
  ok (record {
    sparse = sparse_row mask path (length k) ++ replicate unused 0xffffffff;
    dense = map (λ x. to_u32 (sketch_pext x mask)) k ++ replicate unused 0xffffffff;
    key = k ++ replicate unused 0xffffffffffffffff;
    mask = mask;
    n = length k;
  })

-- One comparison of eight lanes.
unfoldable pub compare8 : (ℕ → Bool) → List ℕ → ℕ → Run ℕ
compare8 test arr p = do
  low ← compare4 test arr p
  high ← compare4 test arr (p + 4)
  ok (bit_or low (shl32 high 4))

-- `for (i = 0; i < K; i += 8) m |= ... << i`, with the rounds left as the first argument.
unfoldable pub scan8 : ℕ → (ℕ → Bool) → List ℕ → ℕ → ℕ → Run ℕ
unfolding compare8
scan8 zero test arr i m = ok m
scan8 (suc rounds) test arr i m = do
  next ← compare8 test arr i
  scan8 rounds test arr (i + 8) (bit_or m (shl32 next i))

-- `31 - __builtin_clz(m)`, which is undefined for 0.
unfoldable pub last_bit : ℕ → Run ℕ
last_bit m = if m == 0 then fault else ok (31 - clz_from 32 m)

unfoldable pub step : ℕ → PatriciaNode → ℕ → Run ℕ
unfolding scan8 last_bit
step rounds t q = do
  let dq = to_u32 (sketch_pext q t.mask)
  m ← scan8 rounds (λ s. bit_and s dq == s) t.sparse 0 0
  last_bit m

-- The two's complement value of 32 bits, and AVX2's order on lanes of 32 bits.
unfoldable pub signed32 : ℕ → ℤ
signed32 x = if ltb x (2 ^ 31) then pos x else negsuc (2 ^ 32 - x - 1)

unfoldable pub slt32 : ℕ → ℕ → Bool
unfolding signed32 ltbℤ
slt32 a b = ltbℤ (signed32 a) (signed32 b)

abbrev pub flip32 : ℕ → ℕ
flip32 x = bit_xor x 0x80000000

-- The sketch that rank compares with the dense ones, for the key `y` that the descent lands on.
unfoldable pub edge_sketch : ℕ → ℕ → ℕ → ℕ
unfolding not64
edge_sketch mask q y =
    let x = bit_xor q y in
    let p = if x == 0 then 0 else 63 - clz64 x in
    let low = 2 ^ p - 1 in
    let gt = ltb y q in
    let e = if gt then bit_or q low else bit_and q (not64 low) in
    to_u32 (to_u32 (sketch_pext e mask) + (if gt then 1 else 0))

unfoldable pub rank : ℕ → PatriciaNode → ℕ → Run ℕ
unfolding step scan8 slt32 edge_sketch
rank rounds t q = do
  j ← step rounds t q
  y ← load t.key j
  let tv = flip32 (edge_sketch t.mask q y)
  m ← scan8 rounds (λ d. slt32 (flip32 d) tv) t.dense 0 0
  ok (popcount m)
