-- ===== src/FusionNode/BranchFree.antt =====
-- include/fusion_node.hpp, branchfree_rank and its use in FusionNode<K, true>::rank: one parallel
-- comparison counts the sketches at or below a number, or, with 1 taken off, those below it.
use Prim.Native.Nat.{bit_and, bit_or, bit_xor}
use native.Mathlib.Nat.{pow-suc}
use fusion_tree_benchmark.Prelude.{
  ℕ, suc, ◌+◌, ◌-◌, ◌*◌, ◌^◌, ◌≤◌, ◌<◌, ◌≡◌, refl, ◌∙◌, false, Bool, List, [], ◌∷◌, map, length,
  replicate, length-map, ◌!◌, ltb, ◌==◌, if◌then◌else◌, arith,
}
use fusion_tree_benchmark.Word.{mul64, sub64, sub64-eq, shl64, shr, pow_pos, pow_mono}
use fusion_tree_benchmark.Word.Fields.{fields, IsBelow}
use fusion_tree_benchmark.Word.Compare.{count_fit, parallel_compare}
use fusion_tree_benchmark.Bits.{msb, popcount, extract_bits_naive}
use fusion_tree_benchmark.Spec
use fusion_tree_benchmark.FusionNode.{FusionNode, sketch, sketch_with, build}
use fusion_tree_benchmark.FusionNode.Repair.{not64}
use fusion_tree_benchmark.FusionNode.Pack.{join_field}
use fusion_tree_benchmark.FusionNode.Sketch.{important-bound}
use fusion_tree_benchmark.FusionNode.Rank.{
  positions, sketches, sketches-IsBelow, room_lem, build-fields,
}

-- `branchfree_rank`, with the sketch and the parallel comparison as arguments, as in the code.
unfoldable pub branchfree_rank : (ℕ → ℕ) → (ℕ → ℕ → ℕ) → List ℕ → ℕ → ℕ
unfolding not64
branchfree_rank sk le keys q =
    let n = length keys in
    let i = le (sk q) 0 in
    let lo = if ltb 0 i then i - 1 else 0 in
    let hi = if ltb i n then i else n - 1 in
    let xa = bit_xor q (keys ! lo) in
    let xb = bit_xor q (keys ! hi) in
    let x = if ltb xa xb then xa else xb in
    let exact = if xa == 0 then lo else hi in
    let h = msb (bit_or x 1) in
    let bit = bit_and (shr q h) 1 in
    let below = sub64 (shl64 1 h) 1 in
    let e =
      if bit == 0
      then bit_and (bit_or q (shl64 1 h)) (not64 below)
      else bit_or (bit_and q (not64 (shl64 1 h))) below in
    let rk = le (sk e) (bit_xor bit 1) in if x == 0 then exact else rk

-- The comparison that FusionNode<K, true>::rank hands over.
unfoldable pub parallel_le : FusionNode → ℕ → ℕ → ℕ
parallel_le node s minus =
    let query = mul64 (sub64 (bit_or s (shl64 1 node.r)) minus) node.broadcast in
    popcount (bit_and (sub64 query node.packed) node.sentinels)

-- FusionNode<K, true>::rank.
unfoldable pub rank : Bool → FusionNode → ℕ → ℕ
unfolding branchfree_rank parallel_le
rank use_pext node q =
    let rk = branchfree_rank (sketch use_pext node) (parallel_le node) node.keys q in
    if node.n == 0 then 0 else rk

pub count_fit-minus :
    (m s minus : ℕ) (xs : List ℕ)
    → 0 < m
    → minus ≤ 1
    → count_fit m (s + m - minus) xs ≡ Spec.rank xs (suc s - minus)
unfolding count_fit Spec.rank
count_fit-minus m s minus [] pos few = refl
count_fit-minus m s minus (x ∷ xs) pos few = ground (arith, count_fit-minus m s minus xs pos few)

compare_minus-rank :
    (imp xs : List ℕ) (s minus : ℕ)
    → IsBelow (2 ^ length imp) xs
    → s < 2 ^ length imp
    → minus ≤ 1
    → length xs * suc (length imp) ≤ 64
    → length imp ≤ 62
    → popcount (
        bit_and
          (sub64
            (mul64
              (sub64 (bit_or s (shl64 1 (length imp))) minus)
              (fields (suc (length imp)) (replicate (length xs) 1)))
            (fields (suc (length imp)) xs))
          (fields (suc (length imp)) (replicate (length xs) (2 ^ length imp))))
      ≡ Spec.rank xs (suc s - minus)
unfolding popcount
compare_minus-rank imp xs s minus b small few room short =
    let r = length imp in
    let (joined, bound) = join_field 1 r s 1 small (omega arith) (omega arith) in
    let pos = pow_pos r in
    let e : s + 1 * 2 ^ r ≡ s + 2 ^ r = omega arith in
    let less : sub64 (s + 2 ^ r) minus ≡ s + 2 ^ r - minus =
      sub64-eq (s + 2 ^ r) minus (omega arith)
        (omega (arith, pow-suc 2 r, pow_mono (suc r) 63 (omega arith))) in
    rw (joined, e, less)
      (parallel_compare r (s + 2 ^ r - minus) xs (omega (arith, pow-suc 2 r)) b (omega arith) room
        ∙ count_fit-minus (2 ^ r) s minus xs pos few)

-- A node built over one to eight keys, without PEXT, and a number s of as many bits as it has important
-- positions: the comparison counts the keys whose sketches are at most s for minus = 0, and those
-- whose sketches are below s for minus = 1.
pub parallel_le-rank :
    (x : ℕ) (rest : List ℕ) (s minus : ℕ)
    → length rest ≤ 7
    → s < 2 ^ (build false (x ∷ rest)).r
    → minus ≤ 1
    → parallel_le (build false (x ∷ rest)) s minus
      ≡ Spec.rank (map (sketch false (build false (x ∷ rest))) (x ∷ rest)) (suc s - minus)
unfolding build parallel_le sketch sketch_with
parallel_le-rank x rest s minus h small few =
    let keys = x ∷ rest in
    let imp = positions keys in
    let bound = important-bound keys in
    let size : length (sketches keys) ≡ length keys =
      length-map (λ (y : ℕ). extract_bits_naive y imp) keys in
    rw (build-fields keys (omega arith)) (
      compare_minus-rank imp (sketches keys) s minus (sketches-IsBelow imp keys (omega arith)) small
        few (rw size (room_lem (length keys) (length imp) (omega arith) bound)) (omega arith))
