-- ===== src/FusionNodeWide/Lanes.antt =====
-- The comparison of a wide node counts lanes.
use Prim.Native.Nat.{bit_and}
use fusion_tree_benchmark.Prelude.{
  ℕ, zero, suc, ◌+◌, ◌-◌, ◌*◌, ◌/◌, ◌^◌, ◌≤◌, ◌<◌, ◌≡◌, refl, List, [], ◌∷◌, take, ltb,
  if◌then◌else◌, arith, Bool-cases, inl, inr, tests,
}
use fusion_tree_benchmark.Word.{sub64-eq, shr}
use fusion_tree_benchmark.Word.Digits.{bit_or_join}
use fusion_tree_benchmark.Word.Fields.{IsBelow}
use fusion_tree_benchmark.FusionNode.Sketch.{bit_and-one}
use fusion_tree_benchmark.Spec
use fusion_tree_benchmark.FusionNodeWide.{FusionNodeWide, to_u16, count_lanes, lanes_rank}

-- One lane: its sign bit survives where the sketch is below `t`, for the query word `t - 1 + 2 ^ 15`.
lane_lem :
    (t p : ℕ)
    → p < 2 ^ 15
    → t ≤ 2 ^ 15
    → bit_and (shr (to_u16 (t + 0x7fff + 2 ^ 16 - p)) 15) 1 ≡ (if ltb p t then 1 else 0)
unfolding shr
lane_lem t p h l =
    let d = to_u16 (t + 0x7fff + 2 ^ 16 - p) in
    elim (Bool-cases (ltb p t)) [
      | inl less ↦ rw less (omega (tests, less, bit_and-one (d / 2 ^ 15)))
      | inr ge ↦ rw ge (omega (tests, ge, bit_and-one (d / 2 ^ 15)))
    ]

count_lanes-rank :
    (t n : ℕ) (packed : List ℕ)
    → t ≤ 2 ^ 15
    → IsBelow (2 ^ 15) (take n packed)
    → count_lanes (t + 0x7fff) n packed ≡ Spec.rank (take n packed) t
unfolding count_lanes Spec.rank
count_lanes-rank t zero packed l b = refl
count_lanes-rank t (suc n) [] l b = refl
count_lanes-rank t (suc n) (p ∷ packed) l b =
    rw (lane_lem t p b.0 l, count_lanes-rank t n packed l b.1) refl

-- In a wide node whose live sketches have at most 15 bits, for a number s of at most 15 bits: the
-- comparison counts the live sketches that are at most s for minus = 0, and those below s for
-- minus = 1.
pub lanes_rank-rank :
    (node : FusionNodeWide) (s minus : ℕ)
    → IsBelow (2 ^ 15) (take node.n node.packed)
    → s < 2 ^ 15
    → minus ≤ 1
    → lanes_rank node s minus ≡ Spec.rank (take node.n node.packed) (suc s - minus)
unfolding lanes_rank
lanes_rank-rank node s minus b small few =
    let joined = bit_or_join 15 s 1 small in
    let less = sub64-eq (s + 1 * 2 ^ 15) minus (omega arith) (omega arith) in
    let query : to_u16 (s + 1 * 2 ^ 15 - minus) ≡ suc s - minus + 0x7fff = omega arith in
    rw (joined, less, query) (count_lanes-rank (suc s - minus) node.n node.packed (omega arith) b)
