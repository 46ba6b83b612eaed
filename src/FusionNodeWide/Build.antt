-- ===== src/FusionNodeWide/Build.antt =====
-- The lanes of a node that include/fusion_node_wide.hpp builds.
use fusion_tree_benchmark.Prelude.{
  ℕ, suc, ◌-◌, ◌^◌, ◌≤◌, ◌<◌, ◌≡◌, refl, ap, sym, ◌∙◌, List, [], ◌∷◌, ◌++◌, map, length, take,
  replicate, length-map, arith,
}
use fusion_tree_benchmark.Word.{pow_mono}
use fusion_tree_benchmark.Word.Fields.{IsBelow}
use fusion_tree_benchmark.Bits.{popcount}
use fusion_tree_benchmark.Spec
use fusion_tree_benchmark.FusionNode.{sketch_pext}
use fusion_tree_benchmark.FusionNodeWide.{to_u16, neighbour_mask, build, lanes_rank}
use fusion_tree_benchmark.FusionNodeWide.Lanes.{lanes_rank-rank}
use fusion_tree_benchmark.FusionNodeWide.Sketches.{sketch_pext-lt, neighbour_mask_few}

pub take-append : (xs ys : List ℕ) → take (length xs) (xs ++ ys) ≡ xs
take-append [] ys = refl
take-append (x ∷ xs) ys = ap (λ r. x ∷ r) (take-append xs ys)

module _ (mask : ℕ) (few : popcount mask ≤ 15) where
  narrow : (x : ℕ) → sketch_pext x mask < 2 ^ 15
  narrow x = omega (arith, sketch_pext-lt x mask, pow_mono (popcount mask) 15 few)

  row-sketches :
      (keys : List ℕ)
      → map (λ x. to_u16 (sketch_pext x mask)) keys ≡ map (λ x. sketch_pext x mask) keys
  row-sketches [] = refl
  row-sketches (x ∷ keys) =
      let same : to_u16 (sketch_pext x mask) ≡ sketch_pext x mask = omega (arith, narrow x) in
      rw (same, row-sketches keys) refl

  row-IsBelow : (keys : List ℕ) → IsBelow (2 ^ 15) (map (λ x. sketch_pext x mask) keys)
  row-IsBelow [] = tt
  row-IsBelow (x ∷ keys) = (narrow x, row-IsBelow keys)

-- In a wide node built over at most 16 keys the sketches of the keys and of every query have at most 15
-- bits, and the comparison counts the keys whose sketches are at most the query's for minus = 0, and
-- those whose sketches are below it for minus = 1.
pub lanes_rank-build :
    (keys : List ℕ) (x minus : ℕ)
    → length keys ≤ 16
    → minus ≤ 1
    → ((y : ℕ) → sketch_pext y (build keys).mask < 2 ^ 15)
      × (lanes_rank (build keys) (sketch_pext x (build keys).mask) minus
          ≡ Spec.rank
              (map (λ y. sketch_pext y (build keys).mask) keys)
              (suc (sketch_pext x (build keys).mask) - minus))
unfolding build
lanes_rank-build keys x minus few one =
    let mask = neighbour_mask keys 0 in
    let bits : popcount mask ≤ 15 = neighbour_mask_few keys 15 few in
    let row : List ℕ = map (λ y. to_u16 (sketch_pext y mask)) keys in
    let size : length row ≡ length keys =
      length-map {0, 0} (λ y. to_u16 (sketch_pext y mask)) keys in
    let live : take (length keys) (row ++ replicate (16 - length keys) 0)
        ≡ map (λ y. sketch_pext y mask) keys =
      ap (λ n. take n (row ++ replicate (16 - length keys) 0)) (sym size)
      ∙ take-append row (replicate (16 - length keys) 0)
      ∙ row-sketches mask bits keys in
    let below : IsBelow (2 ^ 15) (take (length keys) (row ++ replicate (16 - length keys) 0)) =
      rw live (row-IsBelow mask bits keys) in
    (
      narrow mask bits,
      lanes_rank-rank (build keys) (sketch_pext x mask) minus below (narrow mask bits x) one
          ∙ ap (λ r. Spec.rank r (suc (sketch_pext x mask) - minus)) live,
    )
