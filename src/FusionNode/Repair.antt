-- ===== src/FusionNode/Repair.antt =====
-- include/fusion_node.hpp, FusionNode<K, false>::rank and predecessor: the position that the sketches
-- give is repaired by the stored key that shares the longest prefix with the query.
use Prim.Native.Nat.{bit_and, bit_or}
use fusion_tree_benchmark.Prelude.{
  ℕ, zero, suc, ◌-◌, Bool, List, Option, none, some, length, ◌!◌, ltb, ◌==◌, if◌then◌else◌, Run, ok,
  load, ◌>>=◌,
}
use fusion_tree_benchmark.Word.{word, sub64, shl64, shr}
use fusion_tree_benchmark.Bits.{highest_diff_bit}
use fusion_tree_benchmark.FusionNode.{FusionNode, sketch, sketch_rank_le, sketch_rank_lt}

-- `~x`.
unfoldable pub not64 : ℕ → ℕ
not64 x = word - 1 - x

-- The state of the loop over the candidates: `best` (`none` for -1) with `best_h`, or the exact hit
-- that ends it.
pub data Best : Type 0 where
  best : Option ℕ → ℕ → Best
  hit : ℕ → Best

-- One round, at candidate `c`.
unfoldable pub consider : List ℕ → ℕ → ℕ → Best → Best
consider keys q c (hit i) = hit i
consider keys q c (best b best_h) =
    let h = highest_diff_bit q (keys ! c) in
    let closer = if ltb h best_h then best (some c) h else best b best_h in
    let round = if keys ! c == q then hit c else closer in
    if ltb c (length keys) then round else best b best_h

-- `for (c = i - 1; c <= i; ++c)`, where `c < 0` is skipped.
unfoldable pub candidates : List ℕ → ℕ → ℕ → Best
unfolding consider
candidates keys q zero = consider keys q zero (best none 64)
candidates keys q (suc i) = consider keys q (suc i) (consider keys q i (best none 64))

-- The far edge of the sibling subtree at bit `h`, and its rank.
unfoldable pub repair : Bool → FusionNode → ℕ → ℕ → ℕ
unfolding not64
repair use_pext node q h =
    let bit = shl64 1 h in
    let below = sub64 bit 1 in
    if bit_and (shr q h) 1 == 1
    then sketch_rank_le node (sketch use_pext node (bit_or (bit_and q (not64 bit)) below))
    else sketch_rank_lt node (sketch use_pext node (bit_and (bit_or q bit) (not64 below)))

unfoldable pub rank_of : Bool → FusionNode → ℕ → Best → ℕ
unfolding repair
rank_of use_pext node q (hit c) = c
rank_of use_pext node q (best none h) = 0
rank_of use_pext node q (best (some c) h) = repair use_pext node q h

unfoldable pub rank : Bool → FusionNode → ℕ → ℕ
unfolding candidates rank_of
rank use_pext node q =
    let i = sketch_rank_le node (sketch use_pext node q) in
    if node.n == 0 then 0 else rank_of use_pext node q (candidates node.keys q i)

unfoldable pub predecessor : Bool → FusionNode → ℕ → Run (Option ℕ)
unfolding rank
predecessor use_pext node q =
    let rk = rank use_pext node q in
    let found : Run (Option ℕ) = (do k ← load node.keys (rk - 1); ok (some k)) in
    if rk == 0 then ok none else found
