-- ===== src/Tests.antt =====
-- Runs of the model on concrete inputs, and every theorem that has hypotheses at an input where they
-- hold.
mod Compact
mod Dynamic
mod Multiplier
mod Patricia
mod Rivals
mod Spline
mod Trees
use fusion_tree_benchmark.Prelude.{
  ℕ, suc, ◌*◌, ◌-◌, map, length, true, false, zero, take, ◌!◌, ◌^◌, ◌≤◌, ◌<◌, ◌≡◌, refl, List, [],
  ◌∷◌, none, some, ltb, ok, Returns, load, advance, arith,
}
use fusion_tree_benchmark.Word.{add64, sub64, mul64, shl64, shr}
use fusion_tree_benchmark.Word.Masks.{count_bits, mask_of}
use fusion_tree_benchmark.Word.Signed.{slt, flip, slt-flip}
use fusion_tree_benchmark.Bits.{clz_from, clz64, msb}
use fusion_tree_benchmark.Buckets.{to_u32, width_of, shift_for, bucket, pick, fill}
use fusion_tree_benchmark.Bits.TopBit.{msb_bounds}
use fusion_tree_benchmark.Spec.{IsKeys, IsPredecessor, rank, rank-Splits, Chain-IsKeys}
use fusion_tree_benchmark.Search.{flipped_copy, narrow, compare4, scan, shl32, last_mile, answer}
use fusion_tree_benchmark.Search.LastMile.{last_mile-Splits}
use fusion_tree_benchmark.SortedArray
use fusion_tree_benchmark.SortedArray.Correct.{sorted_array_correct}
use fusion_tree_benchmark.RadixJump
use fusion_tree_benchmark.RadixJump.Correct.{radix_jump_correct}
use fusion_tree_benchmark.ClusterJump
use fusion_tree_benchmark.ClusterJump.Correct.{cluster_jump_correct}
use fusion_tree_benchmark.Bits.{
  highest_diff_bit, popcount, extract_from, extract_bits_naive, mask_from, mask_from_positions,
}
use fusion_tree_benchmark.FusionNode.{
  seen, important, insert_sorted, sort, pext_from, sketch_pext, sketch_with, sketch, pack, build,
  sketch_rank_le, sketch_rank_lt,
}
use fusion_tree_benchmark.FusionNode.Sketch.{important-bound}
use fusion_tree_benchmark.FusionNode.Rank.{sketch_rank_le-rank, sketch_rank_lt-rank}
use fusion_tree_benchmark.Learned
use fusion_tree_benchmark.Learned.Correct.{rs_index_correct, cht_index_correct}
use fusion_tree_benchmark.Pgm
use fusion_tree_benchmark.Pgm.Correct.{pgm_wrap_correct}
use fusion_tree_benchmark.FusionNode.Repair
use fusion_tree_benchmark.FusionNode.BranchFree
use fusion_tree_benchmark.FusionNode.BranchFree.{parallel_le-rank}
use fusion_tree_benchmark.FusionNodeWide
use fusion_tree_benchmark.FusionNodeWide.Build.{lanes_rank-build}
use fusion_tree_benchmark.Rmi
use fusion_tree_benchmark.Rmi.Correct.{rmi_index_correct}

abbrev twelve : List ℕ
twelve =
    3 ∷ 5 ∷ 8 ∷ 13 ∷ 21 ∷ 34 ∷ 55 ∷ 0x8000000000000000 ∷ 0x8000000000000001 ∷ 0x8000000000000007
    ∷ 0xfffffffffffffff0 ∷ 0xffffffffffffffff ∷ []

twelve-IsKeys : IsKeys twelve
twelve-IsKeys = Chain-IsKeys twelve (omega arith)

-- Everything that the runs compute with.
program : Unit {0}
unfolding load advance add64 sub64 shl64 shr count_bits mask_of slt flip clz_from clz64 to_u32
    width_of shift_for bucket pick fill flipped_copy narrow compare4 scan shl32 last_mile answer
    SortedArray.build SortedArray.predecessor RadixJump.want_bits RadixJump.build_keys
    RadixJump.build RadixJump.predecessor ClusterJump.top_bits ClusterJump.fit
    ClusterJump.bucket_end ClusterJump.rows ClusterJump.build_keys ClusterJump.build
    ClusterJump.predecessor mul64 msb highest_diff_bit popcount extract_from extract_bits_naive
    mask_from mask_from_positions seen important insert_sorted sort pext_from sketch_pext
    sketch_with sketch pack build sketch_rank_le sketch_rank_lt rank Repair.not64 Repair.consider
    Repair.candidates Repair.repair Repair.rank_of Repair.rank Repair.predecessor
    BranchFree.branchfree_rank BranchFree.parallel_le BranchFree.rank FusionNodeWide.neighbour_mask
    FusionNodeWide.build FusionNodeWide.count_lanes FusionNodeWide.lanes_rank FusionNodeWide.rank
    Rmi.fits Rmi.choose Rmi.build Rmi.window Rmi.below_at Rmi.check_edges Rmi.position
    Rmi.predecessor
program = tt

sorted_array_runs : SortedArray.predecessor (SortedArray.build twelve) 22 ≡ ok (some 21)
unfolding program
sorted_array_runs = refl

radix_jump_runs :
    (RadixJump.predecessor (RadixJump.build twelve) 0x8000000000000003
      ≡ ok (some 0x8000000000000001))
    × (RadixJump.predecessor (RadixJump.build twelve) 3 ≡ ok none)
unfolding program
radix_jump_runs = (refl, refl)

cluster_jump_runs :
    (ClusterJump.predecessor (ClusterJump.build twelve) 0xffffffffffffffff
      ≡ ok (some 0xfffffffffffffff0))
    × (ClusterJump.predecessor (ClusterJump.build twelve) 56 ≡ ok (some 55))
unfolding program
cluster_jump_runs = (refl, refl)

abbrev five : List ℕ
five = 3 ∷ 5 ∷ 12 ∷ 200 ∷ 0x8000000000000000 ∷ []

important_bits_run : (build false five).imp ≡ 2 ∷ 3 ∷ 7 ∷ 63 ∷ []
unfolding program
important_bits_run = refl

sketches_run :
    (map (sketch false (build false five)) five ≡ 0 ∷ 1 ∷ 3 ∷ 6 ∷ 8 ∷ [])
    × (map (sketch true (build true five)) five ≡ 0 ∷ 1 ∷ 3 ∷ 6 ∷ 8 ∷ [])
unfolding program
sketches_run = (refl, refl)

sketch_rank_runs :
    (sketch_rank_le (build false five) 6 ≡ 4) × (sketch_rank_lt (build false five) 6 ≡ 3)
unfolding program
sketch_rank_runs = (refl, refl)

five_room : 6 < 2 ^ (build false five).r
unfolding program
five_room = omega arith

sketch_rank_le-rank_example :
    sketch_rank_le (build false five) 6 ≡ rank (map (sketch false (build false five)) five) 7
sketch_rank_le-rank_example = sketch_rank_le-rank five 6 (omega arith) five_room

sketch_rank_lt-rank_example :
    sketch_rank_lt (build false five) 6 ≡ rank (map (sketch false (build false five)) five) 6
sketch_rank_lt-rank_example = sketch_rank_lt-rank five 6 (omega arith) five_room

sorted_array_correct_example :
    Returns (IsPredecessor twelve 22) (SortedArray.predecessor (SortedArray.build twelve) 22)
sorted_array_correct_example = sorted_array_correct twelve 22 twelve-IsKeys

radix_jump_correct_example :
    Returns (IsPredecessor twelve 60) (RadixJump.predecessor (RadixJump.build twelve) 60)
radix_jump_correct_example = radix_jump_correct twelve 60 twelve-IsKeys (omega arith) (omega arith)

cluster_jump_correct_example :
    Returns (IsPredecessor twelve 60) (ClusterJump.predecessor (ClusterJump.build twelve) 60)
cluster_jump_correct_example =
    cluster_jump_correct twelve 60 twelve-IsKeys (omega arith) (omega arith)

last_mile-Splits_example : last_mile 2 (flipped_copy (4 * 2) twelve) 2 9 55 ≡ ok 6
unfolding rank
last_mile-Splits_example =
    last_mile-Splits 2 twelve 55 6 twelve-IsKeys (omega arith) (rank-Splits twelve 55 twelve-IsKeys)
      2 9 (omega arith) (omega arith) (omega arith) (omega arith)

slt-flip_example : slt (flip 5) (flip 0x8000000000000000) ≡ ltb 5 0x8000000000000000
slt-flip_example = slt-flip 5 0x8000000000000000 (omega arith) (omega arith)

-- A search bound that starts one key before the answer and runs to the end of the keys.
abbrev bound : List ℕ → ℕ → ℕ × ℕ
bound a q = (rank a q - 1, length a)

bound-rank :
    (rank twelve 60 - 1 ≤ rank twelve 60)
    × (rank twelve 60 ≤ length twelve)
    × (length twelve ≤ length twelve)
bound-rank = let s = rank-Splits twelve 60 twelve-IsKeys in (omega arith, s.inside, omega arith)

rs_index_correct_example :
    Returns (IsPredecessor twelve 60) (Learned.predecessor (Learned.rs_build bound twelve) 60)
rs_index_correct_example =
    rs_index_correct twelve 60 twelve-IsKeys (omega arith) (omega arith) bound (λ _. bound-rank)

cht_index_correct_example :
    Returns (IsPredecessor twelve 60) (Learned.predecessor (Learned.cht_build 64 bound twelve) 60)
cht_index_correct_example =
    cht_index_correct twelve 60 twelve-IsKeys (omega arith) (omega arith) 64 bound
      (λ _ _. bound-rank)

abbrev two_keys : List ℕ
two_keys = 7 ∷ 0xffffffffffffffff ∷ []

two_keys-IsKeys : IsKeys two_keys
two_keys-IsKeys = Chain-IsKeys two_keys (omega arith)

two_keys-strict : (i j : ℕ) → i < j → j < length two_keys → two_keys ! i < two_keys ! j
two_keys-strict zero (suc zero) h l = omega arith
two_keys-strict (suc i) (suc zero) h l = absurd (omega arith)
two_keys-strict i zero h l = absurd (omega arith)
two_keys-strict i (suc (suc j)) h l = absurd (omega arith)

indexed_run : Pgm.indexed two_keys ≡ 1
unfolding Pgm.indexed
indexed_run = refl

-- An index over the one key 7 that always answers with the whole range.
two_keys-bound :
    (x : ℕ)
    → x < Pgm.max_word
    → 0 < Pgm.indexed two_keys
    → (0 ≤ rank (take (Pgm.indexed two_keys) two_keys) x)
      × (rank (take (Pgm.indexed two_keys) two_keys) x ≤ 1)
      × (1 ≤ length (take (Pgm.indexed two_keys) two_keys))
unfolding rank
two_keys-bound x h present = rw indexed_run (omega arith, ground arith, omega arith)

pgm_wrap_correct_example :
    Returns
      (IsPredecessor two_keys 0xffffffffffffffff)
      (Pgm.predecessor (Pgm.build (λ _ _. (0, 1)) two_keys) 0xffffffffffffffff)
pgm_wrap_correct_example =
    pgm_wrap_correct (λ _ _. (0, 1)) two_keys 0xffffffffffffffff two_keys-IsKeys two_keys-strict
      (omega arith) (omega arith) two_keys-bound

-- A key, its neighbours, and numbers that share long prefixes with keys.
abbrev queries : List ℕ
queries =
    0 ∷ 3 ∷ 4 ∷ 6 ∷ 12 ∷ 13 ∷ 199 ∷ 201 ∷ 0x7fffffffffffffff ∷ 0x8000000000000000
    ∷ 0xffffffffffffffff ∷ []

rank_runs : map (Repair.rank false (build false five)) queries ≡ map (rank five) queries
unfolding program
rank_runs = refl

branchfree_rank_runs :
    map (BranchFree.rank true (build true five)) queries ≡ map (rank five) queries
unfolding program
branchfree_rank_runs = refl

node_predecessor_run : Repair.predecessor false (build false five) 199 ≡ ok (some 12)
unfolding program
node_predecessor_run = refl

parallel_le-rank_example :
    BranchFree.parallel_le (build false five) 6 1
    ≡ rank (map (sketch false (build false five)) five) (7 - 1)
parallel_le-rank_example =
    parallel_le-rank 3 (5 ∷ 12 ∷ 200 ∷ 0x8000000000000000 ∷ []) 6 1 (omega arith) five_room
      (omega arith)

wide_rank_runs :
    map (FusionNodeWide.rank (FusionNodeWide.build five)) queries ≡ map (rank five) queries
unfolding program
wide_rank_runs = refl

lanes_rank-build_example :
    ((y : ℕ) → sketch_pext y (FusionNodeWide.build five).mask < 2 ^ 15)
    × (FusionNodeWide.lanes_rank
          (FusionNodeWide.build five)
          (sketch_pext 200 (FusionNodeWide.build five).mask)
          1
        ≡ rank
            (map (λ y. sketch_pext y (FusionNodeWide.build five).mask) five)
            (suc (sketch_pext 200 (FusionNodeWide.build five).mask) - 1))
lanes_rank-build_example = lanes_rank-build five 200 1 (omega arith) (omega arith)

-- Models trained on the twelve keys: one that always guesses the front, one that guesses the end.
abbrev models : List Rmi.RmiEntry
models =
    record {
      rank = 1;
      n = 12;
      first = 3;
      last = 0xffffffffffffffff;
      q1 = 13;
      mid = 55;
      loads = true;
      lookup = λ _. (0, 1);
    }
    ∷ record {
      rank = 2;
      n = 12;
      first = 3;
      last = 0xffffffffffffffff;
      q1 = 13;
      mid = 55;
      loads = true;
      lookup = λ _. (11, 1);
    }
    ∷ []

rmi_runs :
    (Rmi.predecessor (Rmi.build 1 models twelve) 0xffffffffffffffff ≡ ok (some 0xfffffffffffffff0))
    × (Rmi.predecessor (Rmi.build 2 models twelve) 9 ≡ ok (some 8))
    × (Rmi.predecessor (Rmi.build 3 models twelve) 9 ≡ ok (some 8))
unfolding program
rmi_runs = (refl, refl, refl)

rmi_index_correct_example :
    Returns (IsPredecessor twelve 9) (Rmi.predecessor (Rmi.build 2 models twelve) 9)
rmi_index_correct_example = rmi_index_correct 2 models twelve 9 twelve-IsKeys (omega arith)
