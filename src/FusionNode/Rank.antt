-- ===== src/FusionNode/Rank.antt =====
-- The parallel comparison of a built node counts the sketches below or at a number.
use Prim.Native.Nat.{bit_and, bit_or}
use native.Mathlib.Nat.{pow-suc}
use fusion_tree_benchmark.Prelude.{
  ℕ, zero, suc, ◌+◌, ◌-◌, ◌*◌, ◌^◌, ◌≤◌, ◌<◌, ◌≡◌, refl, sym, ap, ◌∙◌, false, List, [], ◌∷◌, map,
  length, replicate, length-map, suc-eq_zero, arith,
}
use fusion_tree_benchmark.Word.{mul64, sub64, shl64}
use fusion_tree_benchmark.Word.Fields.{fields, IsBelow}
use fusion_tree_benchmark.Word.Compare.{count_fit, parallel_compare}
use fusion_tree_benchmark.Bits.{extract_bits_naive, popcount}
use fusion_tree_benchmark.Spec.{rank}
use fusion_tree_benchmark.FusionNode.{
  important, sort, sketch, sketch_with, pack, build, sketch_rank_le, sketch_rank_lt,
}
use fusion_tree_benchmark.FusionNode.Pack.{join_field, pack-fields}
use fusion_tree_benchmark.FusionNode.Sketch.{important-bound, extract_bits_naive-lt}

-- The important positions and the sketches of a node over `keys`, without PEXT.
abbrev pub positions : List ℕ → List ℕ
positions keys = sort (important keys [])

abbrev pub sketches : List ℕ → List ℕ
sketches keys = map (λ x. extract_bits_naive x (positions keys)) keys

pub sketches-IsBelow :
    (imp keys : List ℕ)
    → length imp ≤ 64
    → IsBelow (2 ^ length imp) (map (λ x. extract_bits_naive x imp) keys)
sketches-IsBelow imp [] h = tt
sketches-IsBelow imp (x ∷ keys) h = (extract_bits_naive-lt x imp h, sketches-IsBelow imp keys h)

count_fit-rank : (m s : ℕ) (xs : List ℕ) → count_fit m (s + m) xs ≡ rank xs (suc s)
unfolding count_fit rank
count_fit-rank m s [] = refl
count_fit-rank m s (x ∷ xs) = ground (arith, count_fit-rank m s xs)

rank-zero : (xs : List ℕ) → rank xs 0 ≡ 0
unfolding rank
rank-zero [] = refl
rank-zero (x ∷ xs) = ground (arith, rank-zero xs)

sum_room : (n d r : ℕ) → n + d ≡ 8 → suc r ≤ 8 → n * suc r ≤ 64
sum_room n d r e h =
    let whole : n * suc r + d * suc r ≡ 8 * suc r = omega arith ∙ ap (λ (t : ℕ). t * suc r) e in
    omega arith

-- Eight sketches with their sentinels fit into a word.
pub room_lem : (n r : ℕ) → n ≤ 8 → r ≤ n - 1 → n * suc r ≤ 64
room_lem n r h l = sum_room n (8 - n) r (omega arith) (omega arith)

-- The three words of a built node.
pub build-fields :
    (keys : List ℕ)
    → length keys ≤ 8
    → pack (length (positions keys)) (sketches keys) 0 (0, 0, 0) ≡ (
      fields (suc (length (positions keys))) (sketches keys),
      fields (suc (length (positions keys))) (replicate (length (sketches keys)) 1),
      fields
          (suc (length (positions keys)))
          (replicate (length (sketches keys)) (2 ^ length (positions keys))),
    )
build-fields keys h =
    let imp = positions keys in
    let bound = important-bound keys in
    let size : length (sketches keys) ≡ length keys =
      length-map (λ (x : ℕ). extract_bits_naive x (positions keys)) keys in
    pack-fields (length imp) (sketches keys) (sketches-IsBelow imp keys (omega arith))
      (rw size (room_lem (length keys) (length imp) h bound))

-- The count of a word compared with every field, as `sketch_rank_le` computes it.
compare-rank :
    (imp xs : List ℕ) (s : ℕ)
    → IsBelow (2 ^ length imp) xs
    → s < 2 ^ length imp
    → length xs * suc (length imp) ≤ 64
    → length imp ≤ 63
    → popcount (
        bit_and
          (sub64
            (mul64
              (bit_or s (shl64 1 (length imp)))
              (fields (suc (length imp)) (replicate (length xs) 1)))
            (fields (suc (length imp)) xs))
          (fields (suc (length imp)) (replicate (length xs) (2 ^ length imp))))
      ≡ rank xs (suc s)
unfolding popcount
compare-rank imp xs s b small room short =
    let r = length imp in
    let (joined, bound) = join_field 1 r s 1 small (omega arith) (omega arith) in
    let e : s + 1 * 2 ^ r ≡ s + 2 ^ r = omega arith in
    rw (joined, e)
      (parallel_compare r (s + 2 ^ r) xs (omega (arith, pow-suc 2 r)) b (omega arith) room
        ∙ count_fit-rank (2 ^ r) s xs)

-- A node built over at most 8 keys, without PEXT, and a number s of as many bits as it has important
-- positions: `sketch_rank_le(s)` is the number of keys whose sketches are below s + 1.
pub sketch_rank_le-rank :
    (keys : List ℕ) (s : ℕ)
    → length keys ≤ 8
    → s < 2 ^ (build false keys).r
    → sketch_rank_le (build false keys) s
      ≡ rank (map (sketch false (build false keys)) keys) (suc s)
unfolding build sketch_rank_le sketch sketch_with rank
sketch_rank_le-rank [] s h small = refl
sketch_rank_le-rank (x ∷ rest) s h small =
    let keys = x ∷ rest in
    let imp = positions keys in
    let bound = important-bound keys in
    let size : length (sketches keys) ≡ length keys =
      length-map (λ (x : ℕ). extract_bits_naive x imp) keys in
    rw (build-fields keys h, suc-eq_zero (length rest))
      (compare-rank imp (sketches keys) s (sketches-IsBelow imp keys (omega arith)) small
        (rw size (room_lem (length keys) (length imp) h bound)) (omega arith))

-- A node built over at most 8 keys, without PEXT, and a number s of as many bits as it has important
-- positions: `sketch_rank_lt(s)` is the number of keys whose sketches are below s.
pub sketch_rank_lt-rank :
    (keys : List ℕ) (s : ℕ)
    → length keys ≤ 8
    → s < 2 ^ (build false keys).r
    → sketch_rank_lt (build false keys) s ≡ rank (map (sketch false (build false keys)) keys) s
unfolding sketch_rank_lt
sketch_rank_lt-rank keys zero h small = sym (rank-zero (map (sketch false (build false keys)) keys))
sketch_rank_lt-rank keys (suc s) h small =
    let back : suc s - 1 ≡ s = omega arith in
    rw (suc-eq_zero s, back) (sketch_rank_le-rank keys s h (omega arith))
