-- ===== src/FusionNodeCompact/Counts.antt =====
-- include/fusion_node_compact.hpp, rank_le: the shared tables hold the words that a node of its own size
-- would have, but the number is copied into eight fields, also where the node has fewer keys.
use Prim.Native.Nat.{bit_and, bit_or}
use native.Mathlib.Nat.{pow-suc, mul-le-mul_right}
use fusion_tree_benchmark.Prelude.{
  ℕ, zero, suc, ◌+◌, ◌-◌, ◌*◌, ◌^◌, ◌≤◌, ◌<◌, ◌≡◌, refl, ap, sym, ◌∙◌, List, [], ◌∷◌, ◌++◌, map,
  length, replicate, length-map, length-replicate, ok, load, arith,
}
use fusion_tree_benchmark.Word.{sub64, mul64, shl64, sub64-eq, pow_mono, pow_pos}
use fusion_tree_benchmark.Word.Fields.{fields, IsBelow}
use fusion_tree_benchmark.Word.Compare.{IsBelow-replicate}
use fusion_tree_benchmark.Word.CompareFirst.{parallel_compare_first}
use fusion_tree_benchmark.Bits.{popcount}
use fusion_tree_benchmark.Spec
use fusion_tree_benchmark.FusionNode.{pack, sketch_pext}
use fusion_tree_benchmark.FusionNode.Pack.{pack-fields, join_field}
use fusion_tree_benchmark.FusionNode.BranchFree.{count_fit-minus}
use fusion_tree_benchmark.FusionNodeWide.Build.{take-append}
use fusion_tree_benchmark.FusionNodeWide.Sketches.{sketch_pext-lt, neighbour_mask_few}
use fusion_tree_benchmark.FusionNodeWide.{neighbour_mask}
use fusion_tree_benchmark.FusionNodeCompact.{
  FusionNodeCompact, broadcast_from, sentinels_from, broadcast_rows, sentinels_row, sentinels_rows,
  make_field_tables, pack_sketches, build, table_words, rank_words, rank_le,
}

-- The packing loop of include/fusion_node.hpp fills the three words at once.
pack-apart :
    (r : ℕ) (xs : List ℕ) (i p b s : ℕ)
    → pack r xs i (p, b, s)
      ≡ (pack_sketches r xs i p, broadcast_from r (length xs) i b, sentinels_from r (length xs) i s)
unfolding pack pack_sketches broadcast_from sentinels_from
pack-apart r [] i p b s = refl
pack-apart r (x ∷ xs) i p b s = pack-apart r xs (i + 1) _ _ _

words-fields :
    (r : ℕ) (xs : List ℕ)
    → IsBelow (2 ^ r) xs
    → length xs * suc r ≤ 64
    → (pack_sketches r xs 0 0 ≡ fields (suc r) xs)
      × (broadcast_from r (length xs) 0 0 ≡ fields (suc r) (replicate (length xs) 1))
      × (sentinels_from r (length xs) 0 0 ≡ fields (suc r) (replicate (length xs) (2 ^ r)))
words-fields r xs b room =
    let apart = sym (pack-apart r xs 0 0 0 0) ∙ pack-fields r xs b room in
    (ap (λ t. t.0) apart, ap (λ t. t.1) apart, ap (λ t. t.2) apart)

load-broadcast :
    (left r i : ℕ) → i < left → load (broadcast_rows left r) i ≡ ok (broadcast_from (r + i) 8 0 0)
unfolding load broadcast_rows
load-broadcast zero r i h = absurd (omega arith)
load-broadcast (suc left) r zero h = let e : r + 0 ≡ r = omega arith in rw e refl
load-broadcast (suc left) r (suc i) h =
    let e : suc r + i ≡ r + suc i = omega arith in
    load-broadcast left (suc r) i (omega arith) ∙ ap (λ t. ok (broadcast_from t 8 0 0)) e

load-sentinels :
    (left r i : ℕ) → i < left → load (sentinels_rows left r) i ≡ ok (sentinels_row (r + i) 9 0)
unfolding load sentinels_rows
load-sentinels zero r i h = absurd (omega arith)
load-sentinels (suc left) r zero h = let e : r + 0 ≡ r = omega arith in rw e refl
load-sentinels (suc left) r (suc i) h =
    let e : suc r + i ≡ r + suc i = omega arith in
    load-sentinels left (suc r) i (omega arith) ∙ ap (λ t. ok (sentinels_row t 9 0)) e

load-row :
    (r left n i : ℕ)
    → i < left
    → load (sentinels_row r left n) i ≡ ok (sentinels_from r (n + i) 0 0)
unfolding load sentinels_row
load-row r zero n i h = absurd (omega arith)
load-row r (suc left) n zero h = let e : n + 0 ≡ n = omega arith in rw e refl
load-row r (suc left) n (suc i) h =
    let e : suc n + i ≡ n + suc i = omega arith in
    load-row r left (suc n) i (omega arith) ∙ ap (λ t. ok (sentinels_from r t 0 0)) e

-- The tables have the words of every node.
table_words-ok :
    (node : FusionNodeCompact)
    → node.r ≤ 7
    → node.n ≤ 8
    → table_words node ≡ ok (broadcast_from node.r 8 0 0, sentinels_from node.r node.n 0 0)
unfolding table_words make_field_tables
table_words-ok node h l =
    let e : 0 + node.r ≡ node.r = omega arith in
    let e' : 0 + node.n ≡ node.n = omega arith in
    rw
      (
        load-broadcast 8 0 node.r (omega arith),
        load-sentinels 8 0 node.r (omega arith),
        load-row (0 + node.r) 9 0 node.n (omega arith),
        e,
        e',
      )
      refl

-- Fields of zeros change nothing.
fields-padded : (f k : ℕ) (xs : List ℕ) → fields f (xs ++ replicate k 0) ≡ fields f xs
unfolding fields
fields-padded f zero [] = refl
fields-padded f (suc k) [] = omega (arith, ap (λ (t : ℕ). t * 2 ^ f) (fields-padded f k []))
fields-padded f k (x ∷ xs) = omega (arith, ap (λ (t : ℕ). t * 2 ^ f) (fields-padded f k xs))

padded-IsBelow : (m k : ℕ) (xs : List ℕ) → 0 < m → IsBelow m xs → IsBelow m (xs ++ replicate k 0)
padded-IsBelow m k [] pos b = IsBelow-replicate m k 0 pos
padded-IsBelow m k (x ∷ xs) pos b = (b.0, padded-IsBelow m k xs pos b.1)

length-padded : (k : ℕ) (xs : List ℕ) → length (xs ++ replicate k 0) ≡ length xs + k
length-padded k [] = omega (arith, length-replicate {A = ℕ} k 0)
length-padded k (x ∷ xs) = omega (arith, length-padded k xs)

sketches-IsBelow :
    (mask : ℕ) (keys : List ℕ) → IsBelow (2 ^ popcount mask) (map (λ x. sketch_pext x mask) keys)
sketches-IsBelow mask [] = tt
sketches-IsBelow mask (x ∷ keys) = (sketch_pext-lt x mask, sketches-IsBelow mask keys)

-- The comparison with the words of a node of `n` sketches of `r` bits, in eight fields.
words-count :
    (r s minus : ℕ) (xs : List ℕ)
    → r ≤ 7
    → length xs ≤ 8
    → IsBelow (2 ^ r) xs
    → s < 2 ^ r
    → minus ≤ 1
    → popcount (
        bit_and
          (sub64
            (mul64 (sub64 (bit_or s (shl64 1 r)) minus) (fields (suc r) (replicate 8 1)))
            (fields (suc r) xs))
          (fields (suc r) (replicate (length xs) (2 ^ r))))
      ≡ Spec.rank xs (suc s - minus)
unfolding popcount
words-count r s minus xs bits few b small one =
    let padded = xs ++ replicate (8 - length xs) 0 in
    let eight : length padded ≡ 8 = omega (arith, length-padded (8 - length xs) xs) in
    let (joined, bound) = join_field 1 r s 1 small (omega arith) (omega arith) in
    let pos = pow_pos r in
    let e : s + 1 * 2 ^ r ≡ s + 2 ^ r = omega arith in
    let less : sub64 (s + 2 ^ r) minus ≡ s + 2 ^ r - minus =
      sub64-eq (s + 2 ^ r) minus (omega arith)
        (omega (arith, pow-suc 2 r, pow_mono (suc r) 63 (omega arith))) in
    let counted =
      rw
        (
          eight,
          fields-padded (suc r) (8 - length xs) xs,
          take-append xs (replicate (8 - length xs) 0),
        )
        at
        (parallel_compare_first r (s + 2 ^ r - minus) (length xs) padded
          (omega (arith, pow-suc 2 r)) (padded-IsBelow (2 ^ r) (8 - length xs) xs pos b)
          (omega arith) (rw eight (omega arith)) (rw eight few)) in
    rw (joined, e, less) (counted ∙ count_fit-minus (2 ^ r) s minus xs pos one)

-- In a compact node built over at most eight keys, for a number s of as many bits as the node has
-- important ones: the comparison reads inside the shared tables, and counts the keys whose sketches are
-- at most s for minus = 0, and those whose sketches are below s for minus = 1.
pub rank_le-rank :
    (keys : List ℕ) (s minus : ℕ)
    → length keys ≤ 8
    → s < 2 ^ (build keys).r
    → minus ≤ 1
    → rank_le (build keys) s minus
      ≡ ok (Spec.rank (map (λ x. sketch_pext x (build keys).mask) keys) (suc s - minus))
unfolding rank_le build rank_words
rank_le-rank keys s minus few small one =
    let mask = neighbour_mask keys 0 in
    let r = popcount mask in
    let bits : r ≤ 7 = neighbour_mask_few keys 7 few in
    let xs = map (λ x. sketch_pext x mask) keys in
    let size : length xs ≡ length keys = length-map (λ (x : ℕ). sketch_pext x mask) keys in
    let short : length xs ≤ 8 = rw size few in
    let room : length xs * suc r ≤ 64 = omega (arith, mul-le-mul_right (suc r) short) in
    let own = words-fields r xs (sketches-IsBelow mask keys) room in
    let shared =
      words-fields r (replicate 8 0) (IsBelow-replicate (2 ^ r) 8 0 (pow_pos r)) (omega arith) in
    rw (table_words-ok (build keys) bits few, ← size, own.0, own.2, shared.1)
      (ap ok (words-count r s minus xs bits short (sketches-IsBelow mask keys) small one))
