-- ===== src/FusionNode/Sketch.antt =====
-- A node has fewer important bits than keys, and a sketch has that many bits.
use Prim.Native.Nat.{bit_and}
use fusion_tree_benchmark.Prelude.{
  ℕ, suc, ◌+◌, ◌-◌, ◌*◌, ◌/◌, ◌%◌, ◌^◌, ◌≤◌, ◌<◌, ◌≡◌, refl, ap, ◌∙◌, Bool-cases, inl, inr, List,
  [], ◌∷◌, ◌++◌, length, length-append, arith,
}
use fusion_tree_benchmark.Word.{shr}
use fusion_tree_benchmark.Word.Digits.{bit_and_step, bit_and-zero}
use fusion_tree_benchmark.Bits.{highest_diff_bit, extract_from, extract_bits_naive}
use fusion_tree_benchmark.FusionNode.{seen, important, insert_sorted, sort}
use fusion_tree_benchmark.FusionNode.Pack.{join_field}

length-important :
    (keys imp : List ℕ) → length (important keys imp) ≤ length imp + (length keys - 1)
unfolding important
length-important [] imp = omega arith
length-important (x ∷ []) imp = omega arith
length-important (x ∷ y ∷ keys) imp = elim (Bool-cases (seen (highest_diff_bit x y) imp)) [
  | inl old ↦ rw old (omega (arith, length-important (y ∷ keys) imp))
  | inr new ↦
      let b = highest_diff_bit x y in
      rw new
        (omega (arith, length-important (y ∷ keys) (imp ++ b ∷ []), length-append {0} imp (b ∷ [])))
]

length-insert_sorted : (b : ℕ) (ps : List ℕ) → length (insert_sorted b ps) ≡ suc (length ps)
unfolding insert_sorted
length-insert_sorted b [] = refl
length-insert_sorted b (p ∷ ps) = ground (arith, length-insert_sorted b ps)

length-sort : (ps : List ℕ) → length (sort ps) ≡ length ps
unfolding sort
length-sort [] = refl
length-sort (p ∷ ps) = length-insert_sorted p (sort ps) ∙ ap suc (length-sort ps)

-- The important positions that `build` collects and sorts are fewer than the keys, or none.
pub important-bound : (keys : List ℕ) → length (sort (important keys [])) ≤ length keys - 1
important-bound keys = omega (arith, length-sort (important keys []), length-important keys [])

-- One bit of a word.
pub bit_and-one : (x : ℕ) → bit_and x 1 ≡ x % 2
bit_and-one x = omega (arith, bit_and_step x 1, bit_and-zero (x / 2))

extract_from-lt :
    (x : ℕ) (positions : List ℕ) (i s : ℕ)
    → s < 2 ^ i
    → i + length positions ≤ 64
    → extract_from x positions i s < 2 ^ (i + length positions)
unfolding extract_from
extract_from-lt x [] i s h room = let e : i + 0 ≡ i = omega arith in rw e h
extract_from-lt x (p ∷ positions) i s h room =
    let bit = bit_and (shr x p) 1 in
    let (joined, bound) =
      join_field 1 i s bit h (omega (arith, bit_and-one (shr x p))) (omega arith) in
    let e : i + suc (length positions) ≡ i + 1 + length positions = omega arith in
    rw (joined, e) (extract_from-lt x positions (i + 1) (s + bit * 2 ^ i) bound (omega arith))

pub extract_bits_naive-lt :
    (x : ℕ) (positions : List ℕ)
    → length positions ≤ 64
    → extract_bits_naive x positions < 2 ^ length positions
unfolding extract_bits_naive
extract_bits_naive-lt x positions h =
    let e : 0 + length positions ≡ length positions = omega arith in
    rw e at (extract_from-lt x positions 0 0 (omega arith) (omega arith))
