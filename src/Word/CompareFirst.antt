-- ===== src/Word/CompareFirst.antt =====
-- The parallel comparison of include/fusion_node_compact.hpp: the number is copied into all fields, and
-- the sentinels of the first fields only are counted.
use Prim.Native.Nat.{bit_and}
use native.Mathlib.Nat.{pow-suc}
use fusion_tree_benchmark.Prelude.{
  ℕ, zero, suc, ◌+◌, ◌-◌, ◌*◌, ◌%◌, ◌^◌, ◌≤◌, ◌<◌, ◌≡◌, refl, ◌∙◌, List, [], ◌∷◌, map, length, take,
  replicate, length-map, length-replicate, arith,
}
use fusion_tree_benchmark.Word.{word, mul64, sub64, sub64-eq, pow_mono}
use fusion_tree_benchmark.Word.Digits.{pow_pos, bit_and-zero}
use fusion_tree_benchmark.Word.Masks.{count_bits, count_bits-zero}
use fusion_tree_benchmark.Word.Fields.{
  fields, IsBelow, fields-lt, fields-broadcast, fields-sub, bit_and_field, count_bits_field,
}
use fusion_tree_benchmark.Word.Compare.{
  count_ge, count_fit, count_field, IsBelow-sub, IsBelow-mono, IsBelow-replicate,
}

-- The sentinels that survive in the first `n` fields are counted field by field.
count_survivors_first :
    (r w n : ℕ) (ds : List ℕ)
    → IsBelow (2 ^ suc r) ds
    → length ds * suc r ≤ w
    → n ≤ length ds
    → count_bits w (bit_and (fields (suc r) ds) (fields (suc r) (replicate n (2 ^ r))))
      ≡ count_ge (2 ^ r) (take n ds)
unfolding fields count_ge
count_survivors_first r w zero ds h l few =
    rw (bit_and-zero (fields (suc r) ds)) (count_bits-zero w)
count_survivors_first r w (suc n) [] h l few = absurd (omega arith)
count_survivors_first r w (suc n) (d ∷ ds) h l few =
    let (small, counted) = count_field r d h.0 in
    let rest = w - suc r in
    let marks = fields (suc r) (replicate n (2 ^ r)) in
    let e : suc r + rest ≡ w = omega arith in
    rw
      (bit_and_field (suc r) d (2 ^ r) (fields (suc r) ds) marks h.0
        (omega (arith, pow-suc 2 r, pow_pos r)))
      (omega (
        arith,
        rw e at (
            count_bits_field (suc r) rest (bit_and d (2 ^ r)) (bit_and (fields (suc r) ds) marks)
              small),
        counted,
        count_survivors_first r rest n ds h.1 (omega arith) (omega arith),
      ))

count_ge-sub_first :
    (m c n : ℕ) (xs : List ℕ)
    → IsBelow (suc c) xs
    → count_ge m (take n (map (λ x. c - x) xs)) ≡ count_fit m c (take n xs)
unfolding count_ge count_fit
count_ge-sub_first m c zero xs h = refl
count_ge-sub_first m c (suc n) [] h = refl
count_ge-sub_first m c (suc n) (x ∷ xs) h = ground (arith, count_ge-sub_first m c n xs h.1)

-- `popcount(c * broadcast - packed & sentinels)` with the sentinels of the first `n` fields counts the
-- first `n` sketches `x` with `x + 2 ^ r ≤ c`.
pub parallel_compare_first :
    (r c n : ℕ) (xs : List ℕ)
    → c < 2 ^ suc r
    → IsBelow (2 ^ r) xs
    → 2 ^ r ≤ suc c
    → length xs * suc r ≤ 64
    → n ≤ length xs
    → count_bits 64 (
        bit_and
          (sub64 (mul64 c (fields (suc r) (replicate (length xs) 1))) (fields (suc r) xs))
          (fields (suc r) (replicate n (2 ^ r))))
      ≡ count_fit (2 ^ r) c (take n xs)
unfolding mul64
parallel_compare_first r c n xs small b reach room few =
    let f = suc r in
    let query = fields f (replicate (length xs) c) in
    let ds = map (λ x. c - x) xs in
    let size : length ds ≡ length xs = length-map (λ (x : ℕ). c - x) xs in
    let fits : query < word = omega (
      arith,
      fields-lt f (replicate (length xs) c) (IsBelow-replicate (2 ^ f) (length xs) c small),
      pow_mono (length (replicate (length xs) c) * f) 64 (rw (length-replicate (length xs) c) room),
    ) in
    let inner = IsBelow-mono (2 ^ r) (suc c) xs reach b in
    let split = fields-sub f c xs inner in
    let wrap : query % word ≡ query = omega arith in
    let left : sub64 query (fields f xs) ≡ fields f ds =
      sub64-eq query (fields f xs) (omega (arith, split)) fits ∙ omega (arith, split) in
    rw (fields-broadcast f c (length xs), wrap, left)
      (count_survivors_first r 64 n ds (IsBelow-sub r c xs small) (rw size room) (rw size few)
        ∙ count_ge-sub_first (2 ^ r) c n xs inner)
