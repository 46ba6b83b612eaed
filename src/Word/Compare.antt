-- ===== src/Word/Compare.antt =====
-- The parallel comparison of a fusion node: one multiplication, one subtraction, one `&` and one
-- POPCNT compare a number with every field.
use Prim.Native.Nat.{bit_and}
use native.Mathlib.Nat.{pow-suc}
use native.Mathlib.Decide.{dec_le}
use fusion_tree_benchmark.Prelude.{
  ℕ, zero, suc, ◌+◌, ◌-◌, ◌*◌, ◌%◌, ◌^◌, ◌≤◌, ◌<◌, ◌≡◌, refl, ◌∙◌, List, [], ◌∷◌, map, length,
  replicate, length-map, length-replicate, leb, if◌then◌else◌, arith,
}
use fusion_tree_benchmark.Word.{word, mul64, sub64, sub64-eq, pow_mono}
use fusion_tree_benchmark.Word.Digits.{pow_pos, bit_and-zero}
use fusion_tree_benchmark.Word.Masks.{count_bits, count_bits-zero}
use fusion_tree_benchmark.Word.Fields.{
  fields, IsBelow, fields-lt, fields-broadcast, fields-sub, bit_and_field, count_bits_field,
}

-- How many numbers are at least `m`, and how many are at most `c` after adding `m`.
unfoldable pub count_ge : ℕ → List ℕ → ℕ
count_ge m [] = 0
count_ge m (d ∷ ds) = (if leb m d then 1 else 0) + count_ge m ds

unfoldable pub count_fit : ℕ → ℕ → List ℕ → ℕ
count_fit m c [] = 0
count_fit m c (x ∷ xs) = (if leb (x + m) c then 1 else 0) + count_fit m c xs

-- `d & sentinel` in one field.
sentinel_kept : (r d : ℕ) → d < 2 ^ suc r → 2 ^ r ≤ d → bit_and d (2 ^ r) ≡ 2 ^ r
sentinel_kept r d h l =
    let e : d - 2 ^ r + 1 * 2 ^ r ≡ d = omega arith in
    let e' : 0 + 1 * 2 ^ r ≡ 2 ^ r = omega arith in
    let whole =
      rw (e, e') at (bit_and_field r (d - 2 ^ r) 0 1 1 (omega (arith, pow-suc 2 r)) (pow_pos r)) in
    omega (arith, whole, bit_and-zero (d - 2 ^ r))

sentinel_lost : (r d : ℕ) → d < 2 ^ r → bit_and d (2 ^ r) ≡ 0
sentinel_lost r d h =
    let e : d + 0 * 2 ^ r ≡ d = omega arith in
    let e' : 0 + 1 * 2 ^ r ≡ 2 ^ r = omega arith in
    let whole = rw (e, e') at (bit_and_field r d 0 0 1 h (pow_pos r)) in
    omega (arith, whole, bit_and-zero d)

count_sentinel : (r : ℕ) → count_bits (suc r) (2 ^ r) ≡ 1
unfolding count_bits
count_sentinel r =
    let e : r + 1 ≡ suc r = omega arith in
    let e' : 0 + 1 * 2 ^ r ≡ 2 ^ r = omega arith in
    rw (e, e') at (count_bits_field r 1 0 1 (pow_pos r)) ∙ omega (arith, count_bits-zero r)

pub count_field :
    (r d : ℕ)
    → d < 2 ^ suc r
    → (bit_and d (2 ^ r) < 2 ^ suc r)
      × (count_bits (suc r) (bit_and d (2 ^ r)) ≡ (if leb (2 ^ r) d then 1 else 0))
count_field r d h = elim (dec_le (2 ^ r) d) [
  | yes l ↦
      rw (sentinel_kept r d h l)
        (omega (arith, pow-suc 2 r, pow_pos r), count_sentinel r ∙ ground arith)
  | no l ↦
      rw (sentinel_lost r d (omega arith)) (pow_pos (suc r), count_bits-zero (suc r) ∙ ground arith)
]

-- The sentinels that survive are counted field by field.
count_survivors :
    (r w : ℕ) (ds : List ℕ)
    → IsBelow (2 ^ suc r) ds
    → length ds * suc r ≤ w
    → count_bits w (bit_and (fields (suc r) ds) (fields (suc r) (replicate (length ds) (2 ^ r))))
      ≡ count_ge (2 ^ r) ds
unfolding fields count_ge
count_survivors r w [] h l = rw (bit_and-zero 0) (count_bits-zero w)
count_survivors r w (d ∷ ds) h l =
    let (small, counted) = count_field r d h.0 in
    let rest = w - suc r in
    let marks = fields (suc r) (replicate (length ds) (2 ^ r)) in
    let e : suc r + rest ≡ w = omega arith in
    rw
      (bit_and_field (suc r) d (2 ^ r) (fields (suc r) ds) marks h.0
        (omega (arith, pow-suc 2 r, pow_pos r)))
      (omega (
        arith,
        rw e at (
            count_bits_field (suc r) rest (bit_and d (2 ^ r)) (bit_and (fields (suc r) ds) marks)
              small),
        counted,
        count_survivors r rest ds h.1 (omega arith),
      ))

pub count_ge-sub :
    (m c : ℕ) (xs : List ℕ)
    → IsBelow (suc c) xs
    → count_ge m (map (λ x. c - x) xs) ≡ count_fit m c xs
unfolding count_ge count_fit
count_ge-sub m c [] h = refl
count_ge-sub m c (x ∷ xs) h = ground (arith, count_ge-sub m c xs h.1)

pub IsBelow-sub :
    (r c : ℕ) (xs : List ℕ) → c < 2 ^ suc r → IsBelow (2 ^ suc r) (map (λ x. c - x) xs)
IsBelow-sub r c [] h = tt
IsBelow-sub r c (x ∷ xs) h = (omega arith, IsBelow-sub r c xs h)

pub IsBelow-mono : (m n : ℕ) (xs : List ℕ) → m ≤ n → IsBelow m xs → IsBelow n xs
IsBelow-mono m n [] h b = tt
IsBelow-mono m n (x ∷ xs) h b = (omega (arith, b.0), IsBelow-mono m n xs h b.1)

pub IsBelow-replicate : (m n x : ℕ) → x < m → IsBelow m (replicate n x)
IsBelow-replicate m zero x h = tt
IsBelow-replicate m (suc n) x h = (h, IsBelow-replicate m n x h)

-- `popcount(c * broadcast - packed & sentinels)` counts the sketches `x` with `x + 2 ^ r ≤ c`. The
-- word holds the fields, so nothing overflows, and no field borrows from another.
pub parallel_compare :
    (r c : ℕ) (xs : List ℕ)
    → c < 2 ^ suc r
    → IsBelow (2 ^ r) xs
    → 2 ^ r ≤ suc c
    → length xs * suc r ≤ 64
    → count_bits 64 (
        bit_and
          (sub64 (mul64 c (fields (suc r) (replicate (length xs) 1))) (fields (suc r) xs))
          (fields (suc r) (replicate (length xs) (2 ^ r))))
      ≡ count_fit (2 ^ r) c xs
unfolding mul64
parallel_compare r c xs small b reach room =
    let n = length xs in
    let f = suc r in
    let query = fields f (replicate n c) in
    let ds = map (λ x. c - x) xs in
    let size : length ds ≡ n = length-map (λ (x : ℕ). c - x) xs in
    let fits : query < word = omega (
      arith,
      fields-lt f (replicate n c) (IsBelow-replicate (2 ^ f) n c small),
      pow_mono (length (replicate n c) * f) 64 (rw (length-replicate n c) room),
    ) in
    let inner = IsBelow-mono (2 ^ r) (suc c) xs reach b in
    let split = fields-sub f c xs inner in
    let wrap : query % word ≡ query = omega arith in
    let left : sub64 query (fields f xs) ≡ fields f ds =
      sub64-eq query (fields f xs) (omega (arith, split)) fits ∙ omega (arith, split) in
    rw (fields-broadcast f c n, wrap, left, ← size)
      (count_survivors r 64 ds (IsBelow-sub r c xs small) (rw size room)
        ∙ count_ge-sub (2 ^ r) c xs inner)
