-- ===== src/Word/Fields.antt =====
-- Words cut into fields of `f` bits, as a fusion node packs its sketches (include/fusion_node.hpp).
use Prim.Native.Nat.{bit_and}
use native.Mathlib.Nat.{pow-suc}
use fusion_tree_benchmark.Prelude.{
  ℕ, zero, suc, ◌+◌, ◌-◌, ◌*◌, ◌/◌, ◌^◌, ◌<◌, ◌≡◌, ap, List, [], ◌∷◌, map, length, replicate, All,
  arith,
}
use fusion_tree_benchmark.Word.Digits.{pow_pos, pow_add, twice_field, bit_and_step, bit_and-zero}
use fusion_tree_benchmark.Word.Masks.{count_bits}

-- The fields side by side, the first at the low end.
unfoldable pub fields : ℕ → List ℕ → ℕ
fields f [] = 0
fields f (x ∷ xs) = x + fields f xs * 2 ^ f

abbrev pub IsBelow : ℕ → List ℕ → Type 0
IsBelow m xs = All (λ x. x < m) xs

pub field_bound : (f x y p : ℕ) → x < 2 ^ f → y < p → x + y * 2 ^ f < p * 2 ^ f
field_bound f x y p h l = grind (arith, pow_pos f)

pub fields-lt : (f : ℕ) (xs : List ℕ) → IsBelow (2 ^ f) xs → fields f xs < 2 ^ (length xs * f)
unfolding fields
fields-lt f [] h = pow_pos (length {A = ℕ} [] * f)
fields-lt f (x ∷ xs) h =
    let e : suc (length xs) * f ≡ length xs * f + f = omega arith in
    rw (e, ← pow_add) (field_bound f x (fields f xs) (2 ^ (length xs * f)) h.0 (fields-lt f xs h.1))

-- Multiplying the word with a 1 in every field copies a number into every field.
pub fields-broadcast : (f c n : ℕ) → c * fields f (replicate n 1) ≡ fields f (replicate n c)
unfolding fields
fields-broadcast f c zero = omega arith
fields-broadcast f c (suc n) = omega (arith, ap (λ (t : ℕ). t * 2 ^ f) (fields-broadcast f c n))

-- Subtraction field by field: no field borrows from its neighbour.
pub fields-sub :
    (f c : ℕ) (xs : List ℕ)
    → IsBelow (suc c) xs
    → fields f (replicate (length xs) c) ≡ fields f (map (λ x. c - x) xs) + fields f xs
unfolding fields
fields-sub f c [] h = omega arith
fields-sub f c (x ∷ xs) h = omega (arith, h.0, ap (λ (t : ℕ). t * 2 ^ f) (fields-sub f c xs h.1))

half_field : (f x xs : ℕ) → (x + xs * 2 ^ suc f) / 2 ≡ x / 2 + xs * 2 ^ f
half_field f x xs = omega (arith, twice_field xs f)

-- `&` works on the low field and on the rest apart.
pub bit_and_field :
    (f x y xs ys : ℕ)
    → x < 2 ^ f
    → y < 2 ^ f
    → bit_and (x + xs * 2 ^ f) (y + ys * 2 ^ f) ≡ bit_and x y + bit_and xs ys * 2 ^ f
bit_and_field zero zero zero xs ys h l =
    let e : 0 + xs * 2 ^ 0 ≡ xs = omega arith in
    let e' : 0 + ys * 2 ^ 0 ≡ ys = omega arith in rw (e, e') (omega (arith, bit_and-zero 0))
bit_and_field zero (suc x) y xs ys h l = absurd (omega arith)
bit_and_field zero x (suc y) xs ys h l = absurd (omega arith)
bit_and_field (suc f) x y xs ys h l =
    let whole =
      rw (half_field f x xs, half_field f y ys) at
        (bit_and_step (x + xs * 2 ^ suc f) (y + ys * 2 ^ suc f)) in
    omega (
      arith,
      whole,
      bit_and_step x y,
      bit_and_field f (x / 2) (y / 2) xs ys (omega (arith, pow-suc 2 f))
          (omega (arith, pow-suc 2 f)),
      twice_field xs f,
      twice_field ys f,
      twice_field (bit_and xs ys) f,
    )

-- The number of 1 bits is that of the low field and of the rest.
pub count_bits_field :
    (f w x xs : ℕ)
    → x < 2 ^ f
    → count_bits (f + w) (x + xs * 2 ^ f) ≡ count_bits f x + count_bits w xs
unfolding count_bits
count_bits_field zero w zero xs h =
    let e : zero + w ≡ w = omega arith in
    let e' : 0 + xs * 2 ^ 0 ≡ xs = omega arith in rw (e, e') (omega arith)
count_bits_field zero w (suc x) xs h = absurd (omega arith)
count_bits_field (suc f) w x xs h =
    let e : suc f + w ≡ suc (f + w) = omega arith in
    rw (e, half_field f x xs)
      (omega
        (arith, count_bits_field f w (x / 2) xs (omega (arith, pow-suc 2 f)), twice_field xs f))
