-- ===== src/FusionNodeWide/Sketches.antt =====
-- sketch_pext: a sketch has no more bits than the mask, and the mask of neighbours has fewer than there
-- are keys.
use Prim.Native.Nat.{bit_and, bit_or}
use native.Mathlib.Nat.{pow-suc, div-eq_of_lt}
use fusion_tree_benchmark.Prelude.{
  ℕ, zero, suc, ◌+◌, ◌-◌, ◌*◌, ◌/◌, ◌%◌, ◌^◌, ◌≤◌, ◌<◌, ◌≡◌, refl, ap, sym, ◌∙◌, Bool-cases, inl,
  inr, List, [], ◌∷◌, length, ◌==◌, ==_iff, arith, false,
}
use fusion_tree_benchmark.Word.{shr, shl64, word, pow_mono, pow_pos}
use fusion_tree_benchmark.Word.Bit.{div-pow_suc}
use fusion_tree_benchmark.Word.Digits.{bit_or_step, bit_or-zero, zero-bit_or}
use fusion_tree_benchmark.Word.Masks.{count_bits, count_bits-zero}
use fusion_tree_benchmark.Bits.{highest_diff_bit, popcount}
use fusion_tree_benchmark.Bits.HighDiff.{highest_diff_bit-lt}
use fusion_tree_benchmark.FusionNode.{pext_from, sketch_pext}
use fusion_tree_benchmark.FusionNode.Pack.{join_field}
use fusion_tree_benchmark.FusionNode.Sketch.{bit_and-one}
use fusion_tree_benchmark.FusionNodeWide.{neighbour_mask}

clear : (v : ℕ) → (v == 1) ≡ false → v < 2 → v ≡ 0
clear v e h = ground arith

pext_from-lt :
    (x mask left b out s : ℕ)
    → s < 2 ^ out
    → out + left ≤ 64
    → pext_from x mask left b out s < 2 ^ (out + count_bits left (mask / 2 ^ b))
unfolding pext_from count_bits shr
pext_from-lt x mask zero b out s h room = let e : out + 0 ≡ out = omega arith in rw e h
pext_from-lt x mask (suc left) b out s h room =
    let half : mask / 2 ^ b / 2 ≡ mask / 2 ^ (b + 1) =
      sym (div-pow_suc mask b) ∙ ap (λ (t : ℕ). mask / 2 ^ t) (omega arith) in
    rw (half, bit_and-one (mask / 2 ^ b))
      (elim (Bool-cases (mask / 2 ^ b % 2 == 1)) [
        | inl took ↦
            let bit = bit_and (shr x b) 1 in
            let (joined, bound) =
              join_field 1 out s bit h (omega (arith, bit_and-one (shr x b))) (omega arith) in
            let one : mask / 2 ^ b % 2 ≡ 1 = (==_iff _ _).0 took in
            let e : out + (1 + count_bits left (mask / 2 ^ (b + 1)))
                ≡ out + 1 + count_bits left (mask / 2 ^ (b + 1)) =
              omega arith in
            rw (took, joined, one, e)
              (pext_from-lt x mask left (b + 1) (out + 1) (s + bit * 2 ^ out) bound (omega arith))
        | inr skipped ↦
            let none : mask / 2 ^ b % 2 ≡ 0 = clear (mask / 2 ^ b % 2) skipped (omega arith) in
            let e : out + (0 + count_bits left (mask / 2 ^ (b + 1)))
                ≡ out + count_bits left (mask / 2 ^ (b + 1)) =
              omega arith in
            rw (skipped, none, e) (pext_from-lt x mask left (b + 1) out s h (omega arith))
      ])

-- A sketch has no more bits than the mask.
pub sketch_pext-lt : (x mask : ℕ) → sketch_pext x mask < 2 ^ popcount mask
unfolding sketch_pext popcount
sketch_pext-lt x mask =
    let e : mask / 2 ^ 0 ≡ mask = omega arith in
    let e' : 0 + count_bits 64 mask ≡ count_bits 64 mask = omega arith in
    rw (e, e') at (pext_from-lt x mask 64 0 0 0 (omega arith) (omega arith))

pext_from-zero : (mask left b out : ℕ) → pext_from 0 mask left b out 0 ≡ 0
unfolding pext_from shr shl64
pext_from-zero mask zero b out = refl
pext_from-zero mask (suc left) b out =
    let low : 0 / 2 ^ b ≡ 0 = div-eq_of_lt (pow_pos b) in
    let none : bit_or 0 (bit_and (0 / 2 ^ b) 1 * 2 ^ out % word) ≡ 0 =
      rw (low, zero-bit_or (bit_and 0 1 * 2 ^ out % word)) (omega (arith, bit_and-one 0)) in
    elim (Bool-cases (bit_and (mask / 2 ^ b) 1 == 1)) [
      | inl took ↦ rw (took, none, pext_from-zero mask left (b + 1) (out + 1)) refl
      | inr skipped ↦ rw (skipped, pext_from-zero mask left (b + 1) out) refl
    ]

pub sketch_pext-zero : (mask : ℕ) → sketch_pext 0 mask ≡ 0
unfolding sketch_pext
sketch_pext-zero mask = pext_from-zero mask 64 0 0

count_bits-or : (w m p : ℕ) → count_bits w (bit_or m (2 ^ p)) ≤ 1 + count_bits w m
unfolding count_bits
count_bits-or zero m p = omega arith
count_bits-or (suc w) m zero =
    let half : bit_or m (2 ^ 0) / 2 ≡ m / 2 = omega (arith, bit_or_step m 1, bit_or-zero (m / 2)) in
    rw half (omega arith)
count_bits-or (suc w) m (suc p) =
    let down : 2 ^ suc p / 2 ≡ 2 ^ p = omega (arith, pow-suc 2 p) in
    let step = rw down at (bit_or_step m (2 ^ suc p)) in
    let half : bit_or m (2 ^ suc p) / 2 ≡ bit_or (m / 2) (2 ^ p) =
      omega (arith, step, pow-suc 2 p) in
    let low : bit_or m (2 ^ suc p) % 2 ≡ m % 2 = omega (arith, step, pow-suc 2 p) in
    rw (half, low) (omega (arith, count_bits-or w (m / 2) p))

pub neighbour_mask-le :
    (keys : List ℕ) (m : ℕ) → popcount (neighbour_mask keys m) ≤ popcount m + (length keys - 1)
unfolding neighbour_mask popcount shl64
neighbour_mask-le [] m = omega arith
neighbour_mask-le (x ∷ []) m = omega arith
neighbour_mask-le (x ∷ y ∷ keys) m =
    let d = highest_diff_bit x y in
    let one : 1 * 2 ^ d % word ≡ 2 ^ d =
      omega (arith, pow_mono (suc d) 64 (highest_diff_bit-lt x y), pow-suc 2 d) in
    let rest = neighbour_mask-le (y ∷ keys) (bit_or m (1 * 2 ^ d % word)) in
    let grown : count_bits 64 (bit_or m (1 * 2 ^ d % word)) ≤ 1 + count_bits 64 m =
      rw one (count_bits-or 64 m d) in
    omega (arith, rest, grown)

-- A node of at most `n + 1` keys has at most `n` important bits.
pub neighbour_mask_few :
    (keys : List ℕ) (n : ℕ) → length keys ≤ suc n → popcount (neighbour_mask keys 0) ≤ n
unfolding popcount
neighbour_mask_few keys n h = omega (arith, neighbour_mask-le keys 0, count_bits-zero 64)
