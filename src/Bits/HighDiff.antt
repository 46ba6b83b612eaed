-- ===== src/Bits/HighDiff.antt =====
-- highest_diff_bit (include/bits.hpp): the first bit, from the top, at which two words differ.
use Prim.Native.Nat.{bit_xor}
use native.Mathlib.Nat.{div-eq_of_lt, le-div_iff_mul-le}
use native.Mathlib.Decide.{dec_le, dec_lt}
use fusion_tree_benchmark.Prelude.{
  ℕ, suc, ◌/◌, ◌%◌, ◌^◌, ◌≤◌, ◌<◌, ◌≡◌, sym, ap, ◌∙◌, ◌≢◌, ◌⊎◌, inl, inr, arith,
}
use fusion_tree_benchmark.Word.{word, pow_pos, shr, shr_mono}
use fusion_tree_benchmark.Word.Bit.{
  div-pow_suc, agree_above, bit_xor-shift, bit_xor-zero_eq, bit_xor_self, bit_xor-lt,
}
use fusion_tree_benchmark.Bits.{highest_diff_bit, msb}
use fusion_tree_benchmark.Bits.TopBit.{msb_bounds}

-- Bit `p` is the highest at which `x` and `y` differ.
pub record Top (x y p : ℕ) : Type 0 where
  pub same : x / 2 ^ suc p ≡ y / 2 ^ suc p
  pub apart : x / 2 ^ p ≢ y / 2 ^ p

-- Two different 64-bit words agree above bit `highest_diff_bit`, and from that bit up they do not.
pub highest_diff_bit-Top : (x y : ℕ) → x < word → y < word → x ≢ y → Top x y (highest_diff_bit x y)
unfolding highest_diff_bit
highest_diff_bit-Top x y h l ne =
    let d = bit_xor x y in
    let some_bit : 0 < d = elim (dec_lt 0 d) [
      | yes p ↦ p
      | no p ↦ absurd (ne (bit_xor-zero_eq x y (omega arith)))
    ] in
    let (low, high) = msb_bounds d some_bit (bit_xor-lt 64 x y h l) in
    record {
      same = bit_xor-zero_eq _ _ (sym (bit_xor-shift (suc (msb d)) x y) ∙ div-eq_of_lt high);
      apart = λ e.
          let zero_quotient : d / 2 ^ msb d ≡ 0 =
            bit_xor-shift (msb d) x y
            ∙ ap (λ (t : ℕ). bit_xor t (y / 2 ^ msb d)) e
            ∙ bit_xor_self (y / 2 ^ msb d) in
          let one : 1 ≤ d / 2 ^ msb d = (le-div_iff_mul-le (pow_pos (msb d))).1 (omega arith) in
          absurd (omega (arith, one, zero_quotient));
    }

pub highest_diff_bit-lt : (x y : ℕ) → highest_diff_bit x y < 64
unfolding highest_diff_bit msb
highest_diff_bit-lt x y = omega arith

pub Top_sym : (x y p : ℕ) → Top x y p → Top y x p
Top_sym x y p t = record { same = sym t.same; apart = λ e. t.apart (sym e) }

Top-le : (x y p r : ℕ) → Top x y p → Top x y r → p ≤ r
Top-le x y p r t u = elim (dec_le p r) [
  | yes h ↦ h
  | no h ↦ absurd (t.apart (agree_above x y (suc r) p u.same (omega arith)))
]

-- There is only one such bit.
pub Top-unique : (x y p r : ℕ) → Top x y p → Top x y r → p ≡ r
Top-unique x y p r t u = omega (arith, Top-le x y p r t u, Top-le x y r p u t)

pub div_mono : (x y p : ℕ) → x ≤ y → x / 2 ^ p ≤ y / 2 ^ p
unfolding shr
div_mono x y p h = shr_mono x y p h

-- The smaller number has a 0 there, and the larger a 1.
pub Top_bits : (x y p : ℕ) → Top x y p → x < y → (x / 2 ^ p % 2 ≡ 0) × (y / 2 ^ p % 2 ≡ 1)
Top_bits x y p t h =
    let quotients : x / 2 ^ p ≤ y / 2 ^ p = div_mono x y p (omega arith) in
    let same = t.same in
    let apart = t.apart in
    let half = div-pow_suc x p in
    let half' = div-pow_suc y p in
    let ne : x / 2 ^ p < y / 2 ^ p = elim (dec_lt (x / 2 ^ p) (y / 2 ^ p)) [
      | yes l ↦ l
      | no l ↦ absurd (t.apart (omega arith))
    ] in
    (omega (arith, ne, half, half', same), omega (arith, ne, half, half', same))

-- Of three numbers in order, the outer two differ first where one of the neighbours do.
pub Top_between : (x y z p r : ℕ) → x < y → y < z → Top x y p → Top y z r → Top x z p ⊎ Top x z r
Top_between x y z p r h l t u = elim (dec_lt p r) [
  | yes lower ↦
      let e = agree_above x y (suc p) r t.same (omega arith) in
      inr (record {
        same = agree_above x y (suc p) (suc r) t.same (omega arith) ∙ u.same;
        apart = λ f. u.apart (sym e ∙ f);
      })
  | no rest ↦ elim (dec_lt r p) [
    | yes lower ↦
        let e = agree_above y z (suc r) p u.same (omega arith) in
        inl (record {
          same = t.same ∙ agree_above y z (suc r) (suc p) u.same (omega arith);
          apart = λ f. t.apart (f ∙ sym e);
        })
    | no equal ↦
        let e : p ≡ r = omega arith in
        let one = Top_bits x y p t h in
        let two = Top_bits y z p (rw e u) l in absurd (omega (arith, one.1, two.0))
  ]
]

-- Nearer numbers share at least as long a prefix.
pub Top_nested_below : (w v q p r : ℕ) → w ≤ v → v < q → Top v q p → Top w q r → p ≤ r
Top_nested_below w v q p r h l t u = elim (dec_le p r) [
  | yes le ↦ le
  | no gt ↦
      let up = agree_above w q (suc r) p u.same (omega arith) in
      let a = div_mono w v p h in
      let b = div_mono v q p (omega arith) in absurd (t.apart (omega arith))
]

pub Top_nested_above : (q v w p r : ℕ) → q < v → v ≤ w → Top q v p → Top q w r → p ≤ r
Top_nested_above q v w p r h l t u = elim (dec_le p r) [
  | yes le ↦ le
  | no gt ↦
      let up = agree_above q w (suc r) p u.same (omega arith) in
      let a = div_mono v w p l in
      let b = div_mono q v p (omega arith) in absurd (t.apart (omega arith))
]
