-- ===== src/SPlusTree/Descent.antt =====
-- One step of the descent of include/splus_tree.hpp: the child of a node that leads to the target leaf.
use native.Mathlib.Nat.{
  le-div_iff_mul-le, div-div-eq-div-mul, div-add-mod', mul-le-mul_right, le-mul_of_pos_right,
  mod-eq_of_lt,
}
use fusion_tree_benchmark.Prelude.{
  ℕ, ◌+◌, ◌-◌, ◌*◌, ◌/◌, ◌%◌, ◌≤◌, ◌<◌, ◌≡◌, refl, List, length, ◌!◌, ap, sym, ◌∙◌, true, false,
  Bool-cases, inl, inr, ltb, lt→ltb, le→ltb, ltb→lt, if◌then◌else◌, ◌&&◌, arith,
}
use native.Mathlib.Decide.{dec_lt}
use fusion_tree_benchmark.Word.{word, add64, mul64}
use fusion_tree_benchmark.Word.Signed.{slt, flip, slt-flip}
use fusion_tree_benchmark.Spec.{IsKeys, Splits}
use fusion_tree_benchmark.Search.{pad}
use fusion_tree_benchmark.SPlusTree.{separator}

-- The child `c` of the node above leaf `t` is the one above leaf `t` again.
pub child_iff :
    (t span b k j : ℕ)
    → 0 < span
    → k ≡ t / (span * (b + 1))
    → (j < t / span % (b + 1) → (k * (b + 1) + (j + 1)) * span ≤ t)
      × (t / span % (b + 1) ≤ j → t < (k * (b + 1) + (j + 1)) * span)
child_iff t span b k j pos e =
    let u : k ≡ t / span / (b + 1) = e ∙ sym (div-div-eq-div-mul t span (b + 1)) in
    let whole : k * (b + 1) + t / span % (b + 1) ≡ t / span =
      ap (λ (x : ℕ). x * (b + 1) + t / span % (b + 1)) u ∙ div-add-mod' (t / span) (b + 1) in
    let fits = le-div_iff_mul-le {k = span} {x = k * (b + 1) + (j + 1)} {y = t} pos in
    (
      λ h. fits.0 (omega arith),
      λ h. elim (dec_lt t ((k * (b + 1) + (j + 1)) * span)) [
        | yes past ↦ past
        | no upto ↦ absurd (omega (arith, fits.1 (omega arith)))
      ],
    )

-- The leaf `t` holds the key in front of the position `lb`, if there is one.
pub record Target (b : ℕ) (a : List ℕ) (leaves lb t : ℕ) : Type 0 where
  pub inside : t < leaves
  pub from : t * b ≤ lb - 1
  pub upto : lb ≤ t * b + b

module _ (b : ℕ) (a : List ℕ) (q leaves lb t : ℕ) (keys : IsKeys a) (small : q < word)
    (s : Splits a q lb) (g : Target b a leaves lb t) (wide : 0 < b)
    (room : leaves * (b + 1) * b < word) where
  pad_fails : slt pad (flip q) ≡ false
  pad_fails = rw (slt-flip 0xffffffffffffffff q (omega arith) small) (le→ltb _ _ (omega arith))

  module _ (span k j : ℕ) (pos : 0 < span)
      (in_range : (k * (b + 1) + (j + 1)) * span < leaves * (b + 1)) where
    abbrev leaf : ℕ
    leaf = (k * (b + 1) + (j + 1)) * span

    -- No product wraps.
    separator-eq :
        separator b a leaves span k j
        ≡ (if ltb leaf leaves && ltb (leaf * b) (length a) then flip (a ! (leaf * b)) else pad)
    unfolding separator add64 mul64
    separator-eq =
        let x = k * (b + 1) + (j + 1) in
        let first : x ≤ leaf = le-mul_of_pos_right x pos in
        let bound : leaf * b ≤ leaves * (b + 1) * b =
          mul-le-mul_right b (omega (arith, in_range)) in
        let last : leaf ≤ leaf * b = le-mul_of_pos_right leaf wide in
        let e1 : k * (b + 1) % word ≡ k * (b + 1) = mod-eq_of_lt (omega arith) in
        let e2 : x % word ≡ x = mod-eq_of_lt (omega arith) in
        let e3 : leaf % word ≡ leaf = mod-eq_of_lt (omega arith) in
        let e4 : leaf * b % word ≡ leaf * b = mod-eq_of_lt (omega arith) in rw (e1, e2, e3, e4) refl

    pub separator_passes : leaf ≤ t → slt (separator b a leaves span k j) (flip q) ≡ true
    separator_passes h =
        let first : k * (b + 1) + (j + 1) ≤ leaf = le-mul_of_pos_right _ pos in
        let offset : leaf * b ≤ t * b = mul-le-mul_right b h in
        let some_keys : t ≤ t * b = le-mul_of_pos_right t wide in
        let l : leaf * b < lb = omega (arith, g.from) in
        let l' : leaf * b < length a = omega (arith, s.inside) in
        let on_leaf : leaf < leaves = omega (arith, g.inside) in
        rw
          (
            separator-eq,
            lt→ltb leaf leaves on_leaf,
            lt→ltb (leaf * b) (length a) l',
            slt-flip (a ! (leaf * b)) q (keys.words (leaf * b) l') small,
          )
          (lt→ltb _ _ (s.below (leaf * b) l))

    pub separator_fails : t < leaf → slt (separator b a leaves span k j) (flip q) ≡ false
    separator_fails h =
        let offset : (t + 1) * b ≤ leaf * b = mul-le-mul_right b (omega arith) in
        let past : lb ≤ leaf * b = omega (arith, g.upto) in
        elim (Bool-cases (ltb leaf leaves)) [
          | inr beyond ↦ rw (separator-eq, beyond) pad_fails
          | inl on_leaf ↦ elim (Bool-cases (ltb (leaf * b) (length a))) [
            | inr free ↦ rw (separator-eq, on_leaf, free) pad_fails
            | inl held ↦
                let l : leaf * b < length a = ltb→lt _ _ held in
                rw
                  (
                    separator-eq,
                    on_leaf,
                    held,
                    slt-flip (a ! (leaf * b)) q (keys.words (leaf * b) l) small,
                  )
                  (le→ltb _ _ (s.above (leaf * b) past l))
          ]
        ]
