-- ===== src/Search/Narrow.antt =====
-- The halving loop keeps the dividing position in its range.
use fusion_tree_benchmark.Prelude.{
  ℕ, zero, suc, ◌+◌, ◌-◌, ◌/◌, ◌≤◌, ◌<◌, ◌≡◌, sym, ◌∙◌, Bool, true, false, List, length, ◌!◌, ltb,
  if◌then◌else◌, Returns, returns, load-ok, tests, arith, Bool-cases, inl, inr, ltb→lt, ltb→le,
}
use native.Mathlib.Decide.{dec_lt}
use mathlib.Core.Bool.{false≢true}
use fusion_tree_benchmark.Search.{narrow}

-- The test divides the array at `lb`, from `base` as far as `m`.
pub record Divides (less : ℕ → Bool) (arr : List ℕ) (base m lb : ℕ) : Type 0 where
  pub below : (i : ℕ) → base ≤ i → i < lb → less (arr ! i) ≡ true
  pub above : (i : ℕ) → lb ≤ i → i < m → less (arr ! i) ≡ false

-- The range `[lo, lo + len]` holds `lb` and lies between `base` and `m`.
pub record Brackets (base lb m : ℕ) (r : ℕ × ℕ) : Type 0 where
  pub start : base ≤ r.0
  pub from : r.0 ≤ lb
  pub upto : lb ≤ r.0 + r.1
  pub inside : r.0 + r.1 ≤ m

module _ (w : ℕ) (less : ℕ → Bool) (arr : List ℕ) (base m lb : ℕ) where
  -- At the end the range is at most `w` long.
  abbrev pub Narrowed : ℕ × ℕ → Type 0
  Narrowed r = Brackets base lb m r × (r.1 ≤ w)

  below_or : Divides less arr base m lb → (i : ℕ) → less (arr ! i) ≡ true → i < m → i < lb
  below_or d i e h = elim (dec_lt i lb) [
    | yes p ↦ p
    | no p ↦ absurd (false≢true (sym (d.above i (omega arith) h) ∙ e))
  ]

  above_or : Divides less arr base m lb → (i : ℕ) → base ≤ i → less (arr ! i) ≡ false → lb ≤ i
  above_or d i g e = elim (dec_lt i lb) [
    | yes p ↦ absurd (false≢true (sym e ∙ d.below i g p))
    | no p ↦ omega arith
  ]

  half_step :
      Divides less arr base m lb
      → (lo len : ℕ) → Brackets base lb m (lo, len)
      → 0 < len
      → Brackets base lb m
          (lo + (if less (arr ! (lo + len / 2)) then len - len / 2 else 0), len / 2)
  half_step d lo len b p = elim (Bool-cases (less (arr ! (lo + len / 2)))) [
    | inl passed ↦
        let past : lo + len / 2 < lb = below_or d (lo + len / 2) passed (omega (arith, b.inside)) in
        rw passed (record {
          start = omega (arith, b.start);
          from = omega arith;
          upto = omega (arith, b.upto);
          inside = omega (arith, b.inside);
        })
    | inr failed ↦
        let upto : lb ≤ lo + len / 2 = above_or d (lo + len / 2) (omega (arith, b.start)) failed in
        rw failed (record {
          start = omega (arith, b.start);
          from = omega (arith, b.from);
          upto = omega arith;
          inside = omega (arith, b.inside);
        })
  ]

  pub narrow-Narrowed :
      Divides less arr base m lb
      → m ≤ length arr
      → (fuel lo len : ℕ) → len < fuel
      → Brackets base lb m (lo, len)
      → Returns Narrowed (narrow w less arr fuel lo len)
  unfolding narrow
  narrow-Narrowed d fits zero lo len f b = absurd (omega arith)
  narrow-Narrowed d fits (suc fuel) lo len f b = elim (Bool-cases (ltb w len)) [
    | inl more ↦
        rw (more, load-ok arr (lo + len / 2) 0 (omega (tests, b.inside, ltb→lt w len more)))
          (narrow-Narrowed d fits fuel _ (len / 2) (omega (tests, ltb→lt w len more))
            (half_step d lo len b (omega (tests, ltb→lt w len more))))
    | inr done ↦ rw done (returns (b, ltb→le w len done))
  ]
