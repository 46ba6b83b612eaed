-- ===== src/ClusterJump/Place.antt =====
-- Every top bucket's record names the place where its second table stands.
use fusion_tree_benchmark.Prelude.{
  ℕ, zero, suc, ◌+◌, ◌*◌, ◌^◌, ◌≤◌, ◌<◌, ◌≡◌, refl, ap, ◌∙◌, List, ◌++◌, length, ◌!◌, get_or, arith,
  length-append, get_or-append_left, get_or-append_right,
}
use fusion_tree_benchmark.Spec.{IsKeys}
use fusion_tree_benchmark.Buckets.{to_u32, bucket}
use fusion_tree_benchmark.Buckets.Cuts.{MonoOn, to_u32-eq}
use fusion_tree_benchmark.Buckets.Slots.{IsTable, IsTable-ext}
use fusion_tree_benchmark.ClusterJump.{Top, fit, rows}
use fusion_tree_benchmark.ClusterJump.Fit.{Fitted, fit-Fitted}
use fusion_tree_benchmark.ClusterJump.Rows.{no_top, starts, starts-step}

module _ (a : List ℕ) (gbase gshift ntop : ℕ) where
  abbrev first : ℕ → ℕ
  first = starts a gbase gshift ntop

  -- The second table of bucket `b`, within the entries that stand from number `size` on.
  pub record Placed (b size : ℕ) (t2 : List ℕ) (t : Top) : Type 0 where
    pub place : ℕ
    pub at : t.start ≡ size + place
    pub fits : place + t.slots + 2 ≤ length t2
    pub low : (i : ℕ) → first b ≤ i → i < first (suc b) → t.base ≤ a ! i
    pub table :
        IsTable
          (λ i. bucket t.base t.shift (a ! i))
          (first b)
          (first (suc b))
          t.slots
          (λ j. t2 ! (place + j))

  -- The first row, from the table fitted to its bucket.
  Placed-here :
      (b size start : ℕ) (r : Top × List ℕ) (rest : List ℕ)
      → start ≡ size
      → Fitted a (first b) (first (suc b)) start r
      → Placed b size (r.1 ++ rest) r.0
  Placed-here b size start r rest e f = record {
    place = 0;
    at = omega (arith, f.at);
    fits = omega (arith, length-append {0} r.1 rest, f.size);
    low = f.low;
    table =
        IsTable-ext _ _ _ _ (λ c. r.1 ! c) _
          (λ c h.
            get_or-append_left r.1 rest (0 + c) 0 (omega (arith, f.size))
            ∙ ap (λ k. r.1 ! k) (omega arith))
          f.table;
  }

  -- A later row, behind the entries of an earlier one.
  Placed-later :
      (b size more : ℕ) (entries t2 : List ℕ) (t : Top)
      → more ≡ length entries
      → Placed b (size + more) t2 t
      → Placed b size (entries ++ t2) t
  Placed-later b size more entries t2 t e p = record {
    place = more + p.place;
    at = omega (arith, p.at);
    fits = omega (arith, length-append {0} entries t2, p.fits);
    low = p.low;
    table =
        IsTable-ext _ _ _ _ (λ j. t2 ! (p.place + j)) _
          (λ c h. get_or-append_right entries t2 (p.place + c) (more + p.place + c) 0 (omega arith))
          p.table;
  }

  module _ (keys : IsKeys a) (mono : MonoOn (λ i. bucket gbase gshift (a ! i)) 0 (length a))
      (within : (i : ℕ) → i < length a → bucket gbase gshift (a ! i) < ntop)
      (small : length a + 2 * (ntop + 1) < 2 ^ 32) where
    abbrev made : ℕ → ℕ → ℕ → List Top × List ℕ
    made left b size = rows a gbase gshift ntop left b (first b) size

    pub length-rows :
        (left b i0 size : ℕ) → length (rows a gbase gshift ntop left b i0 size).0 ≡ left
    unfolding rows
    length-rows zero b i0 size = refl
    length-rows (suc left) b i0 size = ap suc (length-rows left (suc b) _ _)

    size-lt : (b size : ℕ) → b ≤ ntop → size ≤ first b + 2 * b → size < 2 ^ 32
    size-lt b size h l =
        let step = starts-step a gbase gshift ntop mono within b h in omega (arith, step.0, step.1)

    row-Fitted :
        (b size : ℕ)
        → b ≤ ntop
        → Fitted a
            (first b)
            (first (suc b))
            (to_u32 size)
            (fit a (first b) (first (suc b)) (to_u32 size))
    row-Fitted b size h =
        let step = starts-step a gbase gshift ntop mono within b h in
        fit-Fitted a (first b) (first (suc b)) (to_u32 size) keys step.1 (omega arith) step.0

    pub rows-Placed :
        (left b size c : ℕ)
        → b + left ≡ ntop + 1
        → size ≤ first b + 2 * b
        → c < left
        → Placed (b + c) size (made left b size).1 (get_or (made left b size).0 c no_top)
    unfolding rows starts
    rows-Placed zero b size c e h l = absurd (omega arith)
    rows-Placed (suc left) b size zero e h l =
        let z : b + 0 ≡ b = omega arith in
        let n : to_u32 size ≡ size =
          to_u32-eq size (omega (arith, size-lt b size (omega arith) h)) in
        let r = fit a (first b) (first (suc b)) (to_u32 size) in
        rw z (Placed-here b size (to_u32 size) r _ n (row-Fitted b size (omega arith)))
    rows-Placed (suc left) b size (suc c) e h l =
        let r = fit a (first b) (first (suc b)) (to_u32 size) in
        let f = row-Fitted b size (omega arith) in
        let more = length r.1 in
        let z : b + suc c ≡ suc b + c = omega arith in
        let step = starts-step a gbase gshift ntop mono within b (omega arith) in
        rw z (
          Placed-later (suc b + c) size more r.1 _ _ refl (
            rows-Placed left (suc b) (size + more) c (omega arith)
              (omega (arith, f.size, f.few, step.0)) (omega arith)))
