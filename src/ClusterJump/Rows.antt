-- ===== src/ClusterJump/Rows.antt =====
-- The loop over the top buckets: bucket `c` holds the keys between two cuts, and its second table
-- stands at the place that its record names.
use fusion_tree_benchmark.Prelude.{
  ℕ, zero, suc, ◌+◌, ◌-◌, ◌≤◌, ◌<◌, ◌≡◌, refl, List, length, ◌!◌, lt→ltb, le→ltb, ◌==◌, ==_iff, ◌≢◌,
  false, arith, advance, StopsAt, advance-StopsAt,
}
use native.Mathlib.Decide.{dec_lt}
use native.Mathlib.Nat.{le_refl}
use fusion_tree_benchmark.Buckets.{bucket}
use fusion_tree_benchmark.Buckets.Cuts.{MonoOn, Cut}
use fusion_tree_benchmark.Buckets.Slots.{IsTable}
use fusion_tree_benchmark.ClusterJump.{Top, bucket_end}

-- Outside the table this record would be read; every use stands under a bound on the index.
abbrev pub no_top : Top
no_top = record { base = 0; start = 0; slots = 0; shift = 0 }

ne_of_eq_false : (x y : ℕ) → (x == y) ≡ false → x ≢ y
ne_of_eq_false x y h = ground arith

module _ (a : List ℕ) (gbase gshift ntop : ℕ) where
  -- The first key of top bucket `b`.
  unfoldable pub starts : ℕ → ℕ
  starts zero = 0
  starts (suc b) = bucket_end a gbase gshift ntop b (starts b)

  module _ (mono : MonoOn (λ i. bucket gbase gshift (a ! i)) 0 (length a))
      (within : (i : ℕ) → i < length a → bucket gbase gshift (a ! i) < ntop) where
    abbrev bucket_at : ℕ → ℕ
    bucket_at i = bucket gbase gshift (a ! i)

    next-Cut :
        (b i0 : ℕ)
        → b < ntop
        → Cut bucket_at 0 (length a) b i0
        → Cut bucket_at 0 (length a) (suc b) (bucket_end a gbase gshift ntop b i0)
    unfolding bucket_end
    next-Cut b i0 h cut =
        let k = advance (λ i. bucket_at i == b) (length a - i0) i0 in
        let s : StopsAt (λ i. bucket_at i == b) i0 (length a) k =
          advance-StopsAt _ (length a - i0) i0 (length a) (omega (arith, cut.upto)) in
        rw (lt→ltb b ntop h) (record {
          from = omega arith;
          upto = s.upto;
          below = λ i p r. elim (dec_lt i i0) [
            | yes early ↦ omega (arith, cut.below i p early)
            | no late ↦ omega (arith, (==_iff (bucket_at i) b).0 (s.passed i (omega arith) r))
          ];
          above = λ i p r. omega (
            arith,
            mono k i (omega arith) p r,
            cut.above k s.from (omega arith),
            ne_of_eq_false (bucket_at k) b (s.stopped (omega arith)),
          );
        })

    pub starts-Cut : (b : ℕ) → b ≤ ntop → Cut bucket_at 0 (length a) b (starts b)
    unfolding starts
    starts-Cut zero h = record {
      from = omega arith;
      upto = omega arith;
      below = λ i p r. absurd (omega arith);
      above = λ i p r. omega arith;
    }
    starts-Cut (suc b) h = next-Cut b (starts b) h (starts-Cut b (omega arith))

    -- The first keys are a table over the top buckets, so the top level brackets every search.
    pub starts-IsTable : IsTable bucket_at 0 (length a) ntop starts
    unfolding starts bucket_end
    starts-IsTable =
        let cut = starts-Cut ntop (le_refl ntop) in
        let past : starts ntop ≡ length a = elim (dec_lt (starts ntop) (length a)) [
          | yes short ↦
              absurd (
                omega
                  (arith, cut.above (starts ntop) (le_refl _) short, within (starts ntop) short))
          | no whole ↦ omega (arith, cut.upto)
        ] in
        let e : ntop + 1 ≡ suc ntop = omega arith in
        record {
          cut = λ c h. starts-Cut c (omega arith);
          past = past;
          last = rw (e, le→ltb ntop ntop (le_refl ntop)) refl;
          within = λ i p h. within i h;
          ordered = omega arith;
        }

    pub starts-step : (b : ℕ) → b ≤ ntop → (starts b ≤ starts (suc b)) × (starts (suc b) ≤ length a)
    starts-step b h = elim (dec_lt b ntop) [
      | yes inner ↦
          let cut = starts-Cut b h in
          let next = starts-Cut (suc b) inner in
          (
            elim (dec_lt (starts (suc b)) (starts b)) [
              | yes back ↦ absurd (
                  omega (
                    arith,
                    cut.below (starts (suc b)) (omega arith) back,
                    next.above (starts (suc b)) (le_refl _) (omega (arith, cut.upto)),
                  ))
              | no on ↦ omega arith
            ],
            next.upto,
          )
      | no outer ↦
          let e : suc b ≡ ntop + 1 = omega arith in
          rw (e, starts-IsTable.last) (omega (arith, (starts-Cut b h).upto), omega arith)
    ]
