-- ===== src/ClusterJump/Fit.antt =====
-- The second table of one top bucket: it brackets every search among the bucket's keys, and it has no
-- more slots than the bucket has keys.
use fusion_tree_benchmark.Prelude.{
  ℕ, ◌+◌, ◌-◌, ◌/◌, ◌^◌, ◌≤◌, ◌<◌, ◌≡◌, refl, List, length, ◌!◌, true, false, ◌==◌, Bool-cases, inl,
  inr, eq_zero, eq_pos, pos_eq, arith,
}
use native.Mathlib.Decide.{dec_lt}
use fusion_tree_benchmark.Word.{word, add64, add64-eq, sub64, shr}
use fusion_tree_benchmark.Bits.TopBit.{clz64-le}
use fusion_tree_benchmark.Spec.{IsKeys}
use fusion_tree_benchmark.Buckets.{to_u32, shift_for, bucket}
use fusion_tree_benchmark.Buckets.Cuts.{to_u32-eq}
use fusion_tree_benchmark.Buckets.Slots.{IsTable}
use fusion_tree_benchmark.Buckets.Table.{length-fill, fill-IsTable}
use fusion_tree_benchmark.Buckets.Widths.{shr-shift_for, shift_for-le}
use fusion_tree_benchmark.ClusterJump.{Top, slot_bits, fit}

-- What a search needs of a bucket with the keys `[i0, i1)`.
pub record Fitted (a : List ℕ) (i0 i1 start : ℕ) (r : Top × List ℕ) : Type 0 where
  pub at : r.0.start ≡ start
  pub size : length r.1 ≡ r.0.slots + 2
  pub few : r.0.slots ≤ i1 - i0
  pub low : (i : ℕ) → i0 ≤ i → i < i1 → r.0.base ≤ a ! i
  pub table : IsTable (λ i. bucket r.0.base r.0.shift (a ! i)) i0 i1 r.0.slots (λ c. r.1 ! c)

-- The number of slots asked for is at most the number of keys.
slot_bits-le : (k : ℕ) → 0 < k → k < word → 2 ^ slot_bits k ≤ k
unfolding slot_bits shr
slot_bits-le k p h = elim (Bool-cases (k / 4 == 0)) [
  | inl few ↦ rw few (omega arith)
  | inr many ↦ rw many (omega (arith, clz64-le (k / 4) (pos_eq (k / 4) many) (omega arith)))
]

module _ (a : List ℕ) (i0 i1 start : ℕ) (keys : IsKeys a) (fits : i1 ≤ length a)
    (small : length a < 2 ^ 32) where
  module _ (some_keys : i0 < i1) where
    abbrev span : ℕ
    span = sub64 (a ! (i1 - 1)) (a ! i0)

    abbrev raw_shift : ℕ
    raw_shift = shift_for span (slot_bits (i1 - i0))

    span-lt : span < word
    unfolding sub64
    span-lt = omega arith

    shift-eq : to_u32 raw_shift ≡ raw_shift
    shift-eq =
        to_u32-eq raw_shift
          (omega (arith, shift_for-le span (slot_bits (i1 - i0)) 64 span-lt span-lt))

    slots-lt : shr span raw_shift < i1 - i0
    slots-lt = omega (
      arith,
      shr-shift_for span (slot_bits (i1 - i0)) span-lt,
      slot_bits-le (i1 - i0) (omega arith) (omega arith),
    )

    slots-eq : to_u32 (add64 (shr span raw_shift) 1) ≡ shr span raw_shift + 1
    slots-eq =
        let e : add64 (shr span raw_shift) 1 ≡ shr span raw_shift + 1 =
          add64-eq (shr span raw_shift) 1 (omega (arith, slots-lt)) in
        rw e (to_u32-eq (shr span raw_shift + 1) (omega (arith, slots-lt)))

    last_bucket : shr span raw_shift ≡ bucket (a ! i0) raw_shift (a ! (i1 - 1))
    unfolding bucket
    last_bucket = refl

    fit_some : Fitted a i0 i1 start (fit a i0 i1 start)
    unfolding fit
    fit_some =
        let kept : (i1 - i0 == 0) ≡ false = eq_pos (i1 - i0) (omega arith) in
        let low : (i : ℕ) → i0 ≤ i → i < i1 → a ! i0 ≤ a ! i =
          λ i p r. keys.sorted i0 i p (omega arith) in
        rw (kept, shift-eq, slots-eq)
          (record {
            at = refl;
            size = length-fill a (a ! i0) raw_shift i1 (shr span raw_shift + 1) 0 i0;
            few = omega (arith, slots-lt);
            low = low;
            table =
                fill-IsTable a (a ! i0) raw_shift i0 i1 (shr span raw_shift + 1) keys fits
                  (omega arith) some_keys low (omega (arith, last_bucket));
          })

  fit_none : i0 ≡ i1 → Fitted a i0 i1 start (fit a i0 i1 start)
  unfolding fit
  fit_none e =
      let kept : (i1 - i0 == 0) ≡ true = eq_zero (i1 - i0) (omega arith) in
      rw kept (record {
        at = refl;
        size = refl;
        few = omega arith;
        low = λ i p r. absurd (omega arith);
        table = record {
          cut = λ c h. absurd (omega arith);
          past = omega (arith, to_u32-eq i0);
          last = omega (arith, to_u32-eq i0);
          within = λ i p r. absurd (omega arith);
          ordered = omega arith;
        };
      })

  pub fit-Fitted : i0 ≤ i1 → Fitted a i0 i1 start (fit a i0 i1 start)
  fit-Fitted h = elim (dec_lt i0 i1) [ yes p ↦ fit_some p | no p ↦ fit_none (omega arith) ]
