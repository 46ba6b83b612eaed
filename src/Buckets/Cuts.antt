-- ===== src/Buckets/Cuts.antt =====
-- Positions that cut a sorted stretch of keys at a bucket number.
use fusion_tree_benchmark.Prelude.{
  ℕ, ◌-◌, ◌^◌, ◌≤◌, ◌<◌, ◌≡◌, List, length, ◌!◌, ltb, ltb→lt, ltb→le, arith, advance, StopsAt,
  advance-StopsAt,
}
use native.Mathlib.Decide.{dec_lt}
use fusion_tree_benchmark.Word.{word, sub64, sub64-eq, shr_mono}
use fusion_tree_benchmark.Spec.{IsKeys}
use fusion_tree_benchmark.Buckets.{to_u32, bucket}

abbrev pub MonoOn : (ℕ → ℕ) → ℕ → ℕ → Type 0
MonoOn f lo hi = (i j : ℕ) → lo ≤ i → i ≤ j → j < hi → f i ≤ f j

-- In `[lo, hi)` exactly the positions before `e` have a value below `b`.
pub record Cut (f : ℕ → ℕ) (lo hi b e : ℕ) : Type 0 where
  pub from : lo ≤ e
  pub upto : e ≤ hi
  pub below : (i : ℕ) → lo ≤ i → i < e → f i < b
  pub above : (i : ℕ) → e ≤ i → i < hi → b ≤ f i

-- `while (j < hi && f(j) < b) ++j;` finds the cut, started anywhere before it.
pub advance-Cut :
    (f : ℕ → ℕ) (lo hi b j : ℕ)
    → MonoOn f lo hi
    → lo ≤ j
    → j ≤ hi
    → ((i : ℕ) → lo ≤ i → i < j → f i < b)
    → Cut f lo hi b (advance (λ i. ltb (f i) b) (hi - j) j)
advance-Cut f lo hi b j mono from upto before =
    let k = advance (λ i. ltb (f i) b) (hi - j) j in
    let s : StopsAt (λ i. ltb (f i) b) j hi k = advance-StopsAt _ (hi - j) j hi (omega arith) in
    record {
      from = omega (arith, s.from);
      upto = s.upto;
      below = λ i p r. elim (dec_lt i j) [
        | yes early ↦ before i p early
        | no late ↦ ltb→lt _ _ (s.passed i (omega arith) r)
      ];
      above = λ i p r.
          omega
            (arith, mono k i (omega (arith, s.from)) p r, ltb→le (f k) b (s.stopped (omega arith)));
    }

-- The bucket number grows with the key, from the base on.
pub bucket_mono :
    (base shift x y : ℕ) → base ≤ x → x ≤ y → y < word → bucket base shift x ≤ bucket base shift y
unfolding bucket
bucket_mono base shift x y p r h =
    shr_mono (sub64 x base) (sub64 y base) shift
      (omega (arith, sub64-eq x base p (omega arith), sub64-eq y base (omega arith) h))

-- A smaller bucket number means a smaller key.
pub bucket-lt :
    (base shift x y : ℕ) → base ≤ y → x < word → bucket base shift x < bucket base shift y → x < y
bucket-lt base shift x y p h l = elim (dec_lt x y) [
  | yes lt ↦ lt
  | no ge ↦ absurd (omega (arith, bucket_mono base shift y x p (omega arith) h))
]

-- The buckets of sorted keys, from a base at or below them, are sorted.
pub bucket-MonoOn :
    (a : List ℕ) (base shift lo hi : ℕ)
    → IsKeys a
    → hi ≤ length a
    → ((i : ℕ) → lo ≤ i → i < hi → base ≤ a ! i)
    → MonoOn (λ i. bucket base shift (a ! i)) lo hi
bucket-MonoOn a base shift lo hi keys fits low i j p r h =
    bucket_mono base shift (a ! i) (a ! j) (low i p (omega arith)) (keys.sorted i j r (omega arith))
      (keys.words j (omega arith))

pub to_u32-eq : (j : ℕ) → j < 2 ^ 32 → to_u32 j ≡ j
unfolding to_u32
to_u32-eq j h = omega arith
