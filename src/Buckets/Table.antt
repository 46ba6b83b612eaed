-- ===== src/Buckets/Table.antt =====
-- The table of first positions is correct.
use fusion_tree_benchmark.Prelude.{
  ℕ, zero, suc, ◌+◌, ◌-◌, ◌^◌, ◌≤◌, ◌<◌, ◌≡◌, List, length, ◌!◌, ltb, arith, advance,
}
use fusion_tree_benchmark.Spec.{IsKeys}
use fusion_tree_benchmark.Buckets.{bucket, fill}
use fusion_tree_benchmark.Buckets.Cuts.{MonoOn, Cut, advance-Cut, bucket-MonoOn, to_u32-eq}
use fusion_tree_benchmark.Buckets.Slots.{IsTable}

pub length-fill :
    (a : List ℕ) (base shift hi left b j : ℕ) → length (fill a base shift hi left b j) ≡ left + 2
unfolding fill
length-fill a base shift hi zero b j = omega arith
length-fill a base shift hi (suc left) b j = omega (
  arith,
  length-fill a base shift hi left (suc b)
      (advance (λ i. ltb (bucket base shift (a ! i)) b) (hi - j) j),
)

module _ (a : List ℕ) (base shift lo hi : ℕ) (small : hi < 2 ^ 32)
    (mono : MonoOn (λ i. bucket base shift (a ! i)) lo hi) where
  abbrev bucket_at : ℕ → ℕ
  bucket_at i = bucket base shift (a ! i)

  -- The entry of a slot is the first position whose key lies in it or later.
  fill-Cut :
      (left b j c : ℕ)
      → lo ≤ j
      → j ≤ hi
      → ((i : ℕ) → lo ≤ i → i < j → bucket_at i < b)
      → c < left
      → Cut bucket_at lo hi (b + c) (fill a base shift hi left b j ! c)
  unfolding fill
  fill-Cut zero b j c l h before p = absurd (omega arith)
  fill-Cut (suc left) b j zero l h before p =
      let cut = advance-Cut bucket_at lo hi b j mono l h before in
      let e : b + 0 ≡ b = omega arith in
      let k = advance (λ i. ltb (bucket_at i) b) (hi - j) j in
      rw (e, to_u32-eq k (omega (arith, cut.upto))) cut
  fill-Cut (suc left) b j (suc c) l h before p =
      let cut = advance-Cut bucket_at lo hi b j mono l h before in
      let e : b + suc c ≡ suc b + c = omega arith in
      let k = advance (λ i. ltb (bucket_at i) b) (hi - j) j in
      rw e (
        fill-Cut left (suc b) k c cut.from cut.upto (λ i r t. omega (arith, cut.below i r t))
          (omega arith))

  -- The two entries past the slots are the end of the range.
  fill-end : (left b j c : ℕ) → left ≤ c → c < left + 2 → fill a base shift hi left b j ! c ≡ hi
  unfolding fill
  fill-end zero b j zero h l = to_u32-eq hi small
  fill-end zero b j (suc zero) h l = to_u32-eq hi small
  fill-end zero b j (suc (suc c)) h l = absurd (omega arith)
  fill-end (suc left) b j zero h l = absurd (omega arith)
  fill-end (suc left) b j (suc c) h l =
      fill-end left (suc b) (advance (λ i. ltb (bucket_at i) b) (hi - j) j) c (omega arith)
        (omega arith)

-- With as many slots as the last key needs, the filled table brackets every search.
pub fill-IsTable :
    (a : List ℕ) (base shift lo hi slots : ℕ)
    → IsKeys a
    → hi ≤ length a
    → hi < 2 ^ 32
    → lo < hi
    → ((i : ℕ) → lo ≤ i → i < hi → base ≤ a ! i)
    → slots ≡ bucket base shift (a ! (hi - 1)) + 1
    → IsTable
        (λ i. bucket base shift (a ! i))
        lo
        hi
        slots
        (λ c. fill a base shift hi slots 0 lo ! c)
fill-IsTable a base shift lo hi slots keys fits small some_keys low e =
    let mono = bucket-MonoOn a base shift lo hi keys fits low in
    record {
      cut = λ c h.
          let z : 0 + c ≡ c = omega arith in
          rw z at (
            fill-Cut a base shift lo hi small mono slots 0 lo c (omega arith) (omega arith)
              (λ i p r. absurd (omega arith)) h);
      past = fill-end a base shift lo hi small mono slots 0 lo slots (omega arith) (omega arith);
      last =
          fill-end a base shift lo hi small mono slots 0 lo (slots + 1) (omega arith) (omega arith);
      within = λ i p h. omega (arith, e, mono i (hi - 1) p (omega arith) (omega arith));
      ordered = omega arith;
    }
