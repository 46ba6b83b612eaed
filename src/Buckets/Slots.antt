-- ===== src/Buckets/Slots.antt =====
-- A table of first positions brackets every search.
use fusion_tree_benchmark.Prelude.{
  ℕ, ◌+◌, ◌≤◌, ◌<◌, ◌≡◌, ap, ◌∙◌, List, length, ◌!◌, ltb, ltb→lt, ltb→le, arith, Bool-cases, inl,
  inr,
}
use native.Mathlib.Decide.{dec_lt}
use native.Mathlib.Nat.{le_refl}
use fusion_tree_benchmark.Word.{word}
use fusion_tree_benchmark.Spec.{IsKeys, Splits, le-Splits, Splits-upto}
use fusion_tree_benchmark.Buckets.{bucket, pick}
use fusion_tree_benchmark.Buckets.Cuts.{Cut, bucket-lt}

-- The entries `e` of a table of `slots` slots over the keys in `[lo, hi)`.
pub record IsTable (f : ℕ → ℕ) (lo hi slots : ℕ) (e : ℕ → ℕ) : Type 0 where
  pub cut : (c : ℕ) → c < slots → Cut f lo hi c (e c)
  pub past : e slots ≡ hi
  pub last : e (slots + 1) ≡ hi
  pub within : (i : ℕ) → lo ≤ i → i < hi → f i < slots
  pub ordered : lo ≤ hi

-- Only the entries up to the one past the slots count.
pub IsTable-ext :
    (f : ℕ → ℕ) (lo hi slots : ℕ) (e e' : ℕ → ℕ)
    → ((c : ℕ) → c ≤ slots + 1 → e' c ≡ e c)
    → IsTable f lo hi slots e
    → IsTable f lo hi slots e'
IsTable-ext f lo hi slots e e' same t = record {
  cut = λ c h. rw (same c (omega arith)) (t.cut c h);
  past = same slots (omega arith) ∙ t.past;
  last = same (slots + 1) (omega arith) ∙ t.last;
  within = t.within;
  ordered = t.ordered;
}

-- Two neighbouring entries around the dividing position.
pub record Around (lo hi lb x y : ℕ) : Type 0 where
  pub from : x ≤ lb
  pub upto : lb ≤ y
  pub start : lo ≤ x
  pub end : y ≤ hi

pub pick-upto : (base shift slots q : ℕ) → pick base shift slots q ≤ slots
unfolding pick
pick-upto base shift slots q = ground (arith)

module _ (a : List ℕ) (base shift slots lo hi q lb : ℕ) (e : ℕ → ℕ) (keys : IsKeys a)
    (small : q < word) (s : Splits a q lb) (fits : hi ≤ length a)
    (low : (i : ℕ) → lo ≤ i → i < hi → base ≤ a ! i)
    (t : IsTable (λ i. bucket base shift (a ! i)) lo hi slots e) (from : lo ≤ lb)
    (upto : lb ≤ hi) where
  -- The entry after slot `c`, for `c` at most the number of slots.
  next_upto : (c : ℕ) → c ≤ slots → (e c ≤ hi) × (lo ≤ e c)
  next_upto c h = elim (Bool-cases (ltb c slots)) [
    | inl inner ↦ let k = t.cut c (ltb→lt _ _ inner) in (k.upto, k.from)
    | inr outer ↦
        let eq : c ≡ slots = omega (arith, ltb→le _ _ outer) in
        rw eq (omega (arith, t.past), omega (arith, t.past, t.ordered))
  ]

  next_above : (c i : ℕ) → c ≤ slots → e c ≤ i → i < hi → c ≤ bucket base shift (a ! i)
  next_above c i h p r = elim (Bool-cases (ltb c slots)) [
    | inl inner ↦ (t.cut c (ltb→lt _ _ inner)).above i p r
    | inr outer ↦
        let eq : c ≡ slots = omega (arith, ltb→le _ _ outer) in
        absurd (omega (arith, t.past, ap e eq))
  ]

  below_part : (x : ℕ) → x ≤ hi → ((i : ℕ) → lo ≤ i → i < x → a ! i < q) → x ≤ lb
  below_part x h f = le-Splits a q lb s x (omega arith) λ i p. elim (dec_lt i lo) [
    | yes early ↦ s.below i (omega arith)
    | no late ↦ f i (omega arith) p
  ]

  above_part : (y : ℕ) → lo ≤ y → ((i : ℕ) → y ≤ i → i < hi → q ≤ a ! i) → lb ≤ y
  above_part y h f =
      Splits-upto a q lb s y λ i p r. elim (dec_lt i hi) [
        | yes early ↦ f i p early
        | no late ↦ s.above i (omega arith) r
      ]

  past_Around : ((i : ℕ) → lo ≤ i → i < hi → a ! i < q) → Around lo hi lb (e slots) (e (slots + 1))
  past_Around below =
      let end = below_part hi (le_refl hi) below in
      record {
        from = omega (arith, t.past);
        upto = omega (arith, t.last);
        start = omega (arith, t.past, t.ordered);
        end = omega (arith, t.last);
      }

  inner_Around :
      (c : ℕ)
      → c < slots
      → ((i : ℕ) → lo ≤ i → i < hi → bucket base shift (a ! i) < c → a ! i < q)
      → ((i : ℕ) → lo ≤ i → i < hi → c < bucket base shift (a ! i) → q ≤ a ! i)
      → Around lo hi lb (e c) (e (c + 1))
  inner_Around c h below above =
      let k = t.cut c h in
      let next = next_upto (c + 1) (omega arith) in
      record {
        from = below_part (e c) k.upto λ i p r. below i p (omega (arith, k.upto)) (k.below i p r);
        upto = above_part (e (c + 1)) next.1 λ i p r.
            above i (omega (arith, next.1)) r
              (omega (arith, next_above (c + 1) i (omega arith) p r));
        start = k.from;
        end = next.0;
      }

  -- Whatever the query, the dividing position lies between the entry that is read and the next.
  pub pick-Around : Around lo hi lb (e (pick base shift slots q)) (e (pick base shift slots q + 1))
  unfolding pick
  pick-Around = elim (Bool-cases (ltb q base)) [
    | inl under ↦ elim (Bool-cases (ltb 0 slots)) [
      | inl some_slots ↦
          rw (under, some_slots)
            (inner_Around 0 (ltb→lt _ _ some_slots) (λ i p r h. absurd (omega arith))
              (λ i p r h. omega (arith, ltb→lt _ _ under, low i p r)))
      | inr none_left ↦
          rw (under, none_left)
            (past_Around λ i p r. absurd (omega (arith, t.within i p r, ltb→le _ _ none_left)))
    ]
    | inr over ↦ elim (Bool-cases (ltb (bucket base shift q) slots)) [
      | inl inner ↦
          rw (over, inner)
            (inner_Around (bucket base shift q) (ltb→lt _ _ inner)
              (λ i p r h.
                bucket-lt base shift (a ! i) q (ltb→le _ _ over) (keys.words i (omega arith)) h)
              (λ i p r h. omega (arith, bucket-lt base shift q (a ! i) (low i p r) small h)))
      | inr outer ↦
          rw (over, outer)
            (past_Around λ i p r.
              bucket-lt base shift (a ! i) q (ltb→le _ _ over) (keys.words i (omega arith))
                (omega (arith, t.within i p r, ltb→le _ _ outer)))
    ]
  ]
