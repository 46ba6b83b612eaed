-- ===== src/Rivals/Alex.antt =====
-- AlexIndex of include/dynamic_rivals.hpp: the smallest and the largest key that it tracks, through every
-- sequence of bulk loads and insertions, and the queries that it keeps away from ALEX.
use fusion_tree_benchmark.Prelude.{
  zero, ap, Run, ok, fault, out_of_fuel, ◌>>=◌, ℕ, suc, ◌-◌, ◌≤◌, ◌<◌, ◌≡◌, sym, suc-eq_zero,
  if◌then◌else◌, Bool, ◌⊎◌, inl, inr, refl, true, false, List, [], ◌∷◌, length, ◌!◌, ltb, leb,
  Bool-cases, ltb→lt, ltb→le, le→ltb, arith, tests,
}
use mathlib.Core.Bool.{false≢true}
use fusion_tree_benchmark.Word.{word, sub64, sub64-eq}
use fusion_tree_benchmark.Spec.{IsKeys, IsPredecessor}
use fusion_tree_benchmark.Rivals.{
  AlexOps, AlexIndex, to_int, new_index, insert_each, alex_bulk_load, alex_insert, alex_predecessor,
}

abbrev pub Has : List ℕ → ℕ → Type 0
Has xs x = (i : ℕ) × (i < length xs) × (xs ! i ≡ x)

-- `x` has `k` as the last of the keys that are no greater.
pub record LastNoGreater (ks : List ℕ) (x k : ℕ) : Type 0 where
  pub stored : Has ks k
  pub upto : k ≤ x
  pub most : (y : ℕ) → Has ks y → y ≤ x → y ≤ k

abbrev is_value : {A : Type 0} → Run A → Bool
is_value (ok a) = true
is_value _ = false

abbrev value_of : {A : Type 0} → A → Run A → A
value_of d (ok a) = a
value_of d _ = d

low_end : (k lo : ℕ) → ((if ltb k lo then k else lo) ≤ k) × ((if ltb k lo then k else lo) ≤ lo)
low_end k lo = ground arith

high_end : (k hi : ℕ) → (k ≤ (if ltb hi k then k else hi)) × (hi ≤ (if ltb hi k then k else hi))
high_end k hi = ground arith

module _ {A : Type 0} (alex : AlexOps A) where
  -- The indices that a sequence of calls makes from a new one, each with the keys that it was given: those
  -- of the last bulk load and those inserted since. A call in which ALEX fails makes none.
  pub data Reach : AlexIndex A → List ℕ → Type 0 where
    new : Reach (new_index alex) []
    load :
        {t u : AlexIndex A} {old : List ℕ} (ks : List ℕ)
        → Reach t old
        → IsKeys ks
        → alex_bulk_load alex t ks ≡ ok u
        → Reach u ks
    add :
        {t u : AlexIndex A} {ks : List ℕ} (k : ℕ)
        → Reach t ks
        → alex_insert alex t k ≡ ok u
        → Reach u (k ∷ ks)

  -- What the wrapper knows of the keys.
  pub record Tracked (t : AlexIndex A) (ks : List ℕ) : Type 0 where
    pub empty : t.has ≡ false → length ks ≡ 0
    pub low : t.has ≡ true → Has ks t.lo
    pub high : t.has ≡ true → Has ks t.hi
    pub bounds : t.has ≡ true → (x : ℕ) → Has ks x → (t.lo ≤ x) × (x ≤ t.hi)

  -- A call that ends has made the index that its last line writes.
  made-Tracked :
      (m : Run A) (f : A → AlexIndex A) (ks : List ℕ) (u : AlexIndex A)
      → ((a : A) → Tracked (f a) ks)
      → (m >>= λ a. ok (f a)) ≡ ok u
      → Tracked u ks
  made-Tracked out_of_fuel f ks u h e = absurd (false≢true (ap is_value e))
  made-Tracked fault f ks u h e = absurd (false≢true (ap is_value e))
  made-Tracked (ok a) f ks u h e = rw⁻¹ (ap (value_of u) e) (h a)

  new-Tracked : Tracked (new_index alex) []
  new-Tracked = record {
    empty = λ _. refl;
    low = λ e. absurd (false≢true e);
    high = λ e. absurd (false≢true e);
    bounds = λ e. absurd (false≢true e);
  }

  -- One end of the range after an insertion.
  end_stored : (k x : ℕ) (ks : List ℕ) (b : Bool) → Has ks x → Has (k ∷ ks) (if b then k else x)
  end_stored k x ks true m = (0, omega arith, refl)
  end_stored k x ks false (i, h, e) = (suc i, omega (arith, h), e)

  cons_only : (ks : List ℕ) (k x : ℕ) → Has (k ∷ ks) x → (x ≡ k) ⊎ Has ks x
  cons_only ks k x (zero, h, e) = inl (sym e)
  cons_only ks k x (suc i, h, e) = inr (i, omega (arith, h), e)

  no_keys : (ks : List ℕ) (x : ℕ) → length ks ≡ 0 → ¬ Has ks x
  no_keys ks x none (i, h, e) = omega (arith, h, none)

  insert-Tracked :
      (t u : AlexIndex A) (ks : List ℕ) (k : ℕ)
      → Tracked t ks
      → alex_insert alex t k ≡ ok u
      → Tracked u (k ∷ ks)
  unfolding alex_insert
  insert-Tracked t u ks k h = made-Tracked (alex.insert t.a k) _ (k ∷ ks) u (λ a.
      elim (Bool-cases t.has) [
        | inl some_keys ↦ rw some_keys (record {
          empty = λ e. absurd (false≢true (sym e));
          low = λ _. end_stored k t.lo ks (ltb k t.lo) (h.low some_keys);
          high = λ _. end_stored k t.hi ks (ltb t.hi k) (h.high some_keys);
          bounds = λ _ x m. elim (cons_only ks k x m) [
            | inl e ↦ rw e (omega (arith, low_end k t.lo, high_end k t.hi))
            | inr old ↦
                let b = h.bounds some_keys x old in
                omega (arith, low_end k t.lo, high_end k t.hi, b)
          ];
        })
        | inr none_yet ↦ rw none_yet (record {
          empty = λ e. absurd (false≢true (sym e));
          low = λ _. (0, omega arith, refl);
          high = λ _. (0, omega arith, refl);
          bounds = λ _ x m. elim (cons_only ks k x m) [
            | inl e ↦ (omega (arith, e), omega (arith, e))
            | inr old ↦ absurd (no_keys ks x (h.empty none_yet) old)
          ];
        })
      ])

  -- What the bulk load leaves in ALEX.
  abbrev loaded : List ℕ → Run A
  loaded ks =
      if ltb (length ks) 2
      then insert_each alex alex.empty ks
      else alex.bulk_load alex.empty ks (to_int (length ks))

  load-Tracked :
      (t u : AlexIndex A) (ks : List ℕ) → IsKeys ks → alex_bulk_load alex t ks ≡ ok u → Tracked u ks
  unfolding alex_bulk_load
  load-Tracked t u [] sorted =
      made-Tracked (loaded []) (λ a. record { a = a; lo = t.lo; hi = t.hi; has = false }) [] u
        (λ a. record {
          empty = λ _. refl;
          low = λ e. absurd (false≢true e);
          high = λ e. absurd (false≢true e);
          bounds = λ e. absurd (false≢true e);
        })
  load-Tracked t u (k ∷ ks) sorted =
      let all = k ∷ ks in
      let n = length all in
      rw (suc-eq_zero (length ks)) (
        made-Tracked (loaded all) (λ a. record { a = a; lo = k; hi = all ! (n - 1); has = true })
          all u
          (λ a. record {
            empty = λ e. absurd (false≢true (sym e));
            low = λ _. (0, omega arith, refl);
            high = λ _. (n - 1, omega arith, refl);
            bounds = λ _ x m.
                let (i, h, e) = m in
                (
                  omega (arith, e, sorted.sorted 0 i (omega arith) h),
                  omega (arith, e, sorted.sorted i (n - 1) (omega (arith, h)) (omega arith)),
                );
          }))

  -- For every ALEX, whatever sequence of bulk loads of sorted keys and of insertions an index has been
  -- through: where it says that it has keys, its `lo` and `hi` are the smallest and the largest of the
  -- keys that it was given; where it says that it has none, it was given none.
  pub Reach-Tracked : {t : AlexIndex A} {ks : List ℕ} → Reach t ks → Tracked t ks
  Reach-Tracked new = new-Tracked
  Reach-Tracked (load ks r sorted e) = load-Tracked _ _ ks sorted e
  Reach-Tracked (add k r e) = insert-Tracked _ _ _ k (Reach-Tracked r) e

  -- For an index after any sequence of bulk loads of sorted keys and of insertions, and a 64-bit query:
  -- the answer is the largest key that the index was given below the query, or that there is none.
  -- Nothing is asked of ALEX for a query that is not above the smallest key, or above the largest one.
  -- For any other, ALEX's one answer on this index is asked to be the documented one, the last key no
  -- greater than the query less 1.
  pub alex_predecessor-IsPredecessor :
      {t : AlexIndex A} {ks : List ℕ} (q : ℕ)
      → Reach t ks
      → q < word
      → (t.lo < q → q ≤ t.hi → LastNoGreater ks (q - 1) (alex.find t.a (q - 1)))
      → IsPredecessor ks q (alex_predecessor alex t q)
  unfolding alex_predecessor
  alex_predecessor-IsPredecessor {t} {ks} q r small answer =
      let h = Reach-Tracked r in
      elim (Bool-cases t.has) [
        | inr none_yet ↦ rw none_yet (λ j l. absurd (omega (arith, l, h.empty none_yet)))
        | inl some_keys ↦ elim (Bool-cases (leb q t.lo)) [
          | inl under ↦
              rw (some_keys, under)
                (λ j l. omega (tests, under, h.bounds some_keys (ks ! j) (j, l, refl)))
          | inr above ↦ elim (Bool-cases (ltb t.hi q)) [
            | inl over ↦
                rw (some_keys, above, over)
                  (
                    h.high some_keys,
                    ltb→lt _ _ over,
                    λ j l p. (h.bounds some_keys (ks ! j) (j, l, refl)).1,
                  )
            | inr inner ↦
                let low : t.lo < q = ground arith in
                let back : sub64 q 1 ≡ q - 1 = sub64-eq q 1 (omega arith) small in
                let found = answer low (ltb→le _ _ inner) in
                rw
                  (some_keys, above, inner, back, le→ltb (q - 1) (alex.find t.a (q - 1)) found.upto)
                  (
                    found.stored,
                    omega (arith, found.upto),
                    λ j l p. found.most (ks ! j) (j, l, refl) (omega arith),
                  )
          ]
        ]
      ]
