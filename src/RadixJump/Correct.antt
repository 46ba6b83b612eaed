-- ===== src/RadixJump/Correct.antt =====
-- RadixJump answers every predecessor query correctly.
use fusion_tree_benchmark.Prelude.{
  ℕ, zero, suc, ◌+◌, ◌-◌, ◌^◌, ◌≤◌, ◌<◌, ◌≡◌, refl, List, [], ◌∷◌, length, ◌!◌, ltb, ◌&&◌,
  Bool-cases, inl, inr, arith, ok, suc-eq_zero, Returns, returns, load-ok,
}
use fusion_tree_benchmark.Word.{word, sub64, sub64-eq, add64, add64-eq, shr, shl64, pow_mono}
use fusion_tree_benchmark.Spec.{
  IsKeys, IsPredecessor, rank, rank-Splits, before, before-IsPredecessor, nil-IsKeys,
}
use fusion_tree_benchmark.Search.LastMile.{last_mile-Splits, answer-before}
use fusion_tree_benchmark.Buckets.{shift_for, bucket, fill, pick}
use fusion_tree_benchmark.Buckets.Widths.{shr-shift_for}
use fusion_tree_benchmark.Buckets.Slots.{IsTable, Around, pick-Around, pick-upto}
use fusion_tree_benchmark.RadixJump.{want_bits, build_keys, build, predecessor}
use fusion_tree_benchmark.Buckets.Table.{length-fill, fill-IsTable}

-- The loop that chooses the table size stays within its limits.
want_bits-bounds :
    (fuel n want : ℕ) → want ≤ 30 → (want ≤ want_bits fuel n want) × (want_bits fuel n want ≤ 30)
unfolding want_bits
want_bits-bounds zero n want h = (omega arith, h)
want_bits-bounds (suc fuel) n want h =
    elim (Bool-cases (ltb (shl64 1 (want + 2)) n && ltb want 30)) [
      | inl more ↦ let ih = want_bits-bounds fuel n (suc want) in rw more (ground (arith, ih))
      | inr done ↦ rw done (omega arith, h)
    ]

module _ (x : ℕ) (xs : List ℕ) (keys : IsKeys (x ∷ xs)) (small : length (x ∷ xs) < 2 ^ 32) where
  abbrev a : List ℕ
  a = x ∷ xs

  abbrev span : ℕ
  span = sub64 (a ! (length a - 1)) x

  abbrev shift : ℕ
  shift = shift_for span (want_bits 30 (length a) 1)

  abbrev bucket_at : ℕ → ℕ
  bucket_at i = bucket x shift (a ! i)

  above_first : (i : ℕ) → i < length a → x ≤ a ! i
  above_first i h = keys.sorted 0 i (omega arith) h

  span-lt : span < word
  unfolding sub64
  span-lt = omega arith

  shr-span : shr span shift < 2 ^ 30
  shr-span = omega (
    arith,
    shr-shift_for span (want_bits 30 (length a) 1) span-lt,
    pow_mono (want_bits 30 (length a) 1) 30 (want_bits-bounds 30 (length a) 1 (omega arith)).1,
  )

  buckets-eq : add64 (shr span shift) 1 ≡ shr span shift + 1
  buckets-eq = add64-eq (shr span shift) 1 (omega (arith, shr-span))

  last_bucket : bucket_at (length a - 1) ≡ shr span shift
  unfolding bucket
  last_bucket = refl

  fill_whole-IsTable :
      IsTable bucket_at 0
        (length a)
        (shr span shift + 1)
        (λ c. fill a x shift (length a) (shr span shift + 1) 0 0 ! c)
  fill_whole-IsTable =
      fill-IsTable a x shift 0 (length a) (shr span shift + 1) keys (omega arith) small
        (omega arith) (λ i p h. above_first i h) (omega (arith, last_bucket))

  module _ (q : ℕ) (query : q < word) where
    abbrev slot : ℕ
    slot = pick x shift (shr span shift + 1) q

    abbrev entry : ℕ → ℕ
    entry c = fill a x shift (length a) (shr span shift + 1) 0 0 ! c

    slot-Around : Around 0 (length a) (rank a q) (entry slot) (entry (slot + 1))
    slot-Around =
        let s = rank-Splits a q keys in
        pick-Around a x shift (shr span shift + 1) 0 (length a) q (rank a q) entry keys query s
          (omega arith) (λ i p r. above_first i r) fill_whole-IsTable (omega arith) s.inside

    slot-upto : slot ≤ shr span shift + 1
    slot-upto = pick-upto x shift (shr span shift + 1) q

    predecessor_cons : predecessor (build a) q ≡ ok (before a (rank a q))
    unfolding predecessor build build_keys
    predecessor_cons =
        let s = rank-Splits a q keys in
        let around = slot-Around in
        let size = length-fill a x shift (length a) (shr span shift + 1) 0 0 in
        let gap : sub64 (entry (slot + 1)) (entry slot) ≡ entry (slot + 1) - entry slot =
          sub64-eq (entry (slot + 1)) (entry slot) (omega (arith, around.from, around.upto))
            (omega (arith, around.end)) in
        rw (
          suc-eq_zero (length xs),
          buckets-eq,
          load-ok (fill a x shift (length a) (shr span shift + 1) 0 0) slot 0
              (omega (arith, slot-upto)),
          load-ok (fill a x shift (length a) (shr span shift + 1) 0 0) (slot + 1) 0
              (omega (arith, slot-upto)),
          gap,
          last_mile-Splits 2 a q (rank a q) keys query s (entry slot)
              (entry (slot + 1) - entry slot) (omega arith) around.from
              (omega (arith, around.from, around.upto))
              (omega (arith, around.from, around.upto, around.end)),
          answer-before 8 a (rank a q) keys s.inside,
        )

predecessor-empty : (q : ℕ) → q < word → predecessor (build []) q ≡ ok (before [] (rank [] q))
unfolding predecessor build rank
predecessor-empty q query =
    let s = rank-Splits [] q nil-IsKeys in
    let e : pick 0 63 0 q ≡ 0 = omega (arith, pick-upto 0 63 0 q) in
    let gap : sub64 0 0 ≡ 0 = sub64-eq 0 0 (omega arith) (omega arith) in
    rw (
      e,
      load-ok {A = ℕ} (0 ∷ 0 ∷ []) 0 0 (omega arith),
      load-ok {A = ℕ} (0 ∷ 0 ∷ []) 1 0 (omega arith),
      gap,
      last_mile-Splits 2 [] q 0 nil-IsKeys query s 0 0 (omega arith) (omega arith) (omega arith)
          (omega arith),
      answer-before 8 [] 0 nil-IsKeys (omega arith),
    )

-- The search ends, reads only inside its arrays, and returns the key in front of position rank(q).
pub predecessor-before :
    (a : List ℕ) (q : ℕ)
    → IsKeys a
    → length a < 2 ^ 32
    → q < word
    → predecessor (build a) q ≡ ok (before a (rank a q))
predecessor-before [] q keys small query = predecessor-empty q query
predecessor-before (x ∷ xs) q keys small query = predecessor_cons x xs keys small q query

-- On fewer than 2 ^ 32 sorted 64-bit keys and a 64-bit query, RadixJump's predecessor ends without
-- reading outside its arrays and returns the largest key below `q`, or that there is none.
pub radix_jump_correct :
    (a : List ℕ) (q : ℕ)
    → IsKeys a
    → length a < 2 ^ 32
    → q < word
    → Returns (IsPredecessor a q) (predecessor (build a) q)
radix_jump_correct a q keys small query =
    rw (predecessor-before a q keys small query)
      (returns (before-IsPredecessor a q (rank a q) keys (rank-Splits a q keys)))
