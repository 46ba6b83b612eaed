-- ===== src/ClusterJump/Correct.antt =====
-- ClusterJump answers every predecessor query correctly.
use fusion_tree_benchmark.Prelude.{
  ℕ, suc, ◌+◌, ◌-◌, ◌^◌, ◌≤◌, ◌<◌, ◌≡◌, refl, List, [], ◌∷◌, length, ◌!◌, get_or, suc-eq_zero,
  arith, ok, Returns, returns, load, load-ok,
}
use fusion_tree_benchmark.Word.{word, sub64, sub64-eq, add64, add64-eq, shr, pow_mono}
use fusion_tree_benchmark.Spec.{
  IsKeys, IsPredecessor, rank, rank-Splits, before, before-IsPredecessor, nil-IsKeys,
}
use fusion_tree_benchmark.Search.LastMile.{last_mile-Splits, answer-before}
use fusion_tree_benchmark.Buckets.{shift_for, bucket, pick}
use fusion_tree_benchmark.Buckets.Widths.{shr-shift_for}
use fusion_tree_benchmark.Buckets.Cuts.{MonoOn, bucket-MonoOn}
use fusion_tree_benchmark.Buckets.Slots.{Around, pick-Around, pick-upto}
use fusion_tree_benchmark.ClusterJump.{Top, top_bits, rows, build_keys, build, predecessor}
use fusion_tree_benchmark.ClusterJump.Rows.{no_top, starts, starts-IsTable}
use fusion_tree_benchmark.ClusterJump.Place.{Placed, length-rows, rows-Placed}

-- Between 1 and 16 bits choose the top bucket.
pub top_bits-bounds : (n : ℕ) → (1 ≤ top_bits n) × (top_bits n ≤ 16)
unfolding top_bits
top_bits-bounds n = ground arith

module _ (x : ℕ) (xs : List ℕ) (keys : IsKeys (x ∷ xs))
    (small : length (x ∷ xs) + 131074 < 2 ^ 32) where
  abbrev a : List ℕ
  a = x ∷ xs

  abbrev span : ℕ
  span = sub64 (a ! (length a - 1)) x

  abbrev gshift : ℕ
  gshift = shift_for span (top_bits (length a))

  abbrev ntop : ℕ
  ntop = shr span gshift + 1

  above_first : (i : ℕ) → i < length a → x ≤ a ! i
  above_first i h = keys.sorted 0 i (omega arith) h

  span-lt : span < word
  unfolding sub64
  span-lt = omega arith

  ntop-le : shr span gshift < 2 ^ 16
  ntop-le = omega (
    arith,
    shr-shift_for span (top_bits (length a)) span-lt,
    pow_mono (top_bits (length a)) 16 (top_bits-bounds (length a)).1,
  )

  ntop-eq : add64 (shr span gshift) 1 ≡ ntop
  ntop-eq = add64-eq (shr span gshift) 1 (omega (arith, ntop-le))

  mono : MonoOn (λ i. bucket x gshift (a ! i)) 0 (length a)
  mono = bucket-MonoOn a x gshift 0 (length a) keys (omega arith) (λ i p r. above_first i r)

  last_bucket : bucket x gshift (a ! (length a - 1)) ≡ shr span gshift
  unfolding bucket
  last_bucket = refl

  within : (i : ℕ) → i < length a → bucket x gshift (a ! i) < ntop
  within i h =
      omega (arith, mono i (length a - 1) (omega arith) (omega arith) (omega arith), last_bucket)

  module _ (q : ℕ) (query : q < word) where
    abbrev tb : ℕ
    tb = pick x gshift ntop q

    abbrev made : List Top × List ℕ
    made = rows a x gshift ntop (ntop + 1) 0 0 0

    abbrev t : Top
    t = get_or made.0 tb no_top

    abbrev j : ℕ
    j = pick t.base t.shift t.slots q

    abbrev first : ℕ → ℕ
    first = starts a x gshift ntop

    top-Around : Around 0 (length a) (rank a q) (first tb) (first (tb + 1))
    top-Around =
        let s = rank-Splits a q keys in
        pick-Around a x gshift ntop 0 (length a) q (rank a q) first keys query s (omega arith)
          (λ i p r. above_first i r) (starts-IsTable a x gshift ntop mono within) (omega arith)
          s.inside

    tb-Placed : Placed a x gshift ntop tb 0 made.1 t
    unfolding starts
    tb-Placed =
        let z : 0 + tb ≡ tb = omega arith in
        rw z at (
          rows-Placed a x gshift ntop keys mono within (omega (arith, ntop-le)) (ntop + 1) 0 0 tb
            (omega arith) (omega arith) (omega (arith, pick-upto x gshift ntop q)))

    entry : ℕ → ℕ
    entry c = made.1 ! (tb-Placed.place + c)

    slot-Around : Around (first tb) (first (suc tb)) (rank a q) (entry j) (entry (j + 1))
    unfolding entry
    slot-Around =
        let s = rank-Splits a q keys in
        let p = tb-Placed in
        let top = top-Around in
        let e : tb + 1 ≡ suc tb = omega arith in
        let upto = rw e at top.upto in
        let end = rw e at top.end in
        pick-Around a t.base t.shift t.slots (first tb) (first (suc tb)) q (rank a q)
          (λ c. made.1 ! (p.place + c)) keys query s end p.low p.table top.from upto

    entry-le : entry (j + 1) ≤ length a
    entry-le =
        let e : tb + 1 ≡ suc tb = omega arith in
        let end = rw e at top-Around.end in omega (arith, end, slot-Around.end)

    load-entry : (i c : ℕ) → i ≡ t.start + c → c ≤ t.slots + 1 → load made.1 i ≡ ok (entry c)
    unfolding entry
    load-entry i c e h =
        let p = tb-Placed in
        let same : i ≡ p.place + c = omega (arith, p.at) in
        rw same (load-ok made.1 (p.place + c) 0 (omega (arith, p.fits)))

    predecessor_cons : predecessor (build a) q ≡ ok (before a (rank a q))
    unfolding predecessor build build_keys
    predecessor_cons =
        let s = rank-Splits a q keys in
        let around = slot-Around in
        let low = pick-upto t.base t.shift t.slots q in
        let gap : sub64 (entry (j + 1)) (entry j) ≡ entry (j + 1) - entry j =
          sub64-eq (entry (j + 1)) (entry j) (omega (arith, around.from, around.upto))
            (omega (arith, entry-le)) in
        rw (
          suc-eq_zero (length xs),
          ntop-eq,
          load-ok made.0 tb no_top (
              omega (
                arith,
                length-rows a x gshift ntop keys mono within (omega (arith, ntop-le)) (ntop + 1) 0 0
                    0,
                pick-upto x gshift ntop q,
              )),
          load-entry (t.start + j) j refl (omega arith),
          load-entry (t.start + j + 1) (j + 1) (omega arith) (omega arith),
          gap,
          last_mile-Splits 2 a q (rank a q) keys query s (entry j) (entry (j + 1) - entry j)
              (omega arith) around.from (omega (arith, around.from, around.upto))
              (omega (arith, around.from, around.upto, entry-le)),
          answer-before 8 a (rank a q) keys s.inside,
        )

predecessor-empty : (q : ℕ) → q < word → predecessor (build []) q ≡ ok (before [] (rank [] q))
unfolding predecessor build rank
predecessor-empty q query =
    let s = rank-Splits [] q nil-IsKeys in
    let e : pick 0 63 0 q ≡ 0 = omega (arith, pick-upto 0 63 0 q) in
    let gap : sub64 0 0 ≡ 0 = sub64-eq 0 0 (omega arith) (omega arith) in
    rw (
      e,
      load-ok (record { base = 0; start = 0; slots = 0; shift = 63 } ∷ []) 0 no_top (omega arith),
      e,
      load-ok {A = ℕ} (0 ∷ 0 ∷ []) 0 0 (omega arith),
      load-ok {A = ℕ} (0 ∷ 0 ∷ []) 1 0 (omega arith),
      gap,
      last_mile-Splits 2 [] q 0 nil-IsKeys query s 0 0 (omega arith) (omega arith) (omega arith)
          (omega arith),
      answer-before 8 [] 0 nil-IsKeys (omega arith),
    )

-- The search ends, reads only inside its arrays, and returns the key in front of position rank(q).
pub predecessor-before :
    (a : List ℕ) (q : ℕ)
    → IsKeys a
    → length a + 131074 < 2 ^ 32
    → q < word
    → predecessor (build a) q ≡ ok (before a (rank a q))
predecessor-before [] q keys small query = predecessor-empty q query
predecessor-before (x ∷ xs) q keys small query = predecessor_cons x xs keys small q query

-- On sorted keys, fewer than 2 ^ 32 - 131074, ClusterJump's predecessor ends without reading outside
-- its arrays and returns the largest key below `q`, or that there is none.
pub cluster_jump_correct :
    (a : List ℕ) (q : ℕ)
    → IsKeys a
    → length a + 131074 < 2 ^ 32
    → q < word
    → Returns (IsPredecessor a q) (predecessor (build a) q)
cluster_jump_correct a q keys small query =
    rw (predecessor-before a q keys small query)
      (returns (before-IsPredecessor a q (rank a q) keys (rank-Splits a q keys)))
