-- ===== src/SplineIndex/Correct.antt =====
-- Construction and search of include/spline_index.hpp.
use fusion_tree_benchmark.Prelude.{
  ℕ, zero, suc, ◌+◌, ◌-◌, ◌*◌, ◌^◌, ◌≤◌, ◌<◌, ◌≡◌, refl, List, [], ◌∷◌, none, length, length-map,
  ltb, if◌then◌else◌, ◌==◌, suc-eq_zero, ok, ◌>>=◌, Returns, returns, load-ok, arith,
}
use fusion_tree_benchmark.Word.{word}
use fusion_tree_benchmark.Word.Signed.{slt, flip}
use fusion_tree_benchmark.Spec
use fusion_tree_benchmark.Spec.{IsKeys, Chain-IsKeys}
use fusion_tree_benchmark.Search.{flipped_copy, answer}
use fusion_tree_benchmark.Search.LastMile.{length-flipped_copy}
use fusion_tree_benchmark.SPlusTree.Search.{Searches, build-Searches}
use fusion_tree_benchmark.SplineIndex.{DoubleOps, SplineIndex, fit, build, window, predecessor}
use fusion_tree_benchmark.SplineIndex.Window.{firsts, passing, passing-le, scan_window-passing}
use fusion_tree_benchmark.SplineIndex.Points.{
  window_start-le, clamp-lt, piece-lt, no_seg, length-pieces, fit-Chain, fit-length, fit_some,
}

module _ {F : Type 0} (d : DoubleOps F) (half : ℕ) where
  module _ (x : ℕ) (xs : List ℕ) (keys : IsKeys (x ∷ xs)) (short : length (x ∷ xs) < 2 ^ 49) where
    abbrev a : List ℕ
    a = x ∷ xs

    abbrev w : ℕ
    w = 4 * (half + 1)

    abbrev points : List (ℕ × F)
    points = fit d half a

    firsts-IsKeys : IsKeys (firsts d half points)
    firsts-IsKeys = Chain-IsKeys (firsts d half points) (fit-Chain d half a keys)

    length-firsts : length (firsts d half points) ≡ length points
    length-firsts = length-map {0, 0} (λ (p : ℕ × F). p.0) points

    firsts_short : length (firsts d half points) < 2 ^ 49
    firsts_short = omega (arith, length-firsts, fit-length d half a keys)

    -- An index that the construction may have made.
    record Made (t : SplineIndex F) : Type 0 where
      stored : t.keys ≡ flipped_copy w a
      count : t.n ≡ length a
      segs : length t.seg ≡ length points
      low : t.xmin < word
      high : t.xmax < word
      top : Searches 4 (firsts d half points) t.top

    build-Made : Returns Made (build d half a)
    unfolding build
    build-Made =
        let (tree, run, top) =
          build-Searches 4 (firsts d half points) (omega arith) (omega arith) firsts_short
            firsts-IsKeys in
        rw run (
          returns (record {
            stored = refl;
            count = refl;
            segs = length-pieces d half points;
            low = keys.words 0 (omega arith);
            high = keys.words (length a - 1) (omega arith);
            top = top;
          }))

    -- Whatever the arithmetic of doubles gives, the window is found.
    window-Returns :
        (t : SplineIndex F) (q : ℕ)
        → Made t
        → q < word
        → Returns (λ lo. lo ≤ length a) (window d half t q)
    unfolding window
    window-Returns t q m small =
        let qc = (if ltb q t.xmin then t.xmin else (if ltb t.xmax q then t.xmax else q)) in
        let r = Spec.rank (firsts d half points) qc in
        let s = (if r == 0 then 0 else r - 1) in
        let held : qc < word = clamp-lt q t.xmin t.xmax small m.low m.high in
        let piece : s < length points =
          piece-lt r (length points) (fit_some d half x xs)
            (omega (arith, m.top.at_most_n qc, length-firsts)) in
        rw
          (
            m.top.index qc held,
            load-ok t.seg s (no_seg d half) (omega (arith, m.segs, piece)),
            m.top.key s (omega (arith, piece, length-firsts)),
            m.count,
          )
          (returns (window_start-le _ _ _))

    -- The scan from `lo` counts some of the keys of its window, and all of the keys below `q` where it
    -- covers their end.
    abbrev below : ℕ → ℕ → ℕ
    below q lo = passing (λ k. slt k (flip q)) (flipped_copy w a) (half + 1) lo

    predecessor-below :
        (t : SplineIndex F) (q lo : ℕ)
        → Made t
        → window d half t q ≡ ok lo
        → lo ≤ length a
        → predecessor d half t q ≡ answer (flipped_copy w a) (lo + below q lo)
    unfolding predecessor
    predecessor-below t q lo m start h =
        rw
          (
            start,
            m.count,
            suc-eq_zero (length xs),
            m.stored,
            scan_window-passing (λ k. slt k (flip q)) (flipped_copy w a) (half + 1) lo lo
                (omega (arith, length-flipped_copy w a)),
          )
          refl

    answer-Ends :
        (lb : ℕ) → lb ≤ length a + w → Returns {0, 0} (λ r. Unit) (answer (flipped_copy w a) lb)
    unfolding answer
    answer-Ends zero h = returns tt
    answer-Ends (suc lb) h =
        let e : suc lb - 1 ≡ lb = omega arith in
        rw
          (
            suc-eq_zero lb,
            e,
            load-ok (flipped_copy w a) lb 0 (omega (arith, length-flipped_copy w a)),
          )
          (returns tt)

    predecessor-Ends :
        (t : SplineIndex F) (q : ℕ)
        → Made t
        → q < word
        → Returns {0, 0} (λ r. Unit) (predecessor d half t q)
    predecessor-Ends t q m small =
        let (lo, start, h) = window-Returns t q m small in
        rw (predecessor-below t q lo m start h) (
          answer-Ends (lo + below q lo)
            (omega (arith, passing-le (λ k. slt k (flip q)) (flipped_copy w a) (half + 1) lo)))

module _ {F : Type 0} (d : DoubleOps F) (half : ℕ) where
  -- Over no keys the search returns that there is none.
  empty-Returns : (q : ℕ) → (build d half [] >>= λ t. predecessor d half t q) ≡ ok none
  unfolding build fit predecessor
  empty-Returns q =
      let short : 0 < 2 ^ 49 = omega arith in
      rw (build-Searches 4 [] (omega arith) (omega arith) short (Chain-IsKeys [] tt)).1 refl

  -- For any arithmetic of doubles, an even error bound, fewer than 2 ^ 49 sorted 64-bit keys (none
  -- included) and a 64-bit query: the construction ends, and the search of the index it makes ends and
  -- reads only inside the index's arrays.
  pub spline_index-Returns :
      (a : List ℕ) (q : ℕ)
      → IsKeys a
      → length a < 2 ^ 49
      → q < word
      → Returns {0, 0} (λ r. Unit) (build d half a >>= λ t. predecessor d half t q)
  spline_index-Returns [] q keys short small = rw (empty-Returns q) (returns tt)
  spline_index-Returns (x ∷ xs) q keys short small =
      let (t, run, m) = build-Made d half x xs keys short in
      rw run (predecessor-Ends d half x xs keys short t q m small)
