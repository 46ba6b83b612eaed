-- ===== src/Rmi/Correct.antt =====
-- The wrapped RMI finds the predecessor for every generated model.
use native.Mathlib.Decide.{dec_le}
use fusion_tree_benchmark.Prelude.{
  ℕ, ◌+◌, ◌-◌, ◌≤◌, ◌<◌, ◌≡◌, refl, ap, Bool, true, false, not, ◌&&◌, Bool-cases, inl, inr, List,
  Option, none, some, length, ◌!◌, ltb, ◌==◌, if◌then◌else◌, ok, Returns, returns, load-ok, arith,
}
use fusion_tree_benchmark.Word.{word}
use fusion_tree_benchmark.Word.Signed.{slt-flip}
use fusion_tree_benchmark.Spec.{
  IsKeys, IsPredecessor, Splits, rank, rank-Splits, before-IsPredecessor,
}
use fusion_tree_benchmark.Search.{flipped_copy}
use fusion_tree_benchmark.Search.LastMile.{
  Window, Splits-Window, last_mile-Window, last_mile-Splits, length-flipped_copy, flipped_copy-key,
  answer-before,
}
use fusion_tree_benchmark.Rmi.Edges.{
  at_left, at_right, at_left-lt, at_right-lt, turn_left, stay_left, turn_right, stay_right,
}
use fusion_tree_benchmark.Rmi.{
  RmiEntry, window, below_at, check_edges, position, choose, build, predecessor,
}

window-inside : (n g err : ℕ) → (window n (g, err)).0 + (window n (g, err)).1 ≤ n
unfolding window
window-inside n g err = ground arith

module _ (a : List ℕ) (q : ℕ) (keys : IsKeys a) (query : q < word) where
  -- The read of a key at the window's edge.
  below_at-ok :
      (guard : Bool) (i : ℕ)
      → (guard ≡ true → i < length a)
      → below_at guard (flipped_copy 8 a) i q ≡ ok (guard && ltb (a ! i) q)
  unfolding below_at
  below_at-ok false i h = refl
  below_at-ok true i h =
      let within = h refl in
      rw (
        load-ok (flipped_copy 8 a) i 0 (omega (arith, length-flipped_copy 8 a)),
        flipped_copy-key 8 a i within,
        slt-flip (a ! i) q (keys.words i within) query,
      )

  module _ (r : ℕ) (s : Splits a q r) where
    -- A window in front of the position divides at its end, one behind it at its start.
    early-Window : (lo top : ℕ) → lo ≤ top → top ≤ r → Window a q lo top top
    early-Window lo top h l = record {
      from = h;
      upto = omega arith;
      below = λ i g p. s.below i (omega arith);
      above = λ i g p. absurd (omega arith);
    }

    late-Window : (lo top : ℕ) → lo ≤ top → top ≤ length a → r ≤ lo → Window a q lo top lo
    late-Window lo top h inside l = record {
      from = omega arith;
      upto = h;
      below = λ i g p. absurd (omega arith);
      above = λ i g p. s.above i (omega arith) (omega arith);
    }

    -- Where the window's search gave another position, an edge shows it.
    settled :
        (lo len lb : ℕ)
        → lo + len ≤ length a
        → Window a q lo (lo + len) lb
        → (lb ≡ lo → 0 < lo → a ! (lo - 1) < q)
        → (lb ≡ lo + len → lb < length a → q ≤ a ! lb)
        → lb ≡ r
    settled lo len lb inside w left right = elim (dec_le lb r) [
      | no behind ↦ elim (dec_le lb lo) [
        | yes start ↦ absurd (
            omega (
              arith,
              left (omega (arith, w.from)) (omega arith),
              s.above (lo - 1) (omega (arith, w.from)) (omega (arith, w.from)),
            ))
        | no later ↦ absurd (
            omega (
              arith,
              w.below (lb - 1) (omega arith) (omega arith),
              s.above (lb - 1) (omega arith) (omega (arith, w.upto)),
            ))
      ]
      | yes ahead ↦ elim (dec_le r lb) [
        | yes same ↦ omega arith
        | no short ↦ elim (dec_le (lo + len) lb) [
          | yes end ↦ absurd (
              omega (
                arith,
                right (omega (arith, w.upto)) (omega (arith, s.inside)),
                s.below lb (omega arith),
              ))
          | no inner ↦
              absurd
                (omega (arith, w.above lb (omega arith) (omega arith), s.below lb (omega arith)))
        ]
      ]
    ]

    rank-le : (i : ℕ) → i < length a → q ≤ a ! i → r ≤ i
    rank-le i h ge = elim (dec_le r i) [
      | yes l ↦ l
      | no l ↦ absurd (omega (arith, s.below i (omega arith)))
    ]

    rank-gt : (i : ℕ) → i < length a → a ! i < q → i < r
    rank-gt i h lt = elim (dec_le r i) [
      | yes l ↦ absurd (omega (arith, s.above i l h))
      | no l ↦ omega arith
    ]

    -- Whatever the first search found, the checks of the edges lead to the dividing position.
    check_edges-Splits :
        (e : Option RmiEntry) (lo len lb : ℕ)
        → lo + len ≤ length a
        → Window a q lo (lo + len) lb
        → check_edges (record { keys = flipped_copy 8 a; n = length a; entry = e }) q lo len lb
          ≡ ok r
    unfolding check_edges at_left at_right
    check_edges-Splits e lo len lb inside w =
        let n = length a in
        let left = at_left lb lo in
        let right = at_right lb (lo + len) n in
        let left_read = below_at-ok left (lo - 1) (at_left-lt lb lo n (omega arith)) in
        let right_read = below_at-ok right lb (at_right-lt lb (lo + len) n) in
        let x = a ! (lo - 1) in
        let y = a ! lb in
        rw (left_read, right_read)
          (elim (Bool-cases (left && not (left && ltb x q))) [
            | inl early ↦
                let (start, pos, ge) = turn_left lb lo x q early in
                let l = rank-le (lo - 1) (omega arith) ge in
                rw early (
                  last_mile-Splits 2 a q r keys query s 0 lo (omega arith) (omega arith)
                    (omega arith) (omega arith))
            | inr keep ↦ elim (Bool-cases (right && (right && ltb y q))) [
              | inl late ↦
                  let (more, lt) = turn_right lb (lo + len) n y q late in
                  let l = rank-gt lb more lt in
                  rw (keep, late)
                    (last_mile-Splits 2 a q r keys query s lb (n - lb) (omega arith) (omega arith)
                      (omega (arith, s.inside)) (omega arith))
              | inr found ↦
                  let same =
                    settled lo len lb inside w (stay_left lb lo x q keep)
                      (stay_right lb (lo + len) n y q found) in
                  rw (keep, found) (ap ok same)
            ]
          ])

    -- Every window divides somewhere.
    some_Window : (lo len : ℕ) → lo + len ≤ length a → (lb : ℕ) × Window a q lo (lo + len) lb
    some_Window lo len inside = elim (dec_le r lo) [
      | yes behind ↦ (lo, late-Window lo (lo + len) (omega arith) inside behind)
      | no after ↦ elim (dec_le (lo + len) r) [
        | yes ahead ↦ (lo + len, early-Window lo (lo + len) (omega arith) ahead)
        | no within ↦ (r, Splits-Window a q lo (lo + len) r s (omega arith) (omega arith) inside)
      ]
    ]

    position-Splits :
        (e : Option RmiEntry)
        → position (record { keys = flipped_copy 8 a; n = length a; entry = e }) q e ≡ ok r
    unfolding position
    position-Splits none =
        last_mile-Splits 2 a q r keys query s 0 (length a) (omega arith) (omega arith)
          (omega (arith, s.inside)) (omega arith)
    position-Splits (some e) =
        let (lo, len) = window (length a) (e.lookup q) in
        let inside = window-inside (length a) (e.lookup q).0 (e.lookup q).1 in
        let (lb, w) = some_Window lo len inside in
        rw
          (
            last_mile-Window 2 a q lb keys query lo len (omega arith) inside w,
            check_edges-Splits (some e) lo len lb inside w,
          )
          refl

-- RMIIndex over sorted 64-bit keys, for every registry of generated models and any 64-bit query q: the
-- search reads only inside the stored keys and returns the largest key below q, or that there is none,
-- whatever position and error the model guesses.
pub rmi_index_correct :
    (variant : ℕ) (registry : List RmiEntry) (a : List ℕ) (q : ℕ)
    → IsKeys a
    → q < word
    → Returns (IsPredecessor a q) (predecessor (build variant registry a) q)
unfolding predecessor build
rmi_index_correct variant registry a q keys query =
    let s = rank-Splits a q keys in
    let entry = if length a == 0 then none else choose variant a registry in
    rw
      (
        position-Splits a q keys query (rank a q) s entry,
        answer-before 8 a (rank a q) keys s.inside,
      )
      (returns (before-IsPredecessor a q (rank a q) keys s))
