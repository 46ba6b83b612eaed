-- ===== src/Search/LastMile.antt =====
-- The whole last step: from any range that holds the dividing position to that position.
use Prim.Native.Nat.{bit_and}
use fusion_tree_benchmark.Prelude.{
  ℕ, ◌+◌, ◌-◌, ◌*◌, ◌^◌, ◌≤◌, ◌<◌, ◌≡◌, refl, ap, ◌∙◌, Bool, List, map, length, replicate, take,
  ◌!◌, lt→ltb, le→ltb, arith, ok, load-ok, length-append, length-map, length-replicate,
  get_or-append_left, get_or-map, zero, suc,
}
use fusion_tree_benchmark.Word.{word}
use fusion_tree_benchmark.Word.Masks.{
  count_bits, mask_of, count_true, count_bits-mask_of, bit_and-mask_of,
}
use fusion_tree_benchmark.Word.Signed.{slt, flip, slt-flip, flip-flip}
use fusion_tree_benchmark.Spec.{IsKeys, Splits, before}
use fusion_tree_benchmark.Search.{pad, flipped_copy, shl32, last_mile, answer}
use fusion_tree_benchmark.Search.Narrow.{Divides, narrow-Narrowed}
use fusion_tree_benchmark.Search.Scan.{
  shl32-eq, lane_tests, scan-ok, length-lane_tests, get_or-lane_tests, length-take_le,
  count_true-take,
}

pub length-flipped_copy : (w : ℕ) (a : List ℕ) → length (flipped_copy w a) ≡ length a + w
unfolding flipped_copy
length-flipped_copy w a = omega (
  arith,
  length-append {0} (map flip a) (replicate w pad),
  length-map {0, 0} flip a,
  length-replicate {0} w pad,
)

pub flipped_copy-key :
    (w : ℕ) (a : List ℕ) (i : ℕ) → i < length a → flipped_copy w a ! i ≡ flip (a ! i)
unfolding flipped_copy
flipped_copy-key w a i h =
    get_or-append_left (map flip a) (replicate w pad) i 0 (omega (arith, length-map {0, 0} flip a))
    ∙ get_or-map flip a i 0 0 h

-- Between `base` and `top` the position `lb` divides the keys at `q`.
pub record Window (a : List ℕ) (q base top lb : ℕ) : Type 0 where
  pub from : base ≤ lb
  pub upto : lb ≤ top
  pub below : (i : ℕ) → base ≤ i → i < lb → a ! i < q
  pub above : (i : ℕ) → lb ≤ i → i < top → q ≤ a ! i

pub Splits-Window :
    (a : List ℕ) (q base top lb : ℕ)
    → Splits a q lb
    → base ≤ lb
    → lb ≤ top
    → top ≤ length a
    → Window a q base top lb
Splits-Window a q base top lb s from upto inside = record {
  from = from;
  upto = upto;
  below = λ i g h. s.below i h;
  above = λ i g h. s.above i g (omega arith);
}

module _ (w : ℕ) (a : List ℕ) (q base top lb : ℕ) (keys : IsKeys a) (small : q < word)
    (inside : top ≤ length a) (s : Window a q base top lb) where
  -- The signed test on what is stored divides it where the keys divide.
  flipped_copy-Divides : Divides (λ k. slt k (flip q)) (flipped_copy w a) base top lb
  flipped_copy-Divides = record {
    below = λ i g h.
        let within : i < length a = omega (arith, s.upto) in
        rw (flipped_copy-key w a i within, slt-flip (a ! i) q (keys.words i within) small)
          (lt→ltb _ _ (s.below i g h));
    above = λ i g h.
        let within : i < length a = omega arith in
        rw (flipped_copy-key w a i within, slt-flip (a ! i) q (keys.words i within) small)
          (le→ltb _ _ (s.above i g h));
  }

-- The mask counts the keys of the range that are below `q`.
pub count_range :
    (less : ℕ → Bool) (arr : List ℕ) (rounds base m lb lo len : ℕ)
    → Divides less arr base m lb
    → base ≤ lo
    → rounds ≤ 4
    → lo ≤ lb
    → lb ≤ lo + len
    → lo + len ≤ m
    → len ≤ 4 * rounds
    → lo + count_bits 64 (bit_and (mask_of (lane_tests less arr rounds lo)) (shl32 1 len - 1)) ≡ lb
count_range less arr rounds base m lb lo len d start few from upto inside short =
    let lanes = lane_tests less arr rounds lo in
    let size = length-lane_tests less arr rounds lo in
    let shape : shl32 1 len ≡ 2 ^ len = shl32-eq 1 len (omega arith) (omega arith) ∙ omega arith in
    let kept = length-take_le {0} len lanes in
    let counted : count_true (take len lanes) ≡ lb - lo =
      count_true-take lanes len (lb - lo) (omega arith) (omega arith)
        (λ i h.
          get_or-lane_tests less arr rounds lo i (omega arith)
          ∙ d.below (lo + i) (omega arith) (omega arith))
        (λ i g h.
          get_or-lane_tests less arr rounds lo i (omega arith)
          ∙ d.above (lo + i) (omega arith) (omega arith)) in
    rw
      (
        shape,
        bit_and-mask_of len lanes,
        count_bits-mask_of 64 (take len lanes) (omega arith),
        counted,
      )
      (omega arith)

module _ (rounds : ℕ) (a : List ℕ) (q lb : ℕ) (keys : IsKeys a) (small : q < word) where
  -- On any range of the keys the last step finds where the range divides.
  pub last_mile-Window :
      (lo len : ℕ)
      → rounds ≤ 4
      → lo + len ≤ length a
      → Window a q lo (lo + len) lb
      → last_mile rounds (flipped_copy (4 * rounds) a) lo len q ≡ ok lb
  unfolding last_mile
  last_mile-Window lo len few inside s =
      let stored = flipped_copy (4 * rounds) a in
      let size = length-flipped_copy (4 * rounds) a in
      let less = λ (k : ℕ). slt k (flip q) in
      let top = lo + len in
      let d = flipped_copy-Divides (4 * rounds) a q lo top lb keys small inside s in
      let ((lo', len'), run, (b, short)) =
        narrow-Narrowed (4 * rounds) less stored lo top lb d (omega arith) (suc len) lo len
          (omega arith)
          (record { start = omega arith; from = s.from; upto = s.upto; inside = omega arith }) in
      rw (run, scan-ok less stored rounds lo' (omega arith) (omega (arith, b.inside)))
        (ap ok (
          count_range less stored rounds lo top lb lo' len' d b.start few b.from b.upto b.inside
            short))

module _ (rounds : ℕ) (a : List ℕ) (q lb : ℕ) (keys : IsKeys a) (small : q < word)
    (s : Splits a q lb) where
  -- For sorted 64-bit keys stored with 4 * rounds places of padding, rounds at most 4, and a 64-bit
  -- query: from every range [lo, lo + len] within the keys that holds the position dividing them at
  -- the query, the last step ends, reads only inside the array and returns that position.
  pub last_mile-Splits :
      (lo len : ℕ)
      → rounds ≤ 4
      → lo ≤ lb
      → lb ≤ lo + len
      → lo + len ≤ length a
      → last_mile rounds (flipped_copy (4 * rounds) a) lo len q ≡ ok lb
  last_mile-Splits lo len few from upto inside =
      last_mile-Window rounds a q lb keys small lo len few inside
        (Splits-Window a q lo (lo + len) lb s from upto inside)

-- Reading the answer off the stored keys.
pub answer-before :
    (w : ℕ) (a : List ℕ) (lb : ℕ)
    → IsKeys a
    → lb ≤ length a
    → answer (flipped_copy w a) lb ≡ ok (before a lb)
unfolding answer
answer-before w a zero keys h = refl
answer-before w a (suc lb) keys h =
    let e : suc lb - 1 ≡ lb = omega arith in
    rw
      (
        e,
        load-ok (flipped_copy w a) lb 0 (omega (arith, length-flipped_copy w a)),
        flipped_copy-key w a lb (omega arith),
        flip-flip (a ! lb) (keys.words lb (omega arith)),
      )
      (ground arith)
