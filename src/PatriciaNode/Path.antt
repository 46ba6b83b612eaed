-- ===== src/PatriciaNode/Path.antt =====
-- split of include/patricia_node.hpp: both parts are smaller, and the first key's path stays.
use Prim.Native.Nat.{bit_or}
use native.Mathlib.Decide.{dec_lt}
use fusion_tree_benchmark.Prelude.{
  ℕ, zero, suc, ◌-◌, ◌/◌, ◌%◌, ◌^◌, ◌≤◌, ◌<◌, ◌≡◌, refl, ap, ◌∙◌, List, [], ◌∷◌, length, length-put,
  ◌!◌, put, lt→ltb, le→ltb, load-ok, Returns, returns, arith, eq_zero, eq_pos,
}
use fusion_tree_benchmark.Word.{shr, shl64}
use fusion_tree_benchmark.Bits.{highest_diff_bit}
use fusion_tree_benchmark.Bits.HighDiff.{highest_diff_bit-Top, Top_bits}
use fusion_tree_benchmark.Spec.{IsKeys, IsDistinct}
use fusion_tree_benchmark.FusionNode.Sketch.{bit_and-one}
use fusion_tree_benchmark.PatriciaNode.{mark_right, first_right, split}

put-head : (path : List ℕ) (i x : ℕ) → 0 < i → put path i x ! 0 ≡ path ! 0
put-head [] i x h = refl
put-head (y ∷ path) zero x h = absurd (omega (arith, h))
put-head (y ∷ path) (suc i) x h = refl

-- A path that keeps its length and its first entry.
abbrev pub Keeps : List ℕ → List ℕ → Type 0
Keeps path next = (length next ≡ length path) × (next ! 0 ≡ path ! 0)

mark_right-Keeps : (path : List ℕ) (d i left : ℕ) → 0 < i → Keeps path (mark_right path d i left)
unfolding mark_right
mark_right-Keeps path d i zero h = (refl, refl)
mark_right-Keeps path d i (suc left) h =
    let (size, head) =
      mark_right-Keeps (put path i (bit_or (path ! i) (shl64 1 d))) d (suc i) left (omega arith) in
    (size ∙ length-put path i _, head ∙ put-head path i _ h)

-- Where key `e` has the bit, the loop stops at a key that has it.
first_right-stops :
    (fuel : ℕ) (k : List ℕ) (d m e : ℕ)
    → m ≤ e
    → e < length k
    → e - m < fuel
    → k ! e / 2 ^ d % 2 ≡ 1
    → Returns (λ r. (m ≤ r) × (r ≤ e) × (k ! r / 2 ^ d % 2 ≡ 1)) (first_right fuel k d m)
unfolding first_right shr
first_right-stops zero k d m e h l f b = absurd (omega (arith, f))
first_right-stops (suc fuel) k d m e h l f b =
    rw (load-ok k m 0 (omega arith), bit_and-one (k ! m / 2 ^ d))
      (elim (dec_lt (k ! m / 2 ^ d % 2) 1) [
        | yes low ↦
            let past : m < e = elim (dec_lt m e) [
              | yes p ↦ p
              | no p ↦
                  let same : m ≡ e = omega arith in
                  absurd (omega (arith, low, b, ap (λ t. k ! t / 2 ^ d % 2) same))
            ] in
            let (r, run, (from, upto, bit)) =
              first_right-stops fuel k d (suc m) e (omega arith) l (omega arith) b in
            rw (eq_zero (k ! m / 2 ^ d % 2) (omega arith))
              (r, run, (omega (arith, from), upto, bit))
        | no high ↦
            rw (eq_pos (k ! m / 2 ^ d % 2) (omega (arith, high)))
              (returns (omega arith, h, omega (arith, high)))
      ])

module _ (k : List ℕ) (keys : IsKeys k) (distinct : IsDistinct k) where
  -- The dividing position is strictly inside the range.
  middle :
      (lo hi : ℕ)
      → 2 ≤ hi - lo
      → hi ≤ length k
      → Returns
          (λ m. (lo < m) × (m < hi))
          (first_right (suc (length k)) k (highest_diff_bit (k ! lo) (k ! (hi - 1))) lo)
  middle lo hi h l =
      let below = distinct lo (hi - 1) (omega arith) (omega arith) in
      let top =
        highest_diff_bit-Top (k ! lo) (k ! (hi - 1)) (keys.words lo (omega arith))
          (keys.words (hi - 1) (omega arith)) (λ e. omega (arith, e, below)) in
      let (clear, set) = Top_bits _ _ _ top below in
      let (m, run, (from, upto, bit)) =
        first_right-stops (suc (length k)) k _ lo (hi - 1) (omega arith) (omega arith) (omega arith)
          set in
      let past : lo < m = elim (dec_lt lo m) [
        | yes p ↦ p
        | no p ↦
            let same : lo ≡ m = omega (arith, from, p) in
            absurd (
              omega (
                arith,
                clear,
                bit,
                ap (λ t. k ! t / 2 ^ highest_diff_bit (k ! lo) (k ! (hi - 1)) % 2) same,
              ))
      ] in
      (m, run, (past, omega (arith, upto)))

  pub split-Keeps :
      (fuel : ℕ) (path : List ℕ) (lo hi : ℕ)
      → hi - lo < fuel
      → hi ≤ length k
      → Returns (Keeps path) (split fuel k path lo hi)
  unfolding split
  split-Keeps zero path lo hi f l = absurd (omega (arith, f))
  split-Keeps (suc fuel) path lo hi f l = elim (dec_lt (hi - lo) 2) [
    | yes short ↦ rw (lt→ltb (hi - lo) 2 short) (returns (refl, refl))
    | no long ↦
        let (m, run, (from, upto)) = middle lo hi (omega (arith, long)) l in
        let (size, head) =
          mark_right-Keeps path (highest_diff_bit (k ! lo) (k ! (hi - 1))) m (hi - m)
            (omega (arith, from)) in
        let (left, done, (size', head')) =
          split-Keeps fuel (mark_right path (highest_diff_bit (k ! lo) (k ! (hi - 1))) m (hi - m))
            lo m (omega (arith, from, upto)) (omega (arith, upto)) in
        let (right, done', (size'', head'')) =
          split-Keeps fuel left m hi (omega (arith, from, upto)) l in
        rw (le→ltb (hi - lo) 2 (omega (arith, long)), run, done, done')
          (returns (size'' ∙ size' ∙ size, head'' ∙ head' ∙ head))
  ]
