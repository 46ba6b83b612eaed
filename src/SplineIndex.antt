-- ===== src/SplineIndex.antt =====
-- include/spline_index.hpp, class SplineIndex<E> for E = 2 * half: straight pieces over the positions of
-- the keys, an S+ tree over the pieces' first keys, and a scan of the 2 * E + 4 keys around the predicted
-- position. The arithmetic of `double` is a parameter, and nothing is asked of it.
pub mod Correct
pub mod Points
pub mod Window
use fusion_tree_benchmark.Prelude.{
  ℕ, zero, suc, ◌+◌, ◌-◌, ◌*◌, Bool, ◌&&◌, ◌||◌, List, [], ◌∷◌, map, Option, none, length, ◌!◌, ltb,
  ◌==◌, if◌then◌else◌, Run, ok, ◌>>=◌, load,
}
use fusion_tree_benchmark.Word.{sub64}
use fusion_tree_benchmark.Word.Signed.{ℤ, pos, negsuc, slt, flip}
use fusion_tree_benchmark.Bits.{popcount}
use fusion_tree_benchmark.Search.{flipped_copy, compare4, answer}
use fusion_tree_benchmark.SPlusTree
use fusion_tree_benchmark.SPlusTree.{SPlusTree, lower_bound_index, key_at}

-- `double`: conversion from integers, the four operations, `<`, and the cast to `long long`.
pub record DoubleOps (F : Type 0) : Type 0 where
  pub of_int : ℤ → F
  pub plus : F → F → F
  pub minus : F → F → F
  pub times : F → F → F
  pub over : F → F → F
  pub less : F → F → Bool
  pub to_int : F → ℤ

pub record Seg (F : Type 0) : Type 0 where
  pub y : F
  pub slope : F

pub record SplineIndex (F : Type 0) : Type 0 where
  pub keys : List ℕ
  pub seg : List (Seg F)
  pub top : SPlusTree
  pub n : ℕ
  pub xmin : ℕ
  pub xmax : ℕ

-- `lo = guess - E - 1; lo = lo < 0 ? 0 : lo; lo = lo > n ? n : lo;`
unfoldable pub window_start : ℕ → ℕ → ℤ → ℕ
window_start e n (pos guess) = let lo = guess - (e + 1) in if ltb n lo then n else lo
window_start e n (negsuc guess) = 0

-- The scan, four keys at a time, with `left` rounds to go and the count so far.
unfoldable pub scan_window : ℕ → (ℕ → Bool) → List ℕ → ℕ → ℕ → Run ℕ
scan_window zero less keys p lb = ok lb
scan_window (suc left) less keys p lb = do
  m ← compare4 less keys p
  scan_window left less keys (p + 4) (lb + popcount m)

-- `-n`.
unfoldable pub neg : ℕ → ℤ
neg zero = pos 0
neg (suc n) = negsuc n

module _ {F : Type 0} (d : DoubleOps F) (half : ℕ) where
  abbrev pub double_of : ℕ → F
  double_of n = d.of_int (pos n)

  -- E and -E.
  abbrev pub plus_e : F
  plus_e = double_of (2 * half)

  abbrev pub minus_e : F
  minus_e = d.of_int (neg (2 * half))

  -- The slope from key `base` to `dy` above or below key `i`.
  unfoldable pub slope : List ℕ → ℕ → ℕ → F → F
  slope a base i dy =
      d.over (d.minus (d.plus (double_of i) dy) (double_of base))
        (double_of (sub64 (a ! i) (a ! base)))

  -- The greedy corridor from key `i` on, with `left` keys to go; the points in the order in which they are
  -- found, the last key at the end.
  unfoldable pub corridor : List ℕ → ℕ → ℕ → ℕ → F → F → List (ℕ × F)
  unfolding slope
  corridor a zero i base upper lower = (a ! (length a - 1), double_of (length a - 1)) ∷ []
  corridor a (suc left) i base upper lower =
      let si = slope a base i (double_of 0) in
      let leaves = d.less upper si || d.less si lower in
      let base' = if leaves then i - 1 else base in
      let u = slope a base' i plus_e in
      let l = slope a base' i minus_e in
      let upper' = if leaves then u else (if d.less u upper then u else upper) in
      let lower' = if leaves then l else (if d.less lower l then l else lower) in
      let rest = corridor a left (suc i) base' upper' lower' in
      if leaves then (a ! base', double_of base') ∷ rest else rest

  unfoldable pub fit : List ℕ → List (ℕ × F)
  unfolding corridor
  fit [] = []
  fit (x ∷ []) = (x, double_of 0) ∷ []
  fit (x ∷ y ∷ a) =
      let all = x ∷ y ∷ a in
      (x, double_of 0) ∷ corridor all (length a) 2 0 (slope all 0 1 plus_e) (slope all 0 1 minus_e)

  -- The pieces between the points.
  unfoldable pub pieces : List (ℕ × F) → List (Seg F)
  pieces [] = []
  pieces ((x, y) ∷ []) = record { y = y; slope = double_of 0 } ∷ []
  pieces ((x, y) ∷ (x', y') ∷ points) =
      let rise = d.over (d.minus y' y) (double_of (sub64 x' x)) in
      record { y = y; slope = if ltb x x' then rise else double_of 0 } ∷ pieces ((x', y') ∷ points)

  unfoldable pub build : List ℕ → Run (SplineIndex F)
  build a = do
    let points = fit a
    top ← SPlusTree.build 4 (map (λ p. p.0) points)
    ok (record {
      keys = flipped_copy (4 * (half + 1)) a;
      seg = pieces points;
      top = top;
      n = length a;
      xmin = a ! 0;
      xmax = a ! (length a - 1);
    })

  -- Where the window of `q` starts.
  unfoldable pub window : SplineIndex F → ℕ → Run ℕ
  window t q = do
    let qc = if ltb q t.xmin then t.xmin else (if ltb t.xmax q then t.xmax else q)
    s ← lower_bound_index 4 t.top qc
    let s' = if s == 0 then 0 else s - 1
    g ← load t.seg s'
    x ← key_at t.top s'
    ok (
        window_start (2 * half) t.n
          (d.to_int (d.plus g.y (d.times g.slope (double_of (sub64 qc x))))))

  unfoldable pub predecessor : SplineIndex F → ℕ → Run (Option ℕ)
  predecessor t q =
      let found : Run (Option ℕ) = (do
        lo ← window t q
        lb ← scan_window (half + 1) (λ k. slt k (flip q)) t.keys lo lo
        answer t.keys lb) in
      if t.n == 0 then ok none else found
