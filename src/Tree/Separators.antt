-- ===== src/Tree/Separators.antt =====
-- The separators cut a range that is too large for a leaf into nearly equal parts.
use native.Mathlib.Nat.{
  le-div_iff_mul-le, div-lt_iff_lt-mul, div-mul-le_self, mul-lt-mul_of_pos_left, mul-le-mul_left,
}
use fusion_tree_benchmark.Prelude.{
  ℕ, zero, suc, ◌+◌, ◌-◌, ◌*◌, ◌/◌, ◌%◌, ◌∙◌, ◌≤◌, ◌<◌, ◌≡◌, refl, ap, length, ◌!◌, arith,
}
use fusion_tree_benchmark.Word.{word, mul64}
use fusion_tree_benchmark.Tree.{separators}
use fusion_tree_benchmark.Tree.Branch.{Cuts}

pub length-separators : (arity lo hi left i : ℕ) → length (separators arity lo hi left i) ≡ left
unfolding separators
length-separators arity lo hi zero i = refl
length-separators arity lo hi (suc left) i = ap suc (length-separators arity lo hi left (suc i))

module _ (arity lo hi : ℕ) (large : arity < hi - lo) (room : (hi - lo) * (arity + 1) < word) where
  cut : ℕ → ℕ
  cut k = lo + (hi - lo) * k / (arity + 1)

  cut-ge : (k : ℕ) → lo ≤ cut k
  unfolding cut
  cut-ge k = omega arith

  cut-lt : (k : ℕ) → k ≤ arity → cut k < hi
  unfolding cut
  cut-lt k h =
      let less =
        mul-lt-mul_of_pos_left {m = k} {n = arity + 1} {k = hi - lo} (omega arith) (omega arith) in
      let lt =
        (div-lt_iff_lt-mul {k = arity + 1} {x = (hi - lo) * k} {y = hi - lo} (omega arith)).1
          less in
      omega (arith, lt)

  cut-rising : (j k : ℕ) → j < k → cut j < cut k
  unfolding cut
  cut-rising j k h =
      let x = (hi - lo) * j / (arity + 1) in
      let low : x * (arity + 1) ≤ (hi - lo) * j = div-mul-le_self ((hi - lo) * j) (arity + 1) in
      let next : (hi - lo) * suc j ≤ (hi - lo) * k = mul-le-mul_left (hi - lo) (omega arith) in
      let one : (hi - lo) * suc j ≡ (hi - lo) * j + (hi - lo) = omega arith in
      let two : suc x * (arity + 1) ≡ x * (arity + 1) + (arity + 1) = omega arith in
      let le : suc x ≤ (hi - lo) * k / (arity + 1) =
        (le-div_iff_mul-le {k = arity + 1} {x = suc x} {y = (hi - lo) * k} (omega arith)).1
          (omega arith) in
      omega (arith, le)

  separators-cut :
      (left i j : ℕ)
      → i + left ≤ arity + 1
      → j < left
      → separators arity lo hi left i ! j ≡ cut (i + j)
  unfolding separators cut mul64
  separators-cut zero i j h l = absurd (omega arith)
  separators-cut (suc left) i zero h l =
      let e : i + 0 ≡ i = omega arith in
      let less =
        mul-lt-mul_of_pos_left {m = i} {n = arity + 1} {k = hi - lo} (omega arith) (omega arith) in
      let wrap : (hi - lo) * i % word ≡ (hi - lo) * i = omega arith in
      let lt = cut-lt i (omega arith) in rw (wrap, e) (ground (arith, lt))
  separators-cut (suc left) i (suc j) h l =
      let e : suc i + j ≡ i + suc j = omega arith in
      separators-cut left (suc i) j (omega arith) (omega arith) ∙ ap cut e

  -- For a range [lo, hi) of more than arity keys whose number times (arity + 1) is below 2 ^ 64, the
  -- positions of the separators lie in the range and rise strictly.
  pub separators-Cuts : Cuts lo hi (separators arity lo hi arity 1)
  separators-Cuts =
      let size = length-separators arity lo hi arity 1 in
      record {
        inside = λ i h.
            let e = separators-cut arity 1 i (omega arith) (omega (arith, size)) in
            rw e (cut-ge (1 + i), cut-lt (1 + i) (omega (arith, size)));
        rising = λ i j p h.
            rw
              (
                separators-cut arity 1 i (omega arith) (omega (arith, size)),
                separators-cut arity 1 j (omega arith) (omega (arith, size)),
              )
              (cut-rising (1 + i) (1 + j) (omega arith));
      }
