-- ===== src/FusionNode/Siblings.antt =====
-- The repair values: their sketches count the keys below the query.
use native.Mathlib.Decide.{dec_lt}
use fusion_tree_benchmark.Prelude.{
  ℕ, suc, ◌/◌, ◌%◌, ◌^◌, ◌≤◌, ◌<◌, ◌≡◌, ◌≢◌, inl, inr, List, [], ◌∷◌, length, ◌!◌, All, arith,
}
use fusion_tree_benchmark.Word.{word}
use fusion_tree_benchmark.Spec
use fusion_tree_benchmark.Spec.{
  IsKeys, IsDistinct, Splits, Splits-unique, rank-Splits, le-rank, rank-le,
}
use fusion_tree_benchmark.Bits.HighDiff.{Top, Top_sym, Top_bits, highest_diff_bit-lt}
use fusion_tree_benchmark.FusionNode.Order.{digits_at-le, Dominated}
use fusion_tree_benchmark.FusionNode.Edge.{high_edge, low_edge, high_edge-bit, low_edge-bit}
use fusion_tree_benchmark.FusionNode.Nearest.{
  hd, hd-Top, sketch_of, sketches, sketches-key, length-sketches, imp, imp-words, far_seen,
  far_or_near, away_below, away_above, top_bit-agree,
}

-- Bits that dominate below 64 dominate at the positions.
dominated :
    (x y : ℕ) (positions : List ℕ)
    → All (λ r. r < 64) positions
    → ((r : ℕ) → r < 64 → x / 2 ^ r % 2 ≤ y / 2 ^ r % 2)
    → Dominated x y positions
dominated x y [] words h = tt
dominated x y (p ∷ positions) words h = (h p words.0, dominated x y positions words.1 h)

module _ (keys : List ℕ) (sorted : IsKeys keys) (distinct : IsDistinct keys) (q : ℕ)
    (query : q < word) (absent : (j : ℕ) → j < length keys → keys ! j ≢ q) (j : ℕ)
    (inside : j < length keys)
    (nearest : (k : ℕ)
      → k < length keys
      → hd keys sorted distinct q query j ≤ hd keys sorted distinct q query k) where
  h : ℕ
  h = hd keys sorted distinct q query j

  sk : ℕ → ℕ
  sk = sketch_of keys sorted distinct q query

  all_sketches : List ℕ
  all_sketches = sketches keys sorted distinct q query

  -- What a number with the query's bits above `h` gets right: all keys that share less.
  module _ (e : ℕ) (agree : (r : ℕ) → h < r → r < 64 → e / 2 ^ r % 2 ≡ q / 2 ^ r % 2) where
    far_keys-below :
        (m : ℕ)
        → m < length keys
        → h < hd keys sorted distinct q query m
        → keys ! m < q
        → sk (keys ! m) < sk e
    unfolding sk h
    far_keys-below m l far lt =
        away_below keys sorted distinct q query e m l
          (far_seen keys sorted distinct q query j m inside l (absent j inside) (absent m l) far)
          (λ r g w. agree r (omega arith) w) lt

    far_keys-above :
        (m : ℕ)
        → m < length keys
        → h < hd keys sorted distinct q query m
        → q < keys ! m
        → sk e < sk (keys ! m)
    unfolding sk h
    far_keys-above m l far lt =
        away_above keys sorted distinct q query e m l
          (far_seen keys sorted distinct q query j m inside l (absent j inside) (absent m l) far)
          (λ r g w. agree r (omega arith) w) lt

  near-Top : (m : ℕ) → m < length keys → hd keys sorted distinct q query m ≡ h → Top q (keys ! m) h
  unfolding h
  near-Top m l e = rw e at (hd-Top keys sorted distinct q query m l (absent m l))

  split : Splits keys q (Spec.rank keys q)
  split = rank-Splits keys q sorted

  above_query : (m : ℕ) → Spec.rank keys q ≤ m → m < length keys → q < keys ! m
  above_query m g l =
      let ge = split.above m g l in
      elim (dec_lt q (keys ! m)) [ yes lt ↦ lt | no same ↦ absurd (absent m l (omega arith)) ]

  h-lt : h < 64
  unfolding h
  h-lt = highest_diff_bit-lt q (keys ! j)

  -- A near key below the query has no bit above the high edge, one above it none below the low edge.
  near-high_edge :
      (m : ℕ)
      → m < length keys
      → hd keys sorted distinct q query m ≡ h
      → keys ! m < q
      → sk (keys ! m) ≤ sk (high_edge q h)
  unfolding sk
  near-high_edge m l near lt =
      let t = near-Top m l near in
      let (low, high) = Top_bits (keys ! m) q h (Top_sym q (keys ! m) h t) lt in
      digits_at-le (keys ! m) (high_edge q h) (imp keys sorted distinct q query) (
        dominated (keys ! m) (high_edge q h) (imp keys sorted distinct q query)
          (imp-words keys sorted distinct q query)
          (λ r w.
            let b = high_edge-bit q h r h-lt w in
            elim (dec_lt h r) [
              | yes above ↦
                  let same = top_bit-agree q (keys ! m) h r t above in ground (arith, b, same)
              | no upto ↦ elim (dec_lt r h) [
                | yes below ↦ ground (arith, b)
                | no at ↦ let z : r ≡ h = omega arith in rw z (omega (arith, low))
              ]
            ]))

  near-low_edge :
      (m : ℕ)
      → m < length keys
      → hd keys sorted distinct q query m ≡ h
      → q < keys ! m
      → sk (low_edge q h) ≤ sk (keys ! m)
  unfolding sk
  near-low_edge m l near lt =
      let t = near-Top m l near in
      let (low, high) = Top_bits q (keys ! m) h t lt in
      digits_at-le (low_edge q h) (keys ! m) (imp keys sorted distinct q query) (
        dominated (low_edge q h) (keys ! m) (imp keys sorted distinct q query)
          (imp-words keys sorted distinct q query)
          (λ r w.
            let b = low_edge-bit q h r h-lt w in
            elim (dec_lt h r) [
              | yes above ↦
                  let same = top_bit-agree q (keys ! m) h r t above in ground (arith, b, same)
              | no upto ↦ elim (dec_lt r h) [
                | yes below ↦ ground (arith, b)
                | no at ↦ let z : r ≡ h = omega arith in rw z (omega (arith, high))
              ]
            ]))

  -- The query branches high: the siblings are below it, and the high edge counts them all.
  high_repair :
      q / 2 ^ h % 2 ≡ 1 → Spec.rank all_sketches (suc (sk (high_edge q h))) ≡ Spec.rank keys q
  unfolding all_sketches h sk
  high_repair one =
      let e = high_edge q h in
      let r = Spec.rank keys q in
      let size = length-sketches keys sorted distinct q query in
      let agree : (p : ℕ) → h < p → p < 64 → e / 2 ^ p % 2 ≡ q / 2 ^ p % 2 =
        λ p g w. (let b = high_edge-bit q h p h-lt w in ground (arith, b)) in
      let s = split in
      let low : r ≤ Spec.rank all_sketches (suc (sk e)) =
        le-rank all_sketches (suc (sk e)) r (omega (arith, size, s.inside)) (λ i l.
          let in_keys : i < length keys = omega (arith, s.inside) in
          let lt = s.below i l in
          let le : sk (keys ! i) ≤ sk e =
            elim (far_or_near keys sorted distinct q query absent j inside nearest i in_keys) [
              | inl far ↦ omega (arith, far_keys-below e agree i in_keys far lt)
              | inr near ↦ near-high_edge i in_keys near lt
            ] in
          rw (sketches-key keys sorted distinct q query i in_keys) (omega (arith, le))) in
      let high : Spec.rank all_sketches (suc (sk e)) ≤ r =
        rank-le all_sketches (suc (sk e)) r (λ i g l.
          let in_keys : i < length keys = omega (arith, size) in
          let gt = above_query i g in_keys in
          let more : sk e < sk (keys ! i) =
            elim (far_or_near keys sorted distinct q query absent j inside nearest i in_keys) [
              | inl far ↦ far_keys-above e agree i in_keys far gt
              | inr near ↦
                  let bits = Top_bits q (keys ! i) h (near-Top i in_keys near) gt in
                  absurd (omega (arith, bits.0, one))
            ] in
          rw (sketches-key keys sorted distinct q query i in_keys) (omega (arith, more))) in
      omega (arith, low, high)

  -- The query branches low: the siblings are above it, and the low edge is below them all.
  low_repair : q / 2 ^ h % 2 ≡ 0 → Spec.rank all_sketches (sk (low_edge q h)) ≡ Spec.rank keys q
  unfolding all_sketches h sk
  low_repair zero_bit =
      let e = low_edge q h in
      let r = Spec.rank keys q in
      let size = length-sketches keys sorted distinct q query in
      let agree : (p : ℕ) → h < p → p < 64 → e / 2 ^ p % 2 ≡ q / 2 ^ p % 2 =
        λ p g w. (let b = low_edge-bit q h p h-lt w in ground (arith, b)) in
      let s = split in
      let low : r ≤ Spec.rank all_sketches (sk e) =
        le-rank all_sketches (sk e) r (omega (arith, size, s.inside)) (λ i l.
          let in_keys : i < length keys = omega (arith, s.inside) in
          let lt = s.below i l in
          let less : sk (keys ! i) < sk e =
            elim (far_or_near keys sorted distinct q query absent j inside nearest i in_keys) [
              | inl far ↦ far_keys-below e agree i in_keys far lt
              | inr near ↦
                  let bits =
                    Top_bits (keys ! i) q h (Top_sym q (keys ! i) h (near-Top i in_keys near)) lt in
                  absurd (omega (arith, bits.1, zero_bit))
            ] in
          rw (sketches-key keys sorted distinct q query i in_keys) (omega (arith, less))) in
      let high : Spec.rank all_sketches (sk e) ≤ r = rank-le all_sketches (sk e) r (λ i g l.
        let in_keys : i < length keys = omega (arith, size) in
        let gt = above_query i g in_keys in
        let le : sk e ≤ sk (keys ! i) =
          elim (far_or_near keys sorted distinct q query absent j inside nearest i in_keys) [
            | inl far ↦ omega (arith, far_keys-above e agree i in_keys far gt)
            | inr near ↦ near-low_edge i in_keys near gt
          ] in
        rw (sketches-key keys sorted distinct q query i in_keys) (omega (arith, le))) in
      omega (arith, low, high)

  pub high_siblings :
      q / 2 ^ hd keys sorted distinct q query j % 2 ≡ 1
      → Spec.rank (sketches keys sorted distinct q query) (
          suc (
            sketch_of keys sorted distinct q query
              (high_edge q (hd keys sorted distinct q query j))))
        ≡ Spec.rank keys q
  unfolding h sk all_sketches
  high_siblings one = high_repair one

  pub low_siblings :
      q / 2 ^ hd keys sorted distinct q query j % 2 ≡ 0
      → Spec.rank
          (sketches keys sorted distinct q query)
          (sketch_of keys sorted distinct q query (low_edge q (hd keys sorted distinct q query j)))
        ≡ Spec.rank keys q
  unfolding h sk all_sketches
  low_siblings zero_bit = low_repair zero_bit
