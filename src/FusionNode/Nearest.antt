-- ===== src/FusionNode/Nearest.antt =====
-- The comparison of sketches puts a query next to a stored key that shares the longest prefix with it.
use native.Mathlib.Decide.{dec_lt}
use fusion_tree_benchmark.Prelude.{
  ℕ, suc, ◌+◌, ◌-◌, ◌/◌, ◌%◌, ◌^◌, ◌≤◌, ◌<◌, ◌≡◌, refl, sym, ap, ◌∙◌, ◌≢◌, ◌⊎◌, inl, inr, true,
  List, [], length, map, length-map, get_or-map, ◌!◌, All, arith,
}
use fusion_tree_benchmark.Word.{word}
use fusion_tree_benchmark.Word.Bit.{agree_above}
use fusion_tree_benchmark.Spec.{IsKeys, IsDistinct, rank, le-rank, rank-le}
use fusion_tree_benchmark.Bits.{highest_diff_bit}
use fusion_tree_benchmark.Bits.HighDiff.{
  Top, Top_sym, Top_bits, Top_nested_below, Top_nested_above, highest_diff_bit-Top,
  highest_diff_bit-lt,
}
use fusion_tree_benchmark.FusionNode.{seen, important, sort}
use fusion_tree_benchmark.FusionNode.Order.{digits_at, digits_at-lt}
use fusion_tree_benchmark.FusionNode.Important.{
  All-sort, All-important, Ascending-sort, seen-sort, important-Top,
}

pub top_bit-agree : (x y p r : ℕ) → Top x y p → p < r → x / 2 ^ r % 2 ≡ y / 2 ^ r % 2
top_bit-agree x y p r t h = ap (λ (u : ℕ). u % 2) (agree_above x y (suc p) r t.same (omega arith))

module _ (keys : List ℕ) (sorted : IsKeys keys) (distinct : IsDistinct keys) (q : ℕ)
    (query : q < word) where
  abbrev pub imp : List ℕ
  imp = sort (important keys [])

  -- Where the query first differs from key `j`.
  abbrev pub hd : ℕ → ℕ
  hd j = highest_diff_bit q (keys ! j)

  abbrev pub sketch_of : ℕ → ℕ
  sketch_of x = digits_at x imp

  pub hd-Top : (j : ℕ) → j < length keys → keys ! j ≢ q → Top q (keys ! j) (hd j)
  hd-Top j h ne = highest_diff_bit-Top q (keys ! j) query (sorted.words j h) (λ e. ne (sym e))

  pub imp-words : All (λ r. r < 64) imp
  imp-words =
      All-sort (λ r. r < 64) (important keys [])
        (All-important (λ r. r < 64) keys [] highest_diff_bit-lt tt)

  -- A number with the query's bits from bit `hd m` up compares with key `m` as the query does, if
  -- that bit is important.
  module _ (e m : ℕ) (inside : m < length keys) (found : seen (hd m) imp ≡ true)
      (agree : (r : ℕ) → hd m ≤ r → r < 64 → e / 2 ^ r % 2 ≡ q / 2 ^ r % 2) where
    pub away_below : keys ! m < q → sketch_of (keys ! m) < sketch_of e
    away_below lt =
        let t = hd-Top m inside (λ f. absurd (omega (arith, f, lt))) in
        let p = hd m in
        let small = highest_diff_bit-lt q (keys ! m) in
        let (low, high) = Top_bits (keys ! m) q p (Top_sym q (keys ! m) p t) lt in
        digits_at-lt (keys ! m) e p imp (Ascending-sort (important keys [])) imp-words found low
          (agree p (omega arith) small ∙ high)
          (λ r g w. sym (top_bit-agree q (keys ! m) p r t g) ∙ sym (agree r (omega arith) w))

    pub away_above : q < keys ! m → sketch_of e < sketch_of (keys ! m)
    away_above lt =
        let t = hd-Top m inside (λ f. absurd (omega (arith, f, lt))) in
        let p = hd m in
        let small = highest_diff_bit-lt q (keys ! m) in
        let (low, high) = Top_bits q (keys ! m) p t lt in
        digits_at-lt e (keys ! m) p imp (Ascending-sort (important keys [])) imp-words found
          (agree p (omega arith) small ∙ low) high
          (λ r g w. agree r (omega arith) w ∙ top_bit-agree q (keys ! m) p r t g)

  -- Two keys that differ first at bit `p` make it important.
  pub apart_seen :
      (j m p : ℕ)
      → j < length keys
      → m < length keys
      → Top (keys ! j) (keys ! m) p
      → seen p imp ≡ true
  apart_seen j m p hj hm t = seen-sort p (important keys []) (elim (dec_lt j m) [
    | yes before ↦
        let e : j + suc (m - j - 1) ≡ m = omega arith in
        important-Top keys sorted distinct j (m - j - 1) p (rw e hm) (rw e t)
    | no after ↦ elim (dec_lt m j) [
      | yes behind ↦
          let e : m + suc (j - m - 1) ≡ j = omega arith in
          important-Top keys sorted distinct m (j - m - 1) p (rw e hj)
            (rw e (Top_sym (keys ! j) (keys ! m) p t))
      | no same ↦
          let e : j ≡ m = omega arith in absurd (t.apart (ap (λ (i : ℕ). keys ! i / 2 ^ p) e))
    ]
  ])

  -- A key that shares less with the query than another differs from that one at an important bit.
  pub far_seen :
      (j m : ℕ)
      → j < length keys
      → m < length keys
      → keys ! j ≢ q
      → keys ! m ≢ q
      → hd j < hd m
      → seen (hd m) imp ≡ true
  far_seen j m hj hm nj nm lt =
      let t = hd-Top m hm nm in
      let u = hd-Top j hj nj in
      let p = hd m in
      apart_seen j m p hj hm (record {
        same = sym (agree_above q (keys ! j) (suc (hd j)) (suc p) u.same (omega arith)) ∙ t.same;
        apart = λ f. t.apart (agree_above q (keys ! j) (suc (hd j)) p u.same (omega arith) ∙ f);
      })

  -- The sketches of the keys, and how many are at most a number.
  abbrev pub sketches : List ℕ
  sketches = map sketch_of keys

  pub sketches-key : (j : ℕ) → j < length keys → sketches ! j ≡ sketch_of (keys ! j)
  sketches-key j h = get_or-map sketch_of keys j 0 0 h

  pub length-sketches : length sketches ≡ length keys
  length-sketches = length-map sketch_of keys

  module _ (absent : (j : ℕ) → j < length keys → keys ! j ≢ q) (j : ℕ) (inside : j < length keys)
      (nearest : (k : ℕ) → k < length keys → hd j ≤ hd k) where
    -- Of the two keys around the place that the sketches give, one is as near as any.
    far_below :
        (m : ℕ) → m < length keys → hd j < hd m → keys ! m < q → sketch_of (keys ! m) < sketch_of q
    far_below m h far lt =
        away_below q m h (far_seen j m inside h (absent j inside) (absent m h) far) (λ r g w. refl)
          lt

    far_above :
        (m : ℕ) → m < length keys → hd j < hd m → q < keys ! m → sketch_of q < sketch_of (keys ! m)
    far_above m h far lt =
        away_above q m h (far_seen j m inside h (absent j inside) (absent m h) far) (λ r g w. refl)
          lt

    pub far_or_near : (m : ℕ) → m < length keys → (hd j < hd m) ⊎ (hd m ≡ hd j)
    far_or_near m h = elim (dec_lt (hd j) (hd m)) [
      | yes far ↦ inl far
      | no near ↦ inr (omega (arith, nearest m h))
    ]

    side : (m : ℕ) → m < length keys → (keys ! m < q) ⊎ (q < keys ! m)
    side m h = elim (dec_lt (keys ! m) q) [
      | yes below ↦ inl below
      | no above ↦ elim (dec_lt q (keys ! m)) [
        | yes l ↦ inr l
        | no g ↦ absurd (absent m h (omega arith))
      ]
    ]

    -- Keys on one side of the query get farther away from it.
    hd-below : (k m : ℕ) → k ≤ m → m < length keys → keys ! m < q → hd m ≤ hd k
    hd-below k m h l lt =
        Top_nested_below (keys ! k) (keys ! m) q (hd m) (hd k) (sorted.sorted k m h l) lt
          (Top_sym q (keys ! m) (hd m) (hd-Top m l (absent m l)))
          (Top_sym q (keys ! k) (hd k) (hd-Top k (omega arith) (absent k (omega arith))))

    hd-above : (k m : ℕ) → m ≤ k → k < length keys → q < keys ! m → hd m ≤ hd k
    hd-above k m h l lt =
        Top_nested_above q (keys ! m) (keys ! k) (hd m) (hd k) lt (sorted.sorted m k h l)
          (hd-Top m (omega arith) (absent m (omega arith))) (hd-Top k l (absent k l))

    abbrev place : ℕ
    place = rank sketches (suc (sketch_of q))

    pub near_at : place ≤ j → hd place ≡ hd j
    near_at h = elim (far_or_near place (omega arith)) [
      | inr near ↦ near
      | inl far ↦ elim (side place (omega arith)) [
        | inr above ↦ absurd (omega (arith, far, hd-above j place h inside above))
        | inl below ↦
            let more : suc place ≤ place =
              le-rank sketches (suc (sketch_of q)) (suc place) (omega (arith, length-sketches))
                (λ i l.
                  let back = hd-below i place (omega arith) (omega arith) below in
                  let lt = sorted.sorted i place (omega arith) (omega arith) in
                  let le = far_below i (omega arith) (omega arith) (omega arith) in
                  rw (sketches-key i (omega arith)) (omega (arith, le))) in
            absurd (omega arith)
      ]
    ]

    pub near_before : j < place → hd (place - 1) ≡ hd j
    near_before h =
        let m = place - 1 in
        let upto : place ≤ length keys = omega (arith, rank-le-length, length-sketches) in
        elim (far_or_near m (omega arith)) [
          | inr near ↦ near
          | inl far ↦ elim (side m (omega arith)) [
            | inl below ↦
                absurd (omega (arith, far, hd-below j m (omega arith) (omega arith) below))
            | inr above ↦
                let fewer : place ≤ m = rank-le sketches (suc (sketch_of q)) m (λ i g l.
                  let ahead : i < length keys = omega (arith, length-sketches) in
                  let back = hd-above i m g ahead above in
                  let ge = sorted.sorted m i g ahead in
                  let gt = far_above i ahead (omega arith) (omega arith) in
                  rw (sketches-key i ahead) (omega (arith, gt))) in
                absurd (omega arith)
          ]
        ]
      where
        rank-le-length : rank sketches (suc (sketch_of q)) ≤ length sketches
        rank-le-length =
            rank-le sketches (suc (sketch_of q)) (length sketches) (λ i g l. absurd (omega arith))
