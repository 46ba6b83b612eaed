-- ===== src/FusionNode/Important.antt =====
-- The important positions: in order, and with every bit at which two keys first differ.
use fusion_tree_benchmark.Prelude.{
  ℕ, zero, suc, ◌+◌, ◌≤◌, ◌<◌, ◌≡◌, true, Bool-cases, inl, inr, List, [], ◌∷◌, ◌++◌, length, ◌!◌,
  leb, leb→le, ◌==◌, ==_iff, if◌then◌else◌, All, arith,
}
use fusion_tree_benchmark.Spec.{IsKeys, IsDistinct}
use fusion_tree_benchmark.Bits.{highest_diff_bit}
use fusion_tree_benchmark.Bits.HighDiff.{Top, Top-unique, Top_between, highest_diff_bit-Top}
use fusion_tree_benchmark.FusionNode.{seen, important, insert_sorted, sort}
use fusion_tree_benchmark.FusionNode.Order.{Ascending}

module _ (P : ℕ → Type 0) where
  All-insert_sorted : (b : ℕ) (ps : List ℕ) → P b → All P ps → All P (insert_sorted b ps)
  unfolding insert_sorted
  All-insert_sorted b [] h l = (h, tt)
  All-insert_sorted b (p ∷ ps) h l = elim (Bool-cases (leb b p)) [
    | inl le ↦ rw le (h, l)
    | inr gt ↦ rw gt (l.0, All-insert_sorted b ps h l.1)
  ]

  pub All-sort : (ps : List ℕ) → All P ps → All P (sort ps)
  unfolding sort
  All-sort [] h = tt
  All-sort (p ∷ ps) h = All-insert_sorted p (sort ps) h.0 (All-sort ps h.1)

  All-append : (xs : List ℕ) (b : ℕ) → All P xs → P b → All P (xs ++ b ∷ [])
  All-append [] b h l = (l, tt)
  All-append (x ∷ xs) b h l = (h.0, All-append xs b h.1 l)

  pub All-important :
      (keys imp : List ℕ)
      → ((x y : ℕ) → P (highest_diff_bit x y))
      → All P imp
      → All P (important keys imp)
  unfolding important
  All-important [] imp each h = h
  All-important (x ∷ []) imp each h = h
  All-important (x ∷ y ∷ keys) imp each h = elim (Bool-cases (seen (highest_diff_bit x y) imp)) [
    | inl old ↦ rw old (All-important (y ∷ keys) imp each h)
    | inr new ↦
        let b = highest_diff_bit x y in
        rw new (All-important (y ∷ keys) (imp ++ b ∷ []) each (All-append imp b h (each x y)))
  ]

at_most_trans : (a b : ℕ) (ps : List ℕ) → a ≤ b → All (λ r. b ≤ r) ps → All (λ r. a ≤ r) ps
at_most_trans a b [] h l = tt
at_most_trans a b (p ∷ ps) h l = (omega (arith, l.0), at_most_trans a b ps h l.1)

Ascending-insert_sorted : (b : ℕ) (ps : List ℕ) → Ascending ps → Ascending (insert_sorted b ps)
unfolding insert_sorted
Ascending-insert_sorted b [] h = (tt, tt)
Ascending-insert_sorted b (p ∷ ps) h = elim (Bool-cases (leb b p)) [
  | inl le ↦ let first = leb→le b p le in rw le ((first, at_most_trans b p ps first h.0), h)
  | inr gt ↦ rw gt (
    All-insert_sorted (λ r. p ≤ r) b ps (ground (arith, gt)) h.0,
    Ascending-insert_sorted b ps h.1,
  )
]

pub Ascending-sort : (ps : List ℕ) → Ascending (sort ps)
unfolding sort
Ascending-sort [] = tt
Ascending-sort (p ∷ ps) = Ascending-insert_sorted p (sort ps) (Ascending-sort ps)

seen-insert_sorted_here : (b : ℕ) (ps : List ℕ) → seen b (insert_sorted b ps) ≡ true
unfolding seen insert_sorted
seen-insert_sorted_here b [] = ground arith
seen-insert_sorted_here b (p ∷ ps) = ground (arith, seen-insert_sorted_here b ps)

seen-insert_sorted : (q b : ℕ) (ps : List ℕ) → seen q ps ≡ true → seen q (insert_sorted b ps) ≡ true
unfolding seen insert_sorted
seen-insert_sorted q b [] h = ground (arith, h)
seen-insert_sorted q b (p ∷ ps) h = ground (arith, h, seen-insert_sorted q b ps)

pub seen-sort : (q : ℕ) (ps : List ℕ) → seen q ps ≡ true → seen q (sort ps) ≡ true
unfolding sort seen
seen-sort q [] h = h
seen-sort q (p ∷ ps) h = elim (Bool-cases (p == q)) [
  | inl here ↦ let e : p ≡ q = (==_iff p q).0 here in rw e (seen-insert_sorted_here q (sort ps))
  | inr later ↦ seen-insert_sorted q p (sort ps) (seen-sort q ps (rw later at h))
]

seen-append_left : (q b : ℕ) (ps : List ℕ) → seen q ps ≡ true → seen q (ps ++ b ∷ []) ≡ true
unfolding seen
seen-append_left q b [] h = ground (arith, h)
seen-append_left q b (p ∷ ps) h = ground (arith, h, seen-append_left q b ps)

seen-append_end : (b : ℕ) (ps : List ℕ) → seen b (ps ++ b ∷ []) ≡ true
unfolding seen
seen-append_end b [] = ground arith
seen-append_end b (p ∷ ps) = ground (arith, seen-append_end b ps)

seen-important :
    (q : ℕ) (keys imp : List ℕ) → seen q imp ≡ true → seen q (important keys imp) ≡ true
unfolding important
seen-important q [] imp h = h
seen-important q (x ∷ []) imp h = h
seen-important q (x ∷ y ∷ keys) imp h = elim (Bool-cases (seen (highest_diff_bit x y) imp)) [
  | inl old ↦ rw old (seen-important q (y ∷ keys) imp h)
  | inr new ↦
      let b = highest_diff_bit x y in
      rw new (seen-important q (y ∷ keys) (imp ++ b ∷ []) (seen-append_left q b imp h))
]

-- The bit at which neighbours differ was appended, or was there already.
important_neighbours :
    (keys imp : List ℕ) (i : ℕ)
    → suc i < length keys
    → seen (highest_diff_bit (keys ! i) (keys ! suc i)) (important keys imp) ≡ true
unfolding important
important_neighbours [] imp i h = absurd (omega arith)
important_neighbours (x ∷ []) imp i h = absurd (omega arith)
important_neighbours (x ∷ y ∷ keys) imp zero h =
    let b = highest_diff_bit x y in
    elim (Bool-cases (seen b imp)) [
      | inl old ↦ rw old (seen-important b (y ∷ keys) imp old)
      | inr new ↦ rw new (seen-important b (y ∷ keys) (imp ++ b ∷ []) (seen-append_end b imp))
    ]
important_neighbours (x ∷ y ∷ keys) imp (suc i) h =
    important_neighbours (y ∷ keys)
      (if seen (highest_diff_bit x y) imp then imp else imp ++ highest_diff_bit x y ∷ []) i
      (omega arith)

module _ (keys : List ℕ) (sorted : IsKeys keys) (distinct : IsDistinct keys) where
  key-Top :
      (i j : ℕ)
      → i < j
      → j < length keys
      → Top (keys ! i) (keys ! j) (highest_diff_bit (keys ! i) (keys ! j))
  key-Top i j h l =
      let lt = distinct i j h l in
      highest_diff_bit-Top (keys ! i) (keys ! j) (sorted.words i (omega arith)) (sorted.words j l)
        (λ e. absurd (omega (arith, e, lt)))

  -- Any two keys first differ at an important bit.
  pub important-Top :
      (i d p : ℕ)
      → i + suc d < length keys
      → Top (keys ! i) (keys ! (i + suc d)) p
      → seen p (important keys []) ≡ true
  important-Top i zero p h t =
      let e : i + 1 ≡ suc i = omega arith in
      let same =
        Top-unique (keys ! i) (keys ! suc i) p _ (rw e at t)
          (key-Top i (suc i) (omega arith) (omega arith)) in
      rw same (important_neighbours keys [] i (omega arith))
  important-Top i (suc d) p h t =
      let z : i + suc (suc d) ≡ suc (i + suc d) = omega arith in
      let m = i + suc d in
      let first = key-Top i m (omega arith) (omega arith) in
      let last = key-Top m (suc m) (omega arith) (omega arith) in
      elim (Top_between (keys ! i) (keys ! m) (keys ! suc m) _ _
        (distinct i m (omega arith) (omega arith)) (distinct m (suc m) (omega arith) (omega arith))
        first last) [
          | inl u ↦
              let same = Top-unique (keys ! i) (keys ! suc m) p _ (rw z at t) u in
              rw same (important-Top i d _ (omega arith) first)
          | inr u ↦
              let same = Top-unique (keys ! i) (keys ! suc m) p _ (rw z at t) u in
              rw same (important_neighbours keys [] m (omega arith))
        ]
