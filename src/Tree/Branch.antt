-- ===== src/Tree/Branch.antt =====
-- The descent through an inner node: the rank picks the child whose range holds the position.
use native.Mathlib.Decide.{dec_le}
use fusion_tree_benchmark.Prelude.{
  ℕ, zero, suc, ◌+◌, ◌-◌, ◌≤◌, ◌<◌, ◌≡◌, refl, ap, ◌∙◌, true, false, List, [], ◌∷◌, ◌++◌, map,
  Option, none, some, length, ◌!◌, ltb, ltb→le, lt→ltb, le→ltb, if◌then◌else◌, ok, ◌>>=◌, load,
  Bool-cases, inl, inr, arith, length-map, get_or-map, get_or-append_left, get_or-append_right,
}
use fusion_tree_benchmark.Word.{word}
use fusion_tree_benchmark.Spec.{IsKeys, IsDistinct, Splits, rank, rank-Splits}
use fusion_tree_benchmark.Search.LastMile.{Window}
use fusion_tree_benchmark.Tree.{NodeType, Node, descend}
use fusion_tree_benchmark.Tree.Descend.{NodeLaws, within, Answers}

-- Child `r` holds the keys between the separators `r - 1` and `r`.
abbrev pub part_start : ℕ → List ℕ → ℕ → ℕ
part_start lo seps zero = lo
part_start lo seps (suc r) = suc (seps ! r)

abbrev pub part_end : List ℕ → ℕ → ℕ → ℕ
part_end seps hi r = (seps ++ hi ∷ []) ! r

-- Increasing positions inside `[lo, hi)`.
pub record Cuts (lo hi : ℕ) (seps : List ℕ) : Type 0 where
  pub inside : (i : ℕ) → i < length seps → (lo ≤ seps ! i) × (seps ! i < hi)
  pub rising : (i j : ℕ) → i < j → j < length seps → seps ! i < seps ! j

part_end-inner : (seps : List ℕ) (hi r : ℕ) → r < length seps → part_end seps hi r ≡ seps ! r
part_end-inner seps hi r h = get_or-append_left seps (hi ∷ []) r 0 h

pub part_end-last : (seps : List ℕ) (hi : ℕ) → part_end seps hi (length seps) ≡ hi
part_end-last seps hi = get_or-append_right seps (hi ∷ []) 0 (length seps) 0 (omega arith)

module _ (a seps : List ℕ) (q lo hi lb : ℕ) (keys : IsKeys a) (distinct : IsDistinct a)
    (upto : hi ≤ length a) (cuts : Cuts lo hi seps) (w : Window a q lo hi lb) where
  abbrev picked : List ℕ
  picked = map (λ p. a ! p) seps

  picked-key : (i : ℕ) → i < length seps → picked ! i ≡ a ! (seps ! i)
  picked-key i h = get_or-map (λ p. a ! p) seps i 0 0 h

  pub picked-IsDistinct : IsDistinct picked
  picked-IsDistinct i j p r =
      let size = length-map (λ (p : ℕ). a ! p) seps in
      rw (picked-key i (omega (arith, size)), picked-key j (omega (arith, size)))
        (distinct (seps ! i) (seps ! j) (cuts.rising i j p (omega (arith, size)))
          (omega (arith, (cuts.inside j (omega (arith, size))).1)))

  pub picked-IsKeys : IsKeys picked
  picked-IsKeys = record {
    sorted = λ i j p r. elim (dec_le j i) [
      | yes same ↦ (let e : i ≡ j = omega arith in rw e (omega arith))
      | no less ↦ (let lt = picked-IsDistinct i j (omega arith) r in omega (arith, lt))
    ];
    words = λ i p.
        let size = length-map (λ (p : ℕ). a ! p) seps in
        rw (picked-key i (omega (arith, size)))
          (keys.words (seps ! i) (omega (arith, (cuts.inside i (omega (arith, size))).1)));
  }

  -- The position lies behind every separator whose key is below the query, and not behind the others.
  past_separator : (i : ℕ) → i < length seps → a ! (seps ! i) < q → seps ! i < lb
  past_separator i h below = elim (dec_le lb (seps ! i)) [
    | yes early ↦ absurd (omega (arith, w.above (seps ! i) early (cuts.inside i h).1))
    | no late ↦ omega arith
  ]

  before_separator : (i : ℕ) → i < length seps → q ≤ a ! (seps ! i) → lb ≤ seps ! i
  before_separator i h above = elim (dec_le lb (seps ! i)) [
    | yes early ↦ early
    | no late ↦ absurd (omega (arith, w.below (seps ! i) (cuts.inside i h).0 (omega arith)))
  ]

  part-start-le : (r : ℕ) → Splits picked q r → part_start lo seps r ≤ lb
  part-start-le zero s = w.from
  part-start-le (suc r) s =
      let size = length-map (λ (p : ℕ). a ! p) seps in
      let inside : r < length seps = omega (arith, size, s.inside) in
      past_separator r inside (rw (picked-key r inside) at (s.below r (omega arith)))

  part-end-ge : (r : ℕ) → Splits picked q r → lb ≤ part_end seps hi r
  part-end-ge r s =
      let size = length-map (λ (p : ℕ). a ! p) seps in
      elim (dec_le (length seps) r) [
        | yes last ↦
            let e : r ≡ length seps = omega (arith, s.inside, size) in
            rw (e, part_end-last seps hi) w.upto
        | no inner ↦
            let inside : r < length seps = omega arith in
            rw (part_end-inner seps hi r inside) (
              before_separator r inside
                (rw (picked-key r inside) at (s.above r (omega arith) (omega (arith, size)))))
      ]

  part-start-ge : (r : ℕ) → r ≤ length seps → lo ≤ part_start lo seps r
  part-start-ge zero h = omega arith
  part-start-ge (suc r) h = omega (arith, (cuts.inside r (omega arith)).0)

  part-end-le : (r : ℕ) → r ≤ length seps → part_end seps hi r ≤ hi
  part-end-le r h = elim (dec_le (length seps) r) [
    | yes last ↦
        let e : r ≡ length seps = omega arith in
        let last_end = part_end-last seps hi in rw e (omega (arith, last_end))
    | no inner ↦
        omega (arith, part_end-inner seps hi r (omega arith), (cuts.inside r (omega arith)).1)
  ]

  pub part-Window :
      (r : ℕ) → Splits picked q r → Window a q (part_start lo seps r) (part_end seps hi r) lb
  part-Window r s =
      let size = length-map (λ (p : ℕ). a ! p) seps in
      let few : r ≤ length seps = omega (arith, s.inside, size) in
      record {
        from = part-start-le r s;
        upto = part-end-ge r s;
        below = λ i g h. w.below i (omega (arith, part-start-ge r few)) h;
        above = λ i g h. w.above i g (omega (arith, part-end-le r few));
      }

  -- The separator in front of the child's range is the answer if the child has none.
  pub within-part :
      (r : ℕ) (out : Option ℕ)
      → Splits picked q r
      → within a (part_start lo seps r) lb (if ltb 0 r then some (picked ! (r - 1)) else out)
        ≡ within a lo lb out
  within-part zero out s = refl
  within-part (suc r) out s =
      let size = length-map (λ (p : ℕ). a ! p) seps in
      let inside : r < length seps = omega (arith, size, s.inside) in
      let past = part-start-le (suc r) s in
      let first = (cuts.inside r inside).0 in
      let any : ltb lo lb ≡ true = lt→ltb lo lb (omega arith) in
      let pos : ltb 0 (suc r) ≡ true = lt→ltb 0 (suc r) (omega arith) in
      let e : suc r - 1 ≡ r = omega arith in
      rw (any, pos, e, picked-key r inside)
        (elim (Bool-cases (ltb (suc (seps ! r)) lb)) [
          | inl more ↦ rw more refl
          | inr none_left ↦
              let low = ltb→le (suc (seps ! r)) lb none_left in
              let at : seps ! r ≡ lb - 1 = omega arith in rw (none_left, at) refl
        ])

module _ {N : Type 0} (node : NodeType N) (arity : ℕ) (laws : NodeLaws node arity) (a : List ℕ)
    (keys : IsKeys a) (distinct : IsDistinct a) where
  -- A child that stands behind `base`, or none for an empty range.
  abbrev pub ChildAnswers : List (Node N) → ℕ → Option ℕ → ℕ → ℕ → Type 0
  ChildAnswers nodes base none lo hi = hi ≤ lo
  ChildAnswers nodes base (some idx) lo hi =
      (base ≤ idx) × Answers node arity laws a keys distinct nodes idx lo hi

  child-descend :
      (nodes : List (Node N)) (base : ℕ) (c : Option ℕ) (lo hi q lb fuel : ℕ) (out : Option ℕ)
      → ChildAnswers nodes base c lo hi
      → q < word
      → Window a q lo hi lb
      → length nodes < fuel + base
      → descend node fuel nodes q c out ≡ ok (within a lo lb out)
  unfolding descend
  child-descend nodes base none lo hi q lb fuel out h query w enough =
      let low : ltb lo lb ≡ false = le→ltb lo lb (omega (arith, w.upto)) in rw low refl
  child-descend nodes base (some idx) lo hi q lb fuel out h query w enough =
      h.1 q lb fuel out query w (omega (arith, h.0))

  read-key :
      (xs : List ℕ) (r : ℕ) (out : Option ℕ)
      → length xs ≤ arity
      → r ≤ length xs
      → (if ltb 0 r then (do k ← node.key (node.make xs) (r - 1); ok (some k)) else ok out)
        ≡ ok (if ltb 0 r then some (xs ! (r - 1)) else out)
  read-key xs zero out few h = refl
  read-key xs (suc r) out few h =
      let pos : ltb 0 (suc r) ≡ true = lt→ltb 0 (suc r) (omega arith) in
      rw (pos, laws.key_ok xs (suc r - 1) few (omega arith)) refl

  pub branch-Answers :
      (nodes : List (Node N)) (idx lo hi : ℕ) (seps : List ℕ) (kids : List (Option ℕ))
      → load nodes idx
        ≡ ok (record { fn = node.make (map (λ p. a ! p) seps); child = kids; leaf = false })
      → idx < length nodes
      → hi ≤ length a
      → Cuts lo hi seps
      → 0 < length seps
      → length seps ≤ arity
      → ((r : ℕ)
          → r ≤ length seps
          → (c : Option ℕ) × (load kids r ≡ ok c)
            × ChildAnswers nodes (suc idx) c (part_start lo seps r) (part_end seps hi r))
      → Answers node arity laws a keys distinct nodes idx lo hi
  unfolding descend
  branch-Answers nodes idx lo hi seps kids here inside upto cuts some_sep few child q lb zero out
        query w enough =
      absurd (omega arith)
  branch-Answers nodes idx lo hi seps kids here inside upto cuts some_sep few child q lb (suc fuel)
        out query w enough =
      let xs = map (λ p. a ! p) seps in
      let size : length xs ≡ length seps = length-map (λ (p : ℕ). a ! p) seps in
      let xs_keys = picked-IsKeys a seps q lo hi lb keys distinct upto cuts w in
      let xs_distinct = picked-IsDistinct a seps q lo hi lb keys distinct upto cuts w in
      let r = rank xs q in
      let s = rank-Splits xs q xs_keys in
      let rank_ok =
        laws.rank_ok xs q xs_keys xs_distinct (omega (arith, size)) (omega (arith, size)) query in
      let (c, loaded, answers) = child r (omega (arith, s.inside, size)) in
      let part = part-Window a seps q lo hi lb keys distinct upto cuts w r s in
      rw (here, rank_ok, read-key xs r out (omega (arith, size)) s.inside, loaded)
        (child-descend nodes (suc idx) c (part_start lo seps r) (part_end seps hi r) q lb fuel
            (if ltb 0 r then some (xs ! (r - 1)) else out) answers query part (omega arith)
          ∙ ap ok (within-part a seps q lo hi lb keys distinct upto cuts w r out s))
