-- ===== src/Tree/Build.antt =====
-- The construction puts each range's nodes behind those that stand already, and leaves those alone.
use native.Mathlib.Decide.{dec_le}
use native.Mathlib.Nat.{mul-le-mul_right}
use fusion_tree_benchmark.Prelude.{
  ℕ, zero, suc, ◌+◌, ◌-◌, ◌*◌, ◌^◌, ◌≤◌, ◌<◌, ◌≡◌, refl, ap, ◌∙◌, true, false, List, [], ◌∷◌, ◌++◌,
  map, Option, none, some, length, slice, put, ◌!◌, leb, ltb, ltb→lt, lt→ltb, ltb→le, leb→le,
  if◌then◌else◌, Run, ok, ◌>>=◌, load, Returns, returns, Bool-cases, inl, inr, arith, length-append,
  length-put, get_or-append_left, load-put_same, load-put_other, load-append_left, load-append_end,
}
use fusion_tree_benchmark.Word.{word}
use fusion_tree_benchmark.Spec.{IsKeys, IsDistinct}
use fusion_tree_benchmark.Tree.{NodeType, Node, to_index, build_kids, build_range, separators}
use fusion_tree_benchmark.Tree.Descend.{NodeLaws, Answers, leaf-Answers}
use fusion_tree_benchmark.Tree.Branch.{
  part_start, part_end, part_end-last, Cuts, ChildAnswers, branch-Answers,
}
use fusion_tree_benchmark.Tree.Separators.{length-separators, separators-Cuts}

to_index-ok : (n : ℕ) → n < 2 ^ 31 → to_index n ≡ ok n
unfolding to_index
to_index-ok n h = rw (lt→ltb n (2 ^ 31) h) refl

-- `last` is `nodes` with more nodes behind.
pub record Keeps {N : Type 0} (nodes last : List (Node N)) : Type 0 where
  pub grows : length nodes ≤ length last
  pub same : (i : ℕ) → i < length nodes → load last i ≡ load nodes i

Keeps-refl : {N : Type 0} (nodes : List (Node N)) → Keeps nodes nodes
Keeps-refl nodes = record { grows = omega arith; same = λ i h. refl }

Keeps-trans : {N : Type 0} (a b c : List (Node N)) → Keeps a b → Keeps b c → Keeps a c
Keeps-trans a b c p q = record {
  grows = omega (arith, p.grows, q.grows);
  same = λ i h. q.same i (omega (arith, p.grows)) ∙ p.same i h;
}

-- `final` has the nodes `[base, length last)` of `last`.
pub record Agrees {N : Type 0} (base : ℕ) (last final : List (Node N)) : Type 0 where
  pub reaches : length last ≤ length final
  pub same : (i : ℕ) → base ≤ i → i < length last → load final i ≡ load last i

-- Where range `r` of those that end at `ends` starts.
abbrev kid_start : ℕ → List ℕ → ℕ → ℕ
kid_start start ends zero = start
kid_start start ends (suc r) = suc (ends ! r)

kid_start-tail :
    (start end : ℕ) (ends : List ℕ) (r : ℕ)
    → kid_start (suc end) ends r ≡ kid_start start (end ∷ ends) (suc r)
kid_start-tail start end ends zero = refl
kid_start-tail start end ends (suc r) = refl

module _ {N : Type 0} (node : NodeType N) (arity : ℕ) (laws : NodeLaws node arity) (a : List ℕ)
    (keys : IsKeys a) (distinct : IsDistinct a) where
  -- A range was built: its root is the first new node, and it answers in every later vector.
  pub record Built (lo hi : ℕ) (nodes : List (Node N)) (built : ℕ × List (Node N)) : Type 0 where
    pub self : built.0 ≡ length nodes
    pub more : length nodes < length built.1
    pub few : length built.1 ≤ length nodes + (hi - lo)
    pub keeps : Keeps nodes built.1
    pub answers :
        (final : List (Node N))
        → Agrees (length nodes) built.1 final
        → Answers node arity laws a keys distinct final built.0 lo hi

  -- How many keys the ranges have.
  abbrev total : ℕ → List ℕ → ℕ
  total start [] = 0
  total start (end ∷ ends) = (end - start) + total (suc end) ends

  -- The children of the ranges `ends` from `start` on were built.
  record BuiltKids (start : ℕ) (ends : List ℕ) (nodes : List (Node N))
      (built : List (Option ℕ) × List (Node N)) : Type 0 where
    keeps : Keeps nodes built.1
    few : length built.1 ≤ length nodes + total start ends
    child :
        (final : List (Node N))
        → Agrees (length nodes) built.1 final
        → (r : ℕ) → r < length ends
        → (c : Option ℕ) × (load built.0 r ≡ ok c)
          × ChildAnswers node arity laws a keys distinct final
              (length nodes)
              c
              (kid_start start ends r)
              (ends ! r)

  ChildAnswers-le :
      (final : List (Node N)) (base low : ℕ) (c : Option ℕ) (lo hi : ℕ)
      → low ≤ base
      → ChildAnswers node arity laws a keys distinct final base c lo hi
      → ChildAnswers node arity laws a keys distinct final low c lo hi
  ChildAnswers-le final base low none lo hi h answers = answers
  ChildAnswers-le final base low (some idx) lo hi h answers = (omega (arith, answers.0), answers.1)

  module _ (start end : ℕ) (ends : List ℕ) (nodes grown last : List (Node N)) (kid : Option ℕ)
      (kids : List (Option ℕ)) (k : Keeps nodes grown)
      (answers : (final : List (Node N))
        → Agrees (length nodes) grown final
        → ChildAnswers node arity laws a keys distinct final (length nodes) kid start end)
      (b : BuiltKids (suc end) ends grown (kids, last)) where
    cons_child :
        (final : List (Node N))
        → Agrees (length nodes) last final
        → (r : ℕ) → r < suc (length ends)
        → (c : Option ℕ) × (load (kid ∷ kids) r ≡ ok c)
          × ChildAnswers node arity laws a keys distinct final
              (length nodes)
              c
              (kid_start start (end ∷ ends) r)
              ((end ∷ ends) ! r)
    unfolding load
    cons_child final same zero h = (
      kid,
      refl,
      answers final (record {
        reaches = omega (arith, same.reaches, b.keeps.grows);
        same = λ i g l. same.same i g (omega (arith, b.keeps.grows)) ∙ b.keeps.same i l;
      }),
    )
    cons_child final same (suc r) h =
        let (c, loaded, found) =
          b.child final
            (record {
              reaches = same.reaches;
              same = λ i g l. same.same i (omega (arith, k.grows)) l;
            })
            r (omega arith) in
        let near =
          ChildAnswers-le final (length grown) (length nodes) c (kid_start (suc end) ends r)
            (ends ! r) k.grows found in
        (c, loaded, rw (kid_start-tail start end ends r) at near)

    BuiltKids-cons :
        length grown ≤ length nodes + (end - start)
        → BuiltKids start (end ∷ ends) nodes (kid ∷ kids, last)
    BuiltKids-cons h = record {
      keeps = Keeps-trans nodes grown last k b.keeps;
      few = omega (arith, h, b.few);
      child = cons_child;
    }

  module _ (build : ℕ → ℕ → List (Node N) → Run (ℕ × List (Node N))) (fuel : ℕ)
      (builds : (lo hi : ℕ) (nodes : List (Node N))
        → lo < hi
        → hi ≤ length a
        → hi - lo ≤ fuel
        → length nodes + (hi - lo) ≤ 2 ^ 31
        → Returns (Built lo hi nodes) (build lo hi nodes)) where
    -- One child, or none for an empty range.
    kid-Built :
        (start end : ℕ) (nodes : List (Node N))
        → end ≤ length a
        → end - start ≤ fuel
        → length nodes + (end - start) ≤ 2 ^ 31
        → Returns
            (λ (built : Option ℕ × List (Node N)).
              Keeps nodes built.1
              × (length built.1 ≤ length nodes + (end - start))
              × ((final : List (Node N))
                  → Agrees (length nodes) built.1 final
                  → ChildAnswers node arity laws a keys distinct final
                      (length nodes)
                      built.0
                      start
                      end))
            (if ltb start end
              then (do (idx, grown) ← build start end nodes; ok (some idx, grown))
              else ok (none, nodes))
    kid-Built start end nodes upto small room = elim (Bool-cases (ltb start end)) [
      | inr empty ↦
          rw empty (returns (Keeps-refl nodes, omega arith, λ final same. ltb→le start end empty))
      | inl full ↦
          let (built, run, b) = builds start end nodes (ltb→lt start end full) upto small room in
          rw (full, run)
            (returns (b.keeps, b.few, λ final same. (omega (arith, b.self), b.answers final same)))
    ]

    build_kids-Built :
        (ends : List ℕ) (start : ℕ) (nodes : List (Node N))
        → ((r : ℕ)
            → r < length ends
            → (ends ! r ≤ length a) × (ends ! r - kid_start start ends r ≤ fuel))
        → length nodes + total start ends ≤ 2 ^ 31
        → Returns (BuiltKids start ends nodes) (build_kids build ends start nodes)
    unfolding build_kids
    build_kids-Built [] start nodes fits room = returns (record {
      keeps = Keeps-refl nodes;
      few = omega arith;
      child = λ final same r h. absurd (omega arith);
    })
    build_kids-Built (end ∷ ends) start nodes fits room =
        let (upto, small) = fits 0 (omega arith) in
        let ((kid, grown), run, (keeps, count, answers)) =
          kid-Built start end nodes upto small (omega arith) in
        let ((kids, last), runs, b) =
          build_kids-Built ends (suc end) grown
            (λ r h. rw (kid_start-tail start end ends r) (fits (suc r) (omega arith)))
            (omega (arith, count)) in
        rw (run, runs)
          (returns (BuiltKids-cons start end ends nodes grown last kid kids keeps answers b count))

  part_start-bounds :
      (lo hi : ℕ) (seps : List ℕ) (r : ℕ)
      → Cuts lo hi seps
      → r ≤ length seps
      → (kid_start lo (seps ++ hi ∷ []) r ≡ part_start lo seps r) × (lo ≤ part_start lo seps r)
  part_start-bounds lo hi seps zero cuts h = (refl, omega arith)
  part_start-bounds lo hi seps (suc r) cuts h =
      (ap suc (get_or-append_left seps (hi ∷ []) r 0 h), omega (arith, (cuts.inside r h).0))

  last_start :
      (lo hi : ℕ) (seps : List ℕ) (r : ℕ)
      → Cuts lo hi seps
      → r ≤ length seps
      → 0 < r
      → hi - part_start lo seps r < hi - lo
  last_start lo hi seps zero cuts h pos = absurd (omega arith)
  last_start lo hi seps (suc r) cuts h pos = omega (arith, (cuts.inside r h).0, (cuts.inside r h).1)

  -- The range of a child lies inside the parent's, and is smaller.
  child_range :
      (lo hi : ℕ) (seps : List ℕ) (r : ℕ)
      → Cuts lo hi seps
      → 0 < length seps
      → r < length (seps ++ hi ∷ [])
      → ((seps ++ hi ∷ []) ! r ≤ hi)
        × ((seps ++ hi ∷ []) ! r - kid_start lo (seps ++ hi ∷ []) r < hi - lo)
  child_range lo hi seps r cuts some_sep h =
      let size = length-append seps (hi ∷ []) in
      elim (dec_le (length seps) r) [
        | no inner ↦
            let inside = cuts.inside r (omega arith) in
            let (_, low) = part_start-bounds lo hi seps r cuts (omega arith) in
            let (same_start, _) = part_start-bounds lo hi seps r cuts (omega arith) in
            rw (get_or-append_left seps (hi ∷ []) r 0 (omega arith), same_start)
              (omega (arith, inside.1), omega (arith, inside.0, inside.1, low))
        | yes at_end ↦
            let e : r ≡ length seps = omega (arith, size) in
            rw e (
              (let (same_start, low) =
                  part_start-bounds lo hi seps (length seps) cuts (omega arith) in
                rw (part_end-last seps hi, same_start)
                  (omega arith, last_start lo hi seps (length seps) cuts (omega arith) some_sep)))
      ]

  -- The children's ranges lack the separators.
  total-lt :
      (start hi : ℕ) (seps : List ℕ)
      → ((i : ℕ) → i < length seps → (start ≤ seps ! i) × (seps ! i < hi))
      → ((i j : ℕ) → i < j → j < length seps → seps ! i < seps ! j)
      → start ≤ hi
      → total start (seps ++ hi ∷ []) + length seps ≤ hi - start
  total-lt start hi [] inside rising h = omega arith
  total-lt start hi (sep ∷ seps) inside rising h =
      let first = inside 0 (omega arith) in
      let rest =
        total-lt (suc sep) hi seps
          (λ i l. (rising 0 (suc i) (omega arith) (omega arith), (inside (suc i) (omega arith)).1))
          (λ i j l m. rising (suc i) (suc j) (omega arith) (omega arith))
          (omega (arith, first.1)) in
      omega (arith, first.0, first.1, rest)

  -- The node is written over at the end, which its children do not notice.
  branch-Built :
      (lo hi : ℕ) (nodes : List (Node N)) (seps : List ℕ) (kids : List (Option ℕ))
      (grown : List (Node N))
      → lo < hi
      → hi ≤ length a
      → Cuts lo hi seps
      → 0 < length seps
      → length seps ≤ arity
      → BuiltKids lo
          (seps ++ hi ∷ [])
          (nodes
            ++ record { fn = node.make (map (λ p. a ! p) seps); child = []; leaf = false } ∷ [])
          (kids, grown)
      → length grown ≤ length nodes + (hi - lo)
      → Built lo hi nodes (
        length nodes,
        put grown
            (length nodes)
            (record { fn = node.make (map (λ p. a ! p) seps); child = kids; leaf = false }),
      )
  branch-Built lo hi nodes seps kids grown full upto cuts some_sep few b count =
      let node0 : List (Option ℕ) → Node N =
        λ cs. record { fn = node.make (map (λ p. a ! p) seps); child = cs; leaf = false } in
      let size : length (nodes ++ node0 [] ∷ []) ≡ length nodes + 1 =
        length-append nodes (node0 [] ∷ []) in
      let kept = length-put grown (length nodes) (node0 kids) in
      let inside : length nodes < length grown = omega (arith, size, b.keeps.grows) in
      record {
        self = refl;
        more = omega (arith, kept);
        few = omega (arith, kept, count);
        keeps = record {
          grows = omega (arith, kept);
          same = λ i h.
              load-put_other grown (length nodes) i (node0 kids) (λ e. absurd (omega (arith, e)))
              ∙ b.keeps.same i (omega (arith, size))
              ∙ load-append_left nodes (node0 [] ∷ []) i h;
        };
        answers = λ final same.
            branch-Answers node arity laws a keys distinct final (length nodes) lo hi seps kids
              (same.same (length nodes) (omega arith) (omega (arith, kept))
                ∙ load-put_same grown (length nodes) (node0 kids) inside)
              (omega (arith, kept, same.reaches)) upto cuts some_sep few
              (λ r h.
                let (c, loaded, found) =
                  b.child final
                    (record {
                      reaches = omega (arith, kept, same.reaches);
                      same = λ i g l.
                          same.same i (omega (arith, size)) (omega (arith, kept))
                          ∙ load-put_other grown (length nodes) i (node0 kids)
                              (λ e. absurd (omega (arith, e, size)));
                    })
                    r (omega (arith, length-append seps (hi ∷ []))) in
                let (same_start, low) = part_start-bounds lo hi seps r cuts h in
                (
                  c,
                  loaded,
                  ChildAnswers-le final (length (nodes ++ node0 [] ∷ [])) (suc (length nodes)) c
                      (part_start lo seps r) (part_end seps hi r) (omega (arith, size))
                      (rw same_start at found),
                ));
      }

  range_room : (n m lo hi : ℕ) → hi ≤ n → n * (m + 1) < word → (hi - lo) * (m + 1) < word
  range_room n m lo hi h room =
      let le : (hi - lo) * (m + 1) ≤ n * (m + 1) = mul-le-mul_right (m + 1) (omega arith) in
      omega (arith, le)

  leb→gt : (x y : ℕ) → leb x y ≡ false → y < x
  leb→gt x y h = ground arith

  pub build_range-Built :
      (fuel lo hi : ℕ) (nodes : List (Node N))
      → 0 < arity
      → length a * (arity + 1) < word
      → lo < hi
      → hi ≤ length a
      → hi - lo ≤ fuel
      → length nodes + (hi - lo) ≤ 2 ^ 31
      → Returns (Built lo hi nodes) (build_range node arity a fuel lo hi nodes)
  unfolding build_range
  build_range-Built zero lo hi nodes pos room full upto small ints = absurd (omega arith)
  build_range-Built (suc fuel) lo hi nodes pos room full upto small ints =
      rw (to_index-ok (length nodes) (omega arith)) (elim (Bool-cases (leb (hi - lo) arity)) [
        | inl fits ↦
            let first : Node N = record {
              fn = node.make (slice a lo hi);
              child = [];
              leaf = true;
            } in
            let size = length-append nodes (first ∷ []) in
            rw fits (
              returns (record {
                self = refl;
                more = omega (arith, size);
                few = omega (arith, size);
                keeps = record {
                  grows = omega (arith, size);
                  same = λ i h. load-append_left nodes (first ∷ []) i h;
                };
                answers = λ final same.
                    leaf-Answers node arity laws a keys distinct final (length nodes) lo hi
                      (same.same (length nodes) (omega arith) (omega (arith, size))
                        ∙ load-append_end nodes first)
                      (omega (arith, size, same.reaches)) full upto (leb→le _ _ fits);
              }))
        | inr many ↦
            let seps = separators arity lo hi arity 1 in
            let inner : List (Option ℕ) → Node N = λ kids. record {
              fn = node.make (map (λ p. a ! p) seps);
              child = kids;
              leaf = false;
            } in
            let begun = nodes ++ inner [] ∷ [] in
            let size : length begun ≡ length nodes + 1 = length-append nodes (inner [] ∷ []) in
            let large : arity < hi - lo = leb→gt _ _ many in
            let cuts : Cuts lo hi seps =
              separators-Cuts arity lo hi large (range_room (length a) arity lo hi upto room) in
            let count = length-separators arity lo hi arity 1 in
            let gaps = total-lt lo hi seps cuts.inside cuts.rising (omega arith) in
            let ((kids, grown), run, b) =
              build_kids-Built (build_range node arity a fuel) fuel
                (λ l h ns f u t v. build_range-Built fuel l h ns pos room f u t v) (seps ++ hi ∷ [])
                lo begun
                (λ r h.
                  let (inside, smaller) = child_range lo hi seps r cuts (omega (arith, count)) h in
                  (omega (arith, inside), omega (arith, smaller)))
                (omega (arith, size, gaps)) in
            rw (many, run)
              (returns (
                branch-Built lo hi nodes seps kids grown full upto cuts (omega (arith, count))
                  (omega (arith, count)) b (omega (arith, b.few, size, gaps, count))))
      ])
