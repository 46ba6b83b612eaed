-- ===== src/FusionNode/Correct.antt =====
-- The rank of a fusion node counts its keys below the query.
use Prim.Native.Nat.{bit_and}
use native.Mathlib.Decide.{dec_le, dec_lt}
use mathlib.Core.Path.{fun_ext}
use fusion_tree_benchmark.Prelude.{
  ℕ, zero, suc, ◌-◌, ◌/◌, ◌%◌, ◌^◌, ◌≤◌, ◌<◌, ◌≡◌, refl, ap, ◌∙◌, ◌≢◌, ◌⊎◌, inl, inr, false,
  Bool-cases, List, [], ◌∷◌, length, map, ◌!◌, none, some, ◌==◌, ==_iff, eq_pos, suc-eq_zero, ◌>>=◌,
  if◌then◌else◌, ok, Returns, returns, load, load-ok, arith,
}
use fusion_tree_benchmark.Word.{word, shr}
use fusion_tree_benchmark.Spec
use fusion_tree_benchmark.Spec.{
  IsKeys, IsDistinct, IsPredecessor, Splits, Splits-unique, rank-Splits, before,
  before-IsPredecessor,
}
use fusion_tree_benchmark.FusionNode.{
  build, sketch, sketch_with, sketch_rank_le, sketch_rank_lt, important, sort,
}
use fusion_tree_benchmark.FusionNode.Sketch.{important-bound, extract_bits_naive-lt, bit_and-one}
use fusion_tree_benchmark.FusionNode.Rank.{sketch_rank_le-rank, sketch_rank_lt-rank}
use fusion_tree_benchmark.FusionNode.Order.{digits_at, extract_bits_naive-digits_at}
use fusion_tree_benchmark.FusionNode.Edge.{high_edge, low_edge}
use fusion_tree_benchmark.FusionNode.Repair.{
  best, hit, candidates, repair, rank_of, rank, predecessor,
}
use fusion_tree_benchmark.FusionNode.Nearest.{hd, sketch_of, sketches}
use fusion_tree_benchmark.FusionNode.Candidates.{place, candidates_exact, candidates_near}
use fusion_tree_benchmark.FusionNode.Siblings.{high_siblings, low_siblings}

-- A function has a smallest value below a bound.
smallest : (f : ℕ → ℕ) (n : ℕ) → (j : ℕ) × (j < suc n) × ((k : ℕ) → k < suc n → f j ≤ f k)
smallest f zero = (0, omega arith, λ k h. (let e : k ≡ 0 = omega arith in rw e (omega arith)))
smallest f (suc n) =
    let (j, inside, least) = smallest f n in
    elim (dec_le (f j) (f (suc n))) [
      | yes old ↦ (
        j,
        omega arith,
        λ k h. elim (dec_lt k (suc n)) [
          | yes before ↦ least k before
          | no last ↦ (let e : k ≡ suc n = omega arith in rw e old)
        ],
      )
      | no new ↦ (
        suc n,
        omega arith,
        λ k h. elim (dec_lt k (suc n)) [
          | yes before ↦ omega (arith, least k before)
          | no last ↦ (let e : k ≡ suc n = omega arith in rw e (omega arith))
        ],
      )
    ]

-- A query is stored, or it is not.
stored_or_absent :
    (keys : List ℕ) (q : ℕ)
    → ((t : ℕ) × (t < length keys) × (keys ! t ≡ q)) ⊎ ((j : ℕ) → j < length keys → keys ! j ≢ q)
stored_or_absent [] q = inr (λ j h. absurd (omega arith))
stored_or_absent (x ∷ keys) q = elim (Bool-cases (x == q)) [
  | inl here ↦ inl (0, omega arith, (==_iff x q).0 here)
  | inr other ↦ elim (stored_or_absent keys q) [
    | inl found ↦ inl (suc found.0, omega (arith, found.1), found.2)
    | inr absent ↦ inr (λ j h. absent_cons x q keys other absent j h)
  ]
]
  where
    absent_cons :
        (y p : ℕ) (ys : List ℕ)
        → (y == p) ≡ false
        → ((j : ℕ) → j < length ys → ys ! j ≢ p)
        → (j : ℕ) → j < suc (length ys)
        → (y ∷ ys) ! j ≢ p
    absent_cons y p ys ne f zero h = λ e. absurd (ground (arith, e, ne))
    absent_cons y p ys ne f (suc j) h = f j (omega arith)

module _ (keys : List ℕ) (sorted : IsKeys keys) (distinct : IsDistinct keys) (few : length keys ≤ 8)
    (some_key : 0 < length keys) (q : ℕ) (query : q < word) where
  positions : List ℕ
  positions = sort (important keys [])

  short : length positions ≤ 7
  unfolding positions
  short = omega (arith, important-bound keys)

  sketch-value : (x : ℕ) → sketch false (build false keys) x ≡ digits_at x positions
  unfolding build sketch sketch_with positions
  sketch-value x = extract_bits_naive-digits_at x (sort (important keys [])) (omega (arith, short))

  sketch-lt : (x : ℕ) → sketch false (build false keys) x < 2 ^ (build false keys).r
  unfolding build sketch sketch_with positions
  sketch-lt x = extract_bits_naive-lt x (sort (important keys [])) (omega (arith, short))

  -- The comparisons count sketches, as numbers of digits.
  le-count :
      (x : ℕ)
      → sketch_rank_le (build false keys) (sketch false (build false keys) x)
        ≡ Spec.rank
            (sketches keys sorted distinct q query)
            (suc (sketch_of keys sorted distinct q query x))
  unfolding positions
  le-count x =
      sketch_rank_le-rank keys (sketch false (build false keys) x) few (sketch-lt x)
      ∙ ap (λ (f : ℕ → ℕ). Spec.rank (map f keys) (suc (f x))) (fun_ext sketch-value)

  lt-count :
      (x : ℕ)
      → sketch_rank_lt (build false keys) (sketch false (build false keys) x)
        ≡ Spec.rank
            (sketches keys sorted distinct q query)
            (sketch_of keys sorted distinct q query x)
  unfolding positions
  lt-count x =
      sketch_rank_lt-rank keys (sketch false (build false keys) x) few (sketch-lt x)
      ∙ ap (λ (f : ℕ → ℕ). Spec.rank (map f keys) (f x)) (fun_ext sketch-value)

  exact-rank : (t : ℕ) → t < length keys → keys ! t ≡ q → t ≡ Spec.rank keys q
  exact-rank t h e =
      Splits-unique keys q t (Spec.rank keys q)
        (record {
          inside = omega arith;
          below = λ i l. omega (arith, e, distinct i t l h);
          above = λ i g l. omega (arith, e, sorted.sorted t i g l);
        })
        (rank-Splits keys q sorted)

  repair-rank :
      (absent : (j : ℕ) → j < length keys → keys ! j ≢ q) (j : ℕ) (inside : j < length keys)
      (nearest : (k : ℕ)
        → k < length keys
        → hd keys sorted distinct q query j ≤ hd keys sorted distinct q query k)
      → repair false (build false keys) q (hd keys sorted distinct q query j) ≡ Spec.rank keys q
  unfolding repair shr
  repair-rank absent j inside nearest =
      let h = hd keys sorted distinct q query j in
      let bit = bit_and-one (q / 2 ^ h) in
      elim (Bool-cases (bit_and (q / 2 ^ h) 1 == 1)) [
        | inl one ↦
            let e = (==_iff _ _).0 one in
            rw (one, le-count (high_edge q h))
              (high_siblings keys sorted distinct q query absent j inside nearest
                (omega (arith, e, bit)))
        | inr zero_bit ↦
            let e : q / 2 ^ h % 2 ≡ 0 = ground (arith, zero_bit, bit) in
            rw (zero_bit, lt-count (low_edge q h))
              (low_siblings keys sorted distinct q query absent j inside nearest e)
      ]

  count-pos : ((build false keys).n == 0) ≡ false
  unfolding build
  count-pos = eq_pos (length keys) some_key

  stored-keys : (build false keys).keys ≡ keys
  unfolding build
  stored-keys = refl

  loop_exact :
      (t : ℕ)
      → t < length keys
      → keys ! t ≡ q
      → candidates (build false keys).keys q (place keys sorted distinct q query) ≡ hit t
  loop_exact t h e =
      ap (λ (ks : List ℕ). candidates ks q (place keys sorted distinct q query)) stored-keys
      ∙ candidates_exact keys sorted distinct q query t h e

  loop_near :
      (absent : (j : ℕ) → j < length keys → keys ! j ≢ q)
      → (c : ℕ) × (j : ℕ) × (candidates
            (build false keys).keys
            q
            (place keys sorted distinct q query)
          ≡ best (some c) (hd keys sorted distinct q query j))
        × (repair false (build false keys) q (hd keys sorted distinct q query j) ≡ Spec.rank keys q)
  loop_near absent =
      let e : suc (length keys - 1) ≡ length keys = omega arith in
      let (j, inside, least) = smallest (hd keys sorted distinct q query) (length keys - 1) in
      let inside' : j < length keys = omega arith in
      let nearest : (k : ℕ)
          → k < length keys
          → hd keys sorted distinct q query j ≤ hd keys sorted distinct q query k =
        λ k l. least k (omega arith) in
      let (c, found) =
        candidates_near keys sorted distinct q query absent j inside' nearest _ refl in
      (
        c,
        j,
        ap (λ (ks : List ℕ). candidates ks q (place keys sorted distinct q query)) stored-keys
            ∙ found,
        repair-rank absent j inside' nearest,
      )

  -- A node over one to eight sorted and distinct 64-bit keys, with the loop of positions in place of
  -- PEXT: for every 64-bit query the rank is the number of keys below it.
  pub rank-rank : rank false (build false keys) q ≡ Spec.rank keys q
  unfolding rank rank_of
  rank-rank =
      rw (count-pos, le-count q)
        (elim (stored_or_absent keys q) [
          | inl found ↦ rw (loop_exact found.0 found.1 found.2) (exact-rank found.0 found.1 found.2)
          | inr absent ↦ let (c, j, found, right) = loop_near absent in rw found right
        ])

  read_before :
      (r : ℕ)
      → Splits keys q r
      → Returns
          (IsPredecessor keys q)
          (if r == 0 then ok none else (do k ← load (build false keys).keys (r - 1); ok (some k)))
  read_before zero s = returns (before-IsPredecessor keys q 0 sorted s)
  read_before (suc r) s =
      let back : suc r - 1 ≡ r = omega arith in
      let read : load (build false keys).keys r ≡ ok (keys ! r) =
        ap (λ (ks : List ℕ). load ks r) stored-keys ∙ load-ok keys r 0 s.inside in
      rw (suc-eq_zero r, back, read) (returns (before-IsPredecessor keys q (suc r) sorted s))

  -- A node over one to eight sorted and distinct 64-bit keys, with the loop of positions in place of
  -- PEXT: for every 64-bit query predecessor reads inside the keys and returns the largest key below
  -- the query, or that there is none.
  pub node_predecessor_correct :
      Returns (IsPredecessor keys q) (predecessor false (build false keys) q)
  unfolding predecessor
  node_predecessor_correct =
      let s = rank-Splits keys q sorted in rw rank-rank (read_before (Spec.rank keys q) s)
