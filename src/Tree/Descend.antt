-- ===== src/Tree/Descend.antt =====
-- The descent from a node that holds the keys `[lo, hi)` of the sorted array.
use fusion_tree_benchmark.Prelude.{
  ℕ, zero, suc, ◌+◌, ◌-◌, ◌≤◌, ◌<◌, ◌≡◌, true, false, List, [], Option, some, length, slice, ◌!◌,
  ltb, ltb→lt, ltb→le, lt→ltb, le→ltb, if◌then◌else◌, ok, load, Bool-cases, inl, inr, arith,
  length-slice, get_or-slice,
}
use fusion_tree_benchmark.Word.{word}
use fusion_tree_benchmark.Spec.{IsKeys, IsDistinct, Splits-unique, rank, rank-Splits}
use fusion_tree_benchmark.Search.LastMile.{Window}
use fusion_tree_benchmark.Tree.{NodeType, Node, descend}

-- What the tree relies on: a node built over at most `arity` sorted and distinct keys counts the keys
-- below a query, and gives its keys back.
pub record NodeLaws {N : Type 0} (node : NodeType N) (arity : ℕ) : Type 0 where
  pub rank_ok :
      (xs : List ℕ) (q : ℕ)
      → IsKeys xs
      → IsDistinct xs
      → 0 < length xs
      → length xs ≤ arity
      → q < word
      → node.rank (node.make xs) q ≡ ok (rank xs q)
  pub key_ok :
      (xs : List ℕ) (i : ℕ)
      → length xs ≤ arity
      → i < length xs
      → node.key (node.make xs) i ≡ ok (xs ! i)

-- The answer within `[lo, hi)`, if `lb` divides it: the key in front, or what was found before.
abbrev pub within : List ℕ → ℕ → ℕ → Option ℕ → Option ℕ
within a lo lb out = if ltb lo lb then some (a ! (lb - 1)) else out

pub slice-IsKeys :
    (a : List ℕ) (lo hi : ℕ) → IsKeys a → lo ≤ hi → hi ≤ length a → IsKeys (slice a lo hi)
slice-IsKeys a lo hi keys h l =
    let size = length-slice a lo hi h l in
    record {
      sorted = λ i j p r.
          rw
            (
              get_or-slice a lo hi i 0 (omega (arith, size)),
              get_or-slice a lo hi j 0 (omega (arith, size)),
            )
            (keys.sorted (lo + i) (lo + j) (omega arith) (omega (arith, size)));
      words = λ i p.
          rw (get_or-slice a lo hi i 0 (omega (arith, size)))
            (keys.words (lo + i) (omega (arith, size)));
    }

pub slice-IsDistinct :
    (a : List ℕ) (lo hi : ℕ) → IsDistinct a → lo ≤ hi → hi ≤ length a → IsDistinct (slice a lo hi)
slice-IsDistinct a lo hi distinct h l i j p r =
    let size = length-slice a lo hi h l in
    rw
      (
        get_or-slice a lo hi i 0 (omega (arith, size)),
        get_or-slice a lo hi j 0 (omega (arith, size)),
      )
      (distinct (lo + i) (lo + j) (omega arith) (omega (arith, size)))

-- The rank of a slice is the dividing position, counted from its start.
pub rank-slice :
    (a : List ℕ) (q lo hi lb : ℕ)
    → IsKeys a
    → hi ≤ length a
    → Window a q lo hi lb
    → rank (slice a lo hi) q ≡ lb - lo
rank-slice a q lo hi lb keys l w =
    let h : lo ≤ hi = omega (arith, w.from, w.upto) in
    let size = length-slice a lo hi h l in
    Splits-unique (slice a lo hi) q _ _
      (rank-Splits (slice a lo hi) q (slice-IsKeys a lo hi keys h l))
      (record {
        inside = omega (arith, size, w.upto);
        below = λ i p.
            rw (get_or-slice a lo hi i 0 (omega (arith, w.upto)))
              (w.below (lo + i) (omega arith) (omega arith));
        above = λ i p r.
            rw (get_or-slice a lo hi i 0 (omega (arith, size)))
              (w.above (lo + i) (omega arith) (omega (arith, size)));
      })

module _ {N : Type 0} (node : NodeType N) (arity : ℕ) (laws : NodeLaws node arity) (a : List ℕ)
    (keys : IsKeys a) (distinct : IsDistinct a) where
  -- With fuel for the nodes from `idx` on, the descent finds the answer of its range.
  abbrev pub Answers : List (Node N) → ℕ → ℕ → ℕ → Type 0
  Answers nodes idx lo hi =
      (q lb fuel : ℕ) (out : Option ℕ)
      → q < word
      → Window a q lo hi lb
      → length nodes < fuel + idx
      → descend node fuel nodes q (some idx) out ≡ ok (within a lo lb out)

  pub leaf-Answers :
      (nodes : List (Node N)) (idx lo hi : ℕ)
      → load nodes idx ≡ ok (record { fn = node.make (slice a lo hi); child = []; leaf = true })
      → idx < length nodes
      → lo < hi
      → hi ≤ length a
      → hi - lo ≤ arity
      → Answers nodes idx lo hi
  unfolding descend
  leaf-Answers nodes idx lo hi here inside full upto few q lb zero out query w fuel =
      absurd (omega arith)
  leaf-Answers nodes idx lo hi here inside full upto few q lb (suc fuel) out query w enough =
      let xs = slice a lo hi in
      let size = length-slice a lo hi (omega arith) upto in
      let rank_ok =
        laws.rank_ok xs q (slice-IsKeys a lo hi keys (omega arith) upto)
          (slice-IsDistinct a lo hi distinct (omega arith) upto) (omega (arith, size))
          (omega (arith, size)) query in
      rw (here, rank_ok, rank-slice a q lo hi lb keys upto w)
        (elim (Bool-cases (ltb lo lb)) [
          | inl some_below ↦
              let pos = ltb→lt lo lb some_below in
              let positive : ltb 0 (lb - lo) ≡ true = lt→ltb _ _ (omega arith) in
              let at : lo + (lb - lo - 1) ≡ lb - 1 = omega arith in
              rw (
                positive,
                laws.key_ok xs (lb - lo - 1) (omega (arith, size)) (omega (arith, size, w.upto)),
                get_or-slice a lo hi (lb - lo - 1) 0 (omega (arith, w.upto)),
                at,
                some_below,
              )
          | inr none_below ↦
              let low = ltb→le lo lb none_below in
              let zero_rank : ltb 0 (lb - lo) ≡ false = le→ltb _ _ (omega arith) in
              rw (zero_rank, none_below)
        ])
