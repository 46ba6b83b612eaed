-- ===== src/Pgm/Correct.antt =====
-- The wrapper around the PGM-index finds the predecessor, the largest word included.
use fusion_tree_benchmark.Prelude.{
  get_or-take, length-take, ℕ, suc, ◌+◌, ◌-◌, ◌≤◌, ◌<◌, ◌≡◌, ◌∙◌, ap, Bool-cases, inl, inr, List,
  length, take, ◌!◌, ltb, ◌==◌, ==_iff, if◌then◌else◌, ltb→lt, Returns, returns, tests, arith,
}
use native.Mathlib.Decide.{dec_le}
use fusion_tree_benchmark.Word.{word, sub64, add64, sub64-eq, add64-eq}
use fusion_tree_benchmark.Spec.{
  IsKeys, IsPredecessor, Splits-unique, rank, rank-Splits, before-IsPredecessor,
}
use fusion_tree_benchmark.Search.LastMile.{last_mile-Splits, answer-before}
use fusion_tree_benchmark.Learned.Correct.{Holds}
use fusion_tree_benchmark.Pgm.{max_word, indexed, build, range, predecessor}

-- The keys that the index is built on: all that are not the largest word.
record Indexed (a : List ℕ) (m : ℕ) : Type 0 where
  upto : m ≤ length a
  below : (i : ℕ) → i < m → a ! i < max_word
  above : (i : ℕ) → m ≤ i → i < length a → a ! i ≡ max_word

indexed-Indexed :
    (a : List ℕ)
    → IsKeys a
    → ((i j : ℕ) → i < j → j < length a → a ! i < a ! j)
    → Indexed a (indexed a)
unfolding indexed
indexed-Indexed a keys strict = elim (Bool-cases (ltb 0 (length a))) [
  | inr none ↦ rw none (record {
    upto = omega arith;
    below = λ i h. absurd (omega (tests, none));
    above = λ i g h. absurd (omega arith);
  })
  | inl some ↦ elim (Bool-cases (a ! (length a - 1) == max_word)) [
    | inl top ↦
        let last = (==_iff _ _).0 top in
        rw (some, top)
          (record {
            upto = omega arith;
            below = λ i h. omega (arith, last, strict i (length a - 1) h (omega arith));
            above = λ i g h. let e : i ≡ length a - 1 = omega arith in rw e last;
          })
    | inr low ↦
        rw (some, low)
          (record {
            upto = omega arith;
            below = λ i h. ground (
              arith,
              low,
              keys.sorted i (length a - 1) (omega arith) (omega arith),
              keys.words (length a - 1) (omega arith),
            );
            above = λ i g h. absurd (omega arith);
          })
  ]
]

module _ (a : List ℕ) (m : ℕ) (keys : IsKeys a) (kept : Indexed a m) where
  size : length (take m a) ≡ m
  size = length-take m a kept.upto

  take-IsKeys : IsKeys (take m a)
  take-IsKeys = record {
    sorted = λ i j h l.
        rw (get_or-take m a i 0 (omega (arith, size)), get_or-take m a j 0 (omega (arith, size)))
          (keys.sorted i j h (omega (arith, size, kept.upto)));
    words = λ i h.
        rw (get_or-take m a i 0 (omega (arith, size)))
          (keys.words i (omega (arith, size, kept.upto)));
  }

  module _ (q : ℕ) (query : q < word) where
    rank-upto : rank a q ≤ m
    rank-upto =
        let s = rank-Splits a q keys in
        elim (dec_le (rank a q) m) [
          | yes h ↦ h
          | no h ↦ absurd (
              omega (
                arith,
                s.below m (omega arith),
                kept.above m (omega arith) (omega (arith, s.inside)),
              ))
        ]

    -- Among the indexed keys the position that divides them is the same.
    rank-take : rank (take m a) q ≡ rank a q
    rank-take =
        let s = rank-Splits a q keys in
        let upto = rank-upto in
        Splits-unique (take m a) q _ _ (rank-Splits (take m a) q take-IsKeys) (record {
          inside = omega (arith, size);
          below = λ i h. rw (get_or-take m a i 0 (omega arith)) (s.below i h);
          above = λ i g h.
              rw (get_or-take m a i 0 (omega (arith, size)))
                (s.above i g (omega (arith, size, kept.upto)));
        })

  -- The largest word is above every indexed key.
  rank-max_word : rank a max_word ≡ m
  rank-max_word =
      let s = rank-Splits a max_word keys in
      let upto = rank-upto max_word (omega arith) in
      elim (dec_le m (rank a max_word)) [
        | yes h ↦ omega arith
        | no h ↦ absurd (
            omega (
              arith,
              s.above (rank a max_word) (omega arith) (omega (arith, kept.upto)),
              kept.below (rank a max_word) (omega arith),
            ))
      ]

  -- At most one indexed key is not below the word in front of it.
  rank-before_max :
      ((i j : ℕ) → i < j → j < length a → a ! i < a ! j) → m ≤ rank a (max_word - 1) + 1
  rank-before_max strict =
      let r = rank a (max_word - 1) in
      let s = rank-Splits a (max_word - 1) keys in
      elim (dec_le m (r + 1)) [
        | yes h ↦ h
        | no h ↦ absurd (
            omega (
              arith,
              s.above r (omega arith) (omega (arith, kept.upto)),
              strict r (r + 1) (omega arith) (omega (arith, kept.upto)),
              kept.below (r + 1) (omega arith),
            ))
      ]

abbrev IsRange : ℕ → ℕ → ℕ × ℕ → Type 0
IsRange lb m (lo, len) = (lo ≤ lb) × (lb ≤ lo + len) × (lo + len ≤ m)

-- One more slot, but not beyond the indexed keys.
clip-IsRange :
    (begin end m lb : ℕ)
    → begin ≤ lb
    → lb ≤ m
    → lb ≤ end + 1
    → end ≤ m
    → suc m < word
    → IsRange lb m (begin, sub64 (if ltb (add64 end 1) m then add64 end 1 else m) begin)
clip-IsRange begin end m lb from inside upto top room =
    rw (add64-eq end 1 (omega arith)) (elim (Bool-cases (ltb (end + 1) m)) [
      | inl more ↦
          let gap = sub64-eq (end + 1) begin (omega arith) (omega arith) in
          rw (more, gap) (from, omega arith, omega (tests, more))
      | inr done ↦
          let gap = sub64-eq m begin (omega arith) (omega arith) in
          rw (done, gap) (from, omega arith, omega arith)
    ])

module _ (finalize : List ℕ → ℕ → ℕ × ℕ) (a : List ℕ) (q : ℕ) (keys : IsKeys a)
    (strict : (i j : ℕ) → i < j → j < length a → a ! i < a ! j) (room : suc (length a) < word)
    (query : q < word)
    (bound : (x : ℕ)
      → x < max_word
      → 0 < indexed a
      → Holds (take (indexed a) a) x (finalize (take (indexed a) a) x)) where
  range-IsRange : IsRange (rank a q) (indexed a) (range (build finalize a) q)
  unfolding range build
  range-IsRange =
      let m = indexed a in
      let kept = indexed-Indexed a keys strict in
      let upto = rank-upto a m keys kept q query in
      elim (Bool-cases (ltb 0 m)) [
        | inr none ↦ rw none (omega arith, omega arith, omega arith)
        | inl some ↦ elim (Bool-cases (q == max_word)) [
          | inl top ↦
              let e = (==_iff _ _).0 top in
              let back : sub64 q 1 ≡ max_word - 1 =
                sub64-eq q 1 (omega arith) query ∙ omega arith in
              let (from, to, inside) = bound (max_word - 1) (omega arith) (ltb→lt 0 m some) in
              let same = rank-take a m keys kept (max_word - 1) (omega arith) in
              let near = rank-before_max a m keys kept strict in
              let whole = rank-max_word a m keys kept in
              let at_top : rank a q ≡ m = ap (λ (t : ℕ). rank a t) e ∙ whole in
              let below = rank-upto a m keys kept (max_word - 1) (omega arith) in
              rw (some, top, back)
                (clip-IsRange (finalize (take m a) (max_word - 1)).0
                  (finalize (take m a) (max_word - 1)).1 m (rank a q)
                  (omega (arith, from, same, below, at_top)) upto
                  (omega (arith, to, same, near, at_top))
                  (omega (arith, inside, size a m keys kept)) (omega (arith, kept.upto)))
          | inr low ↦
              let (from, to, inside) = bound q (ground (arith, low)) (ltb→lt 0 m some) in
              let same = rank-take a m keys kept q query in
              rw (some, low)
                (clip-IsRange (finalize (take m a) q).0 (finalize (take m a) q).1 m (rank a q)
                  (omega (arith, from, same)) upto (omega (arith, to, same))
                  (omega (arith, inside, size a m keys kept)) (omega (arith, kept.upto)))
        ]
      ]

  -- PGMWrap over fewer than 2 ^ 64 - 1 sorted and distinct keys, where the range that the index gives
  -- for every word but the largest holds its position among the indexed keys, returns the largest key
  -- below `q`, or that there is none, whatever the word `q`, and reads only inside the stored keys.
  pub pgm_wrap_correct : Returns (IsPredecessor a q) (predecessor (build finalize a) q)
  unfolding predecessor build
  pgm_wrap_correct =
      let s = rank-Splits a q keys in
      let kept = indexed-Indexed a keys strict in
      let (from, upto, inside) = range-IsRange in
      let r = range (build finalize a) q in
      rw
        (
          last_mile-Splits 2 a q (rank a q) keys query s r.0 r.1 (omega arith) from upto
              (omega (arith, inside, kept.upto)),
          answer-before 8 a (rank a q) keys s.inside,
        )
        (returns (before-IsPredecessor a q (rank a q) keys s))
