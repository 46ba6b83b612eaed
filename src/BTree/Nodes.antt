-- ===== src/BTree/Nodes.antt =====
-- Each of the three scans counts the keys of a node below the query.
use fusion_tree_benchmark.Prelude.{
  ℕ, suc, ◌+◌, ◌-◌, ◌*◌, ◌/◌, ◌%◌, ◌≤◌, ◌<◌, ◌≡◌, refl, ap, ◌∙◌, true, List, [], ◌∷◌, ◌++◌, length,
  replicate, ◌!◌, ltb, lt→ltb, le→ltb, ltb→lt, ltb→le, ◌==◌, ==_iff, ok, load, load-ok, advance,
  advance-StopsAt, length-append, length-replicate, get_or-append_left, Bool-cases, inl, inr, arith,
}
use fusion_tree_benchmark.Word.{word}
use fusion_tree_benchmark.Word.Signed.{slt, flip, slt-flip}
use fusion_tree_benchmark.Spec.{IsKeys, Splits-unique, rank, rank-Splits}
use fusion_tree_benchmark.Search.Narrow.{Divides}
use fusion_tree_benchmark.Search.Scan.{scan-ok}
use fusion_tree_benchmark.Search.LastMile.{count_range}
use fusion_tree_benchmark.Tree.Descend.{NodeLaws}
use fusion_tree_benchmark.BTree.{
  NodeScan, early_exit, avx2, portable, make, count_live, rank_avx2, node_rank, key_node,
}

count_live-none : (n q : ℕ) (key : List ℕ) (i : ℕ) → n ≤ i → count_live n q key i ≡ 0
unfolding count_live
count_live-none n q [] i h = refl
count_live-none n q (k ∷ key) i h = ground (arith, count_live-none n q key (suc i) (omega arith))

count_live-rank :
    (xs pads : List ℕ) (n q i : ℕ) → n ≡ i + length xs → count_live n q (xs ++ pads) i ≡ rank xs q
unfolding count_live rank
count_live-rank [] pads n q i h = count_live-none n q pads i (omega arith)
count_live-rank (x ∷ xs) pads n q i h =
    let live : ltb i n ≡ true = lt→ltb i n (omega arith) in
    rw (live, count_live-rank xs pads n q (suc i) (omega arith)) refl

module _ (slots : ℕ) (xs : List ℕ) (q : ℕ) (keys : IsKeys xs) (few : length xs ≤ slots)
    (query : q < word) where
  stored : List ℕ
  stored = xs ++ replicate (slots - length xs) 0

  stored-key : (i : ℕ) → i < length xs → stored ! i ≡ xs ! i
  unfolding stored
  stored-key i h = get_or-append_left xs (replicate (slots - length xs) 0) i 0 h

  early_exit-rank : advance (λ r. ltb (stored ! r) q) (length xs) 0 ≡ rank xs q
  early_exit-rank =
      let stop =
        advance-StopsAt (λ r. ltb (stored ! r) q) (length xs) 0 (length xs) (omega arith) in
      let k = advance (λ r. ltb (stored ! r) q) (length xs) 0 in
      Splits-unique xs q _ _
        (record {
          inside = stop.upto;
          below = λ i h.
              rw (stored-key i (omega (arith, stop.upto))) at
                (ltb→lt _ _ (stop.passed i (omega arith) h));
          above = λ i g h.
              let at_stop =
                rw (stored-key k (omega arith)) at (ltb→le _ _ (stop.stopped (omega arith))) in
              omega (arith, at_stop, keys.sorted k i g h);
        })
        (rank-Splits xs q keys)

  stored-Divides : Divides (λ k. slt (flip k) (flip q)) stored 0 (length xs) (rank xs q)
  stored-Divides =
      let s = rank-Splits xs q keys in
      record {
        below = λ i g h.
            rw
              (
                stored-key i (omega (arith, s.inside)),
                slt-flip (xs ! i) q (keys.words i (omega (arith, s.inside))) query,
              )
              (lt→ltb _ _ (s.below i h));
        above = λ i g h.
            rw (stored-key i h, slt-flip (xs ! i) q (keys.words i h) query)
              (le→ltb _ _ (s.above i g h));
      }

  length-stored : length stored ≡ slots
  unfolding stored
  length-stored = omega (
    arith,
    length-append xs (replicate (slots - length xs) 0),
    length-replicate {A = ℕ} (slots - length xs) 0,
  )

  avx2-rank : slots % 4 ≡ 0 → slots ≤ 16 → rank_avx2 slots (make slots xs) q ≡ ok (rank xs q)
  unfolding rank_avx2 make stored
  avx2-rank whole small =
      let s = rank-Splits xs q keys in
      let rounds = slots / 4 in
      let e : rounds * 4 ≡ slots = omega arith in
      let d = stored-Divides in
      rw
        (scan-ok (λ k. slt (flip k) (flip q)) stored rounds 0 (omega arith)
          (omega (arith, length-stored)))
        (ap ok (
          omega (
            arith,
            count_range (λ k. slt (flip k) (flip q)) stored rounds 0 (length xs) (rank xs q) 0
                (length xs) d (omega arith) (omega arith) (omega arith) (omega (arith, s.inside))
                (omega arith) (omega (arith, few)),
          )))

key_read :
    (slots : ℕ) (xs : List ℕ) (i : ℕ) → i < length xs → load (make slots xs).key i ≡ ok (xs ! i)
unfolding make
key_read slots xs i h =
    let pads = replicate (slots - length xs) 0 in
    load-ok (xs ++ pads) i 0 (omega (arith, length-append xs pads))
    ∙ ap ok (get_or-append_left xs pads i 0 h)

-- Each of the three scans of a node of at most 16 slots over sorted 64-bit keys counts the keys below
-- a 64-bit query.
pub node_rank-rank :
    (mode : NodeScan) (slots : ℕ) (xs : List ℕ) (q : ℕ)
    → slots ≤ 16
    → IsKeys xs
    → length xs ≤ slots
    → q < word
    → node_rank mode slots (make slots xs) q ≡ ok (rank xs q)
unfolding node_rank make stored
node_rank-rank early_exit slots xs q small keys few query =
    ap ok (early_exit-rank slots xs q keys few query)
node_rank-rank portable slots xs q small keys few query =
    ap ok (count_live-rank xs (replicate (slots - length xs) 0) (length xs) q 0 (omega arith))
node_rank-rank avx2 slots xs q small keys few query = elim (Bool-cases (slots % 4 == 0)) [
  | inl whole ↦ rw whole (avx2-rank slots xs q keys few query ((==_iff _ _).0 whole) small)
  | inr broken ↦
      rw broken
        (ap ok (count_live-rank xs (replicate (slots - length xs) 0) (length xs) q 0 (omega arith)))
]

-- A node of up to 16 slots does what the tree relies on, in each of its three forms.
pub key_node-Laws :
    (mode : NodeScan) (slots : ℕ) → slots ≤ 16 → NodeLaws (key_node mode slots) slots
key_node-Laws mode slots small = record {
  rank_ok =
      λ xs q keys distinct some few query. node_rank-rank mode slots xs q small keys few query;
  key_ok = λ xs i few h. key_read slots xs i h;
}
