-- ===== src/Tests/Rivals.antt =====
-- Containers that keep the promises that the wrappers of include/dynamic_rivals.hpp rely on, and the
-- theorems on the S+ tree and on the wrappers at inputs.
use fusion_tree_benchmark.Prelude.{
  true, ℕ, zero, suc, ◌-◌, ◌≤◌, ◌<◌, ◌≡◌, refl, ◌⊎◌, inl, inr, List, [], ◌∷◌, none, some, ok, ◌>>=◌,
  length, ◌!◌, ◌==◌, ◌&&◌, leb, if◌then◌else◌, Bool-cases, Returns, arith,
}
use fusion_tree_benchmark.Spec.{IsPredecessor, rank}
use fusion_tree_benchmark.Search.Count.{count_less}
use fusion_tree_benchmark.SortedArray
use fusion_tree_benchmark.SPlusTree
use fusion_tree_benchmark.SPlusTree.{node_counts}
use fusion_tree_benchmark.SPlusTree.Counts.{Counted, node_counts-Counted}
use fusion_tree_benchmark.SPlusTree.Search.{lower_bound_index-lower_bound, splus_tree_correct}
use fusion_tree_benchmark.Rivals.{
  AlexOps, AlexIndex, alex_bulk_load, alex_insert, alex_predecessor, TlxOps, tlx_predecessor,
}
use fusion_tree_benchmark.Rivals.Alex.{
  Has, LastNoGreater, Tracked, load, add, Reach, new, Reach-Tracked, alex_predecessor-IsPredecessor,
}
use fusion_tree_benchmark.Rivals.Tlx.{TlxLaws, tlx_predecessor-IsPredecessor}
use fusion_tree_benchmark.Tests.{program, twelve, twelve-IsKeys}

splus_tree_runs :
    ((SPlusTree.build 2 twelve >>= λ t. SPlusTree.predecessor 2 t 60) ≡ ok (some 55))
    × ((SPlusTree.build 4 twelve >>= λ t. SPlusTree.predecessor 4 t 3) ≡ ok none)
    × ((SPlusTree.build 1 twelve >>= λ t. SPlusTree.lower_bound_index 1 t 0xffffffffffffffff)
        ≡ ok 11)
unfolding program count_less SPlusTree.build SPlusTree.predecessor SPlusTree.lower_bound_index
splus_tree_runs = (refl, refl, refl)

node_counts-Counted_example : Returns (Counted 8 100) (node_counts 8 15 100)
node_counts-Counted_example = node_counts-Counted 8 15 100 (omega arith)

splus_tree_correct_example :
    Returns
      (IsPredecessor twelve 60)
      (SPlusTree.build 2 twelve >>= λ t. SPlusTree.predecessor 2 t 60)
splus_tree_correct_example =
    splus_tree_correct 2 twelve (omega arith) (omega arith) (omega arith) 60 twelve-IsKeys
      (omega arith)

lower_bound_index-lower_bound_example :
    (SPlusTree.build 4 twelve >>= λ t. SPlusTree.lower_bound_index 4 t 60)
    ≡ SortedArray.lower_bound (SortedArray.build twelve) 60
lower_bound_index-lower_bound_example =
    lower_bound_index-lower_bound 4 twelve (omega arith) (omega arith) (omega arith) 60
      twelve-IsKeys (omega arith)

-- ALEX as a list: the largest key at or below a number, or 0.
abbrev list_find : List ℕ → ℕ → ℕ
list_find [] x = 0
list_find (k ∷ ks) x = let rest = list_find ks x in if leb k x && leb rest k then k else rest

abbrev list_alex : AlexOps (List ℕ)
list_alex = record {
  empty = [];
  insert = λ ks k. ok (k ∷ ks);
  bulk_load = λ _ ks _. ok ks;
  find = list_find;
}

list_find-le : (ks : List ℕ) (x : ℕ) → list_find ks x ≤ x
list_find-le [] x = omega arith
list_find-le (k ∷ ks) x = ground (arith, list_find-le ks x)

list_find-most : (ks : List ℕ) (x i : ℕ) → i < length ks → ks ! i ≤ x → ks ! i ≤ list_find ks x
list_find-most [] x i h l = absurd (omega arith)
list_find-most (k ∷ ks) x zero h l = ground arith
list_find-most (k ∷ ks) x (suc i) h l = ground (arith, list_find-most ks x i (omega arith) l)

list_find-Has : (ks : List ℕ) (x : ℕ) → (list_find ks x ≡ 0) ⊎ Has ks (list_find ks x)
list_find-Has [] x = inl refl
list_find-Has (k ∷ ks) x = elim (Bool-cases (leb k x && leb (list_find ks x) k)) [
  | inl first ↦ rw first (inr (0, omega arith, refl))
  | inr later ↦ elim (list_find-Has ks x) [
    | inl none_found ↦ rw later (inl none_found)
    | inr (i, h, e) ↦ rw later (inr (suc i, omega arith, e))
  ]
]

list_find-LastNoGreater :
    (ks : List ℕ) (lo x : ℕ) → Has ks lo → lo ≤ x → LastNoGreater ks x (list_find ks x)
list_find-LastNoGreater ks lo x (i, h, e) l =
    let most : (y : ℕ) → Has ks y → y ≤ x → y ≤ list_find ks x =
      λ y m r. omega (arith, m.2, list_find-most ks x m.0 m.1 (omega (arith, m.2))) in
    let stored : Has ks (list_find ks x) = elim (list_find-Has ks x) [
      | inr m ↦ m
      | inl zero_found ↦ (i, h, omega (arith, most lo (i, h, e) l))
    ] in
    record { stored = stored; upto = list_find-le ks x; most = most }

-- Twelve keys are loaded and one is inserted.
abbrev filled : AlexIndex (List ℕ)
filled = record { a = 2 ∷ twelve; lo = 2; hi = 0xffffffffffffffff; has = true }

filled-Reach : Reach list_alex filled (2 ∷ twelve)
unfolding alex_bulk_load alex_insert
filled-Reach = add 2 (load twelve new twelve-IsKeys refl) refl

Reach-Tracked_example : Tracked list_alex filled (2 ∷ twelve)
Reach-Tracked_example = Reach-Tracked list_alex filled-Reach

alex_predecessor-IsPredecessor_example :
    IsPredecessor (2 ∷ twelve) 60 (alex_predecessor list_alex filled 60)
alex_predecessor-IsPredecessor_example =
    alex_predecessor-IsPredecessor list_alex 60 filled-Reach (omega arith)
      (λ _ _. list_find-LastNoGreater (2 ∷ twelve) 2 59 (0, omega arith, refl) (omega arith))

-- A container that holds the twelve keys.
abbrev twelve_tlx : TlxOps Unit ℕ
twelve_tlx = record {
  clear = λ s. s;
  bulk_load = λ s _. s;
  insert = λ s _. s;
  lower_bound = λ _ q. rank twelve q;
  begin = λ _. 0;
  same = λ i j. i == j;
  prev = λ i. i - 1;
  read = λ i. twelve ! i;
}

twelve_tlx-Laws : TlxLaws twelve_tlx (λ _. twelve) (λ _ i. i)
twelve_tlx-Laws = record {
  sorted = λ _. twelve-IsKeys;
  lower_bound_lem = λ _ _. refl;
  begin_lem = λ _. refl;
  same_lem = λ _ _ _ _ _. refl;
  prev_lem = λ _ i _. omega arith;
  read_lem = λ _ _ _. refl;
}

tlx_predecessor-IsPredecessor_example : IsPredecessor twelve 60 (tlx_predecessor twelve_tlx tt 60)
tlx_predecessor-IsPredecessor_example =
    tlx_predecessor-IsPredecessor twelve_tlx (λ _. twelve) (λ _ i. i) twelve_tlx-Laws tt 60
