-- ===== src/ClusterJumpD/Stored.antt =====
-- A box of include/cluster_jump_dynamic.hpp with its keys, wherever they are, and the search in it.
use fusion_tree_benchmark.Prelude.{
  ℕ, zero, suc, ◌+◌, ◌-◌, ◌*◌, ◌≤◌, ◌<◌, ◌≡◌, ◌⊎◌, inl, inr, refl, ap, sym, ◌∙◌, Bool, List, length,
  slice, ◌!◌, ◌==◌, if◌then◌else◌, Option, some, ok, ◌>>=◌, true, false, load, load-ok, arith,
  Bool-cases, length-slice, get_or-slice,
}
use native.Mathlib.Decide.{dec_lt}
use fusion_tree_benchmark.Word.{word}
use fusion_tree_benchmark.Word.Signed.{flip, flip-flip}
use fusion_tree_benchmark.Spec.{IsKeys, Splits, rank, rank-Splits, Splits-unique}
use fusion_tree_benchmark.Search.{flipped_copy}
use fusion_tree_benchmark.Search.LastMile.{last_mile-Splits, length-flipped_copy, flipped_copy-key}
use fusion_tree_benchmark.ClusterJumpD.{cap, Bucket, rank_sorted, search_box, given}
use fusion_tree_benchmark.ClusterJumpD.Box.{Holds, rank16-rank}

-- Box `j` holds the keys `ks`, in its sixteen places or in the overflow list that its number names.
pub record Stored (b : Bucket) (j : ℕ) (ks : List ℕ) : Type 0 where
  pub counted : load b.count j ≡ ok (length ks)
  pub place :
      ((load b.over j ≡ ok 0) × Holds b.blocks (j * cap) ks)
      ⊎ ((o : ℕ) × (load b.over j ≡ ok (suc o)) × (load b.big o ≡ ok (flipped_copy 8 ks)))

-- The largest key in front of place `lo`: a key, or what stands in front of all keys.
abbrev pub floor_at : List ℕ → ℕ → Bool → ℕ → Option ℕ
floor_at keys run rh zero = given run rh
floor_at keys run rh (suc lo) = some (keys ! lo)

-- The answer of a box: its largest key below `q`, or else its floor.
abbrev pub box_answer : List ℕ → ℕ → ℕ → Bool → Option ℕ
box_answer ks r f h = if r == 0 then given f h else some (ks ! (r - 1))

module _ (ks : List ℕ) (q : ℕ) (keys : IsKeys ks) (small : q < word) where
  -- The rank in an overflow list.
  pub rank_sorted-rank : rank_sorted (flipped_copy 8 ks) (length ks) q ≡ ok (rank ks q)
  unfolding rank_sorted
  rank_sorted-rank =
      let s = rank-Splits ks q keys in
      last_mile-Splits 2 ks q (rank ks q) keys small s 0 (length ks) (omega arith) (omega arith)
        (omega (arith, s.inside)) (omega arith)

  module _ (b : Bucket) (j f : ℕ) (h : Bool) (floor : load b.floor j ≡ ok f)
      (has : load b.has j ≡ ok h) where
    -- The end of the search, where the keys stand flipped from place `p` of an array on.
    read_answer :
        (arr : List ℕ) (p m : ℕ)
        → p + length ks ≤ length arr
        → ((i : ℕ) → i < length ks → arr ! (p + i) ≡ flip (ks ! i))
        → m ≡ p + (rank ks q - 1)
        → (if rank ks q == 0
            then (do f' ← load b.floor j; h' ← load b.has j; ok (given f' h'))
            else (do k ← load arr m; ok (some (flip k))))
          ≡ ok (box_answer ks (rank ks q) f h)
    read_answer arr p m inside held e = elim (Bool-cases (rank ks q == 0)) [
      | inl low ↦ rw (low, floor, has) refl
      | inr some_below ↦
          let bound = (rank-Splits ks q keys).inside in
          let within : rank ks q - 1 < length ks = ground arith in
          rw
            (
              some_below,
              e,
              load-ok arr (p + (rank ks q - 1)) 0 (omega arith),
              held (rank ks q - 1) within,
              flip-flip (ks ! (rank ks q - 1)) (keys.words (rank ks q - 1) within),
            )
            refl
    ]

    search_here :
        load b.over j ≡ ok 0
        → Holds b.blocks (j * cap) ks
        → search_box b j q ≡ ok (box_answer ks (rank ks q) f h)
    unfolding search_box
    search_here over box =
        let read =
          read_answer b.blocks (j * cap) (j * cap + (rank ks q - 1))
            (omega (arith, box.inside, box.few)) box.key refl in
        elim (Bool-cases (b.overflow_keys == 0)) [
          | inl no_lists ↦ rw (no_lists, rank16-rank b.blocks (j * cap) ks q box keys small) read
          | inr lists ↦ rw (lists, over, rank16-rank b.blocks (j * cap) ks q box keys small) read
        ]

    search_list :
        (o : ℕ)
        → load b.over j ≡ ok (suc o)
        → load b.big o ≡ ok (flipped_copy 8 ks)
        → load b.count j ≡ ok (length ks)
        → (b.overflow_keys == 0) ≡ false
        → search_box b j q ≡ ok (box_answer ks (rank ks q) f h)
    unfolding search_box
    search_list o over list counted lists =
        let there : suc o - 1 ≡ o = omega arith in
        let nonzero : (suc o == 0) ≡ false = ground arith in
        rw (lists, over, nonzero, there, list, counted, rank_sorted-rank)
          (read_answer (flipped_copy 8 ks) 0 (rank ks q - 1)
            (omega (arith, length-flipped_copy 8 ks))
            (λ i l. ap (λ t. flipped_copy 8 ks ! t) (omega arith) ∙ flipped_copy-key 8 ks i l)
            (omega arith))

    pub search_box-Stored :
        Stored b j ks
        → ((o : ℕ) → load b.over j ≡ ok (suc o) → 0 < b.overflow_keys)
        → search_box b j q ≡ ok (box_answer ks (rank ks q) f h)
    search_box-Stored s listed = elim s.place [
      | inl (over, box) ↦ search_here over box
      | inr (o, over, list) ↦
          let lists : (b.overflow_keys == 0) ≡ false = ground (arith, listed o over) in
          search_list o over list s.counted lists
    ]

pub slice-IsKeys :
    (a : List ℕ) (lo hi : ℕ) → IsKeys a → lo ≤ hi → hi ≤ length a → IsKeys (slice a lo hi)
slice-IsKeys a lo hi keys h l =
    let size = length-slice a lo hi h l in
    record {
      sorted = λ i j p r.
          rw (get_or-slice a lo hi i 0 (omega arith), get_or-slice a lo hi j 0 (omega arith))
            (keys.sorted (lo + i) (lo + j) (omega arith) (omega arith));
      words =
          λ i r. rw (get_or-slice a lo hi i 0 (omega arith)) (keys.words (lo + i) (omega arith));
    }

module _ (a : List ℕ) (lo hi q lb : ℕ) (keys : IsKeys a) (s : Splits a q lb) (from : lo ≤ lb)
    (upto : lb ≤ hi) (inside : hi ≤ length a) where
  pub rank-slice : rank (slice a lo hi) q ≡ lb - lo
  rank-slice =
      let size = length-slice a lo hi (omega arith) inside in
      let cut = slice-IsKeys a lo hi keys (omega arith) inside in
      Splits-unique (slice a lo hi) q (rank (slice a lo hi) q) (lb - lo)
        (rank-Splits (slice a lo hi) q cut)
        (record {
          inside = omega arith;
          below =
              λ i l. rw (get_or-slice a lo hi i 0 (omega arith)) (s.below (lo + i) (omega arith));
          above = λ i g l.
              rw (get_or-slice a lo hi i 0 (omega arith))
                (s.above (lo + i) (omega arith) (omega arith));
        })

  box_answer-floor_at :
      (run f : ℕ) (rh h : Bool)
      → given f h ≡ floor_at a run rh lo
      → box_answer (slice a lo hi) (lb - lo) f h ≡ floor_at a run rh lb
  box_answer-floor_at run f rh h floor = elim (dec_lt lo lb) [
    | no same ↦
        let none_below : (lb - lo == 0) ≡ true = ground arith in
        let e : lo ≡ lb = omega arith in rw none_below (floor ∙ ap (floor_at a run rh) e)
    | yes past ↦
        let some_below : (lb - lo == 0) ≡ false = ground arith in
        let e : lb ≡ suc (lb - 1) = omega arith in
        let at : lo + (lb - lo - 1) ≡ lb - 1 = omega arith in
        rw some_below (
          ap some (get_or-slice a lo hi (lb - lo - 1) 0 (omega arith) ∙ ap (λ t. a ! t) at)
          ∙ sym (ap (floor_at a run rh) e))
  ]

  -- The search of a box that stores the stretch `[lo, hi)`.
  pub search_box-floor_at :
      (b : Bucket) (j run f : ℕ) (rh h : Bool)
      → q < word
      → Stored b j (slice a lo hi)
      → load b.floor j ≡ ok f
      → load b.has j ≡ ok h
      → given f h ≡ floor_at a run rh lo
      → ((o : ℕ) → load b.over j ≡ ok (suc o) → 0 < b.overflow_keys)
      → search_box b j q ≡ ok (floor_at a run rh lb)
  search_box-floor_at b j run f rh h small stored floor has front listed =
      let cut = slice-IsKeys a lo hi keys (omega arith) inside in
      rw
        (
          search_box-Stored (slice a lo hi) q cut small b j f h floor has stored listed,
          rank-slice,
          box_answer-floor_at run f rh h front,
        )
        refl
