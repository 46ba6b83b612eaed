-- ===== src/ClusterJumpD/Search.antt =====
-- A bucket that rebuild (include/cluster_jump_dynamic.hpp) has made, and the search in it.
use fusion_tree_benchmark.Prelude.{
  ℕ, zero, suc, ◌+◌, ◌-◌, ◌/◌, ◌^◌, ◌≤◌, ◌<◌, ◌≡◌, refl, ap, sym, ◌∙◌, ok_injective, inl, inr, Bool,
  List, length, slice, ◌!◌, ok, arith,
}
use native.Mathlib.Decide.{dec_lt}
use fusion_tree_benchmark.Word.{word, add64, add64-eq, sub64, shr, pow_mono}
use fusion_tree_benchmark.Spec.{IsKeys, rank, rank-Splits, le-Splits, Splits-upto}
use fusion_tree_benchmark.Buckets.{to_u32, shift_for}
use fusion_tree_benchmark.Buckets.Cuts.{to_u32-eq, bucket_mono}
use fusion_tree_benchmark.Buckets.Widths.{shr-shift_for, shift_for-le}
use fusion_tree_benchmark.ClusterJumpD.{Bucket, clamp, slot_of, search_box}
use fusion_tree_benchmark.ClusterJumpD.Build.{boxes, box_bits, rebuild_keys}
use fusion_tree_benchmark.ClusterJumpD.Stored.{Stored, floor_at, search_box-floor_at}
use fusion_tree_benchmark.ClusterJumpD.Insert.{collect}
use fusion_tree_benchmark.ClusterJumpD.Collected.{collect_boxes}
use fusion_tree_benchmark.ClusterJumpD.Rebuilt.{boxes-Placed}
use fusion_tree_benchmark.ClusterJumpD.Rows.{Stretch, Placed}

box_bits-le : (left lgs m : ℕ) → box_bits left lgs m ≤ lgs + left
unfolding box_bits
box_bits-le zero lgs m = omega arith
box_bits-le (suc left) lgs m = ground (arith, box_bits-le left (lgs + 1) m)

module _ (base shift slots : ℕ) (some_slots : 0 < slots) (few : slots < 2 ^ 32) where
  abbrev slot : ℕ → ℕ
  slot k = to_u32 (clamp base shift slots k)

  clamp-lt : (k : ℕ) → clamp base shift slots k < slots
  unfolding clamp
  clamp-lt k = ground arith

  slot-clamp : (k : ℕ) → slot k ≡ clamp base shift slots k
  slot-clamp k = to_u32-eq (clamp base shift slots k) (omega (arith, clamp-lt k))

  pub slot-lt : (k : ℕ) → slot k < slots
  slot-lt k = omega (arith, slot-clamp k, clamp-lt k)

  clamp_mono : (x y : ℕ) → x ≤ y → y < word → clamp base shift slots x ≤ clamp base shift slots y
  unfolding clamp
  clamp_mono x y h w = elim (dec_lt x base) [
    | yes low ↦ ground arith
    | no in_range ↦ ground (arith, bucket_mono base shift x y (omega arith) h w)
  ]

  pub slot_mono : (x y : ℕ) → x ≤ y → y < word → slot x ≤ slot y
  slot_mono x y h w = omega (arith, slot-clamp x, slot-clamp y, clamp_mono x y h w)

  -- A key in an earlier slot is smaller.
  pub slot_before : (x y : ℕ) → x < word → slot x < slot y → x < y
  slot_before x y w l = elim (dec_lt x y) [
    | yes lt ↦ lt
    | no ge ↦ absurd (omega (arith, slot_mono y x (omega arith) w))
  ]

module _ (b : Bucket) (keys : List ℕ) (run : ℕ) (rh : Bool) (sorted : IsKeys keys)
    (few : length keys < 2 ^ 32) where
  abbrev span : ℕ
  span = sub64 (keys ! (length keys - 1)) (keys ! 0)

  abbrev bits : ℕ
  bits = box_bits 30 0 (length keys / 6)

  span-lt : span < word
  unfolding sub64
  span-lt = omega arith

  slots_bound : shr span (to_u32 (shift_for span bits)) < 2 ^ 30
  slots_bound =
      let shift =
        to_u32-eq (shift_for span bits)
          (omega (arith, shift_for-le span bits 64 span-lt span-lt)) in
      rw shift (
        omega (
          arith,
          shr-shift_for span bits span-lt,
          pow_mono bits 30 (omega (arith, box_bits-le 30 0 (length keys / 6))),
        ))

  slots-eq :
      to_u32 (add64 (shr span (to_u32 (shift_for span bits))) 1)
      ≡ shr span (to_u32 (shift_for span bits)) + 1
  slots-eq =
      let e = add64-eq (shr span (to_u32 (shift_for span bits))) 1 (omega (arith, slots_bound)) in
      rw e (to_u32-eq (shr span (to_u32 (shift_for span bits)) + 1) (omega (arith, slots_bound)))

  abbrev shift : ℕ
  shift = to_u32 (shift_for span bits)

  abbrev slots : ℕ
  slots = to_u32 (add64 (shr span shift) 1)

  abbrev at : ℕ → ℕ
  at k = to_u32 (clamp (keys ! 0) shift slots k)

  positive : 0 < slots
  positive = omega (arith, slots-eq)

  bounded : slots < 2 ^ 32
  bounded = omega (arith, slots-eq, slots_bound)

  pub at-lt : (k : ℕ) → at k < slots
  at-lt k = slot-lt (keys ! 0) shift slots positive bounded k

  abbrev BoxAt : ℕ → Type 0
  BoxAt m = Placed at keys run rh (boxes at keys slots 0 0 run rh 0) 0 m (0 + m)

  box : (m : ℕ) → m < slots → BoxAt m
  box m l =
      boxes-Placed at keys run rh few
        (λ s t h l.
          slot_mono (keys ! 0) shift slots positive bounded (keys ! s) (keys ! t)
            (sorted.sorted s t h l) (sorted.words t l))
        slots 0 0 run rh 0 m (omega arith) (λ t l. absurd (omega arith)) (λ t g l. omega arith) refl
        (omega (arith, bounded)) l

  box-Stored : (m : ℕ) (p : BoxAt m) → Stored (rebuild_keys b keys run rh) m (slice keys p.lo p.hi)
  unfolding rebuild_keys
  box-Stored m p = record {
    counted = p.row.counted;
    place = elim p.row.place [
      | inl (over, here) ↦ inl (over, here)
      | inr (o, over, list, pos) ↦ inr (o, over ∙ ap ok (omega arith), list)
    ];
  }

  box-Stretch : (m : ℕ) (p : BoxAt m) → Stretch at keys m p.lo p.hi
  box-Stretch m p =
      let st = p.stretch in
      record {
        ordered = st.ordered;
        upto = st.upto;
        before = λ t l. omega (arith, st.before t l);
        reach = λ t g l. omega (arith, st.reach t g l);
        within = λ t l. omega (arith, st.within t l);
        behind = λ t g l. omega (arith, st.behind t g l);
      }

  -- The position that divides the keys at `q` is in the box of `q`.
  rank_in : (q : ℕ) → q < word → (p : BoxAt (at q)) → (p.lo ≤ rank keys q) × (rank keys q ≤ p.hi)
  rank_in q small p =
      let st = p.stretch in
      let s = rank-Splits keys q sorted in
      (
        le-Splits keys q (rank keys q) s p.lo (omega (arith, st.ordered, st.upto)) (λ t l.
            slot_before (keys ! 0) shift slots positive bounded (keys ! t) q
              (sorted.words t (omega (arith, st.ordered, st.upto))) (omega (arith, st.before t l))),
        Splits-upto keys q (rank keys q) s p.hi (λ t g l. omega (
          arith,
          slot_before (keys ! 0) shift slots positive bounded q (keys ! t) small
              (omega (arith, st.behind t g l)),
        )),
      )

  -- In a bucket rebuilt from fewer than 2 ^ 32 sorted 64-bit keys, for a 64-bit query: the search of
  -- the box that the query's slot names ends, reads only inside its arrays and returns the largest of
  -- the keys below the query, or, if there is none, what stood in front of the bucket.
  pub search-rebuild_keys :
      (q : ℕ)
      → q < word
      → search_box (rebuild_keys b keys run rh) (slot_of (rebuild_keys b keys run rh) q) q
        ≡ ok (floor_at keys run rh (rank keys q))
  unfolding rebuild_keys slot_of
  search-rebuild_keys q small =
      let p = box (at q) (at-lt q) in
      let (from, upto) = rank_in q small p in
      search_box-floor_at keys p.lo p.hi q (rank keys q) sorted (rank-Splits keys q sorted) from
        upto p.stretch.upto (rebuild_keys b keys run rh) (at q) run p.f rh p.h small
        (box-Stored (at q) p) p.row.floor_ok p.row.has_ok p.front
        (λ o over. elim p.row.place [
          | inl (plain, here) ↦ absurd (omega (arith, ok_injective 0 (suc o) (sym plain ∙ over)))
          | inr (o', over', list, pos) ↦ pos
        ])

  -- Collecting the keys of a bucket rebuilt from fewer than 2 ^ 32 sorted 64-bit keys ends, reads only
  -- inside its arrays and gives these keys back, in the same order.
  pub collect-rebuild_keys : collect (rebuild_keys b keys run rh) ≡ ok keys
  unfolding rebuild_keys collect
  collect-rebuild_keys =
      collect_boxes (rebuild_keys b keys run rh) at keys sorted (λ t l. at-lt (keys ! t))
        (λ m l. let p = box m l in (p.lo, p.hi, box-Stretch m p, box-Stored m p)) slots 0 0
        (omega arith) (omega arith) (λ t l. absurd (omega arith)) (λ t g l. omega arith)
