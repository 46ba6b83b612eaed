-- ===== src/ClusterJumpD/Adding.antt =====
-- The change that insert of include/cluster_jump_dynamic.hpp makes to one box.
use mathlib.Core.Bool.{false≢true}
use native.Mathlib.Decide.{dec_lt}
use fusion_tree_benchmark.Prelude.{
  ℕ, suc, ◌+◌, ◌-◌, ◌*◌, ◌^◌, ◌≤◌, ◌<◌, ◌≡◌, ◌≢◌, inl, inr, refl, ap, sym, ◌∙◌, Bool, true, false,
  List, [], ◌∷◌, ◌++◌, length, slice, replicate, put, ◌!◌, ltb, ◌==◌, if◌then◌else◌, Option, none,
  some, ok, Returns, returns, load, load-ok, load-lt, load-put_same, load-append_end, arith,
  Bool-cases, ==_iff, ltb→lt, ltb→le,
}
use fusion_tree_benchmark.Word.{word}
use fusion_tree_benchmark.Word.Signed.{flip, flip-flip}
use fusion_tree_benchmark.Spec.{IsKeys, rank, rank-Splits}
use fusion_tree_benchmark.Buckets.{to_u32}
use fusion_tree_benchmark.Buckets.Cuts.{to_u32-eq}
use fusion_tree_benchmark.Search.{pad, flipped_copy}
use fusion_tree_benchmark.Search.LastMile.{length-flipped_copy, flipped_copy-key}
use fusion_tree_benchmark.ClusterJumpD.{cap, Bucket}
use fusion_tree_benchmark.ClusterJumpD.Box.{Holds, rank16-rank}
use fusion_tree_benchmark.ClusterJumpD.Splice.{
  insert_at-IsKeys, insert_at-flipped_copy, spilled_list, shift_in-Holds, length-insert_at,
}
use fusion_tree_benchmark.ClusterJumpD.Booking.{
  shifted_in-Framed, shifted_in-Booked, spilled-Framed, spilled-Booked, listed-Framed,
  listed-Booked,
}
use fusion_tree_benchmark.ClusterJumpD.Frame.{Framed, Booked}
use fusion_tree_benchmark.ClusterJumpD.Stored.{Stored, rank_sorted-rank}
use fusion_tree_benchmark.ClusterJumpD.Insert.{
  insert_at, shift_in, clear_box, grown, present, insert_box, insert_big, insert_slot,
}

flip-eq : (x y : ℕ) → x < word → y < word → (flip x == flip y) ≡ true → x ≡ y
flip-eq x y p r e = sym (flip-flip x p) ∙ ap flip ((==_iff (flip x) (flip y)).0 e) ∙ flip-flip y r

-- What `insert_slot` may do with key `k` in a box that stored `ks`.
abbrev pub Inserted : Bucket → ℕ → ℕ → List ℕ → Option Bucket → Type 0
Inserted b j k ks none = (i : ℕ) × (i < length ks) × (ks ! i ≡ k)
Inserted b j k ks (some b') =
    ((i : ℕ) → i < length ks → ks ! i ≢ k)
    × Stored b' j (insert_at ks (rank ks k) k)
    × IsKeys (insert_at ks (rank ks k) k)
    × (b'.total ≡ b.total + 1)
    × Framed b j b'
    × Booked b j (length ks) b'

module _ (ks : List ℕ) (k : ℕ) (keys : IsKeys ks) (small : k < word) where
  -- The key in the place where `k` would go, if any, decides whether it is present.
  abbrev Decided : Bool → Type 0
  Decided true = (i : ℕ) × (i < length ks) × (ks ! i ≡ k)
  Decided false = (i : ℕ) → i < length ks → ks ! i ≢ k

  rank_absent : (rank ks k < length ks → ks ! rank ks k ≢ k) → (i : ℕ) → i < length ks → ks ! i ≢ k
  rank_absent other i l e =
      let s = rank-Splits ks k keys in
      elim (dec_lt i (rank ks k)) [
        | yes early ↦ absurd (omega (arith, s.below i early, e))
        | no late ↦
            let r : rank ks k < length ks = omega arith in
            other r (
              omega (
                arith,
                e,
                keys.sorted (rank ks k) i (omega arith) l,
                s.above (rank ks k) (omega arith) r,
              ))
      ]

  present-Decided :
      (v : List ℕ) (p : ℕ)
      → p + length ks ≤ length v
      → ((i : ℕ) → i < length ks → v ! (p + i) ≡ flip (ks ! i))
      → Returns Decided (present v p (length ks) (rank ks k) (flip k))
  unfolding present
  present-Decided v p inside held = elim (Bool-cases (ltb (rank ks k) (length ks))) [
    | inr last ↦ rw last (returns (rank_absent (λ l e. absurd (omega (arith, l, ltb→le _ _ last)))))
    | inl more ↦
        let l : rank ks k < length ks = ltb→lt _ _ more in
        elim (Bool-cases (flip (ks ! rank ks k) == flip k)) [
          | inl same ↦
              rw (more, load-ok v (p + rank ks k) 0 (omega arith), held (rank ks k) l, same)
                (returns (rank ks k, l, flip-eq _ k (keys.words _ l) small same))
          | inr other ↦
              rw (more, load-ok v (p + rank ks k) 0 (omega arith), held (rank ks k) l, other)
                (returns (rank_absent (λ _ e. false≢true (sym other ∙ (==_iff _ _).1 (ap flip e)))))
        ]
  ]

module _ (b : Bucket) (j : ℕ) (ks : List ℕ) (k : ℕ) (keys : IsKeys ks) (small : k < word)
    (s : Stored b j ks) where
  abbrev longer : List ℕ
  longer = insert_at ks (rank ks k) k

  -- The key goes into one of the sixteen places.
  shifted_in-Stored :
      load b.over j ≡ ok 0
      → Holds b.blocks (j * cap) ks
      → length ks < cap
      → Stored
          (grown b j
            (shift_in b.blocks (j * cap) (length ks) (rank ks k) (flip k))
            (length ks + 1)
            0
            b.big
            b.overflow_keys)
          j
          longer
  unfolding grown
  shifted_in-Stored over box room =
      let low = (rank-Splits ks k keys).inside in
      let size = length-insert_at ks (rank ks k) k low in
      let count : to_u32 (length ks + 1) ≡ length longer =
        to_u32-eq (length ks + 1) (omega arith) ∙ omega arith in
      record {
        counted = load-put_same b.count j _ (load-lt b.count j _ s.counted) ∙ ap ok count;
        place = inl (
          load-put_same b.over j 0 (load-lt b.over j _ over),
          shift_in-Holds b.blocks (j * cap) ks (rank ks k) k box low room,
        );
      }

  -- The key goes into the overflow list of the box.
  listed-Stored :
      (o : ℕ)
      → load b.over j ≡ ok (suc o)
      → o < length b.big
      → length ks + 1 < 2 ^ 32
      → (v : List ℕ) → v ≡ flipped_copy 8 longer
      → Stored
          (grown b j b.blocks (length ks + 1) (suc o) (put b.big o v) (b.overflow_keys + 1))
          j
          longer
  unfolding grown
  listed-Stored o over there few v e =
      let low = (rank-Splits ks k keys).inside in
      let size = length-insert_at ks (rank ks k) k low in
      let count : to_u32 (length ks + 1) ≡ length longer =
        to_u32-eq (length ks + 1) few ∙ omega arith in
      record {
        counted = load-put_same b.count j _ (load-lt b.count j _ s.counted) ∙ ap ok count;
        place = inr (
          o,
          load-put_same b.over j (suc o) (load-lt b.over j _ over),
          load-put_same b.big o v there ∙ ap ok e,
        );
      }

  -- The full box becomes a list.
  spilled-Stored :
      load b.over j ≡ ok 0
      → length ks ≡ cap
      → length b.big + 1 < 2 ^ 32
      → (blocks v : List ℕ) → v ≡ flipped_copy 8 longer
      → Stored
          (grown b j blocks
            (cap + 1)
            (to_u32 (suc (length b.big)))
            (b.big ++ v ∷ [])
            (b.overflow_keys + cap + 1))
          j
          longer
  unfolding grown
  spilled-Stored over full few blocks v e =
      let low = (rank-Splits ks k keys).inside in
      let size = length-insert_at ks (rank ks k) k low in
      let count : to_u32 (cap + 1) ≡ length longer =
        to_u32-eq (cap + 1) (omega arith) ∙ omega arith in
      let number : to_u32 (suc (length b.big)) ≡ suc (length b.big) =
        to_u32-eq (suc (length b.big)) (omega arith) in
      record {
        counted = load-put_same b.count j _ (load-lt b.count j _ s.counted) ∙ ap ok count;
        place = inr (
          length b.big,
          load-put_same b.over j _ (load-lt b.over j _ over) ∙ ap ok number,
          load-append_end b.big v ∙ ap ok e,
        );
      }

  Decided-Inserted :
      (there : Bool) (b' : Bucket)
      → Decided ks k keys small there
      → Stored b' j longer
      → b'.total ≡ b.total + 1
      → Framed b j b'
      → Booked b j (length ks) b'
      → Returns (Inserted b j k ks) (ok (if there then none else some b'))
  Decided-Inserted true b' d st e f g = returns d
  Decided-Inserted false b' d st e f g =
      returns (d, st, insert_at-IsKeys ks (rank ks k) k keys (rank-Splits ks k keys) small, e, f, g)

  -- For a box that stores sorted 64-bit keys, fewer than 2 ^ 32 - 1 of them, in a bucket with fewer
  -- than 2 ^ 32 - 1 lists, and a 64-bit key: the change of the box ends and reads only inside its
  -- arrays. It leaves the bucket alone exactly where the key is among those stored; otherwise the box
  -- then stores them with the key inserted behind those below it, which are sorted 64-bit keys again,
  -- and the bucket counts one key more. A
  -- box with a free place keeps them there, and the number of keys in lists stays; a full box is left
  -- with padding only and its 17 keys go into a new list, and count as keys in lists; a list grows by
  -- one, as does that number, and the boxes stay. The other boxes, their numbers of keys and their
  -- lists, all floors and the bucket's range are as before.
  pub insert_slot-Inserted :
      length ks + 1 < 2 ^ 32
      → length b.big + 1 < 2 ^ 32
      → Returns (Inserted b j k ks) (insert_slot b j k)
  unfolding insert_slot insert_box insert_big grown
  insert_slot-Inserted few lists = elim s.place [
    | inl (over, box) ↦
        let (there, run, decided) =
          present-Decided ks k keys small b.blocks (j * cap) (omega (arith, box.inside, box.few))
            box.key in
        let low = (rank-Splits ks k keys).inside in
        elim (Bool-cases (length ks == cap)) [
          | inl full ↦
              let size : length ks ≡ cap = (==_iff (length ks) cap).0 full in
              rw (over, rank16-rank b.blocks (j * cap) ks k box keys small, s.counted, run, full)
                (Decided-Inserted there _ decided
                  (spilled-Stored over size lists (clear_box b.blocks (j * cap)) _
                    (spilled_list b.blocks (j * cap) ks (rank ks k) k box size low))
                  refl
                  (spilled-Framed b j ks k keys
                    (insert_at (slice b.blocks (j * cap) (j * cap + cap)) (rank ks k) (flip k)
                      ++ replicate 8 pad)
                    box)
                  (spilled-Booked b j ks k keys
                    (insert_at (slice b.blocks (j * cap) (j * cap + cap)) (rank ks k) (flip k)
                      ++ replicate 8 pad)
                    over size lists box))
          | inr room ↦
              let free : length ks < cap = ground (arith, box.few) in
              rw (over, rank16-rank b.blocks (j * cap) ks k box keys small, s.counted, run, room)
                (Decided-Inserted there _ decided (shifted_in-Stored over box free) refl
                  (shifted_in-Framed b j ks k keys box free)
                  (shifted_in-Booked b j ks k keys over free))
        ]
    | inr (o, over, list) ↦
        let nonzero : (suc o == 0) ≡ false = ground arith in
        let at : suc o - 1 ≡ o = omega arith in
        let (there, run, decided) =
          present-Decided ks k keys small (flipped_copy 8 ks) 0
            (omega (arith, length-flipped_copy 8 ks))
            (λ i l. ap (λ t. flipped_copy 8 ks ! t) (omega arith) ∙ flipped_copy-key 8 ks i l) in
        let low = (rank-Splits ks k keys).inside in
        rw (over, nonzero, at, list, s.counted, rank_sorted-rank ks k keys small, run)
          (Decided-Inserted there _ decided
            (listed-Stored o over (load-lt b.big o _ list) few _
              (insert_at-flipped_copy ks (rank ks k) k low))
            refl
            (listed-Framed b j ks k keys o (insert_at (flipped_copy 8 ks) (rank ks k) (flip k))
              over)
            (listed-Booked b j ks k keys o (insert_at (flipped_copy 8 ks) (rank ks k) (flip k))
              over))
  ]
