-- ===== src/ClusterJumpD/Booking.antt =====
-- The three ways in which insert of include/cluster_jump_dynamic.hpp changes a box: what stays in the
-- bucket, and where the keys are.
use fusion_tree_benchmark.Prelude.{
  ℕ, suc, ◌+◌, ◌*◌, ◌^◌, ◌<◌, ◌≡◌, inl, inr, refl, ap, sym, ◌∙◌, List, [], ◌∷◌, ◌++◌, length, put,
  ok, load, load-lt, load-put_same, load-put_other, load-append_left, arith,
}
use fusion_tree_benchmark.Word.Signed.{flip}
use fusion_tree_benchmark.Spec.{IsKeys, rank, rank-Splits}
use fusion_tree_benchmark.Buckets.{to_u32}
use fusion_tree_benchmark.Buckets.Cuts.{to_u32-eq}
use fusion_tree_benchmark.ClusterJumpD.{cap, Bucket}
use fusion_tree_benchmark.ClusterJumpD.Box.{Holds}
use fusion_tree_benchmark.ClusterJumpD.Splice.{length-shift_in, shift_in_outside}
use fusion_tree_benchmark.ClusterJumpD.Frame.{
  Framed, Booked, grown-Framed, length-clear_box, clear_box-pad, clear_box_outside,
}
use fusion_tree_benchmark.ClusterJumpD.Insert.{shift_in, clear_box, grown}

module _ (b : Bucket) (j : ℕ) (ks : List ℕ) (k : ℕ) (keys : IsKeys ks) where
  same_list :
      (big : List (List ℕ)) (o i : ℕ) (v : List ℕ)
      → load b.over j ≡ ok (suc o)
      → ¬ (load b.over j ≡ ok (suc i))
      → load (put big o v) i ≡ load big i
  same_list big o i v over other =
      load-put_other big o i v (λ e. other (over ∙ ap (λ t. ok (suc t)) (sym e)))

  pub shifted_in-Framed :
      Holds b.blocks (j * cap) ks
      → length ks < cap
      → Framed b j (
          grown b j
            (shift_in b.blocks (j * cap) (length ks) (rank ks k) (flip k))
            (length ks + 1)
            0
            b.big
            b.overflow_keys)
  shifted_in-Framed box room =
      let low = (rank-Splits ks k keys).inside in
      grown-Framed b j _ _ _ _ _
        (length-shift_in b.blocks (j * cap) (length ks) (rank ks k) (flip k) low room box.inside)
        (shift_in_outside b.blocks (j * cap) (length ks) (rank ks k) (flip k) low room box.inside)
        (λ o h n. refl)

  pub shifted_in-Booked :
      load b.over j ≡ ok 0
      → length ks < cap
      → Booked b j (length ks) (
          grown b j
            (shift_in b.blocks (j * cap) (length ks) (rank ks k) (flip k))
            (length ks + 1)
            0
            b.big
            b.overflow_keys)
  unfolding grown
  shifted_in-Booked over room =
      inl (room, over, load-put_same b.over j 0 (load-lt b.over j _ over), refl)

  abbrev pub spilled : List ℕ → Bucket
  spilled v =
      grown b j (clear_box b.blocks (j * cap)) (cap + 1) (to_u32 (suc (length b.big)))
        (b.big ++ v ∷ []) (b.overflow_keys + cap + 1)

  pub spilled-Framed : (v : List ℕ) → Holds b.blocks (j * cap) ks → Framed b j (spilled v)
  spilled-Framed v box =
      grown-Framed b j _ _ _ _ _ (length-clear_box b.blocks (j * cap) box.inside)
        (clear_box_outside b.blocks (j * cap) box.inside)
        (λ o h n. load-append_left b.big (v ∷ []) o h)

  pub spilled-Booked :
      (v : List ℕ)
      → load b.over j ≡ ok 0
      → length ks ≡ cap
      → length b.big + 1 < 2 ^ 32
      → Holds b.blocks (j * cap) ks
      → Booked b j (length ks) (spilled v)
  unfolding grown
  spilled-Booked v over full few box =
      let number : to_u32 (suc (length b.big)) ≡ suc (length b.big) =
        to_u32-eq (suc (length b.big)) (omega arith) in
      inr (
        inl (
          full,
          over,
          load-put_same b.over j _ (load-lt b.over j _ over) ∙ ap ok number,
          refl,
          clear_box-pad b.blocks (j * cap) box.inside,
        ))

  abbrev pub listed : ℕ → List ℕ → Bucket
  listed o v = grown b j b.blocks (length ks + 1) (suc o) (put b.big o v) (b.overflow_keys + 1)

  pub listed-Framed : (o : ℕ) (v : List ℕ) → load b.over j ≡ ok (suc o) → Framed b j (listed o v)
  listed-Framed o v over =
      grown-Framed b j _ _ _ _ _ refl (λ m h. refl) (λ i h n. same_list b.big o i v over n)

  pub listed-Booked :
      (o : ℕ) (v : List ℕ) → load b.over j ≡ ok (suc o) → Booked b j (length ks) (listed o v)
  unfolding grown
  listed-Booked o v over =
      inr (inr (o, over, load-put_same b.over j (suc o) (load-lt b.over j _ over), refl, refl))
