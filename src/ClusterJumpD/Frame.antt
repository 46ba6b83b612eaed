-- ===== src/ClusterJumpD/Frame.antt =====
-- What insert of include/cluster_jump_dynamic.hpp leaves alone in a bucket, and the number of keys in
-- overflow lists.
use fusion_tree_benchmark.Prelude.{
  ℕ, suc, ◌+◌, ◌-◌, ◌*◌, ◌≤◌, ◌<◌, ◌≡◌, ◌≢◌, ◌⊎◌, inl, inr, refl, ap, ◌∙◌, List, ◌++◌, length, take,
  drop, replicate, ◌!◌, ok, load, load-put_other, arith, length-append, length-take, length-drop,
  length-replicate, get_or-append_left, get_or-append_right, get_or-take, get_or-drop,
  get_or-replicate,
}
use fusion_tree_benchmark.Search.{pad}
use fusion_tree_benchmark.ClusterJumpD.{cap, Bucket}
use fusion_tree_benchmark.ClusterJumpD.Insert.{clear_box, grown}

module _ (blocks : List ℕ) (p : ℕ) (inside : p + cap ≤ length blocks) where
  abbrev front : List ℕ
  front = take p blocks

  abbrev empty : List ℕ
  empty = replicate cap pad

  abbrev behind : List ℕ
  behind = drop (p + cap) blocks

  size : length front ≡ p
  size = length-take p blocks (omega arith)

  sized : length (front ++ empty) ≡ p + cap
  sized = omega (arith, size, length-append {0} front empty, length-replicate {0} cap pad)

  pub length-clear_box : length (clear_box blocks p) ≡ length blocks
  unfolding clear_box
  length-clear_box = omega (
    arith,
    sized,
    length-append {0} (front ++ empty) behind,
    length-drop {0} (p + cap) blocks inside,
  )

  -- The places of the box are padding.
  pub clear_box-pad : (i : ℕ) → i < cap → clear_box blocks p ! (p + i) ≡ pad
  unfolding clear_box
  clear_box-pad i h =
      get_or-append_left (front ++ empty) behind (p + i) 0 (omega (arith, sized))
      ∙ get_or-append_right front empty i (p + i) 0 (omega (arith, size))
      ∙ get_or-replicate cap i pad 0 h

  pub clear_box_outside : (m : ℕ) → (m < p) ⊎ (p + cap ≤ m) → clear_box blocks p ! m ≡ blocks ! m
  unfolding clear_box
  clear_box_outside m (inl l) =
      get_or-append_left (front ++ empty) behind m 0 (omega (arith, sized))
      ∙ get_or-append_left front empty m 0 (omega (arith, size))
      ∙ get_or-take p blocks m 0 l
  clear_box_outside m (inr g) =
      get_or-append_right (front ++ empty) behind (m - (p + cap)) m 0 (omega (arith, sized))
      ∙ get_or-drop (p + cap) blocks (m - (p + cap)) 0
      ∙ ap (λ t. blocks ! t) (omega arith)

-- `b'` is `b` but for box `j`, its number of keys, its list, and the counts of the bucket.
pub record Framed (b : Bucket) (j : ℕ) (b' : Bucket) : Type 0 where
  pub base : b'.base ≡ b.base
  pub shift : b'.shift ≡ b.shift
  pub slots : b'.slots ≡ b.slots
  pub floor : b'.floor ≡ b.floor
  pub has : b'.has ≡ b.has
  pub bfloor : b'.bfloor ≡ b.bfloor
  pub bhas : b'.bhas ≡ b.bhas
  pub at_rebuild : b'.overflow_at_rebuild ≡ b.overflow_at_rebuild
  pub size : length b'.blocks ≡ length b.blocks
  pub boxes : (m : ℕ) → (m < j * cap) ⊎ (j * cap + cap ≤ m) → b'.blocks ! m ≡ b.blocks ! m
  pub counts : (i : ℕ) → i ≢ j → load b'.count i ≡ load b.count i
  pub overs : (i : ℕ) → i ≢ j → load b'.over i ≡ load b.over i
  pub lists :
      (o : ℕ) → o < length b.big → ¬ (load b.over j ≡ ok (suc o)) → load b'.big o ≡ load b.big o

pub grown-Framed :
    (b : Bucket) (j : ℕ) (blocks : List ℕ) (count over : ℕ) (big : List (List ℕ)) (keys : ℕ)
    → length blocks ≡ length b.blocks
    → ((m : ℕ) → (m < j * cap) ⊎ (j * cap + cap ≤ m) → blocks ! m ≡ b.blocks ! m)
    → ((o : ℕ) → o < length b.big → ¬ (load b.over j ≡ ok (suc o)) → load big o ≡ load b.big o)
    → Framed b j (grown b j blocks count over big keys)
unfolding grown
grown-Framed b j blocks count over big keys size boxes lists = record {
  base = refl;
  shift = refl;
  slots = refl;
  floor = refl;
  has = refl;
  bfloor = refl;
  bhas = refl;
  at_rebuild = refl;
  size = size;
  boxes = boxes;
  counts = λ i h. load-put_other b.count j i _ h;
  overs = λ i h. load-put_other b.over j i over h;
  lists = lists;
}

-- Where the keys of box `j` are after the change, and the number of keys in lists: in the box; in a new
-- list, with the box empty; or in the list in which they were.
abbrev pub Booked : Bucket → ℕ → ℕ → Bucket → Type 0
Booked b j n b' =
    ((n < cap)
      × (load b.over j ≡ ok 0)
      × (load b'.over j ≡ ok 0)
      × (b'.overflow_keys ≡ b.overflow_keys))
    ⊎ (((n ≡ cap)
          × (load b.over j ≡ ok 0)
          × (load b'.over j ≡ ok (suc (length b.big)))
          × (b'.overflow_keys ≡ b.overflow_keys + cap + 1)
          × ((i : ℕ) → i < cap → b'.blocks ! (j * cap + i) ≡ pad))
        ⊎ ((o : ℕ) × (load b.over j ≡ ok (suc o))
            × (load b'.over j ≡ ok (suc o))
            × (b'.overflow_keys ≡ b.overflow_keys + 1)
            × (b'.blocks ≡ b.blocks)))
