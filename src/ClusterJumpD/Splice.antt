-- ===== src/ClusterJumpD/Splice.antt =====
-- Where the keys of a box stand after the insertion of include/cluster_jump_dynamic.hpp.
use fusion_tree_benchmark.Prelude.{
  ℕ, zero, suc, ◌+◌, ◌-◌, ◌≤◌, ◌<◌, ◌≡◌, refl, sym, ap, ◌∙◌, List, [], ◌∷◌, ◌++◌, map, list_ext,
  length-map, get_or-map, length, take, drop, slice, ◌!◌, arith, replicate, length-append,
  length-take, length-slice, length-drop, get_or-drop, get_or-take, ◌⊎◌, inl, inr, get_or-slice,
  get_or-append_left, get_or-append_right,
}
use native.Mathlib.Decide.{dec_lt}
use fusion_tree_benchmark.Word.{word}
use fusion_tree_benchmark.Spec.{IsKeys, Splits}
use fusion_tree_benchmark.Word.Signed.{flip}
use fusion_tree_benchmark.Search.{pad, flipped_copy}
use fusion_tree_benchmark.ClusterJumpD.{cap}
use fusion_tree_benchmark.ClusterJumpD.Insert.{insert_at, shift_in}
use fusion_tree_benchmark.ClusterJumpD.Box.{Holds}

module _ (v rest : List ℕ) (a x : ℕ) (h : a ≤ length v) where
  joint_left : (i : ℕ) → i < a → (take a v ++ x ∷ rest) ! i ≡ v ! i
  joint_left i l =
      get_or-append_left (take a v) (x ∷ rest) i 0 (omega (arith, length-take {0} a v h))
      ∙ get_or-take a v i 0 l

  joint_at : (i : ℕ) → i ≡ a → (take a v ++ x ∷ rest) ! i ≡ x
  joint_at i e =
      get_or-append_right (take a v) (x ∷ rest) 0 i 0 (omega (arith, length-take {0} a v h))

  joint_right : (i j : ℕ) → j ≡ suc a + i → (take a v ++ x ∷ rest) ! j ≡ rest ! i
  joint_right i j e =
      get_or-append_right (take a v) (x ∷ rest) (suc i) j 0 (omega (arith, length-take {0} a v h))

module _ (v : List ℕ) (a x : ℕ) (h : a ≤ length v) where
  pub length-insert_at : length (insert_at v a x) ≡ suc (length v)
  unfolding insert_at
  length-insert_at = omega (
    arith,
    length-append {0} (take a v) (x ∷ drop a v),
    length-take {0} a v h,
    length-drop {0} a v h,
  )

  pub insert_at_before : (i : ℕ) → i < a → insert_at v a x ! i ≡ v ! i
  unfolding insert_at
  insert_at_before i l = joint_left v (drop a v) a x h i l

  pub insert_at_same : (i : ℕ) → i ≡ a → insert_at v a x ! i ≡ x
  unfolding insert_at
  insert_at_same i e = joint_at v (drop a v) a x h i e

  pub insert_at_behind : (i : ℕ) → a < i → insert_at v a x ! i ≡ v ! (i - 1)
  unfolding insert_at
  insert_at_behind i g =
      joint_right v (drop a v) a x h (i - suc a) i (omega arith)
      ∙ get_or-drop a v (i - suc a) 0
      ∙ ap (λ m. v ! m) (omega arith)

  -- The three cases of a place after the insertion.
  pub insert_at_cases :
      (i : ℕ)
      → ((i < a) × (insert_at v a x ! i ≡ v ! i))
        ⊎ (((i ≡ a) × (insert_at v a x ! i ≡ x)) ⊎ ((a < i) × (insert_at v a x ! i ≡ v ! (i - 1))))
  insert_at_cases i = elim (dec_lt i a) [
    | yes early ↦ inl (early, insert_at_before i early)
    | no late ↦ elim (dec_lt a i) [
      | yes behind ↦ inr (inr (behind, insert_at_behind i behind))
      | no here ↦ inr (inl (omega arith, insert_at_same i (omega arith)))
    ]
  ]

-- A key goes in front of the keys that are not below it: the keys stay sorted words.
module _ (ks : List ℕ) (a k : ℕ) (keys : IsKeys ks) (s : Splits ks k a) (small : k < word) where
  insert_at-sorted :
      (i j : ℕ) → i ≤ j → j < suc (length ks) → insert_at ks a k ! i ≤ insert_at ks a k ! j
  insert_at-sorted i j p l = elim (insert_at_cases ks a k s.inside i) [
    | inl (b, e) ↦ elim (insert_at_cases ks a k s.inside j) [
      | inl (b', e') ↦ rw (e, e') (keys.sorted i j p (omega (arith, s.inside)))
      | inr (inl (b', e')) ↦ rw (e, e') (omega (arith, s.below i b))
      | inr (inr (b', e')) ↦
          rw (e, e') (keys.sorted i (j - 1) (omega arith) (omega (arith, s.inside)))
    ]
    | inr (inl (b, e)) ↦ elim (insert_at_cases ks a k s.inside j) [
      | inl (b', e') ↦ absurd (omega arith)
      | inr (inl (b', e')) ↦ rw (e, e') (omega arith)
      | inr (inr (b', e')) ↦ rw (e, e') (s.above (j - 1) (omega arith) (omega arith))
    ]
    | inr (inr (b, e)) ↦
        rw (e, insert_at_behind ks a k s.inside j (omega arith))
          (keys.sorted (i - 1) (j - 1) (omega arith) (omega arith))
  ]

  insert_at-words : (i : ℕ) → i < suc (length ks) → insert_at ks a k ! i < word
  insert_at-words i l = elim (insert_at_cases ks a k s.inside i) [
    | inl (b, e) ↦ rw e (keys.words i (omega (arith, s.inside)))
    | inr (inl (b, e)) ↦ rw e small
    | inr (inr (b, e)) ↦ rw e (keys.words (i - 1) (omega arith))
  ]

  pub insert_at-IsKeys : IsKeys (insert_at ks a k)
  insert_at-IsKeys =
      let size = length-insert_at ks a k s.inside in
      record {
        sorted = λ i j p l. insert_at-sorted i j p (omega arith);
        words = λ i l. insert_at-words i (omega arith);
      }

module _ (blocks : List ℕ) (p c a x : ℕ) (low : a ≤ c) (room : c < cap)
    (inside : p + cap ≤ length blocks) where
  abbrev rest : List ℕ
  rest = slice blocks (p + a) (p + c) ++ drop (p + c + 1) blocks

  pub shift_in_before : (m : ℕ) → m < p + a → shift_in blocks p c a x ! m ≡ blocks ! m
  unfolding shift_in
  shift_in_before m l = joint_left blocks rest (p + a) x (omega arith) m l

  pub shift_in_same : (m : ℕ) → m ≡ p + a → shift_in blocks p c a x ! m ≡ x
  unfolding shift_in
  shift_in_same m e = joint_at blocks rest (p + a) x (omega arith) m e

  moved_size : length (slice blocks (p + a) (p + c)) ≡ c - a
  moved_size = length-slice blocks (p + a) (p + c) (omega arith) (omega arith) ∙ omega arith

  pub shift_in_moved :
      (m : ℕ) → p + a < m → m ≤ p + c → shift_in blocks p c a x ! m ≡ blocks ! (m - 1)
  unfolding shift_in
  shift_in_moved m g l =
      joint_right blocks rest (p + a) x (omega arith) (m - suc (p + a)) m (omega arith)
      ∙ get_or-append_left (slice blocks (p + a) (p + c)) (drop (p + c + 1) blocks)
          (m - suc (p + a)) 0 (omega (arith, moved_size))
      ∙ get_or-slice blocks (p + a) (p + c) (m - suc (p + a)) 0 (omega arith)
      ∙ ap (λ t. blocks ! t) (omega arith)

  pub shift_in_behind : (m : ℕ) → p + c < m → shift_in blocks p c a x ! m ≡ blocks ! m
  unfolding shift_in
  shift_in_behind m g =
      joint_right blocks rest (p + a) x (omega arith) (m - suc (p + a)) m (omega arith)
      ∙ get_or-append_right (slice blocks (p + a) (p + c)) (drop (p + c + 1) blocks)
          (m - suc (p + c)) (m - suc (p + a)) 0 (omega (arith, moved_size))
      ∙ get_or-drop (p + c + 1) blocks (m - suc (p + c)) 0
      ∙ ap (λ t. blocks ! t) (omega arith)

  pub length-shift_in : length (shift_in blocks p c a x) ≡ length blocks
  unfolding shift_in
  length-shift_in = omega (
    arith,
    moved_size,
    length-take {0} (p + a) blocks (omega arith),
    length-drop {0} (p + c + 1) blocks (omega arith),
    length-append {0} (slice blocks (p + a) (p + c)) (drop (p + c + 1) blocks),
    length-append {0} (take (p + a) blocks) (x ∷ rest),
  )

  -- A place outside the box is as before.
  pub shift_in_outside :
      (m : ℕ) → (m < p) ⊎ (p + cap ≤ m) → shift_in blocks p c a x ! m ≡ blocks ! m
  shift_in_outside m (inl l) = shift_in_before m (omega arith)
  shift_in_outside m (inr g) = shift_in_behind m (omega arith)

-- The box then holds one key more.
module _ (blocks : List ℕ) (p : ℕ) (ks : List ℕ) (a k : ℕ) (h : Holds blocks p ks)
    (low : a ≤ length ks) (room : length ks < cap) where
  shifted_key :
      (i : ℕ)
      → i < suc (length ks)
      → shift_in blocks p (length ks) a (flip k) ! (p + i) ≡ flip (insert_at ks a k ! i)
  shifted_key i l = elim (insert_at_cases ks a k low i) [
    | inl (b, e) ↦
        rw
          (
            e,
            shift_in_before blocks p (length ks) a (flip k) low room h.inside (p + i) (omega arith),
          )
          (h.key i (omega arith))
    | inr (inl (b, e)) ↦
        rw
          (e, shift_in_same blocks p (length ks) a (flip k) low room h.inside (p + i) (omega arith))
          refl
    | inr (inr (b, e)) ↦
        rw
          (
            e,
            shift_in_moved blocks p (length ks) a (flip k) low room h.inside (p + i) (omega arith)
                (omega arith),
          )
          (ap (λ t. blocks ! t) (omega arith) ∙ h.key (i - 1) (omega arith))
  ]

  pub shift_in-Holds : Holds (shift_in blocks p (length ks) a (flip k)) p (insert_at ks a k)
  shift_in-Holds =
      let size = length-insert_at ks a k low in
      let kept = length-shift_in blocks p (length ks) a (flip k) low room h.inside in
      record {
        inside = omega (arith, h.inside);
        few = omega arith;
        key = λ i l. shifted_key i (omega arith);
        padding = λ i g l.
            shift_in_behind blocks p (length ks) a (flip k) low room h.inside (p + i) (omega arith)
            ∙ h.padding i (omega arith) l;
      }

insert_at-append :
    (xs ys : List ℕ) (a x : ℕ) → a ≤ length xs → insert_at (xs ++ ys) a x ≡ insert_at xs a x ++ ys
unfolding insert_at
insert_at-append xs ys zero x h = refl
insert_at-append [] ys (suc a) x h = absurd (omega arith)
insert_at-append (y ∷ xs) ys (suc a) x h =
    ap (λ r. y ∷ r) (insert_at-append xs ys a x (omega arith))

insert_at-map :
    (xs : List ℕ) (a k : ℕ)
    → a ≤ length xs
    → insert_at (map flip xs) a (flip k) ≡ map flip (insert_at xs a k)
unfolding insert_at
insert_at-map xs zero k h = refl
insert_at-map [] (suc a) k h = absurd (omega arith)
insert_at-map (y ∷ xs) (suc a) k h = ap (λ r. flip y ∷ r) (insert_at-map xs a k (omega arith))

-- An overflow list with the key is the list of the keys with the key.
pub insert_at-flipped_copy :
    (ks : List ℕ) (a k : ℕ)
    → a ≤ length ks
    → insert_at (flipped_copy 8 ks) a (flip k) ≡ flipped_copy 8 (insert_at ks a k)
unfolding flipped_copy
insert_at-flipped_copy ks a k h =
    insert_at-append (map flip ks) (replicate 8 pad) a (flip k)
      (omega (arith, length-map {0, 0} flip ks))
    ∙ ap (λ r. r ++ replicate 8 pad) (insert_at-map ks a k h)

-- The list that a full box spills into.
pub spilled_list :
    (blocks : List ℕ) (p : ℕ) (ks : List ℕ) (a k : ℕ)
    → Holds blocks p ks
    → length ks ≡ cap
    → a ≤ length ks
    → insert_at (slice blocks p (p + cap)) a (flip k) ++ replicate 8 pad
      ≡ flipped_copy 8 (insert_at ks a k)
unfolding flipped_copy
spilled_list blocks p ks a k h full low =
    let size = length-slice blocks p (p + cap) (omega arith) h.inside in
    let size_map = length-map {0, 0} flip ks in
    let same : slice blocks p (p + cap) ≡ map flip ks =
      list_ext (slice blocks p (p + cap)) (map flip ks) (omega arith) (λ i l.
        get_or-slice blocks p (p + cap) i 0 (omega arith)
        ∙ h.key i (omega arith)
        ∙ sym (get_or-map flip ks i 0 0 (omega arith))) in
    rw same (ap (λ r. r ++ replicate 8 pad) (insert_at-map ks a k low))
