-- ===== src/ClusterJumpD/Collected.antt =====
-- collect of include/cluster_jump_dynamic.hpp gives back the keys that rebuild was given.
use native.Mathlib.Decide.{dec_lt}
use fusion_tree_benchmark.Prelude.{
  ℕ, zero, suc, ◌+◌, ◌-◌, ◌*◌, ◌≤◌, ◌<◌, ◌≡◌, refl, ap, inl, inr, false, List, [], ◌∷◌, ◌++◌,
  list_ext, length, take, drop, slice, ◌!◌, ◌==◌, ok, load-ok, arith,
}
use fusion_tree_benchmark.Word.Signed.{flip-flip}
use fusion_tree_benchmark.Spec.{IsKeys}
use fusion_tree_benchmark.Search.{flipped_copy}
use fusion_tree_benchmark.Search.LastMile.{length-flipped_copy, flipped_copy-key}
use fusion_tree_benchmark.ClusterJumpD.{cap, Bucket, box_key}
use fusion_tree_benchmark.ClusterJumpD.Insert.{collect_box, collect_from}
use fusion_tree_benchmark.ClusterJumpD.Stored.{Stored, slice-IsKeys}
use fusion_tree_benchmark.ClusterJumpD.Rows.{Stretch}

drop-all : (xs : List ℕ) (i : ℕ) → i ≡ length xs → [] ≡ drop i xs
drop-all xs zero e = list_ext [] xs e (λ t l. absurd (omega arith))
drop-all [] (suc i) e = refl
drop-all (x ∷ xs) (suc i) e = drop-all xs i (omega (arith, e))

drop-step : (xs : List ℕ) (i : ℕ) → i < length xs → xs ! i ∷ drop (suc i) xs ≡ drop i xs
drop-step [] i l = absurd (omega arith)
drop-step (x ∷ xs) zero l = refl
drop-step (x ∷ xs) (suc i) l = drop-step xs i (omega arith)

take-drop : (n : ℕ) (xs : List ℕ) → take n xs ++ drop n xs ≡ xs
take-drop zero xs = refl
take-drop (suc n) [] = refl
take-drop (suc n) (x ∷ xs) = ap (λ r. x ∷ r) (take-drop n xs)

drop-drop : (lo n m : ℕ) (xs : List ℕ) → m ≡ lo + n → drop m xs ≡ drop n (drop lo xs)
drop-drop zero n m xs e = ap (λ k. drop k xs) (omega (arith, e))
drop-drop (suc lo) n zero xs e = absurd (omega (arith, e))
drop-drop (suc lo) zero (suc m) [] e = refl
drop-drop (suc lo) (suc n) (suc m) [] e = refl
drop-drop (suc lo) n (suc m) (x ∷ xs) e = drop-drop lo n m xs (omega (arith, e))

-- A stretch and what stands behind it.
slice-drop :
    (xs : List ℕ) (lo hi : ℕ) → lo ≤ hi → hi ≤ length xs → slice xs lo hi ++ drop hi xs ≡ drop lo xs
slice-drop xs lo hi h l =
    rw (drop-drop lo (hi - lo) hi xs (omega arith)) (take-drop (hi - lo) (drop lo xs))

module _ (b : Bucket) (j : ℕ) (ks : List ℕ) (keys : IsKeys ks) (s : Stored b j ks) where
  box_key-Stored : (i : ℕ) → i < length ks → box_key b j i ≡ ok (ks ! i)
  unfolding box_key
  box_key-Stored i l = elim s.place [
    | inl (over, box) ↦
        rw
          (
            over,
            load-ok b.blocks (j * cap + i) 0 (omega (arith, box.inside, box.few)),
            box.key i l,
            flip-flip (ks ! i) (keys.words i l),
          )
          refl
    | inr (o, over, list) ↦
        let nonzero : (suc o == 0) ≡ false = ground arith in
        let at : suc o - 1 ≡ o = omega arith in
        rw
          (
            over,
            nonzero,
            at,
            list,
            load-ok (flipped_copy 8 ks) i 0 (omega (arith, length-flipped_copy 8 ks)),
            flipped_copy-key 8 ks i l,
            flip-flip (ks ! i) (keys.words i l),
          )
          refl
  ]

  collect_rest : (left i : ℕ) → i + left ≡ length ks → collect_box b j left i ≡ ok (drop i ks)
  unfolding collect_box
  collect_rest zero i e = ap ok (drop-all ks i (omega arith))
  collect_rest (suc left) i e =
      rw (box_key-Stored i (omega arith), collect_rest left (suc i) (omega arith))
        (ap ok (drop-step ks i (omega arith)))

module _ (b : Bucket) (slot : ℕ → ℕ) (keys : List ℕ) (sorted : IsKeys keys)
    (inside : (t : ℕ) → t < length keys → slot (keys ! t) < b.slots)
    (stored : (m : ℕ)
      → m < b.slots
      → (lo : ℕ) × (hi : ℕ) × Stretch slot keys m lo hi × Stored b m (slice keys lo hi)) where
  pub collect_boxes :
      (left m p : ℕ)
      → m + left ≡ b.slots
      → p ≤ length keys
      → ((t : ℕ) → t < p → slot (keys ! t) < m)
      → ((t : ℕ) → p ≤ t → t < length keys → m ≤ slot (keys ! t))
      → collect_from b left m ≡ ok (drop p keys)
  unfolding collect_from
  collect_boxes zero m p e l below above = elim (dec_lt p (length keys)) [
    | yes more ↦ absurd (omega (arith, inside p more, above p (omega arith) more))
    | no done ↦ ap ok (drop-all keys p (omega arith))
  ]
  collect_boxes (suc left) m p e l below above =
      let (lo, hi, st, box) = stored m (omega arith) in
      let same : p ≡ lo = elim (dec_lt p lo) [
        | yes early ↦ absurd (
            omega (
              arith,
              st.ordered,
              st.upto,
              st.before p early,
              above p (omega arith) (omega (arith, st.ordered, st.upto)),
            ))
        | no not_early ↦ elim (dec_lt lo p) [
          | yes late ↦
              absurd (omega (arith, below lo late, st.reach lo (omega arith) (omega arith)))
          | no not_late ↦ omega arith
        ]
      ] in
      let cut = slice-IsKeys keys lo hi sorted st.ordered st.upto in
      let rest =
        collect_boxes left (suc m) hi (omega arith) st.upto (λ t g. omega (arith, st.within t g))
          (λ t g r. st.behind t g r) in
      rw
        (
          box.counted,
          collect_rest b m (slice keys lo hi) cut box (length (slice keys lo hi)) 0 (omega arith),
          rest,
          same,
        )
        (ap ok (slice-drop keys lo hi st.ordered st.upto))
