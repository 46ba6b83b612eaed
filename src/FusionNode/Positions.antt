-- ===== src/FusionNode/Positions.antt =====
-- The positions that the construction of include/fusion_node.hpp collects rise strictly, so PEXT and the
-- loop over the positions give the same sketches.
use mathlib.Core.Bool.{false≢true}
use fusion_tree_benchmark.Prelude.{
  ℕ, suc, ◌≤◌, ◌<◌, ◌≡◌, refl, sym, ◌∙◌, Bool, true, false, Bool-cases, inl, inr, List, [], ◌∷◌,
  ◌++◌, length, leb, ◌==◌, if◌then◌else◌, arith, ap, Returns, map, none, some,
}
use fusion_tree_benchmark.Bits.{highest_diff_bit, mask_from_positions, extract_bits_naive}
use fusion_tree_benchmark.FusionNode.{
  seen, important, insert_sorted, sort, sketch_pext, build, sketch, sketch_with,
}
use fusion_tree_benchmark.Bits.HighDiff.{highest_diff_bit-lt}
use fusion_tree_benchmark.FusionNode.Important.{All-sort, All-important}
use fusion_tree_benchmark.FusionNode.Repair.{Best, best, hit, repair, rank_of, rank, predecessor}
use fusion_tree_benchmark.Spec.{IsKeys, IsDistinct, IsPredecessor}
use fusion_tree_benchmark.Word.{word}
use fusion_tree_benchmark.FusionNode.Correct.{node_predecessor_correct}
use fusion_tree_benchmark.FusionNode.Pext.{Rising, sketch_pext-extract_bits_naive}

-- No position stands twice.
abbrev Unique : List ℕ → Type 0
Unique [] = Unit
Unique (p ∷ ps) = (seen p ps ≡ false) × Unique ps

==-swap : (p q : ℕ) → (p == q) ≡ false → (q == p) ≡ false
==-swap p q h = ground (arith, h)

apart_lt : (b p : ℕ) → leb b p ≡ true → (p == b) ≡ false → b < p
apart_lt b p h e = ground (arith, h, e)

apart_gt : (b p : ℕ) → leb b p ≡ false → p < b
apart_gt b p h = ground (arith, h)

seen-cons_none :
    (q p : ℕ) (ps : List ℕ) → seen q (p ∷ ps) ≡ false → ((p == q) ≡ false) × (seen q ps ≡ false)
unfolding seen
seen-cons_none q p ps h = elim (Bool-cases (p == q)) [
  | inl here ↦ absurd (false≢true (sym (rw here at h)))
  | inr other ↦ (other, rw other at h)
]

seen-append_end :
    (q b : ℕ) (ps : List ℕ) → seen q ps ≡ false → (b == q) ≡ false → seen q (ps ++ b ∷ []) ≡ false
unfolding seen
seen-append_end q b [] h e = rw e refl
seen-append_end q b (p ∷ ps) h e =
    let (other, rest) = seen-cons_none q p ps h in rw other (seen-append_end q b ps rest e)

Unique-append : (b : ℕ) (ps : List ℕ) → Unique ps → seen b ps ≡ false → Unique (ps ++ b ∷ [])
unfolding seen
Unique-append b [] u h = (refl, tt)
Unique-append b (p ∷ ps) u h =
    let (other, rest) = seen-cons_none b p ps h in
    (seen-append_end p b ps u.0 (==-swap p b other), Unique-append b ps u.1 rest)

Unique-important : (keys imp : List ℕ) → Unique imp → Unique (important keys imp)
unfolding important
Unique-important [] imp u = u
Unique-important (x ∷ []) imp u = u
Unique-important (x ∷ y ∷ keys) imp u = elim (Bool-cases (seen (highest_diff_bit x y) imp)) [
  | inl old ↦ rw old (Unique-important (y ∷ keys) imp u)
  | inr new ↦
      rw new (Unique-important (y ∷ keys) _ (Unique-append (highest_diff_bit x y) imp u new))
]

seen-insert_sorted : (q b : ℕ) (ps : List ℕ) → seen q (insert_sorted b ps) ≡ seen q (b ∷ ps)
unfolding seen insert_sorted
seen-insert_sorted q b [] = refl
seen-insert_sorted q b (p ∷ ps) = ground (arith, seen-insert_sorted q b ps)

seen-sort : (q : ℕ) (ps : List ℕ) → seen q (sort ps) ≡ seen q ps
unfolding sort seen
seen-sort q [] = refl
seen-sort q (p ∷ ps) =
    seen-insert_sorted q p (sort ps) ∙ ap (λ r. if p == q then true else r) (seen-sort q ps)

Rising-insert_sorted :
    (b c : ℕ) (ps : List ℕ)
    → Rising c ps
    → c ≤ b
    → seen b ps ≡ false
    → Rising c (insert_sorted b ps)
unfolding insert_sorted seen
Rising-insert_sorted b c [] up h new = (h, tt)
Rising-insert_sorted b c (p ∷ ps) up h new = elim (Bool-cases (leb b p)) [
  | inl before ↦ rw before (h, (apart_lt b p before (seen-cons_none b p ps new).0, up.1))
  | inr behind ↦ rw behind (
    up.0,
    Rising-insert_sorted b (suc p) ps up.1 (apart_gt b p behind) (seen-cons_none b p ps new).1,
  )
]

Rising-sort : (ps : List ℕ) → Unique ps → Rising 0 (sort ps)
unfolding sort
Rising-sort [] u = tt
Rising-sort (p ∷ ps) u =
    Rising-insert_sorted p 0 (sort ps) (Rising-sort ps u.1) (omega arith) (seen-sort p ps ∙ u.0)

-- The positions of a node rise strictly.
pub important-Rising : (keys : List ℕ) → Rising 0 (sort (important keys []))
important-Rising keys = Rising-sort (important keys []) (Unique-important keys [] tt)

sketch-pext :
    (keys : List ℕ) (x : ℕ)
    → sketch_pext x (mask_from_positions (sort (important keys [])))
      ≡ extract_bits_naive x (sort (important keys []))
sketch-pext keys x =
    sketch_pext-extract_bits_naive x (sort (important keys [])) (important-Rising keys) (
      All-sort (λ r. r < 64) (important keys [])
        (All-important (λ r. r < 64) keys [] highest_diff_bit-lt tt))

map-same : (f g : ℕ → ℕ) (xs : List ℕ) → ((x : ℕ) → f x ≡ g x) → map f xs ≡ map g xs
map-same f g [] h = refl
map-same f g (x ∷ xs) h = rw (h x, map-same f g xs h) refl

-- With PEXT or without, the construction makes the same node.
build-pext : (keys : List ℕ) → build true keys ≡ build false keys
unfolding build sketch_with
build-pext keys =
    let same =
      map-same (λ x. sketch_pext x (mask_from_positions (sort (important keys []))))
        (λ x. extract_bits_naive x (sort (important keys []))) keys (sketch-pext keys) in
    rw same refl

sketch-build :
    (keys : List ℕ) (x : ℕ) → sketch true (build false keys) x ≡ sketch false (build false keys) x
unfolding sketch sketch_with build
sketch-build keys x = sketch-pext keys x

repair-pext :
    (keys : List ℕ) (q h : ℕ)
    → repair true (build false keys) q h ≡ repair false (build false keys) q h
unfolding repair
repair-pext keys q h = simp (sketch-build keys) refl

rank_of-pext :
    (keys : List ℕ) (q : ℕ) (found : Best)
    → rank_of true (build false keys) q found ≡ rank_of false (build false keys) q found
unfolding rank_of
rank_of-pext keys q (hit c) = refl
rank_of-pext keys q (best none h) = refl
rank_of-pext keys q (best (some c) h) = repair-pext keys q h

-- A node that takes its sketches by PEXT and one that takes them by the loop over the positions answer
-- every query alike, for all keys.
pub predecessor-pext :
    (keys : List ℕ) (q : ℕ)
    → predecessor true (build true keys) q ≡ predecessor false (build false keys) q
unfolding predecessor rank
predecessor-pext keys q =
    rw (build-pext keys, sketch-build keys q) (simp (rank_of-pext keys q) refl)

-- A node over one to eight sorted and distinct 64-bit keys, with PEXT or with the loop of positions: for
-- every 64-bit query predecessor reads inside the keys and returns the largest key below the query, or
-- that there is none.
pub node_correct :
    (use_pext : Bool) (keys : List ℕ) (q : ℕ)
    → IsKeys keys
    → IsDistinct keys
    → 0 < length keys
    → length keys ≤ 8
    → q < word
    → Returns (IsPredecessor keys q) (predecessor use_pext (build use_pext keys) q)
node_correct false keys q sorted distinct any few query =
    node_predecessor_correct keys sorted distinct few any q query
node_correct true keys q sorted distinct any few query =
    rw (predecessor-pext keys q) (node_predecessor_correct keys sorted distinct few any q query)
