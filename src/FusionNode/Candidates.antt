-- ===== src/FusionNode/Candidates.antt =====
-- The loop over the two candidates ends with an exact hit or with the smallest first difference.
use native.Mathlib.Decide.{dec_lt}
use fusion_tree_benchmark.Prelude.{
  ℕ, zero, suc, ◌-◌, ◌≤◌, ◌<◌, ◌≡◌, refl, ap, ◌∙◌, ◌≢◌, inl, inr, true, false, Bool-cases, List,
  length, ◌!◌, Option, none, some, ltb, lt→ltb, le→ltb, ltb→lt, ltb→le, ◌==◌, ==_iff, if◌then◌else◌,
  arith,
}
use fusion_tree_benchmark.Word.{word}
use fusion_tree_benchmark.Spec.{IsKeys, IsDistinct, rank, le-rank, rank-le}
use fusion_tree_benchmark.Bits.{highest_diff_bit}
use fusion_tree_benchmark.Bits.HighDiff.{Top, highest_diff_bit-lt}
use fusion_tree_benchmark.FusionNode.Repair.{best, hit, consider, candidates}
use fusion_tree_benchmark.FusionNode.Nearest.{
  hd, hd-Top, sketch_of, sketches, sketches-key, length-sketches, apart_seen, away_below,
  away_above, near_at, near_before,
}

consider_hit : (keys : List ℕ) (q c i : ℕ) → consider keys q c (hit i) ≡ hit i
unfolding consider
consider_hit keys q c i = refl

consider_near :
    (keys : List ℕ) (q c h : ℕ) (b : Option ℕ)
    → c < length keys
    → keys ! c ≢ q
    → consider keys q c (best b h) ≡ (
        if ltb (highest_diff_bit q (keys ! c)) h
        then best (some c) (highest_diff_bit q (keys ! c))
        else best b h)
unfolding consider
consider_near keys q c h b inside ne =
    let live : ltb c (length keys) ≡ true = lt→ltb c (length keys) inside in
    let other : (keys ! c == q) ≡ false = elim (Bool-cases (keys ! c == q)) [
      | inl same ↦ absurd (ne ((==_iff _ _).0 same))
      | inr no_hit ↦ no_hit
    ] in
    rw (live, other) refl

consider_outside :
    (keys : List ℕ) (q c h : ℕ) (b : Option ℕ)
    → length keys ≤ c
    → consider keys q c (best b h) ≡ best b h
unfolding consider
consider_outside keys q c h b outside =
    let dead : ltb c (length keys) ≡ false = le→ltb c (length keys) outside in rw dead refl

consider_exact :
    (keys : List ℕ) (q c h : ℕ) (b : Option ℕ)
    → c < length keys
    → keys ! c ≡ q
    → consider keys q c (best b h) ≡ hit c
unfolding consider
consider_exact keys q c h b inside e =
    let live : ltb c (length keys) ≡ true = lt→ltb c (length keys) inside in
    let same : (keys ! c == q) ≡ true = (==_iff _ _).1 e in rw (live, same) refl

module _ (keys : List ℕ) (sorted : IsKeys keys) (distinct : IsDistinct keys) (q : ℕ)
    (query : q < word) where
  abbrev pub place : ℕ
  place =
      rank (sketches keys sorted distinct q query) (suc (sketch_of keys sorted distinct q query q))

  -- A stored key is found right behind itself.
  module _ (t : ℕ) (inside : t < length keys) (e : keys ! t ≡ q) where
    apart :
        (m : ℕ)
        → m < length keys
        → keys ! m ≢ q
        → Top (keys ! t) (keys ! m) (hd keys sorted distinct q query m)
    apart m h ne = rw e (hd-Top keys sorted distinct q query m h ne)

    place_exact : place ≡ suc t
    place_exact =
        let sk = sketch_of keys sorted distinct q query in
        let size = length-sketches keys sorted distinct q query in
        let low : suc t ≤ place =
          le-rank (sketches keys sorted distinct q query) (suc (sk q)) (suc t) (omega (arith, size))
            (λ i l. elim (dec_lt i t) [
              | yes before ↦
                  let lt = distinct i t before inside in
                  let ne : keys ! i ≢ q = λ f. absurd (omega (arith, f, e, lt)) in
                  let seen =
                    apart_seen keys sorted distinct q query t i _ inside (omega arith)
                      (apart i (omega arith) ne) in
                  let less =
                    away_below keys sorted distinct q query q i (omega arith) seen (λ r g w. refl)
                      (omega (arith, e, lt)) in
                  rw (sketches-key keys sorted distinct q query i (omega arith))
                    (omega (arith, less))
              | no here ↦
                  let z : i ≡ t = omega arith in
                  rw (z, sketches-key keys sorted distinct q query t inside, e) (omega arith)
            ]) in
        let high : place ≤ suc t =
          rank-le (sketches keys sorted distinct q query) (suc (sk q)) (suc t) (λ i g l.
            let ahead : i < length keys = omega (arith, size) in
            let lt = distinct t i (omega arith) ahead in
            let ne : keys ! i ≢ q = λ f. absurd (omega (arith, f, e, lt)) in
            let seen =
              apart_seen keys sorted distinct q query t i _ inside ahead (apart i ahead ne) in
            let more =
              away_above keys sorted distinct q query q i ahead seen (λ r u w. refl)
                (omega (arith, e, lt)) in
            rw (sketches-key keys sorted distinct q query i ahead) (omega (arith, more))) in
        omega (arith, low, high)

    pub candidates_exact : candidates keys q place ≡ hit t
    unfolding candidates
    candidates_exact =
        rw (place_exact, consider_exact keys q t 64 none inside e) (consider_hit keys q (suc t) t)

  module _ (absent : (j : ℕ) → j < length keys → keys ! j ≢ q) (j : ℕ) (inside : j < length keys)
      (nearest : (k : ℕ)
        → k < length keys
        → hd keys sorted distinct q query j ≤ hd keys sorted distinct q query k) where
    first_candidate :
        (c : ℕ)
        → c < length keys
        → consider keys q c (best none 64) ≡ best (some c) (hd keys sorted distinct q query c)
    first_candidate c h =
        let small = highest_diff_bit-lt q (keys ! c) in
        let e : ltb (highest_diff_bit q (keys ! c)) 64 ≡ true = lt→ltb _ _ small in
        consider_near keys q c 64 none h (absent c h) ∙ rw e refl

    place-le : place ≤ length keys
    place-le =
        let size = length-sketches keys sorted distinct q query in
        omega (
          arith,
          size,
          rank-le (sketches keys sorted distinct q query)
              (suc (sketch_of keys sorted distinct q query q))
              (length (sketches keys sorted distinct q query)) (λ i g l. absurd (omega arith)),
        )

    front :
        (i : ℕ)
        → suc i ≡ place
        → j < suc i
        → hd keys sorted distinct q query i ≡ hd keys sorted distinct q query j
    front i e h =
        let near =
          near_before keys sorted distinct q query absent j inside nearest (omega (arith, e)) in
        let z : place - 1 ≡ i = omega (arith, e) in rw z at near

    behind :
        (i : ℕ)
        → suc i ≡ place
        → suc i ≤ j
        → hd keys sorted distinct q query (suc i) ≡ hd keys sorted distinct q query j
    behind i e h =
        let near =
          near_at keys sorted distinct q query absent j inside nearest (omega (arith, e)) in
        ap (hd keys sorted distinct q query) e ∙ near

    pick_next :
        (i : ℕ)
        → suc i ≡ place
        → suc i < length keys
        → hd keys sorted distinct q query (suc i) < hd keys sorted distinct q query i
        → hd keys sorted distinct q query (suc i) ≡ hd keys sorted distinct q query j
    pick_next i e more closer = elim (dec_lt j (suc i)) [
      | yes before ↦ absurd (omega (arith, front i e before, nearest (suc i) more, closer))
      | no after ↦ behind i e (omega arith)
    ]

    pick_first :
        (i : ℕ)
        → suc i ≡ place
        → suc i < length keys
        → hd keys sorted distinct q query i ≤ hd keys sorted distinct q query (suc i)
        → hd keys sorted distinct q query i ≡ hd keys sorted distinct q query j
    pick_first i e more closer = elim (dec_lt j (suc i)) [
      | yes before ↦ front i e before
      | no after ↦ omega (arith, behind i e (omega arith), nearest i (omega arith), closer)
    ]

    second_candidate :
        (i : ℕ)
        → suc i ≡ place
        → (c : ℕ) × (consider keys q (suc i) (best (some i) (hd keys sorted distinct q query i))
            ≡ best (some c) (hd keys sorted distinct q query j))
    second_candidate i e = elim (dec_lt (suc i) (length keys)) [
      | no outside ↦
          let before : hd keys sorted distinct q query i ≡ hd keys sorted distinct q query j =
            front i e (omega (arith, e, inside)) in
          (
            i,
            consider_outside keys q (suc i) _ (some i) (omega arith)
                ∙ ap (λ (h : ℕ). best (some i) h) before,
          )
      | yes more ↦
          let near_i = nearest i (omega arith) in
          let near_next = nearest (suc i) more in
          rw
            (consider_near keys q (suc i) (hd keys sorted distinct q query i) (some i) more
              (absent (suc i) more))
            (elim (Bool-cases
              (ltb (highest_diff_bit q (keys ! suc i)) (highest_diff_bit q (keys ! i)))) [
                | inl closer ↦ rw closer (
                  suc i,
                  ap (λ (h : ℕ). best (some (suc i)) h) (pick_next i e more (ltb→lt _ _ closer)),
                )
                | inr farther ↦
                    rw farther (
                      i,
                      ap (λ (h : ℕ). best (some i) h) (pick_first i e more (ltb→le _ _ farther)),
                    )
              ])
    ]

    pub candidates_near :
        (p : ℕ)
        → p ≡ place
        → (c : ℕ) × (candidates keys q p ≡ best (some c) (hd keys sorted distinct q query j))
    unfolding candidates
    candidates_near zero e =
        let near =
          near_at keys sorted distinct q query absent j inside nearest (omega (arith, e)) in
        (
          0,
          first_candidate 0 (omega arith)
              ∙ ap (λ (h : ℕ). best (some 0) h) (ap (hd keys sorted distinct q query) e ∙ near),
        )
    candidates_near (suc i) e =
        let first = first_candidate i (omega (arith, e, place-le)) in
        let small = highest_diff_bit-lt q (keys ! i) in rw first (second_candidate i e)
