-- ===== src/ClusterJumpD/Rebuilt.antt =====
-- The boxes that the loop of rebuild (include/cluster_jump_dynamic.hpp) writes: each stores the
-- stretch of the keys with its slot number, and its floor is the key in front of the stretch.
use native.Mathlib.Decide.{dec_lt}
use mathlib.Core.Bool.{false≢true}
use fusion_tree_benchmark.Prelude.{
  ℕ, zero, suc, ◌+◌, ◌-◌, ◌^◌, ◌≤◌, ◌<◌, ◌≡◌, ◌≢◌, inl, inr, refl, ap, sym, ◌∙◌, Bool, true, false,
  ◌||◌, List, ◌++◌, map, length, slice, replicate, ◌!◌, ltb, ◌==◌, if◌then◌else◌, ok, load, arith,
  Bool-cases, ==_iff, ltb→lt, ltb→le, advance, advance-StopsAt, length-append, length-map,
  length-replicate, length-slice,
}
use fusion_tree_benchmark.Word.Signed.{flip}
use fusion_tree_benchmark.Buckets.{to_u32}
use fusion_tree_benchmark.Buckets.Cuts.{to_u32-eq}
use fusion_tree_benchmark.Search.{pad, flipped_copy}
use fusion_tree_benchmark.ClusterJumpD.{cap, given}
use fusion_tree_benchmark.ClusterJumpD.Build.{Boxes, boxes}
use fusion_tree_benchmark.ClusterJumpD.Stored.{floor_at}
use fusion_tree_benchmark.ClusterJumpD.Rows.{Stretch, Row, Placed, fresh-Holds, next-Holds}

or_false : (b : Bool) → (b || false) ≡ b
or_false true = refl
or_false false = refl

or_true : (b : Bool) → (b || true) ≡ true
or_true true = refl
or_true false = refl

module _ (slot : ℕ → ℕ) (keys : List ℕ) (run0 : ℕ) (rh0 : Bool) (few : length keys < 2 ^ 32)
    (mono : (s t : ℕ) → s ≤ t → t < length keys → slot (keys ! s) ≤ slot (keys ! t)) where
  -- The place behind the keys of slot `j`.
  abbrev stop : ℕ → ℕ → ℕ
  stop j i = advance (λ t. slot (keys ! t) == j) (length keys - i) i

  stop-Stretch :
      (j i : ℕ)
      → i ≤ length keys
      → ((t : ℕ) → t < i → slot (keys ! t) < j)
      → ((t : ℕ) → i ≤ t → t < length keys → j ≤ slot (keys ! t))
      → Stretch slot keys j i (stop j i)
  stop-Stretch j i inside early late =
      let st =
        advance-StopsAt (λ t. slot (keys ! t) == j) (length keys - i) i (length keys)
          (omega arith) in
      record {
        ordered = st.from;
        upto = st.upto;
        before = early;
        reach = late;
        within = λ t g. elim (dec_lt t i) [
          | yes old ↦ omega (arith, early t old)
          | no new ↦ omega (arith, (==_iff _ _).0 (st.passed t (omega arith) g))
        ];
        behind = λ t g l.
            let other : slot (keys ! stop j i) ≢ j =
              λ e. false≢true (sym (st.stopped (omega arith)) ∙ (==_iff _ _).1 e) in
            omega (arith, other, late (stop j i) st.from (omega arith), mono (stop j i) t g l);
      }

  -- The floor behind the keys of a slot.
  next_floor :
      (run : ℕ) (rh : Bool) (i e : ℕ)
      → i ≤ e
      → given run rh ≡ floor_at keys run0 rh0 i
      → given (if e - i == 0 then run else keys ! (e - 1)) (rh || ltb 0 (e - i))
        ≡ floor_at keys run0 rh0 e
  unfolding given
  next_floor run rh i e upto front = elim (dec_lt i e) [
    | yes some_keys ↦
        let a : (e - i == 0) ≡ false = ground arith in
        let b : ltb 0 (e - i) ≡ true = ground arith in
        let last : e ≡ suc (e - 1) = omega arith in
        rw (a, b, or_true rh) (sym (ap (floor_at keys run0 rh0) last))
    | no none_left ↦
        let a : (e - i == 0) ≡ true = ground arith in
        let b : ltb 0 (e - i) ≡ false = ground arith in
        let same : i ≡ e = omega arith in
        rw (a, b, or_false rh) (front ∙ ap (floor_at keys run0 rh0) same)
  ]

  abbrev next_size : ℕ → ℕ → ℕ → ℕ
  next_size j i size = if ltb cap (stop j i - i) then suc size else size

  -- The boxes behind the first one.
  abbrev boxes_behind : ℕ → ℕ → ℕ → ℕ → Bool → ℕ → Boxes
  boxes_behind left j i run rh size =
      let run' = if stop j i - i == 0 then run else keys ! (stop j i - 1) in
      let rh' = rh || ltb 0 (stop j i - i) in
      boxes slot keys left (suc j) (stop j i) run' rh' (next_size j i size)

  first-Row :
      (left j i run : ℕ) (rh : Bool) (size : ℕ)
      → i ≤ stop j i
      → stop j i ≤ length keys
      → size + 1 < 2 ^ 32
      → Row (boxes slot keys (suc left) j i run rh size) size 0 (slice keys i (stop j i)) run rh
  unfolding boxes load flipped_copy
  first-Row left j i run rh size from upto room =
      let c = stop j i - i in
      let count = length-slice keys i (stop j i) from upto in
      let counted : to_u32 c ≡ length (slice keys i (stop j i)) =
        to_u32-eq c (omega arith) ∙ sym count in
      elim (Bool-cases (ltb cap c)) [
        | inl spills ↦
            let many : cap < c = ltb→lt cap c spills in
            rw spills (record {
              counted = ap ok counted;
              floor_ok = refl;
              has_ok = refl;
              place =
                  inr (
                    0,
                    ap ok (to_u32-eq (suc size) (omega arith) ∙ omega arith),
                    refl,
                    omega arith,
                  );
            })
        | inr fits ↦
            let small : c ≤ cap = ltb→le cap c fits in
            let rest =
              boxes slot keys left (suc j) (stop j i)
                (if c == 0 then run else keys ! (stop j i - 1)) (rh || ltb 0 c) size in
            rw fits (record {
              counted = ap ok counted;
              floor_ok = refl;
              has_ok = refl;
              place = inl (refl, fresh-Holds (slice keys i (stop j i)) rest.blocks c count small);
            })
      ]

  -- A row of the boxes behind the first one.
  later-Row :
      (left j i run : ℕ) (rh : Bool) (size m : ℕ) (ks : List ℕ) (f : ℕ) (h : Bool)
      → i ≤ stop j i
      → stop j i ≤ length keys
      → Row (boxes_behind left j i run rh size) (next_size j i size) m ks f h
      → Row (boxes slot keys (suc left) j i run rh size) size (suc m) ks f h
  unfolding boxes load
  later-Row left j i run rh size m ks f h from upto =
      let c = stop j i - i in
      let mine = map flip (slice keys i (stop j i)) in
      let count = length-slice keys i (stop j i) from upto in
      let same = length-map {0, 0} flip (slice keys i (stop j i)) in
      elim (Bool-cases (ltb cap c)) [
        | inl spills ↦ rw spills (λ row. record {
          counted = row.counted;
          floor_ok = row.floor_ok;
          has_ok = row.has_ok;
          place = elim row.place [
            | inl (over, holds) ↦ inl (over, next-Holds (replicate cap pad) _ m ks refl holds)
            | inr (o, over, big, pos) ↦
                inr (suc o, over ∙ ap ok (omega arith), big, omega (arith, pos))
          ];
        })
        | inr fits ↦
            let small : c ≤ cap = ltb→le cap c fits in
            let size_box = length-append {0} mine (replicate (cap - c) pad) in
            let spare = length-replicate {0} (cap - c) pad in
            rw fits (λ row. record {
              counted = row.counted;
              floor_ok = row.floor_ok;
              has_ok = row.has_ok;
              place = elim row.place [
                | inl (over, holds) ↦
                    inl (
                      over,
                      next-Holds (mine ++ replicate (cap - c) pad) _ m ks (omega arith) holds,
                    )
                | inr (o, over, big, pos) ↦ inr (o, over, big, omega (arith, pos))
              ];
            })
      ]

  -- Every box that the loop writes stores the keys of its slot.
  pub boxes-Placed :
      (left j i run : ℕ) (rh : Bool) (size m : ℕ)
      → i ≤ length keys
      → ((t : ℕ) → t < i → slot (keys ! t) < j)
      → ((t : ℕ) → i ≤ t → t < length keys → j ≤ slot (keys ! t))
      → given run rh ≡ floor_at keys run0 rh0 i
      → size + left < 2 ^ 32
      → m < left
      → Placed slot keys run0 rh0 (boxes slot keys left j i run rh size) size m (j + m)
  boxes-Placed zero j i run rh size m inside early late front room l = absurd (omega arith)
  boxes-Placed (suc left) j i run rh size zero inside early late front room l =
      let st = stop-Stretch j i inside early late in
      let at : j + 0 ≡ j = omega arith in
      record {
        lo = i;
        hi = stop j i;
        f = run;
        h = rh;
        stretch = rw at st;
        front = front;
        row = first-Row left j i run rh size st.ordered st.upto (omega arith);
      }
  boxes-Placed (suc left) j i run rh size (suc m) inside early late front room l =
      let st = stop-Stretch j i inside early late in
      let placed =
        boxes-Placed left (suc j) (stop j i)
          (if stop j i - i == 0 then run else keys ! (stop j i - 1)) (rh || ltb 0 (stop j i - i))
          (next_size j i size) m st.upto (λ t g. omega (arith, st.within t g))
          (λ t g r. omega (arith, st.behind t g r))
          (next_floor run rh i (stop j i) st.ordered front) (ground arith) (omega arith) in
      let at : j + suc m ≡ suc j + m = omega arith in
      record {
        lo = placed.lo;
        hi = placed.hi;
        f = placed.f;
        h = placed.h;
        stretch = rw at placed.stretch;
        front = placed.front;
        row =
            later-Row left j i run rh size m (slice keys placed.lo placed.hi) placed.f placed.h
              st.ordered st.upto placed.row;
      }
