-- ===== src/ClusterJumpD/Build.antt =====
-- include/cluster_jump_dynamic.hpp: rebuild, release and bulk_load. An array that a loop fills from its
-- first place on is the list that grows with the loop.
use fusion_tree_benchmark.Prelude.{
  ℕ, zero, suc, ◌+◌, ◌-◌, ◌/◌, ◌^◌, Bool, true, false, ◌||◌, List, [], ◌∷◌, ◌++◌, map, length,
  slice, replicate, ◌!◌, ltb, leb, ◌==◌, if◌then◌else◌, Run, ok, ◌>>=◌, load, advance,
}
use fusion_tree_benchmark.Word.{add64, sub64, shr}
use fusion_tree_benchmark.Word.Signed.{flip}
use fusion_tree_benchmark.Buckets.{to_u32, bucket, shift_for}
use fusion_tree_benchmark.Search.{pad}
use fusion_tree_benchmark.ClusterJump.{top_bits}
use fusion_tree_benchmark.ClusterJumpD.{
  cap, Bucket, ClusterJumpD, new_bucket, clamp, box_key, last_key,
}

-- What the loop of `rebuild` writes.
pub record Boxes : Type 0 where
  pub blocks : List ℕ
  pub floor : List ℕ
  pub has : List Bool
  pub count : List ℕ
  pub over : List ℕ
  pub big : List (List ℕ)
  pub overflow_keys : ℕ

-- The loop of `rebuild` over the boxes: the `left` that remain, from box `j` and key `i` on, with the
-- floor so far and the number `size` of overflow lists so far. `slot` is `slot_of` in the bucket.
unfoldable pub boxes : (ℕ → ℕ) → List ℕ → ℕ → ℕ → ℕ → ℕ → Bool → ℕ → Boxes
boxes slot keys zero j i run rh size = record {
  blocks = [];
  floor = [];
  has = [];
  count = [];
  over = [];
  big = [];
  overflow_keys = 0;
}
boxes slot keys (suc left) j i run rh size =
    let e = advance (λ t. slot (keys ! t) == j) (length keys - i) i in
    let c = e - i in
    let mine = map flip (slice keys i e) in
    let spills = ltb cap c in
    let rest =
      boxes slot keys left (suc j) e (if c == 0 then run else keys ! (e - 1)) (rh || ltb 0 c)
        (if spills then suc size else size) in
    record {
      blocks =
          (if spills then replicate cap pad else mine ++ replicate (cap - c) pad) ++ rest.blocks;
      floor = run ∷ rest.floor;
      has = rh ∷ rest.has;
      count = to_u32 c ∷ rest.count;
      over = (if spills then to_u32 (suc size) else 0) ∷ rest.over;
      big = if spills then (mine ++ replicate 8 pad) ∷ rest.big else rest.big;
      overflow_keys = (if spills then c else 0) + rest.overflow_keys;
    }

-- `while ((1 << (lgs + 1)) <= m && lgs < 30) ++lgs;` with `left` for 30 - lgs.
unfoldable pub box_bits : ℕ → ℕ → ℕ → ℕ
box_bits zero lgs m = lgs
box_bits (suc left) lgs m = if leb (2 ^ (lgs + 1)) m then box_bits left (lgs + 1) m else lgs

-- A released bucket: base, shift, bfloor and bhas stay.
unfoldable pub release : Bucket → Bucket
release b = record {
  base = b.base;
  shift = b.shift;
  slots = 0;
  blocks = [];
  floor = [];
  has = [];
  count = [];
  over = [];
  big = [];
  total = 0;
  overflow_keys = 0;
  overflow_at_rebuild = 0;
  bfloor = b.bfloor;
  bhas = b.bhas;
}

-- The largest key in front of the bucket, and whether there is one.
unfoldable pub before_bucket : Bucket → Run (ℕ × Bool)
before_bucket b =
    let first : Run (ℕ × Bool) = (do f ← load b.floor 0; h ← load b.has 0; ok (f, h)) in
    if b.slots == 0 then ok (b.bfloor, b.bhas) else first

-- The bucket that `rebuild` makes from keys, of which there is at least one.
unfoldable pub rebuild_keys : Bucket → List ℕ → ℕ → Bool → Bucket
unfolding boxes box_bits
rebuild_keys b keys run rh =
    let base = keys ! 0 in
    let span = sub64 (keys ! (length keys - 1)) base in
    let shift = to_u32 (shift_for span (box_bits 30 0 (length keys / 6))) in
    let slots = to_u32 (add64 (shr span shift) 1) in
    let out = boxes (λ k. to_u32 (clamp base shift slots k)) keys slots 0 0 run rh 0 in
    record {
      base = base;
      shift = shift;
      slots = slots;
      blocks = out.blocks;
      floor = out.floor;
      has = out.has;
      count = out.count;
      over = out.over;
      big = out.big;
      total = length keys;
      overflow_keys = out.overflow_keys;
      overflow_at_rebuild = out.overflow_keys;
      bfloor = b.bfloor;
      bhas = b.bhas;
    }

unfoldable pub rebuild : Bucket → List ℕ → Run Bucket
unfolding release before_bucket rebuild_keys
rebuild b keys = do
  (run, rh) ← before_bucket b
  let r = release b
  let empty : Bucket = record {
    base = r.base;
    shift = r.shift;
    slots = r.slots;
    blocks = r.blocks;
    floor = r.floor;
    has = r.has;
    count = r.count;
    over = r.over;
    big = r.big;
    total = 0;
    overflow_keys = r.overflow_keys;
    overflow_at_rebuild = r.overflow_at_rebuild;
    bfloor = run;
    bhas = rh;
  }
  ok (if length keys == 0 then empty else rebuild_keys r keys run rh)

-- The buckets of `bulk_load` before their floors are known: the `left` that remain, from bucket `b`
-- and key `i` on.
unfoldable pub load_buckets : List ℕ → ℕ → ℕ → ℕ → ℕ → ℕ → Run (List Bucket)
load_buckets a gbase gshift zero b i = ok []
load_buckets a gbase gshift (suc left) b i = do
  let e = advance (λ t. bucket gbase gshift (a ! t) == b) (length a - i) i
  made ← rebuild new_bucket (slice a i e)
  rest ← load_buckets a gbase gshift left (suc b) e
  ok (made ∷ rest)

-- The floors of the boxes of `b`: the `left` that remain, from box `j` on, and the floor behind them.
unfoldable pub slot_floors : Bucket → ℕ → ℕ → ℕ → Bool → Run ((List ℕ × List Bool) × (ℕ × Bool))
slot_floors b zero j run rh = ok (([], []), (run, rh))
slot_floors b (suc left) j run rh = do
  c ← load b.count j
  (run', rh') ← if c == 0 then ok (run, rh) else (do k ← last_key b j; ok (k, true))
  ((fs, hs), end) ← slot_floors b left (suc j) run' rh'
  ok ((run ∷ fs, rh ∷ hs), end)

-- `b` with other floors.
unfoldable pub with_floors : Bucket → List ℕ → List Bool → ℕ → Bool → Bucket
with_floors b floor has bfloor bhas = record {
  base = b.base;
  shift = b.shift;
  slots = b.slots;
  blocks = b.blocks;
  floor = floor;
  has = has;
  count = b.count;
  over = b.over;
  big = b.big;
  total = b.total;
  overflow_keys = b.overflow_keys;
  overflow_at_rebuild = b.overflow_at_rebuild;
  bfloor = bfloor;
  bhas = bhas;
}

-- The pass of `bulk_load` that sets all floors.
unfoldable pub all_floors : List Bucket → ℕ → Bool → Run (List Bucket)
all_floors [] run rh = ok []
all_floors (b ∷ bs) run rh = do
  (b', (run', rh')) ←
      if b.slots == 0 then ok (with_floors b b.floor b.has run rh, (run, rh)) else (do
        ((fs, hs), end) ← slot_floors b b.slots 0 run rh
        ok (with_floors b fs hs b.bfloor b.bhas, end))
  rest ← all_floors bs run' rh'
  ok (b' ∷ rest)

unfoldable pub bulk_load : ClusterJumpD → List ℕ → Run ClusterJumpD
unfolding load_buckets all_floors slot_floors rebuild last_key box_key with_floors
bulk_load t a =
    let none_left : ClusterJumpD = record {
      buckets = [];
      n = 0;
      nb = 0;
      gbase = t.gbase;
      gshift = t.gshift;
    } in
    let loaded : Run ClusterJumpD = (do
      let gbase = a ! 0
      let span = sub64 (a ! (length a - 1)) gbase
      let gshift = shift_for span (top_bits (length a))
      let nb = add64 (shr span gshift) 1
      made ← load_buckets a gbase gshift nb 0 0
      buckets ← all_floors made 0 false
      ok (record { buckets = buckets; n = length a; nb = nb; gbase = gbase; gshift = gshift })) in
    if length a == 0 then ok none_left else loaded
