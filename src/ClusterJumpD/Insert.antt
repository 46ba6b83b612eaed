-- ===== src/ClusterJumpD/Insert.antt =====
-- include/cluster_jump_dynamic.hpp: insert and what it calls. A bucket is changed in place, which is
-- `put` of the new bucket here.
use fusion_tree_benchmark.Prelude.{
  ℕ, zero, suc, ◌+◌, ◌-◌, ◌*◌, Bool, true, false, ◌&&◌, List, [], ◌∷◌, ◌++◌, Option, none, some,
  length, take, drop, slice, replicate, put, ltb, leb, ◌==◌, if◌then◌else◌, Run, ok, ◌>>=◌, load,
}
use fusion_tree_benchmark.Word.{sub64, mul64}
use fusion_tree_benchmark.Word.Signed.{flip}
use fusion_tree_benchmark.Buckets.{to_u32}
use fusion_tree_benchmark.Search.{pad}
use fusion_tree_benchmark.ClusterJumpD.{
  cap, Bucket, ClusterJumpD, bucket_of, slot_of, rank16, rank_sorted, box_key,
}
use fusion_tree_benchmark.ClusterJumpD.Build.{rebuild, with_floors, bulk_load}

-- The floors of one bucket after `k` has been added in front of them, from the box behind the first
-- `skip` on, and whether `raise_floors` returns there.
unfoldable pub raise_slots : ℕ → ℕ → List ℕ → List ℕ → List Bool → (List ℕ × List Bool) × Bool
raise_slots k (suc skip) (c ∷ cs) (f ∷ fs) (h ∷ hs) =
    let ((fs', hs'), done) = raise_slots k skip cs fs hs in ((f ∷ fs', h ∷ hs'), done)
raise_slots k zero (c ∷ cs) (f ∷ fs) (h ∷ hs) =
    let ((fs', hs'), done) = raise_slots k zero cs fs hs in
    let on = if c == 0 then ((k ∷ fs', true ∷ hs'), done) else ((k ∷ fs, true ∷ hs), true) in
    if h && leb k f then ((f ∷ fs, h ∷ hs), true) else on
raise_slots k skip cs fs hs = ((fs, hs), false)

unfoldable pub raise_in : ℕ → ℕ → Bucket → Bucket × Bool
unfolding raise_slots
raise_in k skip b =
    let ((fs, hs), done) = raise_slots k skip b.count b.floor b.has in
    (with_floors b fs hs b.bfloor b.bhas, done)

-- The loop over the buckets behind.
unfoldable pub raise_buckets : ℕ → List Bucket → List Bucket
unfolding raise_in
raise_buckets k [] = []
raise_buckets k (b ∷ bs) =
    let rest = raise_buckets k bs in
    let (b', done) = raise_in k 0 b in
    let single =
      if b.bhas && leb k b.bfloor then b ∷ bs else with_floors b b.floor b.has k true ∷ rest in
    if b.slots == 0 then single else b' ∷ (if done then bs else rest)

-- `raise_floors(b, j, k)`, where bucket `i` is `b`.
unfoldable pub raise_floors : List Bucket → ℕ → Bucket → ℕ → ℕ → List Bucket
unfolding raise_buckets raise_in
raise_floors bs i b j k =
    let (b', done) = raise_in k (suc j) b in
    let behind = drop (suc i) bs in
    take i bs ++ b' ∷ (if done then behind else raise_buckets k behind)

-- The `left` keys of box `j` from place `i` on.
unfoldable pub collect_box : Bucket → ℕ → ℕ → ℕ → Run (List ℕ)
collect_box b j zero i = ok []
collect_box b j (suc left) i = do k ← box_key b j i; ks ← collect_box b j left (suc i); ok (k ∷ ks)

-- The keys of the `left` boxes from `j` on.
unfoldable pub collect_from : Bucket → ℕ → ℕ → Run (List ℕ)
unfolding collect_box
collect_from b zero j = ok []
collect_from b (suc left) j = do
  c ← load b.count j
  ks ← collect_box b j c 0
  rest ← collect_from b left (suc j)
  ok (ks ++ rest)

unfoldable pub collect : Bucket → Run (List ℕ)
unfolding collect_from
collect b = collect_from b b.slots 0

-- `v.insert(v.begin() + pos, x)`.
unfoldable pub insert_at : List ℕ → ℕ → ℕ → List ℕ
insert_at v pos x = take pos v ++ x ∷ drop pos v

-- `memmove(box + pos + 1, box + pos, count - pos); box[pos] = x;` where the box starts at place `p`.
unfoldable pub shift_in : List ℕ → ℕ → ℕ → ℕ → ℕ → List ℕ
shift_in blocks p count pos x =
    let behind = slice blocks (p + pos) (p + count) ++ drop (p + count + 1) blocks in
    take (p + pos) blocks ++ x ∷ behind

-- Sixteen places of padding from place `p` on.
unfoldable pub clear_box : List ℕ → ℕ → List ℕ
clear_box blocks p = take p blocks ++ replicate cap pad ++ drop (p + cap) blocks

-- `b` with one key more, in box `j`: new blocks, number of keys in the box, overflow list of the box,
-- lists, and number of keys in lists.
unfoldable pub grown : Bucket → ℕ → List ℕ → ℕ → ℕ → List (List ℕ) → ℕ → Bucket
grown b j blocks count over big overflow_keys = record {
  base = b.base;
  shift = b.shift;
  slots = b.slots;
  blocks = blocks;
  floor = b.floor;
  has = b.has;
  count = put b.count j (to_u32 count);
  over = put b.over j over;
  big = big;
  total = b.total + 1;
  overflow_keys = overflow_keys;
  overflow_at_rebuild = b.overflow_at_rebuild;
  bfloor = b.bfloor;
  bhas = b.bhas;
}

-- Whether place `i` of the `count` keys of an array from `p` on holds `x`.
unfoldable pub present : List ℕ → ℕ → ℕ → ℕ → ℕ → Run Bool
present v p count i x =
    let held : Run Bool = (do k ← load v (p + i); ok (k == x)) in
    if ltb i count then held else ok false

-- The key goes into the overflow list `o - 1` of box `j`; `none` where it is already present.
unfoldable pub insert_big : Bucket → ℕ → ℕ → ℕ → Run (Option Bucket)
unfolding grown insert_at present
insert_big b j o k = do
  v ← load b.big (o - 1)
  c ← load b.count j
  pos ← rank_sorted v c k
  there ← present v 0 c pos (flip k)
  ok (
      if there
      then none
      else some (
          grown b j b.blocks (c + 1) o (put b.big (o - 1) (insert_at v pos (flip k)))
            (b.overflow_keys + 1)))

-- The key goes into box `j`, which spills if it is full.
unfoldable pub insert_box : Bucket → ℕ → ℕ → Run (Option Bucket)
unfolding grown insert_at present shift_in clear_box
insert_box b j k = do
  let p = j * cap
  pos ← rank16 b.blocks p k
  c ← load b.count j
  there ← present b.blocks p c pos (flip k)
  let v = insert_at (slice b.blocks p (p + cap)) pos (flip k) ++ replicate 8 pad
  let spilled =
      grown b j (clear_box b.blocks p) (cap + 1) (to_u32 (suc (length b.big))) (b.big ++ v ∷ [])
        (b.overflow_keys + cap + 1)
  let stored = grown b j (shift_in b.blocks p c pos (flip k)) (c + 1) 0 b.big b.overflow_keys
  ok (if there then none else some (if c == cap then spilled else stored))

-- The part of `insert` that changes box `j`.
unfoldable pub insert_slot : Bucket → ℕ → ℕ → Run (Option Bucket)
unfolding insert_box insert_big
insert_slot b j k = do o ← load b.over j; if o == 0 then insert_box b j k else insert_big b j o k

-- `total > 64 && (overflow_keys - overflow_at_rebuild) * 8 > total`.
unfoldable pub needs_rebuild : Bucket → Bool
needs_rebuild b =
    ltb 64 b.total && ltb b.total (mul64 (sub64 b.overflow_keys b.overflow_at_rebuild) 8)

-- The end of `insert`, in box `j` of bucket `i`, which is now `b`: floors, and the bucket is rebuilt
-- when too many keys are in lists.
unfoldable pub settle : ClusterJumpD → ℕ → Bucket → ℕ → ℕ → Run ClusterJumpD
unfolding raise_floors collect needs_rebuild
settle t i b j k = do
  let raised = raise_floors t.buckets i b j k
  b' ← load raised i
  buckets ←
      if needs_rebuild b'
      then (do keys ← collect b'; b'' ← rebuild b' keys; ok (put raised i b''))
      else ok raised
  ok (record { buckets = buckets; n = t.n + 1; nb = t.nb; gbase = t.gbase; gshift = t.gshift })

unfoldable pub insert : ClusterJumpD → ℕ → Run ClusterJumpD
unfolding insert_slot settle
insert t k =
    let added : Run ClusterJumpD = (do
      let i = bucket_of t k
      b ← load t.buckets i
      let j = slot_of b k
      let opened : Run ClusterJumpD = (do
        b' ← rebuild b (k ∷ [])
        ok (record {
          buckets = raise_floors t.buckets i b' (b'.slots - 1) k;
          n = t.n + 1;
          nb = t.nb;
          gbase = t.gbase;
          gshift = t.gshift;
        }))
      let boxed : Run ClusterJumpD = (do
        made ← insert_slot b j k
        elim made [ none ↦ ok t | some b' ↦ settle t i b' j k ])
      if b.slots == 0 then opened else boxed) in
    if t.nb == 0 then bulk_load t (k ∷ []) else added
