-- ===== src/ClusterJumpD.antt =====
-- include/cluster_jump_dynamic.hpp, class ClusterJumpD: two levels of buckets, each slot with a box of
-- 16 keys, and the largest key in front of each box. Here are its data and the search; rebuild and
-- bulk_load are in ClusterJumpD/Build, insert in ClusterJumpD/Insert. Freeing the arrays is left out: a
-- released bucket has empty ones.
pub mod Adding
pub mod Booking
pub mod Box
pub mod Build
pub mod Collected
pub mod Frame
pub mod Insert
pub mod Rebuilt
pub mod Rows
pub mod Search
pub mod Splice
pub mod Stored
use fusion_tree_benchmark.Prelude.{
  ℕ, zero, suc, ◌+◌, ◌-◌, ◌*◌, ◌/◌, ◌^◌, Bool, true, false, ◌||◌, List, [], ◌∷◌, ◌++◌, map, Option,
  none, some, length, slice, replicate, ◌!◌, ltb, leb, ◌==◌, if◌then◌else◌, Run, ok, ◌>>=◌, load,
  advance,
}
use fusion_tree_benchmark.Word.{add64, sub64, shr}
use fusion_tree_benchmark.Word.Signed.{slt, flip}
use fusion_tree_benchmark.Bits.{popcount}
use fusion_tree_benchmark.Buckets.{to_u32, bucket, shift_for}
use fusion_tree_benchmark.Search.{pad, scan, last_mile}
use fusion_tree_benchmark.Search.Count.{count_less}
use fusion_tree_benchmark.ClusterJump.{top_bits}

abbrev pub cap : ℕ
cap = 16

pub record Bucket : Type 0 where
  pub base : ℕ
  pub shift : ℕ
  pub slots : ℕ
  pub blocks : List ℕ
  pub floor : List ℕ
  pub has : List Bool
  pub count : List ℕ
  pub over : List ℕ
  pub big : List (List ℕ)
  pub total : ℕ
  pub overflow_keys : ℕ
  pub overflow_at_rebuild : ℕ
  pub bfloor : ℕ
  pub bhas : Bool

pub record ClusterJumpD : Type 0 where
  pub buckets : List Bucket
  pub n : ℕ
  pub nb : ℕ
  pub gbase : ℕ
  pub gshift : ℕ

abbrev pub new_bucket : Bucket
new_bucket = record {
  base = 0;
  shift = 63;
  slots = 0;
  blocks = [];
  floor = [];
  has = [];
  count = [];
  over = [];
  big = [];
  total = 0;
  overflow_keys = 0;
  overflow_at_rebuild = 0;
  bfloor = 0;
  bhas = false;
}

-- `b = (k - base) >> shift; b = k < base ? 0 : b; return b < n ? b : n - 1;`
unfoldable pub clamp : ℕ → ℕ → ℕ → ℕ → ℕ
clamp base shift n k =
    let b = if ltb k base then 0 else bucket base shift k in if ltb b n then b else n - 1

unfoldable pub bucket_of : ClusterJumpD → ℕ → ℕ
bucket_of t k = clamp t.gbase t.gshift t.nb k

unfoldable pub slot_of : Bucket → ℕ → ℕ
slot_of b k = to_u32 (clamp b.base b.shift b.slots k)

-- The keys below `q` in the box that starts at place `p`.
unfoldable pub rank16 : List ℕ → ℕ → ℕ → Run ℕ
unfolding count_less
rank16 blocks p q = count_less 4 (λ k. slt k (flip q)) blocks p

-- The same halving and comparison of eight keys as in the static indexes.
unfoldable pub rank_sorted : List ℕ → ℕ → ℕ → Run ℕ
rank_sorted keys len q = last_mile 2 keys 0 len q

-- Place `i` of box `j`, in the overflow list of the box if it has one.
unfoldable pub box_key : Bucket → ℕ → ℕ → Run ℕ
box_key b j i = do
  o ← load b.over j
  let spilled : Run ℕ = (do v ← load b.big (o - 1); k ← load v i; ok (flip k))
  let stored : Run ℕ = (do k ← load b.blocks (j * cap + i); ok (flip k))
  if o == 0 then stored else spilled

unfoldable pub last_key : Bucket → ℕ → Run ℕ
last_key b j = do c ← load b.count j; box_key b j (c - 1)

-- `out = k; return h;`
unfoldable pub given : ℕ → Bool → Option ℕ
given k h = if h then some k else none

-- The largest key below `q` in box `j`, or else the floor of the box.
unfoldable pub search_box : Bucket → ℕ → ℕ → Run (Option ℕ)
unfolding rank16 rank_sorted
search_box b j q = do
  o ← if b.overflow_keys == 0 then ok 0 else load b.over j
  let floor_of : Run (Option ℕ) = (do f ← load b.floor j; h ← load b.has j; ok (given f h))
  let spilled : Run (Option ℕ) = (do
    v ← load b.big (o - 1)
    c ← load b.count j
    r ← rank_sorted v c q
    if r == 0 then floor_of else (do k ← load v (r - 1); ok (some (flip k))))
  let stored : Run (Option ℕ) = (do
    r ← rank16 b.blocks (j * cap) q
    if r == 0 then floor_of else (do k ← load b.blocks (j * cap + (r - 1)); ok (some (flip k))))
  if o == 0 then stored else spilled

unfoldable pub predecessor : ClusterJumpD → ℕ → Run (Option ℕ)
unfolding search_box given
predecessor t q =
    let found : Run (Option ℕ) = (do
      b ← load t.buckets (bucket_of t q)
      if b.slots == 0 then ok (given b.bfloor b.bhas) else search_box b (slot_of b q) q) in
    if t.nb == 0 then ok none else found
