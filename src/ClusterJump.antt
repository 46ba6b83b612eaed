-- ===== src/ClusterJump.antt =====
-- include/cluster_jump.hpp, class ClusterJump: a top table of equal-width buckets, for each bucket a
-- second table fitted to its own keys, then the shared last step. The destructor and the release of
-- an earlier build are memory management and are left out.
pub mod Fit
pub mod Rows
pub mod Place
pub mod Correct
use fusion_tree_benchmark.Prelude.{
  ℕ, zero, suc, ◌+◌, ◌-◌, ◌^◌, List, [], ◌∷◌, ◌++◌, Option, length, replicate, ◌!◌, ltb, ◌==◌,
  if◌then◌else◌, Run, ◌>>=◌, load, advance,
}
use fusion_tree_benchmark.Word.{add64, sub64, shr}
use fusion_tree_benchmark.Bits.{clz64}
use fusion_tree_benchmark.Buckets.{to_u32, shift_for, bucket, fill, pick}
use fusion_tree_benchmark.Search.{flipped_copy, last_mile, answer}

pub record Top : Type 0 where
  pub base : ℕ
  pub start : ℕ
  pub slots : ℕ
  pub shift : ℕ

pub record ClusterJump : Type 0 where
  pub keys : List ℕ
  pub top : List Top
  pub t2 : List ℕ
  pub gbase : ℕ
  pub ntop : ℕ
  pub gshift : ℕ

-- `lgn - 6 < 1 ? 1 : (lgn - 6 > 16 ? 16 : lgn - 6)` for `lgn = 63 - clz(n)`. On natural numbers
-- `lgn - 6` is 0 where the `int` is negative, and both are below 1.
unfoldable pub top_bits : ℕ → ℕ
top_bits n =
    let lgn = 63 - clz64 n in
    if ltb (lgn - 6) 1 then 1 else if ltb 16 (lgn - 6) then 16 else lgn - 6

-- `(k >> 2) ? 63 - clz(k >> 2) : 0`, for about four keys per slot.
unfoldable pub slot_bits : ℕ → ℕ
slot_bits k = if shr k 2 == 0 then 0 else 63 - clz64 (shr k 2)

-- The record and the second-table entries of one top bucket that holds the keys `[i0, i1)`.
unfoldable pub fit : List ℕ → ℕ → ℕ → ℕ → Top × List ℕ
unfolding slot_bits
fit a i0 i1 start =
    let base = a ! i0 in
    let span = sub64 (a ! (i1 - 1)) base in
    let shift = to_u32 (shift_for span (slot_bits (i1 - i0))) in
    let slots = to_u32 (add64 (shr span shift) 1) in
    let empty : Top × List ℕ =
      (record { base = 0; start = start; slots = 0; shift = 63 }, to_u32 i0 ∷ to_u32 i0 ∷ []) in
    let fitted : Top × List ℕ = (
      record { base = base; start = start; slots = slots; shift = shift },
      fill a base shift i1 slots 0 i0,
    ) in
    if i1 - i0 == 0 then empty else fitted

-- Where the keys of top bucket `b` end, if they begin at `i0`; bucket `ntop` is the sentinel.
unfoldable pub bucket_end : List ℕ → ℕ → ℕ → ℕ → ℕ → ℕ → ℕ
bucket_end a gbase gshift ntop b i0 =
    if ltb b ntop
    then advance (λ i. bucket gbase gshift (a ! i) == b) (length a - i0) i0
    else length a

-- The loop over the top buckets: the `left` that remain, from bucket `b`, key `i0` and entry `size`
-- (which is `t2_.size()`) on.
unfoldable pub rows : List ℕ → ℕ → ℕ → ℕ → ℕ → ℕ → ℕ → ℕ → List Top × List ℕ
rows a gbase gshift ntop zero b i0 size = ([], [])
rows a gbase gshift ntop (suc left) b i0 size =
    let i1 = bucket_end a gbase gshift ntop b i0 in
    let (t, entries) = fit a i0 i1 (to_u32 size) in
    let (top, t2) = rows a gbase gshift ntop left (suc b) i1 (size + length entries) in
    (t ∷ top, entries ++ t2)

-- The construction for at least one key.
unfoldable pub build_keys : List ℕ → ClusterJump
build_keys a =
    let n = length a in
    let gbase = a ! 0 in
    let span = sub64 (a ! (n - 1)) gbase in
    let gshift = shift_for span (top_bits n) in
    let ntop = add64 (shr span gshift) 1 in
    let (top, t2) = rows a gbase gshift ntop (ntop + 1) 0 0 0 in
    record {
      keys = flipped_copy 8 a;
      top = top;
      t2 = t2;
      gbase = gbase;
      ntop = ntop;
      gshift = gshift;
    }

unfoldable pub build : List ℕ → ClusterJump
build a =
    let empty : ClusterJump = record {
      keys = flipped_copy 8 a;
      top = record { base = 0; start = 0; slots = 0; shift = 63 } ∷ [];
      t2 = replicate 2 0;
      gbase = 0;
      ntop = 0;
      gshift = 63;
    } in
    if length a == 0 then empty else build_keys a

unfoldable pub predecessor : ClusterJump → ℕ → Run (Option ℕ)
predecessor c q = do
  t ← load c.top (pick c.gbase c.gshift c.ntop q)
  let j = pick t.base t.shift t.slots q
  lo ← load c.t2 (t.start + j)
  next ← load c.t2 (t.start + j + 1)
  lb ← last_mile 2 c.keys lo (sub64 next lo) q
  answer c.keys lb
