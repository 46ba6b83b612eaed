-- ===== src/ClusterJump2.antt =====
-- include/cluster_jump2.hpp, class ClusterJump2<K, W, Robust>: ClusterJump with 2 ^ K keys per slot, a
-- last step of W keys (`rounds` is W / 4), and second tables that leave out the outliers of a bucket.
pub mod Range
use fusion_tree_benchmark.Prelude.{
  ℕ, zero, suc, ◌+◌, ◌-◌, ◌*◌, Bool, ◌&&◌, List, [], ◌∷◌, ◌++◌, Option, length, replicate, ◌!◌, ltb,
  ◌==◌, if◌then◌else◌, Run, ◌>>=◌, load, advance,
}
use fusion_tree_benchmark.Word.{add64, sub64, mul64, shr}
use fusion_tree_benchmark.Bits.{clz64}
use fusion_tree_benchmark.Buckets.{to_u32, shift_for, bucket, pick}
use fusion_tree_benchmark.Search.{flipped_copy, last_mile, answer}
use fusion_tree_benchmark.ClusterJump.{Top, top_bits, bucket_end}

pub record ClusterJump2 : Type 0 where
  pub keys : List ℕ
  pub top : List Top
  pub t2 : List ℕ
  pub gbase : ℕ
  pub ntop : ℕ
  pub gshift : ℕ

-- The indices `[lo, hi]` that the second table of the bucket `[i0, i1)` is fitted to.
unfoldable pub fit_range : Bool → List ℕ → ℕ → ℕ → ℕ × ℕ
fit_range robust a i0 i1 =
    let hi = i1 - 1 in
    let wide = ltb (mul64 4 (sub64 (a ! (hi - 8)) (a ! i0))) (sub64 (a ! hi) (a ! i0)) in
    let hi' = if wide then hi - 8 else hi in
    let low = ltb (mul64 4 (sub64 (a ! hi') (a ! (i0 + 8)))) (sub64 (a ! hi') (a ! i0)) in
    let lo' = if low then i0 + 8 else i0 in
    if robust && ltb 32 (i1 - i0) then (lo', hi') else (i0, hi)

-- `(kf >> K) ? 63 - clz(kf >> K) : 0`.
unfoldable pub slot_bits : ℕ → ℕ → ℕ
slot_bits k kf = if shr kf k == 0 then 0 else 63 - clz64 (shr kf k)

-- The entries of the slots from `s` on, with `left` slots to go, and the last entry `i1`.
unfoldable pub slot_starts : List ℕ → ℕ → ℕ → ℕ → ℕ → ℕ → ℕ → List ℕ
slot_starts a base shift i1 zero s j = to_u32 i1 ∷ []
slot_starts a base shift i1 (suc left) s j =
    let j' = advance (λ i. ltb (bucket base shift (a ! i)) s) (i1 - j) j in
    to_u32 j' ∷ slot_starts a base shift i1 left (suc s) j'

-- The record and the second-table entries of one top bucket that holds the keys `[i0, i1)`.
unfoldable pub fit : ℕ → Bool → List ℕ → ℕ → ℕ → ℕ → Top × List ℕ
unfolding fit_range slot_bits slot_starts
fit k robust a i0 i1 start =
    let (lo, hi) = fit_range robust a i0 i1 in
    let base = a ! lo in
    let span = sub64 (a ! hi) base in
    let shift = to_u32 (shift_for span (slot_bits k (hi - lo + 1))) in
    let slots = to_u32 (add64 (shr span shift) 1) in
    let empty : Top × List ℕ =
      (record { base = 0; start = start; slots = 0; shift = 63 }, to_u32 i0 ∷ to_u32 i0 ∷ []) in
    let fitted : Top × List ℕ = (
      record { base = base; start = start; slots = slots; shift = shift },
      to_u32 i0 ∷ slot_starts a base shift i1 slots 1 lo,
    ) in
    if i1 - i0 == 0 then empty else fitted

-- The loop over the top buckets, as in ClusterJump.
unfoldable pub rows : ℕ → Bool → List ℕ → ℕ → ℕ → ℕ → ℕ → ℕ → ℕ → ℕ → List Top × List ℕ
unfolding fit
rows k robust a gbase gshift ntop zero b i0 size = ([], [])
rows k robust a gbase gshift ntop (suc left) b i0 size =
    let i1 = bucket_end a gbase gshift ntop b i0 in
    let (t, entries) = fit k robust a i0 i1 (to_u32 size) in
    let (top, t2) = rows k robust a gbase gshift ntop left (suc b) i1 (size + length entries) in
    (t ∷ top, entries ++ t2)

unfoldable pub build : ℕ → ℕ → Bool → List ℕ → ClusterJump2
unfolding rows
build k rounds robust a =
    let gbase = a ! 0 in
    let span = sub64 (a ! (length a - 1)) gbase in
    let gshift = shift_for span (top_bits (length a)) in
    let ntop = add64 (shr span gshift) 1 in
    let (top, t2) = rows k robust a gbase gshift ntop (ntop + 1) 0 0 0 in
    let keys = flipped_copy (4 * rounds) a in
    let empty : ClusterJump2 = record {
      keys = keys;
      top = record { base = 0; start = 0; slots = 0; shift = 63 } ∷ [];
      t2 = replicate 2 0;
      gbase = 0;
      ntop = 0;
      gshift = 63;
    } in
    let built : ClusterJump2 = record {
      keys = keys;
      top = top;
      t2 = t2;
      gbase = gbase;
      ntop = ntop;
      gshift = gshift;
    } in
    if length a == 0 then empty else built

unfoldable pub predecessor : ℕ → ClusterJump2 → ℕ → Run (Option ℕ)
predecessor rounds c q = do
  t ← load c.top (pick c.gbase c.gshift c.ntop q)
  let j = pick t.base t.shift t.slots q
  lo ← load c.t2 (t.start + j)
  next ← load c.t2 (t.start + j + 1)
  lb ← last_mile rounds c.keys lo (sub64 next lo) q
  answer c.keys lb
