-- ===== src/RadixJump.antt =====
-- include/radix_jump.hpp, class RadixJump: one table read from the top bits of `q - base`, then the
-- shared last step on at most eight keys.
pub mod Correct
use fusion_tree_benchmark.Prelude.{
  ℕ, zero, suc, ◌+◌, ◌-◌, ◌/◌, ◌%◌, ◌^◌, Bool, List, [], ◌∷◌, ◌++◌, Option, length, ◌!◌, ltb, ◌&&◌,
  ◌==◌, if◌then◌else◌, Run, ◌>>=◌, load, advance, replicate,
}
use fusion_tree_benchmark.Word.{add64, sub64, shl64, shr}
use fusion_tree_benchmark.Buckets.{shift_for, fill, pick}
use fusion_tree_benchmark.Search.{flipped_copy, last_mile, answer}

pub record RadixJump : Type 0 where
  pub keys : List ℕ
  pub table : List ℕ
  pub base : ℕ
  pub buckets : ℕ
  pub shift : ℕ

-- `while ((1 << (want + 2)) < n && want < 30) ++want;` The second test bounds the rounds.
unfoldable pub want_bits : ℕ → ℕ → ℕ → ℕ
want_bits zero n want = want
want_bits (suc fuel) n want =
    let next = want_bits fuel n (suc want) in
    if ltb (shl64 1 (want + 2)) n && ltb want 30 then next else want

-- The construction for at least one key.
unfoldable pub build_keys : List ℕ → RadixJump
unfolding fill want_bits shift_for
build_keys a =
    let n = length a in
    let base = a ! 0 in
    let span = sub64 (a ! (n - 1)) base in
    let want = want_bits 30 n 1 in
    let shift = shift_for span want in
    let buckets = add64 (shr span shift) 1 in
    record {
      keys = flipped_copy 8 a;
      table = fill a base shift n buckets 0 0;
      base = base;
      buckets = buckets;
      shift = shift;
    }

unfoldable pub build : List ℕ → RadixJump
unfolding build_keys
build a =
    let empty : RadixJump = record {
      keys = flipped_copy 8 a;
      table = replicate 2 0;
      base = 0;
      buckets = 0;
      shift = 63;
    } in
    if length a == 0 then empty else build_keys a

unfoldable pub predecessor : RadixJump → ℕ → Run (Option ℕ)
predecessor t q = do
  let b = pick t.base t.shift t.buckets q
  lo ← load t.table b
  next ← load t.table (b + 1)
  lb ← last_mile 2 t.keys lo (sub64 next lo) q
  answer t.keys lb
