-- ===== src/Search.antt =====
-- The last step that the array-based indexes share: include/learned_indexes.hpp `flipped_copy` and
-- `last_mile`, and the same code inside `predecessor` of include/radix_jump.hpp,
-- include/cluster_jump.hpp and include/cluster_jump2.hpp. The AVX2 intrinsics are modelled by what
-- they do on four 64-bit lanes: load, signed greater-than, sign bits to a mask.
pub mod Count
pub mod Narrow
pub mod Scan
pub mod LastMile
use Prim.Native.Nat.{bit_and, bit_or}
use fusion_tree_benchmark.Prelude.{
  ℕ, zero, suc, ◌+◌, ◌-◌, ◌*◌, ◌/◌, ◌%◌, ◌^◌, Bool, List, [], ◌∷◌, ◌++◌, map, Option, none, some,
  length, replicate, ltb, ◌==◌, if◌then◌else◌, Run, ok, out_of_fuel, ◌>>=◌, load,
}
use fusion_tree_benchmark.Word.Masks.{count_bits, mask_of}
use fusion_tree_benchmark.Word.Signed.{slt, flip}

-- `~0ull ^ FLIP`, the padding after the keys.
abbrev pub pad : ℕ
pad = flip 0xffffffffffffffff

-- The stored array: every key with its top bit flipped, then `w` places of padding.
unfoldable pub flipped_copy : ℕ → List ℕ → List ℕ
flipped_copy w a = map flip a ++ replicate w pad

-- `while (len > w) { half = len / 2; lo += less(arr[lo + half]) ? len - half : 0; len = half; }`
unfoldable pub narrow : ℕ → (ℕ → Bool) → List ℕ → ℕ → ℕ → ℕ → Run (ℕ × ℕ)
narrow w less arr zero lo len = out_of_fuel
narrow w less arr (suc fuel) lo len =
    let half = len / 2 in
    let round : Run (ℕ × ℕ) = do
      k ← load arr (lo + half)
      narrow w less arr fuel (lo + (if less k then len - half else 0)) half
    in if ltb w len then round else ok (lo, len)

-- `movemask(cmpgt(q, arr[p .. p + 4)))`: one bit for each of four keys that is below `q`.
unfoldable pub compare4 : (ℕ → Bool) → List ℕ → ℕ → Run ℕ
compare4 less arr p = do
  k0 ← load arr p
  k1 ← load arr (p + 1)
  k2 ← load arr (p + 2)
  k3 ← load arr (p + 3)
  ok (mask_of (less k0 ∷ less k1 ∷ less k2 ∷ less k3 ∷ []))

-- `unsigned` shift.
unfoldable pub shl32 : ℕ → ℕ → ℕ
shl32 x k = x * 2 ^ k % 2 ^ 32

-- `for (; i < w; i += 4) m |= compare4(lo + i) << i;` with the rounds left as the first argument.
unfoldable pub scan : ℕ → (ℕ → Bool) → List ℕ → ℕ → ℕ → ℕ → Run ℕ
scan zero less arr lo i m = ok m
scan (suc rounds) less arr lo i m = do
  next ← compare4 less arr (lo + i)
  scan rounds less arr lo (i + 4) (bit_or m (shl32 next i))

-- Narrow to at most `4 * rounds` keys, compare them all and count those below `q` in the range.
unfoldable pub last_mile : ℕ → List ℕ → ℕ → ℕ → ℕ → Run ℕ
unfolding narrow compare4 scan shl32
last_mile rounds keys lo len q = do
  let less = λ (k : ℕ). slt k (flip q)
  (lo', len') ← narrow (4 * rounds) less keys (suc len) lo len
  m ← scan rounds less keys lo' 0 0
  ok (lo' + count_bits 64 (bit_and m (shl32 1 len' - 1)))

-- `if (lb == 0) return false; out = keys[lb - 1] ^ FLIP; return true;`
unfoldable pub answer : List ℕ → ℕ → Run (Option ℕ)
answer keys lb =
    let found : Run (Option ℕ) = (do k ← load keys (lb - 1); ok (some (flip k))) in
    if lb == 0 then ok none else found
