-- ===== src/Multiplier.antt =====
-- include/sketch_fast.hpp, Multiplier and find_multiplier: the greedy search for the shifts of a sketch by
-- one multiplication.
pub mod Correct
pub mod Ends
pub mod Landings
pub mod Occupied
use Prim.Native.Nat.{bit_or}
use fusion_tree_benchmark.Prelude.{
  ℕ, zero, suc, ◌+◌, ◌-◌, ◌^◌, Bool, true, false, List, [], ◌∷◌, Option, none, some, length,
  replicate, get_or, put, ltb, if◌then◌else◌, Run, fault, ok, ◌>>=◌, load,
}

pub record Multiplier : Type 0 where
  pub product : ℕ
  pub m : List ℕ
  pub lo : ℕ
  pub hi : ℕ
  pub fits : Bool

-- `hi - lo + 1`; the lowest landing is not above the highest.
unfoldable pub spread : Multiplier → ℕ
spread made = made.hi + 1 - made.lo

-- LIMIT.
abbrev pub limit : ℕ
limit = 4096

-- `for (i = 0; i < r && !clash; ++i) clash = used[pos[i] + cand];`
unfoldable pub clashes : List Bool → ℕ → List ℕ → Run Bool
clashes used cand [] = ok false
clashes used cand (p ∷ pos) = do
  clash ← load used (p + cand)
  elim clash [ true ↦ ok true | false ↦ clashes used cand pos ]

-- The first candidate from `cand` on that does not clash, with `left` of them to go.
unfoldable pub first_free : List Bool → List ℕ → ℕ → ℕ → Run (Option ℕ)
first_free used pos zero cand = ok none
first_free used pos (suc left) cand = do
  clash ← clashes used cand pos
  elim clash [ true ↦ first_free used pos left (suc cand) | false ↦ ok (some cand) ]

-- `for (i = 0; i < r; ++i) used[pos[i] + cand] = true;`
unfoldable pub occupy : List Bool → ℕ → List ℕ → List Bool
occupy used cand [] = used
occupy used cand (p ∷ pos) = occupy (put used (p + cand) true) cand pos

-- A round that finds no candidate leaves `used` and the shift 0.
unfoldable pub taken : List Bool → List ℕ → Option ℕ → List Bool
unfolding occupy
taken used pos none = used
taken used pos (some cand) = occupy used cand pos

unfoldable pub shift_of : Option ℕ → ℕ
shift_of none = 0
shift_of (some cand) = cand

-- The shifts, with `left` rounds to go.
unfoldable pub place : List ℕ → ℕ → List Bool → Run (List ℕ)
place pos zero used = ok []
place pos (suc left) used = do
  found ← first_free used pos limit 0
  shifts ← place pos left (taken used pos found)
  ok (shift_of found ∷ shifts)

-- The lowest and the highest landing of a position with its own shift.
unfoldable pub lowest : List ℕ → List ℕ → ℕ → ℕ
lowest (p ∷ pos) (m ∷ shifts) lo = lowest pos shifts (if ltb (p + m) lo then p + m else lo)
lowest _ _ lo = lo

unfoldable pub highest : List ℕ → List ℕ → ℕ → ℕ
highest (p ∷ pos) (m ∷ shifts) hi = highest pos shifts (if ltb hi (p + m) then p + m else hi)
highest _ _ hi = hi

-- `M |= 1ull << m[i]`: a shift of 64 or more is undefined.
unfoldable pub product_of : List ℕ → ℕ → Run ℕ
product_of [] acc = ok acc
product_of (m ∷ shifts) acc = if ltb m 64 then product_of shifts (bit_or acc (2 ^ m)) else fault

unfoldable pub find_multiplier : List ℕ → Run Multiplier
find_multiplier [] = ok (record { product = 0; m = []; lo = 0; hi = 0; fits = true })
find_multiplier (p ∷ pos) = do
  let all = p ∷ pos
  shifts ← place all (length all) (replicate (limit + 64) false)
  let first = p + get_or shifts 0 0
  let hi = highest all shifts first
  product ← product_of shifts 0
  ok (record {
    product = product;
    m = shifts;
    lo = lowest all shifts first;
    hi = hi;
    fits = ltb hi 64;
  })
