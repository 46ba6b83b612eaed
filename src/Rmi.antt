-- ===== src/Rmi.antt =====
-- include/rmi_index.hpp, class RMIIndex: a generated model guesses the position and its error; the
-- window around the guess is searched, its edges are checked, and the rest of the array is searched
-- if the answer lies beyond one. The registry of generated models is an argument of `build`.
pub mod Edges
pub mod Correct
use fusion_tree_benchmark.Prelude.{
  ℕ, ◌+◌, ◌-◌, Bool, ◌&&◌, not, false, List, [], ◌∷◌, Option, none, some, length, ◌!◌, ◌/◌, ltb,
  ◌==◌, if◌then◌else◌, Run, ok, load, ◌>>=◌,
}
use fusion_tree_benchmark.Word.{add64}
use fusion_tree_benchmark.Word.Signed.{slt, flip}
use fusion_tree_benchmark.Search.{flipped_copy, last_mile, answer}

-- `load` and `lookup` are generated code: whether the model's data are there, and the guess for a key
-- with its error.
pub record RmiEntry : Type 0 where
  pub rank : ℕ
  pub n : ℕ
  pub first : ℕ
  pub last : ℕ
  pub q1 : ℕ
  pub mid : ℕ
  pub loads : Bool
  pub lookup : ℕ → ℕ × ℕ

pub record RmiIndex : Type 0 where
  pub keys : List ℕ
  pub n : ℕ
  pub entry : Option RmiEntry

-- The rank and the fingerprint of the training keys.
unfoldable pub fits : ℕ → List ℕ → RmiEntry → Bool
fits rank a e =
    let n = length a in
    e.rank == rank
    && e.n == n
    && e.first == a ! 0
    && e.last == a ! (n - 1)
    && e.q1 == a ! (n / 4)
    && e.mid == a ! (n / 2)

-- The first entry that fits ends the loop, whether or not it loads.
unfoldable pub choose : ℕ → List ℕ → List RmiEntry → Option RmiEntry
unfolding fits
choose rank a [] = none
choose rank a (e ∷ registry) =
    if fits rank a e then (if e.loads then some e else none) else choose rank a registry

unfoldable pub build : ℕ → List RmiEntry → List ℕ → RmiIndex
unfolding choose
build rank registry a = record {
  keys = flipped_copy 8 a;
  n = length a;
  entry = if length a == 0 then none else choose rank a registry;
}

-- `[lo, hi)` around the guess `g` with error `err`, as `(lo, len)`.
unfoldable pub window : ℕ → ℕ × ℕ → ℕ × ℕ
window n (g, err) =
    let start = if ltb err g then g - err else 0 in
    let lo = if ltb start n then start else n in
    let far = add64 (add64 g err) 2 in
    let hi = if ltb far n then far else n in (lo, if ltb lo hi then hi - lo else 0)

-- `keys[i] < q` in the flipped order, read only where `guard` holds.
unfoldable pub below_at : Bool → List ℕ → ℕ → ℕ → Run Bool
below_at guard keys i q =
    let read : Run Bool = (do k ← load keys i; ok (slt k (flip q))) in
    if guard then read else ok false

-- The checks of the window's edges, for the position `lb` that its search gave. The first reads the
-- key before the window, the second the key behind it.
unfoldable pub check_edges : RmiIndex → ℕ → ℕ → ℕ → ℕ → Run ℕ
unfolding below_at
check_edges index q lo len lb =
    let left_edge = lb == lo && ltb 0 lo in
    let right_edge = lb == lo + len && ltb lb index.n in
    let otherwise : Run ℕ = (do
      behind ← below_at right_edge index.keys lb q
      if right_edge && behind then last_mile 2 index.keys lb (index.n - lb) q else ok lb) in
    do
      before ← below_at left_edge index.keys (lo - 1) q
      if left_edge && not before then last_mile 2 index.keys 0 lo q else otherwise

-- The position that `predecessor` reads the answer from.
unfoldable pub position : RmiIndex → ℕ → Option RmiEntry → Run ℕ
unfolding window check_edges
position index q none = last_mile 2 index.keys 0 index.n q
position index q (some e) = do
  let (lo, len) = window index.n (e.lookup q)
  lb ← last_mile 2 index.keys lo len q
  check_edges index q lo len lb

unfoldable pub predecessor : RmiIndex → ℕ → Run (Option ℕ)
unfolding position
predecessor index q = do lb ← position index q index.entry; answer index.keys lb
