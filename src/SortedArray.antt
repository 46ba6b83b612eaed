-- ===== src/SortedArray.antt =====
-- include/structures.hpp, class SortedArray: the branchless binary search that is the first baseline.
pub mod Correct
use fusion_tree_benchmark.Prelude.{
  ℕ, suc, ◌-◌, List, Option, none, some, length, ltb, ◌==◌, if◌then◌else◌, Run, ok, ◌>>=◌, load,
}
use fusion_tree_benchmark.Search.{narrow}

pub record SortedArray : Type 0 where
  pub a : List ℕ

unfoldable pub build : List ℕ → SortedArray
build sorted = record { a = sorted }

-- The loop runs until the range is empty; `suc (length s.a)` rounds are enough.
unfoldable pub lower_bound : SortedArray → ℕ → Run ℕ
unfolding narrow
lower_bound s q = do
  (lo, len) ← narrow 0 (λ k. ltb k q) s.a (suc (length s.a)) 0 (length s.a)
  ok lo

-- `if (lo == 0) return false; out = a_[lo - 1]; return true;`
unfoldable pub read_before : List ℕ → ℕ → Run (Option ℕ)
read_before a lo =
    let found : Run (Option ℕ) = (do k ← load a (lo - 1); ok (some k)) in
    if lo == 0 then ok none else found

unfoldable pub predecessor : SortedArray → ℕ → Run (Option ℕ)
unfolding lower_bound read_before
predecessor s q = do lo ← lower_bound s q; read_before s.a lo
