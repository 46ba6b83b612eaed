-- ===== src/Prelude/Loops.antt =====
-- The loop `while (j < n && p(j)) ++j;`, which every index construction uses.
use Prim.Native.Nat.{ℕ, zero, suc, ◌+◌, ◌≤◌, ◌<◌}
use mathlib.Core.Path.{◌≡◌}
use mathlib.Core.Bool.{Bool, true, false}
use mathlib.Core.Logic.{inl, inr}
use native.Mathlib.Omega.{arith}
use fusion_tree_benchmark.Prelude.Tests.{if◌then◌else◌, Bool-cases}

-- The first argument after the test is `n - j`, the rounds that `j < n` still allows.
unfoldable pub advance : (ℕ → Bool) → ℕ → ℕ → ℕ
advance p zero j = j
advance p (suc r) j = let next = advance p r (suc j) in if p j then next else j

-- Where such a loop stops: past a stretch that passes the test, at its end or at a failure.
pub record StopsAt (p : ℕ → Bool) (j n k : ℕ) : Type 0 where
  pub from : j ≤ k
  pub upto : k ≤ n
  pub passed : (i : ℕ) → j ≤ i → i < k → p i ≡ true
  pub stopped : k < n → p k ≡ false

pub advance-StopsAt : (p : ℕ → Bool) (r j n : ℕ) → j + r ≡ n → StopsAt p j n (advance p r j)
unfolding advance
advance-StopsAt p zero j n e = record {
  from = omega arith;
  upto = omega arith;
  passed = λ i a b. absurd (omega arith);
  stopped = λ a. absurd (omega arith);
}
advance-StopsAt p (suc r) j n e = elim (Bool-cases (p j)) [
  | inr stop ↦ rw stop (record {
    from = omega arith;
    upto = omega arith;
    passed = λ i a b. absurd (omega arith);
    stopped = λ a. stop;
  })
  | inl go ↦
      let ih = advance-StopsAt p r (suc j) n (omega arith) in
      rw go (record {
        from = omega (arith, ih.from);
        upto = ih.upto;
        passed = λ i a b. ground (arith, ih.passed i);
        stopped = ih.stopped;
      })
]
