-- ===== src/Rmi/Edges.antt =====
-- The tests at the edges of the window, as `check_edges` makes them.
use fusion_tree_benchmark.Prelude.{
  ℕ, ◌-◌, ◌≤◌, ◌<◌, ◌≡◌, Bool, true, false, not, ◌&&◌, ltb, ◌==◌, arith,
}

unfoldable pub at_left : ℕ → ℕ → Bool
at_left lb lo = lb == lo && ltb 0 lo

unfoldable pub at_right : ℕ → ℕ → ℕ → Bool
at_right lb top n = lb == top && ltb lb n

pub at_left-lt : (lb lo n : ℕ) → lo ≤ n → at_left lb lo ≡ true → lo - 1 < n
unfolding at_left
at_left-lt lb lo n h e = ground (arith, e)

pub at_right-lt : (lb top n : ℕ) → at_right lb top n ≡ true → lb < n
unfolding at_right
at_right-lt lb top n e = ground (arith, e)

pub turn_left :
    (lb lo x q : ℕ)
    → (at_left lb lo && not (at_left lb lo && ltb x q)) ≡ true
    → (lb ≡ lo) × (0 < lo) × (q ≤ x)
unfolding at_left
turn_left lb lo x q e = ground (arith, e)

pub stay_left :
    (lb lo x q : ℕ)
    → (at_left lb lo && not (at_left lb lo && ltb x q)) ≡ false
    → lb ≡ lo
    → 0 < lo
    → x < q
unfolding at_left
stay_left lb lo x q e h p = ground (arith, e)

pub turn_right :
    (lb top n x q : ℕ)
    → (at_right lb top n && (at_right lb top n && ltb x q)) ≡ true
    → (lb < n) × (x < q)
unfolding at_right
turn_right lb top n x q e = ground (arith, e)

pub stay_right :
    (lb top n x q : ℕ)
    → (at_right lb top n && (at_right lb top n && ltb x q)) ≡ false
    → lb ≡ top
    → lb < n
    → q ≤ x
unfolding at_right
stay_right lb top n x q e h p = ground (arith, e)
