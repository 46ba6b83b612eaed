-- ===== src/Multiplier/Occupied.antt =====
-- The landings in use of include/sketch_fast.hpp find_multiplier, and how many they are.
use fusion_tree_benchmark.Prelude.{
  ℕ, zero, suc, ◌+◌, ◌≤◌, ◌<◌, ◌≡◌, ◌≢◌, refl, ap, ◌∙◌, Bool, true, false, List, [], ◌∷◌, length,
  replicate, get_or, put, length-put, ◌||◌, if◌then◌else◌, arith,
}
use fusion_tree_benchmark.Multiplier.{occupy}

-- How many of `f cand`, ..., `f (cand + left - 1)` are true.
abbrev pub count : (ℕ → Bool) → ℕ → ℕ → ℕ
count f cand zero = 0
count f cand (suc left) = (if f cand then 1 else 0) + count f (suc cand) left

pub count-false : (f : ℕ → Bool) (cand left : ℕ) → ((i : ℕ) → f i ≡ false) → count f cand left ≡ 0
count-false f cand zero h = refl
count-false f cand (suc left) h = rw (h cand, count-false f (suc cand) left h) refl

pub count-or :
    (f g : ℕ → Bool) (cand left : ℕ)
    → count (λ c. f c || g c) cand left ≤ count f cand left + count g cand left
count-or f g cand zero = omega arith
count-or f g cand (suc left) = ground (arith, count-or f g (suc cand) left)

pub count-shift :
    (f : ℕ → Bool) (p cand left : ℕ) → count (λ c. f (p + c)) cand left ≡ count f (p + cand) left
count-shift f p cand zero = refl
count-shift f p cand (suc left) =
    let e : p + suc cand ≡ suc (p + cand) = omega arith in
    ap (λ n. (if f (p + cand) then 1 else 0) + n)
      (count-shift f p (suc cand) left ∙ ap (λ s. count f s left) e)

abbrev pub in_use : List Bool → ℕ → Bool
in_use used i = get_or used i false

-- The places in use.
abbrev pub marked : List Bool → ℕ
marked [] = 0
marked (b ∷ used) = (if b then 1 else 0) + marked used

count-tail :
    (b : Bool) (used : List Bool) (s n : ℕ)
    → count (in_use (b ∷ used)) (suc s) n ≡ count (in_use used) s n
count-tail b used s zero = refl
count-tail b used s (suc n) =
    ap (λ m. (if in_use used s then 1 else 0) + m) (count-tail b used (suc s) n)

pub count-marked : (used : List Bool) (s n : ℕ) → count (in_use used) s n ≤ marked used
count-marked [] s n = omega (arith, count-false (in_use []) s n (λ i. refl))
count-marked (b ∷ used) (suc s) n = omega (arith, count-tail b used s n, count-marked used s n)
count-marked (b ∷ used) zero zero = omega arith
count-marked (b ∷ used) zero (suc n) = omega (arith, count-tail b used 0 n, count-marked used 0 n)

pub marked-replicate : (n : ℕ) → marked (replicate n false) ≡ 0
marked-replicate zero = refl
marked-replicate (suc n) = omega (arith, marked-replicate n)

pub marked-put : (used : List Bool) (i : ℕ) → marked (put used i true) ≤ 1 + marked used
marked-put [] i = omega arith
marked-put (b ∷ used) zero = omega arith
marked-put (b ∷ used) (suc i) = omega (arith, marked-put used i)

-- A place that is free after a store was free, and is another one.
pub free-put :
    (used : List Bool) (k i : ℕ)
    → k < length used
    → in_use (put used k true) i ≡ false
    → (in_use used i ≡ false) × (k ≢ i)
free-put [] k i h e = absurd (omega (arith, h))
free-put (b ∷ used) zero zero h e = cc
free-put (b ∷ used) zero (suc i) h e = (e, λ q. omega (arith, q))
free-put (b ∷ used) (suc k) zero h e = (e, λ q. omega (arith, q))
free-put (b ∷ used) (suc k) (suc i) h e =
    let (old, other) = free-put used k i (omega arith) e in (old, λ q. other (omega arith))

pub length-occupy :
    (used : List Bool) (cand : ℕ) (pos : List ℕ) → length (occupy used cand pos) ≡ length used
unfolding occupy
length-occupy used cand [] = refl
length-occupy used cand (p ∷ pos) =
    length-occupy (put used (p + cand) true) cand pos ∙ length-put used (p + cand) true

pub marked-occupy :
    (used : List Bool) (cand : ℕ) (pos : List ℕ)
    → marked (occupy used cand pos) ≤ length pos + marked used
unfolding occupy
marked-occupy used cand [] = omega arith
marked-occupy used cand (p ∷ pos) =
    omega (arith, marked-occupy (put used (p + cand) true) cand pos, marked-put used (p + cand))
