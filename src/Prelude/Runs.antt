-- ===== src/Prelude/Runs.antt =====
-- How a call ends: with a value, by a read outside an array, or with the model's fuel used up.
use Prim.Native.Nat.{ℕ, zero, suc, ◌<◌}
use mathlib.Core.Bool.{Bool, true, false, false≢true}
use native.Mathlib.Omega.{arith}
use mathlib.Core.Path.{◌≡◌, refl, ap}
use mathlib.Core.Logic.{◌≢◌}
use mathlib.Core.Option.{Option, none, some}
use mathlib.Core.List.{List, [], ◌∷◌, ◌++◌}
use fusion_tree_benchmark.Prelude.Lists.{
  length, get_elem?, get_or, put, get_elem?-get_or, get_elem?-put_same, get_elem?-put_other,
  get_elem?-append_left, get_elem?-append_end,
}

pub data Run {ℓ} (A : Type ℓ) : Type ℓ where
  out_of_fuel : Run A
  fault : Run A
  ok : A → Run A

-- A computation goes on only from a value.
infixl 5 ◌>>=◌
abbrev pub ◌>>=◌ {ℓ κ} : {A : Type ℓ} {B : Type κ} → Run A → (A → Run B) → Run B
out_of_fuel >>= next = out_of_fuel
fault >>= next = fault
ok value >>= next = next value

abbrev read {ℓ} : {A : Type ℓ} → Option A → Run A
read none = fault
read (some value) = ok value

-- A read of an array: outside it, undefined behaviour.
unfoldable pub load {ℓ} : {A : Type ℓ} → List A → ℕ → Run A
load a i = read (get_elem? a i)

-- The call ends with a value, and the value satisfies `P`.
abbrev pub Returns {ℓ κ} : {A : Type ℓ} → (A → Type κ) → Run A → Type (ℓ ⊔ κ)
Returns {A} P run = (value : A) × (run ≡ ok value) × P value

pub returns {ℓ κ} : {A : Type ℓ} {P : A → Type κ} {value : A} → P value → Returns P (ok value)
returns p = (_, refl, p)

pub load-ok {ℓ} :
    {A : Type ℓ} (a : List A) (i : ℕ) (d : A) → i < length a → load a i ≡ ok (get_or a i d)
unfolding load
load-ok a i d h = rw (get_elem?-get_or a i d h)

abbrev value_or : ℕ → Run ℕ → ℕ
value_or d (ok value) = value
value_or d _ = d

pub ok_injective : (x y : ℕ) → ok x ≡ ok y → x ≡ y
ok_injective x y e = ap (value_or 0) e

module _ {ℓ} {A : Type ℓ} where
  abbrev is_ok : Run A → Bool
  is_ok (ok value) = true
  is_ok _ = false

  -- A read that succeeds is inside the array.
  pub load-lt : (xs : List A) (i : ℕ) (x : A) → load xs i ≡ ok x → i < length xs
  unfolding load
  load-lt [] i x e = absurd (false≢true (ap is_ok e))
  load-lt (y ∷ ys) zero x e = omega arith
  load-lt (y ∷ ys) (suc i) x e = omega (arith, load-lt ys i x e)

  pub load-put_same : (xs : List A) (i : ℕ) (x : A) → i < length xs → load (put xs i x) i ≡ ok x
  unfolding load
  load-put_same xs i x h = rw (get_elem?-put_same xs i x h)

  pub load-put_other : (xs : List A) (i j : ℕ) (x : A) → j ≢ i → load (put xs i x) j ≡ load xs j
  unfolding load
  load-put_other xs i j x h = rw (get_elem?-put_other xs i j x h)

  pub load-append_left : (xs ys : List A) (i : ℕ) → i < length xs → load (xs ++ ys) i ≡ load xs i
  unfolding load
  load-append_left xs ys i h = rw (get_elem?-append_left xs ys i h)

  pub load-append_end : (xs : List A) (x : A) → load (xs ++ x ∷ []) (length xs) ≡ ok x
  unfolding load
  load-append_end xs x = rw (get_elem?-append_end xs x)
