-- ===== src/Prelude/Lists.antt =====
-- Arrays and vectors as lists, measured and indexed by native numbers.
use Prim.Native.Nat.{ℕ, zero, suc, ◌+◌, ◌-◌, ◌≤◌, ◌<◌}
use mathlib.Core.Path.{◌≡◌, refl, ap, sym, ◌∙◌}
use mathlib.Core.List.{List, [], ◌∷◌, ◌++◌, map}
use mathlib.Core.Option.{Option, none, some}
use mathlib.Core.Logic.{◌≢◌}
use native.Mathlib.Omega.{arith}

module _ {ℓ} {A : Type ℓ} where
  abbrev pub length : List A → ℕ
  length [] = 0
  length (x ∷ xs) = suc (length xs)

  abbrev pub get_elem? : List A → ℕ → Option A
  get_elem? [] i = none
  get_elem? (x ∷ xs) zero = some x
  get_elem? (x ∷ xs) (suc i) = get_elem? xs i

  abbrev pub get_or : List A → ℕ → A → A
  get_or [] i d = d
  get_or (x ∷ xs) zero d = x
  get_or (x ∷ xs) (suc i) d = get_or xs i d

  abbrev pub replicate : ℕ → A → List A
  replicate zero a = []
  replicate (suc n) a = a ∷ replicate n a

  abbrev pub take : ℕ → List A → List A
  take zero xs = []
  take (suc n) [] = []
  take (suc n) (x ∷ xs) = x ∷ take n xs

  abbrev pub drop : ℕ → List A → List A
  drop zero xs = xs
  drop (suc n) [] = []
  drop (suc n) (x ∷ xs) = drop n xs

  -- The entries `[lo, hi)`.
  abbrev pub slice : List A → ℕ → ℕ → List A
  slice xs lo hi = take (hi - lo) (drop lo xs)

  -- `xs[i] = x`.
  abbrev pub put : List A → ℕ → A → List A
  put [] i x = []
  put (y ∷ ys) zero x = x ∷ ys
  put (y ∷ ys) (suc i) x = y ∷ put ys i x

  -- A predicate that holds of every entry.
  abbrev pub All {κ} : (A → Type κ) → List A → Type κ
  All P [] = Unit
  All P (x ∷ xs) = P x × All P xs

  pub length-append : (xs ys : List A) → length (xs ++ ys) ≡ length xs + length ys
  length-append [] ys = omega arith
  length-append (x ∷ xs) ys = omega (arith, length-append xs ys)

  pub length-replicate : (n : ℕ) (a : A) → length (replicate n a) ≡ n
  length-replicate zero a = refl
  length-replicate (suc n) a = ap suc (length-replicate n a)

  pub get_elem?-get_or :
      (xs : List A) (i : ℕ) (d : A) → i < length xs → get_elem? xs i ≡ some (get_or xs i d)
  get_elem?-get_or [] i d h = absurd (omega arith)
  get_elem?-get_or (x ∷ xs) zero d h = refl
  get_elem?-get_or (x ∷ xs) (suc i) d h = get_elem?-get_or xs i d (omega arith)

  pub get_or-append_left :
      (xs ys : List A) (i : ℕ) (d : A) → i < length xs → get_or (xs ++ ys) i d ≡ get_or xs i d
  get_or-append_left [] ys i d h = absurd (omega arith)
  get_or-append_left (x ∷ xs) ys zero d h = refl
  get_or-append_left (x ∷ xs) ys (suc i) d h = get_or-append_left xs ys i d (omega arith)

  pub get_or-append_right :
      (xs ys : List A) (i j : ℕ) (d : A) → j ≡ length xs + i → get_or (xs ++ ys) j d ≡ get_or ys i d
  get_or-append_right [] ys i j d h = ap (λ k. get_or ys k d) (omega arith)
  get_or-append_right (x ∷ xs) ys i zero d h = absurd (omega arith)
  get_or-append_right (x ∷ xs) ys i (suc j) d h = get_or-append_right xs ys i j d (omega arith)

  pub get_or-take :
      (n : ℕ) (xs : List A) (i : ℕ) (d : A) → i < n → get_or (take n xs) i d ≡ get_or xs i d
  get_or-take zero xs i d h = absurd (omega arith)
  get_or-take (suc n) [] i d h = refl
  get_or-take (suc n) (x ∷ xs) zero d h = refl
  get_or-take (suc n) (x ∷ xs) (suc i) d h = get_or-take n xs i d (omega arith)

  pub length-take : (n : ℕ) (xs : List A) → n ≤ length xs → length (take n xs) ≡ n
  length-take zero xs h = refl
  length-take (suc n) [] h = absurd (omega arith)
  length-take (suc n) (x ∷ xs) h = ap suc (length-take n xs (omega arith))

  pub get_or-drop :
      (n : ℕ) (xs : List A) (i : ℕ) (d : A) → get_or (drop n xs) i d ≡ get_or xs (n + i) d
  get_or-drop zero xs i d = ap (λ k. get_or xs k d) (omega arith)
  get_or-drop (suc n) [] i d = refl
  get_or-drop (suc n) (x ∷ xs) i d =
      let e : suc n + i ≡ suc (n + i) = omega arith in
      get_or-drop n xs i d ∙ sym (ap (λ k. get_or (x ∷ xs) k d) e)

  pub length-drop : (n : ℕ) (xs : List A) → n ≤ length xs → length (drop n xs) + n ≡ length xs
  length-drop zero xs h = omega arith
  length-drop (suc n) [] h = absurd (omega arith)
  length-drop (suc n) (x ∷ xs) h = omega (arith, length-drop n xs (omega arith))

  pub length-slice :
      (xs : List A) (lo hi : ℕ) → lo ≤ hi → hi ≤ length xs → length (slice xs lo hi) ≡ hi - lo
  length-slice xs lo hi h l =
      length-take (hi - lo) (drop lo xs) (omega (arith, length-drop lo xs (omega arith)))

  pub get_or-slice :
      (xs : List A) (lo hi i : ℕ) (d : A)
      → i < hi - lo
      → get_or (slice xs lo hi) i d ≡ get_or xs (lo + i) d
  get_or-slice xs lo hi i d h = get_or-take (hi - lo) (drop lo xs) i d h ∙ get_or-drop lo xs i d

  pub get_or-replicate : (n i : ℕ) (a d : A) → i < n → get_or (replicate n a) i d ≡ a
  get_or-replicate zero i a d h = absurd (omega arith)
  get_or-replicate (suc n) zero a d h = refl
  get_or-replicate (suc n) (suc i) a d h = get_or-replicate n i a d (omega arith)

  pub length-put : (xs : List A) (i : ℕ) (x : A) → length (put xs i x) ≡ length xs
  length-put [] i x = refl
  length-put (y ∷ ys) zero x = refl
  length-put (y ∷ ys) (suc i) x = ap suc (length-put ys i x)

  pub get_elem?-put_same :
      (xs : List A) (i : ℕ) (x : A) → i < length xs → get_elem? (put xs i x) i ≡ some x
  get_elem?-put_same [] i x h = absurd (omega arith)
  get_elem?-put_same (y ∷ ys) zero x h = refl
  get_elem?-put_same (y ∷ ys) (suc i) x h = get_elem?-put_same ys i x (omega arith)

  pub get_elem?-put_other :
      (xs : List A) (i j : ℕ) (x : A) → j ≢ i → get_elem? (put xs i x) j ≡ get_elem? xs j
  get_elem?-put_other [] i j x h = refl
  get_elem?-put_other (y ∷ ys) zero zero x h = absurd (h refl)
  get_elem?-put_other (y ∷ ys) zero (suc j) x h = refl
  get_elem?-put_other (y ∷ ys) (suc i) zero x h = refl
  get_elem?-put_other (y ∷ ys) (suc i) (suc j) x h =
      get_elem?-put_other ys i j x (λ e. h (ap suc e))

  pub get_elem?-append_left :
      (xs ys : List A) (i : ℕ) → i < length xs → get_elem? (xs ++ ys) i ≡ get_elem? xs i
  get_elem?-append_left [] ys i h = absurd (omega arith)
  get_elem?-append_left (x ∷ xs) ys zero h = refl
  get_elem?-append_left (x ∷ xs) ys (suc i) h = get_elem?-append_left xs ys i (omega arith)

  pub get_elem?-append_end : (xs : List A) (x : A) → get_elem? (xs ++ x ∷ []) (length xs) ≡ some x
  get_elem?-append_end [] x = refl
  get_elem?-append_end (y ∷ ys) x = get_elem?-append_end ys x

  pub All-get_or {κ} :
      (P : A → Type κ) (xs : List A) (i : ℕ) (d : A) → All P xs → i < length xs → P (get_or xs i d)
  All-get_or P [] i d h p = absurd (omega arith)
  All-get_or P (x ∷ xs) zero d h p = h.0
  All-get_or P (x ∷ xs) (suc i) d h p = All-get_or P xs i d h.1 (omega arith)

module _ {ℓ κ} {A : Type ℓ} {B : Type κ} (f : A → B) where
  pub length-map : (xs : List A) → length (map f xs) ≡ length xs
  length-map [] = refl
  length-map (x ∷ xs) = ap suc (length-map xs)

  pub get_or-map :
      (xs : List A) (i : ℕ) (d : A) (e : B)
      → i < length xs
      → get_or (map f xs) i e ≡ f (get_or xs i d)
  get_or-map [] i d e h = absurd (omega arith)
  get_or-map (x ∷ xs) zero d e h = refl
  get_or-map (x ∷ xs) (suc i) d e h = get_or-map xs i d e (omega arith)

-- The read of an array that statements use, where the index is known to be in range.
infixl 90 ◌!◌
abbrev pub ◌!◌ : List ℕ → ℕ → ℕ
a ! i = get_or a i 0

-- Arrays of one length with the same entries are equal.
pub list_ext :
    (xs ys : List ℕ) → length xs ≡ length ys → ((i : ℕ) → i < length xs → xs ! i ≡ ys ! i) → xs ≡ ys
list_ext [] [] e h = refl
list_ext [] (y ∷ ys) e h = absurd (omega (arith, e))
list_ext (x ∷ xs) [] e h = absurd (omega (arith, e))
list_ext (x ∷ xs) (y ∷ ys) e h =
    let rest = list_ext xs ys (omega (arith, e)) (λ i l. h (suc i) (omega arith)) in
    rw (h 0 (omega arith), rest) refl
