-- ===== src/Spec.antt =====
-- What every index of the study promises (include/structures.hpp, header comment): predecessor(q) is
-- the largest stored key strictly less than q. `rank` counts the keys below q, and `Splits` says that
-- a position divides a sorted array at q.
use Prim.Native.Nat.{zero, suc}
use fusion_tree_benchmark.Prelude.{
  ℕ, ◌+◌, ◌≤◌, ◌<◌, ◌≡◌, refl, List, [], ◌∷◌, Option, none, some, length, ◌!◌, ltb, if◌then◌else◌,
  tests, arith, Bool-cases, inl, inr, All, All-get_or,
}
use native.Mathlib.Nat.{le_refl}
use native.Mathlib.Decide.{dec_lt}
use fusion_tree_benchmark.Word.{word}

-- The keys that a structure is built from: sorted 64-bit words.
pub record IsKeys (a : List ℕ) : Type 0 where
  pub sorted : (i j : ℕ) → i ≤ j → j < length a → a ! i ≤ a ! j
  pub words : (i : ℕ) → i < length a → a ! i < word

-- No key stands twice.
abbrev pub IsDistinct : List ℕ → Type 0
IsDistinct a = (i j : ℕ) → i < j → j < length a → a ! i < a ! j

-- The answer of predecessor(q), `none` for "there is no smaller key".
abbrev pub IsPredecessor : List ℕ → ℕ → Option ℕ → Type 0
IsPredecessor a q none = (j : ℕ) → j < length a → q ≤ a ! j
IsPredecessor a q (some k) =
    ((i : ℕ) × (i < length a) × (a ! i ≡ k))
    × (k < q)
    × ((j : ℕ) → j < length a → a ! j < q → a ! j ≤ k)

-- The first `lb` keys are below `q`, and the others are not.
pub record Splits (a : List ℕ) (q lb : ℕ) : Type 0 where
  pub inside : lb ≤ length a
  pub below : (i : ℕ) → i < lb → a ! i < q
  pub above : (i : ℕ) → lb ≤ i → i < length a → q ≤ a ! i

-- The number of keys below `q`.
unfoldable pub rank : List ℕ → ℕ → ℕ
rank [] q = 0
rank (x ∷ xs) q = (if ltb x q then 1 else 0) + rank xs q

-- The answer that a position gives: the key in front of it.
abbrev pub before : List ℕ → ℕ → Option ℕ
before a zero = none
before a (suc i) = some (a ! i)

rank_none : (a : List ℕ) (q : ℕ) → ((i : ℕ) → i < length a → q ≤ a ! i) → rank a q ≡ 0
unfolding rank
rank_none [] q h = omega arith
rank_none (x ∷ xs) q h = ground (arith, h 0, rank_none xs q (λ i p. h (suc i) (omega arith)))

pub IsKeys-tail : (x : ℕ) (xs : List ℕ) → IsKeys (x ∷ xs) → IsKeys xs
IsKeys-tail x xs h = record {
  sorted = λ i j p r. h.sorted (suc i) (suc j) (omega arith) (omega arith);
  words = λ i p. h.words (suc i) (omega arith);
}

module _ (x : ℕ) (xs : List ℕ) (q lb : ℕ) where
  cons_below : x < q → ((i : ℕ) → i < lb → xs ! i < q) → (i : ℕ) → i < suc lb → (x ∷ xs) ! i < q
  cons_below h f zero p = h
  cons_below h f (suc i) p = f i (omega arith)

  cons_above :
      ((i : ℕ) → lb ≤ i → i < length xs → q ≤ xs ! i)
      → (i : ℕ) → suc lb ≤ i
      → i < suc (length xs)
      → q ≤ (x ∷ xs) ! i
  cons_above f zero p r = absurd (omega arith)
  cons_above f (suc i) p r = f i (omega arith) (omega arith)

  Splits-cons : x < q → Splits xs q lb → Splits (x ∷ xs) q (suc lb)
  Splits-cons h s = record {
    inside = omega (arith, s.inside);
    below = cons_below h s.below;
    above = cons_above s.above;
  }

-- In a sorted array the number of keys below `q` is the position that divides it.
pub rank-Splits : (a : List ℕ) (q : ℕ) → IsKeys a → Splits a q (rank a q)
unfolding rank
rank-Splits [] q h = record {
  inside = omega arith;
  below = λ i p. absurd (omega arith);
  above = λ i p r. absurd (omega arith);
}
rank-Splits (x ∷ xs) q h = elim (Bool-cases (ltb x q)) [
  | inl lt ↦
      let e : 1 + rank xs q ≡ suc (rank xs q) = omega arith in
      rw (lt, e)
        (Splits-cons x xs q (rank xs q) (omega tests) (rank-Splits xs q (IsKeys-tail x xs h)))
  | inr ge ↦
      let all : (i : ℕ) → i < suc (length xs) → q ≤ (x ∷ xs) ! i =
        λ i p. omega (tests, h.sorted 0 i (omega arith) p) in
      let e : rank xs q ≡ 0 = rank_none xs q (λ i p. all (suc i) (omega arith)) in
      rw (ge, e)
        (record {
          inside = omega arith;
          below = λ i p. absurd (omega arith);
          above = λ i p r. all i r;
        })
]

-- Bounds on the count, also in an array that is not sorted.
pub le-rank : (a : List ℕ) (q l : ℕ) → l ≤ length a → ((i : ℕ) → i < l → a ! i < q) → l ≤ rank a q
unfolding rank
le-rank a q zero h f = omega arith
le-rank [] q (suc l) h f = absurd (omega arith)
le-rank (x ∷ xs) q (suc l) h f =
    ground (arith, f 0, le-rank xs q l (omega arith) (λ i p. f (suc i) (omega arith)))

pub rank-le : (a : List ℕ) (q l : ℕ) → ((i : ℕ) → l ≤ i → i < length a → q ≤ a ! i) → rank a q ≤ l
unfolding rank
rank-le [] q l f = omega arith
rank-le (x ∷ xs) q zero f = omega (arith, rank_none (x ∷ xs) q (λ i p. f i (omega arith) p))
rank-le (x ∷ xs) q (suc l) f =
    ground (arith, rank-le xs q l (λ i g p. f (suc i) (omega arith) (omega arith)))

Splits-le : (a : List ℕ) (q r s : ℕ) → Splits a q r → Splits a q s → r ≤ s
Splits-le a q r s u v = elim (dec_lt s r) [
  | yes h ↦ absurd (omega (arith, u.below s h, v.above s (le_refl s) (omega (arith, u.inside))))
  | no h ↦ omega arith
]

-- Only one position divides the array at `q`.
pub Splits-unique : (a : List ℕ) (q r s : ℕ) → Splits a q r → Splits a q s → r ≡ s
Splits-unique a q r s u v = omega (arith, Splits-le a q r s u v, Splits-le a q s r v u)

-- The key in front of the dividing position is the predecessor.
pub before-IsPredecessor :
    (a : List ℕ) (q lb : ℕ) → IsKeys a → Splits a q lb → IsPredecessor a q (before a lb)
before-IsPredecessor a q zero h s = λ j p. s.above j (omega arith) p
before-IsPredecessor a q (suc lb) h s = (
  (lb, omega (arith, s.inside), refl),
  s.below lb (omega arith),
  λ j p r. elim (dec_lt lb j) [
    | yes past ↦ absurd (omega (arith, s.above j past p))
    | no upto ↦ h.sorted j lb (omega arith) (omega (arith, s.inside))
  ],
)

module _ (a : List ℕ) (q lb : ℕ) (s : Splits a q lb) where
  -- Bounds on the dividing position, from keys known to lie on one side.
  pub le-Splits : (e : ℕ) → e ≤ length a → ((i : ℕ) → i < e → a ! i < q) → e ≤ lb
  le-Splits e h f = elim (dec_lt lb e) [
    | yes past ↦ absurd (omega (arith, s.above lb (le_refl lb) (omega arith), f lb past))
    | no upto ↦ omega arith
  ]

  pub Splits-upto : (e : ℕ) → ((i : ℕ) → e ≤ i → i < length a → q ≤ a ! i) → lb ≤ e
  Splits-upto e f = elim (dec_lt e lb) [
    | yes past ↦ absurd (omega (arith, s.below e past, f e (le_refl e) (omega (arith, s.inside))))
    | no upto ↦ omega arith
  ]

pub nil-IsKeys : IsKeys []
nil-IsKeys = record {
  sorted = λ i j p r. absurd (omega arith);
  words = λ i r. absurd (omega arith);
}

-- Keys given one by one: each at least the one before and below 2 ^ 64.
abbrev pub Chain : ℕ → List ℕ → Type 0
Chain lo [] = Unit
Chain lo (x ∷ xs) = (lo ≤ x) × (x < word) × Chain x xs

Chain-low : (lo : ℕ) (xs : List ℕ) (i : ℕ) → Chain lo xs → i < length xs → lo ≤ xs ! i
Chain-low lo [] i c h = absurd (omega arith)
Chain-low lo (x ∷ xs) zero c h = c.0
Chain-low lo (x ∷ xs) (suc i) c h = omega (arith, c.0, Chain-low x xs i c.2 (omega arith))

Chain-sorted :
    (lo : ℕ) (xs : List ℕ) (i j : ℕ) → Chain lo xs → i ≤ j → j < length xs → xs ! i ≤ xs ! j
Chain-sorted lo [] i j c p h = absurd (omega arith)
Chain-sorted lo (x ∷ xs) zero zero c p h = le_refl x
Chain-sorted lo (x ∷ xs) zero (suc j) c p h = Chain-low x xs j c.2 (omega arith)
Chain-sorted lo (x ∷ xs) (suc i) zero c p h = absurd (omega arith)
Chain-sorted lo (x ∷ xs) (suc i) (suc j) c p h =
    Chain-sorted x xs i j c.2 (omega arith) (omega arith)

Chain-words : (lo : ℕ) (xs : List ℕ) (i : ℕ) → Chain lo xs → i < length xs → xs ! i < word
Chain-words lo [] i c h = absurd (omega arith)
Chain-words lo (x ∷ xs) zero c h = c.1
Chain-words lo (x ∷ xs) (suc i) c h = Chain-words x xs i c.2 (omega arith)

pub Chain-IsKeys : (xs : List ℕ) → Chain 0 xs → IsKeys xs
Chain-IsKeys xs c = record {
  sorted = λ i j. Chain-sorted 0 xs i j c;
  words = λ i. Chain-words 0 xs i c;
}

-- Keys given one by one: each below all later ones.
abbrev pub Rising : List ℕ → Type 0
Rising [] = Unit
Rising (x ∷ xs) = All (λ y. x < y) xs × Rising xs

pub Rising-IsDistinct : (xs : List ℕ) → Rising xs → IsDistinct xs
Rising-IsDistinct [] h i j p r = absurd (omega arith)
Rising-IsDistinct (x ∷ xs) h zero zero p r = absurd (omega arith)
Rising-IsDistinct (x ∷ xs) h zero (suc j) p r = All-get_or (λ y. x < y) xs j 0 h.0 (omega arith)
Rising-IsDistinct (x ∷ xs) h (suc i) zero p r = absurd (omega arith)
Rising-IsDistinct (x ∷ xs) h (suc i) (suc j) p r =
    Rising-IsDistinct xs h.1 i j (omega arith) (omega arith)
