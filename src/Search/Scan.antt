-- ===== src/Search/Scan.antt =====
-- The comparison of `4 * rounds` keys at once, and the count of its mask.
use native.Mathlib.Numerals.{towards_suc}
use native.Mathlib.Nat.{pow-suc}
use mathlib.Core.List.{append_assoc, append-nil}
use fusion_tree_benchmark.Prelude.{
  ℕ, zero, suc, ◌+◌, ◌*◌, ◌^◌, ◌≤◌, ◌<◌, ◌≡◌, refl, ap, ◌∙◌, Bool, true, false, List, [], ◌∷◌, ◌++◌,
  length, take, get_or, length-append, ◌!◌, ok, load-ok, arith,
}
use fusion_tree_benchmark.Word.{pow_pos, pow_mono}
use fusion_tree_benchmark.Word.Masks.{mask_of, count_true, mask_of-lt, bit_or-mask_of}
use fusion_tree_benchmark.Search.{compare4, shl32, scan}

pub shl32-eq : (x k : ℕ) → x < 2 ^ 4 → k + 4 ≤ 32 → shl32 x k ≡ x * 2 ^ k
unfolding shl32
shl32-eq x k h b =
    let e : 2 ^ (k + 4) ≡ 16 * 2 ^ k = simp towards_suc (
      omega (
        arith,
        pow-suc 2 k,
        pow-suc 2 (suc k),
        pow-suc 2 (suc (suc k)),
        pow-suc 2 (suc (suc (suc k))),
      )) in
    let top : 2 ^ (k + 4) ≤ 2 ^ 32 = pow_mono (k + 4) 32 b in
    let small : x * 2 ^ k < 16 * 2 ^ k = grind (arith, pow_pos k) in omega arith

module _ (less : ℕ → Bool) (arr : List ℕ) where
  abbrev pub lanes4 : ℕ → List Bool
  lanes4 p =
      less (arr ! p) ∷ less (arr ! (p + 1)) ∷ less (arr ! (p + 2)) ∷ less (arr ! (p + 3)) ∷ []

  -- The tests of the lanes, in order.
  abbrev pub lane_tests : ℕ → ℕ → List Bool
  lane_tests zero p = []
  lane_tests (suc rounds) p = lanes4 p ++ lane_tests rounds (p + 4)

  pub compare4-ok : (p : ℕ) → p + 4 ≤ length arr → compare4 less arr p ≡ ok (mask_of (lanes4 p))
  unfolding compare4
  compare4-ok p h = rw (
    load-ok arr p 0 (omega arith),
    load-ok arr (p + 1) 0 (omega arith),
    load-ok arr (p + 2) 0 (omega arith),
    load-ok arr (p + 3) 0 (omega arith),
  )

  scan_from :
      (rounds lo i p : ℕ) (xs : List Bool)
      → length xs ≡ i
      → p ≡ lo + i
      → i + 4 * rounds ≤ 32
      → p + 4 * rounds ≤ length arr
      → scan rounds less arr lo i (mask_of xs) ≡ ok (mask_of (xs ++ lane_tests rounds p))
  unfolding scan
  scan_from zero lo i p xs e at small fits = rw (append-nil xs)
  scan_from (suc rounds) lo i p xs e at small fits =
      let grown : length (xs ++ lanes4 p) ≡ i + 4 =
        omega (arith, length-append {0} xs (lanes4 p)) in
      rw (
        ← at,
        compare4-ok p (omega arith),
        shl32-eq (mask_of (lanes4 p)) i (mask_of-lt (lanes4 p)) (omega arith),
        bit_or-mask_of xs (lanes4 p) i e,
        scan_from rounds lo (i + 4) (p + 4) (xs ++ lanes4 p) grown (omega arith) (omega arith)
            (omega arith),
        append_assoc xs (lanes4 p) (lane_tests rounds (p + 4)),
      )

  -- The loop never reads outside the array, and bit `i` of its mask is the test of key `lo + i`.
  pub scan-ok :
      (rounds lo : ℕ)
      → 4 * rounds ≤ 32
      → lo + 4 * rounds ≤ length arr
      → scan rounds less arr lo 0 0 ≡ ok (mask_of (lane_tests rounds lo))
  unfolding mask_of
  scan-ok rounds lo small fits = scan_from rounds lo 0 lo [] refl (omega arith) (omega arith) fits

  pub length-lane_tests : (rounds p : ℕ) → length (lane_tests rounds p) ≡ 4 * rounds
  length-lane_tests zero p = refl
  length-lane_tests (suc rounds) p = omega (arith, length-lane_tests rounds (p + 4))

  pub get_or-lane_tests :
      (rounds p i : ℕ)
      → i < 4 * rounds
      → get_or (lane_tests rounds p) i false ≡ less (arr ! (p + i))
  get_or-lane_tests zero p i h = absurd (omega arith)
  get_or-lane_tests (suc rounds) p zero h = ap (λ k. less (arr ! k)) (omega arith)
  get_or-lane_tests (suc rounds) p (suc zero) h = refl
  get_or-lane_tests (suc rounds) p (suc (suc zero)) h = refl
  get_or-lane_tests (suc rounds) p (suc (suc (suc zero))) h = refl
  get_or-lane_tests (suc rounds) p (suc (suc (suc (suc i)))) h =
      get_or-lane_tests rounds (p + 4) i (omega arith) ∙ ap (λ k. less (arr ! k)) (omega arith)

pub length-take_le {ℓ} : {A : Type ℓ} (k : ℕ) (xs : List A) → length (take k xs) ≤ length xs
length-take_le zero xs = omega arith
length-take_le (suc k) [] = omega arith
length-take_le (suc k) (x ∷ xs) = omega (arith, length-take_le k xs)

-- Tests that pass for the first `k` and fail after count to `k`.
pub count_true-take :
    (bs : List Bool) (len k : ℕ)
    → k ≤ len
    → len ≤ length bs
    → ((i : ℕ) → i < k → get_or bs i false ≡ true)
    → ((i : ℕ) → k ≤ i → i < len → get_or bs i false ≡ false)
    → count_true (take len bs) ≡ k
unfolding count_true
count_true-take bs zero k h l f g = omega arith
count_true-take [] (suc len) k h l f g = absurd (omega arith)
count_true-take (b ∷ bs) (suc len) zero h l f g = rw (g 0 (omega arith) (omega arith)) (
    omega (
      arith,
      count_true-take bs len 0 (omega arith) (omega arith) (λ i p. absurd (omega arith))
          (λ i p r. g (suc i) (omega arith) (omega arith)),
    ))
count_true-take (b ∷ bs) (suc len) (suc k) h l f g = rw (f 0 (omega arith)) (
    omega (
      arith,
      count_true-take bs len k (omega arith) (omega arith) (λ i p. f (suc i) (omega arith))
          (λ i p r. g (suc i) (omega arith) (omega arith)),
    ))
