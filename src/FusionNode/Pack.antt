-- ===== src/FusionNode/Pack.antt =====
-- The packed words of a node are its sketches, ones and sentinels side by side.
use Prim.Native.Nat.{bit_or}
use native.Mathlib.Nat.{pow-suc}
use fusion_tree_benchmark.Prelude.{
  ℕ, suc, ◌+◌, ◌*◌, ◌%◌, ◌^◌, ◌≤◌, ◌<◌, ◌≡◌, refl, ap, ◌∙◌, List, [], ◌∷◌, length, replicate,
  length-replicate, arith,
}
use fusion_tree_benchmark.Word.{word, shl64, pow_pos, pow_add, pow_mono}
use fusion_tree_benchmark.Word.Digits.{bit_or_join}
use fusion_tree_benchmark.Word.Fields.{fields, IsBelow, field_bound}
use fusion_tree_benchmark.Word.Compare.{IsBelow-replicate, IsBelow-mono}
use fusion_tree_benchmark.FusionNode.{pack}

-- `acc |= x << k` for a number of `f` bits above the bits of `acc`.
pub join_field :
    (f k acc x : ℕ)
    → acc < 2 ^ k
    → x < 2 ^ f
    → k + f ≤ 64
    → (bit_or acc (shl64 x k) ≡ acc + x * 2 ^ k) × (acc + x * 2 ^ k < 2 ^ (k + f))
unfolding shl64
join_field f k acc x low small room =
    let bound : acc + x * 2 ^ k < 2 ^ f * 2 ^ k = field_bound k acc x (2 ^ f) low small in
    let e : f + k ≡ k + f = omega arith in
    let total : 2 ^ f * 2 ^ k ≡ 2 ^ (k + f) = pow_add f k ∙ ap (λ (t : ℕ). 2 ^ t) e in
    let wrap : x * 2 ^ k % word ≡ x * 2 ^ k = omega (arith, total, pow_mono (k + f) 64 room) in
    (rw wrap (bit_or_join k acc x low), omega (arith, total))

-- One of the three words that the packing loop fills.
pack_one : ℕ → List ℕ → ℕ → ℕ → ℕ
pack_one f [] i acc = acc
pack_one f (x ∷ xs) i acc = pack_one f xs (i + 1) (bit_or acc (shl64 x (i * f)))

shl64-sentinel : (r k : ℕ) → shl64 1 (k + r) ≡ shl64 (2 ^ r) k
unfolding shl64
shl64-sentinel r k =
    let e : r + k ≡ k + r = omega arith in
    ap (λ (t : ℕ). t % word) (omega (arith, pow_add r k, ap (λ (t : ℕ). 2 ^ t) e))

pack-pack_one :
    (r : ℕ) (sketches : List ℕ) (i p b s : ℕ)
    → pack r sketches i (p, b, s) ≡ (
      pack_one (r + 1) sketches i p,
      pack_one (r + 1) (replicate (length sketches) 1) i b,
      pack_one (r + 1) (replicate (length sketches) (2 ^ r)) i s,
    )
unfolding pack pack_one
pack-pack_one r [] i p b s = refl
pack-pack_one r (x ∷ xs) i p b s =
    rw (shl64-sentinel r (i * (r + 1))) (pack-pack_one r xs (i + 1) _ _ _)

pack_one-fields :
    (f : ℕ) (xs : List ℕ) (i acc : ℕ)
    → IsBelow (2 ^ f) xs
    → acc < 2 ^ (i * f)
    → (i + length xs) * f ≤ 64
    → pack_one f xs i acc ≡ acc + fields f xs * 2 ^ (i * f)
unfolding pack_one fields
pack_one-fields f [] i acc b low room = omega arith
pack_one-fields f (x ∷ xs) i acc b low room =
    let e : i * f + f ≡ (i + 1) * f = omega arith in
    let z : i + 1 + length xs ≡ i + suc (length xs) = omega arith in
    let power : 2 ^ (i * f) * 2 ^ f ≡ 2 ^ ((i + 1) * f) =
      pow_add (i * f) f ∙ ap (λ (t : ℕ). 2 ^ t) e in
    let (joined, bound) = join_field f (i * f) acc x low b.0 (omega arith) in
    rw joined (
      pack_one-fields f xs (i + 1) (acc + x * 2 ^ (i * f)) b.1 (rw e at bound) (rw z room)
      ∙ omega (arith, ap (λ (t : ℕ). fields f xs * t) power))

pack_one-whole :
    (f : ℕ) (xs : List ℕ)
    → IsBelow (2 ^ f) xs
    → length xs * f ≤ 64
    → pack_one f xs 0 0 ≡ fields f xs
pack_one-whole f xs b room =
    let z : 0 * f ≡ 0 = omega arith in
    let fit : (0 + length xs) * f ≤ 64 = omega arith in
    pack_one-fields f xs 0 0 b (pow_pos (0 * f)) fit ∙ rw z (omega arith)

-- The packing loop leaves the sketches, a 1 in every field and every sentinel.
pub pack-fields :
    (r : ℕ) (sketches : List ℕ)
    → IsBelow (2 ^ r) sketches
    → length sketches * suc r ≤ 64
    → pack r sketches 0 (0, 0, 0) ≡ (
      fields (suc r) sketches,
      fields (suc r) (replicate (length sketches) 1),
      fields (suc r) (replicate (length sketches) (2 ^ r)),
    )
pack-fields r sketches b room =
    let n = length sketches in
    let e : r + 1 ≡ suc r = omega arith in
    let up : 2 ^ r < 2 ^ suc r = omega (arith, pow-suc 2 r, pow_pos r) in
    pack-pack_one r sketches 0 0 0 0
    ∙ rw (
      e,
      pack_one-whole (suc r) sketches (IsBelow-mono (2 ^ r) (2 ^ suc r) sketches (omega arith) b)
          room,
      pack_one-whole (suc r) (replicate n 1)
          (IsBelow-replicate (2 ^ suc r) n 1 (omega (arith, pow-suc 2 r, pow_pos r)))
          (rw (length-replicate {A = ℕ} n 1) room),
      pack_one-whole (suc r) (replicate n (2 ^ r)) (IsBelow-replicate (2 ^ suc r) n (2 ^ r) up)
          (rw (length-replicate {A = ℕ} n (2 ^ r)) room),
    )
