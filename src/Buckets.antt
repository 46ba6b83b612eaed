-- ===== src/Buckets.antt =====
-- Buckets of equal width, which the jump indexes share: `shift_for` and the bucket of a key in
-- include/cluster_jump.hpp, include/cluster_jump2.hpp, include/cluster_jump_dynamic.hpp and (inline)
-- include/radix_jump.hpp.
pub mod Cuts
pub mod Slots
pub mod Table
pub mod Widths
use fusion_tree_benchmark.Prelude.{
  ℕ, zero, suc, ◌-◌, ◌%◌, ◌^◌, List, [], ◌∷◌, ◌!◌, ltb, ◌==◌, if◌then◌else◌, advance,
}
use fusion_tree_benchmark.Word.{sub64, shr}
use fusion_tree_benchmark.Bits.{clz64}

-- `(std::uint32_t)j`.
unfoldable pub to_u32 : ℕ → ℕ
to_u32 j = j % 2 ^ 32

-- `span ? 64 - clz(span) : 0`.
unfoldable pub width_of : ℕ → ℕ
width_of span = if span == 0 then 0 else 64 - clz64 span

-- The bucket of a key: the top bits of its distance from the smallest key.
unfoldable pub bucket : ℕ → ℕ → ℕ → ℕ
bucket base shift k = shr (sub64 k base) shift

-- The shift that cuts a spread of `span` into about `2 ^ bits` pieces.
unfoldable pub shift_for : ℕ → ℕ → ℕ
unfolding width_of
shift_for span bits = let width = width_of span in if ltb bits width then width - bits else 0

-- The slot that a search reads: 0 below the base, the one past the end above the others.
-- `j = (q - base) >> shift; j = q < base ? 0 : j; j = j < slots ? j : slots;`
unfoldable pub pick : ℕ → ℕ → ℕ → ℕ → ℕ
unfolding bucket
pick base shift slots q =
    let b = bucket base shift q in
    let b' = if ltb q base then 0 else b in if ltb b' slots then b' else slots

-- The table of first positions among the keys before `hi`, for the slots from `b` on: one entry for
-- each of the `left` slots that remain, then two entries `hi`.
-- `for (...) { while (j < hi && ((a[j] - base) >> shift) < b) ++j; table.push_back(j); }`
unfoldable pub fill : List ℕ → ℕ → ℕ → ℕ → ℕ → ℕ → ℕ → List ℕ
unfolding to_u32 bucket
fill a base shift hi zero b j = to_u32 hi ∷ to_u32 hi ∷ []
fill a base shift hi (suc left) b j =
    let j' = advance (λ i. ltb (bucket base shift (a ! i)) b) (hi - j) j in
    to_u32 j' ∷ fill a base shift hi left (suc b) j'
