-- ===== src/FusionNode/Pext.antt =====
-- include/sketch_fast.hpp: sketch_pext takes the bits that the loop over the positions takes.
use Prim.Native.Nat.{bit_and, bit_or, max}
use native.Mathlib.Nat.{pow-suc, div-eq_of_lt}
use native.Mathlib.Decide.{dec_lt}
use fusion_tree_benchmark.Prelude.{
  ℕ, zero, suc, ◌+◌, ◌*◌, ◌/◌, ◌%◌, ◌^◌, ◌≤◌, ◌<◌, ◌≡◌, refl, ap, ◌∙◌, Bool, true, false, All, List,
  [], ◌∷◌, ◌==◌, if◌then◌else◌, arith,
}
use fusion_tree_benchmark.Word.{word, shr, shl64, pow_mono, pow_pos}
use fusion_tree_benchmark.Word.Bit.{bit_or-bit, pow-bit}
use fusion_tree_benchmark.Word.Masks.{bit_of}
use fusion_tree_benchmark.Bits.{extract_from, extract_bits_naive, mask_from, mask_from_positions}
use fusion_tree_benchmark.FusionNode.{seen, pext_from, sketch_pext}
use fusion_tree_benchmark.FusionNode.Sketch.{bit_and-one}

-- Positions that rise strictly, from `b` on.
abbrev pub Rising : ℕ → List ℕ → Type 0
Rising b [] = Unit
Rising b (p ∷ ps) = (b ≤ p) × Rising (suc p) ps

seen-before : (b c : ℕ) (ps : List ℕ) → Rising c ps → b < c → seen b ps ≡ false
unfolding seen
seen-before b c [] up h = refl
seen-before b c (p ∷ ps) up h =
    ground (arith, up.0, seen-before b (suc p) ps up.1 (omega (arith, up.0, h)))

max_join :
    (p r : ℕ) (found : Bool) (old : ℕ)
    → old < 2
    → max (max old (if p == r then 1 else 0)) (bit_of found)
      ≡ max old (bit_of (if r == p then true else found))
max_join p r true old h = ground arith
max_join p r false old h = ground arith

max_zero : (p : ℕ) (found : Bool) → max (0 / 2 ^ p % 2) (bit_of found) ≡ bit_of found
max_zero p found = let none : 0 / 2 ^ p ≡ 0 = div-eq_of_lt (pow_pos p) in rw none (ground arith)

seen-later : (p q : ℕ) (ps : List ℕ) → p < q → seen q (p ∷ ps) ≡ seen q ps
unfolding seen
seen-later p q ps h = ground arith

seen-here : (p : ℕ) (ps : List ℕ) → seen p (p ∷ ps) ≡ true
unfolding seen
seen-here p ps = ground arith

mask_from-bit :
    (p : ℕ) (ps : List ℕ) (m : ℕ)
    → All (λ r. r < 64) ps
    → mask_from ps m / 2 ^ p % 2 ≡ max (m / 2 ^ p % 2) (bit_of (seen p ps))
unfolding mask_from seen shl64
mask_from-bit p [] m low = omega arith
mask_from-bit p (r ∷ ps) m low =
    let one : 1 * 2 ^ r % word ≡ 2 ^ r = omega (arith, pow_mono (suc r) 64 low.0, pow-suc 2 r) in
    rw (one, mask_from-bit p ps (bit_or m (2 ^ r)) low.1, bit_or-bit p m (2 ^ r), pow-bit r p)
      (max_join p r (seen p ps) (m / 2 ^ p % 2) (omega arith))

-- The bits of the mask from `b` on are the positions.
abbrev Selects : ℕ → ℕ → ℕ → List ℕ → Type 0
Selects mask b top ps = (p : ℕ) → b ≤ p → p < top → mask / 2 ^ p % 2 ≡ bit_of (seen p ps)

pext_from-skip :
    (x mask left b i s : ℕ)
    → mask / 2 ^ b % 2 ≡ 0
    → pext_from x mask (suc left) b i s ≡ pext_from x mask left (suc b) i s
unfolding pext_from shr
pext_from-skip x mask left b i s e =
    let next : b + 1 ≡ suc b = omega arith in rw (bit_and-one (mask / 2 ^ b), e, next) refl

pext_from-take :
    (x mask left b i s : ℕ)
    → mask / 2 ^ b % 2 ≡ 1
    → pext_from x mask (suc left) b i s
      ≡ pext_from x mask left (suc b) (i + 1) (bit_or s (shl64 (bit_and (shr x b) 1) i))
unfolding pext_from shr
pext_from-take x mask left b i s e =
    let next : b + 1 ≡ suc b = omega arith in rw (bit_and-one (mask / 2 ^ b), e, next) refl

pext_from-extract_from :
    (x mask top left b i s : ℕ) (ps : List ℕ)
    → b + left ≡ top
    → Rising b ps
    → All (λ p. p < top) ps
    → Selects mask b top ps
    → pext_from x mask left b i s ≡ extract_from x ps i s
unfolding pext_from extract_from seen
pext_from-extract_from x mask top zero b i s [] e up low bits = refl
pext_from-extract_from x mask top zero b i s (p ∷ ps) e up low bits =
    absurd (omega (arith, up.0, low.0))
pext_from-extract_from x mask top (suc left) b i s [] e up low bits =
    pext_from-skip x mask left b i s (bits b (omega arith) (omega arith))
    ∙ pext_from-extract_from x mask top left (suc b) i s [] (omega arith) tt tt
        (λ p h l. bits p (omega arith) l)
pext_from-extract_from x mask top (suc left) b i s (p ∷ ps) e up low bits = elim (dec_lt b p) [
  | yes later ↦
      pext_from-skip x mask left b i s (
        bits b (omega arith) (omega arith)
        ∙ ap bit_of (seen-before b p (p ∷ ps) (omega arith, up.1) later))
      ∙ pext_from-extract_from x mask top left (suc b) i s (p ∷ ps) (omega arith) (later, up.1) low
          (λ q h l. bits q (omega arith) l)
  | no now ↦
      let same : b ≡ p = omega (arith, up.0, now) in
      let rest : Rising (suc b) ps = rw same up.1 in
      pext_from-take x mask left b i s (
        bits b (omega arith) (omega arith)
        ∙ ap (λ c. bit_of (seen c (p ∷ ps))) same
        ∙ ap bit_of (seen-here p ps))
      ∙ pext_from-extract_from x mask top left (suc b) (i + 1)
          (bit_or s (shl64 (bit_and (shr x b) 1) i)) ps (omega arith) rest low.1
          (λ q h l. bits q (omega arith) l ∙ ap bit_of (seen-later p q ps (omega arith)))
      ∙ ap (λ c. extract_from x ps (i + 1) (bit_or s (shl64 (bit_and (shr x c) 1) i))) same
]

-- For strictly rising positions below 64 and every word: the portable loop of sketch_pext, with the mask
-- that mask_from_positions makes of the positions, gives the sketch that extract_bits_naive gives.
pub sketch_pext-extract_bits_naive :
    (x : ℕ) (ps : List ℕ)
    → Rising 0 ps
    → All (λ p. p < 64) ps
    → sketch_pext x (mask_from_positions ps) ≡ extract_bits_naive x ps
unfolding sketch_pext extract_bits_naive mask_from_positions
sketch_pext-extract_bits_naive x ps up low =
    pext_from-extract_from x (mask_from ps 0) 64 64 0 0 0 ps (omega arith) up low
      (λ p h l. mask_from-bit p ps 0 low ∙ max_zero p (seen p ps))
