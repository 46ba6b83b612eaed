-- ===== src/ClusterJumpD/Rows.antt =====
-- The boxes that rebuild (include/cluster_jump_dynamic.hpp) writes, as rows: a fresh box, a box behind
-- another one, and where the keys of a slot stand.
use fusion_tree_benchmark.Prelude.{
  ℕ, suc, ◌+◌, ◌-◌, ◌*◌, ◌≤◌, ◌<◌, ◌≡◌, ◌⊎◌, ap, ◌∙◌, Bool, List, ◌++◌, map, length, slice,
  replicate, ◌!◌, ok, load, arith, length-append, length-map, length-replicate, get_or-append_left,
  get_or-append_right, get_or-map, get_or-replicate,
}
use fusion_tree_benchmark.Word.Signed.{flip}
use fusion_tree_benchmark.Search.{pad, flipped_copy}
use fusion_tree_benchmark.ClusterJumpD.{cap, given}
use fusion_tree_benchmark.ClusterJumpD.Build.{Boxes}
use fusion_tree_benchmark.ClusterJumpD.Box.{Holds}
use fusion_tree_benchmark.ClusterJumpD.Stored.{floor_at}

-- The places `[lo, hi)` are those of the keys with slot `j`.
pub record Stretch (slot : ℕ → ℕ) (keys : List ℕ) (j lo hi : ℕ) : Type 0 where
  pub ordered : lo ≤ hi
  pub upto : hi ≤ length keys
  pub before : (t : ℕ) → t < lo → slot (keys ! t) < j
  pub reach : (t : ℕ) → lo ≤ t → t < length keys → j ≤ slot (keys ! t)
  pub within : (t : ℕ) → t < hi → slot (keys ! t) ≤ j
  pub behind : (t : ℕ) → hi ≤ t → t < length keys → j < slot (keys ! t)

-- Box `m` of `out` stores `ks`, with the floor `f` and `h`; `size` lists stand in front.
pub record Row (out : Boxes) (size m : ℕ) (ks : List ℕ) (f : ℕ) (h : Bool) : Type 0 where
  pub counted : load out.count m ≡ ok (length ks)
  pub floor_ok : load out.floor m ≡ ok f
  pub has_ok : load out.has m ≡ ok h
  pub place :
      ((load out.over m ≡ ok 0) × Holds out.blocks (m * cap) ks)
      ⊎ ((o : ℕ) × (load out.over m ≡ ok (suc (size + o)))
          × (load out.big o ≡ ok (flipped_copy 8 ks))
          × (0 < out.overflow_keys))

-- A fresh box.
pub fresh-Holds :
    (ks rest : List ℕ) (c : ℕ)
    → length ks ≡ c
    → c ≤ cap
    → Holds ((map flip ks ++ replicate (cap - c) pad) ++ rest) (0 * cap) ks
fresh-Holds ks rest c e fits =
    let mine = map flip ks in
    let free = replicate (cap - c) pad in
    let size = length-map {0, 0} flip ks in
    let spare = length-replicate {0} (cap - c) pad in
    let box = length-append {0} mine free in
    record {
      inside = omega (arith, length-append {0} (mine ++ free) rest);
      few = omega arith;
      key = λ i l.
          get_or-append_left (mine ++ free) rest (0 * cap + i) 0 (omega arith)
          ∙ get_or-append_left mine free (0 * cap + i) 0 (omega arith)
          ∙ ap (λ t. mine ! t) (omega arith)
          ∙ get_or-map flip ks i 0 0 l;
      padding = λ i g l.
          get_or-append_left (mine ++ free) rest (0 * cap + i) 0 (omega arith)
          ∙ get_or-append_right mine free (i - c) (0 * cap + i) 0 (omega arith)
          ∙ get_or-replicate (cap - c) (i - c) pad 0 (omega arith);
    }

-- A box behind another one.
pub next-Holds :
    (box rest : List ℕ) (m : ℕ) (ks : List ℕ)
    → length box ≡ cap
    → Holds rest (m * cap) ks
    → Holds (box ++ rest) (suc m * cap) ks
next-Holds box rest m ks size h = record {
  inside = omega (arith, length-append {0} box rest, h.inside);
  few = h.few;
  key = λ i l.
      get_or-append_right box rest (m * cap + i) (suc m * cap + i) 0 (omega arith) ∙ h.key i l;
  padding = λ i g l.
      get_or-append_right box rest (m * cap + i) (suc m * cap + i) 0 (omega arith)
      ∙ h.padding i g l;
}

-- Box `m` of `out` stores the keys with slot `j`.
pub record Placed (slot : ℕ → ℕ) (keys : List ℕ) (run : ℕ) (rh : Bool) (out : Boxes) (size m j : ℕ)
    : Type 0 where
  pub lo : ℕ
  pub hi : ℕ
  pub f : ℕ
  pub h : Bool
  pub stretch : Stretch slot keys j lo hi
  pub front : given f h ≡ floor_at keys run rh lo
  pub row : Row out size m (slice keys lo hi) f h
