-- ===== src/Pgm.antt =====
-- include/learned_indexes.hpp, class PGMWrap: the PGM-index refuses the largest word as a key and as a
-- query, so the wrapper leaves such a last key out and looks the word below it up instead. The
-- third-party index and its search are the argument `finalize`: the keys, then the query, to a
-- range [lo, hi).
pub mod Correct
use fusion_tree_benchmark.Prelude.{
  ℕ, ◌-◌, Bool, ◌&&◌, ◌==◌, List, Option, length, take, ◌!◌, ltb, if◌then◌else◌, Run, ◌>>=◌,
}
use fusion_tree_benchmark.Word.{add64, sub64}
use fusion_tree_benchmark.Search.{flipped_copy, last_mile, answer}

-- `~0ull`.
abbrev pub max_word : ℕ
max_word = 0xffffffffffffffff

pub record PgmWrap : Type 0 where
  pub keys : List ℕ
  pub n : ℕ
  pub m : ℕ
  pub search : ℕ → ℕ × ℕ

-- `(n_ && a.back() == ~0ull) ? n_ - 1 : n_`
unfoldable pub indexed : List ℕ → ℕ
indexed a = let n = length a in if ltb 0 n && a ! (n - 1) == max_word then n - 1 else n

unfoldable pub build : (List ℕ → ℕ → ℕ × ℕ) → List ℕ → PgmWrap
build finalize a = record {
  keys = flipped_copy 8 a;
  n = length a;
  m = indexed a;
  search = finalize (take (indexed a) a);
}

-- The range `(lo, len)` that the last step is given.
unfoldable pub range : PgmWrap → ℕ → ℕ × ℕ
range p q =
    let (begin, end) = p.search (if q == max_word then sub64 q 1 else q) in
    let hi = if ltb (add64 end 1) p.m then add64 end 1 else p.m in
    if ltb 0 p.m then (begin, sub64 hi begin) else (0, p.m)

unfoldable pub predecessor : PgmWrap → ℕ → Run (Option ℕ)
unfolding range
predecessor p q = do let (lo, len) = range p q; lb ← last_mile 2 p.keys lo len q; answer p.keys lb
