-- ===== src/Learned.antt =====
-- include/learned_indexes.hpp, class RSIndex, and include/sosd_rivals.hpp, class CHTIndex: a
-- third-party index that bounds the position of the answer, then the shared last step. The
-- third-party builder and its search are the argument `finalize`: the keys, then the query, to a
-- search bound [begin, end).
pub mod Correct
use fusion_tree_benchmark.Prelude.{
  ℕ, ◌-◌, Bool, ◌||◌, List, Option, length, ◌!◌, ltb, if◌then◌else◌, Run, ◌>>=◌,
}
use fusion_tree_benchmark.Word.{sub64}
use fusion_tree_benchmark.Search.{flipped_copy, last_mile, answer}

-- The fields of both classes; `bound` is `GetSearchBound` of the finished index.
pub record LearnedIndex : Type 0 where
  pub keys : List ℕ
  pub n : ℕ
  pub small : Bool
  pub bound : ℕ → ℕ × ℕ

-- `RSIndex::build`.
unfoldable pub rs_build : (List ℕ → ℕ → ℕ × ℕ) → List ℕ → LearnedIndex
rs_build finalize a = record {
  keys = flipped_copy 8 a;
  n = length a;
  small = ltb (length a) 2;
  bound = finalize a;
}

-- `CHTIndex::build` with `bins` bins. The second test is about the first and last key, and matters
-- only where the first is false.
unfoldable pub cht_build : ℕ → (List ℕ → ℕ → ℕ × ℕ) → List ℕ → LearnedIndex
cht_build bins finalize a = record {
  keys = flipped_copy 8 a;
  n = length a;
  small = ltb (length a) 2 || ltb (sub64 (a ! (length a - 1)) (a ! 0)) bins;
  bound = finalize a;
}

-- `predecessor` of both classes.
unfoldable pub predecessor : LearnedIndex → ℕ → Run (Option ℕ)
predecessor index q =
    let (begin, end) = index.bound q in
    let lo = if index.small then 0 else begin in
    let len = if index.small then index.n else sub64 end begin in
    do lb ← last_mile 2 index.keys lo len q; answer index.keys lb
