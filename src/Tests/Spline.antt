-- ===== src/Tests/Spline.antt =====
-- An arithmetic in place of `double`, and the theorems on the spline index at inputs.
use fusion_tree_benchmark.Prelude.{
  ℕ, ◌+◌, ◌-◌, ◌*◌, ◌/◌, ◌≡◌, refl, some, none, ok, ◌>>=◌, ltb, Returns, arith,
}
use fusion_tree_benchmark.Word.Signed.{pos, negsuc}
use fusion_tree_benchmark.Search.Count.{count_less}
use fusion_tree_benchmark.SPlusTree
use fusion_tree_benchmark.SPlusTree.{key_at}
use fusion_tree_benchmark.SplineIndex.{
  DoubleOps, build, predecessor, window, fit, pieces, slope, neg, corridor, window_start,
  scan_window,
}
use fusion_tree_benchmark.SplineIndex.Correct.{spline_index-Returns}
use fusion_tree_benchmark.Tests.{program, twelve, twelve-IsKeys}

-- Whole numbers, with 0 below them, as the values of `double`.
abbrev whole : DoubleOps ℕ
whole = record {
  of_int = elim [ pos n ↦ n | negsuc n ↦ 0 ];
  plus = λ x y. x + y;
  minus = λ x y. x - y;
  times = λ x y. x * y;
  over = λ x y. x / y;
  less = ltb;
  to_int = pos;
}

spline_index_runs :
    ((build whole 4 twelve >>= λ t. predecessor whole 4 t 60) ≡ ok (some 55))
    × ((build whole 4 twelve >>= λ t. window whole 4 t 60) ≡ ok 0)
    × ((build whole 4 twelve >>= λ t. predecessor whole 4 t 3) ≡ ok none)
unfolding program count_less SPlusTree.build SPlusTree.lower_bound_index build predecessor window
    fit pieces slope neg corridor window_start scan_window key_at
spline_index_runs = (refl, refl, refl)

spline_index-Returns_example :
    Returns {0, 0} (λ r. Unit) (build whole 4 twelve >>= λ t. predecessor whole 4 t 60)
spline_index-Returns_example =
    spline_index-Returns whole 4 twelve 60 twelve-IsKeys (omega arith) (omega arith)
