-- ===== src/Tests/Dynamic.antt =====
-- Runs of the index that takes insertions, and its theorems at inputs.
use fusion_tree_benchmark.Prelude.{
  ℕ, ◌*◌, ◌≡◌, refl, false, List, [], ◌∷◌, ◌++◌, map, replicate, none, some, Run, ok, ◌>>=◌,
  Returns, load, arith, inl,
}
use fusion_tree_benchmark.Word.Signed.{flip}
use fusion_tree_benchmark.Spec.{rank}
use fusion_tree_benchmark.Search.{pad}
use fusion_tree_benchmark.ClusterJumpD
use fusion_tree_benchmark.ClusterJumpD.{
  Bucket, ClusterJumpD, new_bucket, clamp, bucket_of, slot_of, rank16, search_box,
}
use fusion_tree_benchmark.ClusterJumpD.Build.{bulk_load, rebuild_keys}
use fusion_tree_benchmark.ClusterJumpD.Box.{rank16-rank}
use fusion_tree_benchmark.ClusterJumpD.Insert.{insert, insert_slot, collect}
use fusion_tree_benchmark.ClusterJumpD.Stored.{Stored, floor_at}
use fusion_tree_benchmark.ClusterJumpD.Adding.{Inserted, insert_slot-Inserted}
use fusion_tree_benchmark.ClusterJumpD.Rows.{fresh-Holds}
use fusion_tree_benchmark.ClusterJumpD.Search.{collect-rebuild_keys, search-rebuild_keys}
use fusion_tree_benchmark.Tests.{twelve, twelve-IsKeys, program, five}
use fusion_tree_benchmark.Tests.Trees.{five-IsKeys}

abbrev unloaded : ClusterJumpD
unloaded = record { buckets = []; n = 0; nb = 0; gbase = 0; gshift = 0 }

-- All keys of `ks`, one by one.
abbrev insert_all : ClusterJumpD → List ℕ → Run ClusterJumpD
insert_all t [] = ok t
insert_all t (k ∷ ks) = insert t k >>= λ t'. insert_all t' ks

dynamic : Unit {0}
unfolding program clamp bucket_of slot_of rank16 bulk_load ClusterJumpD.predecessor insert
dynamic = tt

loaded_run :
    ((do t ← bulk_load unloaded twelve; ClusterJumpD.predecessor t 60) ≡ ok (some 55))
    × ((do t ← bulk_load unloaded twelve; ClusterJumpD.predecessor t 0) ≡ ok none)
unfolding dynamic
loaded_run = (refl, refl)

inserted_run :
    (do
      t ← bulk_load unloaded five
      t' ← insert_all t (7 ∷ 40 ∷ 7 ∷ [])
      ClusterJumpD.predecessor t' 41)
    ≡ ok (some 40)
unfolding dynamic
inserted_run = refl

-- A box that spills, and a key that is there already.
abbrev many : List ℕ
many = 13 ∷ 14 ∷ 15 ∷ 16 ∷ 17 ∷ 18 ∷ 19 ∷ 20 ∷ 21 ∷ 22 ∷ 23 ∷ 24 ∷ 25 ∷ 26 ∷ 27 ∷ 28 ∷ 29 ∷ 20 ∷ []

spilled_run :
    (do t ← bulk_load unloaded five; t' ← insert_all t many; b ← load t'.buckets 0; collect b)
    ≡ ok (
        3 ∷ 5 ∷ 12 ∷ 13 ∷ 14 ∷ 15 ∷ 16 ∷ 17 ∷ 18 ∷ 19 ∷ 20 ∷ 21 ∷ 22 ∷ 23 ∷ 24 ∷ 25 ∷ 26 ∷ 27 ∷ 28
        ∷ 29 ∷ 200 ∷ [])
unfolding dynamic
spilled_run = refl

-- Five keys in one box.
abbrev one_box : Bucket
one_box = record {
  base = 0;
  shift = 63;
  slots = 1;
  blocks = (map flip five ++ replicate 11 pad) ++ [];
  floor = 0 ∷ [];
  has = false ∷ [];
  count = 5 ∷ [];
  over = 0 ∷ [];
  big = [];
  total = 5;
  overflow_keys = 0;
  overflow_at_rebuild = 0;
  bfloor = 0;
  bhas = false;
}

one_box-Stored : Stored one_box 0 five
unfolding load
one_box-Stored = record {
  counted = refl;
  place = inl (refl, fresh-Holds five [] 5 refl (omega arith));
}

search-rebuild_keys_example :
    search_box
      (rebuild_keys new_bucket twelve 0 false)
      (slot_of (rebuild_keys new_bucket twelve 0 false) 60)
      60
    ≡ ok (floor_at twelve 0 false (rank twelve 60))
search-rebuild_keys_example =
    search-rebuild_keys new_bucket twelve 0 false twelve-IsKeys (omega arith) 60 (omega arith)

rank16-rank_example :
    rank16 ((map flip five ++ replicate 11 pad) ++ []) (0 * 16) 30 ≡ ok (rank five 30)
rank16-rank_example =
    rank16-rank ((map flip five ++ replicate 11 pad) ++ []) (0 * 16) five 30
      (fresh-Holds five [] 5 refl (omega arith)) five-IsKeys (omega arith)

insert_slot-Inserted_example : Returns (Inserted one_box 0 30 five) (insert_slot one_box 0 30)
insert_slot-Inserted_example =
    insert_slot-Inserted one_box 0 five 30 five-IsKeys (omega arith) one_box-Stored (omega arith)
      (omega arith)

collect-rebuild_keys_example : collect (rebuild_keys new_bucket twelve 0 false) ≡ ok twelve
collect-rebuild_keys_example =
    collect-rebuild_keys new_bucket twelve 0 false twelve-IsKeys (omega arith)
