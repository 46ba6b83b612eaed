-- ===== src/Rivals.antt =====
-- include/dynamic_rivals.hpp: the wrappers TlxSet and AlexIndex around two third-party containers. The
-- containers are parameters: records of the operations that the wrappers call.
pub mod Alex
pub mod Tlx
use fusion_tree_benchmark.Prelude.{
  ℕ, zero, suc, ◌+◌, ◌-◌, ◌%◌, ◌^◌, Run, ok, ◌>>=◌, Bool, true, false, not, ◌||◌, List, [], ◌∷◌,
  Option, none, some, length, ◌!◌, ltb, leb, ◌==◌, if◌then◌else◌,
}
use fusion_tree_benchmark.Word.{sub64}
use fusion_tree_benchmark.Word.Signed.{ℤ, pos, negsuc}

-- `(int)n`, the two's complement value of the low 32 bits.
unfoldable pub to_int : ℕ → ℤ
to_int n = let low = n % 2 ^ 32 in if ltb low (2 ^ 31) then pos low else negsuc (2 ^ 32 - low - 1)

-- `alex::Alex<u64, std::uint8_t>`, with the one value 0. A call that changes the container may fail to
-- return (third_party/PATCHES.md: an insertion can throw), which is a fault. `bulk_load` takes the array
-- and its size as an `int`. `find` is the key of the iterator that `find_last_no_greater_than` returns.
pub record AlexOps (A : Type 0) : Type 0 where
  pub empty : A
  pub insert : A → ℕ → Run A
  pub bulk_load : A → List ℕ → ℤ → Run A
  pub find : A → ℕ → ℕ

pub record AlexIndex (A : Type 0) : Type 0 where
  pub a : A
  pub lo : ℕ
  pub hi : ℕ
  pub has : Bool

module _ {A : Type 0} (alex : AlexOps A) where
  -- `for (u64 k : a) a_->insert(k, 0);`
  unfoldable pub insert_each : A → List ℕ → Run A
  insert_each a [] = ok a
  insert_each a (k ∷ ks) = do a' ← alex.insert a k; insert_each a' ks

  abbrev pub new_index : AlexIndex A
  new_index = record { a = alex.empty; lo = 0; hi = 0; has = false }

  unfoldable pub alex_bulk_load : AlexIndex A → List ℕ → Run (AlexIndex A)
  unfolding insert_each to_int
  alex_bulk_load t ks = do
    let has = not (length ks == 0)
    a ←
        if ltb (length ks) 2
        then insert_each alex.empty ks
        else alex.bulk_load alex.empty ks (to_int (length ks))
    ok (record {
      a = a;
      lo = if has then ks ! 0 else t.lo;
      hi = if has then ks ! (length ks - 1) else t.hi;
      has = has;
    })

  unfoldable pub alex_insert : AlexIndex A → ℕ → Run (AlexIndex A)
  alex_insert t k = do
    a ← alex.insert t.a k
    ok (record {
      a = a;
      lo = if t.has then (if ltb k t.lo then k else t.lo) else k;
      hi = if t.has then (if ltb t.hi k then k else t.hi) else k;
      has = true;
    })

  unfoldable pub alex_predecessor : AlexIndex A → ℕ → Option ℕ
  alex_predecessor t q =
      let k = alex.find t.a (sub64 q 1) in
      let found = if ltb (sub64 q 1) k then none else some k in
      let within = if ltb t.hi q then some t.hi else found in
      if not t.has || leb q t.lo then none else within

-- `tlx::btree_set<u64>` and its iterators.
pub record TlxOps (S It : Type 0) : Type 0 where
  pub clear : S → S
  pub bulk_load : S → List ℕ → S
  pub insert : S → ℕ → S
  pub lower_bound : S → ℕ → It
  pub begin : S → It
  pub same : It → It → Bool
  pub prev : It → It
  pub read : It → ℕ

module _ {S It : Type 0} (tlx : TlxOps S It) where
  unfoldable pub tlx_bulk_load : S → List ℕ → S
  tlx_bulk_load s a = tlx.bulk_load (tlx.clear s) a

  unfoldable pub tlx_insert : S → ℕ → S
  tlx_insert s k = tlx.insert s k

  unfoldable pub tlx_predecessor : S → ℕ → Option ℕ
  tlx_predecessor s q =
      let it = tlx.lower_bound s q in
      if tlx.same it (tlx.begin s) then none else some (tlx.read (tlx.prev it))
