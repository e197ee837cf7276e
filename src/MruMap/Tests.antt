-- ===== src/MruMap/Tests.antt =====
-- Runs of `TypedMRUMap` (include/typedmrumap.hpp) on small maps.
use network_algo.Prelude.{
  ℕ, zero, suc, ◌<◌, ◌≡◌, refl, ◌∙◌, none, some, arith, if◌then◌else◌, ℕ_eq, ◌==◌,
}
use network_algo.Containers.Assoc
use network_algo.Containers.Assoc.{lookup}
use network_algo.Containers.Timeline
use network_algo.MruMap.{
  MruMap, empty, size_mod, clear_loop, clear_not_used_cache, record_use, inserted, insert, find,
  store,
}
use network_algo.MruMap.Invariant.{IsConsistent, empty-IsConsistent}
use network_algo.MruMap.Invariant.Insertion.{insert-IsConsistent, timestamp-insert}
use network_algo.MruMap.Eviction.{clear_loop-lru}
use network_algo.MruMap.Store.{find-lookup, store_fits, store-few}

-- The keys below `n` inserted in order, each with itself as its value.
abbrev fill : ℕ → ℕ → MruMap ℕ ℕ
fill max zero = empty max
fill max (suc n) = (insert n n (fill max n)).0

fill-ok : (max n : ℕ) → n < size_mod → IsConsistent (fill max n) × ((fill max n).timestamp ≡ n)
fill-ok max zero h = (empty-IsConsistent max, refl)
fill-ok max (suc n) h =
    let before = fill-ok max n (omega arith) in
    (
      insert-IsConsistent n n (fill max n) before.0 (omega (arith, before.1)),
      timestamp-insert n n (fill max n) ∙ omega (arith, before.1),
    )

-- Two entries and the bound reached.
two-IsConsistent : IsConsistent (fill 2 2)
two-IsConsistent = (fill-ok 2 2 (omega arith)).0

insert-IsConsistent_example : IsConsistent (insert 7 70 (fill 2 2)).0
insert-IsConsistent_example =
    insert-IsConsistent 7 70 (fill 2 2) two-IsConsistent
      (omega (arith, (fill-ok 2 2 (omega arith)).1))

find-lookup_example :
    (m' : MruMap ℕ ℕ) × (find 1 (fill 2 2) ≡ some (lookup 1 (fill 2 2).map, m'))
    × (m'.map ≡ (fill 2 2).map)
    × IsConsistent m'
find-lookup_example =
    find-lookup 1 (fill 2 2) two-IsConsistent (omega (arith, (fill-ok 2 2 (omega arith)).1))

store-few_example : store 0 7 70 (fill 2 2) ≡ none
unfolding insert inserted record_use clear_not_used_cache clear_loop lookup Assoc.insert
    Timeline.insert
store-few_example =
    store-few 0 7 70 (fill 2 2) two-IsConsistent (omega (arith, (fill-ok 2 2 (omega arith)).1)) refl
      (omega arith) (omega arith)

store_fits_example :
    (m' : MruMap ℕ ℕ) × (store 0 7 70 (fill 9 2) ≡ some m')
    × ((j : ℕ) → lookup j m'.map ≡ (if 7 == j then some 70 else lookup j (fill 9 2).map))
unfolding insert inserted record_use clear_not_used_cache clear_loop lookup Assoc.insert
    Timeline.insert
store_fits_example = store_fits 0 7 70 (fill 9 2) (λ h. omega arith)

clear_loop-lru_example : 1 < 2
unfolding insert inserted record_use clear_not_used_cache clear_loop lookup Assoc.insert Assoc.erase
    Timeline.insert
clear_loop-lru_example =
    clear_loop-lru 1 (fill 2 2) 0 1 0 1 1 2 two-IsConsistent refl refl refl refl refl
