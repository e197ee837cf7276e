-- ===== src/MruMap/Store.antt =====
-- What `find` and `operator[]` of include/typedmrumap.hpp give back and leave behind.
use network_algo.Prelude.{
  suc, ◌+◌, ◌%◌, ◌≤◌, ◌<◌, ◌≡◌, refl, sym, ap, ◌∙◌, subst, Bool, true, false, none, some, ltb,
  if◌then◌else◌, length, is_none, Eq, ℕ_eq, arith, Bool-cases, Option-cases, inl, inr,
}
use network_algo.Containers.Assoc
use network_algo.Containers.Assoc.{
  lookup, erase, assign, lookup-erase, lookup-insert, lookup-assign, eq_refl,
}
use network_algo.Containers.Timeline
use network_algo.Containers.Timeline.{length-insert}
use network_algo.MruMap.{
  MruMap, size_mod, number_clear_at_once, clear_loop, clear_not_used_cache, record_use, inserted,
  insert, touch, find, store,
}
use network_algo.MruMap.Invariant.{IsConsistent}
use network_algo.MruMap.Invariant.Insertion.{
  touch-IsConsistent, insert-inserted, inserted-IsConsistent,
}
use network_algo.MruMap.Eviction.{lookup-clear_loop, clear_loop-empties, clear_loop-keeps_latest}

module _ {K V : Type 0} ⦃e : Eq K⦄ where
  -- On consistent tables, before the timestamp wraps around, the assertion of `find` does not fail,
  -- it finds what the map holds, the entries stay and the tables stay consistent.
  pub find-lookup :
      (k : K) (m : MruMap K V)
      → IsConsistent m
      → m.timestamp + 1 < size_mod
      → (m' : MruMap K V) × (find k m ≡ some (lookup k m.map, m'))
        × (m'.map ≡ m.map)
        × IsConsistent m'
  unfolding find touch
  find-lookup k m c small = elim (Option-cases (lookup k m.map)) [
    | inl missing ↦ (m, ground arith, refl, c)
    | inr (v, there) ↦ elim (Option-cases (lookup k m.last_used_time)) [
      | inl q ↦ absurd (ground (arith, c.same_keys k))
      | inr (ts, q) ↦ (touch k ts m, ground arith, refl, touch-IsConsistent k ts m c q small)
    ]
  ]

  pub map-inserted :
      (k : K) (v : V) (m : MruMap K V) → (inserted k v m).map ≡ Assoc.insert k v m.map
  unfolding inserted record_use
  map-inserted k v m = elim (Bool-cases (is_none (lookup k m.map))) [
    | inl q ↦ simp q refl
    | inr q ↦ simp q refl
  ]

  lookup-clear_if :
      (b : Bool) (m : MruMap K V) (j : K) (w : V)
      → lookup j (if b then clear_not_used_cache m else m).map ≡ some w
      → lookup j m.map ≡ some w
  unfolding clear_not_used_cache
  lookup-clear_if true m j w h = lookup-clear_loop number_clear_at_once m j w h
  lookup-clear_if false m j w h = h

  -- An insertion keeps nothing else than what was there and the new entry.
  lookup-insert_kept :
      (k j : K) (v w : V) (m : MruMap K V)
      → lookup j (insert k v m).0.map ≡ some w
      → lookup j (Assoc.insert k v m.map) ≡ some w
  lookup-insert_kept k j v w m h =
      ap (λ l. lookup j l) (sym (map-inserted k v m))
      ∙ lookup-clear_if _ (inserted k v m) j w
          (ap (λ r. lookup j r.map) (sym (insert-inserted k v m)) ∙ h)

  pub inserted-bound :
      (k : K) (v : V) (m : MruMap K V)
      → ((inserted k v m).max_object_size ≡ m.max_object_size)
        × ((inserted k v m).object_size ≡ (m.object_size + 1) % size_mod)
        × ((inserted k v m).timestamp ≡ (m.timestamp + 1) % size_mod)
  unfolding inserted record_use
  inserted-bound k v m = elim (Bool-cases (is_none (lookup k m.map))) [
    | inl q ↦ (simp q refl, simp q refl, simp q refl)
    | inr q ↦ (simp q refl, simp q refl, simp q refl)
  ]

  insert-room :
      (k : K) (v : V) (m : MruMap K V)
      → (m.object_size + 1) % size_mod ≤ m.max_object_size
      → (insert k v m).0.map ≡ Assoc.insert k v m.map
  insert-room k v m room =
      let b = inserted-bound k v m in
      let stays : (if ltb (inserted k v m).max_object_size (inserted k v m).object_size
            then clear_not_used_cache (inserted k v m)
            else inserted k v m)
          ≡ inserted k v m =
        ground (arith, b.0, b.1) in
      ap (λ r. r.map) (insert-inserted k v m ∙ stays) ∙ map-inserted k v m

  insert-over :
      (k : K) (v : V) (m : MruMap K V)
      → m.max_object_size < (m.object_size + 1) % size_mod
      → (insert k v m).0 ≡ clear_loop number_clear_at_once (inserted k v m)
  unfolding clear_not_used_cache
  insert-over k v m over =
      let b = inserted-bound k v m in insert-inserted k v m ∙ ground (arith, b.0, b.1)

  -- Each entry after an assignment `m[k] = v` is the one assigned or was there before.
  store-kept :
      (default : V) (k : K) (v : V) (m m' : MruMap K V) (j : K) (w : V)
      → store default k v m ≡ some m'
      → lookup j m'.map ≡ some w
      → (if e.eq k j then some v else lookup j m.map) ≡ some w
  unfolding store
  store-kept default k v m m' j w h q = elim (Option-cases (lookup k m.map)) [
    | inl missing ↦ elim (Option-cases (lookup k (insert k default m).0.map)) [
      | inl gone ↦ ground arith
      | inr (x, there) ↦ ground (
        arith,
        lookup-assign k j v x (insert k default m).0.map there,
        lookup-insert_kept k j default w m,
        lookup-insert k j default m.map,
      )
    ]
    | inr (x, there) ↦ ground (arith, lookup-assign k j v x m.map there)
  ]

  -- Where the key is there, or its insertion does not pass the bound of sizes, `m[k] = v` changes
  -- the entry of `k` and no other.
  pub store_fits :
      (default : V) (k : K) (v : V) (m : MruMap K V)
      → (lookup k m.map ≡ none → (m.object_size + 1) % size_mod ≤ m.max_object_size)
      → (m' : MruMap K V) × (store default k v m ≡ some m')
        × ((j : K) → lookup j m'.map ≡ (if e.eq k j then some v else lookup j m.map))
  unfolding store
  store_fits default k v m room = elim (Option-cases (lookup k m.map)) [
    | inl missing ↦
        let m₁ = (insert k default m).0 in
        let tables : m₁.map ≡ Assoc.insert k default m.map =
          insert-room k default m (room missing) in
        let there : lookup k m₁.map ≡ some default =
          ground (arith, tables, lookup-insert k k default m.map, eq_refl k) in
        (
          record m₁ { map = assign k v m₁.map },
          ground arith,
          λ j. ground (
            arith,
            tables,
            lookup-assign k j v default m₁.map there,
            lookup-insert k j default m.map,
          ),
        )
    | inr (w, there) ↦
        (record m { map = assign k v m.map }, ground arith, λ j. lookup-assign k j v w m.map there)
  ]

  -- The tables of a new key before anything is cleared.
  inserted-uses :
      (k : K) (v : V) (m : MruMap K V)
      → lookup k m.map ≡ none
      → ((inserted k v m).last_used_time_rev
          ≡ Timeline.insert ((m.timestamp + 1) % size_mod) k m.last_used_time_rev)
        × ((inserted k v m).last_used_time
            ≡ Assoc.insert k ((m.timestamp + 1) % size_mod) m.last_used_time)
        × ((inserted k v m).timestamp ≡ (m.timestamp + 1) % size_mod)
  unfolding inserted record_use
  inserted-uses k v m new = (simp new refl, simp new refl, simp new refl)

  -- No use is recorded at the time that an insertion takes.
  now_free :
      (m : MruMap K V)
      → IsConsistent m
      → m.timestamp + 1 < size_mod
      → lookup ((m.timestamp + 1) % size_mod) m.last_used_time_rev ≡ none
  now_free m c small =
      elim (Option-cases (lookup ((m.timestamp + 1) % size_mod) m.last_used_time_rev)) [
        | inl q ↦ q
        | inr (j, q) ↦ absurd (omega (arith, c.past _ j q))
      ]

  length-inserted :
      (k : K) (v : V) (m : MruMap K V)
      → IsConsistent m
      → lookup k m.map ≡ none
      → m.timestamp + 1 < size_mod
      → length (inserted k v m).last_used_time_rev ≡ suc (length m.last_used_time_rev)
  length-inserted k v m c new small =
      ap length (inserted-uses k v m new).0
      ∙ length-insert _ k m.last_used_time_rev (now_free m c small)

  -- On consistent tables with fewer than ten uses, `m[k] = v` with a new key that passes the bound of
  -- sizes drops the entry that it has just made, and the assignment is to a dangling reference.
  pub store-few :
      (default : V) (k : K) (v : V) (m : MruMap K V)
      → IsConsistent m
      → m.timestamp + 1 < size_mod
      → lookup k m.map ≡ none
      → m.max_object_size < (m.object_size + 1) % size_mod
      → length m.last_used_time_rev < number_clear_at_once
      → store default k v m ≡ none
  unfolding store
  store-few default k v m c small new over few =
      let dropped : lookup k (insert k default m).0.map ≡ none =
        ap (λ r. lookup k r.map) (insert-over k default m over)
        ∙ clear_loop-empties number_clear_at_once (inserted k default m) k
            (inserted-IsConsistent k default m c small)
            (omega (arith, length-inserted k default m c new small)) in
      ground arith

  stays_either :
      (b : Bool) (m : MruMap K V) (k : K) (v : V) {r : MruMap K V}
      → lookup k m.map ≡ some v
      → lookup k (clear_loop number_clear_at_once m).map ≡ some v
      → r ≡ (if b then clear_not_used_cache m else m)
      → lookup k r.map ≡ some v
  unfolding clear_not_used_cache
  stays_either true m k v kept cleared q = ap (λ r. lookup k r.map) q ∙ cleared
  stays_either false m k v kept cleared q = ap (λ r. lookup k r.map) q ∙ kept

  insert_stays :
      (k : K) (v : V) (m : MruMap K V)
      → IsConsistent m
      → m.timestamp + 1 < size_mod
      → lookup k m.map ≡ none
      → number_clear_at_once ≤ length m.last_used_time_rev
      → lookup k (insert k v m).0.map ≡ some v
  insert_stays k v m c small new many =
      let at_first : lookup k (inserted k v m).map ≡ some v =
        ap (λ l. lookup k l) (map-inserted k v m)
        ∙ ground (arith, lookup-insert k k v m.map, eq_refl k) in
      let uses = inserted-uses k v m new in
      let c' = inserted-IsConsistent k v m c small in
      let used : lookup k (inserted k v m).last_used_time ≡ some ((m.timestamp + 1) % size_mod) =
        ap (λ l. lookup k l) uses.1
        ∙ ground (
          arith,
          lookup-insert k k ((m.timestamp + 1) % size_mod) m.last_used_time,
          c.same_keys k,
          eq_refl k,
        ) in
      let latest : lookup k (clear_loop number_clear_at_once (inserted k v m)).map
          ≡ lookup k (inserted k v m).map =
        clear_loop-keeps_latest number_clear_at_once (inserted k v m) k _ c' used
          (λ t j h. subst (λ n. t ≤ n) uses.2 (c'.past t j h))
          (omega (arith, length-inserted k v m c new small)) in
      stays_either _ (inserted k v m) k v at_first (latest ∙ at_first) (insert-inserted k v m)

  -- On consistent tables with ten uses or more, `m[k] = v` with a new key stores `v`.
  store-many :
      (default : V) (k : K) (v : V) (m : MruMap K V)
      → IsConsistent m
      → m.timestamp + 1 < size_mod
      → lookup k m.map ≡ none
      → number_clear_at_once ≤ length m.last_used_time_rev
      → (m' : MruMap K V) × (store default k v m ≡ some m') × (lookup k m'.map ≡ some v)
  unfolding store
  store-many default k v m c small new many =
      let stays : lookup k (insert k default m).0.map ≡ some default =
        insert_stays k default m c small new many in
      let m₁ = (insert k default m).0 in
      (
        record m₁ { map = assign k v m₁.map },
        ground arith,
        lookup-assign k k v default m₁.map stays ∙ rw (eq_refl k) refl,
      )
