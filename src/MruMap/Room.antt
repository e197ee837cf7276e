-- ===== src/MruMap/Room.antt =====
-- `TypedMRUMap` of include/typedmrumap.hpp while its bound is not reached: a number of further uses
-- for which it is a plain map.
use network_algo.Prelude.{
  ℕ, suc, ◌+◌, ◌≤◌, ◌<◌, ◌≡◌, refl, sym, ap, ◌∙◌, subst, some, if◌then◌else◌, Eq, arith,
  Option-cases, inl, inr,
}
use network_algo.Containers.Assoc
use network_algo.Containers.Assoc.{lookup, assign, lookup-insert, lookup-assign, eq_refl}
use network_algo.MruMap.{MruMap, empty, size_mod, inserted, insert, touch, find, store}
use network_algo.MruMap.Invariant.{IsConsistent, empty-IsConsistent}
use network_algo.MruMap.Invariant.Insertion.{
  touch-IsConsistent, insert-inserted, inserted-IsConsistent,
}
use network_algo.MruMap.Store.{map-inserted, inserted-bound}

module _ {K V : Type 0} ⦃e : Eq K⦄ where
  -- Consistent tables, and room for `n` further insertions and hits.
  pub record HasRoom (n : ℕ) (m : MruMap K V) : Type 0 where
    pub consistent : IsConsistent m
    pub sizes : m.object_size + n ≤ m.max_object_size
    pub bound : m.max_object_size < size_mod
    pub times : m.timestamp + n < size_mod

  pub HasRoom-weaken : (n : ℕ) (m : MruMap K V) → HasRoom (suc n) m → HasRoom n m
  HasRoom-weaken n m r = record {
    consistent = r.consistent;
    sizes = omega (arith, r.sizes);
    bound = r.bound;
    times = omega (arith, r.times);
  }

  -- A hit or a miss keeps the entries.
  pub find-HasRoom :
      (n : ℕ) (k : K) (m : MruMap K V)
      → HasRoom (suc n) m
      → (m' : MruMap K V) × (find k m ≡ some (lookup k m.map, m')) × (m'.map ≡ m.map) × HasRoom n m'
  unfolding find touch
  find-HasRoom n k m r = elim (Option-cases (lookup k m.map)) [
    | inl missing ↦ (m, ground arith, refl, HasRoom-weaken n m r)
    | inr (v, there) ↦ elim (Option-cases (lookup k m.last_used_time)) [
      | inl q ↦ absurd (ground (arith, r.consistent.same_keys k))
      | inr (ts, q) ↦ (
        touch k ts m,
        ground arith,
        refl,
        record {
          consistent = touch-IsConsistent k ts m r.consistent q (omega (arith, r.times));
          sizes = omega (arith, r.sizes);
          bound = r.bound;
          times = omega (arith, r.times);
        },
      )
    ]
  ]

  -- Where a key is there, its value can be assigned.
  assign-HasRoom :
      (n : ℕ) (k : K) (v w : V) (m : MruMap K V)
      → lookup k m.map ≡ some w
      → HasRoom n m
      → HasRoom n (record m { map = assign k v m.map })
  assign-HasRoom n k v w m there r = record {
    consistent = record {
      same_keys = λ j.
          ground (arith, lookup-assign k j v w m.map there, r.consistent.same_keys j, e.eq_iff k j);
      to_rev = r.consistent.to_rev;
      from_rev = r.consistent.from_rev;
      past = r.consistent.past;
      sorted = r.consistent.sorted;
    };
    sizes = r.sizes;
    bound = r.bound;
    times = r.times;
  }

  inserted-HasRoom :
      (n : ℕ) (k : K) (v : V) (m : MruMap K V) → HasRoom (suc n) m → HasRoom n (inserted k v m)
  inserted-HasRoom n k v m r =
      let b = inserted-bound k v m in
      let small : m.timestamp + 1 < size_mod = omega (arith, r.times) in
      record {
        consistent = inserted-IsConsistent k v m r.consistent small;
        sizes = omega (arith, b.0, b.1, r.sizes, r.bound);
        bound = omega (arith, b.0, r.bound);
        times = omega (arith, b.2, r.times);
      }

  insert-room :
      (n : ℕ) (k : K) (v : V) (m : MruMap K V)
      → HasRoom (suc n) m
      → (insert k v m).0 ≡ inserted k v m
  insert-room n k v m r =
      let b = inserted-bound k v m in
      insert-inserted k v m ∙ ground (arith, b.0, b.1, r.sizes, r.bound)

  -- An assignment changes one entry.
  pub store-HasRoom :
      (n : ℕ) (default : V) (k : K) (v : V) (m : MruMap K V)
      → HasRoom (suc n) m
      → (m' : MruMap K V) × (store default k v m ≡ some m')
        × ((j : K) → lookup j m'.map ≡ (if e.eq k j then some v else lookup j m.map))
        × HasRoom n m'
  unfolding store
  store-HasRoom n default k v m r = elim (Option-cases (lookup k m.map)) [
    | inl missing ↦
        let m₁ = (insert k default m).0 in
        let q : m₁ ≡ inserted k default m = insert-room n k default m r in
        let tables : m₁.map ≡ Assoc.insert k default m.map =
          ap (λ u. u.map) q ∙ map-inserted k default m in
        let there : lookup k m₁.map ≡ some default =
          ground (arith, tables, lookup-insert k k default m.map, eq_refl k) in
        (
          record m₁ { map = assign k v m₁.map },
          ground arith,
          λ j. ground (
            arith,
            tables,
            lookup-assign k j v default m₁.map there,
            lookup-insert k j default m.map,
          ),
          assign-HasRoom n k v default m₁ there
              (subst (λ u. HasRoom n u) (sym q) (inserted-HasRoom n k default m r)),
        )
    | inr (w, there) ↦ (
      record m { map = assign k v m.map },
      ground arith,
      λ j. lookup-assign k j v w m.map there,
      assign-HasRoom n k v w m there (HasRoom-weaken n m r),
    )
  ]

  pub empty-HasRoom : (n max : ℕ) → n ≤ max → max < size_mod → HasRoom n (empty max)
  empty-HasRoom n max fits h = record {
    consistent = empty-IsConsistent max;
    sizes = omega arith;
    bound = h;
    times = omega arith;
  }
