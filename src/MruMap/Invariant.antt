-- ===== src/MruMap/Invariant.antt =====
-- The three tables of `TypedMRUMap` (include/typedmrumap.hpp) describe one another before and after
-- every operation, as long as the timestamp does not wrap around.
pub mod Insertion
use network_algo.Prelude.{
  ℕ, zero, suc, ◌+◌, ◌%◌, ◌≤◌, ◌<◌, ◌≡◌, refl, sym, ap, ◌∙◌, Bool, true, false, none, some, List,
  [], ◌∷◌, ltb, if◌then◌else◌, is_none, Eq, ℕ_eq, arith, Bool-cases, Option-cases, List-cases,
  subst, inl, inr,
}
use network_algo.Containers.Assoc
use network_algo.Containers.Assoc.{
  lookup, erase, assign, lookup-erase, lookup-insert, lookup-assign, eq_refl,
}
use network_algo.Containers.Timeline
use network_algo.Containers.Timeline.{
  IsSorted, Above, lookup-Above, Above-IsSorted, insert-IsSorted, erase-IsSorted,
}
use network_algo.MruMap.{
  MruMap, empty, size_mod, number_clear_at_once, clear_loop, clear_not_used_cache, record_use,
  inserted, insert, touch,
}

module _ {K V : Type 0} ⦃e : Eq K⦄ where
  pub record IsConsistent (m : MruMap K V) : Type 0 where
    -- a key is in the map exactly where its last use is known
    pub same_keys : (k : K) → is_none (lookup k m.map) ≡ is_none (lookup k m.last_used_time)
    pub to_rev :
        (k : K) (t : ℕ)
        → lookup k m.last_used_time ≡ some t
        → lookup t m.last_used_time_rev ≡ some k
    pub from_rev :
        (t : ℕ) (k : K)
        → lookup t m.last_used_time_rev ≡ some k
        → lookup k m.last_used_time ≡ some t
    -- no use lies in the future
    pub past : (t : ℕ) (k : K) → lookup t m.last_used_time_rev ≡ some k → t ≤ m.timestamp
    pub sorted : IsSorted m.last_used_time_rev

  -- The tables after the least recent use is dropped.
  abbrev pub drop_oldest : ℕ → K → List (ℕ × K) → MruMap K V → MruMap K V
  drop_oldest t k rest m = record m {
    map = erase k m.map;
    last_used_time = erase k m.last_used_time;
    last_used_time_rev = rest;
  }

  pub drop_oldest-IsConsistent :
      (t : ℕ) (k : K) (rest : List (ℕ × K)) (m : MruMap K V)
      → IsConsistent (record m { last_used_time_rev = (t, k) ∷ rest })
      → IsConsistent (drop_oldest t k rest m)
  unfolding lookup
  drop_oldest-IsConsistent t k rest m c = record {
    same_keys = λ j.
        rw (lookup-erase k j m.map, lookup-erase k j m.last_used_time)
          (ground (arith, c.same_keys j));
    to_rev = λ j s h. ground (arith, lookup-erase k j m.last_used_time, c.to_rev j s, e.eq_iff k j);
    from_rev = λ s j h. ground (
      arith,
      lookup-erase k j m.last_used_time,
      c.from_rev s j,
      c.from_rev t k,
      e.eq_iff k j,
      lookup-Above t s rest c.sorted,
    );
    past = λ s j h. ground (arith, c.past s j, lookup-Above t s rest c.sorted);
    sorted = Above-IsSorted t rest c.sorted;
  }

  pub clear_loop-nil : (n : ℕ) (m : MruMap K V) → m.last_used_time_rev ≡ [] → clear_loop n m ≡ m
  unfolding clear_loop
  clear_loop-nil zero m q = refl
  clear_loop-nil (suc n) m q = rw q refl

  pub clear_loop-cons :
      (n : ℕ) (m : MruMap K V) (t : ℕ) (k : K) (rest : List (ℕ × K))
      → m.last_used_time_rev ≡ (t, k) ∷ rest
      → clear_loop (suc n) m ≡ clear_loop n (drop_oldest t k rest m)
  unfolding clear_loop
  clear_loop-cons n m t k rest q = rw q refl

  pub clear_loop-IsConsistent :
      (n : ℕ) (m : MruMap K V) → IsConsistent m → IsConsistent (clear_loop n m)
  unfolding clear_loop
  clear_loop-IsConsistent zero m c = c
  clear_loop-IsConsistent (suc n) m c = elim (List-cases m.last_used_time_rev) [
    | inl q ↦ subst (λ r. IsConsistent r) (sym (clear_loop-nil (suc n) m q)) c
    | inr ((t, k), rest, q) ↦
        subst (λ r. IsConsistent r) (sym (clear_loop-cons n m t k rest q))
          (clear_loop-IsConsistent n (drop_oldest t k rest m) (
            drop_oldest-IsConsistent t k rest m
              (subst (λ l. IsConsistent (record m { last_used_time_rev = l })) q c)))
  ]

  -- No use is recorded at the present.
  pub record_use-IsConsistent :
      (k : K) (v : V) (m : MruMap K V)
      → IsConsistent m
      → lookup k m.map ≡ none
      → m.timestamp + 1 < size_mod
      → IsConsistent (
          record_use k
            (record m { map = Assoc.insert k v m.map; timestamp = (m.timestamp + 1) % size_mod }))
  unfolding record_use
  record_use-IsConsistent k v m c new small =
      let now = (m.timestamp + 1) % size_mod in
      let now_eq : now ≡ m.timestamp + 1 = omega arith in
      let unused : lookup k m.last_used_time ≡ none = ground (arith, c.same_keys k) in
      let free : lookup now m.last_used_time_rev ≡ none =
        elim (Option-cases (lookup now m.last_used_time_rev)) [
          | inl h ↦ h
          | inr (j, h) ↦ absurd (omega (arith, c.past now j h, now_eq))
        ] in
      record {
        same_keys = λ j.
            rw (lookup-insert k j v m.map, lookup-insert k j now m.last_used_time)
              (ground (arith, c.same_keys j));
        to_rev = λ j s h. ground (
          arith,
          Timeline.lookup-insert now s k m.last_used_time_rev free,
          lookup-insert k j now m.last_used_time,
          c.to_rev j s,
          e.eq_iff k j,
          free,
          unused,
        );
        from_rev = λ s j h. ground (
          arith,
          Timeline.lookup-insert now s k m.last_used_time_rev free,
          lookup-insert k j now m.last_used_time,
          c.from_rev s j,
          e.eq_iff k j,
          free,
          unused,
        );
        past = λ s j h.
            ground
              (arith, Timeline.lookup-insert now s k m.last_used_time_rev free, c.past s j, now_eq);
        sorted = insert-IsSorted now k m.last_used_time_rev c.sorted;
      }

  pub empty-IsConsistent : (max : ℕ) → IsConsistent (empty max)
  unfolding lookup
  empty-IsConsistent max = record {
    same_keys = λ k. refl;
    to_rev = λ k t h. cc;
    from_rev = λ t k h. cc;
    past = λ t k h. cc;
    sorted = tt;
  }
