-- ===== src/MruMap/Invariant/Insertion.antt =====
-- `insert` and `find` of include/typedmrumap.hpp keep the tables consistent.
use network_algo.Prelude.{
  ℕ, zero, suc, ◌+◌, ◌%◌, ◌<◌, ◌≡◌, refl, sym, ap, ◌∙◌, Bool, true, false, none, some, ltb,
  if◌then◌else◌, is_none, Eq, ℕ_eq, arith, Bool-cases, Option-cases, List-cases, subst, inl, inr,
}
use network_algo.MruMap.Invariant.{
  IsConsistent, drop_oldest, clear_loop-nil, clear_loop-cons, clear_loop-IsConsistent,
  record_use-IsConsistent,
}
use network_algo.Containers.Assoc
use network_algo.Containers.Assoc.{
  lookup, erase, assign, lookup-erase, lookup-insert, lookup-assign, eq_refl,
}
use network_algo.Containers.Timeline
use network_algo.Containers.Timeline.{
  IsSorted, Above, lookup-Above, Above-IsSorted, insert-IsSorted, erase-IsSorted,
}
use network_algo.MruMap.{
  MruMap, size_mod, number_clear_at_once, clear_loop, clear_not_used_cache, record_use, inserted,
  insert, touch,
}

module _ {K V : Type 0} ⦃e : Eq K⦄ where
  -- The tables do not depend on the sizes.
  with_size :
      (n : ℕ) (m : MruMap K V) → IsConsistent m → IsConsistent (record m { object_size = n })
  with_size n m c = record {
    same_keys = c.same_keys;
    to_rev = c.to_rev;
    from_rev = c.from_rev;
    past = c.past;
    sorted = c.sorted;
  }

  clear_if :
      (b : Bool) (m : MruMap K V)
      → IsConsistent m
      → IsConsistent (if b then clear_not_used_cache m else m)
  unfolding clear_not_used_cache
  clear_if true m c = clear_loop-IsConsistent number_clear_at_once m c
  clear_if false m c = c

  -- What a failed insertion of a key that is there does before the sizes are looked at.
  later :
      (k : K) (v : V) (m : MruMap K V)
      → IsConsistent m
      → is_none (lookup k m.map) ≡ false
      → m.timestamp + 1 < size_mod
      → IsConsistent
          (record m { map = Assoc.insert k v m.map; timestamp = (m.timestamp + 1) % size_mod })
  later k v m c there small = record {
    same_keys = λ j. ground (arith, lookup-insert k j v m.map, c.same_keys j, e.eq_iff k j);
    to_rev = c.to_rev;
    from_rev = c.from_rev;
    past = λ t j h. omega (arith, c.past t j h);
    sorted = c.sorted;
  }

  pub inserted-IsConsistent :
      (k : K) (v : V) (m : MruMap K V)
      → IsConsistent m
      → m.timestamp + 1 < size_mod
      → IsConsistent (inserted k v m)
  unfolding inserted
  inserted-IsConsistent k v m c small = elim (Bool-cases (is_none (lookup k m.map))) [
    | inl new ↦ rw new (with_size _ _ (record_use-IsConsistent k v m c (ground arith) small))
    | inr there ↦ rw there (with_size _ _ (later k v m c there small))
  ]

  pub insert-inserted :
      (k : K) (v : V) (m : MruMap K V)
      → (insert k v m).0 ≡ (
          if ltb (inserted k v m).max_object_size (inserted k v m).object_size
          then clear_not_used_cache (inserted k v m)
          else inserted k v m)
  unfolding insert
  insert-inserted k v m = refl

  -- An insertion keeps the tables consistent, whether the key is new, whether entries are dropped, as
  -- long as the timestamp does not wrap around.
  pub insert-IsConsistent :
      (k : K) (v : V) (m : MruMap K V)
      → IsConsistent m
      → m.timestamp + 1 < size_mod
      → IsConsistent (insert k v m).0
  insert-IsConsistent k v m c small =
      subst (λ r. IsConsistent r) (sym (insert-inserted k v m))
        (clear_if _ _ (inserted-IsConsistent k v m c small))

  pub touch-IsConsistent :
      (k : K) (ts : ℕ) (m : MruMap K V)
      → IsConsistent m
      → lookup k m.last_used_time ≡ some ts
      → m.timestamp + 1 < size_mod
      → IsConsistent (touch k ts m)
  unfolding touch
  touch-IsConsistent k ts m c h small =
      let now = (m.timestamp + 1) % size_mod in
      let now_eq : now ≡ m.timestamp + 1 = omega arith in
      let free : lookup now (erase ts m.last_used_time_rev) ≡ none =
        elim (Option-cases (lookup now m.last_used_time_rev)) [
          | inl q ↦ rw (lookup-erase ts now m.last_used_time_rev) (ground arith)
          | inr (j, q) ↦ absurd (omega (arith, c.past now j q, now_eq))
        ] in
      let uses = λ (s : ℕ). Timeline.lookup-insert now s k (erase ts m.last_used_time_rev) free in
      record {
        same_keys = λ j.
            ground
              (arith, c.same_keys j, lookup-assign k j now ts m.last_used_time h, e.eq_iff k j);
        to_rev = λ j s q. ground (
          arith,
          lookup-assign k j now ts m.last_used_time h,
          uses s,
          lookup-erase ts s m.last_used_time_rev,
          e.eq_iff k j,
          c.to_rev j s,
          c.to_rev k ts,
          c.past now j,
          now_eq,
        );
        from_rev = λ s j q. ground (
          arith,
          lookup-assign k j now ts m.last_used_time h,
          uses s,
          lookup-erase ts s m.last_used_time_rev,
          e.eq_iff k j,
          c.from_rev s j,
          now_eq,
        );
        past = λ s j q.
            ground (arith, uses s, lookup-erase ts s m.last_used_time_rev, c.past s j, now_eq);
        sorted =
            insert-IsSorted now k (erase ts m.last_used_time_rev)
              (erase-IsSorted ts m.last_used_time_rev c.sorted);
      }

  timestamp-clear_loop : (n : ℕ) (m : MruMap K V) → (clear_loop n m).timestamp ≡ m.timestamp
  unfolding clear_loop
  timestamp-clear_loop zero m = refl
  timestamp-clear_loop (suc n) m = elim (List-cases m.last_used_time_rev) [
    | inl q ↦ ap (λ r. r.timestamp) (clear_loop-nil (suc n) m q)
    | inr ((t, k), rest, q) ↦
        ap (λ r. r.timestamp) (clear_loop-cons n m t k rest q)
        ∙ timestamp-clear_loop n (drop_oldest t k rest m)
  ]

  timestamp-clear_if :
      (b : Bool) (m : MruMap K V)
      → (if b then clear_not_used_cache m else m).timestamp ≡ m.timestamp
  unfolding clear_not_used_cache
  timestamp-clear_if true m = timestamp-clear_loop number_clear_at_once m
  timestamp-clear_if false m = refl

  pub timestamp-insert :
      (k : K) (v : V) (m : MruMap K V) → (insert k v m).0.timestamp ≡ (m.timestamp + 1) % size_mod
  unfolding inserted record_use
  timestamp-insert k v m =
      ap (λ r. r.timestamp) (insert-inserted k v m)
      ∙ timestamp-clear_if _ (inserted k v m)
      ∙ elim (Bool-cases (is_none (lookup k m.map))) [ inl q ↦ simp q refl | inr q ↦ simp q refl ]
