-- ===== src/MruMap.antt =====
-- `netalgo::impl::TypedMRUMap` of include/typedmrumap.hpp, a map that drops its least recently used
-- entries once the sizes of what was inserted pass a bound. `getSize` of a key-value pair is 1, the
-- pair having neither `capacity()` nor `size()`. Allocation failures are not modelled.
pub mod Invariant
pub mod Eviction
pub mod Store
pub mod Room
mod Tests
use network_algo.Prelude.{
  ℕ, zero, suc, ◌+◌, ◌%◌, ◌^◌, ◌≡◌, Bool, true, false, Option, none, some, List, [], ◌∷◌, ltb,
  if◌then◌else◌, length, is_none, Eq, ℕ_eq,
}
use network_algo.Containers.Assoc
use network_algo.Containers.Assoc.{lookup, erase, assign}
use network_algo.Containers.Timeline

pub record MruMap (K V : Type 0) : Type 0 where
  pub max_object_size : ℕ
  pub map : List (K × V)
  pub last_used_time : List (K × ℕ)
  pub last_used_time_rev : List (ℕ × K)
  pub timestamp : ℕ
  pub object_size : ℕ

-- The modulus of `size_t`.
abbrev pub size_mod : ℕ
size_mod = 2 ^ 64

abbrev pub number_clear_at_once : ℕ
number_clear_at_once = 10

-- The constructor.
abbrev pub empty : {K V : Type 0} → ℕ → MruMap K V
empty max = record {
  max_object_size = max;
  map = [];
  last_used_time = [];
  last_used_time_rev = [];
  timestamp = 0;
  object_size = 0;
}

-- `getSize(value)` at `value_type`.
abbrev pub get_size : {K V : Type 0} → K × V → ℕ
get_size value = 1

module _ {K V : Type 0} ⦃e : Eq K⦄ where
  -- The loop of `clearNotUsedCache`, with the rounds that `count` leaves.
  unfoldable pub clear_loop : ℕ → MruMap K V → MruMap K V
  clear_loop zero m = m
  clear_loop (suc n) m = elim m.last_used_time_rev [
    | [] ↦ m
    | (t, k) ∷ rest ↦ clear_loop n (record m {
      map = erase k m.map;
      last_used_time = erase k m.last_used_time;
      last_used_time_rev = rest;
    })
  ]

  unfoldable pub clear_not_used_cache : MruMap K V → MruMap K V
  unfolding clear_loop
  clear_not_used_cache m = clear_loop number_clear_at_once m

  -- What `insert` records of a key that the map did not hold.
  unfoldable pub record_use : K → MruMap K V → MruMap K V
  record_use k m = record m {
    last_used_time_rev = Timeline.insert m.timestamp k m.last_used_time_rev;
    last_used_time = Assoc.insert k m.timestamp m.last_used_time;
  }

  -- What `insert` does before it looks at the sizes.
  unfoldable pub inserted : K → V → MruMap K V → MruMap K V
  unfolding record_use
  inserted k v m =
      let m₁ = record m {
        map = Assoc.insert k v m.map;
        timestamp = (m.timestamp + 1) % size_mod;
      } in
      let m₂ = if is_none (lookup k m.map) then record_use k m₁ else m₁ in
      record m₂ { object_size = (m₂.object_size + get_size (k, v)) % size_mod }

  -- `insert`; beside the map, whether the key was new.
  unfoldable pub insert : K → V → MruMap K V → MruMap K V × Bool
  unfolding inserted clear_not_used_cache
  insert k v m =
      let m₁ = inserted k v m in
      (
        if ltb m₁.max_object_size m₁.object_size then clear_not_used_cache m₁ else m₁,
        is_none (lookup k m.map),
      )

  -- The uses after a hit of `find` at `ts`.
  unfoldable pub touch : K → ℕ → MruMap K V → MruMap K V
  touch k ts m =
      let now = (m.timestamp + 1) % size_mod in
      record m {
        timestamp = now;
        last_used_time = assign k now m.last_used_time;
        last_used_time_rev = Timeline.insert now k (erase ts m.last_used_time_rev);
      }

  -- `find`: the value, or `none` for `end()`. The whole is `none` where the assertion fails.
  unfoldable pub find : K → MruMap K V → Option (Option V × MruMap K V)
  unfolding touch
  find k m = elim (lookup k m.map) [
    | none ↦ some (none, m)
    | some v ↦ elim (lookup k m.last_used_time) [
      | none ↦ none
      | some ts ↦ some (some v, touch k ts m)
    ]
  ]

  -- `m[k] = v`: `operator[]`, which inserts `ValueT()` where the key is missing, and the assignment
  -- through the reference that it returns. `none` where that reference is to an entry that the
  -- insertion has itself dropped.
  unfoldable pub store : V → K → V → MruMap K V → Option (MruMap K V)
  unfolding insert
  store default k v m = elim (lookup k m.map) [
    | some w ↦ some (record m { map = assign k v m.map })
    | none ↦
        let m' = (insert k default m).0 in
        elim (lookup k m'.map) [
          | none ↦ none
          | some w ↦ some (record m' { map = assign k v m'.map })
        ]
  ]

  unfoldable pub size : MruMap K V → ℕ
  size m = length m.map
