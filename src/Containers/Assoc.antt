-- ===== src/Containers/Assoc.antt =====
-- `std::map` and `std::unordered_map` as association lists. The order of the entries is not used.
use network_algo.Prelude.{
  ◌≡◌, refl, Bool, true, false, Option, none, some, List, [], ◌∷◌, arith, if◌then◌else◌, Eq,
}

module _ {K V : Type 0} ⦃e : Eq K⦄ where
  -- `find`
  unfoldable pub lookup : K → List (K × V) → Option V
  lookup k [] = none
  lookup k ((j, v) ∷ l) = if e.eq j k then some v else lookup k l

  -- `erase` by key
  unfoldable pub erase : K → List (K × V) → List (K × V)
  erase k [] = []
  erase k ((j, v) ∷ l) = let rest = erase k l in if e.eq j k then rest else (j, v) ∷ rest

  -- `insert`: nothing changes if the key is there.
  unfoldable pub insert : K → V → List (K × V) → List (K × V)
  insert k v [] = (k, v) ∷ []
  insert k v ((j, w) ∷ l) = if e.eq j k then (j, w) ∷ l else (j, w) ∷ insert k v l

  -- `insert` with what it returns: the entry at the iterator, and whether it is new.
  unfoldable pub insert_entry : K → V → List (K × V) → List (K × V) × V × Bool
  unfolding lookup insert
  insert_entry k v l = elim (lookup k l) [ none ↦ (insert k v l, v, true) | some w ↦ (l, w, false) ]

  -- `it->second = v`, for the entry of a key that is there.
  unfoldable pub assign : K → V → List (K × V) → List (K × V)
  assign k v [] = []
  assign k v ((j, w) ∷ l) = if e.eq j k then (j, v) ∷ l else (j, w) ∷ assign k v l

  pub lookup-erase :
      (k j : K) (l : List (K × V)) → lookup j (erase k l) ≡ (if e.eq k j then none else lookup j l)
  unfolding lookup erase
  lookup-erase k j [] = ground arith
  lookup-erase k j ((i, v) ∷ l) =
      ground (arith, lookup-erase k j l, e.eq_iff i k, e.eq_iff i j, e.eq_iff k j)

  pub lookup-insert :
      (k j : K) (v : V) (l : List (K × V))
      → lookup j (insert k v l)
        ≡ (if e.eq k j then some (elim (lookup k l) [ none ↦ v | some w ↦ w ]) else lookup j l)
  unfolding lookup insert
  lookup-insert k j v [] = ground (arith, e.eq_iff k j)
  lookup-insert k j v ((i, w) ∷ l) =
      ground (arith, lookup-insert k j v l, e.eq_iff i k, e.eq_iff i j, e.eq_iff k j)

  pub lookup-assign :
      (k j : K) (v w : V) (l : List (K × V))
      → lookup k l ≡ some w
      → lookup j (assign k v l) ≡ (if e.eq k j then some v else lookup j l)
  unfolding lookup assign
  lookup-assign k j v w [] h = cc
  lookup-assign k j v w ((i, x) ∷ l) h =
      ground (arith, lookup-assign k j v w l, e.eq_iff i k, e.eq_iff i j, e.eq_iff k j)

module _ {K : Type 0} ⦃e : Eq K⦄ where
  pub eq_refl : (k : K) → e.eq k k ≡ true
  eq_refl k = (e.eq_iff k k).1 refl
