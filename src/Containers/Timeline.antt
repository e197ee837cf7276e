-- ===== src/Containers/Timeline.antt =====
-- `std::map<size_t, K>`: entries in increasing order of a number.
use network_algo.Prelude.{
  ℕ, suc, ◌≤◌, ◌<◌, ◌≡◌, refl, Bool-cases, inl, inr, none, some, List, [], ◌∷◌, arith, ltb, ◌==◌,
  if◌then◌else◌, ℕ_eq, length,
}
use network_algo.Containers.Assoc.{lookup, erase}

module _ {V : Type 0} where
  unfoldable pub insert : ℕ → V → List (ℕ × V) → List (ℕ × V)
  insert k v [] = (k, v) ∷ []
  insert k v ((j, w) ∷ l) =
      let rest = insert k v l in
      if ltb k j then (k, v) ∷ (j, w) ∷ l else if k == j then (j, w) ∷ l else (j, w) ∷ rest

  -- Every key is above `n`, and the keys increase.
  abbrev pub Above : ℕ → List (ℕ × V) → Type 0
  Above n [] = Unit {0}
  Above n ((k, v) ∷ l) = (n < k) × Above k l

  abbrev pub IsSorted : List (ℕ × V) → Type 0
  IsSorted [] = Unit {0}
  IsSorted ((k, v) ∷ l) = Above k l

  pub Above-le : (m n : ℕ) (l : List (ℕ × V)) → m ≤ n → Above n l → Above m l
  Above-le m n [] h a = tt
  Above-le m n ((k, v) ∷ l) h a = (omega arith, a.1)

  pub Above-IsSorted : (n : ℕ) (l : List (ℕ × V)) → Above n l → IsSorted l
  Above-IsSorted n [] a = tt
  Above-IsSorted n ((k, v) ∷ l) a = a.1

  pub lookup-Above : (n j : ℕ) (l : List (ℕ × V)) → Above n l → j ≤ n → lookup j l ≡ none
  unfolding lookup
  lookup-Above n j [] a h = refl
  lookup-Above n j ((k, v) ∷ l) a h = ground (arith, lookup-Above k j l)

  pub lookup-insert :
      (k j : ℕ) (v : V) (l : List (ℕ × V))
      → lookup k l ≡ none
      → lookup j (insert k v l) ≡ (if k == j then some v else lookup j l)
  unfolding lookup insert
  lookup-insert k j v [] h = ground arith
  lookup-insert k j v ((i, w) ∷ l) h = ground (arith, lookup-insert k j v l)

  insert-Above : (n k : ℕ) (v : V) (l : List (ℕ × V)) → n < k → Above n l → Above n (insert k v l)
  unfolding insert
  insert-Above n k v [] h a = ground arith
  insert-Above n k v ((j, w) ∷ l) h a = ground (arith, insert-Above j k v l)

  pub insert-IsSorted : (k : ℕ) (v : V) (l : List (ℕ × V)) → IsSorted l → IsSorted (insert k v l)
  unfolding insert
  insert-IsSorted k v [] s = tt
  insert-IsSorted k v ((j, w) ∷ l) s = ground (arith, insert-Above j k v l)

  erase-Above : (n k : ℕ) (l : List (ℕ × V)) → Above n l → Above n (erase k l)
  unfolding erase
  erase-Above n k [] a = tt
  erase-Above n k ((j, w) ∷ l) a = ground (arith, erase-Above j k l, Above-le n j (erase k l))

  pub erase-IsSorted : (k : ℕ) (l : List (ℕ × V)) → IsSorted l → IsSorted (erase k l)
  unfolding erase
  erase-IsSorted k [] s = tt
  erase-IsSorted k ((j, w) ∷ l) s = elim (Bool-cases (j == k)) [
    | inl here ↦ rw here (Above-IsSorted j (erase k l) (erase-Above j k l s))
    | inr other ↦ rw other (erase-Above j k l s)
  ]

  pub length-insert :
      (k : ℕ) (v : V) (l : List (ℕ × V))
      → lookup k l ≡ none
      → length (insert k v l) ≡ suc (length l)
  unfolding insert lookup
  length-insert k v [] h = omega arith
  length-insert k v ((j, w) ∷ l) h = ground (arith, length-insert k v l)
