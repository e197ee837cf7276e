-- ===== src/TfLabel/Numbering.antt =====
-- The graph that `read` of include/algorithm/tflabel.hpp makes of the pairs of numbers in its file: the
-- nodes renumbered from 0 on in their order, and the targets of each. No number is negative; one that the arrays
-- have no entry for is written out of bounds.
pub mod Places
pub mod Targets
use network_algo.Prelude.{ℕ, suc, Option, none, some, List, [], ◌∷◌, ◌++◌, ltb, ◌==◌, if◌then◌else◌}
use network_algo.TfLabel.{Array, store}

abbrev pub Pairs : Type 0
Pairs = List (ℕ × ℕ)

-- `v` as the loop over the file leaves it.
abbrev pub ends : Pairs → List ℕ
ends [] = []
ends ((x, y) ∷ pairs) = x ∷ y ∷ ends pairs

-- `sort` and `unique`: every number once, in their order.
unfoldable pub insert_number : ℕ → List ℕ → List ℕ
insert_number x [] = x ∷ []
insert_number x (y ∷ ys) =
    let rest = insert_number x ys in
    if x == y then y ∷ ys else if ltb x y then x ∷ y ∷ ys else y ∷ rest

unfoldable pub sort_unique : List ℕ → List ℕ
unfolding insert_number
sort_unique [] = []
sort_unique (x ∷ xs) = insert_number x (sort_unique xs)

-- `maxN` and `maxn`, the numbers of entries of `pre_to_new_NUM` and of `GG`
abbrev pub max_number : ℕ
max_number = 8000000

abbrev pub max_nodes : ℕ
max_nodes = 3000000

-- `pre_to_new_NUM[v[i]] = i`, from `i` on. `none` is a write behind the end of an array.
unfoldable pub renumber : ℕ → List ℕ → Array ℕ → Option (Array ℕ)
renumber i [] number = some number
renumber i (x ∷ v) number =
    let rest = renumber (suc i) v (store number x i) in if ltb x max_number then rest else none

-- `GG[xx].push_back(yy)` for each pair
unfoldable pub add_targets : Array ℕ → Pairs → Array (List ℕ) → Option (Array (List ℕ))
add_targets number [] gg = some gg
add_targets number ((x, y) ∷ pairs) gg =
    let rest = add_targets number pairs (store gg (number x) (gg (number x) ++ (number y ∷ []))) in
    if ltb (number x) max_nodes then rest else none

-- The number of nodes, their new numbers, and their targets. Where no number is stored, `pre_to_new_NUM` has
-- what `junk` says.
pub record Renumbered : Type 0 where
  pub v : List ℕ
  pub number : Array ℕ
  pub gg : Array (List ℕ)

unfoldable pub renumbered : Array ℕ → Pairs → Option Renumbered
unfolding sort_unique renumber add_targets
renumbered junk pairs =
    let v = sort_unique (ends pairs) in
    elim (renumber 0 v junk) [
      | none ↦ none
      | some number ↦ elim (add_targets number pairs (λ x. [])) [
        | none ↦ none
        | some gg ↦ some (record { v = v; number = number; gg = gg })
      ]
    ]
