-- ===== src/Query/Iterator/Candidates.antt =====
-- The candidates of `searchPossible` in include/backend/leveldbgraph_iterator.inc, and where they are put.
use network_algo.Prelude.{
  ℕ, zero, suc, Option, none, some, List, [], ◌∷◌, Text, ◌==◌, if◌then◌else◌,
}
use network_algo.Dsl.Syntax.{EdgeDirection, Properties}
use network_algo.Graph.IdSet.{member}
use network_algo.Graph.Operations.{Side}
use network_algo.Query.Deduction.{get_id_of}
use network_algo.Query.Iterator.{Result, ok, err, Fault, ◌>>=◌, Iterator, node_index, edge_index}

-- `at(i) = x`
unfoldable pub set_at : List Text → ℕ → Text → Result (List Text)
set_at [] i x = err Fault.out_of_range
set_at (y ∷ ys) zero x = ok (x ∷ ys)
set_at (y ∷ ys) (suc i) x = set_at ys i x >>= λ rest. ok (y ∷ rest)

unfoldable pub put_node : Iterator → ℕ → Text → Result Iterator
unfolding set_at node_index
put_node it id x = do
  i ← node_index id
  ids ← set_at it.nodes_id i x
  ok (record it { nodes_id = ids })

unfoldable pub put_edge : Iterator → ℕ → Text → Result Iterator
unfolding set_at edge_index
put_edge it id x = do
  i ← edge_index id
  ids ← set_at it.edges_id i x
  ok (record it { edges_id = ids })

-- The text behind a prefix, if it is one.
unfoldable pub after_prefix : Text → Text → Option Text
after_prefix [] s = some s
after_prefix (c ∷ p) [] = none
after_prefix (c ∷ p) (d ∷ s) = if c == d then after_prefix p s else none

-- `key.substr(0, key.find(suffix))`, if the suffix is found.
unfoldable pub before_suffix : Text → Text → Option Text
unfolding after_prefix
before_suffix suffix [] = elim (after_prefix suffix []) [ none ↦ none | some s ↦ some [] ]
before_suffix suffix (c ∷ key) = elim (after_prefix suffix (c ∷ key)) [
  | some s ↦ some []
  | none ↦ elim (before_suffix suffix key) [ none ↦ none | some front ↦ some (c ∷ front) ]
]

-- The ids whose keys have the suffix, in the order of the keys.
unfoldable pub ids_with_suffix : Text → List Text → List Text
unfolding before_suffix
ids_with_suffix suffix [] = []
ids_with_suffix suffix (key ∷ keys) =
    let rest = ids_with_suffix suffix keys in
    elim (before_suffix suffix key) [ none ↦ rest | some id ↦ id ∷ rest ]

-- `std::set_intersection`
unfoldable pub intersection : List Text → List Text → List Text
intersection [] ys = []
intersection (x ∷ xs) ys = let rest = intersection xs ys in if member x ys then x ∷ rest else rest

-- On which side of the node before an edge, and of the node behind it, the edge is looked for.
unfoldable pub left_side : EdgeDirection → Side
left_side EdgeDirection.next = Side.outgoing
left_side EdgeDirection.bidirection = Side.outgoing
left_side EdgeDirection.prev = Side.incoming

unfoldable pub right_side : EdgeDirection → Side
right_side EdgeDirection.prev = Side.outgoing
right_side EdgeDirection.bidirection = Side.outgoing
right_side EdgeDirection.next = Side.incoming

-- `getId`, which throws for an empty value.
abbrev pub direct_id : Properties → Result Text
direct_id properties = elim (get_id_of properties) [
  | none ↦ err Fault.out_of_range
  | some id ↦ ok id
]

-- `resize`: as many empty ids as there are parts of the pattern.
abbrev pub blank : {A : Type 0} → List A → List Text
blank [] = []
blank (x ∷ xs) = [] ∷ blank xs
