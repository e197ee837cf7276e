-- ===== src/Query/Iterator/Operators.antt =====
-- The operators of an iterator over the results of a query, include/backend/leveldbgraph_iterator.inc, for
-- the directed graph, and the loop of a client from the first result to the end.
use network_algo.Prelude.{
  ℕ, zero, suc, ◌+◌, ◌-◌, ◌*◌, Bool, true, false, not, none, some, List, [], ◌∷◌, Text, text_eq,
  Text_eq, length, take, if◌then◌else◌, ◌&&◌,
}
use mathlib.Core.List.{reverse}
use network_algo.Containers.Assoc.{lookup, erase}
use network_algo.Dsl.Syntax.{GraphSqlSentence}
use network_algo.Graph.IdSet.{member}
use network_algo.Reflection.Compare.{Floats, Reflection}
use network_algo.Graph.Storage.{LevelDb, Schema}
use network_algo.Graph.Operations.{Graph, get_node, get_edge}
use network_algo.Query.Deduction.{DeductionTrait, is_node, generate_deduction_steps}
use network_algo.Query.Iterator.{
  Result, ok, err, Fault, ◌>>=◌, at, node_index, edge_index, node_at, edge_at,
}
use network_algo.Query.Iterator.Search.{Search, open_iterator}
use network_algo.Query.Iterator.Next.{find_next_possible}

-- `LevelDbGraphResult`
pub record Row (schema : Schema) : Type 0 where
  pub nodes : List (Text × schema.Node)
  pub edges : List (Text × schema.Edge)

-- `m[k] = v`
abbrev pub assign : {A : Type 0} → Text → A → List (Text × A) → List (Text × A)
assign k v m = (k, v) ∷ erase k m

-- The two loops of `operator==` over the ids.
unfoldable pub same_ids : List Text → List Text → Bool
same_ids [] [] = true
same_ids [] (y ∷ ys) = false
same_ids (x ∷ xs) [] = false
same_ids (x ∷ xs) (y ∷ ys) = if text_eq y x then same_ids xs ys else false

-- `getNode` of a result, which asserts that the name is there.
unfoldable pub row_node : {schema : Schema} → Text → Row schema → Result schema.Node
row_node name row = elim (lookup name row.nodes) [
  | none ↦ err Fault.assertion
  | some node ↦ ok node
]

module _ (floats : Floats) (level_db : LevelDb) (schema : Schema)
    (nodes : Reflection floats schema.Node) (edges : Reflection floats schema.Edge)
    (keys : level_db.Db → List Text) where
  abbrev pub S : Type 0
  S = Search floats level_db schema nodes edges keys

  pub record Cursor : Type 0 where
    pub search : S
    pub is_end : Bool
    pub row : Row schema

  -- The steps that `findNextPossible` goes back over from the given end of the pattern.
  abbrev pub steps_back : S → List DeductionTrait
  steps_back s = reverse (take (length s.it.nodes_id * 2 - 1) s.it.deduction_steps)

  -- `operator++`
  unfoldable pub increment : ℕ → Cursor → Result Cursor
  unfolding find_next_possible
  increment rounds c =
      if c.is_end
      then err Fault.past_end
      else find_next_possible floats level_db schema nodes edges keys rounds (steps_back c.search)
          c.search
        >>= λ moved. ok (record c { search = moved.1; is_end = not moved.0 })

  -- `graph.getNode` for a result
  abbrev pub stored_node : Text → Graph level_db → Result schema.Node
  stored_node id g = elim (get_node level_db schema id g) [
    | none ↦ err Fault.assertion
    | some node ↦ ok node
  ]

  -- A round of the loop of `operator*`.
  unfoldable pub fill_node : ℕ → S → Row schema → Result (Row schema)
  unfolding node_index node_at member
  fill_node i s row = do
    k ← node_index i
    query ← at s.it.sql.first.nodes k
    if not (text_eq query.id []) && member query.id s.it.sql.second.return_name
        then (do
          id ← node_at s.it i
          node ← stored_node id s.graph
          ok (record row { nodes = assign query.id node row.nodes }))
        else ok row

  unfoldable pub fill_edge : ℕ → S → Row schema → Result (Row schema)
  unfolding edge_index edge_at member
  fill_edge i s row = do
    k ← edge_index i
    query ← at s.it.sql.first.edges k
    if not (text_eq query.id []) && member query.id s.it.sql.second.return_name
        then (do
          id ← edge_at s.it i
          ok (record row {
            edges = assign query.id (get_edge level_db schema id s.graph) row.edges;
          }))
        else ok row

  -- The rounds from `i` on.
  unfoldable pub fill : ℕ → ℕ → S → Row schema → Result (Row schema)
  unfolding fill_node fill_edge
  fill zero i s row = ok row
  fill (suc n) i s row =
      (if is_node i then fill_node i s row else fill_edge i s row) >>= λ row'. fill n (i + 1) s row'

  -- `operator*` and `operator->`. The result is kept in the iterator. A pattern has a node.
  unfoldable pub dereference : Cursor → Result Cursor
  unfolding fill
  dereference c =
      if c.is_end
      then err Fault.past_end
      else fill (length c.search.it.nodes_id * 2 - 1) 0 c.search c.row >>= λ row.
          ok (record c { row = row })

  -- `operator==`
  unfoldable pub equals : Cursor → Cursor → Bool
  unfolding same_ids
  equals c d =
      if c.is_end
      then d.is_end
      else if d.is_end
      then false
      else same_ids c.search.it.nodes_id d.search.it.nodes_id
        && same_ids c.search.it.edges_id d.search.it.edges_id

  -- `query`. Without deduction steps the constructor has thrown.
  unfoldable pub query : GraphSqlSentence → Graph level_db → Result Cursor
  unfolding generate_deduction_steps open_iterator
  query gs g = elim (generate_deduction_steps gs) [
    | none ↦ err Fault.out_of_range
    | some steps ↦ do
      opened ← open_iterator floats level_db schema nodes edges keys gs steps g
      ok (record { search = opened.0; is_end = opened.1; row = record { nodes = []; edges = [] } })
  ]

  -- What a loop has: where it stands, and what it has computed.
  abbrev pub Body : Type 0 → Type 0
  Body A = A → schema.Node → Graph level_db → Result (A × Graph level_db)

  -- `for (it = graph.query(...); it != graph.end(); ++it)` over the nodes of one name. The body may write to
  -- the graph.
  unfoldable pub for_each_from :
      {A : Type 0} → Text → Body A → ℕ → ℕ → Cursor → A → Result (A × Graph level_db)
  unfolding dereference increment row_node
  for_each_from name body rounds zero c a =
      if c.is_end then ok (a, c.search.graph) else err Fault.out_of_rounds
  for_each_from name body rounds (suc n) c a = elim c.is_end [
    | true ↦ ok (a, c.search.graph)
    | false ↦ do
      c₁ ← dereference c
      node ← row_node name c₁.row
      done ← body a node c₁.search.graph
      let s = c₁.search
      c₂ ← increment rounds (record c₁ { search = record s { graph = done.1 } })
      for_each_from name body rounds n c₂ done.0
  ]
