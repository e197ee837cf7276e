-- ===== src/Query/Iterator/Search.antt =====
-- `searchPossible` of include/backend/leveldbgraph_iterator.inc, for the directed graph, and the
-- constructor that calls it. The recursion is on the deduction steps that are left.
pub mod Frame
pub mod Reads
pub mod Sound
pub mod Attempts
pub mod Pass
pub mod Linked
pub mod Match
pub mod MatchedNodes
pub mod Matched
use network_algo.Prelude.{
  ℕ, zero, suc, ◌+◌, ◌-◌, Bool, true, false, not, Option, none, some, List, [], ◌∷◌, Text, text_eq,
  length, ◌==◌, if◌then◌else◌,
}
use network_algo.Dsl.Syntax.{EdgeDirection, Properties, GraphSqlSentence}
use network_algo.Reflection.Compare.{Floats, Reflection}
use network_algo.Graph.IdSet.{member}
use network_algo.Graph.Keys.{Suffix, suffix_text}
use network_algo.Graph.Storage.{LevelDb, Schema}
use network_algo.Graph.Operations.{Side, Graph}
use network_algo.Query.Deduction.{
  ConstraintType, DeductionTrait, is_node, is_left_constrained, is_right_constrained, get_id_of,
}
use network_algo.Query.Iterator.{
  Result, ok, err, Fault, ◌>>=◌, Iterator, at, node_index, edge_index, node_at, direction_at,
  ids_of, check_left_constrained, check_right_constrained,
}
use network_algo.Query.Iterator.Ends.{get_node_id_from_left_edge, get_node_id_from_right_edge}
use network_algo.Query.Iterator.Properties.{is_self_constrained}
use network_algo.Query.Iterator.Candidates.{
  put_node, put_edge, ids_with_suffix, intersection, left_side, right_side, direct_id, blank,
}

module _ (floats : Floats) (level_db : LevelDb) (schema : Schema)
    (nodes : Reflection floats schema.Node) (edges : Reflection floats schema.Edge)
    (keys : level_db.Db → List Text) where
  -- The candidate, the graph with its caches, and the flag `found`.
  pub record Search : Type 0 where
    pub it : Iterator
    pub graph : Graph level_db
    pub found : Bool

  -- `&&`, with the graph passed on.
  abbrev pub and_also :
      Result (Bool × Graph level_db)
      → (Graph level_db → Result (Bool × Graph level_db))
      → Result (Bool × Graph level_db)
  and_also (err e) k = err e
  and_also (ok (true, g)) k = k g
  and_also (ok (false, g)) k = ok (false, g)

  -- `next`, if the test allows it.
  abbrev pub if_so :
      Result (Bool × Graph level_db) → (Search → Result Search) → Search → Result Search
  if_so (err e) next s = err e
  if_so (ok (true, g)) next s = next (record s { graph = g })
  if_so (ok (false, g)) next s = ok (record s { graph = g })

  unfoldable pub self : ℕ → Search → Result (Bool × Graph level_db)
  self id s = is_self_constrained floats level_db schema nodes edges s.it id s.graph >>= λ b.
      ok (b, s.graph)

  -- The test of a candidate that the query gives.
  unfoldable pub allowed : DeductionTrait → Search → Result (Bool × Graph level_db)
  unfolding self
  allowed dt s =
      and_also
        (and_also (self dt.id s) λ g.
          if is_left_constrained dt.constraint
          then check_left_constrained level_db schema s.it dt.id g
          else ok (true, g))
        λ g.
          if is_right_constrained dt.constraint
          then check_right_constrained level_db schema s.it dt.id g
          else ok (true, g)

  -- One candidate after the other, until one is found.
  unfoldable pub try_each :
      (Iterator → ℕ → Text → Result Iterator)
      → (Search → Result Search)
      → ℕ
      → List Text
      → Search
      → Result Search
  unfolding self
  try_each put next id [] s = ok s
  try_each put next id (x ∷ xs) s = do
    it ← put s.it id x
    let tried = record s { it = it }
    s' ← if_so (self id tried) next tried
    if s'.found then ok s' else try_each put next id xs s'

  -- A position that the query gives.
  unfoldable pub search_direct :
      (Iterator → ℕ → Text → Result Iterator)
      → Properties
      → (Search → Result Search)
      → DeductionTrait
      → Search
      → Result Search
  unfolding allowed
  search_direct put properties next dt s = do
    x ← direct_id properties
    it ← put s.it dt.id x
    let tried = record s { it = it }
    if_so (allowed dt tried) next tried

  -- A node with one candidate.
  unfoldable pub search_known : (Search → Result Search) → ℕ → Text → Search → Result Search
  unfolding put_node self
  search_known next id x s = do
    it ← put_node s.it id x
    let tried = record s { it = it }
    if_so (self id tried) next tried

  -- A node between two known edges. The other end is computed with the candidate in its place.
  unfoldable pub search_between : (Search → Result Search) → ℕ → Search → Result Search
  unfolding put_node self
  search_between next id s = do
    x ← get_node_id_from_left_edge level_db schema s.it id s.graph
    it ← put_node s.it id x
    y ← get_node_id_from_right_edge level_db schema it id s.graph
    let tried = record s { it = it }
    if text_eq x y then if_so (self id tried) next tried else ok tried

  unfoldable pub search_node :
      (Search → Result Search) → ConstraintType → ℕ → Search → Result Search
  unfolding search_known search_between try_each
  search_node next ConstraintType.left_constrained id s =
      get_node_id_from_left_edge level_db schema s.it id s.graph >>= λ x. search_known next id x s
  search_node next ConstraintType.right_constrained id s =
      get_node_id_from_right_edge level_db schema s.it id s.graph >>= λ x. search_known next id x s
  search_node next ConstraintType.both_constrained id s = search_between next id s
  search_node next ConstraintType.not_constrained id s =
      try_each put_node next id (ids_with_suffix (suffix_text Suffix.node_data) (keys s.graph.db)) s

  -- The edges of the node at the position before `id`, or behind it.
  unfoldable pub left_edges : ℕ → Search → Result (List Text × Graph level_db)
  left_edges id s = do
    direction ← direction_at s.it id
    node ← node_at s.it (id - 1)
    ids_of level_db schema (left_side direction) node s.graph

  unfoldable pub right_edges : ℕ → Search → Result (List Text × Graph level_db)
  right_edges id s = do
    direction ← direction_at s.it id
    node ← node_at s.it (id + 1)
    ids_of level_db schema (right_side direction) node s.graph

  unfoldable pub search_edge :
      (Search → Result Search) → ConstraintType → ℕ → Search → Result Search
  unfolding left_edges right_edges try_each
  search_edge next ConstraintType.left_constrained id s =
      left_edges id s >>= λ got. try_each put_edge next id got.0 (record s { graph = got.1 })
  search_edge next ConstraintType.right_constrained id s =
      right_edges id s >>= λ got. try_each put_edge next id got.0 (record s { graph = got.1 })
  search_edge next ConstraintType.both_constrained id s = do
    lefts ← left_edges id s
    rights ← right_edges id (record s { graph = lefts.1 })
    try_each put_edge next id (intersection lefts.0 rights.0) (record s { graph = rights.1 })
  search_edge next ConstraintType.not_constrained id s =
      try_each put_edge next id (ids_with_suffix (suffix_text Suffix.edge_data) (keys s.graph.db)) s

  -- One step, with the search of the further steps handed in.
  unfoldable pub search_node_step :
      (Search → Result Search) → DeductionTrait → Search → Result Search
  unfolding search_direct search_node
  search_node_step next dt s = do
    i ← node_index dt.id
    query ← at s.it.sql.first.nodes i
    if dt.direct
        then (search_direct put_node query.properties next dt s)
        else (search_node next dt.constraint dt.id s)

  unfoldable pub search_edge_step :
      (Search → Result Search) → DeductionTrait → Search → Result Search
  unfolding search_direct search_edge
  search_edge_step next dt s = do
    i ← edge_index dt.id
    query ← at s.it.sql.first.edges i
    if dt.direct
        then (search_direct put_edge query.properties next dt s)
        else (search_edge next dt.constraint dt.id s)

  unfoldable pub search_position :
      (Search → Result Search) → DeductionTrait → Search → Result Search
  unfolding search_node_step search_edge_step
  search_position next dt s =
      if is_node dt.id then search_node_step next dt s else search_edge_step next dt s

  -- `searchPossible`
  unfoldable pub search_possible : List DeductionTrait → Search → Result Search
  unfolding search_position
  search_possible [] s = ok (record s { found = true })
  search_possible (dt ∷ steps) s =
      if s.found then ok s else search_position (search_possible steps) dt s

  -- The constructor of an iterator over the result of a query. Beside the search it has `isEnd`.
  unfoldable pub open_iterator :
      GraphSqlSentence → List DeductionTrait → Graph level_db → Result (Search × Bool)
  unfolding search_possible
  open_iterator gs steps g = do
    let it : Iterator = record {
      sql = gs;
      deduction_steps = steps;
      nodes_id = blank gs.first.nodes;
      edges_id = blank gs.first.edges;
    }
    s ← search_possible steps (record { it = it; graph = g; found = false })
    ok (s, not s.found)
