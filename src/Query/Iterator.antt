-- ===== src/Query/Iterator.antt =====
-- The tests of include/backend/leveldbgraph_iterator.inc on a candidate, with assertions enabled.
-- The caches of the graph change with every test, so the graph is passed on.
pub mod Assertions
pub mod Ends
pub mod Found
pub mod Properties
pub mod Candidates
pub mod Search
pub mod Next
pub mod Operators
mod Queried
pub mod AllNodes
pub mod Results
mod Tests
mod Matches
use network_algo.Prelude.{
  ℕ, zero, suc, ◌+◌, ◌-◌, Bool, true, false, Option, none, some, List, [], ◌∷◌, Text, text_eq,
  get_elem?, ◌==◌, if◌then◌else◌, ◌||◌,
}
use network_algo.Dsl.Syntax.{EdgeDirection, GraphSqlSentence}
use network_algo.Reflection.Numbers.{Failure}
use network_algo.Graph.IdSet.{member}
use network_algo.Graph.Storage.{LevelDb, Schema}
use network_algo.Graph.Operations.{Side, Graph, get_ids, get_edge}
use network_algo.Query.Deduction.{DeductionTrait, is_node, is_edge, get_node_index, get_edge_index}

-- `at` out of range, the exceptions on an edge's direction and on an iterator at its end, an assertion
-- that fails, also one of LevelDB on a cursor behind the last key, the end of a function that returns
-- nothing, an `int` that overflows or is narrowed, the failures of a comparison, and too few rounds of a loop.
pub data Fault : Type 0 where
  out_of_range wrong_direction past_end assertion invalid_cursor no_return overflow out_of_rounds :
      Fault
  comparison : Failure → Fault

pub data Result (A : Type 0) : Type 0 where
  ok : A → Result A
  err : Fault → Result A

infixl 5 ◌>>=◌ ◌>>◌
abbrev pub ◌>>=◌ : {A B : Type 0} → Result A → (A → Result B) → Result B
ok a >>= f = f a
err e >>= f = err e

abbrev pub ◌>>◌ : {A B : Type 0} → Result A → Result B → Result B
m >> k = m >>= λ _. k

abbrev pub at : {A : Type 0} → List A → ℕ → Result A
at xs i = elim (get_elem? xs i) [ none ↦ err Fault.out_of_range | some x ↦ ok x ]

-- `getNodeIndex` and `getEdgeIndex` with their assertions, for a position that an `int` holds.
unfoldable pub node_index : ℕ → Result ℕ
unfolding is_node get_node_index
node_index idx =
    if is_node idx
    then elim (get_node_index idx) [ none ↦ err Fault.overflow | some i ↦ ok i ]
    else err Fault.assertion

unfoldable pub edge_index : ℕ → Result ℕ
unfolding is_edge get_edge_index
edge_index idx =
    if is_edge idx
    then elim (get_edge_index idx) [ none ↦ err Fault.overflow | some i ↦ ok i ]
    else err Fault.assertion

-- What an iterator knows of its query and of the candidate.
pub record Iterator : Type 0 where
  pub sql : GraphSqlSentence
  pub deduction_steps : List DeductionTrait
  pub nodes_id : List Text
  pub edges_id : List Text

-- `nodesId.at(getNodeIndex(idx))` and the like.
unfoldable pub node_at : Iterator → ℕ → Result Text
unfolding node_index
node_at it idx = do i ← node_index idx; at it.nodes_id i

unfoldable pub edge_at : Iterator → ℕ → Result Text
unfolding edge_index
edge_at it idx = do i ← edge_index idx; at it.edges_id i

unfoldable pub direction_at : Iterator → ℕ → Result EdgeDirection
unfolding edge_index
direction_at it idx = do i ← edge_index idx; edge ← at it.sql.first.edges i; ok edge.direction

-- `edgesId.at(getEdgeIndex(idx - 1))`. Before the first position stands -1 as an `int`, an edge with index 0.
unfoldable pub edge_before : Iterator → ℕ → Result Text
unfolding edge_at
edge_before it zero = at it.edges_id 0
edge_before it (suc idx) = edge_at it idx

-- Whether a node stands before a position.
unfoldable pub is_behind_node : ℕ → Bool
unfolding is_node
is_behind_node zero = false
is_behind_node (suc idx) = is_node idx

module _ (level_db : LevelDb) (schema : Schema) where
  -- `graph.getOutEdge` and `graph.getInEdge`
  abbrev pub ids_of : Side → Text → Graph level_db → Result (List Text × Graph level_db)
  ids_of side node g = elim (get_ids level_db schema side node g) [
    | none ↦ err Fault.assertion
    | some got ↦ ok got
  ]

  -- Whether the edge at `id` is in one of two sets, by its direction in the query.
  unfoldable pub is_entered : Iterator → ℕ → EdgeDirection → List Text → List Text → Result Bool
  unfolding edge_at
  is_entered it id EdgeDirection.bidirection next_set prev_set = err Fault.wrong_direction
  is_entered it id EdgeDirection.prev next_set prev_set = do
    edge ← edge_at it id
    ok (member edge prev_set)
  is_entered it id EdgeDirection.next next_set prev_set = do
    edge ← edge_at it id
    ok (member edge next_set)

  -- Whether a node is the one of two ends, by the direction of the edge in the query.
  unfoldable pub is_end : EdgeDirection → Text → Text → Text → Result Bool
  is_end EdgeDirection.bidirection next_end prev_end node = err Fault.wrong_direction
  is_end EdgeDirection.next next_end prev_end node = ok (text_eq next_end node)
  is_end EdgeDirection.prev next_end prev_end node = ok (text_eq prev_end node)

  -- The branches of the directed `checkLeftConstrained`.
  unfoldable pub edge_after_node : Iterator → ℕ → Graph level_db → Result (Bool × Graph level_db)
  unfolding node_at direction_at is_entered
  edge_after_node it id g = do
    node ← node_at it (id - 1)
    direction ← direction_at it id
    outs ← ids_of Side.outgoing node g
    ins ← ids_of Side.incoming node outs.1
    result ← is_entered it id direction outs.0 ins.0
    ok (result, ins.1)

  unfoldable pub node_after_edge : Iterator → ℕ → Graph level_db → Result (Bool × Graph level_db)
  unfolding node_at edge_before direction_at is_end
  node_after_edge it id g = do
    edge_id ← edge_before it id
    node ← node_at it id
    let edge = get_edge level_db schema edge_id g
    direction ← direction_at it id
    result ← is_end direction (schema.to edge) (schema.from edge) node
    ok (result, g)

  unfoldable pub check_left_constrained :
      Iterator → ℕ → Graph level_db → Result (Bool × Graph level_db)
  unfolding edge_after_node node_after_edge is_behind_node
  check_left_constrained it id g =
      if is_behind_node id then edge_after_node it id g else node_after_edge it id g

  -- The branches of the directed `checkRightConstrained`.
  unfoldable pub edge_before_node : Iterator → ℕ → Graph level_db → Result (Bool × Graph level_db)
  unfolding node_at direction_at is_entered
  edge_before_node it id g = do
    node ← node_at it (id + 1)
    direction ← direction_at it id
    outs ← ids_of Side.outgoing node g
    ins ← ids_of Side.incoming node outs.1
    result ← is_entered it id direction ins.0 outs.0
    ok (result, ins.1)

  unfoldable pub node_before_edge : Iterator → ℕ → Graph level_db → Result (Bool × Graph level_db)
  unfolding node_at edge_at direction_at is_end
  node_before_edge it id g = do
    edge_id ← edge_at it (id + 1)
    node ← node_at it id
    let edge = get_edge level_db schema edge_id g
    direction ← direction_at it (id + 1)
    result ← is_end direction (schema.from edge) (schema.to edge) node
    ok (result, g)

  unfoldable pub check_right_constrained :
      Iterator → ℕ → Graph level_db → Result (Bool × Graph level_db)
  unfolding edge_before_node node_before_edge is_node
  check_right_constrained it id g =
      if is_node (id + 1) then edge_before_node it id g else node_before_edge it id g

  -- The undirected tests, where the direction has to be `--`.
  unfoldable pub is_entered_undirected : Iterator → ℕ → EdgeDirection → List Text → Result Bool
  unfolding edge_at
  is_entered_undirected it id EdgeDirection.bidirection set = do
    edge ← edge_at it id
    ok (member edge set)
  is_entered_undirected it id EdgeDirection.prev set = err Fault.wrong_direction
  is_entered_undirected it id EdgeDirection.next set = err Fault.wrong_direction

  unfoldable pub is_end_undirected : EdgeDirection → Text → Text → Text → Result Bool
  is_end_undirected EdgeDirection.bidirection from to node =
      ok (text_eq from node || text_eq to node)
  is_end_undirected EdgeDirection.next from to node = err Fault.wrong_direction
  is_end_undirected EdgeDirection.prev from to node = err Fault.wrong_direction

  unfoldable pub edge_after_node_undirected :
      Iterator → ℕ → Graph level_db → Result (Bool × Graph level_db)
  unfolding node_at direction_at is_entered_undirected
  edge_after_node_undirected it id g = do
    node ← node_at it (id - 1)
    direction ← direction_at it id
    outs ← ids_of Side.outgoing node g
    result ← is_entered_undirected it id direction outs.0
    ok (result, outs.1)

  unfoldable pub node_after_edge_undirected :
      Iterator → ℕ → Graph level_db → Result (Bool × Graph level_db)
  unfolding node_at edge_before direction_at is_end_undirected
  node_after_edge_undirected it id g = do
    edge_id ← edge_before it id
    node ← node_at it id
    let edge = get_edge level_db schema edge_id g
    direction ← direction_at it id
    result ← is_end_undirected direction (schema.from edge) (schema.to edge) node
    ok (result, g)

  unfoldable pub check_left_constrained_undirected :
      Iterator → ℕ → Graph level_db → Result (Bool × Graph level_db)
  unfolding edge_after_node_undirected node_after_edge_undirected is_behind_node
  check_left_constrained_undirected it id g =
      if is_behind_node id
      then edge_after_node_undirected it id g
      else node_after_edge_undirected it id g

  unfoldable pub edge_before_node_undirected :
      Iterator → ℕ → Graph level_db → Result (Bool × Graph level_db)
  unfolding node_at direction_at is_entered_undirected
  edge_before_node_undirected it id g = do
    node ← node_at it (id + 1)
    direction ← direction_at it id
    outs ← ids_of Side.outgoing node g
    result ← is_entered_undirected it id direction outs.0
    ok (result, outs.1)

  unfoldable pub node_before_edge_undirected :
      Iterator → ℕ → Graph level_db → Result (Bool × Graph level_db)
  unfolding node_at edge_at direction_at is_end_undirected
  node_before_edge_undirected it id g = do
    edge_id ← edge_at it (id + 1)
    node ← node_at it id
    let edge = get_edge level_db schema edge_id g
    direction ← direction_at it (id + 1)
    result ← is_end_undirected direction (schema.from edge) (schema.to edge) node
    ok (result, g)

  unfoldable pub check_right_constrained_undirected :
      Iterator → ℕ → Graph level_db → Result (Bool × Graph level_db)
  unfolding edge_before_node_undirected node_before_edge_undirected is_node
  check_right_constrained_undirected it id g =
      if is_node (id + 1)
      then edge_before_node_undirected it id g
      else node_before_edge_undirected it id g
