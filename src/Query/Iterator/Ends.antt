-- ===== src/Query/Iterator/Ends.antt =====
-- How include/backend/leveldbgraph_iterator.inc finds the node at an end of an edge that is known.
use network_algo.Prelude.{
  ℕ, suc, ◌+◌, ◌-◌, Bool, true, false, List, [], ◌∷◌, Text, text_eq, take, length, ◌==◌,
  if◌then◌else◌,
}
use network_algo.Dsl.Syntax.{EdgeDirection}
use network_algo.Graph.Storage.{LevelDb, Schema}
use network_algo.Graph.Operations.{Graph, get_edge}
use network_algo.Query.Deduction.{DeductionTrait, is_node}
use network_algo.Query.Iterator.{
  Result, ok, err, Fault, ◌>>=◌, ◌>>◌, Iterator, node_at, edge_at, direction_at,
}

-- The place of the first step that is about a node which is the given one, or the number of steps.
unfoldable pub find_node : Iterator → Text → List DeductionTrait → Result ℕ
unfolding is_node node_at
find_node it node [] = ok 0
find_node it node (dt ∷ steps) =
    let rest = find_node it node steps >>= λ n. ok (suc n) in
    if is_node dt.id
    then (node_at it dt.id >>= λ known. if text_eq known node then ok 0 else rest)
    else rest

-- `hasNodeIdFoundBefore` looks at the first `ded_idx` steps and compares with the end of all steps.
unfoldable pub has_node_id_found_before : Iterator → Text → ℕ → Result Bool
unfolding find_node
has_node_id_found_before it node ded_idx = do
  n ← find_node it node (take ded_idx it.deduction_steps)
  ok (if n == length it.deduction_steps then false else true)

-- The place of the first step about a position, or the number of steps.
unfoldable pub find_ded_idx_by_id : ℕ → List DeductionTrait → ℕ
find_ded_idx_by_id query_id [] = 0
find_ded_idx_by_id query_id (dt ∷ steps) =
    let rest = find_ded_idx_by_id query_id steps in if dt.id == query_id then 0 else suc rest

-- Which end a directed edge gives.
unfoldable pub end_of : EdgeDirection → Text → Text → Result Text
end_of EdgeDirection.next from to = ok to
end_of EdgeDirection.prev from to = ok from
end_of EdgeDirection.bidirection from to = err Fault.wrong_direction

-- The exception of an undirected graph's edge.
unfoldable pub only_bidirection : EdgeDirection → Result (Unit {0})
only_bidirection EdgeDirection.next = err Fault.wrong_direction
only_bidirection EdgeDirection.prev = err Fault.wrong_direction
only_bidirection EdgeDirection.bidirection = ok tt

module _ (level_db : LevelDb) (schema : Schema) where
  -- `getNodeIdFromLeftEdge`, directed, for a node above 0
  unfoldable pub get_node_id_from_left_edge : Iterator → ℕ → Graph level_db → Result Text
  unfolding edge_at direction_at end_of
  get_node_id_from_left_edge it node_id g = do
    edge_id ← edge_at it (node_id - 1)
    let prev_edge = get_edge level_db schema edge_id g
    direction ← direction_at it (node_id - 1)
    end_of direction (schema.from prev_edge) (schema.to prev_edge)

  -- `getNodeIdFromRightEdge`, directed
  unfoldable pub get_node_id_from_right_edge : Iterator → ℕ → Graph level_db → Result Text
  unfolding edge_at direction_at end_of
  get_node_id_from_right_edge it node_id g = do
    edge_id ← edge_at it (node_id + 1)
    let next_edge = get_edge level_db schema edge_id g
    direction ← direction_at it (node_id + 1)
    end_of direction (schema.from next_edge) (schema.to next_edge)

  -- The end of an undirected edge that was not found before the step about position `node_id + 1`.
  unfoldable pub other_end : Iterator → ℕ → schema.Edge → Result Text
  unfolding has_node_id_found_before find_ded_idx_by_id
  other_end it node_id edge = do
    found ←
        has_node_id_found_before it (schema.from edge)
          (find_ded_idx_by_id (node_id + 1) it.deduction_steps)
    ok (if found then schema.to edge else schema.from edge)

  unfoldable pub get_node_id_from_left_edge_undirected : Iterator → ℕ → Graph level_db → Result Text
  unfolding edge_at direction_at only_bidirection other_end
  get_node_id_from_left_edge_undirected it node_id g = do
    edge_id ← edge_at it (node_id - 1)
    let prev_edge = get_edge level_db schema edge_id g
    direction ← direction_at it (node_id - 1)
    only_bidirection direction
    other_end it node_id prev_edge

  unfoldable pub get_node_id_from_right_edge_undirected :
      Iterator → ℕ → Graph level_db → Result Text
  unfolding edge_at direction_at only_bidirection other_end
  get_node_id_from_right_edge_undirected it node_id g = do
    edge_id ← edge_at it (node_id + 1)
    let prev_edge = get_edge level_db schema edge_id g
    direction ← direction_at it (node_id + 1)
    only_bidirection direction
    other_end it node_id prev_edge
