-- ===== src/Graph/Removal.antt =====
-- `removeEdge` and `removeNode` of `LevelDbGraph`, include/backend/leveldbgraph.hpp.
pub mod Refinement
use network_algo.Prelude.{
  Bool, true, false, Option, none, some, List, [], ◌∷◌, Text, text_eq, if◌then◌else◌, not, ◌&&◌,
}
use network_algo.Graph.Keys.{Suffix, add_suffix}
use network_algo.Graph.Storage.{LevelDb, Schema}
use network_algo.Graph.Operations.{Side, Graph, second_side, ◌>>=◌, leave_id, get_ids, get_edge}

module _ (level_db : LevelDb) (schema : Schema) where
  -- The sets at the ends of an edge that is there.
  unfoldable pub leave_ends :
      Bool
      → schema.Edge
      → Text
      → Bool
      → Bool
      → level_db.Batch
      → Graph level_db
      → Option (level_db.Batch × Graph level_db)
  leave_ends directed edge id update_from_node update_to_node b g = do
    at_from ←
        if update_from_node
        then leave_id level_db schema Side.outgoing (schema.from edge) id b g
        else some (b, g)
    if update_to_node
        then leave_id level_db schema (second_side directed) (schema.to edge) id at_from.0 at_from.1
        else some at_from

  -- `removeEdgeImpl` up to the commit. No batch is the return before it.
  unfoldable pub update_ends :
      Bool
      → Text
      → Bool
      → Bool
      → level_db.Batch
      → Graph level_db
      → Option (Option level_db.Batch × Graph level_db)
  unfolding leave_ends
  update_ends directed id update_from_node update_to_node b g =
      if not update_from_node && not update_to_node
      then some (none, record g { db = level_db.delete (add_suffix id Suffix.edge_data) g.db })
      else elim (level_db.get (add_suffix id Suffix.edge_data) g.db) [
        | none ↦ some (none, g)
        | some raw ↦ do
          left ← leave_ends directed (schema.decode_edge raw) id update_from_node update_to_node b g
          some (some left.0, left.1)
      ]

  -- `removeEdgeImpl` with the caller's batch
  unfoldable pub remove_edge_batched :
      Bool
      → Text
      → Bool
      → Bool
      → level_db.Batch
      → Graph level_db
      → Option (level_db.Batch × Graph level_db)
  unfolding update_ends
  remove_edge_batched directed id update_from_node update_to_node b g = do
    done ← update_ends directed id update_from_node update_to_node b g
    elim done.0 [ none ↦ some (b, done.1) | some b' ↦ some (b', done.1) ]

  -- `removeEdgeImpl` with its own batch
  unfoldable pub remove_edge_impl :
      Bool → Text → Bool → Bool → Graph level_db → Option (Graph level_db)
  unfolding update_ends
  remove_edge_impl directed id update_from_node update_to_node g = do
    done ← update_ends directed id update_from_node update_to_node level_db.no_batch g
    elim done.0 [
      | none ↦ some done.1
      | some b ↦ some (record done.1 { db = level_db.write b done.1.db })
    ]

  unfoldable pub remove_edge : Bool → Text → Graph level_db → Option (Graph level_db)
  unfolding remove_edge_impl
  remove_edge directed id g = remove_edge_impl directed id true true g

  -- The loops of `removeNode` over the ids of a directed graph's sets
  unfoldable pub leave_each :
      Bool
      → Bool
      → List Text
      → level_db.Batch
      → Graph level_db
      → Option (level_db.Batch × Graph level_db)
  unfolding remove_edge_batched
  leave_each update_from_node update_to_node [] b g = some (b, g)
  leave_each update_from_node update_to_node (id ∷ ids) b g = do
    done ← remove_edge_batched true id update_from_node update_to_node b g
    leave_each update_from_node update_to_node ids done.0 done.1

  -- The loop over the ids of an undirected graph's node
  unfoldable pub leave_others :
      Text → List Text → level_db.Batch → Graph level_db → Option (level_db.Batch × Graph level_db)
  unfolding remove_edge_batched
  leave_others node [] b g = some (b, g)
  leave_others node (id ∷ ids) b g = do
    let at_from = text_eq node (schema.from (get_edge level_db schema id g))
    done ← remove_edge_batched false id (not at_from) at_from b g
    leave_others node ids done.0 done.1

  unfoldable pub remove_node_directed : Text → Graph level_db → Option (Graph level_db)
  unfolding leave_each
  remove_node_directed node g = do
    in_set ←
        get_ids level_db schema Side.incoming node
          (record g { db = level_db.delete (add_suffix node Suffix.node_data) g.db })
    ins ← leave_each true false in_set.0 level_db.no_batch in_set.1
    out_set ← get_ids level_db schema Side.outgoing node ins.1
    outs ← leave_each false true out_set.0 ins.0 out_set.1
    some (record outs.1 { db = level_db.write outs.0 outs.1.db })

  unfoldable pub remove_node_undirected : Text → Graph level_db → Option (Graph level_db)
  unfolding leave_others
  remove_node_undirected node g = do
    out_set ←
        get_ids level_db schema Side.outgoing node
          (record g { db = level_db.delete (add_suffix node Suffix.node_data) g.db })
    outs ← leave_others node out_set.0 level_db.no_batch out_set.1
    some (record outs.1 { db = level_db.write outs.0 outs.1.db })
