-- ===== src/TfLabel/Removing.antt =====
-- The third loop of `construct` of include/algorithm/tflabel.hpp, part (c): the levels of the even nodes are
-- halved, and the odd nodes hand their labels on and are bridged and removed.
pub mod Bounded
pub mod Bridges
use network_algo.Prelude.{
  ℕ, zero, suc, ◌%◌, ◌/◌, Bool, true, false, Option, none, some, List, [], ◌∷◌, ◌++◌, Text, ◌==◌,
  if◌then◌else◌, codes, length,
}
use network_algo.Reflection.Compare.{Floats, Reflection}
use network_algo.Graph.IdSet
use network_algo.Graph.Storage.{LevelDb, Schema}
use network_algo.Graph.Operations.{Side, Graph, get_edge, set_node, set_edges_bundle}
use network_algo.Graph.Removal.{remove_node_directed}
use network_algo.Query.Iterator.{Result, ok, err, Fault, ◌>>=◌, ids_of}
use network_algo.Query.Iterator.Operators.{Cursor, dereference, increment, row_node}
use network_algo.TfLabel.{Array, store}
use network_algo.TfLabel.Names.{edge_name}
use network_algo.TfLabel.Labels.{insert_all, close_labels, unsplit}
use network_algo.TfLabel.Messages.{Messages, asserted, number_of, edge_of}

pub record Labelling : Type 0 where
  pub label_in : Array (List ℕ)
  pub label_out : Array (List ℕ)
  pub order : List ℕ

-- The labels of `y` go to `x`.
abbrev pub hand_on : ℕ → ℕ → Array (List ℕ) → Array (List ℕ)
hand_on y x labels = store labels x (insert_all (labels y) (labels x))

-- The loop over the edges out of node `x`, or into it: the nodes at their other ends, and the labels of `x`.
unfoldable pub gather_ends :
    {Edge : Type 0}
    → (Edge → Text)
    → ℕ
    → List Edge
    → List Text
    → Array (List ℕ)
    → Result (List Text × Array (List ℕ))
unfolding insert_all
gather_ends end x [] found labels = ok (found, labels)
gather_ends end x (e ∷ es) found labels = number_of (end e) >>= λ y.
    gather_ends end x es (IdSet.insert (end e) found) (hand_on y x labels)

-- The labels after part (c): those of the removed nodes, and then those of the components.
unfoldable pub settle : Array ℕ → ℕ → Labelling → Labelling
unfolding close_labels unsplit
settle fa scc_cnt labels =
    let count = length labels.order in
    record labels {
      label_in = unsplit fa scc_cnt (close_labels count labels.label_in);
      label_out = unsplit fa scc_cnt (close_labels count labels.label_out);
    }

module _ (level_db : LevelDb) (schema : Schema) (messages : Messages schema) where
  abbrev edges_of : List Text → Graph level_db → List schema.Edge
  edges_of [] g = []
  edges_of (e ∷ es) g = get_edge level_db schema e g ∷ edges_of es g

  -- For one target, an edge from each source.
  unfoldable pub bridges_to : Text → List Text → List schema.Edge
  unfolding edge_name
  bridges_to to [] = []
  bridges_to to (from ∷ sources) =
      edge_of messages (edge_name from to) from to messages.new_edge ∷ bridges_to to sources

  unfoldable pub bridges : List Text → List Text → List schema.Edge
  unfolding bridges_to
  bridges sources [] = []
  bridges sources (to ∷ targets) = bridges_to to sources ++ bridges sources targets

  -- What happens at an odd node up to `++it`.
  unfoldable pub bridge_node :
      schema.Node → Labelling → Graph level_db → Result (Labelling × Graph level_db)
  unfolding gather_ends bridges set_edges_bundle
  bridge_node a labels g = do
    ins ← ids_of level_db schema Side.incoming (schema.node_id a) g
    outs ← ids_of level_db schema Side.outgoing (schema.node_id a) ins.1
    x ← number_of (schema.node_id a)
    out_nodes ← gather_ends schema.to x (edges_of outs.0 outs.1) [] labels.label_in
    in_nodes ← gather_ends schema.from x (edges_of ins.0 outs.1) [] labels.label_out
    g' ← asserted (set_edges_bundle level_db schema true (bridges in_nodes.0 out_nodes.0) outs.1)
    ok (record labels { label_in = out_nodes.1; label_out = in_nodes.1 }, g')

  module _ (floats : Floats) (nodes : Reflection floats schema.Node)
      (edges : Reflection floats schema.Edge) (keys : level_db.Db → List Text) where
    abbrev Place : Type 0
    Place = Cursor floats level_db schema nodes edges keys

    abbrev on_graph : Graph level_db → Place → Place
    on_graph g c = let s = c.search in record c { search = record s { graph = g } }

    -- The loop, with bounds on its rounds and on those of the loops of `++`. The iterator moves on before the
    -- node is removed.
    unfoldable pub remove_from : ℕ → ℕ → Place → Labelling → Result (Labelling × Graph level_db)
    unfolding dereference row_node increment bridge_node remove_node_directed
    remove_from rounds zero c labels =
        if c.is_end then ok (labels, c.search.graph) else err Fault.out_of_rounds
    remove_from rounds (suc n) c labels = elim c.is_end [
      | true ↦ ok (labels, c.search.graph)
      | false ↦ do
        c₁ ← dereference floats level_db schema nodes edges keys c
        a ← row_node (codes "a") c₁.row
        elim (messages.level a % 2 == 0) [
          | true ↦ do
            c₂ ← increment floats level_db schema nodes edges keys rounds (
                on_graph
                  (set_node level_db schema (messages.set_level (messages.level a / 2) a)
                    c₁.search.graph)
                  c₁)
            remove_from rounds n c₂ labels
          | false ↦ do
            bridged ← bridge_node a labels c₁.search.graph
            c₂ ← increment floats level_db schema nodes edges keys rounds (on_graph bridged.1 c₁)
            x ← number_of (schema.node_id a)
            let labels' = record bridged.0 { order = bridged.0.order ++ (x ∷ []) }
            g' ← asserted (remove_node_directed level_db schema (schema.node_id a) c₂.search.graph)
            remove_from rounds n (on_graph g' c₂) labels'
        ]
    ]
