-- ===== src/TfLabel/Reading.antt =====
-- `read` of include/algorithm/tflabel.hpp: the strongly connected components of the graph in the file become
-- the nodes of the graph that is labelled. The pairs of the file are a list; the loop that only logs what the
-- graph holds is left out.
use network_algo.Prelude.{
  ℕ, zero, suc, ◌-◌, Option, none, some, List, [], ◌∷◌, ◌++◌, ◌==◌, if◌then◌else◌, leb, true,
  length,
}
use network_algo.Graph.Storage.{LevelDb, Schema}
use network_algo.Graph.Operations.{Graph, set_nodes_bundle, set_edges_bundle}
use network_algo.TfLabel.{Array, store}
use network_algo.TfLabel.Components.{find_scc}
use network_algo.TfLabel.Names.{to_string, edge_name}
use network_algo.TfLabel.Numbering.{Pairs, max_nodes, Renumbered, renumbered}
use network_algo.TfLabel.Messages.{Messages, edge_of}

-- The edges between different components, in the order in which the loops meet them: those of node `i`.
unfoldable pub leaving : Array ℕ → ℕ → List ℕ → List (ℕ × ℕ)
leaving sccno i [] = []
leaving sccno i (j ∷ js) =
    let rest = leaving sccno i js in
    let x = sccno i - 1 in let y = sccno j - 1 in if x == y then rest else (x, y) ∷ rest

-- And those of the nodes from `i` on.
unfoldable pub between : Array ℕ → Array (List ℕ) → ℕ → ℕ → List (ℕ × ℕ)
unfolding leaving
between sccno gg zero i = []
between sccno gg (suc rounds) i = leaving sccno i (gg i) ++ between sccno gg rounds (suc i)

-- `G[x].push_back(y)`
unfoldable pub push_targets : List (ℕ × ℕ) → Array (List ℕ) → Array (List ℕ)
push_targets [] g = g
push_targets ((x, y) ∷ edges) g = push_targets edges (store g x (g x ++ (y ∷ [])))

-- `fa[i] = i`
unfoldable pub own_fathers : ℕ → Array ℕ → Array ℕ
own_fathers zero fa = fa
own_fathers (suc i) fa = store (own_fathers i fa) i i

module _ (level_db : LevelDb) (schema : Schema) (messages : Messages schema) where
  -- What `read` leaves in the members of the class.
  pub record Input : Type 0 where
    pub graph : Graph level_db
    pub tot : ℕ
    pub scc_cnt : ℕ
    pub targets : Array (List ℕ)
    pub fa : Array ℕ

  -- A node for each node of the file from `i` on, under the number of its component.
  unfoldable pub component_nodes : Array ℕ → ℕ → ℕ → List schema.Node
  unfolding to_string
  component_nodes sccno zero i = []
  component_nodes sccno (suc rounds) i =
      messages.set_level 1 (messages.set_id (to_string (sccno i - 1)) messages.new_node)
      ∷ component_nodes sccno rounds (suc i)

  unfoldable pub component_edges : List (ℕ × ℕ) → List schema.Edge
  unfolding to_string edge_name
  component_edges [] = []
  component_edges ((x, y) ∷ edges) =
      edge_of messages (edge_name (to_string x) (to_string y)) (to_string x) (to_string y)
        messages.new_edge
      ∷ component_edges edges

  -- `read` from the search for components on, for which the arrays have `maxn` entries.
  unfoldable pub with_nodes : Array ℕ → Renumbered → Graph level_db → Option Input
  unfolding find_scc set_nodes_bundle set_edges_bundle between push_targets own_fathers
      component_nodes component_edges
  with_nodes fathers r g =
      let tot = length r.v in
      let done : Option Input = elim (find_scc r.gg tot) [
        | none ↦ none
        | some s ↦
            let edges = between s.sccno r.gg tot 0 in
            let stored = set_nodes_bundle level_db schema (component_nodes s.sccno tot 0) g in
            elim (set_edges_bundle level_db schema true (component_edges edges) stored) [
              | none ↦ none
              | some g' ↦ some (record {
                graph = g';
                tot = s.scc_cnt;
                scc_cnt = s.scc_cnt;
                targets = push_targets edges (λ x. []);
                fa = own_fathers s.scc_cnt fathers;
              })
            ]
      ] in
      if leb tot max_nodes then done else none

  -- `read`, with what the arrays without a first value hold. The first and the last number are logged, so a
  -- file without a pair is read out of bounds.
  unfoldable pub read : Array ℕ → Array ℕ → Pairs → Graph level_db → Option Input
  unfolding renumbered with_nodes
  read junk fathers [] g = none
  read junk fathers (pair ∷ pairs) g = elim (renumbered junk (pair ∷ pairs)) [
    | none ↦ none
    | some r ↦ with_nodes fathers r g
  ]
