-- ===== src/TfLabel/Construct.antt =====
-- `construct` of include/algorithm/tflabel.hpp, and `preprocess`. The loops over nodes have bounds on their rounds,
-- of which too small ones end in a fault of their own.
use network_algo.Prelude.{ℕ, zero, suc, none, some, List, [], ◌∷◌, Text, codes}
use network_algo.Reflection.Compare.{Floats, Reflection}
use network_algo.Dsl.Syntax.{GraphSqlSentence}
use network_algo.Graph.Storage.{LevelDb, Schema}
use network_algo.Graph.Operations.{Side, Graph, set_node}
use network_algo.Query.Iterator.{Result, ok, err, Fault, ◌>>=◌, ids_of}
use network_algo.Query.Iterator.Operators.{query, for_each_from}
use network_algo.Query.Iterator.AllNodes.OneNode.{one_node}
use network_algo.TfLabel.{Array}
use network_algo.TfLabel.Labels.{own_labels}
use network_algo.TfLabel.Toposort.{toposort}
use network_algo.TfLabel.Messages.{Messages, index_of}
use network_algo.TfLabel.Reading.{Input}
use network_algo.TfLabel.Splitting.{Fathers, split_out, split_in, split_node}
use network_algo.TfLabel.Removing.{Labelling, remove_from, settle}

-- `select (a) return a`
abbrev pub all_nodes : GraphSqlSentence
all_nodes = one_node (codes "a") [] (codes "a" ∷ [])

module _ (floats : Floats) (level_db : LevelDb) (schema : Schema)
    (nodes : Reflection floats schema.Node) (edges : Reflection floats schema.Edge)
    (keys : level_db.Db → List Text) (messages : Messages schema) (rounds n : ℕ) where
  -- A loop over all nodes.
  unfoldable pub for_each_node :
      {A : Type 0}
      → (A → schema.Node → Graph level_db → Result (A × Graph level_db))
      → A
      → Graph level_db
      → Result (A × Graph level_db)
  unfolding query for_each_from
  for_each_node body a g = query floats level_db schema nodes edges keys all_nodes g >>= λ c.
      for_each_from floats level_db schema nodes edges keys (codes "a") body rounds n c a

  -- The first loop: every node has its level from `toposort`.
  unfoldable pub write_level :
      Array ℕ → Unit {0} → schema.Node → Graph level_db → Result (Unit {0} × Graph level_db)
  unfolding set_node
  write_level tln u a g = do
    x ← index_of (schema.node_id a)
    ok (u, set_node level_db schema (messages.set_level (tln x) a) g)

  -- The last loop of a round, which logs.
  unfoldable pub log_edges :
      Unit {0} → schema.Node → Graph level_db → Result (Unit {0} × Graph level_db)
  log_edges u a g =
      ids_of level_db schema Side.outgoing (schema.node_id a) g >>= λ read. ok (u, read.1)

  -- What a round of the loop over `ii` has.
  pub record Build : Type 0 where
    pub fathers : Fathers
    pub labels : Labelling
    pub graph : Graph level_db

  unfoldable pub build_round : ℕ → Build → Result Build
  unfolding for_each_node split_node split_out split_in remove_from settle log_edges
  build_round scc_cnt b = do
    outs ←
        for_each_node
          (split_node level_db schema messages Side.outgoing (split_out level_db schema messages))
          b.fathers b.graph
    ins ←
        for_each_node
          (split_node level_db schema messages Side.incoming (split_in level_db schema messages))
          outs.0 outs.1
    c ← query floats level_db schema nodes edges keys all_nodes ins.1
    removed ← remove_from level_db schema messages floats nodes edges keys rounds n c b.labels
    logged ← for_each_node log_edges tt removed.1
    ok (record { fathers = ins.0; labels = settle ins.0.1 scc_cnt removed.0; graph = logged.1 })

  unfoldable pub build_rounds : ℕ → ℕ → Build → Result Build
  unfolding build_round
  build_rounds zero scc_cnt b = ok b
  build_rounds (suc ii) scc_cnt b = build_round scc_cnt b >>= λ b'. build_rounds ii scc_cnt b'

  -- `construct`, for the levels `tln` and the number `tf` of rounds
  unfoldable pub construct : Array ℕ → ℕ → Input level_db schema messages → Result Build
  unfolding for_each_node write_level build_rounds own_labels
  construct tln tf input = do
    levelled ← for_each_node (write_level tln) tt input.graph
    seven ← ids_of level_db schema Side.outgoing (codes "7") levelled.1
    build_rounds tf input.scc_cnt (record {
      fathers = (input.tot, input.fa);
      labels = record {
        label_in = own_labels input.tot (λ x. []);
        label_out = own_labels input.tot (λ x. []);
        order = [];
      };
      graph = seven.1;
    })

  -- `preprocess`
  unfoldable pub preprocess : (ℕ → ℕ) → Input level_db schema messages → Result Build
  unfolding toposort construct
  preprocess log2 input = elim (toposort log2 input.tot input.targets) [
    | none ↦ err Fault.out_of_rounds
    | some (s, tf) ↦ construct s.tln tf input
  ]
