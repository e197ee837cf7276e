-- ===== src/TfLabel/Messages.antt =====
-- The messages TFLabelNode and TFLabelEdge of include/algorithm/tflabel.proto, which the build generates, as
-- a parameter beside the schema of the graph; and calls of the graph that include/algorithm/tflabel.hpp makes.
use network_algo.Prelude.{ℕ, ◌≡◌, Option, none, some, Text}
use network_algo.Graph.Storage.{Schema}
use network_algo.Query.Iterator.{Result, ok, err, Fault}
use network_algo.TfLabel.Findfa.{findfa}
use network_algo.TfLabel.Names.{atoi}

-- The setters and what the accessors read afterwards. No level is negative.
pub record Messages (schema : Schema) : Type 0 where
  pub new_node : schema.Node
  pub level : schema.Node → ℕ
  pub set_id : Text → schema.Node → schema.Node
  pub set_level : ℕ → schema.Node → schema.Node
  pub new_edge : schema.Edge
  pub set_edge_id : Text → schema.Edge → schema.Edge
  pub set_from : Text → schema.Edge → schema.Edge
  pub set_to : Text → schema.Edge → schema.Edge
  pub id-set_id : (x : Text) (n : schema.Node) → schema.node_id (set_id x n) ≡ x
  pub id-set_level : (l : ℕ) (n : schema.Node) → schema.node_id (set_level l n) ≡ schema.node_id n
  pub level-set_id : (x : Text) (n : schema.Node) → level (set_id x n) ≡ level n
  pub level-set_level : (l : ℕ) (n : schema.Node) → level (set_level l n) ≡ l
  pub from-set_from : (x : Text) (e : schema.Edge) → schema.from (set_from x e) ≡ x
  pub from-set_to : (x : Text) (e : schema.Edge) → schema.from (set_to x e) ≡ schema.from e
  pub to-set_to : (x : Text) (e : schema.Edge) → schema.to (set_to x e) ≡ x
  pub id-set_edge_id : (x : Text) (e : schema.Edge) → schema.edge_id (set_edge_id x e) ≡ x
  pub id-set_from : (x : Text) (e : schema.Edge) → schema.edge_id (set_from x e) ≡ schema.edge_id e
  pub id-set_to : (x : Text) (e : schema.Edge) → schema.edge_id (set_to x e) ≡ schema.edge_id e

-- A function of the graph in which an assertion fails.
abbrev pub asserted : {A : Type 0} → Option A → Result A
asserted none = err Fault.assertion
asserted (some a) = ok a

-- The number of a node, which overflows an `int` or is no index.
abbrev pub number_of : Text → Result ℕ
number_of id = elim (findfa id) [ none ↦ err Fault.overflow | some x ↦ ok x ]

abbrev pub index_of : Text → Result ℕ
index_of id = elim (atoi id) [ none ↦ err Fault.overflow | some x ↦ ok x ]

module _ {schema : Schema} (messages : Messages schema) where
  -- `set_id`, `set_from` and `set_to`, one after the other.
  abbrev pub edge_of : Text → Text → Text → schema.Edge → schema.Edge
  edge_of id from to e = messages.set_to to (messages.set_from from (messages.set_edge_id id e))
