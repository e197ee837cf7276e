-- ===== src/TfLabel/Splitting/Invariant.antt =====
-- The array `fa` of include/algorithm/tflabel.hpp while edges are split: it gives each node the component of which
-- it is a part.
use network_algo.Prelude.{ℕ, ◌≤◌, ◌<◌, Text}
use network_algo.Graph.Storage.{LevelDb, Schema}
use network_algo.Graph.Operations.{Graph}
use network_algo.Query.Iterator.{Result}
use network_algo.Query.Iterator.Search.Frame.{Ensures}
use network_algo.TfLabel.Messages.{Messages}
use network_algo.TfLabel.Splitting.{Fathers, Split}

-- Every node is a part of a component.
pub record IsFathered (scc_cnt : ℕ) (fathers : Fathers) : Type 0 where
  pub enough : scc_cnt ≤ fathers.0
  pub below : (x : ℕ) → x < fathers.0 → fathers.1 x < scc_cnt

module _ (level_db : LevelDb) (schema : Schema) (messages : Messages schema) (scc_cnt x : ℕ) where
  abbrev S : Type 0
  S = Split level_db schema messages

  -- What the splits of the edges of node `x` keep, from a number `t` of nodes on.
  abbrev Fine : ℕ → S → Type 0
  Fine t s = IsFathered scc_cnt (s.tot, s.fa) × (x < s.tot) × (t ≤ s.tot)

  abbrev Keeps : (schema.Node → ℕ → Text → S → Result S) → Type 0
  Keeps split =
      (a : schema.Node) (e : Text) (t : ℕ) (s : S) → Fine t s → Ensures (Fine t) (split a x e s)

module _ (level_db : LevelDb) (schema : Schema) (messages : Messages schema) (scc_cnt : ℕ) where
  -- The nodes stay parts of components, and no node is lost.
  abbrev pub StaysFathered : Fathers → Fathers × Graph level_db → Type 0
  StaysFathered fathers r = IsFathered scc_cnt r.0 × (fathers.0 ≤ r.0.0)

  abbrev KeepsAll :
      (schema.Node
        → ℕ
        → Text
        → Split level_db schema messages
        → Result (Split level_db schema messages))
      → Type 0
  KeepsAll split = (x : ℕ) → Keeps level_db schema messages scc_cnt x split
