-- ===== src/Graph/Storage.antt =====
-- What include/backend/leveldbgraph.hpp uses of LevelDB, Protocol Buffers and cereal, as parameters.
-- The laws are the documented behaviour of an open database without input or output errors, and
-- that what was serialised parses back.
use network_algo.Prelude.{◌≡◌, Option, none, some, List, Text, text_eq, if◌then◌else◌}

pub record LevelDb : Type 1 where
  pub Db : Type 0
  pub Batch : Type 0
  -- `none` is `Status::NotFound`.
  pub get : Text → Db → Option Text
  pub put : Text → Text → Db → Db
  pub delete : Text → Db → Db
  pub no_batch : Batch
  pub batch_put : Text → Text → Batch → Batch
  pub write : Batch → Db → Db
  pub get-put :
      (k j s : Text) (d : Db) → get j (put k s d) ≡ (if text_eq k j then some s else get j d)
  pub get-delete :
      (k j : Text) (d : Db) → get j (delete k d) ≡ (if text_eq k j then none else get j d)
  pub write-no_batch : (d : Db) → write no_batch d ≡ d
  pub write-batch_put :
      (k s : Text) (b : Batch) (d : Db) → write (batch_put k s b) d ≡ put k s (write b d)

-- The message types of nodes and edges with their accessors, and the serialisations.
pub record Schema : Type 1 where
  pub Node : Type 0
  pub Edge : Type 0
  pub node_id : Node → Text
  pub edge_id : Edge → Text
  pub from : Edge → Text
  pub to : Edge → Text
  pub encode_node : Node → Text
  pub decode_node : Text → Node
  pub encode_edge : Edge → Text
  pub decode_edge : Text → Edge
  pub encode_ids : List Text → Text
  pub decode_ids : Text → List Text
  pub decode-encode_node : (n : Node) → decode_node (encode_node n) ≡ n
  pub decode-encode_edge : (e : Edge) → decode_edge (encode_edge e) ≡ e
  pub decode-encode_ids : (ids : List Text) → decode_ids (encode_ids ids) ≡ ids
