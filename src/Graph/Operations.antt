-- ===== src/Graph/Operations.antt =====
-- The operations of `LevelDbGraph`, include/backend/leveldbgraph.hpp. Its two specialisations differ
-- in the set that holds an edge at its second end: the flag `directed` is `isDirected`. `none` is an
-- assertion that fails or a write through a dangling reference.
use network_algo.Prelude.{ℕ, Bool, true, false, Option, none, some, List, [], ◌∷◌, Text, Text_eq}
use network_algo.MruMap
use network_algo.MruMap.{MruMap, find, store}
use network_algo.Graph.Keys.{Suffix, add_suffix}
use network_algo.Graph.IdSet
use network_algo.Graph.Storage.{LevelDb, Schema}

-- The out-edges and the in-edges of a node.
pub data Side : Type 0 where
  outgoing incoming : Side

unfoldable pub suffix_of : Side → Suffix
suffix_of Side.outgoing = Suffix.out_edge
suffix_of Side.incoming = Suffix.in_edge

-- Where an edge is entered at its second end.
abbrev pub second_side : Bool → Side
second_side true = Side.incoming
second_side false = Side.outgoing

abbrev pub Cache : Type 0
Cache = MruMap Text (List Text)

abbrev pub edge_cache_size : ℕ
edge_cache_size = 1048576

infixl 5 ◌>>=◌ ◌>>◌
abbrev pub ◌>>=◌ : {A B : Type 0} → Option A → (A → Option B) → Option B
none >>= f = none
some a >>= f = f a

abbrev pub ◌>>◌ : {A B : Type 0} → Option A → Option B → Option B
m >> k = m >>= λ _. k

-- An undirected graph has no in-edges, and never uses the second cache.
pub record Graph (level_db : LevelDb) : Type 0 where
  pub db : level_db.Db
  pub out_edge_cache : Cache
  pub in_edge_cache : Cache

module _ {level_db : LevelDb} where
  abbrev pub cache : Side → Graph level_db → Cache
  cache Side.outgoing g = g.out_edge_cache
  cache Side.incoming g = g.in_edge_cache

  abbrev pub with_cache : Side → Cache → Graph level_db → Graph level_db
  with_cache Side.outgoing c g = record g { out_edge_cache = c }
  with_cache Side.incoming c g = record g { in_edge_cache = c }

-- The constructor, on an open database.
abbrev pub open_graph : (level_db : LevelDb) → level_db.Db → Graph level_db
open_graph level_db d = record {
  db = d;
  out_edge_cache = MruMap.empty edge_cache_size;
  in_edge_cache = MruMap.empty edge_cache_size;
}

module _ (level_db : LevelDb) (schema : Schema) where
  -- What the database has of a node's edges.
  unfoldable pub stored_ids : Side → Text → level_db.Db → List Text
  unfolding add_suffix
  stored_ids side id d = elim (level_db.get (add_suffix id (suffix_of side)) d) [
    | none ↦ []
    | some raw ↦ schema.decode_ids raw
  ]

  -- `getOutEdge` and `getInEdge`
  unfoldable pub get_ids : Side → Text → Graph level_db → Option (List Text × Graph level_db)
  unfolding stored_ids
  get_ids side id g = do
    found ← find id (cache side g)
    let g' = with_cache side found.1 g
    elim found.0 [ some ids ↦ some (ids, g') | none ↦ some (stored_ids side id g'.db, g') ]

  -- `setOutEdge` and `setInEdge` with a batch
  unfoldable pub set_ids :
      Side
      → Text
      → List Text
      → level_db.Batch
      → Graph level_db
      → Option (level_db.Batch × Graph level_db)
  set_ids side id ids b g = do
    c ← store [] id ids (cache side g)
    some (
      level_db.batch_put (add_suffix id (suffix_of side)) (schema.encode_ids ids) b,
      with_cache side c g,
    )

  -- The same without a batch.
  unfoldable pub set_ids_now : Side → Text → List Text → Graph level_db → Option (Graph level_db)
  set_ids_now side id ids g = do
    c ← store [] id ids (cache side g)
    some (record (with_cache side c g) {
      db = level_db.put (add_suffix id (suffix_of side)) (schema.encode_ids ids) g.db;
    })

  -- A node's set is read, given an id, and written.
  unfoldable pub enter_id :
      Side
      → Text
      → Text
      → level_db.Batch
      → Graph level_db
      → Option (level_db.Batch × Graph level_db)
  unfolding get_ids set_ids
  enter_id side node id b g = do
    got ← get_ids side node g
    set_ids side node (IdSet.insert id got.0) b got.1

  -- A node's set is read, an id is taken from it, and it is written.
  unfoldable pub leave_id :
      Side
      → Text
      → Text
      → level_db.Batch
      → Graph level_db
      → Option (level_db.Batch × Graph level_db)
  unfolding get_ids set_ids
  leave_id side node id b g = do
    got ← get_ids side node g
    set_ids side node (IdSet.erase id got.0) b got.1

  unfoldable pub get_node : Text → Graph level_db → Option schema.Node
  get_node id g = elim (level_db.get (add_suffix id Suffix.node_data) g.db) [
    | none ↦ none
    | some raw ↦ some (schema.decode_node raw)
  ]

  -- A missing edge is parsed from an empty string.
  unfoldable pub get_edge : Text → Graph level_db → schema.Edge
  get_edge id g = elim (level_db.get (add_suffix id Suffix.edge_data) g.db) [
    | none ↦ schema.decode_edge []
    | some raw ↦ schema.decode_edge raw
  ]

  unfoldable pub set_node : schema.Node → Graph level_db → Graph level_db
  set_node n g = record g {
    db = level_db.put (add_suffix (schema.node_id n) Suffix.node_data) (schema.encode_node n) g.db;
  }

  unfoldable pub put_nodes : List schema.Node → level_db.Batch → level_db.Batch
  put_nodes [] b = b
  put_nodes (n ∷ ns) b =
      put_nodes ns (
        level_db.batch_put (add_suffix (schema.node_id n) Suffix.node_data) (schema.encode_node n)
          b)

  unfoldable pub set_nodes_bundle : List schema.Node → Graph level_db → Graph level_db
  unfolding put_nodes
  set_nodes_bundle nb g = record g { db = level_db.write (put_nodes nb level_db.no_batch) g.db }

  -- The ids of an edge at its two ends.
  unfoldable pub enter_edge :
      Bool
      → schema.Edge
      → level_db.Batch
      → Graph level_db
      → Option (level_db.Batch × Graph level_db)
  unfolding enter_id
  enter_edge directed edge b g = do
    at_from ← enter_id Side.outgoing (schema.from edge) (schema.edge_id edge) b g
    enter_id (second_side directed) (schema.to edge) (schema.edge_id edge) at_from.0 at_from.1

  unfoldable pub put_edge : schema.Edge → level_db.Batch → level_db.Batch
  put_edge edge b =
      level_db.batch_put (add_suffix (schema.edge_id edge) Suffix.edge_data)
        (schema.encode_edge edge) b

  unfoldable pub set_edge : Bool → schema.Edge → Graph level_db → Option (Graph level_db)
  unfolding enter_edge put_edge
  set_edge directed edge g = do
    entered ← enter_edge directed edge level_db.no_batch g
    some (record entered.1 { db = level_db.write (put_edge edge entered.0) entered.1.db })

  unfoldable pub put_edges : List schema.Edge → level_db.Batch → level_db.Batch
  unfolding put_edge
  put_edges [] b = b
  put_edges (edge ∷ eb) b = put_edges eb (put_edge edge b)

  unfoldable pub enter_edges :
      Bool
      → List schema.Edge
      → level_db.Batch
      → Graph level_db
      → Option (level_db.Batch × Graph level_db)
  unfolding enter_edge
  enter_edges directed [] b g = some (b, g)
  enter_edges directed (edge ∷ eb) b g = do
    entered ← enter_edge directed edge b g
    enter_edges directed eb entered.0 entered.1

  unfoldable pub set_edges_bundle :
      Bool → List schema.Edge → Graph level_db → Option (Graph level_db)
  unfolding put_edges enter_edges
  set_edges_bundle directed eb g = do
    entered ← enter_edges directed eb (put_edges eb level_db.no_batch) g
    some (record entered.1 { db = level_db.write entered.0 entered.1.db })
