-- ===== src/Graph/View.antt =====
-- The graph that a database of include/backend/leveldbgraph.hpp stands for, without its keys, its
-- serialisation and its caches, and what single writes to the database are on it.
use network_algo.Prelude.{
  ◌≡◌, ◌≢◌, sym, ap, ◌∙◌, Bool, true, false, Option, none, some, List, Text, text_eq, if◌then◌else◌,
  ◌&&◌, arith,
}
use network_algo.Graph.Keys.{Suffix, add_suffix, text_eq-same_suffix, text_eq-other_suffix}
use network_algo.Graph.IdSet
use network_algo.Graph.Storage.{LevelDb, Schema}
use network_algo.Graph.Operations.{Side, suffix_of, stored_ids}

pub record View (schema : Schema) : Type 0 where
  pub nodes : Text → Option schema.Node
  pub edges : Text → Option schema.Edge
  pub ids : Side → Text → List Text

abbrev pub same_side : Side → Side → Bool
same_side Side.outgoing Side.outgoing = true
same_side Side.outgoing Side.incoming = false
same_side Side.incoming Side.outgoing = false
same_side Side.incoming Side.incoming = true

module _ {schema : Schema} where
  abbrev pub with_node : schema.Node → View schema → View schema
  with_node n v = record v {
    nodes = λ k. if text_eq (schema.node_id n) k then some n else v.nodes k;
  }

  abbrev pub without_node : Text → View schema → View schema
  without_node id v = record v { nodes = λ k. if text_eq id k then none else v.nodes k }

  abbrev pub with_edge : schema.Edge → View schema → View schema
  with_edge e v = record v {
    edges = λ k. if text_eq (schema.edge_id e) k then some e else v.edges k;
  }

  abbrev pub with_ids : Side → Text → List Text → View schema → View schema
  with_ids side id ids v = record v {
    ids = λ s k. if same_side side s && text_eq id k then ids else v.ids s k;
  }

  -- The view with an id entered into one set.
  abbrev pub with_id : Side → Text → Text → View schema → View schema
  with_id side node id v = with_ids side node (IdSet.insert id (v.ids side node)) v

  abbrev pub without_id : Side → Text → Text → View schema → View schema
  without_id side node id v = with_ids side node (IdSet.erase id (v.ids side node)) v

node-ne-edge : Suffix.node_data ≢ Suffix.edge_data
node-ne-edge = cc

module _ (level_db : LevelDb) (schema : Schema) where
  abbrev stored : {A : Type 0} → (Text → A) → Text → Suffix → level_db.Db → Option A
  stored decode id s d = elim (level_db.get (add_suffix id s) d) [
    | none ↦ none
    | some raw ↦ some (decode raw)
  ]

  abbrev pub view : level_db.Db → View schema
  view d = record {
    nodes = λ k. stored schema.decode_node k Suffix.node_data d;
    edges = λ k. stored schema.decode_edge k Suffix.edge_data d;
    ids = λ s k. stored_ids level_db schema s k d;
  }

  get-put_same :
      (k j : Text) (s : Suffix) (raw : Text) (d : level_db.Db)
      → level_db.get (add_suffix j s) (level_db.put (add_suffix k s) raw d)
        ≡ (if text_eq k j then some raw else level_db.get (add_suffix j s) d)
  get-put_same k j s raw d =
      level_db.get-put (add_suffix k s) (add_suffix j s) raw d
      ∙ ap (λ b. if b then some raw else level_db.get (add_suffix j s) d)
          (text_eq-same_suffix k j s)

  get-put_other :
      (k j : Text) (s t : Suffix) (raw : Text) (d : level_db.Db)
      → s ≢ t
      → level_db.get (add_suffix j t) (level_db.put (add_suffix k s) raw d)
        ≡ level_db.get (add_suffix j t) d
  get-put_other k j s t raw d other =
      level_db.get-put (add_suffix k s) (add_suffix j t) raw d
      ∙ ap (λ b. if b then some raw else level_db.get (add_suffix j t) d)
          (text_eq-other_suffix k j s t other)

  stored-put_same :
      {A : Type 0} (decode : Text → A) (k j : Text) (s : Suffix) (raw : Text) (d : level_db.Db)
      → stored decode j s (level_db.put (add_suffix k s) raw d)
        ≡ (if text_eq k j then some (decode raw) else stored decode j s d)
  stored-put_same decode k j s raw d = ground (arith, get-put_same k j s raw d)

  stored-put_other :
      {A : Type 0} (decode : Text → A) (k j : Text) (s t : Suffix) (raw : Text) (d : level_db.Db)
      → s ≢ t
      → stored decode j t (level_db.put (add_suffix k s) raw d) ≡ stored decode j t d
  stored-put_other decode k j s t raw d other = ground (arith, get-put_other k j s t raw d other)

  ids-put_other :
      (k : Text) (s : Suffix) (raw : Text) (d : level_db.Db) (side : Side) (j : Text)
      → s ≢ suffix_of side
      → stored_ids level_db schema side j (level_db.put (add_suffix k s) raw d)
        ≡ stored_ids level_db schema side j d
  unfolding stored_ids
  ids-put_other k s raw d side j other =
      ground (arith, get-put_other k j s (suffix_of side) raw d other)

  ids-put_same :
      (k : Text) (ids : List Text) (d : level_db.Db) (side : Side) (j : Text)
      → stored_ids level_db schema side j
          (level_db.put (add_suffix k (suffix_of side)) (schema.encode_ids ids) d)
        ≡ (if text_eq k j then ids else stored_ids level_db schema side j d)
  unfolding stored_ids
  ids-put_same k ids d side j = ground (
    arith,
    get-put_same k j (suffix_of side) (schema.encode_ids ids) d,
    schema.decode-encode_ids ids,
  )

  not_node : (side : Side) → suffix_of side ≢ Suffix.node_data
  unfolding suffix_of
  not_node Side.outgoing = cc
  not_node Side.incoming = cc

  not_edge : (side : Side) → suffix_of side ≢ Suffix.edge_data
  unfolding suffix_of
  not_edge Side.outgoing = cc
  not_edge Side.incoming = cc

  ids-put :
      (k : Text) (ids : List Text) (d : level_db.Db) (side s : Side) (j : Text)
      → stored_ids level_db schema s j
          (level_db.put (add_suffix k (suffix_of side)) (schema.encode_ids ids) d)
        ≡ (if same_side side s && text_eq k j then ids else stored_ids level_db schema s j d)
  unfolding suffix_of
  ids-put k ids d Side.outgoing Side.outgoing j = ids-put_same k ids d Side.outgoing j
  ids-put k ids d Side.outgoing Side.incoming j = ids-put_other k _ _ d Side.incoming j cc
  ids-put k ids d Side.incoming Side.outgoing j = ids-put_other k _ _ d Side.outgoing j cc
  ids-put k ids d Side.incoming Side.incoming j = ids-put_same k ids d Side.incoming j

  pub view-put_ids :
      (side : Side) (k : Text) (ids : List Text) (d : level_db.Db)
      → view (level_db.put (add_suffix k (suffix_of side)) (schema.encode_ids ids) d)
        ≡ with_ids side k ids (view d)
  view-put_ids side k ids d = λ i. record {
    nodes = λ j.
        stored-put_other schema.decode_node k j (suffix_of side) Suffix.node_data
          (schema.encode_ids ids) d (not_node side) i;
    edges = λ j.
        stored-put_other schema.decode_edge k j (suffix_of side) Suffix.edge_data
          (schema.encode_ids ids) d (not_edge side) i;
    ids = λ s j. ids-put k ids d side s j i;
  }

  not_ids_node : (side : Side) → Suffix.node_data ≢ suffix_of side
  not_ids_node side h = not_node side (sym h)

  not_ids_edge : (side : Side) → Suffix.edge_data ≢ suffix_of side
  not_ids_edge side h = not_edge side (sym h)

  pub view-put_node :
      (n : schema.Node) (d : level_db.Db)
      → view
          (level_db.put (add_suffix (schema.node_id n) Suffix.node_data) (schema.encode_node n) d)
        ≡ with_node n (view d)
  view-put_node n d = λ i. record {
    nodes = λ j.
        (stored-put_same schema.decode_node (schema.node_id n) j Suffix.node_data
              (schema.encode_node n) d
            ∙ ap
                (λ m.
                  if text_eq (schema.node_id n) j
                  then some m
                  else stored schema.decode_node j Suffix.node_data d)
                (schema.decode-encode_node n))
          i;
    edges = λ j.
        stored-put_other schema.decode_edge (schema.node_id n) j Suffix.node_data Suffix.edge_data
          (schema.encode_node n) d node-ne-edge i;
    ids = λ s j.
        ids-put_other (schema.node_id n) Suffix.node_data (schema.encode_node n) d s j
          (not_ids_node s) i;
  }

  pub view-put_edge :
      (e : schema.Edge) (d : level_db.Db)
      → view
          (level_db.put (add_suffix (schema.edge_id e) Suffix.edge_data) (schema.encode_edge e) d)
        ≡ with_edge e (view d)
  view-put_edge e d = λ i. record {
    nodes = λ j.
        stored-put_other schema.decode_node (schema.edge_id e) j Suffix.edge_data Suffix.node_data
          (schema.encode_edge e) d (λ h. node-ne-edge (sym h)) i;
    edges = λ j.
        (stored-put_same schema.decode_edge (schema.edge_id e) j Suffix.edge_data
              (schema.encode_edge e) d
            ∙ ap
                (λ m.
                  if text_eq (schema.edge_id e) j
                  then some m
                  else stored schema.decode_edge j Suffix.edge_data d)
                (schema.decode-encode_edge e))
          i;
    ids = λ s j.
        ids-put_other (schema.edge_id e) Suffix.edge_data (schema.encode_edge e) d s j
          (not_ids_edge s) i;
  }
