-- ===== src/Graph/Refinement.antt =====
-- The operations of `LevelDbGraph` (include/backend/leveldbgraph.hpp) that add nodes and edges, as
-- operations on the graph that the database stands for.
use network_algo.Prelude.{ℕ, suc, ◌≡◌, refl, sym, ap, ◌∙◌, Bool, some, List, [], ◌∷◌}
use network_algo.Graph.Keys.{Suffix, add_suffix}
use network_algo.Graph.Storage.{LevelDb, Schema}
use network_algo.Graph.Operations.{
  Side, Graph, second_side, ◌>>=◌, set_node, put_nodes, set_nodes_bundle, enter_id, enter_edge,
  put_edge, set_edge, put_edges, enter_edges, set_edges_bundle,
}
use network_algo.Graph.View.{
  View, view, with_node, with_edge, with_id, view-put_node, view-put_edge,
}
use network_algo.Graph.Caches.{after, IsReady, enter_id-IsReady, IsReady-batch, IsReady-write}

module _ {schema : Schema} where
  -- An edge's id entered at its two ends.
  abbrev pub with_ends : Bool → schema.Edge → View schema → View schema
  with_ends directed e v =
      with_id (second_side directed) (schema.to e) (schema.edge_id e)
        (with_id Side.outgoing (schema.from e) (schema.edge_id e) v)

  abbrev pub with_nodes : List schema.Node → View schema → View schema
  with_nodes [] v = v
  with_nodes (n ∷ ns) v = with_nodes ns (with_node n v)

  abbrev pub with_edges : List schema.Edge → View schema → View schema
  with_edges [] v = v
  with_edges (e ∷ es) v = with_edges es (with_edge e v)

  abbrev pub with_all_ends : Bool → List schema.Edge → View schema → View schema
  with_all_ends directed [] v = v
  with_all_ends directed (e ∷ es) v = with_all_ends directed es (with_ends directed e v)

-- The uses of the caches that a bundle takes, on top of `n`: four for an edge.
abbrev pub uses : {A : Type 0} → List A → ℕ → ℕ
uses [] n = n
uses (e ∷ es) n = suc (suc (suc (suc (uses es n))))

module _ (level_db : LevelDb) (schema : Schema) where
  -- A node that is set is found, and everything else stays.
  pub set_node-view :
      (n : schema.Node) (g : Graph level_db)
      → view level_db schema (set_node level_db schema n g).db
        ≡ with_node n (view level_db schema g.db)
  unfolding set_node
  set_node-view n g = view-put_node level_db schema n g.db

  put_nodes-view :
      (ns : List schema.Node) (b : level_db.Batch) (d : level_db.Db)
      → view level_db schema (level_db.write (put_nodes level_db schema ns b) d)
        ≡ with_nodes ns (view level_db schema (level_db.write b d))
  unfolding put_nodes
  put_nodes-view [] b d = refl
  put_nodes-view (n ∷ ns) b d =
      put_nodes-view ns _ d
      ∙ ap (λ u. with_nodes ns (view level_db schema u))
          (level_db.write-batch_put (add_suffix (schema.node_id n) Suffix.node_data)
            (schema.encode_node n) b d)
      ∙ ap (λ v. with_nodes ns v) (view-put_node level_db schema n (level_db.write b d))

  -- `setNodesBundle` stores its nodes in order under their ids, and everything else stays.
  set_nodes_bundle-view :
      (ns : List schema.Node) (g : Graph level_db)
      → view level_db schema (set_nodes_bundle level_db schema ns g).db
        ≡ with_nodes ns (view level_db schema g.db)
  unfolding set_nodes_bundle
  set_nodes_bundle-view ns g =
      put_nodes-view ns level_db.no_batch g.db
      ∙ ap (λ d. with_nodes ns (view level_db schema d)) (level_db.write-no_batch g.db)

  put_edge-view :
      (e : schema.Edge) (b : level_db.Batch) (d : level_db.Db)
      → view level_db schema (level_db.write (put_edge level_db schema e b) d)
        ≡ with_edge e (view level_db schema (level_db.write b d))
  unfolding put_edge
  put_edge-view e b d =
      ap (λ u. view level_db schema u)
        (level_db.write-batch_put (add_suffix (schema.edge_id e) Suffix.edge_data)
          (schema.encode_edge e) b d)
      ∙ view-put_edge level_db schema e (level_db.write b d)

  enter_edge-IsReady :
      (n : ℕ) (directed : Bool) (e : schema.Edge) (b : level_db.Batch) (g : Graph level_db)
      → IsReady level_db schema (suc (suc (suc (suc n)))) b g
      → (b' : level_db.Batch) × (g' : Graph level_db) × (enter_edge level_db schema directed e b g
          ≡ some (b', g'))
        × (g'.db ≡ g.db)
        × (after level_db schema b' g' ≡ with_ends directed e (after level_db schema b g))
        × IsReady level_db schema n b' g'
  unfolding enter_edge
  enter_edge-IsReady n directed e b g r =
      let (b₁, g₁, done₁, db₁, view₁, r₁) =
        enter_id-IsReady level_db schema (suc (suc n)) Side.outgoing (schema.from e)
          (schema.edge_id e) b g r in
      let (b₂, g₂, done₂, db₂, view₂, r₂) =
        enter_id-IsReady level_db schema n (second_side directed) (schema.to e) (schema.edge_id e)
          b₁ g₁ r₁ in
      (
        b₂,
        g₂,
        ap
              (λ o. o >>= λ at_from.
                enter_id level_db schema (second_side directed) (schema.to e) (schema.edge_id e)
                  at_from.0 at_from.1)
              done₁
            ∙ done₂,
        db₂ ∙ db₁,
        view₂ ∙ ap (λ v. with_id (second_side directed) (schema.to e) (schema.edge_id e) v) view₁,
        r₂,
      )

  -- With room in the caches, `setEdge` returns, the edge is found under its id, its id is in the set of
  -- out-edges of its first end and in the set of its second end, everything else stays, and the
  -- caches stay in step with the database.
  pub set_edge-view :
      (n : ℕ) (directed : Bool) (e : schema.Edge) (g : Graph level_db)
      → IsReady level_db schema (suc (suc (suc (suc n)))) level_db.no_batch g
      → (g' : Graph level_db) × (set_edge level_db schema directed e g ≡ some g')
        × (view level_db schema g'.db
            ≡ with_edge e (with_ends directed e (view level_db schema g.db)))
        × IsReady level_db schema n level_db.no_batch g'
  unfolding set_edge
  set_edge-view n directed e g r =
      let (b₁, g₁, done, db₁, view₁, r₁) = enter_edge-IsReady n directed e level_db.no_batch g r in
      let b₂ = put_edge level_db schema e b₁ in
      let q = put_edge-view e b₁ g₁.db in
      (
        record g₁ { db = level_db.write b₂ g₁.db },
        ap
            (λ o. o >>= λ entered. some (record entered.1 {
              db = level_db.write (put_edge level_db schema e entered.0) entered.1.db;
            }))
            done,
        q
            ∙ ap (λ v. with_edge e v)
                (view₁
                  ∙ ap (λ d. with_ends directed e (view level_db schema d))
                      (level_db.write-no_batch g.db)),
        IsReady-write level_db schema n b₂ g₁
            (IsReady-batch level_db schema n b₁ b₂ g₁ r₁ (λ s j. ap (λ v. v.ids s j) (sym q))),
      )

  put_edges-view :
      (es : List schema.Edge) (b : level_db.Batch) (d : level_db.Db)
      → view level_db schema (level_db.write (put_edges level_db schema es b) d)
        ≡ with_edges es (view level_db schema (level_db.write b d))
  unfolding put_edges
  put_edges-view [] b d = refl
  put_edges-view (e ∷ es) b d =
      put_edges-view es (put_edge level_db schema e b) d
      ∙ ap (λ v. with_edges es v) (put_edge-view e b d)

  ids-with_edges : (es : List schema.Edge) (v : View schema) → (with_edges es v).ids ≡ v.ids
  ids-with_edges [] v = refl
  ids-with_edges (e ∷ es) v = ids-with_edges es (with_edge e v)

  enter_edges-IsReady :
      (n : ℕ) (directed : Bool) (es : List schema.Edge) (b : level_db.Batch) (g : Graph level_db)
      → IsReady level_db schema (uses es n) b g
      → (b' : level_db.Batch) × (g' : Graph level_db) × (enter_edges level_db schema directed es b g
          ≡ some (b', g'))
        × (g'.db ≡ g.db)
        × (after level_db schema b' g' ≡ with_all_ends directed es (after level_db schema b g))
        × IsReady level_db schema n b' g'
  unfolding enter_edges
  enter_edges-IsReady n directed [] b g r = (b, g, refl, refl, refl, r)
  enter_edges-IsReady n directed (e ∷ es) b g r =
      let (b₁, g₁, done₁, db₁, view₁, r₁) = enter_edge-IsReady (uses es n) directed e b g r in
      let (b₂, g₂, done₂, db₂, view₂, r₂) = enter_edges-IsReady n directed es b₁ g₁ r₁ in
      (
        b₂,
        g₂,
        ap (λ o. o >>= λ entered. enter_edges level_db schema directed es entered.0 entered.1) done₁
            ∙ done₂,
        db₂ ∙ db₁,
        view₂ ∙ ap (λ v. with_all_ends directed es v) view₁,
        r₂,
      )

  -- With room in the caches, `setEdgesBundle` returns, its edges are stored in order, the id of each
  -- is entered at both its ends, also where ends are shared, and the caches stay in step with the
  -- database.
  pub set_edges_bundle-view :
      (n : ℕ) (directed : Bool) (es : List schema.Edge) (g : Graph level_db)
      → IsReady level_db schema (uses es n) level_db.no_batch g
      → (g' : Graph level_db) × (set_edges_bundle level_db schema directed es g ≡ some g')
        × (view level_db schema g'.db
            ≡ with_all_ends directed es (with_edges es (view level_db schema g.db)))
        × IsReady level_db schema n level_db.no_batch g'
  unfolding set_edges_bundle
  set_edges_bundle-view n directed es g r =
      let b₀ = put_edges level_db schema es level_db.no_batch in
      let q = put_edges-view es level_db.no_batch g.db in
      let r₀ = IsReady-batch level_db schema (uses es n) level_db.no_batch b₀ g r (λ s j.
        ap (λ f. f s j) (sym (ids-with_edges es (after level_db schema level_db.no_batch g)))
        ∙ ap (λ v. v.ids s j) (sym q)) in
      let (b₁, g₁, done, db₁, view₁, r₁) = enter_edges-IsReady n directed es b₀ g r₀ in
      (
        record g₁ { db = level_db.write b₁ g₁.db },
        ap
            (λ o. o >>= λ entered.
              some (record entered.1 { db = level_db.write entered.0 entered.1.db }))
            done,
        view₁
            ∙ ap (λ v. with_all_ends directed es v)
                (q
                  ∙ ap (λ d. with_edges es (view level_db schema d))
                      (level_db.write-no_batch g.db)),
        IsReady-write level_db schema n b₁ g₁ r₁,
      )
