-- ===== src/Graph/Removal/Refinement.antt =====
-- `removeEdge` of include/backend/leveldbgraph.hpp as an operation on the graph that the database
-- stands for.
use network_algo.Prelude.{
  ℕ, suc, ◌≡◌, ap, ◌∙◌, Bool, true, none, some, Option, Text, Option-cases, inl, inr, arith,
}
use network_algo.Graph.Keys.{Suffix, add_suffix}
use network_algo.Graph.Storage.{LevelDb, Schema}
use network_algo.Graph.Operations.{Side, Graph, second_side, ◌>>=◌, leave_id}
use network_algo.Graph.View.{View, view, without_id}
use network_algo.Graph.Caches.{after, IsReady, IsReady-weaken, leave_id-IsReady, IsReady-write}
use network_algo.Graph.Removal.{leave_ends, update_ends, remove_edge_impl, remove_edge}

module _ {schema : Schema} where
  -- An edge's id taken from its two ends.
  abbrev pub without_ends : Bool → schema.Edge → Text → View schema → View schema
  without_ends directed e id v =
      without_id (second_side directed) (schema.to e) id
        (without_id Side.outgoing (schema.from e) id v)

  -- The same where the edge is known.
  abbrev pub after_lookup : Bool → Text → View schema → Option schema.Edge → View schema
  after_lookup directed id v none = v
  after_lookup directed id v (some e) = without_ends directed e id v

  abbrev pub unlinked : Bool → Text → View schema → View schema
  unlinked directed id v = after_lookup directed id v (v.edges id)

module _ (level_db : LevelDb) (schema : Schema) where
  leave_ends-IsReady :
      (n : ℕ) (directed : Bool) (e : schema.Edge) (id : Text) (b : level_db.Batch)
      (g : Graph level_db)
      → IsReady level_db schema (suc (suc (suc (suc n)))) b g
      → (b' : level_db.Batch) × (g' : Graph level_db) × (leave_ends level_db schema directed e id
            true true b g
          ≡ some (b', g'))
        × (g'.db ≡ g.db)
        × (after level_db schema b' g' ≡ without_ends directed e id (after level_db schema b g))
        × IsReady level_db schema n b' g'
  unfolding leave_ends
  leave_ends-IsReady n directed e id b g r =
      let (b₁, g₁, done₁, db₁, view₁, r₁) =
        leave_id-IsReady level_db schema (suc (suc n)) Side.outgoing (schema.from e) id b g r in
      let (b₂, g₂, done₂, db₂, view₂, r₂) =
        leave_id-IsReady level_db schema n (second_side directed) (schema.to e) id b₁ g₁ r₁ in
      (
        b₂,
        g₂,
        ap
              (λ o. o >>= λ at_from.
                leave_id level_db schema (second_side directed) (schema.to e) id at_from.0
                  at_from.1)
              done₁
            ∙ done₂,
        db₂ ∙ db₁,
        view₂ ∙ ap (λ v. without_id (second_side directed) (schema.to e) id v) view₁,
        r₂,
      )

  -- With room in the caches, `removeEdge` returns: an edge that is stored leaves the sets of both its
  -- ends and is itself still stored, nothing else changes, and the caches stay in step with the
  -- database.
  pub remove_edge-view :
      (n : ℕ) (directed : Bool) (id : Text) (g : Graph level_db)
      → IsReady level_db schema (suc (suc (suc (suc n)))) level_db.no_batch g
      → (g' : Graph level_db) × (remove_edge level_db schema directed id g ≡ some g')
        × (view level_db schema g'.db ≡ unlinked directed id (view level_db schema g.db))
        × IsReady level_db schema n level_db.no_batch g'
  unfolding remove_edge remove_edge_impl update_ends
  remove_edge-view n directed id g r =
      elim (Option-cases (level_db.get (add_suffix id Suffix.edge_data) g.db)) [
        | inl missing ↦ (
          g,
          ground (arith, missing),
          ground (arith, missing),
          IsReady-weaken level_db schema n level_db.no_batch g (
              IsReady-weaken level_db schema (suc n) level_db.no_batch g (
                IsReady-weaken level_db schema (suc (suc n)) level_db.no_batch g
                  (IsReady-weaken level_db schema (suc (suc (suc n))) level_db.no_batch g r))),
        )
        | inr (raw, there) ↦
            let e = schema.decode_edge raw in
            let (b₁, g₁, done, db₁, view₁, r₁) =
              leave_ends-IsReady n directed e id level_db.no_batch g r in
            (
              record g₁ { db = level_db.write b₁ g₁.db },
              ground (arith, there, done),
              view₁
                  ∙ ap (λ d. without_ends directed e id (view level_db schema d))
                      (level_db.write-no_batch g.db)
                  ∙ ground (arith, there),
              IsReady-write level_db schema n b₁ g₁ r₁,
            )
      ]
