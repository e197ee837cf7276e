-- ===== src/Graph/Membership.antt =====
-- What `getOutEdge`, `getInEdge` and `getEdge` (include/backend/leveldbgraph.hpp) give back after an
-- edge was set or removed.
use network_algo.Prelude.{
  ℕ, suc, ◌≡◌, refl, ap, ◌∙◌, Bool, true, false, some, List, Option-cases, inl, inr, Text, text_eq,
  text_eq_refl, arith, if◌then◌else◌,
}
use network_algo.Graph.Keys.{Suffix, add_suffix}
use network_algo.Graph.Storage.{LevelDb, Schema}
use network_algo.Graph.IdSet.{insert, erase, member, member-insert, member-erase}
use network_algo.Graph.Operations.{Side, Graph, second_side, stored_ids, get_edge, set_edge}
use network_algo.Graph.Removal.{remove_edge}
use network_algo.Graph.View.{View, view}
use network_algo.Graph.Caches.{IsReady}
use network_algo.Graph.Refinement.{with_ends, set_edge-view}
use network_algo.Graph.Removal.Refinement.{without_ends, after_lookup, unlinked, remove_edge-view}

member-here : (x : Text) (ys : List Text) → member x (insert x ys) ≡ true
member-here x ys = member-insert x x ys ∙ rw (text_eq_refl x) refl

either-here :
    (b : Bool) (x : Text) (ys zs : List Text)
    → member x (if b then insert x ys else insert x zs) ≡ true
either-here true x ys zs = member-here x ys
either-here false x ys zs = member-here x zs

not-here : (x : Text) (ys : List Text) → member x (erase x ys) ≡ false
not-here x ys = member-erase x x ys ∙ rw (text_eq_refl x) refl

either-not-here :
    (b : Bool) (x : Text) (ys zs : List Text)
    → member x (if b then erase x ys else erase x zs) ≡ false
either-not-here true x ys zs = not-here x ys
either-not-here false x ys zs = not-here x zs

module _ {schema : Schema} where
  with_ends-first :
      (directed : Bool) (e : schema.Edge) (v : View schema)
      → member (schema.edge_id e) ((with_ends directed e v).ids Side.outgoing (schema.from e))
        ≡ true
  with_ends-first true e v = rw (text_eq_refl (schema.from e)) (member-here (schema.edge_id e) _)
  with_ends-first false e v =
      rw (text_eq_refl (schema.from e))
        (either-here (text_eq (schema.to e) (schema.from e)) (schema.edge_id e) _ _)

  with_ends-second :
      (directed : Bool) (e : schema.Edge) (v : View schema)
      → member
          (schema.edge_id e)
          ((with_ends directed e v).ids (second_side directed) (schema.to e))
        ≡ true
  with_ends-second true e v = rw (text_eq_refl (schema.to e)) (member-here (schema.edge_id e) _)
  with_ends-second false e v = rw (text_eq_refl (schema.to e)) (member-here (schema.edge_id e) _)

  without_ends-first :
      (directed : Bool) (e : schema.Edge) (id : Text) (v : View schema)
      → member id ((without_ends directed e id v).ids Side.outgoing (schema.from e)) ≡ false
  without_ends-first true e id v = rw (text_eq_refl (schema.from e)) (not-here id _)
  without_ends-first false e id v =
      rw (text_eq_refl (schema.from e))
        (either-not-here (text_eq (schema.to e) (schema.from e)) id _ _)

  without_ends-second :
      (directed : Bool) (e : schema.Edge) (id : Text) (v : View schema)
      → member id ((without_ends directed e id v).ids (second_side directed) (schema.to e)) ≡ false
  without_ends-second true e id v = rw (text_eq_refl (schema.to e)) (not-here id _)
  without_ends-second false e id v = rw (text_eq_refl (schema.to e)) (not-here id _)

module _ {schema : Schema} where
  unlinked-there :
      (directed : Bool) (id : Text) (e : schema.Edge) (v : View schema)
      → v.edges id ≡ some e
      → unlinked directed id v ≡ without_ends directed e id v
  unlinked-there directed id e v h = ap (λ o. after_lookup directed id v o) h

module _ (level_db : LevelDb) (schema : Schema) where
  get_edge-view :
      (id : Text) (e : schema.Edge) (g : Graph level_db)
      → (view level_db schema g.db).edges id ≡ some e
      → get_edge level_db schema id g ≡ e
  unfolding get_edge
  get_edge-view id e g h =
      elim (Option-cases (level_db.get (add_suffix id Suffix.edge_data) g.db)) [
        | inl missing ↦ absurd (ground (arith, missing, h))
        | inr (raw, there) ↦ ground (arith, there, h)
      ]

  -- With room in the caches, after `setEdge` the database has the id of the edge in the out-edges of its
  -- first end and in the set of its second end, and `getEdge` gives the edge back.
  set_edge-member :
      (n : ℕ) (directed : Bool) (e : schema.Edge) (g : Graph level_db)
      → IsReady level_db schema (suc (suc (suc (suc n)))) level_db.no_batch g
      → (g' : Graph level_db) × (set_edge level_db schema directed e g ≡ some g')
        × (member
              (schema.edge_id e)
              (stored_ids level_db schema Side.outgoing (schema.from e) g'.db)
            ≡ true)
        × (member
              (schema.edge_id e)
              (stored_ids level_db schema (second_side directed) (schema.to e) g'.db)
            ≡ true)
        × (get_edge level_db schema (schema.edge_id e) g' ≡ e)
  set_edge-member n directed e g r =
      let (g', done, q, ready) = set_edge-view level_db schema n directed e g r in
      (
        g',
        done,
        ap (λ v. member (schema.edge_id e) (v.ids Side.outgoing (schema.from e))) q
            ∙ with_ends-first directed e (view level_db schema g.db),
        ap (λ v. member (schema.edge_id e) (v.ids (second_side directed) (schema.to e))) q
            ∙ with_ends-second directed e (view level_db schema g.db),
        get_edge-view (schema.edge_id e) e g'
            (ap (λ v. v.edges (schema.edge_id e)) q ∙ rw (text_eq_refl (schema.edge_id e)) refl),
      )

  -- With room in the caches, after `removeEdge` of an edge that is stored the database has its id in the
  -- set of neither end, and `getEdge` still gives the edge back.
  pub remove_edge-member :
      (n : ℕ) (directed : Bool) (id : Text) (e : schema.Edge) (g : Graph level_db)
      → IsReady level_db schema (suc (suc (suc (suc n)))) level_db.no_batch g
      → (view level_db schema g.db).edges id ≡ some e
      → (g' : Graph level_db) × (remove_edge level_db schema directed id g ≡ some g')
        × (member id (stored_ids level_db schema Side.outgoing (schema.from e) g'.db) ≡ false)
        × (member id (stored_ids level_db schema (second_side directed) (schema.to e) g'.db)
            ≡ false)
        × (get_edge level_db schema id g' ≡ e)
  remove_edge-member n directed id e g r h =
      let (g', done, q, ready) = remove_edge-view level_db schema n directed id g r in
      let there : unlinked directed id (view level_db schema g.db)
          ≡ without_ends directed e id (view level_db schema g.db) =
        unlinked-there directed id e (view level_db schema g.db) h in
      (
        g',
        done,
        ap (λ v. member id (v.ids Side.outgoing (schema.from e))) (q ∙ there)
            ∙ without_ends-first directed e id (view level_db schema g.db),
        ap (λ v. member id (v.ids (second_side directed) (schema.to e))) (q ∙ there)
            ∙ without_ends-second directed e id (view level_db schema g.db),
        get_edge-view id e g' (ap (λ v. v.edges id) (q ∙ there) ∙ h),
      )
