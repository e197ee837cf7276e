-- ===== src/Query/Iterator/Search/Reads.antt =====
-- The reads of a search in include/backend/leveldbgraph_iterator.inc leave the database as it is.
use network_algo.Prelude.{
  ℕ, ◌+◌, ◌-◌, ◌≡◌, refl, ◌∙◌, Option, none, some, List, Text, Text_eq, arith, inl, inr,
  Option-cases,
}
use network_algo.Graph.Storage.{LevelDb, Schema}
use network_algo.Graph.Operations.{Side, Graph, cache, get_ids}
use network_algo.Graph.Destruction.{with_cache-db}
use network_algo.MruMap.{find}
use network_algo.Query.Deduction.{is_node}
use network_algo.Query.Iterator.{
  edge_before, is_behind_node, ok, err, Fault, Iterator, ids_of, check_left_constrained,
  check_right_constrained, edge_after_node, node_after_edge, edge_before_node, node_before_edge,
  node_at, edge_at, direction_at, is_entered, is_end,
}
use network_algo.Query.Iterator.Search.Frame.{Ensures, Ensures-bind, Ensures-any, Ensures-if}

Ensures-some :
    {A : Type 0} (P : A → Type 0) (o : Option A) (e : Fault)
    → ((a : A) → o ≡ some a → P a)
    → Ensures P (elim o [ none ↦ err e | some a ↦ ok a ])
Ensures-some P none e h = tt
Ensures-some P (some a) e h = h a refl

module _ (level_db : LevelDb) (schema : Schema) where
  -- The database, in a result with a graph.
  abbrev pub KeepsDb : {A : Type 0} → Graph level_db → A × Graph level_db → Type 0
  KeepsDb g r = r.1.db ≡ g.db

  get_ids-db :
      (side : Side) (id : Text) (g : Graph level_db) (r : List Text × Graph level_db)
      → get_ids level_db schema side id g ≡ some r
      → r.1.db ≡ g.db
  unfolding get_ids
  get_ids-db side id g r h = elim (Option-cases (find id (cache side g))) [
    | inl undefined ↦ ground (arith, undefined, h)
    | inr ((none, c), found) ↦ ground (arith, found, h, with_cache-db side c g)
    | inr ((some ids, c), found) ↦ ground (arith, found, h, with_cache-db side c g)
  ]

  pub ids_of-KeepsDb :
      (side : Side) (id : Text) (g : Graph level_db)
      → Ensures (KeepsDb g) (ids_of level_db schema side id g)
  ids_of-KeepsDb side id g =
      Ensures-some (KeepsDb g) (get_ids level_db schema side id g) Fault.assertion
        (get_ids-db side id g)

  edge_after_node-KeepsDb :
      (it : Iterator) (id : ℕ) (g : Graph level_db)
      → Ensures (KeepsDb g) (edge_after_node level_db schema it id g)
  unfolding edge_after_node
  edge_after_node-KeepsDb it id g = Ensures-any (KeepsDb g) (node_at it (id - 1)) _ λ node.
      Ensures-any (KeepsDb g) (direction_at it id) _ λ direction.
        Ensures-bind (KeepsDb g) (KeepsDb g) (ids_of level_db schema Side.outgoing node g) _
          (ids_of-KeepsDb Side.outgoing node g)
          λ outs first.
            Ensures-bind (KeepsDb outs.1) (KeepsDb g)
              (ids_of level_db schema Side.incoming node outs.1) _
              (ids_of-KeepsDb Side.incoming node outs.1)
              λ ins second.
                Ensures-any (KeepsDb g) (is_entered level_db schema it id direction outs.0 ins.0) _
                  λ result. second ∙ first

  node_after_edge-KeepsDb :
      (it : Iterator) (id : ℕ) (g : Graph level_db)
      → Ensures (KeepsDb g) (node_after_edge level_db schema it id g)
  unfolding node_after_edge
  node_after_edge-KeepsDb it id g = Ensures-any (KeepsDb g) (edge_before it id) _ λ edge_id.
      Ensures-any (KeepsDb g) (node_at it id) _ λ node.
        Ensures-any (KeepsDb g) (direction_at it id) _ λ direction.
          Ensures-any (KeepsDb g) (is_end level_db schema direction _ _ node) _ λ result. refl

  pub check_left_constrained-KeepsDb :
      (it : Iterator) (id : ℕ) (g : Graph level_db)
      → Ensures (KeepsDb g) (check_left_constrained level_db schema it id g)
  unfolding check_left_constrained
  check_left_constrained-KeepsDb it id g =
      Ensures-if (KeepsDb g) (is_behind_node id) _ _ (edge_after_node-KeepsDb it id g)
        (node_after_edge-KeepsDb it id g)

  edge_before_node-KeepsDb :
      (it : Iterator) (id : ℕ) (g : Graph level_db)
      → Ensures (KeepsDb g) (edge_before_node level_db schema it id g)
  unfolding edge_before_node
  edge_before_node-KeepsDb it id g = Ensures-any (KeepsDb g) (node_at it (id + 1)) _ λ node.
      Ensures-any (KeepsDb g) (direction_at it id) _ λ direction.
        Ensures-bind (KeepsDb g) (KeepsDb g) (ids_of level_db schema Side.outgoing node g) _
          (ids_of-KeepsDb Side.outgoing node g)
          λ outs first.
            Ensures-bind (KeepsDb outs.1) (KeepsDb g)
              (ids_of level_db schema Side.incoming node outs.1) _
              (ids_of-KeepsDb Side.incoming node outs.1)
              λ ins second.
                Ensures-any (KeepsDb g) (is_entered level_db schema it id direction ins.0 outs.0) _
                  λ result. second ∙ first

  node_before_edge-KeepsDb :
      (it : Iterator) (id : ℕ) (g : Graph level_db)
      → Ensures (KeepsDb g) (node_before_edge level_db schema it id g)
  unfolding node_before_edge
  node_before_edge-KeepsDb it id g = Ensures-any (KeepsDb g) (edge_at it (id + 1)) _ λ edge_id.
      Ensures-any (KeepsDb g) (node_at it id) _ λ node.
        Ensures-any (KeepsDb g) (direction_at it (id + 1)) _ λ direction.
          Ensures-any (KeepsDb g) (is_end level_db schema direction _ _ node) _ λ result. refl

  pub check_right_constrained-KeepsDb :
      (it : Iterator) (id : ℕ) (g : Graph level_db)
      → Ensures (KeepsDb g) (check_right_constrained level_db schema it id g)
  unfolding check_right_constrained
  check_right_constrained-KeepsDb it id g =
      Ensures-if (KeepsDb g) (is_node (id + 1)) _ _ (edge_before_node-KeepsDb it id g)
        (node_before_edge-KeepsDb it id g)
