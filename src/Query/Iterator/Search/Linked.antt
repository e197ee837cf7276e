-- ===== src/Query/Iterator/Search/Linked.antt =====
-- What links the parts of a pattern that a search has found: a known node is an end of the edge beside it,
-- and a known edge is in a set of edges of the node beside it.
use network_algo.Prelude.{
  ℕ, ◌+◌, ◌-◌, ◌/◌, ◌≡◌, refl, ap, ◌∙◌, true, false, List, Text, get_elem?, some, arith, inl, inr,
  Bool-cases, sym,
}
use network_algo.Dsl.Syntax.{GraphSqlSentence}
use network_algo.Reflection.Compare.{Floats, Reflection}
use network_algo.Graph.IdSet.{member}
use network_algo.Graph.Storage.{LevelDb, Schema}
use network_algo.Graph.Operations.{Graph, get_edge}
use network_algo.Query.Deduction.{ConstraintType, DeductionTrait, is_node}
use network_algo.Query.Iterator.{Result, ok, node_index, edge_index, node_at, edge_at, direction_at}
use network_algo.Query.Iterator.Ends.{get_node_id_from_left_edge, get_node_id_from_right_edge}
use network_algo.Query.Iterator.Search.{left_edges, right_edges}
use network_algo.Query.Iterator.Search.Frame.{candidate}
use network_algo.Query.Iterator.Search.Sound.{State, Kept}

-- What holds of the positions beside a position that its constraint names.
abbrev pub Around : (ℕ → Type 0) → ConstraintType → ℕ → Type 0
Around P ConstraintType.left_constrained id = P (id - 1)
Around P ConstraintType.right_constrained id = P (id + 1)
Around P ConstraintType.both_constrained id = P (id - 1) × P (id + 1)
Around P ConstraintType.not_constrained id = Unit

pub Around-map :
    {P Q : ℕ → Type 0} (c : ConstraintType) (id : ℕ)
    → ((i : ℕ) → P i → Q i)
    → Around P c id
    → Around Q c id
Around-map ConstraintType.left_constrained id f h = f (id - 1) h
Around-map ConstraintType.right_constrained id f h = f (id + 1) h
Around-map ConstraintType.both_constrained id f h = (f (id - 1) h.0, f (id + 1) h.1)
Around-map ConstraintType.not_constrained id f h = tt

module _ (floats : Floats) (level_db : LevelDb) (schema : Schema)
    (nodes : Reflection floats schema.Node) (edges : Reflection floats schema.Edge)
    (keys : level_db.Db → List Text) where
  abbrev S : Type 0
  S = State floats level_db schema nodes edges keys

  abbrev KeptAt : S → S → ℕ → Type 0
  KeptAt s s' id = Kept floats level_db schema nodes edges keys id s s'

  -- `x` is in a set of edges that was read from the database of the graph.
  abbrev pub Among : (ℕ → S → Result (List Text × Graph level_db)) → ℕ → S → Text → Type 0
  Among sides id s x =
      (g : Graph level_db) × (r : List Text × Graph level_db) × (g.db ≡ s.graph.db)
      × (sides id (record s { graph = g }) ≡ ok r)
      × (member x r.0 ≡ true)

  -- Node `x` is an end of the edges beside it.
  abbrev pub IsEnd : ConstraintType → ℕ → S → Text → Type 0
  IsEnd ConstraintType.left_constrained id s x =
      get_node_id_from_left_edge level_db schema s.it id s.graph ≡ ok x
  IsEnd ConstraintType.right_constrained id s x =
      get_node_id_from_right_edge level_db schema s.it id s.graph ≡ ok x
  IsEnd ConstraintType.both_constrained id s x =
      (get_node_id_from_left_edge level_db schema s.it id s.graph ≡ ok x)
      × (get_node_id_from_right_edge level_db schema s.it id s.graph ≡ ok x)
  IsEnd ConstraintType.not_constrained id s x = Unit

  -- Edge `x` is an edge of the nodes beside it.
  abbrev pub IsBeside : ConstraintType → ℕ → S → Text → Type 0
  IsBeside ConstraintType.left_constrained id s x =
      Among (left_edges floats level_db schema nodes edges keys) id s x
  IsBeside ConstraintType.right_constrained id s x =
      Among (right_edges floats level_db schema nodes edges keys) id s x
  IsBeside ConstraintType.both_constrained id s x =
      Among (left_edges floats level_db schema nodes edges keys) id s x
      × Among (right_edges floats level_db schema nodes edges keys) id s x
  IsBeside ConstraintType.not_constrained id s x = Unit

  abbrev pub Fits : ConstraintType → ℕ → S → Text → Type 0
  Fits c id s x = (is_node id ≡ true → IsEnd c id s x) × (is_node id ≡ false → IsBeside c id s x)

  -- What stands at the position of a step, unless the query gives it, fits to what stands beside it.
  abbrev pub Linked : S → DeductionTrait → Type 0
  Linked s dt =
      dt.direct ≡ false
      → (x : Text) × (candidate s.it dt.id ≡ some x) × Fits dt.constraint dt.id s x

  edge_at-Kept : (i : ℕ) (s s' : S) → KeptAt s s' i → edge_at s'.it i ≡ edge_at s.it i
  unfolding edge_at edge_index
  edge_at-Kept i s s' k = elim (Bool-cases (is_node i)) [
    | inl here ↦ ground (arith, here)
    | inr other ↦ ground (arith, other, k.same)
  ]

  node_at-Kept : (i : ℕ) (s s' : S) → KeptAt s s' i → node_at s'.it i ≡ node_at s.it i
  unfolding node_at node_index
  node_at-Kept i s s' k = elim (Bool-cases (is_node i)) [
    | inl here ↦ ground (arith, here, k.same)
    | inr other ↦ ground (arith, other)
  ]

  direction_at-Kept :
      (i id : ℕ) (s s' : S) → KeptAt s s' i → direction_at s'.it id ≡ direction_at s.it id
  unfolding direction_at edge_index
  direction_at-Kept i id s s' k =
      ground (arith, ap (λ (q : GraphSqlSentence). get_elem? q.first.edges (id / 2)) k.sentence)

  pub left_end-Kept :
      (id : ℕ) (s s' : S)
      → KeptAt s s' (id - 1)
      → get_node_id_from_left_edge level_db schema s'.it id s'.graph
        ≡ get_node_id_from_left_edge level_db schema s.it id s.graph
  unfolding get_node_id_from_left_edge get_edge
  left_end-Kept id s s' k =
      rw (edge_at-Kept (id - 1) s s' k, direction_at-Kept (id - 1) (id - 1) s s' k, k.db) refl

  pub right_end-Kept :
      (id : ℕ) (s s' : S)
      → KeptAt s s' (id + 1)
      → get_node_id_from_right_edge level_db schema s'.it id s'.graph
        ≡ get_node_id_from_right_edge level_db schema s.it id s.graph
  unfolding get_node_id_from_right_edge get_edge
  right_end-Kept id s s' k =
      rw (edge_at-Kept (id + 1) s s' k, direction_at-Kept (id + 1) (id + 1) s s' k, k.db) refl

  left_edges-Kept :
      (id : ℕ) (s s' : S) (x : Text)
      → KeptAt s s' (id - 1)
      → Among (left_edges floats level_db schema nodes edges keys) id s x
      → Among (left_edges floats level_db schema nodes edges keys) id s' x
  unfolding left_edges
  left_edges-Kept id s s' x k (g, r, db, read, there) = (
    g,
    r,
    db ∙ sym k.db,
    rw (direction_at-Kept (id - 1) id s s' k, node_at-Kept (id - 1) s s' k) read,
    there,
  )

  right_edges-Kept :
      (id : ℕ) (s s' : S) (x : Text)
      → KeptAt s s' (id + 1)
      → Among (right_edges floats level_db schema nodes edges keys) id s x
      → Among (right_edges floats level_db schema nodes edges keys) id s' x
  unfolding right_edges
  right_edges-Kept id s s' x k (g, r, db, read, there) = (
    g,
    r,
    db ∙ sym k.db,
    rw (direction_at-Kept (id + 1) id s s' k, node_at-Kept (id + 1) s s' k) read,
    there,
  )

  IsEnd-Kept :
      (c : ConstraintType) (id : ℕ) (s s' : S) (x : Text)
      → Around (KeptAt s s') c id
      → IsEnd c id s x
      → IsEnd c id s' x
  IsEnd-Kept ConstraintType.left_constrained id s s' x k h = left_end-Kept id s s' k ∙ h
  IsEnd-Kept ConstraintType.right_constrained id s s' x k h = right_end-Kept id s s' k ∙ h
  IsEnd-Kept ConstraintType.both_constrained id s s' x k h =
      (left_end-Kept id s s' k.0 ∙ h.0, right_end-Kept id s s' k.1 ∙ h.1)
  IsEnd-Kept ConstraintType.not_constrained id s s' x k h = tt

  IsBeside-Kept :
      (c : ConstraintType) (id : ℕ) (s s' : S) (x : Text)
      → Around (KeptAt s s') c id
      → IsBeside c id s x
      → IsBeside c id s' x
  IsBeside-Kept ConstraintType.left_constrained id s s' x k h = left_edges-Kept id s s' x k h
  IsBeside-Kept ConstraintType.right_constrained id s s' x k h = right_edges-Kept id s s' x k h
  IsBeside-Kept ConstraintType.both_constrained id s s' x k h =
      (left_edges-Kept id s s' x k.0 h.0, right_edges-Kept id s s' x k.1 h.1)
  IsBeside-Kept ConstraintType.not_constrained id s s' x k h = tt

  pub Fits-Kept :
      (c : ConstraintType) (id : ℕ) (s s' : S) (x : Text)
      → Around (KeptAt s s') c id
      → Fits c id s x
      → Fits c id s' x
  Fits-Kept c id s s' x k h =
      (λ e. IsEnd-Kept c id s s' x k (h.0 e), λ e. IsBeside-Kept c id s s' x k (h.1 e))
