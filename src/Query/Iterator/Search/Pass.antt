-- ===== src/Query/Iterator/Search/Pass.antt =====
-- Every position of a pattern that a search has found passes its test.
use network_algo.Prelude.{
  ℕ, ◌+◌, ◌-◌, ◌≡◌, refl, sym, ap, ◌∙◌, subst, Bool, true, false, not, List, [], ◌∷◌, Text,
}
use network_algo.Dsl.Syntax.{GraphSqlSentence}
use network_algo.Reflection.Compare.{Floats, Reflection}
use network_algo.Graph.Storage.{LevelDb, Schema}
use network_algo.Graph.Operations.{Graph}
use network_algo.Query.Deduction.{ConstraintType, DeductionTrait, is_node}
use network_algo.Query.Iterator.{
  Result, ok, err, ◌>>=◌, Iterator, at, node_index, edge_index, node_at, direction_at,
}
use network_algo.Query.Iterator.Ends.{get_node_id_from_left_edge, get_node_id_from_right_edge}
use network_algo.Query.Iterator.Candidates.{put_node, put_edge, left_side, right_side, blank}
use network_algo.Query.Iterator.Search.{
  Search, try_each, search_node, left_edges, right_edges, search_edge, search_node_step,
  search_edge_step, search_position, search_possible, open_iterator,
}
use network_algo.Query.Iterator.Search.Frame.{
  Ensures, Ensures-bind, Ensures-any, Ensures-if, Ensures-test, put_node-PutKeeps,
  put_edge-PutKeeps, weaken,
}
use network_algo.Query.Iterator.Search.Reads.{KeepsDb, ids_of-KeepsDb}
use network_algo.Query.Iterator.Search.Sound.{State, IsFresh, AllPass, Sound, IsSound}
use network_algo.Query.Iterator.Search.Attempts.{
  try_each-Sound, search_direct-Sound, search_known-Sound, search_between-Sound, still,
}

module _ (floats : Floats) (level_db : LevelDb) (schema : Schema)
    (nodes : Reflection floats schema.Node) (edges : Reflection floats schema.Edge)
    (keys : level_db.Db → List Text) where
  abbrev S : Type 0
  S = State floats level_db schema nodes edges keys

  abbrev SoundAt : List DeductionTrait → S → S → Type 0
  SoundAt steps s s' = Sound floats level_db schema nodes edges keys steps s s'

  abbrev Next : List DeductionTrait → (S → Result S) → Type 0
  Next steps next = IsSound floats level_db schema nodes edges keys steps next

  abbrev Fresh : ℕ → List DeductionTrait → Type 0
  Fresh id steps = IsFresh floats level_db schema nodes edges keys id steps

  search_node-Sound :
      (c : ConstraintType) (dt : DeductionTrait) (steps : List DeductionTrait) (next : S → Result S)
      (s : S)
      → Next steps next
      → Fresh dt.id steps
      → Ensures
          (SoundAt (dt ∷ steps) s)
          (search_node floats level_db schema nodes edges keys next c dt.id s)
  unfolding search_node
  search_node-Sound ConstraintType.left_constrained dt steps next s n f =
      Ensures-any (SoundAt (dt ∷ steps) s)
        (get_node_id_from_left_edge level_db schema s.it dt.id s.graph) _
        λ x. search_known-Sound floats level_db schema nodes edges keys dt steps next x s n f
  search_node-Sound ConstraintType.right_constrained dt steps next s n f =
      Ensures-any (SoundAt (dt ∷ steps) s)
        (get_node_id_from_right_edge level_db schema s.it dt.id s.graph) _
        λ x. search_known-Sound floats level_db schema nodes edges keys dt steps next x s n f
  search_node-Sound ConstraintType.both_constrained dt steps next s n f =
      search_between-Sound floats level_db schema nodes edges keys dt steps next s n f
  search_node-Sound ConstraintType.not_constrained dt steps next s n f =
      try_each-Sound floats level_db schema nodes edges keys put_node dt steps next _ s
        put_node-PutKeeps n f

  pub left_edges-KeepsDb :
      (id : ℕ) (s : S)
      → Ensures
          (KeepsDb level_db schema s.graph)
          (left_edges floats level_db schema nodes edges keys id s)
  unfolding left_edges
  left_edges-KeepsDb id s =
      Ensures-any (KeepsDb level_db schema s.graph) (direction_at s.it id) _ λ direction.
        Ensures-any (KeepsDb level_db schema s.graph) (node_at s.it (id - 1)) _
          λ node. ids_of-KeepsDb level_db schema (left_side direction) node s.graph

  pub right_edges-KeepsDb :
      (id : ℕ) (s : S)
      → Ensures
          (KeepsDb level_db schema s.graph)
          (right_edges floats level_db schema nodes edges keys id s)
  unfolding right_edges
  right_edges-KeepsDb id s =
      Ensures-any (KeepsDb level_db schema s.graph) (direction_at s.it id) _ λ direction.
        Ensures-any (KeepsDb level_db schema s.graph) (node_at s.it (id + 1)) _
          λ node. ids_of-KeepsDb level_db schema (right_side direction) node s.graph

  -- The edges of a set that was read, one after the other.
  each_edge-Sound :
      (dt : DeductionTrait) (steps : List DeductionTrait) (next : S → Result S) (xs : List Text)
      (s : S) (g : Graph level_db)
      → Next steps next
      → Fresh dt.id steps
      → g.db ≡ s.graph.db
      → Ensures (SoundAt (dt ∷ steps) s) (
          try_each floats level_db schema nodes edges keys put_edge next dt.id xs
            (record s { graph = g }))
  each_edge-Sound dt steps next xs s g n f h =
      weaken
        (try_each floats level_db schema nodes edges keys put_edge next dt.id xs
          (record s { graph = g }))
        (try_each-Sound floats level_db schema nodes edges keys put_edge dt steps next xs
          (record s { graph = g }) put_edge-PutKeeps n f)
        λ s' sound. still floats level_db schema nodes edges keys (dt ∷ steps) s g h s' sound

  search_edge-Sound :
      (c : ConstraintType) (dt : DeductionTrait) (steps : List DeductionTrait) (next : S → Result S)
      (s : S)
      → Next steps next
      → Fresh dt.id steps
      → Ensures
          (SoundAt (dt ∷ steps) s)
          (search_edge floats level_db schema nodes edges keys next c dt.id s)
  unfolding search_edge
  search_edge-Sound ConstraintType.left_constrained dt steps next s n f =
      Ensures-bind (KeepsDb level_db schema s.graph) (SoundAt (dt ∷ steps) s) _ _
        (left_edges-KeepsDb dt.id s) λ got h. each_edge-Sound dt steps next got.0 s got.1 n f h
  search_edge-Sound ConstraintType.right_constrained dt steps next s n f =
      Ensures-bind (KeepsDb level_db schema s.graph) (SoundAt (dt ∷ steps) s) _ _
        (right_edges-KeepsDb dt.id s) λ got h. each_edge-Sound dt steps next got.0 s got.1 n f h
  search_edge-Sound ConstraintType.both_constrained dt steps next s n f =
      Ensures-bind (KeepsDb level_db schema s.graph) (SoundAt (dt ∷ steps) s) _ _
        (left_edges-KeepsDb dt.id s)
        λ lefts h.
          Ensures-bind (KeepsDb level_db schema lefts.1) (SoundAt (dt ∷ steps) s) _ _
            (right_edges-KeepsDb dt.id (record s { graph = lefts.1 }))
            λ rights k. each_edge-Sound dt steps next _ s rights.1 n f (k ∙ h)
  search_edge-Sound ConstraintType.not_constrained dt steps next s n f =
      try_each-Sound floats level_db schema nodes edges keys put_edge dt steps next _ s
        put_edge-PutKeeps n f

  search_position-Sound :
      (dt : DeductionTrait) (steps : List DeductionTrait) (next : S → Result S) (s : S)
      → Next steps next
      → Fresh dt.id steps
      → Ensures
          (SoundAt (dt ∷ steps) s)
          (search_position floats level_db schema nodes edges keys next dt s)
  unfolding search_position search_node_step search_edge_step
  search_position-Sound dt steps next s n f =
      Ensures-if (SoundAt (dt ∷ steps) s) (is_node dt.id) _ _
        (Ensures-any (SoundAt (dt ∷ steps) s) (node_index dt.id) _ λ i.
          Ensures-any (SoundAt (dt ∷ steps) s) (at s.it.sql.first.nodes i) _ λ query.
            Ensures-if (SoundAt (dt ∷ steps) s) dt.direct _ _
              (search_direct-Sound floats level_db schema nodes edges keys put_node query.properties
                dt steps next s put_node-PutKeeps n f)
              (search_node-Sound dt.constraint dt steps next s n f))
        (Ensures-any (SoundAt (dt ∷ steps) s) (edge_index dt.id) _ λ i.
          Ensures-any (SoundAt (dt ∷ steps) s) (at s.it.sql.first.edges i) _ λ query.
            Ensures-if (SoundAt (dt ∷ steps) s) dt.direct _ _
              (search_direct-Sound floats level_db schema nodes edges keys put_edge query.properties
                dt steps next s put_edge-PutKeeps n f)
              (search_edge-Sound dt.constraint dt steps next s n f))

  -- No two steps are about one position.
  abbrev pub AreDistinct : List DeductionTrait → Type 0
  AreDistinct [] = Unit
  AreDistinct (dt ∷ steps) = Fresh dt.id steps × AreDistinct steps

  pub search_possible-Sound :
      (steps : List DeductionTrait)
      → AreDistinct steps
      → Next steps (search_possible floats level_db schema nodes edges keys steps)
  unfolding search_possible
  search_possible-Sound [] d s = record {
    keeps = λ id h. record { sentence = refl; same = refl; db = refl };
    good = λ lost won. tt;
  }
  search_possible-Sound (dt ∷ steps) d s =
      Ensures-test (SoundAt (dt ∷ steps) s) s.found _ _
        (λ found. record {
          keeps = λ id h. record { sentence = refl; same = refl; db = refl };
          good = λ lost won. cc;
        })
        (λ lost.
          search_position-Sound dt steps
            (search_possible floats level_db schema nodes edges keys steps) s
            (search_possible-Sound steps d.1) d.0)

not-false : (b : Bool) → not b ≡ false → b ≡ true
not-false true h = refl
not-false false h = cc

pub result_of :
    {S : Type 0} (P : S → Type 0) (found : S → Bool) (m : Result S) (s : S)
    → Ensures P m
    → ◌>>=◌ {B = S × Bool} m (λ t. ok (t, not (found t))) ≡ ok (s, false)
    → P s × (found s ≡ true)
result_of P found (err e) s p h = cc
result_of P found (ok t) s p h =
    let same : t ≡ s = cc in
    let at_end : not (found t) ≡ false = cc in
    (subst P same p, ap found (sym same) ∙ not-false (found t) at_end)

-- If an iterator over the result of a query does not begin at its end, and no two deduction steps are
-- about one position, then at the position of every step the candidate that was found passes
-- isSelfConstrained.
pub open_iterator-AllPass :
    (floats : Floats) (level_db : LevelDb) (schema : Schema) (nodes : Reflection floats schema.Node)
    (edges : Reflection floats schema.Edge) (keys : level_db.Db → List Text) (gs : GraphSqlSentence)
    (steps : List DeductionTrait) (g : Graph level_db)
    (s : Search floats level_db schema nodes edges keys)
    → AreDistinct floats level_db schema nodes edges keys steps
    → open_iterator floats level_db schema nodes edges keys gs steps g ≡ ok (s, false)
    → AllPass floats level_db schema nodes edges keys s steps
unfolding open_iterator
open_iterator-AllPass floats level_db schema nodes edges keys gs steps g s d h =
    let it : Iterator = record {
      sql = gs;
      deduction_steps = steps;
      nodes_id = blank gs.first.nodes;
      edges_id = blank gs.first.edges;
    } in
    let s₀ : Search floats level_db schema nodes edges keys = record {
      it = it;
      graph = g;
      found = false;
    } in
    let r =
      result_of (Sound floats level_db schema nodes edges keys steps s₀) (λ t. t.found)
        (search_possible floats level_db schema nodes edges keys steps s₀) s
        (search_possible-Sound floats level_db schema nodes edges keys steps d s₀) h in
    r.0.good refl r.1
