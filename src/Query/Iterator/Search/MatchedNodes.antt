-- ===== src/Query/Iterator/Search/MatchedNodes.antt =====
-- The nodes that a search finds are ends of the edges beside them, or given by the query.
use network_algo.Prelude.{
  ℕ, ◌+◌, ◌≡◌, refl, sym, ap, ◌∙◌, Bool, true, List, ◌∷◌, Text, text_eq, text_eq_iff, some, arith,
}
use network_algo.Dsl.Syntax.{Properties}
use network_algo.Reflection.Compare.{Floats, Reflection}
use network_algo.Graph.Storage.{LevelDb, Schema}
use network_algo.Query.Deduction.{ConstraintType, DeductionTrait, is_node}
use network_algo.Query.Iterator.{Result, ok, Iterator}
use network_algo.Query.Iterator.Ends.{get_node_id_from_left_edge, get_node_id_from_right_edge}
use network_algo.Query.Iterator.Candidates.{put_node, direct_id}
use network_algo.Query.Iterator.Search.{
  self, allowed, search_direct, search_known, search_between, search_node,
}
use network_algo.Query.Iterator.Search.Frame.{
  Ensures, Ensures-bind, Ensures-any, Ensures-at, Ensures-test, PutKeeps, put_node-PutKeeps,
  candidate,
}
use network_algo.Query.Iterator.Search.Sound.{State, self-Checks}
use network_algo.Query.Iterator.Search.Attempts.{Putting, allowed-Checks}
use network_algo.Query.Iterator.Search.Linked.{right_end-Kept}
use network_algo.Query.Iterator.Search.Match.{
  Ensures-both, PutsThere, put_node-there, LinkedBy, Further, IsAfter, FitsAt, tried-Linked,
  try_each-Linked,
}

module _ (floats : Floats) (level_db : LevelDb) (schema : Schema)
    (nodes : Reflection floats schema.Node) (edges : Reflection floats schema.Edge)
    (keys : level_db.Db → List Text) where
  abbrev S : Type 0
  S = State floats level_db schema nodes edges keys

  abbrev Links : List DeductionTrait → S → S → Type 0
  Links steps s s' = LinkedBy floats level_db schema nodes edges keys steps s s'

  abbrev Before : DeductionTrait → List DeductionTrait → (S → Result S) → Type 0
  Before dt steps next = Further floats level_db schema nodes edges keys dt steps next

  abbrev After : DeductionTrait → List DeductionTrait → Type 0
  After dt steps = IsAfter floats level_db schema nodes edges keys dt steps

  pub search_direct-Linked :
      (put : Iterator → ℕ → Text → Result Iterator) (dt : DeductionTrait)
      (steps : List DeductionTrait) (next : S → Result S) (s : S) (properties : Properties)
      → Putting floats level_db schema nodes edges keys put
      → PutsThere put
      → Before dt steps next
      → dt.direct ≡ true
      → Ensures
          (Links (dt ∷ steps) s)
          (search_direct floats level_db schema nodes edges keys put properties next dt s)
  unfolding search_direct
  search_direct-Linked put dt steps next s properties p q n d =
      Ensures-any (Links (dt ∷ steps) s) (direct_id properties) _ λ x.
        Ensures-bind (λ it. PutKeeps dt.id s.it it × (candidate it dt.id ≡ some x))
          (Links (dt ∷ steps) s) (put s.it dt.id x) _
          (Ensures-both (PutKeeps dt.id s.it) (λ it. candidate it dt.id ≡ some x) (put s.it dt.id x)
            (p s.it dt.id x) (q s.it dt.id x))
          λ it kept.
            tried-Linked floats level_db schema nodes edges keys dt steps next s it x
              (allowed floats level_db schema nodes edges keys dt (record s { it = it })) n kept.0
              kept.1 (λ given. absurd (ground (arith, given, d)))
              (allowed-Checks floats level_db schema nodes edges keys dt (record s { it = it }))

  search_known-Linked :
      (dt : DeductionTrait) (steps : List DeductionTrait) (next : S → Result S) (s : S) (x : Text)
      → Before dt steps next
      → After dt steps
      → FitsAt floats level_db schema nodes edges keys dt s x
      → Ensures
          (Links (dt ∷ steps) s)
          (search_known floats level_db schema nodes edges keys next dt.id x s)
  unfolding search_known
  search_known-Linked dt steps next s x n a fit =
      Ensures-bind (λ it. PutKeeps dt.id s.it it × (candidate it dt.id ≡ some x))
        (Links (dt ∷ steps) s) (put_node s.it dt.id x) _
        (Ensures-both (PutKeeps dt.id s.it) (λ it. candidate it dt.id ≡ some x)
          (put_node s.it dt.id x) (put_node-PutKeeps s.it dt.id x) (put_node-there s.it dt.id x))
        λ it kept.
          let t : S = record s { it = it } in
          tried-Linked floats level_db schema nodes edges keys dt steps next s it x
            (self floats level_db schema nodes edges keys dt.id t) n kept.0 kept.1
            (λ given. (a, fit)) (self-Checks floats level_db schema nodes edges keys dt.id t)

  -- A node between two known edges.
  search_between-Linked :
      (id : ℕ) (direct : Bool) (steps : List DeductionTrait) (next : S → Result S) (s : S)
      → is_node id ≡ true
      → Before
          (record { id = id; constraint = ConstraintType.both_constrained; direct = direct })
          steps
          next
      → After
          (record { id = id; constraint = ConstraintType.both_constrained; direct = direct })
          steps
      → Ensures
          (Links
            (record { id = id; constraint = ConstraintType.both_constrained; direct = direct }
              ∷ steps)
            s)
          (search_between floats level_db schema nodes edges keys next id s)
  unfolding search_between
  search_between-Linked id direct steps next s node n a =
      let dt : DeductionTrait = record {
        id = id;
        constraint = ConstraintType.both_constrained;
        direct = direct;
      } in
      Ensures-at (Links (dt ∷ steps) s) (get_node_id_from_left_edge level_db schema s.it id s.graph)
        _
        λ x left.
          Ensures-bind (λ it. PutKeeps id s.it it × (candidate it id ≡ some x))
            (Links (dt ∷ steps) s) (put_node s.it id x) _
            (Ensures-both (PutKeeps id s.it) (λ it. candidate it id ≡ some x) (put_node s.it id x)
              (put_node-PutKeeps s.it id x) (put_node-there s.it id x))
            λ it kept.
              Ensures-at (Links (dt ∷ steps) s)
                (get_node_id_from_right_edge level_db schema it id s.graph) _
                λ y right.
                  Ensures-test (Links (dt ∷ steps) s) (text_eq x y) _ _
                    (λ same.
                      let t : S = record s { it = it } in
                      let kept_right =
                        right_end-Kept floats level_db schema nodes edges keys id s t (record {
                          sentence = kept.0.0;
                          same = kept.0.1 (id + 1) a.1.0;
                          db = refl;
                        }) in
                      let far : get_node_id_from_right_edge level_db schema s.it id s.graph ≡ ok x =
                        sym kept_right ∙ right ∙ ap ok (sym ((text_eq_iff x y).0 same)) in
                      tried-Linked floats level_db schema nodes edges keys dt steps next s it x
                        (self floats level_db schema nodes edges keys id t) n kept.0 kept.1
                        (λ given. (a, ((λ e. (left, far)), λ e. absurd (ground (arith, e, node)))))
                        (self-Checks floats level_db schema nodes edges keys id t))
                    λ other lost won. cc

  pub search_node-Linked :
      (c : ConstraintType) (id : ℕ) (direct : Bool) (steps : List DeductionTrait)
      (next : S → Result S) (s : S)
      → is_node id ≡ true
      → Before (record { id = id; constraint = c; direct = direct }) steps next
      → After (record { id = id; constraint = c; direct = direct }) steps
      → Ensures
          (Links (record { id = id; constraint = c; direct = direct } ∷ steps) s)
          (search_node floats level_db schema nodes edges keys next c id s)
  unfolding search_node
  search_node-Linked ConstraintType.left_constrained id direct steps next s node n a =
      Ensures-at _ (get_node_id_from_left_edge level_db schema s.it id s.graph) _ λ x here.
        search_known-Linked
          (record { id = id; constraint = ConstraintType.left_constrained; direct = direct }) steps
          next s x n a ((λ e. here), λ e. absurd (ground (arith, e, node)))
  search_node-Linked ConstraintType.right_constrained id direct steps next s node n a =
      Ensures-at _ (get_node_id_from_right_edge level_db schema s.it id s.graph) _ λ x here.
        search_known-Linked
          (record { id = id; constraint = ConstraintType.right_constrained; direct = direct }) steps
          next s x n a ((λ e. here), λ e. absurd (ground (arith, e, node)))
  search_node-Linked ConstraintType.both_constrained id direct steps next s node n a =
      search_between-Linked id direct steps next s node n a
  search_node-Linked ConstraintType.not_constrained id direct steps next s node n a =
      try_each-Linked floats level_db schema nodes edges keys put_node
        (record { id = id; constraint = ConstraintType.not_constrained; direct = direct }) steps
        next _ s put_node-PutKeeps put_node-there n a λ x h. ((λ e. tt), λ e. tt)
