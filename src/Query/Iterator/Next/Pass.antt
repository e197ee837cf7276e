-- ===== src/Query/Iterator/Next/Pass.antt =====
-- What findNextPossible of include/backend/leveldbgraph_iterator.inc finds.
use network_algo.Prelude.{ℕ, ◌≡◌, refl, subst, ◌∙◌, Bool, true, false, List, [], ◌∷◌, Text}
use network_algo.Reflection.Compare.{Floats, Reflection}
use network_algo.Graph.Keys.{Suffix, suffix_text, add_suffix}
use network_algo.Query.Iterator.Ends.{get_node_id_from_left_edge, get_node_id_from_right_edge}
use network_algo.Graph.Storage.{LevelDb, Schema}
use network_algo.Graph.Operations.{Graph}
use network_algo.Query.Deduction.{ConstraintType, DeductionTrait, is_node}
use network_algo.Query.Iterator.{
  Result, ok, err, Iterator, node_at, edge_at, check_right_constrained,
}
use network_algo.Query.Iterator.Candidates.{put_node, put_edge, ids_with_suffix}
use network_algo.Query.Iterator.Search.{and_also, self}
use network_algo.Query.Iterator.Search.Frame.{
  Ensures, Ensures-bind, Ensures-any, Ensures-test, put_node-PutKeeps, put_edge-PutKeeps, weaken,
}
use network_algo.Query.Iterator.Search.Reads.{KeepsDb}
use network_algo.Query.Iterator.Search.Sound.{graph-Kept}
use network_algo.Query.Iterator.Search.Pass.{AreDistinct, left_edges-KeepsDb, right_edges-KeepsDb}
use network_algo.Query.Iterator.Next.{
  seek, step, try_next, next_known, node_candidates, next_node, edge_candidates, shared_edges,
  next_edge_behind, next_edge, find_next_possible,
}
use network_algo.Query.Iterator.Next.Moved.{
  S, KeptAt, Fresh, Pass, Pass-behind, try_next-CandidateTaken, Finds, Back, Reads, hit,
  next_round-Finds, next_known-Finds,
}

module _ (floats : Floats) (level_db : LevelDb) (schema : Schema)
    (nodes : Reflection floats schema.Node) (edges : Reflection floats schema.Edge)
    (keys : level_db.Db → List Text) where
  abbrev State : Type 0
  State = S floats level_db schema nodes edges keys

  abbrev Keeps : State → State → Type 0
  Keeps s s' = (id : ℕ) → KeptAt floats level_db schema nodes edges keys id s s'

  abbrev FindsAt : List DeductionTrait → State → Bool × State → Type 0
  FindsAt steps s r = Finds floats level_db schema nodes edges keys steps s r

  abbrev BackAt : List DeductionTrait → (State → Result (Bool × State)) → Type 0
  BackAt steps back = Back floats level_db schema nodes edges keys steps back

  abbrev FreshAt : ℕ → List DeductionTrait → Type 0
  FreshAt id steps = Fresh floats level_db schema nodes edges keys id steps

  node_candidates-Reads :
      (id : ℕ) (ks : List Text)
      → Reads floats level_db schema nodes edges keys
          (node_candidates floats level_db schema nodes edges keys id ks)
  unfolding node_candidates
  node_candidates-Reads id ks true s =
      Ensures-any (λ got. Keeps s got.1) (node_at s.it id) _
        λ x.
          Ensures-any {B = List Text × State} (λ got. Keeps s got.1)
            (step (seek (add_suffix x Suffix.node_data) ks)) _
            λ rest i. record { sentence = refl; same = refl; db = refl }
  node_candidates-Reads id ks false s = λ i. record { sentence = refl; same = refl; db = refl }

  edge_candidates-Kept :
      (x : Text) (first : Bool) (got : Result (List Text × Graph level_db)) (s : State)
      → Ensures (KeepsDb level_db schema s.graph) got
      → Ensures
          (λ r. Keeps s r.1)
          (edge_candidates floats level_db schema nodes edges keys x first got s)
  edge_candidates-Kept x first got s h =
      Ensures-bind (KeepsDb level_db schema s.graph) (λ r. Keeps s r.1) got _ h
        λ r same id. graph-Kept floats level_db schema nodes edges keys id s r.1 same

  shared_edges-KeepsDb :
      (id : ℕ) (s : State)
      → Ensures
          (KeepsDb level_db schema s.graph)
          (shared_edges floats level_db schema nodes edges keys id s)
  unfolding shared_edges
  shared_edges-KeepsDb id s =
      Ensures-bind (KeepsDb level_db schema s.graph) (KeepsDb level_db schema s.graph) _ _
        (left_edges-KeepsDb floats level_db schema nodes edges keys id s)
        λ lefts first.
          Ensures-bind (KeepsDb level_db schema lefts.1) (KeepsDb level_db schema s.graph) _ _
            (right_edges-KeepsDb floats level_db schema nodes edges keys id
              (record s { graph = lefts.1 }))
            λ rights second. second ∙ first

  known-Finds :
      (ends : Iterator → ℕ → Graph level_db → Result Text)
      (tests : ℕ → State → Result (Bool × Graph level_db)) (dt : DeductionTrait)
      (before : List DeductionTrait) (back : State → Result (Bool × State)) (rounds : ℕ) (s : State)
      → Ensures
          (FindsAt (dt ∷ before) s)
          (next_known floats level_db schema nodes edges keys ends tests back dt.id rounds s)
  known-Finds ends tests dt before back rounds s =
      weaken (next_known floats level_db schema nodes edges keys ends tests back dt.id rounds s)
        (next_known-Finds floats level_db schema nodes edges keys ends tests back dt.id rounds s)
        λ r none e. cc

  next_node-Finds :
      (c : ConstraintType) (dt : DeductionTrait) (before : List DeductionTrait)
      (back : State → Result (Bool × State)) (rounds : ℕ) (s : State)
      → BackAt before back
      → FreshAt dt.id before
      → Ensures
          (FindsAt (dt ∷ before) s)
          (next_node floats level_db schema nodes edges keys back rounds c dt.id s)
  unfolding next_node
  next_node-Finds ConstraintType.left_constrained dt before back rounds s b f =
      known-Finds (get_node_id_from_left_edge level_db schema)
        (self floats level_db schema nodes edges keys) dt before back rounds s
  next_node-Finds ConstraintType.right_constrained dt before back rounds s b f =
      known-Finds (get_node_id_from_right_edge level_db schema)
        (self floats level_db schema nodes edges keys) dt before back rounds s
  next_node-Finds ConstraintType.both_constrained dt before back rounds s b f =
      known-Finds (get_node_id_from_left_edge level_db schema)
        (λ i t.
          and_also floats level_db schema nodes edges keys
            (self floats level_db schema nodes edges keys i t)
            λ g. check_right_constrained level_db schema t.it i g)
        dt before back rounds s
  next_node-Finds ConstraintType.not_constrained dt before back rounds s b f =
      next_round-Finds floats level_db schema nodes edges keys _ put_node back dt before rounds true
        s (node_candidates-Reads dt.id (keys s.graph.db)) put_node-PutKeeps b f

  next_edge_behind-Finds :
      (c : ConstraintType) (x : Text) (dt : DeductionTrait) (before : List DeductionTrait)
      (back : State → Result (Bool × State)) (rounds : ℕ) (s : State)
      → BackAt before back
      → FreshAt dt.id before
      → Ensures
          (FindsAt (dt ∷ before) s)
          (next_edge_behind floats level_db schema nodes edges keys x back rounds c dt.id s)
  unfolding next_edge_behind
  next_edge_behind-Finds ConstraintType.left_constrained x dt before back rounds s b f =
      next_round-Finds floats level_db schema nodes edges keys _ put_edge back dt before rounds true
        s
        (λ first t.
          edge_candidates-Kept x first _ t
            (left_edges-KeepsDb floats level_db schema nodes edges keys dt.id t))
        put_edge-PutKeeps b f
  next_edge_behind-Finds ConstraintType.right_constrained x dt before back rounds s b f =
      next_round-Finds floats level_db schema nodes edges keys _ put_edge back dt before rounds true
        s
        (λ first t.
          edge_candidates-Kept x first _ t
            (right_edges-KeepsDb floats level_db schema nodes edges keys dt.id t))
        put_edge-PutKeeps b f
  next_edge_behind-Finds ConstraintType.both_constrained x dt before back rounds s b f =
      next_round-Finds floats level_db schema nodes edges keys _ put_edge back dt before rounds true
        s (λ first t. edge_candidates-Kept x first _ t (shared_edges-KeepsDb dt.id t))
        put_edge-PutKeeps b f
  next_edge_behind-Finds ConstraintType.not_constrained x dt before back rounds s b f =
      weaken {Q = FindsAt (dt ∷ before) s}
        (try_next floats level_db schema nodes edges keys put_edge dt.id
          (ids_with_suffix (suffix_text Suffix.edge_data)
            (seek (add_suffix x Suffix.edge_data) (keys s.graph.db)))
          s)
        (try_next-CandidateTaken floats level_db schema nodes edges keys put_edge dt.id _ s
          put_edge-PutKeeps)
        (hit floats level_db schema nodes edges keys dt before s f)

  next_edge-Finds :
      (dt : DeductionTrait) (before : List DeductionTrait) (back : State → Result (Bool × State))
      (rounds : ℕ) (s : State)
      → BackAt before back
      → FreshAt dt.id before
      → Ensures
          (FindsAt (dt ∷ before) s)
          (next_edge floats level_db schema nodes edges keys back rounds dt.constraint dt.id s)
  unfolding next_edge
  next_edge-Finds dt before back rounds s b f =
      Ensures-any (FindsAt (dt ∷ before) s) (edge_at s.it dt.id) _
        λ edge_id. next_edge_behind-Finds dt.constraint _ dt before back rounds s b f

  find_next_possible-Finds :
      (rounds : ℕ) (steps : List DeductionTrait)
      → AreDistinct floats level_db schema nodes edges keys steps
      → BackAt steps (find_next_possible floats level_db schema nodes edges keys rounds steps)
  unfolding find_next_possible
  find_next_possible-Finds rounds [] d s = λ e. cc
  find_next_possible-Finds rounds (dt ∷ before) d s =
      let back = find_next_possible-Finds rounds before d.1 in
      Ensures-test (FindsAt (dt ∷ before) s) dt.direct _ _ (λ direct e. cc)
        λ searched.
          Ensures-test (FindsAt (dt ∷ before) s) (is_node dt.id) _ _
            (λ node. next_node-Finds dt.constraint dt before _ rounds s back d.0)
            λ edge. next_edge-Finds dt before _ rounds s back d.0

  finds-all :
      (steps : List DeductionTrait) (s : State) (m : Result (Bool × State)) (s' : State)
      → Ensures (FindsAt steps s) m
      → m ≡ ok (true, s')
      → Pass floats level_db schema nodes edges keys s steps
      → Pass floats level_db schema nodes edges keys s' steps
  finds-all steps s (err e) s' h e' p = cc
  finds-all steps s (ok r) s' h e p =
      let at : r ≡ (true, s') = cc in
      (subst (FindsAt steps s) at h refl).good
        (Pass-behind floats level_db schema nodes edges keys s steps p)

  -- If every position of the steps passed isSelfConstrained before findNextPossible, no two of the steps
  -- are about one position, and findNextPossible returns true, then every position passes afterwards.
  pub find_next_possible-AllPass :
      (rounds : ℕ) (steps : List DeductionTrait) (s s' : State)
      → AreDistinct floats level_db schema nodes edges keys steps
      → Pass floats level_db schema nodes edges keys s steps
      → find_next_possible floats level_db schema nodes edges keys rounds steps s ≡ ok (true, s')
      → Pass floats level_db schema nodes edges keys s' steps
  find_next_possible-AllPass rounds steps s s' d p h =
      finds-all steps s _ s' (find_next_possible-Finds rounds steps d s) h p
