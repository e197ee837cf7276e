-- ===== src/Query/Iterator/Search/Sound.antt =====
-- What a search that finds something has found.
use network_algo.Prelude.{
  ℕ, ◌/◌, ◌≡◌, ◌≢◌, refl, sym, ap, ◌∙◌, Bool, true, false, List, ◌∷◌, Text, get_elem?, arith, inl,
  inr, Bool-cases, All,
}
use network_algo.Dsl.Syntax.{GraphSqlSentence}
use network_algo.Reflection.Compare.{Floats, Reflection}
use network_algo.Graph.Storage.{LevelDb, Schema}
use network_algo.Graph.Operations.{Graph, get_node, get_edge}
use network_algo.Query.Deduction.{DeductionTrait, is_node}
use network_algo.Query.Iterator.{
  Result, ok, err, ◌>>=◌, Iterator, node_index, edge_index, node_at, edge_at,
}
use network_algo.Query.Iterator.Properties.{
  is_self_constrained, self_constrained_node, self_constrained_edge,
}
use network_algo.Query.Iterator.Search.{Search, if_so, self}
use network_algo.Query.Iterator.Search.Frame.{Ensures, candidate, PutKeeps, weaken}

module _ (floats : Floats) (level_db : LevelDb) (schema : Schema)
    (nodes : Reflection floats schema.Node) (edges : Reflection floats schema.Edge)
    (keys : level_db.Db → List Text) where
  abbrev pub State : Type 0
  State = Search floats level_db schema nodes edges keys

  -- The test of the candidate at a position against the properties that the query gives for it.
  abbrev pub test : State → ℕ → Result Bool
  test s id = is_self_constrained floats level_db schema nodes edges s.it id s.graph

  -- The test of a position is left as it is.
  pub record Kept (id : ℕ) (s s' : State) : Type 0 where
    pub sentence : s'.it.sql ≡ s.it.sql
    pub same : candidate s'.it id ≡ candidate s.it id
    pub db : s'.graph.db ≡ s.graph.db

  node-same :
      (it it' : Iterator) (id : ℕ) (g g' : Graph level_db)
      → it'.sql ≡ it.sql
      → get_elem? it'.nodes_id (id / 2) ≡ get_elem? it.nodes_id (id / 2)
      → g'.db ≡ g.db
      → self_constrained_node floats level_db schema nodes edges it' id g'
        ≡ self_constrained_node floats level_db schema nodes edges it id g
  unfolding self_constrained_node get_node node_at node_index
  node-same it it' id g g' a b c = elim (Bool-cases (is_node id)) [
    | inl here ↦
        ground
          (arith, here, ap (λ (q : GraphSqlSentence). get_elem? q.first.nodes (id / 2)) a, b, c)
    | inr other ↦ ground (arith, other)
  ]

  edge-same :
      (it it' : Iterator) (id : ℕ) (g g' : Graph level_db)
      → it'.sql ≡ it.sql
      → get_elem? it'.edges_id (id / 2) ≡ get_elem? it.edges_id (id / 2)
      → g'.db ≡ g.db
      → self_constrained_edge floats level_db schema nodes edges it' id g'
        ≡ self_constrained_edge floats level_db schema nodes edges it id g
  unfolding self_constrained_edge get_edge edge_at edge_index
  edge-same it it' id g g' a b c = elim (Bool-cases (is_node id)) [
    | inl here ↦ ground (arith, here)
    | inr other ↦
        ground
          (arith, other, ap (λ (q : GraphSqlSentence). get_elem? q.first.edges (id / 2)) a, b, c)
  ]

  pub test-Kept : (id : ℕ) (s s' : State) → Kept id s s' → test s' id ≡ test s id
  unfolding is_self_constrained
  test-Kept id s s' k = elim (Bool-cases (is_node id)) [
    | inl here ↦
        let at : get_elem? s'.it.nodes_id (id / 2) ≡ get_elem? s.it.nodes_id (id / 2) =
          ground (arith, here, k.same) in
        ground (arith, here, node-same s.it s'.it id s.graph s'.graph k.sentence at k.db)
    | inr other ↦
        let at : get_elem? s'.it.edges_id (id / 2) ≡ get_elem? s.it.edges_id (id / 2) =
          ground (arith, other, k.same) in
        ground (arith, other, edge-same s.it s'.it id s.graph s'.graph k.sentence at k.db)
  ]

  pub Kept-trans : (id : ℕ) (a b c : State) → Kept id a b → Kept id b c → Kept id a c
  Kept-trans id a b c h k = record {
    sentence = k.sentence ∙ h.sentence;
    same = k.same ∙ h.same;
    db = k.db ∙ h.db;
  }

  pub graph-Kept :
      (id : ℕ) (s : State) (g : Graph level_db)
      → g.db ≡ s.graph.db
      → Kept id s (record s { graph = g })
  graph-Kept id s g h = record { sentence = refl; same = refl; db = h }

  -- A position that no step is about.
  abbrev pub IsFresh : ℕ → List DeductionTrait → Type 0
  IsFresh id steps = All (λ dt. id ≢ dt.id) steps

  abbrev pub AllPass : State → List DeductionTrait → Type 0
  AllPass s steps = All (λ dt. test s dt.id ≡ ok true) steps

  -- What the search of some steps does: other positions stay, and if it finds something, every
  -- position of the steps passes its test.
  pub record Sound (steps : List DeductionTrait) (s s' : State) : Type 0 where
    pub keeps : (id : ℕ) → IsFresh id steps → Kept id s s'
    pub good : s.found ≡ false → s'.found ≡ true → AllPass s' steps

  abbrev pub IsSound : List DeductionTrait → (State → Result State) → Type 0
  IsSound steps next = (s : State) → Ensures (Sound steps s) (next s)

  -- The same, once a candidate stands at the position `id` before the steps.
  pub record After (id : ℕ) (steps : List DeductionTrait) (t t' : State) : Type 0 where
    pub keeps : (other : ℕ) → other ≢ id → IsFresh other steps → Kept other t t'
    pub good : t.found ≡ false → t'.found ≡ true → (test t' id ≡ ok true) × AllPass t' steps

  -- A test that leaves the database and allows only a position that passes its own.
  abbrev pub Checks : ℕ → State → Bool × Graph level_db → Type 0
  Checks id t r = (r.1.db ≡ t.graph.db) × (r.0 ≡ true → test t id ≡ ok true)

  pub if_so-After :
      (id : ℕ) (steps : List DeductionTrait) (next : State → Result State) (t : State)
      (m : Result (Bool × Graph level_db))
      → IsSound steps next
      → IsFresh id steps
      → Ensures (Checks id t) m
      → Ensures (After id steps t) (if_so floats level_db schema nodes edges keys m next t)
  if_so-After id steps next t (err e) n f h = tt
  if_so-After id steps next t (ok (false, g)) n f h = record {
    keeps = λ other a b. graph-Kept other t g h.0;
    good = λ lost won. cc;
  }
  if_so-After id steps next t (ok (true, g)) n f h =
      let t₁ = record t { graph = g } in
      weaken (next t₁) (n t₁) λ t' sound. record {
        keeps =
            λ other a b. Kept-trans other t t₁ t' (graph-Kept other t g h.0) (sound.keeps other b);
        good = λ lost won. (
          test-Kept id t t' (Kept-trans id t t₁ t' (graph-Kept id t g h.0) (sound.keeps id f))
              ∙ h.1 refl,
          sound.good lost won,
        );
      }

  -- A candidate is put at the position of a step.
  pub put-Sound :
      (dt : DeductionTrait) (steps : List DeductionTrait) (s : State) (it : Iterator) (t' : State)
      → PutKeeps dt.id s.it it
      → After dt.id steps (record s { it = it }) t'
      → Sound (dt ∷ steps) s t'
  put-Sound dt steps s it t' p a = record {
    keeps = λ id f.
        let t = record s { it = it } in
        Kept-trans id s t t' (record { sentence = p.0; same = p.1 id f.0; db = refl })
          (a.keeps id f.0 f.1);
    good = a.good;
  }

  self-of :
      (id : ℕ) (t : State) (g : Graph level_db) (m : Result Bool)
      → g.db ≡ t.graph.db
      → m ≡ test t id
      → Ensures (Checks id t) (m >>= λ b. ok (b, g))
  self-of id t g (err e) h k = tt
  self-of id t g (ok b) h k = (h, λ e. sym k ∙ ap ok e)

  pub self-Checks :
      (id : ℕ) (t : State)
      → Ensures (Checks id t) (self floats level_db schema nodes edges keys id t)
  unfolding self
  self-Checks id t = self-of id t t.graph (test t id) refl refl
