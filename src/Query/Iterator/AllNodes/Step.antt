-- ===== src/Query/Iterator/AllNodes/Step.antt =====
-- One step of an iterator over the results of a query for one node.
use network_algo.Prelude.{
  ℕ, suc, Bool-cases, ◌≡◌, refl, sym, Bool, true, false, not, some, List, [], ◌∷◌, ◌++◌, Text,
  text_eq, text_eq_refl, arith, inl, inr, All, subst,
}
use network_algo.Containers.Assoc.{lookup}
use network_algo.Dsl.Syntax.{Properties}
use network_algo.Reflection.Numbers.{converted}
use network_algo.Reflection.Compare.{Floats, Reflection}
use network_algo.Graph.IdSet.{member}
use network_algo.Graph.Keys.{Suffix, add_suffix}
use network_algo.Graph.Storage.{LevelDb, Schema}
use network_algo.Graph.Operations.{Graph, get_node}
use network_algo.Query.Iterator.{ok, node_index, node_at}
use network_algo.Query.Iterator.Properties.{compare_properties, is_self_constrained}
use network_algo.Query.Iterator.Candidates.{put_node}
use network_algo.Query.Iterator.Search.{Search, try_each, search_possible, self}
use network_algo.Query.Iterator.Next.{seek, step, try_next, find_next_possible}
use network_algo.Query.Iterator.Operators.{Row, assign, row_node, increment, dereference}
use network_algo.Query.Iterator.AllNodes.{IsSorted, seek-middle, node_ids, after}
use network_algo.Query.Iterator.AllNodes.OneNode.{one_node, one_step}

module _ (floats : Floats) (level_db : LevelDb) (schema : Schema)
    (nodes : Reflection floats schema.Node) (edges : Reflection floats schema.Edge)
    (keys : level_db.Db → List Text) (name : Text) (properties : Properties) (names : List Text)
    (g : Graph level_db) (node_of : Text → schema.Node) (passes : Text → Bool) where
  -- What is stored under an id, and whether it passes.
  abbrev pub IsStored : Text → Type 0
  IsStored id =
      (get_node level_db schema id g ≡ some (node_of id))
      × (compare_properties floats nodes properties (node_of id) ≡ converted (passes id))

  abbrev pub S : Type 0
  S = Search floats level_db schema nodes edges keys

  -- The iterator at an id.
  abbrev pub here : Text → Bool → S
  here id found = record {
    it = record {
      sql = one_node name properties names;
      deduction_steps = one_step;
      nodes_id = id ∷ [];
      edges_id = [];
    };
    graph = g;
    found = found;
  }

  passes-here :
      (id : Text) (found : Bool)
      → IsStored id
      → is_self_constrained floats level_db schema nodes edges (here id found).it 0 g
        ≡ ok (passes id)
  unfolding is_self_constrained
  passes-here id found h = ground (arith, h.0, h.1)

  try_next-after :
      (xs : List Text) (y : Text) (found : Bool)
      → All IsStored xs
      → try_next floats level_db schema nodes edges keys put_node 0 xs (here y found)
        ≡ ok ((after passes xs y).0, here (after passes xs y).1 found)
  unfolding try_next put_node
  try_next-after [] y found h = refl
  try_next-after (x ∷ xs) y found h = rw (passes-here x found h.0) (elim (Bool-cases (passes x)) [
    | inl good ↦ ground (arith, good)
    | inr bad ↦ ground (arith, bad, try_next-after xs x found h.1)
  ])

  pub try_each-after :
      (xs : List Text) (y : Text)
      → All IsStored xs
      → try_each floats level_db schema nodes edges keys put_node
          (search_possible floats level_db schema nodes edges keys [])
          0
          xs
          (here y false)
        ≡ ok (here (after passes xs y).1 (after passes xs y).0)
  unfolding try_each put_node search_possible self
  try_each-after [] y h = refl
  try_each-after (x ∷ xs) y h = rw (passes-here x false h.0) (elim (Bool-cases (passes x)) [
    | inl good ↦ ground (arith, good)
    | inr bad ↦ ground (arith, bad, try_each-after xs x h.1)
  ])

  -- One step of an iterator, from an id whose key stands before `rest`.
  pub increment-after :
      (rounds : ℕ) (front : List Text) (key id : Text) (rest : List Text) (row : Row schema)
      (found : Bool)
      → keys g.db ≡ front ++ (key ∷ rest)
      → key ≡ add_suffix id Suffix.node_data
      → IsSorted (keys g.db)
      → All IsStored (node_ids rest)
      → increment floats level_db schema nodes edges keys
          (suc rounds)
          (record { search = here id found; is_end = false; row = row })
        ≡ ok (record {
          search = here (after passes (node_ids rest) id).1 found;
          is_end = not (after passes (node_ids rest) id).0;
          row = row;
        })
  unfolding increment find_next_possible node_at node_index step
  increment-after rounds front key id rest row found parts at sorted stored =
      let sought : seek (add_suffix id Suffix.node_data) (keys g.db) ≡ key ∷ rest =
        subst (λ k. seek k (keys g.db) ≡ key ∷ rest) at
          (subst (λ ks. seek key ks ≡ key ∷ rest) (sym parts)
            (seek-middle front key rest (subst IsSorted parts sorted))) in
      elim (Bool-cases (after passes (node_ids rest) id).0) [
        | inl more ↦ ground (arith, sought, more, try_next-after (node_ids rest) id found stored)
        | inr none_left ↦
            ground (arith, sought, none_left, try_next-after (node_ids rest) id found stored)
      ]

  -- What `operator*` leaves for the name of the node.
  abbrev pub shown : Text → Row schema → Row schema
  shown id row = record row { nodes = assign name (node_of id) row.nodes }

  pub dereference-shown :
      (id : Text) (row : Row schema) (found : Bool)
      → text_eq name [] ≡ false
      → member name names ≡ true
      → IsStored id
      → dereference floats level_db schema nodes edges keys
          (record { search = here id found; is_end = false; row = row })
        ≡ ok (record { search = here id found; is_end = false; row = shown id row })
  unfolding dereference
  dereference-shown id row found named returned h = ground (arith, named, returned, h.0)

  pub row_node-shown :
      (id : Text) (row : Row schema) → row_node name (shown id row) ≡ ok (node_of id)
  unfolding row_node lookup
  row_node-shown id row = ground (arith, text_eq_refl name)
