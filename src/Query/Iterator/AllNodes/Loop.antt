-- ===== src/Query/Iterator/AllNodes/Loop.antt =====
-- A loop over the results of a query with one node.
use network_algo.Prelude.{
  ℕ, zero, suc, append_assoc, map, ◌≤◌, ◌≡◌, refl, sym, ap, ◌∙◌, Bool, true, false, not, List, [],
  ◌∷◌, ◌++◌, Text, text_eq, length, arith, inl, inr, All, subst,
}
use mathlib.Core.List.{foldl}
use network_algo.Dsl.Syntax.{Properties}
use network_algo.Reflection.Compare.{Floats, Reflection}
use network_algo.Graph.IdSet.{member}
use network_algo.Graph.Keys.{Suffix, add_suffix}
use network_algo.Graph.Storage.{LevelDb, Schema}
use network_algo.Graph.Operations.{Graph}
use network_algo.Query.Deduction.{acquired_directly}
use network_algo.Query.Iterator.{Result, ok}
use network_algo.Query.Iterator.Search.{Search, search_possible, open_iterator}
use network_algo.Query.Iterator.Operators.{Cursor, Row, query, for_each_from}
use network_algo.Query.Iterator.AllNodes.{
  IsSorted, IsNodeKey, node_ids, selected, after, FirstPassing, first_or_none,
}
use network_algo.Query.Iterator.AllNodes.OneNode.{
  one_node, generate_deduction_steps-one_node, All-middle, ids-middle,
}
use network_algo.Query.Iterator.AllNodes.Step

module _ (floats : Floats) (level_db : LevelDb) (schema : Schema)
    (nodes : Reflection floats schema.Node) (edges : Reflection floats schema.Edge)
    (keys : level_db.Db → List Text) (name : Text) (properties : Properties) (names : List Text)
    (g : Graph level_db) (node_of : Text → schema.Node) (passes : Text → Bool) where
  abbrev S : Type 0
  S = Search floats level_db schema nodes edges keys

  abbrev Stored : Text → Type 0
  Stored id =
      Step.IsStored floats level_db schema nodes edges keys name properties names g node_of passes
        id

  abbrev here : Text → Bool → S
  here id found =
      Step.here floats level_db schema nodes edges keys name properties names g node_of passes id
        found

  abbrev shown : Text → Row schema → Row schema
  shown id row =
      Step.shown floats level_db schema nodes edges keys name properties names g node_of passes id
        row

  -- A body that does not write to the graph.
  abbrev pub reading :
      {A : Type 0}
      → (A → schema.Node → A)
      → A
      → schema.Node
      → Graph level_db
      → Result (A × Graph level_db)
  reading f a node g' = ok (f a node, g')

  -- What stands in the named variable is one after the other of the nodes that were selected.
  abbrev pub results : List schema.Node
  results = map node_of (selected passes (node_ids (keys g.db)))

  module _ {A : Type 0} (f : A → schema.Node → A) (rounds : ℕ)
      (free : acquired_directly properties ≡ false) (named : text_eq name [] ≡ false)
      (returned : member name names ≡ true) (sorted : IsSorted (keys g.db))
      (plain : All IsNodeKey (keys g.db)) (stored : All Stored (node_ids (keys g.db))) where
    abbrev run : ℕ → S → Bool → Row schema → A → Result (A × Graph level_db)
    run n s is_end row a =
        for_each_from floats level_db schema nodes edges keys name (reading f) (suc rounds) n
          (record { search = s; is_end = is_end; row = row }) a

    run-round :
        (n : ℕ) (front : List Text) (key id : Text) (rest : List Text) (row : Row schema)
        (found : Bool) (a : A)
        → keys g.db ≡ front ++ (key ∷ rest)
        → key ≡ add_suffix id Suffix.node_data
        → Stored id
        → All Stored (node_ids rest)
        → run (suc n) (here id found) false row a
          ≡ run n
              (here (after passes (node_ids rest) id).1 found)
              (not (after passes (node_ids rest) id).0)
              (shown id row)
              (f a (node_of id))
    unfolding for_each_from
    run-round n front key id rest row found a parts at h hs =
        rw
          (Step.dereference-shown floats level_db schema nodes edges keys name properties names g
            node_of passes id row found named returned h)
          (rw
            (Step.row_node-shown floats level_db schema nodes edges keys name properties names g
              node_of passes id row)
            (rw
              (Step.increment-after floats level_db schema nodes edges keys name properties names g
                node_of passes rounds front key id rest (shown id row) found parts at sorted hs)
              refl))

    run-end : (n : ℕ) (s : S) (row : Row schema) (a : A) → run n s true row a ≡ ok (a, s.graph)
    unfolding for_each_from
    run-end zero s row a = refl
    run-end (suc n) s row a = refl

    -- What the loop comes to from an id on.
    abbrev total : A → List Text → Result (A × Graph level_db)
    total a ids = ok (foldl f a (map node_of ids), g)

    -- What is left of the loop, where `y` is the id that was tried last.
    abbrev left_over : ℕ → List Text → Text → Row schema → Bool → A → Result (A × Graph level_db)
    left_over n rest y row found a =
        run n (here (after passes (node_ids rest) y).1 found)
          (not (after passes (node_ids rest) y).0) row a

    left_over-none :
        (n : ℕ) (rest : List Text) (y : Text) (row : Row schema) (found : Bool) (a : A)
        → (after passes (node_ids rest) y).0 ≡ false
        → selected passes (node_ids rest) ≡ []
        → left_over n rest y row found a ≡ total a (selected passes (node_ids rest))
    left_over-none n rest y row found a h e =
        ap (λ b. run n (here (after passes (node_ids rest) y).1 found) (not b) row a) h
        ∙ run-end n (here (after passes (node_ids rest) y).1 found) row a
        ∙ ap (λ ids. total a ids) (sym e)

    left_over-first :
        (n : ℕ) (front rest : List Text) (y : Text) (row : Row schema) (found : Bool) (a : A)
        (t : FirstPassing passes rest y)
        → keys g.db ≡ front ++ rest
        → left_over (suc n) rest y row found a
          ≡ left_over n t.rest t.id (shown t.id row) found (f a (node_of t.id))
    left_over-first n front rest y row found a t parts =
        let split : keys g.db ≡ (front ++ t.front) ++ (t.key ∷ t.rest) =
          parts
          ∙ ap (λ l. front ++ l) t.parts
          ∙ sym (append_assoc front t.front (t.key ∷ t.rest)) in
        let at =
          (All-middle IsNodeKey (front ++ t.front) t.key t.rest
              (subst (All IsNodeKey) split plain)).0
            t.id t.named in
        let known =
          ids-middle Stored (front ++ t.front) t.key t.id t.rest t.named
            (subst (λ ks. All Stored (node_ids ks)) split stored) in
        ap (λ r. run (suc n) (here r.1 found) (not r.0) row a) t.tried
        ∙ run-round n (front ++ t.front) t.key t.id t.rest row found a split at known.0 known.1

    left_over-total :
        (n : ℕ) (front rest : List Text) (y : Text) (row : Row schema) (found : Bool) (a : A)
        → keys g.db ≡ front ++ rest
        → length rest ≤ n
        → left_over n rest y row found a ≡ total a (selected passes (node_ids rest))
    left_over-total zero front rest y row found a parts enough =
        elim (first_or_none passes rest y) [
          | inl t ↦ absurd (omega (arith, t.shorter))
          | inr (h, e) ↦ left_over-none zero rest y row found a h e
        ]
    left_over-total (suc n) front rest y row found a parts enough =
        elim (first_or_none passes rest y) [
          | inl t ↦
              left_over-first n front rest y row found a t parts
              ∙ left_over-total n (front ++ (t.front ++ (t.key ∷ []))) t.rest t.id (shown t.id row)
                  found (f a (node_of t.id))
                  (parts
                    ∙ ap (λ l. front ++ l)
                        (t.parts ∙ sym (append_assoc t.front (t.key ∷ []) t.rest))
                    ∙ sym (append_assoc front (t.front ++ (t.key ∷ [])) t.rest))
                  (omega (arith, t.shorter))
              ∙ ap (λ ids. total a ids) (sym t.chosen)
          | inr (h, e) ↦ left_over-none (suc n) rest y row found a h e
        ]

    -- For a query of one node, with a name that it returns and with properties that do not give its id and can be
    -- compared with every stored node, on a database in the order of its keys in which the suffix of a node
    -- stands only at the end of a key: the loop of a client, with at least as many rounds as there are keys and
    -- a body that does not write, sees every node that has the properties, once, in the order of the keys, and
    -- then the end.
    pub for_each_from-results :
        (n : ℕ) (a : A)
        → length (keys g.db) ≤ n
        → (c : Cursor floats level_db schema nodes edges keys) × (query floats level_db schema nodes
              edges keys
              (one_node name properties names)
              g
            ≡ ok c)
          × (for_each_from floats level_db schema nodes edges keys name
                (reading f)
                (suc rounds)
                n
                c
                a
              ≡ ok (foldl f a results, g))
    unfolding query open_iterator search_possible
    for_each_from-results n a enough = (
      record {
        search =
            here (after passes (node_ids (keys g.db)) []).1
              (after passes (node_ids (keys g.db)) []).0;
        is_end = not (after passes (node_ids (keys g.db)) []).0;
        row = record { nodes = []; edges = [] };
      },
      ground (
        arith,
        generate_deduction_steps-one_node name properties names free,
        Step.try_each-after floats level_db schema nodes edges keys name properties names g node_of
            passes (node_ids (keys g.db)) [] stored,
      ),
      left_over-total n [] (keys g.db) [] (record { nodes = []; edges = [] })
          (after passes (node_ids (keys g.db)) []).0 a refl enough,
    )
