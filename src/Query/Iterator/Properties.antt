-- ===== src/Query/Iterator/Properties.antt =====
-- `compareProperties` and `isSelfConstrained` of include/backend/leveldbgraph_iterator.inc.
use network_algo.Prelude.{
  int_limit, ℕ, ◌*◌, ◌%◌, ◌/◌, get_elem?, ◌≡◌, ◌<◌, refl, sym, ap, ◌∙◌, subst, ◌⊎◌, inl, inr, ◌↔◌,
  Text, Bool, true, false, none, some, [], ◌∷◌, ◌++◌, if◌then◌else◌, arith, All,
}
use network_algo.Dsl.Syntax.{Property, Properties, NodeType}
use network_algo.Reflection.Numbers.{Converted, converted, failed}
use network_algo.Reflection.Compare.{Floats, Reflection, reflected_compare}
use network_algo.Graph.Storage.{LevelDb, Schema}
use network_algo.Graph.Operations.{Graph, get_node, get_edge}
use network_algo.Query.Deduction.{is_node, get_node_index}
use network_algo.Query.Iterator.{
  Result, ok, err, Fault, ◌>>=◌, Iterator, at, node_at, edge_at, node_index, edge_index,
}

-- One round of `compareProperties`: what the comparison answers, and what the rest of the loop does.
abbrev pub and_then : Converted Bool → Converted Bool → Converted Bool
and_then (failed e) rest = failed e
and_then (converted true) rest = rest
and_then (converted false) rest = converted false

-- An exception of a comparison leaves the iterator.
abbrev pub raised : Converted Bool → Result Bool
raised (converted b) = ok b
raised (failed e) = err (Fault.comparison e)

module _ (floats : Floats) where
  -- The comparison of one property.
  abbrev pub compare_property :
      {Message : Type 0} → Reflection floats Message → Message → Property → Converted Bool
  compare_property reflection val prop =
      reflected_compare floats reflection val prop.name prop.relationship prop.value

  -- `compareProperties`
  unfoldable pub compare_properties :
      {Message : Type 0} → Reflection floats Message → Properties → Message → Converted Bool
  compare_properties reflection [] val = converted true
  compare_properties reflection (prop ∷ props) val =
      and_then (compare_property reflection val prop) (compare_properties reflection props val)

  module _ (level_db : LevelDb) (schema : Schema) (nodes : Reflection floats schema.Node)
      (edges : Reflection floats schema.Edge) where
    -- `graph.getNode`, which asserts that the node is stored.
    abbrev pub known_node : Text → Graph level_db → Result schema.Node
    known_node id g = elim (get_node level_db schema id g) [
      | none ↦ err Fault.assertion
      | some node ↦ ok node
    ]

    unfoldable pub self_constrained_node : Iterator → ℕ → Graph level_db → Result Bool
    unfolding compare_properties node_at node_index
    self_constrained_node it id g = do
      node_id ← node_at it id
      node ← known_node node_id g
      i ← node_index id
      query ← at it.sql.first.nodes i
      raised (compare_properties nodes query.properties node)

    unfoldable pub self_constrained_edge : Iterator → ℕ → Graph level_db → Result Bool
    unfolding compare_properties edge_at edge_index
    self_constrained_edge it id g = do
      edge_id ← edge_at it id
      let edge = get_edge level_db schema edge_id g
      i ← edge_index id
      query ← at it.sql.first.edges i
      raised (compare_properties edges query.properties edge)

    -- `isSelfConstrained`
    unfoldable pub is_self_constrained : Iterator → ℕ → Graph level_db → Result Bool
    unfolding self_constrained_node self_constrained_edge
    is_self_constrained it id g =
        if is_node id then self_constrained_node it id g else self_constrained_edge it id g

-- Whether a comparison holds, and whether it is known not to.
abbrev pub Holds :
    (floats : Floats) {Message : Type 0} → Reflection floats Message → Message → Property → Type 0
Holds floats reflection val prop = compare_property floats reflection val prop ≡ converted true

and_then-true :
    (m rest : Converted Bool)
    → and_then m rest ≡ converted true
    → (m ≡ converted true) × (rest ≡ converted true)
and_then-true (failed e) rest h = cc
and_then-true (converted true) rest h = (refl, h)
and_then-true (converted false) rest h = cc

and_then-false :
    (m rest : Converted Bool)
    → and_then m rest ≡ converted false
    → (m ≡ converted false) ⊎ ((m ≡ converted true) × (rest ≡ converted false))
and_then-false (failed e) rest h = cc
and_then-false (converted true) rest h = inr (refl, h)
and_then-false (converted false) rest h = inl refl

module _ (floats : Floats) (Message : Type 0) (reflection : Reflection floats Message)
    (val : Message) where
  true_each :
      (props : Properties)
      → compare_properties floats reflection props val ≡ converted true
      → All (Holds floats reflection val) props
  unfolding compare_properties
  true_each [] h = tt
  true_each (prop ∷ props) h =
      let both =
        and_then-true (compare_property floats reflection val prop)
          (compare_properties floats reflection props val) h in
      (both.0, true_each props both.1)

  each_true :
      (props : Properties)
      → All (Holds floats reflection val) props
      → compare_properties floats reflection props val ≡ converted true
  unfolding compare_properties
  each_true [] h = refl
  each_true (prop ∷ props) h = ground (arith, h.0, each_true props h.1)

  -- A property that fails after others that hold.
  abbrev pub FirstFails : Properties → Type 0
  FirstFails props =
      (before : Properties) × (prop : Property) × (after : Properties) × (props
        ≡ before ++ prop ∷ after)
      × All (Holds floats reflection val) before
      × (compare_property floats reflection val prop ≡ converted false)

  fails-first :
      (props : Properties)
      → compare_properties floats reflection props val ≡ converted false
      → FirstFails props
  unfolding compare_properties
  fails-first [] h = cc
  fails-first (prop ∷ props) h =
      elim (and_then-false (compare_property floats reflection val prop)
        (compare_properties floats reflection props val) h) [
          | inl no_match ↦ ([], prop, props, refl, tt, no_match)
          | inr (match, later) ↦
              let (before, p, after, split, held, no_match) = fails-first props later in
              (prop ∷ before, p, after, ap (λ l. prop ∷ l) split, (match, held), no_match)
        ]

  first-fails :
      (before : Properties) (prop : Property) (after : Properties)
      → All (Holds floats reflection val) before
      → compare_property floats reflection val prop ≡ converted false
      → compare_properties floats reflection (before ++ prop ∷ after) val ≡ converted false
  unfolding compare_properties
  first-fails [] prop after h k = ground (arith, k)
  first-fails (p ∷ before) prop after h k = ground (arith, h.0, first-fails before prop after h.1 k)

-- `compareProperties` returns true exactly when every comparison of a property returns true, and false
-- exactly when some comparison returns false and every one before it true.
pub compare_properties_iff :
    (floats : Floats) (Message : Type 0) (reflection : Reflection floats Message) (val : Message)
    (props : Properties)
    → ((compare_properties floats reflection props val ≡ converted true)
        ↔ All (Holds floats reflection val) props)
      × ((compare_properties floats reflection props val ≡ converted false)
          ↔ FirstFails floats Message reflection val props)
compare_properties_iff floats Message reflection val props = (
  (true_each floats Message reflection val props, each_true floats Message reflection val props),
  (
    fails-first floats Message reflection val props,
    λ f.
        let (before, prop, after, split, held, no_match) = f in
        subst (λ l. compare_properties floats reflection l val ≡ converted false) (sym split)
          (first-fails floats Message reflection val before prop after held no_match),
  ),
)

node_index-even : (k : ℕ) → 2 * k < int_limit → node_index (2 * k) ≡ ok k
unfolding node_index is_node get_node_index
node_index-even k small =
    let even : 2 * k % 2 ≡ 0 = omega arith in
    let half : 2 * k / 2 ≡ k = omega arith in ground (arith, even, half, small)

node_at-even :
    (it : Iterator) (k : ℕ) (node_id : Text)
    → 2 * k < int_limit
    → get_elem? it.nodes_id k ≡ some node_id
    → node_at it (2 * k) ≡ ok node_id
unfolding node_at
node_at-even it k node_id small h = ground (arith, node_index-even k small, h)

is_node-even : (k : ℕ) → is_node (2 * k) ≡ true
unfolding is_node
is_node-even k = let even : 2 * k % 2 ≡ 0 = omega arith in ground (arith, even)

raised-true : (m : Converted Bool) → (raised m ≡ ok true) ↔ (m ≡ converted true)
raised-true (converted b) = ((λ h. cc), (λ h. cc))
raised-true (failed e) = ((λ h. cc), (λ h. cc))

self_constrained-stored :
    (floats : Floats) (level_db : LevelDb) (schema : Schema) (nodes : Reflection floats schema.Node)
    (edges : Reflection floats schema.Edge) (it : Iterator) (k : ℕ) (g : Graph level_db)
    (node_id : Text) (node : schema.Node) (query : NodeType)
    → 2 * k < int_limit
    → get_elem? it.nodes_id k ≡ some node_id
    → get_node level_db schema node_id g ≡ some node
    → get_elem? it.sql.first.nodes k ≡ some query
    → is_self_constrained floats level_db schema nodes edges it (2 * k) g
      ≡ raised (compare_properties floats nodes query.properties node)
unfolding is_self_constrained self_constrained_node
self_constrained-stored floats level_db schema nodes edges it k g node_id node query small a b c =
    ground (arith, is_node-even k, node_at-even it k node_id small a, node_index-even k small, b, c)

-- At an even id that an int holds, with a candidate that is stored, `isSelfConstrained` returns true exactly when every
-- property that the query gives for the node holds of the stored node.
is_self_constrained-node :
    (floats : Floats) (level_db : LevelDb) (schema : Schema) (nodes : Reflection floats schema.Node)
    (edges : Reflection floats schema.Edge) (it : Iterator) (k : ℕ) (g : Graph level_db)
    (node_id : Text) (node : schema.Node) (query : NodeType)
    → 2 * k < int_limit
    → get_elem? it.nodes_id k ≡ some node_id
    → get_node level_db schema node_id g ≡ some node
    → get_elem? it.sql.first.nodes k ≡ some query
    → (is_self_constrained floats level_db schema nodes edges it (2 * k) g ≡ ok true)
      ↔ All (Holds floats nodes node) query.properties
is_self_constrained-node floats level_db schema nodes edges it k g node_id node query small a b c =
    let equal =
      self_constrained-stored floats level_db schema nodes edges it k g node_id node query small a b
        c in
    let whole = (compare_properties_iff floats schema.Node nodes node query.properties).0 in
    let same = raised-true (compare_properties floats nodes query.properties node) in
    ((λ h. whole.0 (same.0 (sym equal ∙ h))), (λ h. equal ∙ same.1 (whole.1 h)))
