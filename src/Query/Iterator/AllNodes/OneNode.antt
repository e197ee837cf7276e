-- ===== src/Query/Iterator/AllNodes/OneNode.antt =====
-- The query for one node, its deduction step, and the ids of the nodes behind a key.
use network_algo.Prelude.{
  Option-cases, ◌≡◌, false, none, some, List, [], ◌∷◌, ◌++◌, Text, arith, inl, inr, All, subst,
}
use network_algo.Dsl.Syntax.{Properties, GraphSqlSentence}
use network_algo.Graph.Keys.{Suffix, suffix_text}
use network_algo.Query.Deduction.{
  ConstraintType, DeductionTrait, acquired_directly, generate_deduction_steps,
}
use network_algo.Query.Iterator.Candidates.{before_suffix, ids_with_suffix}
use network_algo.Query.Iterator.AllNodes.{node_ids}

-- The sentence `select (name properties) return names`.
abbrev pub one_node : Text → Properties → List Text → GraphSqlSentence
one_node name properties names = record {
  first = record { nodes = record { id = name; properties = properties } ∷ []; edges = [] };
  second = record { return_name = names };
}

abbrev pub one_step : List DeductionTrait
one_step = record { id = 0; constraint = ConstraintType.not_constrained; direct = false } ∷ []

pub generate_deduction_steps-one_node :
    (name : Text) (properties : Properties) (names : List Text)
    → acquired_directly properties ≡ false
    → generate_deduction_steps (one_node name properties names) ≡ some one_step
unfolding generate_deduction_steps
generate_deduction_steps-one_node name properties names h = ground (arith, h)

pub All-middle :
    (P : Text → Type 0) (front : List Text) (key : Text) (rest : List Text)
    → All P (front ++ (key ∷ rest))
    → P key × All P rest
All-middle P [] key rest h = h
All-middle P (x ∷ front) key rest h = All-middle P front key rest h.1

-- The same of the ids, for a key that has one.
pub ids-middle :
    (P : Text → Type 0) (front : List Text) (key id : Text) (rest : List Text)
    → before_suffix (suffix_text Suffix.node_data) key ≡ some id
    → All P (node_ids (front ++ (key ∷ rest)))
    → P id × All P (node_ids rest)
unfolding ids_with_suffix
ids-middle P [] key id rest named h =
    subst (λ o. All P (elim o [ none ↦ node_ids rest | some x ↦ x ∷ node_ids rest ])) named h
ids-middle P (x ∷ front) key id rest named h =
    elim (Option-cases (before_suffix (suffix_text Suffix.node_data) x)) [
      | inl other ↦ ids-middle P front key id rest named (
          subst
            (λ o. All P (elim o [
              | none ↦ node_ids (front ++ (key ∷ rest))
              | some y ↦ y ∷ node_ids (front ++ (key ∷ rest))
            ]))
            other h)
      | inr (y, there) ↦ ids-middle P front key id rest named (
          (subst
            (λ o. All P (elim o [
              | none ↦ node_ids (front ++ (key ∷ rest))
              | some z ↦ z ∷ node_ids (front ++ (key ∷ rest))
            ]))
            there h).1)
    ]
