-- ===== src/Query/Deduction/Tests.antt =====
-- Deduction steps of small patterns (include/backend/leveldbgraph_deduction.inc).
use network_algo.Prelude.{
  ℕ, ◌*◌, ◌-◌, ◌≡◌, refl, some, List, [], ◌∷◌, codes, length, ltb, if◌then◌else◌, arith,
}
use network_algo.Dsl.Syntax.{Relationship, EdgeDirection, GraphSqlSentence}
use network_algo.Query.Deduction.{DeductionTrait, generate_deduction_steps}
use network_algo.Query.Deduction.Positions.{occurs, generate_deduction_steps-positions}

-- `(a) --> (b id = "b")`
abbrev two_nodes : GraphSqlSentence
two_nodes = record {
  first = record {
    nodes =
        record { id = codes "a"; properties = [] }
        ∷ record {
          id = codes "b";
          properties =
              record { name = codes "id"; relationship = Relationship.equal; value = codes "\"b\"" }
              ∷ [];
        }
        ∷ [];
    edges = record { id = []; direction = EdgeDirection.next; properties = [] } ∷ [];
  };
  second = record { return_name = [] };
}

generate_deduction_steps-positions_example :
    (steps : List DeductionTrait) × (generate_deduction_steps two_nodes ≡ some steps)
    × ((i : ℕ) → occurs i steps ≡ (if ltb i (length two_nodes.first.nodes * 2 - 1) then 1 else 0))
generate_deduction_steps-positions_example =
    generate_deduction_steps-positions two_nodes refl (omega arith)
