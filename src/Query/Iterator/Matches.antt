-- ===== src/Query/Iterator/Matches.antt =====
-- A run of `select (a id="x")-[]->(b) return b` over one edge from `x` to `y`: an instance of what a search in
-- include/backend/leveldbgraph_iterator.inc finds.
use network_algo.Query.Iterator.Operators.{Cursor}
use network_algo.Prelude.{◌≡◌, refl, Bool, true, false, some, List, [], ◌∷◌, text_eq, codes}
use network_algo.Dsl.Syntax.{Relationship, EdgeDirection, GraphSqlSentence}
use network_algo.Reflection.Samples.{edge_worded, whole, worded}
use network_algo.Graph.Keys.{add_suffix, Suffix}
use network_algo.Graph.Operations.{Graph, open_graph}
use network_algo.Graph.Samples.{keys_of, list_db, word_schema, join}
use network_algo.Query.Deduction.{ConstraintType, DeductionTrait, generate_deduction_steps}
use network_algo.Query.Iterator.{Result, ok, err}
use network_algo.Query.Iterator.Search.{Search, open_iterator}

abbrev one_edge : Graph list_db
one_edge = open_graph list_db (
    (add_suffix (codes "e") Suffix.edge_data, join (codes "e" ∷ codes "x" ∷ codes "y" ∷ []))
    ∷ (add_suffix (codes "x") Suffix.node_data, codes "x")
    ∷ (add_suffix (codes "x") Suffix.out_edge, join (codes "e" ∷ []))
    ∷ (add_suffix (codes "y") Suffix.in_edge, join (codes "e" ∷ []))
    ∷ (add_suffix (codes "y") Suffix.node_data, codes "y")
    ∷ [])

abbrev from_x : GraphSqlSentence
from_x = record {
  first = record {
    nodes =
        record {
          id = codes "a";
          properties =
              record { name = codes "id"; relationship = Relationship.equal; value = codes "\"x\"" }
              ∷ [];
        }
        ∷ record { id = codes "b"; properties = [] }
        ∷ [];
    edges = record { id = []; direction = EdgeDirection.next; properties = [] } ∷ [];
  };
  second = record { return_name = codes "b" ∷ [] };
}

abbrev steps : List DeductionTrait
steps =
    record { id = 0; constraint = ConstraintType.not_constrained; direct = true }
    ∷ record { id = 1; constraint = ConstraintType.left_constrained; direct = false }
    ∷ record { id = 2; constraint = ConstraintType.left_constrained; direct = false }
    ∷ []

steps_run : generate_deduction_steps from_x ≡ some steps
unfolding generate_deduction_steps text_eq
steps_run = refl

abbrev Found : Type 0
Found = Search whole list_db word_schema worded edge_worded keys_of

abbrev outcome : Result (Found × Bool)
outcome = open_iterator whole list_db word_schema worded edge_worded keys_of from_x steps one_edge

-- What is found, and the candidate of before where nothing is.
abbrev found : Found
found = elim outcome [
  | ok r ↦ r.0
  | err e ↦ record {
    it = record { sql = from_x; deduction_steps = steps; nodes_id = []; edges_id = [] };
    graph = one_edge;
    found = false;
  }
]

abbrev at_found : Cursor whole list_db word_schema worded edge_worded keys_of
at_found = record { search = found; is_end = false; row = record { nodes = []; edges = [] } }
