-- ===== src/Query/Iterator/Tests.antt =====
-- The tests of include/backend/leveldbgraph_iterator.inc on a small candidate.
use network_algo.Prelude.{
  List, text_eq, ◌≡◌, ◌↔◌, refl, All, Text, ◌*◌, ◌+◌, ◌≢◌, true, false, [], ◌∷◌, codes, arith,
}
use network_algo.Query.Iterator.Search.{Search, open_iterator, search_possible}
use network_algo.Query.Iterator.Search.Sound.{AllPass}
use network_algo.Query.Iterator.Search.Pass.{open_iterator-AllPass}
use network_algo.Dsl.Syntax.{GraphSqlSentence, EdgeDirection, Relationship, Properties}
use network_algo.Containers.Assoc.{lookup}
use network_algo.Reflection.Numbers.{converted}
use network_algo.Reflection.Compare.{reflected_compare, compare_content, string_from_string}
use network_algo.Reflection.Samples.{edge_worded, whole, worded}
use network_algo.Graph.Keys.{add_suffix, Suffix}
use network_algo.Graph.Operations.{Graph, get_node}
use network_algo.Query.Iterator.Properties.{
  compare_properties, Holds, FirstFails, compare_properties_iff, is_self_constrained,
}
use network_algo.Graph.Samples.{keys_of, list_db, word_schema, fresh}
use network_algo.Query.Deduction.{
  ConstraintType, DeductionTrait, get_id_of, is_left_constrained, is_right_constrained,
}
use network_algo.Query.Iterator.{Iterator, ok, check_left_constrained}
use network_algo.Query.Iterator.Assertions.{check_left_constrained-ne-ok}
use network_algo.Query.Iterator.Ends.{has_node_id_found_before}
use network_algo.Query.Iterator.Found.{has_node_id_found_before-ne-false}

abbrev named_x : Properties
named_x =
    record { name = codes "id"; relationship = Relationship.equal; value = codes "\"x\"" } ∷ []

-- `(a id="x") --> (b)` at the nodes `x` and `y` and the edge `e`
abbrev candidate : Iterator
candidate = record {
  sql = record {
    first = record {
      nodes =
          record { id = codes "a"; properties = named_x }
          ∷ record { id = codes "b"; properties = [] }
          ∷ [];
      edges = record { id = []; direction = EdgeDirection.next; properties = [] } ∷ [];
    };
    second = record { return_name = [] };
  };
  deduction_steps =
      record { id = 0; constraint = ConstraintType.not_constrained; direct = false }
      ∷ record { id = 1; constraint = ConstraintType.left_constrained; direct = false }
      ∷ [];
  nodes_id = codes "x" ∷ codes "y" ∷ [];
  edges_id = codes "e" ∷ [];
}

check_left_constrained-ne-ok_example :
    check_left_constrained list_db word_schema candidate (0 * 2 + 2) fresh ≢ ok (true, fresh)
check_left_constrained-ne-ok_example =
    check_left_constrained-ne-ok list_db word_schema candidate 0 fresh (true, fresh)

has_node_id_found_before-ne-false_example :
    has_node_id_found_before candidate (codes "z") 1 ≢ ok false
has_node_id_found_before-ne-false_example =
    has_node_id_found_before-ne-false candidate (codes "z") 1 (omega arith)

compare_properties_iff_example :
    ((compare_properties whole worded named_x (codes "x") ≡ converted true)
      ↔ All (Holds whole worded (codes "x")) named_x)
    × ((compare_properties whole worded named_x (codes "x") ≡ converted false)
        ↔ FirstFails whole Text worded (codes "x") named_x)
compare_properties_iff_example = compare_properties_iff whole Text worded (codes "x") named_x

-- The node `x` is stored.
abbrev with_x : Graph list_db
with_x = record fresh { db = (add_suffix (codes "x") Suffix.node_data, codes "x") ∷ [] }

-- The query `select (a id="x") return a`, its deduction steps, and the keys of a database that is a list.
abbrev query_x : GraphSqlSentence
query_x = record {
  first = record { nodes = record { id = codes "a"; properties = named_x } ∷ []; edges = [] };
  second = record { return_name = codes "a" ∷ [] };
}

abbrev steps_x : List DeductionTrait
steps_x = record { id = 0; constraint = ConstraintType.not_constrained; direct = true } ∷ []

abbrev found_x : Search whole list_db word_schema worded edge_worded keys_of
found_x = record {
  it = record {
    sql = query_x;
    deduction_steps = steps_x;
    nodes_id = codes "x" ∷ [];
    edges_id = [];
  };
  graph = with_x;
  found = true;
}

x_found :
    open_iterator whole list_db word_schema worded edge_worded keys_of query_x steps_x with_x
    ≡ ok (found_x, false)
unfolding open_iterator search_possible get_id_of is_self_constrained reflected_compare get_node
    lookup add_suffix compare_content string_from_string text_eq is_left_constrained
    is_right_constrained
x_found = refl

open_iterator-AllPass_example :
    AllPass whole list_db word_schema worded edge_worded keys_of found_x steps_x
open_iterator-AllPass_example =
    open_iterator-AllPass whole list_db word_schema worded edge_worded keys_of query_x steps_x
      with_x found_x (tt, tt) x_found
