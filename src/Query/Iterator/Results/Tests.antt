-- ===== src/Query/Iterator/Results/Tests.antt =====
-- Queries with one node, over a database of the nodes `x` and `y`: instances of what
-- include/backend/leveldbgraph_iterator.inc comes to.
use network_algo.Prelude.{
  ◌≡◌, refl, ap, All, Bool, true, false, some, List, [], ◌∷◌, ◌++◌, Text, text_eq, codes, arith,
  Text_eq,
}
use mathlib.Core.List.{foldl}
use network_algo.Containers.Assoc.{lookup}
use network_algo.Dsl.Syntax.{Properties, Relationship}
use network_algo.Reflection.Compare.{reflected_compare, compare_content, string_from_string}
use network_algo.Reflection.Samples.{edge_worded, whole, worded}
use network_algo.Graph.IdSet.{text_lt, member}
use network_algo.Graph.Keys.{add_suffix, Suffix, suffix_text}
use network_algo.Graph.Operations.{Graph, get_node, open_graph}
use network_algo.Graph.Samples.{keys_of, list_db, word_schema}
use network_algo.Query.Deduction.{acquired_directly}
use network_algo.Query.Iterator.{ok}
use network_algo.Query.Iterator.Candidates.{ids_with_suffix, before_suffix}
use network_algo.Query.Iterator.Properties.{is_self_constrained, compare_properties}
use network_algo.Query.Iterator.Search.Sound.{AllPass}
use network_algo.Query.Iterator.Next.{find_next_possible, seek}
use network_algo.Query.Iterator.Operators.{Cursor, increment, query, for_each_from}
use network_algo.Query.Iterator.AllNodes.{IsSorted, IsNodeKey, node_ids}
use network_algo.Query.Iterator.AllNodes.Loop.{reading, results, for_each_from-results}
use network_algo.Query.Iterator.AllNodes.Step.{IsStored}
use network_algo.Query.Iterator.AllNodes.OneNode.{one_node, one_step}
use network_algo.Query.Iterator.Results.{increment-AllPass}

abbrev two : Graph list_db
two = open_graph list_db (
    (add_suffix (codes "x") Suffix.node_data, codes "x")
    ∷ (add_suffix (codes "y") Suffix.node_data, codes "y")
    ∷ [])

-- `select (a name="y") return a`
abbrev named_y : Properties
named_y =
    record { name = codes "name"; relationship = Relationship.equal; value = codes "\"y\"" } ∷ []

abbrev is_y : Text → Bool
is_y id = text_eq id (codes "y")

abbrev listed : List Text → Text → List Text
listed seen node = seen ++ (node ∷ [])

sorted : IsSorted (keys_of two.db)
unfolding add_suffix text_lt
sorted = ((refl, tt), (tt, tt))

some_injective : (a b : Text) → some a ≡ some b → a ≡ b
some_injective a b h = cc

plain : All IsNodeKey (keys_of two.db)
unfolding before_suffix suffix_text add_suffix
plain = (
  λ id h. ap (λ i. add_suffix i Suffix.node_data) (some_injective (codes "x") id h),
  (λ id h. ap (λ i. add_suffix i Suffix.node_data) (some_injective (codes "y") id h), tt),
)

stored :
    All
      (IsStored whole list_db word_schema worded edge_worded keys_of
        (codes "a")
        named_y
        (codes "a" ∷ [])
        two
        (λ id. id)
        is_y)
      (node_ids (keys_of two.db))
unfolding ids_with_suffix suffix_text add_suffix get_node lookup text_eq compare_properties
    reflected_compare compare_content string_from_string
stored = ((refl, refl), ((refl, refl), tt))

free : acquired_directly named_y ≡ false
unfolding acquired_directly text_eq
free = refl

named : text_eq (codes "a") [] ≡ false
unfolding text_eq
named = refl

returned : member (codes "a") (codes "a" ∷ []) ≡ true
unfolding member text_eq
returned = refl

for_each_from-results_example :
    (c : Cursor whole list_db word_schema worded edge_worded keys_of) × (query whole list_db
        word_schema worded edge_worded keys_of
        (one_node (codes "a") named_y (codes "a" ∷ []))
        two
      ≡ ok c)
    × (for_each_from whole list_db word_schema worded edge_worded keys_of
          (codes "a")
          (reading whole list_db word_schema worded edge_worded keys_of
            (codes "a")
            named_y
            (codes "a" ∷ [])
            two
            (λ id. id)
            is_y
            listed)
          1
          2
          c
          []
        ≡ ok (
          foldl listed [] (
              results whole list_db word_schema worded edge_worded keys_of
                (codes "a")
                named_y
                (codes "a" ∷ [])
                two
                (λ id. id)
                is_y),
          two,
        ))
for_each_from-results_example =
    for_each_from-results whole list_db word_schema worded edge_worded keys_of (codes "a") named_y
      (codes "a" ∷ []) two (λ id. id) is_y listed 0 free named returned sorted plain stored 2 []
      (omega arith)

-- An iterator over `select (a) return a` at a node.
abbrev at_node : Text → Bool → Cursor whole list_db word_schema worded edge_worded keys_of
at_node id is_end = record {
  search = record {
    it = record {
      sql = one_node (codes "a") [] (codes "a" ∷ []);
      deduction_steps = one_step;
      nodes_id = id ∷ [];
      edges_id = [];
    };
    graph = two;
    found = true;
  };
  is_end = is_end;
  row = record { nodes = []; edges = [] };
}

from_x_to_y :
    increment whole list_db word_schema worded edge_worded keys_of 1 (at_node (codes "x") false)
    ≡ ok (at_node (codes "y") false)
unfolding increment find_next_possible seek text_lt ids_with_suffix suffix_text add_suffix
    is_self_constrained compare_properties get_node lookup text_eq
from_x_to_y = refl

x_passes :
    AllPass whole list_db word_schema worded edge_worded keys_of
      (at_node (codes "x") false).search
      one_step
unfolding is_self_constrained compare_properties get_node lookup text_eq add_suffix
x_passes = (refl, tt)

increment-AllPass_example :
    AllPass whole list_db word_schema worded edge_worded keys_of
      (at_node (codes "y") false).search
      one_step
increment-AllPass_example =
    increment-AllPass whole list_db word_schema worded edge_worded keys_of 1
      (at_node (codes "x") false) (at_node (codes "y") false) (tt, tt) x_passes from_x_to_y refl
