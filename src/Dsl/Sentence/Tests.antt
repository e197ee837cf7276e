-- ===== src/Dsl/Sentence/Tests.antt =====
-- Runs of the parser at the inputs of test/graphdsltest.cpp, and instances of its properties.
use network_algo.Prelude.{Text, text_eq, codes, ◌≡◌, ◌≢◌, refl, [], ◌∷◌, arith}
use network_algo.Dsl.Syntax.{
  Relationship, NodeType, EdgeDirection, EdgeType, GraphSqlSentence, parse_state_exception, rank,
  same_type, token_eq,
}
use network_algo.Dsl.Outcome.{Outcome, ok, throw, undefined, out_of_fuel}
use network_algo.Dsl.Parser.{
  front, pop_front, push_front, look, throw_if, front_is_not, front_raw, front_fails, is_logical_op,
  is_constant, relationship_of, get_property_of, get_property, get_property_list, get_properties,
  get_next_with_type, first_char, get_id,
}
use network_algo.Dsl.Stream.{get, unget, peek}
use network_algo.Dsl.Lexer.{tokenize}
use network_algo.Dsl.Sentence.{
  get_contents, get_node, is_greater, edge_trailing_dir, not_at_end, get_left_dir, get_middle,
  direction_of, get_edge, node_has_id, edge_has_id, is_valid_identifier, catch_edge, get_pattern,
  get_return_names, parse_tokens, forget, parse_graph_sql_impl,
}
use network_algo.Dsl.Sentence.Printer.{word, names_tokens, select_tokens}
use network_algo.Dsl.Sentence.Total.{parse_graph_sql_impl-ne-out_of_fuel}
use network_algo.Dsl.Sentence.RoundTrip.{
  Steps, return_token, select_of, parse_tokens-sentence, parse_tokens-no_name,
}

run : Text → Outcome (Unit {0}) GraphSqlSentence
unfolding get unget peek parse_graph_sql_impl parse_tokens tokenize forget front pop_front
    push_front look throw_if front_is_not front_raw front_fails is_logical_op is_constant
    relationship_of get_property_of get_property get_property_list get_properties get_next_with_type
    first_char get_id get_contents get_node is_greater edge_trailing_dir not_at_end get_left_dir
    get_middle direction_of get_edge node_has_id edge_has_id is_valid_identifier catch_edge
    get_pattern get_return_names same_type rank token_eq
run text = parse_graph_sql_impl text

abbrev node_a : NodeType
node_a = record {
  id = codes "a";
  properties =
      record { name = codes "len"; relationship = Relationship.greater; value = codes "3" } ∷ [];
}

abbrev unnamed : NodeType
unnamed = record {
  id = [];
  properties =
      record { name = codes "len"; relationship = Relationship.equal; value = codes "2" } ∷ [];
}

abbrev edge_e : EdgeType
edge_e = record { id = codes "e"; direction = EdgeDirection.next; properties = [] }

abbrev plain : EdgeType
plain = record { id = []; direction = EdgeDirection.bidirection; properties = [] }

abbrev two_steps : Steps
two_steps = (plain, unnamed) ∷ (edge_e, node_a) ∷ []

sentence_test :
    run (codes "select (a len>3)--(len=2)-[e]->(a len>3) return a, e")
    ≡ ok
        (record {
          first = select_of node_a two_steps;
          second = record { return_name = codes "a" ∷ codes "e" ∷ [] };
        })
        tt
unfolding run
sentence_test = refl

unknown_name :
    run (codes "select (a) return a, b")
    ≡ throw
        (parse_state_exception "Only node or edge id could appear in return sentence" (codes "b"))
        tt
unfolding run
unknown_name = refl

unknown_character :
    run (codes "a^b")
    ≡ throw
        (parse_state_exception "The first character of identifier should be a letter or : or _"
          (codes "a^b"))
        tt
unfolding run
unknown_character = refl

-- The first name to return is not looked up.
first_name_unknown :
    run (codes "select (a) return zzz")
    ≡ ok
        (record {
          first = select_of (record { id = codes "a"; properties = [] }) [];
          second = record { return_name = codes "zzz" ∷ [] };
        })
        tt
unfolding run
first_name_unknown = refl

parse_graph_sql_impl-ne-out_of_fuel_example : parse_graph_sql_impl (codes "select (a") ≢ out_of_fuel
parse_graph_sql_impl-ne-out_of_fuel_example =
    parse_graph_sql_impl-ne-out_of_fuel (codes "select (a")

parse_tokens-sentence_example :
    parse_tokens (
      select_tokens node_a two_steps
        (return_token ∷ word (codes "zzz") ∷ names_tokens (codes "e" ∷ [])))
    ≡ ok
        (record {
          first = select_of node_a two_steps;
          second = record { return_name = codes "zzz" ∷ codes "e" ∷ [] };
        })
        []
unfolding is_valid_identifier node_has_id edge_has_id first_char text_eq
parse_tokens-sentence_example =
    parse_tokens-sentence node_a two_steps (omega arith) (omega arith) (codes "zzz")
      (codes "e" ∷ []) (refl, tt)

parse_tokens-no_name_example :
    parse_tokens (select_tokens node_a two_steps (return_token ∷ [])) ≡ undefined
unfolding first_char
parse_tokens-no_name_example = parse_tokens-no_name node_a two_steps (omega arith) (omega arith)
