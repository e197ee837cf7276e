-- ===== src/Dsl/Manager/Tests.antt =====
-- Instances of the properties of the cache of sentences in src/graphdsl.cpp.
use network_algo.Prelude.{◌≡◌, [], codes, ℕ_eq}
use network_algo.Containers.Assoc.{lookup}
use network_algo.Dsl.Syntax.{GraphSqlSentence}
use network_algo.Dsl.Outcome.{ok}
use network_algo.Dsl.Sentence.{forget, parse_graph_sql_impl}
use network_algo.Dsl.Manager.{
  Memory, SentenceCache, IsCurrent, get_parsed_sentence, get_parsed_sentence-parse,
}

abbrev one_node : Memory
one_node p = codes "select (a) return a"

nothing-IsCurrent : IsCurrent one_node []
unfolding lookup
nothing-IsCurrent p sentence h = cc

get_parsed_sentence-parse_example :
    (forget (get_parsed_sentence one_node 7 [])
      ≡ parse_graph_sql_impl (codes "select (a) return a"))
    × ((sentence : GraphSqlSentence) (cache' : SentenceCache)
        → get_parsed_sentence one_node 7 [] ≡ ok sentence cache'
        → IsCurrent one_node cache')
get_parsed_sentence-parse_example = get_parsed_sentence-parse one_node 7 [] nothing-IsCurrent
