-- ===== src/Dsl/Sentence.antt =====
-- `getNode`, `getEdge` and the sentence of src/graphdsl.cpp, over the parts in Dsl/Parser.
pub mod Total
pub mod Printer
mod Spelling
pub mod RoundTrip
pub mod Tests
use network_algo.Prelude.{
  ℕ, zero, suc, Text, codes, text_eq, Bool, true, false, not, ◌&&◌, ◌||◌, List, [], ◌∷◌, ◌++◌,
  if◌then◌else◌, length,
}
use network_algo.Dsl.Syntax.{
  Properties, NodeType, EdgeDirection, EdgeType, SelectSentence, GraphSqlSentence, TokenType, Token,
  same_type, rank, token_eq, Exception, parse_exception, parse_state_exception, node_not_found,
  edge_not_found,
}
use network_algo.Dsl.Outcome.{
  Outcome, Action, ok, throw, undefined, out_of_fuel, pure, bind, ◌>>=◌, ◌>>◌,
}
use network_algo.Dsl.Lexer.{tokenize}
use network_algo.Dsl.Parser.{
  push_front, front_is_not, front_raw, front_fails, is_logical_op, is_constant, relationship_of,
  get_property_of, get_property, get_property_list, first_char, Queue, Parser, raise, throw_if,
  look, front, pop_front, get_id, get_properties, get_next_with_type,
}

-- `(` up to the closing bracket: nothing, or an id and properties.
get_contents : TokenType → Parser (Text × Properties)
get_contents closing = do
  t ← front
  if same_type t.type closing
      then (do pop_front; pure ([], []))
      else (do id ← get_id; properties ← get_properties closing; pure (id, properties))

pub get_node : Parser NodeType
get_node = do
  t ← front
  throw_if (not (same_type t.type TokenType.leftparen)) node_not_found
  pop_front
  (id, properties) ← get_contents TokenType.rightparen
  pure (record { id = id; properties = properties })

-- `tokenQueue.empty() || tokenQueue.front().type != token::greater`
pub is_greater : Queue → Bool
is_greater [] = false
is_greater (t ∷ q) = same_type t.type TokenType.greater

edge_trailing_dir : Parser Bool
edge_trailing_dir = do
  get_next_with_type TokenType.dash
  greater ← look is_greater
  if greater then (do pop_front; pure true) else pure false

-- `if (tokenQueue.empty()) throw GraphSqlParseException(…);`
not_at_end : Parser (Unit {0})
not_at_end [] = throw (parse_exception "unexpected eof when parsing edge") []
not_at_end (t ∷ q) = ok tt (t ∷ q)

-- The left end of an edge: `<` is taken, `-` stays.
get_left_dir : Parser Bool
get_left_dir = do
  t ← front
  if same_type t.type TokenType.dash
      then pure false
      else if same_type t.type TokenType.smaller
      then (do pop_front; pure true)
      else raise edge_not_found

-- Behind the first dash: the rest of `--`, or `[…]-`, or neither; with the right direction.
get_middle : Parser (Text × Properties × Bool)
get_middle = do
  t ← front
  if same_type t.type TokenType.dash
      then (do right ← edge_trailing_dir; pure ([], [], right))
      else if same_type t.type TokenType.leftbracket
      then (do
        pop_front
        (id, properties) ← get_contents TokenType.rightbracket
        right ← edge_trailing_dir
        pure (id, properties, right))
      else pure ([], [], false)

direction_of : Bool → Bool → Parser EdgeDirection
direction_of true true = raise (parse_exception "<--> is not allowed")
direction_of true false = pure EdgeDirection.prev
direction_of false true = pure EdgeDirection.next
direction_of false false = pure EdgeDirection.bidirection

pub get_edge : Parser EdgeType
get_edge = do
  not_at_end
  left ← get_left_dir
  get_next_with_type TokenType.dash
  not_at_end
  (id, properties, right) ← get_middle
  direction ← direction_of left right
  pure (record { id = id; direction = direction; properties = properties })

node_has_id : Text → List NodeType → Bool
node_has_id identifier [] = false
node_has_id identifier (n ∷ ns) = text_eq n.id identifier || node_has_id identifier ns

edge_has_id : Text → List EdgeType → Bool
edge_has_id identifier [] = false
edge_has_id identifier (e ∷ es) = text_eq e.id identifier || edge_has_id identifier es

pub is_valid_identifier : SelectSentence → Text → Bool
is_valid_identifier ss identifier =
    not (text_eq identifier [])
    && (node_has_id identifier ss.nodes || edge_has_id identifier ss.edges)

-- `try { … getEdge … } catch (EdgeNotFoundException&) { break; }`: what follows an edge, and what
-- follows the end of the pattern.
catch_edge :
    {A : Type 0} → Outcome Queue EdgeType → (EdgeType → Parser A) → Parser A → Outcome Queue A
catch_edge (ok e q) go_on break = go_on e q
catch_edge (throw edge_not_found q) go_on break = break q
catch_edge (throw e q) go_on break = throw e q
catch_edge undefined go_on break = undefined
catch_edge out_of_fuel go_on break = out_of_fuel

-- The loop over the edges of the pattern, each with the node behind it.
get_pattern : ℕ → List NodeType → List EdgeType → Parser SelectSentence
get_pattern zero nodes edges q = out_of_fuel
get_pattern (suc f) nodes edges q =
    catch_edge (get_edge q)
      (λ e. get_node >>= λ n. get_pattern f (nodes ++ n ∷ []) (edges ++ e ∷ []))
      (pure (record { nodes = nodes; edges = edges }))

-- `while (!tokenQueue.empty())`: each further name stands behind a comma and is an id of the pattern.
get_return_names : ℕ → SelectSentence → List Text → Parser (List Text)
get_return_names f ss names [] = ok names []
get_return_names zero ss names (t ∷ q) = out_of_fuel
get_return_names (suc f) ss names (t ∷ q) = bind (get_next_with_type TokenType.comma (t ∷ q)) λ _.
    get_next_with_type TokenType.identifier >>= λ name.
    throw_if (not (is_valid_identifier ss name.raw))
      (parse_state_exception "Only node or edge id could appear in return sentence" name.raw)
    >> get_return_names f ss (names ++ name.raw ∷ [])

-- `parseGraphSqlImpl`, from the token queue on.
pub parse_tokens : Parser GraphSqlSentence
parse_tokens = do
  t ← front
  throw_if (not (token_eq t (record { type = TokenType.keyword; raw = codes "select" })))
      (parse_state_exception "the first token must be select" t.raw)
  pop_front
  node ← get_node
  ss ← λ q. get_pattern (suc (length q)) (node ∷ []) [] q
  r ← front
  throw_if (not (token_eq r (record { type = TokenType.keyword; raw = codes "return" })))
      (parse_state_exception "return doesn't appear in place" r.raw)
  pop_front
  first ← front
  throw_if (not (same_type first.type TokenType.identifier))
      (parse_state_exception "only identifier could appear in return sentence" first.raw)
  pop_front
  names ← λ q. get_return_names (length q) ss (first.raw ∷ []) q
  pure (record { first = ss; second = record { return_name = names } })

-- The stream and the queue are local to `parseGraphSqlImpl`.
unfoldable pub forget : {S A : Type 0} → Outcome S A → Outcome (Unit {0}) A
forget (ok a s) = ok a tt
forget (throw e s) = throw e tt
forget undefined = undefined
forget out_of_fuel = out_of_fuel

pub parse_graph_sql_impl : Text → Outcome (Unit {0}) GraphSqlSentence
parse_graph_sql_impl text = bind (forget (tokenize text)) λ queue _. forget (parse_tokens queue)
