-- ===== src/Dsl/Parser.antt =====
-- The parser of src/graphdsl.cpp over the token queue: `getProperty`, `getPropertyList`, `getId`,
-- `getNode`, `edgeTrailingDir`, `getEdge`, `isValidIdentifier` and the body of `parseGraphSqlImpl`.
-- An action reads the queue and returns what is left of it, beside an exception too. `front()` and
-- `pop_front()` of an empty deque are undefined behaviour.
pub mod Lengths
use Prim.Native.String.{String}
use network_algo.Prelude.{
  ℕ, zero, suc, ◌+◌, Text, codes, text_eq, Bool, true, false, not, ◌&&◌, ◌||◌, List, [], ◌∷◌, ◌++◌,
  ◌==◌, if◌then◌else◌, length,
}
use network_algo.Dsl.Syntax.{
  Relationship, Property, Properties, NodeType, EdgeDirection, EdgeType, SelectSentence,
  ReturnSentence, GraphSqlSentence, TokenType, Token, rank, same_type, token_eq, Exception,
  parse_exception, parse_state_exception, node_not_found, edge_not_found,
}
use network_algo.Dsl.Outcome.{
  Outcome, Action, ok, throw, undefined, out_of_fuel, pure, bind, ◌>>=◌, ◌>>◌,
}

abbrev pub Queue : Type 0
Queue = List Token

abbrev pub Parser : Type 0 → Type 0
Parser A = Action Queue A

abbrev pub raise : {A : Type 0} → Exception → Parser A
raise e q = throw e q

-- `if (test) throw e;`
unfoldable pub throw_if : Bool → Exception → Parser (Unit {0})
throw_if true e = raise e
throw_if false e = pure tt

-- A value read off the queue, which stays as it is.
unfoldable pub look : {A : Type 0} → (Queue → A) → Parser A
look f q = ok (f q) q

unfoldable pub front : Parser Token
front [] = undefined
front (t ∷ q) = ok t (t ∷ q)

unfoldable pub pop_front : Parser (Unit {0})
pop_front [] = undefined
pop_front (t ∷ q) = ok tt q

unfoldable pub push_front : Token → Parser (Unit {0})
push_front t q = ok tt (t ∷ q)

-- `tokenQueue.empty() || tokenQueue.front().type != type`
unfoldable pub front_is_not : TokenType → Queue → Bool
front_is_not type [] = true
front_is_not type (t ∷ q) = not (same_type t.type type)

-- `tokenQueue.empty() ? end : tokenQueue.front().raw`
unfoldable pub front_raw : String → Queue → Text
front_raw end [] = codes end
front_raw end (t ∷ q) = t.raw

unfoldable pub is_logical_op : Token → Bool
is_logical_op t =
    same_type t.type TokenType.smaller
    || same_type t.type TokenType.greater
    || same_type t.type TokenType.equal

unfoldable pub is_constant : Token → Bool
is_constant t = same_type t.type TokenType.number || same_type t.type TokenType.string

-- `tokenQueue.empty() || !test(tokenQueue.front())`
unfoldable pub front_fails : (Token → Bool) → Queue → Bool
front_fails test [] = true
front_fails test (t ∷ q) = not (test t)

-- The `switch` of `getProperty`.
unfoldable pub relationship_of : Token → Parser Relationship
relationship_of t = elim t.type [
  | TokenType.smaller ↦ pure Relationship.smaller
  | TokenType.equal ↦ pure Relationship.equal
  | TokenType.greater ↦ pure Relationship.greater
  | _ ↦ raise (parse_state_exception "Unexpected logical operator" t.raw)
]

-- The branches of `getProperty` after the name.
unfoldable pub get_property_of : Text → Parser Property
get_property_of name = do
  no_op ← look (front_fails is_logical_op)
  at_op ← look (front_raw "eof")
  throw_if no_op (parse_state_exception "logical op(<,=,>) not found when parsing property" at_op)
  op ← front
  relationship ← relationship_of op
  pop_front
  no_constant ← look (front_fails is_constant)
  at_constant ← look (front_raw "eof")
  throw_if no_constant (parse_state_exception "constant not found after logical op" at_constant)
  constant ← front
  pop_front
  pure (record { name = name; relationship = relationship; value = constant.raw })

unfoldable pub get_property : Parser Property
get_property = do
  t ← front
  throw_if (not (same_type t.type TokenType.identifier))
      (parse_state_exception "the property name must be an identifier" t.raw)
  pop_front
  get_property_of t.raw

-- `getPropertyList<terminator>`, with the vector `result` built so far.
unfoldable pub get_property_list : TokenType → ℕ → Properties → Parser Properties
get_property_list terminator zero result q = out_of_fuel
get_property_list terminator (suc f) result [] =
    throw (parse_exception "Unexpected eof when parsing node") []
get_property_list terminator (suc f) result (t ∷ q) =
    let more = bind (get_property (t ∷ q)) λ p. get_property_list terminator f (result ++ p ∷ []) in
    if same_type t.type terminator then ok result q else more

-- A property takes tokens, so the length of the queue bounds the rounds.
unfoldable pub get_properties : TokenType → Parser Properties
get_properties terminator q = get_property_list terminator (suc (length q)) [] q

-- `getNextWithType<type>`. The message holds `char(C)`, the enumerator's value as a character.
unfoldable pub get_next_with_type : TokenType → Parser Token
get_next_with_type type = do
  other ← look (front_is_not type)
  got ← look (front_raw "eof")
  throw_if other (
      parse_state_exception "assert failure in next char"
        (codes "Expected: " ++ rank type ∷ (codes " Got:" ++ got)))
  t ← front
  pop_front
  pure t

-- `s[0]`; the character behind the end of a `std::string` is 0.
unfoldable pub first_char : Text → ℕ
first_char [] = 0
first_char (c ∷ s) = c

unfoldable pub get_id : Parser Text
get_id = do
  other ← look (front_is_not TokenType.identifier)
  near ← look (front_raw "EOF")
  throw_if other (parse_state_exception "id not found" near)
  first ← front
  pop_front
  if first_char first.raw == b':' then (do push_front first; pure []) else (do
    next ← front
    if not (is_logical_op next) then pure first.raw else (do push_front first; pure []))
