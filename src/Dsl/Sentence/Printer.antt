-- ===== src/Dsl/Sentence/Printer.antt =====
-- How a sentence is spelt as tokens: the inverse of the parser of src/graphdsl.cpp. Each function
-- takes the tokens that follow.
use Prim.Native.String.{String}
use network_algo.Prelude.{Text, codes, List, [], ◌∷◌, ◌==◌, if◌then◌else◌}
use network_algo.Dsl.Syntax.{
  Relationship, Property, Properties, NodeType, EdgeDirection, EdgeType, TokenType, Token,
}
use network_algo.Dsl.Parser.{Queue, first_char}

abbrev pub word : Text → Token
word raw = record { type = TokenType.identifier; raw = raw }

abbrev pub symbol : TokenType → String → Token
symbol type raw = record { type = type; raw = codes raw }

abbrev pub relationship_token : Relationship → Token
relationship_token Relationship.greater = symbol TokenType.greater ">"
relationship_token Relationship.smaller = symbol TokenType.smaller "<"
relationship_token Relationship.equal = symbol TokenType.equal "="

-- A literal is a string if it begins with a quote, and a number if not.
abbrev pub value_token : Text → Token
value_token v = record {
  type = if first_char v == b'"' then TokenType.string else TokenType.number;
  raw = v;
}

abbrev pub property_tokens : Property → Queue → Queue
property_tokens p rest =
    word p.name ∷ relationship_token p.relationship ∷ value_token p.value ∷ rest

abbrev pub properties_tokens : Properties → Queue → Queue
properties_tokens [] rest = rest
properties_tokens (p ∷ ps) rest = property_tokens p (properties_tokens ps rest)

abbrev pub id_tokens : Text → Queue → Queue
id_tokens [] rest = rest
id_tokens (c ∷ s) rest = word (c ∷ s) ∷ rest

abbrev pub node_tokens : NodeType → Queue → Queue
node_tokens n rest =
    symbol TokenType.leftparen "("
    ∷ id_tokens n.id (properties_tokens n.properties (symbol TokenType.rightparen ")" ∷ rest))

abbrev pub left_tokens : EdgeDirection → Queue → Queue
left_tokens EdgeDirection.prev rest =
    symbol TokenType.smaller "<" ∷ symbol TokenType.dash "-" ∷ rest
left_tokens EdgeDirection.next rest = symbol TokenType.dash "-" ∷ rest
left_tokens EdgeDirection.bidirection rest = symbol TokenType.dash "-" ∷ rest

abbrev pub right_tokens : EdgeDirection → Queue → Queue
right_tokens EdgeDirection.prev rest = symbol TokenType.dash "-" ∷ rest
right_tokens EdgeDirection.next rest =
    symbol TokenType.dash "-" ∷ symbol TokenType.greater ">" ∷ rest
right_tokens EdgeDirection.bidirection rest = symbol TokenType.dash "-" ∷ rest

-- An edge with neither id nor properties is spelt without brackets.
abbrev pub middle_tokens : Text → Properties → Queue → Queue
middle_tokens [] [] rest = rest
middle_tokens id properties rest =
    symbol TokenType.leftbracket "["
    ∷ id_tokens id (properties_tokens properties (symbol TokenType.rightbracket "]" ∷ rest))

abbrev pub edge_tokens : EdgeType → Queue → Queue
edge_tokens e rest =
    left_tokens e.direction (middle_tokens e.id e.properties (right_tokens e.direction rest))

-- A pattern is a node and a list of steps, each an edge and the node that it leads to.
abbrev pub steps_tokens : List (EdgeType × NodeType) → Queue → Queue
steps_tokens [] rest = rest
steps_tokens ((e, n) ∷ steps) rest = edge_tokens e (node_tokens n (steps_tokens steps rest))

abbrev pub names_tokens : List Text → Queue
names_tokens [] = []
names_tokens (name ∷ names) = symbol TokenType.comma "," ∷ word name ∷ names_tokens names

abbrev pub select_tokens : NodeType → List (EdgeType × NodeType) → Queue → Queue
select_tokens n steps rest =
    symbol TokenType.keyword "select" ∷ node_tokens n (steps_tokens steps rest)
