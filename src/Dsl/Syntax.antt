-- ===== src/Dsl/Syntax.antt =====
-- The data of include/graphdsl.hpp (sentences) and of src/graphdsl.cpp (tokens, exceptions).
use network_algo.Prelude.{ℕ, Text, text_eq, Bool, ◌&&◌, ◌==◌, List}
use Prim.Native.String.{String}

pub data Relationship : Type 0 where
  greater smaller equal : Relationship

pub record Property : Type 0 where
  pub name : Text
  pub relationship : Relationship
  pub value : Text

abbrev pub Properties : Type 0
Properties = List Property

pub record NodeType : Type 0 where
  pub id : Text
  pub properties : Properties

pub data EdgeDirection : Type 0 where
  prev next bidirection : EdgeDirection

pub record EdgeType : Type 0 where
  pub id : Text
  pub direction : EdgeDirection
  pub properties : Properties

pub record SelectSentence : Type 0 where
  pub nodes : List NodeType
  pub edges : List EdgeType

pub record ReturnSentence : Type 0 where
  pub return_name : List Text

-- `pair<SelectSentence, ReturnSentence>`
pub record GraphSqlSentence : Type 0 where
  pub first : SelectSentence
  pub second : ReturnSentence

pub data TokenType : Type 0 where
  identifier keyword dash leftbracket rightbracket smaller greater equal number : TokenType
  leftparen rightparen comma eof string : TokenType

-- The enumerators' values, in the order of their declaration.
unfoldable pub rank : TokenType → ℕ
rank TokenType.identifier = 0
rank TokenType.keyword = 1
rank TokenType.dash = 2
rank TokenType.leftbracket = 3
rank TokenType.rightbracket = 4
rank TokenType.smaller = 5
rank TokenType.greater = 6
rank TokenType.equal = 7
rank TokenType.number = 8
rank TokenType.leftparen = 9
rank TokenType.rightparen = 10
rank TokenType.comma = 11
rank TokenType.eof = 12
rank TokenType.string = 13

unfoldable pub same_type : TokenType → TokenType → Bool
unfolding rank
same_type a b = rank a == rank b

pub record Token : Type 0 where
  pub type : TokenType
  pub raw : Text

-- `token::operator==`
unfoldable pub token_eq : Token → Token → Bool
unfolding same_type
token_eq a b = same_type a.type b.type && text_eq a.raw b.raw

-- `GraphSqlParseException` with its message, `GraphSqlParseStateException` with the characters near
-- the error, and the two exceptions by which the parser looks for a node and for an edge.
pub data Exception : Type 0 where
  parse_exception : String → Exception
  parse_state_exception : String → Text → Exception
  node_not_found edge_not_found : Exception
