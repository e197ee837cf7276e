-- ===== src/Dsl/Sentence/RoundTrip.antt =====
-- A whole sentence that was spelt as tokens parses back, for the parser of src/graphdsl.cpp, and
-- what the parser makes of a sentence that ends too early.
use network_algo.Prelude.{
  ℕ, zero, suc, ◌≤◌, ◌<◌, ◌≡◌, refl, Text, text_eq, true, List, [], ◌∷◌, ◌++◌, map, arith, length,
  All, append_assoc, append-nil,
}
use network_algo.Dsl.Syntax.{
  Properties, NodeType, EdgeDirection, EdgeType, SelectSentence, TokenType, Token, same_type,
  token_eq, edge_not_found,
}
use network_algo.Dsl.Outcome.{ok, throw, undefined}
use network_algo.Dsl.Parser.{
  Queue, throw_if, look, front, pop_front, get_next_with_type, front_is_not, front_raw,
}
use network_algo.Dsl.Sentence.{
  is_greater, not_at_end, get_left_dir, get_edge, catch_edge, get_pattern, get_return_names,
  parse_tokens, is_valid_identifier,
}
use network_algo.Dsl.Sentence.Spelling.{IsId, get_node-tokens, get_edge-tokens}
use network_algo.Dsl.Sentence.Printer.{
  word, symbol, properties_tokens, id_tokens, node_tokens, left_tokens, right_tokens, middle_tokens,
  steps_tokens, names_tokens, select_tokens,
}

abbrev pub Steps : Type 0
Steps = List (EdgeType × NodeType)

-- No id of the pattern begins with a colon.
abbrev pub IsStep : EdgeType × NodeType → Type 0
IsStep (e, n) = IsId e.id × IsId n.id

-- The sentence that a first node and steps stand for.
abbrev pub select_of : NodeType → Steps → SelectSentence
select_of n steps = record { nodes = n ∷ map (λ s. s.1) steps; edges = map (λ s. s.0) steps }

length-properties :
    (ps : Properties) (rest : Queue) → length rest ≤ length (properties_tokens ps rest)
length-properties [] rest = omega arith
length-properties (p ∷ ps) rest = omega (arith, length-properties ps rest)

length-id : (id : Text) (rest : Queue) → length rest ≤ length (id_tokens id rest)
length-id [] rest = omega arith
length-id (c ∷ s) rest = omega arith

length-node : (n : NodeType) (rest : Queue) → length rest < length (node_tokens n rest)
length-node n rest =
    let closed = symbol TokenType.rightparen ")" ∷ rest in
    omega (
      arith,
      length-properties n.properties closed,
      length-id n.id (properties_tokens n.properties closed),
    )

length-right : (d : EdgeDirection) (rest : Queue) → length rest ≤ length (right_tokens d rest)
length-right EdgeDirection.prev rest = omega arith
length-right EdgeDirection.next rest = omega arith
length-right EdgeDirection.bidirection rest = omega arith

length-left : (d : EdgeDirection) (rest : Queue) → length rest ≤ length (left_tokens d rest)
length-left EdgeDirection.prev rest = omega arith
length-left EdgeDirection.next rest = omega arith
length-left EdgeDirection.bidirection rest = omega arith

length-middle :
    (id : Text) (ps : Properties) (rest : Queue) → length rest ≤ length (middle_tokens id ps rest)
length-middle [] [] rest = omega arith
length-middle [] (p ∷ ps) rest =
    omega (arith, length-properties ps (symbol TokenType.rightbracket "]" ∷ rest))
length-middle (c ∷ s) ps rest =
    omega (arith, length-properties ps (symbol TokenType.rightbracket "]" ∷ rest))

length-steps : (steps : Steps) (rest : Queue) → length steps ≤ length (steps_tokens steps rest)
length-steps [] rest = omega arith
length-steps ((e, n) ∷ steps) rest =
    let more = steps_tokens steps rest in
    let closed = right_tokens e.direction (node_tokens n more) in
    omega (
      arith,
      length-steps steps rest,
      length-node n more,
      length-right e.direction (node_tokens n more),
      length-middle e.id e.properties closed,
      length-left e.direction (middle_tokens e.id e.properties closed),
    )

get_pattern-tokens :
    (f : ℕ) (nodes : List NodeType) (edges : List EdgeType) (steps : Steps) (rest : Queue)
    → All IsStep steps
    → get_edge rest ≡ throw edge_not_found rest
    → length steps < f
    → get_pattern f nodes edges (steps_tokens steps rest)
      ≡ ok
          (record { nodes = nodes ++ map (λ s. s.1) steps; edges = edges ++ map (λ s. s.0) steps })
          rest
unfolding get_pattern catch_edge
get_pattern-tokens zero nodes edges steps rest ids stop h = absurd (omega arith)
get_pattern-tokens (suc f) nodes edges [] rest ids stop h = rw stop (simp append-nil)
get_pattern-tokens (suc f) nodes edges ((e, n) ∷ steps) rest ids stop h =
    let more = steps_tokens steps rest in
    rw
      (get_edge-tokens e.id e.properties (node_tokens n more) ids.0.0
        (unfold is_greater same_type in refl) e.direction)
      (rw (get_node-tokens n more ids.0.1) (
        rw
          (get_pattern-tokens f (nodes ++ n ∷ []) (edges ++ e ∷ []) steps rest ids.1 stop
            (omega arith))
          (simp append_assoc)))

get_return_names-tokens :
    (f : ℕ) (ss : SelectSentence) (before names : List Text)
    → All (λ name. is_valid_identifier ss name ≡ true) names
    → length names ≤ f
    → get_return_names f ss before (names_tokens names) ≡ ok (before ++ names) []
unfolding get_return_names get_next_with_type look front_is_not front_raw throw_if front pop_front
    same_type
get_return_names-tokens zero ss before [] valid h = rw append-nil
get_return_names-tokens (suc f) ss before [] valid h = rw append-nil
get_return_names-tokens zero ss before (name ∷ names) valid h = absurd (omega arith)
get_return_names-tokens (suc f) ss before (name ∷ names) valid h = rw valid.0 (
    rw (get_return_names-tokens f ss (before ++ name ∷ []) names valid.1 (omega arith))
      (simp append_assoc))

length-names : (names : List Text) → length names ≤ length (names_tokens names)
length-names [] = omega arith
length-names (name ∷ names) = omega (arith, length-names names)

abbrev pub return_token : Token
return_token = symbol TokenType.keyword "return"

get_edge-return :
    (rest : Queue) → get_edge (return_token ∷ rest) ≡ throw edge_not_found (return_token ∷ rest)
unfolding get_edge not_at_end get_left_dir front same_type
get_edge-return rest = refl

module _ (n : NodeType) (steps : Steps) (id : IsId n.id) (ids : All IsStep steps) where
  -- A sentence spelt as tokens parses to that sentence: a pattern whose ids do not begin with a
  -- colon, any word as the first name to return, and ids of the pattern as the further names.
  pub parse_tokens-sentence :
      (first : Text) (names : List Text)
      → All (λ name. is_valid_identifier (select_of n steps) name ≡ true) names
      → parse_tokens (select_tokens n steps (return_token ∷ word first ∷ names_tokens names))
        ≡ ok
            (record { first = select_of n steps; second = record { return_name = first ∷ names } })
            []
  unfolding parse_tokens front throw_if pop_front token_eq same_type text_eq
  parse_tokens-sentence first names valid =
      let rest = return_token ∷ word first ∷ names_tokens names in
      rw (get_node-tokens n (steps_tokens steps rest) id) (
        rw
          (get_pattern-tokens (suc (length (steps_tokens steps rest))) (n ∷ []) [] steps rest ids
            (get_edge-return _) (omega (arith, length-steps steps rest)))
          (rw (
            get_return_names-tokens _ (select_of n steps) (first ∷ []) names valid
              (length-names names))))

  -- A sentence that ends behind `return` reads the front of an empty queue.
  pub parse_tokens-no_name : parse_tokens (select_tokens n steps (return_token ∷ [])) ≡ undefined
  unfolding parse_tokens front throw_if pop_front token_eq same_type text_eq
  parse_tokens-no_name =
      let rest = return_token ∷ [] in
      rw (get_node-tokens n (steps_tokens steps rest) id) (
        rw (
          get_pattern-tokens (suc (length (steps_tokens steps rest))) (n ∷ []) [] steps rest ids
            (get_edge-return _) (omega (arith, length-steps steps rest))))
