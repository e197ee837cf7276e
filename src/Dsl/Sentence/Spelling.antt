-- ===== src/Dsl/Sentence/Spelling.antt =====
-- Properties, nodes and edges that were spelt as tokens parse back, for the parser of
-- src/graphdsl.cpp.
use network_algo.Prelude.{
  ℕ, zero, suc, ◌≤◌, ◌<◌, ◌≡◌, ◌≢◌, refl, ap, ◌∙◌, Text, Bool, true, false, [], ◌∷◌, ◌++◌, arith,
  length, ◌==◌, Bool-cases, inl, inr, append_assoc, append-nil,
}
use network_algo.Dsl.Syntax.{
  Relationship, Property, Properties, NodeType, EdgeDirection, EdgeType, TokenType, Token,
  same_type, rank,
}
use network_algo.Dsl.Outcome.{ok}
use network_algo.Dsl.Parser.{
  Queue, throw_if, look, front, pop_front, push_front, get_id, get_properties, get_property,
  get_property_of, get_property_list, get_next_with_type, relationship_of, is_logical_op,
  is_constant, first_char, front_is_not, front_raw, front_fails,
}
use network_algo.Dsl.Sentence.{
  get_contents, get_node, edge_trailing_dir, is_greater, not_at_end, get_left_dir, get_middle,
  direction_of, get_edge,
}
use network_algo.Dsl.Sentence.Printer.{
  word, symbol, relationship_token, value_token, property_tokens, properties_tokens, id_tokens,
  node_tokens, right_tokens, middle_tokens, edge_tokens,
}

is_constant-value_token : (v : Text) → is_constant (value_token v) ≡ true
unfolding is_constant same_type rank
is_constant-value_token v = ground arith

get_property_of-tokens :
    (name : Text) (r : Relationship) (v : Text) (rest : Queue)
    → get_property_of name (relationship_token r ∷ value_token v ∷ rest)
      ≡ ok (record { name = name; relationship = r; value = v }) rest
unfolding get_property_of look throw_if front pop_front front_fails front_raw relationship_of
    is_logical_op same_type
get_property_of-tokens name Relationship.greater v rest = rw is_constant-value_token
get_property_of-tokens name Relationship.smaller v rest = rw is_constant-value_token
get_property_of-tokens name Relationship.equal v rest = rw is_constant-value_token

get_property-tokens :
    (p : Property) (rest : Queue) → get_property (property_tokens p rest) ≡ ok p rest
unfolding get_property front throw_if pop_front same_type
get_property-tokens p rest = get_property_of-tokens p.name p.relationship p.value rest

length-properties_tokens :
    (ps : Properties) (rest : Queue) → length ps ≤ length (properties_tokens ps rest)
length-properties_tokens [] rest = omega arith
length-properties_tokens (p ∷ ps) rest = omega (arith, length-properties_tokens ps rest)

-- A token that closes a node or an edge.
record IsClosing (t : Token) : Type 0 where
  not_word : same_type TokenType.identifier t.type ≡ false
  itself : same_type t.type t.type ≡ true
  not_op : is_logical_op t ≡ false

module _ (t : Token) (closes : IsClosing t) where
  get_property_list-tokens :
      (f : ℕ) (result ps : Properties) (rest : Queue)
      → length ps < f
      → get_property_list t.type f result (properties_tokens ps (t ∷ rest)) ≡ ok (result ++ ps) rest
  unfolding get_property_list
  get_property_list-tokens zero result ps rest h = absurd (omega arith)
  get_property_list-tokens (suc f) result [] rest h = rw (closes.itself, append-nil)
  get_property_list-tokens (suc f) result (p ∷ ps) rest h =
      rw (closes.not_word, get_property-tokens)
        (get_property_list-tokens f (result ++ p ∷ []) ps rest (omega arith)
          ∙ ap (λ r. ok r rest) (append_assoc result (p ∷ []) ps))

  get_properties-tokens :
      (ps : Properties) (rest : Queue)
      → get_properties t.type (properties_tokens ps (t ∷ rest)) ≡ ok ps rest
  unfolding get_properties
  get_properties-tokens ps rest =
      get_property_list-tokens _ [] ps rest (omega (arith, length-properties_tokens ps (t ∷ rest)))

  get_id-name :
      (c : ℕ) (s : Text) (ps : Properties) (rest : Queue)
      → c ≢ b':'
      → get_id (word (c ∷ s) ∷ properties_tokens ps (t ∷ rest))
        ≡ ok (c ∷ s) (properties_tokens ps (t ∷ rest))
  unfolding get_id look throw_if front pop_front front_is_not front_raw push_front first_char
      same_type
  get_id-name c s [] rest h = let e : (c == b':') ≡ false = ground arith in rw e (rw closes.not_op)
  get_id-name c s (p ∷ ps) rest h =
      let e : (c == b':') ≡ false = ground arith in rw e (unfold is_logical_op in refl)

is_logical_op-relationship_token : (r : Relationship) → is_logical_op (relationship_token r) ≡ true
unfolding is_logical_op same_type
is_logical_op-relationship_token Relationship.greater = refl
is_logical_op-relationship_token Relationship.smaller = refl
is_logical_op-relationship_token Relationship.equal = refl

get_id-property :
    (p : Property) (rest : Queue) → get_id (property_tokens p rest) ≡ ok [] (property_tokens p rest)
unfolding get_id look throw_if front pop_front front_is_not front_raw push_front same_type
get_id-property p rest = elim (Bool-cases (first_char p.name == b':')) [
  | inl e ↦ rw e
  | inr e ↦ rw e (rw is_logical_op-relationship_token)
]

-- An id that the parser tells from a label: it does not begin with a colon.
abbrev pub IsId : Text → Type 0
IsId id = first_char id ≢ b':'

module _ (t : Token) (closes : IsClosing t) where
  get_contents-tokens :
      (id : Text) (ps : Properties) (rest : Queue)
      → IsId id
      → get_contents t.type (id_tokens id (properties_tokens ps (t ∷ rest))) ≡ ok (id, ps) rest
  unfolding get_contents front pop_front first_char
  get_contents-tokens [] [] rest h = rw closes.itself
  get_contents-tokens [] (p ∷ ps) rest h =
      rw (closes.not_word, get_id-property, get_properties-tokens t closes (p ∷ ps) rest)
  get_contents-tokens (c ∷ s) ps rest h =
      rw (
        closes.not_word,
        get_id-name t closes c s ps rest h,
        get_properties-tokens t closes ps rest,
      )

paren-IsClosing : IsClosing (symbol TokenType.rightparen ")")
unfolding same_type is_logical_op
paren-IsClosing = record { not_word = refl; itself = refl; not_op = refl }

bracket-IsClosing : IsClosing (symbol TokenType.rightbracket "]")
unfolding same_type is_logical_op
bracket-IsClosing = record { not_word = refl; itself = refl; not_op = refl }

pub get_node-tokens :
    (n : NodeType) (rest : Queue) → IsId n.id → get_node (node_tokens n rest) ≡ ok n rest
unfolding get_node front throw_if pop_front same_type
get_node-tokens n rest h =
    rw (
      get_contents-tokens (symbol TokenType.rightparen ")") paren-IsClosing n.id n.properties rest
        h)

abbrev is_next : EdgeDirection → Bool
is_next EdgeDirection.next = true
is_next _ = false

edge_trailing_dir-right :
    (d : EdgeDirection) (rest : Queue)
    → is_greater rest ≡ false
    → edge_trailing_dir (right_tokens d rest) ≡ ok (is_next d) rest
unfolding edge_trailing_dir get_next_with_type look front_is_not front_raw throw_if front pop_front
    same_type
edge_trailing_dir-right EdgeDirection.prev rest h = rw h
edge_trailing_dir-right EdgeDirection.next rest h = unfold is_greater in refl
edge_trailing_dir-right EdgeDirection.bidirection rest h = rw h

get_middle-short :
    (d : EdgeDirection) (rest : Queue)
    → is_greater rest ≡ false
    → get_middle (right_tokens d rest) ≡ ok ([], [], is_next d) rest
unfolding get_middle front same_type
get_middle-short EdgeDirection.prev rest h = rw (edge_trailing_dir-right EdgeDirection.prev rest h)
get_middle-short EdgeDirection.next rest h = rw (edge_trailing_dir-right EdgeDirection.next rest h)
get_middle-short EdgeDirection.bidirection rest h =
    rw (edge_trailing_dir-right EdgeDirection.bidirection rest h)

module _ (d : EdgeDirection) (rest : Queue) (h : is_greater rest ≡ false) where
  get_middle-tokens :
      (id : Text) (ps : Properties)
      → IsId id
      → get_middle (middle_tokens id ps (right_tokens d rest)) ≡ ok (id, ps, is_next d) rest
  unfolding get_middle front pop_front same_type
  get_middle-tokens [] [] k = get_middle-short d rest h
  get_middle-tokens [] (p ∷ ps) k =
      rw
        (get_contents-tokens (symbol TokenType.rightbracket "]") bracket-IsClosing [] (p ∷ ps)
          (right_tokens d rest) k)
        (rw (edge_trailing_dir-right d rest h))
  get_middle-tokens (c ∷ s) ps k =
      rw
        (get_contents-tokens (symbol TokenType.rightbracket "]") bracket-IsClosing (c ∷ s) ps
          (right_tokens d rest) k)
        (rw (edge_trailing_dir-right d rest h))

not_at_end-middle :
    (id : Text) (ps : Properties) (d : EdgeDirection) (rest : Queue)
    → not_at_end (middle_tokens id ps (right_tokens d rest))
      ≡ ok tt (middle_tokens id ps (right_tokens d rest))
unfolding not_at_end
not_at_end-middle [] [] EdgeDirection.prev rest = refl
not_at_end-middle [] [] EdgeDirection.next rest = refl
not_at_end-middle [] [] EdgeDirection.bidirection rest = refl
not_at_end-middle [] (p ∷ ps) d rest = refl
not_at_end-middle (c ∷ s) ps d rest = refl

module _ (id : Text) (ps : Properties) (rest : Queue) (k : IsId id)
    (h : is_greater rest ≡ false) where
  pub get_edge-tokens :
      (d : EdgeDirection)
      → let e : EdgeType = record { id = id; direction = d; properties = ps } in
        get_edge (edge_tokens e rest) ≡ ok e rest
  unfolding get_edge get_left_dir get_next_with_type look front_is_not front_raw throw_if front
      pop_front same_type direction_of not_at_end
  get_edge-tokens EdgeDirection.prev = rw (
    not_at_end-middle id ps EdgeDirection.prev rest,
    get_middle-tokens EdgeDirection.prev rest h id ps k,
  )
  get_edge-tokens EdgeDirection.next = rw (
    not_at_end-middle id ps EdgeDirection.next rest,
    get_middle-tokens EdgeDirection.next rest h id ps k,
  )
  get_edge-tokens EdgeDirection.bidirection = rw (
    not_at_end-middle id ps EdgeDirection.bidirection rest,
    get_middle-tokens EdgeDirection.bidirection rest h id ps k,
  )
