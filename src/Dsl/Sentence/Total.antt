-- ===== src/Dsl/Sentence/Total.antt =====
-- The parser of src/graphdsl.cpp ends on every token queue: each round of its loops takes tokens.
use network_algo.Prelude.{
  ℕ, zero, suc, ◌≤◌, ◌<◌, ◌≢◌, Text, Bool, true, false, List, [], ◌∷◌, ◌++◌, arith, length,
}
use network_algo.Dsl.Syntax.{
  NodeType, EdgeType, SelectSentence, TokenType, same_type, edge_not_found,
}
use network_algo.Dsl.Outcome.{
  Outcome, out_of_fuel, Ensures, returned, thrown, faulted, Ensures-out_of_fuel, Ensures-branch,
  Ensures-bind,
}
use network_algo.Dsl.Parser.{Queue, Parser, get_properties}
use network_algo.Dsl.Lexer.Total.{tokenize-Ends}
use network_algo.Dsl.Parser.Lengths.{
  Within, Below, front-Within, pop_front-Below, throw_if-Within, look-Within, get_next-Below,
  get_property_list-Within, get_id-Within,
}
use network_algo.Dsl.Sentence.{
  get_contents, get_node, edge_trailing_dir, is_greater, not_at_end, get_left_dir, get_middle,
  direction_of, get_edge, catch_edge, get_pattern, get_return_names, parse_tokens, forget,
  parse_graph_sql_impl,
}

get_contents-Within :
    (closing : TokenType) (n : ℕ) (q : Queue)
    → length q ≤ n
    → Ensures (Within n) (get_contents closing q)
unfolding get_contents get_properties
get_contents-Within closing n q h = Ensures-bind (front-Within n q h) λ t q₁ h₁.
    Ensures-branch (same_type t.type closing) _ _ q₁
      (λ _. Ensures-bind (pop_front-Below n q₁ h₁) λ _ q₂ h₂. returned (omega arith))
      λ _. Ensures-bind (get_id-Within n q₁ h₁) λ id q₂ h₂.
        Ensures-bind (get_property_list-Within closing (suc (length q₂)) n [] q₂ (omega arith) h₂)
          λ properties q₃ h₃. returned h₃

get_node-Below : (n : ℕ) (q : Queue) → length q ≤ n → Ensures (Below n) (get_node q)
unfolding get_node
get_node-Below n q h = Ensures-bind (front-Within n q h) λ t q₁ h₁.
    Ensures-bind (throw_if-Within n _ _ q₁ h₁) λ _ q₂ h₂.
      Ensures-bind (pop_front-Below n q₂ h₂) λ _ q₃ h₃.
        Ensures-bind (get_contents-Within TokenType.rightparen (length q₃) q₃ (omega arith))
          λ contents q₄ h₄. returned (omega arith)

edge_trailing_dir-Within :
    (n : ℕ) (q : Queue) → length q ≤ n → Ensures (Within n) (edge_trailing_dir q)
unfolding edge_trailing_dir
edge_trailing_dir-Within n q h = Ensures-bind (get_next-Below TokenType.dash n q h) λ _ q₁ h₁.
    Ensures-bind (look-Within n is_greater q₁ (omega arith)) λ greater q₂ h₂.
      Ensures-branch greater _ _ q₂
        (λ _. Ensures-bind (pop_front-Below n q₂ h₂) λ _ q₃ h₃. returned (omega arith))
        (λ _. returned h₂)

get_middle-Within : (n : ℕ) (q : Queue) → length q ≤ n → Ensures (Within n) (get_middle q)
unfolding get_middle
get_middle-Within n q h = Ensures-bind (front-Within n q h) λ t q₁ h₁.
    Ensures-branch (same_type t.type TokenType.dash) _ _ q₁
      (λ _. Ensures-bind (edge_trailing_dir-Within n q₁ h₁) λ right q₂ h₂. returned h₂)
      λ _.
        Ensures-branch (same_type t.type TokenType.leftbracket) _ _ q₁
          (λ _. Ensures-bind (pop_front-Below n q₁ h₁) λ _ q₂ h₂.
            Ensures-bind (get_contents-Within TokenType.rightbracket n q₂ (omega arith))
              λ contents q₃ h₃.
                Ensures-bind (edge_trailing_dir-Within n q₃ h₃) λ right q₄ h₄. returned h₄)
          (λ _. returned h₁)

not_at_end-Within : (n : ℕ) (q : Queue) → length q ≤ n → Ensures (Within n) (not_at_end q)
unfolding not_at_end
not_at_end-Within n [] h = thrown
not_at_end-Within n (t ∷ q) h = returned h

get_left_dir-Within : (n : ℕ) (q : Queue) → length q ≤ n → Ensures (Within n) (get_left_dir q)
unfolding get_left_dir
get_left_dir-Within n q h = Ensures-bind (front-Within n q h) λ t q₁ h₁.
    Ensures-branch (same_type t.type TokenType.dash) _ _ q₁ (λ _. returned h₁)
      λ _.
        Ensures-branch (same_type t.type TokenType.smaller) _ _ q₁
          (λ _. Ensures-bind (pop_front-Below n q₁ h₁) λ _ q₂ h₂. returned (omega arith))
          (λ _. thrown)

direction_of-Within :
    (left right : Bool) (n : ℕ) (q : Queue)
    → length q < n
    → Ensures (Below n) (direction_of left right q)
unfolding direction_of
direction_of-Within true true n q h = thrown
direction_of-Within true false n q h = returned h
direction_of-Within false true n q h = returned h
direction_of-Within false false n q h = returned h

get_edge-Below : (n : ℕ) (q : Queue) → length q ≤ n → Ensures (Below n) (get_edge q)
unfolding get_edge
get_edge-Below n q h = Ensures-bind (not_at_end-Within n q h) λ _ q₁ h₁.
    Ensures-bind (get_left_dir-Within n q₁ h₁) λ left q₂ h₂.
      Ensures-bind (get_next-Below TokenType.dash n q₂ h₂) λ _ q₃ h₃.
        Ensures-bind (not_at_end-Within (length q₃) q₃ (omega arith)) λ _ q₄ h₄.
          Ensures-bind (get_middle-Within (length q₃) q₄ h₄) λ middle q₅ h₅.
            Ensures-bind (direction_of-Within left middle.2 n q₅ (omega arith))
              λ direction q₆ h₆. returned h₆

Ensures-catch :
    {A : Type 0} {P : EdgeType → Queue → Type 0} {Q : A → Queue → Type 0}
    {r : Outcome Queue EdgeType} (go_on : EdgeType → Parser A) (break : Parser A)
    → Ensures P r
    → ((e : EdgeType) (q : Queue) → P e q → Ensures Q (go_on e q))
    → ((q : Queue) → Ensures Q (break q))
    → Ensures Q (catch_edge r go_on break)
unfolding catch_edge
Ensures-catch go_on break (returned {a} {s} h) kg kb = kg a s h
Ensures-catch go_on break (thrown {e = edge_not_found} {s}) kg kb = kb s
Ensures-catch go_on break (thrown {e = _}) kg kb = thrown
Ensures-catch go_on break faulted kg kb = faulted

abbrev Ends : {A : Type 0} → Outcome Queue A → Type 0
Ends r = Ensures (λ _ _. Unit {0}) r

get_pattern-Ends :
    (f : ℕ) (nodes : List NodeType) (edges : List EdgeType) (q : Queue)
    → length q < f
    → Ends (get_pattern f nodes edges q)
unfolding get_pattern
get_pattern-Ends zero nodes edges q h = absurd (omega arith)
get_pattern-Ends (suc f) nodes edges q h =
    Ensures-catch _ _ (get_edge-Below (length q) q (omega arith))
      (λ e q₁ h₁.
        Ensures-bind (get_node-Below (length q₁) q₁ (omega arith))
          λ n q₂ h₂. get_pattern-Ends f (nodes ++ n ∷ []) (edges ++ e ∷ []) q₂ (omega arith))
      (λ q₁. returned tt)

get_return_names-Ends :
    (f : ℕ) (ss : SelectSentence) (names : List Text) (q : Queue)
    → length q ≤ f
    → Ends (get_return_names f ss names q)
unfolding get_return_names
get_return_names-Ends zero ss names [] h = returned tt
get_return_names-Ends (suc f) ss names [] h = returned tt
get_return_names-Ends zero ss names (t ∷ q) h = absurd (omega arith)
get_return_names-Ends (suc f) ss names (t ∷ q) h =
    Ensures-bind (get_next-Below TokenType.comma (suc (length q)) (t ∷ q) (omega arith)) λ _ q₁ h₁.
      Ensures-bind (get_next-Below TokenType.identifier (length q) q₁ (omega arith)) λ name q₂ h₂.
        Ensures-bind (throw_if-Within (length q) _ _ q₂ (omega arith))
          λ _ q₃ h₃. get_return_names-Ends f ss (names ++ name.raw ∷ []) q₃ (omega arith)

parse_tokens-Ends : (q : Queue) → Ends (parse_tokens q)
unfolding parse_tokens
parse_tokens-Ends q = Ensures-bind (front-Within (length q) q (omega arith)) λ t q₁ h₁.
    Ensures-bind (throw_if-Within (length q) _ _ q₁ h₁) λ _ q₂ h₂.
      Ensures-bind (pop_front-Below (length q) q₂ h₂) λ _ q₃ h₃.
        Ensures-bind (get_node-Below (length q₃) q₃ (omega arith)) λ node q₄ h₄.
          Ensures-bind (get_pattern-Ends (suc (length q₄)) (node ∷ []) [] q₄ (omega arith))
            λ ss q₅ _. Ensures-bind (front-Within (length q₅) q₅ (omega arith)) λ r q₆ h₆.
              Ensures-bind (throw_if-Within (length q₆) _ _ q₆ (omega arith)) λ _ q₇ h₇.
                Ensures-bind (pop_front-Below (length q₇) q₇ (omega arith)) λ _ q₈ h₈.
                  Ensures-bind (front-Within (length q₈) q₈ (omega arith)) λ first q₉ h₉.
                    Ensures-bind (throw_if-Within (length q₉) _ _ q₉ (omega arith)) λ _ q' h'.
                      Ensures-bind (pop_front-Below (length q') q' (omega arith)) λ _ p h.
                        Ensures-bind
                          (get_return_names-Ends (length p) ss (first.raw ∷ []) p (omega arith))
                          λ names p' _. returned tt

forget-Ends :
    {S A : Type 0} {P : A → S → Type 0} {r : Outcome S A}
    → Ensures P r
    → Ensures (λ _ _. Unit {0}) (forget r)
unfolding forget
forget-Ends (returned h) = returned tt
forget-Ends thrown = thrown
forget-Ends faulted = faulted

-- For every text the parser ends, with a sentence, an exception or a fault: the rounds that the
-- loops of the lexer and of the parser are given are enough.
pub parse_graph_sql_impl-ne-out_of_fuel : (text : Text) → parse_graph_sql_impl text ≢ out_of_fuel
unfolding parse_graph_sql_impl
parse_graph_sql_impl-ne-out_of_fuel text = Ensures-out_of_fuel (
    Ensures-bind (forget-Ends (tokenize-Ends text))
      λ queue _ _. forget-Ends (parse_tokens-Ends queue))
