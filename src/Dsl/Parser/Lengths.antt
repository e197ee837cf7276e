-- ===== src/Dsl/Parser/Lengths.antt =====
-- What the steps of the parser of src/graphdsl.cpp leave of the token queue: none makes it longer,
-- and each that takes a token makes it shorter.
use network_algo.Prelude.{
  ℕ, zero, suc, ◌≤◌, ◌<◌, Text, Bool, true, false, not, [], ◌∷◌, ◌++◌, arith, length, ◌==◌,
}
use network_algo.Dsl.Syntax.{Properties, Exception, TokenType, Token, same_type}
use network_algo.Dsl.Outcome.{
  Ensures, returned, thrown, faulted, Ensures-if, Ensures-branch, Ensures-bind, ◌>>=◌, pure,
}
use network_algo.Dsl.Parser.{
  Queue, throw_if, look, front, pop_front, push_front, get_id, get_property, get_property_of,
  get_property_list, get_next_with_type, relationship_of, is_logical_op, first_char,
}

-- At most `n` tokens are left.
abbrev pub Within : {A : Type 0} → ℕ → A → Queue → Type 0
Within n a q = length q ≤ n

-- Fewer than `n` tokens are left.
abbrev pub Below : {A : Type 0} → ℕ → A → Queue → Type 0
Below n a q = length q < n

module _ (n : ℕ) where
  pub front-Within : (q : Queue) → length q ≤ n → Ensures (Within n) (front q)
  unfolding front
  front-Within [] h = faulted
  front-Within (t ∷ q) h = returned h

  pub pop_front-Below : (q : Queue) → length q ≤ n → Ensures (Below n) (pop_front q)
  unfolding pop_front
  pop_front-Below [] h = faulted
  pop_front-Below (t ∷ q) h = returned h

  pub throw_if-Within :
      (b : Bool) (e : Exception) (q : Queue) → length q ≤ n → Ensures (Within n) (throw_if b e q)
  unfolding throw_if
  throw_if-Within true e q h = thrown
  throw_if-Within false e q h = returned h

  pub look-Within :
      {A : Type 0} (f : Queue → A) (q : Queue) → length q ≤ n → Ensures (Within n) (look f q)
  unfolding look
  look-Within f q h = returned h

  relationship_of-Within :
      (t : Token) (q : Queue) → length q ≤ n → Ensures (Within n) (relationship_of t q)
  unfolding relationship_of
  relationship_of-Within t q h =
      elim t.type
        as (λ type. Ensures (Within n) (relationship_of (record { type = type; raw = t.raw }) q)) [
          | TokenType.smaller ↦ returned h
          | TokenType.greater ↦ returned h
          | TokenType.equal ↦ returned h
          | _ ↦ thrown
        ]

pub get_next-Below :
    (type : TokenType) (n : ℕ) (q : Queue)
    → length q ≤ n
    → Ensures (Below n) (get_next_with_type type q)
unfolding get_next_with_type
get_next-Below type n q h = Ensures-bind (look-Within n _ q h) λ other q₁ h₁.
    Ensures-bind (look-Within n _ q₁ h₁) λ got q₂ h₂.
      Ensures-bind (throw_if-Within n other _ q₂ h₂) λ _ q₃ h₃.
        Ensures-bind (front-Within n q₃ h₃)
          λ t q₄ h₄. Ensures-bind (pop_front-Below n q₄ h₄) λ _ q₅ h₅. returned h₅

get_property_of-Below :
    (name : Text) (n : ℕ) (q : Queue) → length q ≤ n → Ensures (Below n) (get_property_of name q)
unfolding get_property_of
get_property_of-Below name n q h = Ensures-bind (look-Within n _ q h) λ no_op q₁ h₁.
    Ensures-bind (look-Within n _ q₁ h₁) λ at_op q₂ h₂.
      Ensures-bind (throw_if-Within n no_op _ q₂ h₂) λ _ q₃ h₃.
        Ensures-bind (front-Within n q₃ h₃) λ op q₄ h₄.
          Ensures-bind (relationship_of-Within n op q₄ h₄) λ relationship q₅ h₅.
            Ensures-bind (pop_front-Below n q₅ h₅) λ _ q₆ h₆.
              Ensures-bind (look-Within n _ q₆ (omega arith)) λ no_constant q₇ h₇.
                Ensures-bind (look-Within n _ q₇ h₇) λ at_constant q₈ h₈.
                  Ensures-bind (throw_if-Within n no_constant _ q₈ h₈) λ _ q₉ h₉.
                    Ensures-bind (front-Within n q₉ h₉) λ constant q' h'.
                      Ensures-bind (pop_front-Below n q' h') λ _ q'' h''. returned h''

get_property-Below : (n : ℕ) (q : Queue) → length q ≤ n → Ensures (Below n) (get_property q)
unfolding get_property
get_property-Below n q h = Ensures-bind (front-Within n q h) λ t q₁ h₁.
    Ensures-bind (throw_if-Within n _ _ q₁ h₁) λ _ q₂ h₂.
      Ensures-bind (pop_front-Below n q₂ h₂)
        λ _ q₃ h₃. get_property_of-Below t.raw n q₃ (omega arith)

pub get_property_list-Within :
    (closing : TokenType) (f n : ℕ) (result : Properties) (q : Queue)
    → length q < f
    → length q ≤ n
    → Ensures (Within n) (get_property_list closing f result q)
unfolding get_property_list
get_property_list-Within closing zero n result q h k = absurd (omega arith)
get_property_list-Within closing (suc f) n result [] h k = thrown
get_property_list-Within closing (suc f) n result (t ∷ q) h k =
    Ensures-if (same_type t.type closing) (λ _. returned (omega arith))
      λ _. Ensures-bind (get_property-Below (suc (length q)) (t ∷ q) (omega arith)) λ p q₁ h₁.
        get_property_list-Within closing f n (result ++ p ∷ []) q₁ (omega arith) (omega arith)

push_front-Within :
    (t : Token) (n : ℕ) (q : Queue) → length q < n → Ensures (Within n) (push_front t q)
unfolding push_front
push_front-Within t n q h = returned h

put_back-Within :
    (t : Token) (n : ℕ) (q : Queue)
    → length q < n
    → Ensures (Within {A = Text} n) ((push_front t >>= λ _. pure []) q)
put_back-Within t n q h = Ensures-bind (push_front-Within t n q h) λ _ q₁ h₁. returned h₁

pub get_id-Within : (n : ℕ) (q : Queue) → length q ≤ n → Ensures (Within n) (get_id q)
unfolding get_id
get_id-Within n q h = Ensures-bind (look-Within n _ q h) λ other q₁ h₁.
    Ensures-bind (look-Within n _ q₁ h₁) λ near q₂ h₂.
      Ensures-bind (throw_if-Within n other _ q₂ h₂) λ _ q₃ h₃.
        Ensures-bind (front-Within n q₃ h₃) λ first q₄ h₄.
          Ensures-bind (pop_front-Below n q₄ h₄) λ _ q₅ h₅.
            Ensures-branch (first_char first.raw == b':') _ _ q₅
              (λ _. put_back-Within first n q₅ h₅)
              λ _. Ensures-bind (front-Within (length q₅) q₅ (omega arith)) λ next q₆ h₆.
                Ensures-branch (not (is_logical_op next)) _ _ q₆ (λ _. returned (omega arith))
                  (λ _. put_back-Within first n q₆ (omega arith))
