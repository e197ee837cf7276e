-- ===== src/Dsl/Lexer/Total.antt =====
-- The lexer of src/graphdsl.cpp ends on every text: each token but the last takes a character off
-- the stream.
use network_algo.Prelude.{
  ℕ, zero, suc, ◌≤◌, ◌<◌, ◌≡◌, refl, ap, ◌⊎◌, inl, inr, Text, Bool, true, false, not, ◌&&◌, ◌||◌,
  List, [], ◌∷◌, ◌++◌, arith, ◌==◌, length, Option-cases, Bool-cases, ==_iff,
}
use network_algo.Dsl.Syntax.{TokenType, Token, same_type}
use network_algo.Dsl.Outcome.{Ensures, returned, thrown, Ensures-if, Ensures-bind, Ensures-weaken}
use network_algo.Dsl.Stream.{Stream, open_stream, chareof, live, get, unget, peek, rounds}
use network_algo.Dsl.Lexer.Loops.{
  Within, get_cases, eat_white_loop-Ensures, read_signs-Ensures, read_digits-Ensures,
  read_identifier-Ensures, read_string-Ensures,
}
use network_algo.Dsl.Lexer.{
  is_digit, is_alpha, eat_white, read_signs, read_digits, get_number, get_identifier, state_error,
  number_token, dash_token, identifier_token, other_token, dispatch, get_token, read_tokens,
  tokenize, token, punctuation,
}

eat_white-Ensures : (s : Stream) → Ensures (Within (length s.rest)) (eat_white s)
unfolding eat_white
eat_white-Ensures s = eat_white_loop-Ensures (rounds s) _ s (omega arith) (omega arith)

get_number-Ensures : (n : ℕ) (s : Stream) → length s.rest ≤ n → Ensures (Within n) (get_number s)
unfolding get_number
get_number-Ensures n s h =
    Ensures-bind (read_signs-Ensures (rounds s) n [] s (omega arith) h)
      λ signs s' h'. read_digits-Ensures (rounds s') n false signs s' (omega arith) h'

read_digits_progress :
    (d : Bool) (result b cs : Text) (c : ℕ)
    → is_digit c ≡ true
    → Ensures
        (Within (length cs))
        (read_digits (rounds (live b (c ∷ cs))) d result (live b (c ∷ cs)))
unfolding read_digits get
read_digits_progress d result b cs c h =
    Ensures-if (c == 0) (λ _. returned (omega arith))
      λ _.
        Ensures-if (not (is_digit c) && not (c == b'.')) (λ e. absurd (ground arith))
          λ _.
            Ensures-if (c == b'.' && d) (λ _. thrown)
              (λ _.
                read_digits-Ensures (rounds (live (c ∷ b) cs)) _ _ _ (live (c ∷ b) cs) (omega arith)
                  (omega arith))

-- A number that begins with a sign or a digit takes that character.
get_number_progress :
    (b cs : Text) (c : ℕ)
    → (c == b'+' || c == b'-' || is_digit c) ≡ true
    → Ensures (Within (length cs)) (get_number (live b (c ∷ cs)))
unfolding get_number read_signs get unget
get_number_progress b cs c h = elim (Bool-cases (not (c == b'-') && not (c == b'+'))) [
  | inl digit ↦ elim (Bool-cases (c == 0)) [
    | inl e ↦ rw e (
        read_digits-Ensures (rounds (live (c ∷ b) cs)) _ false [] (live (c ∷ b) cs) (omega arith)
          (omega arith))
    | inr e ↦ rw (e, digit) (read_digits_progress false [] b cs c (ground arith))
  ]
  | inr sign ↦
      Ensures-bind
        (Ensures-if (c == 0) (λ _. returned {s = live (c ∷ b) cs} (omega arith))
          λ _. rw sign (
            read_signs-Ensures (rounds (live (c ∷ b) cs)) _ _ (live (c ∷ b) cs) (omega arith)
              (omega arith)))
        λ signs s' h'. read_digits-Ensures (rounds s') _ false signs s' (omega arith) h'
]

get_identifier_progress :
    (b cs : Text) (c : ℕ) → Ensures (Within (length cs)) (get_identifier (live b (c ∷ cs)))
unfolding get_identifier get state_error
get_identifier_progress b cs c =
    Ensures-if (not (is_alpha c) && not (c == b':') && not (c == b'_')) (λ _. thrown)
      λ _.
        read_identifier-Ensures (rounds (live (c ∷ b) cs)) _ _ (live (c ∷ b) cs) (omega arith)
          (omega arith)

-- The token ends the input, or at most `n` characters are left.
abbrev Progress : ℕ → Token → Stream → Type 0
Progress n t s = (same_type t.type TokenType.eof ≡ true) ⊎ (length s.rest ≤ n)

number_token-Progress :
    (b cs : Text) (c : ℕ)
    → (c == b'+' || c == b'-' || is_digit c) ≡ true
    → Ensures (Progress (length cs)) (number_token (live b (c ∷ cs)))
unfolding number_token
number_token-Progress b cs c h =
    Ensures-bind (get_number_progress b cs c h) λ raw s' k. returned (inr k)

number_token-Ensures :
    (n : ℕ) (s : Stream) → length s.rest ≤ n → Ensures (Progress n) (number_token s)
unfolding number_token
number_token-Ensures n s h = Ensures-bind (get_number-Ensures n s h) λ raw s' k. returned (inr k)

dash_token-Progress :
    (b cs : Text) → Ensures (Progress (length cs)) (dash_token (live (b'-' ∷ b) cs))
unfolding dash_token peek unget
dash_token-Progress b [] = returned (inr (omega arith))
dash_token-Progress b (c ∷ cs) =
    Ensures-if (not (is_digit c) && not (c == b'.') && not (c == b'+'))
      (λ _. returned (inr (omega arith))) (λ _. number_token-Progress b (c ∷ cs) b'-' refl)

other_token-Progress :
    (b cs : Text) (c : ℕ) → Ensures (Progress (length cs)) (other_token c (live (c ∷ b) cs))
unfolding other_token unget identifier_token
other_token-Progress b cs c =
    Ensures-if (c == b'+' || c == b'-' || is_digit c) (number_token-Progress b cs c)
      λ _. Ensures-bind (get_identifier_progress b cs c) λ word s' k. returned (inr k)

dispatch-Progress :
    (b cs : Text) (c : ℕ) → Ensures (Progress (length cs)) (dispatch c (live (c ∷ b) cs))
unfolding dispatch token same_type
dispatch-Progress b cs c =
    let s = live (c ∷ b) cs in
    Ensures-if (c == b'-') (λ e. rw ((==_iff c b'-').0 e) (dash_token-Progress b cs))
      λ _.
        Ensures-if (c == b'+') (λ _. number_token-Ensures (length cs) s (omega arith))
          λ _.
            Ensures-if (c == chareof) (λ _. returned (inl refl))
              λ _.
                Ensures-if (c == b'"')
                  (λ _.
                    Ensures-bind
                      (read_string-Ensures (rounds s) (length cs) (b'"' ∷ []) s (omega arith)
                        (omega arith) refl)
                      λ tmp s' k. returned (inr k))
                  λ _. elim (Option-cases (punctuation c)) [
                    | inl e ↦ rw e (other_token-Progress b cs c)
                    | inr (type, e) ↦ rw e (returned (inr (omega arith)))
                  ]

-- A token ends the input or takes a character.
abbrev Shorter : ℕ → Token → Stream → Type 0
Shorter n t s = (same_type t.type TokenType.eof ≡ true) ⊎ (length s.rest < n)

dispatch-Shorter : (n : ℕ) (s : Stream) → Ensures (Shorter n) (dispatch chareof s)
unfolding dispatch token same_type
dispatch-Shorter n s = returned (inl refl)

Progress-Shorter : (m n : ℕ) (t : Token) (s : Stream) → suc m ≤ n → Progress m t s → Shorter n t s
Progress-Shorter m n t s h (inl e) = inl e
Progress-Shorter m n t s h (inr k) = inr (omega arith)

get_token-Shorter : (s : Stream) → Ensures (Shorter (length s.rest)) (get_token s)
unfolding get_token
get_token-Shorter s = Ensures-bind (eat_white-Ensures s) λ _ s' h.
    elim (get_cases s'.before s'.rest s'.eof s'.failed) [
      | inl e ↦ rw e (dispatch-Shorter _ _)
      | inr (c, cs, r, e) ↦ rw e (
          Ensures-weaken (dispatch-Progress s'.before cs c) λ t s'' k.
            Progress-Shorter (length cs) _ t s'' (omega (arith, ap (length {A = ℕ}) r)) k)
    ]

read_tokens-Ensures :
    (f : ℕ) (queue : List Token) (s : Stream)
    → length s.rest < f
    → Ensures (λ _ _. Unit) (read_tokens f queue s)
unfolding read_tokens
read_tokens-Ensures zero queue s h = absurd (omega arith)
read_tokens-Ensures (suc f) queue s h = Ensures-bind (get_token-Shorter s) λ t s' k.
    Ensures-if (same_type t.type TokenType.eof) (λ _. returned tt)
      λ e. read_tokens-Ensures f (queue ++ t ∷ []) s' (goes_on t s' k e)
  where
    goes_on :
        (t : Token) (s' : Stream)
        → Shorter (length s.rest) t s'
        → same_type t.type TokenType.eof ≡ false
        → length s'.rest < f
    goes_on t s' (inl done) e = cc
    goes_on t s' (inr k) e = omega arith

-- The lexer ends on every text.
pub tokenize-Ends : (text : Text) → Ensures (λ _ _. Unit {0}) (tokenize text)
unfolding tokenize
tokenize-Ends text = read_tokens-Ensures (suc (length text)) [] (open_stream text) (omega arith)
