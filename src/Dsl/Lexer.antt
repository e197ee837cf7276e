-- ===== src/Dsl/Lexer.antt =====
-- The lexer of src/graphdsl.cpp: `eatWhite`, `getNumber`, `getIdentifier`, `getToken`, and the loop
-- of `parseGraphSqlImpl` that fills the token queue. Character classes are those of the C locale.
mod Loops
pub mod Total
use Prim.Native.String.{String}
use mathlib.Core.List.{reverse}
use network_algo.Prelude.{
  ℕ, zero, suc, ◌+◌, Text, codes, text_eq, Bool, false, not, ◌&&◌, ◌||◌, Option, none, some, List,
  [], ◌∷◌, ◌++◌, map, leb, ◌==◌, if◌then◌else◌, length, take,
}
use network_algo.Dsl.Syntax.{TokenType, Token, parse_exception, parse_state_exception, same_type}
use network_algo.Dsl.Outcome.{Outcome, Action, ok, throw, out_of_fuel, pure, ◌>>=◌, ◌>>◌, bind}
use network_algo.Dsl.Stream.{Stream, open_stream, chareof, get, unget, peek, rounds}

unfoldable pub is_space : ℕ → Bool
is_space c = c == 32 || leb 9 c && leb c 13

unfoldable pub is_digit : ℕ → Bool
is_digit c = leb b'0' c && leb c b'9'

pub is_alpha : ℕ → Bool
is_alpha c = leb b'a' c && leb c b'z' || leb b'A' c && leb c b'Z'

pub is_alnum : ℕ → Bool
unfolding is_alpha is_digit
is_alnum c = is_alpha c || is_digit c

unfoldable pub to_lower : ℕ → ℕ
to_lower c = if leb b'A' c && leb c b'Z' then c + 32 else c

-- `strLower`
unfoldable pub str_lower : Text → Text
unfolding to_lower
str_lower s = map to_lower s

-- The characters near the position of the stream: ten before it and what follows, thirty in all.
pub nearby_chars : Stream → Text
nearby_chars s = take 30 (reverse (take 10 s.before) ++ s.rest)

state_error : {A : Type 0} → String → Action Stream A
unfolding nearby_chars
state_error message s = throw (parse_state_exception message (nearby_chars s)) s

pub eat_white_loop : ℕ → Action Stream (Unit {0})
unfolding is_space
eat_white_loop zero s = out_of_fuel
eat_white_loop (suc f) s =
    let (c, s') = get s in
    let again = eat_white_loop f s' in
    let step = if not (is_space c) then ok tt (unget s') else again in
    if s.eof then ok tt s else step

eat_white : Action Stream (Unit {0})
unfolding eat_white_loop
eat_white s = eat_white_loop (rounds s) s

-- The two loops of `getNumber`: the signs, and the digits with at most one dot.
pub read_signs : ℕ → Text → Action Stream Text
read_signs zero result s = out_of_fuel
read_signs (suc f) result s =
    let (c, s') = get s in
    let again = read_signs f (result ++ c ∷ []) s' in
    if c == 0
    then ok result s'
    else if not (c == b'-') && not (c == b'+')
    then ok result (unget s')
    else again

pub read_digits : ℕ → Bool → Text → Action Stream Text
unfolding is_digit
read_digits zero has_dot result s = out_of_fuel
read_digits (suc f) has_dot result s =
    let (c, s') = get s in
    let again = read_digits f (has_dot || c == b'.') (result ++ c ∷ []) s' in
    if c == 0
    then ok result s'
    else if not (is_digit c) && not (c == b'.')
    then ok result (unget s')
    else if c == b'.' && has_dot
    then throw (parse_exception "You have more than one dot in number") s'
    else again

get_number : Action Stream Text
unfolding read_signs read_digits
get_number = do signs ← λ s. read_signs (rounds s) [] s; λ s. read_digits (rounds s) false signs s

pub read_identifier : ℕ → Text → Action Stream Text
unfolding is_alnum
read_identifier zero result s = out_of_fuel
read_identifier (suc f) result s =
    let (c, s') = get s in
    let again = read_identifier f (result ++ c ∷ []) s' in
    if c == 0
    then ok result s'
    else if not (is_alnum c) && not (c == b'_')
    then ok result (unget s')
    else again

get_identifier : Action Stream Text
unfolding read_identifier state_error is_alpha
get_identifier s =
    let (c, s') = get s in
    if not (is_alpha c) && not (c == b':') && not (c == b'_')
    then state_error "The first character of identifier should be a letter or : or _" s'
    else read_identifier (rounds s') (c ∷ []) s'

-- The loop that reads a string literal, its opening quote already in `tmp`.
pub read_string : ℕ → Text → Action Stream Text
unfolding state_error
read_string zero tmp s = out_of_fuel
read_string (suc f) tmp s =
    let (c, s') = get s in
    let (d, s'') = get s' in
    let escaped = read_string f (tmp ++ d ∷ []) s'' in
    let again = read_string f (tmp ++ c ∷ []) s' in
    let step =
      if c == b'\\'
      then (if not s'.eof then escaped else state_error "Non-terminate string" s')
      else if c == b'"'
      then ok (tmp ++ c ∷ []) s'
      else again in
    if s.eof then ok tmp s else step

-- The tokens of one character. `-` and `+` are treated apart.
punctuation : ℕ → Option TokenType
punctuation c =
    if c == b'['
    then some TokenType.leftbracket
    else if c == b']'
    then some TokenType.rightbracket
    else if c == b'<'
    then some TokenType.smaller
    else if c == b'>'
    then some TokenType.greater
    else if c == b'='
    then some TokenType.equal
    else if c == b'('
    then some TokenType.leftparen
    else if c == b')'
    then some TokenType.rightparen
    else if c == b','
    then some TokenType.comma
    else none

token : TokenType → Text → Token
token type raw = record { type = type; raw = raw }

number_token : Action Stream Token
unfolding get_number token
number_token = do raw ← get_number; pure (token TokenType.number raw)

-- `-` stands alone, or begins a number if a digit, a dot or a plus sign follows.
dash_token : Action Stream Token
unfolding number_token token is_digit
dash_token s =
    let (c, s') = peek s in
    if not (is_digit c) && not (c == b'.') && not (c == b'+')
    then ok (token TokenType.dash (b'-' ∷ [])) s'
    else number_token (unget s')

-- `KEYWORD_TABLE`
word_token : Text → Token
unfolding token str_lower text_eq
word_token word =
    if text_eq (str_lower word) (codes "select")
    then token TokenType.keyword (codes "select")
    else if text_eq (str_lower word) (codes "return")
    then token TokenType.keyword (codes "return")
    else token TokenType.identifier word

identifier_token : Action Stream Token
unfolding get_identifier word_token
identifier_token = do word ← get_identifier; pure (word_token word)

-- The `default` of the `switch`.
other_token : ℕ → Action Stream Token
unfolding number_token identifier_token is_digit
other_token c s =
    let s' = unget s in
    if c == b'+' || c == b'-' || is_digit c then number_token s' else identifier_token s'

-- The `switch` on the first character.
dispatch : ℕ → Action Stream Token
unfolding dash_token number_token other_token read_string token punctuation
dispatch c s =
    if c == b'-'
    then dash_token s
    else if c == b'+'
    then number_token s
    else if c == chareof
    then ok (token TokenType.eof (chareof ∷ [])) s
    else if c == b'"'
    then (do tmp ← read_string (rounds s) (b'"' ∷ []); pure (token TokenType.string tmp)) s
    else elim (punctuation c) [ some type ↦ ok (token type (c ∷ [])) s | none ↦ other_token c s ]

get_token : Action Stream Token
get_token = do eat_white; λ s. let (c, s') = get s in dispatch c s'

-- `for (token t = getToken(is); t.type != token::eof; t = getToken(is)) tokenQueue.push_back(t);`
read_tokens : ℕ → List Token → Action Stream (List Token)
unfolding same_type
read_tokens zero queue s = out_of_fuel
read_tokens (suc f) queue s = bind (get_token s) λ t s'.
    let again = read_tokens f (queue ++ t ∷ []) s' in
    if same_type t.type TokenType.eof then ok queue s' else again

-- The token queue of a text.
unfoldable pub tokenize : Text → Outcome Stream (List Token)
unfolding read_tokens get_token eat_white dispatch
tokenize text = read_tokens (suc (length text)) [] (open_stream text)
