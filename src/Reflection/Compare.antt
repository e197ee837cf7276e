-- ===== src/Reflection/Compare.antt =====
-- `reflectedCompare` of include/reflection.hpp and what it calls.
use network_algo.Prelude.{
  ℕ, ◌-◌, Text, codes, text_eq, Bool, true, false, not, ◌&&◌, Option, none, some, [], ◌∷◌, ◌==◌,
  ltb, if◌then◌else◌, length, take, get_elem?,
}
use network_algo.Dsl.Syntax.{Relationship}
use network_algo.Dsl.Lexer.{str_lower}
use network_algo.Graph.IdSet.{text_lt}
use network_algo.Reflection.Numbers.{
  ℤ, int_eq, int_lt, half_32, size_32, size_64, to_unsigned, to_signed, Failure, Converted,
  converted, failed, ◌>>=◌, stol,
}

-- The floating-point numbers: their operators, `strtod` where it converts something, and the
-- conversion of a `double` to a `float`.
pub record Floats : Type 1 where
  pub Double : Type 0
  pub Float : Type 0
  pub double_eq : Double → Double → Bool
  pub double_lt : Double → Double → Bool
  pub float_eq : Float → Float → Bool
  pub float_lt : Float → Float → Bool
  pub strtod : Text → Option Double
  pub narrow : Double → Float

unfoldable pub bool_eq : Bool → Bool → Bool
bool_eq true b = b
bool_eq false b = not b

unfoldable pub bool_lt : Bool → Bool → Bool
bool_lt true b = false
bool_lt false b = b

unfoldable pub nat_eq : ℕ → ℕ → Bool
nat_eq m n = m == n

unfoldable pub nat_lt : ℕ → ℕ → Bool
nat_lt m n = ltb m n

-- `compareWithRelationship`
unfoldable pub compare_with_relationship :
    {A : Type 0} → (A → A → Bool) → (A → A → Bool) → A → A → Relationship → Bool
compare_with_relationship eq lt v1 v2 Relationship.equal = eq v1 v2
compare_with_relationship eq lt v1 v2 Relationship.smaller = lt v1 v2
compare_with_relationship eq lt v1 v2 Relationship.greater = lt v2 v1

-- `from_string<bool>`
unfoldable pub bool_from_string : Text → Converted Bool
bool_from_string s =
    if text_eq (str_lower s) (codes "true")
    then converted true
    else if text_eq (str_lower s) (codes "false")
    then converted false
    else failed Failure.runtime_error

-- `from_string<std::string>`: the text between two quotes.
abbrev pub is_quote : Option ℕ → Bool
is_quote none = false
is_quote (some c) = c == b'"'

unfoldable pub string_from_string : Text → Converted Text
string_from_string [] = failed Failure.assertion
string_from_string (c ∷ s) =
    if ltb 1 (length (c ∷ s)) && (c == b'"') && is_quote (get_elem? (c ∷ s) (length s))
    then converted (take (length (c ∷ s) - 2) s)
    else failed Failure.assertion

-- `from_string` of the four integer types.
unfoldable pub int32_from_string : Text → Converted ℤ
int32_from_string s = stol s >>= λ n. converted (to_signed half_32 n)

unfoldable pub int64_from_string : Text → Converted ℤ
int64_from_string s = stol s

unfoldable pub uint32_from_string : Text → Converted ℕ
uint32_from_string s = stol s >>= λ n. converted (to_unsigned size_32 n)

unfoldable pub uint64_from_string : Text → Converted ℕ
uint64_from_string s = stol s >>= λ n. converted (to_unsigned size_64 n)

module _ (floats : Floats) where
  -- `from_string<double>` and `from_string<float>`
  unfoldable pub double_from_string : Text → Converted floats.Double
  double_from_string s = elim (floats.strtod s) [
    | none ↦ failed Failure.runtime_error
    | some d ↦ converted d
  ]

  unfoldable pub float_from_string : Text → Converted floats.Float
  unfolding double_from_string
  float_from_string s = double_from_string s >>= λ d. converted (floats.narrow d)

  -- The value of a field, by the type in its descriptor.
  pub data Content : Type 0 where
    bool_content : Bool → Content
    double_content : floats.Double → Content
    enum_content : Content
    float_content : floats.Float → Content
    int32_content : ℤ → Content
    int64_content : ℤ → Content
    message_content : Content
    string_content : Text → Content
    uint32_content : ℕ → Content
    uint64_content : ℕ → Content

  pub record Field : Type 0 where
    pub required : Bool
    pub content : Content

  -- The `switch` on the type of the field.
  unfoldable pub compare_content : Content → Relationship → Text → Converted Bool
  unfolding bool_from_string string_from_string int32_from_string int64_from_string
      uint32_from_string uint64_from_string double_from_string float_from_string
      compare_with_relationship
  compare_content (bool_content v) rel value =
      bool_from_string value >>= λ w. converted (compare_with_relationship bool_eq bool_lt v w rel)
  compare_content (double_content v) rel value = double_from_string value >>= λ w.
      converted (compare_with_relationship floats.double_eq floats.double_lt v w rel)
  compare_content enum_content rel value = failed Failure.runtime_error
  compare_content (float_content v) rel value = float_from_string value >>= λ w.
      converted (compare_with_relationship floats.float_eq floats.float_lt v w rel)
  compare_content (int32_content v) rel value =
      int32_from_string value >>= λ w. converted (compare_with_relationship int_eq int_lt v w rel)
  compare_content (int64_content v) rel value =
      int64_from_string value >>= λ w. converted (compare_with_relationship int_eq int_lt v w rel)
  compare_content message_content rel value = failed Failure.runtime_error
  compare_content (string_content v) rel value = string_from_string value >>= λ w.
      converted (compare_with_relationship text_eq text_lt v w rel)
  compare_content (uint32_content v) rel value =
      uint32_from_string value >>= λ w. converted (compare_with_relationship nat_eq nat_lt v w rel)
  compare_content (uint64_content v) rel value =
      uint64_from_string value >>= λ w. converted (compare_with_relationship nat_eq nat_lt v w rel)

  -- The protobuf library's view of a type of messages: `FindFieldByName` with the reflection's value.
  pub record Reflection (Message : Type 0) : Type 0 where
    pub find_field : Message → Text → Option Field

  -- `getFDPandRP`
  unfoldable pub get_field :
      {Message : Type 0} → Reflection Message → Message → Text → Converted Field
  get_field reflection obj name = elim (reflection.find_field obj name) [
    | none ↦ failed Failure.no_field
    | some field ↦ if field.required then converted field else failed Failure.assertion
  ]

  unfoldable pub reflected_compare :
      {Message : Type 0}
      → Reflection Message
      → Message
      → Text
      → Relationship
      → Text
      → Converted Bool
  unfolding get_field
  reflected_compare reflection obj name rel value =
      get_field reflection obj name >>= λ field. compare_content field.content rel value
