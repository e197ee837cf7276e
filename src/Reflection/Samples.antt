-- ===== src/Reflection/Samples.antt =====
-- Floating-point numbers that are natural numbers, and messages that are numbers and words: instances of
-- what include/reflection.hpp uses, for the tests.
use network_algo.Prelude.{
  ℕ, true, Option, none, some, Text, text_eq, codes, ltb, ◌==◌, if◌then◌else◌,
}
use network_algo.Reflection.Numbers.{pos}
use network_algo.Reflection.Compare.{
  Floats, Field, Content, Reflection, string_content, uint32_content, uint64_content, int32_content,
}

abbrev pub whole : Floats
whole = record {
  Double = ℕ;
  Float = ℕ;
  double_eq = λ a b. a == b;
  double_lt = λ a b. ltb a b;
  float_eq = λ a b. a == b;
  float_lt = λ a b. ltb a b;
  strtod = λ s. none;
  narrow = λ d. d;
}

-- A message is a number, which each of its fields but the name has as its value.
abbrev pub required_field : Content whole → Option (Field whole)
required_field content = some (record { required = true; content = content })

abbrev pub numbered : Reflection whole ℕ
numbered = record {
  find_field = λ obj name.
      if text_eq name (codes "name")
      then required_field (string_content (codes "n"))
      else if text_eq name (codes "level")
      then required_field (int32_content (pos obj))
      else if text_eq name (codes "size")
      then required_field (uint32_content obj)
      else required_field (uint64_content obj);
}

-- A message is a word, which each of its fields has as its value.
abbrev pub worded : Reflection whole Text
worded = record { find_field = λ obj name. required_field (string_content obj) }

-- Messages of edges, without fields.
abbrev pub edge_worded : Reflection whole (Text × Text × Text)
edge_worded = record { find_field = λ obj name. none }
