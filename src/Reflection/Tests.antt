-- ===== src/Reflection/Tests.antt =====
-- Instances of the properties of include/reflection.hpp, on a message of four fields.
use network_algo.Prelude.{ℕ, ◌%◌, ◌≡◌, refl, Option, Text, text_eq, codes, ◌==◌, arith}
use network_algo.Dsl.Syntax.{Relationship}
use network_algo.Reflection.Numbers.{pos, converted, size_32}
use network_algo.Reflection.Compare.{
  Field, string_content, uint32_content, int32_content, reflected_compare,
}
use network_algo.Dsl.Lexer.{is_digit}
use network_algo.Reflection.Samples.{whole, required_field, numbered}
use network_algo.Reflection.Order.{IsDecided, reflected_compare-IsDecided}
use network_algo.Reflection.Values.{quoted, reflected_compare-quoted, reflected_compare-uint32}

abbrev find_field : Text → Option (Field whole)
find_field name = numbered.find_field 0 name

level_found : find_field (codes "level") ≡ required_field (int32_content (pos 0))
unfolding text_eq
level_found = refl

name_found : find_field (codes "name") ≡ required_field (string_content (codes "n"))
unfolding text_eq
name_found = refl

size_found : find_field (codes "size") ≡ required_field (uint32_content 0)
unfolding text_eq
size_found = refl

reflected_compare-IsDecided_example :
    IsDecided (λ rel. reflected_compare whole numbered 0 (codes "level") rel (codes "7"))
reflected_compare-IsDecided_example =
    reflected_compare-IsDecided whole ℕ numbered 0 (codes "level") (codes "7")
      (int32_content (pos 0)) level_found refl

reflected_compare-quoted_example :
    reflected_compare whole numbered 0 (codes "name") Relationship.equal (quoted (codes "n"))
    ≡ converted (text_eq (codes "n") (codes "n"))
reflected_compare-quoted_example =
    reflected_compare-quoted whole ℕ numbered 0 (codes "name") (codes "n") (codes "n") name_found

reflected_compare-uint32_example :
    reflected_compare whole numbered 0 (codes "size") Relationship.equal (codes "4294967296")
    ≡ converted (0 == 4294967296 % size_32)
unfolding is_digit
reflected_compare-uint32_example =
    reflected_compare-uint32 whole ℕ numbered 0 (codes "size") 0 b'4' (codes "294967296") size_found
      refl (omega arith)
