-- ===== src/Reflection/Numbers.antt =====
-- `std::stol` and the integer types to which include/reflection.hpp converts its result.
use network_algo.Prelude.{
  ℕ, ◌+◌, ◌-◌, ◌%◌, Text, Bool, true, false, [], ◌∷◌, ◌==◌, ltb, leb, if◌then◌else◌,
}
use network_algo.Dsl.Lexer.{is_space}
use network_algo.Decimals.{leading_digits, decimal}

-- `negsuc n` is -(n + 1).
pub data ℤ : Type 0 where
  pos : ℕ → ℤ
  negsuc : ℕ → ℤ

-- `negate n` is -n.
abbrev pub negate : ℕ → ℤ
negate n = if n == 0 then pos 0 else negsuc (n - 1)

unfoldable pub int_eq : ℤ → ℤ → Bool
int_eq (pos m) (pos n) = m == n
int_eq (pos m) (negsuc n) = false
int_eq (negsuc m) (pos n) = false
int_eq (negsuc m) (negsuc n) = m == n

unfoldable pub int_lt : ℤ → ℤ → Bool
int_lt (pos m) (pos n) = ltb m n
int_lt (pos m) (negsuc n) = false
int_lt (negsuc m) (pos n) = true
int_lt (negsuc m) (negsuc n) = ltb n m

-- 2^31, 2^32, 2^63 and 2^64
abbrev pub half_32 : ℕ
half_32 = 2147483648

abbrev pub size_32 : ℕ
size_32 = 4294967296

abbrev pub half_64 : ℕ
half_64 = 9223372036854775808

abbrev pub size_64 : ℕ
size_64 = 18446744073709551616

-- Conversion to an unsigned type of `size` values, and to a signed type of twice `half` values.
unfoldable pub to_unsigned : ℕ → ℤ → ℕ
to_unsigned size (pos n) = n % size
to_unsigned size (negsuc n) = size - 1 - n % size

unfoldable pub to_signed : ℕ → ℤ → ℤ
unfolding to_unsigned
to_signed half z =
    let n = to_unsigned (half + half) z in
    if ltb n half then pos n else negsuc (half + half - 1 - n)

-- The exceptions of a comparison, an assertion that fails, and a message without the field, for which
-- the code reads through a null pointer.
pub data Failure : Type 0 where
  runtime_error invalid_argument out_of_range assertion no_field : Failure

infixl 5 ◌>>=◌
pub data Converted (A : Type 0) : Type 0 where
  converted : A → Converted A
  failed : Failure → Converted A

abbrev pub ◌>>=◌ : {A B : Type 0} → Converted A → (A → Converted B) → Converted B
converted a >>= f = f a
failed e >>= f = failed e

-- The number with the digits at the front of a text, if `long` holds it.
unfoldable pub stol_digits : Bool → Text → Converted ℤ
stol_digits negative s =
    let digits = leading_digits s in
    let n = decimal digits in
    elim digits [
      | [] ↦ failed Failure.invalid_argument
      | c ∷ rest ↦
          if negative
          then if leb n half_64 then converted (negate n) else failed Failure.out_of_range
          else if ltb n half_64
          then converted (pos n)
          else failed Failure.out_of_range
    ]

-- After the white space: an optional sign.
unfoldable pub stol_sign : Text → Converted ℤ
unfolding stol_digits
stol_sign [] = failed Failure.invalid_argument
stol_sign (c ∷ s) =
    if c == b'-'
    then stol_digits true s
    else if c == b'+'
    then stol_digits false s
    else stol_digits false (c ∷ s)

-- `std::stol`
unfoldable pub stol : Text → Converted ℤ
unfolding stol_sign is_space
stol [] = failed Failure.invalid_argument
stol (c ∷ s) = if is_space c then stol s else stol_sign (c ∷ s)
