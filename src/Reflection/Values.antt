-- ===== src/Reflection/Values.antt =====
-- The values that `from_string` of include/reflection.hpp makes of the texts of a query.
use network_algo.Prelude.{
  ℕ, suc, ◌+◌, ◌-◌, ◌%◌, ◌≤◌, ◌<◌, ◌≡◌, refl, ap, ◌∙◌, Text, text_eq, Bool, true, false, some, [],
  ◌∷◌, ◌++◌, ◌==◌, ltb, if◌then◌else◌, arith, length, length-append, take, get_elem?,
}
use network_algo.Dsl.Syntax.{Relationship}
use network_algo.Dsl.Lexer.{is_digit, is_space}
use network_algo.Decimals.{leading_digits, decimal, digits-next}
use network_algo.Reflection.Numbers.{
  ℤ, pos, negsuc, half_32, size_32, half_64, to_unsigned, to_signed, Failure, Converted, converted,
  failed, stol_digits, stol_sign, stol,
}
use network_algo.Reflection.Compare.{
  Floats, Content, string_content, uint32_content, uint64_content, Reflection, nat_eq,
  compare_with_relationship, compare_content, reflected_compare, string_from_string,
  int32_from_string, uint32_from_string, uint64_from_string,
}
use network_algo.Reflection.Order.{reflected_compare-present}

last-append : (t : Text) (q : ℕ) → get_elem? (t ++ q ∷ []) (length t) ≡ some q
last-append [] q = refl
last-append (c ∷ t) q = last-append t q

take-append : (t r : Text) → take (length t) (t ++ r) ≡ t
take-append [] r = refl
take-append (c ∷ t) r = ap (λ s. c ∷ s) (take-append t r)

-- A text between quotes, as a query writes it.
abbrev pub quoted : Text → Text
quoted t = b'"' ∷ t ++ b'"' ∷ []

string_from_string-quoted : (t : Text) → string_from_string (quoted t) ≡ converted t
unfolding string_from_string
string_from_string-quoted t =
    let n : length (t ++ b'"' ∷ []) ≡ suc (length t) = omega (arith, length-append t (b'"' ∷ [])) in
    let body = t ++ b'"' ∷ [] in
    let last : get_elem? (b'"' ∷ body) (length body) ≡ some b'"' =
      ap (get_elem? (b'"' ∷ body)) n ∙ last-append t b'"' in
    let inner : take (suc (length body) - 2) body ≡ t =
      ap (λ (k : ℕ). take k body) (omega (arith, n)) ∙ take-append t (b'"' ∷ []) in
    ground (arith, n, last, inner)

-- The number that the digits at the front of a text denote, if `long` holds it.
abbrev pub long_of_digits : Text → Converted ℤ
long_of_digits s =
    if ltb (decimal (leading_digits s)) half_64
    then converted (pos (decimal (leading_digits s)))
    else failed Failure.out_of_range

stol_digits-some :
    (s : Text) (c : ℕ) (r : Text)
    → leading_digits s ≡ c ∷ r
    → stol_digits false s ≡ long_of_digits s
unfolding stol_digits
stol_digits-some s c r h = ground (arith, h)

stol-unsigned : (c : ℕ) (s : Text) → is_digit c ≡ true → stol (c ∷ s) ≡ stol_digits false (c ∷ s)
unfolding stol stol_sign is_digit is_space
stol-unsigned c s h = ground (arith, h)

-- A text that begins with a digit.
pub stol-digit : (c : ℕ) (s : Text) → is_digit c ≡ true → stol (c ∷ s) ≡ long_of_digits (c ∷ s)
stol-digit c s h =
    stol-unsigned c s h ∙ stol_digits-some (c ∷ s) c (leading_digits s) (digits-next c s h)

stol-small :
    (c : ℕ) (s : Text)
    → is_digit c ≡ true
    → decimal (leading_digits (c ∷ s)) < half_64
    → stol (c ∷ s) ≡ converted (pos (decimal (leading_digits (c ∷ s))))
stol-small c s digit h = stol-digit c s digit ∙ ground (arith, h)

stol-large :
    (c : ℕ) (s : Text)
    → is_digit c ≡ true
    → half_64 ≤ decimal (leading_digits (c ∷ s))
    → stol (c ∷ s) ≡ failed Failure.out_of_range
stol-large c s digit h = stol-digit c s digit ∙ ground (arith, h)

module _ (floats : Floats) (Message : Type 0) (reflection : Reflection floats Message) where
  -- A field of the message, required as the code asserts.
  abbrev pub HasField : Message → Text → Content floats → Type 0
  HasField obj name content =
      reflection.find_field obj name ≡ some (record { required = true; content = content })

-- For a required string field and a text between quotes, `=` holds exactly when the text between the
-- quotes is the field's value, whatever characters it has.
pub reflected_compare-quoted :
    (floats : Floats) (Message : Type 0) (reflection : Reflection floats Message) (obj : Message)
    (name v t : Text)
    → HasField floats Message reflection obj name (string_content v)
    → reflected_compare floats reflection obj name Relationship.equal (quoted t)
      ≡ converted (text_eq v t)
unfolding compare_content compare_with_relationship
reflected_compare-quoted floats Message reflection obj name v t h =
    reflected_compare-present floats Message reflection obj name (quoted t) (string_content v)
      Relationship.equal h
    ∙ ground (arith, string_from_string-quoted t)

-- For a required `uint32` field of value `v` and a text that begins with digits, `=` compares `v`
-- with the remainder by 2^32 of the number that the digits denote, where that is below 2^63.
pub reflected_compare-uint32 :
    (floats : Floats) (Message : Type 0) (reflection : Reflection floats Message) (obj : Message)
    (name : Text) (v c : ℕ) (s : Text)
    → HasField floats Message reflection obj name (uint32_content v)
    → is_digit c ≡ true
    → decimal (leading_digits (c ∷ s)) < half_64
    → reflected_compare floats reflection obj name Relationship.equal (c ∷ s)
      ≡ converted (v == decimal (leading_digits (c ∷ s)) % size_32)
unfolding compare_content compare_with_relationship uint32_from_string to_unsigned nat_eq
reflected_compare-uint32 floats Message reflection obj name v c s h digit small =
    reflected_compare-present floats Message reflection obj name (c ∷ s) (uint32_content v)
      Relationship.equal h
    ∙ ground (arith, stol-small c s digit small)

-- For a required `uint64` field and a text that begins with digits for a number of 2^63 or more, every
-- comparison throws out_of_range, also where the field has just that value.
reflected_compare-uint64 :
    (floats : Floats) (Message : Type 0) (reflection : Reflection floats Message) (obj : Message)
    (name : Text) (v c : ℕ) (s : Text) (rel : Relationship)
    → HasField floats Message reflection obj name (uint64_content v)
    → is_digit c ≡ true
    → half_64 ≤ decimal (leading_digits (c ∷ s))
    → reflected_compare floats reflection obj name rel (c ∷ s) ≡ failed Failure.out_of_range
unfolding compare_content uint64_from_string
reflected_compare-uint64 floats Message reflection obj name v c s rel h digit large =
    reflected_compare-present floats Message reflection obj name (c ∷ s) (uint64_content v) rel h
    ∙ ground (arith, stol-large c s digit large)

-- The numbers of a type `int32`.
abbrev pub IsInt32 : ℤ → Type 0
IsInt32 (pos n) = n < half_32
IsInt32 (negsuc n) = n < half_32

to_unsigned-bounded : (z : ℤ) → to_unsigned (half_32 + half_32) z < half_32 + half_32
unfolding to_unsigned
to_unsigned-bounded (pos n) = omega arith
to_unsigned-bounded (negsuc n) = omega arith

signed-IsInt32 :
    (b : Bool) (m n : ℕ)
    → (b ≡ true → m < half_32)
    → (b ≡ false → n < half_32)
    → IsInt32 (if b then pos m else negsuc n)
signed-IsInt32 true m n h k = h refl
signed-IsInt32 false m n h k = k refl

to_signed-IsInt32 : (z : ℤ) → IsInt32 (to_signed half_32 z)
unfolding to_signed
to_signed-IsInt32 z =
    let n = to_unsigned (half_32 + half_32) z in
    let small = to_unsigned-bounded z in
    signed-IsInt32 (ltb n half_32) n (half_32 + half_32 - 1 - n) (λ h. ground arith)
      (λ h. ground arith)

to_signed-same : (z : ℤ) → IsInt32 z → to_signed half_32 z ≡ z
unfolding to_signed to_unsigned
to_signed-same (pos n) h =
    let same : n % (half_32 + half_32) ≡ n = omega (arith, h) in ground (arith, same, h)
to_signed-same (negsuc n) h =
    let same : n % (half_32 + half_32) ≡ n = omega (arith, h) in ground (arith, same, h)

-- What `from_string<int32>` makes of a text that `stol` reads as `z` is a number of the type, and is
-- `z` itself when that is one.
int32_from_string-IsInt32 :
    (s : Text) (z : ℤ)
    → stol s ≡ converted z
    → (r : ℤ) × (int32_from_string s ≡ converted r) × IsInt32 r × (IsInt32 z → r ≡ z)
unfolding int32_from_string
int32_from_string-IsInt32 s z h =
    (to_signed half_32 z, ground (arith, h), to_signed-IsInt32 z, to_signed-same z)
