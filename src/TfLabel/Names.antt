-- ===== src/TfLabel/Names.antt =====
-- The ids that include/algorithm/tflabel.hpp gives its nodes and edges, and what `findfa` and `atoi` read
-- from them.
use network_algo.Prelude.{
  int_limit, ℕ, zero, suc, ◌+◌, ◌-◌, ◌*◌, ◌/◌, ◌%◌, ◌^◌, ◌≤◌, ◌<◌, ◌≡◌, sym, ap, ◌∙◌, Text, Bool,
  true, inl, inr, Option, none, some, [], ◌∷◌, ◌++◌, ltb, ◌==◌, ◌||◌, ◌&&◌, if◌then◌else◌, arith,
  length, Bool-cases,
}
use network_algo.Dsl.Lexer.{is_digit}
use network_algo.Decimals.{leading_digits, decimal, digits-next, value, value-next}
use network_algo.TfLabel.Findfa.{fit, findfa, findfa-decimal}

-- The digits of a number before those that are there, with as many rounds as there can be digits.
unfoldable pub digits_before : ℕ → ℕ → Text → Text
digits_before zero n ds = ds
digits_before (suc rounds) n ds =
    let rest = digits_before rounds (n / 10) ((b'0' + n % 10) ∷ ds) in
    if ltb n 10 then (b'0' + n) ∷ ds else rest

-- `std::to_string`
unfoldable pub to_string : ℕ → Text
unfolding digits_before
to_string n = digits_before (suc n) n []

-- `from+"-"+to`
unfoldable pub edge_name : Text → Text → Text
edge_name from to = from ++ (b'-' ∷ to)

-- `isspace`
abbrev is_space : ℕ → Bool
is_space c = (c == 32) || ltb 8 c && ltb c 14

-- `std::atoi` of a text, where the number is an index: `none` for one that is negative or that no `int` holds.
unfoldable pub atoi : Text → Option ℕ
unfolding fit
atoi [] = some 0
atoi (c ∷ s) =
    let rest = atoi s in
    if is_space c
    then rest
    else if c == b'-'
    then (if decimal (leading_digits s) == 0 then some 0 else none)
    else if c == b'+'
    then fit (decimal (leading_digits s))
    else fit (decimal (leading_digits (c ∷ s)))

is_digit-below : (n : ℕ) → n < 10 → is_digit (b'0' + n) ≡ true
unfolding is_digit
is_digit-below n h = ground arith

-- What stands behind digits, where it does not begin with one, does not count.
leading_digits-digits_before :
    (rounds n : ℕ) (ds t : Text)
    → leading_digits (ds ++ t) ≡ ds
    → leading_digits (digits_before rounds n ds ++ t) ≡ digits_before rounds n ds
unfolding digits_before
leading_digits-digits_before zero n ds t h = h
leading_digits-digits_before (suc rounds) n ds t h = elim (Bool-cases (ltb n 10)) [
  | inl small ↦ rw small (
      digits-next (b'0' + n) (ds ++ t) (is_digit-below n (ground (arith, small)))
      ∙ ap (λ l. (b'0' + n) ∷ l) h)
  | inr large ↦ rw large (
      leading_digits-digits_before rounds (n / 10) ((b'0' + n % 10) ∷ ds) t (
        digits-next (b'0' + n % 10) (ds ++ t) (is_digit-below (n % 10) (omega arith))
        ∙ ap (λ l. (b'0' + n % 10) ∷ l) h))
]

decimal-digits_before :
    (rounds n : ℕ) (ds : Text) → n < rounds → decimal (digits_before rounds n ds) ≡ value n ds
unfolding digits_before
decimal-digits_before zero n ds h = absurd (omega arith)
decimal-digits_before (suc rounds) n ds h = elim (Bool-cases (ltb n 10)) [
  | inl small ↦
      let same : b'0' + n - b'0' ≡ n = omega arith in
      rw small (ap (λ (m : ℕ). m * 10 ^ length ds + decimal ds) same)
  | inr large ↦
      let big : 10 ≤ n = ground (arith, large) in
      rw large (
        decimal-digits_before rounds (n / 10) ((b'0' + n % 10) ∷ ds) (omega arith)
        ∙ sym (value-next (n / 10) (b'0' + n % 10) ds)
        ∙ ap (λ (m : ℕ). value m ds) (omega arith))
]

-- The number of a node below 2^31 is read back by findfa from the id that to_string gives it, also where the
-- id is followed by something that does not begin with a digit.
pub findfa-to_string :
    (n : ℕ) (t : Text) → n < int_limit → leading_digits t ≡ [] → findfa (to_string n ++ t) ≡ some n
unfolding to_string
findfa-to_string n t h e =
    let digits = leading_digits-digits_before (suc n) n [] t e in
    let number : decimal (digits_before (suc n) n []) ≡ n =
      decimal-digits_before (suc n) n [] (omega arith) ∙ omega arith in
    (findfa-decimal (digits_before (suc n) n [] ++ t)).0
    ∙ ap (λ l. fit (decimal l)) digits
    ∙ ap fit number
    ∙ unfold fit in ground arith
