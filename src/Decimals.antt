-- ===== src/Decimals.antt =====
-- Numbers written in digits, as `std::stol` and `findfa` read them.
use network_algo.Prelude.{
  ℕ, zero, suc, ◌+◌, ◌-◌, ◌*◌, ◌^◌, ◌≤◌, ◌≡◌, ap, ◌∙◌, Text, true, false, [], ◌∷◌, if◌then◌else◌,
  arith, length,
}
use network_algo.Dsl.Lexer.{is_digit}

-- The digits at the front of a text.
abbrev pub leading_digits : Text → Text
leading_digits [] = []
leading_digits (c ∷ s) = if is_digit c then c ∷ leading_digits s else []

-- The number that a text of digits denotes, by place value.
abbrev pub decimal : Text → ℕ
decimal [] = 0
decimal (c ∷ s) = (c - b'0') * 10 ^ length s + decimal s

pub digits-next :
    (c : ℕ) (s : Text) → is_digit c ≡ true → leading_digits (c ∷ s) ≡ c ∷ leading_digits s
digits-next c s h = ground (arith, h)

pub digits-end : (c : ℕ) (s : Text) → is_digit c ≡ false → leading_digits (c ∷ s) ≡ []
digits-end c s h = ground (arith, h)

pub pow-positive : (n : ℕ) → 1 ≤ 10 ^ n
pow-positive zero = omega arith
pow-positive (suc n) = omega (arith, pow-positive n)

carry : (x d p r : ℕ) → (x * 10 + d) * p + r ≡ x * (10 * p) + (d * p + r)
carry x d p r = omega arith

pub scaled : (x p r : ℕ) → 1 ≤ p → x ≤ x * p + r
scaled x zero r h = absurd (omega arith)
scaled x (suc q) r h = omega arith

-- What the digits that are left make of the number read so far.
abbrev pub value : ℕ → Text → ℕ
value x ds = x * 10 ^ length ds + decimal ds

pub value-next : (x c : ℕ) (ds : Text) → value (x * 10 + (c - b'0')) ds ≡ value x (c ∷ ds)
value-next x c ds =
    let power : 10 * 10 ^ length ds ≡ 10 ^ suc (length ds) = omega arith in
    carry x (c - b'0') (10 ^ length ds) (decimal ds)
    ∙ ap (λ (p : ℕ). x * p + ((c - b'0') * 10 ^ length ds + decimal ds)) power
