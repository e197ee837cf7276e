-- ===== src/TfLabel/Findfa.antt =====
-- `findfa` of include/algorithm/tflabel.hpp: the number at the front of a node's id. An `int` that
-- overflows is `none`; `fa` is not used.
use network_algo.Prelude.{
  int_limit, ℕ, ◌+◌, ◌-◌, ◌*◌, ◌^◌, ◌≤◌, ◌<◌, ◌≡◌, refl, sym, ap, ◌∙◌, Text, inl, inr, true, Option,
  none, some, [], ◌∷◌, ltb, if◌then◌else◌, arith, length, Bool-cases,
}
use network_algo.Dsl.Lexer.{is_digit}
use network_algo.Decimals.{
  leading_digits, decimal, pow-positive, scaled, digits-next, value, value-next,
}

-- An `int` that is not negative.
unfoldable pub fit : ℕ → Option ℕ
fit n = if ltb n int_limit then some n else none

-- The loop, with the number `x` read so far.
unfoldable pub findfa_loop : Text → ℕ → Option ℕ
unfolding fit is_digit
findfa_loop [] x = some x
findfa_loop (c ∷ s) x =
    let next = x * 10 + (c - b'0') in
    if is_digit c then if ltb next int_limit then findfa_loop s next else none else some x

unfoldable pub findfa : Text → Option ℕ
unfolding findfa_loop
findfa s = findfa_loop s 0

fit-over : (n : ℕ) → int_limit ≤ n → fit n ≡ none
unfolding fit
fit-over n h = ground arith

findfa_loop-digit :
    (c : ℕ) (s : Text) (x : ℕ)
    → is_digit c ≡ true
    → findfa_loop (c ∷ s) x
      ≡ (if ltb (x * 10 + (c - b'0')) int_limit then findfa_loop s (x * 10 + (c - b'0')) else none)
unfolding findfa_loop
findfa_loop-digit c s x h = ground (arith, h)

findfa_loop-value :
    (s : Text) (x : ℕ) → x < int_limit → findfa_loop s x ≡ fit (value x (leading_digits s))
findfa_loop-value [] x h = unfold findfa_loop in unfold fit in ground arith
findfa_loop-value (c ∷ s) x h = elim (Bool-cases (is_digit c)) [
  | inl digit ↦
      let next = x * 10 + (c - b'0') in
      let total = value-next x c (leading_digits s) ∙ ap (value x) (sym (digits-next c s digit)) in
      findfa_loop-digit c s x digit ∙ elim (Bool-cases (ltb next int_limit)) [
        | inl small ↦
            ground (arith, small, findfa_loop-value s next (ground (arith, small))) ∙ ap fit total
        | inr large ↦
            let over =
              scaled next (10 ^ length (leading_digits s)) (decimal (leading_digits s))
                (pow-positive (length (leading_digits s))) in
            ground (arith, large)
            ∙ sym (fit-over (value next (leading_digits s)) (ground (arith, large, over)))
            ∙ ap fit total
      ]
  | inr other ↦ unfold findfa_loop in unfold fit in ground (arith, other)
]

-- On every text, `findfa` returns the number that the digits at its front denote by place value where
-- that is below 2^31, and overflows an `int` where it is not; without a digit at the front it is 0.
pub findfa-decimal :
    (s : Text)
    → (findfa s ≡ fit (decimal (leading_digits s))) × (leading_digits s ≡ [] → findfa s ≡ some 0)
unfolding findfa
findfa-decimal s =
    let equal : findfa s ≡ fit (decimal (leading_digits s)) =
      findfa_loop-value s 0 (omega arith) ∙ ap fit (omega arith) in
    (equal, λ e. equal ∙ ap (λ t. fit (decimal t)) e ∙ unfold fit in refl)
