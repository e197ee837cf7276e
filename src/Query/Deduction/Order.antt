-- ===== src/Query/Deduction/Order.antt =====
-- The order of the steps of include/backend/leveldbgraph_deduction.inc: a step that is not acquired directly comes
-- behind those about the positions that its constraint names.
use network_algo.Prelude.{
  subst, ℕ, zero, suc, ◌+◌, ◌-◌, ◌/◌, ◌%◌, ◌≤◌, ◌≡◌, ◌⊎◌, refl, ◌∙◌, Bool, true, false, none, some,
  List, [], ◌∷◌, ◌++◌, ltb, ◌==◌, ◌&&◌, ◌||◌, if◌then◌else◌, arith, inl, inr,
}
use network_algo.Query.Deduction.{
  without_left, without_right, ConstraintType, DeductionTrait, Bound, first_id, is_left_constrained,
  is_right_constrained, step_constraint, current_id, add_loop,
}
use network_algo.Query.Deduction.Positions.{occurs, occurs-append, within, occurs-add_loop}

-- What the constraint of a step names has no step from it on.
pub record IsSettled (dt : DeductionTrait) (steps : List DeductionTrait) : Type 0 where
  pub left : is_left_constrained dt.constraint ≡ true → occurs (dt.id - 1) steps ≡ 0
  pub right : is_right_constrained dt.constraint ≡ true → occurs (dt.id + 1) steps ≡ 0

abbrev pub IsOrdered : List DeductionTrait → Type 0
IsOrdered [] = Unit
IsOrdered (dt ∷ steps) = (dt.direct ≡ false → IsSettled dt (dt ∷ steps)) × IsOrdered steps

-- The corrections at the ends of the pattern, and the constraint that they are made to.
abbrev corrected : Bool → Bool → ConstraintType → ConstraintType
corrected left_end right_end c =
    let at_left = if left_end then without_left c else c in
    if right_end then without_right at_left else at_left

abbrev inner : Bool → Bool → ConstraintType
inner last even =
    if last
    then ConstraintType.both_constrained
    else if even
    then ConstraintType.left_constrained
    else ConstraintType.right_constrained

corrected-left :
    (left_end right_end last even : Bool)
    → is_left_constrained (corrected left_end right_end (inner last even)) ≡ true
    → (left_end ≡ false) × ((even ≡ true) ⊎ (last ≡ true))
unfolding is_left_constrained without_left without_right
corrected-left true true true even h = cc
corrected-left true false true even h = cc
corrected-left true true false true h = cc
corrected-left true true false false h = cc
corrected-left true false false true h = cc
corrected-left true false false false h = cc
corrected-left false right_end true even h = (refl, inr refl)
corrected-left false right_end false true h = (refl, inl refl)
corrected-left false true false false h = cc
corrected-left false false false false h = cc

corrected-right :
    (left_end right_end last even : Bool)
    → is_right_constrained (corrected left_end right_end (inner last even)) ≡ true
    → (even ≡ false) ⊎ (last ≡ true)
unfolding is_right_constrained without_left without_right
corrected-right left_end right_end true even h = inr refl
corrected-right left_end right_end false false h = inl refl
corrected-right true true false true h = cc
corrected-right true false false true h = cc
corrected-right false true false true h = cc
corrected-right false false false true h = cc

last_round : (j rounds : ℕ) → (j == j + suc rounds - 1) ≡ true → rounds ≡ 0
last_round j rounds h = ground (arith, h)

even_or_last :
    (j rounds : ℕ)
    → ((j % 2 == 0) ≡ true) ⊎ ((j == j + suc rounds - 1) ≡ true)
    → (j % 2 ≡ 0) ⊎ (rounds ≡ 0)
even_or_last j rounds (inl even) = inl (ground (arith, even))
even_or_last j rounds (inr last) = inr (last_round j rounds last)

odd_or_last :
    (j rounds : ℕ)
    → ((j % 2 == 0) ≡ false) ⊎ ((j == j + suc rounds - 1) ≡ true)
    → (j % 2 ≡ 1) ⊎ (rounds ≡ 0)
odd_or_last j rounds (inl odd) = inl (ground (arith, odd))
odd_or_last j rounds (inr last) = inr (last_round j rounds last)

-- A step of the loop is constrained on the left in an even round or in the last, and not at the first position.
left-even :
    (l : Bound) (r max_id j rounds : ℕ)
    → is_left_constrained (step_constraint l r max_id (j + suc rounds) j) ≡ true
    → ((j % 2 ≡ 0) ⊎ (rounds ≡ 0)) × (1 ≤ first_id l + j)
unfolding step_constraint
left-even none r max_id j rounds h =
    let (inside, choice) =
      corrected-left (j == 0) (ltb max_id r && ((j == 1) || (j + suc rounds == 1)))
        (j == j + suc rounds - 1) (j % 2 == 0) h in
    (even_or_last j rounds choice, ground (arith, inside))
left-even (some k) r max_id j rounds h =
    let (inside, choice) =
      corrected-left false (ltb max_id r && ((j == 1) || (j + suc rounds == 1)))
        (j == j + suc rounds - 1) (j % 2 == 0) h in
    (even_or_last j rounds choice, omega arith)

right-odd :
    (l : Bound) (r max_id j rounds : ℕ)
    → is_right_constrained (step_constraint l r max_id (j + suc rounds) j) ≡ true
    → (j % 2 ≡ 1) ⊎ (rounds ≡ 0)
unfolding step_constraint
right-odd none r max_id j rounds h = odd_or_last j rounds (
    corrected-right (j == 0) (ltb max_id r && ((j == 1) || (j + suc rounds == 1)))
      (j == j + suc rounds - 1) (j % 2 == 0) h)
right-odd (some k) r max_id j rounds h = odd_or_last j rounds (
    corrected-right false (ltb max_id r && ((j == 1) || (j + suc rounds == 1)))
      (j == j + suc rounds - 1) (j % 2 == 0) h)

-- The position of a round whose index is even, or odd, or the last.
current_id-left :
    (l : Bound) (r j rounds : ℕ)
    → first_id l + j + suc rounds ≡ r
    → (j % 2 ≡ 0) ⊎ (rounds ≡ 0)
    → current_id l r j ≡ first_id l + (j + 1) / 2
unfolding current_id
current_id-left l r j rounds h choice = ground (arith, h, choice)

current_id-right :
    (l : Bound) (r j rounds : ℕ)
    → first_id l + j + suc rounds ≡ r
    → (j % 2 ≡ 1) ⊎ (rounds ≡ 0)
    → current_id l r j + 1 ≡ r - j / 2
unfolding current_id
current_id-right l r j rounds h choice = ground (arith, h, choice)

-- The steps of a gap, before steps about positions behind it.
pub add_loop-IsOrdered :
    (l : Bound) (r max_id j rounds : ℕ) (later : List DeductionTrait)
    → first_id l + j + rounds ≡ r
    → ((i : ℕ) → i ≤ r → occurs i later ≡ 0)
    → IsOrdered later
    → IsOrdered (add_loop l r max_id (j + rounds) j rounds ++ later)
unfolding add_loop
add_loop-IsOrdered l r max_id j zero later h behind o = o
add_loop-IsOrdered l r max_id j (suc rounds) later h behind o =
    let gap = add_loop l r max_id (j + suc rounds) j (suc rounds) in
    let seen : (i : ℕ)
        → i ≤ r
        → occurs i (gap ++ later) ≡ within (first_id l + (j + 1) / 2) (r - j / 2) i =
      λ i le.
        occurs-append i gap later
        ∙ omega
            (arith, occurs-add_loop i l r max_id (j + suc rounds) j (suc rounds) h, behind i le) in
    (
      (λ given. record {
        left = λ c.
            let (choice, high) = left-even l r max_id j rounds c in
            let at = current_id-left l r j rounds h choice in
            seen (current_id l r j - 1) (omega (arith, at, h)) ∙ ground (arith, at, high);
        right = λ c.
            let at = current_id-right l r j rounds h (right-odd l r max_id j rounds c) in
            seen (current_id l r j + 1) (omega (arith, at, h)) ∙ ground (arith, at);
      }),
      subst (λ (m : ℕ). IsOrdered (add_loop l r max_id m (suc j) rounds ++ later)) (omega arith)
          (add_loop-IsOrdered l r max_id (suc j) rounds later (omega (arith, h)) behind o),
    )
