-- ===== src/Reflection/Order.antt =====
-- The relationships that `compareWithRelationship` of include/reflection.hpp finds between two values.
use network_algo.Prelude.{
  ℕ, ◌≡◌, refl, ap, ◌∙◌, ◌⊎◌, inl, inr, Text, text_eq, Bool, true, false, some, [], ◌∷◌, ◌==◌, ltb,
  arith, Bool-cases,
}
use network_algo.Dsl.Syntax.{Relationship}
use network_algo.Graph.IdSet.{text_lt}
use network_algo.Reflection.Numbers.{
  ℤ, pos, negsuc, int_eq, int_lt, Failure, Converted, converted, failed, ◌>>=◌,
}
use network_algo.Reflection.Compare.{
  Floats, Content, bool_content, double_content, enum_content, float_content, int32_content,
  int64_content, message_content, string_content, uint32_content, uint64_content, Reflection,
  bool_eq, bool_lt, nat_eq, nat_lt, compare_with_relationship, compare_content, get_field,
  reflected_compare, bool_from_string, string_from_string, int32_from_string, int64_from_string,
  uint32_from_string, uint64_from_string,
}

abbrev pub same_relationship : Relationship → Relationship → Bool
same_relationship Relationship.greater Relationship.greater = true
same_relationship Relationship.smaller Relationship.smaller = true
same_relationship Relationship.equal Relationship.equal = true
same_relationship r s = false

-- What the three tests say, in the order of the enumerators: one relationship holds and no other.
abbrev Decided : {A : Type 0} → (A → A → Bool) → (A → A → Bool) → A → A → Type 0
Decided eq lt v w =
    (one : Relationship) × (lt w v ≡ same_relationship Relationship.greater one)
    × (lt v w ≡ same_relationship Relationship.smaller one)
    × (eq v w ≡ same_relationship Relationship.equal one)

nat-Decided : (m n : ℕ) → Decided nat_eq nat_lt m n
unfolding nat_eq nat_lt
nat-Decided m n = elim (Bool-cases (m == n)) [
  | inl same ↦ (Relationship.equal, ground arith, ground arith, ground arith)
  | inr other ↦ elim (Bool-cases (ltb m n)) [
    | inl less ↦ (Relationship.smaller, ground arith, ground arith, ground arith)
    | inr more ↦ (Relationship.greater, ground arith, ground arith, ground arith)
  ]
]

int-Decided : (m n : ℤ) → Decided int_eq int_lt m n
unfolding int_eq int_lt nat_eq nat_lt
int-Decided (pos m) (pos n) = nat-Decided m n
int-Decided (pos m) (negsuc n) = (Relationship.greater, refl, refl, refl)
int-Decided (negsuc m) (pos n) = (Relationship.smaller, refl, refl, refl)
int-Decided (negsuc m) (negsuc n) =
    let (one, g, s, e) = nat-Decided n m in (one, g, s, ground (arith, e))

bool-Decided : (v w : Bool) → Decided bool_eq bool_lt v w
unfolding bool_eq bool_lt
bool-Decided true true = (Relationship.equal, refl, refl, refl)
bool-Decided true false = (Relationship.greater, refl, refl, refl)
bool-Decided false true = (Relationship.smaller, refl, refl, refl)
bool-Decided false false = (Relationship.equal, refl, refl, refl)

text-Decided : (s t : Text) → Decided text_eq text_lt s t
unfolding text_eq text_lt
text-Decided [] [] = (Relationship.equal, refl, refl, refl)
text-Decided [] (b ∷ t) = (Relationship.smaller, refl, refl, refl)
text-Decided (a ∷ s) [] = (Relationship.greater, refl, refl, refl)
text-Decided (a ∷ s) (b ∷ t) = elim (Bool-cases (a == b)) [
  | inl same ↦
      let (one, g, l, e) = text-Decided s t in
      (one, ground (arith, g), ground (arith, l), ground (arith, e))
  | inr other ↦ elim (Bool-cases (ltb a b)) [
    | inl less ↦ (Relationship.smaller, ground arith, ground arith, ground arith)
    | inr more ↦ (Relationship.greater, ground arith, ground arith, ground arith)
  ]
]

-- What a comparison for each relationship answers: all fail alike, or one holds and no other.
abbrev pub IsDecided : (Relationship → Converted Bool) → Type 0
IsDecided answer =
    ((e : Failure) × ((rel : Relationship) → answer rel ≡ failed e))
    ⊎ ((one : Relationship) × ((rel : Relationship)
          → answer rel ≡ converted (same_relationship rel one)))

answers :
    {A : Type 0} (eq lt : A → A → Bool) (v w : A)
    → Decided eq lt v w
    → (one : Relationship) × ((rel : Relationship)
        → compare_with_relationship eq lt v w rel ≡ same_relationship rel one)
unfolding compare_with_relationship
answers eq lt v w (one, g, s, e) = (one, go)
  where
    go : (rel : Relationship) → compare_with_relationship eq lt v w rel ≡ same_relationship rel one
    go Relationship.greater = g
    go Relationship.smaller = s
    go Relationship.equal = e

-- A value that is converted and then compared.
compared :
    {A : Type 0} (eq lt : A → A → Bool) (v : A) (m : Converted A)
    → ((w : A) → Decided eq lt v w)
    → IsDecided (λ rel. m >>= λ w. converted (compare_with_relationship eq lt v w rel))
compared eq lt v (failed e) d = inl (e, λ rel. refl)
compared eq lt v (converted w) d =
    let (one, same) = answers eq lt v w (d w) in inr (one, λ rel. ap converted (same rel))

module _ (floats : Floats) where
  abbrev pub is_floating : Content floats → Bool
  is_floating (bool_content v) = false
  is_floating (double_content v) = true
  is_floating enum_content = false
  is_floating (float_content v) = true
  is_floating (int32_content v) = false
  is_floating (int64_content v) = false
  is_floating message_content = false
  is_floating (string_content v) = false
  is_floating (uint32_content v) = false
  is_floating (uint64_content v) = false

  compare_content-IsDecided :
      (content : Content floats) (value : Text)
      → is_floating content ≡ false
      → IsDecided (λ rel. compare_content floats content rel value)
  unfolding compare_content
  compare_content-IsDecided (bool_content v) value h =
      compared bool_eq bool_lt v (bool_from_string value) (bool-Decided v)
  compare_content-IsDecided (double_content v) value h = cc
  compare_content-IsDecided enum_content value h = inl (Failure.runtime_error, λ rel. refl)
  compare_content-IsDecided (float_content v) value h = cc
  compare_content-IsDecided (int32_content v) value h =
      compared int_eq int_lt v (int32_from_string value) (int-Decided v)
  compare_content-IsDecided (int64_content v) value h =
      compared int_eq int_lt v (int64_from_string value) (int-Decided v)
  compare_content-IsDecided message_content value h = inl (Failure.runtime_error, λ rel. refl)
  compare_content-IsDecided (string_content v) value h =
      compared text_eq text_lt v (string_from_string value) (text-Decided v)
  compare_content-IsDecided (uint32_content v) value h =
      compared nat_eq nat_lt v (uint32_from_string value) (nat-Decided v)
  compare_content-IsDecided (uint64_content v) value h =
      compared nat_eq nat_lt v (uint64_from_string value) (nat-Decided v)

pub reflected_compare-present :
    (floats : Floats) (Message : Type 0) (reflection : Reflection floats Message) (obj : Message)
    (name value : Text) (content : Content floats) (rel : Relationship)
    → reflection.find_field obj name ≡ some (record { required = true; content = content })
    → reflected_compare floats reflection obj name rel value
      ≡ compare_content floats content rel value
unfolding reflected_compare get_field
reflected_compare-present floats Message reflection obj name value content rel h = ground (arith, h)

alike :
    (f g : Relationship → Converted Bool)
    → ((rel : Relationship) → f rel ≡ g rel)
    → IsDecided g
    → IsDecided f
alike f g same (inl (e, h)) = inl (e, λ rel. same rel ∙ h rel)
alike f g same (inr (one, h)) = inr (one, λ rel. same rel ∙ h rel)

-- For a field that is there and is required, and holds no floating-point number, the three
-- comparisons of the field with one value all fail in the same way, or exactly one of smaller, equal
-- and greater holds.
pub reflected_compare-IsDecided :
    (floats : Floats) (Message : Type 0) (reflection : Reflection floats Message) (obj : Message)
    (name value : Text) (content : Content floats)
    → reflection.find_field obj name ≡ some (record { required = true; content = content })
    → is_floating floats content ≡ false
    → IsDecided (λ rel. reflected_compare floats reflection obj name rel value)
reflected_compare-IsDecided floats Message reflection obj name value content h k =
    alike (λ rel. reflected_compare floats reflection obj name rel value)
      (λ rel. compare_content floats content rel value)
      (λ rel. reflected_compare-present floats Message reflection obj name value content rel h)
      (compare_content-IsDecided floats content value k)
