-- ===== src/Graph/IdSet.antt =====
-- `std::set<EdgeIdType>` as the list of its elements in increasing order.
use network_algo.Prelude.{
  ◌≡◌, refl, Bool, true, false, List, [], ◌∷◌, ◌||◌, Text, text_eq, text_eq_iff, ltb, ◌==◌, arith,
  if◌then◌else◌,
}

-- `operator<` of two strings.
unfoldable pub text_lt : Text → Text → Bool
text_lt s [] = false
text_lt [] (b ∷ t) = true
text_lt (a ∷ s) (b ∷ t) = if ltb a b then true else if a == b then text_lt s t else false

unfoldable pub insert : Text → List Text → List Text
unfolding text_lt
insert x [] = x ∷ []
insert x (y ∷ ys) =
    let rest = insert x ys in
    if text_eq x y then y ∷ ys else if text_lt x y then x ∷ y ∷ ys else y ∷ rest

-- `erase` by value.
unfoldable pub erase : Text → List Text → List Text
erase x [] = []
erase x (y ∷ ys) = let rest = erase x ys in if text_eq x y then rest else y ∷ rest

unfoldable pub member : Text → List Text → Bool
member x [] = false
member x (y ∷ ys) = text_eq x y || member x ys

pub member-insert :
    (x y : Text) (ys : List Text) → member x (insert y ys) ≡ (text_eq x y || member x ys)
unfolding insert member
member-insert x y [] = refl
member-insert x y (z ∷ zs) =
    ground (arith, member-insert x y zs, text_eq_iff y z, text_eq_iff x y, text_eq_iff x z)

pub member-erase :
    (x y : Text) (ys : List Text)
    → member x (erase y ys) ≡ (if text_eq y x then false else member x ys)
unfolding erase member
member-erase x y [] = ground arith
member-erase x y (z ∷ zs) =
    ground (arith, member-erase x y zs, text_eq_iff y z, text_eq_iff y x, text_eq_iff x z)
