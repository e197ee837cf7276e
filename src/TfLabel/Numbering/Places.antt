-- ===== src/TfLabel/Numbering/Places.antt =====
-- Where `read` of include/algorithm/tflabel.hpp puts the numbers of its file.
use network_algo.Prelude.{
  ℕ, zero, suc, ◌+◌, ◌<◌, ◌≡◌, refl, sym, ap, ◌∙◌, subst, inl, inr, true, ◌||◌, Option, none, some,
  List, [], ◌∷◌, ltb, ◌==◌, arith, length, get_elem?, All, Bool-cases,
}
use network_algo.TfLabel.{Array, store}
use network_algo.TfLabel.Labels.{elem}
use network_algo.TfLabel.Numbering.{max_number, insert_number, sort_unique, renumber}

abbrev pub IsAscending : List ℕ → Type 0
IsAscending [] = Unit
IsAscending (x ∷ xs) = All (λ y. x < y) xs × IsAscending xs

-- An entry of an array, if there is one.
abbrev entry : Option (Array ℕ) → ℕ → ℕ
entry none x = 0
entry (some number) x = number x

all_above : (x y : ℕ) (ys : List ℕ) → x < y → All (λ z. y < z) ys → All (λ z. x < z) ys
all_above x y [] h a = tt
all_above x y (z ∷ ys) h a = (omega arith, all_above x y ys h a.1)

insert_number-above :
    (x z : ℕ) (ys : List ℕ) → z < x → All (λ y. z < y) ys → All (λ y. z < y) (insert_number x ys)
unfolding insert_number
insert_number-above x z [] h a = (h, tt)
insert_number-above x z (y ∷ ys) h a = elim (Bool-cases (x == y)) [
  | inl there ↦ rw there a
  | inr other ↦ elim (Bool-cases (ltb x y)) [
    | inl below ↦ rw (other, below) (h, a)
    | inr above ↦ rw (other, above) (a.0, insert_number-above x z ys h a.1)
  ]
]

insert_number-IsAscending :
    (x : ℕ) (ys : List ℕ) → IsAscending ys → IsAscending (insert_number x ys)
unfolding insert_number
insert_number-IsAscending x [] a = (tt, tt)
insert_number-IsAscending x (y ∷ ys) a = elim (Bool-cases (x == y)) [
  | inl there ↦ rw there a
  | inr other ↦ elim (Bool-cases (ltb x y)) [
    | inl below ↦
        let h : x < y = ground (arith, below) in rw (other, below) ((h, all_above x y ys h a.0), a)
    | inr above ↦
        rw (other, above)
          (
            insert_number-above x y ys (ground (arith, other, above)) a.0,
            insert_number-IsAscending x ys a.1,
          )
  ]
]

elem-insert_number : (z x : ℕ) (ys : List ℕ) → elem z (insert_number x ys) ≡ ((x == z) || elem z ys)
unfolding insert_number
elem-insert_number z x [] = refl
elem-insert_number z x (y ∷ ys) = ground (arith, elem-insert_number z x ys)

pub sort_unique-IsAscending : (xs : List ℕ) → IsAscending (sort_unique xs)
unfolding sort_unique
sort_unique-IsAscending [] = tt
sort_unique-IsAscending (x ∷ xs) =
    insert_number-IsAscending x (sort_unique xs) (sort_unique-IsAscending xs)

pub elem-sort_unique : (z : ℕ) (xs : List ℕ) → elem z (sort_unique xs) ≡ elem z xs
unfolding sort_unique
elem-sort_unique z [] = refl
elem-sort_unique z (x ∷ xs) =
    elem-insert_number z x (sort_unique xs) ∙ ap (λ b. (x == z) || b) (elem-sort_unique z xs)

insert_number-All :
    (P : ℕ → Type 0) (x : ℕ) (ys : List ℕ) → P x → All P ys → All P (insert_number x ys)
unfolding insert_number
insert_number-All P x [] h a = (h, tt)
insert_number-All P x (y ∷ ys) h a = elim (Bool-cases (x == y)) [
  | inl there ↦ rw there a
  | inr other ↦ elim (Bool-cases (ltb x y)) [
    | inl below ↦ rw (other, below) (h, a)
    | inr above ↦ rw (other, above) (a.0, insert_number-All P x ys h a.1)
  ]
]

pub sort_unique-All : (P : ℕ → Type 0) (xs : List ℕ) → All P xs → All P (sort_unique xs)
unfolding sort_unique
sort_unique-All P [] a = tt
sort_unique-All P (x ∷ xs) a = insert_number-All P x (sort_unique xs) a.0 (sort_unique-All P xs a.1)

-- The entries of numbers that are not in the list stay.
renumber-above :
    (i x : ℕ) (v : List ℕ) (number number' : Array ℕ)
    → All (λ y. x < y) v
    → renumber i v number ≡ some number'
    → number' x ≡ number x
unfolding renumber
renumber-above i x [] number number' a h = ap (λ (o : Option (Array ℕ)). entry o x) (sym h)
renumber-above i x (y ∷ v) number number' a h =
    renumber-above (suc i) x v (store number y i) number' a.1 (ground (arith, h))
    ∙ ground (arith, a.0)

-- Numbers below `maxN` are all written within the array.
pub renumber-some :
    (i : ℕ) (v : List ℕ) (number : Array ℕ)
    → All (λ x. x < max_number) v
    → (number' : Array ℕ) × (renumber i v number ≡ some number')
unfolding renumber
renumber-some i [] number a = (number, refl)
renumber-some i (x ∷ v) number a =
    let (number', done) = renumber-some (suc i) v (store number x i) a.1 in
    (number', ground (arith, a.0, done))

-- The place of a number in an ascending list, counted from `i`.
pub renumber-place :
    (i x : ℕ) (v : List ℕ) (number number' : Array ℕ)
    → IsAscending v
    → elem x v ≡ true
    → renumber i v number ≡ some number'
    → (k : ℕ) × (number' x ≡ i + k) × (get_elem? v k ≡ some x)
unfolding renumber
renumber-place i x [] number number' a h done = absurd (ground (arith, h))
renumber-place i x (y ∷ v) number number' a h done =
    let rest : renumber (suc i) v (store number y i) ≡ some number' = ground (arith, done) in
    elim (Bool-cases (y == x)) [
      | inl equal ↦
          let at : y ≡ x = ground (arith, equal) in
          (
            0,
            renumber-above (suc i) x v (store number y i) number'
                  (subst (λ z. All (λ t. z < t) v) at a.0) rest
                ∙ ground (arith, equal),
            ap some at,
          )
      | inr other ↦
          let (k, place, found) =
            renumber-place (suc i) x v (store number y i) number' a.1 (ground (arith, other, h))
              rest in
          (suc k, omega (arith, place), found)
    ]

pub get_elem?-lt-length : (v : List ℕ) (k x : ℕ) → get_elem? v k ≡ some x → k < length v
get_elem?-lt-length [] k x h = cc
get_elem?-lt-length (y ∷ v) zero x h = omega arith
get_elem?-lt-length (y ∷ v) (suc k) x h = omega (arith, get_elem?-lt-length v k x h)
