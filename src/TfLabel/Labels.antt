-- ===== src/TfLabel/Labels.antt =====
-- The loops of `construct` of include/algorithm/tflabel.hpp over the labels: where they begin, the loop
-- over the removed nodes, and the return from split nodes to those of which they were split. A set is
-- the list of its elements.
use network_algo.Prelude.{
  ℕ, zero, suc, ◌≤◌, ◌<◌, ◌≡◌, refl, sym, ap, ◌∙◌, subst, inl, inr, Bool, true, false, ◌||◌, List,
  [], ◌∷◌, ◌==◌, if◌then◌else◌, arith, Bool-cases,
}
use network_algo.TfLabel.{Array, store}

abbrev pub elem : ℕ → List ℕ → Bool
elem x [] = false
elem x (y ∷ ys) = (y == x) || elem x ys

-- `insert` of a set
unfoldable pub insert : ℕ → List ℕ → List ℕ
insert x ys = if elem x ys then ys else x ∷ ys

-- `insert` of each element of a list
unfoldable pub insert_all : List ℕ → List ℕ → List ℕ
unfolding insert
insert_all [] ys = ys
insert_all (x ∷ xs) ys = insert_all xs (insert x ys)

-- The loop over `tmp` for index `i`.
unfoldable pub gather : ℕ → List ℕ → Array (List ℕ) → Array (List ℕ)
unfolding insert_all
gather i [] labels = labels
gather i (ele ∷ tmp) labels = gather i tmp (store labels i (insert_all (labels ele) (labels i)))

-- The loop from the last index of `order` down to 0, of which the size is given.
unfoldable pub close_labels : ℕ → Array (List ℕ) → Array (List ℕ)
unfolding gather
close_labels zero labels = labels
close_labels (suc i) labels = close_labels i (gather i (labels i) labels)

-- `fa[ele]` for each label of a node.
unfoldable pub replace_labels : Array ℕ → List ℕ → List ℕ → List ℕ
unfolding insert
replace_labels fa [] labels = labels
replace_labels fa (ele ∷ tmp) labels = replace_labels fa tmp (insert (fa ele) labels)

unfoldable pub unsplit : Array ℕ → ℕ → Array (List ℕ) → Array (List ℕ)
unfolding replace_labels
unsplit fa zero labels = labels
unsplit fa (suc i) labels =
    let rest = unsplit fa i labels in store rest i (replace_labels fa (rest i) [])

-- Each node begins with itself.
unfoldable pub own_labels : ℕ → Array (List ℕ) → Array (List ℕ)
unfolding insert
own_labels zero labels = labels
own_labels (suc i) labels = let rest = own_labels i labels in store rest i (insert i (rest i))

elem-insert : (x y : ℕ) (ys : List ℕ) → elem x (insert y ys) ≡ ((y == x) || elem x ys)
unfolding insert
elem-insert x y ys = elim (Bool-cases (elem y ys)) [
  | inl old ↦ elim (Bool-cases (y == x)) [
    | inl equal ↦
        let at : y ≡ x = ground (arith, equal) in
        ground (arith, old, equal, ap (λ (t : ℕ). elem t ys) at)
    | inr other ↦ ground (arith, old, other)
  ]
  | inr new ↦ ground (arith, new)
]

elem-insert_all : (x : ℕ) (xs ys : List ℕ) → elem x (insert_all xs ys) ≡ (elem x xs || elem x ys)
unfolding insert_all
elem-insert_all x [] ys = refl
elem-insert_all x (y ∷ xs) ys =
    ground (arith, elem-insert_all x xs (insert y ys), elem-insert x y ys)

-- The labels of other nodes stay, and those of the node grow.
gather-other :
    (i k : ℕ) (tmp : List ℕ) (labels : Array (List ℕ))
    → (i == k) ≡ false
    → gather i tmp labels k ≡ labels k
unfolding gather
gather-other i k [] labels h = refl
gather-other i k (ele ∷ tmp) labels h =
    gather-other i k tmp (store labels i (insert_all (labels ele) (labels i))) h ∙ ground (arith, h)

-- No set of labels loses an element.
abbrev Grows : Array (List ℕ) → Array (List ℕ) → Type 0
Grows labels labels' = (k e : ℕ) → elem e (labels k) ≡ true → elem e (labels' k) ≡ true

gather_one-Grows :
    (i ele : ℕ) (labels : Array (List ℕ))
    → Grows labels (store labels i (insert_all (labels ele) (labels i)))
gather_one-Grows i ele labels k e h = elim (Bool-cases (i == k)) [
  | inl equal ↦
      let at : i ≡ k = ground (arith, equal) in
      ground (
        arith,
        equal,
        h,
        elem-insert_all e (labels ele) (labels i),
        ap (λ (t : ℕ). elem e (labels t)) at,
      )
  | inr other ↦ ground (arith, other, h)
]

gather-Grows : (i : ℕ) (tmp : List ℕ) (labels : Array (List ℕ)) → Grows labels (gather i tmp labels)
unfolding gather
gather-Grows i [] labels k e h = h
gather-Grows i (ele ∷ tmp) labels k e h =
    gather-Grows i tmp (store labels i (insert_all (labels ele) (labels i))) k e
      (gather_one-Grows i ele labels k e h)

gather-labels :
    (i : ℕ) (tmp : List ℕ) (labels : Array (List ℕ)) (ele e : ℕ)
    → elem ele tmp ≡ true
    → elem e (labels ele) ≡ true
    → elem e (gather i tmp labels i) ≡ true
unfolding gather
gather-labels i [] labels ele e h k = cc
gather-labels i (x ∷ tmp) labels ele e h k = elim (Bool-cases (x == ele)) [
  | inl equal ↦
      let at : x ≡ ele = ground (arith, equal) in
      gather-Grows i tmp (store labels i (insert_all (labels x) (labels i))) i e (
        ground
          (arith, elem-insert_all e (labels x) (labels i), k, ap (λ (t : ℕ). elem e (labels t)) at))
  | inr other ↦
      gather-labels i tmp (store labels i (insert_all (labels x) (labels i))) ele e
        (ground (arith, h, other)) (gather_one-Grows i x labels ele e k)
]

close_labels-Grows : (n : ℕ) (labels : Array (List ℕ)) → Grows labels (close_labels n labels)
unfolding close_labels
close_labels-Grows zero labels k e h = h
close_labels-Grows (suc i) labels k e h =
    close_labels-Grows i (gather i (labels i) labels) k e (gather-Grows i (labels i) labels k e h)

close_labels-outside :
    (n k : ℕ) (labels : Array (List ℕ)) → n ≤ k → close_labels n labels k ≡ labels k
unfolding close_labels
close_labels-outside zero k labels h = refl
close_labels-outside (suc i) k labels h =
    close_labels-outside i k (gather i (labels i) labels) (omega arith)
    ∙ gather-other i k (labels i) labels (ground arith)

close_labels-inside :
    (n k ele e : ℕ) (labels : Array (List ℕ))
    → k < n
    → elem ele (labels k) ≡ true
    → elem e (labels ele) ≡ true
    → elem e (close_labels n labels k) ≡ true
unfolding close_labels
close_labels-inside zero k ele e labels h a b = absurd (omega arith)
close_labels-inside (suc i) k ele e labels h a b = elim (Bool-cases (i == k)) [
  | inl equal ↦
      let at : k ≡ i = ground (arith, equal) in
      close_labels-Grows i (gather i (labels i) labels) k e (
        subst (λ (t : ℕ). elem e (gather i (labels i) labels t) ≡ true) (sym at)
          (gather-labels i (labels i) labels ele e
            (ap (λ (t : ℕ). elem ele (labels t)) (sym at) ∙ a) b))
  | inr other ↦
      close_labels-inside i k ele e (gather i (labels i) labels) (ground (arith, other))
        (gather-Grows i (labels i) labels k ele a) (gather-Grows i (labels i) labels ele e b)
]

-- The loop over the removed nodes gives a node whose number is below their count the labels of all its
-- labels, and leaves the labels of every other node as they are, whichever nodes were removed.
pub close_labels-count :
    (n k : ℕ) (labels : Array (List ℕ))
    → (k < n
        → (ele e : ℕ) → elem ele (labels k) ≡ true
        → elem e (labels ele) ≡ true
        → elem e (close_labels n labels k) ≡ true)
      × (n ≤ k → close_labels n labels k ≡ labels k)
close_labels-count n k labels =
    ((λ h ele e a b. close_labels-inside n k ele e labels h a b), close_labels-outside n k labels)
