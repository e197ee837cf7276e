-- ===== src/TfLabel/Numbering/Targets.antt =====
-- The edges of the graph that `read` of include/algorithm/tflabel.hpp hands to find_scc.
use network_algo.Prelude.{
  ℕ, ◌≤◌, ◌<◌, Option, none, ◌≡◌, refl, ap, ◌∙◌, subst, inl, inr, Bool, true, false, ◌||◌, ◌&&◌,
  some, List, [], ◌∷◌, ◌++◌, ◌==◌, arith, length, get_elem?, All, Bool-cases,
}
use network_algo.TfLabel.{Array, store}
use network_algo.TfLabel.Labels.{elem}
use network_algo.TfLabel.Components.{Tarjan, find_scc}
use network_algo.TfLabel.Components.Grown.{visited}
use network_algo.TfLabel.Components.Visits.{find_scc-visited}
use network_algo.TfLabel.Numbering.{
  Pairs, ends, sort_unique, max_number, max_nodes, add_targets, Renumbered, renumbered,
}
use network_algo.TfLabel.Numbering.Places.{
  sort_unique-IsAscending, elem-sort_unique, sort_unique-All, renumber-some, renumber-place,
  get_elem?-lt-length,
}

-- The targets of a node, if there is an array.
abbrev targets : Option (Array (List ℕ)) → ℕ → List ℕ
targets none x = []
targets (some gg) x = gg x

abbrev pub has_pair : ℕ → ℕ → Pairs → Bool
has_pair x y [] = false
has_pair x y ((a, b) ∷ pairs) = (a == x) && (b == y) || has_pair x y pairs

elem-append : (z : ℕ) (xs ys : List ℕ) → elem z (xs ++ ys) ≡ (elem z xs || elem z ys)
elem-append z [] ys = refl
elem-append z (x ∷ xs) ys = ground (arith, elem-append z xs ys)

All-append : (P : ℕ → Type 0) (xs : List ℕ) (y : ℕ) → All P xs → P y → All P (xs ++ (y ∷ []))
All-append P [] y a h = (h, tt)
All-append P (x ∷ xs) y a h = (a.0, All-append P xs y a.1 h)

at_front : (p : ℕ) (xs : List ℕ) → elem p (p ∷ xs) ≡ true
at_front p xs = ground arith

in_front : (p q : ℕ) (xs : List ℕ) → elem q (p ∷ q ∷ xs) ≡ true
in_front p q xs = ground arith

-- The targets with those of one more pair.
abbrev pushed : Array ℕ → ℕ → ℕ → Array (List ℕ) → Array (List ℕ)
pushed number p q gg = store gg (number p) (gg (number p) ++ (number q ∷ []))

-- Nodes that `GG` has an entry for are all written within the array.
add_targets-some :
    (number : Array ℕ) (pairs : Pairs) (gg : Array (List ℕ))
    → ((x : ℕ) → elem x (ends pairs) ≡ true → number x < max_nodes)
    → (gg' : Array (List ℕ)) × (add_targets number pairs gg ≡ some gg')
unfolding add_targets
add_targets-some number [] gg h = (gg, refl)
add_targets-some number ((p, q) ∷ pairs) gg h =
    let (gg', done) =
      add_targets-some number pairs (pushed number p q gg) (λ z e. h z (ground (arith, e))) in
    (gg', ground (arith, h p (at_front p (q ∷ ends pairs)), done))

-- Targets stay below a bound that the numbers of all ends stay below.
add_targets-bounded :
    (n : ℕ) (number : Array ℕ) (pairs : Pairs) (gg gg' : Array (List ℕ))
    → ((x : ℕ) → elem x (ends pairs) ≡ true → number x < n)
    → ((x : ℕ) → All (λ y. y < n) (gg x))
    → add_targets number pairs gg ≡ some gg'
    → (x : ℕ) → All (λ y. y < n) (gg' x)
unfolding add_targets
add_targets-bounded n number [] gg gg' h a done x =
    subst (λ (o : Option (Array (List ℕ))). All (λ y. y < n) (targets o x)) done (a x)
add_targets-bounded n number ((p, q) ∷ pairs) gg gg' h a done x =
    add_targets-bounded n number pairs (pushed number p q gg) gg' (λ z e. h z (ground (arith, e)))
      (λ z. elim (Bool-cases (number p == z)) [
        | inl here ↦ rw here (
            All-append (λ y. y < n) (gg (number p)) (number q) (a (number p))
              (h q (in_front p q (ends pairs))))
        | inr other ↦ rw other (a z)
      ])
      (ground (arith, done)) x

-- No target is lost.
add_targets-grows :
    (number : Array ℕ) (pairs : Pairs) (gg gg' : Array (List ℕ)) (x y : ℕ)
    → add_targets number pairs gg ≡ some gg'
    → elem y (gg x) ≡ true
    → elem y (gg' x) ≡ true
unfolding add_targets
add_targets-grows number [] gg gg' x y done h =
    subst (λ (o : Option (Array (List ℕ))). elem y (targets o x) ≡ true) done h
add_targets-grows number ((p, q) ∷ pairs) gg gg' x y done h =
    add_targets-grows number pairs (pushed number p q gg) gg' x y (ground (arith, done))
      (elim (Bool-cases (number p == x)) [
        | inl here ↦
            let at : number p ≡ x = ground (arith, here) in
            rw here (
              elem-append y (gg (number p)) (number q ∷ [])
              ∙ ground (arith, h, ap (λ (t : ℕ). elem y (gg t)) at))
        | inr other ↦ rw other h
      ])

added : (gg : Array (List ℕ)) (a b : ℕ) → elem b (store gg a (gg a ++ (b ∷ [])) a) ≡ true
added gg a b =
    let here : (a == a) ≡ true = ground arith in
    rw here (elem-append b (gg a) (b ∷ []) ∙ ground arith)

add_targets-pair :
    (number : Array ℕ) (pairs : Pairs) (gg gg' : Array (List ℕ)) (x y : ℕ)
    → add_targets number pairs gg ≡ some gg'
    → has_pair x y pairs ≡ true
    → elem (number y) (gg' (number x)) ≡ true
unfolding add_targets
add_targets-pair number [] gg gg' x y done h = cc
add_targets-pair number ((p, q) ∷ pairs) gg gg' x y done h =
    let rest : add_targets number pairs (pushed number p q gg) ≡ some gg' = ground (arith, done) in
    elim (Bool-cases ((p == x) && (q == y))) [
      | inl here ↦
          let at : p ≡ x = ground (arith, here) in
          let to : q ≡ y = ground (arith, here) in
          add_targets-grows number pairs (pushed number p q gg) gg' (number x) (number y) rest (
            subst (λ (t : ℕ). elem (number y) (pushed number p q gg (number t)) ≡ true) at
              (subst (λ (t : ℕ). elem (number t) (pushed number p q gg (number p)) ≡ true) to
                (added gg (number p) (number q))))
      | inr other ↦
          add_targets-pair number pairs (pushed number p q gg) gg' x y rest
            (ground (arith, h, other))
    ]

-- For every list of pairs of numbers below maxN, of which at most maxn are different, whatever the array of new
-- numbers holds before: the renumbering writes within the arrays, each number of a pair is at its new number in
-- the sorted list, so that different numbers have different new numbers, each pair is an edge of the new graph,
-- and find_scc ends on that graph and visits every node.
pub renumbered-find_scc :
    (junk : Array ℕ) (pairs : Pairs)
    → All (λ x. x < max_number) (ends pairs)
    → length (sort_unique (ends pairs)) ≤ max_nodes
    → (r : Renumbered) × (renumbered junk pairs ≡ some r)
      × ((x : ℕ) → elem x (ends pairs) ≡ true → get_elem? r.v (r.number x) ≡ some x)
      × ((x y : ℕ) → has_pair x y pairs ≡ true → elem (r.number y) (r.gg (r.number x)) ≡ true)
      × (s : Tarjan) × (find_scc r.gg (length r.v) ≡ some s)
      × ((x : ℕ) → x < length r.v → visited s x ≡ true)
unfolding renumbered
renumbered-find_scc junk pairs numbers few =
    let v = sort_unique (ends pairs) in
    let (number, written) =
      renumber-some 0 v junk (sort_unique-All (λ x. x < max_number) (ends pairs) numbers) in
    let place : (x : ℕ) → elem x (ends pairs) ≡ true → get_elem? v (number x) ≡ some x = λ x h.
      let (k, at, found) =
        renumber-place 0 x v junk number (sort_unique-IsAscending (ends pairs))
          (elem-sort_unique x (ends pairs) ∙ h) written in
      let same : number x ≡ k = omega (arith, at) in ap (λ (t : ℕ). get_elem? v t) same ∙ found in
    let below : (x : ℕ) → elem x (ends pairs) ≡ true → number x < length v =
      λ x h. get_elem?-lt-length v (number x) x (place x h) in
    let (gg, pushed_all) =
      add_targets-some number pairs (λ z. []) (λ x h. omega (arith, below x h, few)) in
    let (s, ended, all) =
      find_scc-visited (length v) gg
        (add_targets-bounded (length v) number pairs (λ z. []) gg below (λ z. tt) pushed_all) in
    (
      record { v = v; number = number; gg = gg },
      ground (arith, written, pushed_all),
      place,
      λ x y h. add_targets-pair number pairs (λ z. []) gg x y pushed_all h,
      s,
      ended,
      all,
    )
