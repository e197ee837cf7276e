-- ===== src/Query/Iterator/Search/Frame.antt =====
-- What the operations of a search in include/backend/leveldbgraph_iterator.inc leave as it is.
use network_algo.Prelude.{
  int_limit, ℕ, zero, suc, ◌%◌, ◌/◌, ◌<◌, ◌≡◌, ◌≢◌, refl, sym, ap, ◌∙◌, Bool, true, false, not,
  Option, none, some, ltb, List, [], ◌∷◌, Text, Text_eq, get_elem?, ◌==◌, if◌then◌else◌, arith, inl,
  inr, Bool-cases,
}
use network_algo.Query.Deduction.{is_node, is_edge, get_node_index, get_edge_index}
use network_algo.Query.Iterator.{Result, ok, err, Fault, ◌>>=◌, Iterator, node_index, edge_index}
use network_algo.Query.Iterator.Candidates.{set_at, put_node, put_edge}

-- What a result has, if it is one.
abbrev pub Ensures : {A : Type 0} → (A → Type 0) → Result A → Type 0
Ensures P (ok a) = P a
Ensures P (err e) = Unit

pub Ensures-bind :
    {A B : Type 0} (P : A → Type 0) (Q : B → Type 0) (m : Result A) (f : A → Result B)
    → Ensures P m
    → ((a : A) → P a → Ensures Q (f a))
    → Ensures Q (m >>= f)
Ensures-bind P Q (ok a) f h k = k a h
Ensures-bind P Q (err e) f h k = tt

-- For a value of which nothing is known.
pub Ensures-any :
    {A B : Type 0} (Q : B → Type 0) (m : Result A) (f : A → Result B)
    → ((a : A) → Ensures Q (f a))
    → Ensures Q (m >>= f)
Ensures-any Q (ok a) f k = k a
Ensures-any Q (err e) f k = tt

-- For a value of which only where it comes from is known.
pub Ensures-at :
    {A B : Type 0} (Q : B → Type 0) (m : Result A) (f : A → Result B)
    → ((a : A) → m ≡ ok a → Ensures Q (f a))
    → Ensures Q (m >>= f)
Ensures-at Q (ok a) f k = k a refl
Ensures-at Q (err e) f k = tt

-- A family of conclusions at once.
Ensures-all :
    {A I : Type 0} (P : I → A → Type 0) (m : Result A)
    → ((i : I) → Ensures (P i) m)
    → Ensures (λ a. (i : I) → P i a) m
Ensures-all P (ok a) h = h
Ensures-all P (err e) h = tt

pub weaken :
    {A : Type 0} {P Q : A → Type 0} (m : Result A)
    → Ensures P m
    → ((a : A) → P a → Q a)
    → Ensures Q m
weaken (ok a) h k = k a h
weaken (err e) h k = tt

-- What stands at a position.
abbrev pub candidate : Iterator → ℕ → Option Text
candidate it id =
    if is_node id then get_elem? it.nodes_id (id / 2) else get_elem? it.edges_id (id / 2)

set_at-other :
    (xs : List Text) (i : ℕ) (x : Text) (j : ℕ)
    → Ensures (λ ys. i ≢ j → get_elem? ys j ≡ get_elem? xs j) (set_at xs i x)
unfolding set_at
set_at-other [] i x j = tt
set_at-other (y ∷ ys) zero x zero = λ h. absurd (h refl)
set_at-other (y ∷ ys) zero x (suc j) = λ h. refl
set_at-other (y ∷ ys) (suc i) x zero =
    Ensures-any (λ zs. suc i ≢ 0 → get_elem? zs 0 ≡ some y) (set_at ys i x) _ λ zs h. refl
set_at-other (y ∷ ys) (suc i) x (suc j) =
    Ensures-bind (λ zs. i ≢ j → get_elem? zs j ≡ get_elem? ys j)
      (λ zs. suc i ≢ suc j → get_elem? zs (suc j) ≡ get_elem? ys j) (set_at ys i x) _
      (set_at-other ys i x j) λ zs e h. e (λ q. h (ap suc q))

-- The sentence and the candidates of other positions.
abbrev pub PutKeeps : ℕ → Iterator → Iterator → Type 0
PutKeeps id it it' =
    (it'.sql ≡ it.sql) × ((other : ℕ) → other ≢ id → candidate it' other ≡ candidate it other)

set_at-others :
    (xs : List Text) (i : ℕ) (x : Text)
    → Ensures (λ ys. (j : ℕ) → i ≢ j → get_elem? ys j ≡ get_elem? xs j) (set_at xs i x)
set_at-others xs i x =
    Ensures-all (λ j ys. i ≢ j → get_elem? ys j ≡ get_elem? xs j) (set_at xs i x)
      (set_at-other xs i x)

not-true : (b : Bool) → not b ≡ true → b ≡ false
not-true true h = cc
not-true false h = refl

-- An index behind its assertion, where an `int` holds it.
asserted :
    (b small : Bool) (n : ℕ)
    → Ensures
        (λ i. (b ≡ true) × (i ≡ n))
        (if b
          then elim (if small then some n else none) [ none ↦ err Fault.overflow | some i ↦ ok i ]
          else err Fault.assertion)
asserted true true n = (refl, refl)
asserted true false n = tt
asserted false small n = tt

pub node_index-is_node :
    (id : ℕ) → Ensures (λ i. (is_node id ≡ true) × (i ≡ id / 2)) (node_index id)
unfolding node_index get_node_index
node_index-is_node id = asserted (is_node id) (ltb id int_limit) (id / 2)

pub edge_index-is_edge :
    (id : ℕ) → Ensures (λ i. (is_node id ≡ false) × (i ≡ id / 2)) (edge_index id)
unfolding edge_index is_edge get_edge_index
edge_index-is_edge id =
    weaken (edge_index id) (asserted (not (is_node id)) (ltb id int_limit) (id / 2))
      λ i h. (not-true (is_node id) h.0, h.1)

parity : (a b : ℕ) → a < 2 → b < 2 → (a == 0) ≡ (b == 0) → a ≡ b
parity a b h k e = ground (arith, e)

-- Two nodes, or two edges, at different positions have different indices.
same_kind : (id other i : ℕ) → is_node id ≡ is_node other → i ≡ id / 2 → other ≢ id → i ≢ other / 2
unfolding is_node
same_kind id other i k e h q =
    omega (arith, parity (id % 2) (other % 2) (omega arith) (omega arith) k, e, q, h)

pub put_node-PutKeeps :
    (it : Iterator) (id : ℕ) (x : Text) → Ensures (PutKeeps id it) (put_node it id x)
unfolding put_node
put_node-PutKeeps it id x =
    Ensures-bind (λ i. (is_node id ≡ true) × (i ≡ id / 2)) (PutKeeps id it) (node_index id) _
      (node_index-is_node id)
      λ i here.
        Ensures-bind (λ ys. (j : ℕ) → i ≢ j → get_elem? ys j ≡ get_elem? it.nodes_id j)
          (PutKeeps id it) (set_at it.nodes_id i x) _ (set_at-others it.nodes_id i x)
          λ ids kept. (
            refl,
            λ other h. elim (Bool-cases (is_node other)) [
              | inl node ↦ ground (
                arith,
                node,
                kept (other / 2) (same_kind id other i (here.0 ∙ sym node) here.1 h),
              )
              | inr edge ↦ ground (arith, edge)
            ],
          )

pub put_edge-PutKeeps :
    (it : Iterator) (id : ℕ) (x : Text) → Ensures (PutKeeps id it) (put_edge it id x)
unfolding put_edge
put_edge-PutKeeps it id x =
    Ensures-bind (λ i. (is_node id ≡ false) × (i ≡ id / 2)) (PutKeeps id it) (edge_index id) _
      (edge_index-is_edge id)
      λ i here.
        Ensures-bind (λ ys. (j : ℕ) → i ≢ j → get_elem? ys j ≡ get_elem? it.edges_id j)
          (PutKeeps id it) (set_at it.edges_id i x) _ (set_at-others it.edges_id i x)
          λ ids kept. (
            refl,
            λ other h. elim (Bool-cases (is_node other)) [
              | inl node ↦ ground (arith, node)
              | inr edge ↦ ground (
                arith,
                edge,
                kept (other / 2) (same_kind id other i (here.0 ∙ sym edge) here.1 h),
              )
            ],
          )

pub Ensures-if :
    {A : Type 0} (P : A → Type 0) (b : Bool) (m n : Result A)
    → Ensures P m
    → Ensures P n
    → Ensures P (if b then m else n)
Ensures-if P true m n h k = h
Ensures-if P false m n h k = k

pub Ensures-test :
    {A : Type 0} (P : A → Type 0) (b : Bool) (m n : Result A)
    → (b ≡ true → Ensures P m)
    → (b ≡ false → Ensures P n)
    → Ensures P (if b then m else n)
Ensures-test P true m n h k = h refl
Ensures-test P false m n h k = k refl
