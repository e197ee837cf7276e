-- ===== src/Query/Deduction/Positions.antt =====
-- The steps of include/backend/leveldbgraph_deduction.inc determine each position of a pattern once.
use network_algo.Prelude.{
  int_limit, ℕ, zero, suc, ◌+◌, ◌-◌, ◌*◌, ◌/◌, ◌%◌, ◌≤◌, ◌<◌, ◌≡◌, refl, sym, ap, ◌∙◌, Bool, true,
  false, none, some, List, [], ◌∷◌, ◌++◌, length, get_elem?, ltb, leb, ◌==◌, if◌then◌else◌, ◌&&◌,
  arith, Bool-cases, ==_iff, List-cases, inl, inr,
}
use network_algo.Dsl.Syntax.{SelectSentence, GraphSqlSentence}
use network_algo.MruMap.{size_mod}
use network_algo.Query.Deduction.{
  acquired_directly, DeductionTrait, Bound, first_id, is_node, get_node_index, get_edge_index,
  middle_count, current_id, add_loop, add_to_deduction_steps, could_acquire_directly,
  direct_constraint, direct_loop, fill_gaps, generate_deduction_steps,
}

-- How often a position is determined.
abbrev pub occurs : ℕ → List DeductionTrait → ℕ
occurs i [] = 0
occurs i (d ∷ ds) = (if d.id == i then 1 else 0) + occurs i ds

pub occurs-append :
    (i : ℕ) (xs ys : List DeductionTrait) → occurs i (xs ++ ys) ≡ occurs i xs + occurs i ys
occurs-append i [] ys = omega arith
occurs-append i (x ∷ xs) ys = omega (arith, occurs-append i xs ys)

-- One, if a position is from `low` to below `high`.
abbrev pub within : ℕ → ℕ → ℕ → ℕ
within low high i = if leb low i && ltb i high then 1 else 0

within-empty : (a b i : ℕ) → b ≤ a → within a b i ≡ 0
within-empty a b i h = ground arith

within-first : (a b i : ℕ) → a < b → within a b i ≡ (if a == i then 1 else 0) + within (suc a) b i
within-first a b i h = ground arith

within-last : (a b i : ℕ) → a ≤ b → within a (suc b) i ≡ (if b == i then 1 else 0) + within a b i
within-last a b i h = ground arith

-- The position of a round: from the left in even rounds, from the right in odd ones.
pub current_id-even :
    (l : Bound) (r j : ℕ) → (j % 2 == 0) ≡ true → current_id l r j ≡ first_id l + j / 2
unfolding current_id
current_id-even l r j even = rw even refl

pub current_id-odd : (l : Bound) (r j : ℕ) → (j % 2 == 0) ≡ false → current_id l r j ≡ r - j / 2 - 1
unfolding current_id
current_id-odd l r j odd = rw odd refl

odd_remainder : (j : ℕ) → (j % 2 == 0) ≡ false → j % 2 ≡ 1
odd_remainder j odd = ground arith

-- What is left of a gap is the middle of it.
pub occurs-add_loop :
    (i : ℕ) (l : Bound) (r max_id middle j rounds : ℕ)
    → first_id l + j + rounds ≡ r
    → occurs i (add_loop l r max_id middle j rounds)
      ≡ within (first_id l + (j + 1) / 2) (r - j / 2) i
unfolding add_loop
occurs-add_loop i l r max_id middle j zero h = sym (within-empty _ _ i (omega arith))
occurs-add_loop i l r max_id middle j (suc rounds) h =
    let rest : occurs i (add_loop l r max_id middle (suc j) rounds)
        ≡ within (first_id l + (suc j + 1) / 2) (r - suc j / 2) i =
      occurs-add_loop i l r max_id middle (suc j) rounds (omega arith) in
    elim (Bool-cases (j % 2 == 0)) [
      | inl even ↦
          let half : j % 2 ≡ 0 = (==_iff (j % 2) 0).0 even in
          ap (λ n. n + occurs i (add_loop l r max_id middle (suc j) rounds))
            (ap (λ c. if c == i then 1 else 0) (current_id-even l r j even ∙ omega (arith, half)))
          ∙ ap (λ n. (if first_id l + (j + 1) / 2 == i then 1 else 0) + n)
              (rest
                ∙ ap (λ c. within c (r - suc j / 2) i) (omega (arith, half))
                ∙ ap (λ c. within (suc (first_id l + (j + 1) / 2)) c i) (omega (arith, half)))
          ∙ sym (within-first (first_id l + (j + 1) / 2) (r - j / 2) i (omega (arith, half)))
      | inr odd ↦
          let half = odd_remainder j odd in
          ap (λ n. n + occurs i (add_loop l r max_id middle (suc j) rounds))
            (ap (λ c. if c == i then 1 else 0) (current_id-odd l r j odd))
          ∙ ap (λ n. (if r - j / 2 - 1 == i then 1 else 0) + n)
              (rest
                ∙ ap (λ c. within c (r - suc j / 2) i) (omega (arith, half))
                ∙ ap (λ c. within (first_id l + (j + 1) / 2) c i) (omega (arith, half)))
          ∙ sym (within-last (first_id l + (j + 1) / 2) (r - j / 2 - 1) i (omega (arith, half)))
          ∙ ap (λ c. within (first_id l + (j + 1) / 2) c i) (omega (arith, half))
    ]

-- A gap that does not overflow is filled.
pub occurs-add_to_deduction_steps :
    (l : Bound) (r max_id : ℕ)
    → first_id l ≤ r
    → r + 1 < int_limit
    → max_id < int_limit
    → (ds : List DeductionTrait) × (add_to_deduction_steps l r max_id ≡ some ds)
      × ((i : ℕ) → occurs i ds ≡ within (first_id l) r i)
unfolding add_to_deduction_steps middle_count
occurs-add_to_deduction_steps l r max_id h small top =
    let middle = (r + size_mod - first_id l) % size_mod in
    (
      add_loop l r max_id middle 0 middle,
      ground (arith, h, small, top),
      λ i. occurs-add_loop i l r max_id middle 0 middle (omega (arith, h, small)) ∙ ground arith,
    )

-- The positions acquired directly increase from behind a bound to below the count.
abbrev pub Ascending : ℕ → Bound → List DeductionTrait → Type 0
Ascending count prev [] = first_id prev ≤ count
Ascending count prev (d ∷ ds) =
    (first_id prev ≤ d.id) × (d.id < count) × (d.direct ≡ true) × Ascending count (some d.id) ds

pub occurs-fill_gaps :
    (count : ℕ) (prev : Bound) (ds : List DeductionTrait)
    → count + 1 < int_limit
    → Ascending count prev ds
    → (fs : List DeductionTrait) × (fill_gaps count prev ds ≡ some fs)
      × ((i : ℕ) → occurs i fs + occurs i ds ≡ within (first_id prev) count i)
unfolding fill_gaps
occurs-fill_gaps count prev [] small a =
    let (gap, made, inside) =
      occurs-add_to_deduction_steps prev count (count - 1) a small (omega (arith, small)) in
    (gap, made, λ i. omega (arith, inside i))
occurs-fill_gaps count prev (d ∷ ds) small a =
    let (gap, made, inside) =
      occurs-add_to_deduction_steps prev d.id (count - 1) a.0 (omega (arith, a.1, small))
        (omega (arith, small)) in
    let (further, filled, behind) = occurs-fill_gaps count (some d.id) ds small a.3 in
    (
      gap ++ further,
      ground (arith, made, filled),
      λ i. ground (arith, occurs-append i gap further, inside i, behind i, a.0, a.1),
    )

get_elem?-in_range :
    {A : Type 0} (xs : List A) (i : ℕ) → i < length xs → (x : A) × (get_elem? xs i ≡ some x)
get_elem?-in_range [] i h = absurd (omega arith)
get_elem?-in_range (x ∷ xs) zero h = (x, refl)
get_elem?-in_range (x ∷ xs) (suc i) h = get_elem?-in_range xs i (omega arith)

-- A pattern has one node more than edges, as the parser gives it.
abbrev pub IsChain : SelectSentence → Type 0
IsChain s = length s.nodes ≡ suc (length s.edges)

could_acquire_directly-in_range :
    (s : SelectSentence) (i : ℕ)
    → IsChain s
    → i < length s.nodes * 2 - 1
    → i < int_limit
    → (b : Bool) × (could_acquire_directly s i ≡ some b)
unfolding could_acquire_directly is_node get_node_index get_edge_index
could_acquire_directly-in_range s i chain h small = elim (Bool-cases (i % 2 == 0)) [
  | inl even ↦
      let (node, q) = get_elem?-in_range s.nodes (i / 2) (omega arith) in
      (acquired_directly node.properties, ground (arith, even, q, small))
  | inr odd ↦
      let (edge, q) = get_elem?-in_range s.edges (i / 2) (omega (arith, odd_remainder i odd)) in
      (acquired_directly edge.properties, ground (arith, odd, q, small))
]

Ascending-weaken :
    (count : ℕ) (a b : Bound) (ds : List DeductionTrait)
    → first_id a ≤ first_id b
    → Ascending count b ds
    → Ascending count a ds
Ascending-weaken count a b [] h d = omega arith
Ascending-weaken count a b (x ∷ ds) h d = (omega (arith, d.0), d.1, d.2, d.3)

direct_loop-here :
    (s : SelectSentence) (last : Bound) (i rounds : ℕ) (ds : List DeductionTrait)
    → could_acquire_directly s i ≡ some true
    → direct_loop s (some i) (suc i) rounds ≡ some ds
    → direct_loop s last i (suc rounds)
      ≡ some (record { id = i; constraint = direct_constraint last i; direct = true } ∷ ds)
unfolding direct_loop
direct_loop-here s last i rounds ds here done = ground (arith, here, done)

direct_loop-other :
    (s : SelectSentence) (last : Bound) (i rounds : ℕ) (ds : List DeductionTrait)
    → could_acquire_directly s i ≡ some false
    → direct_loop s last (suc i) rounds ≡ some ds
    → direct_loop s last i (suc rounds) ≡ some ds
unfolding direct_loop
direct_loop-other s last i rounds ds other done = ground (arith, other, done)

pub direct_loop-Ascending :
    (s : SelectSentence) (last prev : Bound) (i rounds : ℕ)
    → IsChain s
    → length s.nodes * 2 < int_limit
    → i + rounds ≡ length s.nodes * 2 - 1
    → first_id prev ≤ i
    → (ds : List DeductionTrait) × (direct_loop s last i rounds ≡ some ds)
      × Ascending (length s.nodes * 2 - 1) prev ds
unfolding direct_loop
direct_loop-Ascending s last prev i zero chain small h low = ([], refl, omega arith)
direct_loop-Ascending s last prev i (suc rounds) chain small h low =
    let (b, q) =
      could_acquire_directly-in_range s i chain (omega arith) (omega (arith, small, h)) in
    elim (Bool-cases b) [
      | inl here ↦
          let (ds, done, up) =
            direct_loop-Ascending s (some i) (some i) (suc i) rounds chain small (omega arith)
              (omega arith) in
          (
            record { id = i; constraint = direct_constraint last i; direct = true } ∷ ds,
            direct_loop-here s last i rounds ds (q ∙ ap some here) done,
            (low, omega arith, refl, up),
          )
      | inr other ↦
          let (ds, done, up) =
            direct_loop-Ascending s last prev (suc i) rounds chain small (omega arith)
              (omega arith) in
          (ds, direct_loop-other s last i rounds ds (q ∙ ap some other) done, up)
    ]

pub generate_deduction_steps-direct :
    (q : GraphSqlSentence) (ds fs : List DeductionTrait)
    → IsChain q.first
    → direct_loop q.first none 0 (length q.first.nodes * 2 - 1) ≡ some ds
    → fill_gaps (length q.first.nodes * 2 - 1) none ds ≡ some fs
    → generate_deduction_steps q ≡ some (ds ++ fs)
unfolding generate_deduction_steps
generate_deduction_steps-direct q ds fs chain done filled = elim (List-cases q.first.nodes) [
  | inl nothing ↦ absurd (omega (arith, ap length nothing))
  | inr (node, nodes, some_nodes) ↦ ground (arith, some_nodes, done, filled)
]

-- For a pattern with one node more than edges, and fewer than 2^30 nodes, no int overflows, the deduction
-- steps are found, and they determine each position of the pattern once and no other position.
pub generate_deduction_steps-positions :
    (q : GraphSqlSentence)
    → IsChain q.first
    → length q.first.nodes * 2 < int_limit
    → (steps : List DeductionTrait) × (generate_deduction_steps q ≡ some steps)
      × ((i : ℕ) → occurs i steps ≡ (if ltb i (length q.first.nodes * 2 - 1) then 1 else 0))
generate_deduction_steps-positions q chain small =
    let count = length q.first.nodes * 2 - 1 in
    let (ds, done, up) =
      direct_loop-Ascending q.first none none 0 count chain small (omega arith) (omega arith) in
    let (fs, filled, inside) = occurs-fill_gaps count none ds (omega (arith, small, chain)) up in
    (
      ds ++ fs,
      generate_deduction_steps-direct q ds fs chain done filled,
      λ i. occurs-append i ds fs ∙ ground (arith, inside i),
    )
