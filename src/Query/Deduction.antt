-- ===== src/Query/Deduction.antt =====
-- include/backend/leveldbgraph_deduction.inc: in which order the nodes and edges of a pattern are
-- determined. Position 0 is the first node, 1 the first edge, 2 the second node. `none` is the
-- exception of `at` out of range, or an `int` that overflows or is narrowed.
pub mod Positions
pub mod Order
pub mod Sequence
mod Tests
use network_algo.Prelude.{
  int_limit, ℕ, zero, suc, ◌+◌, ◌-◌, ◌*◌, ◌/◌, ◌%◌, ◌^◌, Bool, true, false, Option, none, some,
  List, [], ◌∷◌, ◌++◌, Text, text_eq, codes, length, get_elem?, ltb, ◌==◌, if◌then◌else◌, not, ◌&&◌,
  ◌||◌,
}
use network_algo.Dsl.Syntax.{
  Relationship, Property, Properties, NodeType, EdgeType, SelectSentence, GraphSqlSentence,
}
use network_algo.MruMap.{size_mod}

-- A position is a `size_t` that is narrowed to an `int`, which leaves its parity: it is taken modulo 2^32, and the
-- remainder of an odd negative number is not 0.
unfoldable pub is_node : ℕ → Bool
is_node idx = idx % 2 == 0

unfoldable pub is_edge : ℕ → Bool
unfolding is_node
is_edge idx = not (is_node idx)

-- The half of a position as an `int`. `none` is a position that no `int` holds.
unfoldable pub get_node_index : ℕ → Option ℕ
get_node_index idx = if ltb idx int_limit then some (idx / 2) else none

unfoldable pub get_edge_index : ℕ → Option ℕ
get_edge_index idx = if ltb idx int_limit then some (idx / 2) else none

-- `none` is an `int` that overflows.
unfoldable pub node_index_to_global_index : ℕ → Option ℕ
node_index_to_global_index nodeidx =
    if ltb (nodeidx * 2) int_limit then some (nodeidx * 2) else none

unfoldable pub edge_index_to_global_index : ℕ → Option ℕ
edge_index_to_global_index edgeidx =
    if ltb (edgeidx * 2 + 1) int_limit then some (edgeidx * 2 + 1) else none

pub data ConstraintType : Type 0 where
  left_constrained right_constrained both_constrained not_constrained : ConstraintType

pub record DeductionTrait : Type 0 where
  pub id : ℕ
  pub constraint : ConstraintType
  pub direct : Bool

unfoldable pub is_left_constrained : ConstraintType → Bool
is_left_constrained ConstraintType.left_constrained = true
is_left_constrained ConstraintType.right_constrained = false
is_left_constrained ConstraintType.both_constrained = true
is_left_constrained ConstraintType.not_constrained = false

unfoldable pub is_right_constrained : ConstraintType → Bool
is_right_constrained ConstraintType.left_constrained = false
is_right_constrained ConstraintType.right_constrained = true
is_right_constrained ConstraintType.both_constrained = true
is_right_constrained ConstraintType.not_constrained = false

abbrev is_equal : Relationship → Bool
is_equal Relationship.equal = true
is_equal Relationship.greater = false
is_equal Relationship.smaller = false

unfoldable pub acquired_directly : Properties → Bool
acquired_directly [] = false
acquired_directly (item ∷ prop) =
    let rest = acquired_directly prop in
    if text_eq item.name (codes "id") && is_equal item.relationship then true else rest

abbrev drop_last : Text → Text
drop_last [] = []
drop_last (c ∷ []) = []
drop_last (c ∷ d ∷ s) = c ∷ drop_last (d ∷ s)

-- `value.substr(1, value.size() - 2)`, which for a value of one character is the empty string, and
-- for an empty one throws.
unfoldable pub unquote : Text → Option Text
unquote [] = none
unquote (c ∷ s) = some (drop_last s)

unfoldable pub get_id_of : Properties → Option Text
unfolding unquote
get_id_of [] = some []
get_id_of (p ∷ prop) =
    let rest = get_id_of prop in if text_eq p.name (codes "id") then unquote p.value else rest

-- The left bound of a gap, an `int`. `none` is -1.
abbrev pub Bound : Type 0
Bound = Option ℕ

-- `leftBound + 1`
abbrev pub first_id : Bound → ℕ
first_id none = 0
first_id (some l) = l + 1

abbrev is_minus_one : Bound → Bool
is_minus_one none = true
is_minus_one (some l) = false

-- `rightBound - leftBound - 1` as `size_t`. `none` is a bound that no `int` holds, or a difference that overflows
-- an `int`.
unfoldable pub middle_count : Bound → ℕ → Option ℕ
middle_count l r =
    if ltb r int_limit && ltb (first_id l) (int_limit + 1) && ltb (r + 1 - first_id l) int_limit
    then some ((r + size_mod - first_id l) % size_mod)
    else none

unfoldable pub current_id : Bound → ℕ → ℕ → ℕ
current_id l r j = if j % 2 == 0 then first_id l + j / 2 else r - j / 2 - 1

-- The two corrections, for the ends of the pattern.
unfoldable pub without_left : ConstraintType → ConstraintType
without_left ConstraintType.left_constrained = ConstraintType.not_constrained
without_left ConstraintType.both_constrained = ConstraintType.right_constrained
without_left ConstraintType.right_constrained = ConstraintType.right_constrained
without_left ConstraintType.not_constrained = ConstraintType.not_constrained

unfoldable pub without_right : ConstraintType → ConstraintType
without_right ConstraintType.right_constrained = ConstraintType.not_constrained
without_right ConstraintType.both_constrained = ConstraintType.left_constrained
without_right ConstraintType.left_constrained = ConstraintType.left_constrained
without_right ConstraintType.not_constrained = ConstraintType.not_constrained

unfoldable pub step_constraint : Bound → ℕ → ℕ → ℕ → ℕ → ConstraintType
unfolding without_left without_right
step_constraint l r max_id middle j =
    let inner =
      if j == middle - 1
      then ConstraintType.both_constrained
      else if j % 2 == 0
      then ConstraintType.left_constrained
      else ConstraintType.right_constrained in
    let at_left = if is_minus_one l && j == 0 then without_left inner else inner in
    if ltb max_id r && (j == 1 || middle == 1) then without_right at_left else at_left

-- The loop of `addToDeductionSteps` from `j` on, for the given number of rounds.
unfoldable pub add_loop : Bound → ℕ → ℕ → ℕ → ℕ → ℕ → List DeductionTrait
unfolding current_id step_constraint
add_loop l r max_id middle j zero = []
add_loop l r max_id middle j (suc rounds) =
    record {
      id = current_id l r j;
      constraint = step_constraint l r max_id middle j;
      direct = false;
    }
    ∷ add_loop l r max_id middle (suc j) rounds

-- What `addToDeductionSteps` appends. Its bounds are narrowed to `int`, and so is `maxId`; `none` is one that
-- no `int` holds.
unfoldable pub add_to_deduction_steps : Bound → ℕ → ℕ → Option (List DeductionTrait)
unfolding middle_count add_loop
add_to_deduction_steps l r max_id = elim (middle_count l r) [
  | none ↦ none
  | some middle ↦ if ltb max_id int_limit then some (add_loop l r max_id middle 0 middle) else none
]

-- `at` throws for the position 2^31, which is narrowed to a negative number; the loop goes up and ends there.
unfoldable pub could_acquire_directly : SelectSentence → ℕ → Option Bool
unfolding is_node get_node_index get_edge_index acquired_directly
could_acquire_directly s i =
    if is_node i
    then elim (get_node_index i) [
      | none ↦ none
      | some k ↦ elim (get_elem? s.nodes k) [
        | none ↦ none
        | some node ↦ some (acquired_directly node.properties)
      ]
    ]
    else elim (get_edge_index i) [
      | none ↦ none
      | some k ↦ elim (get_elem? s.edges k) [
        | none ↦ none
        | some edge ↦ some (acquired_directly edge.properties)
      ]
    ]

-- The constraint of a position that is acquired directly, from the last one that is.
abbrev pub direct_constraint : Bound → ℕ → ConstraintType
direct_constraint none i = ConstraintType.not_constrained
direct_constraint (some last) i =
    if last + 1 == i then ConstraintType.left_constrained else ConstraintType.not_constrained

-- The first loop of `generateDeductionSteps` from `i` on; `last` is the id at the end of `result`.
unfoldable pub direct_loop : SelectSentence → Bound → ℕ → ℕ → Option (List DeductionTrait)
unfolding could_acquire_directly
direct_loop s last i zero = some []
direct_loop s last i (suc rounds) =
    let with_this = direct_loop s (some i) (suc i) rounds in
    let without_this = direct_loop s last (suc i) rounds in
    elim (could_acquire_directly s i) [
      | none ↦ none
      | some false ↦ without_this
      | some true ↦ elim with_this [
        | none ↦ none
        | some steps ↦
            some (record { id = i; constraint = direct_constraint last i; direct = true } ∷ steps)
      ]
    ]

-- The second loop, over the directly acquired positions from behind `prev` on, and the last gap.
unfoldable pub fill_gaps : ℕ → Bound → List DeductionTrait → Option (List DeductionTrait)
unfolding add_to_deduction_steps
fill_gaps count prev [] = add_to_deduction_steps prev count (count - 1)
fill_gaps count prev (now ∷ later) =
    let rest = fill_gaps count (some now.id) later in
    elim (add_to_deduction_steps prev now.id (count - 1)) [
      | none ↦ none
      | some gap ↦ elim rest [ none ↦ none | some further ↦ some (gap ++ further) ]
    ]

-- A pattern without nodes wraps the bound of the first loop around and throws at once.
unfoldable pub generate_deduction_steps : GraphSqlSentence → Option (List DeductionTrait)
unfolding direct_loop fill_gaps
generate_deduction_steps q =
    let count = length q.first.nodes * 2 - 1 in
    elim q.first.nodes [
      | [] ↦ none
      | node ∷ nodes ↦ elim (direct_loop q.first none 0 count) [
        | none ↦ none
        | some direct ↦ elim (fill_gaps count none direct) [
          | none ↦ none
          | some filled ↦ some (direct ++ filled)
        ]
      ]
    ]
