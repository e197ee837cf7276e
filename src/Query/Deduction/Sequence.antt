-- ===== src/Query/Deduction/Sequence.antt =====
-- The steps that include/backend/leveldbgraph_deduction.inc gives for a pattern are in order.
use network_algo.Prelude.{
  int_limit, ℕ, ◌+◌, ◌-◌, ◌*◌, ◌%◌, ◌≤◌, ◌<◌, ◌≡◌, refl, ap, ◌∙◌, subst, none, some, List, [], ◌∷◌,
  ◌++◌, append-nil, length, arith,
}
use network_algo.Dsl.Syntax.{GraphSqlSentence}
use network_algo.MruMap.{size_mod}
use network_algo.Query.Deduction.{
  DeductionTrait, Bound, first_id, add_loop, add_to_deduction_steps, middle_count, fill_gaps,
  generate_deduction_steps,
}
use network_algo.Query.Deduction.Positions.{
  occurs, occurs-add_to_deduction_steps, occurs-fill_gaps, Ascending, IsChain,
  direct_loop-Ascending, generate_deduction_steps-direct,
}
use network_algo.Query.Deduction.Order.{IsOrdered, add_loop-IsOrdered}

gap-IsOrdered :
    (l : Bound) (r max_id : ℕ) (gap later : List DeductionTrait)
    → first_id l ≤ r
    → r + 1 < int_limit
    → max_id < int_limit
    → add_to_deduction_steps l r max_id ≡ some gap
    → ((i : ℕ) → i ≤ r → occurs i later ≡ 0)
    → IsOrdered later
    → IsOrdered (gap ++ later)
unfolding add_to_deduction_steps middle_count
gap-IsOrdered l r max_id gap later h small top made behind o =
    let middle = (r + size_mod - first_id l) % size_mod in
    let start : 0 + middle ≡ middle = omega arith in
    let same : add_loop l r max_id (0 + middle) 0 middle ≡ gap =
      ap (λ (m : ℕ). add_loop l r max_id m 0 middle) start ∙ ground (arith, h, small, top, made) in
    subst (λ (ds : List DeductionTrait). IsOrdered (ds ++ later)) same
      (add_loop-IsOrdered l r max_id 0 middle later (omega (arith, h, small)) behind o)

fill_gaps-IsOrdered :
    (count : ℕ) (prev : Bound) (ds fs : List DeductionTrait)
    → count + 1 < int_limit
    → Ascending count prev ds
    → fill_gaps count prev ds ≡ some fs
    → IsOrdered fs
unfolding fill_gaps
fill_gaps-IsOrdered count prev [] fs small a filled = subst IsOrdered (append-nil fs) (
    gap-IsOrdered prev count (count - 1) fs [] a small (omega (arith, small)) filled (λ i le. refl)
      tt)
fill_gaps-IsOrdered count prev (d ∷ ds) fs small a filled =
    let low : d.id + 1 < int_limit = omega (arith, a.1, small) in
    let top : count - 1 < int_limit = omega (arith, small) in
    let (gap, made, inside) = occurs-add_to_deduction_steps prev d.id (count - 1) a.0 low top in
    let (further, rest, behind) = occurs-fill_gaps count (some d.id) ds small a.3 in
    let same : gap ++ further ≡ fs = ground (arith, made, rest, filled) in
    subst IsOrdered same (
      gap-IsOrdered prev d.id (count - 1) gap further a.0 low top made
        (λ i le. ground (arith, behind i, le))
        (fill_gaps-IsOrdered count (some d.id) ds further small a.3 rest))

-- Steps that are acquired directly come first.
direct-IsOrdered :
    (count : ℕ) (prev : Bound) (ds fs : List DeductionTrait)
    → Ascending count prev ds
    → IsOrdered fs
    → IsOrdered (ds ++ fs)
direct-IsOrdered count prev [] fs a o = o
direct-IsOrdered count prev (d ∷ ds) fs a o =
    ((λ given. absurd (ground (arith, a.2, given))), direct-IsOrdered count (some d.id) ds fs a.3 o)

-- For a pattern with one node more than edges, and fewer than 2^30 nodes, the deduction steps that are found are in
-- order.
pub generate_deduction_steps-IsOrdered :
    (q : GraphSqlSentence) (steps : List DeductionTrait)
    → IsChain q.first
    → length q.first.nodes * 2 < int_limit
    → generate_deduction_steps q ≡ some steps
    → IsOrdered steps
generate_deduction_steps-IsOrdered q steps chain small found =
    let count = length q.first.nodes * 2 - 1 in
    let below : count + 1 < int_limit = omega (arith, small, chain) in
    let (ds, done, up) =
      direct_loop-Ascending q.first none none 0 count chain small (omega arith) (omega arith) in
    let (fs, filled, inside) = occurs-fill_gaps count none ds below up in
    let all : generate_deduction_steps q ≡ some (ds ++ fs) =
      generate_deduction_steps-direct q ds fs chain done filled in
    let same : ds ++ fs ≡ steps = ground (arith, all, found) in
    subst IsOrdered same
      (direct-IsOrdered count none ds fs up (fill_gaps-IsOrdered count none ds fs below up filled))
