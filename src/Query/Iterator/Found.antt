-- ===== src/Query/Iterator/Found.antt =====
-- What `hasNodeIdFoundBefore` of include/backend/leveldbgraph_iterator.inc answers.
use network_algo.Prelude.{
  ℕ, zero, suc, ◌≤◌, ◌<◌, ◌≡◌, ◌≢◌, refl, Bool, true, false, List, [], ◌∷◌, Text, text_eq, take,
  length, if◌then◌else◌, arith,
}
use network_algo.Query.Deduction.{DeductionTrait, is_node}
use network_algo.Query.Iterator.{Result, ok, err, ◌>>=◌, Iterator, node_at}
use network_algo.Query.Iterator.Ends.{find_node, has_node_id_found_before}

-- The value of a chain.
bind-value :
    {A B : Type 0} (m : Result A) (f : A → Result B) (b : B)
    → (m >>= f) ≡ ok b
    → (a : A) × (m ≡ ok a) × (f a ≡ ok b)
bind-value (ok a) f b h = (a, refl, h)
bind-value (err e) f b h = absurd cc

length-take : (n : ℕ) (steps : List DeductionTrait) → length (take n steps) ≤ n
length-take zero steps = omega arith
length-take (suc n) [] = omega arith
length-take (suc n) (s ∷ steps) = omega (arith, length-take n steps)

after_one :
    (r : Result ℕ) (most n : ℕ)
    → ((m : ℕ) → r ≡ ok m → m ≤ most)
    → (r >>= λ m. ok (suc m)) ≡ ok n
    → n ≤ suc most
after_one (ok m) most n k h = ground (arith, k m refl, h)
after_one (err e) most n k h = cc

at_step :
    (here : Bool) (known : Result Text) (node : Text) (rest : Result ℕ) (most n : ℕ)
    → (rest ≡ ok n → n ≤ most)
    → (if here then (known >>= λ w. if text_eq w node then ok 0 else rest) else rest) ≡ ok n
    → n ≤ most
at_step true (ok w) node rest most n k h = ground (arith, k, h)
at_step true (err e) node rest most n k h = cc
at_step false known node rest most n k h = k h

found_at_most :
    (it : Iterator) (node : Text) (steps : List DeductionTrait) (n : ℕ)
    → find_node it node steps ≡ ok n
    → n ≤ length steps
unfolding find_node
found_at_most it node [] n h = ground (arith, h)
found_at_most it node (dt ∷ steps) n h =
    at_step (is_node dt.id) (node_at it dt.id) node (find_node it node steps >>= λ m. ok (suc m))
      (suc (length steps)) n
      (after_one (find_node it node steps) (length steps) n (found_at_most it node steps)) h

-- Before a step that is not behind the last, `hasNodeIdFoundBefore` never answers that a node was not
-- found: a search that fails ends at that step, and is compared with the end of all steps.
pub has_node_id_found_before-ne-false :
    (it : Iterator) (node : Text) (ded_idx : ℕ)
    → ded_idx < length it.deduction_steps
    → has_node_id_found_before it node ded_idx ≢ ok false
unfolding has_node_id_found_before
has_node_id_found_before-ne-false it node ded_idx h q =
    let (n, found, answer) =
      bind-value (find_node it node (take ded_idx it.deduction_steps)) _ false q in
    let near = found_at_most it node (take ded_idx it.deduction_steps) n found in
    ground (arith, near, length-take ded_idx it.deduction_steps, answer)
