-- ===== src/TfLabel/Components/Visits.antt =====
-- The nodes that `dfs` and `find_scc` of include/algorithm/tflabel.hpp reach, and that they end.
use network_algo.Prelude.{
  ℕ, zero, suc, ◌+◌, ◌≤◌, ◌<◌, ◌≡◌, refl, ap, ◌∙◌, inl, inr, true, false, not, Option, some, List,
  [], ◌∷◌, ◌==◌, arith, All, Bool-cases,
}
use network_algo.TfLabel.{Array}
use network_algo.TfLabel.Components.{
  Tarjan, enter, lower, visit, visit_all, dfs, search_from, find_scc,
}
use network_algo.TfLabel.Components.Grown.{
  visited, unvisited, Grown, unvisited-Grown, unvisited-less, Grown-trans, lower-Grown, enter-Grown,
  enter-visited, close-some,
}

-- What a call of `dfs` for a node that is not visited does, within a bound on the nodes not visited.
Visits : ℕ → ℕ → (ℕ → Tarjan → Option Tarjan) → Type 0
Visits tot bound call =
    (v : ℕ) (s : Tarjan)
    → v < tot
    → visited s v ≡ false
    → unvisited tot s ≤ bound
    → (s' : Tarjan) × (call v s ≡ some s') × Grown s s' × (visited s' v ≡ true)

visit-Grown :
    (tot bound : ℕ) (call : ℕ → Tarjan → Option Tarjan) (u v : ℕ) (s : Tarjan)
    → Visits tot bound call
    → v < tot
    → unvisited tot s ≤ bound
    → (s' : Tarjan) × (visit call u v s ≡ some s') × Grown s s' × (visited s' v ≡ true)
unfolding visit lower Visits
visit-Grown tot bound call u v s h k b = elim (Bool-cases (s.pre v == 0)) [
  | inl new ↦
      let (s', called, grown, seen) = h v s k (ground (arith, new)) b in
      let bound_v = s'.lowlink v in
      (
        lower u bound_v s',
        ground (arith, new, called),
        Grown-trans s s' (lower u bound_v s') grown (lower-Grown u bound_v s'),
        seen,
      )
  | inr old ↦ elim (Bool-cases (s.sccno v == 0)) [
    | inl open_node ↦ (
      lower u (s.pre v) s,
      ground (arith, old, open_node),
      lower-Grown u (s.pre v) s,
      ground (arith, old),
    )
    | inr closed ↦ (
      s,
      ground (arith, old, closed),
      record { stays = λ x w. w; pushed = []; stacked = refl },
      ground (arith, old),
    )
  ]
]

visit_all-Grown :
    (tot bound : ℕ) (call : ℕ → Tarjan → Option Tarjan) (u : ℕ) (vs : List ℕ) (s : Tarjan)
    → Visits tot bound call
    → All (λ v. v < tot) vs
    → unvisited tot s ≤ bound
    → (s' : Tarjan) × (visit_all call u vs s ≡ some s') × Grown s s'
unfolding visit_all
visit_all-Grown tot bound call u [] s h k b =
    (s, refl, record { stays = λ x w. w; pushed = []; stacked = refl })
visit_all-Grown tot bound call u (v ∷ vs) s h k b =
    let (s₁, first, grown, seen) = visit-Grown tot bound call u v s h k.0 b in
    let fewer = unvisited-Grown tot s s₁ grown.stays in
    let (s₂, rest, more) = visit_all-Grown tot bound call u vs s₁ h k.1 (omega (arith, fewer, b)) in
    (s₂, ground (arith, first, rest), Grown-trans s s₁ s₂ grown more)

dfs-Visits :
    (tot : ℕ) (gg : Array (List ℕ)) (depth : ℕ)
    → ((x : ℕ) → All (λ y. y < tot) (gg x))
    → Visits tot depth (dfs gg depth)
unfolding dfs Visits enter
dfs-Visits tot gg zero graph u s h new b = absurd (
    omega (
      arith,
      unvisited-less tot u s (enter u s) (enter-Grown u s).stays h new (enter-visited u s),
      b,
    ))
dfs-Visits tot gg (suc depth) graph u s h new b =
    let s₁ = enter u s in
    let entered = enter-Grown u s in
    let less = unvisited-less tot u s s₁ entered.stays h new (enter-visited u s) in
    let (s₂, edges, grown) =
      visit_all-Grown tot depth (dfs gg depth) u (gg u) s₁ (dfs-Visits tot gg depth graph) (graph u)
        (omega (arith, less, b)) in
    let (s₃, closed, same, (kept, left)) = close-some u grown.pushed s.stack s₂ grown.stacked in
    (
      s₃,
      ground (arith, edges, closed),
      record {
        stays =
            λ x w. ap (λ (p : Array ℕ). not (p x == 0)) same ∙ grown.stays x (entered.stays x w);
        pushed = kept;
        stacked = left;
      },
      ap (λ (p : Array ℕ). not (p u == 0)) same ∙ grown.stays u (enter-visited u s),
    )

one_more :
    (s : Tarjan) (i : ℕ)
    → ((x : ℕ) → x < i → visited s x ≡ true)
    → visited s i ≡ true
    → (x : ℕ) → x < suc i
    → visited s x ≡ true
one_more s i before now x h = elim (Bool-cases (i == x)) [
  | inl equal ↦ let at : x ≡ i = ground (arith, equal) in ap (visited s) at ∙ now
  | inr other ↦ before x (ground (arith, other, h))
]

unvisited-most : (n : ℕ) (s : Tarjan) → unvisited n s ≤ n
unfolding unvisited
unvisited-most zero s = omega arith
unvisited-most (suc n) s = ground (arith, unvisited-most n s)

search_from-Grown :
    (tot : ℕ) (gg : Array (List ℕ)) (rounds i : ℕ) (s : Tarjan)
    → ((x : ℕ) → All (λ y. y < tot) (gg x))
    → i + rounds ≡ tot
    → unvisited tot s ≤ tot
    → ((x : ℕ) → x < i → visited s x ≡ true)
    → (s' : Tarjan) × (search_from gg tot rounds i s ≡ some s')
      × ((x : ℕ) → x < tot → visited s' x ≡ true)
unfolding search_from Visits
search_from-Grown tot gg zero i s graph e b seen = (s, refl, λ x h. seen x (omega (arith, e, h)))
search_from-Grown tot gg (suc rounds) i s graph e b seen = elim (Bool-cases (s.pre i == 0)) [
  | inl new ↦
      let (s₁, called, called_grown, seen_i) =
        dfs-Visits tot gg tot graph i s (omega (arith, e)) (ground (arith, new)) b in
      let (s₂, ends, all_seen) =
        search_from-Grown tot gg rounds (suc i) s₁ graph (omega (arith, e))
          (omega (arith, unvisited-Grown tot s s₁ called_grown.stays, b))
          (one_more s₁ i (λ x h. called_grown.stays x (seen x h)) seen_i) in
      (s₂, ground (arith, new, called, ends), all_seen)
  | inr old ↦
      let (s₂, ends, all_seen) =
        search_from-Grown tot gg rounds (suc i) s graph (omega (arith, e)) b
          (one_more s i seen (ground (arith, old))) in
      (s₂, ground (arith, old, ends), all_seen)
]

-- On every graph whose edges lead to nodes of the graph, `find_scc` ends: no recursion is deeper than
-- there are nodes, and the stack is never empty where its top is read. Every node has then been
-- visited.
pub find_scc-visited :
    (tot : ℕ) (gg : Array (List ℕ))
    → ((x : ℕ) → All (λ y. y < tot) (gg x))
    → (s : Tarjan) × (find_scc gg tot ≡ some s) × ((x : ℕ) → x < tot → visited s x ≡ true)
unfolding find_scc
find_scc-visited tot gg graph =
    search_from-Grown tot gg tot 0 _ graph (omega arith) (unvisited-most tot _)
      (λ x h. absurd (omega arith))
