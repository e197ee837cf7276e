-- ===== src/TfLabel/Toposort/Order.antt =====
-- What `toposort` of include/algorithm/tflabel.hpp computes: its levels, and when it ends.
use network_algo.Prelude.{
  ℕ, zero, suc, ◌+◌, ◌≤◌, ◌<◌, ◌≡◌, refl, ap, ◌⊎◌, inl, inr, Bool, true, false, some, [], ◌==◌,
  arith, Bool-cases,
}
use network_algo.TfLabel.{Array}
use network_algo.TfLabel.Toposort.{Targets, Search, count_degrees, enqueue_sources, drain, toposort}
use network_algo.TfLabel.Toposort.Sum.{occ, rest_sum, rest_sum-zero}
use network_algo.TfLabel.Toposort.Levels.{IsGraph, HasEdge, Invariant, drain-Invariant}
use network_algo.TfLabel.Toposort.Start.{start-Invariant}

all-left : (n : ℕ) → rest_sum n (λ x. false) (λ i. 1) ≡ n
all-left zero = refl
all-left (suc n) = omega (arith, all-left n)

-- A numbering of the nodes along which every edge climbs: the graph has no cycles.
pub record Ranked (tot : ℕ) (g : Targets) : Type 0 where
  pub height : ℕ → ℕ
  pub climbs : (x y : ℕ) → x < tot → HasEdge tot g x y → height x < height y

-- The result of a search that has taken every node.
pub record Levelled (tot : ℕ) (g : Targets) (tln : Array ℕ) : Type 0 where
  -- Every node has a level.
  pub positive : (y : ℕ) → y < tot → 1 ≤ tln y
  -- Each edge climbs.
  pub climbs : (x y : ℕ) → x < tot → HasEdge tot g x y → tln x < tln y
  -- No level is higher than it has to be.
  pub least :
      (y : ℕ)
      → y < tot
      → (tln y ≡ 1) ⊎ ((x : ℕ) × (x < tot) × HasEdge tot g x y × (tln y ≡ tln x + 1))

module _ (tot : ℕ) (g : Targets) where
  -- What the loop of `toposort` begins with.
  abbrev pub started : Search
  started =
      enqueue_sources tot 0
        (record { deg = count_degrees g tot 0 (λ i. 0); tln = λ i. 0; queue = []; maxx = 0 })

  -- The result of `toposort`, its invariant included.
  pub run :
      IsGraph tot g
      → (log2 : ℕ → ℕ)
      → (done : ℕ → Bool) × (s : Search) × (drain g tot started ≡ some s)
        × (toposort log2 tot g ≡ some (s, log2 s.maxx + 1))
        × Invariant tot g done s
        × (s.queue ≡ [])
  unfolding toposort
  run graph log2 =
      let (done, s, ends, v, e) =
        drain-Invariant tot g tot (λ x. false) started graph (start-Invariant tot g)
          (omega (arith, all-left tot)) in
      (done, s, ends, ground (arith, ends), v, e)

  -- A node is done once all nodes of a lower height are.
  done-below :
      (r : Ranked tot g)
      → (done : ℕ → Bool) → (s : Search) → Invariant tot g done s
      → s.queue ≡ []
      → (n : ℕ) → (y : ℕ) → y < tot
      → r.height y < n
      → done y ≡ true
  done-below r done s v e zero y u h = absurd (omega arith)
  done-below r done s v e (suc n) y u h = elim (Bool-cases (done y)) [
    | inl yes_done ↦ yes_done
    | inr not_yet ↦
        let before : (i : ℕ) → i < tot → done i ≡ false → occ y (g i) ≡ 0 = λ i w fresh.
          elim (Bool-cases (occ y (g i) == 0)) [
            | inl no_edge ↦ ground (arith, no_edge)
            | inr some_edge ↦
                let edge : HasEdge tot g i y = ground (arith, some_edge) in
                let again = done-below r done s v e n i w (omega (arith, r.climbs i y w edge)) in cc
          ] in
        ground (
          arith,
          v.counts.held y u,
          v.counts.degs y u,
          rest_sum-zero tot done (λ i. occ y (g i)) before,
          ap (occ y) e,
        )
  ]

  find_source :
      (n y : ℕ) → ((x : ℕ) → x < n → occ y (g x) ≡ 0) ⊎ ((x : ℕ) × (x < n) × HasEdge tot g x y)
  find_source zero y = inl (λ x h. absurd (omega arith))
  find_source (suc n) y = elim (Bool-cases (occ y (g n) == 0)) [
    | inr some_edge ↦ inr (n, omega arith, ground (arith, some_edge))
    | inl no_edge ↦ elim (find_source n y) [
      | inr (x, h, e) ↦ inr (x, omega arith, e)
      | inl none_in ↦ inl (λ x h. elim (Bool-cases (x == n)) [
        | inl same ↦ ground (arith, same, no_edge)
        | inr other ↦ none_in x (ground (arith, other))
      ])
    ]
  ]

  -- A node that `reached` leaves at level 1 or 0 has a level of at least 1.
  levelled :
      (r : Ranked tot g)
      → (done : ℕ → Bool) → (s : Search) → Invariant tot g done s
      → s.queue ≡ []
      → Levelled tot g s.tln
  levelled r done s v e =
      let all_done =
        λ (y : ℕ) (u : y < tot). done-below r done s v e (r.height y + 1) y u (omega arith) in
      let positive : (y : ℕ) → y < tot → 1 ≤ s.tln y = λ y u. elim (find_source tot y) [
        | inl none_in ↦ omega (arith, v.sources y u none_in)
        | inr (x, w, edge) ↦ omega (arith, v.relaxed x y (all_done x w) edge)
      ] in
      record {
        positive = positive;
        climbs = λ x y w edge. omega (arith, v.relaxed x y (all_done x w) edge);
        least = λ y u. elim (v.reached y) [
          | inl low ↦ inl (omega (arith, low, positive y u))
          | inr (x, old, edge, level) ↦ inr (x, v.in_graph x old, edge, level)
        ];
      }

-- `toposort` returns on every graph whose edges lead to nodes of the graph, with cycles or without:
-- as many rounds as there are nodes empty the queue.
toposort-total :
    (log2 : ℕ → ℕ) (tot : ℕ) (g : Targets)
    → IsGraph tot g
    → (s : Search) × (toposort log2 tot g ≡ some (s, log2 s.maxx + 1)) × (s.queue ≡ [])
toposort-total log2 tot g graph =
    let (done, s, drained, ends, v, e) = run tot g graph log2 in (s, ends, e)

-- On a graph without cycles, every node ends with a level of at least 1, every edge climbs from a
-- lower to a higher level, and each level other than 1 is one more than that of some node with an edge
-- to the node.
pub toposort-Levelled :
    (log2 : ℕ → ℕ) (tot : ℕ) (g : Targets)
    → IsGraph tot g
    → Ranked tot g
    → (s : Search) × (toposort log2 tot g ≡ some (s, log2 s.maxx + 1)) × Levelled tot g s.tln
toposort-Levelled log2 tot g graph r =
    let (done, s, drained, ends, v, e) = run tot g graph log2 in
    (s, ends, levelled tot g r done s v e)
