-- ===== src/TfLabel/Toposort/Levels.antt =====
-- The levels that `toposort` of include/algorithm/tflabel.hpp gives the nodes of a graph.
use network_algo.Prelude.{
  ℕ, zero, suc, ◌+◌, ◌≤◌, ◌<◌, ◌≡◌, sym, ap, ◌∙◌, subst, ◌⊎◌, inl, inr, Bool, true, false, some,
  List, [], ◌∷◌, ◌==◌, arith, All, Bool-cases, List-cases,
}
use network_algo.TfLabel.{store}
use network_algo.TfLabel.Toposort.{Targets, Search, relax_all, drain}
use network_algo.TfLabel.Toposort.Sum.{occ, rest_sum, rest_sum-store}
use network_algo.TfLabel.Toposort.Relax.{
  Counts, relax_all-Counts, relax_all-Raised, relax_all-bounded,
}

pub drain-empty : (g : Targets) (rounds : ℕ) (s : Search) → s.queue ≡ [] → drain g rounds s ≡ some s
unfolding drain
drain-empty g zero s q = ground (arith, q)
drain-empty g (suc rounds) s q = ground (arith, q)

pub drain-next :
    (g : Targets) (rounds : ℕ) (s : Search) (x : ℕ) (rest : List ℕ)
    → s.queue ≡ x ∷ rest
    → drain g (suc rounds) s ≡ drain g rounds (relax_all x (g x) (record s { queue = rest }))
unfolding drain
drain-next g rounds s x rest q = ground (arith, q)

-- Every edge leads to a node of the graph.
abbrev pub IsGraph : ℕ → Targets → Type 0
IsGraph tot g = (x : ℕ) → All (λ y. y < tot) (g x)

module _ (tot : ℕ) (g : Targets) where
  abbrev pub HasEdge : ℕ → ℕ → Type 0
  HasEdge x y = 0 < occ y (g x)

  -- Between two rounds of the loop; `done` are the nodes that have left the queue.
  pub record Invariant (done : ℕ → Bool) (s : Search) : Type 0 where
    pub counts : Counts tot g done [] s
    pub bounded : All (λ x. x < tot) s.queue
    pub in_graph : (x : ℕ) → done x ≡ true → x < tot
    pub relaxed : (x y : ℕ) → done x ≡ true → HasEdge x y → s.tln x + 1 ≤ s.tln y
    pub reached :
        (y : ℕ)
        → (s.tln y ≤ 1) ⊎ ((x : ℕ) × (done x ≡ true) × HasEdge x y × (s.tln y ≡ s.tln x + 1))
    pub sources : (y : ℕ) → y < tot → ((x : ℕ) → x < tot → occ y (g x) ≡ 0) → s.tln y ≡ 1

  -- The front of the queue is a node of degree 0 that is not done.
  front-fresh :
      (done : ℕ → Bool) (s : Search) (x : ℕ) (rest : List ℕ)
      → Counts tot g done [] s
      → x < tot
      → s.queue ≡ x ∷ rest
      → (done x ≡ false) × (s.deg x ≡ 0)
  front-fresh done s x rest c h q = ground (arith, c.held x h, ap (occ x) q)

  popped-Counts :
      (done : ℕ → Bool) (s : Search) (x : ℕ) (rest : List ℕ)
      → Counts tot g done [] s
      → x < tot
      → s.queue ≡ x ∷ rest
      → Counts tot g (store done x true) (g x) (record s { queue = rest })
  popped-Counts done s x rest c h q =
      let f = front-fresh done s x rest c h q in
      record {
        degs = λ y u. omega (arith, c.degs y u, rest_sum-store tot x done (λ i. occ y (g i)) h f.0);
        held = λ y u. ground (arith, c.held y u, ap (occ y) q, f.0, f.1);
      }

  round-Invariant :
      (done : ℕ → Bool) (s : Search) (x : ℕ) (rest : List ℕ)
      → IsGraph tot g
      → Invariant done s
      → s.queue ≡ x ∷ rest
      → Invariant (store done x true) (relax_all x (g x) (record s { queue = rest }))
  round-Invariant done s x rest graph v q =
      let s₀ = record s { queue = rest } in
      let b = subst (λ l. All (λ z. z < tot) l) q v.bounded in
      let f = front-fresh done s x rest v.counts b.0 q in
      let c = popped-Counts done s x rest v.counts b.0 q in
      let r = relax_all-Raised tot g (store done x true) x (g x) s₀ (graph x) b.0 f.1 c in
      let kept = r.stays x b.0 f.1 in
      record {
        counts = relax_all-Counts tot g (store done x true) x (g x) s₀ (graph x) c;
        bounded = relax_all-bounded tot g (store done x true) x (g x) s₀ (graph x) b.1;
        in_graph = λ z h. ground (arith, b.0, v.in_graph z);
        relaxed = λ z y h e. elim (Bool-cases (x == z)) [
          | inl same ↦ ground (arith, same, r.above y, kept.0)
          | inr other ↦
              let old : done z ≡ true = ground (arith, other, h) in
              let in_graph = v.in_graph z old in
              let still = r.stays z in_graph (ground (arith, v.counts.held z in_graph)) in
              omega (arith, still.0, r.grows y, v.relaxed z y old e)
        ];
        reached = λ y. elim (r.from y) [
          | inr (e, level) ↦ inr (x, ground arith, e, level ∙ ap (λ n. n + 1) (sym kept.0))
          | inl same ↦ elim (v.reached y) [
            | inl low ↦ inl (omega (arith, same))
            | inr (z, old, e, level) ↦
                let in_graph = v.in_graph z old in
                let still = r.stays z in_graph (ground (arith, v.counts.held z in_graph)) in
                inr (z, ground arith, e, same ∙ level ∙ ap (λ n. n + 1) (sym still.0))
          ]
        ];
        sources = λ y u none_in. elim (r.from y) [
          | inl same ↦ same ∙ v.sources y u none_in
          | inr (e, level) ↦ absurd (omega (arith, none_in x b.0))
        ];
      }

  -- The nodes that are not done.
  abbrev left : (ℕ → Bool) → ℕ
  left done = rest_sum tot done (λ i. 1)

  pub drain-Invariant :
      (rounds : ℕ) (done : ℕ → Bool) (s : Search)
      → IsGraph tot g
      → Invariant done s
      → left done ≤ rounds
      → (done' : ℕ → Bool) × (s' : Search) × (drain g rounds s ≡ some s')
        × Invariant done' s'
        × (s'.queue ≡ [])
  drain-Invariant zero done s graph v h = elim (List-cases s.queue) [
    | inl q ↦ (done, s, drain-empty g zero s q, v, q)
    | inr (x, rest, q) ↦
        let b = subst (λ l. All (λ z. z < tot) l) q v.bounded in
        let f = front-fresh done s x rest v.counts b.0 q in
        absurd (omega (arith, rest_sum-store tot x done (λ i. 1) b.0 f.0))
  ]
  drain-Invariant (suc rounds) done s graph v h = elim (List-cases s.queue) [
    | inl q ↦ (done, s, drain-empty g (suc rounds) s q, v, q)
    | inr (x, rest, q) ↦
        let b = subst (λ l. All (λ z. z < tot) l) q v.bounded in
        let f = front-fresh done s x rest v.counts b.0 q in
        let (done', s', ends, v', e) =
          drain-Invariant rounds (store done x true) (relax_all x (g x) (record s { queue = rest }))
            graph (round-Invariant done s x rest graph v q)
            (omega (arith, rest_sum-store tot x done (λ i. 1) b.0 f.0)) in
        (done', s', drain-next g rounds s x rest q ∙ ends, v', e)
  ]
