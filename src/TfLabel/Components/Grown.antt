-- ===== src/TfLabel/Components/Grown.antt =====
-- What the steps of `dfs` of include/algorithm/tflabel.hpp keep of the visits and of the stack.
use network_algo.Prelude.{
  ℕ, zero, suc, ◌+◌, ◌≤◌, ◌<◌, ◌≡◌, refl, sym, ap, ◌∙◌, inl, inr, Bool, true, false, not, some,
  List, [], ◌∷◌, ◌++◌, append_assoc, ◌==◌, if◌then◌else◌, arith, Bool-cases,
}
use network_algo.TfLabel.{store}
use network_algo.TfLabel.Components.{Tarjan, enter, lower, pop_until, close}

-- Whether `pre[x]` is set.
abbrev pub visited : Tarjan → ℕ → Bool
visited s x = not (s.pre x == 0)

-- The nodes below a bound that are not visited.
unfoldable pub unvisited : ℕ → Tarjan → ℕ
unvisited zero s = 0
unvisited (suc n) s = (if visited s n then 0 else 1) + unvisited n s

-- The visits stay, and nothing is taken from the stack below what it was.
pub record Grown (s s' : Tarjan) : Type 0 where
  pub stays : (x : ℕ) → visited s x ≡ true → visited s' x ≡ true
  pub pushed : List ℕ
  pub stacked : s'.stack ≡ pushed ++ s.stack

pub unvisited-Grown :
    (n : ℕ) (s s' : Tarjan)
    → ((x : ℕ) → visited s x ≡ true → visited s' x ≡ true)
    → unvisited n s' ≤ unvisited n s
unfolding unvisited
unvisited-Grown zero s s' h = omega arith
unvisited-Grown (suc n) s s' h = ground (arith, unvisited-Grown n s s' h, h n)

-- One visit more.
pub unvisited-less :
    (n u : ℕ) (s s' : Tarjan)
    → ((x : ℕ) → visited s x ≡ true → visited s' x ≡ true)
    → u < n
    → visited s u ≡ false
    → visited s' u ≡ true
    → unvisited n s' < unvisited n s
unfolding unvisited
unvisited-less zero u s s' h k a b = absurd (omega arith)
unvisited-less (suc n) u s s' h k a b = elim (Bool-cases (n == u)) [
  | inl equal ↦
      let at : n ≡ u = ground (arith, equal) in
      let was = ap (visited s) at ∙ a in
      let now = ap (visited s') at ∙ b in ground (arith, was, now, unvisited-Grown n s s' h)
  | inr other ↦ ground (arith, unvisited-less n u s s' h (ground (arith, other)) a b, h n)
]

pub Grown-trans : (s₁ s₂ s₃ : Tarjan) → Grown s₁ s₂ → Grown s₂ s₃ → Grown s₁ s₃
Grown-trans s₁ s₂ s₃ g h = record {
  stays = λ x v. h.stays x (g.stays x v);
  pushed = h.pushed ++ g.pushed;
  stacked =
      h.stacked ∙ ap (λ l. h.pushed ++ l) g.stacked ∙ sym (append_assoc h.pushed g.pushed s₁.stack);
}

pub lower-Grown : (u bound : ℕ) (s : Tarjan) → Grown s (lower u bound s)
unfolding lower
lower-Grown u bound s = record { stays = λ x v. v; pushed = []; stacked = refl }

pub enter-Grown : (u : ℕ) (s : Tarjan) → Grown s (enter u s)
unfolding enter
enter-Grown u s = record { stays = λ x v. ground (arith, v); pushed = u ∷ []; stacked = refl }

pub enter-visited : (u : ℕ) (s : Tarjan) → visited (enter u s) u ≡ true
unfolding enter
enter-visited u s = ground arith

-- The pops end at `u`, which stands on the stack above what was there before.
pop_until-some :
    (u : ℕ) (pushed rest : List ℕ) (s : Tarjan)
    → (s' : Tarjan) × (pop_until u (pushed ++ u ∷ rest) s ≡ some s')
      × (s'.pre ≡ s.pre)
      × ((kept : List ℕ) × (s'.stack ≡ kept ++ rest))
unfolding pop_until
pop_until-some u [] rest s =
    (record s { sccno = store s.sccno u s.scc_cnt; stack = rest }, ground arith, refl, ([], refl))
pop_until-some u (x ∷ pushed) rest s =
    let popped = record s { sccno = store s.sccno x s.scc_cnt; stack = pushed ++ u ∷ rest } in
    elim (Bool-cases (x == u)) [
      | inl equal ↦ (
        popped,
        ground (arith, equal),
        refl,
        (pushed ++ u ∷ [], sym (append_assoc pushed (u ∷ []) rest)),
      )
      | inr other ↦
          let (s', ends, same, kept) = pop_until-some u pushed rest popped in
          (s', ground (arith, other, ends), same, kept)
    ]

-- `close`, for a node that stands on the stack above what was there before.
pub close-some :
    (u : ℕ) (pushed rest : List ℕ) (s : Tarjan)
    → s.stack ≡ pushed ++ u ∷ rest
    → (s' : Tarjan) × (close u s ≡ some s')
      × (s'.pre ≡ s.pre)
      × ((kept : List ℕ) × (s'.stack ≡ kept ++ rest))
unfolding close
close-some u pushed rest s h = elim (Bool-cases (s.lowlink u == s.pre u)) [
  | inl root ↦
      let (s', ends, same, kept) =
        pop_until-some u pushed rest (record s { scc_cnt = s.scc_cnt + 1 }) in
      (s', ground (arith, root, h, ends), same, kept)
  | inr inner ↦ (
    s,
    ground (arith, inner),
    refl,
    (pushed ++ u ∷ [], h ∙ sym (append_assoc pushed (u ∷ []) rest)),
  )
]
