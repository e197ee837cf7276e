-- ===== src/TfLabel/Toposort/Highest.antt =====
-- The highest level, from which `toposort` of include/algorithm/tflabel.hpp computes the number of
-- rounds of the labelling.
use network_algo.Prelude.{
  ℕ, zero, suc, ◌+◌, ◌≤◌, ◌≡◌, refl, sym, ap, ◌∙◌, subst, ◌⊎◌, inl, inr, none, some, List, [], ◌∷◌,
  ltb, arith, Bool-cases, List-cases,
}
use network_algo.TfLabel.Toposort.{
  Targets, Search, max, enqueue_sources, relax, relax_all, drain, toposort,
}
use network_algo.TfLabel.Toposort.Levels.{IsGraph, drain-empty, drain-next}
use network_algo.TfLabel.Toposort.Start.{enqueue}
use network_algo.TfLabel.Toposort.Order.{started, run}

-- `maxx` is the highest level, or 0 where no level is above 1.
abbrev pub IsHighest : Search → Type 0
IsHighest s =
    ((s.maxx ≡ 0) × ((z : ℕ) → s.tln z ≤ 1))
    ⊎ (((z : ℕ) → s.tln z ≤ s.maxx) × ((y : ℕ) × (s.tln y ≡ s.maxx)))

relax-IsHighest : (x y : ℕ) (s : Search) → IsHighest s → IsHighest (relax x y s)
unfolding relax max
relax-IsHighest x y s (inl (e, low)) =
    inr ((λ z. ground (arith, low z, low y, e)), (y, ground (arith, low y, e)))
relax-IsHighest x y s (inr (above, (w, at))) = inr (
  (λ z. ground (arith, above z, above y)),
  elim (Bool-cases (ltb s.maxx (s.tln x + 1))) [
    | inl more ↦ (y, ground (arith, above y, more))
    | inr less ↦ (w, ground (arith, above y, at, less))
  ],
)

relax_all-IsHighest :
    (x : ℕ) (ys : List ℕ) (s : Search) → IsHighest s → IsHighest (relax_all x ys s)
unfolding relax_all
relax_all-IsHighest x [] s h = h
relax_all-IsHighest x (y ∷ ys) s h =
    relax_all-IsHighest x ys (relax x y s) (relax-IsHighest x y s h)

drain-stops :
    (g : Targets) (s : Search) (x : ℕ) (rest : List ℕ) → s.queue ≡ x ∷ rest → drain g zero s ≡ none
unfolding drain
drain-stops g s x rest q = ground (arith, q)

drain-IsHighest :
    (g : Targets) (rounds : ℕ) (s s' : Search)
    → drain g rounds s ≡ some s'
    → IsHighest s
    → IsHighest s'
drain-IsHighest g zero s s' e h = elim (List-cases s.queue) [
  | inl q ↦
      let kept = sym (drain-empty g zero s q) ∙ e in
      let same : s ≡ s' = cc in subst IsHighest same h
  | inr (x, rest, q) ↦ let stops = drain-stops g s x rest q in cc
]
drain-IsHighest g (suc rounds) s s' e h = elim (List-cases s.queue) [
  | inl q ↦
      let kept = sym (drain-empty g (suc rounds) s q) ∙ e in
      let same : s ≡ s' = cc in subst IsHighest same h
  | inr (x, rest, q) ↦
      drain-IsHighest g rounds (relax_all x (g x) (record s { queue = rest })) s'
        (sym (drain-next g rounds s x rest q) ∙ e)
        (relax_all-IsHighest x (g x) (record s { queue = rest }) h)
]

started-maxx : (rounds i : ℕ) (s : Search) → (enqueue_sources rounds i s).maxx ≡ s.maxx
unfolding enqueue_sources
started-maxx zero i s = refl
started-maxx (suc rounds) i s = started-maxx rounds (suc i) (enqueue i s) ∙ ground arith

started-low :
    (rounds i : ℕ) (s : Search)
    → ((z : ℕ) → s.tln z ≤ 1)
    → (z : ℕ) → (enqueue_sources rounds i s).tln z ≤ 1
unfolding enqueue_sources
started-low zero i s h z = h z
started-low (suc rounds) i s h z =
    started-low rounds (suc i) (enqueue i s) (λ w. ground (arith, h w)) z

relaxed-no_edges : (x : ℕ) (ys : List ℕ) (s : Search) → ys ≡ [] → relax_all x ys s ≡ s
unfolding relax_all
relaxed-no_edges x [] s e = refl
relaxed-no_edges x (y ∷ ys) s e = cc

drain-no_edges :
    (g : Targets) (rounds : ℕ) (s s' : Search)
    → ((x : ℕ) → g x ≡ [])
    → drain g rounds s ≡ some s'
    → s'.maxx ≡ s.maxx
drain-no_edges g zero s s' empty e = elim (List-cases s.queue) [
  | inl q ↦ let kept = sym (drain-empty g zero s q) ∙ e in cc
  | inr (x, rest, q) ↦ let stops = drain-stops g s x rest q in cc
]
drain-no_edges g (suc rounds) s s' empty e = elim (List-cases s.queue) [
  | inl q ↦ let kept = sym (drain-empty g (suc rounds) s q) ∙ e in cc
  | inr (x, rest, q) ↦
      let popped = record s { queue = rest } in
      let same : relax_all x (g x) popped ≡ popped = relaxed-no_edges x (g x) popped (empty x) in
      drain-no_edges g rounds popped s' empty
        (ap (λ t. drain g rounds t) (sym same) ∙ sym (drain-next g rounds s x rest q) ∙ e)
]

-- On a graph whose edges lead to nodes of the graph, `toposort` returns, and `maxx`, of which it takes
-- the logarithm, is the level of some node and no level is higher; or it is 0 and no level is above 1.
-- It is 0 where the graph has no edge.
pub toposort-IsHighest :
    (log2 : ℕ → ℕ) (tot : ℕ) (g : Targets)
    → IsGraph tot g
    → (s : Search) × (toposort log2 tot g ≡ some (s, log2 s.maxx + 1))
      × IsHighest s
      × (((x : ℕ) → g x ≡ []) → s.maxx ≡ 0)
toposort-IsHighest log2 tot g graph =
    let (done, s, drained, ends, v, e) = run tot g graph log2 in
    (
      s,
      ends,
      drain-IsHighest g tot (started tot g) s drained
          (inl (started-maxx tot 0 _, started-low tot 0 _ (λ z. omega arith))),
      λ empty. drain-no_edges g tot (started tot g) s empty drained ∙ started-maxx tot 0 _,
    )
