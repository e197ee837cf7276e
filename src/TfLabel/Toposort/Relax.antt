-- ===== src/TfLabel/Toposort/Relax.antt =====
-- The edges of one node, as `toposort` of include/algorithm/tflabel.hpp processes them.
use network_algo.Prelude.{
  ℕ, ◌+◌, ◌≤◌, ◌<◌, ◌≡◌, refl, ap, ◌∙◌, ◌⊎◌, inl, inr, Bool, true, false, List, [], ◌∷◌, ◌++◌, ltb,
  ◌==◌, if◌then◌else◌, arith, All, Bool-cases,
}
use network_algo.TfLabel.Toposort.{Targets, Search, max, relax, relax_all}
use network_algo.TfLabel.Toposort.Sum.{occ, occ-append, rest_sum}

-- The degrees count the edges from nodes that are not done, and the edges still to be processed; the
-- nodes of degree 0 are done or stand in the queue once.
pub record Counts (tot : ℕ) (g : Targets) (done : ℕ → Bool) (ys : List ℕ) (s : Search)
    : Type 0 where
  pub degs : (y : ℕ) → y < tot → s.deg y ≡ rest_sum tot done (λ i. occ y (g i)) + occ y ys
  pub held :
      (y : ℕ)
      → y < tot
      → occ y s.queue + (if done y then 1 else 0) ≡ (if s.deg y == 0 then 1 else 0)

pub All-append : (P : ℕ → Type 0) (xs ys : List ℕ) → All P xs → All P ys → All P (xs ++ ys)
All-append P [] ys h k = k
All-append P (x ∷ xs) ys h k = (h.0, All-append P xs ys h.1 k)

pub bounded-if :
    (b : Bool) (tot : ℕ) (xs ys : List ℕ)
    → All (λ z. z < tot) xs
    → All (λ z. z < tot) ys
    → All (λ z. z < tot) (if b then xs else ys)
bounded-if true tot xs ys h k = h
bounded-if false tot xs ys h k = k

module _ (tot : ℕ) (g : Targets) (done : ℕ → Bool) where
  relax-Counts :
      (x y : ℕ) (ys : List ℕ) (s : Search)
      → y < tot
      → Counts tot g done (y ∷ ys) s
      → Counts tot g done ys (relax x y s)
  unfolding relax
  relax-Counts x y ys s h c = record {
    degs = λ z u. ground (arith, c.degs z u);
    held = λ z u. ground (arith, c.held z u, c.degs z u, occ-append z s.queue (y ∷ []));
  }

  pub relax_all-Counts :
      (x : ℕ) (ys : List ℕ) (s : Search)
      → All (λ y. y < tot) ys
      → Counts tot g done ys s
      → Counts tot g done [] (relax_all x ys s)
  unfolding relax_all
  relax_all-Counts x [] s h c = c
  relax_all-Counts x (y ∷ ys) s h c =
      relax_all-Counts x ys (relax x y s) h.1 (relax-Counts x y ys s h.0 c)

  -- What the edges of a node of degree 0 do to the levels.
  pub record Raised (x : ℕ) (ys : List ℕ) (s s' : Search) : Type 0 where
    pub grows : (z : ℕ) → s.tln z ≤ s'.tln z
    pub stays : (z : ℕ) → z < tot → s.deg z ≡ 0 → (s'.tln z ≡ s.tln z) × (s'.deg z ≡ 0)
    pub above : (y : ℕ) → 0 < occ y ys → s.tln x + 1 ≤ s'.tln y
    pub from : (z : ℕ) → (s'.tln z ≡ s.tln z) ⊎ ((0 < occ z ys) × (s'.tln z ≡ s.tln x + 1))

  relax-stays :
      (x y z : ℕ) (ys : List ℕ) (s : Search)
      → z < tot
      → Counts tot g done (y ∷ ys) s
      → s.deg z ≡ 0
      → ((relax x y s).tln z ≡ s.tln z) × ((relax x y s).deg z ≡ 0)
  unfolding relax
  relax-stays x y z ys s h c free = ground (arith, c.degs z h)

  relax-grows : (x y z : ℕ) (s : Search) → s.tln z ≤ (relax x y s).tln z
  unfolding relax max
  relax-grows x y z s = ground arith

  relax-above : (x y : ℕ) (s : Search) → s.tln x + 1 ≤ (relax x y s).tln y
  unfolding relax max
  relax-above x y s = ground arith

  relax-from :
      (x y z : ℕ) (s : Search)
      → ((relax x y s).tln z ≡ s.tln z) ⊎ ((y ≡ z) × ((relax x y s).tln z ≡ s.tln x + 1))
  unfolding relax max
  relax-from x y z s = elim (Bool-cases (y == z)) [
    | inl same ↦ elim (Bool-cases (ltb (s.tln y) (s.tln x + 1))) [
      | inl less ↦ inr (ground arith, ground arith)
      | inr more ↦ inl (ground arith)
    ]
    | inr other ↦ inl (ground arith)
  ]

  pub relax_all-Raised :
      (x : ℕ) (ys : List ℕ) (s : Search)
      → All (λ y. y < tot) ys
      → x < tot
      → s.deg x ≡ 0
      → Counts tot g done ys s
      → Raised x ys s (relax_all x ys s)
  unfolding relax_all
  relax_all-Raised x [] s h hx free c = record {
    grows = λ z. omega arith;
    stays = λ z u e. (refl, e);
    above = λ y u. absurd (omega arith);
    from = λ z. inl refl;
  }
  relax_all-Raised x (y ∷ ys) s h hx free c =
      let s₁ = relax x y s in
      let kept = relax-stays x y x ys s hx c free in
      let r = relax_all-Raised x ys s₁ h.1 hx kept.1 (relax-Counts x y ys s h.0 c) in
      record {
        grows = λ z. omega (arith, relax-grows x y z s, r.grows z);
        stays = λ z u e.
            let one = relax-stays x y z ys s u c e in
            let more = r.stays z u one.1 in (more.0 ∙ one.0, more.1);
        above = λ z u. ground (arith, relax-above x y s, r.grows z, r.above z, kept.0);
        from = λ z. elim (r.from z) [
          | inr (later, e) ↦ inr (omega (arith, later), e ∙ ap (λ n. n + 1) kept.0)
          | inl same ↦ elim (relax-from x y z s) [
            | inl one ↦ inl (same ∙ one)
            | inr (here, e) ↦ inr (ground (arith, here), same ∙ e)
          ]
        ];
      }

  relax-bounded :
      (x y : ℕ) (s : Search)
      → y < tot
      → All (λ z. z < tot) s.queue
      → All (λ z. z < tot) (relax x y s).queue
  unfolding relax
  relax-bounded x y s h b =
      bounded-if _ tot (s.queue ++ y ∷ []) s.queue
        (All-append (λ z. z < tot) s.queue (y ∷ []) b (h, tt)) b

  pub relax_all-bounded :
      (x : ℕ) (ys : List ℕ) (s : Search)
      → All (λ y. y < tot) ys
      → All (λ z. z < tot) s.queue
      → All (λ z. z < tot) (relax_all x ys s).queue
  unfolding relax_all
  relax_all-bounded x [] s h b = b
  relax_all-bounded x (y ∷ ys) s h b =
      relax_all-bounded x ys (relax x y s) h.1 (relax-bounded x y s h.0 b)
