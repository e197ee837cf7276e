-- ===== src/MruMap/Eviction.antt =====
-- What `clearNotUsedCache` of include/typedmrumap.hpp drops and what it keeps.
use network_algo.Prelude.{
  ℕ, zero, suc, ◌≤◌, ◌<◌, ◌≡◌, refl, sym, ap, ◌∙◌, subst, false, none, some, List, [], ◌∷◌, length,
  Eq, ℕ_eq, arith, Bool-cases, Option-cases, List-cases, inl, inr,
}
use network_algo.Containers.Assoc.{lookup, lookup-erase}
use network_algo.Containers.Timeline.{Above, lookup-Above}
use network_algo.MruMap.{MruMap, clear_loop}
use network_algo.MruMap.Invariant.{
  IsConsistent, drop_oldest, drop_oldest-IsConsistent, clear_loop-nil, clear_loop-cons,
}

module _ {K V : Type 0} ⦃e : Eq K⦄ where
  -- The tables before a round of the loop, with the oldest use written out.
  opened :
      (m : MruMap K V) (t : ℕ) (k : K) (rest : List (ℕ × K))
      → m.last_used_time_rev ≡ (t, k) ∷ rest
      → IsConsistent m
      → IsConsistent (record m { last_used_time_rev = (t, k) ∷ rest })
  opened m t k rest q c = subst (λ l. IsConsistent (record m { last_used_time_rev = l })) q c

  dropped-IsConsistent :
      (m : MruMap K V) (t : ℕ) (k : K) (rest : List (ℕ × K))
      → m.last_used_time_rev ≡ (t, k) ∷ rest
      → IsConsistent m
      → IsConsistent (drop_oldest t k rest m)
  dropped-IsConsistent m t k rest q c = drop_oldest-IsConsistent t k rest m (opened m t k rest q c)

  -- What is left was there before.
  pub lookup-clear_loop :
      (n : ℕ) (m : MruMap K V) (j : K) (v : V)
      → lookup j (clear_loop n m).map ≡ some v
      → lookup j m.map ≡ some v
  unfolding clear_loop
  lookup-clear_loop zero m j v h = h
  lookup-clear_loop (suc n) m j v h = elim (List-cases m.last_used_time_rev) [
    | inl q ↦ ap (λ r. lookup j r.map) (sym (clear_loop-nil (suc n) m q)) ∙ h
    | inr ((t, k), rest, q) ↦ ground (
      arith,
      lookup-clear_loop n (drop_oldest t k rest m) j v
          (ap (λ r. lookup j r.map) (sym (clear_loop-cons n m t k rest q)) ∙ h),
      lookup-erase k j m.map,
    )
  ]

  -- The oldest use is before every other.
  oldest-first :
      (m : MruMap K V) (t : ℕ) (k j : K) (s : ℕ) (rest : List (ℕ × K))
      → IsConsistent (record m { last_used_time_rev = (t, k) ∷ rest })
      → lookup j m.last_used_time ≡ some s
      → e.eq k j ≡ false
      → t < s
  unfolding lookup
  oldest-first m t k j s rest o u other =
      ground (arith, o.to_rev j s u, lookup-Above t s rest o.sorted, e.eq_iff k j)

  oldest_time :
      (m : MruMap K V) (t : ℕ) (k : K) (rest : List (ℕ × K))
      → IsConsistent (record m { last_used_time_rev = (t, k) ∷ rest })
      → lookup k m.last_used_time ≡ some t
  unfolding lookup
  oldest_time m t k rest o = o.from_rev t k (ground arith)

  -- On consistent tables, an entry that the loop of `clearNotUsedCache` keeps was used later than
  -- each entry that it drops.
  pub clear_loop-lru :
      (n : ℕ) (m : MruMap K V) (gone kept : K) (w v : V) (tg tk : ℕ)
      → IsConsistent m
      → lookup gone m.map ≡ some w
      → lookup gone (clear_loop n m).map ≡ none
      → lookup kept (clear_loop n m).map ≡ some v
      → lookup gone m.last_used_time ≡ some tg
      → lookup kept m.last_used_time ≡ some tk
      → tg < tk
  unfolding clear_loop
  clear_loop-lru zero m gone kept w v tg tk c hw hg hk ug uk = cc
  clear_loop-lru (suc n) m gone kept w v tg tk c hw hg hk ug uk =
      elim (List-cases m.last_used_time_rev) [
        | inl q ↦ absurd (ground (arith, ap (λ r. lookup gone r.map) (clear_loop-nil (suc n) m q)))
        | inr ((t, k), rest, q) ↦
            let o = opened m t k rest q c in
            let step = clear_loop-cons n m t k rest q in
            let hg' : lookup gone (clear_loop n (drop_oldest t k rest m)).map ≡ none =
              ap (λ r. lookup gone r.map) (sym step) ∙ hg in
            let hk' : lookup kept (clear_loop n (drop_oldest t k rest m)).map ≡ some v =
              ap (λ r. lookup kept r.map) (sym step) ∙ hk in
            let other : e.eq k kept ≡ false = ground (
              arith,
              lookup-clear_loop n (drop_oldest t k rest m) kept v hk',
              lookup-erase k kept m.map,
            ) in
            elim (Bool-cases (e.eq k gone)) [
              | inl here ↦ ground (
                arith,
                oldest-first m t k kept tk rest o uk other,
                oldest_time m t k rest o,
                e.eq_iff k gone,
              )
              | inr differs ↦
                  clear_loop-lru n (drop_oldest t k rest m) gone kept w v tg tk
                    (dropped-IsConsistent m t k rest q c)
                    (lookup-erase k gone m.map ∙ rw differs hw) hg' hk'
                    (lookup-erase k gone m.last_used_time ∙ rw differs ug)
                    (lookup-erase k kept m.last_used_time ∙ rw other uk)
            ]
      ]

  nothing_left :
      (m : MruMap K V) (j : K) → IsConsistent m → m.last_used_time_rev ≡ [] → lookup j m.map ≡ none
  unfolding lookup
  nothing_left m j c q = elim (Option-cases (lookup j m.last_used_time)) [
    | inl unused ↦ ground (arith, c.same_keys j)
    | inr (t, used) ↦ absurd (ground (arith, ap (λ l. lookup t l) q, c.to_rev j t used))
  ]

  -- A loop with rounds for every entry leaves none.
  pub clear_loop-empties :
      (n : ℕ) (m : MruMap K V) (j : K)
      → IsConsistent m
      → length m.last_used_time_rev ≤ n
      → lookup j (clear_loop n m).map ≡ none
  unfolding clear_loop
  clear_loop-empties zero m j c h = elim (List-cases m.last_used_time_rev) [
    | inl q ↦ nothing_left m j c q
    | inr ((t, k), rest, q) ↦ absurd (omega (arith, ap length q))
  ]
  clear_loop-empties (suc n) m j c h = elim (List-cases m.last_used_time_rev) [
    | inl q ↦ ap (λ r. lookup j r.map) (clear_loop-nil (suc n) m q) ∙ nothing_left m j c q
    | inr ((t, k), rest, q) ↦
        ap (λ r. lookup j r.map) (clear_loop-cons n m t k rest q)
        ∙ clear_loop-empties n (drop_oldest t k rest m) j (dropped-IsConsistent m t k rest q c)
            (omega (arith, ap length q))
  ]

  rest_before :
      (m : MruMap K V) (t : ℕ) (k : K) (rest : List (ℕ × K)) (now : ℕ)
      → m.last_used_time_rev ≡ (t, k) ∷ rest
      → Above t rest
      → ((a : ℕ) (b : K) → lookup a m.last_used_time_rev ≡ some b → a ≤ now)
      → (a : ℕ) (b : K) → lookup a rest ≡ some b
      → a ≤ now
  unfolding lookup
  rest_before m t k rest now q above last a b p =
      last a b (ap (λ l. lookup a l) q ∙ ground (arith, lookup-Above t a rest above))

  -- Where another use follows, the oldest is not the latest.
  rest_other :
      (m : MruMap K V) (t : ℕ) (k j : K) (s : ℕ) (i : K) (rest : List (ℕ × K)) (now : ℕ)
      → m.last_used_time_rev ≡ (t, k) ∷ (s, i) ∷ rest
      → IsConsistent m
      → lookup j m.last_used_time ≡ some now
      → ((a : ℕ) (b : K) → lookup a m.last_used_time_rev ≡ some b → a ≤ now)
      → e.eq k j ≡ false
  unfolding lookup
  rest_other m t k j s i rest now q c u last =
      let o = opened m t k ((s, i) ∷ rest) q c in
      let later : s ≤ now =
        rest_before m t k ((s, i) ∷ rest) now q o.sorted last s i (ground arith) in
      ground (arith, oldest_time m t k ((s, i) ∷ rest) o, o.sorted, later, e.eq_iff k j)

  -- The latest use stays if there are more uses than rounds.
  pub clear_loop-keeps_latest :
      (n : ℕ) (m : MruMap K V) (j : K) (now : ℕ)
      → IsConsistent m
      → lookup j m.last_used_time ≡ some now
      → ((t : ℕ) (k : K) → lookup t m.last_used_time_rev ≡ some k → t ≤ now)
      → n < length m.last_used_time_rev
      → lookup j (clear_loop n m).map ≡ lookup j m.map
  unfolding clear_loop
  clear_loop-keeps_latest zero m j now c u last h = refl
  clear_loop-keeps_latest (suc n) m j now c u last h = elim (List-cases m.last_used_time_rev) [
    | inl q ↦ absurd (omega (arith, ap length q))
    | inr ((t, k), [], q) ↦ absurd (omega (arith, ap length q))
    | inr ((t, k), (s, i) ∷ rest, q) ↦
        let o = opened m t k ((s, i) ∷ rest) q c in
        let rest_last : (a : ℕ) (b : K) → lookup a ((s, i) ∷ rest) ≡ some b → a ≤ now =
          λ a b p. rest_before m t k ((s, i) ∷ rest) now q o.sorted last a b p in
        let other : e.eq k j ≡ false = rest_other m t k j s i rest now q c u last in
        ap (λ r. lookup j r.map) (clear_loop-cons n m t k ((s, i) ∷ rest) q)
        ∙ clear_loop-keeps_latest n (drop_oldest t k ((s, i) ∷ rest) m) j now
            (dropped-IsConsistent m t k ((s, i) ∷ rest) q c)
            (lookup-erase k j m.last_used_time ∙ rw other u) rest_last (omega (arith, ap length q))
        ∙ lookup-erase k j m.map
        ∙ rw other refl
  ]
