-- ===== src/Query/Iterator/Next/Moved.antt =====
-- The candidates that findNextPossible of include/backend/leveldbgraph_iterator.inc tries at one position, and
-- what a call leaves as it is.
use network_algo.Prelude.{
  ℕ, zero, suc, ◌≡◌, ◌≢◌, refl, sym, ap, ◌∙◌, Bool, true, false, List, [], ◌∷◌, Text,
}
use network_algo.Reflection.Compare.{Floats, Reflection}
use network_algo.Graph.Storage.{LevelDb, Schema}
use network_algo.Graph.Operations.{Graph}
use network_algo.Query.Deduction.{DeductionTrait}
use network_algo.Query.Iterator.{Result, ok, Iterator}
use network_algo.Query.Iterator.Properties.{is_self_constrained}
use network_algo.Query.Iterator.Candidates.{put_node}
use network_algo.Query.Iterator.Search.Frame.{
  Ensures-at, Ensures, Ensures-bind, Ensures-any, Ensures-test, PutKeeps, weaken,
}
use network_algo.Query.Iterator.Search.Sound.{
  State, Kept, Kept-trans, test, test-Kept, IsFresh, AllPass,
}
use network_algo.Query.Iterator.Search.Attempts.{Putting}
use network_algo.Query.Iterator.Next.{branch, try_next, next_round, next_known}

-- The branches of a flag that stands beside a value.
Ensures-flag :
    {A B : Type 0} (P : Bool × A → Type 0) (Q : B → Type 0) (r : Bool × A) (f g : A → Result B)
    → P r
    → ((a : A) → P (true, a) → Ensures Q (f a))
    → ((a : A) → P (false, a) → Ensures Q (g a))
    → Ensures Q (branch r f g)
Ensures-flag P Q (true, a) f g p h k = h a p
Ensures-flag P Q (false, a) f g p h k = k a p

module _ (floats : Floats) (level_db : LevelDb) (schema : Schema)
    (nodes : Reflection floats schema.Node) (edges : Reflection floats schema.Edge)
    (keys : level_db.Db → List Text) where
  abbrev pub S : Type 0
  S = State floats level_db schema nodes edges keys

  abbrev pub KeptAt : ℕ → S → S → Type 0
  KeptAt id s s' = Kept floats level_db schema nodes edges keys id s s'

  abbrev pub Fresh : ℕ → List DeductionTrait → Type 0
  Fresh id steps = IsFresh floats level_db schema nodes edges keys id steps

  abbrev pub Pass : S → List DeductionTrait → Type 0
  Pass s steps = AllPass floats level_db schema nodes edges keys s steps

  abbrev pub Tested : S → ℕ → Type 0
  Tested s id = test floats level_db schema nodes edges keys s id ≡ ok true

  -- Positions of which the candidates stay still pass.
  Pass-Kept :
      (id : ℕ) (steps : List DeductionTrait) (s s' : S)
      → Fresh id steps
      → ((other : ℕ) → other ≢ id → KeptAt other s s')
      → Pass s steps
      → Pass s' steps
  Pass-Kept id [] s s' f k p = tt
  Pass-Kept id (dt ∷ steps) s s' f k p = (
    test-Kept floats level_db schema nodes edges keys dt.id s s' (k dt.id (λ e. f.0 (sym e))) ∙ p.0,
    Pass-Kept id steps s s' f.1 k p.1,
  )

  -- What trying the candidates of one position leaves.
  abbrev pub CandidateTaken : ℕ → S → Bool × S → Type 0
  CandidateTaken id s r =
      ((other : ℕ) → other ≢ id → KeptAt other s r.1) × (r.0 ≡ true → Tested r.1 id)

  pub try_next-CandidateTaken :
      (put : Iterator → ℕ → Text → Result Iterator) (id : ℕ) (xs : List Text) (s : S)
      → Putting floats level_db schema nodes edges keys put
      → Ensures (CandidateTaken id s) (try_next floats level_db schema nodes edges keys put id xs s)
  unfolding try_next
  try_next-CandidateTaken put id [] s p =
      (λ other h. record { sentence = refl; same = refl; db = refl }, λ e. cc)
  try_next-CandidateTaken put id (x ∷ xs) s p =
      Ensures-bind (PutKeeps id s.it) (CandidateTaken id s) (put s.it id x) _ (p s.it id x)
        λ it kept.
          let t : S = record s { it = it } in
          let stays : (other : ℕ) → other ≢ id → KeptAt other s t =
            λ other h. record { sentence = kept.0; same = kept.1 other h; db = refl } in
          Ensures-at (CandidateTaken id s)
            (is_self_constrained floats level_db schema nodes edges it id s.graph) _
            λ b here.
              Ensures-test (CandidateTaken id s) b _ _ (λ good. (stays, λ e. here ∙ ap ok good))
                λ bad.
                  weaken (try_next floats level_db schema nodes edges keys put id xs t)
                    (try_next-CandidateTaken put id xs t p)
                    λ r later. (
                      λ other h.
                          Kept-trans floats level_db schema nodes edges keys other s t r.1
                            (stays other h) (later.0 other h),
                      later.1,
                    )

  -- The positions of all steps but the first pass.
  abbrev pub PassBehind : S → List DeductionTrait → Type 0
  PassBehind s [] = Unit
  PassBehind s (dt ∷ before) = Pass s before

  pub Pass-behind : (s : S) (steps : List DeductionTrait) → Pass s steps → PassBehind s steps
  Pass-behind s [] p = tt
  Pass-behind s (dt ∷ before) p = p.1

  -- What a call that finds something leaves: other positions stay, and those of the steps pass if all but
  -- the first did before.
  pub record Moved (steps : List DeductionTrait) (s s' : S) : Type 0 where
    pub keeps : (id : ℕ) → Fresh id steps → KeptAt id s s'
    pub good : PassBehind s steps → Pass s' steps

  abbrev pub Finds : List DeductionTrait → S → Bool × S → Type 0
  Finds steps s r = r.0 ≡ true → Moved steps s r.1

  abbrev pub Back : List DeductionTrait → (S → Result (Bool × S)) → Type 0
  Back steps back = (s : S) → Ensures (Finds steps s) (back s)

  -- The candidates of a round, with the caches that reading them leaves.
  abbrev pub Reads : (Bool → S → Result (List Text × S)) → Type 0
  Reads candidates =
      (first : Bool) (s : S) → Ensures (λ got. (id : ℕ) → KeptAt id s got.1) (candidates first s)

  -- A candidate has been found.
  tried-Moved :
      (dt : DeductionTrait) (before : List DeductionTrait) (s t u : S)
      → Fresh dt.id before
      → ((id : ℕ) → KeptAt id s t)
      → CandidateTaken dt.id t (true, u)
      → Moved (dt ∷ before) s u
  tried-Moved dt before s t u fresh same tried =
      let stays : (other : ℕ) → other ≢ dt.id → KeptAt other s u = λ other h.
        Kept-trans floats level_db schema nodes edges keys other s t u (same other)
          (tried.0 other h) in
      record {
        keeps = λ id f. stays id f.0;
        good = λ p. (tried.1 refl, Pass-Kept dt.id before s u fresh stays p);
      }

  pub hit :
      (dt : DeductionTrait) (before : List DeductionTrait) (s : S)
      → Fresh dt.id before
      → (r : Bool × S) → CandidateTaken dt.id s r
      → Finds (dt ∷ before) s r
  hit dt before s f (true, u) tried e =
      tried-Moved dt before s s u f (λ id. record { sentence = refl; same = refl; db = refl }) tried
  hit dt before s f (false, u) tried e = cc

  -- The steps before have moved on, and a further round has found something.
  round-Moved :
      (dt : DeductionTrait) (before : List DeductionTrait) (s t u v : S)
      → Fresh dt.id before
      → ((other : ℕ) → other ≢ dt.id → KeptAt other s t)
      → Moved before t u
      → Moved (dt ∷ before) u v
      → Moved (dt ∷ before) s v
  round-Moved dt before s t u v fresh stays back later = record {
    keeps = λ id f.
        Kept-trans floats level_db schema nodes edges keys id s u v
          (Kept-trans floats level_db schema nodes edges keys id s t u (stays id f.0)
            (back.keeps id f.1))
          (later.keeps id f);
    good = λ p.
        later.good (back.good (Pass-behind t before (Pass-Kept dt.id before s t fresh stays p)));
  }

  pub next_round-Finds :
      (candidates : Bool → S → Result (List Text × S)) (put : Iterator → ℕ → Text → Result Iterator)
      (back : S → Result (Bool × S)) (dt : DeductionTrait) (before : List DeductionTrait)
      (rounds : ℕ) (first : Bool) (s : S)
      → Reads candidates
      → Putting floats level_db schema nodes edges keys put
      → Back before back
      → Fresh dt.id before
      → Ensures (Finds (dt ∷ before) s) (
          next_round floats level_db schema nodes edges keys candidates put back dt.id rounds first
            s)
  unfolding next_round
  next_round-Finds candidates put back dt before zero first s reads p b fresh = tt
  next_round-Finds candidates put back dt before (suc rounds) first s reads p b fresh =
      Ensures-bind (λ got. (id : ℕ) → KeptAt id s got.1) (Finds (dt ∷ before) s)
        (candidates first s) _ (reads first s)
        λ got same.
          Ensures-bind (CandidateTaken dt.id got.1) (Finds (dt ∷ before) s)
            (try_next floats level_db schema nodes edges keys put dt.id got.0 got.1) _
            (try_next-CandidateTaken put dt.id got.0 got.1 p)
            λ tried left.
              Ensures-flag (CandidateTaken dt.id got.1) (Finds (dt ∷ before) s) tried _ _ left
                (λ u hit e. tried-Moved dt before s got.1 u fresh same hit)
                λ u missed.
                  Ensures-bind (Finds before u) (Finds (dt ∷ before) s) (back u) _ (b u)
                    λ went moved.
                      Ensures-flag (Finds before u) (Finds (dt ∷ before) s) went _ _ moved
                        (λ v behind.
                          weaken
                            (next_round floats level_db schema nodes edges keys candidates put back
                              dt.id rounds false v)
                            (next_round-Finds candidates put back dt before rounds false v reads p b
                              fresh)
                            λ r later e.
                              round-Moved dt before s u v r.1 fresh
                                (λ other h.
                                  Kept-trans floats level_db schema nodes edges keys other s got.1 u
                                    (same other) (missed.0 other h))
                                (behind refl) (later e))
                        λ v stuck e. cc

  -- A node at a known edge is never found.
  pub next_known-Finds :
      (ends : Iterator → ℕ → Graph level_db → Result Text)
      (tests : ℕ → S → Result (Bool × Graph level_db)) (back : S → Result (Bool × S)) (id : ℕ)
      (rounds : ℕ) (s : S)
      → Ensures
          (λ r. r.0 ≡ false)
          (next_known floats level_db schema nodes edges keys ends tests back id rounds s)
  unfolding next_known
  next_known-Finds ends tests back id zero s = tt
  next_known-Finds ends tests back id (suc rounds) s =
      Ensures-any (λ r. r.0 ≡ false) (back s) _
        λ went.
          Ensures-flag (λ _. Unit {0}) (λ r. r.0 ≡ false) went _ _ tt
            (λ u _.
              Ensures-any (λ r. r.0 ≡ false) (ends u.it id u.graph) _
                λ x.
                  Ensures-any (λ r. r.0 ≡ false) (put_node u.it id x) _
                    λ it.
                      Ensures-any (λ r. r.0 ≡ false) (tests id (record u { it = it })) _
                        λ tested.
                          Ensures-flag (λ _. Unit {0}) (λ r. r.0 ≡ false) tested _ _ tt (λ g _. tt)
                            λ g _.
                              next_known-Finds ends tests back id rounds
                                (record u { it = it; graph = g }))
            λ u _. refl
