-- ===== src/Query/Iterator/Results.antt =====
-- What `operator++` of include/backend/leveldbgraph_iterator.inc comes to, for the directed graph.
mod Tests
use network_algo.Prelude.{
  ℕ, zero, suc, ◌≡◌, ◌≢◌, ◌⊎◌, inl, inr, Bool-cases, refl, sym, ap, ◌∙◌, Bool, true, false, not,
  List, Text, ◌∷◌, arith,
}
use network_algo.Reflection.Compare.{Floats, Reflection}
use network_algo.Graph.Storage.{LevelDb, Schema}
use network_algo.Query.Deduction.{ConstraintType, DeductionTrait, is_node}
use network_algo.Query.Iterator.{Result, ok, err, ◌>>=◌}
use network_algo.Query.Iterator.Search.{Search}
use network_algo.Query.Iterator.Search.Frame.{Ensures, Ensures-test}
use network_algo.Query.Iterator.Search.Sound.{AllPass}
use network_algo.Query.Iterator.Search.Pass.{AreDistinct}
use network_algo.Query.Iterator.Next.{find_next_possible, next_node}
use network_algo.Query.Iterator.Next.Pass.{find_next_possible-AllPass}
use network_algo.Query.Iterator.Operators.{Cursor, steps_back, increment}

module _ (floats : Floats) (level_db : LevelDb) (schema : Schema)
    (nodes : Reflection floats schema.Node) (edges : Reflection floats schema.Edge)
    (keys : level_db.Db → List Text) where
  abbrev C : Type 0
  C = Cursor floats level_db schema nodes edges keys

  abbrev steps : C → List DeductionTrait
  steps c = steps_back floats level_db schema nodes edges keys c.search

  moved :
      (m : Result (Bool × Search floats level_db schema nodes edges keys)) (c c' : C)
      → (m >>= λ r. ok (record c { search = r.1; is_end = not r.0 })) ≡ ok c'
      → m ≡ ok (not c'.is_end, c'.search)
  moved (err e) c c' h = cc
  moved (ok (true, s)) c c' h = ground (arith, h)
  moved (ok (false, s)) c c' h = ground (arith, h)

  -- `++` returns what `findNextPossible` has found.
  increment-moved :
      (rounds : ℕ) (c c' : C)
      → increment floats level_db schema nodes edges keys rounds c ≡ ok c'
      → find_next_possible floats level_db schema nodes edges keys rounds (steps c) c.search
        ≡ ok (not c'.is_end, c'.search)
  unfolding increment
  increment-moved rounds c c' h = elim (Bool-cases c.is_end) [
    | inl ended ↦ absurd (ground (arith, ended, h))
    | inr open_still ↦ moved _ c c' (rw open_still at h)
  ]

  -- If every position of the pattern passes isSelfConstrained at an iterator, no two deduction steps are
  -- about one position, and ++ does not end it, then every position passes again afterwards.
  pub increment-AllPass :
      (rounds : ℕ) (c c' : C)
      → AreDistinct floats level_db schema nodes edges keys (steps c)
      → AllPass floats level_db schema nodes edges keys c.search (steps c)
      → increment floats level_db schema nodes edges keys rounds c ≡ ok c'
      → c'.is_end ≡ false
      → AllPass floats level_db schema nodes edges keys c'.search (steps c)
  increment-AllPass rounds c c' d p h more =
      find_next_possible-AllPass floats level_db schema nodes edges keys rounds (steps c) c.search
        c'.search d p (increment-moved rounds c c' h ∙ ap (λ b. ok (not b, c'.search)) more)
