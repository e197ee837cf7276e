-- ===== src/Query/Iterator/Search/Attempts.antt =====
-- The attempts of a search in include/backend/leveldbgraph_iterator.inc with candidates for one position.
use network_algo.Prelude.{ℕ, ◌≡◌, refl, ◌∙◌, Bool, true, false, List, [], ◌∷◌, Text, text_eq}
use network_algo.Dsl.Syntax.{Properties}
use network_algo.Reflection.Compare.{Floats, Reflection}
use network_algo.Graph.Storage.{LevelDb, Schema}
use network_algo.Graph.Operations.{Graph}
use network_algo.Query.Deduction.{DeductionTrait, is_left_constrained, is_right_constrained}
use network_algo.Query.Iterator.{Result, ok, err, Iterator}
use network_algo.Query.Iterator.Ends.{get_node_id_from_left_edge, get_node_id_from_right_edge}
use network_algo.Query.Iterator.Candidates.{put_node, direct_id}
use network_algo.Query.Iterator.Search.{
  and_also, if_so, self, allowed, try_each, search_direct, search_known, search_between,
}
use network_algo.Query.Iterator.Search.Frame.{
  Ensures, Ensures-bind, Ensures-any, Ensures-if, Ensures-test, PutKeeps, put_node-PutKeeps, weaken,
}
use network_algo.Query.Iterator.Search.Reads.{
  KeepsDb, check_left_constrained-KeepsDb, check_right_constrained-KeepsDb,
}
use network_algo.Query.Iterator.Search.Sound.{
  State, Kept-trans, graph-Kept, IsFresh, Sound, IsSound, Checks, if_so-After, put-Sound,
  self-Checks,
}

module _ (floats : Floats) (level_db : LevelDb) (schema : Schema)
    (nodes : Reflection floats schema.Node) (edges : Reflection floats schema.Edge)
    (keys : level_db.Db → List Text) where
  abbrev pub S : Type 0
  S = State floats level_db schema nodes edges keys

  abbrev pub SoundAt : List DeductionTrait → S → S → Type 0
  SoundAt steps s s' = Sound floats level_db schema nodes edges keys steps s s'

  abbrev pub Next : List DeductionTrait → (S → Result S) → Type 0
  Next steps next = IsSound floats level_db schema nodes edges keys steps next

  abbrev pub ChecksAt : ℕ → S → Bool × Graph level_db → Type 0
  ChecksAt id t r = Checks floats level_db schema nodes edges keys id t r

  abbrev pub Putting : (Iterator → ℕ → Text → Result Iterator) → Type 0
  Putting put = (it : Iterator) (id : ℕ) (x : Text) → Ensures (PutKeeps id it) (put it id x)

  -- A further test that leaves the database.
  and_also-Checks :
      (id : ℕ) (t : S) (m : Result (Bool × Graph level_db))
      (k : Graph level_db → Result (Bool × Graph level_db))
      → Ensures (ChecksAt id t) m
      → ((g : Graph level_db) → Ensures (KeepsDb level_db schema g) (k g))
      → Ensures (ChecksAt id t) (and_also floats level_db schema nodes edges keys m k)
  and_also-Checks id t (err e) k h c = tt
  and_also-Checks id t (ok (false, g)) k h c = h
  and_also-Checks id t (ok (true, g)) k h c = weaken (k g) (c g) λ r e. (e ∙ h.0, λ q. h.1 refl)

  pub allowed-Checks :
      (dt : DeductionTrait) (t : S)
      → Ensures (ChecksAt dt.id t) (allowed floats level_db schema nodes edges keys dt t)
  unfolding allowed
  allowed-Checks dt t =
      and_also-Checks dt.id t _ _
        (and_also-Checks dt.id t _ _ (self-Checks floats level_db schema nodes edges keys dt.id t)
          λ g.
            Ensures-if (KeepsDb level_db schema g) (is_left_constrained dt.constraint) _ _
              (check_left_constrained-KeepsDb level_db schema t.it dt.id g) refl)
        λ g.
          Ensures-if (KeepsDb level_db schema g) (is_right_constrained dt.constraint) _ _
            (check_right_constrained-KeepsDb level_db schema t.it dt.id g) refl

  -- A candidate that is put in its place and tested.
  pub tried-Sound :
      (dt : DeductionTrait) (steps : List DeductionTrait) (next : S → Result S) (s : S)
      (it : Iterator) (m : Result (Bool × Graph level_db))
      → Next steps next
      → IsFresh floats level_db schema nodes edges keys dt.id steps
      → PutKeeps dt.id s.it it
      → Ensures (ChecksAt dt.id (record s { it = it })) m
      → Ensures
          (SoundAt (dt ∷ steps) s)
          (if_so floats level_db schema nodes edges keys m next (record s { it = it }))
  tried-Sound dt steps next s it m n f p c =
      let t = record s { it = it } in
      weaken (if_so floats level_db schema nodes edges keys m next t)
        (if_so-After floats level_db schema nodes edges keys dt.id steps next t m n f c)
        λ t' a. put-Sound floats level_db schema nodes edges keys dt steps s it t' p a

  abbrev pub Fresh : ℕ → List DeductionTrait → Type 0
  Fresh id steps = IsFresh floats level_db schema nodes edges keys id steps

  pub still :
      (steps : List DeductionTrait) (s : S) (g : Graph level_db)
      → g.db ≡ s.graph.db
      → (s' : S) → SoundAt steps (record s { graph = g }) s'
      → SoundAt steps s s'
  still steps s g h s' sound = record {
    keeps = λ id f.
        Kept-trans floats level_db schema nodes edges keys id s (record s { graph = g }) s'
          (graph-Kept floats level_db schema nodes edges keys id s g h) (sound.keeps id f);
    good = sound.good;
  }

  -- A further attempt, after one that found nothing.
  Sound-trans :
      (steps : List DeductionTrait) (a b c : S)
      → SoundAt steps a b
      → SoundAt steps b c
      → b.found ≡ false
      → SoundAt steps a c
  Sound-trans steps a b c h k lost = record {
    keeps = λ id f.
        Kept-trans floats level_db schema nodes edges keys id a b c (h.keeps id f) (k.keeps id f);
    good = λ before won. k.good lost won;
  }

  -- The candidates one after the other.
  pub try_each-Sound :
      (put : Iterator → ℕ → Text → Result Iterator) (dt : DeductionTrait)
      (steps : List DeductionTrait) (next : S → Result S) (xs : List Text) (s : S)
      → Putting put
      → Next steps next
      → Fresh dt.id steps
      → Ensures
          (SoundAt (dt ∷ steps) s)
          (try_each floats level_db schema nodes edges keys put next dt.id xs s)
  unfolding try_each
  try_each-Sound put dt steps next [] s p n f = record {
    keeps = λ id h. record { sentence = refl; same = refl; db = refl };
    good = λ lost won. cc;
  }
  try_each-Sound put dt steps next (x ∷ xs) s p n f =
      Ensures-bind (PutKeeps dt.id s.it) (SoundAt (dt ∷ steps) s) (put s.it dt.id x) _
        (p s.it dt.id x)
        λ it kept.
          Ensures-bind (SoundAt (dt ∷ steps) s) (SoundAt (dt ∷ steps) s) _ _
            (tried-Sound dt steps next s it
              (self floats level_db schema nodes edges keys dt.id (record s { it = it })) n f kept
              (self-Checks floats level_db schema nodes edges keys dt.id (record s { it = it })))
            λ s' first.
              Ensures-test (SoundAt (dt ∷ steps) s) s'.found _ _ (λ found. first)
                λ lost.
                  weaken (try_each floats level_db schema nodes edges keys put next dt.id xs s')
                    (try_each-Sound put dt steps next xs s' p n f)
                    λ s'' second. Sound-trans (dt ∷ steps) s s' s'' first second lost

  pub search_direct-Sound :
      (put : Iterator → ℕ → Text → Result Iterator) (properties : Properties) (dt : DeductionTrait)
      (steps : List DeductionTrait) (next : S → Result S) (s : S)
      → Putting put
      → Next steps next
      → Fresh dt.id steps
      → Ensures
          (SoundAt (dt ∷ steps) s)
          (search_direct floats level_db schema nodes edges keys put properties next dt s)
  unfolding search_direct
  search_direct-Sound put properties dt steps next s p n f =
      Ensures-any (SoundAt (dt ∷ steps) s) (direct_id properties) _ λ x.
        Ensures-bind (PutKeeps dt.id s.it) (SoundAt (dt ∷ steps) s) (put s.it dt.id x) _
          (p s.it dt.id x)
          λ it kept.
            tried-Sound dt steps next s it
              (allowed floats level_db schema nodes edges keys dt (record s { it = it })) n f kept
              (allowed-Checks dt (record s { it = it }))

  pub search_known-Sound :
      (dt : DeductionTrait) (steps : List DeductionTrait) (next : S → Result S) (x : Text) (s : S)
      → Next steps next
      → Fresh dt.id steps
      → Ensures
          (SoundAt (dt ∷ steps) s)
          (search_known floats level_db schema nodes edges keys next dt.id x s)
  unfolding search_known
  search_known-Sound dt steps next x s n f =
      Ensures-bind (PutKeeps dt.id s.it) (SoundAt (dt ∷ steps) s) (put_node s.it dt.id x) _
        (put_node-PutKeeps s.it dt.id x)
        λ it kept.
          tried-Sound dt steps next s it
            (self floats level_db schema nodes edges keys dt.id (record s { it = it })) n f kept
            (self-Checks floats level_db schema nodes edges keys dt.id (record s { it = it }))

  pub search_between-Sound :
      (dt : DeductionTrait) (steps : List DeductionTrait) (next : S → Result S) (s : S)
      → Next steps next
      → Fresh dt.id steps
      → Ensures
          (SoundAt (dt ∷ steps) s)
          (search_between floats level_db schema nodes edges keys next dt.id s)
  unfolding search_between
  search_between-Sound dt steps next s n f =
      Ensures-any (SoundAt (dt ∷ steps) s)
        (get_node_id_from_left_edge level_db schema s.it dt.id s.graph) _
        λ x.
          Ensures-bind (PutKeeps dt.id s.it) (SoundAt (dt ∷ steps) s) (put_node s.it dt.id x) _
            (put_node-PutKeeps s.it dt.id x)
            λ it kept.
              Ensures-any (SoundAt (dt ∷ steps) s)
                (get_node_id_from_right_edge level_db schema it dt.id s.graph) _
                λ y.
                  Ensures-if (SoundAt (dt ∷ steps) s) (text_eq x y) _ _
                    (tried-Sound dt steps next s it
                      (self floats level_db schema nodes edges keys dt.id (record s { it = it })) n
                      f kept
                      (self-Checks floats level_db schema nodes edges keys dt.id
                        (record s { it = it })))
                    (record {
                      keeps = λ id h. record { sentence = kept.0; same = kept.1 id h.0; db = refl };
                      good = λ lost won. cc;
                    })
