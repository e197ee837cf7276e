-- ===== src/Query/Iterator/Search/Match.antt =====
-- A search finds parts of a pattern that are linked as the constraints of the deduction steps say.
use network_algo.Prelude.{
  ℕ, zero, suc, ◌/◌, ◌≡◌, refl, ◌∙◌, Bool, true, false, List, [], ◌∷◌, Text, text_eq_refl,
  get_elem?, some, arith, All,
}
use network_algo.Reflection.Compare.{Floats, Reflection}
use network_algo.Graph.IdSet.{member}
use network_algo.Graph.Storage.{LevelDb, Schema}
use network_algo.Graph.Operations.{Graph}
use network_algo.Query.Deduction.{DeductionTrait, is_node}
use network_algo.Query.Iterator.{Result, ok, err, Iterator, node_index, edge_index}
use network_algo.Query.Iterator.Candidates.{set_at, put_node, put_edge}
use network_algo.Query.Iterator.Search.{if_so, self, try_each}
use network_algo.Query.Iterator.Search.Frame.{
  Ensures, Ensures-bind, Ensures-test, PutKeeps, candidate, weaken, node_index-is_node,
  edge_index-is_edge,
}
use network_algo.Query.Iterator.Search.Sound.{State, Kept-trans, self-Checks}
use network_algo.Query.Iterator.Search.Attempts.{
  SoundAt, Next, ChecksAt, Putting, Fresh, tried-Sound,
}
use network_algo.Query.Iterator.Search.Linked.{Around, Around-map, Fits, Fits-Kept, Linked}

pub Ensures-both :
    {A : Type 0} (P Q : A → Type 0) (m : Result A)
    → Ensures P m
    → Ensures Q m
    → Ensures (λ a. P a × Q a) m
Ensures-both P Q (ok a) h k = (h, k)
Ensures-both P Q (err e) h k = tt

-- A candidate that is put at a position stands there.
abbrev pub PutsThere : (Iterator → ℕ → Text → Result Iterator) → Type 0
PutsThere put =
    (it : Iterator) (id : ℕ) (x : Text) → Ensures (λ it'. candidate it' id ≡ some x) (put it id x)

set_at-there :
    (xs : List Text) (i : ℕ) (x : Text) → Ensures (λ ys. get_elem? ys i ≡ some x) (set_at xs i x)
unfolding set_at
set_at-there [] i x = tt
set_at-there (y ∷ ys) zero x = refl
set_at-there (y ∷ ys) (suc i) x =
    Ensures-bind (λ zs. get_elem? zs i ≡ some x) (λ zs. get_elem? zs (suc i) ≡ some x)
      (set_at ys i x) _ (set_at-there ys i x) λ zs e. e

pub put_node-there : PutsThere put_node
unfolding put_node
put_node-there it id x =
    Ensures-bind (λ i. (is_node id ≡ true) × (i ≡ id / 2)) (λ it'. candidate it' id ≡ some x)
      (node_index id) _ (node_index-is_node id)
      λ i here.
        Ensures-bind (λ ys. get_elem? ys i ≡ some x) (λ it'. candidate it' id ≡ some x)
          (set_at it.nodes_id i x) _ (set_at-there it.nodes_id i x)
          λ ids there. ground (arith, here.0, here.1, there)

pub put_edge-there : PutsThere put_edge
unfolding put_edge
put_edge-there it id x =
    Ensures-bind (λ i. (is_node id ≡ false) × (i ≡ id / 2)) (λ it'. candidate it' id ≡ some x)
      (edge_index id) _ (edge_index-is_edge id)
      λ i here.
        Ensures-bind (λ ys. get_elem? ys i ≡ some x) (λ it'. candidate it' id ≡ some x)
          (set_at it.edges_id i x) _ (set_at-there it.edges_id i x)
          λ ids there. ground (arith, here.0, here.1, there)

module _ (floats : Floats) (level_db : LevelDb) (schema : Schema)
    (nodes : Reflection floats schema.Node) (edges : Reflection floats schema.Edge)
    (keys : level_db.Db → List Text) where
  abbrev S : Type 0
  S = State floats level_db schema nodes edges keys

  abbrev pub AllLinked : List DeductionTrait → S → Type 0
  AllLinked steps s = All (λ dt. Linked floats level_db schema nodes edges keys s dt) steps

  -- What a search that succeeds has found.
  abbrev pub LinkedBy : List DeductionTrait → S → S → Type 0
  LinkedBy steps s s' = s.found ≡ false → s'.found ≡ true → AllLinked steps s'

  abbrev Sounds : List DeductionTrait → S → S → Type 0
  Sounds steps s s' = SoundAt floats level_db schema nodes edges keys steps s s'

  -- The search of the further steps.
  pub record Further (dt : DeductionTrait) (steps : List DeductionTrait) (next : S → Result S)
      : Type 0 where
    pub sound : Next floats level_db schema nodes edges keys steps next
    pub linked : (s : S) → Ensures (LinkedBy steps s) (next s)
    pub fresh : Fresh floats level_db schema nodes edges keys dt.id steps

  -- The positions that the constraint of a step names have been found before it.
  abbrev pub IsAfter : DeductionTrait → List DeductionTrait → Type 0
  IsAfter dt steps =
      Around (λ i. Fresh floats level_db schema nodes edges keys i (dt ∷ steps)) dt.constraint dt.id

  abbrev pub FitsAt : DeductionTrait → S → Text → Type 0
  FitsAt dt s x = Fits floats level_db schema nodes edges keys dt.constraint dt.id s x

  pub tried-Linked :
      (dt : DeductionTrait) (steps : List DeductionTrait) (next : S → Result S) (s : S)
      (it : Iterator) (x : Text) (m : Result (Bool × Graph level_db))
      → Further dt steps next
      → PutKeeps dt.id s.it it
      → candidate it dt.id ≡ some x
      → (dt.direct ≡ false → IsAfter dt steps × FitsAt dt s x)
      → Ensures (ChecksAt floats level_db schema nodes edges keys dt.id (record s { it = it })) m
      → Ensures
          (LinkedBy (dt ∷ steps) s)
          (if_so floats level_db schema nodes edges keys m next (record s { it = it }))
  tried-Linked dt steps next s it x (err e) n p there fit c = tt
  tried-Linked dt steps next s it x (ok (false, g)) n p there fit c = λ lost won. cc
  tried-Linked dt steps next s it x (ok (true, g)) n p there fit c =
      let t : S = record s { it = it; graph = g } in
      weaken (next t)
        (Ensures-both (Sounds steps t) (LinkedBy steps t) (next t) (n.sound t) (n.linked t))
        λ s' r lost won. (
          λ given. (
            x,
            (r.0.keeps dt.id n.fresh).same ∙ there,
            Fits-Kept floats level_db schema nodes edges keys dt.constraint dt.id s s' x
                (Around-map dt.constraint dt.id
                  (λ i (f : Fresh floats level_db schema nodes edges keys i (dt ∷ steps)).
                    Kept-trans floats level_db schema nodes edges keys i s t s'
                      (record { sentence = p.0; same = p.1 i f.0; db = c.0 }) (r.0.keeps i f.1))
                  (fit given).0)
                (fit given).1,
          ),
          r.1 lost won,
        )

  pub try_each-Linked :
      (put : Iterator → ℕ → Text → Result Iterator) (dt : DeductionTrait)
      (steps : List DeductionTrait) (next : S → Result S) (xs : List Text) (s : S)
      → Putting floats level_db schema nodes edges keys put
      → PutsThere put
      → Further dt steps next
      → IsAfter dt steps
      → ((x : Text) → member x xs ≡ true → FitsAt dt s x)
      → Ensures
          (LinkedBy (dt ∷ steps) s)
          (try_each floats level_db schema nodes edges keys put next dt.id xs s)
  unfolding try_each member
  try_each-Linked put dt steps next [] s p q n a offered = λ lost won. cc
  try_each-Linked put dt steps next (x ∷ xs) s p q n a offered =
      Ensures-bind (λ it. PutKeeps dt.id s.it it × (candidate it dt.id ≡ some x))
        (LinkedBy (dt ∷ steps) s) (put s.it dt.id x) _
        (Ensures-both (PutKeeps dt.id s.it) (λ it. candidate it dt.id ≡ some x) (put s.it dt.id x)
          (p s.it dt.id x) (q s.it dt.id x))
        λ it kept.
          let t : S = record s { it = it } in
          let own = self-Checks floats level_db schema nodes edges keys dt.id t in
          let m = self floats level_db schema nodes edges keys dt.id t in
          let first : FitsAt dt s x = offered x (ground (arith, text_eq_refl x)) in
          Ensures-bind (λ s'. Sounds (dt ∷ steps) s s' × LinkedBy (dt ∷ steps) s s')
            (LinkedBy (dt ∷ steps) s) _ _
            (Ensures-both (Sounds (dt ∷ steps) s) (LinkedBy (dt ∷ steps) s) _
              (tried-Sound floats level_db schema nodes edges keys dt steps next s it m n.sound
                n.fresh kept.0 own)
              (tried-Linked dt steps next s it x m n kept.0 kept.1 (λ given. (a, first)) own))
            λ s' r.
              Ensures-test (LinkedBy (dt ∷ steps) s) s'.found _ _ (λ found. r.1)
                λ lost.
                  weaken (try_each floats level_db schema nodes edges keys put next dt.id xs s')
                    (try_each-Linked put dt steps next xs s' p q n a λ y there.
                      Fits-Kept floats level_db schema nodes edges keys dt.constraint dt.id s s' y
                        (Around-map dt.constraint dt.id (λ i f. r.0.keeps i f) a)
                        (offered y (ground (arith, there))))
                    λ s'' later before won. later lost won
