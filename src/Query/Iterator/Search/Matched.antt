-- ===== src/Query/Iterator/Search/Matched.antt =====
-- What a search finds is linked as the constraints of the deduction steps say.
use network_algo.Prelude.{◌≡◌, false, List, [], ◌∷◌, Text}
use network_algo.Reflection.Compare.{Floats, Reflection}
use network_algo.Graph.Storage.{LevelDb, Schema}
use network_algo.Graph.Operations.{Graph}
use network_algo.Query.Deduction.{DeductionTrait}
use network_algo.Query.Iterator.{Result, Iterator}
use network_algo.Query.Iterator.Search.Sound.{State}
use network_algo.Query.Iterator.Search.Pass.{AreDistinct}
use network_algo.Query.Iterator.Search.Match.{LinkedBy, Further, IsAfter}

module _ (floats : Floats) (level_db : LevelDb) (schema : Schema)
    (nodes : Reflection floats schema.Node) (edges : Reflection floats schema.Edge)
    (keys : level_db.Db → List Text) where
  abbrev S : Type 0
  S = State floats level_db schema nodes edges keys

  abbrev Links : List DeductionTrait → S → S → Type 0
  Links steps s s' = LinkedBy floats level_db schema nodes edges keys steps s s'

  abbrev Before : DeductionTrait → List DeductionTrait → (S → Result S) → Type 0
  Before dt steps next = Further floats level_db schema nodes edges keys dt steps next

  abbrev After : DeductionTrait → List DeductionTrait → Type 0
  After dt steps = IsAfter floats level_db schema nodes edges keys dt steps

  -- The positions that the constraint of a step names have steps before it, or none.
  abbrev pub AreOrdered : List DeductionTrait → Type 0
  AreOrdered [] = Unit
  AreOrdered (dt ∷ steps) = (dt.direct ≡ false → After dt steps) × AreOrdered steps

  abbrev Distinct : List DeductionTrait → Type 0
  Distinct steps = AreDistinct floats level_db schema nodes edges keys steps
