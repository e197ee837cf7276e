-- ===== src/TfLabel/Removing/Bridges.antt =====
-- The edges that `construct` of include/algorithm/tflabel.hpp puts in place of a node.
use network_algo.Prelude.{
  ◌≡◌, refl, ◌∙◌, Bool, false, List, [], ◌∷◌, ◌++◌, ◌||◌, ◌&&◌, Text, text_eq, arith,
}
use network_algo.Graph.IdSet.{member}
use network_algo.Graph.Storage.{LevelDb, Schema}
use network_algo.TfLabel.Names.{edge_name}
use network_algo.TfLabel.Messages.{Messages, edge_of}
use network_algo.TfLabel.Removing.{bridges_to, bridges}

module _ (level_db : LevelDb) (schema : Schema) (messages : Messages schema) where
  -- Whether some edge of a list leads from one node to another.
  abbrev pub leads : Text → Text → List schema.Edge → Bool
  leads from to [] = false
  leads from to (e ∷ es) =
      text_eq from (schema.from e) && text_eq to (schema.to e) || leads from to es

  leads-append :
      (from to : Text) (xs ys : List schema.Edge)
      → leads from to (xs ++ ys) ≡ (leads from to xs || leads from to ys)
  leads-append from to [] ys = refl
  leads-append from to (e ∷ xs) ys = ground (arith, leads-append from to xs ys)

  leads-bridges_to :
      (from to end : Text) (sources : List Text)
      → leads from to (bridges_to level_db schema messages end sources)
        ≡ (member from sources && text_eq to end)
  unfolding bridges_to member
  leads-bridges_to from to end [] = refl
  leads-bridges_to from to end (source ∷ sources) =
      let e = edge_of messages (edge_name source end) source end messages.new_edge in
      let e' =
        messages.set_from source (messages.set_edge_id (edge_name source end) messages.new_edge) in
      let starts : schema.from e ≡ source =
        messages.from-set_to end e'
        ∙ messages.from-set_from source
            (messages.set_edge_id (edge_name source end) messages.new_edge) in
      let stops : schema.to e ≡ end = messages.to-set_to end e' in
      rw (starts, stops) (ground (arith, leads-bridges_to from to end sources))

  -- Among the edges that part (c) puts in place of a node, one leads from a node to another exactly where the
  -- first is among the sources of its edges and the second among their targets.
  pub leads-bridges :
      (from to : Text) (sources targets : List Text)
      → leads from to (bridges level_db schema messages sources targets)
        ≡ (member from sources && member to targets)
  unfolding bridges member
  leads-bridges from to sources [] = ground arith
  leads-bridges from to sources (end ∷ targets) =
      leads-append from to (bridges_to level_db schema messages end sources)
        (bridges level_db schema messages sources targets)
      ∙ ground (arith, leads-bridges_to from to end sources, leads-bridges from to sources targets)
