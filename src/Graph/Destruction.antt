-- ===== src/Graph/Destruction.antt =====
-- `destroy` of include/backend/leveldbgraph.hpp.
use network_algo.Prelude.{
  ◌+◌, ◌<◌, ◌≡◌, refl, ap, ◌∙◌, Option-cases, inl, inr, none, some, [], Text, Text_eq, arith,
}
use network_algo.Containers.Assoc.{lookup}
use network_algo.MruMap.{size_mod, find}
use network_algo.MruMap.Invariant.{IsConsistent}
use network_algo.MruMap.Store.{find-lookup}
use network_algo.Graph.Keys.{Suffix, add_suffix}
use network_algo.Graph.Storage.{LevelDb, Schema}
use network_algo.Graph.Operations.{
  Side, suffix_of, Cache, Graph, cache, with_cache, get_ids, get_node, stored_ids,
}

-- A database that has just been made.
pub record NewDb (level_db : LevelDb) : Type 0 where
  pub no_data : level_db.Db
  pub get-no_data : (k : Text) → level_db.get k no_data ≡ none

-- `DestroyDB`, and the database is opened again.
unfoldable pub destroy : {level_db : LevelDb} → NewDb level_db → Graph level_db → Graph level_db
destroy new g = record g { db = new.no_data }

destroy-cache :
    {level_db : LevelDb} (new : NewDb level_db) (side : Side) (g : Graph level_db)
    → cache side (destroy new g) ≡ cache side g
unfolding destroy
destroy-cache new Side.outgoing g = refl
destroy-cache new Side.incoming g = refl

pub with_cache-db :
    {level_db : LevelDb} (side : Side) (c : Cache) (g : Graph level_db)
    → (with_cache side c g).db ≡ g.db
with_cache-db Side.outgoing c g = refl
with_cache-db Side.incoming c g = refl

destroyed-none :
    (level_db : LevelDb) (new : NewDb level_db) (k : Text) (g : Graph level_db)
    → level_db.get k (destroy new g).db ≡ none
unfolding destroy
destroyed-none level_db new k g = new.get-no_data k

destroyed-stored :
    (level_db : LevelDb) (schema : Schema) (new : NewDb level_db) (side : Side) (id : Text)
    (c : Cache) (g : Graph level_db)
    → stored_ids level_db schema side id (with_cache side c (destroy new g)).db ≡ []
unfolding stored_ids
destroyed-stored level_db schema new side id c g =
    ap (stored_ids level_db schema side id) (with_cache-db side c (destroy new g))
    ∙ ground (arith, destroyed-none level_db new (add_suffix id (suffix_of side)) g)

-- After `destroy` the graph has no node any more, and yet the sets of edges that a cache with
-- consistent tables holds are still read, as long as its timestamp does not wrap around; of every
-- other node the set is empty.
pub destroy-get_ids :
    (level_db : LevelDb) (schema : Schema) (new : NewDb level_db) (side : Side) (id : Text)
    (g : Graph level_db)
    → IsConsistent (cache side g)
    → (cache side g).timestamp + 1 < size_mod
    → (get_node level_db schema id (destroy new g) ≡ none)
      × ((g' : Graph level_db) × (get_ids level_db schema side id (destroy new g)
            ≡ some (elim (lookup id (cache side g).map) [ none ↦ [] | some ids ↦ ids ], g')))
unfolding get_ids get_node
destroy-get_ids level_db schema new side id g c small =
    let (c', found, kept, consistent) = find-lookup id (cache side g) c small in
    let lost = destroyed-none level_db new (add_suffix id Suffix.node_data) g in
    let at = ap (find id) (destroy-cache new side g) ∙ found in
    let g' = with_cache side c' (destroy new g) in
    (
      ground (arith, lost),
      (
        g',
        elim (Option-cases (lookup id (cache side g).map)) [
          | inl missing ↦
              ground (arith, at, missing, destroyed-stored level_db schema new side id c' g)
          | inr (ids, held) ↦ ground (arith, at, held)
        ],
      ),
    )
