-- ===== src/Graph/Tests.antt =====
-- Runs of `LevelDbGraph` (include/backend/leveldbgraph.hpp) over a database that is a list, with nodes
-- and edges that are serialised as words.
use network_algo.Prelude.{
  ◌+◌, ◌<◌, none, Text_eq, ◌≡◌, refl, true, false, some, List, [], ◌∷◌, Text, text_eq, codes, arith,
}
use network_algo.Graph.Samples.{list_db, word_schema, loop_edge, fresh, join}
use network_algo.Graph.IdSet.{member}
use network_algo.Graph.Membership.{remove_edge-member}
use network_algo.Graph.Operations.{Side, stored_ids, get_edge}
use network_algo.Containers.Assoc.{lookup}
use network_algo.Graph.Keys.{suffix_text}
use network_algo.Graph.Keys.{Suffix, add_suffix}
use network_algo.Graph.Operations.{Graph, open_graph, set_edge, set_edges_bundle}
use network_algo.Graph.View.{view, with_edge}
use network_algo.Graph.Caches.{IsReady, open_graph-IsReady}
use network_algo.Graph.Refinement.{
  with_ends, with_edges, with_all_ends, set_edge-view, set_edges_bundle-view,
}
use network_algo.Graph.Removal.{remove_edge}
use network_algo.Graph.Removal.Refinement.{unlinked, remove_edge-view}
use network_algo.MruMap
use network_algo.Containers.Assoc
use network_algo.MruMap.{size_mod, inserted, record_use}
use network_algo.MruMap.Invariant.{IsConsistent, empty-IsConsistent}
use network_algo.MruMap.Invariant.Insertion.{insert-IsConsistent}
use network_algo.Graph.Operations.{Cache, get_node, get_ids}
use network_algo.Graph.Destruction.{NewDb, destroy, destroy-get_ids}

set_edge-view_example :
    (g' : Graph list_db) × (set_edge list_db word_schema true loop_edge fresh ≡ some g')
    × (view list_db word_schema g'.db
        ≡ with_edge loop_edge (with_ends true loop_edge (view list_db word_schema [])))
    × IsReady list_db word_schema 0 [] g'
set_edge-view_example =
    set_edge-view list_db word_schema 0 true loop_edge fresh
      (open_graph-IsReady list_db word_schema 4 [] (omega arith))

set_edges_bundle-view_example :
    (g' : Graph list_db) × (set_edges_bundle list_db word_schema false (loop_edge ∷ []) fresh
      ≡ some g')
    × (view list_db word_schema g'.db
        ≡ with_all_ends false
            (loop_edge ∷ [])
            (with_edges (loop_edge ∷ []) (view list_db word_schema [])))
    × IsReady list_db word_schema 0 [] g'
set_edges_bundle-view_example =
    set_edges_bundle-view list_db word_schema 0 false (loop_edge ∷ []) fresh
      (open_graph-IsReady list_db word_schema 4 [] (omega arith))

-- The database of one edge and its two ends.
abbrev one_edge : List (Text × Text)
one_edge =
    (add_suffix (codes "e") Suffix.edge_data, join (codes "e" ∷ codes "a" ∷ codes "b" ∷ []))
    ∷ (add_suffix (codes "a") Suffix.out_edge, join (codes "e" ∷ []))
    ∷ (add_suffix (codes "b") Suffix.in_edge, join (codes "e" ∷ []))
    ∷ []

remove_edge-view_example :
    (g' : Graph list_db) × (remove_edge list_db word_schema true
        (codes "e")
        (open_graph list_db one_edge)
      ≡ some g')
    × (view list_db word_schema g'.db
        ≡ unlinked true (codes "e") (view list_db word_schema one_edge))
    × IsReady list_db word_schema 0 [] g'
remove_edge-view_example =
    remove_edge-view list_db word_schema 0 true (codes "e") (open_graph list_db one_edge)
      (open_graph-IsReady list_db word_schema 4 one_edge (omega arith))

remove_edge-member_example :
    (g' : Graph list_db) × (remove_edge list_db word_schema true
        (codes "e")
        (open_graph list_db one_edge)
      ≡ some g')
    × (member (codes "e") (stored_ids list_db word_schema Side.outgoing (codes "a") g'.db) ≡ false)
    × (member (codes "e") (stored_ids list_db word_schema Side.incoming (codes "b") g'.db) ≡ false)
    × (get_edge list_db word_schema (codes "e") g' ≡ loop_edge)
unfolding lookup add_suffix suffix_text text_eq
remove_edge-member_example =
    remove_edge-member list_db word_schema 0 true (codes "e") loop_edge
      (open_graph list_db one_edge)
      (open_graph-IsReady list_db word_schema 4 one_edge (omega arith)) refl

-- The cache holds the out-edges of `a`.
abbrev one_cached : Cache
one_cached = (MruMap.insert (codes "a") (codes "e" ∷ []) (MruMap.empty 1048576)).0

abbrev with_cached : Graph list_db
with_cached = record fresh { out_edge_cache = one_cached }

one_cached-IsConsistent : IsConsistent one_cached
one_cached-IsConsistent =
    insert-IsConsistent (codes "a") (codes "e" ∷ []) (MruMap.empty 1048576)
      (empty-IsConsistent 1048576) (omega arith)

one_cached-small : one_cached.timestamp + 1 < size_mod
unfolding MruMap.insert inserted record_use lookup Assoc.insert
one_cached-small = omega arith

nothing_there : (k : Text) → list_db.get k [] ≡ none
unfolding lookup
nothing_there k = refl

abbrev new_list : NewDb list_db
new_list = record { no_data = []; get-no_data = nothing_there }

destroy-get_ids_example :
    (get_node list_db word_schema (codes "a") (destroy new_list with_cached) ≡ none)
    × ((g' : Graph list_db) × (get_ids list_db word_schema Side.outgoing
            (codes "a")
            (destroy new_list with_cached)
          ≡ some (elim (lookup (codes "a") one_cached.map) [ none ↦ [] | some ids ↦ ids ], g')))
destroy-get_ids_example =
    destroy-get_ids list_db word_schema new_list Side.outgoing (codes "a") with_cached
      one_cached-IsConsistent one_cached-small
