-- ===== src/TfLabel/Runs.antt =====
-- Instances of the properties of `read` and `construct` of include/algorithm/tflabel.hpp, with nodes that are
-- serialised as their level and their id.
use network_algo.Prelude.{
  ℕ, zero, suc, ◌≤◌, ◌<◌, ◌≡◌, refl, ap, true, none, some, [], ◌∷◌, ◌++◌, Text, text_eq, codes,
  arith, length, get_elem?, ◌&&◌,
}
use network_algo.Graph.IdSet.{member}
use network_algo.Graph.Storage.{Schema}
use network_algo.Graph.Operations.{Side, Graph, open_graph}
use network_algo.Graph.Samples.{list_db, join, edge_of, split, split-join}
use network_algo.Query.Iterator.{Result, ok, err}
use network_algo.TfLabel.Labels.{elem}
use network_algo.TfLabel.Components.{Tarjan, find_scc}
use network_algo.TfLabel.Components.Grown.{visited}
use network_algo.Dsl.Lexer.{is_digit}
use network_algo.Graph.Keys.{add_suffix, Suffix}
use network_algo.Graph.Operations.{
  suffix_of, leave_id, stored_ids, set_edge, get_node, get_edge, get_ids,
}
use network_algo.MruMap
use network_algo.Containers.Assoc
use network_algo.Graph.IdSet
use network_algo.MruMap.{find, inserted, record_use}
use network_algo.Containers.Assoc.{lookup}
use network_algo.TfLabel.Findfa.{findfa}
use network_algo.TfLabel.Names.{to_string, findfa-to_string}
use network_algo.TfLabel.Numbering.{Pairs, ends, sort_unique, Renumbered, renumbered}
use network_algo.TfLabel.Numbering.Targets.{has_pair, renumbered-find_scc}
use network_algo.TfLabel.Messages.{Messages}
use network_algo.TfLabel.Splitting.{Fathers, split_out, split_node}
use network_algo.TfLabel.Splitting.Invariant.{IsFathered}
use network_algo.TfLabel.Removing.{Labelling, settle, bridges}
use network_algo.TfLabel.Removing.Bounded.{Below, settle-bounded}
use network_algo.TfLabel.Removing.Bridges.{leads, leads-bridges}

findfa-to_string_example : findfa (to_string 40 ++ codes "-7") ≡ some 40
unfolding is_digit
findfa-to_string_example = findfa-to_string 40 (codes "-7") (omega arith) refl

-- Two nodes with an edge in each direction.
abbrev circle : Pairs
circle = (5, 7) ∷ (7, 5) ∷ []

renumbered-find_scc_example :
    (r : Renumbered) × (renumbered (λ x. x) circle ≡ some r)
    × ((x : ℕ) → elem x (ends circle) ≡ true → get_elem? r.v (r.number x) ≡ some x)
    × ((x y : ℕ) → has_pair x y circle ≡ true → elem (r.number y) (r.gg (r.number x)) ≡ true)
    × (s : Tarjan) × (find_scc r.gg (length r.v) ≡ some s)
    × ((x : ℕ) → x < length r.v → visited s x ≡ true)
renumbered-find_scc_example =
    renumbered-find_scc (λ x. x) circle
      (omega arith, (omega arith, (omega arith, (omega arith, tt))))
      (unfold sort_unique in omega arith)

abbrev level_first : Text → Text × ℕ
level_first [] = ([], 0)
level_first (l ∷ id) = (id, l)

abbrev level_schema : Schema
level_schema = record {
  Node = Text × ℕ;
  Edge = Text × Text × Text;
  node_id = λ n. n.0;
  edge_id = λ e. e.0;
  from = λ e. e.1;
  to = λ e. e.2;
  encode_node = λ n. n.1 ∷ n.0;
  decode_node = level_first;
  encode_edge = λ e. join (e.0 ∷ e.1 ∷ e.2 ∷ []);
  decode_edge = λ s. edge_of (split s);
  encode_ids = join;
  decode_ids = split;
  decode-encode_node = λ n. refl;
  decode-encode_edge = λ e. ap edge_of (split-join (e.0 ∷ e.1 ∷ e.2 ∷ []));
  decode-encode_ids = split-join;
}

abbrev level_messages : Messages level_schema
level_messages = record {
  new_node = ([], 0);
  level = λ n. n.1;
  set_id = λ x n. (x, n.1);
  set_level = λ l n. (n.0, l);
  new_edge = ([], [], []);
  set_edge_id = λ x e. (x, e.1, e.2);
  set_from = λ x e. (e.0, x, e.2);
  set_to = λ x e. (e.0, e.1, x);
  id-set_id = λ x n. refl;
  id-set_level = λ l n. refl;
  level-set_id = λ x n. refl;
  level-set_level = λ l n. refl;
  from-set_from = λ x e. refl;
  from-set_to = λ x e. refl;
  to-set_to = λ x e. refl;
  id-set_edge_id = λ x e. refl;
  id-set_from = λ x e. refl;
  id-set_to = λ x e. refl;
}

leads-bridges_example :
    leads list_db level_schema level_messages
      (codes "1")
      (codes "3")
      (bridges list_db level_schema level_messages (codes "0" ∷ codes "1" ∷ []) (codes "3" ∷ []))
    ≡ (member (codes "1") (codes "0" ∷ codes "1" ∷ []) && member (codes "3") (codes "3" ∷ []))
leads-bridges_example =
    leads-bridges list_db level_schema level_messages (codes "1") (codes "3")
      (codes "0" ∷ codes "1" ∷ []) (codes "3" ∷ [])

-- Node 2 is a part of component 0.
abbrev three : Fathers
three = (3, λ x. elim x [ zero ↦ 0 | suc y ↦ elim y [ zero ↦ 1 | suc z ↦ 0 ] ])

three_below : (x : ℕ) → x < 3 → three.1 x < 2
three_below zero h = omega arith
three_below (suc zero) h = omega arith
three_below (suc (suc x)) h = omega arith

three-IsFathered : IsFathered 2 three
three-IsFathered = record { enough = omega arith; below = three_below }

abbrev own_and_two : Labelling
own_and_two = record { label_in = λ x. 2 ∷ 0 ∷ []; label_out = λ x. 1 ∷ []; order = 0 ∷ [] }

settle-bounded_example :
    (1 < 2
      → Below 2 ((settle three.1 2 own_and_two).label_in 1)
        × Below 2 ((settle three.1 2 own_and_two).label_out 1))
    × (2 ≤ 1
        → Below 3 ((settle three.1 2 own_and_two).label_in 1)
          × Below 3 ((settle three.1 2 own_and_two).label_out 1))
settle-bounded_example =
    settle-bounded 3 2 three.1 three-IsFathered own_and_two
      (λ k. ((omega arith, (omega arith, tt)), (omega arith, tt))) 1

-- Node 0 at level 1, node 1 at level 3, and the edge between them.
abbrev with_nodes : Graph list_db
with_nodes = open_graph list_db (
    (add_suffix (codes "0") Suffix.node_data, 1 ∷ codes "0")
    ∷ (add_suffix (codes "1") Suffix.node_data, 3 ∷ codes "1")
    ∷ [])

abbrev long_edge : Text × Text × Text
long_edge = (codes "0-1", codes "0", codes "1")

abbrev with_edge : Graph list_db
with_edge = elim (set_edge list_db level_schema true long_edge with_nodes) [
  | none ↦ with_nodes
  | some g ↦ g
]

abbrev split_run : Result (Fathers × Graph list_db)
split_run =
    split_node list_db level_schema level_messages Side.outgoing
      (split_out list_db level_schema level_messages) (2, three.1) (codes "0", 1) with_edge

abbrev after_split : Fathers × Graph list_db
after_split = elim split_run [ err e ↦ (three, with_edge) | ok r ↦ r ]

-- Node 2 at level 2 is between them.
node_between :
    (after_split.0.0 ≡ 3)
    × (get_node list_db level_schema (codes "2") after_split.1 ≡ some (codes "2", 2))
    × (stored_ids list_db level_schema Side.outgoing (codes "0") after_split.1.db
        ≡ codes "0-2" ∷ [])
    × (stored_ids list_db level_schema Side.incoming (codes "1") after_split.1.db
        ≡ codes "2-1" ∷ [])
unfolding split_node split_out set_edge get_node get_edge get_ids add_suffix findfa find lookup
    text_eq inserted record_use member MruMap.store Assoc.insert Assoc.assign IdSet.insert suffix_of
    leave_id stored_ids IdSet.erase
node_between = (refl, refl, refl, refl)
