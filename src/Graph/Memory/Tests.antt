-- ===== src/Graph/Memory/Tests.antt =====
-- Runs of include/graph.hpp on a graph with one node.
use network_algo.Prelude.{ℕ, ◌≡◌, refl, true, false, some, [], ◌∷◌, codes, Text, Text_eq, text_eq}
use network_algo.Containers.Assoc.{lookup, insert, insert_entry}
use network_algo.Graph.Memory.{Node, MemoryGraph, get_node, node_size, add_node}

abbrev labelled : Text → ℕ → Node ℕ Text Text
labelled index property = record { index = index; labels = []; property = property }

abbrev with_x : MemoryGraph ℕ ℕ Text Text
with_x = record { edge_map = []; node_map = (codes "x", labelled (codes "x") 1) ∷ [] }

-- A node with an index that is there is not inserted.
again : add_node (labelled (codes "x") 2) with_x ≡ (with_x, labelled (codes "x") 1, false)
unfolding add_node insert_entry lookup text_eq
again = refl

-- A node with another index is, and is found.
another :
    let (g, there, inserted) = add_node (labelled (codes "y") 2) with_x in
    (get_node (codes "y") g ≡ some there) × (inserted ≡ true) × (node_size g ≡ 2)
unfolding add_node insert_entry lookup insert text_eq get_node node_size
another = (refl, refl, refl)
