-- ===== src/Graph/Memory.antt =====
-- The graph in memory, include/graph.hpp. A `std::map` is the list of its entries; which keys are the same is
-- what the type of the ids says of equality. Nothing reads or writes the multimap of edges.
mod Tests
use network_algo.Prelude.{ℕ, Bool, Option, List, length, Eq}
use network_algo.Containers.Assoc.{lookup, insert_entry}

-- `Node`, with the types of its property, of its index and of its labels.
pub record Node (Property Index Label : Type 0) : Type 0 where
  pub index : Index
  pub labels : List Label
  pub property : Property

pub record Edge (Property Index : Type 0) : Type 0 where
  pub from : Index
  pub to : Index
  pub property : Property

-- `Graph`
pub record MemoryGraph (NodeProperty EdgeProperty Index Label : Type 0) : Type 0 where
  pub edge_map : List (Index × Edge EdgeProperty Index)
  pub node_map : List (Index × Node NodeProperty Index Label)

module _ {NodeProperty EdgeProperty Index Label : Type 0} ⦃e : Eq Index⦄ where
  -- `getNode`, where `none` is `nodeMapEnd()`.
  unfoldable pub get_node :
      Index
      → MemoryGraph NodeProperty EdgeProperty Index Label
      → Option (Node NodeProperty Index Label)
  unfolding lookup
  get_node index g = lookup index g.node_map

  unfoldable pub node_size : MemoryGraph NodeProperty EdgeProperty Index Label → ℕ
  node_size g = length g.node_map

  -- `addNode`: the graph, the node at the iterator that is returned, and whether it was inserted.
  unfoldable pub add_node :
      Node NodeProperty Index Label
      → MemoryGraph NodeProperty EdgeProperty Index Label
      → MemoryGraph NodeProperty EdgeProperty Index Label × Node NodeProperty Index Label × Bool
  unfolding insert_entry
  add_node node g =
      let (node_map, there, inserted) = insert_entry node.index node g.node_map in
      (record g { node_map = node_map }, there, inserted)
