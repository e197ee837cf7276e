-- ===== src/Query/Iterator/Assertions.antt =====
-- Where the tests of include/backend/leveldbgraph_iterator.inc cannot succeed.
use network_algo.Prelude.{ℕ, ◌+◌, ◌*◌, ◌≡◌, ◌≢◌, Bool, true, false, if◌then◌else◌, arith}
use network_algo.Graph.Storage.{LevelDb, Schema}
use network_algo.Graph.Operations.{Graph}
use network_algo.Query.Deduction.{is_node, is_edge}
use network_algo.Query.Iterator.{
  edge_before, is_behind_node, Result, ok, err, Fault, ◌>>=◌, Iterator, edge_index, node_at,
  direction_at, edge_after_node, node_after_edge, check_left_constrained,
}

-- A chain that ends in a fault in any case does not succeed.
fault-bind :
    {A B : Type 0} (m : Result A) (f : A → Result B) (r : B)
    → ((a : A) → f a ≢ ok r)
    → (m >>= f) ≢ ok r
fault-bind (ok a) f r h = h a
fault-bind (err e) f r h = cc

second-branch : {A : Type 0} (b : Bool) (x y z : A) → b ≡ false → y ≢ z → (if b then x else y) ≢ z
second-branch b x y z h other = rw h other

direction_at-node :
    (it : Iterator) (id : ℕ) → is_node id ≡ true → direction_at it id ≡ err Fault.assertion
unfolding direction_at edge_index is_edge
direction_at-node it id h = ground (arith, h)

faulty-bind :
    {A B : Type 0} (m : Result A) (e : Fault) (f : A → Result B) (r : B)
    → m ≡ err e
    → (m >>= f) ≢ ok r
faulty-bind m e f r h = rw h (λ q. cc)

module _ (level_db : LevelDb) (schema : Schema) where
  node_after_edge-ne-ok :
      (it : Iterator) (id : ℕ) (g : Graph level_db) (r : Bool × Graph level_db)
      → is_node id ≡ true
      → node_after_edge level_db schema it id g ≢ ok r
  unfolding node_after_edge
  node_after_edge-ne-ok it id g r h = fault-bind (edge_before it id) _ r λ edge_id.
      fault-bind (node_at it id) _ r
        λ node. faulty-bind (direction_at it id) Fault.assertion _ r (direction_at-node it id h)

  -- On the directed graph, with assertions enabled, `checkLeftConstrained` returns for no node but the
  -- first: it asks for the edge index of the node's own position.
  pub check_left_constrained-ne-ok :
      (it : Iterator) (k : ℕ) (g : Graph level_db) (r : Bool × Graph level_db)
      → check_left_constrained level_db schema it (k * 2 + 2) g ≢ ok r
  unfolding check_left_constrained is_behind_node is_node
  check_left_constrained-ne-ok it k g r =
      second-branch (is_behind_node (k * 2 + 2)) (edge_after_node level_db schema it (k * 2 + 2) g)
        _ (ok r) (ground arith) (node_after_edge-ne-ok it (k * 2 + 2) g r (ground arith))
