-- ===== src/Query/Iterator/Next.antt =====
-- `findNextPossible` of include/backend/leveldbgraph_iterator.inc, for the directed graph. The recursion is
-- on the deduction steps from the given one back to the first; a loop around it has a number of rounds.
pub mod Moved
pub mod Pass
use network_algo.Prelude.{
  ℕ, zero, suc, Bool, true, false, List, [], ◌∷◌, Text, text_eq, if◌then◌else◌,
}
use network_algo.Reflection.Compare.{Floats, Reflection}
use network_algo.Graph.IdSet.{text_lt}
use network_algo.Graph.Keys.{Suffix, suffix_text, add_suffix}
use network_algo.Graph.Storage.{LevelDb, Schema}
use network_algo.Graph.Operations.{Graph, get_edge}
use network_algo.Query.Deduction.{ConstraintType, DeductionTrait, is_node}
use network_algo.Query.Iterator.{
  Result, ok, err, Fault, ◌>>=◌, Iterator, node_at, edge_at, check_right_constrained,
}
use network_algo.Query.Iterator.Ends.{get_node_id_from_left_edge, get_node_id_from_right_edge}
use network_algo.Query.Iterator.Properties.{is_self_constrained}
use network_algo.Query.Iterator.Candidates.{put_node, put_edge, ids_with_suffix, intersection}
use network_algo.Query.Iterator.Search.{Search, and_also, self, left_edges, right_edges}

-- `Seek`: the keys from the first one on that is not below the given one.
unfoldable pub seek : Text → List Text → List Text
unfolding text_lt
seek k [] = []
seek k (x ∷ xs) = let rest = seek k xs in if text_lt x k then rest else x ∷ xs

-- `Next`, which asserts that the cursor is at a key.
unfoldable pub step : List Text → Result (List Text)
step [] = err Fault.invalid_cursor
step (x ∷ xs) = ok xs

-- What follows the element that `find` finds, which is nothing if there is none.
unfoldable pub behind : Text → List Text → List Text
behind x [] = []
behind x (y ∷ ys) = let rest = behind x ys in if text_eq y x then ys else rest

-- What is done where a call returns true, and where it returns false.
abbrev pub branch : {A B : Type 0} → Bool × A → (A → Result B) → (A → Result B) → Result B
branch (true, a) on_true on_false = on_true a
branch (false, a) on_true on_false = on_false a

module _ (floats : Floats) (level_db : LevelDb) (schema : Schema)
    (nodes : Reflection floats schema.Node) (edges : Reflection floats schema.Edge)
    (keys : level_db.Db → List Text) where
  abbrev pub S : Type 0
  S = Search floats level_db schema nodes edges keys

  -- What a call returns, with the candidate and the caches that it leaves.
  abbrev pub Move : Type 0
  Move = S → Result (Bool × S)

  -- One candidate after the other, until one passes `isSelfConstrained`.
  unfoldable pub try_next : (Iterator → ℕ → Text → Result Iterator) → ℕ → List Text → Move
  try_next put id [] s = ok (false, s)
  try_next put id (x ∷ xs) s = do
    it ← put s.it id x
    let tried = record s { it = it }
    passed ← is_self_constrained floats level_db schema nodes edges it id s.graph
    if passed then ok (true, tried) else try_next put id xs tried

  -- A loop over candidates: the first time those behind the one that is there, and each time that the
  -- steps before have moved on, all of them.
  unfoldable pub next_round :
      (Bool → S → Result (List Text × S))
      → (Iterator → ℕ → Text → Result Iterator)
      → Move
      → ℕ
      → ℕ
      → Bool
      → Move
  unfolding try_next
  next_round candidates put back id zero first s = err Fault.out_of_rounds
  next_round candidates put back id (suc rounds) first s = do
    got ← candidates first s
    tried ← try_next put id got.0 got.1
    branch tried (λ t. ok (true, t))
        λ t. do
          went ← back t
          branch went (λ u. next_round candidates put back id rounds false u) (λ u. ok (false, u))

  -- A loop over a node at a known edge. Where its test holds, the loop is left, and so is the function,
  -- without a value.
  unfoldable pub next_known :
      (Iterator → ℕ → Graph level_db → Result Text)
      → (ℕ → S → Result (Bool × Graph level_db))
      → Move
      → ℕ
      → ℕ
      → Move
  unfolding put_node
  next_known ends test back id zero s = err Fault.out_of_rounds
  next_known ends test back id (suc rounds) s = do
    went ← back s
    branch went
        (λ t. do
          x ← ends t.it id t.graph
          it ← put_node t.it id x
          let tried = record t { it = it }
          tested ← test id tried
          branch tested (λ g. err Fault.no_return)
              λ g. next_known ends test back id rounds (record tried { graph = g }))
        λ t. ok (false, t)

  -- The nodes of the database behind the one that is there, or all of them.
  unfoldable pub node_candidates : ℕ → List Text → Bool → S → Result (List Text × S)
  unfolding seek step
  node_candidates id ks true s = do
    x ← node_at s.it id
    rest ← step (seek (add_suffix x Suffix.node_data) ks)
    ok (ids_with_suffix (suffix_text Suffix.node_data) rest, s)
  node_candidates id ks false s = ok (ids_with_suffix (suffix_text Suffix.node_data) ks, s)

  unfoldable pub next_node : Move → ℕ → ConstraintType → ℕ → Move
  unfolding next_known next_round node_candidates self
  next_node back rounds ConstraintType.left_constrained id s =
      next_known (get_node_id_from_left_edge level_db schema)
        (self floats level_db schema nodes edges keys) back id rounds s
  next_node back rounds ConstraintType.right_constrained id s =
      next_known (get_node_id_from_right_edge level_db schema)
        (self floats level_db schema nodes edges keys) back id rounds s
  next_node back rounds ConstraintType.both_constrained id s =
      next_known (get_node_id_from_left_edge level_db schema)
        (λ i t.
          and_also floats level_db schema nodes edges keys
            (self floats level_db schema nodes edges keys i t)
            λ g. check_right_constrained level_db schema t.it i g)
        back id rounds s
  next_node back rounds ConstraintType.not_constrained id s =
      next_round (node_candidates id (keys s.graph.db)) put_node back id rounds true s

  -- A set of edges that was read, from behind an edge on or whole.
  abbrev pub edge_candidates :
      Text → Bool → Result (List Text × Graph level_db) → S → Result (List Text × S)
  edge_candidates x first got s =
      got >>= λ r. ok (if first then behind x r.0 else r.0, record s { graph = r.1 })

  -- The edges between two known nodes.
  unfoldable pub shared_edges : ℕ → S → Result (List Text × Graph level_db)
  shared_edges id s = do
    lefts ← left_edges floats level_db schema nodes edges keys id s
    rights ← right_edges floats level_db schema nodes edges keys id (record s { graph = lefts.1 })
    ok (intersection lefts.0 rights.0, rights.1)

  -- `x` is the id in the record of the edge that is there.
  unfoldable pub next_edge_behind : Text → Move → ℕ → ConstraintType → ℕ → Move
  unfolding next_round behind shared_edges seek try_next
  next_edge_behind x back rounds ConstraintType.left_constrained id s =
      next_round
        (λ first t.
          edge_candidates x first (left_edges floats level_db schema nodes edges keys id t) t)
        put_edge back id rounds true s
  next_edge_behind x back rounds ConstraintType.right_constrained id s =
      next_round
        (λ first t.
          edge_candidates x first (right_edges floats level_db schema nodes edges keys id t) t)
        put_edge back id rounds true s
  next_edge_behind x back rounds ConstraintType.both_constrained id s =
      next_round (λ first t. edge_candidates x first (shared_edges id t) t) put_edge back id rounds
        true s
  next_edge_behind x back rounds ConstraintType.not_constrained id s =
      try_next put_edge id
        (ids_with_suffix (suffix_text Suffix.edge_data)
          (seek (add_suffix x Suffix.edge_data) (keys s.graph.db)))
        s

  unfoldable pub next_edge : Move → ℕ → ConstraintType → ℕ → Move
  unfolding next_edge_behind
  next_edge back rounds c id s = do
    edge_id ← edge_at s.it id
    let e = get_edge level_db schema edge_id s.graph
    next_edge_behind (schema.edge_id e) back rounds c id s

  -- `findNextPossible`, for the steps from the given one back to the first.
  unfoldable pub find_next_possible : ℕ → List DeductionTrait → Move
  unfolding next_node next_edge
  find_next_possible rounds [] s = ok (false, s)
  find_next_possible rounds (dt ∷ before) s =
      if dt.direct
      then ok (false, s)
      else if is_node dt.id
      then next_node (find_next_possible rounds before) rounds dt.constraint dt.id s
      else next_edge (find_next_possible rounds before) rounds dt.constraint dt.id s
