-- ===== src/TfLabel/Splitting.antt =====
-- The first two loops of `construct` of include/algorithm/tflabel.hpp, parts (a) and (b): an edge over more than
-- one level is led over a new node beside its end with an odd level.
pub mod Invariant
use network_algo.Prelude.{
  ℕ, suc, ◌+◌, ◌-◌, ◌%◌, Bool, true, false, Option, none, some, List, [], ◌∷◌, ◌++◌, Text, ltb,
  ◌==◌, ◌&&◌, if◌then◌else◌,
}
use network_algo.Graph.Storage.{LevelDb, Schema}
use network_algo.Graph.Operations.{Side, Graph, get_node, get_edge, set_node, set_edge}
use network_algo.Graph.Removal.{remove_edge}
use network_algo.Query.Iterator.{Result, ok, err, Fault, ◌>>=◌, ids_of}
use network_algo.TfLabel.{Array, store}
use network_algo.TfLabel.Names.{to_string, edge_name}
use network_algo.TfLabel.Messages.{Messages, asserted, number_of, edge_of}

-- `tot` and `fa`
abbrev pub Fathers : Type 0
Fathers = ℕ × Array ℕ

module _ (level_db : LevelDb) (schema : Schema) (messages : Messages schema) where
  -- What a round has for its node: `n`, if `flag` is set, the edges to remove, `tot` and `fa`, and the graph.
  pub record Split : Type 0 where
    pub part : Option schema.Node
    pub edge_remove : List Text
    pub tot : ℕ
    pub fa : Array ℕ
    pub graph : Graph level_db

  -- The new node beside `a`, of which the number is `x`; it is made once.
  unfoldable pub part_of : schema.Node → ℕ → ℕ → Split → schema.Node × Split
  unfolding to_string set_node
  part_of a x level s = elim s.part [
    | some n ↦ (n, s)
    | none ↦
        let n = messages.set_level level (messages.set_id (to_string s.tot) a) in
        (
          n,
          record s {
            part = some n;
            tot = s.tot + 1;
            fa = store s.fa s.tot (s.fa x);
            graph = set_node level_db schema n s.graph;
          },
        )
  ]

  -- Edge `e` is to be removed, and `from` leads to `middle` and that to `to`. The edges are written in the
  -- order of the given flag: for `true`, the first part first.
  unfoldable pub lead_over : Bool → Text → Text → Text → Text → Split → Result Split
  unfolding edge_name set_edge
  lead_over first_part_first e from middle to s =
      let first = edge_of messages (edge_name from middle) from middle in
      let second = edge_of messages (edge_name middle to) middle to in
      let one = if first_part_first then first messages.new_edge else second messages.new_edge in
      let two = if first_part_first then second one else first one in
      do
        g₁ ← asserted (set_edge level_db schema true one s.graph)
        g₂ ← asserted (set_edge level_db schema true two g₁)
        ok (record s { edge_remove = s.edge_remove ++ (e ∷ []); graph = g₂ })

  -- An edge out of `a`, in part (a).
  unfoldable pub split_out : schema.Node → ℕ → Text → Split → Result Split
  unfolding part_of lead_over
  split_out a x e s = do
    m ← asserted (get_node level_db schema (schema.to (get_edge level_db schema e s.graph)) s.graph)
    if ltb (messages.level a + 1) (messages.level m)
        then (let made = part_of a x (messages.level a + 1) s in
            lead_over true e (schema.node_id a) (schema.node_id made.0) (schema.node_id m) made.1)
        else ok s

  -- An edge into `a`, of which the level is odd, in part (b).
  unfoldable pub split_in : schema.Node → ℕ → Text → Split → Result Split
  unfolding part_of lead_over
  split_in a x e s = do
    m ←
        asserted
          (get_node level_db schema (schema.from (get_edge level_db schema e s.graph)) s.graph)
    let tmp = messages.level m
    if ltb tmp (messages.level a - 1) && tmp % 2 == 0
        then (let made = part_of a x (messages.level a - 1) s in
            lead_over false e (schema.node_id m) (schema.node_id made.0) (schema.node_id a) made.1)
        else ok s

  unfoldable pub split_each : (Text → Split → Result Split) → List Text → Split → Result Split
  split_each split [] s = ok s
  split_each split (e ∷ es) s = split e s >>= λ s'. split_each split es s'

  unfoldable pub remove_each : List Text → Graph level_db → Result (Graph level_db)
  unfolding remove_edge
  remove_each [] g = ok g
  remove_each (e ∷ es) g =
      asserted (remove_edge level_db schema true e g) >>= λ g'. remove_each es g'

  -- The body of one of the loops for a node `a`, over its edges on a side.
  unfoldable pub split_node :
      Side
      → (schema.Node → ℕ → Text → Split → Result Split)
      → Fathers
      → schema.Node
      → Graph level_db
      → Result (Fathers × Graph level_db)
  unfolding split_each remove_each
  split_node side split fathers a g = do
    x ← number_of (schema.node_id a)
    if messages.level a % 2 == 0 then ok (fathers, g) else (do
      read ← ids_of level_db schema side (schema.node_id a) g
      s ← split_each (split a x) read.0 (record {
        part = none;
        edge_remove = [];
        tot = fathers.0;
        fa = fathers.1;
        graph = read.1;
      })
      g' ← remove_each s.edge_remove s.graph
      ok ((s.tot, s.fa), g'))
