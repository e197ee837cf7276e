-- ===== src/TfLabel/Components.antt =====
-- `dfs` and `find_scc` of include/algorithm/tflabel.hpp: Tarjan's search for the strongly connected
-- components. `none` is the top of an empty stack, and stands for too few rounds of the recursion.
pub mod Grown
pub mod Visits
use network_algo.Prelude.{
  ℕ, zero, suc, ◌+◌, Option, none, some, List, [], ◌∷◌, ltb, ◌==◌, if◌then◌else◌,
}
use network_algo.TfLabel.{Array, store}

pub record Tarjan : Type 0 where
  pub pre : Array ℕ
  pub lowlink : Array ℕ
  pub sccno : Array ℕ
  pub dfs_clock : ℕ
  pub scc_cnt : ℕ
  pub stack : List ℕ

-- `min` of two numbers
unfoldable pub min : ℕ → ℕ → ℕ
min a b = if ltb b a then b else a

-- What `dfs` begins with.
unfoldable pub enter : ℕ → Tarjan → Tarjan
enter u s =
    let clock = s.dfs_clock + 1 in
    record s {
      dfs_clock = clock;
      pre = store s.pre u clock;
      lowlink = store s.lowlink u clock;
      stack = u ∷ s.stack;
    }

-- `lowlink[u] = min(lowlink[u], bound)`
unfoldable pub lower : ℕ → ℕ → Tarjan → Tarjan
unfolding min
lower u bound s = record s { lowlink = store s.lowlink u (min (s.lowlink u) bound) }

-- The edge from `u` to `v`, with the recursive call handed in.
unfoldable pub visit : (ℕ → Tarjan → Option Tarjan) → ℕ → ℕ → Tarjan → Option Tarjan
unfolding lower
visit call u v s =
    if s.pre v == 0
    then elim (call v s) [ none ↦ none | some s' ↦ some (lower u (s'.lowlink v) s') ]
    else if s.sccno v == 0
    then some (lower u (s.pre v) s)
    else some s

unfoldable pub visit_all : (ℕ → Tarjan → Option Tarjan) → ℕ → List ℕ → Tarjan → Option Tarjan
unfolding visit
visit_all call u [] s = some s
visit_all call u (v ∷ vs) s = elim (visit call u v s) [
  | none ↦ none
  | some s' ↦ visit_all call u vs s'
]

-- The nodes on the stack down to `u` are a component.
unfoldable pub pop_until : ℕ → List ℕ → Tarjan → Option Tarjan
pop_until u [] s = none
pop_until u (x ∷ rest) s =
    let popped = record s { sccno = store s.sccno x s.scc_cnt; stack = rest } in
    let further = pop_until u rest popped in if x == u then some popped else further

unfoldable pub close : ℕ → Tarjan → Option Tarjan
unfolding pop_until
close u s =
    if s.lowlink u == s.pre u
    then pop_until u s.stack (record s { scc_cnt = s.scc_cnt + 1 })
    else some s

-- `dfs`, with a bound on the depth of its recursion.
unfoldable pub dfs : Array (List ℕ) → ℕ → ℕ → Tarjan → Option Tarjan
unfolding enter visit_all close
dfs gg zero u s = none
dfs gg (suc depth) u s = elim (visit_all (dfs gg depth) u (gg u) (enter u s)) [
  | none ↦ none
  | some s' ↦ close u s'
]

-- The loop of `find_scc` with the given number of rounds from node `i` on.
unfoldable pub search_from : Array (List ℕ) → ℕ → ℕ → ℕ → Tarjan → Option Tarjan
unfolding dfs
search_from gg depth zero i s = some s
search_from gg depth (suc rounds) i s = elim (if s.pre i == 0 then dfs gg depth i s else some s) [
  | none ↦ none
  | some s' ↦ search_from gg depth rounds (suc i) s'
]

-- `find_scc`, with `pre` as the constructor leaves it and the static stack as the first call finds it.
unfoldable pub find_scc : Array (List ℕ) → ℕ → Option Tarjan
unfolding search_from
find_scc gg n = search_from gg n n 0 (record {
  pre = λ x. 0;
  lowlink = λ x. 0;
  sccno = λ x. 0;
  dfs_clock = 0;
  scc_cnt = 0;
  stack = [];
})
