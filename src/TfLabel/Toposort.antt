-- ===== src/TfLabel/Toposort.antt =====
-- `toposort` of include/algorithm/tflabel.hpp: the levels of the nodes of a graph without cycles. The
-- counters `cnt` and `sum`, which only the log shows, are left out. The logarithms by which the number
-- of levels is computed at the end are a parameter.
pub mod Sum
pub mod Relax
pub mod Levels
pub mod Start
pub mod Order
pub mod Highest
use network_algo.Prelude.{
  ℕ, zero, suc, ◌+◌, ◌-◌, Option, none, some, List, [], ◌∷◌, ◌++◌, ltb, ◌==◌, if◌then◌else◌,
}
use network_algo.TfLabel.{Array, store}

-- `G`
abbrev pub Targets : Type 0
Targets = Array (List ℕ)

pub record Search : Type 0 where
  pub deg : Array ℕ
  pub tln : Array ℕ
  pub queue : List ℕ
  pub maxx : ℕ

-- `max` of two numbers
unfoldable pub max : ℕ → ℕ → ℕ
max a b = if ltb a b then b else a

-- `deg[G[i][j]]++` for each target in the list.
unfoldable pub count_targets : List ℕ → Array ℕ → Array ℕ
count_targets [] deg = deg
count_targets (y ∷ ys) deg = count_targets ys (store deg y (deg y + 1))

-- The first loop, with the given number of rounds from node `i` on.
unfoldable pub count_degrees : Targets → ℕ → ℕ → Array ℕ → Array ℕ
unfolding count_targets
count_degrees g zero i deg = deg
count_degrees g (suc rounds) i deg = count_degrees g rounds (suc i) (count_targets (g i) deg)

-- The nodes without an edge to them go into the queue, at level 1.
unfoldable pub enqueue_sources : ℕ → ℕ → Search → Search
enqueue_sources zero i s = s
enqueue_sources (suc rounds) i s =
    enqueue_sources rounds (suc i)
      (if s.deg i == 0 then record s { queue = s.queue ++ i ∷ []; tln = store s.tln i 1 } else s)

-- The edge from `x` to `y` while `x` is processed.
unfoldable pub relax : ℕ → ℕ → Search → Search
unfolding max
relax x y s =
    let deg = store s.deg y (s.deg y - 1) in
    let tln = store s.tln y (max (s.tln y) (s.tln x + 1)) in
    record {
      deg = deg;
      tln = tln;
      queue = if deg y == 0 then s.queue ++ y ∷ [] else s.queue;
      maxx = max (tln y) s.maxx;
    }

unfoldable pub relax_all : ℕ → List ℕ → Search → Search
unfolding relax
relax_all x [] s = s
relax_all x (y ∷ ys) s = relax_all x ys (relax x y s)

-- `while (!q.empty())`; `none` means that the rounds were not enough.
unfoldable pub drain : Targets → ℕ → Search → Option Search
unfolding relax_all
drain g zero s = elim s.queue [ [] ↦ some s | x ∷ rest ↦ none ]
drain g (suc rounds) s = elim s.queue [
  | [] ↦ some s
  | x ∷ rest ↦ drain g rounds (relax_all x (g x) (record s { queue = rest }))
]

-- `toposort`, with `tln` as the constructor leaves it and the static `deg` as the first call finds it;
-- beside the arrays, `TF`.
unfoldable pub toposort : (ℕ → ℕ) → ℕ → Targets → Option (Search × ℕ)
unfolding count_degrees enqueue_sources drain
toposort log2 tot g =
    let counted = count_degrees g tot 0 (λ i. 0) in
    let started =
      enqueue_sources tot 0 (record { deg = counted; tln = λ i. 0; queue = []; maxx = 0 }) in
    elim (drain g tot started) [ none ↦ none | some s ↦ some (s, log2 s.maxx + 1) ]
