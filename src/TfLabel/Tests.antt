-- ===== src/TfLabel/Tests.antt =====
-- Instances of the properties of include/algorithm/tflabel.hpp, on a graph of four nodes.
use network_algo.Prelude.{ℕ, zero, suc, ◌+◌, ◌≤◌, ◌<◌, ◌≡◌, some, List, [], ◌∷◌, codes, arith, true}
use network_algo.TfLabel.Toposort.{Targets, Search, toposort}
use network_algo.TfLabel.Toposort.Levels.{IsGraph, HasEdge}
use network_algo.TfLabel.Toposort.Order.{Ranked, Levelled, toposort-Levelled}
use network_algo.TfLabel.Toposort.Highest.{IsHighest, toposort-IsHighest}
use network_algo.TfLabel.Components.{Tarjan, find_scc}
use network_algo.TfLabel.Components.Grown.{visited}
use network_algo.TfLabel.Components.Visits.{find_scc-visited}
use network_algo.Decimals.{leading_digits, decimal}
use network_algo.TfLabel.Findfa.{fit, findfa, findfa-decimal}
use network_algo.TfLabel.Labels.{elem, close_labels, close_labels-count}

-- From 0 over 1 and over 2 to 3.
abbrev diamond : Targets
diamond zero = 1 ∷ 2 ∷ []
diamond (suc zero) = 3 ∷ []
diamond (suc (suc zero)) = 3 ∷ []
diamond (suc (suc (suc x))) = []

diamond-IsGraph : IsGraph 4 diamond
diamond-IsGraph zero = (omega arith, (omega arith, tt))
diamond-IsGraph (suc zero) = (omega arith, tt)
diamond-IsGraph (suc (suc zero)) = (omega arith, tt)
diamond-IsGraph (suc (suc (suc x))) = tt

diamond-climbs : (x y : ℕ) → x < 4 → HasEdge 4 diamond x y → x < y
diamond-climbs zero y h e = ground arith
diamond-climbs (suc zero) y h e = ground arith
diamond-climbs (suc (suc zero)) y h e = ground arith
diamond-climbs (suc (suc (suc x))) y h e = absurd (omega arith)

diamond-Ranked : Ranked 4 diamond
diamond-Ranked = record { height = λ x. x; climbs = diamond-climbs }

toposort-Levelled_example :
    (s : Search) × (toposort (λ n. n) 4 diamond ≡ some (s, s.maxx + 1)) × Levelled 4 diamond s.tln
toposort-Levelled_example = toposort-Levelled (λ n. n) 4 diamond diamond-IsGraph diamond-Ranked

toposort-IsHighest_example :
    (s : Search) × (toposort (λ n. n) 4 diamond ≡ some (s, s.maxx + 1))
    × IsHighest s
    × (((x : ℕ) → diamond x ≡ []) → s.maxx ≡ 0)
toposort-IsHighest_example = toposort-IsHighest (λ n. n) 4 diamond diamond-IsGraph

findfa-decimal_example :
    (findfa (codes "40-7") ≡ fit (decimal (leading_digits (codes "40-7"))))
    × (leading_digits (codes "40-7") ≡ [] → findfa (codes "40-7") ≡ some 0)
findfa-decimal_example = findfa-decimal (codes "40-7")

-- Node 0 has label 1, and node 1 label 2.
abbrev chain : ℕ → List ℕ
chain zero = 1 ∷ []
chain (suc zero) = 2 ∷ []
chain (suc (suc x)) = []

close_labels-count_example :
    (0 < 1
      → (ele e : ℕ) → elem ele (chain 0) ≡ true
      → elem e (chain ele) ≡ true
      → elem e (close_labels 1 chain 0) ≡ true)
    × (1 ≤ 0 → close_labels 1 chain 0 ≡ chain 0)
close_labels-count_example = close_labels-count 1 0 chain

find_scc-visited_example :
    (s : Tarjan) × (find_scc diamond 4 ≡ some s) × ((x : ℕ) → x < 4 → visited s x ≡ true)
find_scc-visited_example = find_scc-visited 4 diamond diamond-IsGraph
