-- ===== src/TfLabel.antt =====
-- The labels of a flow graph, include/algorithm/tflabel.hpp. An array is a function of its index; no
-- index reaches the length of an array as long as the graph fits into them.
pub mod Components
pub mod Toposort
pub mod Findfa
pub mod Names
pub mod Numbering
pub mod Messages
pub mod Reading
pub mod Splitting
pub mod Removing
pub mod Construct
pub mod Labels
mod Tests
mod Runs
use network_algo.Prelude.{ℕ, ◌==◌, if◌then◌else◌}

abbrev pub Array : Type 0 → Type 0
Array A = ℕ → A

-- `a[i] = v`
abbrev pub store : {A : Type 0} → Array A → ℕ → A → Array A
store a i v = λ k. if i == k then v else a k
