-- ===== src/Query/Iterator/Queried.antt =====
-- What `query` of include/backend/leveldbgraph.hpp finds: the order of the deduction steps is the one that the
-- search relies on.
use network_algo.Prelude.{ℕ, ◌≢◌, List, All}
use network_algo.Reflection.Compare.{Reflection}
use network_algo.Graph.Operations.{Graph}
use network_algo.Query.Deduction.{DeductionTrait}
use network_algo.Query.Iterator.Search.{Search}

-- No step of some is about a position.
abbrev NoneAbout : ℕ → List DeductionTrait → Type 0
NoneAbout i steps = All (λ dt. i ≢ dt.id) steps
