-- ===== src/Graph.antt =====
-- The graph over LevelDB of include/backend/leveldbgraph.hpp.
pub mod IdSet
pub mod Keys
pub mod Storage
pub mod Operations
pub mod View
pub mod Caches
pub mod Refinement
pub mod Removal
pub mod Destruction
pub mod Samples
mod Tests
pub mod Membership
pub mod Memory
