-- ===== src/Query.antt =====
-- The execution of a query: the order in which its nodes and edges are determined, and the tests that
-- candidates pass.
pub mod Deduction
pub mod Iterator
