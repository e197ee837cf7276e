-- ===== src/Containers.antt =====
-- The standard containers that the sources use: maps as association lists, and a map from numbers
-- in the order of its keys.
pub mod Assoc
pub mod Timeline
