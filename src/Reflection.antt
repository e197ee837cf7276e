-- ===== src/Reflection.antt =====
-- include/reflection.hpp: the values of a query's properties and their comparison with the fields of a
-- message. Integers are those of a machine with a `long` of 64 bits; floating-point numbers and the
-- messages of the protobuf library are parameters.
pub mod Numbers
pub mod Compare
pub mod Order
pub mod Values
pub mod Samples
mod Tests
