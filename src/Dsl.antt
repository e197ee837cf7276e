-- ===== src/Dsl.antt =====
-- The query language of src/graphdsl.cpp and include/graphdsl.hpp: sentences, tokens, the lexer over
-- a `std::istringstream`, the parser over a `std::deque<token>`, and the cache of parsed sentences.
pub mod Syntax
pub mod Outcome
pub mod Stream
pub mod Lexer
pub mod Parser
pub mod Sentence
pub mod Manager
