-- ===== src/Lib.antt =====
-- A model of network_algo, an embedded graph database over LevelDB with a small query language.
--
-- The parts and how they interact. A query is a text such as
--   select (a id="1")-[e]->(b) return a, e
-- which the lexer and the parser of src/graphdsl.cpp turn into a sentence (include/graphdsl.hpp).
-- A graph (include/backend/leveldbgraph.hpp) keeps nodes, edges and, for each node, the ids of its
-- edges in a database, and the latter in caches too (include/typedmrumap.hpp). A query on a graph
-- orders the nodes and edges of the pattern (include/backend/leveldbgraph_deduction.inc) and
-- searches candidates for them in that order (include/backend/leveldbgraph_iterator.inc).
--
-- Prelude: Boolean tests, lists and texts over the native numbers, equality as an instance.
-- Containers: `std::map` and `std::unordered_map` as lists. Assoc is by any key, Timeline is
--   `std::map<size_t, K>` in the order of its keys.
-- Dsl: src/graphdsl.cpp.
--   Syntax has the data; Stream is the input stream with its flags; Outcome is a result, an
--   exception or undefined behaviour (`front()` of an empty deque), with the state that is left.
--   Lexer: getToken and what it calls. A loop runs on fuel, the rounds that the rest of the stream
--   leaves, each of which takes a character or a token.
--   Parser and Sentence: getProperty, getId, getNode, getEdge and parseGraphSqlImpl on the token queue.
--   Sentence/Printer spells a sentence as tokens, an independent description of the syntax.
-- MruMap: TypedMRUMap, with `size_t` arithmetic modulo 2^64. `store` is `m[k] = v`, and `none` where
--   operator[] returns a dangling reference. Invariant relates the three tables; Eviction is about
--   clearNotUsedCache, Store about find and operator[], Room about a map whose bound is not reached.
-- Graph: leveldbgraph.hpp and leveldbgraph_db_utility.inc.
--   Storage has LevelDB and the serialisations as parameters, with their documented behaviour as
--   laws. Keys is addSuffix. Operations and Removal are the member functions; the two
--   specialisations, for directed and undirected graphs, differ in a flag. `none` is an assertion
--   that fails or a dangling reference. View is the graph that a database stands for, a function of
--   keys; Caches relates database, open batch and caches; Refinement and Removal/Refinement state
--   the member functions on the view, Membership what is read back from the database. Samples has
--   the parameters for the tests.
-- Query/Deduction: leveldbgraph_deduction.inc, every function. Positions, Order and Sequence are about which
--   positions the steps determine and in which order.
-- Query/Iterator: the tests of leveldbgraph_iterator.inc on a candidate (checkLeftConstrained,
--   checkRightConstrained), in Properties isSelfConstrained with compareProperties, and, in Ends, the
--   nodes at known edges, with assertions enabled. Candidates and Search are searchPossible of the
--   directed graph, with the constructor of its iterator; Search/Sound and Search/Pass are about what passes
--   isSelfConstrained, Search/Linked and Search/Matched about how what is found is connected. Next is
--   findNextPossible. Operators has
--   ++, *, -> and == of the iterator, getNode of a result, query, and the loop of a client to the end.
--   AllNodes is about that loop for a query of one node, Results about ++ and Queried about the first
--   result for every query.
-- Dsl/Manager: GraphSqlManager, the sentences by the address of their text, over a memory.
-- Reflection: include/reflection.hpp. Numbers has std::stol and the integer conversions, Compare the
--   conversions of texts and reflectedCompare; the protobuf messages and the floating-point numbers
--   are parameters. Decimals has the numbers that digits denote.
-- TfLabel: include/algorithm/tflabel.hpp. Toposort is toposort, Components is dfs and find_scc, Findfa
--   is findfa, Labels has the loops of construct over the labels. Names has the ids of nodes and edges
--   (to_string, atoi), Numbering the renumbering of the nodes of the file and Reading the rest of read.
--   Splitting is parts (a) and (b) of construct, Removing part (c) and what follows it, Construct the
--   loops over them and preprocess. Messages has the generated messages as parameters. Runs has the tests.
-- Graph/Memory: include/graph.hpp, the graph in memory.
-- DiskSet: include/diskset.hpp over an ordered database, whose cursors are a parameter with laws on the
--   keys that are still ahead.
--
-- Bounds. Positions of a pattern are natural numbers, the left bound -1 being `none`. The program narrows
-- them to `int`: a position that no `int` holds gives no index, and a difference that overflows no steps, so that
-- a pattern has fewer than 2^30 nodes. The theorems on a graph ask for room in its caches: the number of
-- uses that an operation makes of a cache, four for an edge, stays within what the bound of 1024 *
-- 1024 leaves. An open graph has room for that many uses. The loop of toposort has as many rounds as
-- the graph has nodes, each of which takes a node for good; the recursion of dfs is at most as deep,
-- since each call visits a node that was not visited. The loop of DiskSet's end has two rounds, from
-- the last key to behind it. The numbers of nodes and levels are natural numbers: the arrays of
-- TFLabel hold fewer than 2^31 nodes. The numbers in the file of read are not negative, and where its arrays
-- have no entry for one, read gives nothing.
-- The loops of findNextPossible and those of a client over the results of a query have a number of rounds
-- as an argument, of which a too small one ends in a fault of its own, out_of_rounds; for a query of one node
-- as many rounds as the database has keys are enough. In general no number need be enough: construct
-- writes to the graph that it iterates over, and a query that ends at an unconstrained edge finds it again.
--
-- Not modelled: opening and closing a database and its errors, allocation failures, the search of the
-- undirected graph (its query() throws before it), the second loop of TFLabel's read, which only logs what
-- a query gives, the map on disk (include/lazycache.hpp, of which the most is SQL), omni_cast (used nowhere),
-- and logging. include/graph_interface.hpp declares virtual functions only.
pub mod Prelude
pub mod Dsl
pub mod Containers
pub mod MruMap
pub mod Graph
pub mod Query
pub mod TfLabel
pub mod Decimals
pub mod Reflection
pub mod DiskSet
