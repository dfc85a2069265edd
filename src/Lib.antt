-- ===== src/Lib.antt =====
-- Saengra keeps a graph of typed vertices and labelled edges in memory, takes batches of updates in
-- transactions, and matches patterns (expressions) on the graph for observers. This library models the
-- server's storage, the algebra of ref values that matching rests on, the planner of queries and the
-- matcher that runs their plans.
--
-- The program's parts and the files that model them:
--
-- Vertex.antt, Edge.antt (saengra-server/include/vertex.h, saengra-server/include/edge.h): vertices,
-- edges and their comparisons; Edge/Intersection the intersection of sorted edges. Text.antt:
-- `std::string`, a list of bytes. Interner.antt: the sets of interned labels and type names
-- (`internalize_label`, `internalize_type_name`). UndoLog.antt: the undo log that both containers
-- keep. UndoLog/Change has its entries, UndoLog/Net the net changes (`iter_just_changed`),
-- UndoLog/Layers the abstract view: a set in three layers, what is committed, what was applied last
-- and what is there now. Edges.antt (saengra-server/src/edges_container.cpp): Edges/Leaf (`UniLeaf`,
-- `MultiLeaf`), Edges/Branch (`Branch`), Edges/Trunk (`Trunk`) and Edges/Container
-- (`MutableEdgesContainer`), each operation under the name it has in the code. Below the container:
-- Sync (the two trunks mirror each other), Unlink, Refines and Bulk (modifications), Transactions,
-- Queries (iterators). Vertices.antt (saengra-server/src/vertices_container.cpp):
-- `MutableVerticesContainer`; Valid has its well-formedness, Refines and Transactions what its
-- operations do to the layers, Agrees which vertices identifiers stand for, and Contents what the
-- container shows after any operations. Graph.antt (saengra-server/src/graph.cpp):
-- `Graph`, which turns updates into operations of both containers (`update_impl` and the handlers of
-- the five kinds) and runs `apply`, `commit` and `rollback` over both. Consistent states what holds of
-- a graph between operations, Updates, Effects and Transactions prove what its operations do.
-- Refs.antt (saengra-server/src/refs.cpp): `Refs`, conjunctions of literals on the values of refs.
-- Meaning gives the values that they cover; Order, Normal, Canonical, Implies, Sorting, Union and
-- Subtract follow the operations.
-- Refs/Cells has their arrangement into cells (`arrange`), Terms, Correct, Disjoint and
-- First what the cells are.
-- Expression.antt, Plan.antt (saengra-server/include/expression.h, saengra-server/include/plan.h): the
-- trees of expressions and plans. Planner.antt and Planner/Visitor.antt (saengra-server/src/planner.cpp):
-- the cutting of runs into paths, and the visitor that makes a plan of an expression.
-- Subgraph.antt (saengra-server/include/subgraph.h, saengra-server/include/observable.h,
-- saengra-server/include/queryset.h): positions, subgraphs and observables.
-- Matcher.antt (saengra-server/src/matcher.cpp, saengra-server/include/matcher.h): the three modes and
-- what a visit finds. Matcher/Steps has vertices, edges and paths, Matcher/Steps/Known edges to a known
-- vertex, Matcher/Groups the grouping and merging of subgraphs by refs, Matcher/Operators what each
-- operator does with what its operands find, and Matcher/Visitor `MatchVisitor`, which puts them
-- together over the plan. Matcher/Results has `Matcher::match` around it: all start positions, the
-- expansion of negative literals (`expand_negatives`), and query sets that are sorted without repeats
-- (`finalize`), by Matcher/Sorting. The planner makes the plans that the visitor takes; the visitor
-- asks the graph for edges and refs for bindings, intersections and cells. Below each of these files,
-- Contents is about matching without vertices and edges, First about stopping at the first subgraph,
-- Returns about termination, Results/Expanded about the expansion of negative literals,
-- Results/Complete about what `match` returns, and Endless about repetitions that do not end; Groups/Emptiness is about
-- which results are empty, Groups/Maps about groups whose members are mapped, and Operators/Rounds,
-- beside its Contents, about conjunctions and repetitions.
-- The modules called Examples apply the theorems to small inputs. Prelude.antt and its children hold
-- tests, lists, sets and maps that the parts share.
--
-- How state and operations are modelled: an object is a record, an operation that changes it returns the
-- new record, with a flag or a list of removed items where the code returns one. Pointers to stored
-- vertices and to interned texts are numbers: a vertex identifier is its place in the order of
-- allocation, an interned text its place in the order of insertion. Stored objects never move or vanish,
-- as in the code. Hash sets and hash maps are lists without repeated keys, so a theorem on an iterator
-- says which items it returns, not in which order. The hash that a vertex keeps is left out. Sorting is
-- insertion sort, and binary search in a sorted list is membership. The capacity of logs is left out.
-- The references that the planner's visitor holds are fields of one record that is passed on; operands
-- of a concatenation within a concatenation are visited in place of being flattened into a list before.
-- A visit of the matcher appends to a draft in the code; here it returns what it appends, subgraphs and
-- dependencies in order, and whether it returns at all. In `First` mode a visitor stops once its draft
-- has more subgraphs than at its beginning, so it has enough as soon as the visit found one. An index of
-- a placeholder beyond the values, or a vertex without a reference where one is needed, is undefined in
-- the code; it does not match, or does not return. The code sorts incoming edges by neighbour where both
-- directions are wanted, which leaves the order of those from one neighbour open; here they keep
-- theirs. Results of nested expressions are a parameter. The count of repeats does not reach 2 ^ 32.
-- Recursion is structural but for the loop of a repetition, which has at most so many rounds as the
-- matcher is given: one more than the greatest number of repeats is enough. One proof (Union) has a
-- fuel, a score bounded by the number of refs.
--
-- Not modelled: the start positions, which matching takes as an argument; the incremental matcher, the
-- registry of nested expressions, the container of observers, the worker; printing and hashing. The
-- parser and the protocol messages are generated from a grammar and a schema, and the socket server,
-- logging and the Python binding are input and output.
pub mod Prelude
pub mod UndoLog
pub mod Text
pub mod Interner
pub mod Edge
pub mod Vertex
pub mod Edges
pub mod Vertices
pub mod Graph
pub mod Refs
pub mod Expression
pub mod Plan
pub mod Planner
pub mod Subgraph
pub mod Matcher
