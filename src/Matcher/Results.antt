-- ===== src/Matcher/Results.antt =====
-- Matching from all start positions, and query sets (`Matcher::match`, `Matcher::match_nested`,
-- `expand_negatives`, `preprocess_query` and `finalize` of saengra-server/src/matcher.cpp).
pub mod Finalized
pub mod Returns
pub mod Expanded
pub mod Complete
use saengra.Prelude.{
  ℕ, Bool, true, false, not, ◌&&◌, ◌||◌, Option, none, some, List, [], ◌∷◌, ◌++◌, if◌then◌else◌,
  get_elem?, map, ltb, ◌==◌, contains, nat_eq,
}
use saengra.Vertex.{VertexData, data_of}
use saengra.Edge.{VertexId, Edge, edge_lt}
use saengra.Refs.{RefName, Refs, refs_lt, refs_eq, has_negatives, copy_and_set}
use saengra.Refs.Cells.{excluded_values}
use saengra.Vertices
use saengra.Graph.{Graph}
use saengra.Plan.{Plan}
use saengra.Subgraph.{
  Position, is_core, is_orbit, same_position, Subgraph, Observable, QuerySetObservable, new_vertex,
  particular_vertex,
}
use saengra.Matcher.{MatchMode, Query, Start, Found, nothing, also, depends, dep}
use saengra.Matcher.Groups.{with_refs}
use saengra.Matcher.Visitor.{visit}
use saengra.Matcher.Sorting.{sort_and_deduplicate}

-- The lexicographic comparison of two pairs, of which the first items compare so.
abbrev pub lex : Bool → Bool → Bool → Bool
lex less greater rest = if less then true else (if greater then false else rest)

module _ {A : Type 0} (lt eq : A → A → Bool) where
  pub list_lt : List A → List A → Bool
  list_lt [] [] = false
  list_lt [] (b ∷ bs) = true
  list_lt (a ∷ as') [] = false
  list_lt (a ∷ as') (b ∷ bs) = lex (lt a b) (lt b a) (list_lt as' bs)

  pub list_eq : List A → List A → Bool
  list_eq [] [] = true
  list_eq [] (b ∷ bs) = false
  list_eq (a ∷ as') [] = false
  list_eq (a ∷ as') (b ∷ bs) = eq a b && list_eq as' bs

pub id_lt : VertexId → VertexId → Bool
id_lt a b = ltb a b

pub id_eq : VertexId → VertexId → Bool
id_eq a b = a == b

pub position_lt : Position → Position → Bool
position_lt a b =
    ltb a.vertex_id b.vertex_id
    || (a.vertex_id == b.vertex_id && (is_core a.kind && is_orbit b.kind))

pub position_eq : Position → Position → Bool
position_eq a b = same_position a b

pub edge_eq : Edge → Edge → Bool
edge_eq a b = a.from == b.from && (a.label == b.label && a.to == b.to)

pub subgraph_lt : Subgraph → Subgraph → Bool
unfolding position_lt list_lt id_lt
subgraph_lt a b =
    lex (position_lt a.start_position b.start_position)
      (position_lt b.start_position a.start_position)
      (lex (list_lt position_lt position_eq a.end_positions b.end_positions)
        (list_lt position_lt position_eq b.end_positions a.end_positions)
        (lex (list_lt id_lt id_eq a.vertices b.vertices) (list_lt id_lt id_eq b.vertices a.vertices)
          (lex (list_lt edge_lt edge_eq a.edges b.edges) (list_lt edge_lt edge_eq b.edges a.edges)
            (refs_lt a.refs b.refs))))

pub subgraph_eq : Subgraph → Subgraph → Bool
unfolding position_eq list_eq id_eq edge_eq
subgraph_eq a b =
    position_eq a.start_position b.start_position
    && (list_eq position_lt position_eq a.end_positions b.end_positions
        && (list_eq id_lt id_eq a.vertices b.vertices
            && (list_eq edge_lt edge_eq a.edges b.edges && refs_eq a.refs b.refs)))

-- `SubgraphDraft::finalize`.
pub finalized : Subgraph → Subgraph
unfolding position_lt position_eq id_lt id_eq edge_eq
finalized sg = record {
  start_position = sg.start_position;
  end_positions = sort_and_deduplicate position_lt position_eq sg.end_positions;
  vertices = sort_and_deduplicate id_lt id_eq sg.vertices;
  edges = sort_and_deduplicate edge_lt edge_eq sg.edges;
  refs = sg.refs;
}

pub record QuerySet : Type 0 where
  pub subgraphs : List Subgraph
  pub deps : List QuerySetObservable
  pub start_deps : List QuerySetObservable

pub record StartPositions : Type 0 where
  pub positions : List Position
  pub deps : List QuerySetObservable

-- `QuerySetDraft::finalize`.
pub finalize : Found → List QuerySetObservable → QuerySet
unfolding finalized subgraph_lt subgraph_eq
finalize a start_deps = record {
  subgraphs = sort_and_deduplicate subgraph_lt subgraph_eq (map finalized a.subgraphs);
  deps = a.deps;
  start_deps = start_deps;
}

-- A query, with its plan.
pub record ParsedQuery : Type 0 where
  pub graph : Graph
  pub placeholder_values : List VertexData
  pub plan : Plan

pub value_ids : Graph → List VertexData → List (Option VertexId)
value_ids g [] = []
value_ids g (value ∷ values) = Vertices.get_vertex_id value g.vertices ∷ value_ids g values

pub preprocess_query : ParsedQuery → Option (ℕ → Position → Refs → List Subgraph) → Query
unfolding value_ids
preprocess_query q nested_results = record {
  graph = q.graph;
  placeholder_values = q.placeholder_values;
  placeholder_value_ids = value_ids q.graph q.placeholder_values;
  nested_results = nested_results;
}

-- The values that a name may have.
pub allowed : List VertexId → List VertexId → List VertexId
allowed excluded [] = []
allowed excluded (id ∷ ids) =
    if contains excluded id then allowed excluded ids else id ∷ allowed excluded ids

pub set_to_each : RefName → Refs → List VertexId → List Refs
set_to_each name refs [] = []
set_to_each name refs (id ∷ ids) = copy_and_set name id refs ∷ set_to_each name refs ids

pub set_all_to_each : RefName → List VertexId → List Refs → List Refs
unfolding set_to_each
set_all_to_each name ids [] = []
set_all_to_each name ids (refs ∷ variants) =
    set_to_each name refs ids ++ set_all_to_each name ids variants

-- The refs with a value for each of the names that have excluded values.
pub variants_of : List VertexId → List (RefName × List VertexId) → List Refs → List Refs
unfolding allowed set_all_to_each
variants_of vertices [] variants = variants
variants_of vertices ((name, excluded) ∷ names) variants =
    variants_of vertices names (set_all_to_each name (allowed excluded vertices) variants)

-- The values that are used, while there are variants.
pub used_values : List VertexId → List (RefName × List VertexId) → List Refs → List VertexId
unfolding allowed set_all_to_each
used_values vertices [] variants = []
used_values vertices ((name, excluded) ∷ names) [] = []
used_values vertices ((name, excluded) ∷ names) (refs ∷ variants) =
    allowed excluded vertices
    ++ used_values vertices names
        (set_all_to_each name (allowed excluded vertices) (refs ∷ variants))

pub copies_with : Subgraph → List Refs → List Subgraph
copies_with sg [] = []
copies_with sg (refs ∷ variants) = with_refs refs sg ∷ copies_with sg variants

pub without_negatives : List Subgraph → List Subgraph
without_negatives [] = []
without_negatives (sg ∷ sgs) =
    if has_negatives sg.refs then without_negatives sgs else sg ∷ without_negatives sgs

pub expanded : List VertexId → List Subgraph → List Subgraph
unfolding copies_with variants_of
expanded vertices [] = []
expanded vertices (sg ∷ sgs) =
    if has_negatives sg.refs
    then copies_with sg (variants_of vertices (excluded_values sg.refs) (sg.refs ∷ []))
      ++ expanded vertices sgs
    else expanded vertices sgs

pub all_used : List VertexId → List Subgraph → List VertexId
unfolding used_values
all_used vertices [] = []
all_used vertices (sg ∷ sgs) =
    if has_negatives sg.refs
    then used_values vertices (excluded_values sg.refs) (sg.refs ∷ []) ++ all_used vertices sgs
    else all_used vertices sgs

pub any_negatives : List Subgraph → Bool
any_negatives [] = false
any_negatives (sg ∷ sgs) = has_negatives sg.refs || any_negatives sgs

-- Used vertices are stored; identifiers do not dangle.
pub used_deps : Graph → Position → List VertexId → List QuerySetObservable
used_deps g start_pos [] = []
used_deps g start_pos (id ∷ ids) = elim (get_elem? g.vertices.stored id) [
  | none ↦ used_deps g start_pos ids
  | some stored ↦ dep start_pos (particular_vertex (data_of stored)) ∷ used_deps g start_pos ids
]

pub expand_negatives : Graph → Position → Found → Found
unfolding any_negatives without_negatives expanded used_deps all_used id_lt id_eq
expand_negatives g start_pos a =
    let vertices = Vertices.iter_present g.vertices in
    if any_negatives a.subgraphs
    then record {
      subgraphs = without_negatives a.subgraphs ++ expanded vertices a.subgraphs;
      deps =
          a.deps
          ++ (dep start_pos new_vertex
              ∷ used_deps g start_pos
                  (sort_and_deduplicate id_lt id_eq (all_used vertices a.subgraphs)));
      returns = a.returns;
    }
    else a

-- What is found from each of the start positions, in order.
pub match_from_all : Query → ℕ → Plan → List Position → Found
unfolding expand_negatives
match_from_all q rounds p [] = nothing
match_from_all q rounds p (position ∷ positions) =
    also
      (expand_negatives q.graph position (
        visit q rounds MatchMode.normal p
          (record { origin = position; position = position; refs = [] })))
      (match_from_all q rounds p positions)

pub match_found :
    ParsedQuery → ℕ → StartPositions → Option (ℕ → Position → Refs → List Subgraph) → Found
unfolding match_from_all preprocess_query
match_found q rounds start_positions nested_results =
    match_from_all (preprocess_query q nested_results) rounds q.plan start_positions.positions

-- None if the code does not return.
pub match :
    ParsedQuery
    → ℕ
    → StartPositions
    → Option (ℕ → Position → Refs → List Subgraph)
    → Option QuerySet
unfolding match_found finalize
match q rounds start_positions nested_results =
    let found = match_found q rounds start_positions nested_results in
    if found.returns then some (finalize found start_positions.deps) else none

pub match_nested :
    ParsedQuery
    → ℕ
    → Plan
    → Position
    → Refs
    → Option (ℕ → Position → Refs → List Subgraph)
    → Option QuerySet
unfolding preprocess_query finalize
match_nested q rounds plan position refs nested_results =
    let found =
      visit (preprocess_query q nested_results) rounds MatchMode.normal plan
        (record { origin = position; position = position; refs = refs }) in
    if found.returns then some (finalize found []) else none
