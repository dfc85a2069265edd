-- ===== src/Planner.antt =====
-- How the planner cuts a run of vertices and edges into paths (`add_paths`, `add_path` and
-- `make_path` of saengra-server/src/planner.cpp). The loop over the indices of the run is a recursion
-- over what is left of it, with the path begun so far and the plans made so far.
pub mod Paths
pub mod Runs
pub mod Visitor
mod Examples
use saengra.Prelude.{
  ℕ, ◌+◌, Bool, true, false, not, ◌&&◌, ◌||◌, Option, none, some, List, [], ◌∷◌, ◌++◌, ◌==◌, leb,
  length, is_some, if◌then◌else◌,
}
use saengra.Plan.{
  PositionKind, MatchVertex, MatchEdge, MatchPath, Plan, Plans, match_vertex, match_edge,
  match_path, match_path_to_vertex, push_back,
}

-- `std::variant<MatchVertex, MatchEdge>`.
pub data Item : Type 0 where
  vertex : MatchVertex → Item
  edge : MatchEdge → Item

abbrev pub max_length : ℕ
max_length = 5

pub is_known : MatchVertex → Bool
is_known v = is_some v.placeholder_idx || is_some v.match_ref

pub same_index : Item → Item → Bool
same_index (vertex v) (vertex w) = true
same_index (vertex v) (edge e) = false
same_index (edge e) (vertex v) = false
same_index (edge e) (edge f) = true

pub is_vertex : Item → Bool
is_vertex (vertex v) = true
is_vertex (edge e) = false

pub vertices_of : List Item → List MatchVertex
vertices_of [] = []
vertices_of (vertex v ∷ items) = v ∷ vertices_of items
vertices_of (edge e ∷ items) = vertices_of items

pub edges_of : List Item → List MatchEdge
edges_of [] = []
edges_of (vertex v ∷ items) = edges_of items
edges_of (edge e ∷ items) = e ∷ edges_of items

pub start_of : List Item → PositionKind
start_of [] = PositionKind.orbit
start_of (vertex v ∷ items) = PositionKind.core
start_of (edge e ∷ items) = PositionKind.orbit

pub make_path : List Item → MatchPath
make_path items = record {
  start = start_of items;
  edges = edges_of items;
  vertices = vertices_of items;
}

pub single : Item → Plan
single (vertex v) = match_vertex v
single (edge e) = match_edge e

pub add_path : List Item → Plans → Plans
add_path [] plans = plans
add_path (item ∷ []) plans = push_back plans (single item)
add_path (item ∷ next ∷ items) plans =
    push_back plans (match_path (make_path (item ∷ next ∷ items)))

-- Whether the last item of a path has a property; of an empty path it has none.
pub back_is : (Item → Bool) → List Item → Bool
back_is test [] = false
back_is test (item ∷ []) = test item
back_is test (item ∷ next ∷ items) = back_is test (next ∷ items)

pub is_empty : List Item → Bool
is_empty [] = true
is_empty (item ∷ items) = false

-- Whether the path ends before the next item.
pub must_cut : List Item → Item → Bool
must_cut path next =
    not (is_empty path)
    && (back_is (λ last. same_index last next) path || length path == max_length)

-- Whether the path may stand before the edge to a known vertex.
pub is_prefix : List Item → Bool
is_prefix path = not (is_empty path) && back_is is_vertex path && leb (length path + 2) max_length

pub empty_path : MatchPath
empty_path = record { start = PositionKind.orbit; edges = []; vertices = [] }

pub add_path_to_vertex : List Item → MatchEdge → MatchVertex → Plans → Plans
add_path_to_vertex path e v plans =
    if is_prefix path
    then push_back plans (match_path_to_vertex (make_path path) e v)
    else push_back (add_path path plans) (match_path_to_vertex empty_path e v)

pub next_path : List Item → Item → List Item
next_path path next = if must_cut path next then next ∷ [] else path ++ (next ∷ [])

pub next_plans : List Item → Item → Plans → Plans
next_plans path next plans = if must_cut path next then add_path path plans else plans

pub add_paths_behind : List Item → Plans → List Item → Plans
add_paths_behind path plans [] = add_path path plans
add_paths_behind path plans (vertex v ∷ items) =
    add_paths_behind (next_path path (vertex v)) (next_plans path (vertex v) plans) items
add_paths_behind path plans (edge e ∷ []) =
    add_path (next_path path (edge e)) (next_plans path (edge e) plans)
add_paths_behind path plans (edge e ∷ edge f ∷ items) =
    add_paths_behind (next_path path (edge e)) (next_plans path (edge e) plans) (edge f ∷ items)
add_paths_behind path plans (edge e ∷ vertex v ∷ items) = elim (is_known v) [
  | true ↦ add_paths_behind [] (add_path_to_vertex path e v plans) items
  | false ↦
      add_paths_behind (next_path path (edge e)) (next_plans path (edge e) plans) (vertex v ∷ items)
]

pub add_paths : List Item → Plans → Plans
add_paths items plans = add_paths_behind [] plans items
