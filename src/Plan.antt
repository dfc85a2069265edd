-- ===== src/Plan.antt =====
-- The plan of a query (saengra-server/include/plan.h): what the matcher executes.
use saengra.Prelude.{ℕ, Option, List}
use saengra.Vertex.{VertexTypeName}
use saengra.Edge.{EdgeLabel}
use saengra.Refs.{RefName}
use saengra.Expression.{Direction}

-- Whether a path begins with a vertex (`core`) or with an edge (`orbit`).
pub data PositionKind : Type 0 where
  core : PositionKind
  orbit : PositionKind

pub record MatchVertex : Type 0 where
  pub type_name : Option VertexTypeName
  pub set_ref : Option RefName
  pub match_ref : Option RefName
  pub placeholder_idx : Option ℕ

pub record MatchEdge : Type 0 where
  pub direction : Direction
  pub forward_labels : Option (List EdgeLabel)
  pub backward_labels : Option (List EdgeLabel)

pub record MatchPath : Type 0 where
  pub start : PositionKind
  pub edges : List MatchEdge
  pub vertices : List MatchVertex

mutual
  pub data Plan : Type 0 where
    match_vertex : MatchVertex → Plan
    match_edge : MatchEdge → Plan
    match_noop : Plan
    match_path_to_vertex : MatchPath → MatchEdge → MatchVertex → Plan
    match_path : MatchPath → Plan
    match_concatenation : Plans → Plan
    match_or : Plans → Plan
    match_and_without_set_ref : Plans → Plan
    match_and : Plans → Plan
    match_all_and : Plans → Plan
    match_all_without_set_ref : Plan → Plan
    match_all : Plan → Plan
    match_if_without_set_ref : Plan → Plan
    match_if : Plan → Plan
    match_unless_without_set_non_local_ref : Plan → List RefName → Plan
    match_unless : Plan → List RefName → Plan
    match_skip : Plan → Plan
    match_maybe : Plan → Plan
    match_repetition : Plan → ℕ → Option ℕ → Plan
    match_nested_expression : ℕ → List RefName → Plan → Plan

  pub data Plans : Type 0 where
    nothing : Plans
    first : Plan → Plans → Plans

unfoldable pub push_back : Plans → Plan → Plans
push_back nothing p = first p nothing
push_back (first q ps) p = first q (push_back ps p)
