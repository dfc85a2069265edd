-- ===== src/Subgraph.antt =====
-- Positions, matched subgraphs and what they depend on (saengra-server/include/subgraph.h,
-- saengra-server/include/observable.h, saengra-server/include/queryset.h). A draft of a subgraph has
-- the fields of a subgraph, not yet sorted.
use saengra.Prelude.{ℕ, Bool, true, false, ◌&&◌, List, ◌==◌}
use saengra.Vertex.{VertexTypeName, VertexData}
use saengra.Edge.{VertexId, EdgeLabel, Edge}
use saengra.Refs.{Refs}
use saengra.Plan.{PositionKind}

pub record Position : Type 0 where
  pub vertex_id : VertexId
  pub kind : PositionKind

abbrev pub is_core : PositionKind → Bool
is_core PositionKind.core = true
is_core PositionKind.orbit = false

abbrev pub is_orbit : PositionKind → Bool
is_orbit PositionKind.core = false
is_orbit PositionKind.orbit = true

abbrev pub same_kind : PositionKind → PositionKind → Bool
same_kind PositionKind.core k = is_core k
same_kind PositionKind.orbit k = is_orbit k

abbrev pub with_kind : PositionKind → Position → Position
with_kind k p = record p { kind = k }

abbrev pub same_position : Position → Position → Bool
same_position p q = p.vertex_id == q.vertex_id && same_kind p.kind q.kind

pub record Subgraph : Type 0 where
  pub start_position : Position
  pub end_positions : List Position
  pub vertices : List VertexId
  pub edges : List Edge
  pub refs : Refs

-- A nested expression matched from a start position with the refs.
pub record NestedExpressionStart : Type 0 where
  pub expression_id : ℕ
  pub position : Position
  pub refs : Refs

pub data Observable : Type 0 where
  new_vertex : Observable
  new_vertex_of_type : VertexTypeName → Observable
  particular_vertex : VertexData → Observable
  new_edge : Observable
  new_edge_with_label : EdgeLabel → Observable
  edge_from : VertexId → Observable
  edge_from_with_label : VertexId → EdgeLabel → Observable
  edge_to : VertexId → Observable
  edge_to_with_label : VertexId → EdgeLabel → Observable
  particular_edge : Edge → Observable
  nested_expression_subgraph : ℕ → VertexId → Bool → Refs → Observable

pub observable : NestedExpressionStart → Observable
observable s =
    nested_expression_subgraph s.expression_id s.position.vertex_id (is_orbit s.position.kind)
      s.refs

pub data ObservableStartPosition : Type 0 where
  at : Position → ObservableStartPosition
  absent : VertexData → PositionKind → ObservableStartPosition
  every_added_vertex : ObservableStartPosition
  every_added_edge : ObservableStartPosition
  nested : NestedExpressionStart → ObservableStartPosition

pub record QuerySetObservable : Type 0 where
  pub observable : Observable
  pub start_position : ObservableStartPosition
