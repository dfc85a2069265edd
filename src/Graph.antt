-- ===== src/Graph.antt =====
-- `Graph` (saengra-server/include/graph.h and saengra-server/src/graph.cpp): the vertices and the
-- edges, batches of updates, and transactions over both containers. Updates that come as protocol
-- buffers and native ones are handled by the same code behind an accessor; `Update` has the fields
-- that both have.
pub mod Consistent
pub mod Updates
pub mod Transactions
pub mod Effects
mod Examples
use saengra.Prelude.{
  Bool, true, false, not, ◌&&◌, ◌||◌, Option, none, some, List, [], ◌∷◌, if◌then◌else◌,
}
use saengra.Text.{Text}
use saengra.Edge.{VertexId, EdgeLabel, Edge}
use saengra.Vertex.{VertexData}
use saengra.Vertices
use saengra.Vertices.{VerticesContainer}
use saengra.Edges.Container as Edges
use saengra.Edges.Container.{EdgesContainer}

pub data UpdateKind : Type 0 where
  add_vertex remove_vertex add_edge remove_edge remove_edges_to_all : UpdateKind

pub record UpdateVertex : Type 0 where
  pub type_name : Text
  pub value : Text

pub record Update : Type 0 where
  pub kind : UpdateKind
  pub from : UpdateVertex
  pub label : Text
  pub to : UpdateVertex

pub record Graph : Type 0 where
  pub vertices : VerticesContainer
  pub edges : EdgesContainer

pub empty : Graph
empty = record { vertices = Vertices.empty; edges = Edges.empty }

-- `convert_from` and `convert_to`: the type name is interned, whatever becomes of the update.
pub convert : UpdateVertex → VerticesContainer → VertexData × VerticesContainer
convert v c =
    let r = Vertices.internalize_type_name v.type_name c in
    (record { type_name = r.0; value = v.value }, r.1)

pub add_vertex_impl : Update → Graph → Graph
add_vertex_impl u g =
    let from = convert u.from g.vertices in
    record g { vertices = Vertices.add_vertex from.0 from.1 }

-- The part of `add_edge_impl` behind the two lookups. Removed vertices keep their identifiers, so
-- presence has to be checked separately.
pub link : Text → VertexId → VertexId → Graph → Graph
link label from_id to_id g =
    if not (Vertices.is_present g.vertices from_id) || not (Vertices.is_present g.vertices to_id)
    then g
    else let r = Edges.internalize_label label g.edges in
      record g { edges = Edges.add_edge (record { from = from_id; label = r.0; to = to_id }) r.1 }

pub unlink : Text → VertexId → VertexId → Graph → Graph
unlink label from_id to_id g =
    let r = Edges.internalize_label label g.edges in
    record g { edges = Edges.remove_edge (record { from = from_id; label = r.0; to = to_id }) r.1 }

-- Both ends are looked up, the second one only if the first is known.
pub between : (VertexId → VertexId → Graph → Graph) → Update → Graph → Graph
between act u g =
    let from = convert u.from g.vertices in
    let g1 = record g { vertices = from.1 } in
    elim (Vertices.get_vertex_id from.0 from.1) [
      | none ↦ g1
      | some from_id ↦
          let to = convert u.to from.1 in
          let g2 = record g { vertices = to.1 } in
          elim (Vertices.get_vertex_id to.0 to.1) [ none ↦ g2 | some to_id ↦ act from_id to_id g2 ]
    ]

pub add_edge_impl : Update → Graph → Graph
add_edge_impl u g = between (link u.label) u g

pub remove_edge_impl : Update → Graph → Graph
remove_edge_impl u g = between (unlink u.label) u g

pub remove_vertex_impl : Update → Graph → Graph
remove_vertex_impl u g =
    let from = convert u.from g.vertices in
    elim (Vertices.get_vertex_id from.0 from.1) [
      | none ↦ record g { vertices = from.1 }
      | some from_id ↦ record {
        vertices = Vertices.discard_vertex from.0 from.1;
        edges = Edges.remove_edges_of_vertex from_id g.edges;
      }
    ]

pub remove_edges_to_all_impl : Update → Graph → Graph
remove_edges_to_all_impl u g =
    let from = convert u.from g.vertices in
    elim (Vertices.get_vertex_id from.0 from.1) [
      | none ↦ record g { vertices = from.1 }
      | some from_id ↦
          let r = Edges.internalize_label u.label g.edges in
          record { vertices = from.1; edges = Edges.remove_edges_from_via_label from_id r.0 r.1 }
    ]

pub update_kind : UpdateKind → Update → Graph → Graph
update_kind add_vertex u g = add_vertex_impl u g
update_kind remove_vertex u g = remove_vertex_impl u g
update_kind add_edge u g = add_edge_impl u g
update_kind remove_edge u g = remove_edge_impl u g
update_kind remove_edges_to_all u g = remove_edges_to_all_impl u g

pub update : List Update → Graph → Graph
update [] g = g
update (u ∷ us) g = update us (update_kind u.kind u g)

-- Net changes of the graph since the last `apply`.
pub record GraphChanges : Type 0 where
  pub added_vertices : List VertexId
  pub removed_vertices : List VertexId
  pub added_edges : List Edge
  pub removed_edges : List Edge

pub no_changes : GraphChanges
no_changes = record {
  added_vertices = [];
  removed_vertices = [];
  added_edges = [];
  removed_edges = [];
}

pub apply : Graph → GraphChanges × Graph
apply g =
    if not (Vertices.has_unapplied_changes g.vertices) && not (Edges.has_unapplied_changes g.edges)
    then (no_changes, g)
    else (
      record {
        added_vertices = Vertices.iter_just_added g.vertices;
        removed_vertices = Vertices.iter_just_removed g.vertices;
        added_edges = Edges.iter_just_added g.edges;
        removed_edges = Edges.iter_just_removed g.edges;
      },
      record { vertices = Vertices.apply g.vertices; edges = Edges.apply g.edges },
    )

pub commit : Graph → Graph
commit g = record { vertices = Vertices.commit g.vertices; edges = Edges.commit g.edges }

pub rollback : Graph → Graph
rollback g = record { vertices = Vertices.rollback g.vertices; edges = Edges.rollback g.edges }
