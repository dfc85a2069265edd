-- ===== src/Edges/Container/Queries.antt =====
-- What the iterators of the container return, in terms of the edges that it holds. `edge_eq`
-- compares edges, so a statement about `contains` says which edges a list holds.
use saengra.Prelude.{
  ◌≡◌, refl, ◌∙◌, true, false, ◌&&◌, List, [], ◌∷◌, arith, ite, ℕ_discrete, contains, nat_eq,
}
use saengra.Edge.{VertexId, EdgeLabel, Edge, edge_eq}
use saengra.Edges.Branch.Items.{allows}
use saengra.Edges.Trunk.Items as TrunkItems
use saengra.Edges.Container.{
  EdgesContainer, iter_present, iter_present_from_vertex, iter_present_to_vertex,
  iter_present_from_vertex_via_labels, iter_present_to_vertex_via_labels, iter_present_via_labels,
  iter_present_from_vertex_to_vertex,
}
use saengra.Edges.Container.Sync.{contents, InSync}

allows_of_contains :
    (labels : List EdgeLabel) (l : EdgeLabel) → contains labels l ≡ true → allows labels l ≡ true
allows_of_contains [] l h = refl
allows_of_contains (x ∷ labels) l h = h

module _ (c : EdgesContainer) (h : InSync c.forward c.inverse) (e : Edge) where
  open h use {forward_ok, inverse_ok, forward_dir, inverse_dir, mirrored}

  forward_holds : TrunkItems.holds c.forward e ≡ contents c e
  forward_holds = ground (arith, forward_dir)

  inverse_holds : TrunkItems.holds c.inverse e ≡ contents c e
  inverse_holds = ground (arith, inverse_dir, mirrored e.from e.label e.to)

  -- If the trunks of a container are in sync, the list of all edges holds an edge exactly if the
  -- container does.
  pub contains-iter_present : contains (iter_present c) e ≡ contents c e
  unfolding iter_present
  contains-iter_present = TrunkItems.contains-iter_present c.forward e forward_ok ∙ forward_holds

  -- The edges that start at a vertex.
  pub contains-iter_present_from_vertex :
      (v : VertexId)
      → contains (iter_present_from_vertex v c) e ≡ ite (ℕ_discrete v e.from) (contents c e) false
  unfolding iter_present_from_vertex
  contains-iter_present_from_vertex v =
      ground (arith, TrunkItems.contains-edges_of c.forward v e forward_ok, forward_dir)

  -- If the trunks of a container are in sync, the list of the edges to a vertex, found in the
  -- inverse trunk, holds an edge exactly if it ends at the vertex and the forward trunk holds it.
  pub contains-iter_present_to_vertex :
      (v : VertexId)
      → contains (iter_present_to_vertex v c) e ≡ ite (ℕ_discrete v e.to) (contents c e) false
  unfolding iter_present_to_vertex
  contains-iter_present_to_vertex v =
      ground
        (arith, TrunkItems.contains-edges_of c.inverse v e inverse_ok, inverse_dir, inverse_holds)

  pub contains-iter_present_from_vertex_via_labels :
      (v : VertexId) (labels : List EdgeLabel)
      → contains (iter_present_from_vertex_via_labels v labels c) e
        ≡ ite (ℕ_discrete v e.from) (contains labels e.label && contents c e) false
  unfolding iter_present_from_vertex_via_labels
  contains-iter_present_from_vertex_via_labels v labels =
      ground (arith, TrunkItems.contains-edges_via c.forward v e forward_ok labels, forward_dir)

  pub contains-iter_present_to_vertex_via_labels :
      (v : VertexId) (labels : List EdgeLabel)
      → contains (iter_present_to_vertex_via_labels v labels c) e
        ≡ ite (ℕ_discrete v e.to) (contains labels e.label && contents c e) false
  unfolding iter_present_to_vertex_via_labels
  contains-iter_present_to_vertex_via_labels v labels = ground (
    arith,
    TrunkItems.contains-edges_via c.inverse v e inverse_ok labels,
    inverse_dir,
    inverse_holds,
  )

  pub contains-iter_present_via_labels :
      (labels : List EdgeLabel)
      → contains (iter_present_via_labels labels c) e ≡ (contains labels e.label && contents c e)
  unfolding iter_present_via_labels
  contains-iter_present_via_labels labels = ground (
    arith,
    TrunkItems.contains-iter_present_via_labels c.forward labels e forward_ok,
    forward_holds,
  )

  -- If the trunks of a container are in sync, the list of the edges between two vertices via some
  -- labels holds an edge exactly if it has these ends, its label is one of the labels or there are
  -- none, and the container holds it.
  pub contains-iter_present_from_vertex_to_vertex :
      (from to : VertexId) (labels : List EdgeLabel)
      → contains (iter_present_from_vertex_to_vertex from to labels c) e
        ≡ ite
            (ℕ_discrete from e.from)
            (ite (ℕ_discrete to e.to) (allows labels e.label && contents c e) false)
            false
  unfolding iter_present_from_vertex_to_vertex
  contains-iter_present_from_vertex_to_vertex from to labels =
      ground (
        arith,
        TrunkItems.contains-edges_between c.forward from e forward_ok to labels,
        forward_dir,
      )

-- If the trunks of a container are in sync, an edge is listed both among those from one vertex and
-- among those to another via some labels exactly if it has one of the labels and is listed among the
-- edges between the two vertices.
pub from_vertex_to_vertex :
    (c : EdgesContainer) (from to : VertexId) (labels : List EdgeLabel) (e : Edge)
    → InSync c.forward c.inverse
    → (contains (iter_present_from_vertex_via_labels from labels c) e
        && contains (iter_present_to_vertex_via_labels to labels c) e)
      ≡ (contains labels e.label
          && contains (iter_present_from_vertex_to_vertex from to labels c) e)
from_vertex_to_vertex c from to labels e h = ground (
  arith,
  contains-iter_present_from_vertex_via_labels c h e from labels,
  contains-iter_present_to_vertex_via_labels c h e to labels,
  contains-iter_present_from_vertex_to_vertex c h e from to labels,
  allows_of_contains labels e.label,
)
