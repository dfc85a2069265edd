-- ===== src/Graph/Effects.antt =====
-- What single updates do to the edges.
use saengra.Prelude.{◌≡◌, false, ◌&&◌, some, arith, ite, ℕ_discrete}
use saengra.Text.{Text}
use saengra.UndoLog.Layers.{Layers}
use saengra.Edge.{VertexId, Edge, Edge-discrete}
use saengra.Vertices
use saengra.Vertices.Refines as VR
use saengra.Edges.Container as Edges
use saengra.Edges.Container.Sync.{contents}
use saengra.Edges.Container.Refines as ER
use saengra.Edges.Container.Bulk as EB
use saengra.Graph.{Graph, Update, convert, link, remove_vertex_impl}
use saengra.Graph.Consistent.{IsConsistent}
use saengra.Graph.Updates.{convert-Refines}

module _ (g : Graph) (v : Layers VertexId) (e : Layers Edge) (h : IsConsistent g v e) where
  -- In a consistent graph, adding an edge between two identifiers sets its presence to whether both
  -- ends are present, and no other edge changes.
  pub contents-link :
      (label : Text) (from to : VertexId) (k : Edge)
      → contents (link label from to g).edges k
        ≡ ite
            (Edge-discrete
              (record { from = from; label = (Edges.internalize_label label g.edges).0; to = to })
              k)
            (Vertices.is_present g.vertices from && Vertices.is_present g.vertices to)
            (contents g.edges k)
  unfolding link
  contents-link label from to k =
      let r = Edges.internalize_label label g.edges in
      let named = ER.internalize_label-Refines label g.edges e h.edges_ok in
      let new : Edge = record { from = from; label = r.0; to = to } in
      let added = ER.add_edge-Refines r.1 e named new in
      ground (
        arith,
        added.now k,
        h.edges_ok.now k,
        h.current_closed k,
        h.vertices_ok.now from,
        h.vertices_ok.now to,
      )

  -- In a consistent graph, if `remove_vertex` finds the vertex under an identifier, then the vertex
  -- is absent afterwards, no edge that starts or ends at it is left, and every other edge is there
  -- exactly if it was before.
  pub remove_vertex_impl_lem :
      (u : Update) (id : VertexId)
      → Vertices.get_vertex_id (convert u.from g.vertices).0 (convert u.from g.vertices).1 ≡ some id
      → (Vertices.is_present (remove_vertex_impl u g).vertices id ≡ false)
        × ((k : Edge)
            → contents (remove_vertex_impl u g).edges k
              ≡ ite
                  (ℕ_discrete id k.from)
                  false
                  (ite (ℕ_discrete id k.to) false (contents g.edges k)))
  unfolding remove_vertex_impl
  remove_vertex_impl_lem u id found =
      let from = convert u.from g.vertices in
      let vs =
        VR.discard_vertex-Refines from.1 v (convert-Refines g v e h u.from) from.0 id found in
      let es = EB.remove_edges_of_vertex-Refines g.edges e h.edges_ok id in
      rw (found, remove_vertex_impl)
        (ground (arith, vs.now id), λ k. ground (arith, es.now k, h.edges_ok.now k))
