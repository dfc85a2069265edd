-- ===== src/Graph/Updates.antt =====
-- The updates of saengra-server/src/graph.cpp, single ones and batches, on a consistent graph.
use saengra.Prelude.{
  Bool, true, false, not, ◌||◌, List, [], ◌∷◌, arith, Option-cases, Bool-cases, inl, inr,
}
use saengra.Text.{Text}
use saengra.UndoLog.Layers.{Layers}
use saengra.Edge.{VertexId, Edge}
use saengra.Vertices
use saengra.Vertices.{VerticesContainer}
use saengra.Vertices.Refines as VR
use saengra.Edges.Container as Edges
use saengra.Edges.Container.{EdgesContainer}
use saengra.Edges.Container.Refines as ER
use saengra.Edges.Container.Bulk as EB
use saengra.Graph.{
  Graph, Update, UpdateVertex, UpdateKind, convert, link, unlink, between, add_vertex_impl,
  add_edge_impl, remove_edge_impl, remove_vertex_impl, remove_edges_to_all_impl, update_kind,
  update,
}
use saengra.Graph.Consistent.{IsConsistent}

-- The layers after an update: only what is there now may differ.
pub record Updated (g : Graph) (v : Layers VertexId) (e : Layers Edge) : Type 0 where
  pub vertices_now : VertexId → Bool
  pub edges_now : Edge → Bool
  pub consistent :
      IsConsistent g (record v { current = vertices_now }) (record e { current = edges_now })

module _ (g : Graph) (v : Layers VertexId) (e : Layers Edge) (h : IsConsistent g v e) where
  open h use {vertices_ok, edges_ok, committed_closed, applied_closed, current_closed}

  pub convert-Refines : (u : UpdateVertex) → VR.Refines (convert u g.vertices).1 v
  unfolding convert
  convert-Refines u = VR.internalize_type_name-Refines u.type_name g.vertices v vertices_ok

  -- The vertices after a name was interned.
  converted :
      (u : UpdateVertex) → IsConsistent (record g { vertices = (convert u g.vertices).1 }) v e
  converted u = record {
    vertices_ok = convert-Refines u;
    edges_ok = edges_ok;
    committed_closed = committed_closed;
    applied_closed = applied_closed;
    current_closed = current_closed;
  }

  same : Updated g v e
  same = record { vertices_now = v.current; edges_now = e.current; consistent = h }

  add_vertex_impl-Updated : (u : Update) → Updated (add_vertex_impl u g) v e
  unfolding add_vertex_impl
  add_vertex_impl-Updated u =
      let from = convert u.from g.vertices in
      record {
        vertices_now = (VR.with_item (VR.id_of from.0 from.1) true v).current;
        edges_now = e.current;
        consistent = record {
          vertices_ok = VR.add_vertex-Refines from.1 v (convert-Refines u.from) from.0;
          edges_ok = edges_ok;
          committed_closed = committed_closed;
          applied_closed = applied_closed;
          current_closed = λ k there. ground (arith, current_closed k there);
        };
      }

  link-Updated : (label : Text) (from to : VertexId) → Updated (link label from to g) v e
  unfolding link
  link-Updated label from to =
      let r = Edges.internalize_label label g.edges in
      let k : Edge = record { from = from; label = r.0; to = to } in
      elim (Bool-cases
        (not (Vertices.is_present g.vertices from) || not (Vertices.is_present g.vertices to))) [
          | inl missing ↦ rw (missing, link) same
          | inr there ↦
              rw (there, link)
                (record {
                  vertices_now = v.current;
                  edges_now = (ER.with_edge k e).current;
                  consistent = record {
                    vertices_ok = vertices_ok;
                    edges_ok =
                        ER.add_edge-Refines r.1 e
                          (ER.internalize_label-Refines label g.edges e edges_ok) k;
                    committed_closed = committed_closed;
                    applied_closed = applied_closed;
                    current_closed = λ j is. ground (
                      arith,
                      current_closed j,
                      is,
                      there,
                      vertices_ok.now from,
                      vertices_ok.now to,
                    );
                  };
                })
        ]

  unlink-Updated : (label : Text) (from to : VertexId) → Updated (unlink label from to g) v e
  unfolding unlink
  unlink-Updated label from to =
      let r = Edges.internalize_label label g.edges in
      let k : Edge = record { from = from; label = r.0; to = to } in
      record {
        vertices_now = v.current;
        edges_now = (ER.without_edge k e).current;
        consistent = record {
          vertices_ok = vertices_ok;
          edges_ok =
              ER.remove_edge-Refines r.1 e (ER.internalize_label-Refines label g.edges e edges_ok)
                k;
          committed_closed = committed_closed;
          applied_closed = applied_closed;
          current_closed = λ j is. ground (arith, current_closed j, is);
        };
      }

  remove_edges_to_all_impl-Updated : (u : Update) → Updated (remove_edges_to_all_impl u g) v e
  unfolding remove_edges_to_all_impl
  remove_edges_to_all_impl-Updated u =
      let from = convert u.from g.vertices in
      let r = Edges.internalize_label u.label g.edges in
      elim (Option-cases (Vertices.get_vertex_id from.0 from.1)) [
        | inl unknown ↦
            rw (unknown, remove_edges_to_all_impl)
              (record {
                vertices_now = v.current;
                edges_now = e.current;
                consistent = converted u.from;
              })
        | inr (id, found) ↦
            rw (found, remove_edges_to_all_impl)
              (record {
                vertices_now = v.current;
                edges_now = (ER.without_edges_via id r.0 e).current;
                consistent = record {
                  vertices_ok = convert-Refines u.from;
                  edges_ok =
                      EB.remove_edges_from_via_label-Refines r.1 e
                        (ER.internalize_label-Refines u.label g.edges e edges_ok) id r.0;
                  committed_closed = committed_closed;
                  applied_closed = applied_closed;
                  current_closed = λ j is. ground (arith, current_closed j, is);
                };
              })
      ]

  remove_vertex_impl-Updated : (u : Update) → Updated (remove_vertex_impl u g) v e
  unfolding remove_vertex_impl
  remove_vertex_impl-Updated u =
      let from = convert u.from g.vertices in
      elim (Option-cases (Vertices.get_vertex_id from.0 from.1)) [
        | inl unknown ↦
            rw (unknown, remove_vertex_impl)
              (record {
                vertices_now = v.current;
                edges_now = e.current;
                consistent = converted u.from;
              })
        | inr (id, found) ↦
            rw (found, remove_vertex_impl)
              (record {
                vertices_now = (VR.with_item id false v).current;
                edges_now = (ER.without_vertex id e).current;
                consistent = record {
                  vertices_ok =
                      VR.discard_vertex-Refines from.1 v (convert-Refines u.from) from.0 id found;
                  edges_ok = EB.remove_edges_of_vertex-Refines g.edges e edges_ok id;
                  committed_closed = committed_closed;
                  applied_closed = applied_closed;
                  current_closed = λ j is. ground (arith, current_closed j, is);
                };
              })
      ]

between-Updated :
    (act : VertexId → VertexId → Graph → Graph) (u : Update) (g : Graph) (v : Layers VertexId)
    (e : Layers Edge)
    → ((from to : VertexId) (g : Graph) → IsConsistent g v e → Updated (act from to g) v e)
    → IsConsistent g v e
    → Updated (between act u g) v e
unfolding between
between-Updated act u g v e keeps h =
    let from = convert u.from g.vertices in
    let g1 = record g { vertices = from.1 } in
    let h1 = converted g v e h u.from in
    let to = convert u.to from.1 in
    let g2 = record g1 { vertices = to.1 } in
    let h2 = converted g1 v e h1 u.to in
    elim (Option-cases (Vertices.get_vertex_id from.0 from.1)) [
      | inl unknown ↦ rw (unknown, between) (same g1 v e h1)
      | inr (from_id, found) ↦ elim (Option-cases (Vertices.get_vertex_id to.0 to.1)) [
        | inl unknown ↦ rw (found, between, unknown) (same g2 v e h2)
        | inr (to_id, found_to) ↦ rw (found, between, found_to) (keeps from_id to_id g2 h2)
      ]
    ]

update_kind-Updated :
    (k : UpdateKind) (u : Update) (g : Graph) (v : Layers VertexId) (e : Layers Edge)
    → IsConsistent g v e
    → Updated (update_kind k u g) v e
unfolding update_kind add_edge_impl remove_edge_impl
update_kind-Updated UpdateKind.add_vertex u g v e h = add_vertex_impl-Updated g v e h u
update_kind-Updated UpdateKind.remove_vertex u g v e h = remove_vertex_impl-Updated g v e h u
update_kind-Updated UpdateKind.add_edge u g v e h =
    between-Updated (link u.label) u g v e (λ from to g h. link-Updated g v e h u.label from to) h
update_kind-Updated UpdateKind.remove_edge u g v e h =
    between-Updated (unlink u.label) u g v e (λ from to g h. unlink-Updated g v e h u.label from to)
      h
update_kind-Updated UpdateKind.remove_edges_to_all u g v e h =
    remove_edges_to_all_impl-Updated g v e h u

-- A batch of updates of any kind keeps a consistent graph consistent: the containers stay well
-- formed, their logs track the layers, no edge is there without both its ends, and what is committed
-- and applied stays recorded.
pub update-Updated :
    (us : List Update) (g : Graph) (v : Layers VertexId) (e : Layers Edge)
    → IsConsistent g v e
    → Updated (update us g) v e
unfolding update
update-Updated [] g v e h = same g v e h
update-Updated (u ∷ us) g v e h =
    let first = update_kind-Updated u.kind u g v e h in
    let rest = update-Updated us (update_kind u.kind u g) _ _ first.consistent in
    record {
      vertices_now = rest.vertices_now;
      edges_now = rest.edges_now;
      consistent = rest.consistent;
    }
