-- ===== src/Graph/Transactions.antt =====
-- Transactions over the whole graph.
use saengra.Prelude.{
  ◌≡◌, sym, false, not, ◌&&◌, List, arith, contains, nat_eq, Bool-cases, inl, inr,
}
use saengra.UndoLog.Layers.{Layers, apply_layers, commit_layers, rollback_layers}
use saengra.Edge.{VertexId, Edge, edge_eq}
use saengra.Vertices
use saengra.Vertices.Transactions as VT
use saengra.Edges.Container as Edges
use saengra.Edges.Container.Sync.{contents}
use saengra.Edges.Container.Transactions as ET
use saengra.Graph.{Graph, GraphChanges, Update, no_changes, apply, commit, rollback, update}
use saengra.Graph.Consistent.{IsConsistent}
use saengra.Graph.Updates.{update-Updated}

module _ (g : Graph) (v : Layers VertexId) (e : Layers Edge) (h : IsConsistent g v e) where
  open h use {vertices_ok, edges_ok, committed_closed, applied_closed, current_closed}

  -- `commit` keeps a consistent graph consistent, with what is applied as what is committed and
  -- changes that are not applied kept.
  pub commit-IsConsistent : IsConsistent (commit g) (commit_layers v) (commit_layers e)
  unfolding commit
  commit-IsConsistent = record {
    vertices_ok = VT.commit-Refines g.vertices v vertices_ok;
    edges_ok = ET.commit-Refines g.edges e edges_ok;
    committed_closed = applied_closed;
    applied_closed = applied_closed;
    current_closed = current_closed;
  }

  -- `rollback` keeps a consistent graph consistent, with what is committed as what is applied and
  -- there now.
  pub rollback-IsConsistent : IsConsistent (rollback g) (rollback_layers v) (rollback_layers e)
  unfolding rollback
  rollback-IsConsistent = record {
    vertices_ok = VT.rollback-Refines g.vertices v vertices_ok;
    edges_ok = ET.rollback-Refines g.edges e edges_ok;
    committed_closed = committed_closed;
    applied_closed = committed_closed;
    current_closed = committed_closed;
  }

  -- What the changes that `apply` returns say.
  pub record Reports (c : GraphChanges) : Type 0 where
    pub added_vertices :
        (id : VertexId) → contains c.added_vertices id ≡ (v.current id && not (v.applied id))
    pub removed_vertices :
        (id : VertexId) → contains c.removed_vertices id ≡ (not (v.current id) && v.applied id)
    pub added_edges : (k : Edge) → contains c.added_edges k ≡ (e.current k && not (e.applied k))
    pub removed_edges : (k : Edge) → contains c.removed_edges k ≡ (not (e.current k) && e.applied k)

  no_changes-Reports :
      Vertices.has_unapplied_changes g.vertices ≡ false
      → Edges.has_unapplied_changes g.edges ≡ false
      → Reports no_changes
  unfolding no_changes contains
  no_changes-Reports no_vertices no_edges =
      let same_v = VT.has_unapplied_changes_lem g.vertices v vertices_ok no_vertices in
      let same_e = ET.has_unapplied_changes_lem g.edges e edges_ok no_edges in
      record {
        added_vertices = λ id. ground (arith, same_v id);
        removed_vertices = λ id. ground (arith, same_v id);
        added_edges = λ k. ground (arith, same_e k);
        removed_edges = λ k. ground (arith, same_e k);
      }

  -- For a consistent graph, the changes that `apply` returns list exactly the vertices and edges
  -- that are there now and were not when changes were last applied, and exactly those that were then
  -- and are not now.
  pub apply-Reports : Reports (apply g).0
  unfolding apply
  apply-Reports =
      elim (Bool-cases (
        not (Vertices.has_unapplied_changes g.vertices)
        && not (Edges.has_unapplied_changes g.edges))) [
          | inl none_there ↦
              rw (none_there, apply) (no_changes-Reports (ground arith) (ground arith))
          | inr some_there ↦
              rw (some_there, apply)
                (record {
                  added_vertices = VT.iter_just_added_lem g.vertices v vertices_ok;
                  removed_vertices = VT.iter_just_removed_lem g.vertices v vertices_ok;
                  added_edges = λ k. ET.iter_just_added_lem g.edges e k edges_ok;
                  removed_edges = λ k. ET.iter_just_removed_lem g.edges e k edges_ok;
                })
        ]

  -- `apply` keeps a consistent graph consistent, with what is there now as what is applied, also
  -- where it returns early because nothing was changed.
  pub apply-IsConsistent : IsConsistent (apply g).1 (apply_layers v) (apply_layers e)
  unfolding apply
  apply-IsConsistent =
      elim (Bool-cases (
        not (Vertices.has_unapplied_changes g.vertices)
        && not (Edges.has_unapplied_changes g.edges))) [
          | inl none_there ↦
              rw (none_there, apply)
                (record {
                  vertices_ok = VT.unapplied-Refines g.vertices v vertices_ok (ground arith);
                  edges_ok = ET.unapplied-Refines g.edges e edges_ok (ground arith);
                  committed_closed = committed_closed;
                  applied_closed = current_closed;
                  current_closed = current_closed;
                })
          | inr some_there ↦
              rw (some_there, apply)
                (record {
                  vertices_ok = VT.apply-Refines g.vertices v vertices_ok;
                  edges_ok = ET.apply-Refines g.edges e edges_ok;
                  committed_closed = committed_closed;
                  applied_closed = current_closed;
                  current_closed = current_closed;
                })
        ]

-- If a graph is consistent with given layers of vertices and edges, then a batch of updates of any
-- kind, followed by a rollback, leaves exactly the vertices and the edges of the committed layers.
pub rollback-update :
    (g : Graph) (v : Layers VertexId) (e : Layers Edge) (us : List Update)
    → IsConsistent g v e
    → ((id : VertexId) → Vertices.is_present (rollback (update us g)).vertices id ≡ v.committed id)
      × ((k : Edge) → contents (rollback (update us g)).edges k ≡ e.committed k)
rollback-update g v e us h =
    let u = update-Updated us g v e h in
    let r = rollback-IsConsistent (update us g) _ _ u.consistent in
    (λ id. sym (r.vertices_ok.now id), λ k. sym (r.edges_ok.now k))
