-- ===== src/Graph/Consistent.antt =====
-- The consistency of a graph: its containers are well formed and no edge dangles, neither now nor
-- in what was applied or committed.
use saengra.Prelude.{◌≡◌, Bool, true, false}
use saengra.UndoLog.Layers.{Layers}
use saengra.Edge.{VertexId, Edge}
use saengra.Vertices.Refines as VR
use saengra.Edges.Container.Refines as ER
use saengra.Graph.{Graph, empty}

-- Both ends of every edge are present.
abbrev pub IsClosed : (VertexId → Bool) → (Edge → Bool) → Type 0
IsClosed vertices edges =
    (e : Edge) → edges e ≡ true → (vertices e.from ≡ true) × (vertices e.to ≡ true)

pub record IsConsistent (g : Graph) (v : Layers VertexId) (e : Layers Edge) : Type 0 where
  pub vertices_ok : VR.Refines g.vertices v
  pub edges_ok : ER.Refines g.edges e
  pub committed_closed : IsClosed v.committed e.committed
  pub applied_closed : IsClosed v.applied e.applied
  pub current_closed : IsClosed v.current e.current

pub empty-IsConsistent :
    IsConsistent empty
      (record { committed = λ k. false; applied = λ k. false; current = λ k. false })
      (record { committed = λ k. false; applied = λ k. false; current = λ k. false })
unfolding empty
empty-IsConsistent = record {
  vertices_ok = VR.empty-Refines;
  edges_ok = ER.empty-Refines;
  committed_closed = λ e h. cc;
  applied_closed = λ e h. cc;
  current_closed = λ e h. cc;
}
