-- ===== src/Vertices/Contents.antt =====
-- The vertices container of saengra-server/src/vertices_container.cpp after any operations, beside a
-- transactional set of vertices by their contents.
pub mod Shown
use saengra.Prelude.{
  ◌≡◌, refl, ap, Bool, true, false, not, some, List, [], ◌∷◌, arith, ite, get_elem?, lookup,
  contains, nat_eq, Option-cases, inl, inr, ◌&&◌,
}
use saengra.UndoLog.Layers.{Layers, apply_layers, commit_layers, rollback_layers}
use saengra.Edge.{VertexId}
use saengra.Vertex.{VertexTypeName, VertexData, data_of, vertex_data_eq, VertexData-discrete}
use saengra.Vertices.{
  VerticesContainer, empty, emplace, add_vertex, get_vertex_id, discard_vertex, apply, commit,
  rollback, iter_present_by_type_name, iter_just_added, iter_just_removed, iter_present,
}
use saengra.Vertices.Valid.{emplace-IsValid}
use saengra.Vertices.Refines.{
  Refines, with_item, id_of, empty-Refines, add_vertex-Refines, discard_vertex-Refines,
}
use saengra.Vertices.Agrees.{
  known_in, AgreesOn, AgreesOn-same, AgreesOn-emplace, AgreesOn-with, AgreesOn-unknown, id_of-known,
  add_vertex-SameKeys, discard_vertex-SameKeys, undo_all-SameKeys,
}
use saengra.Vertices.Transactions.{
  apply-Refines, commit-Refines, rollback-Refines, iter_just_added_lem, iter_just_removed_lem,
}

pub data Operation : Type 0 where
  add : VertexData → Operation
  discard : VertexData → Operation
  apply_changes : Operation
  commit_changes : Operation
  rollback_changes : Operation

pub step : Operation → VerticesContainer → VerticesContainer
step (add v) c = add_vertex v c
step (discard v) c = discard_vertex v c
step apply_changes c = apply c
step commit_changes c = commit c
step rollback_changes c = rollback c

pub run : List Operation → VerticesContainer → VerticesContainer
unfolding step
run [] c = c
run (o ∷ os) c = run os (step o c)

abbrev with_vertex : VertexData → Bool → Layers VertexData → Layers VertexData
with_vertex v b l = record l { current = λ w. ite (VertexData-discrete v w) b (l.current w) }

-- The same operations on a set of vertices in three layers, without identifiers, indices and log.
pub set_step : Operation → Layers VertexData → Layers VertexData
set_step (add v) l = with_vertex v true l
set_step (discard v) l = with_vertex v false l
set_step apply_changes l = apply_layers l
set_step commit_changes l = commit_layers l
set_step rollback_changes l = rollback_layers l

pub set_run : List Operation → Layers VertexData → Layers VertexData
unfolding set_step
set_run [] l = l
set_run (o ∷ os) l = set_run os (set_step o l)

abbrev pub no_vertices : Layers VertexData
no_vertices = record { committed = λ v. false; applied = λ v. false; current = λ v. false }

-- The container refines layers of identifiers, which stand for layers of vertices.
pub record Holds (c : VerticesContainer) (l : Layers VertexData) : Type 0 where
  pub layers : Layers VertexId
  pub refines : Refines c layers
  pub committed : AgreesOn c layers.committed l.committed
  pub applied : AgreesOn c layers.applied l.applied
  pub current : AgreesOn c layers.current l.current

pub empty-Holds : Holds empty no_vertices
unfolding empty lookup
empty-Holds = record {
  layers = record { committed = λ k. false; applied = λ k. false; current = λ k. false };
  refines = empty-Refines;
  committed = record { same = λ v. refl; unused = λ id h. refl };
  applied = record { same = λ v. refl; unused = λ id h. refl };
  current = record { same = λ v. refl; unused = λ id h. refl };
}

module _ (c : VerticesContainer) (l : Layers VertexData) (h : Holds c l) where
  add_vertex-Holds : (v : VertexData) → Holds (add_vertex v c) (with_vertex v true l)
  add_vertex-Holds v =
      let d = (emplace v c).1 in
      let valid = h.refines.valid in
      let keys = add_vertex-SameKeys v c in
      let kept : (f : VertexId → Bool) (F : VertexData → Bool) → AgreesOn c f F → AgreesOn d f F =
        λ f F. AgreesOn-emplace v c f F valid in
      record {
        layers = with_item (id_of v c) true h.layers;
        refines = add_vertex-Refines c h.layers h.refines v;
        committed = AgreesOn-same d (add_vertex v c) _ _ keys (kept _ _ h.committed);
        applied = AgreesOn-same d (add_vertex v c) _ _ keys (kept _ _ h.applied);
        current = AgreesOn-same d (add_vertex v c) _ _ keys (
            AgreesOn-with d _ _ v (id_of v c) true (emplace-IsValid v c valid)
              (id_of-known v c valid) (kept _ _ h.current));
      }

  discard_vertex-Holds : (v : VertexData) → Holds (discard_vertex v c) (with_vertex v false l)
  unfolding discard_vertex get_vertex_id
  discard_vertex-Holds v =
      let d = discard_vertex v c in
      let keys = discard_vertex-SameKeys v c in
      elim (Option-cases (lookup v c.vertex_id_by_vertex)) [
        | inl e ↦ record {
          layers = h.layers;
          refines = rw (discard_vertex, e) h.refines;
          committed = AgreesOn-same c d _ _ keys h.committed;
          applied = AgreesOn-same c d _ _ keys h.applied;
          current = AgreesOn-same c d _ _ keys (AgreesOn-unknown c _ _ v e h.current);
        }
        | inr (id, e) ↦ record {
          layers = with_item id false h.layers;
          refines = discard_vertex-Refines c h.layers h.refines v id e;
          committed = AgreesOn-same c d _ _ keys h.committed;
          applied = AgreesOn-same c d _ _ keys h.applied;
          current =
              AgreesOn-same c d _ _ keys
                (AgreesOn-with c _ _ v id false h.refines.valid e h.current);
        }
      ]

  apply-Holds : Holds (apply c) (apply_layers l)
  unfolding apply
  apply-Holds = record {
    layers = apply_layers h.layers;
    refines = apply-Refines c h.layers h.refines;
    committed = AgreesOn-same c (apply c) _ _ (refl, λ j. refl) h.committed;
    applied = AgreesOn-same c (apply c) _ _ (refl, λ j. refl) h.current;
    current = AgreesOn-same c (apply c) _ _ (refl, λ j. refl) h.current;
  }

  commit-Holds : Holds (commit c) (commit_layers l)
  unfolding commit
  commit-Holds = record {
    layers = commit_layers h.layers;
    refines = commit-Refines c h.layers h.refines;
    committed = AgreesOn-same c (commit c) _ _ (refl, λ j. refl) h.applied;
    applied = AgreesOn-same c (commit c) _ _ (refl, λ j. refl) h.applied;
    current = AgreesOn-same c (commit c) _ _ (refl, λ j. refl) h.current;
  }

  rollback-Holds : Holds (rollback c) (rollback_layers l)
  unfolding rollback
  rollback-Holds =
      let keys = undo_all-SameKeys c.log c in
      let committed = AgreesOn-same c (rollback c) _ _ keys h.committed in
      record {
        layers = rollback_layers h.layers;
        refines = rollback-Refines c h.layers h.refines;
        committed = committed;
        applied = committed;
        current = committed;
      }

  step-Holds : (o : Operation) → Holds (step o c) (set_step o l)
  unfolding step set_step
  step-Holds (add v) = add_vertex-Holds v
  step-Holds (discard v) = discard_vertex-Holds v
  step-Holds apply_changes = apply-Holds
  step-Holds commit_changes = commit-Holds
  step-Holds rollback_changes = rollback-Holds

pub run-Holds :
    (os : List Operation) (c : VerticesContainer) (l : Layers VertexData)
    → Holds c l
    → Holds (run os c) (set_run os l)
unfolding run set_run
run-Holds [] c l h = h
run-Holds (o ∷ os) c l h = run-Holds os (step o c) (set_step o l) (step-Holds c l h o)
