-- ===== src/Vertices/Examples.antt =====
-- The laws of the vertices container on a container with two vertices.
use saengra.Prelude.{
  ◌≡◌, refl, List, false, true, some, [], ◌∷◌, nat_eq, lookup, insert, ℕ_discrete,
}
use saengra.UndoLog.Layers.{Layers}
use saengra.Edge.{VertexId}
use saengra.Vertex.{VertexData, VertexData-discrete}
use saengra.Vertices.{
  VerticesContainer, empty, add_vertex, discard_vertex, get_vertex_id, emplace, log_present,
  set_present, insert_by_type,
}
use saengra.Vertices.Refines.{
  Refines, empty-Refines, with_item, id_of, add_vertex-Refines, discard_vertex-Refines,
}
use saengra.Vertices.Contents.{
  Operation, add, discard, apply_changes, commit_changes, rollback_changes, run, set_run,
  no_vertices,
}
use saengra.Vertices.Contents.Shown.{Shows, run-Shows}

abbrev ann : VertexData
ann = record { type_name = 0; value = 2 ∷ [] }

abbrev bob : VertexData
bob = record { type_name = 0; value = 3 ∷ [] }

abbrev no_ids : Layers VertexId
no_ids = record { committed = λ k. false; applied = λ k. false; current = λ k. false }

abbrev one : VerticesContainer
one = add_vertex ann empty

abbrev one_layers : Layers VertexId
one_layers = with_item (id_of ann empty) true no_ids

abbrev one_ok : Refines one one_layers
one_ok = add_vertex-Refines empty no_ids empty-Refines ann

add_vertex-Refines_example :
    Refines (add_vertex bob one) (with_item (id_of bob one) true one_layers)
add_vertex-Refines_example = add_vertex-Refines one one_layers one_ok bob

ann_found : get_vertex_id ann one ≡ some 0
unfolding empty add_vertex emplace log_present set_present insert_by_type get_vertex_id lookup
    insert VertexData-discrete ℕ_discrete
ann_found = refl

discard_vertex-Refines_example : Refines (discard_vertex ann one) (with_item 0 false one_layers)
discard_vertex-Refines_example = discard_vertex-Refines one one_layers one_ok ann 0 ann_found

-- A vertex that is discarded, added again and rolled back, beside one that is committed.
abbrev history : List Operation
history =
    add bob
    ∷ apply_changes
    ∷ commit_changes
    ∷ add ann
    ∷ apply_changes
    ∷ discard bob
    ∷ add bob
    ∷ discard ann
    ∷ rollback_changes
    ∷ add ann
    ∷ []

run-Shows_example : Shows (run history empty) (set_run history no_vertices)
run-Shows_example = run-Shows history
