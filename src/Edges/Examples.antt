-- ===== src/Edges/Examples.antt =====
-- The laws of the edges container on a small container: edges from one vertex to two others.
use saengra.Prelude.{ℕ, ◌≡◌, false, true, ◌&&◌, [], ◌∷◌, contains, nat_eq, ite, ℕ_discrete}
use saengra.UndoLog.Layers.{Layers, apply_layers, rollback_layers}
use saengra.Edge.{VertexId, EdgeLabel, Edge, edge_eq, Edge-discrete}
use saengra.Edges.Branch.Items.{allows}
use saengra.Edges.Container.{
  EdgesContainer, empty, add_edge, remove_edge, remove_edges_from_via_label, remove_edges_of_vertex,
  apply, rollback, iter_just_added, iter_present_from_vertex_via_labels,
  iter_present_to_vertex_via_labels, iter_present_from_vertex_to_vertex,
}
use saengra.Edges.Container.Sync.{contents}
use saengra.Edges.Container.Refines.{
  Refines, empty-Refines, with_edge, without_edge, without_edges_via, without_vertex,
  add_edge-Refines, remove_edge-Refines,
}
use saengra.Edges.Container.Bulk.{
  remove_edges_from_via_label-Refines, remove_edges_of_vertex-Refines,
}
use saengra.Edges.Container.Transactions.{apply-Refines, rollback-Refines, iter_just_added_lem}
use saengra.Edges.Container.Queries.{
  contains-iter_present_from_vertex_to_vertex, from_vertex_to_vertex,
}

abbrev arc : VertexId → EdgeLabel → VertexId → Edge
arc f l t = record { from = f; label = l; to = t }

abbrev no_edges : Layers Edge
no_edges = record { committed = λ k. false; applied = λ k. false; current = λ k. false }

abbrev fork : EdgesContainer
fork = add_edge (arc 0 5 2) (apply (add_edge (arc 0 5 1) empty))

abbrev fork_layers : Layers Edge
fork_layers = with_edge (arc 0 5 2) (apply_layers (with_edge (arc 0 5 1) no_edges))

abbrev fork_ok : Refines fork fork_layers
fork_ok =
    add_edge-Refines (apply (add_edge (arc 0 5 1) empty))
      (apply_layers (with_edge (arc 0 5 1) no_edges))
      (apply-Refines (add_edge (arc 0 5 1) empty) (with_edge (arc 0 5 1) no_edges)
        (add_edge-Refines empty no_edges empty-Refines (arc 0 5 1)))
      (arc 0 5 2)

add_edge-Refines_example : Refines (add_edge (arc 2 5 2) fork) (with_edge (arc 2 5 2) fork_layers)
add_edge-Refines_example = add_edge-Refines fork fork_layers fork_ok (arc 2 5 2)

remove_edge-Refines_example :
    Refines (remove_edge (arc 0 5 1) fork) (without_edge (arc 0 5 1) fork_layers)
remove_edge-Refines_example = remove_edge-Refines fork fork_layers fork_ok (arc 0 5 1)

remove_edges_from_via_label-Refines_example :
    Refines (remove_edges_from_via_label 0 5 fork) (without_edges_via 0 5 fork_layers)
remove_edges_from_via_label-Refines_example =
    remove_edges_from_via_label-Refines fork fork_layers fork_ok 0 5

remove_edges_of_vertex-Refines_example :
    Refines (remove_edges_of_vertex 2 fork) (without_vertex 2 fork_layers)
remove_edges_of_vertex-Refines_example = remove_edges_of_vertex-Refines fork fork_layers fork_ok 2

rollback-Refines_example : Refines (rollback fork) (rollback_layers fork_layers)
rollback-Refines_example = rollback-Refines fork fork_layers fork_ok

iter_just_added_lem_example : contains (iter_just_added fork) (arc 0 5 2) ≡ true
unfolding Edge-discrete ℕ_discrete
iter_just_added_lem_example = iter_just_added_lem fork fork_layers (arc 0 5 2) fork_ok

contains-iter_present_from_vertex_to_vertex_example :
    contains (iter_present_from_vertex_to_vertex 0 2 [] fork) (arc 0 5 2)
    ≡ ite
        (ℕ_discrete 0 0)
        (ite (ℕ_discrete 2 2) (allows [] 5 && contents fork (arc 0 5 2)) false)
        false
contains-iter_present_from_vertex_to_vertex_example =
    contains-iter_present_from_vertex_to_vertex fork fork_ok.in_sync (arc 0 5 2) 0 2 []

from_vertex_to_vertex_example :
    (contains (iter_present_from_vertex_via_labels 0 (5 ∷ []) fork) (arc 0 5 2)
      && contains (iter_present_to_vertex_via_labels 2 (5 ∷ []) fork) (arc 0 5 2))
    ≡ (contains {A = ℕ} (5 ∷ []) 5
        && contains (iter_present_from_vertex_to_vertex 0 2 (5 ∷ []) fork) (arc 0 5 2))
from_vertex_to_vertex_example = from_vertex_to_vertex fork 0 2 (5 ∷ []) (arc 0 5 2) fork_ok.in_sync
