-- ===== src/Graph/Examples.antt =====
-- The laws of the graph on a small graph: two vertices of one type with an edge between them.
use saengra.Prelude.{
  ◌≡◌, refl, false, ◌&&◌, some, List, [], ◌∷◌, nat_eq, ite, ℕ_discrete, lookup, insert,
}
use saengra.Text.{Text, Text-discrete}
use saengra.Interner
use saengra.UndoLog.Layers.{Layers, apply_layers, commit_layers, rollback_layers}
use saengra.Edge.{VertexId, Edge, edge_eq, Edge-discrete}
use saengra.Vertex.{VertexData-discrete}
use saengra.Vertices
use saengra.Edges.Container as Edges
use saengra.Edges.Container.Sync.{contents}
use saengra.Graph.{
  Graph, Update, UpdateVertex, UpdateKind, empty, convert, update, update_kind, add_vertex_impl,
  add_edge_impl, between, link, apply, commit, rollback, remove_vertex_impl,
}
use saengra.Graph.Consistent.{IsConsistent, empty-IsConsistent}
use saengra.Graph.Updates.{Updated, update-Updated}
use saengra.Graph.Transactions.{
  Reports, apply-Reports, apply-IsConsistent, commit-IsConsistent, rollback-IsConsistent,
  rollback-update,
}
use saengra.Graph.Effects.{contents-link, remove_vertex_impl_lem}

abbrev ann : UpdateVertex
ann = record { type_name = 1 ∷ []; value = 2 ∷ [] }

abbrev bob : UpdateVertex
bob = record { type_name = 1 ∷ []; value = 3 ∷ [] }

abbrev knows : Text
knows = 7 ∷ []

abbrev step : UpdateKind → UpdateVertex → UpdateVertex → Update
step k a b = record { kind = k; from = a; label = knows; to = b }

abbrev setup : List Update
setup =
    step UpdateKind.add_vertex ann ann
    ∷ step UpdateKind.add_vertex bob bob
    ∷ step UpdateKind.add_edge ann bob
    ∷ []

abbrev more : List Update
more =
    step UpdateKind.add_edge bob ann
    ∷ step UpdateKind.remove_edges_to_all bob ann
    ∷ step UpdateKind.remove_vertex ann ann
    ∷ []

abbrev nothing : {K : Type 0} → Layers K
nothing = record { committed = λ k. false; applied = λ k. false; current = λ k. false }

abbrev pair : Graph
pair = update setup empty

abbrev built : Updated pair nothing nothing
built = update-Updated setup empty nothing nothing empty-IsConsistent

abbrev pair_vertices : Layers VertexId
pair_vertices = record {
  committed = λ k. false;
  applied = λ k. false;
  current = built.vertices_now;
}

abbrev pair_edges : Layers Edge
pair_edges = record { committed = λ k. false; applied = λ k. false; current = built.edges_now }

abbrev pair_ok : IsConsistent pair pair_vertices pair_edges
pair_ok = built.consistent

update-Updated_example : Updated (update more pair) pair_vertices pair_edges
update-Updated_example = update-Updated more pair pair_vertices pair_edges pair_ok

rollback-update_example :
    ((id : VertexId) → Vertices.is_present (rollback (update more pair)).vertices id ≡ false)
    × ((k : Edge) → contents (rollback (update more pair)).edges k ≡ false)
rollback-update_example = rollback-update pair pair_vertices pair_edges more pair_ok

apply-Reports_example : Reports pair pair_vertices pair_edges pair_ok (apply pair).0
apply-Reports_example = apply-Reports pair pair_vertices pair_edges pair_ok

apply-IsConsistent_example :
    IsConsistent (apply pair).1 (apply_layers pair_vertices) (apply_layers pair_edges)
apply-IsConsistent_example = apply-IsConsistent pair pair_vertices pair_edges pair_ok

commit-IsConsistent_example :
    IsConsistent (commit pair) (commit_layers pair_vertices) (commit_layers pair_edges)
commit-IsConsistent_example = commit-IsConsistent pair pair_vertices pair_edges pair_ok

rollback-IsConsistent_example :
    IsConsistent (rollback pair) (rollback_layers pair_vertices) (rollback_layers pair_edges)
rollback-IsConsistent_example = rollback-IsConsistent pair pair_vertices pair_edges pair_ok

contents-link_example :
    contents (link knows 1 0 pair).edges (record { from = 1; label = 0; to = 0 })
    ≡ ite
        (Edge-discrete
          (record { from = 1; label = (Edges.internalize_label knows pair.edges).0; to = 0 })
          (record { from = 1; label = 0; to = 0 }))
        (Vertices.is_present pair.vertices 1 && Vertices.is_present pair.vertices 0)
        (contents pair.edges (record { from = 1; label = 0; to = 0 }))
contents-link_example =
    contents-link pair pair_vertices pair_edges pair_ok knows 1 0
      (record { from = 1; label = 0; to = 0 })

-- The second vertex, once more, is found under its identifier.
bob_found :
    Vertices.get_vertex_id (convert bob pair.vertices).0 (convert bob pair.vertices).1 ≡ some 1
unfolding update update_kind add_vertex_impl add_edge_impl between link convert empty Vertices.empty
    Vertices.internalize_type_name Vertices.insert_by_type Vertices.set_present Vertices.emplace
    Vertices.log_present Vertices.add_vertex Vertices.get_vertex_id Interner.internalize
    Interner.find lookup insert VertexData-discrete ℕ_discrete Text-discrete
bob_found = refl

remove_vertex_impl_lem_example :
    (Vertices.is_present
        (remove_vertex_impl (step UpdateKind.remove_vertex bob bob) pair).vertices
        1
      ≡ false)
    × ((k : Edge)
        → contents (remove_vertex_impl (step UpdateKind.remove_vertex bob bob) pair).edges k
          ≡ ite (ℕ_discrete 1 k.from) false (ite (ℕ_discrete 1 k.to) false (contents pair.edges k)))
remove_vertex_impl_lem_example =
    remove_vertex_impl_lem pair pair_vertices pair_edges pair_ok
      (step UpdateKind.remove_vertex bob bob) 1 bob_found
