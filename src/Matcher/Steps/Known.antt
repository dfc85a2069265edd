-- ===== src/Matcher/Steps/Known.antt =====
-- An edge to a known vertex (`match_edge_to_vertex` and `add_particular_edge_deps` of
-- saengra-server/src/matcher.cpp).
pub mod Contents
pub mod Returns
pub mod First
use saengra.Prelude.{
  ℕ, Bool, true, false, Option, none, some, List, [], ◌∷◌, ◌++◌, if◌then◌else◌, get_elem?, not,
}
use saengra.Text.{text_eq}
use saengra.Prelude.{same}
use saengra.Vertex.{VertexData}
use saengra.Edge.{VertexId, EdgeLabel, Edge, reverse, reverse_all, sort_and_intersect}
use saengra.Refs.{RefName, Refs}
use saengra.Refs.Cells.{positives}
use saengra.Expression.{Direction}
use saengra.Plan.{PositionKind, MatchVertex, MatchEdge}
use saengra.Subgraph.{
  Position, is_orbit, Subgraph, Observable, QuerySetObservable, edge_from, edge_to, particular_edge,
  particular_vertex,
}
use saengra.Matcher.{
  MatchMode, Query, Start, Found, nothing, found, depends, failed, also, collect, contents_of, dep,
  when_matched,
}
use saengra.Matcher.Steps.{match_vertex, iter_all_between, EdgeMatch, edge_phases, run_phases}

-- The vertex at the end of the edge. `broken` stands for an index beyond the values, or a vertex
-- without a reference, which do not arise.
pub data Target : Type 0 where
  missing : VertexData → Target
  known : VertexId → Target
  not_set : Target
  broken : Target

value_of : RefName → List (RefName × VertexId) → Target
value_of name [] = Target.not_set
value_of name ((n, id) ∷ bindings) = if same n name then Target.known id else value_of name bindings

ref_target : Option RefName → List (RefName × VertexId) → Target
unfolding value_of
ref_target ref [] = Target.not_set
ref_target none (b ∷ bindings) = Target.broken
ref_target (some name) (b ∷ bindings) = value_of name (b ∷ bindings)

placeholder_target : Option (Option VertexId) → Option VertexData → Target
placeholder_target (some (some id)) value = Target.known id
placeholder_target (some none) (some value) = Target.missing value
placeholder_target (some none) none = Target.broken
placeholder_target none value = Target.broken

pub target_of : Query → MatchVertex → Refs → Target
unfolding ref_target placeholder_target
target_of q v refs = elim v.placeholder_idx [
  | none ↦ ref_target v.match_ref (positives refs)
  | some i ↦
      placeholder_target (get_elem? q.placeholder_value_ids i) (get_elem? q.placeholder_values i)
]

singles : VertexId → List Edge → List EdgeMatch
singles to [] = []
singles to (e ∷ es) = record { edges = e ∷ []; to = to } ∷ singles to es

pairs_with : VertexId → Edge → List Edge → List EdgeMatch
pairs_with to f [] = []
pairs_with to f (b ∷ bs) = record { edges = f ∷ b ∷ []; to = to } ∷ pairs_with to f bs

all_pairs : VertexId → List Edge → List Edge → List EdgeMatch
unfolding pairs_with
all_pairs to [] bs = []
all_pairs to (f ∷ fs) bs = pairs_with to f bs ++ all_pairs to fs bs

with_reverse : VertexId → List Edge → List EdgeMatch
with_reverse to [] = []
with_reverse to (e ∷ es) = record { edges = e ∷ reverse e ∷ []; to = to } ∷ with_reverse to es

module _ (q : Query) (origin : Position) where
  edges_with : VertexId → VertexId → List EdgeLabel → List QuerySetObservable
  edges_with from to [] = []
  edges_with from to (label ∷ labels) =
      dep origin (particular_edge (record { from = from; label = label; to = to }))
      ∷ edges_with from to labels

  forward_deps : MatchEdge → VertexId → VertexId → List QuerySetObservable
  unfolding edges_with
  forward_deps e from to = elim e.forward_labels [
    | none ↦ dep origin (edge_from from) ∷ []
    | some labels ↦ edges_with from to labels
  ]

  backward_deps : MatchEdge → VertexId → VertexId → List QuerySetObservable
  unfolding edges_with
  backward_deps e from to = elim e.backward_labels [
    | none ↦ dep origin (edge_to from) ∷ []
    | some labels ↦ edges_with to from labels
  ]

  particular_edge_deps : MatchEdge → Direction → VertexId → VertexId → List QuerySetObservable
  unfolding forward_deps backward_deps
  particular_edge_deps e Direction.forward from to = forward_deps e from to
  particular_edge_deps e Direction.backward from to = backward_deps e from to
  particular_edge_deps e Direction.any from to = forward_deps e from to ++ backward_deps e from to
  particular_edge_deps e Direction.both from to = forward_deps e from to ++ backward_deps e from to
  particular_edge_deps e Direction.both_symmetric from to =
      forward_deps e from to ++ backward_deps e from to

  -- The edges between the two vertices, one or two for each match.
  matched_edges : MatchEdge → Direction → VertexId → VertexId → List EdgeMatch
  unfolding iter_all_between singles all_pairs with_reverse
  matched_edges e Direction.forward from to =
      singles to (iter_all_between q origin from to e.forward_labels)
  matched_edges e Direction.backward from to =
      singles to (iter_all_between q origin to from e.backward_labels)
  matched_edges e Direction.any from to =
      singles to (iter_all_between q origin from to e.forward_labels)
      ++ singles to (iter_all_between q origin to from e.backward_labels)
  matched_edges e Direction.both from to =
      all_pairs to (iter_all_between q origin from to e.forward_labels)
        (iter_all_between q origin to from e.backward_labels)
  matched_edges e Direction.both_symmetric from to = with_reverse to (
      sort_and_intersect (iter_all_between q origin from to e.forward_labels)
        (reverse_all (iter_all_between q origin to from e.backward_labels)))

  emit : MatchMode → Position → List VertexId → List Edge → Refs → EdgeMatch → Found
  emit mode start vertices edges refs m = found (record {
    start_position = start;
    end_positions = record { vertex_id = m.to; kind = PositionKind.orbit } ∷ [];
    vertices = contents_of mode (vertices ++ (m.to ∷ []));
    edges = contents_of mode (edges ++ m.edges);
    refs = refs;
  })

  -- The vertex at the end, then what is done with the new refs.
  at_end : MatchVertex → Refs → VertexId → (Refs → Found) → Found
  at_end v refs to f =
      when_matched
        (match_vertex q origin v (record { vertex_id = to; kind = PositionKind.core }) refs) f

  emit_all :
      MatchMode
      → Position
      → List VertexId
      → List Edge
      → MatchVertex
      → Refs
      → VertexId
      → List EdgeMatch
      → Found
  unfolding at_end emit
  emit_all mode start vertices edges v refs to [] = nothing
  emit_all mode start vertices edges v refs to (m ∷ ms) =
      at_end v refs to (λ new_refs. collect mode (emit mode start vertices edges new_refs) (m ∷ ms))

  to_target :
      MatchMode
      → MatchEdge
      → MatchVertex
      → Position
      → Target
      → Position
      → Refs
      → List VertexId
      → List Edge
      → Found
  unfolding particular_edge_deps matched_edges emit_all at_end emit edge_phases run_phases
  to_target mode e v start (Target.missing value) position refs vertices edges =
      depends (dep origin (particular_vertex value) ∷ [])
  to_target mode e v start Target.broken position refs vertices edges = failed
  to_target mode e v start Target.not_set position refs vertices edges =
      run_phases mode
        (λ m. at_end v refs m.to (λ new_refs. emit mode start vertices edges new_refs m))
        (edge_phases q origin e position)
  to_target mode e v start (Target.known to) position refs vertices edges =
      also (depends (particular_edge_deps e e.direction position.vertex_id to)) (
        emit_all mode start vertices edges v refs to
          (matched_edges e e.direction position.vertex_id to))

  pub match_edge_to_vertex :
      MatchMode
      → MatchEdge
      → MatchVertex
      → Position
      → Position
      → Refs
      → List VertexId
      → List Edge
      → Found
  unfolding to_target target_of
  match_edge_to_vertex mode e v start position refs vertices edges =
      if not (is_orbit position.kind)
      then nothing
      else to_target mode e v start (target_of q v refs) position refs vertices edges
