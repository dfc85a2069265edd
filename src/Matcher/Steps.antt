-- ===== src/Matcher/Steps.antt =====
-- Vertices, edges and paths (`match_vertex`, `for_each_edge_match` and `match_path` of
-- saengra-server/src/matcher.cpp).
pub mod Known
pub mod Contents
pub mod Returns
pub mod First
use saengra.Prelude.{
  ℕ, zero, suc, ◌+◌, Bool, true, false, not, ◌&&◌, ◌||◌, Option, none, some, List, [], ◌∷◌, ◌++◌,
  if◌then◌else◌, get_elem?, ◌==◌, same, contains,
}
use saengra.Text.{text_eq}
use saengra.Vertex.{VertexTypeName, VertexData, StoredVertex, data_of}
use saengra.Edge.{VertexId, EdgeLabel, Edge, reverse, reverse_all, sort_and_intersect}
use saengra.Edges.Container as Edges
use saengra.Refs.{RefName, Refs, Binding, binding, copy_and_set}
use saengra.Refs.Cells.{positives}
use saengra.Graph.{Graph}
use saengra.Expression.{Direction}
use saengra.Plan.{PositionKind, MatchVertex, MatchEdge, MatchPath}
use saengra.Subgraph.{
  Position, is_core, is_orbit, same_position, with_kind, Subgraph, Observable, QuerySetObservable,
  particular_vertex, edge_from, edge_from_with_label, edge_to, edge_to_with_label, particular_edge,
}
use saengra.Matcher.{
  MatchMode, Query, Start, Found, nothing, found, depends, failed, also, or_enough, collect,
  contents_of, dep, when_matched, is_empty,
}

-- The identifier of a placeholder's value. An index beyond the values does not arise.
pub flatten {ℓ} : {A : Type ℓ} → Option (Option A) → Option A
flatten none = none
flatten (some o) = o

-- Two vertices, or types, of which one may be left open.
abbrev is_expected : Option ℕ → ℕ → Bool
is_expected none x = false
is_expected (some y) x = x == y

abbrev is_type : Option VertexTypeName → VertexTypeName → Bool
is_type none x = true
is_type (some y) x = x == y

abbrev the_ref : MatchVertex → Option RefName
the_ref v = elim v.set_ref [ none ↦ v.match_ref | some name ↦ some name ]

-- The refs once the vertex is bound; none if it cannot be.
pub bind_ref : Option RefName → VertexId → Refs → Option Refs
bind_ref none id refs = some refs
bind_ref (some name) id refs = elim (binding name id refs) [
  | Binding.possible ↦ some (copy_and_set name id refs)
  | Binding.already_set ↦ some refs
  | Binding.impossible ↦ none
]

-- The edges of a match, one or two, and the vertex that they lead to.
pub record EdgeMatch : Type 0 where
  pub edges : List Edge
  pub to : VertexId

-- Dependencies, and the matches that come behind them.
abbrev pub Phase : Type 0
Phase = List QuerySetObservable × List EdgeMatch

outgoing : List Edge → List EdgeMatch
outgoing [] = []
outgoing (e ∷ es) = record { edges = e ∷ []; to = e.to } ∷ outgoing es

incoming : List Edge → List EdgeMatch
incoming [] = []
incoming (e ∷ es) = record { edges = e ∷ []; to = e.from } ∷ incoming es

there_and_back : List Edge → List EdgeMatch
there_and_back [] = []
there_and_back (e ∷ es) = record { edges = e ∷ reverse e ∷ []; to = e.to } ∷ there_and_back es

-- The incoming edges from the neighbour that an outgoing one leads to. The code sorts them by
-- neighbour, which leaves the order of those from one neighbour open.
pair_with : Edge → List Edge → List EdgeMatch
pair_with e [] = []
pair_with e (b ∷ bs) =
    if b.from == e.to
    then record { edges = e ∷ b ∷ []; to = e.to } ∷ pair_with e bs
    else pair_with e bs

pairs : List Edge → List Edge → List EdgeMatch
unfolding pair_with
pairs [] bs = []
pairs (e ∷ es) bs = pair_with e bs ++ pairs es bs

-- What is done with each match of an edge.
pub run_phases : MatchMode → (EdgeMatch → Found) → List Phase → Found
run_phases mode f [] = nothing
run_phases mode f ((deps, matches) ∷ phases) =
    or_enough mode (also (depends deps) (collect mode f matches)) (run_phases mode f phases)

-- What is done at the end of a path.
abbrev pub Last : Type 0
Last = Position → Refs → List VertexId → List Edge → Found

module _ (q : Query) (origin : Position) where
  fits : MatchVertex → VertexId → StoredVertex → Bool
  unfolding flatten
  fits v id stored =
      stored.present
      && (elim v.placeholder_idx [
        | none ↦ true
        | some i ↦ is_expected (flatten (get_elem? q.placeholder_value_ids i)) id
      ]
          && is_type v.type_name stored.type_name)

  vertex_deps : Position → StoredVertex → List QuerySetObservable
  vertex_deps position stored =
      if same_position origin position
      then dep origin (particular_vertex (data_of stored)) ∷ []
      else []

  match_stored :
      MatchVertex → Position → Refs → StoredVertex → Option (Refs × List QuerySetObservable)
  unfolding fits vertex_deps bind_ref
  match_stored v position refs stored =
      if not (fits v position.vertex_id stored)
      then none
      else elim (bind_ref (the_ref v) position.vertex_id refs) [
        | none ↦ none
        | some new_refs ↦ some (new_refs, vertex_deps position stored)
      ]

  -- The refs and the dependency of a match. Identifiers do not dangle.
  pub match_vertex : MatchVertex → Position → Refs → Option (Refs × List QuerySetObservable)
  unfolding match_stored
  match_vertex v position refs =
      if not (is_core position.kind)
      then none
      else elim (get_elem? q.graph.vertices.stored position.vertex_id) [
        | none ↦ none
        | some stored ↦ match_stored v position refs stored
      ]

  abbrev label_deps : (EdgeLabel → Observable) → List EdgeLabel → List QuerySetObservable
  label_deps f [] = []
  label_deps f (label ∷ labels) = dep origin (f label) ∷ label_deps f labels

  abbrev edge_deps :
      Observable → (EdgeLabel → Observable) → Option (List EdgeLabel) → List QuerySetObservable
  edge_deps any with_label none = dep origin any ∷ []
  edge_deps any with_label (some labels) = label_deps with_label labels

  pub from_deps : Option (List EdgeLabel) → VertexId → List QuerySetObservable
  from_deps labels id = edge_deps (edge_from id) (edge_from_with_label id) labels

  pub to_deps : Option (List EdgeLabel) → VertexId → List QuerySetObservable
  to_deps labels id = edge_deps (edge_to id) (edge_to_with_label id) labels

  iter_all_from : Option (List EdgeLabel) → VertexId → List Edge
  iter_all_from none from = Edges.iter_present_from_vertex from q.graph.edges
  iter_all_from (some labels) from =
      Edges.iter_present_from_vertex_via_labels from labels q.graph.edges

  iter_all_to : Option (List EdgeLabel) → VertexId → List Edge
  iter_all_to none to = Edges.iter_present_to_vertex to q.graph.edges
  iter_all_to (some labels) to = Edges.iter_present_to_vertex_via_labels to labels q.graph.edges

  pub iter_all_between : VertexId → VertexId → Option (List EdgeLabel) → List Edge
  iter_all_between from to none = Edges.iter_present_from_vertex_to_vertex from to [] q.graph.edges
  iter_all_between from to (some labels) =
      Edges.iter_present_from_vertex_to_vertex from to labels q.graph.edges

  -- `for_each_edge_match`: the matches of an edge from a position, in phases.
  phases_from : MatchEdge → Direction → VertexId → List Phase
  unfolding iter_all_from iter_all_to outgoing incoming there_and_back pairs
  phases_from e Direction.both_symmetric from =
      (
        from_deps e.forward_labels from ++ to_deps e.backward_labels from,
        there_and_back (
            sort_and_intersect (iter_all_from e.forward_labels from)
              (reverse_all (iter_all_to e.backward_labels from))),
      )
      ∷ []
  phases_from e Direction.both from =
      (
        from_deps e.forward_labels from ++ to_deps e.backward_labels from,
        pairs (iter_all_from e.forward_labels from) (iter_all_to e.backward_labels from),
      )
      ∷ []
  phases_from e Direction.forward from =
      (from_deps e.forward_labels from, outgoing (iter_all_from e.forward_labels from)) ∷ []
  phases_from e Direction.backward from =
      (to_deps e.backward_labels from, incoming (iter_all_to e.backward_labels from)) ∷ []
  phases_from e Direction.any from =
      (from_deps e.forward_labels from, outgoing (iter_all_from e.forward_labels from))
      ∷ (to_deps e.backward_labels from, incoming (iter_all_to e.backward_labels from))
      ∷ []

  pub edge_phases : MatchEdge → Position → List Phase
  unfolding phases_from
  edge_phases e position =
      if not (is_orbit position.kind) then [] else phases_from e e.direction position.vertex_id

  -- `match_path_item`: `n` items are left, the next one a vertex or an edge.
  pub match_path_item : MatchMode → Last → ℕ → Bool → List MatchVertex → List MatchEdge → Last
  match_path_item mode last zero at_vertex vs es position refs vertices edges =
      last position refs vertices edges
  match_path_item mode last (suc n) true [] es position refs vertices edges = failed
  match_path_item mode last (suc n) true (v ∷ vs) es position refs vertices edges =
      when_matched (match_vertex v position refs) (λ new_refs.
        match_path_item mode last n false vs es (with_kind PositionKind.orbit position) new_refs
          (vertices ++ contents_of mode (position.vertex_id ∷ [])) edges)
  match_path_item mode last (suc n) false vs [] position refs vertices edges = failed
  match_path_item mode last (suc n) false vs (e ∷ es) position refs vertices edges =
      run_phases mode
        (λ m.
          match_path_item mode last n true vs es
            (record { vertex_id = m.to; kind = PositionKind.core }) refs vertices
            (edges ++ contents_of mode m.edges))
        (edge_phases e position)
