-- ===== src/Matcher/Steps/First.antt =====
-- Paths (saengra-server/src/matcher.cpp) of which only the first match is found.
use saengra.Prelude.{ℕ, zero, suc, Bool, true, false, List, [], ◌∷◌, ◌++◌}
use saengra.Refs.{Refs}
use saengra.Plan.{PositionKind, MatchVertex, MatchEdge}
use saengra.Edge.{VertexId, Edge}
use saengra.Subgraph.{Position, with_kind}
use saengra.Matcher.{MatchMode, Query, Found, nothing, failed, also, depends, collect}
use saengra.Matcher.Operators.First.{
  Tells, same-Tells, also-Tells, or_enough-Tells, collect-Tells, when_matched-Tells,
}
use saengra.Matcher.Steps.{
  match_vertex, edge_phases, EdgeMatch, Phase, run_phases, Last, match_path_item,
}

pub run_phases-Tells :
    (f g : EdgeMatch → Found)
    → ((m : EdgeMatch) → Tells (f m) (g m))
    → (phases : List Phase)
    → Tells (run_phases MatchMode.first f phases) (run_phases MatchMode.refs_only g phases)
unfolding run_phases
run_phases-Tells f g h [] = same-Tells nothing
run_phases-Tells f g h ((deps, ms) ∷ phases) =
    or_enough-Tells (also (depends deps) (collect MatchMode.first f ms))
      (run_phases MatchMode.first f phases) (also (depends deps) (collect MatchMode.refs_only g ms))
      (run_phases MatchMode.refs_only g phases)
      (also-Tells (depends deps) (collect MatchMode.first f ms) (depends deps)
        (collect MatchMode.refs_only g ms) (same-Tells (depends deps)) (collect-Tells f g h ms))
      (run_phases-Tells f g h phases)

module _ (q : Query) (origin : Position) (last last' : Last)
    (h : (position : Position) (refs : Refs) (vertices : List VertexId) (edges : List Edge)
      → Tells (last position refs vertices edges) (last' position refs vertices edges)) where
  pub match_path_item-Tells :
      (n : ℕ) (at_vertex : Bool) (vs : List MatchVertex) (es : List MatchEdge) (position : Position)
      (refs : Refs) (vertices : List VertexId) (edges : List Edge)
      → Tells
          (match_path_item q origin MatchMode.first last n at_vertex vs es position refs vertices
            edges)
          (match_path_item q origin MatchMode.refs_only last' n at_vertex vs es position refs
            vertices edges)
  unfolding match_path_item
  match_path_item-Tells zero at_vertex vs es position refs vertices edges =
      h position refs vertices edges
  match_path_item-Tells (suc n) true [] es position refs vertices edges = same-Tells failed
  match_path_item-Tells (suc n) true (v ∷ vs) es position refs vertices edges =
      when_matched-Tells (match_vertex q origin v position refs) _ _ (λ new_refs.
        match_path_item-Tells n false vs es (with_kind PositionKind.orbit position) new_refs
          (vertices ++ []) edges)
  match_path_item-Tells (suc n) false vs [] position refs vertices edges = same-Tells failed
  match_path_item-Tells (suc n) false vs (e ∷ es) position refs vertices edges =
      run_phases-Tells _ _
        (λ m.
          match_path_item-Tells n true vs es (record { vertex_id = m.to; kind = PositionKind.core })
            refs vertices (edges ++ []))
        (edge_phases q origin e position)
