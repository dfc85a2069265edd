-- ===== src/Matcher/Steps/Contents.antt =====
-- Paths (saengra-server/src/matcher.cpp) matched without their vertices and edges.
use saengra.Prelude.{ℕ, zero, suc, Bool, true, false, List, [], ◌∷◌, ◌++◌, ◌≡◌, refl, ap, ◌∙◌}
use saengra.Refs.{Refs}
use saengra.Plan.{PositionKind, MatchVertex, MatchEdge}
use saengra.Edge.{VertexId, Edge}
use saengra.Subgraph.{Position, with_kind}
use saengra.Matcher.{MatchMode, Query, Found, also, depends, collect}
use saengra.Matcher.Operators.Contents.{
  strip, strip-also, strip-or_enough, strip-collect, map_same, nothing-strip, failed-strip,
  depends-strip, when_matched-strip,
}
use saengra.Matcher.Steps.{
  match_vertex, edge_phases, EdgeMatch, Phase, run_phases, Last, match_path_item,
}

pub run_phases-strip :
    (f g : EdgeMatch → Found)
    → ((m : EdgeMatch) → strip (f m) ≡ g m)
    → (phases : List Phase)
    → strip (run_phases MatchMode.normal f phases) ≡ run_phases MatchMode.refs_only g phases
unfolding run_phases strip
run_phases-strip f g h [] = nothing-strip
run_phases-strip f g h ((deps, ms) ∷ phases) =
    strip-or_enough MatchMode.normal MatchMode.refs_only refl refl
      (also (depends deps) (collect MatchMode.normal f ms)) (run_phases MatchMode.normal f phases)
      (also (depends deps) (collect MatchMode.refs_only g ms))
      (run_phases MatchMode.refs_only g phases)
      (strip-also (depends deps) (collect MatchMode.normal f ms)
        ∙ ap (also (strip (depends deps))) (
            strip-collect MatchMode.normal MatchMode.refs_only refl refl (λ m. m) f g h ms
            ∙ ap (collect MatchMode.refs_only g) (map_same ms))
        ∙ ap (λ a. also a (collect MatchMode.refs_only g ms)) (depends-strip deps))
      (run_phases-strip f g h phases)

module _ (q : Query) (origin : Position) (last last' : Last)
    (h : (position : Position) (refs : Refs) (vertices : List VertexId) (edges : List Edge)
      → strip (last position refs vertices edges) ≡ last' position refs [] []) where
  pub match_path_item-strip :
      (n : ℕ) (at_vertex : Bool) (vs : List MatchVertex) (es : List MatchEdge) (position : Position)
      (refs : Refs) (vertices : List VertexId) (edges : List Edge)
      → strip (
          match_path_item q origin MatchMode.normal last n at_vertex vs es position refs vertices
            edges)
        ≡ match_path_item q origin MatchMode.refs_only last' n at_vertex vs es position refs [] []
  unfolding match_path_item
  match_path_item-strip zero at_vertex vs es position refs vertices edges =
      h position refs vertices edges
  match_path_item-strip (suc n) true [] es position refs vertices edges = failed-strip
  match_path_item-strip (suc n) true (v ∷ vs) es position refs vertices edges =
      when_matched-strip (match_vertex q origin v position refs) _ _ (λ new_refs.
        match_path_item-strip n false vs es (with_kind PositionKind.orbit position) new_refs
          (vertices ++ (position.vertex_id ∷ [])) edges)
  match_path_item-strip (suc n) false vs [] position refs vertices edges = failed-strip
  match_path_item-strip (suc n) false vs (e ∷ es) position refs vertices edges =
      run_phases-strip _ _
        (λ m.
          match_path_item-strip n true vs es (record { vertex_id = m.to; kind = PositionKind.core })
            refs vertices (edges ++ m.edges))
        (edge_phases q origin e position)
