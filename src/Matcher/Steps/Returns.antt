-- ===== src/Matcher/Steps/Returns.antt =====
-- When matching a path (saengra-server/src/matcher.cpp) returns.
use saengra.Prelude.{ℕ, zero, suc, Bool, true, false, List, [], ◌∷◌, ◌≡◌, arith}
use saengra.Refs.{Refs}
use saengra.Plan.{MatchVertex, MatchEdge}
use saengra.Edge.{VertexId, Edge}
use saengra.Subgraph.{Position}
use saengra.Matcher.{MatchMode, Query, Found, also, depends, collect}
use saengra.Matcher.Operators.Returns.{
  Returns, nothing-Returns, depends-Returns, also-Returns, or_enough-Returns, collect-Returns,
  when_matched-Returns,
}
use saengra.Matcher.Steps.{
  match_vertex, edge_phases, EdgeMatch, Phase, run_phases, Last, match_path_item,
}

pub run_phases-Returns :
    (mode : MatchMode) (f : EdgeMatch → Found)
    → ((m : EdgeMatch) → Returns (f m))
    → (phases : List Phase) → Returns (run_phases mode f phases)
unfolding run_phases
run_phases-Returns mode f h [] = nothing-Returns
run_phases-Returns mode f h ((deps, ms) ∷ phases) =
    or_enough-Returns mode (also (depends deps) (collect mode f ms)) (run_phases mode f phases)
      (also-Returns (depends deps) (collect mode f ms) (depends-Returns deps)
        (collect-Returns mode f h ms))
      (run_phases-Returns mode f h phases)

-- Whether there is a vertex or an edge for each of the items.
unfoldable pub has_items : ℕ → Bool → List MatchVertex → List MatchEdge → Bool
has_items zero at_vertex vs es = true
has_items (suc n) true [] es = false
has_items (suc n) true (v ∷ vs) es = has_items n false vs es
has_items (suc n) false vs [] = false
has_items (suc n) false vs (e ∷ es) = has_items n true vs es

module _ (q : Query) (origin : Position) (mode : MatchMode) (last : Last)
    (h : (position : Position) (refs : Refs) (vertices : List VertexId) (edges : List Edge)
      → Returns (last position refs vertices edges)) where
  pub match_path_item-Returns :
      (n : ℕ) (at_vertex : Bool) (vs : List MatchVertex) (es : List MatchEdge) (position : Position)
      (refs : Refs) (vertices : List VertexId) (edges : List Edge)
      → has_items n at_vertex vs es ≡ true
      → Returns (match_path_item q origin mode last n at_vertex vs es position refs vertices edges)
  unfolding match_path_item has_items
  match_path_item-Returns zero at_vertex vs es position refs vertices edges enough =
      h position refs vertices edges
  match_path_item-Returns (suc n) true [] es position refs vertices edges enough = ground arith
  match_path_item-Returns (suc n) true (v ∷ vs) es position refs vertices edges enough =
      when_matched-Returns (match_vertex q origin v position refs) _
        (λ new_refs. match_path_item-Returns n false vs es _ new_refs _ edges enough)
  match_path_item-Returns (suc n) false vs [] position refs vertices edges enough = ground arith
  match_path_item-Returns (suc n) false vs (e ∷ es) position refs vertices edges enough =
      run_phases-Returns mode _ (λ m. match_path_item-Returns n true vs es _ refs vertices _ enough)
        (edge_phases q origin e position)
