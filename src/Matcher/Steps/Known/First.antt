-- ===== src/Matcher/Steps/Known/First.antt =====
-- Edges to a known vertex (saengra-server/src/matcher.cpp) of which only the first match is found.
use saengra.Prelude.{Bool, true, false, not, List, [], ◌∷◌, if◌then◌else◌}
use saengra.Refs.{Refs}
use saengra.Plan.{MatchVertex, MatchEdge}
use saengra.Edge.{VertexId, Edge}
use saengra.Subgraph.{Position, is_orbit}
use saengra.Matcher.{MatchMode, Query, Found, nothing, failed, depends}
use saengra.Matcher.Operators.First.{
  Tells, same-Tells, also-Tells, collect-Tells, when_matched-Tells,
}
use saengra.Matcher.Steps.{edge_phases, EdgeMatch}
use saengra.Matcher.Steps.First.{run_phases-Tells}
use saengra.Matcher.Steps.Known.{
  Target, target_of, particular_edge_deps, matched_edges, emit, at_end, emit_all, to_target,
  match_edge_to_vertex,
}

or_nothing-Tells :
    (b : Bool) (a a' : Found)
    → Tells a a'
    → Tells (if b then nothing else a) (if b then nothing else a')
or_nothing-Tells true a a' h = same-Tells nothing
or_nothing-Tells false a a' h = h

module _ (q : Query) (origin start : Position) (vertices : List VertexId) (edges : List Edge) where
  emit-Tells :
      (refs : Refs) (m : EdgeMatch)
      → Tells
          (emit q origin MatchMode.first start vertices edges refs m)
          (emit q origin MatchMode.refs_only start vertices edges refs m)
  unfolding emit
  emit-Tells refs m = same-Tells (emit q origin MatchMode.first start vertices edges refs m)

  emit_all-Tells :
      (v : MatchVertex) (refs : Refs) (to : VertexId) (ms : List EdgeMatch)
      → Tells
          (emit_all q origin MatchMode.first start vertices edges v refs to ms)
          (emit_all q origin MatchMode.refs_only start vertices edges v refs to ms)
  unfolding emit_all at_end
  emit_all-Tells v refs to [] = same-Tells nothing
  emit_all-Tells v refs to (m ∷ ms) =
      when_matched-Tells _ _ _ (λ new_refs. collect-Tells _ _ (emit-Tells new_refs) (m ∷ ms))

  to_target-Tells :
      (e : MatchEdge) (v : MatchVertex) (target : Target) (position : Position) (refs : Refs)
      → Tells
          (to_target q origin MatchMode.first e v start target position refs vertices edges)
          (to_target q origin MatchMode.refs_only e v start target position refs vertices edges)
  unfolding to_target at_end
  to_target-Tells e v (Target.missing value) position refs = same-Tells (depends _)
  to_target-Tells e v Target.broken position refs = same-Tells failed
  to_target-Tells e v Target.not_set position refs =
      run_phases-Tells _ _ (λ m. when_matched-Tells _ _ _ (λ new_refs. emit-Tells new_refs m))
        (edge_phases q origin e position)
  to_target-Tells e v (Target.known to) position refs =
      let deps = depends (particular_edge_deps q origin e e.direction position.vertex_id to) in
      also-Tells deps _ deps _ (same-Tells deps)
        (emit_all-Tells v refs to (matched_edges q origin e e.direction position.vertex_id to))

  pub match_edge_to_vertex-Tells :
      (e : MatchEdge) (v : MatchVertex) (position : Position) (refs : Refs)
      → Tells
          (match_edge_to_vertex q origin MatchMode.first e v start position refs vertices edges)
          (match_edge_to_vertex q origin MatchMode.refs_only e v start position refs vertices edges)
  unfolding match_edge_to_vertex
  match_edge_to_vertex-Tells e v position refs =
      or_nothing-Tells (not (is_orbit position.kind)) _ _
        (to_target-Tells e v (target_of q v refs) position refs)
