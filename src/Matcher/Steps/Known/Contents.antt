-- ===== src/Matcher/Steps/Known/Contents.antt =====
-- Edges to a known vertex (saengra-server/src/matcher.cpp) matched without vertices and edges.
use saengra.Prelude.{not, List, [], ◌∷◌, ◌≡◌, refl, ap, ap₂, ◌∙◌}
use saengra.Refs.{Refs}
use saengra.Plan.{PositionKind, MatchVertex, MatchEdge}
use saengra.Edge.{VertexId, Edge}
use saengra.Subgraph.{Position, is_orbit}
use saengra.Matcher.{MatchMode, Query, Found, also, collect}
use saengra.Matcher.Groups.{clear_contents}
use saengra.Matcher.Operators.Contents.{
  strip, strip-also, strip-collect, map_same, nothing-strip, failed-strip, depends-strip,
  found-strip, when_matched-strip, or_nothing-strip,
}
use saengra.Matcher.Steps.{match_vertex, edge_phases, EdgeMatch}
use saengra.Matcher.Steps.Contents.{run_phases-strip}
use saengra.Matcher.Steps.Known.{
  Target, target_of, matched_edges, emit, at_end, emit_all, to_target, match_edge_to_vertex,
}

module _ (q : Query) (origin start : Position) where
  emit-strip :
      (vertices : List VertexId) (edges : List Edge) (refs : Refs) (m : EdgeMatch)
      → strip (emit q origin MatchMode.normal start vertices edges refs m)
        ≡ emit q origin MatchMode.refs_only start [] [] refs m
  unfolding emit strip clear_contents
  emit-strip vertices edges refs m = found-strip _

  at_end-strip :
      (v : MatchVertex) (refs : Refs) (to : VertexId) (f g : Refs → Found)
      → ((new_refs : Refs) → strip (f new_refs) ≡ g new_refs)
      → strip (at_end q origin v refs to f) ≡ at_end q origin v refs to g
  unfolding at_end
  at_end-strip v refs to f g h =
      when_matched-strip
        (match_vertex q origin v (record { vertex_id = to; kind = PositionKind.core }) refs) f g h

  emit_all-strip :
      (vertices : List VertexId) (edges : List Edge) (v : MatchVertex) (refs : Refs) (to : VertexId)
      (ms : List EdgeMatch)
      → strip (emit_all q origin MatchMode.normal start vertices edges v refs to ms)
        ≡ emit_all q origin MatchMode.refs_only start [] [] v refs to ms
  unfolding emit_all
  emit_all-strip vertices edges v refs to [] = nothing-strip
  emit_all-strip vertices edges v refs to (m ∷ ms) = at_end-strip v refs to _ _ (λ new_refs.
      strip-collect MatchMode.normal MatchMode.refs_only refl refl (λ x. x)
        (emit q origin MatchMode.normal start vertices edges new_refs)
        (emit q origin MatchMode.refs_only start [] [] new_refs)
        (emit-strip vertices edges new_refs) (m ∷ ms)
      ∙ ap (collect MatchMode.refs_only (emit q origin MatchMode.refs_only start [] [] new_refs))
          (map_same (m ∷ ms)))

  to_target-strip :
      (e : MatchEdge) (v : MatchVertex) (target : Target) (position : Position) (refs : Refs)
      (vertices : List VertexId) (edges : List Edge)
      → strip (to_target q origin MatchMode.normal e v start target position refs vertices edges)
        ≡ to_target q origin MatchMode.refs_only e v start target position refs [] []
  unfolding to_target
  to_target-strip e v (Target.missing value) position refs vertices edges = depends-strip _
  to_target-strip e v Target.broken position refs vertices edges = failed-strip
  to_target-strip e v Target.not_set position refs vertices edges =
      run_phases-strip _ _
        (λ m. at_end-strip v refs m.to _ _ (λ new_refs. emit-strip vertices edges new_refs m))
        (edge_phases q origin e position)
  to_target-strip e v (Target.known to) position refs vertices edges =
      strip-also _ _
      ∙ ap₂ also (depends-strip _) (
          emit_all-strip vertices edges v refs to
            (matched_edges q origin e e.direction position.vertex_id to))

  pub match_edge_to_vertex-strip :
      (e : MatchEdge) (v : MatchVertex) (position : Position) (refs : Refs)
      (vertices : List VertexId) (edges : List Edge)
      → strip
          (match_edge_to_vertex q origin MatchMode.normal e v start position refs vertices edges)
        ≡ match_edge_to_vertex q origin MatchMode.refs_only e v start position refs [] []
  unfolding match_edge_to_vertex
  match_edge_to_vertex-strip e v position refs vertices edges =
      or_nothing-strip (not (is_orbit position.kind)) _ _
        (to_target-strip e v (target_of q v refs) position refs vertices edges)
