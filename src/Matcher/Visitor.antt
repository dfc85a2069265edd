-- ===== src/Matcher/Visitor.antt =====
-- `MatchVisitor` of saengra-server/src/matcher.cpp: what a plan finds from a start. `rounds` bounds
-- the rounds of each repetition.
pub mod Contents
pub mod Returns
pub mod First
pub mod Endless
use saengra.Prelude.{
  ℕ, zero, suc, ◌+◌, Bool, true, false, ◌&&◌, List, [], ◌∷◌, if◌then◌else◌, leb, length,
}
use saengra.Plan.{
  PositionKind, MatchVertex, MatchEdge, MatchPath, Plan, Plans, match_vertex, match_edge,
  match_noop, match_path_to_vertex, match_path, match_concatenation, match_or,
  match_and_without_set_ref, match_and, match_all_and, match_all_without_set_ref, match_all,
  match_if_without_set_ref, match_if, match_unless_without_set_non_local_ref, match_unless,
  match_skip, match_maybe, match_repetition, match_nested_expression,
}
use saengra.Subgraph.{Position, is_core, Subgraph}
use saengra.Matcher.{
  MatchMode, all_matches_mode, no_contents_mode, Query, Start, Found, nothing, found, failed,
  or_enough, contents_of,
}
use saengra.Matcher.Steps as Steps
use saengra.Matcher.Steps.Known.{match_edge_to_vertex}
use saengra.Matcher.Groups.{
  join, merge_join, merge, merge_all, different, subgraphs_of, without_contents,
}
use saengra.Matcher.Operators.{
  empty_at, at_vertex, continued, behind_head, Operands, no_operands, first_operand, if_complete,
  with_subgraphs, first_at, if_none, unless_any, or_empty, at_nested, repeat,
}

pub start_of : MatchPath → Start → Position
start_of p s = if is_core p.start then s.origin else s.position

unfoldable pub num_items : MatchPath → ℕ
num_items p = length p.vertices + length p.edges

pub emit_edge : MatchMode → Start → Steps.EdgeMatch → Found
emit_edge mode s m = found (record {
  start_position = s.position;
  end_positions = record { vertex_id = m.to; kind = PositionKind.core } ∷ [];
  vertices = [];
  edges = contents_of mode m.edges;
  refs = s.refs;
})

pub emit_path : Position → Steps.Last
emit_path start position refs vertices edges = found (record {
  start_position = start;
  end_positions = position ∷ [];
  vertices = vertices;
  edges = edges;
  refs = refs;
})

pub run_path : Query → MatchMode → Start → MatchPath → Steps.Last → Found
unfolding num_items
run_path q mode s p last =
    Steps.match_path_item q s.origin mode last (num_items p) (is_core p.start) p.vertices p.edges
      s.position s.refs [] []

pub visit_path : Query → MatchMode → Start → MatchPath → Found
unfolding run_path num_items emit_path start_of
visit_path q mode s p =
    if leb 2 (num_items p) && leb (num_items p) 5
    then run_path q mode s p (emit_path (start_of p s))
    else failed

pub visit_path_to_vertex : Query → MatchMode → Start → MatchPath → MatchEdge → MatchVertex → Found
unfolding run_path num_items start_of
visit_path_to_vertex q mode s p e v =
    if leb (num_items p) 3
    then run_path q mode s p (
        match_edge_to_vertex q s.origin mode e v
          (if leb 1 (num_items p) then start_of p s else s.position))
    else failed

pub num_plans : Plans → ℕ
num_plans Plans.nothing = zero
num_plans (Plans.first p ps) = suc (num_plans ps)

-- What is left of a set of operands that share the refs of the start.
pub chain_at : Start → Subgraph
chain_at s = empty_at s.origin s

mutual
  unfolding emit_edge visit_path visit_path_to_vertex num_plans chain_at

  pub visit : Query → ℕ → MatchMode → Plan → Start → Found
  visit q rounds mode (match_vertex v) s =
      at_vertex mode s (Steps.match_vertex q s.origin v s.position s.refs)
  visit q rounds mode (match_edge e) s =
      Steps.run_phases mode (emit_edge mode s) (Steps.edge_phases q s.origin e s.position)
  visit q rounds mode match_noop s = found (empty_at s.origin s)
  visit q rounds mode (match_path_to_vertex p e v) s = visit_path_to_vertex q mode s p e v
  visit q rounds mode (match_path p) s = visit_path q mode s p
  visit q rounds mode (match_concatenation ps) s = visit_tail q rounds mode ps s
  visit q rounds mode (match_or ps) s = visit_any q rounds mode ps s
  visit q rounds mode (match_and_without_set_ref ps) s =
      if_complete subgraphs_of (visit_operands q rounds mode 0 ps s)
  visit q rounds mode (match_and ps) s =
      if_complete (join (num_plans ps)) (visit_operands q rounds (all_matches_mode mode) 0 ps s)
  visit q rounds mode (match_all_and ps) s =
      if_complete (merge_join (num_plans ps))
        (visit_operands q rounds (all_matches_mode mode) 0 ps s)
  visit q rounds mode (match_all_without_set_ref p) s =
      with_subgraphs (merge s.refs) (visit q rounds mode p s)
  visit q rounds mode (match_all p) s = with_subgraphs merge_all (visit q rounds mode p s)
  visit q rounds mode (match_if_without_set_ref p) s =
      with_subgraphs (first_at s.position) (visit q rounds MatchMode.first p s)
  visit q rounds mode (match_if p) s =
      with_subgraphs (different s.position []) (visit q rounds (no_contents_mode mode) p s)
  visit q rounds mode (match_unless_without_set_non_local_ref p shared) s =
      with_subgraphs (if_none s) (visit q rounds MatchMode.first p s)
  visit q rounds mode (match_unless p shared) s =
      with_subgraphs (unless_any s shared) (visit q rounds MatchMode.refs_only p s)
  visit q rounds mode (match_skip p) s =
      with_subgraphs without_contents (visit q rounds (no_contents_mode mode) p s)
  visit q rounds mode (match_maybe p) s = with_subgraphs (or_empty s) (visit q rounds mode p s)
  visit q rounds mode (match_nested_expression id refs p) s =
      at_nested mode id refs s q.nested_results (visit q rounds mode p s)
  visit q rounds mode (match_repetition p min max) s =
      repeat mode (continued MatchMode.normal (visit q rounds (all_matches_mode mode) p) s.origin)
        min max rounds 0 (chain_at s ∷ [])

  -- `match_concatenation_tail`.
  pub visit_tail : Query → ℕ → MatchMode → Plans → Start → Found
  visit_tail q rounds mode Plans.nothing s = failed
  visit_tail q rounds mode (Plans.first p Plans.nothing) s = visit q rounds mode p s
  visit_tail q rounds mode (Plans.first p (Plans.first p' ps)) s =
      behind_head mode (visit_tail q rounds mode (Plans.first p' ps)) s.origin
        (visit q rounds (all_matches_mode mode) p s)

  pub visit_any : Query → ℕ → MatchMode → Plans → Start → Found
  visit_any q rounds mode Plans.nothing s = nothing
  visit_any q rounds mode (Plans.first p ps) s =
      or_enough mode (visit q rounds mode p s) (visit_any q rounds mode ps s)

  pub visit_operands : Query → ℕ → MatchMode → ℕ → Plans → Start → Operands
  visit_operands q rounds mode i Plans.nothing s = no_operands
  visit_operands q rounds mode i (Plans.first p ps) s =
      first_operand i (visit q rounds mode p s) (visit_operands q rounds mode (suc i) ps s)
