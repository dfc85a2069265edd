-- ===== src/Matcher/Visitor/First.antt =====
-- Matching only whether there is a subgraph (`MatchMode::First` of saengra-server/src/matcher.cpp).
use saengra.Prelude.{
  ℕ, suc, Bool, true, false, ◌&&◌, List, [], ◌∷◌, if◌then◌else◌, leb, ◌≡◌, refl, sym, ap, ◌∙◌,
}
use saengra.Plan.{
  MatchVertex, MatchEdge, MatchPath, Plan, Plans, match_vertex, match_edge, match_noop,
  match_path_to_vertex, match_path, match_concatenation, match_or, match_and_without_set_ref,
  match_and, match_all_and, match_all_without_set_ref, match_all, match_if_without_set_ref,
  match_if, match_unless_without_set_non_local_ref, match_unless, match_skip, match_maybe,
  match_repetition, match_nested_expression,
}
use saengra.Subgraph.{is_core, Subgraph}
use saengra.Matcher.{MatchMode, Query, Start, Found, failed, nothing, is_empty}
use saengra.Matcher.Steps as Steps
use saengra.Matcher.Steps.First.{run_phases-Tells, match_path_item-Tells}
use saengra.Matcher.Steps.Known.First.{match_edge_to_vertex-Tells}
use saengra.Matcher.Groups.{merge, merge_all, subgraphs_of, different, without_contents}
use saengra.Matcher.Groups.Emptiness.{
  is_empty-merge, is_empty-merge_all, is_empty-different, is_empty-subgraphs_of,
  is_empty-without_contents,
}
use saengra.Matcher.Operators.{with_subgraphs, or_empty, continued}
use saengra.Matcher.Operators.Contents.{strip}
use saengra.Matcher.Operators.First.{
  Tells, telling, same-Tells, or_enough-Tells, with_subgraphs-Tells, with_some-Tells,
  behind_head-Tells, TellsAll, no_operands-TellsAll, first_operand-TellsAll, if_complete-Tells,
  at_vertex-Tells, at_nested-Tells, repeat-Tells,
}
use saengra.Matcher.Visitor.{
  start_of, num_items, emit_edge, run_path, visit_path, visit_path_to_vertex, chain_at, visit,
  visit_tail, visit_any, visit_operands,
}
use saengra.Matcher.Visitor.Contents.{visit-strip}

or_empty-some : (s : Start) (sgs : List Subgraph) → is_empty (or_empty s sgs) ≡ false
unfolding or_empty
or_empty-some s [] = refl
or_empty-some s (sg ∷ sgs) = refl

or_failed-Tells :
    (b : Bool) (a a' : Found)
    → Tells a a'
    → Tells (if b then a else failed) (if b then a' else failed)
or_failed-Tells true a a' h = h
or_failed-Tells false a a' h = same-Tells failed

module _ (q : Query) (s : Start) where
  visit_path-Tells :
      (p : MatchPath)
      → Tells (visit_path q MatchMode.first s p) (visit_path q MatchMode.refs_only s p)
  unfolding visit_path run_path
  visit_path-Tells p = or_failed-Tells (leb 2 (num_items p) && leb (num_items p) 5) _ _ (
      match_path_item-Tells q s.origin _ _ (λ position refs vs es. same-Tells _) (num_items p)
        (is_core p.start) p.vertices p.edges s.position s.refs [] [])

  visit_path_to_vertex-Tells :
      (p : MatchPath) (e : MatchEdge) (v : MatchVertex)
      → Tells
          (visit_path_to_vertex q MatchMode.first s p e v)
          (visit_path_to_vertex q MatchMode.refs_only s p e v)
  unfolding visit_path_to_vertex run_path
  visit_path_to_vertex-Tells p e v = or_failed-Tells (leb (num_items p) 3) _ _ (
      match_path_item-Tells q s.origin _ _
        (λ position refs vs es.
          match_edge_to_vertex-Tells q s.origin
            (if leb 1 (num_items p) then start_of p s else s.position) vs es e v position refs)
        (num_items p) (is_core p.start) p.vertices p.edges s.position s.refs [] [])

  emit_edge-Tells :
      (m : Steps.EdgeMatch)
      → Tells (emit_edge MatchMode.first s m) (emit_edge MatchMode.refs_only s m)
  unfolding emit_edge
  emit_edge-Tells m = same-Tells (emit_edge MatchMode.first s m)

mutual
  unfolding visit chain_at

  visit-Tells :
      (q : Query) (rounds : ℕ) (p : Plan) (s : Start)
      → Tells (visit q rounds MatchMode.first p s) (visit q rounds MatchMode.refs_only p s)
  visit-Tells q rounds (match_vertex v) s = at_vertex-Tells s _
  visit-Tells q rounds (match_edge e) s =
      run_phases-Tells _ _ (emit_edge-Tells q s) (Steps.edge_phases q s.origin e s.position)
  visit-Tells q rounds match_noop s = same-Tells _
  visit-Tells q rounds (match_path_to_vertex p e v) s = visit_path_to_vertex-Tells q s p e v
  visit-Tells q rounds (match_path p) s = visit_path-Tells q s p
  visit-Tells q rounds (match_concatenation ps) s = visit_tail-Tells q rounds ps s
  visit-Tells q rounds (match_or ps) s = visit_any-Tells q rounds ps s
  visit-Tells q rounds (match_and_without_set_ref ps) s =
      if_complete-Tells subgraphs_of _ _ is_empty-subgraphs_of
        (visit_operands-TellsAll q rounds 0 ps s)
  visit-Tells q rounds (match_and ps) s = same-Tells _
  visit-Tells q rounds (match_all_and ps) s = same-Tells _
  visit-Tells q rounds (match_all_without_set_ref p) s =
      with_subgraphs-Tells (merge s.refs) _ _ (is_empty-merge s.refs) (visit-Tells q rounds p s)
  visit-Tells q rounds (match_all p) s =
      with_subgraphs-Tells merge_all _ _ is_empty-merge_all (visit-Tells q rounds p s)
  visit-Tells q rounds (match_if_without_set_ref p) s = same-Tells _
  visit-Tells q rounds (match_if p) s =
      with_subgraphs-Tells (different s.position []) _ _ (is_empty-different s.position)
        (visit-Tells q rounds p s)
  visit-Tells q rounds (match_unless_without_set_non_local_ref p shared) s = same-Tells _
  visit-Tells q rounds (match_unless p shared) s = same-Tells _
  visit-Tells q rounds (match_skip p) s =
      with_subgraphs-Tells without_contents _ _ is_empty-without_contents (visit-Tells q rounds p s)
  visit-Tells q rounds (match_maybe p) s =
      with_some-Tells (or_empty s) _ _ (or_empty-some s) (visit-Tells q rounds p s)
  visit-Tells q rounds (match_nested_expression id refs p) s =
      at_nested-Tells id refs s q.nested_results _ _ (visit-Tells q rounds p s)
  visit-Tells q rounds (match_repetition p min max) s =
      repeat-Tells (continued MatchMode.normal (visit q rounds MatchMode.refs_only p) s.origin) min
        max rounds 0 (chain_at s ∷ [])

  visit_tail-Tells :
      (q : Query) (rounds : ℕ) (ps : Plans) (s : Start)
      → Tells
          (visit_tail q rounds MatchMode.first ps s)
          (visit_tail q rounds MatchMode.refs_only ps s)
  visit_tail-Tells q rounds Plans.nothing s = same-Tells failed
  visit_tail-Tells q rounds (Plans.first p Plans.nothing) s = visit-Tells q rounds p s
  visit_tail-Tells q rounds (Plans.first p (Plans.first p' ps)) s =
      behind_head-Tells (visit_tail q rounds MatchMode.first (Plans.first p' ps))
        (visit_tail q rounds MatchMode.refs_only (Plans.first p' ps))
        (λ s'. visit_tail-Tells q rounds (Plans.first p' ps) s') s.origin
        (visit q rounds MatchMode.refs_only p s)

  visit_any-Tells :
      (q : Query) (rounds : ℕ) (ps : Plans) (s : Start)
      → Tells
          (visit_any q rounds MatchMode.first ps s)
          (visit_any q rounds MatchMode.refs_only ps s)
  visit_any-Tells q rounds Plans.nothing s = same-Tells nothing
  visit_any-Tells q rounds (Plans.first p ps) s =
      or_enough-Tells (visit q rounds MatchMode.first p s) _
        (visit q rounds MatchMode.refs_only p s) _ (visit-Tells q rounds p s)
        (visit_any-Tells q rounds ps s)

  visit_operands-TellsAll :
      (q : Query) (rounds i : ℕ) (ps : Plans) (s : Start)
      → TellsAll
          (visit_operands q rounds MatchMode.first i ps s)
          (visit_operands q rounds MatchMode.refs_only i ps s)
  visit_operands-TellsAll q rounds i Plans.nothing s = no_operands-TellsAll
  visit_operands-TellsAll q rounds i (Plans.first p ps) s =
      first_operand-TellsAll i (visit q rounds MatchMode.first p s)
        (visit q rounds MatchMode.refs_only p s) _ _ (visit-Tells q rounds p s)
        (visit_operands-TellsAll q rounds (suc i) ps s)

-- If matching a plan from a start in `Normal` mode returns, then so does matching it in `First`
-- mode, and it finds a subgraph if and only if there is one in `Normal` mode.
pub visit-first :
    (q : Query) (rounds : ℕ) (p : Plan) (s : Start)
    → (visit q rounds MatchMode.normal p s).returns ≡ true
    → ((visit q rounds MatchMode.first p s).returns ≡ true)
      × (is_empty (visit q rounds MatchMode.first p s).subgraphs
          ≡ is_empty (visit q rounds MatchMode.normal p s).subgraphs)
unfolding strip with_subgraphs without_contents
visit-first q rounds p s h =
    let e = visit-strip q rounds p s in
    let told = telling _ _ (visit-Tells q rounds p s) (sym (ap (λ a. a.returns) e) ∙ h) in
    (
      told.0,
      told.1
          ∙ sym (ap (λ a. is_empty a.subgraphs) e)
          ∙ is_empty-without_contents (visit q rounds MatchMode.normal p s).subgraphs,
    )
