-- ===== src/Matcher/Visitor/Contents.antt =====
-- Matching without vertices and edges (`MatchMode::RefsOnly` of saengra-server/src/matcher.cpp).
use saengra.Prelude.{
  ℕ, suc, Bool, true, false, ◌&&◌, List, [], ◌∷◌, if◌then◌else◌, leb, ◌≡◌, refl, sym, ap, ap₂, ◌∙◌,
}
use saengra.Refs.{RefName, Refs}
use saengra.Plan.{
  MatchVertex, MatchEdge, MatchPath, Plan, Plans, match_vertex, match_edge, match_noop,
  match_path_to_vertex, match_path, match_concatenation, match_or, match_and_without_set_ref,
  match_and, match_all_and, match_all_without_set_ref, match_all, match_if_without_set_ref,
  match_if, match_unless_without_set_non_local_ref, match_unless, match_skip, match_maybe,
  match_repetition, match_nested_expression,
}
use saengra.Subgraph.{Position, is_core, Subgraph}
use saengra.Matcher.{MatchMode, Query, Start, Found, failed, found}
use saengra.Matcher.Steps as Steps
use saengra.Matcher.Steps.Contents.{run_phases-strip, match_path_item-strip}
use saengra.Matcher.Steps.Known.Contents.{match_edge_to_vertex-strip}
use saengra.Matcher.Groups.{
  without_contents, clear_contents, at_position, merge, merge_all, join, merge_join, subgraphs_of,
  different,
}
use saengra.Matcher.Groups.Contents.{
  merge-clear, merge_all-clear, subgraphs_of-clear, join-clear, merge_join-clear, clear-different,
  clear-at_terms, clear-clear,
}
use saengra.Matcher.Operators.{
  with_subgraphs, first_at, if_none, or_empty, empty_at, unless_any, continued, if_complete,
  behind_head, first_operand,
}
use saengra.Matcher.Operators.Contents.{
  strip, strip-or_enough, nothing-strip, failed-strip, found-strip, continued-strip,
  behind_head-strip, at_vertex-strip, at_nested-strip,
}
use saengra.Matcher.Operators.Rounds.{
  clear_operands, first_operand-strip, no_operands-strip, if_complete-strip, repeat-strip,
}
use saengra.Matcher.Visitor.{
  start_of, num_items, emit_edge, emit_path, run_path, visit_path, visit_path_to_vertex, num_plans,
  chain_at, visit, visit_tail, visit_any, visit_operands,
}

-- An operator that does not look at contents.
with_subgraphs-strip :
    (f : List Subgraph → List Subgraph) (a a' : Found)
    → strip a ≡ a'
    → ((sgs : List Subgraph) → f (without_contents sgs) ≡ without_contents (f sgs))
    → strip (with_subgraphs f a) ≡ with_subgraphs f a'
unfolding strip with_subgraphs without_contents
with_subgraphs-strip f a a' e h =
    ap (λ sgs. with_subgraphs (λ old. sgs) a) (sym (h a.subgraphs)) ∙ ap (with_subgraphs f) e

-- An operator whose result has none.
without-strip :
    (f : List Subgraph → List Subgraph) (a : Found)
    → ((sgs : List Subgraph) → without_contents (f sgs) ≡ f sgs)
    → strip (with_subgraphs f a) ≡ with_subgraphs f a
unfolding strip with_subgraphs without_contents
without-strip f a h = ap (λ sgs. with_subgraphs (λ old. sgs) a) (h a.subgraphs)

first_at-without :
    (position : Position) (sgs : List Subgraph)
    → without_contents (first_at position sgs) ≡ first_at position sgs
unfolding without_contents first_at at_position clear_contents
first_at-without position [] = refl
first_at-without position (sg ∷ sgs) = refl

empty_at-clear : (p : Position) (s : Start) → clear_contents (empty_at p s) ≡ empty_at p s
unfolding clear_contents empty_at
empty_at-clear p s = refl

if_none-without :
    (s : Start) (sgs : List Subgraph) → without_contents (if_none s sgs) ≡ if_none s sgs
unfolding without_contents if_none empty_at clear_contents
if_none-without s [] = refl
if_none-without s (sg ∷ sgs) = refl

or_empty-clear :
    (s : Start) (sgs : List Subgraph)
    → or_empty s (without_contents sgs) ≡ without_contents (or_empty s sgs)
unfolding without_contents or_empty empty_at clear_contents
or_empty-clear s [] = refl
or_empty-clear s (sg ∷ sgs) = refl

unless_any-without :
    (s : Start) (shared : List RefName) (sgs : List Subgraph)
    → without_contents (unless_any s shared sgs) ≡ unless_any s shared sgs
unfolding unless_any
unless_any-without s shared sgs = clear-at_terms s.position _

or_failed-strip :
    (b : Bool) (a a' : Found)
    → strip a ≡ a'
    → strip (if b then a else failed) ≡ (if b then a' else failed)
or_failed-strip true a a' h = h
or_failed-strip false a a' h = failed-strip

module _ (q : Query) where
  visit_path-strip :
      (s : Start) (p : MatchPath)
      → strip (visit_path q MatchMode.normal s p) ≡ visit_path q MatchMode.refs_only s p
  unfolding visit_path run_path emit_path clear_contents
  visit_path-strip s p = or_failed-strip (leb 2 (num_items p) && leb (num_items p) 5) _ _ (
      match_path_item-strip q s.origin (emit_path (start_of p s)) (emit_path (start_of p s))
        (λ position refs vertices edges. path_found position refs vertices edges) (num_items p)
        (is_core p.start) p.vertices p.edges s.position s.refs [] [])
    where
      path_found :
          (position : Position) (refs : Refs) (vertices edges : _)
          → strip (emit_path (start_of p s) position refs vertices edges)
            ≡ emit_path (start_of p s) position refs [] []
      path_found position refs vertices edges = found-strip _

  visit_path_to_vertex-strip :
      (s : Start) (p : MatchPath) (e : MatchEdge) (v : MatchVertex)
      → strip (visit_path_to_vertex q MatchMode.normal s p e v)
        ≡ visit_path_to_vertex q MatchMode.refs_only s p e v
  unfolding visit_path_to_vertex run_path
  visit_path_to_vertex-strip s p e v = or_failed-strip (leb (num_items p) 3) _ _ (
      match_path_item-strip q s.origin _ _
        (match_edge_to_vertex-strip q s.origin
          (if leb 1 (num_items p) then start_of p s else s.position) e v)
        (num_items p) (is_core p.start) p.vertices p.edges s.position s.refs [] [])

  emit_edge-strip :
      (s : Start) (m : Steps.EdgeMatch)
      → strip (emit_edge MatchMode.normal s m) ≡ emit_edge MatchMode.refs_only s m
  unfolding emit_edge clear_contents
  emit_edge-strip s m = found-strip _

mutual
  unfolding visit chain_at empty_at clear_contents without_contents

  plan-strip :
      (q : Query) (rounds : ℕ) (p : Plan) (s : Start)
      → strip (visit q rounds MatchMode.normal p s) ≡ visit q rounds MatchMode.refs_only p s
  plan-strip q rounds (match_vertex v) s = at_vertex-strip s _
  plan-strip q rounds (match_edge e) s =
      run_phases-strip _ _ (emit_edge-strip q s) (Steps.edge_phases q s.origin e s.position)
  plan-strip q rounds match_noop s = found-strip _ ∙ ap found (empty_at-clear s.origin s)
  plan-strip q rounds (match_path_to_vertex p e v) s = visit_path_to_vertex-strip q s p e v
  plan-strip q rounds (match_path p) s = visit_path-strip q s p
  plan-strip q rounds (match_concatenation ps) s = visit_tail-strip q rounds ps s
  plan-strip q rounds (match_or ps) s = visit_any-strip q rounds ps s
  plan-strip q rounds (match_and_without_set_ref ps) s =
      if_complete-strip subgraphs_of _ subgraphs_of-clear
      ∙ ap (if_complete subgraphs_of) (visit_operands-strip q rounds 0 ps s)
  plan-strip q rounds (match_and ps) s =
      if_complete-strip (join (num_plans ps)) _ (join-clear (num_plans ps))
      ∙ ap (if_complete (join (num_plans ps))) (visit_operands-strip q rounds 0 ps s)
  plan-strip q rounds (match_all_and ps) s =
      if_complete-strip (merge_join (num_plans ps)) _ (merge_join-clear (num_plans ps))
      ∙ ap (if_complete (merge_join (num_plans ps))) (visit_operands-strip q rounds 0 ps s)
  plan-strip q rounds (match_all_without_set_ref p) s =
      with_subgraphs-strip (merge s.refs) _ _ (plan-strip q rounds p s) (merge-clear s.refs)
  plan-strip q rounds (match_all p) s =
      with_subgraphs-strip merge_all _ _ (plan-strip q rounds p s) merge_all-clear
  plan-strip q rounds (match_if_without_set_ref p) s =
      without-strip (first_at s.position) _ (first_at-without s.position)
  plan-strip q rounds (match_if p) s =
      without-strip (different s.position []) _ (clear-different s.position [])
  plan-strip q rounds (match_unless_without_set_non_local_ref p shared) s =
      without-strip (if_none s) _ (if_none-without s)
  plan-strip q rounds (match_unless p shared) s =
      without-strip (unless_any s shared) _ (unless_any-without s shared)
  plan-strip q rounds (match_skip p) s = without-strip without_contents _ clear-clear
  plan-strip q rounds (match_maybe p) s =
      with_subgraphs-strip (or_empty s) _ _ (plan-strip q rounds p s) (or_empty-clear s)
  plan-strip q rounds (match_nested_expression id refs p) s =
      at_nested-strip s id refs q.nested_results _ _ (plan-strip q rounds p s)
  plan-strip q rounds (match_repetition p min max) s =
      repeat-strip MatchMode.normal MatchMode.refs_only refl refl
        (continued MatchMode.normal (visit q rounds MatchMode.normal p) s.origin)
        (continued MatchMode.normal (visit q rounds MatchMode.refs_only p) s.origin)
        (continued-strip MatchMode.normal MatchMode.normal refl refl
          (visit q rounds MatchMode.normal p) (visit q rounds MatchMode.refs_only p)
          (λ s'. plan-strip q rounds p s') s.origin)
        min max rounds 0 (chain_at s ∷ [])

  visit_tail-strip :
      (q : Query) (rounds : ℕ) (ps : Plans) (s : Start)
      → strip (visit_tail q rounds MatchMode.normal ps s)
        ≡ visit_tail q rounds MatchMode.refs_only ps s
  visit_tail-strip q rounds Plans.nothing s = failed-strip
  visit_tail-strip q rounds (Plans.first p Plans.nothing) s = plan-strip q rounds p s
  visit_tail-strip q rounds (Plans.first p (Plans.first p' ps)) s =
      behind_head-strip MatchMode.normal MatchMode.refs_only refl refl _ _
        (λ s'. visit_tail-strip q rounds (Plans.first p' ps) s') s.origin _
      ∙ ap
          (behind_head MatchMode.refs_only
            (visit_tail q rounds MatchMode.refs_only (Plans.first p' ps)) s.origin)
          (plan-strip q rounds p s)

  visit_any-strip :
      (q : Query) (rounds : ℕ) (ps : Plans) (s : Start)
      → strip (visit_any q rounds MatchMode.normal ps s)
        ≡ visit_any q rounds MatchMode.refs_only ps s
  visit_any-strip q rounds Plans.nothing s = nothing-strip
  visit_any-strip q rounds (Plans.first p ps) s =
      strip-or_enough MatchMode.normal MatchMode.refs_only refl refl _ _ _ _
        (plan-strip q rounds p s) (visit_any-strip q rounds ps s)

  visit_operands-strip :
      (q : Query) (rounds i : ℕ) (ps : Plans) (s : Start)
      → clear_operands (visit_operands q rounds MatchMode.normal i ps s)
        ≡ visit_operands q rounds MatchMode.refs_only i ps s
  visit_operands-strip q rounds i Plans.nothing s = no_operands-strip
  visit_operands-strip q rounds i (Plans.first p ps) s =
      first_operand-strip i _ _
      ∙ ap₂ (first_operand i) (plan-strip q rounds p s) (visit_operands-strip q rounds (suc i) ps s)

-- In `RefsOnly` mode a plan finds from a start exactly what it finds in `Normal` mode, without
-- vertices and edges: the same subgraphs in the same order, with the same refs and ends, and the
-- same dependencies, and it returns if and only if it does in `Normal` mode.
pub visit-strip :
    (q : Query) (rounds : ℕ) (p : Plan) (s : Start)
    → strip (visit q rounds MatchMode.normal p s) ≡ visit q rounds MatchMode.refs_only p s
visit-strip q rounds p s = plan-strip q rounds p s
