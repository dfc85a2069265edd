-- ===== src/Matcher/Visitor/Returns.antt =====
-- When matching a plan (saengra-server/src/matcher.cpp) returns.
use saengra.Prelude.{
  ℕ, suc, Bool, true, false, ◌&&◌, Option, none, some, List, [], ◌∷◌, if◌then◌else◌, leb, ltb, ◌≡◌,
  refl, arith,
}
use saengra.Refs.{Refs}
use saengra.Plan.{
  MatchVertex, MatchEdge, MatchPath, Plan, Plans, match_vertex, match_edge, match_noop,
  match_path_to_vertex, match_path, match_concatenation, match_or, match_and_without_set_ref,
  match_and, match_all_and, match_all_without_set_ref, match_all, match_if_without_set_ref,
  match_if, match_unless_without_set_non_local_ref, match_unless, match_skip, match_maybe,
  match_repetition, match_nested_expression,
}
use saengra.Subgraph.{Position, is_core, Subgraph}
use saengra.Matcher.{MatchMode, all_matches_mode, no_contents_mode, Query, Start, Found, failed}
use saengra.Matcher.Steps as Steps
use saengra.Matcher.Steps.Returns.{run_phases-Returns, match_path_item-Returns, has_items}
use saengra.Matcher.Steps.Known.Returns.{match_edge_to_vertex-Returns, has_target}
use saengra.Matcher.Operators.{continued, repeat}
use saengra.Matcher.Operators.Returns.{
  Returns, nothing-Returns, found-Returns, or_enough-Returns, with_subgraphs-Returns,
  at_vertex-Returns, continued-Returns, behind_head-Returns, AllReturn, no_operands-AllReturn,
  first_operand-AllReturn, if_complete-Returns, at_nested-Returns, repeat-Returns,
}
use saengra.Matcher.Visitor.{
  start_of, num_items, emit_edge, emit_path, run_path, visit_path, visit_path_to_vertex, chain_at,
  visit, visit_tail, visit_any, visit_operands,
}

-- A path of a length between the two, with a vertex or an edge for each item.
path_is_supported : ℕ → ℕ → MatchPath → Bool
unfolding num_items has_items
path_is_supported shortest longest p =
    leb shortest (num_items p)
    && (leb (num_items p) longest && has_items (num_items p) (is_core p.start) p.vertices p.edges)

is_bounded : ℕ → Option ℕ → Bool
is_bounded rounds none = false
is_bounded rounds (some max) = ltb max rounds

has_operand : Plans → Bool
has_operand Plans.nothing = false
has_operand (Plans.first p ps) = true

-- The lengths of the paths are supported, concatenations have operands, placeholders have values,
-- and no repetition has more repeats than there are rounds.
unfoldable mutual
  unfolding path_is_supported is_bounded has_operand

  pub is_supported : Query → ℕ → Plan → Bool
  is_supported q rounds (match_vertex v) = true
  is_supported q rounds (match_edge e) = true
  is_supported q rounds match_noop = true
  is_supported q rounds (match_path_to_vertex p e v) = path_is_supported 0 3 p && has_target q v
  is_supported q rounds (match_path p) = path_is_supported 2 5 p
  is_supported q rounds (match_concatenation ps) = has_operand ps && all_are_supported q rounds ps
  is_supported q rounds (match_or ps) = all_are_supported q rounds ps
  is_supported q rounds (match_and_without_set_ref ps) = all_are_supported q rounds ps
  is_supported q rounds (match_and ps) = all_are_supported q rounds ps
  is_supported q rounds (match_all_and ps) = all_are_supported q rounds ps
  is_supported q rounds (match_all_without_set_ref p) = is_supported q rounds p
  is_supported q rounds (match_all p) = is_supported q rounds p
  is_supported q rounds (match_if_without_set_ref p) = is_supported q rounds p
  is_supported q rounds (match_if p) = is_supported q rounds p
  is_supported q rounds (match_unless_without_set_non_local_ref p shared) = is_supported q rounds p
  is_supported q rounds (match_unless p shared) = is_supported q rounds p
  is_supported q rounds (match_skip p) = is_supported q rounds p
  is_supported q rounds (match_maybe p) = is_supported q rounds p
  is_supported q rounds (match_nested_expression id refs p) = is_supported q rounds p
  is_supported q rounds (match_repetition p min max) =
      is_bounded rounds max && is_supported q rounds p

  pub all_are_supported : Query → ℕ → Plans → Bool
  all_are_supported q rounds Plans.nothing = true
  all_are_supported q rounds (Plans.first p ps) =
      is_supported q rounds p && all_are_supported q rounds ps

both : (a b : Bool) → (a && b) ≡ true → (a ≡ true) × (b ≡ true)
both a b h = ground arith

all_three : (a b c : Bool) → (a && (b && c)) ≡ true → ((a && b) ≡ true) × ((b ≡ true) × (c ≡ true))
all_three a b c h = ground arith

or_failed-Returns :
    (b : Bool) (a : Found) → b ≡ true → Returns a → Returns (if b then a else failed)
or_failed-Returns true a e h = h
or_failed-Returns false a e h = ground arith

module _ (q : Query) (mode : MatchMode) (s : Start) where
  run_path-Returns :
      (p : MatchPath) (last : Steps.Last)
      → ((position : Position) (refs : Refs) (vertices edges : _)
          → Returns (last position refs vertices edges))
      → has_items (num_items p) (is_core p.start) p.vertices p.edges ≡ true
      → Returns (run_path q mode s p last)
  unfolding run_path
  run_path-Returns p last h enough =
      match_path_item-Returns q s.origin mode last h (num_items p) (is_core p.start) p.vertices
        p.edges s.position s.refs [] [] enough

  visit_path-Returns :
      (p : MatchPath) → path_is_supported 2 5 p ≡ true → Returns (visit_path q mode s p)
  unfolding path_is_supported visit_path emit_path
  visit_path-Returns p h =
      let three = all_three (leb 2 (num_items p)) _ _ h in
      or_failed-Returns _ _ three.0 (
        run_path-Returns p (emit_path (start_of p s)) (λ position refs vs es. found-Returns _)
          three.1.1)

  visit_path_to_vertex-Returns :
      (p : MatchPath) (e : MatchEdge) (v : MatchVertex)
      → (path_is_supported 0 3 p && has_target q v) ≡ true
      → Returns (visit_path_to_vertex q mode s p e v)
  unfolding path_is_supported visit_path_to_vertex
  visit_path_to_vertex-Returns p e v h =
      let three = all_three _ _ _ ((both _ _ h).0) in
      or_failed-Returns _ _ three.1.0 (
        run_path-Returns p _
          (λ position refs vs es.
            match_edge_to_vertex-Returns q s.origin
              (if leb 1 (num_items p) then start_of p s else s.position) mode e v position refs vs
              es ((both _ _ h).1))
          three.1.1)

  emit_edge-Returns : (m : Steps.EdgeMatch) → Returns (emit_edge mode s m)
  unfolding emit_edge
  emit_edge-Returns m = found-Returns _

repetition-Returns :
    (mode : MatchMode) (step : Subgraph → Found)
    → ((sg : Subgraph) → Returns (step sg))
    → (min rounds : ℕ) (max : Option ℕ) (chains : List Subgraph) → is_bounded rounds max ≡ true
    → Returns (repeat mode step min max rounds 0 chains)
unfolding is_bounded
repetition-Returns mode step h min rounds none chains bound = ground arith
repetition-Returns mode step h min rounds (some max) chains bound =
    repeat-Returns mode step h min max rounds 0 chains (ground arith) (omega arith)

mutual
  unfolding visit chain_at is_supported

  plan-Returns :
      (q : Query) (rounds : ℕ) (mode : MatchMode) (p : Plan) (s : Start)
      → is_supported q rounds p ≡ true
      → Returns (visit q rounds mode p s)
  plan-Returns q rounds mode (match_vertex v) s h = at_vertex-Returns mode s _
  plan-Returns q rounds mode (match_edge e) s h =
      run_phases-Returns mode (emit_edge mode s) (emit_edge-Returns q mode s) _
  plan-Returns q rounds mode match_noop s h = found-Returns _
  plan-Returns q rounds mode (match_path_to_vertex p e v) s h =
      visit_path_to_vertex-Returns q mode s p e v h
  plan-Returns q rounds mode (match_path p) s h = visit_path-Returns q mode s p h
  plan-Returns q rounds mode (match_concatenation ps) s h =
      let hs = both (has_operand ps) _ h in visit_tail-Returns q rounds mode ps s hs.0 hs.1
  plan-Returns q rounds mode (match_or ps) s h = visit_any-Returns q rounds mode ps s h
  plan-Returns q rounds mode (match_and_without_set_ref ps) s h =
      if_complete-Returns _ _ (visit_operands-AllReturn q rounds mode 0 ps s h)
  plan-Returns q rounds mode (match_and ps) s h =
      if_complete-Returns _ _ (visit_operands-AllReturn q rounds (all_matches_mode mode) 0 ps s h)
  plan-Returns q rounds mode (match_all_and ps) s h =
      if_complete-Returns _ _ (visit_operands-AllReturn q rounds (all_matches_mode mode) 0 ps s h)
  plan-Returns q rounds mode (match_all_without_set_ref p) s h =
      with_subgraphs-Returns _ _ (plan-Returns q rounds mode p s h)
  plan-Returns q rounds mode (match_all p) s h =
      with_subgraphs-Returns _ _ (plan-Returns q rounds mode p s h)
  plan-Returns q rounds mode (match_if_without_set_ref p) s h =
      with_subgraphs-Returns _ _ (plan-Returns q rounds MatchMode.first p s h)
  plan-Returns q rounds mode (match_if p) s h =
      with_subgraphs-Returns _ _ (plan-Returns q rounds (no_contents_mode mode) p s h)
  plan-Returns q rounds mode (match_unless_without_set_non_local_ref p shared) s h =
      with_subgraphs-Returns _ _ (plan-Returns q rounds MatchMode.first p s h)
  plan-Returns q rounds mode (match_unless p shared) s h =
      with_subgraphs-Returns _ _ (plan-Returns q rounds MatchMode.refs_only p s h)
  plan-Returns q rounds mode (match_skip p) s h =
      with_subgraphs-Returns _ _ (plan-Returns q rounds (no_contents_mode mode) p s h)
  plan-Returns q rounds mode (match_maybe p) s h =
      with_subgraphs-Returns _ _ (plan-Returns q rounds mode p s h)
  plan-Returns q rounds mode (match_nested_expression id refs p) s h =
      at_nested-Returns mode id refs s q.nested_results _ (plan-Returns q rounds mode p s h)
  plan-Returns q rounds mode (match_repetition p min max) s h =
      let hs = both (is_bounded rounds max) _ h in
      repetition-Returns mode
        (continued MatchMode.normal (visit q rounds (all_matches_mode mode) p) s.origin)
        (continued-Returns (visit q rounds (all_matches_mode mode) p)
          (λ s'. plan-Returns q rounds (all_matches_mode mode) p s' hs.1) s.origin MatchMode.normal)
        min rounds max (chain_at s ∷ []) hs.0

  visit_tail-Returns :
      (q : Query) (rounds : ℕ) (mode : MatchMode) (ps : Plans) (s : Start)
      → has_operand ps ≡ true
      → all_are_supported q rounds ps ≡ true
      → Returns (visit_tail q rounds mode ps s)
  visit_tail-Returns q rounds mode Plans.nothing s some_operand h = ground arith
  visit_tail-Returns q rounds mode (Plans.first p Plans.nothing) s some_operand h =
      plan-Returns q rounds mode p s ((both _ _ h).0)
  visit_tail-Returns q rounds mode (Plans.first p (Plans.first p' ps)) s some_operand h =
      let hs = both (is_supported q rounds p) _ h in
      behind_head-Returns (visit_tail q rounds mode (Plans.first p' ps))
        (λ s'. visit_tail-Returns q rounds mode (Plans.first p' ps) s' refl hs.1) s.origin mode _
        (plan-Returns q rounds (all_matches_mode mode) p s hs.0)

  visit_any-Returns :
      (q : Query) (rounds : ℕ) (mode : MatchMode) (ps : Plans) (s : Start)
      → all_are_supported q rounds ps ≡ true
      → Returns (visit_any q rounds mode ps s)
  visit_any-Returns q rounds mode Plans.nothing s h = nothing-Returns
  visit_any-Returns q rounds mode (Plans.first p ps) s h =
      let hs = both (is_supported q rounds p) _ h in
      or_enough-Returns mode _ _ (plan-Returns q rounds mode p s hs.0)
        (visit_any-Returns q rounds mode ps s hs.1)

  visit_operands-AllReturn :
      (q : Query) (rounds : ℕ) (mode : MatchMode) (i : ℕ) (ps : Plans) (s : Start)
      → all_are_supported q rounds ps ≡ true
      → AllReturn (visit_operands q rounds mode i ps s)
  visit_operands-AllReturn q rounds mode i Plans.nothing s h = no_operands-AllReturn
  visit_operands-AllReturn q rounds mode i (Plans.first p ps) s h =
      let hs = both (is_supported q rounds p) _ h in
      first_operand-AllReturn i _ _ (plan-Returns q rounds mode p s hs.0)
        (visit_operands-AllReturn q rounds mode (suc i) ps s hs.1)

-- A plan that is supported returns in each mode and from each start, neither throwing nor going on
-- beyond the rounds. It is supported if its paths have the lengths that the matcher knows and a
-- vertex or an edge for each of their items, its concatenations have operands, the vertices at the
-- ends of paths have references or placeholders with values, and its repetitions have at most fewer
-- repeats than there are rounds.
pub visit-Returns :
    (q : Query) (rounds : ℕ) (mode : MatchMode) (p : Plan) (s : Start)
    → is_supported q rounds p ≡ true
    → Returns (visit q rounds mode p s)
visit-Returns q rounds mode p s h = plan-Returns q rounds mode p s h
