-- ===== src/Planner/Visitor.antt =====
-- `PlanVisitor` of saengra-server/src/planner.cpp: from an expression to a plan. The references that
-- the visitor holds are the fields of `Scope`. A `std::set` of refs is a sorted list.
pub mod Bound
use saengra.Prelude.{
  ℕ, suc, Bool, true, false, not, ◌&&◌, ◌||◌, Option, none, some, List, [], ◌∷◌, ◌++◌, contains,
  if◌then◌else◌, ltb,
}
use saengra.Text.{text_eq, text_lt}
use saengra.Refs.{RefName}
use saengra.Expression.{
  OperationType, VertexExpr, EdgeExpr, Expression, Expressions, vertex_expr, edge_expr, noop_expr,
  concatenation_expr, or_expr, and_expr, operation_expr, repetition_expr, no_more, operand,
}
use saengra.Plan.{
  MatchVertex, MatchEdge, Plan, Plans, nothing, first, push_back, match_vertex, match_edge,
  match_noop, match_path_to_vertex, match_concatenation, match_or, match_and_without_set_ref,
  match_and, match_all_and, match_all_without_set_ref, match_all, match_if_without_set_ref,
  match_if, match_unless_without_set_non_local_ref, match_unless, match_skip, match_maybe,
  match_repetition, match_nested_expression,
}
use saengra.Planner.{Item, vertex, edge, add_paths}

abbrev pub RefNames : Type 0
RefNames = List RefName

pub insert_name : RefName → RefNames → RefNames
insert_name name [] = name ∷ []
insert_name name (x ∷ xs) =
    if text_lt name x
    then name ∷ x ∷ xs
    else (if text_lt x name then x ∷ insert_name name xs else x ∷ xs)

pub insert_names : RefNames → RefNames → RefNames
insert_names [] names = names
insert_names (x ∷ xs) names = insert_names xs (insert_name x names)

pub intersected : RefNames → RefNames → RefNames
intersected [] b = []
intersected (x ∷ a) b = if contains b x then x ∷ intersected a b else intersected a b

abbrev pub no_names : RefNames → Bool
no_names [] = true
no_names (x ∷ xs) = false

-- The refs bound and changed so far, and the context of the whole plan.
pub record Scope : Type 0 where
  pub bound : RefNames
  pub changed : RefNames
  pub next_nested_id : ℕ
  pub set_by_operations : RefNames

abbrev insert_ref : Option RefName → RefNames → RefNames
insert_ref none refs = refs
insert_ref (some ref) refs = insert_name ref refs

mutual
  pub collect_refs : Expression → RefNames → RefNames
  collect_refs (vertex_expr v) refs = insert_ref v.ref refs
  collect_refs (edge_expr e) refs = refs
  collect_refs noop_expr refs = refs
  collect_refs (concatenation_expr es) refs = collect_all_refs es refs
  collect_refs (or_expr es) refs = collect_all_refs es refs
  collect_refs (and_expr es) refs = collect_all_refs es refs
  collect_refs (operation_expr t shared e) refs = collect_refs e refs
  collect_refs (repetition_expr least most e) refs = collect_refs e refs

  pub collect_all_refs : Expressions → RefNames → RefNames
  collect_all_refs no_more refs = refs
  collect_all_refs (operand e es) refs = collect_all_refs es (collect_refs e refs)

-- A ref that is bound already is matched, any other one is set.
pub plan_vertex : VertexExpr → Scope → MatchVertex × Scope
plan_vertex v s = elim v.ref [
  | none ↦ (
    record {
      type_name = v.type_name;
      set_ref = none;
      match_ref = none;
      placeholder_idx = v.placeholder_idx;
    },
    s,
  )
  | some ref ↦
      if contains s.bound ref
      then (
        record {
          type_name = v.type_name;
          set_ref = none;
          match_ref = some ref;
          placeholder_idx = v.placeholder_idx;
        },
        s,
      )
      else (
        record {
          type_name = v.type_name;
          set_ref = some ref;
          match_ref = none;
          placeholder_idx = v.placeholder_idx;
        },
        record s { bound = insert_name ref s.bound; changed = insert_name ref s.changed },
      )
]

pub plan_edge : EdgeExpr → MatchEdge
plan_edge e = record {
  direction = e.direction;
  forward_labels = e.forward_labels;
  backward_labels = e.backward_labels;
}

abbrev no_items : {A : Type 0} → List A → Bool
no_items [] = true
no_items (x ∷ xs) = false

pub is_single_step : Plan → Bool
is_single_step (match_vertex v) = true
is_single_step (match_edge e) = true
is_single_step match_noop = true
is_single_step (match_path_to_vertex path e v) = no_items path.vertices && no_items path.edges
is_single_step _ = false

-- Whether an operand becomes a nested expression.
pub is_nested : Bool → Expression → Plan → Scope → Bool
unfolding is_single_step
is_nested nest_operands e plan s =
    if not nest_operands || is_single_step plan
    then false
    else no_names (intersected (collect_refs e []) s.set_by_operations)

pub nested : Bool → Expression → Plan × Scope → Plan × Scope
nested nest_operands e (plan, s) =
    if is_nested nest_operands e plan s
    then (
      match_nested_expression s.next_nested_id (collect_refs e []) plan,
      record s { next_nested_id = suc s.next_nested_id },
    )
    else (plan, s)

-- What `changed` of an operation adds to what the visitor was given.
abbrev pub close : RefNames → RefNames → Scope → Scope
close outer changed s = record s {
  changed = insert_names changed outer;
  set_by_operations = insert_names changed s.set_by_operations;
}

abbrev pub without_changes : Scope → Scope
without_changes s = record s { changed = [] }

abbrev pub with_bound : RefNames → Scope → Scope
with_bound bound s = record s { bound = bound }

abbrev pub is_and : Expression → Bool
is_and (and_expr es) = true
is_and _ = false

pub all_plan : RefNames → Plan → Plan
all_plan [] plan = match_all_without_set_ref plan
all_plan (x ∷ xs) (match_and plans) = match_all_and plans
all_plan (x ∷ xs) plan = match_all plan

-- The refs of the pattern whose values a negation may exclude.
pub shared_changes : List RefName → RefNames → RefNames → RefNames
shared_changes [] changed result = result
shared_changes (ref ∷ refs) changed result =
    shared_changes refs changed (if contains changed ref then insert_name ref result else result)

-- The end of a visit of an operation, given the plan of the operand, what was bound and changed before
-- it, and the scope behind it.
pub operation_plan :
    Bool → OperationType → List RefName → Expression → Scope → Plan × Scope → Plan × Scope
operation_plan nest OperationType.all shared e before r =
    let r' = if is_and e then r else nested nest e r in
    (all_plan r'.1.changed r'.0, close before.changed r'.1.changed r'.1)
operation_plan nest OperationType.only_if shared e before r = (
  if no_names r.1.changed then match_if_without_set_ref r.0 else match_if r.0,
  close before.changed r.1.changed r.1,
)
operation_plan nest OperationType.unless shared e before r =
    let kept = shared_changes shared r.1.changed [] in
    (
      if no_names kept
          then match_unless_without_set_non_local_ref r.0 shared
          else match_unless r.0 shared,
      with_bound before.bound (close before.changed kept r.1),
    )
operation_plan nest OperationType.skip shared e before r =
    (match_skip r.0, close before.changed r.1.changed r.1)
operation_plan nest OperationType.maybe shared e before r =
    let r' = nested nest e r in
    (match_maybe r'.0, with_bound before.bound (close before.changed r'.1.changed r'.1))

pub concatenation_plan : Plans → Plan
concatenation_plan (first plan nothing) = plan
concatenation_plan plans = match_concatenation plans

-- What a concatenation has so far: the path begun, the plans, and the scope.
abbrev pub Run : Type 0
Run = List Item × (Plans × Scope)

abbrev pub close_run : Run → Plan × Scope
close_run (path, (plans, s)) = (concatenation_plan (add_paths path plans), s)

-- A plan behind the path.
abbrev pub behind_path : List Item → Plans → Plan × Scope → Run
behind_path path plans (plan, s) = ([], (push_back (add_paths path plans) plan, s))

abbrev pub vertex_run : List Item → Plans → MatchVertex × Scope → Run
vertex_run path plans (v, s) = (path ++ vertex v ∷ [], (plans, s))

abbrev pub intersect_bound : Option RefNames → RefNames → RefNames
intersect_bound none b = b
intersect_bound (some a) b = intersected a b

-- The end of a visit of alternatives.
abbrev pub or_plan : RefNames → Plans × (Option RefNames × Scope) → Plan × Scope
or_plan bound (plans, (none, s)) = (match_or plans, with_bound bound s)
or_plan bound (plans, (some both, s)) = (match_or plans, with_bound both s)

-- The end of a visit of `&`.
abbrev pub and_plan : RefNames → Plans × (RefNames × Scope) → Plan × Scope
and_plan outer (plans, (bound, s)) = (
  if no_names s.changed then match_and_without_set_ref plans else match_and plans,
  with_bound bound (close outer s.changed s),
)

abbrev pub repetition_plan : ℕ → Option ℕ → RefNames → Plan × Scope → Plan × Scope
repetition_plan least most bound (plan, s) =
    (match_repetition plan least most, if ltb 0 least then s else with_bound bound s)

-- The operands of a concatenation in a concatenation stand in the outer one (`flatten`): the run goes
-- on in them.
mutual
  pub plan_expression : Bool → Expression → Scope → Plan × Scope
  plan_expression nest (vertex_expr v) s = let r = plan_vertex v s in (match_vertex r.0, r.1)
  plan_expression nest (edge_expr e) s = (match_edge (plan_edge e), s)
  plan_expression nest noop_expr s = (match_noop, s)
  plan_expression nest (concatenation_expr es) s = close_run (plan_run nest es ([], (nothing, s)))
  plan_expression nest (or_expr es) s = or_plan s.bound (plan_or nest es s.bound nothing none s)
  plan_expression nest (and_expr es) s =
      and_plan s.changed (plan_and nest es s.bound nothing s.bound (without_changes s))
  plan_expression nest (operation_expr t shared e) s =
      operation_plan nest t shared e s (plan_expression nest e (without_changes s))
  plan_expression nest (repetition_expr least most e) s =
      repetition_plan least most s.bound (plan_expression nest e s)

  pub plan_operand : Bool → Expression → Run → Run
  plan_operand nest (vertex_expr v) (path, (plans, s)) = vertex_run path plans (plan_vertex v s)
  plan_operand nest (edge_expr e) (path, (plans, s)) = (path ++ edge (plan_edge e) ∷ [], (plans, s))
  plan_operand nest (concatenation_expr es) run = plan_run nest es run
  plan_operand nest noop_expr (path, (plans, s)) = behind_path path plans (match_noop, s)
  plan_operand nest (or_expr es) (path, (plans, s)) =
      behind_path path plans (or_plan s.bound (plan_or nest es s.bound nothing none s))
  plan_operand nest (and_expr es) (path, (plans, s)) =
      behind_path path plans
        (and_plan s.changed (plan_and nest es s.bound nothing s.bound (without_changes s)))
  plan_operand nest (operation_expr t shared e) (path, (plans, s)) =
      behind_path path plans
        (operation_plan nest t shared e s (plan_expression nest e (without_changes s)))
  plan_operand nest (repetition_expr least most e) (path, (plans, s)) =
      behind_path path plans (repetition_plan least most s.bound (plan_expression nest e s))

  pub plan_run : Bool → Expressions → Run → Run
  plan_run nest no_more run = run
  plan_run nest (operand e es) run = plan_run nest es (plan_operand nest e run)

  -- Each alternative begins with what was bound before them, and what all of them bind is bound.
  pub plan_or :
      Bool
      → Expressions
      → RefNames
      → Plans
      → Option RefNames
      → Scope
      → Plans × (Option RefNames × Scope)
  plan_or nest no_more start plans both s = (plans, (both, s))
  plan_or nest (operand e es) start plans both s =
      let r = plan_expression nest e (with_bound start s) in
      plan_or nest es start (push_back plans r.0) (some (intersect_bound both r.1.bound)) r.1

  -- Each operand begins with what was bound before them, and what any of them binds is bound.
  pub plan_and :
      Bool → Expressions → RefNames → Plans → RefNames → Scope → Plans × (RefNames × Scope)
  plan_and nest no_more start plans bound s = (plans, (bound, s))
  plan_and nest (operand e es) start plans bound s =
      let r = plan_expression nest e (with_bound start s) in
      let n = nested nest e r in
      plan_and nest es start (push_back plans n.0) (insert_names r.1.bound bound) n.1

-- `Planner::plan`.
pub plan : Bool → Expression → Plan
plan nest e =
    (plan_expression nest e
      (record { bound = []; changed = []; next_nested_id = 0; set_by_operations = [] })).0
