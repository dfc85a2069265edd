-- ===== src/Planner/Visitor/Bound.antt =====
-- The refs bound through `PlanVisitor` of saengra-server/src/planner.cpp.
use saengra.Prelude.{
  ℕ, ◌≡◌, Bool, true, Option, none, some, List, [], ◌∷◌, contains, arith, Option-cases, Bool-cases,
  inl, inr,
}
use saengra.Text.{text_eq}
use saengra.Refs.{RefName}
use saengra.Expression.{
  OperationType, VertexExpr, Expression, Expressions, vertex_expr, edge_expr, noop_expr,
  concatenation_expr, or_expr, and_expr, operation_expr, repetition_expr, no_more, operand,
}
use saengra.Plan.{Plan, Plans, nothing, push_back}
use saengra.Planner.Visitor.{
  RefNames, Scope, Run, insert_name, insert_names, intersected, plan_vertex, nested, operation_plan,
  without_changes, with_bound, or_plan, repetition_plan, intersect_bound, plan_expression,
  plan_operand, plan_run, plan_or, plan_and,
}

module _ (n : RefName) where
  insert_name-keeps :
      (name : RefName) (names : RefNames)
      → contains names n ≡ true
      → contains (insert_name name names) n ≡ true
  unfolding insert_name contains
  insert_name-keeps name [] h = cc
  insert_name-keeps name (x ∷ xs) h = ground (arith, insert_name-keeps name xs)

  insert_names-keeps :
      (more names : RefNames)
      → contains names n ≡ true
      → contains (insert_names more names) n ≡ true
  unfolding insert_names
  insert_names-keeps [] names h = h
  insert_names-keeps (x ∷ more) names h =
      insert_names-keeps more (insert_name x names) (insert_name-keeps x names h)

  intersected-keeps :
      (a b : RefNames)
      → contains a n ≡ true
      → contains b n ≡ true
      → contains (intersected a b) n ≡ true
  unfolding intersected contains
  intersected-keeps [] b h k = h
  intersected-keeps (x ∷ a) b h k = ground (arith, intersected-keeps a b)

  plan_vertex-keeps :
      (v : VertexExpr) (s : Scope)
      → contains s.bound n ≡ true
      → contains (plan_vertex v s).1.bound n ≡ true
  unfolding plan_vertex
  plan_vertex-keeps v s h = elim (Option-cases v.ref) [
    | inl is ↦ rw (is, plan_vertex) h
    | inr (ref, is) ↦ elim (Bool-cases (contains s.bound ref)) [
      | inl there ↦ rw (is, plan_vertex, there) h
      | inr new ↦ rw (is, plan_vertex, new) (insert_name-keeps ref s.bound h)
    ]
  ]

  nested-bound :
      (nest : Bool) (e : Expression) (r : Plan × Scope) → (nested nest e r).1.bound ≡ r.1.bound
  unfolding nested
  nested-bound nest e (plan, s) = ground arith

  operation_plan-keeps :
      (nest : Bool) (t : OperationType) (shared : List RefName) (e : Expression) (s : Scope)
      (r : Plan × Scope)
      → contains s.bound n ≡ true
      → contains r.1.bound n ≡ true
      → contains (operation_plan nest t shared e s r).1.bound n ≡ true
  unfolding operation_plan
  operation_plan-keeps nest OperationType.all shared e s r h k =
      ground (arith, nested-bound nest e r)
  operation_plan-keeps nest OperationType.only_if shared e s r h k = k
  operation_plan-keeps nest OperationType.unless shared e s r h k = h
  operation_plan-keeps nest OperationType.skip shared e s r h k = k
  operation_plan-keeps nest OperationType.maybe shared e s r h k = h

  abbrev Kept : Option RefNames → Type 0
  Kept none = Unit
  Kept (some b) = contains b n ≡ true

  intersect_bound-keeps :
      (both : Option RefNames) (b : RefNames)
      → Kept both
      → contains b n ≡ true
      → contains (intersect_bound both b) n ≡ true
  intersect_bound-keeps none b h k = k
  intersect_bound-keeps (some a) b h k = intersected-keeps a b h k

  or_plan-keeps :
      (bound : RefNames) (r : Plans × (Option RefNames × Scope))
      → contains bound n ≡ true
      → Kept r.1.0
      → contains (or_plan bound r).1.bound n ≡ true
  or_plan-keeps bound (plans, (none, s)) h k = h
  or_plan-keeps bound (plans, (some both, s)) h k = k

  repetition_plan-keeps :
      (least : ℕ) (most : Option ℕ) (bound : RefNames) (r : Plan × Scope)
      → contains bound n ≡ true
      → contains r.1.bound n ≡ true
      → contains (repetition_plan least most bound r).1.bound n ≡ true
  repetition_plan-keeps least most bound (plan, s) h k = ground arith

  mutual
    unfolding plan_expression plan_operand plan_run plan_or plan_and

    expression-keeps :
        (nest : Bool) (e : Expression) (s : Scope)
        → contains s.bound n ≡ true
        → contains (plan_expression nest e s).1.bound n ≡ true
    expression-keeps nest (vertex_expr v) s h = plan_vertex-keeps v s h
    expression-keeps nest (edge_expr e) s h = h
    expression-keeps nest noop_expr s h = h
    expression-keeps nest (concatenation_expr es) s h = run-keeps nest es ([], (nothing, s)) h
    expression-keeps nest (or_expr es) s h =
        or_plan-keeps s.bound (plan_or nest es s.bound nothing none s) h
          (or-keeps nest es s.bound nothing none s h tt)
    expression-keeps nest (and_expr es) s h =
        and-keeps nest es s.bound nothing s.bound (without_changes s) h
    expression-keeps nest (operation_expr t shared e) s h =
        operation_plan-keeps nest t shared e s (plan_expression nest e (without_changes s)) h
          (expression-keeps nest e (without_changes s) h)
    expression-keeps nest (repetition_expr least most e) s h =
        repetition_plan-keeps least most s.bound (plan_expression nest e s) h
          (expression-keeps nest e s h)

    operand-keeps :
        (nest : Bool) (e : Expression) (run : Run)
        → contains run.1.1.bound n ≡ true
        → contains (plan_operand nest e run).1.1.bound n ≡ true
    operand-keeps nest (vertex_expr v) (path, (plans, s)) h = plan_vertex-keeps v s h
    operand-keeps nest (edge_expr e) (path, (plans, s)) h = h
    operand-keeps nest noop_expr (path, (plans, s)) h = h
    operand-keeps nest (concatenation_expr es) run h = run-keeps nest es run h
    operand-keeps nest (or_expr es) (path, (plans, s)) h =
        or_plan-keeps s.bound (plan_or nest es s.bound nothing none s) h
          (or-keeps nest es s.bound nothing none s h tt)
    operand-keeps nest (and_expr es) (path, (plans, s)) h =
        and-keeps nest es s.bound nothing s.bound (without_changes s) h
    operand-keeps nest (operation_expr t shared e) (path, (plans, s)) h =
        operation_plan-keeps nest t shared e s (plan_expression nest e (without_changes s)) h
          (expression-keeps nest e (without_changes s) h)
    operand-keeps nest (repetition_expr least most e) (path, (plans, s)) h =
        repetition_plan-keeps least most s.bound (plan_expression nest e s) h
          (expression-keeps nest e s h)

    run-keeps :
        (nest : Bool) (es : Expressions) (run : Run)
        → contains run.1.1.bound n ≡ true
        → contains (plan_run nest es run).1.1.bound n ≡ true
    run-keeps nest no_more run h = h
    run-keeps nest (operand e es) run h =
        run-keeps nest es (plan_operand nest e run) (operand-keeps nest e run h)

    or-keeps :
        (nest : Bool) (es : Expressions) (start : RefNames) (plans : Plans) (both : Option RefNames)
        (s : Scope)
        → contains start n ≡ true
        → Kept both
        → Kept (plan_or nest es start plans both s).1.0
    or-keeps nest no_more start plans both s h k = k
    or-keeps nest (operand e es) start plans both s h k =
        let r = plan_expression nest e (with_bound start s) in
        or-keeps nest es start (push_back plans r.0) (some (intersect_bound both r.1.bound)) r.1 h
          (intersect_bound-keeps both r.1.bound k (expression-keeps nest e (with_bound start s) h))

    and-keeps :
        (nest : Bool) (es : Expressions) (start : RefNames) (plans : Plans) (bound : RefNames)
        (s : Scope)
        → contains bound n ≡ true
        → contains (plan_and nest es start plans bound s).1.0 n ≡ true
    and-keeps nest no_more start plans bound s h = h
    and-keeps nest (operand e es) start plans bound s h =
        let r = plan_expression nest e (with_bound start s) in
        let m = nested nest e r in
        and-keeps nest es start (push_back plans m.0) (insert_names r.1.bound bound) m.1
          (insert_names-keeps r.1.bound bound h)

-- A ref that is bound before an expression is planned is bound behind it.
pub plan_expression-keeps :
    (nest : Bool) (e : Expression) (s : Scope) (name : RefName)
    → contains s.bound name ≡ true
    → contains (plan_expression nest e s).1.bound name ≡ true
plan_expression-keeps nest e s name h = expression-keeps name nest e s h
