-- ===== src/Planner/Examples.antt =====
-- Cutting a run of four items, the third of them an edge to a known vertex.
use saengra.Prelude.{◌≡◌, refl, true, contains, ℕ_discrete, none, some, List, [], ◌∷◌, ◌++◌}
use saengra.Refs.{RefName}
use saengra.Text.{text_eq, Text-discrete}
use saengra.Expression.{Direction, Expression, vertex_expr, or_expr, no_more, operand}
use saengra.Plan.{MatchVertex, MatchEdge, nothing}
use saengra.Planner.{Item, vertex, edge, add_paths}
use saengra.Planner.Paths.{all_steps, AreSupported}
use saengra.Planner.Visitor.{Scope, plan_expression}
use saengra.Planner.Visitor.Bound.{plan_expression-keeps}
use saengra.Planner.Runs.{add_paths-steps, add_paths-AreSupported}

abbrev free : MatchVertex
free = record { type_name = none; set_ref = none; match_ref = none; placeholder_idx = none }

abbrev known : MatchVertex
known = record { type_name = none; set_ref = none; match_ref = none; placeholder_idx = some 0 }

abbrev arrow : MatchEdge
arrow = record { direction = Direction.forward; forward_labels = none; backward_labels = none }

abbrev run : List Item
run = edge arrow ∷ vertex free ∷ edge arrow ∷ vertex known ∷ vertex free ∷ []

add_paths-steps_example : all_steps (add_paths run nothing) ≡ all_steps nothing ++ run
add_paths-steps_example = add_paths-steps run nothing

add_paths-AreSupported_example : AreSupported (add_paths run nothing)
add_paths-AreSupported_example = add_paths-AreSupported run nothing tt

abbrev x : RefName
x = 1 ∷ []

abbrev named : RefName → Expression
named ref = vertex_expr (record { type_name = none; ref = some ref; placeholder_idx = none })

abbrev inner : Scope
inner = record { bound = x ∷ []; changed = []; next_nested_id = 0; set_by_operations = [] }

abbrev either : Expression
either = or_expr (operand (named x) (operand (named (2 ∷ [])) no_more))

x_bound : contains inner.bound x ≡ true
unfolding contains Text-discrete ℕ_discrete
x_bound = refl

plan_expression-keeps_example : contains (plan_expression true either inner).1.bound x ≡ true
plan_expression-keeps_example = plan_expression-keeps true either inner x x_bound
