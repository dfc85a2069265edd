-- ===== src/Matcher/Examples.antt =====
-- The laws of the matcher on a pattern over a graph with two vertices and an edge between them.
use saengra.Prelude.{true, false, none, some, [], ◌∷◌, ◌≡◌, refl, ◌↔◌, map}
use saengra.Text.{Text}
use saengra.Edge.{Edge, sort_and_intersect}
use saengra.Edge.Intersection.{In-sort_and_intersect}
use saengra.Expression.{Direction}
use saengra.Plan.{
  PositionKind, MatchVertex, MatchEdge, Plan, Plans, match_vertex, match_path, match_noop,
  match_concatenation, match_maybe, match_all, match_repetition,
}
use saengra.Graph.{Graph, Update, UpdateVertex, UpdateKind}
use saengra.Graph as Graphs
use saengra.Subgraph.{Subgraph}
use saengra.Matcher.{MatchMode, Query, Start, is_empty}
use saengra.Matcher.Operators.Contents.{strip}
use saengra.Matcher.Operators.Returns.{Returns, returns-Returns}
use saengra.Refs.Implies.{In}
use saengra.Matcher.Visitor.{visit}
use saengra.Matcher.Sorting.{IsRising}
use saengra.Matcher.Results.{
  ParsedQuery, StartPositions, subgraph_lt, subgraph_eq, finalize, finalized, match, QuerySet,
  preprocess_query,
}
use saengra.Matcher.Results.Finalized.{finalize_lem}
use saengra.Matcher.Results.Complete.{IsComplete, match-IsComplete}
use saengra.Matcher.Visitor.Contents.{visit-strip}
use saengra.Matcher.Visitor.Returns.{is_supported, visit-Returns}
use saengra.Matcher.Visitor.First.{visit-first}
use saengra.Matcher.Visitor.Endless.{repetition-endless, noop-has_end}

abbrev person : Text
person = 1 ∷ []

abbrev ann : UpdateVertex
ann = record { type_name = person; value = 2 ∷ [] }

abbrev bob : UpdateVertex
bob = record { type_name = person; value = 3 ∷ [] }

abbrev step : UpdateKind → UpdateVertex → UpdateVertex → Update
step k a b = record { kind = k; from = a; label = 7 ∷ []; to = b }

abbrev pair : Graph
pair =
    Graphs.update
      (step UpdateKind.add_vertex ann ann
        ∷ step UpdateKind.add_vertex bob bob
        ∷ step UpdateKind.add_edge ann bob
        ∷ [])
      Graphs.empty

abbrev query : Query
query = record {
  graph = pair;
  placeholder_values = [];
  placeholder_value_ids = [];
  nested_results = none;
}

abbrev from_ann : Start
from_ann = record {
  origin = record { vertex_id = 0; kind = PositionKind.core };
  position = record { vertex_id = 0; kind = PositionKind.core };
  refs = [];
}

abbrev any_vertex : MatchVertex
any_vertex = record { type_name = none; set_ref = none; match_ref = none; placeholder_idx = none }

abbrev named_vertex : MatchVertex
named_vertex = record {
  type_name = none;
  set_ref = some (8 ∷ []);
  match_ref = none;
  placeholder_idx = none;
}

abbrev any_edge : MatchEdge
any_edge = record { direction = Direction.any; forward_labels = none; backward_labels = none }

-- Up to two edges from a vertex, each to a vertex, or none, merged.
abbrev pattern_plan : Plan
pattern_plan = match_concatenation (
    Plans.first (match_vertex any_vertex) (
      Plans.first
        (match_all (
          match_maybe (
            match_repetition
              (match_path (record {
                start = PositionKind.orbit;
                edges = any_edge ∷ [];
                vertices = named_vertex ∷ [];
              }))
              1 (some 2))))
        Plans.nothing))

pattern_plan-supported : is_supported query 3 pattern_plan ≡ true
unfolding is_supported
pattern_plan-supported = refl

visit-Returns_example : Returns (visit query 3 MatchMode.first pattern_plan from_ann)
visit-Returns_example =
    visit-Returns query 3 MatchMode.first pattern_plan from_ann pattern_plan-supported

normal_returns : (visit query 3 MatchMode.normal pattern_plan from_ann).returns ≡ true
normal_returns =
    returns-Returns (visit query 3 MatchMode.normal pattern_plan from_ann)
      (visit-Returns query 3 MatchMode.normal pattern_plan from_ann pattern_plan-supported)

visit-first_example :
    ((visit query 3 MatchMode.first pattern_plan from_ann).returns ≡ true)
    × (is_empty (visit query 3 MatchMode.first pattern_plan from_ann).subgraphs
        ≡ is_empty (visit query 3 MatchMode.normal pattern_plan from_ann).subgraphs)
visit-first_example = visit-first query 3 pattern_plan from_ann normal_returns

visit-strip_example :
    strip (visit query 3 MatchMode.normal pattern_plan from_ann)
    ≡ visit query 3 MatchMode.refs_only pattern_plan from_ann
visit-strip_example = visit-strip query 3 pattern_plan from_ann

repetition-endless_example :
    (visit query 3 MatchMode.normal (match_repetition match_noop 1 none) from_ann).returns ≡ false
repetition-endless_example = repetition-endless query 3 match_noop 1 (noop-has_end query 3) from_ann

abbrev parsed : ParsedQuery
parsed = record { graph = pair; placeholder_values = []; plan = pattern_plan }

abbrev starts : StartPositions
starts = record {
  positions = from_ann.origin ∷ record { vertex_id = 1; kind = PositionKind.core } ∷ [];
  deps = [];
}

finalize_lem_example :
    IsRising subgraph_lt subgraph_eq
      (finalize (visit query 3 MatchMode.normal pattern_plan from_ann) []).subgraphs
    × ((sg : Subgraph)
        → In sg (finalize (visit query 3 MatchMode.normal pattern_plan from_ann) []).subgraphs
          ↔ In sg (map finalized (visit query 3 MatchMode.normal pattern_plan from_ann).subgraphs))
finalize_lem_example = finalize_lem (visit query 3 MatchMode.normal pattern_plan from_ann) []

match-IsComplete_example :
    (qs : QuerySet) × (match parsed 3 starts none ≡ some qs)
    × IsComplete (preprocess_query parsed none) 3 pattern_plan starts qs
unfolding is_supported
match-IsComplete_example = match-IsComplete parsed 3 starts none refl

abbrev there : Edge
there = record { from = 0; label = 0; to = 1 }

abbrev back : Edge
back = record { from = 1; label = 0; to = 0 }

In-sort_and_intersect_example :
    In there (sort_and_intersect (there ∷ back ∷ []) (there ∷ []))
    ↔ (In there (there ∷ back ∷ []) × In there (there ∷ []))
In-sort_and_intersect_example = In-sort_and_intersect there (there ∷ back ∷ []) (there ∷ [])
