-- ===== src/Matcher/Results/Returns.antt =====
-- When `Matcher::match` (saengra-server/src/matcher.cpp) returns.
use saengra.Prelude.{ℕ, true, List, [], ◌∷◌, ◌≡◌, refl, arith}
use saengra.Plan.{Plan}
use saengra.Subgraph.{Position}
use saengra.Matcher.{MatchMode, Query, Start, Found}
use saengra.Matcher.Operators.Returns.{returns-Returns}
use saengra.Matcher.Visitor.{visit}
use saengra.Matcher.Visitor.Returns.{is_supported, visit-Returns}
use saengra.Matcher.Results.{expand_negatives, match_from_all}

-- Negatives are expanded in what was found.
expand_negatives-returns :
    (q : Query) (p : Position) (a : Found) → (expand_negatives q.graph p a).returns ≡ a.returns
unfolding expand_negatives
expand_negatives-returns q p a = ground arith

pub match_from_all-returns :
    (q : Query) (rounds : ℕ) (p : Plan) (positions : List Position)
    → is_supported q rounds p ≡ true
    → (match_from_all q rounds p positions).returns ≡ true
unfolding match_from_all
match_from_all-returns q rounds p [] h = refl
match_from_all-returns q rounds p (position ∷ positions) h =
    let start : Start = record { origin = position; position = position; refs = [] } in
    let visited = returns-Returns _ (visit-Returns q rounds MatchMode.normal p start h) in
    let expanded_too =
      expand_negatives-returns q position (visit q rounds MatchMode.normal p start) in
    let rest = match_from_all-returns q rounds p positions h in
    ground (arith, visited, expanded_too, rest)
