-- ===== src/Matcher/Visitor/Endless.antt =====
-- Unlimited repetitions (`MatchRepetition` in saengra-server/src/matcher.cpp) that do not end.
use saengra.Prelude.{ℕ, true, false, none, [], ◌∷◌, ◌≡◌, refl}
use saengra.Plan.{Plan, match_repetition, match_noop}
use saengra.Matcher.{MatchMode, Query, Start}
use saengra.Matcher.Operators.{continued, empty_at}
use saengra.Matcher.Operators.Endless.{has_end, continued-has_end, repeat-endless}
use saengra.Matcher.Visitor.{chain_at, visit}

-- If an operand finds a subgraph with an end from each start, then an unlimited repetition of it
-- does not return, however many rounds there are.
pub repetition-endless :
    (q : Query) (rounds : ℕ) (p : Plan) (min : ℕ)
    → ((s : Start) → has_end (visit q rounds MatchMode.normal p s).subgraphs ≡ true)
    → (s : Start)
    → (visit q rounds MatchMode.normal (match_repetition p min none) s).returns ≡ false
unfolding visit chain_at empty_at has_end
repetition-endless q rounds p min h s =
    repeat-endless (continued MatchMode.normal (visit q rounds MatchMode.normal p) s.origin)
      (continued-has_end (visit q rounds MatchMode.normal p) h s.origin) min rounds 0
      (chain_at s ∷ []) refl

-- The empty pattern is found at each start, where it ends.
pub noop-has_end :
    (q : Query) (rounds : ℕ) (s : Start)
    → has_end (visit q rounds MatchMode.normal match_noop s).subgraphs ≡ true
unfolding visit empty_at has_end
noop-has_end q rounds s = refl
