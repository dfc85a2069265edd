-- ===== src/Matcher/Operators/Endless.antt =====
-- Unlimited repetitions (`MatchRepetition` in saengra-server/src/matcher.cpp) of what is always found.
use saengra.Prelude.{
  ℕ, zero, suc, Bool, true, false, not, ◌||◌, none, List, [], ◌∷◌, ◌++◌, leb, ◌≡◌, refl, ap, ◌∙◌,
  arith, Bool-cases, inl, inr,
}
use saengra.Subgraph.{Position, Subgraph}
use saengra.Matcher.{MatchMode, Start, Found, is_empty, or_enough, collect}
use saengra.Matcher.Groups.{concat_subgraph}
use saengra.Matcher.Operators.{concat_all, continued_at, continued, round, next_step, repeat}

-- Whether one of the subgraphs has an end.
unfoldable pub has_end : List Subgraph → Bool
has_end [] = false
has_end (sg ∷ sgs) = not (is_empty sg.end_positions) || has_end sgs

has_end-append : (xs ys : List Subgraph) → has_end (xs ++ ys) ≡ (has_end xs || has_end ys)
unfolding has_end
has_end-append [] ys = refl
has_end-append (x ∷ xs) ys = ground (arith, has_end-append xs ys)

has_end-concat_all :
    (sg : Subgraph) (sgs : List Subgraph) → has_end (concat_all sg sgs) ≡ has_end sgs
unfolding has_end concat_all concat_subgraph
has_end-concat_all sg [] = refl
has_end-concat_all sg (x ∷ xs) =
    ap (λ b. not (is_empty x.end_positions) || b) (has_end-concat_all sg xs)

module _ (f : Start → Found) (h : (s : Start) → has_end (f s).subgraphs ≡ true)
    (origin : Position) where
  has_end-from :
      (sg : Subgraph) (positions : List Position)
      → is_empty positions ≡ false
      → has_end (collect MatchMode.normal (continued_at f origin sg) positions).subgraphs ≡ true
  unfolding collect or_enough continued_at
  has_end-from sg [] k = ground arith
  has_end-from sg (p ∷ positions) k =
      let s : Start = record { origin = origin; position = p; refs = sg.refs } in
      has_end-append (concat_all sg (f s).subgraphs)
        (collect MatchMode.normal (continued_at f origin sg) positions).subgraphs
      ∙ ap
          (λ b.
            b || has_end (collect MatchMode.normal (continued_at f origin sg) positions).subgraphs)
          (has_end-concat_all sg (f s).subgraphs ∙ h s)

  pub continued-has_end :
      (sg : Subgraph)
      → is_empty sg.end_positions ≡ false
      → has_end (continued MatchMode.normal f origin sg).subgraphs ≡ true
  unfolding continued
  continued-has_end sg k = has_end-from sg sg.end_positions k

module _ (step : Subgraph → Found)
    (h : (sg : Subgraph)
      → is_empty sg.end_positions ≡ false
      → has_end (step sg).subgraphs ≡ true) where
  round-has_end :
      (is_long : Bool) (chains : List Subgraph)
      → has_end chains ≡ true
      → has_end (round MatchMode.normal is_long step chains).continued ≡ true
  unfolding round has_end
  round-has_end is_long [] k = ground arith
  round-has_end is_long (chain ∷ chains) k =
      let rest = (round MatchMode.normal is_long step chains).continued in
      has_end-append (step chain).subgraphs rest
      ∙ (elim (Bool-cases (is_empty chain.end_positions)) [
        | inl closed ↦ ground (arith, closed, k, round-has_end is_long chains)
        | inr open_end ↦ ground (arith, open_end, h chain)
      ])

  -- However many rounds there are, another one is left.
  pub repeat-endless :
      (min rounds repeats : ℕ) (chains : List Subgraph)
      → has_end chains ≡ true
      → (repeat MatchMode.normal step min none rounds repeats chains).returns ≡ false
  unfolding repeat has_end next_step or_enough
  repeat-endless min rounds repeats [] k = ground arith
  repeat-endless min zero repeats (chain ∷ chains) k = refl
  repeat-endless min (suc rounds) repeats (chain ∷ chains) k =
      let this = round MatchMode.normal (leb min repeats) step (chain ∷ chains) in
      let rest =
        repeat-endless min rounds (suc repeats) this.continued
          (round-has_end (leb min repeats) (chain ∷ chains) k) in
      ground (arith, rest)
