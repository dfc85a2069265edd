-- ===== src/Matcher/Operators/Returns.antt =====
-- When the operators of the matcher (saengra-server/src/matcher.cpp) return.
use saengra.Prelude.{
  ℕ, zero, suc, ◌+◌, ◌≤◌, ◌<◌, Bool, true, Option, none, some, List, [], ◌∷◌, ◌++◌, leb, ◌≡◌, refl,
  sym, ap, ◌∙◌, arith, ℕ_discrete, subst,
}
use Prim.Dec.{yes, no}
use saengra.Refs.{RefName, Refs, restricted_to}
use saengra.Subgraph.{Position, Subgraph, QuerySetObservable, observable}
use saengra.Matcher.{
  MatchMode, Start, Found, nothing, found, depends, also, silent, or_enough, collect, when_matched,
  dep,
}
use saengra.Matcher.Operators.{
  at_vertex, continued_at, continued, behind_head, Operands, no_operands, first_operand,
  if_complete, with_subgraphs, cached_with, cached, nested_start, at_nested, emits, round, is_last,
  next_step, repeat,
}

pub Returns : Found → Type 0
Returns a = a.returns ≡ true

pub returns-Returns : (a : Found) → Returns a → a.returns ≡ true
unfolding Returns
returns-Returns a h = h

pub nothing-Returns : Returns nothing
unfolding Returns
nothing-Returns = refl

pub found-Returns : (sg : Subgraph) → Returns (found sg)
unfolding Returns
found-Returns sg = refl

pub depends-Returns : (deps : List QuerySetObservable) → Returns (depends deps)
unfolding Returns
depends-Returns deps = refl

pub also-Returns : (a b : Found) → Returns a → Returns b → Returns (also a b)
unfolding Returns
also-Returns a b h k = ground arith

pub or_enough-Returns :
    (mode : MatchMode) (a b : Found) → Returns a → Returns b → Returns (or_enough mode a b)
unfolding Returns or_enough
or_enough-Returns mode a b h k = ground arith

pub collect-Returns {ℓ} :
    {A : Type ℓ} (mode : MatchMode) (f : A → Found)
    → ((x : A) → Returns (f x))
    → (xs : List A) → Returns (collect mode f xs)
unfolding collect
collect-Returns mode f h [] = nothing-Returns
collect-Returns mode f h (x ∷ xs) =
    or_enough-Returns mode (f x) (collect mode f xs) (h x) (collect-Returns mode f h xs)

pub when_matched-Returns :
    (matched : Option (Refs × List QuerySetObservable)) (f : Refs → Found)
    → ((refs : Refs) → Returns (f refs))
    → Returns (when_matched matched f)
unfolding when_matched
when_matched-Returns none f h = nothing-Returns
when_matched-Returns (some (refs, deps)) f h =
    also-Returns (depends deps) (f refs) (depends-Returns deps) (h refs)

pub with_subgraphs-Returns :
    (f : List Subgraph → List Subgraph) (a : Found) → Returns a → Returns (with_subgraphs f a)
unfolding Returns with_subgraphs
with_subgraphs-Returns f a h = h

pub at_vertex-Returns :
    (mode : MatchMode) (s : Start) (matched : Option (Refs × List QuerySetObservable))
    → Returns (at_vertex mode s matched)
unfolding at_vertex
at_vertex-Returns mode s matched = when_matched-Returns matched _ (λ refs. found-Returns _)

module _ (f : Start → Found) (h : (s : Start) → Returns (f s)) (origin : Position) where
  continued_at-Returns :
      (sg : Subgraph) (position : Position) → Returns (continued_at f origin sg position)
  unfolding Returns continued_at
  continued_at-Returns sg position =
      h (record { origin = origin; position = position; refs = sg.refs })

  pub continued-Returns : (mode : MatchMode) (sg : Subgraph) → Returns (continued mode f origin sg)
  unfolding continued
  continued-Returns mode sg =
      collect-Returns mode (continued_at f origin sg) (continued_at-Returns sg) sg.end_positions

  pub behind_head-Returns :
      (mode : MatchMode) (head : Found) → Returns head → Returns (behind_head mode f origin head)
  unfolding behind_head with_subgraphs
  behind_head-Returns mode head k =
      also-Returns (silent head) _ (with_subgraphs-Returns (λ sgs. []) head k)
        (collect-Returns mode (continued mode f origin) (continued-Returns mode) head.subgraphs)

pub AllReturn : Operands → Type 0
AllReturn a = a.returns ≡ true

pub no_operands-AllReturn : AllReturn no_operands
unfolding AllReturn no_operands
no_operands-AllReturn = refl

pub first_operand-AllReturn :
    (i : ℕ) (a : Found) (rest : Operands)
    → Returns a
    → AllReturn rest
    → AllReturn (first_operand i a rest)
unfolding Returns AllReturn first_operand
first_operand-AllReturn i a rest h k = ground arith

pub if_complete-Returns :
    (f : List (ℕ × Subgraph) → List Subgraph) (a : Operands)
    → AllReturn a
    → Returns (if_complete f a)
unfolding Returns AllReturn if_complete
if_complete-Returns f a h = h

cached_with-Returns :
    (mode : MatchMode) (s : Start) (sg : Subgraph) (refs : Option Refs)
    → Returns (cached_with mode s sg refs)
unfolding cached_with
cached_with-Returns mode s sg none = nothing-Returns
cached_with-Returns mode s sg (some refs) = found-Returns _

pub at_nested-Returns :
    (mode : MatchMode) (id : ℕ) (names : List RefName) (s : Start)
    (results : Option (ℕ → Position → Refs → List Subgraph)) (a : Found)
    → Returns a
    → Returns (at_nested mode id names s results a)
unfolding at_nested cached
at_nested-Returns mode id names s none a h = h
at_nested-Returns mode id names s (some results) a h =
    also-Returns (depends (dep s.origin (observable (nested_start id names s)) ∷ [])) _
      (depends-Returns _)
      (collect-Returns mode (cached mode s) (λ sg. cached_with-Returns mode s sg _)
        (results id s.position (restricted_to names s.refs)))

module _ (mode : MatchMode) where
  emits-Returns :
      (is_long : Bool) (chain : Subgraph) (a : Found) → Returns a → Returns (emits is_long chain a)
  unfolding Returns emits
  emits-Returns is_long chain a h = ground arith

  round-Returns :
      (is_long : Bool) (step : Subgraph → Found)
      → ((chain : Subgraph) → Returns (step chain))
      → (chains : List Subgraph) → Returns (round mode is_long step chains).emitted
  unfolding round
  round-Returns is_long step h [] = nothing-Returns
  round-Returns is_long step h (chain ∷ chains) =
      or_enough-Returns mode (emits is_long chain (step chain)) _
        (emits-Returns is_long chain (step chain) (h chain)) (round-Returns is_long step h chains)

  -- The last round continues nothing.
  last_round :
      (is_long : Bool) (step : Subgraph → Found)
      → ((chain : Subgraph) → step chain ≡ nothing)
      → (chains : List Subgraph) → (round mode is_long step chains).continued ≡ []
  unfolding round
  last_round is_long step h [] = refl
  last_round is_long step h (chain ∷ chains) =
      ap (λ a. a.subgraphs ++ (round mode is_long step chains).continued) (h chain)
      ∙ last_round is_long step h chains

  module _ (step : Subgraph → Found) (h : (chain : Subgraph) → Returns (step chain))
      (min max : ℕ) where
    next_step-Returns :
        (repeats : ℕ) (chain : Subgraph) → Returns (next_step (some max) repeats step chain)
    unfolding next_step Returns
    next_step-Returns repeats chain = ground (arith, h chain)

    next_step-last :
        (repeats : ℕ) (chain : Subgraph)
        → repeats ≡ max
        → next_step (some max) repeats step chain ≡ nothing
    unfolding next_step is_last
    next_step-last repeats chain e = ground arith

    -- As many rounds as there may be repeats, and one more, are enough.
    pub repeat-Returns :
        (rounds repeats : ℕ) (chains : List Subgraph)
        → max < repeats + rounds
        → repeats ≤ max
        → Returns (repeat mode step min (some max) rounds repeats chains)
    unfolding repeat
    repeat-Returns rounds repeats [] lt le = nothing-Returns
    repeat-Returns zero repeats (chain ∷ chains) lt le =
        absurd (let none_left : repeats < repeats = omega arith in omega arith)
    repeat-Returns (suc rounds) repeats (chain ∷ chains) lt le =
        let now = next_step (some max) repeats step in
        let this = round mode (leb min repeats) now (chain ∷ chains) in
        or_enough-Returns mode this.emitted _
          (round-Returns (leb min repeats) now (next_step-Returns repeats) (chain ∷ chains))
          (elim (ℕ_discrete repeats max) [
            | yes e ↦
                subst (λ cs. Returns (repeat mode step min (some max) rounds (suc repeats) cs))
                  (sym (
                    last_round (leb min repeats) now (λ c. next_step-last repeats c e)
                      (chain ∷ chains)))
                  nothing-Returns
            | no ne ↦ repeat-Returns rounds (suc repeats) this.continued (omega arith) (omega arith)
          ])
