-- ===== src/Matcher/Operators.antt =====
-- What each operator does with what its operands find (the call operators of `MatchVisitor` in
-- saengra-server/src/matcher.cpp). An operand is given by the visit of it, at a start.
pub mod Contents
pub mod Rounds
pub mod Returns
pub mod First
pub mod Endless
use saengra.Prelude.{
  ℕ, zero, suc, Bool, true, false, not, ◌&&◌, ◌||◌, Option, none, some, List, [], ◌∷◌, ◌++◌,
  if◌then◌else◌, ◌==◌, leb,
}
use saengra.Refs.{RefName, Refs, restricted_to, intersect_with}
use saengra.Plan.{PositionKind}
use saengra.Subgraph.{
  Position, is_orbit, with_kind, Subgraph, QuerySetObservable, NestedExpressionStart, observable,
}
use saengra.Matcher.{
  MatchMode, collects_contents, is_first, Query, Start, Found, nothing, found, depends, failed,
  also, silent, is_empty, or_enough, collect, contents_of, dep, when_matched,
}
use saengra.Matcher.Groups.{
  with_refs, clear_contents, merge, merge_all, at_position, different, outside_of, at_terms,
  concat_subgraph,
}

-- The empty subgraph at the position, with a start.
unfoldable pub empty_at : Position → Start → Subgraph
empty_at start_position s = record {
  start_position = start_position;
  end_positions = s.position ∷ [];
  vertices = [];
  edges = [];
  refs = s.refs;
}

-- `MatchVertex`: `matched` is what `match_vertex` finds at the start.
pub at_vertex : MatchMode → Start → Option (Refs × List QuerySetObservable) → Found
at_vertex mode s matched = when_matched matched (λ refs. found (record {
  start_position = s.origin;
  end_positions = with_kind PositionKind.orbit s.position ∷ [];
  vertices = contents_of mode (s.position.vertex_id ∷ []);
  edges = [];
  refs = refs;
}))

pub concat_all : Subgraph → List Subgraph → List Subgraph
concat_all start [] = []
concat_all start (sg ∷ sgs) = concat_subgraph start sg ∷ concat_all start sgs

-- What is found behind a subgraph, from one of its ends.
pub continued_at : (Start → Found) → Position → Subgraph → Position → Found
unfolding concat_all
continued_at f origin sg position =
    let a = f (record { origin = origin; position = position; refs = sg.refs }) in
    record a { subgraphs = concat_all sg a.subgraphs }

pub continued : MatchMode → (Start → Found) → Position → Subgraph → Found
unfolding continued_at
continued mode f origin sg = collect mode (continued_at f origin sg) sg.end_positions

-- `match_concatenation_tail`: the head, and the tail behind each of its subgraphs.
pub behind_head : MatchMode → (Start → Found) → Position → Found → Found
unfolding continued
behind_head mode tail origin head =
    also (silent head) (collect mode (continued mode tail origin) head.subgraphs)

-- The operands of a conjunction: their subgraphs with their indices, and whether all match.
pub record Operands : Type 0 where
  pub items : List (ℕ × Subgraph)
  pub deps : List QuerySetObservable
  pub returns : Bool
  pub complete : Bool

pub indexed : ℕ → List Subgraph → List (ℕ × Subgraph)
indexed i [] = []
indexed i (sg ∷ sgs) = (i, sg) ∷ indexed i sgs

pub no_operands : Operands
no_operands = record { items = []; deps = []; returns = true; complete = true }

-- The quick exit when nothing matched for an operand.
pub first_operand : ℕ → Found → Operands → Operands
unfolding indexed
first_operand i a rest =
    if is_empty a.subgraphs
    then record { items = []; deps = a.deps; returns = a.returns; complete = false }
    else record {
      items = indexed i a.subgraphs ++ rest.items;
      deps = a.deps ++ rest.deps;
      returns = a.returns && rest.returns;
      complete = rest.complete;
    }

pub if_complete : (List (ℕ × Subgraph) → List Subgraph) → Operands → Found
if_complete f a = record {
  subgraphs = if a.complete then f a.items else [];
  deps = a.deps;
  returns = a.returns;
}

-- What is made of the subgraphs of one operand.
unfoldable pub with_subgraphs : (List Subgraph → List Subgraph) → Found → Found
with_subgraphs f a = record a { subgraphs = f a.subgraphs }

-- `MatchIfWithoutSetRef`.
unfoldable pub first_at : Position → List Subgraph → List Subgraph
first_at position [] = []
first_at position (sg ∷ sgs) = at_position position sg ∷ []

-- `MatchUnlessWithoutSetNonLocalRef`.
unfoldable pub if_none : Start → List Subgraph → List Subgraph
unfolding empty_at
if_none s [] = empty_at s.position s ∷ []
if_none s (sg ∷ sgs) = []

-- `MatchUnless`.
unfoldable pub unless_any : Start → List RefName → List Subgraph → List Subgraph
unless_any s shared sgs = at_terms s.position (outside_of s.refs shared (s.refs ∷ []) sgs)

-- `MatchMaybe`.
unfoldable pub or_empty : Start → List Subgraph → List Subgraph
unfolding empty_at
or_empty s [] = empty_at s.position s ∷ []
or_empty s (sg ∷ sgs) = sg ∷ sgs

-- `MatchNestedExpression`: a cached subgraph with the refs of the start.
pub cached_with : MatchMode → Start → Subgraph → Option Refs → Found
cached_with mode s sg none = nothing
cached_with mode s sg (some refs) = found (record {
  start_position = s.position;
  end_positions = sg.end_positions;
  vertices = contents_of mode sg.vertices;
  edges = contents_of mode sg.edges;
  refs = refs;
})

pub cached : MatchMode → Start → Subgraph → Found
unfolding cached_with
cached mode s sg = cached_with mode s sg (intersect_with s.refs sg.refs)

pub nested_start : ℕ → List RefName → Start → NestedExpressionStart
nested_start id names s = record {
  expression_id = id;
  position = s.position;
  refs = restricted_to names s.refs;
}

-- Without results of nested expressions, `in_place` is what is found.
pub at_nested :
    MatchMode
    → ℕ
    → List RefName
    → Start
    → Option (ℕ → Position → Refs → List Subgraph)
    → Found
    → Found
unfolding cached nested_start
at_nested mode id names s none in_place = in_place
at_nested mode id names s (some results) in_place =
    also (depends (dep s.origin (observable (nested_start id names s)) ∷ []))
      (collect mode (cached mode s) (results id s.position (restricted_to names s.refs)))

-- A round of a repetition: what it emits and the chains that it continues.
pub record Round : Type 0 where
  pub emitted : Found
  pub continued : List Subgraph

pub emits : Bool → Subgraph → Found → Found
emits is_long chain a =
    also (silent a) (if is_empty a.subgraphs && is_long then found chain else nothing)

pub round : MatchMode → Bool → (Subgraph → Found) → List Subgraph → Round
unfolding emits
round mode is_long step [] = record { emitted = nothing; continued = [] }
round mode is_long step (chain ∷ chains) =
    let rest = round mode is_long step chains in
    record {
      emitted = or_enough mode (emits is_long chain (step chain)) rest.emitted;
      continued = (step chain).subgraphs ++ rest.continued;
    }

pub is_last : Option ℕ → ℕ → Bool
is_last none repeats = false
is_last (some max) repeats = repeats == max

pub next_step : Option ℕ → ℕ → (Subgraph → Found) → Subgraph → Found
unfolding is_last
next_step max repeats step chain = if is_last max repeats then nothing else step chain

-- `MatchRepetition`, for at most so many rounds.
pub repeat : MatchMode → (Subgraph → Found) → ℕ → Option ℕ → ℕ → ℕ → List Subgraph → Found
unfolding round next_step
repeat mode step min max rounds repeats [] = nothing
repeat mode step min max zero repeats (chain ∷ chains) = failed
repeat mode step min max (suc rounds) repeats (chain ∷ chains) =
    let this = round mode (leb min repeats) (next_step max repeats step) (chain ∷ chains) in
    or_enough mode this.emitted (repeat mode step min max rounds (suc repeats) this.continued)
