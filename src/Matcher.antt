-- ===== src/Matcher.antt =====
-- The matcher (saengra-server/src/matcher.cpp, saengra-server/include/matcher.h). A visit returns
-- what the code appends to the draft of the query set that it is given: subgraphs and dependencies,
-- in order. A visitor begins with the subgraphs of its draft counted, so in `first` mode there is
-- enough as soon as the visit found anything.
pub mod Steps
pub mod Groups
pub mod Operators
pub mod Visitor
pub mod Sorting
pub mod Results
mod Examples
use saengra.Prelude.{
  ℕ, Bool, true, false, not, ◌&&◌, Option, none, some, List, [], ◌∷◌, ◌++◌, if◌then◌else◌,
  get_elem?,
}
use saengra.Vertex.{VertexData}
use saengra.Edge.{VertexId}
use saengra.Refs.{Refs}
use saengra.Graph.{Graph}
use saengra.Subgraph.{Position, Subgraph, QuerySetObservable, Observable, at}

-- What the caller needs: whole subgraphs, whether there is one, or all of them without contents.
pub data MatchMode : Type 0 where
  normal first refs_only : MatchMode

abbrev pub is_first : MatchMode → Bool
is_first normal = false
is_first first = true
is_first refs_only = false

abbrev pub collects_contents : MatchMode → Bool
collects_contents normal = true
collects_contents first = false
collects_contents refs_only = false

abbrev pub all_matches_mode : MatchMode → MatchMode
all_matches_mode normal = normal
all_matches_mode first = refs_only
all_matches_mode refs_only = refs_only

abbrev pub no_contents_mode : MatchMode → MatchMode
no_contents_mode normal = refs_only
no_contents_mode first = first
no_contents_mode refs_only = refs_only

-- `PreprocessedQuery`. Results of nested expressions are an interface; without them, nested
-- expressions are matched in place.
pub record Query : Type 0 where
  pub graph : Graph
  pub placeholder_values : List VertexData
  pub placeholder_value_ids : List (Option VertexId)
  pub nested_results : Option (ℕ → Position → Refs → List Subgraph)

pub record Start : Type 0 where
  pub origin : Position
  pub position : Position
  pub refs : Refs

-- What a visit adds, and whether it returns: it does not if it throws, or if a repetition is still
-- going on when the rounds that it is given are used up.
pub record Found : Type 0 where
  pub subgraphs : List Subgraph
  pub deps : List QuerySetObservable
  pub returns : Bool

abbrev pub nothing : Found
nothing = record { subgraphs = []; deps = []; returns = true }

abbrev pub found : Subgraph → Found
found sg = record { subgraphs = sg ∷ []; deps = []; returns = true }

abbrev pub depends : List QuerySetObservable → Found
depends deps = record { subgraphs = []; deps = deps; returns = true }

abbrev pub failed : Found
failed = record { subgraphs = []; deps = []; returns = false }

abbrev pub also : Found → Found → Found
also a b = record {
  subgraphs = a.subgraphs ++ b.subgraphs;
  deps = a.deps ++ b.deps;
  returns = a.returns && b.returns;
}

-- A draft of which only the dependencies are kept.
abbrev pub silent : Found → Found
silent a = record a { subgraphs = [] }

abbrev pub is_empty {ℓ} : {A : Type ℓ} → List A → Bool
is_empty [] = true
is_empty (x ∷ xs) = false

abbrev pub enough : MatchMode → Found → Bool
enough mode a = is_first mode && not (is_empty a.subgraphs)

-- Goes on unless there is enough.
unfoldable pub or_enough : MatchMode → Found → Found → Found
or_enough mode a b = if enough mode a then a else also a b

unfoldable pub collect {ℓ} : {A : Type ℓ} → MatchMode → (A → Found) → List A → Found
unfolding or_enough
collect mode f [] = nothing
collect mode f (x ∷ xs) = or_enough mode (f x) (collect mode f xs)

-- What is done once a vertex matches, with the new refs.
unfoldable pub when_matched : Option (Refs × List QuerySetObservable) → (Refs → Found) → Found
when_matched none f = nothing
when_matched (some (refs, deps)) f = also (depends deps) (f refs)

-- Vertices and edges are kept only where the contents are needed.
abbrev pub contents_of {ℓ} : {A : Type ℓ} → MatchMode → List A → List A
contents_of mode xs = if collects_contents mode then xs else []

abbrev pub dep : Position → Observable → QuerySetObservable
dep origin o = record { observable = o; start_position = at origin }
