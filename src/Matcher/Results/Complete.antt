-- ===== src/Matcher/Results/Complete.antt =====
-- What `Matcher::match` (saengra-server/src/matcher.cpp) returns.
use saengra.Prelude.{
  sym, ◌↔◌, ℕ, true, Option, none, some, List, [], ◌∷◌, ◌++◌, map, if◌then◌else◌, ◌≡◌, refl, ap,
  subst, ◌⊎◌, inl, inr, arith, Bool-cases,
}
use saengra.Refs.{Refs, has_negatives}
use saengra.Refs.Implies.{In}
use saengra.Plan.{Plan}
use saengra.Subgraph.{Position, Subgraph, QuerySetObservable, new_vertex}
use saengra.Matcher.{MatchMode, Query, Start, Found, dep}
use saengra.Matcher.Visitor.{visit}
use saengra.Matcher.Visitor.Returns.{is_supported}
use saengra.Matcher.Results.{
  any_negatives, expand_negatives, match_from_all, match_found, finalized, finalize, QuerySet,
  StartPositions, ParsedQuery, preprocess_query, match,
}
use saengra.Matcher.Results.Finalized.{finalize_lem}
use saengra.Matcher.Results.Expanded.{In-both, IsExpansion}
use saengra.Matcher.Results.Expanded.Correct.{expand_negatives_lem}
use saengra.Matcher.Results.Returns.{match_from_all-returns}

any_negatives-In :
    (sg : Subgraph) (sgs : List Subgraph)
    → In sg sgs
    → has_negatives sg.refs ≡ true
    → any_negatives sgs ≡ true
unfolding any_negatives
any_negatives-In sg [] i h = absurd i
any_negatives-In sg (x ∷ sgs) (inl e) h =
    let here : has_negatives x.refs ≡ true = subst (λ y. has_negatives y.refs ≡ true) e h in
    ground (arith, here)
any_negatives-In sg (x ∷ sgs) (inr i) h = ground (arith, any_negatives-In sg sgs i h)

abbrev pub start_at : Position → Start
start_at position = record { origin = position; position = position; refs = [] }

-- A subgraph that the plan finds from one of the positions, expanded.
pub record IsFoundFrom (q : Query) (rounds : ℕ) (p : Plan) (positions : List Position)
    (x : Subgraph) : Type 0 where
  pub position : Position
  pub is_start : In position positions
  pub subgraph : Subgraph
  pub is_found : In subgraph (visit q rounds MatchMode.normal p (start_at position)).subgraphs
  pub expansion : IsExpansion q.graph subgraph x

module _ (q : Query) (rounds : ℕ) (p : Plan) where
  abbrev found_at : Position → Found
  found_at position =
      expand_negatives q.graph position (visit q rounds MatchMode.normal p (start_at position))

  later :
      (position : Position) (positions : List Position) (x : Subgraph)
      → IsFoundFrom q rounds p positions x
      → IsFoundFrom q rounds p (position ∷ positions) x
  later position positions x f = record {
    position = f.position;
    is_start = inr f.is_start;
    subgraph = f.subgraph;
    is_found = f.is_found;
    expansion = f.expansion;
  }

  match_from_all-IsFoundFrom :
      (positions : List Position) (x : Subgraph)
      → In x (match_from_all q rounds p positions).subgraphs
      → IsFoundFrom q rounds p positions x
  unfolding match_from_all
  match_from_all-IsFoundFrom [] x i = absurd i
  match_from_all-IsFoundFrom (position ∷ positions) x i =
      elim ((In-both x (found_at position).subgraphs
          (match_from_all q rounds p positions).subgraphs).0
        i) [
          | inl here ↦
              let (sg, sg_in, k) = (expand_negatives_lem q.graph position _ x).0 here in
              record {
                position = position;
                is_start = inl refl;
                subgraph = sg;
                is_found = sg_in;
                expansion = k;
              }
          | inr k ↦ later position positions x (match_from_all-IsFoundFrom positions x k)
        ]

  In-match_from_all :
      (positions : List Position) (start : Position) (sg x : Subgraph)
      → In start positions
      → In sg (visit q rounds MatchMode.normal p (start_at start)).subgraphs
      → IsExpansion q.graph sg x
      → In x (match_from_all q rounds p positions).subgraphs
  unfolding match_from_all
  In-match_from_all [] start sg x i sg_in k = absurd i
  In-match_from_all (position ∷ positions) start sg x (inl e) sg_in k =
      (In-both x (found_at position).subgraphs (match_from_all q rounds p positions).subgraphs).1 (
        inl (
          (expand_negatives_lem q.graph position _ x).1 (
            sg,
            subst (λ s. In sg (visit q rounds MatchMode.normal p (start_at s)).subgraphs) e sg_in,
            k,
          )))
  In-match_from_all (position ∷ positions) start sg x (inr i) sg_in k =
      (In-both x (found_at position).subgraphs (match_from_all q rounds p positions).subgraphs).1
        (inr (In-match_from_all positions start sg x i sg_in k))

  In-both_deps :
      (d : QuerySetObservable) (xs ys : List QuerySetObservable)
      → In d xs ⊎ In d ys
      → In d (xs ++ ys)
  In-both_deps d xs ys h = (In-both d xs ys).1 h

  expand_negatives-deps :
      (position : Position) (a : Found) (d : QuerySetObservable)
      → In d a.deps
      → In d (expand_negatives q.graph position a).deps
  unfolding expand_negatives
  expand_negatives-deps position a d i = elim (Bool-cases (any_negatives a.subgraphs)) [
    | inl some_there ↦ rw (some_there, expand_negatives) (In-both_deps d a.deps _ (inl i))
    | inr none_there ↦ rw (none_there, expand_negatives) i
  ]

  -- Where a subgraph with negative literals is expanded, the result depends on new vertices.
  expand_negatives-new_vertex :
      (position : Position) (a : Found) (sg : Subgraph)
      → In sg a.subgraphs
      → has_negatives sg.refs ≡ true
      → In (dep position new_vertex) (expand_negatives q.graph position a).deps
  unfolding expand_negatives
  expand_negatives-new_vertex position a sg i negative =
      rw (any_negatives-In sg a.subgraphs i negative, expand_negatives)
        (In-both_deps (dep position new_vertex) a.deps _ (inr (inl refl)))

  match_from_all-deps :
      (positions : List Position) (start : Position) (d : QuerySetObservable)
      → In start positions
      → In d (found_at start).deps
      → In d (match_from_all q rounds p positions).deps
  unfolding match_from_all
  match_from_all-deps [] start d i k = absurd i
  match_from_all-deps (position ∷ positions) start d (inl e) k =
      In-both_deps d (found_at position).deps _ (inl (subst (λ s. In d (found_at s).deps) e k))
  match_from_all-deps (position ∷ positions) start d (inr i) k =
      In-both_deps d (found_at position).deps _ (inr (match_from_all-deps positions start d i k))

In-map :
    (f : Subgraph → Subgraph) (y : Subgraph) (xs : List Subgraph)
    → In y (map f xs)
    → (x : Subgraph) × In x xs × (y ≡ f x)
In-map f y [] i = absurd i
In-map f y (x ∷ xs) (inl e) = (x, inl refl, e)
In-map f y (x ∷ xs) (inr i) = let (z, k, e) = In-map f y xs i in (z, inr k, e)

map-In :
    (f : Subgraph → Subgraph) (x : Subgraph) (xs : List Subgraph) → In x xs → In (f x) (map f xs)
map-In f x [] i = absurd i
map-In f x (z ∷ xs) (inl e) = inl (ap f e)
map-In f x (z ∷ xs) (inr i) = inr (map-In f x xs i)

-- A query set that has the finalized subgraphs found from the positions, no others, and the
-- dependencies of the visits and, where negative literals were expanded, on new vertices.
pub record IsComplete (q : Query) (rounds : ℕ) (p : Plan) (starts : StartPositions) (qs : QuerySet)
    : Type 0 where
  pub finds_exactly :
      (y : Subgraph)
      → In y qs.subgraphs
        ↔ ((x : Subgraph) × IsFoundFrom q rounds p starts.positions x × (y ≡ finalized x))
  pub depends :
      (start : Position) (d : QuerySetObservable)
      → In start starts.positions
      → In d (visit q rounds MatchMode.normal p (start_at start)).deps
      → In d qs.deps
  pub expansions_depend :
      (start : Position) (sg : Subgraph)
      → In start starts.positions
      → In sg (visit q rounds MatchMode.normal p (start_at start)).subgraphs
      → has_negatives sg.refs ≡ true
      → In (dep start new_vertex) qs.deps
  pub starts_depend : qs.start_deps ≡ starts.deps

finalize-IsComplete :
    (q : Query) (rounds : ℕ) (p : Plan) (starts : StartPositions)
    → IsComplete q rounds p starts
        (finalize (match_from_all q rounds p starts.positions) starts.deps)
unfolding finalize
finalize-IsComplete q rounds p starts =
    let all = match_from_all q rounds p starts.positions in
    let exact = (finalize_lem all starts.deps).1 in
    record {
      finds_exactly = λ y. (
        λ i.
            let (x, x_in, e) = In-map finalized y all.subgraphs ((exact y).0 i) in
            (x, match_from_all-IsFoundFrom q rounds p starts.positions x x_in, e),
        λ (x, f, e).
            subst (λ z. In z (finalize all starts.deps).subgraphs) (sym e)
              ((exact (finalized x)).1 (
                map-In finalized x all.subgraphs (
                  In-match_from_all q rounds p starts.positions f.position f.subgraph x f.is_start
                    f.is_found f.expansion))),
      );
      depends = λ start d i k.
          match_from_all-deps q rounds p starts.positions start d i
            (expand_negatives-deps q rounds p start _ d k);
      expansions_depend = λ start sg i k negative.
          match_from_all-deps q rounds p starts.positions start _ i
            (expand_negatives-new_vertex q rounds p start _ sg k negative);
      starts_depend = refl;
    }

-- If the plan of a query is supported, with fewer repeats than there are rounds, matching the query
-- from any start positions returns a query set. Its subgraphs are, finalized, exactly those that a
-- visit of the plan from one of the positions finds, each with every name that has negative literals
-- set to each of the present vertices that are not excluded. Its dependencies have those of the
-- visits, one on new vertices for each position where a found subgraph has negative literals, and
-- its start dependencies are those given.
pub match-IsComplete :
    (q : ParsedQuery) (rounds : ℕ) (starts : StartPositions)
    (nested_results : Option (ℕ → Position → Refs → List Subgraph))
    → is_supported (preprocess_query q nested_results) rounds q.plan ≡ true
    → (qs : QuerySet) × (match q rounds starts nested_results ≡ some qs)
      × IsComplete (preprocess_query q nested_results) rounds q.plan starts qs
unfolding match match_found
match-IsComplete q rounds starts nested_results h =
    let pre = preprocess_query q nested_results in
    let qs = finalize (match_from_all pre rounds q.plan starts.positions) starts.deps in
    (
      qs,
      ap (λ b. if b then some qs else none)
          (match_from_all-returns pre rounds q.plan starts.positions h),
      finalize-IsComplete pre rounds q.plan starts,
    )
