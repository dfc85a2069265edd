-- ===== src/Matcher/Results/Expanded.antt =====
-- The expansion of negative literals (`expand_negatives` of saengra-server/src/matcher.cpp).
pub mod Correct
use saengra.Prelude.{
  false, List, [], ◌∷◌, ◌++◌, if◌then◌else◌, contains, nat_eq, ◌≡◌, refl, sym, ap, ◌∙◌, subst, ◌⊎◌,
  inl, inr, ◌↔◌, arith, Bool-cases,
}
use saengra.Edge.{VertexId}
use saengra.Refs.{RefName, Refs, has_negatives, copy_and_set}
use saengra.Refs.Cells.{excluded_values}
use saengra.Refs.Cells.Excluded.{excluded_values-none}
use saengra.Refs.Implies.{In}
use saengra.Vertices
use saengra.Graph.{Graph}
use saengra.Subgraph.{Position, Subgraph}
use saengra.Matcher.{Found}
use saengra.Matcher.Groups.{with_refs}
use saengra.Matcher.Results.{
  allowed, set_to_each, set_all_to_each, variants_of, copies_with, without_negatives, expanded,
  any_negatives, expand_negatives,
}

-- The second refs are the first ones with each of the names set to one of the vertices that it may
-- have.
abbrev pub Expands : List VertexId → List (RefName × List VertexId) → Refs → Refs → Type 0
Expands vertices [] r r' = r' ≡ r
Expands vertices ((name, excluded) ∷ names) r r' =
    (id : VertexId) × In id vertices
    × (contains excluded id ≡ false)
    × Expands vertices names (copy_and_set name id r) r'

-- A subgraph with the refs of another one, expanded over the vertices of the graph.
pub record IsExpansion (g : Graph) (sg x : Subgraph) : Type 0 where
  pub refs : Refs
  pub expands : Expands (Vertices.iter_present g.vertices) (excluded_values sg.refs) sg.refs refs
  pub same : x ≡ with_refs refs sg

pub In-both : {A : Type 0} (x : A) (xs ys : List A) → In x (xs ++ ys) ↔ (In x xs ⊎ In x ys)
In-both x [] ys = ((λ i. inr i), (λ i. ground (arith, i)))
In-both x (y ∷ xs) ys = let ih = In-both x xs ys in (ground (arith, ih), ground (arith, ih))

In-allowed :
    (excluded : List VertexId) (id : VertexId) (ids : List VertexId)
    → In id (allowed excluded ids) ↔ (In id ids × (contains excluded id ≡ false))
unfolding allowed
In-allowed excluded id [] = ((λ i. absurd i), (λ i. absurd i.0))
In-allowed excluded id (j ∷ ids) =
    let ih = In-allowed excluded id ids in (ground (arith, ih), ground (arith, ih))

-- Refs that are set to one of some vertices.
abbrev SetToOne : RefName → List VertexId → Refs → Refs → Type 0
SetToOne name ids r r' = (id : VertexId) × In id ids × (r' ≡ copy_and_set name id r)

set_to_each-In :
    (name : RefName) (r r' : Refs) (ids : List VertexId)
    → In r' (set_to_each name r ids)
    → SetToOne name ids r r'
unfolding set_to_each
set_to_each-In name r r' [] i = absurd i
set_to_each-In name r r' (id ∷ ids) (inl e) = (id, inl refl, e)
set_to_each-In name r r' (id ∷ ids) (inr i) =
    let (j, k, e) = set_to_each-In name r r' ids i in (j, inr k, e)

In-set_to_each :
    (name : RefName) (id : VertexId) (r : Refs) (ids : List VertexId)
    → In id ids
    → In (copy_and_set name id r) (set_to_each name r ids)
unfolding set_to_each
In-set_to_each name id r [] i = absurd i
In-set_to_each name id r (j ∷ ids) (inl e) = inl (ap (λ k. copy_and_set name k r) e)
In-set_to_each name id r (j ∷ ids) (inr i) = inr (In-set_to_each name id r ids i)

set_all_to_each-In :
    (name : RefName) (ids : List VertexId) (r' : Refs) (rs : List Refs)
    → In r' (set_all_to_each name ids rs)
    → (r : Refs) × In r rs × SetToOne name ids r r'
unfolding set_all_to_each
set_all_to_each-In name ids r' [] i = absurd i
set_all_to_each-In name ids r' (r ∷ rs) i =
    elim ((In-both r' (set_to_each name r ids) (set_all_to_each name ids rs)).0 i) [
      | inl here ↦ (r, inl refl, set_to_each-In name r r' ids here)
      | inr later ↦ let (q, k, one) = set_all_to_each-In name ids r' rs later in (q, inr k, one)
    ]

In-set_all_to_each :
    (name : RefName) (id : VertexId) (ids : List VertexId) (r : Refs) (rs : List Refs)
    → In id ids
    → In r rs
    → In (copy_and_set name id r) (set_all_to_each name ids rs)
unfolding set_all_to_each
In-set_all_to_each name id ids r [] k i = absurd i
In-set_all_to_each name id ids r (q ∷ rs) k (inl e) =
    (In-both _ (set_to_each name q ids) (set_all_to_each name ids rs)).1 (
      inl (
        subst (λ x. In (copy_and_set name id x) (set_to_each name q ids)) (sym e)
          (In-set_to_each name id q ids k)))
In-set_all_to_each name id ids r (q ∷ rs) k (inr i) =
    (In-both _ (set_to_each name q ids) (set_all_to_each name ids rs)).1
      (inr (In-set_all_to_each name id ids r rs k i))

pub variants_of-In :
    (vertices : List VertexId) (names : List (RefName × List VertexId)) (r' : Refs) (rs : List Refs)
    → In r' (variants_of vertices names rs)
    → (r : Refs) × In r rs × Expands vertices names r r'
unfolding variants_of
variants_of-In vertices [] r' rs i = (r', i, refl)
variants_of-In vertices ((name, excluded) ∷ names) r' rs i =
    let (q, q_in, rest) =
      variants_of-In vertices names r' (set_all_to_each name (allowed excluded vertices) rs) i in
    let (r, r_in, (id, id_in, e)) = set_all_to_each-In name (allowed excluded vertices) q rs q_in in
    let may = (In-allowed excluded id vertices).0 id_in in
    (r, r_in, (id, may.0, may.1, subst (λ x. Expands vertices names x r') e rest))

pub In-variants_of :
    (vertices : List VertexId) (names : List (RefName × List VertexId)) (r r' : Refs)
    (rs : List Refs)
    → In r rs
    → Expands vertices names r r'
    → In r' (variants_of vertices names rs)
unfolding variants_of
In-variants_of vertices [] r r' rs i e = subst (λ x. In x rs) (sym e) i
In-variants_of vertices ((name, excluded) ∷ names) r r' rs i (id, id_in, may, rest) =
    In-variants_of vertices names (copy_and_set name id r) r'
      (set_all_to_each name (allowed excluded vertices) rs)
      (In-set_all_to_each name id (allowed excluded vertices) r rs
        ((In-allowed excluded id vertices).1 (id_in, may)) i)
      rest

pub copies_with-In :
    (sg x : Subgraph) (rs : List Refs)
    → In x (copies_with sg rs)
    → (r : Refs) × In r rs × (x ≡ with_refs r sg)
unfolding copies_with
copies_with-In sg x [] i = absurd i
copies_with-In sg x (r ∷ rs) (inl e) = (r, inl refl, e)
copies_with-In sg x (r ∷ rs) (inr i) = let (q, k, e) = copies_with-In sg x rs i in (q, inr k, e)

pub In-copies_with :
    (sg : Subgraph) (r : Refs) (rs : List Refs) → In r rs → In (with_refs r sg) (copies_with sg rs)
unfolding copies_with
In-copies_with sg r [] i = absurd i
In-copies_with sg r (q ∷ rs) (inl e) = inl (ap (λ x. with_refs x sg) e)
In-copies_with sg r (q ∷ rs) (inr i) = inr (In-copies_with sg r rs i)
