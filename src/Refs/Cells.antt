-- ===== src/Refs/Cells.antt =====
-- The arrangement of refs into cells (`arrange` and `Refs::excluded_values` of
-- saengra-server/src/refs.cpp).
pub mod Terms
pub mod Correct
pub mod Disjoint
pub mod First
pub mod Excluded
use saengra.Prelude.{
  ℕ, suc, Bool, true, false, not, ◌&&◌, ◌||◌, Option, none, some, List, [], ◌∷◌, ◌++◌,
  if◌then◌else◌, same,
}
use saengra.Text.{text_eq}
use saengra.Edge.{VertexId}
use saengra.Refs.{
  RefName, Literal, Refs, has_negatives, intersect_with, simplify_union, subtract_from_union,
  add_term,
}

pub record RefsCell : Type 0 where
  pub terms : List Refs
  pub members : List ℕ

-- The values that each name may not have, in the order of the literals.
pub push_excluded :
    RefName → VertexId → List (RefName × List VertexId) → List (RefName × List VertexId)
push_excluded name value [] = (name, value ∷ []) ∷ []
push_excluded name value ((n, values) ∷ rest) =
    if same n name then (n, value ∷ values) ∷ rest else (name, value ∷ []) ∷ (n, values) ∷ rest

pub excluded_values : Refs → List (RefName × List VertexId)
excluded_values [] = []
excluded_values (l ∷ ls) =
    if l.negative then push_excluded l.name l.value (excluded_values ls) else excluded_values ls

pub positives : Refs → List (RefName × VertexId)
positives [] = []
positives (l ∷ ls) = if l.negative then positives ls else (l.name, l.value) ∷ positives ls

pub same_names : List (RefName × VertexId) → List (RefName × VertexId) → Bool
same_names [] [] = true
same_names [] (b ∷ bs) = false
same_names (a ∷ as') [] = false
same_names (a ∷ as') (b ∷ bs) = same a.0 b.0 && same_names as' bs

pub same_positive_names : Refs → Refs → Bool
unfolding positives same_names
same_positive_names a b = same_names (positives a) (positives b)

pub all_simple : Refs → List Refs → Bool
all_simple first [] = true
all_simple first (r ∷ rs) =
    not (has_negatives r) && same_positive_names r first && all_simple first rs

pub is_disjoint : List Refs → Bool
is_disjoint [] = true
is_disjoint (r ∷ rs) = all_simple r (r ∷ rs)

pub single_cells : ℕ → List Refs → List RefsCell
single_cells i [] = []
single_cells i (r ∷ rs) = record { terms = r ∷ []; members = i ∷ [] } ∷ single_cells (suc i) rs

pub inside_terms : Refs → List Refs → List Refs
inside_terms r [] = []
inside_terms r (term ∷ terms) = add_term (intersect_with term r) (inside_terms r terms)

abbrev pub if_any : List Refs → List ℕ → List RefsCell
if_any [] members = []
if_any (t ∷ ts) members = record { terms = t ∷ ts; members = members } ∷ []

-- A cell that intersects the refs is split into the part inside them and the part outside.
pub split_cell : ℕ → Refs → RefsCell → List RefsCell
split_cell i r cell = elim (inside_terms r cell.terms) [
  | [] ↦ cell ∷ []
  | t ∷ ts ↦
      record { terms = simplify_union (t ∷ ts); members = cell.members ++ i ∷ [] }
      ∷ if_any (subtract_from_union cell.terms r) cell.members
]

pub split_cells : ℕ → Refs → List RefsCell → List RefsCell
split_cells i r [] = []
split_cells i r (cell ∷ cells) = split_cell i r cell ++ split_cells i r cells

-- What is outside all the previous refs. Nothing is left of nothing, so the test for it is left out.
pub outside_all : List Refs → List Refs → List Refs
outside_all fresh [] = fresh
outside_all fresh (p ∷ previous) = outside_all (subtract_from_union fresh p) previous

-- The loop over the refs, behind the previous ones.
pub arrange_behind : List Refs → ℕ → List RefsCell → List Refs → List RefsCell
arrange_behind previous i cells [] = cells
arrange_behind previous i cells (r ∷ rs) =
    arrange_behind (previous ++ r ∷ []) (suc i)
      (split_cells i r cells ++ if_any (outside_all (r ∷ []) previous) (i ∷ [])) rs

pub arrange : List Refs → List RefsCell
arrange refs = if is_disjoint refs then single_cells 0 refs else arrange_behind [] 0 [] refs
