-- ===== src/Matcher/Groups/Emptiness.antt =====
-- Which subgraphs are none after they are merged or cleared (saengra-server/src/matcher.cpp).
use saengra.Prelude.{
  ℕ, zero, suc, ◌≡◌, refl, ◌∙◌, Bool, true, false, not, ◌&&◌, List, [], ◌∷◌, ◌++◌, arith, map,
}
use saengra.Refs.{Refs}
use saengra.Refs.Cells.{RefsCell}
use saengra.Refs.Cells.First.{has_first, arrange-first}
use saengra.Subgraph.{Position, Subgraph}
use saengra.Matcher.{is_empty}
use saengra.Matcher.Groups.{
  push_group, group_into, distinct_refs, members_of, merge, merge_terms, merge_cells, merge_groups,
  merge_all, subgraph_refs, without_contents, different, is_seen, subgraphs_of,
}

pub is_empty-append {ℓ} :
    {A : Type ℓ} (xs ys : List A) → is_empty (xs ++ ys) ≡ (is_empty xs && is_empty ys)
is_empty-append [] ys = refl
is_empty-append (x ∷ xs) ys = refl

pub is_empty-map {ℓ ℓ'} :
    {A : Type ℓ} {B : Type ℓ'} (f : A → B) (xs : List A) → is_empty (map f xs) ≡ is_empty xs
is_empty-map f [] = refl
is_empty-map f (x ∷ xs) = refl

pub is_empty-merge : (refs : Refs) (sgs : List Subgraph) → is_empty (merge refs sgs) ≡ is_empty sgs
unfolding merge
is_empty-merge refs [] = refl
is_empty-merge refs (sg ∷ sgs) = refl

pub is_empty-different :
    (position : Position) (sgs : List Subgraph)
    → is_empty (different position [] sgs) ≡ is_empty sgs
unfolding different is_seen
is_empty-different position [] = refl
is_empty-different position (sg ∷ sgs) = refl

module _ {ℓ} {A : Type ℓ} where
  -- No group is empty.
  abbrev all_full : List (Refs × List A) → Bool
  all_full [] = true
  all_full ((r, xs) ∷ groups) = not (is_empty xs) && all_full groups

  push_group-full :
      (r : Refs) (x : A) (groups : List (Refs × List A))
      → all_full groups ≡ true
      → all_full (push_group r x groups) ≡ true
  unfolding push_group
  push_group-full r x [] h = refl
  push_group-full r x ((s, xs) ∷ groups) h =
      ground (arith, push_group-full r x groups, is_empty-append xs (x ∷ []))

  push_group-some :
      (r : Refs) (x : A) (groups : List (Refs × List A)) → is_empty (push_group r x groups) ≡ false
  unfolding push_group
  push_group-some r x [] = refl
  push_group-some r x ((s, xs) ∷ groups) = ground arith

  group_into-full :
      (key : A → Refs) (groups : List (Refs × List A)) (xs : List A)
      → all_full groups ≡ true
      → all_full (group_into key groups xs) ≡ true
  unfolding group_into
  group_into-full key groups [] h = h
  group_into-full key groups (x ∷ xs) h =
      group_into-full key (push_group (key x) x groups) xs (push_group-full (key x) x groups h)

  group_into-some :
      (key : A → Refs) (groups : List (Refs × List A)) (xs : List A)
      → is_empty groups ≡ false
      → is_empty (group_into key groups xs) ≡ false
  unfolding group_into
  group_into-some key groups [] h = h
  group_into-some key groups (x ∷ xs) h =
      group_into-some key (push_group (key x) x groups) xs (push_group-some (key x) x groups)

module _ (r : Refs) (sg : Subgraph) (sgs : List Subgraph)
    (groups : List (Refs × List Subgraph)) where
  abbrev all_groups : List (Refs × List Subgraph)
  all_groups = (r, sg ∷ sgs) ∷ groups

  -- One cell, with what is found in the others.
  merge_cell-some :
      (terms : List Refs) (members : List ℕ) (cells : List RefsCell) (rest : List Subgraph)
      → (has_first cells ≡ true → is_empty rest ≡ false)
      → has_first (record { terms = terms; members = members } ∷ cells) ≡ true
      → is_empty (merge_terms terms (members_of all_groups members) ++ rest) ≡ false
  unfolding has_first members_of merge_terms merge
  merge_cell-some [] members cells rest later h = ground (arith, later, h)
  merge_cell-some (t ∷ terms) [] cells rest later h =
      is_empty-append (merge_terms (t ∷ terms) (members_of all_groups [])) rest
      ∙ ground (arith, later, h)
  merge_cell-some (t ∷ terms) (suc n ∷ members) cells rest later h =
      is_empty-append (merge_terms (t ∷ terms) (members_of all_groups (suc n ∷ members))) rest
      ∙ ground (arith, later, h)
  merge_cell-some (t ∷ terms) (zero ∷ members) cells rest later h = refl

  merge_cells-some :
      (cells : List RefsCell)
      → has_first cells ≡ true
      → is_empty (merge_cells all_groups cells) ≡ false
  unfolding merge_cells has_first
  merge_cells-some [] h = ground arith
  merge_cells-some (c ∷ cells) h =
      merge_cell-some c.terms c.members cells (merge_cells all_groups cells)
        (merge_cells-some cells) h

merge_groups-some :
    (groups : List (Refs × List Subgraph))
    → all_full groups ≡ true
    → is_empty groups ≡ false
    → is_empty (merge_groups groups) ≡ false
unfolding merge_groups
merge_groups-some [] full h = ground arith
merge_groups-some ((r, sgs) ∷ []) full h = is_empty-merge r sgs ∙ ground (arith, full)
merge_groups-some ((r, []) ∷ other ∷ groups) full h = ground arith
merge_groups-some ((r, sg ∷ sgs) ∷ other ∷ groups) full h =
    merge_cells-some r sg sgs (other ∷ groups) _ (arrange-first r (distinct_refs (other ∷ groups)))

pub is_empty-merge_all : (sgs : List Subgraph) → is_empty (merge_all sgs) ≡ is_empty sgs
unfolding merge_all merge_groups group_into push_group
is_empty-merge_all [] = refl
is_empty-merge_all (sg ∷ sgs) =
    let first = (sg.refs, sg ∷ []) ∷ [] in
    merge_groups-some (group_into subgraph_refs first sgs)
      (group_into-full subgraph_refs first sgs refl) (group_into-some subgraph_refs first sgs refl)

pub is_empty-subgraphs_of :
    (items : List (ℕ × Subgraph)) → is_empty (subgraphs_of items) ≡ is_empty items
unfolding subgraphs_of
is_empty-subgraphs_of [] = refl
is_empty-subgraphs_of ((i, sg) ∷ items) = refl

pub is_empty-without_contents :
    (sgs : List Subgraph) → is_empty (without_contents sgs) ≡ is_empty sgs
unfolding without_contents
is_empty-without_contents [] = refl
is_empty-without_contents (sg ∷ sgs) = refl
