-- ===== src/Matcher/Groups/Contents.antt =====
-- Grouping, joining and merging (saengra-server/src/matcher.cpp) of subgraphs without their vertices
-- and edges.
use saengra.Prelude.{
  ℕ, Bool, true, false, List, [], ◌∷◌, ◌++◌, map, if◌then◌else◌, ◌≡◌, refl, sym, ap, ap₂, ◌∙◌,
  arith,
}
use saengra.Refs.{Refs}
use saengra.Refs.Cells.{RefsCell, arrange}
use saengra.Subgraph.{Position, Subgraph}
use saengra.Matcher.Groups.{
  with_refs, clear_contents, without_contents, group_into, distinct_refs, members_of, all_ends,
  all_vertices, all_edges, merge, merge_terms, operands_of, subgraphs_of, has_all_indices,
  covers_all_operands, item_refs, all_with_refs, copies, in_cells, join_groups, join, merge_items,
  merge_join_groups, merge_join, merge_cells, merge_groups, subgraph_refs, merge_all, at_position,
  different, at_terms,
}
use saengra.Matcher.Groups.Maps.{
  map-append, map_groups, map-group_into, distinct_refs-map, members_of-map,
}

abbrev pub clear_item : ℕ × Subgraph → ℕ × Subgraph
clear_item (i, sg) = (i, clear_contents sg)

all_ends-clear : (sgs : List Subgraph) → all_ends (map clear_contents sgs) ≡ all_ends sgs
unfolding all_ends clear_contents
all_ends-clear [] = refl
all_ends-clear (sg ∷ sgs) = ap (λ ps. sg.end_positions ++ ps) (all_ends-clear sgs)

all_vertices-clear : (sgs : List Subgraph) → all_vertices (map clear_contents sgs) ≡ []
unfolding all_vertices clear_contents
all_vertices-clear [] = refl
all_vertices-clear (sg ∷ sgs) = all_vertices-clear sgs

all_edges-clear : (sgs : List Subgraph) → all_edges (map clear_contents sgs) ≡ []
unfolding all_edges clear_contents
all_edges-clear [] = refl
all_edges-clear (sg ∷ sgs) = all_edges-clear sgs

pub merge-clear :
    (refs : Refs) (sgs : List Subgraph)
    → merge refs (without_contents sgs) ≡ without_contents (merge refs sgs)
unfolding merge without_contents clear_contents all_ends all_vertices all_edges
merge-clear refs [] = refl
merge-clear refs (sg ∷ sgs) =
    ap₂
      (λ vs es.
        (record {
          start_position = sg.start_position;
          end_positions = sg.end_positions ++ all_ends (map clear_contents sgs);
          vertices = vs;
          edges = es;
          refs = refs;
        })
        ∷ [])
      (all_vertices-clear sgs) (all_edges-clear sgs)
    ∙ ap
        (λ ps.
          (record {
            start_position = sg.start_position;
            end_positions = sg.end_positions ++ ps;
            vertices = [];
            edges = [];
            refs = refs;
          })
          ∷ [])
        (all_ends-clear sgs)

merge_terms-clear :
    (terms : List Refs) (sgs : List Subgraph)
    → merge_terms terms (map clear_contents sgs) ≡ map clear_contents (merge_terms terms sgs)
unfolding merge_terms without_contents
merge_terms-clear [] sgs = refl
merge_terms-clear (refs ∷ terms) sgs =
    ap₂ ◌++◌ (merge-clear refs sgs) (merge_terms-clear terms sgs)
    ∙ sym (map-append clear_contents (merge refs sgs) (merge_terms terms sgs))

merge_cells-clear :
    (groups : List (Refs × List Subgraph)) (cells : List RefsCell)
    → merge_cells (map_groups clear_contents groups) cells
      ≡ map clear_contents (merge_cells groups cells)
unfolding merge_cells
merge_cells-clear groups [] = refl
merge_cells-clear groups (cell ∷ cells) =
    ap₂ ◌++◌
      (ap (merge_terms cell.terms) (members_of-map clear_contents groups cell.members)
        ∙ merge_terms-clear cell.terms (members_of groups cell.members))
      (merge_cells-clear groups cells)
    ∙ sym (
        map-append clear_contents (merge_terms cell.terms (members_of groups cell.members))
          (merge_cells groups cells))

merge_groups-clear :
    (groups : List (Refs × List Subgraph))
    → merge_groups (map_groups clear_contents groups) ≡ map clear_contents (merge_groups groups)
unfolding merge_groups without_contents
merge_groups-clear [] = refl
merge_groups-clear ((refs, sgs) ∷ []) = merge-clear refs sgs
merge_groups-clear (group ∷ other ∷ groups) =
    ap (λ rs. merge_cells (map_groups clear_contents (group ∷ other ∷ groups)) (arrange rs))
      (distinct_refs-map clear_contents (group ∷ other ∷ groups))
    ∙ merge_cells-clear (group ∷ other ∷ groups) (arrange (distinct_refs (group ∷ other ∷ groups)))

pub merge_all-clear :
    (sgs : List Subgraph) → merge_all (without_contents sgs) ≡ without_contents (merge_all sgs)
unfolding merge_all without_contents clear_contents
merge_all-clear sgs =
    ap merge_groups (map-group_into clear_contents subgraph_refs subgraph_refs (λ sg. refl) [] sgs)
    ∙ merge_groups-clear (group_into subgraph_refs [] sgs)

operands_of-clear :
    (items : List (ℕ × Subgraph)) → operands_of (map clear_item items) ≡ operands_of items
unfolding operands_of
operands_of-clear [] = refl
operands_of-clear ((i, sg) ∷ items) = ap (◌∷◌ i) (operands_of-clear items)

pub subgraphs_of-clear :
    (items : List (ℕ × Subgraph))
    → subgraphs_of (map clear_item items) ≡ without_contents (subgraphs_of items)
unfolding subgraphs_of without_contents
subgraphs_of-clear [] = refl
subgraphs_of-clear ((i, sg) ∷ items) = ap (◌∷◌ (clear_contents sg)) (subgraphs_of-clear items)

all_with_refs-clear :
    (refs : Refs) (items : List (ℕ × Subgraph))
    → all_with_refs refs (map clear_item items) ≡ map clear_contents (all_with_refs refs items)
unfolding all_with_refs with_refs clear_contents
all_with_refs-clear refs [] = refl
all_with_refs-clear refs ((i, sg) ∷ items) =
    ap (◌∷◌ (with_refs refs (clear_contents sg))) (all_with_refs-clear refs items)

-- What commutes with dropping the contents.
Commutes : (List Refs → List (ℕ × Subgraph) → List Subgraph) → Type 0
Commutes f =
    (terms : List Refs) (items : List (ℕ × Subgraph))
    → f terms (map clear_item items) ≡ map clear_contents (f terms items)

copies-Commutes : Commutes copies
unfolding Commutes copies
copies-Commutes [] items = refl
copies-Commutes (refs ∷ terms) items =
    ap₂ ◌++◌ (all_with_refs-clear refs items) (copies-Commutes terms items)
    ∙ sym (map-append clear_contents (all_with_refs refs items) (copies terms items))

merge_items-Commutes : Commutes merge_items
unfolding Commutes merge_items without_contents
merge_items-Commutes terms items =
    ap (merge_terms terms) (subgraphs_of-clear items) ∙ merge_terms-clear terms (subgraphs_of items)

covers_all_operands-clear :
    (n : ℕ) (items : List (ℕ × Subgraph))
    → covers_all_operands n (map clear_item items) ≡ covers_all_operands n items
unfolding covers_all_operands
covers_all_operands-clear n items = ap (has_all_indices n) (operands_of-clear items)

module _ (f : List Refs → List (ℕ × Subgraph) → List Subgraph) (h : Commutes f) where
  if_covers-clear :
      (b : Bool) (terms : List Refs) (items : List (ℕ × Subgraph))
      → (if b then f terms (map clear_item items) else [])
        ≡ map clear_contents (if b then f terms items else [])
  unfolding Commutes
  if_covers-clear true terms items = h terms items
  if_covers-clear false terms items = refl

  in_cells-clear :
      (n : ℕ) (groups : List (Refs × List (ℕ × Subgraph))) (cells : List RefsCell)
      → in_cells f n (map_groups clear_item groups) cells
        ≡ map clear_contents (in_cells f n groups cells)
  unfolding in_cells
  in_cells-clear n groups [] = refl
  in_cells-clear n groups (cell ∷ cells) =
      let items = members_of groups cell.members in
      ap₂ ◌++◌
        (ap (λ xs. if covers_all_operands n xs then f cell.terms xs else [])
            (members_of-map clear_item groups cell.members)
          ∙ ap (λ b. if b then f cell.terms (map clear_item items) else [])
              (covers_all_operands-clear n items)
          ∙ if_covers-clear (covers_all_operands n items) cell.terms items)
        (in_cells-clear n groups cells)
      ∙ sym (
          map-append clear_contents (if covers_all_operands n items then f cell.terms items else [])
            (in_cells f n groups cells))

join_groups-clear :
    (n : ℕ) (items : List (ℕ × Subgraph)) (groups : List (Refs × List (ℕ × Subgraph)))
    → join_groups n (map clear_item items) (map_groups clear_item groups)
      ≡ map clear_contents (join_groups n items groups)
unfolding join_groups without_contents
join_groups-clear n items [] = in_cells-clear copies copies-Commutes n [] (arrange [])
join_groups-clear n items (group ∷ []) = subgraphs_of-clear items
join_groups-clear n items (group ∷ other ∷ groups) =
    ap (λ rs. in_cells copies n (map_groups clear_item (group ∷ other ∷ groups)) (arrange rs))
      (distinct_refs-map clear_item (group ∷ other ∷ groups))
    ∙ in_cells-clear copies copies-Commutes n (group ∷ other ∷ groups)
        (arrange (distinct_refs (group ∷ other ∷ groups)))

pub join-clear :
    (n : ℕ) (items : List (ℕ × Subgraph))
    → join n (map clear_item items) ≡ without_contents (join n items)
unfolding join without_contents clear_contents
join-clear n items =
    ap (join_groups n (map clear_item items))
      (map-group_into clear_item item_refs item_refs (λ (i, sg). refl) [] items)
    ∙ join_groups-clear n items (group_into item_refs [] items)

merge_join_groups-clear :
    (n : ℕ) (items : List (ℕ × Subgraph)) (groups : List (Refs × List (ℕ × Subgraph)))
    → merge_join_groups n (map clear_item items) (map_groups clear_item groups)
      ≡ map clear_contents (merge_join_groups n items groups)
unfolding merge_join_groups without_contents
merge_join_groups-clear n items [] =
    in_cells-clear merge_items merge_items-Commutes n [] (arrange [])
merge_join_groups-clear n items ((refs, group) ∷ []) =
    ap (merge refs) (subgraphs_of-clear items) ∙ merge-clear refs (subgraphs_of items)
merge_join_groups-clear n items (group ∷ other ∷ groups) =
    ap (λ rs. in_cells merge_items n (map_groups clear_item (group ∷ other ∷ groups)) (arrange rs))
      (distinct_refs-map clear_item (group ∷ other ∷ groups))
    ∙ in_cells-clear merge_items merge_items-Commutes n (group ∷ other ∷ groups)
        (arrange (distinct_refs (group ∷ other ∷ groups)))

pub merge_join-clear :
    (n : ℕ) (items : List (ℕ × Subgraph))
    → merge_join n (map clear_item items) ≡ without_contents (merge_join n items)
unfolding merge_join without_contents clear_contents
merge_join-clear n items =
    ap (merge_join_groups n (map clear_item items))
      (map-group_into clear_item item_refs item_refs (λ (i, sg). refl) [] items)
    ∙ merge_join_groups-clear n items (group_into item_refs [] items)

pub clear-different :
    (position : Position) (seen : List Refs) (sgs : List Subgraph)
    → without_contents (different position seen sgs) ≡ different position seen sgs
unfolding without_contents different at_position clear_contents
clear-different position seen [] = refl
clear-different position seen (sg ∷ sgs) =
    ground (arith, clear-different position seen sgs, clear-different position (sg.refs ∷ seen) sgs)

pub clear-at_terms :
    (position : Position) (terms : List Refs)
    → without_contents (at_terms position terms) ≡ at_terms position terms
unfolding without_contents at_terms clear_contents
clear-at_terms position [] = refl
clear-at_terms position (refs ∷ terms) = rw (clear-at_terms position terms) refl

pub clear-clear :
    (sgs : List Subgraph) → without_contents (without_contents sgs) ≡ without_contents sgs
unfolding without_contents clear_contents
clear-clear [] = refl
clear-clear (sg ∷ sgs) = rw (clear-clear sgs) refl
