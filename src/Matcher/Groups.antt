-- ===== src/Matcher/Groups.antt =====
-- Subgraphs grouped by refs, joined and merged (`MatchAnd`, `MatchAllAnd`, `MatchAll`, `MatchIf`,
-- `MatchUnless`, `merge` and `covers_all_operands` of saengra-server/src/matcher.cpp). A `std::map`
-- from refs is a sorted list. A subgraph of an operand comes with the operand's index.
pub mod Maps
pub mod Contents
pub mod Emptiness
use saengra.Prelude.{
  ℕ, zero, suc, Bool, true, false, not, ◌&&◌, ◌||◌, Option, none, some, List, [], ◌∷◌, ◌++◌,
  if◌then◌else◌, get_elem?, map, ◌==◌, contains,
}
use saengra.Refs.{RefName, Refs, refs_lt, refs_eq, restricted_to, subtract_from_union}
use saengra.Refs.Cells.{RefsCell, arrange}
use saengra.Subgraph.{Position, Subgraph}
use saengra.Edge.{VertexId, Edge}

unfoldable pub with_refs : Refs → Subgraph → Subgraph
with_refs refs sg = record sg { refs = refs }

unfoldable pub clear_contents : Subgraph → Subgraph
clear_contents sg = record sg { vertices = []; edges = [] }

-- `MatchSkip`.
unfoldable pub without_contents : List Subgraph → List Subgraph
without_contents sgs = map clear_contents sgs

module _ {ℓ} {A : Type ℓ} where
  pub push_group : Refs → A → List (Refs × List A) → List (Refs × List A)
  push_group r x [] = (r, x ∷ []) ∷ []
  push_group r x ((s, xs) ∷ groups) =
      if refs_lt r s
      then (r, x ∷ []) ∷ (s, xs) ∷ groups
      else (if refs_lt s r then (s, xs) ∷ push_group r x groups else (s, xs ++ x ∷ []) ∷ groups)

  pub group_into : (A → Refs) → List (Refs × List A) → List A → List (Refs × List A)
  group_into refs_of groups [] = groups
  group_into refs_of groups (x ∷ xs) = group_into refs_of (push_group (refs_of x) x groups) xs

  pub distinct_refs : List (Refs × List A) → List Refs
  distinct_refs [] = []
  distinct_refs ((r, xs) ∷ groups) = r ∷ distinct_refs groups

  abbrev pub group_at : Option (Refs × List A) → List A
  group_at none = []
  group_at (some (r, xs)) = xs

  -- What the groups with the indices hold.
  pub members_of : List (Refs × List A) → List ℕ → List A
  members_of groups [] = []
  members_of groups (i ∷ indices) = group_at (get_elem? groups i) ++ members_of groups indices

-- The start is the first subgraph's. Nothing is merged to nothing, which does not arise.
pub all_ends : List Subgraph → List Position
all_ends [] = []
all_ends (sg ∷ sgs) = sg.end_positions ++ all_ends sgs

pub all_vertices : List Subgraph → List VertexId
all_vertices [] = []
all_vertices (sg ∷ sgs) = sg.vertices ++ all_vertices sgs

pub all_edges : List Subgraph → List Edge
all_edges [] = []
all_edges (sg ∷ sgs) = sg.edges ++ all_edges sgs

unfoldable pub merge : Refs → List Subgraph → List Subgraph
unfolding all_ends all_vertices all_edges
merge refs [] = []
merge refs (sg ∷ sgs) =
    record {
      start_position = sg.start_position;
      end_positions = all_ends (sg ∷ sgs);
      vertices = all_vertices (sg ∷ sgs);
      edges = all_edges (sg ∷ sgs);
      refs = refs;
    }
    ∷ []

pub merge_terms : List Refs → List Subgraph → List Subgraph
unfolding merge
merge_terms [] sgs = []
merge_terms (refs ∷ terms) sgs = merge refs sgs ++ merge_terms terms sgs

-- Subgraphs that each come with the index of their operand.
pub operands_of : List (ℕ × Subgraph) → List ℕ
operands_of [] = []
operands_of ((i, sg) ∷ items) = i ∷ operands_of items

pub subgraphs_of : List (ℕ × Subgraph) → List Subgraph
subgraphs_of [] = []
subgraphs_of ((i, sg) ∷ items) = sg ∷ subgraphs_of items

pub has_index : ℕ → List ℕ → Bool
has_index i [] = false
has_index i (j ∷ js) = i == j || has_index i js

pub has_all_indices : ℕ → List ℕ → Bool
unfolding has_index
has_all_indices zero js = true
has_all_indices (suc n) js = has_index n js && has_all_indices n js

pub covers_all_operands : ℕ → List (ℕ × Subgraph) → Bool
unfolding has_all_indices operands_of
covers_all_operands n items = has_all_indices n (operands_of items)

abbrev pub item_refs : ℕ × Subgraph → Refs
item_refs (i, sg) = sg.refs

pub all_with_refs : Refs → List (ℕ × Subgraph) → List Subgraph
unfolding with_refs
all_with_refs refs [] = []
all_with_refs refs ((i, sg) ∷ items) = with_refs refs sg ∷ all_with_refs refs items

pub copies : List Refs → List (ℕ × Subgraph) → List Subgraph
unfolding all_with_refs
copies [] items = []
copies (refs ∷ terms) items = all_with_refs refs items ++ copies terms items

-- In each cell where all operands match, something is made of its terms and its subgraphs.
pub in_cells :
    (List Refs → List (ℕ × Subgraph) → List Subgraph)
    → ℕ
    → List (Refs × List (ℕ × Subgraph))
    → List RefsCell
    → List Subgraph
unfolding covers_all_operands members_of
in_cells f n groups [] = []
in_cells f n groups (cell ∷ cells) =
    (if covers_all_operands n (members_of groups cell.members)
      then f cell.terms (members_of groups cell.members)
      else [])
    ++ in_cells f n groups cells

-- `MatchAnd`.
pub join_groups : ℕ → List (ℕ × Subgraph) → List (Refs × List (ℕ × Subgraph)) → List Subgraph
unfolding in_cells copies distinct_refs subgraphs_of
join_groups n items [] = in_cells copies n [] (arrange [])
join_groups n items (group ∷ []) = subgraphs_of items
join_groups n items (group ∷ other ∷ groups) =
    in_cells copies n (group ∷ other ∷ groups) (arrange (distinct_refs (group ∷ other ∷ groups)))

pub join : ℕ → List (ℕ × Subgraph) → List Subgraph
unfolding join_groups group_into push_group
join n items = join_groups n items (group_into item_refs [] items)

pub merge_items : List Refs → List (ℕ × Subgraph) → List Subgraph
unfolding merge_terms subgraphs_of
merge_items terms items = merge_terms terms (subgraphs_of items)

-- `MatchAllAnd`.
pub merge_join_groups : ℕ → List (ℕ × Subgraph) → List (Refs × List (ℕ × Subgraph)) → List Subgraph
unfolding in_cells merge_items distinct_refs subgraphs_of merge
merge_join_groups n items [] = in_cells merge_items n [] (arrange [])
merge_join_groups n items ((refs, group) ∷ []) = merge refs (subgraphs_of items)
merge_join_groups n items (group ∷ other ∷ groups) =
    in_cells merge_items n (group ∷ other ∷ groups)
      (arrange (distinct_refs (group ∷ other ∷ groups)))

pub merge_join : ℕ → List (ℕ × Subgraph) → List Subgraph
unfolding merge_join_groups group_into push_group
merge_join n items = merge_join_groups n items (group_into item_refs [] items)

-- `MatchAll`.
pub merge_cells : List (Refs × List Subgraph) → List RefsCell → List Subgraph
unfolding merge_terms members_of
merge_cells groups [] = []
merge_cells groups (cell ∷ cells) =
    merge_terms cell.terms (members_of groups cell.members) ++ merge_cells groups cells

pub merge_groups : List (Refs × List Subgraph) → List Subgraph
unfolding merge_cells merge distinct_refs
merge_groups [] = []
merge_groups ((refs, sgs) ∷ []) = merge refs sgs
merge_groups (group ∷ other ∷ groups) =
    merge_cells (group ∷ other ∷ groups) (arrange (distinct_refs (group ∷ other ∷ groups)))

abbrev pub subgraph_refs : Subgraph → Refs
subgraph_refs sg = sg.refs

pub merge_all : List Subgraph → List Subgraph
unfolding merge_groups group_into push_group
merge_all sgs = merge_groups (group_into subgraph_refs [] sgs)

unfoldable pub at_position : Position → Subgraph → Subgraph
unfolding clear_contents
at_position position sg = record (clear_contents sg) { end_positions = position ∷ [] }

pub is_seen : Refs → List Refs → Bool
is_seen refs [] = false
is_seen refs (r ∷ rs) = refs_eq refs r || is_seen refs rs

-- `MatchIf`: one subgraph, without contents, for each of the refs.
pub different : Position → List Refs → List Subgraph → List Subgraph
unfolding is_seen at_position
different position seen [] = []
different position seen (sg ∷ sgs) =
    if is_seen sg.refs seen
    then different position seen sgs
    else at_position position sg ∷ different position (sg.refs ∷ seen) sgs

-- `MatchUnless`: what is left of the refs of the start outside the subgraphs'. Nothing is left of
-- nothing, so the test for it is left out.
pub outside_of : Refs → List RefName → List Refs → List Subgraph → List Refs
outside_of start shared terms [] = terms
outside_of start shared terms (sg ∷ sgs) =
    if refs_eq sg.refs start
    then []
    else outside_of start shared (subtract_from_union terms (restricted_to shared sg.refs)) sgs

pub at_terms : Position → List Refs → List Subgraph
at_terms position [] = []
at_terms position (refs ∷ terms) =
    record {
      start_position = position;
      end_positions = position ∷ [];
      vertices = [];
      edges = [];
      refs = refs;
    }
    ∷ at_terms position terms

-- A subgraph continued by another one.
unfoldable pub concat_subgraph : Subgraph → Subgraph → Subgraph
concat_subgraph start tail = record tail {
  start_position = start.start_position;
  vertices = tail.vertices ++ start.vertices;
  edges = tail.edges ++ start.edges;
}
