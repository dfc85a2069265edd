-- ===== src/Edges/Branch.antt =====
-- Branches (`Branch` of saengra-server/src/edges_container.cpp): the edges at one vertex, by label.
-- An iterator returns the edges that the code appends to `dest`.
pub mod Laws
pub mod Items
use saengra.Prelude.{
  ◌≡◌, Bool, true, false, Option, none, some, List, [], ◌∷◌, ◌++◌, nat_eq, lookup, insert, erase,
  IsMap, if◌then◌else◌,
}
use saengra.Edge.{VertexId, EdgeLabel, Edge}
use saengra.Edges.Leaf
use saengra.Edges.Leaf.{Leaf, IsLeaf}

pub record Branch : Type 0 where
  pub from : VertexId
  pub is_inverse : Bool
  pub leaves : List (EdgeLabel × Leaf)

pub fresh : VertexId → Bool → Branch
fresh from is_inverse = record { from = from; is_inverse = is_inverse; leaves = [] }

pub push_edge : Branch → EdgeLabel → VertexId → Edge
push_edge b label to =
    if b.is_inverse
    then record { from = to; label = label; to = b.from }
    else record { from = b.from; label = label; to = to }

-- `try_emplace` of an empty `UniLeaf`.
abbrev pub emplaced : Option Leaf → Leaf
emplaced none = Leaf.uni none
emplaced (some leaf) = leaf

pub add : EdgeLabel → VertexId → Branch → Bool × Branch
add label to b =
    let r = Leaf.add to (emplaced (lookup label b.leaves)) in
    (r.0, record b { leaves = insert label r.1 b.leaves })

-- The branch with the leaf of a label put back, or dropped if nothing is left in it.
put_back : EdgeLabel → Leaf → Branch → Branch
put_back label leaf b = record b {
  leaves = if Leaf.is_empty leaf then erase label b.leaves else insert label leaf b.leaves;
}

pub remove : EdgeLabel → VertexId → Branch → Bool × Branch
unfolding put_back
remove label to b = elim (lookup label b.leaves) [
  | none ↦ (false, b)
  | some leaf ↦ ((Leaf.remove to leaf).0, put_back label (Leaf.remove to leaf).1 b)
]

-- The removed targets, and what is left.
pub remove_all_via_label : EdgeLabel → Branch → List VertexId × Branch
remove_all_via_label label b = elim (lookup label b.leaves) [
  | none ↦ ([], b)
  | some leaf ↦ (Leaf.targets leaf, record b { leaves = erase label b.leaves })
]

abbrev pub labelled : EdgeLabel → List VertexId → List (EdgeLabel × VertexId)
labelled label [] = []
labelled label (to ∷ rest) = (label, to) ∷ labelled label rest

pub items : List (EdgeLabel × Leaf) → List (EdgeLabel × VertexId)
items [] = []
items ((label, leaf) ∷ rest) = labelled label (Leaf.targets leaf) ++ items rest

pub remove_all : Branch → List (EdgeLabel × VertexId) × Branch
remove_all b = (items b.leaves, record b { leaves = [] })

pub push_edges : Branch → List (EdgeLabel × VertexId) → List Edge
push_edges b [] = []
push_edges b ((label, to) ∷ rest) = push_edge b label to ∷ push_edges b rest

pub iter_present : Branch → List Edge
unfolding items push_edges
iter_present b = push_edges b (items b.leaves)

pub iter_present_via_label : EdgeLabel → Branch → List Edge
unfolding push_edges
iter_present_via_label label b = elim (lookup label b.leaves) [
  | none ↦ []
  | some leaf ↦ push_edges b (labelled label (Leaf.targets leaf))
]

push_if_contains : VertexId → Branch → EdgeLabel → Leaf → List Edge
push_if_contains to b label leaf = if Leaf.has leaf to then push_edge b label to ∷ [] else []

scan_leaves : VertexId → Branch → List (EdgeLabel × Leaf) → List Edge
unfolding push_if_contains
scan_leaves to b [] = []
scan_leaves to b ((label, leaf) ∷ rest) = push_if_contains to b label leaf ++ scan_leaves to b rest

scan_labels : VertexId → Branch → List EdgeLabel → List Edge
unfolding push_if_contains
scan_labels to b [] = []
scan_labels to b (label ∷ rest) =
    elim (lookup label b.leaves) [ none ↦ [] | some leaf ↦ push_if_contains to b label leaf ]
    ++ scan_labels to b rest

-- No labels stand for any label.
pub iter_present_to_vertex_via_labels : VertexId → List EdgeLabel → Branch → List Edge
unfolding scan_leaves scan_labels
iter_present_to_vertex_via_labels to [] b = scan_leaves to b b.leaves
iter_present_to_vertex_via_labels to (label ∷ rest) b = scan_labels to b (label ∷ rest)

abbrev pub no_leaves : List (EdgeLabel × Leaf) → Bool
no_leaves [] = true
no_leaves (x ∷ xs) = false

pub is_empty : Branch → Bool
is_empty b = no_leaves b.leaves

-- Whether the branch holds an edge with the label to the vertex.
abbrev pub leaf_has : Option Leaf → VertexId → Bool
leaf_has none to = false
leaf_has (some leaf) to = Leaf.has leaf to

pub has : Branch → EdgeLabel → VertexId → Bool
has b label to = leaf_has (lookup label b.leaves) to

-- The leaves are a map by label, and none of them is empty.
pub record IsBranch (b : Branch) : Type 0 where
  pub is_map : IsMap b.leaves
  pub is_leaf : (label : EdgeLabel) (leaf : Leaf) → lookup label b.leaves ≡ some leaf → IsLeaf leaf
  pub not_empty :
      (label : EdgeLabel) (leaf : Leaf)
      → lookup label b.leaves ≡ some leaf
      → Leaf.is_empty leaf ≡ false
