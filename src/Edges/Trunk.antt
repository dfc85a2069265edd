-- ===== src/Edges/Trunk.antt =====
-- Trunks (`Trunk` of saengra-server/src/edges_container.cpp): the branches of all vertices. The
-- forward trunk holds an edge at its start, the inverse trunk at its end.
pub mod Laws
pub mod Items
use saengra.Prelude.{
  ◌≡◌, Bool, true, false, Option, none, some, List, [], ◌∷◌, ◌++◌, nat_eq, lookup, insert, erase,
  IsMap, if◌then◌else◌,
}
use saengra.Edge.{VertexId, EdgeLabel, Edge, Link}
use saengra.Edges.Branch
use saengra.Edges.Branch.{Branch, IsBranch}

pub record Trunk : Type 0 where
  pub is_inverse : Bool
  pub branches : List (VertexId × Branch)

pub empty : Bool → Trunk
empty is_inverse = record { is_inverse = is_inverse; branches = [] }

-- `try_emplace` of an empty branch.
abbrev pub emplaced : VertexId → Bool → Option Branch → Branch
emplaced from is_inverse none = Branch.fresh from is_inverse
emplaced from is_inverse (some b) = b

pub add : VertexId → EdgeLabel → VertexId → Trunk → Bool × Trunk
add from label to t =
    let r = Branch.add label to (emplaced from t.is_inverse (lookup from t.branches)) in
    (r.0, record t { branches = insert from r.1 t.branches })

-- The trunk with a branch put back, or dropped if nothing is left in it.
put_back : VertexId → Branch → Trunk → Trunk
put_back from b t = record t {
  branches = if Branch.is_empty b then erase from t.branches else insert from b t.branches;
}

pub remove : VertexId → EdgeLabel → VertexId → Trunk → Bool × Trunk
unfolding put_back
remove from label to t = elim (lookup from t.branches) [
  | none ↦ (false, t)
  | some b ↦ ((Branch.remove label to b).0, put_back from (Branch.remove label to b).1 t)
]

-- The removed targets, and what is left.
pub remove_all_via_label : VertexId → EdgeLabel → Trunk → List VertexId × Trunk
unfolding put_back
remove_all_via_label from label t = elim (lookup from t.branches) [
  | none ↦ ([], t)
  | some b ↦ (
    (Branch.remove_all_via_label label b).0,
    put_back from (Branch.remove_all_via_label label b).1 t,
  )
]

pub remove_all : VertexId → Trunk → List Link × Trunk
remove_all from t = elim (lookup from t.branches) [
  | none ↦ ([], t)
  | some b ↦ ((Branch.remove_all b).0, record t { branches = erase from t.branches })
]

all_edges : List (VertexId × Branch) → List Edge
all_edges [] = []
all_edges ((from, b) ∷ rest) = Branch.iter_present b ++ all_edges rest

pub iter_present : Trunk → List Edge
unfolding all_edges
iter_present t = all_edges t.branches

pub via_labels : List EdgeLabel → Branch → List Edge
via_labels [] b = []
via_labels (label ∷ rest) b = Branch.iter_present_via_label label b ++ via_labels rest b

all_via_labels : List EdgeLabel → List (VertexId × Branch) → List Edge
unfolding via_labels
all_via_labels labels [] = []
all_via_labels labels ((from, b) ∷ rest) = via_labels labels b ++ all_via_labels labels rest

pub iter_present_via_labels : List EdgeLabel → Trunk → List Edge
unfolding all_via_labels
iter_present_via_labels labels t = all_via_labels labels t.branches

pub get_branch : VertexId → Trunk → Option Branch
get_branch from t = lookup from t.branches

-- The edges of a branch that may be missing: all of them, those with one of the labels, and
-- those to one vertex.
pub edges_of : Option Branch → List Edge
edges_of o = elim o [ none ↦ [] | some b ↦ Branch.iter_present b ]

pub edges_via : List EdgeLabel → Option Branch → List Edge
edges_via labels o = elim o [ none ↦ [] | some b ↦ via_labels labels b ]

pub edges_between : VertexId → List EdgeLabel → Option Branch → List Edge
edges_between to labels o = elim o [
  | none ↦ []
  | some b ↦ Branch.iter_present_to_vertex_via_labels to labels b
]

-- Whether the trunk holds the edge, seen from the vertex that it is stored at.
abbrev pub branch_has : Option Branch → EdgeLabel → VertexId → Bool
branch_has none label to = false
branch_has (some b) label to = Branch.has b label to

pub has : Trunk → VertexId → EdgeLabel → VertexId → Bool
has t from label to = branch_has (lookup from t.branches) label to

-- The branches are a map by their vertex, have the trunk's direction, and none of them is empty.
pub record IsTrunk (t : Trunk) : Type 0 where
  pub is_map : IsMap t.branches
  pub is_branch :
      (v : VertexId) (b : Branch)
      → lookup v t.branches ≡ some b
      → IsBranch b × (b.from ≡ v) × (b.is_inverse ≡ t.is_inverse)
  pub not_empty :
      (v : VertexId) (b : Branch) → lookup v t.branches ≡ some b → Branch.is_empty b ≡ false
