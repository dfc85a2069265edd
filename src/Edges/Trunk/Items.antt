-- ===== src/Edges/Trunk/Items.antt =====
-- What the iterators and the bulk removals of a trunk return.
use saengra.Prelude.{
  ◌≡◌, refl, ◌∙◌, ap, Bool, false, ◌&&◌, Option, none, some, List, [], ◌∷◌, arith, ite, ℕ_discrete,
  nat_eq, lookup, contains, IsMap, IsSetList, contains-append, if◌then◌else◌, Option-cases, inl,
  inr,
}
use saengra.Edge.{VertexId, EdgeLabel, Edge, link_eq, edge_eq}
use saengra.Edges.Branch
use saengra.Edges.Branch.{Branch, IsBranch}
use saengra.Edges.Branch.Items as BranchItems
use saengra.Edges.Trunk.{
  Trunk, IsTrunk, remove_all_via_label, remove_all, has, branch_has, iter_present, all_edges,
  via_labels, all_via_labels, iter_present_via_labels, edges_of, edges_via, edges_between,
  get_branch,
}

-- The vertex that the trunk stores an edge at, and the other one.
abbrev pub end_of : Bool → Edge → VertexId
end_of inverse e = if inverse then e.to else e.from

abbrev pub other_end : Bool → Edge → VertexId
other_end inverse e = if inverse then e.from else e.to

abbrev pub holds : Trunk → Edge → Bool
holds t e = has t (end_of t.is_inverse e) e.label (other_end t.is_inverse e)

-- Branches with the right vertex and direction, as `IsTrunk` has them.
abbrev Fits : Bool → List (VertexId × Branch) → Type 0
Fits inverse m =
    (v : VertexId) (b : Branch)
    → lookup v m ≡ some b
    → IsBranch b × (b.from ≡ v) × (b.is_inverse ≡ inverse)

Fits-head :
    (inverse : Bool) (v : VertexId) (b : Branch) (m : List (VertexId × Branch))
    → Fits inverse ((v, b) ∷ m)
    → IsBranch b × (b.from ≡ v) × (b.is_inverse ≡ inverse)
unfolding lookup
Fits-head inverse v b m h = h v b (ground arith)

Fits-tail :
    (inverse : Bool) (v : VertexId) (b : Branch) (m : List (VertexId × Branch))
    → IsMap ((v, b) ∷ m)
    → Fits inverse ((v, b) ∷ m)
    → Fits inverse m
unfolding lookup
Fits-tail inverse v b m d h w c e = h w c (ground arith)

contains-all_edges :
    (inverse : Bool) (m : List (VertexId × Branch)) (e : Edge)
    → IsMap m
    → Fits inverse m
    → contains (all_edges m) e
      ≡ branch_has (lookup (end_of inverse e) m) e.label (other_end inverse e)
unfolding all_edges lookup contains
contains-all_edges inverse [] e d h = refl
contains-all_edges inverse ((v, b) ∷ m) e d h =
    let ok = Fits-head inverse v b m h in
    contains-append e (Branch.iter_present b) (all_edges m)
    ∙ ground (
      arith,
      BranchItems.contains-iter_present b e ok.0,
      contains-all_edges inverse m e d.1 (Fits-tail inverse v b m d h),
      ap (λ o. branch_has o e.label (other_end inverse e)) d.0,
    )

pub contains-iter_present :
    (t : Trunk) (e : Edge) → IsTrunk t → contains (iter_present t) e ≡ holds t e
unfolding iter_present has
contains-iter_present t e h = contains-all_edges t.is_inverse t.branches e h.is_map h.is_branch

-- The edges at one vertex, with any label or with one of the given ones.
contains-branch :
    (t : Trunk) (v : VertexId) (o : Option Branch) (e : Edge)
    → IsTrunk t
    → lookup v t.branches ≡ o
    → contains (edges_of o) e ≡ ite (ℕ_discrete v (end_of t.is_inverse e)) (holds t e) false
unfolding has contains edges_of
contains-branch t v none e h found = ground arith
contains-branch t v (some b) e h found =
    ground (arith, h.is_branch v b, BranchItems.contains-iter_present b e)

contains-via_labels :
    (labels : List EdgeLabel) (b : Branch) (e : Edge)
    → contains (via_labels labels b) e
      ≡ ite
          (ℕ_discrete b.from (BranchItems.end_of b e))
          (contains labels e.label && Branch.has b e.label (BranchItems.other_end b e))
          false
unfolding via_labels contains
contains-via_labels [] b e = ground arith
contains-via_labels (l ∷ labels) b e =
    contains-append e (Branch.iter_present_via_label l b) (via_labels labels b)
    ∙ ground
        (arith, BranchItems.contains-iter_present_via_label b l e, contains-via_labels labels b e)

contains-branch_via_labels :
    (t : Trunk) (v : VertexId) (labels : List EdgeLabel) (o : Option Branch) (e : Edge)
    → IsTrunk t
    → lookup v t.branches ≡ o
    → contains (edges_via labels o) e
      ≡ ite (ℕ_discrete v (end_of t.is_inverse e)) (contains labels e.label && holds t e) false
unfolding has contains edges_via
contains-branch_via_labels t v labels none e h found = ground arith
contains-branch_via_labels t v labels (some b) e h found =
    ground (arith, h.is_branch v b, contains-via_labels labels b e)

contains-branch_between :
    (t : Trunk) (v to : VertexId) (labels : List EdgeLabel) (o : Option Branch) (e : Edge)
    → IsTrunk t
    → lookup v t.branches ≡ o
    → contains (edges_between to labels o) e
      ≡ ite
          (ℕ_discrete v (end_of t.is_inverse e))
          (ite
            (ℕ_discrete to (other_end t.is_inverse e))
            (BranchItems.allows labels e.label && holds t e)
            false)
          false
unfolding has contains edges_between
contains-branch_between t v to labels none e h found = ground arith
contains-branch_between t v to labels (some b) e h found =
    ground (arith, h.is_branch v b, BranchItems.contains-between to labels b e)

contains-all_via_labels :
    (inverse : Bool) (labels : List EdgeLabel) (m : List (VertexId × Branch)) (e : Edge)
    → IsMap m
    → Fits inverse m
    → contains (all_via_labels labels m) e ≡ (
        contains labels e.label
        && branch_has (lookup (end_of inverse e) m) e.label (other_end inverse e))
unfolding all_via_labels lookup
contains-all_via_labels inverse labels [] e d h = ground (arith, BranchItems.contains_nil e)
contains-all_via_labels inverse labels ((v, b) ∷ m) e d h =
    let ok = Fits-head inverse v b m h in
    contains-append e (via_labels labels b) (all_via_labels labels m)
    ∙ ground (
      arith,
      contains-via_labels labels b e,
      ok,
      contains-all_via_labels inverse labels m e d.1 (Fits-tail inverse v b m d h),
      ap (λ o. branch_has o e.label (other_end inverse e)) d.0,
    )

pub contains-iter_present_via_labels :
    (t : Trunk) (labels : List EdgeLabel) (e : Edge)
    → IsTrunk t
    → contains (iter_present_via_labels labels t) e ≡ (contains labels e.label && holds t e)
unfolding iter_present_via_labels has
contains-iter_present_via_labels t labels e h =
    contains-all_via_labels t.is_inverse labels t.branches e h.is_map h.is_branch

-- A bulk removal returns exactly the links that were there, each of them once.
pub contains-remove_all :
    (t : Trunk) (v : VertexId) (l : EdgeLabel) (w : VertexId)
    → IsTrunk t
    → contains (remove_all v t).0 (l, w) ≡ has t v l w
unfolding remove_all has contains
contains-remove_all t v l w h = elim (Option-cases (lookup v t.branches)) [
  | inl e ↦ ground arith
  | inr (b, e) ↦ ground (arith, h.is_branch v b, BranchItems.contains-remove_all b l w)
]

pub remove_all-IsSetList : (t : Trunk) (v : VertexId) → IsTrunk t → IsSetList (remove_all v t).0
unfolding remove_all
remove_all-IsSetList t v h = elim (Option-cases (lookup v t.branches)) [
  | inl e ↦ rw (e, remove_all) tt
  | inr (b, e) ↦ rw (e, remove_all) (BranchItems.remove_all-IsSetList b (h.is_branch v b e).0)
]

pub contains-remove_all_via_label :
    (t : Trunk) (v : VertexId) (l : EdgeLabel) (w : VertexId)
    → contains (remove_all_via_label v l t).0 w ≡ has t v l w
unfolding remove_all_via_label has contains
contains-remove_all_via_label t v l w = elim (Option-cases (lookup v t.branches)) [
  | inl e ↦ ground arith
  | inr (b, e) ↦ ground (arith, BranchItems.contains-remove_all_via_label b l w)
]

pub remove_all_via_label-IsSetList :
    (t : Trunk) (v : VertexId) (l : EdgeLabel)
    → IsTrunk t
    → IsSetList (remove_all_via_label v l t).0
unfolding remove_all_via_label
remove_all_via_label-IsSetList t v l h = elim (Option-cases (lookup v t.branches)) [
  | inl e ↦ rw (e, remove_all_via_label) tt
  | inr (b, e) ↦
      rw (e, remove_all_via_label)
        (BranchItems.remove_all_via_label-IsSetList b l (h.is_branch v b e).0)
]

module _ (t : Trunk) (v : VertexId) (e : Edge) (h : IsTrunk t) where
  pub contains-edges_of :
      contains (edges_of (get_branch v t)) e
      ≡ ite (ℕ_discrete v (end_of t.is_inverse e)) (holds t e) false
  unfolding get_branch
  contains-edges_of = contains-branch t v (lookup v t.branches) e h refl

  pub contains-edges_via :
      (labels : List EdgeLabel)
      → contains (edges_via labels (get_branch v t)) e
        ≡ ite (ℕ_discrete v (end_of t.is_inverse e)) (contains labels e.label && holds t e) false
  unfolding get_branch
  contains-edges_via labels = contains-branch_via_labels t v labels (lookup v t.branches) e h refl

  pub contains-edges_between :
      (to : VertexId) (labels : List EdgeLabel)
      → contains (edges_between to labels (get_branch v t)) e
        ≡ ite
            (ℕ_discrete v (end_of t.is_inverse e))
            (ite
              (ℕ_discrete to (other_end t.is_inverse e))
              (BranchItems.allows labels e.label && holds t e)
              false)
            false
  unfolding get_branch
  contains-edges_between to labels =
      contains-branch_between t v to labels (lookup v t.branches) e h refl
