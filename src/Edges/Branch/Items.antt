-- ===== src/Edges/Branch/Items.antt =====
-- What the iterators of a branch return.
use saengra.Prelude.{
  ◌≡◌, refl, ◌∙◌, ap, Bool, true, false, ◌&&◌, Option, none, some, List, [], ◌∷◌, ◌++◌, arith, ite,
  ℕ_discrete, nat_eq, lookup, contains, IsMap, IsSetList, contains-append, if◌then◌else◌,
  Option-cases, inl, inr, Eq,
}
use saengra.Edge.{VertexId, EdgeLabel, Edge, Link, link_eq, edge_eq}
use saengra.Edges.Leaf
use saengra.Edges.Leaf.{Leaf, IsLeaf}
use saengra.Edges.Branch.{
  Branch, IsBranch, has, leaf_has, labelled, items, push_edge, push_edges, iter_present,
  iter_present_via_label, push_if_contains, scan_leaves, scan_labels,
  iter_present_to_vertex_via_labels, remove_all, remove_all_via_label,
}

contains-labelled :
    (label l : EdgeLabel) (v : VertexId) (ts : List VertexId)
    → contains (labelled label ts) (l, v) ≡ ite (ℕ_discrete label l) (contains ts v) false
unfolding contains
contains-labelled label l v [] = ground arith
contains-labelled label l v (t ∷ ts) = ground (arith, contains-labelled label l v ts)

-- Every link of a branch is listed.
contains-items :
    (m : List (EdgeLabel × Leaf)) (l : EdgeLabel) (v : VertexId)
    → IsMap m
    → contains (items m) (l, v) ≡ leaf_has (lookup l m) v
unfolding items lookup contains
contains-items [] l v h = refl
contains-items ((label, leaf) ∷ m) l v h =
    contains-append (l, v) (labelled label (Leaf.targets leaf)) (items m)
    ∙ ground (
      arith,
      contains-labelled label l v (Leaf.targets leaf),
      Leaf.contains-targets leaf v,
      contains-items m l v h.1,
      ap (λ o. leaf_has o v) h.0,
    )

IsSetList-append :
    {A : Type 0} ⦃e : Eq A⦄ (xs ys : List A)
    → IsSetList xs
    → IsSetList ys
    → ((a : A) → contains xs a ≡ true → contains ys a ≡ false)
    → IsSetList (xs ++ ys)
unfolding contains
IsSetList-append [] ys hx hy apart = hy
IsSetList-append (x ∷ xs) ys hx hy apart = (
  contains-append x xs ys ∙ ground (arith, hx.0, apart x),
  IsSetList-append xs ys hx.1 hy (λ a h. ground (arith, apart a)),
)

labelled-IsSetList :
    (label : EdgeLabel) (ts : List VertexId) → IsSetList ts → IsSetList (labelled label ts)
labelled-IsSetList label [] h = tt
labelled-IsSetList label (t ∷ ts) h =
    (contains-labelled label label t ts ∙ ground arith, labelled-IsSetList label ts h.1)

-- No link is listed twice.
items-IsSetList :
    (m : List (EdgeLabel × Leaf))
    → IsMap m
    → ((label : EdgeLabel) (leaf : Leaf) → lookup label m ≡ some leaf → IsLeaf leaf)
    → IsSetList (items m)
unfolding items lookup IsLeaf
items-IsSetList [] h leaf_ok = tt
items-IsSetList ((label, leaf) ∷ m) h leaf_ok =
    IsSetList-append (labelled label (Leaf.targets leaf)) (items m)
      (labelled-IsSetList label (Leaf.targets leaf) (leaf_ok label leaf (ground arith)))
      (items-IsSetList m h.1 (λ l x e. leaf_ok l x (ground arith)))
      (λ (l, v) k. ground (
        arith,
        contains-labelled label l v (Leaf.targets leaf),
        contains-items m l v h.1,
        ap (λ o. leaf_has o v) h.0,
      ))

-- The edges that links of a branch stand for.
abbrev pub end_of : Branch → Edge → VertexId
end_of b e = if b.is_inverse then e.to else e.from

abbrev pub other_end : Branch → Edge → VertexId
other_end b e = if b.is_inverse then e.from else e.to

pub contains-push_edges :
    (b : Branch) (xs : List Link) (e : Edge)
    → contains (push_edges b xs) e
      ≡ ite (ℕ_discrete b.from (end_of b e)) (contains xs (e.label, other_end b e)) false
unfolding push_edges push_edge contains
contains-push_edges b [] e = ground arith
contains-push_edges b ((l, v) ∷ xs) e = ground (arith, contains-push_edges b xs e)

pub contains-iter_present :
    (b : Branch) (e : Edge)
    → IsBranch b
    → contains (iter_present b) e
      ≡ ite (ℕ_discrete b.from (end_of b e)) (has b e.label (other_end b e)) false
unfolding iter_present has
contains-iter_present b e h =
    contains-push_edges b (items b.leaves) e
    ∙ ground (arith, contains-items b.leaves e.label (other_end b e) h.is_map)

contains-leaf_edges :
    (b : Branch) (label : EdgeLabel) (leaf : Leaf) (e : Edge)
    → contains (push_edges b (labelled label (Leaf.targets leaf))) e
      ≡ ite
          (ℕ_discrete b.from (end_of b e))
          (ite (ℕ_discrete label e.label) (Leaf.has leaf (other_end b e)) false)
          false
contains-leaf_edges b label leaf e =
    contains-push_edges b (labelled label (Leaf.targets leaf)) e
    ∙ ground (
      arith,
      contains-labelled label e.label (other_end b e) (Leaf.targets leaf),
      Leaf.contains-targets leaf (other_end b e),
    )

pub contains-iter_present_via_label :
    (b : Branch) (label : EdgeLabel) (e : Edge)
    → contains (iter_present_via_label label b) e
      ≡ ite
          (ℕ_discrete b.from (end_of b e))
          (ite (ℕ_discrete label e.label) (has b e.label (other_end b e)) false)
          false
unfolding iter_present_via_label has contains
contains-iter_present_via_label b label e = elim (Option-cases (lookup label b.leaves)) [
  | inl none_there ↦ ground arith
  | inr (leaf, there) ↦ ground (arith, contains-leaf_edges b label leaf e)
]

-- The edge is between the branch's vertex and the other one.
abbrev pub joins : Branch → VertexId → Edge → Bool
joins b to e =
    ite (ℕ_discrete b.from (end_of b e)) (ite (ℕ_discrete to (other_end b e)) true false) false

contains-push_if :
    (to : VertexId) (b : Branch) (label : EdgeLabel) (leaf : Leaf) (e : Edge)
    → contains (push_if_contains to b label leaf) e
      ≡ (joins b to e && ite (ℕ_discrete label e.label) (Leaf.has leaf to) false)
unfolding push_if_contains push_edge contains
contains-push_if to b label leaf e = ground arith

contains-scan_leaves :
    (to : VertexId) (b : Branch) (m : List (EdgeLabel × Leaf)) (e : Edge)
    → IsMap m
    → contains (scan_leaves to b m) e ≡ (joins b to e && leaf_has (lookup e.label m) to)
unfolding scan_leaves lookup contains
contains-scan_leaves to b [] e h = ground arith
contains-scan_leaves to b ((label, leaf) ∷ m) e h =
    contains-append e (push_if_contains to b label leaf) (scan_leaves to b m)
    ∙ ground (
      arith,
      contains-push_if to b label leaf e,
      contains-scan_leaves to b m e h.1,
      ap (λ o. leaf_has o to) h.0,
    )

contains-scan_label :
    (to : VertexId) (b : Branch) (label : EdgeLabel) (o : Option Leaf) (e : Edge)
    → lookup label b.leaves ≡ o
    → contains (elim o [ none ↦ [] | some leaf ↦ push_if_contains to b label leaf ]) e
      ≡ (joins b to e && ite (ℕ_discrete label e.label) (has b e.label to) false)
unfolding has contains
contains-scan_label to b label none e h = ground arith
contains-scan_label to b label (some leaf) e h = ground (arith, contains-push_if to b label leaf e)

contains-scan_labels :
    (to : VertexId) (b : Branch) (ls : List EdgeLabel) (e : Edge)
    → contains (scan_labels to b ls) e ≡ (joins b to e && (contains ls e.label && has b e.label to))
unfolding scan_labels contains
contains-scan_labels to b [] e = ground arith
contains-scan_labels to b (label ∷ ls) e =
    contains-append e _ (scan_labels to b ls)
    ∙ ground (
      arith,
      contains-scan_label to b label (lookup label b.leaves) e refl,
      contains-scan_labels to b ls e,
    )

-- No labels stand for any label.
abbrev pub allows : List EdgeLabel → EdgeLabel → Bool
allows [] l = true
allows (x ∷ xs) l = contains (x ∷ xs) l

pub contains-between :
    (to : VertexId) (ls : List EdgeLabel) (b : Branch) (e : Edge)
    → IsBranch b
    → contains (iter_present_to_vertex_via_labels to ls b) e
      ≡ (joins b to e && (allows ls e.label && has b e.label to))
unfolding iter_present_to_vertex_via_labels has
contains-between to [] b e h = contains-scan_leaves to b b.leaves e h.is_map
contains-between to (l ∷ ls) b e h = contains-scan_labels to b (l ∷ ls) e

-- What the bulk removals return.
pub contains-remove_all :
    (b : Branch) (l : EdgeLabel) (v : VertexId)
    → IsBranch b
    → contains (remove_all b).0 (l, v) ≡ has b l v
unfolding remove_all has
contains-remove_all b l v h = contains-items b.leaves l v h.is_map

pub remove_all-IsSetList : (b : Branch) → IsBranch b → IsSetList (remove_all b).0
unfolding remove_all
remove_all-IsSetList b h = items-IsSetList b.leaves h.is_map h.is_leaf

pub contains-remove_all_via_label :
    (b : Branch) (l : EdgeLabel) (v : VertexId)
    → contains (remove_all_via_label l b).0 v ≡ has b l v
unfolding remove_all_via_label has contains
contains-remove_all_via_label b l v = elim (Option-cases (lookup l b.leaves)) [
  | inl e ↦ ground arith
  | inr (leaf, e) ↦ ground (arith, Leaf.contains-targets leaf v)
]

pub remove_all_via_label-IsSetList :
    (b : Branch) (l : EdgeLabel) → IsBranch b → IsSetList (remove_all_via_label l b).0
unfolding remove_all_via_label IsLeaf
remove_all_via_label-IsSetList b l h = elim (Option-cases (lookup l b.leaves)) [
  | inl e ↦ rw (e, remove_all_via_label) tt
  | inr (leaf, e) ↦ rw (e, remove_all_via_label) (h.is_leaf l leaf e)
]

pub contains_nil : {A : Type 0} ⦃eq : Eq A⦄ (e : A) → contains [] e ≡ false
unfolding contains
contains_nil e = refl
