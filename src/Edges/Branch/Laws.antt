-- ===== src/Edges/Branch/Laws.antt =====
-- Adding to a branch and removing from it.
use saengra.Prelude.{
  ◌≡◌, refl, Bool, true, false, not, Option, none, some, List, [], ◌∷◌, arith, ite, ℕ_discrete,
  nat_eq, lookup, insert, IsMap-insert, IsMap-erase, lookup-insert, lookup-erase, Option-cases, inl,
  inr,
}
use saengra.Edge.{VertexId, EdgeLabel}
use saengra.Edges.Leaf
use saengra.Edges.Leaf.{Leaf, IsLeaf}
use saengra.Edges.Branch.{
  Branch, IsBranch, fresh, add, remove, put_back, remove_all_via_label, has, leaf_has, emplaced,
  is_empty, no_leaves,
}

module _ (b : Branch) (label : EdgeLabel) (to : VertexId) where
  has-emplaced : (o : Option Leaf) (v : VertexId) → Leaf.has (emplaced o) v ≡ leaf_has o v
  has-emplaced none v = Leaf.has-fresh v
  has-emplaced (some leaf) v = refl

  pub has-add :
      (l : EdgeLabel) (v : VertexId)
      → has (add label to b).1 l v
        ≡ ite (ℕ_discrete label l) (ite (ℕ_discrete to v) true (has b l v)) (has b l v)
  unfolding has add
  has-add l v = rw lookup-insert (
      ground (
        arith,
        has-emplaced (lookup label b.leaves) v,
        Leaf.has-add (emplaced (lookup label b.leaves)) to v,
      ))

  pub added-add : (add label to b).0 ≡ not (has b label to)
  unfolding has add
  added-add = ground (
    arith,
    has-emplaced (lookup label b.leaves) to,
    Leaf.added-add (emplaced (lookup label b.leaves)) to,
  )

  pub has-remove :
      (l : EdgeLabel) (v : VertexId)
      → has (remove label to b).1 l v
        ≡ ite (ℕ_discrete label l) (ite (ℕ_discrete to v) false (has b l v)) (has b l v)
  unfolding has remove put_back
  has-remove l v = elim (Option-cases (lookup label b.leaves)) [
    | inl e ↦ ground arith
    | inr (leaf, e) ↦
        let leaf' = (Leaf.remove to leaf).1 in
        ground (
          arith,
          lookup-insert label l leaf' b.leaves,
          lookup-erase label l b.leaves,
          Leaf.has-remove leaf to v,
          Leaf.has-is_empty leaf' v,
        )
  ]

  pub removed-remove : (remove label to b).0 ≡ has b label to
  unfolding has remove
  removed-remove = elim (Option-cases (lookup label b.leaves)) [
    | inl e ↦ ground arith
    | inr (leaf, e) ↦ ground (arith, Leaf.removed-remove leaf to)
  ]

pub fresh-IsBranch : (v : VertexId) (inverse : Bool) → IsBranch (fresh v inverse)
unfolding fresh lookup
fresh-IsBranch v inverse = record {
  is_map = tt;
  is_leaf = λ label leaf e. cc;
  not_empty = λ label leaf e. cc;
}

emplaced-IsLeaf :
    (b : Branch) (label : EdgeLabel)
    → IsBranch b
    → (o : Option Leaf) → lookup label b.leaves ≡ o
    → IsLeaf (emplaced o)
emplaced-IsLeaf b label h none e = Leaf.IsLeaf-fresh
emplaced-IsLeaf b label h (some leaf) e = h.is_leaf label leaf e

pub add-IsBranch :
    (b : Branch) (label : EdgeLabel) (to : VertexId) → IsBranch b → IsBranch (add label to b).1
unfolding add
add-IsBranch b label to h =
    let old = emplaced (lookup label b.leaves) in
    let leaf' = (Leaf.add to old).1 in
    let ok = Leaf.IsLeaf-add old to (emplaced-IsLeaf b label h (lookup label b.leaves) refl) in
    record {
      is_map = IsMap-insert label leaf' b.leaves h.is_map;
      is_leaf =
          λ l leaf e. ground (arith, lookup-insert label l leaf' b.leaves, h.is_leaf l leaf, ok);
      not_empty = λ l leaf e. ground (
        arith,
        lookup-insert label l leaf' b.leaves,
        h.not_empty l leaf,
        Leaf.is_empty-add old to,
      );
    }

-- A leaf put back, empty or not.
put_back-IsBranch :
    (b : Branch) (label : EdgeLabel) (leaf' : Leaf)
    → IsLeaf leaf'
    → IsBranch b
    → IsBranch (put_back label leaf' b)
unfolding put_back
put_back-IsBranch b label leaf' ok h = record {
  is_map =
      ground
        (arith, IsMap-insert label leaf' b.leaves h.is_map, IsMap-erase label b.leaves h.is_map);
  is_leaf = λ l leaf e. ground (
    arith,
    lookup-insert label l leaf' b.leaves,
    lookup-erase label l b.leaves,
    h.is_leaf l leaf,
    ok,
  );
  not_empty = λ l leaf e. ground (
    arith,
    lookup-insert label l leaf' b.leaves,
    lookup-erase label l b.leaves,
    h.not_empty l leaf,
  );
}

pub remove-IsBranch :
    (b : Branch) (label : EdgeLabel) (to : VertexId) → IsBranch b → IsBranch (remove label to b).1
unfolding remove
remove-IsBranch b label to h = elim (Option-cases (lookup label b.leaves)) [
  | inl e ↦ rw (e, remove) h
  | inr (leaf, e) ↦
      rw (e, remove)
        (put_back-IsBranch b label (Leaf.remove to leaf).1
          (Leaf.IsLeaf-remove leaf to (h.is_leaf label leaf e)) h)
]

pub remove_all_via_label-IsBranch :
    (b : Branch) (label : EdgeLabel) → IsBranch b → IsBranch (remove_all_via_label label b).1
unfolding remove_all_via_label
remove_all_via_label-IsBranch b label h = elim (Option-cases (lookup label b.leaves)) [
  | inl e ↦ rw (e, remove_all_via_label) h
  | inr (leaf', e) ↦
      rw (e, remove_all_via_label)
        (record {
          is_map = IsMap-erase label b.leaves h.is_map;
          is_leaf = λ l leaf j. ground (arith, lookup-erase label l b.leaves, h.is_leaf l leaf);
          not_empty = λ l leaf j. ground (arith, lookup-erase label l b.leaves, h.not_empty l leaf);
        })
]

pub has-remove_all_via_label :
    (b : Branch) (label l : EdgeLabel) (v : VertexId)
    → has (remove_all_via_label label b).1 l v ≡ ite (ℕ_discrete label l) false (has b l v)
unfolding has remove_all_via_label
has-remove_all_via_label b label l v = ground (arith, lookup-erase label l b.leaves)

-- The direction of a branch stays what it is.
pub add_from :
    (b : Branch) (label : EdgeLabel) (to : VertexId)
    → ((add label to b).1.from ≡ b.from) × ((add label to b).1.is_inverse ≡ b.is_inverse)
unfolding add
add_from b label to = (refl, refl)

pub remove_from :
    (b : Branch) (label : EdgeLabel) (to : VertexId)
    → ((remove label to b).1.from ≡ b.from) × ((remove label to b).1.is_inverse ≡ b.is_inverse)
unfolding remove put_back
remove_from b label to = ground arith

pub remove_all_via_label_from :
    (b : Branch) (label : EdgeLabel)
    → ((remove_all_via_label label b).1.from ≡ b.from)
      × ((remove_all_via_label label b).1.is_inverse ≡ b.is_inverse)
unfolding remove_all_via_label
remove_all_via_label_from b label = ground arith

pub has-fresh :
    (v : VertexId) (inverse : Bool) (l : EdgeLabel) (to : VertexId)
    → has (fresh v inverse) l to ≡ false
unfolding has fresh lookup
has-fresh v inverse l to = refl

pub has-is_empty :
    (b : Branch) (l : EdgeLabel) (v : VertexId) → is_empty b ≡ true → has b l v ≡ false
unfolding has is_empty lookup
has-is_empty b l v h = ground arith

no_leaves-insert :
    (label : EdgeLabel) (leaf : Leaf) (m : List (EdgeLabel × Leaf))
    → no_leaves (insert label leaf m) ≡ false
unfolding insert
no_leaves-insert label leaf [] = refl
no_leaves-insert label leaf ((l, x) ∷ m) = ground arith

pub is_empty-add :
    (b : Branch) (label : EdgeLabel) (to : VertexId) → is_empty (add label to b).1 ≡ false
unfolding is_empty add
is_empty-add b label to = no_leaves-insert label _ b.leaves

pub fresh_from : (v : VertexId) (inverse : Bool) → (fresh v inverse).from ≡ v
unfolding fresh
fresh_from v inverse = refl

pub fresh_is_inverse : (v : VertexId) (inverse : Bool) → (fresh v inverse).is_inverse ≡ inverse
unfolding fresh
fresh_is_inverse v inverse = refl
