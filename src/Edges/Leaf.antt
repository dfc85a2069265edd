-- ===== src/Edges/Leaf.antt =====
-- Leaves (`UniLeaf` and `MultiLeaf` of saengra-server/src/edges_container.cpp): the targets of the
-- edges with one label at one vertex.
use saengra.Prelude.{
  ◌≡◌, refl, Bool, true, false, not, Option, none, some, List, [], ◌∷◌, arith, ite, ℕ_discrete,
  nat_eq, contains, set_insert, set_erase, contains-insert, contains-erase, IsSetList,
  IsSetList-insert, IsSetList-erase,
}
use saengra.Edge.{VertexId}

pub data Leaf : Type 0 where
  uni : Option VertexId → Leaf
  multi : List VertexId → Leaf

-- The flag says whether the edge was actually added. A second target makes a `MultiLeaf`.
pub add : VertexId → Leaf → Bool × Leaf
add to (uni none) = (true, uni (some to))
add to (uni (some x)) = ite (ℕ_discrete x to) (false, uni (some x)) (true, multi (x ∷ to ∷ []))
add to (multi xs) = (not (contains xs to), multi (set_insert to xs))

pub remove : VertexId → Leaf → Bool × Leaf
remove to (uni none) = (false, uni none)
remove to (uni (some x)) = ite (ℕ_discrete x to) (true, uni none) (false, uni (some x))
remove to (multi xs) = (contains xs to, multi (set_erase to xs))

pub is_empty : Leaf → Bool
is_empty (uni none) = true
is_empty (uni (some x)) = false
is_empty (multi []) = true
is_empty (multi (x ∷ xs)) = false

-- `for_each`: what a leaf hands to the caller.
unfoldable pub targets : Leaf → List VertexId
targets (uni none) = []
targets (uni (some x)) = x ∷ []
targets (multi xs) = xs

pub has : Leaf → VertexId → Bool
has (uni none) to = false
has (uni (some x)) to = ite (ℕ_discrete x to) true false
has (multi xs) to = contains xs to

-- The hash set of a `MultiLeaf` holds no target twice.
unfoldable pub IsLeaf : Leaf → Type 0
IsLeaf leaf = IsSetList (targets leaf)

pub has-add :
    (leaf : Leaf) (to v : VertexId)
    → has (add to leaf).1 v ≡ ite (ℕ_discrete to v) true (has leaf v)
unfolding add has contains
has-add (uni none) to v = refl
has-add (uni (some x)) to v = ground arith
has-add (multi xs) to v = contains-insert to v xs

pub added-add : (leaf : Leaf) (to : VertexId) → (add to leaf).0 ≡ not (has leaf to)
unfolding add has
added-add (uni none) to = refl
added-add (uni (some x)) to = ground arith
added-add (multi xs) to = refl

pub IsLeaf-add : (leaf : Leaf) (to : VertexId) → IsLeaf leaf → IsLeaf (add to leaf).1
unfolding IsLeaf targets add contains
IsLeaf-add (uni none) to h = (refl, tt)
IsLeaf-add (uni (some x)) to h = ground arith
IsLeaf-add (multi xs) to h = IsSetList-insert to xs h

pub is_empty-add : (leaf : Leaf) (to : VertexId) → is_empty (add to leaf).1 ≡ false
unfolding is_empty add set_insert contains
is_empty-add (uni none) to = refl
is_empty-add (uni (some x)) to = ground arith
is_empty-add (multi []) to = refl
is_empty-add (multi (x ∷ xs)) to = ground arith

pub has-remove :
    (leaf : Leaf) (to v : VertexId)
    → has (remove to leaf).1 v ≡ ite (ℕ_discrete to v) false (has leaf v)
unfolding remove has
has-remove (uni none) to v = ground arith
has-remove (uni (some x)) to v = ground arith
has-remove (multi xs) to v = contains-erase to v xs

pub removed-remove : (leaf : Leaf) (to : VertexId) → (remove to leaf).0 ≡ has leaf to
unfolding remove has
removed-remove (uni none) to = refl
removed-remove (uni (some x)) to = ground arith
removed-remove (multi xs) to = refl

pub IsLeaf-remove : (leaf : Leaf) (to : VertexId) → IsLeaf leaf → IsLeaf (remove to leaf).1
unfolding IsLeaf targets remove
IsLeaf-remove (uni none) to h = tt
IsLeaf-remove (uni (some x)) to h = ground arith
IsLeaf-remove (multi xs) to h = IsSetList-erase to xs h

pub contains-targets : (leaf : Leaf) (v : VertexId) → contains (targets leaf) v ≡ has leaf v
unfolding targets has contains
contains-targets (uni none) v = refl
contains-targets (uni (some x)) v = refl
contains-targets (multi xs) v = refl

pub has-is_empty : (leaf : Leaf) (v : VertexId) → is_empty leaf ≡ true → has leaf v ≡ false
unfolding has is_empty contains
has-is_empty (uni none) v h = refl
has-is_empty (uni (some x)) v h = ground arith
has-is_empty (multi []) v h = refl
has-is_empty (multi (x ∷ xs)) v h = ground arith

pub has-fresh : (v : VertexId) → has (uni none) v ≡ false
unfolding has
has-fresh v = refl

pub IsLeaf-fresh : IsLeaf (uni none)
unfolding IsLeaf targets
IsLeaf-fresh = tt
