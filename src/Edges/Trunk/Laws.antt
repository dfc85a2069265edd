-- ===== src/Edges/Trunk/Laws.antt =====
-- Adding to a trunk and removing from it.
use saengra.Prelude.{
  ◌≡◌, refl, Bool, true, false, not, Option, none, some, arith, ite, ℕ_discrete, nat_eq, lookup,
  IsMap-insert, IsMap-erase, lookup-insert, lookup-erase, Option-cases, inl, inr,
}
use saengra.Edge.{VertexId, EdgeLabel}
use saengra.Edges.Branch
use saengra.Edges.Branch.{Branch, IsBranch}
use saengra.Edges.Branch.Laws as BranchLaws
use saengra.Edges.Trunk.{
  Trunk, IsTrunk, empty, add, remove, put_back, remove_all_via_label, remove_all, has, branch_has,
  emplaced,
}

has-emplaced :
    (v : VertexId) (inverse : Bool) (o : Option Branch) (l : EdgeLabel) (to : VertexId)
    → Branch.has (emplaced v inverse o) l to ≡ branch_has o l to
has-emplaced v inverse none l to = BranchLaws.has-fresh v inverse l to
has-emplaced v inverse (some b) l to = refl

-- Three keys that all agree.
abbrev pub at {ℓ} :
    {A : Type ℓ} → VertexId → EdgeLabel → VertexId → VertexId → EdgeLabel → VertexId → A → A → A
at from label to f l v x y =
    ite (ℕ_discrete from f) (ite (ℕ_discrete label l) (ite (ℕ_discrete to v) x y) y) y

module _ (t : Trunk) (from : VertexId) (label : EdgeLabel) (to : VertexId) where
  pub has-add :
      (f : VertexId) (l : EdgeLabel) (v : VertexId)
      → has (add from label to t).1 f l v ≡ at from label to f l v true (has t f l v)
  unfolding has add
  has-add f l v =
      let old = emplaced from t.is_inverse (lookup from t.branches) in
      ground (
        arith,
        lookup-insert from f (Branch.add label to old).1 t.branches,
        has-emplaced from t.is_inverse (lookup from t.branches) l v,
        BranchLaws.has-add old label to l v,
      )

  pub added-add : (add from label to t).0 ≡ not (has t from label to)
  unfolding has add
  added-add =
      let old = emplaced from t.is_inverse (lookup from t.branches) in
      ground (
        arith,
        has-emplaced from t.is_inverse (lookup from t.branches) label to,
        BranchLaws.added-add old label to,
      )

  pub has-remove :
      (f : VertexId) (l : EdgeLabel) (v : VertexId)
      → has (remove from label to t).1 f l v ≡ at from label to f l v false (has t f l v)
  unfolding has remove put_back
  has-remove f l v = elim (Option-cases (lookup from t.branches)) [
    | inl e ↦ ground arith
    | inr (b, e) ↦
        let b' = (Branch.remove label to b).1 in
        ground (
          arith,
          lookup-insert from f b' t.branches,
          lookup-erase from f t.branches,
          BranchLaws.has-remove b label to l v,
          BranchLaws.has-is_empty b' l v,
        )
  ]

  pub removed-remove : (remove from label to t).0 ≡ has t from label to
  unfolding has remove put_back
  removed-remove = elim (Option-cases (lookup from t.branches)) [
    | inl e ↦ ground arith
    | inr (b, e) ↦ ground (arith, BranchLaws.removed-remove b label to)
  ]

  emplaced-ok :
      IsTrunk t
      → (o : Option Branch) → lookup from t.branches ≡ o
      → IsBranch (emplaced from t.is_inverse o)
        × ((emplaced from t.is_inverse o).from ≡ from)
        × ((emplaced from t.is_inverse o).is_inverse ≡ t.is_inverse)
  emplaced-ok h none e = (
    BranchLaws.fresh-IsBranch from t.is_inverse,
    BranchLaws.fresh_from from t.is_inverse,
    BranchLaws.fresh_is_inverse from t.is_inverse,
  )
  emplaced-ok h (some b) e = h.is_branch from b e

  pub add-IsTrunk : IsTrunk t → IsTrunk (add from label to t).1
  unfolding add
  add-IsTrunk h =
      let old = emplaced from t.is_inverse (lookup from t.branches) in
      let b' = (Branch.add label to old).1 in
      let ok = emplaced-ok h (lookup from t.branches) refl in
      record {
        is_map = IsMap-insert from b' t.branches h.is_map;
        is_branch = λ v b e. ground (
          arith,
          lookup-insert from v b' t.branches,
          h.is_branch v b,
          BranchLaws.add-IsBranch old label to ok.0,
          BranchLaws.add_from old label to,
        );
        not_empty = λ v b e. ground (
          arith,
          lookup-insert from v b' t.branches,
          h.not_empty v b,
          BranchLaws.is_empty-add old label to,
        );
      }

module _ (t : Trunk) (from : VertexId) where
  put_back-IsTrunk :
      (b' : Branch)
      → IsBranch b' × (b'.from ≡ from) × (b'.is_inverse ≡ t.is_inverse)
      → IsTrunk t
      → IsTrunk (put_back from b' t)
  unfolding put_back
  put_back-IsTrunk b' ok h = record {
    is_map =
        ground
          (arith, IsMap-insert from b' t.branches h.is_map, IsMap-erase from t.branches h.is_map);
    is_branch = λ v b e. ground (
      arith,
      lookup-insert from v b' t.branches,
      lookup-erase from v t.branches,
      h.is_branch v b,
      ok,
    );
    not_empty = λ v b e. ground (
      arith,
      lookup-insert from v b' t.branches,
      lookup-erase from v t.branches,
      h.not_empty v b,
    );
  }

  pub remove-IsTrunk :
      (label : EdgeLabel) (to : VertexId) → IsTrunk t → IsTrunk (remove from label to t).1
  unfolding remove
  remove-IsTrunk label to h = elim (Option-cases (lookup from t.branches)) [
    | inl e ↦ rw (e, remove) h
    | inr (b, e) ↦
        let ok = h.is_branch from b e in
        rw (e, remove)
          (put_back-IsTrunk (Branch.remove label to b).1
            (
              BranchLaws.remove-IsBranch b label to ok.0,
              ground (arith, BranchLaws.remove_from b label to, ok),
              ground (arith, BranchLaws.remove_from b label to, ok),
            )
            h)
  ]

  pub remove_all_via_label-IsTrunk :
      (label : EdgeLabel) → IsTrunk t → IsTrunk (remove_all_via_label from label t).1
  unfolding remove_all_via_label
  remove_all_via_label-IsTrunk label h = elim (Option-cases (lookup from t.branches)) [
    | inl e ↦ rw (e, remove_all_via_label) h
    | inr (b, e) ↦
        let ok = h.is_branch from b e in
        rw (e, remove_all_via_label)
          (put_back-IsTrunk (Branch.remove_all_via_label label b).1
            (
              BranchLaws.remove_all_via_label-IsBranch b label ok.0,
              ground (arith, BranchLaws.remove_all_via_label_from b label, ok),
              ground (arith, BranchLaws.remove_all_via_label_from b label, ok),
            )
            h)
  ]

  pub remove_all-IsTrunk : IsTrunk t → IsTrunk (remove_all from t).1
  unfolding remove_all
  remove_all-IsTrunk h = elim (Option-cases (lookup from t.branches)) [
    | inl e ↦ rw (e, remove_all) h
    | inr (b', e) ↦
        rw (e, remove_all)
          (record {
            is_map = IsMap-erase from t.branches h.is_map;
            is_branch = λ v b j. ground (arith, lookup-erase from v t.branches, h.is_branch v b);
            not_empty = λ v b j. ground (arith, lookup-erase from v t.branches, h.not_empty v b);
          })
  ]

  pub has-remove_all_via_label :
      (label : EdgeLabel) (f : VertexId) (l : EdgeLabel) (v : VertexId)
      → has (remove_all_via_label from label t).1 f l v
        ≡ ite (ℕ_discrete from f) (ite (ℕ_discrete label l) false (has t f l v)) (has t f l v)
  unfolding has remove_all_via_label put_back
  has-remove_all_via_label label f l v = elim (Option-cases (lookup from t.branches)) [
    | inl e ↦ ground arith
    | inr (b, e) ↦
        let b' = (Branch.remove_all_via_label label b).1 in
        ground (
          arith,
          lookup-insert from f b' t.branches,
          lookup-erase from f t.branches,
          BranchLaws.has-remove_all_via_label b label l v,
          BranchLaws.has-is_empty b' l v,
        )
  ]

  pub has-remove_all :
      (f : VertexId) (l : EdgeLabel) (v : VertexId)
      → has (remove_all from t).1 f l v ≡ ite (ℕ_discrete from f) false (has t f l v)
  unfolding has remove_all
  has-remove_all f l v = ground (arith, lookup-erase from f t.branches)

-- The direction of a trunk stays what it is.
pub add_is_inverse :
    (t : Trunk) (from : VertexId) (label : EdgeLabel) (to : VertexId)
    → (add from label to t).1.is_inverse ≡ t.is_inverse
unfolding add
add_is_inverse t from label to = refl

pub remove_is_inverse :
    (t : Trunk) (from : VertexId) (label : EdgeLabel) (to : VertexId)
    → (remove from label to t).1.is_inverse ≡ t.is_inverse
unfolding remove put_back
remove_is_inverse t from label to = ground arith

pub remove_all_via_label_is_inverse :
    (t : Trunk) (from : VertexId) (label : EdgeLabel)
    → (remove_all_via_label from label t).1.is_inverse ≡ t.is_inverse
unfolding remove_all_via_label put_back
remove_all_via_label_is_inverse t from label = ground arith

pub remove_all_is_inverse :
    (t : Trunk) (from : VertexId) → (remove_all from t).1.is_inverse ≡ t.is_inverse
unfolding remove_all
remove_all_is_inverse t from = ground arith

pub empty-IsTrunk : (inverse : Bool) → IsTrunk (empty inverse)
unfolding empty lookup
empty-IsTrunk inverse = record { is_map = tt; is_branch = λ v b e. cc; not_empty = λ v b e. cc }

pub empty_is_inverse : (inverse : Bool) → (empty inverse).is_inverse ≡ inverse
unfolding empty
empty_is_inverse inverse = refl

pub has-empty :
    (inverse : Bool) (f : VertexId) (l : EdgeLabel) (v : VertexId)
    → has (empty inverse) f l v ≡ false
unfolding has empty lookup
has-empty inverse f l v = refl
