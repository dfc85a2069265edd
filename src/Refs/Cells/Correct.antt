-- ===== src/Refs/Cells/Correct.antt =====
-- The cells of `arrange` of saengra-server/src/refs.cpp, beside the refs that are arranged.
use saengra.Prelude.{
  ℕ, suc, ◌+◌, ◌≤◌, ◌<◌, ◌≡◌, ◌⊎◌, inl, inr, refl, ap, ◌∙◌, subst, true, false, not, ◌&&◌, List, [],
  ◌∷◌, ◌++◌, arith, Bool-cases, length, contains, nat_eq, append_assoc, append-nil, length-append,
  contains-append, same,
}
use saengra.Text.{text_eq}
use saengra.Refs.{Refs, simplify_union, subtract_from_union}
use saengra.Refs.Meaning.{Values, covers, covers_any}
use saengra.Refs.Implies.{IsNormal}
use saengra.Refs.Union.{covers_any-simplify_union}
use saengra.Refs.Subtract.{
  AreNormal, covers_any-subtract_from_union, subtract_from_union-AreNormal, covers_any-append,
  singleton-AreNormal,
}
use saengra.Refs.Cells.{
  RefsCell, inside_terms, if_any, split_cell, split_cells, outside_all, arrange_behind,
}
use saengra.Refs.Cells.Terms.{
  agrees, any_covers, any_covers-append, agrees-append, covers_any-inside_terms, covers_any-if_any,
  inside_terms-AreNormal, simplify_union-AreNormal,
}

-- The members are indices of the first refs.
abbrev pub IsBelow : ℕ → List ℕ → Type 0
IsBelow n members = (m : ℕ) → contains members m ≡ true → m < n

IsBelow-grow : (n : ℕ) (members : List ℕ) → IsBelow n members → IsBelow (n + 1) members
IsBelow-grow n members h m k = let lt = h m k in omega arith

IsBelow-push : (n : ℕ) (members : List ℕ) → IsBelow n members → IsBelow (n + 1) (members ++ n ∷ [])
unfolding contains
IsBelow-push n members h m k = ground (arith, contains-append m members (n ∷ []), h m)

module _ (ρ : Values) where
  -- What holds of a cell of the arrangement of some refs.
  pub record IsCell (refs : List Refs) (c : RefsCell) : Type 0 where
    pub normal : AreNormal c.terms
    pub below : IsBelow (length refs) c.members
    pub exact : covers_any ρ c.terms ≡ agrees ρ 0 refs c.members

  abbrev pub AreCells : List Refs → List RefsCell → Type 0
  AreCells refs [] = Unit
  AreCells refs (c ∷ cs) = IsCell refs c × AreCells refs cs

  AreCells-append :
      (refs : List Refs) (a b : List RefsCell)
      → AreCells refs a
      → AreCells refs b
      → AreCells refs (a ++ b)
  AreCells-append refs [] b h k = k
  AreCells-append refs (c ∷ a) b h k = (h.0, AreCells-append refs a b h.1 k)

  -- An index beyond the refs does not matter.
  agrees-push :
      (i n : ℕ) (rs : List Refs) (members : List ℕ)
      → i + length rs ≤ n
      → agrees ρ i rs (members ++ n ∷ []) ≡ agrees ρ i rs members
  unfolding agrees contains
  agrees-push i n [] members h = refl
  agrees-push i n (r ∷ rs) members h =
      let rest = agrees-push (suc i) n rs members (omega arith) in
      ground (arith, contains-append i members (n ∷ []), rest)

  not_below : (n : ℕ) (members : List ℕ) → IsBelow n members → contains members n ≡ false
  not_below n members h = elim (Bool-cases (contains members n)) [
    | inl yes_in ↦ absurd (let lt = h n yes_in in omega arith)
    | inr not_in ↦ not_in
  ]

  agrees-outside :
      (refs : List Refs) (r : Refs) (members : List ℕ)
      → IsBelow (length refs) members
      → agrees ρ 0 (refs ++ r ∷ []) members ≡ (agrees ρ 0 refs members && not (covers ρ r))
  unfolding agrees
  agrees-outside refs r members h =
      agrees-append ρ 0 refs (r ∷ []) members ∙ ground (arith, not_below (length refs) members h)

  agrees-inside :
      (refs : List Refs) (r : Refs) (members : List ℕ)
      → agrees ρ 0 (refs ++ r ∷ []) (members ++ length refs ∷ [])
        ≡ (agrees ρ 0 refs members && covers ρ r)
  unfolding agrees contains
  agrees-inside refs r members =
      agrees-append ρ 0 refs (r ∷ []) (members ++ length refs ∷ [])
      ∙ ground (
        arith,
        agrees-push 0 (length refs) refs members,
        contains-append (length refs) members (length refs ∷ []),
      )

  length-push : (refs : List Refs) (r : Refs) → length (refs ++ r ∷ []) ≡ length refs + 1
  length-push refs r = length-append refs (r ∷ [])

  IsCell-kept :
      (refs : List Refs) (r : Refs) (c : RefsCell) (terms : List Refs)
      → IsCell refs c
      → AreNormal terms
      → covers_any ρ terms ≡ (covers_any ρ c.terms && not (covers ρ r))
      → IsCell (refs ++ r ∷ []) (record { terms = terms; members = c.members })
  IsCell-kept refs r c terms h n same = record {
    normal = n;
    below = rw (length-push refs r) (IsBelow-grow (length refs) c.members h.below);
    exact = same ∙ ground (arith, h.exact, agrees-outside refs r c.members h.below);
  }

  if_any-AreCells :
      (refs : List Refs) (terms : List Refs) (members : List ℕ)
      → IsCell refs (record { terms = terms; members = members })
      → AreCells refs (if_any terms members)
  if_any-AreCells refs [] members h = tt
  if_any-AreCells refs (t ∷ ts) members h = (h, tt)

  IsCell-inside :
      (refs : List Refs) (r : Refs) (c : RefsCell)
      → IsCell refs c
      → IsCell (refs ++ r ∷ []) (record {
        terms = simplify_union (inside_terms r c.terms);
        members = c.members ++ length refs ∷ [];
      })
  IsCell-inside refs r c h = record {
    normal = simplify_union-AreNormal _ (inside_terms-AreNormal r c.terms);
    below = rw (length-push refs r) (IsBelow-push (length refs) c.members h.below);
    exact =
        covers_any-simplify_union ρ (inside_terms r c.terms) (inside_terms-AreNormal r c.terms)
        ∙ covers_any-inside_terms ρ r c.terms
        ∙ ground (arith, h.exact, agrees-inside refs r c.members);
  }

  outside_of :
      (refs : List Refs) (r : Refs) (c : RefsCell)
      → IsCell refs c
      → IsCell
          (refs ++ r ∷ [])
          (record { terms = subtract_from_union c.terms r; members = c.members })
  outside_of refs r c h =
      IsCell-kept refs r c (subtract_from_union c.terms r) h
        (subtract_from_union-AreNormal c.terms r h.normal)
        (covers_any-subtract_from_union ρ c.terms r h.normal)

  nonempty-cases :
      (ts : List Refs) → (ts ≡ []) ⊎ ((t : Refs) × (rest : List Refs) × (ts ≡ t ∷ rest))
  nonempty-cases [] = inl refl
  nonempty-cases (t ∷ ts) = inr (t, ts, refl)

  split_cell-AreCells :
      (refs : List Refs) (r : Refs) (c : RefsCell)
      → IsCell refs c
      → AreCells (refs ++ r ∷ []) (split_cell (length refs) r c)
  unfolding split_cell covers_any
  split_cell-AreCells refs r c h = elim (nonempty-cases (inside_terms r c.terms)) [
    | inl none_inside ↦
        rw (none_inside, split_cell)
          (
            IsCell-kept refs r c c.terms h h.normal (
                ground (arith, covers_any-inside_terms ρ r c.terms, ap (covers_any ρ) none_inside)),
            tt,
          )
    | inr (t, ts, some_inside) ↦
        rw (some_inside, split_cell)
          (
            subst
                (λ x.
                  IsCell (refs ++ r ∷ [])
                    (record { terms = simplify_union x; members = c.members ++ length refs ∷ [] }))
                some_inside (IsCell-inside refs r c h),
            if_any-AreCells (refs ++ r ∷ []) _ _ (outside_of refs r c h),
          )
  ]

  split_cell-covers :
      (refs : List Refs) (r : Refs) (c : RefsCell) (i : ℕ)
      → IsCell refs c
      → any_covers ρ (split_cell i r c) ≡ covers_any ρ c.terms
  unfolding split_cell any_covers
  split_cell-covers refs r c i h = elim (nonempty-cases (inside_terms r c.terms)) [
    | inl none_inside ↦ rw (none_inside, split_cell) (ground arith)
    | inr (t, ts, some_inside) ↦
        let inside =
          covers_any-simplify_union ρ (inside_terms r c.terms) (inside_terms-AreNormal r c.terms)
          ∙ covers_any-inside_terms ρ r c.terms in
        let inside' =
          subst (λ x. covers_any ρ (simplify_union x) ≡ (covers_any ρ c.terms && covers ρ r))
            some_inside inside in
        rw (some_inside, split_cell)
          (ground (
            arith,
            inside',
            covers_any-if_any ρ (subtract_from_union c.terms r) c.members,
            covers_any-subtract_from_union ρ c.terms r h.normal,
          ))
  ]

  split_cells-AreCells :
      (refs : List Refs) (r : Refs) (cs : List RefsCell)
      → AreCells refs cs
      → AreCells (refs ++ r ∷ []) (split_cells (length refs) r cs)
  unfolding split_cells
  split_cells-AreCells refs r [] h = tt
  split_cells-AreCells refs r (c ∷ cs) h =
      AreCells-append (refs ++ r ∷ []) (split_cell (length refs) r c)
        (split_cells (length refs) r cs) (split_cell-AreCells refs r c h.0)
        (split_cells-AreCells refs r cs h.1)

  split_cells-covers :
      (refs : List Refs) (r : Refs) (i : ℕ) (cs : List RefsCell)
      → AreCells refs cs
      → any_covers ρ (split_cells i r cs) ≡ any_covers ρ cs
  unfolding split_cells any_covers
  split_cells-covers refs r i [] h = refl
  split_cells-covers refs r i (c ∷ cs) h =
      any_covers-append ρ (split_cell i r c) (split_cells i r cs)
      ∙ ground (arith, split_cell-covers refs r c i h.0, split_cells-covers refs r i cs h.1)

  outside_all-AreNormal :
      (fresh previous : List Refs) → AreNormal fresh → AreNormal (outside_all fresh previous)
  unfolding outside_all
  outside_all-AreNormal fresh [] h = h
  outside_all-AreNormal fresh (p ∷ previous) h =
      outside_all-AreNormal (subtract_from_union fresh p) previous
        (subtract_from_union-AreNormal fresh p h)

  covers_any-outside_all :
      (fresh previous : List Refs)
      → AreNormal fresh
      → covers_any ρ (outside_all fresh previous)
        ≡ (covers_any ρ fresh && not (covers_any ρ previous))
  unfolding outside_all covers_any
  covers_any-outside_all fresh [] h = ground arith
  covers_any-outside_all fresh (p ∷ previous) h =
      covers_any-outside_all (subtract_from_union fresh p) previous
        (subtract_from_union-AreNormal fresh p h)
      ∙ ground (arith, covers_any-subtract_from_union ρ fresh p h)

  pub agrees-none :
      (i n : ℕ) (rs : List Refs)
      → i + length rs ≤ n
      → agrees ρ i rs (n ∷ []) ≡ not (covers_any ρ rs)
  unfolding agrees contains covers_any
  agrees-none i n [] h = refl
  agrees-none i n (r ∷ rs) h =
      let rest = agrees-none (suc i) n rs (omega arith) in ground (arith, rest)

  fresh-IsCell :
      (refs : List Refs) (r : Refs)
      → IsNormal r
      → IsCell
          (refs ++ r ∷ [])
          (record { terms = outside_all (r ∷ []) refs; members = length refs ∷ [] })
  unfolding covers_any agrees contains
  fresh-IsCell refs r n = record {
    normal = outside_all-AreNormal (r ∷ []) refs (singleton-AreNormal r n);
    below = rw (length-push refs r) (λ m k. ground arith);
    exact =
        covers_any-outside_all (r ∷ []) refs (singleton-AreNormal r n)
        ∙ ground (
          arith,
          agrees-append ρ 0 refs (r ∷ []) (length refs ∷ []),
          agrees-none 0 (length refs) refs,
        );
  }

  pub loop-AreCells :
      (previous : List Refs) (i : ℕ) (cs : List RefsCell) (rs : List Refs)
      → i ≡ length previous
      → AreNormal rs
      → AreCells previous cs
      → AreCells (previous ++ rs) (arrange_behind previous i cs rs)
  unfolding arrange_behind
  loop-AreCells previous i cs [] e n h = rw (append-nil previous) h
  loop-AreCells previous i cs (r ∷ rs) e n h =
      let next =
        AreCells-append (previous ++ r ∷ []) (split_cells i r cs)
          (if_any (outside_all (r ∷ []) previous) (i ∷ []))
          (rw e (split_cells-AreCells previous r cs h))
          (rw e (
            if_any-AreCells (previous ++ r ∷ []) _ _ (fresh-IsCell previous r (n r (inl refl))))) in
      subst (λ x. AreCells x (arrange_behind previous i cs (r ∷ rs)))
        (append_assoc previous (r ∷ []) rs)
        (loop-AreCells (previous ++ r ∷ []) (suc i) _ rs
          (let len = length-push previous r in omega arith) (λ x j. n x (inr j)) next)

  pub loop-covers :
      (previous : List Refs) (i : ℕ) (cs : List RefsCell) (rs : List Refs)
      → i ≡ length previous
      → AreNormal rs
      → AreCells previous cs
      → any_covers ρ cs ≡ covers_any ρ previous
      → any_covers ρ (arrange_behind previous i cs rs) ≡ covers_any ρ (previous ++ rs)
  unfolding arrange_behind covers_any
  loop-covers previous i cs [] e n h k = rw (append-nil previous) k
  loop-covers previous i cs (r ∷ rs) e n h k =
      let next =
        AreCells-append (previous ++ r ∷ []) (split_cells i r cs)
          (if_any (outside_all (r ∷ []) previous) (i ∷ []))
          (rw e (split_cells-AreCells previous r cs h))
          (rw e (
            if_any-AreCells (previous ++ r ∷ []) _ _ (fresh-IsCell previous r (n r (inl refl))))) in
      let all =
        any_covers-append ρ (split_cells i r cs) (if_any (outside_all (r ∷ []) previous) (i ∷ []))
        ∙ ground (
          arith,
          k,
          split_cells-covers previous r i cs h,
          covers_any-if_any ρ (outside_all (r ∷ []) previous) (i ∷ []),
          covers_any-outside_all (r ∷ []) previous (singleton-AreNormal r (n r (inl refl))),
          covers_any-append ρ previous (r ∷ []),
        ) in
      subst (λ x. any_covers ρ (arrange_behind previous i cs (r ∷ rs)) ≡ covers_any ρ x)
        (append_assoc previous (r ∷ []) rs)
        (loop-covers (previous ++ r ∷ []) (suc i) _ rs
          (let len = length-push previous r in omega arith) (λ x j. n x (inr j)) next all)
