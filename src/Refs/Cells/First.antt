-- ===== src/Refs/Cells/First.antt =====
-- The cell of the first refs in `arrange` of saengra-server/src/refs.cpp.
use saengra.Prelude.{
  ℕ, zero, suc, ◌≡◌, refl, sym, Bool, true, false, ◌&&◌, ◌||◌, List, [], ◌∷◌, ◌++◌, arith,
  Bool-cases, subst, inl, inr,
}
use saengra.Refs.{Refs, simplify_union}
use saengra.Refs.Implies.{In}
use saengra.Refs.Union.{simplify_union-some}
use saengra.Refs.Cells.{
  RefsCell, is_disjoint, single_cells, inside_terms, if_any, split_cell, split_cells, outside_all,
  arrange_behind, arrange,
}
use saengra.Refs.Cells.Terms.{inside_terms-AreNormal}

abbrev has_terms : List Refs → Bool
has_terms [] = false
has_terms (t ∷ ts) = true

abbrev begins_with_first : List ℕ → Bool
begins_with_first [] = false
begins_with_first (zero ∷ ms) = true
begins_with_first (suc n ∷ ms) = false

-- Whether there is a cell with terms whose first member is the first refs.
unfoldable pub has_first : List RefsCell → Bool
has_first [] = false
has_first (c ∷ cs) = (has_terms c.terms && begins_with_first c.members) || has_first cs

has_first-append : (a b : List RefsCell) → has_first a ≡ true → has_first (a ++ b) ≡ true
unfolding has_first
has_first-append [] b h = ground arith
has_first-append (c ∷ a) b h = ground (arith, has_first-append a b)

has_first-behind : (a b : List RefsCell) → has_first b ≡ true → has_first (a ++ b) ≡ true
unfolding has_first
has_first-behind [] b h = h
has_first-behind (c ∷ a) b h = ground (arith, has_first-behind a b h)

In-has_terms : (m : Refs) (ts : List Refs) → In m ts → has_terms ts ≡ true
In-has_terms m [] i = absurd i
In-has_terms m (t ∷ ts) i = refl

begins-append : (ms ns : List ℕ) → begins_with_first ms ≡ true → begins_with_first (ms ++ ns) ≡ true
begins-append [] ns h = ground arith
begins-append (zero ∷ ms) ns h = refl
begins-append (suc n ∷ ms) ns h = h

split_inside :
    (i : ℕ) (r : Refs) (cell : RefsCell) (inside : List Refs)
    → inside_terms r cell.terms ≡ inside
    → (has_terms cell.terms && begins_with_first cell.members) ≡ true
    → has_first (split_cell i r cell) ≡ true
unfolding split_cell has_first
split_inside i r cell [] e h = rw (e, split_cell) (ground (arith, h))
split_inside i r cell (t ∷ ts) e h =
    let (m, m_in) =
      simplify_union-some t ts
        (λ x x_in. inside_terms-AreNormal r cell.terms x (subst (In x) (sym e) x_in)) in
    let some_terms = In-has_terms m (simplify_union (t ∷ ts)) m_in in
    let still = begins-append cell.members (i ∷ []) (ground (arith, h)) in
    rw (e, split_cell) (ground (arith, some_terms, still))

has_first-split_cells :
    (i : ℕ) (r : Refs) (cells : List RefsCell)
    → has_first cells ≡ true
    → has_first (split_cells i r cells) ≡ true
unfolding split_cells has_first
has_first-split_cells i r [] h = h
has_first-split_cells i r (c ∷ cells) h =
    elim (Bool-cases (has_terms c.terms && begins_with_first c.members)) [
      | inl here ↦
          has_first-append (split_cell i r c) (split_cells i r cells)
            (split_inside i r c (inside_terms r c.terms) refl here)
      | inr later ↦
          has_first-behind (split_cell i r c) (split_cells i r cells)
            (has_first-split_cells i r cells (ground arith))
    ]

has_first-behind_all :
    (previous : List Refs) (i : ℕ) (cells : List RefsCell) (rs : List Refs)
    → has_first cells ≡ true
    → has_first (arrange_behind previous i cells rs) ≡ true
unfolding arrange_behind
has_first-behind_all previous i cells [] h = h
has_first-behind_all previous i cells (r ∷ rs) h =
    has_first-behind_all (previous ++ r ∷ []) (suc i) _ rs
      (has_first-append (split_cells i r cells) _ (has_first-split_cells i r cells h))

-- Of some refs, the arrangement has a cell whose first member is the first refs.
pub arrange-first : (r : Refs) (rs : List Refs) → has_first (arrange (r ∷ rs)) ≡ true
unfolding arrange arrange_behind has_first single_cells split_cells if_any outside_all
arrange-first r rs = elim (Bool-cases (is_disjoint (r ∷ rs))) [
  | inl typical ↦ rw (typical, arrange) single
  | inr general ↦ rw (general, arrange) (has_first-behind_all (r ∷ []) 1 _ rs first)
]
  where
    single : has_first (single_cells 0 (r ∷ rs)) ≡ true
    single = ground arith

    first : has_first (split_cells 0 r [] ++ if_any (outside_all (r ∷ []) []) (0 ∷ [])) ≡ true
    first = ground arith
