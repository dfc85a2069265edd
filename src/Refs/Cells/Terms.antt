-- ===== src/Refs/Cells/Terms.antt =====
-- What the terms of the cells of `arrange` (saengra-server/src/refs.cpp) cover.
use saengra.Prelude.{
  ℕ, suc, ◌+◌, ◌≡◌, refl, ◌∙◌, Bool, true, false, ◌&&◌, ◌||◌, List, [], ◌∷◌, ◌++◌, arith, length,
  contains, nat_eq,
}
use saengra.Text.{text_eq}
use saengra.Refs.{Refs, intersect_with, simplify_union, same_flag}
use saengra.Refs.Meaning.{Values, covers, covers_any}
use saengra.Refs.Normal.{covers-intersect_with}
use saengra.Refs.Union.{In-simplify_union}
use saengra.Refs.Subtract.{AreNormal, covers_any-add_term, add_term-AreNormal}
use saengra.Refs.Cells.{RefsCell, inside_terms, if_any}

module _ (ρ : Values) where
  -- Whether the values are covered by exactly the refs whose indices, counted from `i`, are listed.
  unfoldable pub agrees : ℕ → List Refs → List ℕ → Bool
  agrees i [] members = true
  agrees i (r ∷ rs) members =
      same_flag (contains members i) (covers ρ r) && agrees (suc i) rs members

  unfoldable pub any_covers : List RefsCell → Bool
  any_covers [] = false
  any_covers (c ∷ cs) = covers_any ρ c.terms || any_covers cs

  pub any_covers-append :
      (a b : List RefsCell) → any_covers (a ++ b) ≡ (any_covers a || any_covers b)
  unfolding any_covers
  any_covers-append [] b = refl
  any_covers-append (c ∷ a) b = ground (arith, any_covers-append a b)

  pub agrees-append :
      (i : ℕ) (a b : List Refs) (members : List ℕ)
      → agrees i (a ++ b) members ≡ (agrees i a members && agrees (i + length a) b members)
  unfolding agrees
  agrees-append i [] b members = ground arith
  agrees-append i (r ∷ a) b members = ground (arith, agrees-append (suc i) a b members)

  pub covers_any-inside_terms :
      (r : Refs) (terms : List Refs)
      → covers_any ρ (inside_terms r terms) ≡ (covers_any ρ terms && covers ρ r)
  unfolding inside_terms covers_any
  covers_any-inside_terms r [] = refl
  covers_any-inside_terms r (t ∷ terms) =
      covers_any-add_term ρ (intersect_with t r) (inside_terms r terms)
      ∙ ground (arith, covers-intersect_with ρ t r, covers_any-inside_terms r terms)

  pub covers_any-if_any :
      (terms : List Refs) (members : List ℕ)
      → any_covers (if_any terms members) ≡ covers_any ρ terms
  unfolding any_covers covers_any
  covers_any-if_any [] members = refl
  covers_any-if_any (t ∷ ts) members = ground arith

pub inside_terms-AreNormal : (r : Refs) (terms : List Refs) → AreNormal (inside_terms r terms)
unfolding inside_terms
inside_terms-AreNormal r [] x i = absurd i
inside_terms-AreNormal r (t ∷ terms) x i =
    add_term-AreNormal t r (inside_terms r terms) (inside_terms-AreNormal r terms) x i

pub simplify_union-AreNormal : (rs : List Refs) → AreNormal rs → AreNormal (simplify_union rs)
simplify_union-AreNormal rs h r i = h r (In-simplify_union r rs i)
