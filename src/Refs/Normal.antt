-- ===== src/Refs/Normal.antt =====
-- The meaning of `Refs::normalized` and `Refs::intersect_with` of saengra-server/src/refs.cpp.
use saengra.Prelude.{
  ◌≡◌, refl, ◌∙◌, Bool, true, false, not, ◌&&◌, Option, none, some, List, [], ◌∷◌, ◌++◌, arith,
}
use saengra.Text.{text_eq, Text-discrete}
use saengra.Refs.{
  Literal, Refs, normalized, intersect_with, insert_literal, sort_literals, literal_lt,
  add_to_groups, groups, clashes, any_clash, drop_repeated, normalize_group, append_group,
  normalize_groups,
}
use saengra.Refs.Order.{HeadLe, IsSorted, sort-IsSorted}
use saengra.Refs.Meaning.{Values, holds, covers, covers?, covers-append}

-- In a group all literals have the name of the first, and behind a negative one stand negative ones.
abbrev pub IsGroup : Literal → List Literal → Type 0
IsGroup first [] = Unit
IsGroup first (l ∷ ls) =
    (l.name ≡ first.name) × (first.negative ≡ true → l.negative ≡ true) × IsGroup l ls

abbrev pub AreGroups : List (Literal × List Literal) → Type 0
AreGroups [] = Unit
AreGroups ((first, rest) ∷ gs) = IsGroup first rest × AreGroups gs

abbrev pub HeadLeGroup : Literal → List (Literal × List Literal) → Type 0
HeadLeGroup l [] = Unit
HeadLeGroup l ((first, rest) ∷ gs) = literal_lt first l ≡ false

group_next :
    (l x : Literal)
    → literal_lt x l ≡ false
    → x.name ≡ l.name
    → l.negative ≡ true
    → x.negative ≡ true
unfolding literal_lt
group_next l x h e n = ground arith

add-AreGroups :
    (l : Literal) (gs : List (Literal × List Literal))
    → HeadLeGroup l gs
    → AreGroups gs
    → AreGroups (add_to_groups l gs)
unfolding add_to_groups
add-AreGroups l [] h g = (tt, tt)
add-AreGroups l ((x, xs) ∷ gs) h g = elim (Text-discrete x.name l.name) [
  | yes e ↦ ground (arith, g, e, group_next l x h e)
  | no n ↦ ground (arith, g, n)
]

HeadLeGroup-add :
    (l x : Literal) (gs : List (Literal × List Literal))
    → literal_lt x l ≡ false
    → HeadLeGroup l (add_to_groups x gs)
unfolding add_to_groups
HeadLeGroup-add l x [] h = h
HeadLeGroup-add l x ((y, ys) ∷ gs) h = ground arith

pub HeadLe-groups : (l : Literal) (ls : List Literal) → HeadLe l ls → HeadLeGroup l (groups ls)
unfolding groups
HeadLe-groups l [] h = tt
HeadLe-groups l (x ∷ ls) h = HeadLeGroup-add l x (groups ls) h

pub groups-AreGroups : (ls : List Literal) → IsSorted ls → AreGroups (groups ls)
unfolding groups
groups-AreGroups [] h = tt
groups-AreGroups (l ∷ ls) h =
    add-AreGroups l (groups ls) (HeadLe-groups l ls h.0) (groups-AreGroups ls h.1)

module _ (ρ : Values) where
  covers-insert :
      (l : Literal) (ls : List Literal)
      → covers ρ (insert_literal l ls) ≡ (holds ρ l && covers ρ ls)
  unfolding insert_literal covers
  covers-insert l [] = refl
  covers-insert l (x ∷ ls) = ground (arith, covers-insert l ls)

  covers-sort : (ls : List Literal) → covers ρ (sort_literals ls) ≡ covers ρ ls
  unfolding sort_literals covers
  covers-sort [] = refl
  covers-sort (l ∷ ls) = ground (arith, covers-insert l (sort_literals ls), covers-sort ls)

  covers_groups : List (Literal × List Literal) → Bool
  covers_groups [] = true
  covers_groups ((first, rest) ∷ gs) = covers ρ (first ∷ rest) && covers_groups gs

  covers-add :
      (l : Literal) (gs : List (Literal × List Literal))
      → covers_groups (add_to_groups l gs) ≡ (holds ρ l && covers_groups gs)
  unfolding covers_groups add_to_groups covers
  covers-add l [] = ground arith
  covers-add l ((x, xs) ∷ gs) = ground arith

  covers-groups : (ls : List Literal) → covers_groups (groups ls) ≡ covers ρ ls
  unfolding covers_groups groups covers
  covers-groups [] = refl
  covers-groups (l ∷ ls) = ground (arith, covers-add l (groups ls), covers-groups ls)

  -- Of negative literals, repeated values add nothing.
  covers-drop_repeated :
      (first : Literal) (ls : List Literal)
      → first.negative ≡ true
      → IsGroup first ls
      → covers ρ (first ∷ drop_repeated first ls) ≡ covers ρ (first ∷ ls)
  unfolding drop_repeated covers
  covers-drop_repeated first [] n g = refl
  covers-drop_repeated first (l ∷ ls) n g = ground (arith, covers-drop_repeated l ls (g.1 n) g.2, g)

  -- A group with a positive literal: what does not clash follows from it.
  covers-positive :
      (first : Literal) (prev : Literal) (ls : List Literal)
      → first.negative ≡ false
      → prev.name ≡ first.name
      → IsGroup prev ls
      → (holds ρ first && covers ρ ls) ≡ (holds ρ first && not (any_clash first ls))
  unfolding covers any_clash clashes
  covers-positive first prev [] n e g = refl
  covers-positive first prev (l ∷ ls) n e g = ground (arith, covers-positive first l ls n, g, e)

  covers-normalize_group :
      (first : Literal) (rest : List Literal)
      → IsGroup first rest
      → covers? ρ (normalize_group (first, rest)) ≡ covers ρ (first ∷ rest)
  unfolding normalize_group any_clash clashes covers
  covers-normalize_group first rest g =
      ground (arith, covers-positive first first rest, covers-drop_repeated first rest, g)

  covers-append_group :
      (a b : Option Refs) → covers? ρ (append_group a b) ≡ (covers? ρ a && covers? ρ b)
  unfolding append_group
  covers-append_group none b = refl
  covers-append_group (some a) none = ground arith
  covers-append_group (some a) (some b) = covers-append ρ a b

  covers-normalize_groups :
      (gs : List (Literal × List Literal))
      → AreGroups gs
      → covers? ρ (normalize_groups gs) ≡ covers_groups gs
  unfolding normalize_groups covers_groups covers
  covers-normalize_groups [] g = refl
  covers-normalize_groups ((first, rest) ∷ gs) g =
      covers-append_group (normalize_group (first, rest)) (normalize_groups gs)
      ∙ ground (arith, covers-normalize_group first rest g.0, covers-normalize_groups gs g.1)

  -- A conjunction of literals holds for the same values as its normal form, and for none if it has
  -- no normal form.
  pub covers-normalized : (ls : List Literal) → covers? ρ (normalized ls) ≡ covers ρ ls
  unfolding normalized
  covers-normalized ls =
      covers-normalize_groups (groups (sort_literals ls))
        (groups-AreGroups (sort_literals ls) (sort-IsSorted ls))
      ∙ covers-groups (sort_literals ls)
      ∙ covers-sort ls

  -- The intersection of two refs covers exactly the values that both cover, and none if it does not
  -- exist.
  pub covers-intersect_with :
      (a b : Refs) → covers? ρ (intersect_with a b) ≡ (covers ρ a && covers ρ b)
  unfolding intersect_with
  covers-intersect_with a b = covers-normalized (a ++ b) ∙ covers-append ρ a b
