-- ===== src/Refs/Canonical.antt =====
-- Normal forms of conjunctions, for `Refs::normalized` of saengra-server/src/refs.cpp.
use saengra.Prelude.{
  ◌≡◌, ◌≢◌, refl, sym, ◌∙◌, true, false, some, List, [], ◌∷◌, ◌++◌, arith, ◌==◌, Bool-cases,
  Option-cases, inl, inr, subst,
}
use saengra.Text.{Text-discrete, text_eq, text_lt, text_lt_irrefl, text_lt_trans, text_lt_total}
use saengra.Refs.{
  Literal, Refs, literal_lt, sort_literals, add_to_groups, groups, drop_repeated, normalize_group,
  append_group, normalize_groups, normalized, intersect_with,
}
use saengra.Refs.Order.{HeadLe, IsSorted, sort-IsSorted, literal_lt_trans}
use saengra.Refs.Normal.{IsGroup, AreGroups, HeadLeGroup, HeadLe-groups, groups-AreGroups}
use saengra.Refs.Implies.{Next, Follows, IsNormal}

-- Each group is sorted, and the names of the groups grow.
abbrev NamesUp : Literal → List (Literal × List Literal) → Type 0
NamesUp l [] = Unit
NamesUp l ((first, rest) ∷ gs) = text_lt l.name first.name ≡ true

abbrev AreSorted : List (Literal × List Literal) → Type 0
AreSorted [] = Unit
AreSorted ((first, rest) ∷ gs) = IsSorted (first ∷ rest) × NamesUp first gs × AreSorted gs

name_up : (l x : Literal) → literal_lt x l ≡ false → x.name ≢ l.name → text_lt l.name x.name ≡ true
unfolding literal_lt
name_up l x h n = ground (arith, text_lt_total l.name x.name)

add-AreSorted :
    (l : Literal) (gs : List (Literal × List Literal))
    → HeadLeGroup l gs
    → AreSorted gs
    → AreSorted (add_to_groups l gs)
unfolding add_to_groups
add-AreSorted l [] h g = ((tt, tt), tt, tt)
add-AreSorted l ((x, xs) ∷ []) h g = elim (Text-discrete x.name l.name) [
  | yes e ↦ ground (arith, g, e, h)
  | no n ↦ ground (arith, g, n, name_up l x h n)
]
add-AreSorted l ((x, xs) ∷ (y, ys) ∷ gs) h g = elim (Text-discrete x.name l.name) [
  | yes e ↦ ground (arith, g, e, h)
  | no n ↦ ground (arith, g, n, name_up l x h n)
]

groups-AreSorted : (ls : List Literal) → IsSorted ls → AreSorted (groups ls)
unfolding groups
groups-AreSorted [] h = tt
groups-AreSorted (l ∷ ls) h =
    add-AreSorted l (groups ls) (HeadLe-groups l ls h.0) (groups-AreSorted ls h.1)

-- The heads only: what follows the second literal follows the first one too.
abbrev HeadNext : Literal → Refs → Type 0
HeadNext x [] = Unit
HeadNext x (y ∷ ys) = Next x y

abbrev IsChain : Refs → Type 0
IsChain [] = Unit
IsChain (x ∷ xs) = HeadNext x xs × IsChain xs

Next-trans : (x y z : Literal) → Next x y → Next y z → Next x z
unfolding literal_lt
Next-trans x y z h k = (
  unfold literal_lt in literal_lt_trans x y z h.0 k.0,
  λ e. ground (arith, h, k, e, text_lt_trans x.name y.name z.name, text_lt_irrefl x.name),
)

Follows-chain : (x : Literal) (xs : Refs) → HeadNext x xs → IsChain xs → Follows x xs
Follows-chain x [] h c = tt
Follows-chain x (y ∷ []) h c = (h, tt)
Follows-chain x (y ∷ z ∷ xs) h c = (h, Follows-chain x (z ∷ xs) (Next-trans x y z h c.0) c.1)

chain-IsNormal : (xs : Refs) → IsChain xs → IsNormal xs
chain-IsNormal [] c = tt
chain-IsNormal (x ∷ xs) c = (Follows-chain x xs c.0 c.1, chain-IsNormal xs c.1)

same_literal :
    (l k : Literal) → l.name ≡ k.name → l.negative ≡ k.negative → l.value ≡ k.value → l ≡ k
same_literal l k n g v = ground arith

Next-negative :
    (last l : Literal)
    → l.name ≡ last.name
    → last.negative ≡ true
    → l.negative ≡ true
    → literal_lt l last ≡ false
    → l.value ≢ last.value
    → Next last l
unfolding literal_lt
Next-negative last l e n m h d = ground (arith, text_lt_irrefl l.name)

Next-name : (p l : Literal) → text_lt p.name l.name ≡ true → Next p l
unfolding literal_lt
Next-name p l h = ground (arith, text_lt_irrefl l.name)

-- A run of negative literals, in front of literals of greater names.
module _ (tail : Refs) (chain : IsChain tail) where
  drop_repeated-IsChain :
      (last : Literal) (ls : List Literal)
      → ((p : Literal) → p.name ≡ last.name → HeadNext p tail)
      → last.negative ≡ true
      → IsGroup last ls
      → HeadLe last ls
      → IsSorted ls
      → HeadNext last (drop_repeated last ls ++ tail) × IsChain (drop_repeated last ls ++ tail)
  unfolding drop_repeated
  drop_repeated-IsChain last [] up n g h s = (up last refl, chain)
  drop_repeated-IsChain last (l ∷ ls) up n g h s =
      let rest = drop_repeated-IsChain l ls (λ p e. up p (e ∙ g.0)) (g.1 n) g.2 s.0 s.1 in
      elim (Bool-cases (l.value == last.value)) [
        | inl eq ↦
            let is = same_literal l last g.0 (g.1 n ∙ sym n) (ground arith) in
            rw eq ((subst (λ x. HeadNext x (drop_repeated l ls ++ tail)) is rest.0, rest.1))
        | inr ne ↦ rw ne (Next-negative last l g.0 n (g.1 n) h (ground arith), (rest.0, rest.1))
      ]

  group-IsChain :
      (first : Literal) (rest out : List Literal)
      → ((p : Literal) → p.name ≡ first.name → HeadNext p tail)
      → IsGroup first rest
      → IsSorted (first ∷ rest)
      → normalize_group (first, rest) ≡ some out
      → IsChain (out ++ tail)
        × ((p : Literal) → text_lt p.name first.name ≡ true → HeadNext p (out ++ tail))
  unfolding normalize_group
  group-IsChain first rest out up g s e = elim (Bool-cases first.negative) [
    | inl n ↦
        let run = drop_repeated-IsChain first rest up n g s.0 s.1 in
        let is : out ≡ first ∷ drop_repeated first rest = ground arith in
        rw is (run, λ p h. Next-name p first h)
    | inr n ↦
        let is : out ≡ first ∷ [] = ground arith in
        rw is ((up first refl, chain), λ p h. Next-name p first h)
  ]

groups-IsChain :
    (gs : List (Literal × List Literal)) (r : Refs)
    → AreGroups gs
    → AreSorted gs
    → normalize_groups gs ≡ some r
    → IsChain r × ((p : Literal) → NamesUp p gs → HeadNext p r)
unfolding normalize_groups append_group
groups-IsChain [] r g s e = let is : r ≡ [] = ground arith in rw is (tt, λ p h. tt)
groups-IsChain ((first, rest) ∷ gs) r g s e = elim (Option-cases (normalize_groups gs)) [
  | inl none_there ↦ absurd (ground (arith, none_there))
  | inr (tail, is_tail) ↦ elim (Option-cases (normalize_group (first, rest))) [
    | inl none_here ↦ absurd (ground (arith, none_here))
    | inr (out, is_out) ↦
        let below = groups-IsChain gs tail g.1 s.2 is_tail in
        let is : r ≡ out ++ tail = ground (arith, is_tail, is_out) in
        rw is (
          group-IsChain tail below.0 first rest out (λ p k. below.1 p (names_up p gs k s.1)) g.0 s.0
            is_out)
  ]
]
  where
    names_up :
        (p : Literal) (gs : List (Literal × List Literal))
        → p.name ≡ first.name
        → NamesUp first gs
        → NamesUp p gs
    names_up p [] k h = tt
    names_up p ((x, xs) ∷ gs) k h = rw k h

-- What normalisation returns is in normal form: strictly sorted, with no other literal of a name
-- behind a positive one.
pub normalized-IsNormal : (ls : List Literal) (r : Refs) → normalized ls ≡ some r → IsNormal r
unfolding normalized
normalized-IsNormal ls r e =
    let sorted = sort-IsSorted ls in
    chain-IsNormal r
      (groups-IsChain (groups (sort_literals ls)) r (groups-AreGroups (sort_literals ls) sorted)
        (groups-AreSorted (sort_literals ls) sorted) e).0

pub intersect_with-IsNormal : (a b r : Refs) → intersect_with a b ≡ some r → IsNormal r
unfolding intersect_with
intersect_with-IsNormal a b r e = normalized-IsNormal (a ++ b) r e
