-- ===== src/Refs/Subtract.antt =====
-- The meaning of `Refs::subtract` and `subtract_from_union` of saengra-server/src/refs.cpp.
use saengra.Prelude.{
  ◌≡◌, refl, ◌∙◌, not, ◌&&◌, ◌||◌, Option, none, some, List, [], ◌∷◌, ◌++◌, arith, Option-cases,
  inl, inr, ◌⊎◌,
}
use saengra.Refs.{
  Literal, Refs, negated, intersect_with, add_term, negation_terms, subtract, subtract_each,
  subtract_from_union,
}
use saengra.Refs.Meaning.{Values, holds, covers, covers?, covers_any}
use saengra.Refs.Normal.{covers-intersect_with}
use saengra.Refs.Canonical.{intersect_with-IsNormal}
use saengra.Refs.Implies.{In, IsNormal}
use saengra.Refs.Union.{covers_any-simplify_union, In-simplify_union}

module _ (ρ : Values) where
  pub covers_any-add_term :
      (t : Option Refs) (ts : List Refs)
      → covers_any ρ (add_term t ts) ≡ (covers? ρ t || covers_any ρ ts)
  unfolding add_term covers_any
  covers_any-add_term none ts = refl
  covers_any-add_term (some t) ts = refl

  holds-negated : (l : Literal) → covers ρ (negated l ∷ []) ≡ not (holds ρ l)
  unfolding negated covers
  holds-negated l = ground arith

  -- De Morgan's law.
  covers_any-negation_terms :
      (this : Refs) (ls : List Literal)
      → covers_any ρ (negation_terms this ls) ≡ (covers ρ this && not (covers ρ ls))
  unfolding negation_terms covers_any covers
  covers_any-negation_terms this [] = ground arith
  covers_any-negation_terms this (l ∷ ls) =
      covers_any-add_term (intersect_with this (negated l ∷ [])) (negation_terms this ls)
      ∙ ground (
        arith,
        covers-intersect_with ρ this (negated l ∷ []),
        holds-negated l,
        covers_any-negation_terms this ls,
      )

terms-IsNormal :
    (this : Refs) (ls : List Literal) (r : Refs) → In r (negation_terms this ls) → IsNormal r
unfolding negation_terms add_term
terms-IsNormal this [] r i = absurd i
terms-IsNormal this (l ∷ ls) r i =
    let rest_ok = terms-IsNormal this ls r in
    elim (Option-cases (intersect_with this (negated l ∷ []))) [
      | inl e ↦ rest_ok (rw e at i)
      | inr (t, e) ↦ one_or_other t e rest_ok (rw e at i)
    ]
  where
    one_or_other :
        (t : Refs)
        → intersect_with this (negated l ∷ []) ≡ some t
        → (In r (negation_terms this ls) → IsNormal r)
        → In r (t ∷ negation_terms this ls)
        → IsNormal r
    one_or_other t e rest_ok (inl is) = rw is (intersect_with-IsNormal this (negated l ∷ []) t e)
    one_or_other t e rest_ok (inr j) = rest_ok j

abbrev pub AreNormal : List Refs → Type 0
AreNormal rs = (r : Refs) → In r rs → IsNormal r

pub singleton-AreNormal : (this : Refs) → IsNormal this → AreNormal (this ∷ [])
singleton-AreNormal this h r (inl e) = rw e h
singleton-AreNormal this h r (inr i) = absurd i

subtract-AreNormal : (this other : Refs) → IsNormal this → AreNormal (subtract this other)
unfolding subtract
subtract-AreNormal this other h r i = elim (Option-cases (intersect_with this other)) [
  | inl e ↦ singleton-AreNormal this h r (rw (e, subtract) at i)
  | inr (t, e) ↦
      terms-IsNormal this other r
        (In-simplify_union r (negation_terms this other) (rw (e, subtract) at i))
]

-- Subtracting refs from refs in normal form leaves refs that together cover the values that the
-- first refs cover and the second do not.
pub covers_any-subtract :
    (ρ : Values) (this other : Refs)
    → IsNormal this
    → covers_any ρ (subtract this other) ≡ (covers ρ this && not (covers ρ other))
unfolding covers_any subtract covers
covers_any-subtract ρ this other h = elim (Option-cases (intersect_with this other)) [
  | inl e ↦ rw (e, subtract) (ground (arith, covers-intersect_with ρ this other, e))
  | inr (t, e) ↦
      rw (e, subtract)
        (covers_any-simplify_union ρ (negation_terms this other) (terms-IsNormal this other)
          ∙ covers_any-negation_terms ρ this other)
]

pub covers_any-append :
    (ρ : Values) (a b : List Refs) → covers_any ρ (a ++ b) ≡ (covers_any ρ a || covers_any ρ b)
unfolding covers_any
covers_any-append ρ [] b = refl
covers_any-append ρ (r ∷ a) b = ground (arith, covers_any-append ρ a b)

pub In-append : (r : Refs) (a b : List Refs) → In r (a ++ b) → In r a ⊎ In r b
In-append r [] b i = inr i
In-append r (x ∷ a) b i = ground (arith, In-append r a b)

covers_any-subtract_each :
    (ρ : Values) (minuend : List Refs) (subtrahend : Refs)
    → AreNormal minuend
    → covers_any ρ (subtract_each minuend subtrahend)
      ≡ (covers_any ρ minuend && not (covers ρ subtrahend))
unfolding subtract_each covers_any
covers_any-subtract_each ρ [] subtrahend h = refl
covers_any-subtract_each ρ (r ∷ rs) subtrahend h =
    covers_any-append ρ (subtract r subtrahend) (subtract_each rs subtrahend)
    ∙ ground (
      arith,
      covers_any-subtract ρ r subtrahend (h r (inl refl)),
      covers_any-subtract_each ρ rs subtrahend (λ s i. h s (inr i)),
    )

each-AreNormal :
    (minuend : List Refs) (subtrahend : Refs)
    → AreNormal minuend
    → AreNormal (subtract_each minuend subtrahend)
unfolding subtract_each
each-AreNormal [] subtrahend h r i = absurd i
each-AreNormal (x ∷ rs) subtrahend h r i =
    let rest = each-AreNormal rs subtrahend (λ s j. h s (inr j)) r in
    let first = subtract-AreNormal x subtrahend (h x (inl refl)) r in
    elim (In-append r (subtract x subtrahend) (subtract_each rs subtrahend) i) [
      | inl j ↦ first j
      | inr j ↦ rest j
    ]

-- Subtracting refs from a union of refs in normal form leaves refs that together cover the values
-- that the union covers and the subtracted refs do not.
pub covers_any-subtract_from_union :
    (ρ : Values) (minuend : List Refs) (subtrahend : Refs)
    → AreNormal minuend
    → covers_any ρ (subtract_from_union minuend subtrahend)
      ≡ (covers_any ρ minuend && not (covers ρ subtrahend))
unfolding subtract_from_union
covers_any-subtract_from_union ρ minuend subtrahend h =
    covers_any-simplify_union ρ (subtract_each minuend subtrahend)
      (each-AreNormal minuend subtrahend h)
    ∙ covers_any-subtract_each ρ minuend subtrahend h

pub subtract_from_union-AreNormal :
    (minuend : List Refs) (subtrahend : Refs)
    → AreNormal minuend
    → AreNormal (subtract_from_union minuend subtrahend)
unfolding subtract_from_union
subtract_from_union-AreNormal minuend subtrahend h r i =
    each-AreNormal minuend subtrahend h r (In-simplify_union r (subtract_each minuend subtrahend) i)

pub add_term-AreNormal :
    (a b : Refs) (ts : List Refs) → AreNormal ts → AreNormal (add_term (intersect_with a b) ts)
unfolding add_term
add_term-AreNormal a b ts h r i = elim (Option-cases (intersect_with a b)) [
  | inl e ↦ h r (rw e at i)
  | inr (t, e) ↦ one_or_other t e (rw e at i)
]
  where
    one_or_other : (t : Refs) → intersect_with a b ≡ some t → In r (t ∷ ts) → IsNormal r
    one_or_other t e (inl is) = rw is (intersect_with-IsNormal a b t e)
    one_or_other t e (inr j) = h r j
