-- ===== src/Refs/Examples.antt =====
-- The laws of refs on conjunctions over two names.
use saengra.Prelude.{
  ◌≡◌, refl, true, false, not, ◌&&◌, some, [], ◌∷◌, ℕ_discrete, inl, inr, List, arith,
}
use saengra.Text.{text_lt, Text-discrete}
use saengra.Edge.{VertexId}
use saengra.Refs.{
  Literal, Refs, RefName, Binding, binding, normalized, implies, satisfies, any_satisfies, subtract,
  subtract_from_union, simplify_union, sort_literals, insert_literal, literal_lt, groups,
  add_to_groups, normalize_groups, normalize_group, append_group, drop_repeated, any_clash, clashes,
}
use saengra.Refs.Meaning.{Values, covers, covers?, covers_any, Says, binding_lem, implies-covers}
use saengra.Refs.Normal.{covers-normalized}
use saengra.Refs.Implies.{In, IsNormal}
use saengra.Refs.Cells.{arrange}
use saengra.Refs.Cells.Correct.{AreCells}
use saengra.Refs.Cells.Terms.{any_covers}
use saengra.Refs.Cells.Disjoint.{AreDistinct, arrange-AreCells, any_covers-arrange}
use saengra.Refs.Canonical.{normalized-IsNormal}
use saengra.Refs.Union.{covers_any-simplify_union}
use saengra.Refs.Subtract.{AreNormal, covers_any-subtract, covers_any-subtract_from_union}

abbrev x : RefName
x = 1 ∷ []

abbrev y : RefName
y = 2 ∷ []

abbrev is : RefName → VertexId → Literal
is n v = record { name = n; negative = false; value = v }

abbrev is_not : RefName → VertexId → Literal
is_not n v = record { name = n; negative = true; value = v }

-- x is 3, and y is neither 4 nor 5.
abbrev three : Refs
three = is x 3 ∷ is_not y 4 ∷ is_not y 5 ∷ []

abbrev all_three : Values
all_three n = 3

three-normalized : normalized (is_not y 5 ∷ three) ≡ some three
unfolding normalized sort_literals insert_literal literal_lt groups add_to_groups normalize_groups
    normalize_group append_group drop_repeated any_clash clashes text_lt Text-discrete ℕ_discrete
three-normalized = refl

three-IsNormal : IsNormal three
three-IsNormal = normalized-IsNormal (is_not y 5 ∷ three) three three-normalized

all_normal : AreNormal (three ∷ [])
all_normal r (inl e) = rw e three-IsNormal
all_normal r (inr i) = absurd i

covers-normalized_example :
    covers? all_three (normalized (is_not y 4 ∷ three)) ≡ covers all_three (is_not y 4 ∷ three)
covers-normalized_example = covers-normalized all_three (is_not y 4 ∷ three)

y_possible : binding y 6 three ≡ Binding.possible
unfolding binding text_lt Text-discrete ℕ_discrete
y_possible = refl

binding_lem_example : Says all_three Binding.possible y 6 three
binding_lem_example = binding_lem all_three y 6 three Binding.possible y_possible

three-implies_itself : implies three three ≡ true
unfolding implies any_satisfies satisfies Text-discrete ℕ_discrete
three-implies_itself = refl

three-implies : implies three (is_not x 4 ∷ []) ≡ true
unfolding implies any_satisfies satisfies Text-discrete ℕ_discrete
three-implies = refl

implies-covers_example : covers all_three (is_not x 4 ∷ []) ≡ true
unfolding covers Text-discrete ℕ_discrete
implies-covers_example = implies-covers all_three three (is_not x 4 ∷ []) three-implies refl

covers_any-simplify_union_example :
    covers_any all_three (simplify_union (three ∷ [])) ≡ covers_any all_three (three ∷ [])
covers_any-simplify_union_example = covers_any-simplify_union all_three (three ∷ []) all_normal

covers_any-subtract_example :
    covers_any all_three (subtract three (is y 6 ∷ []))
    ≡ (covers all_three three && not (covers all_three (is y 6 ∷ [])))
covers_any-subtract_example = covers_any-subtract all_three three (is y 6 ∷ []) three-IsNormal

covers_any-subtract_from_union_example :
    covers_any all_three (subtract_from_union (three ∷ []) (is y 6 ∷ []))
    ≡ (covers_any all_three (three ∷ []) && not (covers all_three (is y 6 ∷ [])))
covers_any-subtract_from_union_example =
    covers_any-subtract_from_union all_three (three ∷ []) (is y 6 ∷ []) all_normal

-- x is 3; y is not 4.
abbrev two_refs : List Refs
two_refs = (is x 3 ∷ []) ∷ (is_not y 4 ∷ []) ∷ []

two_refs-AreNormal : AreNormal two_refs
two_refs-AreNormal r (inl e) = rw e (tt, tt)
two_refs-AreNormal r (inr (inl e)) = rw e (tt, tt)
two_refs-AreNormal r (inr (inr i)) = absurd i

two_refs-AreDistinct : AreDistinct two_refs
two_refs-AreDistinct = ((λ s i e. differ s i e), ((λ s i e. absurd i), tt))
  where
    differ : (s : Refs) → In s ((is_not y 4 ∷ []) ∷ []) → s ≡ is x 3 ∷ [] → ⊥
    differ s (inl k) e = ground arith
    differ s (inr i) e = absurd i

arrange-AreCells_example : AreCells all_three two_refs (arrange two_refs)
arrange-AreCells_example =
    arrange-AreCells all_three two_refs two_refs-AreNormal two_refs-AreDistinct

any_covers-arrange_example : any_covers all_three (arrange two_refs) ≡ covers_any all_three two_refs
any_covers-arrange_example = any_covers-arrange all_three two_refs two_refs-AreNormal
