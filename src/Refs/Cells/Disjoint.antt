-- ===== src/Refs/Cells/Disjoint.antt =====
-- The typical case of `arrange` of saengra-server/src/refs.cpp: distinct refs that set the same refs.
use saengra.Prelude.{
  ℕ, suc, ◌<◌, ◌≡◌, ◌≢◌, ◌⊎◌, inl, inr, refl, sym, ap, ◌∙◌, true, false, not, ◌&&◌, List, [], ◌∷◌,
  ◌++◌, arith, Bool-cases, length, contains, nat_eq, ap₂, subst, append_assoc, length-append,
}
use saengra.Text.{text_eq}
use saengra.Edge.{VertexId}
use saengra.Refs.{RefName, Literal, Refs, has_negatives}
use saengra.Refs.Meaning.{Values, covers, covers_any}
use saengra.Refs.Implies.{In}
use saengra.Refs.Cells.{
  positives, same_names, same_positive_names, all_simple, is_disjoint, single_cells, arrange,
}
use saengra.Refs.Subtract.{AreNormal, singleton-AreNormal}
use saengra.Refs.Union.{In-covers_any}
use saengra.Refs.Cells.Correct.{AreCells, agrees-none, loop-AreCells, loop-covers}
use saengra.Refs.Cells.Terms.{agrees, any_covers, agrees-append}

-- No two refs are equal.
abbrev pub AreDistinct : List Refs → Type 0
AreDistinct [] = Unit
AreDistinct (r ∷ rs) = ((s : Refs) → In s rs → s ≢ r) × AreDistinct rs

module _ (ρ : Values) where
  -- The literals that set names to their values.
  set_to_values : List (RefName × VertexId) → Refs
  set_to_values [] = []
  set_to_values ((name, v) ∷ rest) =
      record { name = name; negative = false; value = ρ name } ∷ set_to_values rest

  simple_lem :
      (r : Refs) (names : List (RefName × VertexId))
      → has_negatives r ≡ false
      → same_names (positives r) names ≡ true
      → covers ρ r ≡ true
      → r ≡ set_to_values names
  unfolding set_to_values has_negatives positives same_names covers
  simple_lem [] [] n h c = refl
  simple_lem [] (x ∷ names) n h c = cc
  simple_lem (l ∷ r) [] n h c = ground arith
  simple_lem (l ∷ r) ((name, v) ∷ names) n h c =
      ap₂ (λ (x : Literal) (xs : Refs). x ∷ xs) (ground arith)
        (simple_lem r names (ground arith) (ground arith) (ground arith))

  all_simple-In :
      (first r : Refs) (rs : List Refs)
      → all_simple first rs ≡ true
      → In r rs
      → covers ρ r ≡ true
      → r ≡ set_to_values (positives first)
  unfolding all_simple same_positive_names
  all_simple-In first r [] h i c = absurd i
  all_simple-In first r (x ∷ rs) h (inl e) c =
      simple_lem r (positives first) (rw e (ground arith)) (rw e (ground arith)) c
  all_simple-In first r (x ∷ rs) h (inr i) c = all_simple-In first r rs (ground arith) i c

  agrees-none-above :
      (i n : ℕ) (rs : List Refs) → n < i → agrees ρ i rs (n ∷ []) ≡ not (covers_any ρ rs)
  unfolding agrees contains covers_any
  agrees-none-above i n [] h = refl
  agrees-none-above i n (r ∷ rs) h = ground (arith, agrees-none-above (suc i) n rs)

  agrees-single :
      (before : List Refs) (r : Refs) (behind : List Refs)
      → agrees ρ 0 (before ++ r ∷ behind) (length before ∷ [])
        ≡ (not (covers_any ρ before) && (covers ρ r && not (covers_any ρ behind)))
  unfolding agrees contains
  agrees-single before r behind =
      agrees-append ρ 0 before (r ∷ behind) (length before ∷ [])
      ∙ ground (
        arith,
        agrees-none ρ 0 (length before) before,
        agrees-none-above (suc (length before)) (length before) behind,
      )

  In-middle : (before : List Refs) (r : Refs) (behind : List Refs) → In r (before ++ r ∷ behind)
  In-middle [] r behind = inl refl
  In-middle (x ∷ before) r behind = inr (In-middle before r behind)

  In-either :
      (before : List Refs) (r : Refs) (behind : List Refs) (s : Refs)
      → In s before ⊎ In s behind
      → In s (before ++ r ∷ behind)
  In-either [] r behind s (inl i) = absurd i
  In-either [] r behind s (inr i) = inr i
  In-either (x ∷ before) r behind s (inl (inl e)) = inl e
  In-either (x ∷ before) r behind s (inl (inr i)) = inr (In-either before r behind s (inl i))
  In-either (x ∷ before) r behind s (inr i) = inr (In-either before r behind s (inr i))

  distinct-before :
      (before : List Refs) (r : Refs) (behind : List Refs) (s : Refs)
      → AreDistinct (before ++ r ∷ behind)
      → In s before ⊎ In s behind
      → s ≢ r
  distinct-before [] r behind s d (inl i) e = absurd i
  distinct-before [] r behind s d (inr i) e = d.0 s i e
  distinct-before (x ∷ before) r behind s d (inl (inl e')) e =
      d.0 r (In-middle before r behind) (sym e ∙ e')
  distinct-before (x ∷ before) r behind s d (inl (inr i)) e =
      distinct-before before r behind s d.1 (inl i) e
  distinct-before (x ∷ before) r behind s d (inr i) e =
      distinct-before before r behind s d.1 (inr i) e

  module _ (first : Refs) (refs : List Refs) (simple : all_simple first refs ≡ true)
      (distinct : AreDistinct refs) where
    others-not :
        (before : List Refs) (r : Refs) (behind part : List Refs)
        → refs ≡ before ++ r ∷ behind
        → ((s : Refs) → In s part → In s before ⊎ In s behind)
        → covers ρ r ≡ true
        → covers_any ρ part ≡ false
    others-not before r behind part e inside c = elim (Bool-cases (covers_any ρ part)) [
      | inr no_other ↦ no_other
      | inl some_other ↦
          let (s, s_in, s_covers) = In-covers_any ρ part some_other in
          let place = inside s s_in in
          let s_refs = subst (λ x. In s x) (sym e) (In-either before r behind s place) in
          let r_refs = subst (λ x. In r x) (sym e) (In-middle before r behind) in
          absurd (
            distinct-before before r behind s (subst (λ x. AreDistinct x) e distinct) place (
              all_simple-In first s refs simple s_refs s_covers
              ∙ sym (all_simple-In first r refs simple r_refs c)))
    ]

    single_cells-AreCells :
        (before rs : List Refs)
        → refs ≡ before ++ rs
        → AreNormal rs
        → AreCells ρ refs (single_cells (length before) rs)
    unfolding single_cells contains covers_any
    single_cells-AreCells before [] e n = tt
    single_cells-AreCells before (r ∷ rs) e n =
        let not_before = others-not before r rs before e (λ s i. inl i) in
        let not_behind = others-not before r rs rs e (λ s i. inr i) in
        let len = ap length e ∙ length-append before (r ∷ rs) in
        (
          record {
            normal = singleton-AreNormal r (n r (inl refl));
            below = λ m k. ground (arith, len);
            exact = ground (
              arith,
              not_before,
              not_behind,
              agrees-single before r rs,
              ap (λ x. agrees ρ 0 x (length before ∷ [])) e,
            );
          },
          subst (λ k. AreCells ρ refs (single_cells k rs))
              (length-append before (r ∷ []) ∙ omega arith)
              (single_cells-AreCells (before ++ r ∷ []) rs
                (e ∙ sym (append_assoc before (r ∷ []) rs)) (λ s i. n s (inr i))),
        )

  single_cells-covers :
      (i : ℕ) (rs : List Refs) → any_covers ρ (single_cells i rs) ≡ covers_any ρ rs
  unfolding single_cells any_covers covers_any
  single_cells-covers i [] = refl
  single_cells-covers i (r ∷ rs) = ground (arith, single_cells-covers (suc i) rs)

is_disjoint-first :
    (refs : List Refs) → is_disjoint refs ≡ true → (first : Refs) × (all_simple first refs ≡ true)
unfolding is_disjoint all_simple
is_disjoint-first [] h = ([], refl)
is_disjoint-first (r ∷ rs) h = (r, h)

-- Of distinct refs in normal form, each cell of the arrangement has terms in normal form and members
-- that are indices of the refs, and its terms together cover some values if and only if the members
-- are exactly those of the refs that cover them.
pub arrange-AreCells :
    (ρ : Values) (refs : List Refs)
    → AreNormal refs
    → AreDistinct refs
    → AreCells ρ refs (arrange refs)
unfolding arrange
arrange-AreCells ρ refs n d = elim (Bool-cases (is_disjoint refs)) [
  | inl typical ↦
      let (first, simple) = is_disjoint-first refs typical in
      rw (typical, arrange) (single_cells-AreCells ρ first refs simple d [] refs refl n)
  | inr general ↦ rw (general, arrange) (loop-AreCells ρ [] 0 [] refs refl n tt)
]

-- Of refs in normal form, the cells of the arrangement together cover the values that some of the
-- refs covers.
pub any_covers-arrange :
    (ρ : Values) (refs : List Refs)
    → AreNormal refs
    → any_covers ρ (arrange refs) ≡ covers_any ρ refs
unfolding arrange any_covers covers_any
any_covers-arrange ρ refs n = elim (Bool-cases (is_disjoint refs)) [
  | inl typical ↦ rw (typical, arrange) (single_cells-covers ρ 0 refs)
  | inr general ↦ rw (general, arrange) (loop-covers ρ [] 0 [] refs refl n tt refl)
]
