-- ===== src/Matcher/Results/Expanded/Correct.antt =====
-- The subgraphs that `expand_negatives` (saengra-server/src/matcher.cpp) leaves.
use saengra.Prelude.{
  false, List, [], ◌∷◌, ◌++◌, if◌then◌else◌, nat_eq, ◌≡◌, refl, sym, ap, ◌∙◌, subst, ◌⊎◌, inl, inr,
  ◌↔◌, arith, Bool-cases,
}
use saengra.Edge.{VertexId}
use saengra.Refs.{Refs, has_negatives}
use saengra.Refs.Cells.{excluded_values}
use saengra.Refs.Cells.Excluded.{excluded_values-none}
use saengra.Refs.Implies.{In}
use saengra.Vertices
use saengra.Graph.{Graph}
use saengra.Subgraph.{Position, Subgraph}
use saengra.Matcher.{Found}
use saengra.Matcher.Groups.{with_refs}
use saengra.Matcher.Results.{
  variants_of, copies_with, without_negatives, expanded, any_negatives, expand_negatives,
}
use saengra.Matcher.Results.Expanded.{
  Expands, IsExpansion, In-both, variants_of-In, In-variants_of, copies_with-In, In-copies_with,
}

module _ (g : Graph) where
  abbrev vertices : List VertexId
  vertices = Vertices.iter_present g.vertices

  -- One subgraph and its expansions.
  abbrev variants_for : Subgraph → List Subgraph
  variants_for sg = copies_with sg (variants_of vertices (excluded_values sg.refs) (sg.refs ∷ []))

  variants_for-IsExpansion : (sg x : Subgraph) → In x (variants_for sg) → IsExpansion g sg x
  variants_for-IsExpansion sg x i =
      let (r', r'_in, e) = copies_with-In sg x _ i in
      let (r, r_in, rest) =
        variants_of-In vertices (excluded_values sg.refs) r' (sg.refs ∷ []) r'_in in
      record {
        refs = r';
        expands = only r r_in (λ q. Expands vertices (excluded_values sg.refs) q r') rest;
        same = e;
      }
    where
      only : (q : Refs) → In q (sg.refs ∷ []) → (P : Refs → Type 0) → P q → P sg.refs
      only q (inl k) P h = subst P k h
      only q (inr k) P h = absurd k

  In-variants_for : (sg x : Subgraph) → IsExpansion g sg x → In x (variants_for sg)
  In-variants_for sg x h =
      subst (λ y. In y (variants_for sg)) (sym h.same)
        (In-copies_with sg h.refs _ (
          In-variants_of vertices (excluded_values sg.refs) sg.refs h.refs (sg.refs ∷ []) (inl refl)
            h.expands))

  -- Without negative literals there is nothing to expand.
  none-IsExpansion : (sg : Subgraph) → has_negatives sg.refs ≡ false → IsExpansion g sg sg
  unfolding with_refs
  none-IsExpansion sg h = record {
    refs = sg.refs;
    expands =
        subst (λ names. Expands vertices names sg.refs sg.refs)
          (sym (excluded_values-none sg.refs h)) refl;
    same = refl;
  }

  IsExpansion-none : (sg x : Subgraph) → has_negatives sg.refs ≡ false → IsExpansion g sg x → x ≡ sg
  unfolding with_refs
  IsExpansion-none sg x h k =
      let e : k.refs ≡ sg.refs =
        subst (λ names. Expands vertices names sg.refs k.refs) (excluded_values-none sg.refs h)
          k.expands in
      k.same ∙ ap (λ r. with_refs r sg) e

  -- One of the subgraphs is expanded to it.
  AreExpansions : List Subgraph → Subgraph → Type 0
  AreExpansions sgs x = (sg : Subgraph) × In sg sgs × IsExpansion g sg x

  later : (sg x : Subgraph) (sgs : List Subgraph) → AreExpansions sgs x → AreExpansions (sg ∷ sgs) x
  unfolding AreExpansions
  later sg x sgs (y, i, k) = (y, inr i, k)

  kept-AreExpansions :
      (x : Subgraph) (sgs : List Subgraph) → In x (without_negatives sgs) → AreExpansions sgs x
  unfolding AreExpansions without_negatives
  kept-AreExpansions x [] i = absurd i
  kept-AreExpansions x (sg ∷ sgs) i = elim (Bool-cases (has_negatives sg.refs)) [
    | inl some_there ↦
        later sg x sgs (kept-AreExpansions x sgs (rw (some_there, without_negatives) at i))
    | inr none_there ↦ elim (kept_cases none_there i) [
      | inl e ↦ (sg, inl refl, subst (IsExpansion g sg) (sym e) (none-IsExpansion sg none_there))
      | inr k ↦ later sg x sgs (kept-AreExpansions x sgs k)
    ]
  ]
    where
      kept_cases :
          has_negatives sg.refs ≡ false
          → In x (without_negatives (sg ∷ sgs))
          → (x ≡ sg) ⊎ In x (without_negatives sgs)
      kept_cases h k = ground (arith, h, k)

  expanded-AreExpansions :
      (x : Subgraph) (sgs : List Subgraph) → In x (expanded vertices sgs) → AreExpansions sgs x
  unfolding AreExpansions expanded
  expanded-AreExpansions x [] i = absurd i
  expanded-AreExpansions x (sg ∷ sgs) i = elim (Bool-cases (has_negatives sg.refs)) [
    | inl some_there ↦
        elim ((In-both x (variants_for sg) (expanded vertices sgs)).0 (
          subst
            (λ b.
              In x (if b then variants_for sg ++ expanded vertices sgs else expanded vertices sgs))
            some_there i)) [
              | inl here ↦ (sg, inl refl, variants_for-IsExpansion sg x here)
              | inr k ↦ later sg x sgs (expanded-AreExpansions x sgs k)
            ]
    | inr none_there ↦ later sg x sgs (
        expanded-AreExpansions x sgs (
          subst
            (λ b.
              In x (if b then variants_for sg ++ expanded vertices sgs else expanded vertices sgs))
            none_there i))
  ]

  AreExpansions-left :
      (x : Subgraph) (sgs : List Subgraph)
      → AreExpansions sgs x
      → In x (without_negatives sgs) ⊎ In x (expanded vertices sgs)
  unfolding AreExpansions expanded without_negatives
  AreExpansions-left x [] (sg, i, k) = absurd i
  AreExpansions-left x (sg ∷ sgs) (y, inl e, k) =
      let this = subst (λ z. IsExpansion g z x) e k in
      elim (Bool-cases (has_negatives sg.refs)) [
        | inl some_there ↦
            let here =
              (In-both x (variants_for sg) (expanded vertices sgs)).1
                (inl (In-variants_for sg x this)) in
            inr (
              subst
                (λ b.
                  In x
                    (if b then variants_for sg ++ expanded vertices sgs else expanded vertices sgs))
                (sym some_there) here)
        | inr none_there ↦
            let same = IsExpansion-none sg x none_there this in
            inl (
              subst (λ b. In x (if b then without_negatives sgs else sg ∷ without_negatives sgs))
                (sym none_there) (inl same))
      ]
  AreExpansions-left x (sg ∷ sgs) (y, inr i, k) =
      let ih = AreExpansions-left x sgs (y, i, k) in
      let behind = (In-both x (variants_for sg) (expanded vertices sgs)).1 in
      ground (arith, ih, behind)

  -- Where no subgraph has negative literals, all stay.
  none_AreExpansions :
      (x : Subgraph) (sgs : List Subgraph)
      → any_negatives sgs ≡ false
      → In x sgs ↔ AreExpansions sgs x
  unfolding any_negatives AreExpansions
  none_AreExpansions x [] h = ((λ i. absurd i), (λ k. absurd k.1))
  none_AreExpansions x (sg ∷ sgs) h =
      let here : has_negatives sg.refs ≡ false = ground arith in
      let there : any_negatives sgs ≡ false = ground arith in
      let ih = none_AreExpansions x sgs there in
      (
        λ i. elim i [
          | inl e ↦ (sg, inl refl, subst (IsExpansion g sg) (sym e) (none-IsExpansion sg here))
          | inr k ↦ later sg x sgs (ih.0 k)
        ],
        λ (y, i, k). elim i [
          | inl e ↦ inl (IsExpansion-none sg x here (subst (λ z. IsExpansion g z x) e k))
          | inr j ↦ inr (ih.1 (y, j, k))
        ],
      )

  -- What is there after the expansion are the expansions of what was there.
  pub expand_negatives_lem :
      (p : Position) (a : Found) (x : Subgraph)
      → In x (expand_negatives g p a).subgraphs
        ↔ ((sg : Subgraph) × In sg a.subgraphs × IsExpansion g sg x)
  unfolding expand_negatives AreExpansions
  expand_negatives_lem p a x = elim (Bool-cases (any_negatives a.subgraphs)) [
    | inl some_there ↦
        rw (some_there, expand_negatives)
          (
            λ i.
                elim ((In-both x (without_negatives a.subgraphs) (expanded vertices a.subgraphs)).0
                  i) [
                    | inl k ↦ kept-AreExpansions x a.subgraphs k
                    | inr k ↦ expanded-AreExpansions x a.subgraphs k
                  ],
            λ k.
                (In-both x (without_negatives a.subgraphs) (expanded vertices a.subgraphs)).1
                  (AreExpansions-left x a.subgraphs k),
          )
    | inr none_there ↦
        rw (none_there, expand_negatives) (none_AreExpansions x a.subgraphs none_there)
  ]
