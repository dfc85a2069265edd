-- ===== src/Matcher/Sorting.antt =====
-- `sort_and_deduplicate` of saengra-server/src/matcher.cpp, over `operator<` and `operator==`.
use saengra.Prelude.{
  Bool, true, false, List, [], ◌∷◌, if◌then◌else◌, ◌≡◌, sym, inl, inr, arith, Bool-cases, ◌↔◌,
  subst,
}
use saengra.Refs.Implies.{In}

module _ {A : Type 0} (lt eq : A → A → Bool) where
  pub insert_sorted : A → List A → List A
  insert_sorted x [] = x ∷ []
  insert_sorted x (y ∷ ys) = if lt x y then x ∷ y ∷ ys else y ∷ insert_sorted x ys

  pub sorted : List A → List A
  unfolding insert_sorted
  sorted [] = []
  sorted (x ∷ xs) = insert_sorted x (sorted xs)

  -- `std::unique`: of a run of equal items the first stays.
  pub unique_after : A → List A → List A
  unique_after last [] = []
  unique_after last (x ∷ xs) = if eq last x then unique_after last xs else x ∷ unique_after x xs

  pub without_repeats : List A → List A
  unfolding unique_after
  without_repeats [] = []
  without_repeats (x ∷ xs) = x ∷ unique_after x xs

  pub sort_and_deduplicate : List A → List A
  unfolding sorted without_repeats
  sort_and_deduplicate xs = without_repeats (sorted xs)

  -- No item is less than the one before it, or equal to it.
  abbrev pub Rises : A → List A → Type 0
  Rises x [] = Unit
  Rises x (y ∷ ys) = (lt y x ≡ false) × ((eq x y ≡ false) × Rises y ys)

  abbrev pub IsRising : List A → Type 0
  IsRising [] = Unit
  IsRising (x ∷ xs) = Rises x xs

  -- No item is less than the one before it.
  abbrev Ascends : A → List A → Type 0
  Ascends x [] = Unit
  Ascends x (y ∷ ys) = (lt y x ≡ false) × Ascends y ys

  abbrev IsAscending : List A → Type 0
  IsAscending [] = Unit
  IsAscending (x ∷ xs) = Ascends x xs

  module _ (asym : (a b : A) → lt a b ≡ true → lt b a ≡ false) where
    insert-Ascends :
        (last x : A) (ys : List A)
        → lt x last ≡ false
        → Ascends last ys
        → Ascends last (insert_sorted x ys)
    unfolding insert_sorted
    insert-Ascends last x [] h k = (h, tt)
    insert-Ascends last x (y ∷ ys) h k = elim (Bool-cases (lt x y)) [
      | inl before ↦ rw (before, insert_sorted) (h, (asym x y before, k.1))
      | inr behind ↦ rw (behind, insert_sorted) (k.0, insert-Ascends y x ys behind k.1)
    ]

    insert-IsAscending : (x : A) (ys : List A) → IsAscending ys → IsAscending (insert_sorted x ys)
    unfolding insert_sorted
    insert-IsAscending x [] k = tt
    insert-IsAscending x (y ∷ ys) k = elim (Bool-cases (lt x y)) [
      | inl before ↦ rw (before, insert_sorted) (asym x y before, k)
      | inr behind ↦ rw (behind, insert_sorted) (insert-Ascends y x ys behind k)
    ]

    sorted-IsAscending : (xs : List A) → IsAscending (sorted xs)
    unfolding sorted
    sorted-IsAscending [] = tt
    sorted-IsAscending (x ∷ xs) = insert-IsAscending x (sorted xs) (sorted-IsAscending xs)

    module _ (sound : (a b : A) → eq a b ≡ true → a ≡ b) where
      unique-Rises : (last : A) (xs : List A) → Ascends last xs → Rises last (unique_after last xs)
      unfolding unique_after
      unique-Rises last [] k = tt
      unique-Rises last (x ∷ xs) k = elim (Bool-cases (eq last x)) [
        | inl same_item ↦
            rw (same_item, unique_after)
              (unique-Rises last xs (subst (λ z. Ascends z xs) (sym (sound last x same_item)) k.1))
        | inr other ↦ rw (other, unique_after) (k.0, (other, unique-Rises x xs k.1))
      ]

      pub sort_and_deduplicate-IsRising : (xs : List A) → IsRising (sort_and_deduplicate xs)
      unfolding sort_and_deduplicate without_repeats
      sort_and_deduplicate-IsRising xs = rising (sorted xs) (sorted-IsAscending xs)
        where
          rising : (ys : List A) → IsAscending ys → IsRising (without_repeats ys)
          rising [] k = tt
          rising (y ∷ ys) k = unique-Rises y ys k

  In-insert : (a x : A) (ys : List A) → In a (insert_sorted x ys) ↔ In a (x ∷ ys)
  unfolding insert_sorted
  In-insert a x [] = ((λ i. i), (λ i. i))
  In-insert a x (y ∷ ys) = elim (Bool-cases (lt x y)) [
    | inl before ↦ rw (before, insert_sorted) ((λ i. i), (λ i. i))
    | inr behind ↦
        let ih = In-insert a x ys in
        rw (behind, insert_sorted) (ground (arith, ih), ground (arith, ih))
  ]

  In-sorted : (a : A) (xs : List A) → In a (sorted xs) ↔ In a xs
  unfolding sorted
  In-sorted a [] = ((λ i. i), (λ i. i))
  In-sorted a (x ∷ xs) =
      let ih = In-sorted a xs in
      let step = In-insert a x (sorted xs) in (ground (arith, ih, step), ground (arith, ih, step))

  module _ (sound : (a b : A) → eq a b ≡ true → a ≡ b) where
    In-unique_after :
        (a last : A) (xs : List A) → In a (last ∷ unique_after last xs) ↔ In a (last ∷ xs)
    unfolding unique_after
    In-unique_after a last [] = ((λ i. i), (λ i. i))
    In-unique_after a last (x ∷ xs) = elim (Bool-cases (eq last x)) [
      | inl same_item ↦
          let ih = In-unique_after a last xs in
          let e = sound last x same_item in
          rw (same_item, unique_after) (ground (arith, ih, e), ground (arith, ih, e))
      | inr other ↦
          let ih = In-unique_after a x xs in
          rw (other, unique_after) (ground (arith, ih), ground (arith, ih))
    ]

    In-without_repeats : (a : A) (xs : List A) → In a (without_repeats xs) ↔ In a xs
    unfolding without_repeats
    In-without_repeats a [] = ((λ i. i), (λ i. i))
    In-without_repeats a (x ∷ xs) = In-unique_after a x xs

    pub In-sort_and_deduplicate : (a : A) (xs : List A) → In a (sort_and_deduplicate xs) ↔ In a xs
    unfolding sort_and_deduplicate
    In-sort_and_deduplicate a xs =
        let first = In-without_repeats a (sorted xs) in
        let second = In-sorted a xs in ((λ i. second.0 (first.0 i)), (λ i. first.1 (second.1 i)))
