-- ===== src/Refs/Sorting.antt =====
-- Lists of refs sorted and without repetition: `std::sort` and `std::unique` in `simplify_union` of
-- saengra-server/src/refs.cpp.
use saengra.Prelude.{
  ◌≡◌, inl, inr, refl, sym, subst, true, false, ◌||◌, List, [], ◌∷◌, arith, Bool-cases,
}
use saengra.Refs.{Refs, refs_eq, refs_lt, insert_refs, sort_refs, unique_behind, unique}
use saengra.Refs.Order.{refs_eq_sound, refs_eq_refl, refs_lt_irrefl, refs_lt_trans, refs_lt_total}
use saengra.Refs.Implies.{In}
use saengra.Refs.Meaning.{Values, covers, covers_any}

-- Sorted, and sorted without repetition.
abbrev pub HeadLe : Refs → List Refs → Type 0
HeadLe x [] = Unit
HeadLe x (y ∷ ys) = refs_lt y x ≡ false

abbrev pub IsSorted : List Refs → Type 0
IsSorted [] = Unit
IsSorted (x ∷ xs) = HeadLe x xs × IsSorted xs

abbrev pub Above : Refs → List Refs → Type 0
Above x [] = Unit
Above x (y ∷ ys) = (refs_lt x y ≡ true) × Above x ys

abbrev pub IsStrict : List Refs → Type 0
IsStrict [] = Unit
IsStrict (x ∷ xs) = Above x xs × IsStrict xs

HeadLe-insert :
    (x r : Refs) (rs : List Refs) → HeadLe x rs → refs_lt r x ≡ false → HeadLe x (insert_refs r rs)
unfolding insert_refs
HeadLe-insert x r [] h k = k
HeadLe-insert x r (y ∷ rs) h k = ground arith

insert-IsSorted : (r : Refs) (rs : List Refs) → IsSorted rs → IsSorted (insert_refs r rs)
unfolding insert_refs
insert-IsSorted r [] h = (tt, tt)
insert-IsSorted r (x ∷ rs) h = ground (
  arith,
  refs_lt_trans r x r,
  refs_lt_irrefl r,
  insert-IsSorted r rs h.1,
  HeadLe-insert x r rs h.0,
)

pub sort-IsSorted : (rs : List Refs) → IsSorted (sort_refs rs)
unfolding sort_refs
sort-IsSorted [] = tt
sort-IsSorted (r ∷ rs) = insert-IsSorted r (sort_refs rs) (sort-IsSorted rs)

Above-trans : (x y : Refs) (ys : List Refs) → refs_lt x y ≡ true → Above y ys → Above x ys
Above-trans x y [] h a = tt
Above-trans x y (z ∷ ys) h a = (refs_lt_trans x y z h a.0, Above-trans x y ys h a.1)

unique_behind-IsStrict :
    (last : Refs) (rs : List Refs)
    → HeadLe last rs
    → IsSorted rs
    → IsStrict (last ∷ unique_behind last rs)
unfolding unique_behind
unique_behind-IsStrict last [] h s = (tt, tt)
unique_behind-IsStrict last (r ∷ rs) h s = elim (Bool-cases (refs_eq last r)) [
  | inl eq ↦ rw eq (
      unique_behind-IsStrict last rs (subst (λ x. HeadLe x rs) (sym (refs_eq_sound last r eq)) s.0)
        s.1)
  | inr ne ↦
      let rest = unique_behind-IsStrict r rs s.0 s.1 in
      let lt : refs_lt last r ≡ true = ground (arith, refs_lt_total last r, h, refs_eq_refl last) in
      rw ne ((lt, Above-trans last r (unique_behind r rs) lt rest.0), rest)
]

pub unique-IsStrict : (rs : List Refs) → IsSorted rs → IsStrict (unique rs)
unfolding unique
unique-IsStrict [] h = tt
unique-IsStrict (r ∷ rs) h = unique_behind-IsStrict r rs h.0 h.1

module _ (ρ : Values) where
  covers_any-insert :
      (r : Refs) (rs : List Refs)
      → covers_any ρ (insert_refs r rs) ≡ (covers ρ r || covers_any ρ rs)
  unfolding insert_refs covers_any
  covers_any-insert r [] = refl
  covers_any-insert r (x ∷ rs) = ground (arith, covers_any-insert r rs)

  pub covers_any-sort : (rs : List Refs) → covers_any ρ (sort_refs rs) ≡ covers_any ρ rs
  unfolding sort_refs covers_any
  covers_any-sort [] = refl
  covers_any-sort (r ∷ rs) = ground (arith, covers_any-insert r (sort_refs rs), covers_any-sort rs)

  covers_any-unique_behind :
      (last : Refs) (rs : List Refs)
      → covers_any ρ (last ∷ unique_behind last rs) ≡ covers_any ρ (last ∷ rs)
  unfolding unique_behind covers_any
  covers_any-unique_behind last [] = refl
  covers_any-unique_behind last (r ∷ rs) =
      ground (
        arith,
        refs_eq_sound last r,
        covers_any-unique_behind last rs,
        covers_any-unique_behind r rs,
      )

  pub covers_any-unique : (rs : List Refs) → covers_any ρ (unique rs) ≡ covers_any ρ rs
  unfolding unique
  covers_any-unique [] = refl
  covers_any-unique (r ∷ rs) = covers_any-unique_behind r rs

In-insert : (x r : Refs) (rs : List Refs) → In x (insert_refs r rs) → In x (r ∷ rs)
unfolding insert_refs
In-insert x r [] h = h
In-insert x r (y ∷ rs) h = ground (arith, In-insert x r rs)

pub In-sort : (x : Refs) (rs : List Refs) → In x (sort_refs rs) → In x rs
unfolding sort_refs
In-sort x [] h = h
In-sort x (r ∷ rs) h = ground (arith, In-insert x r (sort_refs rs) h, In-sort x rs)

In-unique_behind : (x last : Refs) (rs : List Refs) → In x (unique_behind last rs) → In x rs
unfolding unique_behind
In-unique_behind x last [] h = h
In-unique_behind x last (r ∷ rs) h =
    ground (arith, In-unique_behind x last rs, In-unique_behind x r rs)

pub In-unique : (x : Refs) (rs : List Refs) → In x (unique rs) → In x rs
unfolding unique
In-unique x [] h = h
In-unique x (r ∷ rs) h = ground (arith, In-unique_behind x r rs)
