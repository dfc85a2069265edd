-- ===== src/Refs/Meaning.antt =====
-- The values that refs cover, with `Refs::binding`, `Refs::copy_and_set` and `Refs::implies` of
-- saengra-server/src/refs.cpp.
use saengra.Prelude.{
  ◌≡◌, refl, Bool, true, false, not, ◌&&◌, ◌||◌, Option, none, some, List, [], ◌∷◌, ◌++◌, arith,
  ◌==◌, if◌then◌else◌,
}
use saengra.Text.{text_eq}
use saengra.Edge.{VertexId}
use saengra.Refs.{
  RefName, Literal, Refs, Binding, binding, copy_and_set, skip_name, satisfies, any_satisfies,
  implies,
}

-- The values of all refs.
abbrev pub Values : Type 0
Values = RefName → VertexId

abbrev pub holds : Values → Literal → Bool
holds ρ l = if l.negative then not (ρ l.name == l.value) else ρ l.name == l.value

unfoldable pub covers : Values → Refs → Bool
covers ρ [] = true
covers ρ (l ∷ ls) = holds ρ l && covers ρ ls

abbrev pub covers? : Values → Option Refs → Bool
covers? ρ none = false
covers? ρ (some r) = covers ρ r

unfoldable pub covers_any : Values → List Refs → Bool
covers_any ρ [] = false
covers_any ρ (r ∷ rs) = covers ρ r || covers_any ρ rs

module _ (ρ : Values) where
  pub covers-append : (a b : Refs) → covers ρ (a ++ b) ≡ (covers ρ a && covers ρ b)
  unfolding covers
  covers-append [] b = refl
  covers-append (l ∷ a) b = ground (arith, covers-append a b)

  any_satisfies-holds :
      (required : Literal) (a : Refs)
      → any_satisfies required a ≡ true
      → covers ρ a ≡ true
      → holds ρ required ≡ true
  unfolding any_satisfies satisfies covers
  any_satisfies-holds required [] h c = cc
  any_satisfies-holds required (l ∷ a) h c = ground (arith, any_satisfies-holds required a)

  -- If refs imply others, the others cover every value that they cover.
  pub implies-covers : (a b : Refs) → implies a b ≡ true → covers ρ a ≡ true → covers ρ b ≡ true
  unfolding implies covers
  implies-covers a [] h c = refl
  implies-covers a (l ∷ b) h c = ground (arith, any_satisfies-holds l a, implies-covers a b)

  -- What `binding` says of a value is true wherever the refs hold.
  abbrev pub Says : Binding → RefName → VertexId → Refs → Type 0
  Says Binding.already_set name value r = covers ρ r ≡ true → ρ name ≡ value
  Says Binding.impossible name value r = covers ρ r ≡ true → ¬ (ρ name ≡ value)
  Says Binding.possible name value r =
      covers ρ (copy_and_set name value r) ≡ (covers ρ r && ρ name == value)

  skip_name-covers :
      (name : RefName) (value : VertexId) (r : Refs)
      → binding name value r ≡ Binding.possible
      → (covers ρ (skip_name name r) && ρ name == value) ≡ (covers ρ r && ρ name == value)
  unfolding skip_name binding covers
  skip_name-covers name value [] h = refl
  skip_name-covers name value (l ∷ r) h = ground (arith, skip_name-covers name value r)

  copy_and_set-covers :
      (name : RefName) (value : VertexId) (r : Refs)
      → binding name value r ≡ Binding.possible
      → covers ρ (copy_and_set name value r) ≡ (covers ρ r && ρ name == value)
  unfolding copy_and_set binding covers
  copy_and_set-covers name value [] h = ground arith
  copy_and_set-covers name value (l ∷ r) h =
      ground (arith, copy_and_set-covers name value r, skip_name-covers name value (l ∷ r))

  already_set-covers :
      (name : RefName) (value : VertexId) (r : Refs)
      → binding name value r ≡ Binding.already_set
      → covers ρ r ≡ true
      → ρ name ≡ value
  unfolding binding covers
  already_set-covers name value [] h c = cc
  already_set-covers name value (l ∷ r) h c = ground (arith, already_set-covers name value r)

  impossible-covers :
      (name : RefName) (value : VertexId) (r : Refs)
      → binding name value r ≡ Binding.impossible
      → covers ρ r ≡ true
      → ρ name ≡ value
      → ⊥
  unfolding binding covers
  impossible-covers name value [] h c e = cc
  impossible-covers name value (l ∷ r) h c e = ground (arith, impossible-covers name value r)

  -- For a value of a ref, an answer of `binding` says the following: a value that is already set is
  -- the only one that the refs cover, an impossible one is covered by none of them, and setting a
  -- possible one restricts the covered values to exactly those with it.
  pub binding_lem :
      (name : RefName) (value : VertexId) (r : Refs) (b : Binding)
      → binding name value r ≡ b
      → Says b name value r
  binding_lem name value r Binding.possible h = copy_and_set-covers name value r h
  binding_lem name value r Binding.already_set h = already_set-covers name value r h
  binding_lem name value r Binding.impossible h = impossible-covers name value r h
