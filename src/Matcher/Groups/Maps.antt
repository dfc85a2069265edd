-- ===== src/Matcher/Groups/Maps.antt =====
-- Groups by refs (saengra-server/src/matcher.cpp) whose members are mapped.
use saengra.Prelude.{
  ℕ, zero, suc, List, [], ◌∷◌, ◌++◌, get_elem?, map, ◌≡◌, refl, sym, ap, ◌∙◌, arith,
}
use saengra.Refs.{Refs}
use saengra.Matcher.Groups.{push_group, group_into, distinct_refs, group_at, members_of}

pub map-append {ℓ ℓ'} :
    {A : Type ℓ} {B : Type ℓ'} (f : A → B) (xs ys : List A)
    → map f (xs ++ ys) ≡ map f xs ++ map f ys
map-append f [] ys = refl
map-append f (x ∷ xs) ys = ap (◌∷◌ (f x)) (map-append f xs ys)

module _ {ℓ ℓ'} {A : Type ℓ} {B : Type ℓ'} (f : A → B) where
  abbrev pub map_group : Refs × List A → Refs × List B
  map_group (r, xs) = (r, map f xs)

  abbrev pub map_groups : List (Refs × List A) → List (Refs × List B)
  map_groups [] = []
  map_groups (g ∷ groups) = map_group g ∷ map_groups groups

  map-push_group :
      (r : Refs) (x : A) (groups : List (Refs × List A))
      → push_group r (f x) (map_groups groups) ≡ map_groups (push_group r x groups)
  unfolding push_group
  map-push_group r x [] = refl
  map-push_group r x ((s, xs) ∷ groups) =
      ground (arith, map-push_group r x groups, map-append f xs (x ∷ []))

  pub map-group_into :
      (key : A → Refs) (key' : B → Refs)
      → ((x : A) → key' (f x) ≡ key x)
      → (groups : List (Refs × List A)) (xs : List A)
      → group_into key' (map_groups groups) (map f xs) ≡ map_groups (group_into key groups xs)
  unfolding group_into
  map-group_into key key' h groups [] = refl
  map-group_into key key' h groups (x ∷ xs) =
      ap (λ r. group_into key' (push_group r (f x) (map_groups groups)) (map f xs)) (h x)
      ∙ ap (λ g. group_into key' g (map f xs)) (map-push_group (key x) x groups)
      ∙ (map-group_into key key' h (push_group (key x) x groups) xs)

  pub distinct_refs-map :
      (groups : List (Refs × List A)) → distinct_refs (map_groups groups) ≡ distinct_refs groups
  unfolding distinct_refs
  distinct_refs-map [] = refl
  distinct_refs-map ((r, xs) ∷ groups) = ap (◌∷◌ r) (distinct_refs-map groups)

  group_at-map :
      (groups : List (Refs × List A)) (i : ℕ)
      → group_at (get_elem? (map_groups groups) i) ≡ map f (group_at (get_elem? groups i))
  group_at-map [] i = refl
  group_at-map ((r, xs) ∷ groups) zero = refl
  group_at-map ((r, xs) ∷ groups) (suc i) = group_at-map groups i

  pub members_of-map :
      (groups : List (Refs × List A)) (indices : List ℕ)
      → members_of (map_groups groups) indices ≡ map f (members_of groups indices)
  unfolding members_of
  members_of-map groups [] = refl
  members_of-map groups (i ∷ indices) =
      rw (group_at-map groups i, members_of-map groups indices)
        (sym (map-append f (group_at (get_elem? groups i)) (members_of groups indices)))
