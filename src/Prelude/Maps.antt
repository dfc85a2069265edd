-- ===== src/Prelude/Maps.antt =====
-- The hash sets and hash maps of the program: lists without repeated keys, in any order.
use mathlib.Core.Path.{◌≡◌, refl}
use mathlib.Core.Logic.{ite}
use mathlib.Core.Bool.{Bool, true, false, ◌||◌}
use mathlib.Core.Option.{Option, none, some}
use mathlib.Core.List.{List, [], ◌∷◌, ◌++◌}
use native.Mathlib.Omega.{arith}
use native.Mathlib.Decide.{ℕ_discrete}
use Prim.Native.Nat.{ℕ}
use saengra.Prelude.Tests.{if◌then◌else◌}

-- Equality of keys.
pub record Eq {ℓ} (A : Type ℓ) : Type ℓ where
  pub dec : Discrete A

instance abbrev pub nat_eq : Eq ℕ
nat_eq = record { dec = ℕ_discrete }

abbrev pub same {ℓ} : {A : Type ℓ} ⦃e : Eq A⦄ → A → A → Bool
same ⦃e⦄ a b = ite (e.dec a b) true false

module _ {A : Type 0} ⦃e : Eq A⦄ where
  -- `contains`, `insert` and `erase` of a set.
  unfoldable pub contains : List A → A → Bool
  contains [] a = false
  contains (x ∷ xs) a = ite (e.dec x a) true (contains xs a)

  unfoldable pub set_insert : A → List A → List A
  unfolding contains
  set_insert a xs = if contains xs a then xs else a ∷ xs

  unfoldable pub set_erase : A → List A → List A
  set_erase a [] = []
  set_erase a (x ∷ xs) = ite (e.dec x a) (set_erase a xs) (x ∷ set_erase a xs)

  -- No item stands twice.
  abbrev pub IsSetList : List A → Type 0
  IsSetList [] = Unit
  IsSetList (x ∷ xs) = (contains xs x ≡ false) × IsSetList xs

  pub contains-insert :
      (a b : A) (xs : List A) → contains (set_insert a xs) b ≡ ite (e.dec a b) true (contains xs b)
  unfolding contains set_insert
  contains-insert a b xs = ground arith

  pub contains-erase :
      (a b : A) (xs : List A) → contains (set_erase a xs) b ≡ ite (e.dec a b) false (contains xs b)
  unfolding contains set_erase
  contains-erase a b [] = ground arith
  contains-erase a b (x ∷ xs) = ground (arith, contains-erase a b xs)

  pub contains-append :
      (a : A) (xs ys : List A) → contains (xs ++ ys) a ≡ contains xs a || contains ys a
  unfolding contains
  contains-append a [] ys = refl
  contains-append a (x ∷ xs) ys = ground (arith, contains-append a xs ys)

  pub IsSetList-insert : (a : A) (xs : List A) → IsSetList xs → IsSetList (set_insert a xs)
  unfolding set_insert
  IsSetList-insert a xs h = ground arith

  pub IsSetList-erase : (a : A) (xs : List A) → IsSetList xs → IsSetList (set_erase a xs)
  unfolding set_erase
  IsSetList-erase a [] h = tt
  IsSetList-erase a (x ∷ xs) h = ground (arith, IsSetList-erase a xs h.1, contains-erase a x xs)

module _ {K V : Type 0} ⦃e : Eq K⦄ where
  unfoldable pub lookup : K → List (K × V) → Option V
  lookup k [] = none
  lookup k ((j, v) ∷ m) = ite (e.dec j k) (some v) (lookup k m)

  unfoldable pub insert : K → V → List (K × V) → List (K × V)
  insert k v [] = (k, v) ∷ []
  insert k v ((j, w) ∷ m) = ite (e.dec j k) ((j, v) ∷ m) ((j, w) ∷ insert k v m)

  unfoldable pub erase : K → List (K × V) → List (K × V)
  erase k [] = []
  erase k ((j, w) ∷ m) = ite (e.dec j k) (erase k m) ((j, w) ∷ erase k m)

  -- No key stands twice.
  abbrev pub IsMap : List (K × V) → Type 0
  IsMap [] = Unit
  IsMap ((j, w) ∷ m) = (lookup j m ≡ none) × IsMap m

  pub lookup-insert :
      (k j : K) (v : V) (m : List (K × V))
      → lookup j (insert k v m) ≡ ite (e.dec k j) (some v) (lookup j m)
  unfolding lookup insert
  lookup-insert k j v [] = refl
  lookup-insert k j v ((i, w) ∷ m) = ground (arith, lookup-insert k j v m)

  pub lookup-erase :
      (k j : K) (m : List (K × V)) → lookup j (erase k m) ≡ ite (e.dec k j) none (lookup j m)
  unfolding lookup erase
  lookup-erase k j [] = ground arith
  lookup-erase k j ((i, w) ∷ m) = ground (arith, lookup-erase k j m)

  pub IsMap-insert : (k : K) (v : V) (m : List (K × V)) → IsMap m → IsMap (insert k v m)
  unfolding insert lookup
  IsMap-insert k v [] h = (refl, tt)
  IsMap-insert k v ((i, w) ∷ m) h = ground (arith, lookup-insert k i v m, IsMap-insert k v m h.1)

  pub IsMap-erase : (k : K) (m : List (K × V)) → IsMap m → IsMap (erase k m)
  unfolding erase
  IsMap-erase k [] h = tt
  IsMap-erase k ((i, w) ∷ m) h = ground (arith, lookup-erase k i m, IsMap-erase k m h.1)
