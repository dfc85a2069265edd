-- ===== src/Refs/Implies.antt =====
-- `Refs::implies` of saengra-server/src/refs.cpp as an order of normal forms.
use saengra.Prelude.{
  ◌≡◌, ◌⊎◌, inl, inr, refl, sym, ap₂, ◌∙◌, subst, true, false, List, [], ◌∷◌, arith, Bool-cases,
}
use saengra.Text.{text_eq, text_lt_irrefl}
use saengra.Refs.{Literal, Refs, implies, satisfies, any_satisfies, literal_lt}
use saengra.Refs.Order.{literal_lt_irrefl, literal_lt_asym}

abbrev pub In : {A : Type 0} → A → List A → Type 0
In x [] = ⊥
In x (y ∷ ys) = (x ≡ y) ⊎ In x ys

-- Behind a literal of a normal form stand greater ones, and none of its name if it is positive.
abbrev pub Next : Literal → Literal → Type 0
Next x y = (literal_lt x y ≡ true) × (x.name ≡ y.name → x.negative ≡ true)

abbrev pub Follows : Literal → List Literal → Type 0
Follows x [] = Unit
Follows x (y ∷ ys) = Next x y × Follows x ys

abbrev pub IsNormal : Refs → Type 0
IsNormal [] = Unit
IsNormal (x ∷ xs) = Follows x xs × IsNormal xs

pub any_satisfies-In :
    (required : Literal) (a : Refs)
    → any_satisfies required a ≡ true
    → (l : Literal) × In l a × (satisfies required l ≡ true)
unfolding any_satisfies
any_satisfies-In required [] h = cc
any_satisfies-In required (x ∷ a) h = elim (Bool-cases (satisfies required x)) [
  | inl yes_it ↦ (x, inl refl, yes_it)
  | inr not_it ↦
      let (l, there, ok) = any_satisfies-In required a (ground arith) in (l, inr there, ok)
]

pub In-any_satisfies :
    (required l : Literal) (a : Refs)
    → In l a
    → satisfies required l ≡ true
    → any_satisfies required a ≡ true
unfolding any_satisfies
In-any_satisfies required l [] h s = absurd h
In-any_satisfies required l (x ∷ a) h s = ground (arith, In-any_satisfies required l a)

pub implies-In : (a b : Refs) (l : Literal) → implies a b ≡ true → In l b → any_satisfies l a ≡ true
unfolding implies
implies-In a [] l h i = absurd i
implies-In a (x ∷ b) l h i = ground (arith, implies-In a b l)

pub In-implies :
    (a b : Refs) → ((l : Literal) → In l b → any_satisfies l a ≡ true) → implies a b ≡ true
unfolding implies
In-implies a [] h = refl
In-implies a (x ∷ b) h = ground (arith, h x (inl refl), In-implies a b (λ l i. h l (inr i)))

satisfies_refl : (l : Literal) → satisfies l l ≡ true
unfolding satisfies
satisfies_refl l = ground arith

pub implies_refl : (a : Refs) → implies a a ≡ true
implies_refl a = In-implies a a (λ l i. In-any_satisfies l l a i (satisfies_refl l))

satisfies_trans :
    (required l k : Literal)
    → satisfies required l ≡ true
    → satisfies l k ≡ true
    → satisfies required k ≡ true
unfolding satisfies
satisfies_trans required l k h j = ground arith

pub implies_trans : (a b c : Refs) → implies a b ≡ true → implies b c ≡ true → implies a c ≡ true
implies_trans a b c h k = In-implies a c (λ required i.
    let (l, l_in, ok) = any_satisfies-In required b (implies-In b c required k i) in
    let (m, m_in, ok') = any_satisfies-In l a (implies-In a b l h l_in) in
    In-any_satisfies required m a m_in (satisfies_trans required l m ok ok'))

Follows-In : (x y : Literal) (ls : List Literal) → Follows x ls → In y ls → Next x y
Follows-In x y [] f i = absurd i
Follows-In x y (z ∷ ls) f (inl e) = rw e f.0
Follows-In x y (z ∷ ls) f (inr i) = Follows-In x y ls f.1 i

-- A positive literal of a normal form is the only one of its name.
alone :
    (a : Refs) (l k : Literal)
    → IsNormal a
    → In l a
    → In k a
    → l.name ≡ k.name
    → l.negative ≡ false
    → l ≡ k
unfolding literal_lt
alone [] l k n i j e p = absurd i
alone (x ∷ a) l k n (inl i) (inl j) e p = i ∙ sym j
alone (x ∷ a) l k n (inl i) (inr j) e p = ground (arith, Follows-In x k a n.0 j, i)
alone (x ∷ a) l k n (inr i) (inl j) e p =
    absurd (ground (arith, Follows-In x l a n.0 i, j, text_lt_irrefl l.name))
alone (x ∷ a) l k n (inr i) (inr j) e p = alone a l k n.1 i j e p

satisfied_back :
    (l k m : Literal)
    → satisfies l k ≡ true
    → satisfies k m ≡ true
    → (l.name ≡ m.name → m.negative ≡ false → m ≡ l)
    → k ≡ l
unfolding satisfies
satisfied_back l k m h j only = ground arith

antisym-In :
    (a b : Refs) (l : Literal)
    → IsNormal b
    → implies a b ≡ true
    → implies b a ≡ true
    → In l b
    → In l a
antisym-In a b l n h k i =
    let (x, x_in, ok) = any_satisfies-In l a (implies-In a b l h i) in
    let (y, y_in, ok') = any_satisfies-In x b (implies-In b a x k x_in) in
    subst (λ z. In z a) (satisfied_back l x y ok ok' (λ e p. alone b y l n y_in i (sym e) p)) x_in

-- Sorted without repetition, two lists with the same members are equal.
same_members :
    (a b : Refs)
    → IsNormal a
    → IsNormal b
    → ((l : Literal) → In l a → In l b)
    → ((l : Literal) → In l b → In l a)
    → a ≡ b
same_members [] [] n m to from = refl
same_members [] (y ∷ b) n m to from = absurd (from y (inl refl))
same_members (x ∷ a) [] n m to from = absurd (to x (inl refl))
same_members (x ∷ a) (y ∷ b) n m to from =
    let heads = same_heads (to x (inl refl)) (from y (inl refl)) in
    ap₂ ◌∷◌ heads (
      same_members a b n.1 m.1 (λ l i. behind x y l a b heads n.0 i (to l (inr i)))
        (λ l i. behind y x l b a (sym heads) m.0 i (from l (inr i))))
  where
    same_heads : In x (y ∷ b) → In y (x ∷ a) → x ≡ y
    same_heads (inl e) j = e
    same_heads (inr i) (inl e) = sym e
    same_heads (inr i) (inr j) =
        absurd (ground (arith, Follows-In y x b m.0 i, Follows-In x y a n.0 j, literal_lt_asym x y))

    behind : (x y l : Literal) (a b : Refs) → x ≡ y → Follows x a → In l a → In l (y ∷ b) → In l b
    behind x y l a b e f i (inl j) =
        absurd (ground (arith, Follows-In x l a f i, j, e, literal_lt_irrefl x))
    behind x y l a b e f i (inr j) = j

-- Two refs in normal form that imply each other are equal.
pub implies_antisym :
    (a b : Refs) → IsNormal a → IsNormal b → implies a b ≡ true → implies b a ≡ true → a ≡ b
implies_antisym a b n m h k =
    same_members a b n m (λ l i. antisym-In b a l n k h i) (λ l i. antisym-In a b l m h k i)
