-- ===== src/Refs/Order.antt =====
-- The orders on literals and on refs (saengra-server/include/refs.h).
use saengra.Prelude.{◌≡◌, refl, true, false, List, [], ◌∷◌, arith}
use saengra.Text.{text_lt_irrefl, text_lt_trans, text_lt_total}
use saengra.Refs.{
  Literal, Refs, literal_lt, literal_eq, refs_lt, refs_eq, insert_literal, sort_literals,
}

pub literal_lt_irrefl : (a : Literal) → literal_lt a a ≡ false
unfolding literal_lt
literal_lt_irrefl a = ground (arith, text_lt_irrefl a.name)

pub literal_lt_trans :
    (a b c : Literal) → literal_lt a b ≡ true → literal_lt b c ≡ true → literal_lt a c ≡ true
unfolding literal_lt
literal_lt_trans a b c h k = ground (arith, text_lt_trans a.name b.name c.name)

pub literal_lt_total : (a b : Literal) → literal_lt a b ≡ false → literal_lt b a ≡ false → a ≡ b
unfolding literal_lt
literal_lt_total a b h k = ground (arith, text_lt_total a.name b.name)

pub literal_lt_asym : (a b : Literal) → literal_lt a b ≡ true → literal_lt b a ≡ false
literal_lt_asym a b h = ground (arith, literal_lt_trans a b a h, literal_lt_irrefl a)

pub literal_eq_sound : (a b : Literal) → literal_eq a b ≡ true → a ≡ b
unfolding literal_eq
literal_eq_sound a b h = ground arith

pub literal_eq_refl : (a : Literal) → literal_eq a a ≡ true
unfolding literal_eq
literal_eq_refl a = ground arith

-- Sorted: no literal is followed by a smaller one.
abbrev pub HeadLe : Literal → List Literal → Type 0
HeadLe x [] = Unit
HeadLe x (y ∷ ys) = literal_lt y x ≡ false

abbrev pub IsSorted : List Literal → Type 0
IsSorted [] = Unit
IsSorted (x ∷ xs) = HeadLe x xs × IsSorted xs

HeadLe-insert :
    (x l : Literal) (xs : List Literal)
    → HeadLe x xs
    → literal_lt l x ≡ false
    → HeadLe x (insert_literal l xs)
unfolding insert_literal
HeadLe-insert x l [] h k = k
HeadLe-insert x l (y ∷ ys) h k = ground arith

insert-IsSorted : (l : Literal) (xs : List Literal) → IsSorted xs → IsSorted (insert_literal l xs)
unfolding insert_literal
insert-IsSorted l [] h = (tt, tt)
insert-IsSorted l (x ∷ xs) h =
    ground (arith, literal_lt_asym l x, insert-IsSorted l xs h.1, HeadLe-insert x l xs h.0)

pub sort-IsSorted : (ls : List Literal) → IsSorted (sort_literals ls)
unfolding sort_literals
sort-IsSorted [] = tt
sort-IsSorted (l ∷ ls) = insert-IsSorted l (sort_literals ls) (sort-IsSorted ls)

-- Equality and order of refs.
pub refs_eq_sound : (a b : Refs) → refs_eq a b ≡ true → a ≡ b
unfolding refs_eq
refs_eq_sound [] [] h = refl
refs_eq_sound [] (y ∷ b) h = cc
refs_eq_sound (x ∷ a) [] h = cc
refs_eq_sound (x ∷ a) (y ∷ b) h = ground (arith, literal_eq_sound x y, refs_eq_sound a b)

pub refs_eq_refl : (a : Refs) → refs_eq a a ≡ true
unfolding refs_eq
refs_eq_refl [] = refl
refs_eq_refl (x ∷ a) = ground (arith, literal_eq_refl x, refs_eq_refl a)

pub refs_lt_irrefl : (a : Refs) → refs_lt a a ≡ false
unfolding refs_lt
refs_lt_irrefl [] = refl
refs_lt_irrefl (x ∷ a) = ground (arith, literal_lt_irrefl x, refs_lt_irrefl a)

pub refs_lt_trans : (a b c : Refs) → refs_lt a b ≡ true → refs_lt b c ≡ true → refs_lt a c ≡ true
unfolding refs_lt
refs_lt_trans [] [] c h k = cc
refs_lt_trans [] (y ∷ b) [] h k = cc
refs_lt_trans [] (y ∷ b) (z ∷ c) h k = refl
refs_lt_trans (x ∷ a) [] c h k = cc
refs_lt_trans (x ∷ a) (y ∷ b) [] h k = cc
refs_lt_trans (x ∷ a) (y ∷ b) (z ∷ c) h k = ground (
  arith,
  refs_lt_trans a b c,
  literal_lt_trans x y z,
  literal_eq_sound x y,
  literal_eq_sound y z,
  literal_eq_refl x,
)

pub refs_lt_total : (a b : Refs) → refs_lt a b ≡ false → refs_lt b a ≡ false → a ≡ b
unfolding refs_lt
refs_lt_total [] [] h k = refl
refs_lt_total [] (y ∷ b) h k = cc
refs_lt_total (x ∷ a) [] h k = cc
refs_lt_total (x ∷ a) (y ∷ b) h k =
    ground (arith, literal_lt_total x y, literal_eq_refl x, refs_lt_total a b)
