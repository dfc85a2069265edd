-- ===== src/Refs.antt =====
-- `Refs` (saengra-server/include/refs.h and saengra-server/src/refs.cpp): what is known of the
-- values of refs, as a conjunction of literals, and the algebra of the regions that such conjunctions
-- describe. `std::sort` is insertion sort; on the total orders that it is used with every sort has the
-- same result. `std::binary_search` in a sorted list of names is membership.
pub mod Meaning
pub mod Order
pub mod Normal
pub mod Implies
pub mod Sorting
pub mod Union
pub mod Canonical
pub mod Subtract
pub mod Cells
mod Examples
use saengra.Prelude.{
  ℕ, suc, Bool, true, false, not, ◌&&◌, ◌||◌, Option, none, some, List, [], ◌∷◌, ◌++◌, ltb, ◌==◌,
  if◌then◌else◌, contains, same, ◌<◌, ite, ◌≡◌, Eq, get_elem?,
}
use saengra.Text.{Text, text_eq, text_lt}
use saengra.Edge.{VertexId}

abbrev pub RefName : Type 0
RefName = Text

pub record Literal : Type 0 where
  pub name : RefName
  pub negative : Bool
  pub value : VertexId

abbrev pub flag_lt : Bool → Bool → Bool
flag_lt false true = true
flag_lt false false = false
flag_lt true b = false

abbrev pub same_flag : Bool → Bool → Bool
same_flag true b = b
same_flag false b = not b

-- The default comparisons: by name, then positive before negative, then by value.
pub literal_lt : Literal → Literal → Bool
literal_lt a b =
    text_lt a.name b.name
    || (same a.name b.name
        && (flag_lt a.negative b.negative
            || (same_flag a.negative b.negative && ltb a.value b.value)))

pub literal_eq : Literal → Literal → Bool
literal_eq a b = same a.name b.name && (same_flag a.negative b.negative && a.value == b.value)

-- The literals, sorted.
abbrev pub Refs : Type 0
Refs = List Literal

pub negated : Literal → Literal
negated l = record l { negative = not l.negative }

pub insert_literal : Literal → List Literal → List Literal
insert_literal l [] = l ∷ []
insert_literal l (x ∷ xs) = if literal_lt l x then l ∷ x ∷ xs else x ∷ insert_literal l xs

pub sort_literals : List Literal → List Literal
sort_literals [] = []
sort_literals (l ∷ ls) = insert_literal l (sort_literals ls)

-- Runs of literals with one name: the first of a run, and the others.
pub add_to_groups : Literal → List (Literal × List Literal) → List (Literal × List Literal)
add_to_groups l [] = (l, []) ∷ []
add_to_groups l ((x, xs) ∷ groups) =
    if same x.name l.name then (l, x ∷ xs) ∷ groups else (l, []) ∷ (x, xs) ∷ groups

pub groups : List Literal → List (Literal × List Literal)
groups [] = []
groups (l ∷ ls) = add_to_groups l (groups ls)

-- The literal cannot hold beside the positive one.
pub clashes : Literal → Literal → Bool
clashes first l = if l.negative then l.value == first.value else not (l.value == first.value)

pub any_clash : Literal → List Literal → Bool
any_clash first [] = false
any_clash first (l ∷ ls) = clashes first l || any_clash first ls

-- Negative literals, each value once.
pub drop_repeated : Literal → List Literal → List Literal
drop_repeated last [] = []
drop_repeated last (l ∷ ls) =
    if l.value == last.value then drop_repeated l ls else l ∷ drop_repeated l ls

pub normalize_group : Literal × List Literal → Option (List Literal)
normalize_group (first, rest) =
    if first.negative
    then some (first ∷ drop_repeated first rest)
    else (if any_clash first (first ∷ rest) then none else some (first ∷ []))

pub append_group : Option (List Literal) → Option Refs → Option Refs
append_group none rest = none
append_group (some group) none = none
append_group (some group) (some rest) = some (group ++ rest)

pub normalize_groups : List (Literal × List Literal) → Option Refs
normalize_groups [] = some []
normalize_groups (g ∷ gs) = append_group (normalize_group g) (normalize_groups gs)

pub normalized : List Literal → Option Refs
normalized literals = normalize_groups (groups (sort_literals literals))

pub has_negatives : Refs → Bool
has_negatives [] = false
has_negatives (l ∷ ls) = l.negative || has_negatives ls

pub data Binding : Type 0 where
  possible already_set impossible : Binding

pub binding : RefName → VertexId → Refs → Binding
binding name value [] = Binding.possible
binding name value (l ∷ ls) =
    if not (same l.name name)
    then binding name value ls
    else (if l.value == value
        then (if l.negative then Binding.impossible else Binding.already_set)
        else (if l.negative then binding name value ls else Binding.impossible))

-- The literals behind those of the name.
pub skip_name : RefName → List Literal → List Literal
skip_name name [] = []
skip_name name (l ∷ ls) = if same l.name name then skip_name name ls else l ∷ ls

pub copy_and_set : RefName → VertexId → Refs → Refs
copy_and_set name value [] = record { name = name; negative = false; value = value } ∷ []
copy_and_set name value (l ∷ ls) =
    if text_lt l.name name
    then l ∷ copy_and_set name value ls
    else record { name = name; negative = false; value = value } ∷ skip_name name (l ∷ ls)

pub intersect_with : Refs → Refs → Option Refs
intersect_with a b = normalized (a ++ b)

-- Whether the literal makes the required one hold.
pub satisfies : Literal → Literal → Bool
satisfies required l =
    if not (same l.name required.name)
    then false
    else (if required.negative
        then (if l.negative then l.value == required.value else not (l.value == required.value))
        else not l.negative && l.value == required.value)

pub any_satisfies : Literal → Refs → Bool
any_satisfies required [] = false
any_satisfies required (l ∷ ls) = satisfies required l || any_satisfies required ls

pub implies : Refs → Refs → Bool
implies a [] = true
implies a (required ∷ rest) = any_satisfies required a && implies a rest

pub restricted_to : List RefName → Refs → Refs
restricted_to names [] = []
restricted_to names (l ∷ ls) =
    if contains names l.name then l ∷ restricted_to names ls else restricted_to names ls

pub refs_eq : Refs → Refs → Bool
refs_eq [] [] = true
refs_eq [] (b ∷ bs) = false
refs_eq (a ∷ as') [] = false
refs_eq (a ∷ as') (b ∷ bs) = literal_eq a b && refs_eq as' bs

pub refs_lt : Refs → Refs → Bool
refs_lt [] [] = false
refs_lt [] (b ∷ bs) = true
refs_lt (a ∷ as') [] = false
refs_lt (a ∷ as') (b ∷ bs) = literal_lt a b || (literal_eq a b && refs_lt as' bs)

pub insert_refs : Refs → List Refs → List Refs
insert_refs r [] = r ∷ []
insert_refs r (x ∷ xs) = if refs_lt r x then r ∷ x ∷ xs else x ∷ insert_refs r xs

pub sort_refs : List Refs → List Refs
sort_refs [] = []
sort_refs (r ∷ rs) = insert_refs r (sort_refs rs)

-- `std::unique`: of a run of equal ones the first stays.
pub unique_behind : Refs → List Refs → List Refs
unique_behind last [] = []
unique_behind last (r ∷ rs) =
    if refs_eq last r then unique_behind last rs else r ∷ unique_behind r rs

pub unique : List Refs → List Refs
unique [] = []
unique (r ∷ rs) = r ∷ unique_behind r rs

pub any_implied : Refs → List Refs → Bool
any_implied r [] = false
any_implied r (s ∷ ss) = implies r s || any_implied r ss

-- Those that are not contained in another one, before or behind them.
pub keep_maximal : List Refs → List Refs → List Refs
keep_maximal before [] = []
keep_maximal before (r ∷ rs) =
    if any_implied r before || any_implied r rs
    then keep_maximal (r ∷ before) rs
    else r ∷ keep_maximal (r ∷ before) rs

-- The early return on at most one refs has the same result.
pub simplify_union : List Refs → List Refs
simplify_union refs = keep_maximal [] (unique (sort_refs refs))

-- The terms of De Morgan's law: `this` with each of the literals negated.
pub add_term : Option Refs → List Refs → List Refs
add_term none terms = terms
add_term (some term) terms = term ∷ terms

pub negation_terms : Refs → List Literal → List Refs
negation_terms this [] = []
negation_terms this (l ∷ ls) =
    add_term (intersect_with this (negated l ∷ [])) (negation_terms this ls)

pub subtract : Refs → Refs → List Refs
subtract this other = elim (intersect_with this other) [
  | none ↦ this ∷ []
  | some both ↦ simplify_union (negation_terms this other)
]

pub subtract_each : List Refs → Refs → List Refs
subtract_each [] refs = []
subtract_each (term ∷ terms) refs = subtract term refs ++ subtract_each terms refs

pub subtract_from_union : List Refs → Refs → List Refs
subtract_from_union terms refs = simplify_union (subtract_each terms refs)
