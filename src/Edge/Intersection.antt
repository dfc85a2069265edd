-- ===== src/Edge/Intersection.antt =====
-- The intersection of two lists of edges (`sort_and_intersect` of saengra-server/src/edge.cpp).
use saengra.Prelude.{List, [], ◌∷◌, true, false, ◌≡◌, inl, inr, ◌↔◌, arith, Bool-cases}
use saengra.Refs.Implies.{In}
use saengra.Edge.{Edge, edge_lt, insert_edge, sort_edges, set_intersection, sort_and_intersect}

edge_lt_irrefl : (a : Edge) → edge_lt a a ≡ false
unfolding edge_lt
edge_lt_irrefl a = ground arith

edge_lt_trans : (a b c : Edge) → edge_lt a b ≡ true → edge_lt c b ≡ false → edge_lt a c ≡ true
unfolding edge_lt
edge_lt_trans a b c h k = ground arith

edge_lt_total : (a b : Edge) → edge_lt a b ≡ false → edge_lt b a ≡ false → a ≡ b
unfolding edge_lt
edge_lt_total a b h k = ground arith

edge_lt_asym : (a b : Edge) → edge_lt a b ≡ true → edge_lt b a ≡ false
unfolding edge_lt
edge_lt_asym a b h = ground arith

-- No edge of the list is less than the one before it.
abbrev IsAscendingFrom : Edge → List Edge → Type 0
IsAscendingFrom x [] = Unit
IsAscendingFrom x (y ∷ ys) = (edge_lt y x ≡ false) × IsAscendingFrom y ys

abbrev IsAscending : List Edge → Type 0
IsAscending [] = Unit
IsAscending (x ∷ xs) = IsAscendingFrom x xs

insert-IsAscendingFrom :
    (last x : Edge) (ys : List Edge)
    → edge_lt x last ≡ false
    → IsAscendingFrom last ys
    → IsAscendingFrom last (insert_edge x ys)
unfolding insert_edge
insert-IsAscendingFrom last x [] h k = (h, tt)
insert-IsAscendingFrom last x (y ∷ ys) h k = elim (Bool-cases (edge_lt x y)) [
  | inl before ↦ rw (before, insert_edge) (h, (edge_lt_asym x y before, k.1))
  | inr behind ↦ rw (behind, insert_edge) (k.0, insert-IsAscendingFrom y x ys behind k.1)
]

insert-IsAscending : (x : Edge) (ys : List Edge) → IsAscending ys → IsAscending (insert_edge x ys)
unfolding insert_edge
insert-IsAscending x [] k = tt
insert-IsAscending x (y ∷ ys) k = elim (Bool-cases (edge_lt x y)) [
  | inl before ↦ rw (before, insert_edge) (edge_lt_asym x y before, k)
  | inr behind ↦ rw (behind, insert_edge) (insert-IsAscendingFrom y x ys behind k)
]

sort-IsAscending : (xs : List Edge) → IsAscending (sort_edges xs)
unfolding sort_edges
sort-IsAscending [] = tt
sort-IsAscending (x ∷ xs) = insert-IsAscending x (sort_edges xs) (sort-IsAscending xs)

In-insert : (a x : Edge) (ys : List Edge) → In a (insert_edge x ys) ↔ In a (x ∷ ys)
unfolding insert_edge
In-insert a x [] = ((λ i. i), (λ i. i))
In-insert a x (y ∷ ys) = elim (Bool-cases (edge_lt x y)) [
  | inl before ↦ rw (before, insert_edge) ((λ i. i), (λ i. i))
  | inr behind ↦
      let ih = In-insert a x ys in rw (behind, insert_edge) (ground (arith, ih), ground (arith, ih))
]

In-sort : (a : Edge) (xs : List Edge) → In a (sort_edges xs) ↔ In a xs
unfolding sort_edges
In-sort a [] = ((λ i. i), (λ i. i))
In-sort a (x ∷ xs) =
    let ih = In-sort a xs in
    let step = In-insert a x (sort_edges xs) in (ground (arith, ih, step), ground (arith, ih, step))

-- An edge that is less than the first one of an ascending list is not in it.
not_below :
    (a b : Edge) (bs : List Edge) → edge_lt a b ≡ true → IsAscendingFrom b bs → In a (b ∷ bs) → ⊥
not_below a b bs h k (inl e) = ground (arith, edge_lt_irrefl b, e, h)
not_below a b [] h k (inr i) = absurd i
not_below a b (c ∷ bs) h k (inr i) = not_below a c bs (edge_lt_trans a b c h k.0) k.1 i

tail-IsAscending : (x : Edge) (xs : List Edge) → IsAscending (x ∷ xs) → IsAscending xs
tail-IsAscending x [] k = tt
tail-IsAscending x (y ∷ xs) k = k.1

In-set_intersection :
    (e : Edge) (as' bs : List Edge)
    → IsAscending as'
    → IsAscending bs
    → In e (set_intersection as' bs) ↔ (In e as' × In e bs)
unfolding set_intersection
In-set_intersection e [] bs k l = ((λ i. absurd i), (λ i. absurd i.0))
In-set_intersection e (a ∷ as') [] k l = ((λ i. absurd i), (λ i. absurd i.1))
In-set_intersection e (a ∷ as') (b ∷ bs) k l = elim (Bool-cases (edge_lt a b)) [
  | inl less ↦
      let ih = In-set_intersection e as' (b ∷ bs) (tail-IsAscending a as' k) l in
      let none_there = not_below a b bs less l in
      rw (less, set_intersection) (ground (arith, ih), ground (arith, ih, none_there))
  | inr not_less ↦ elim (Bool-cases (edge_lt b a)) [
    | inl greater ↦
        let ih = In-set_intersection e (a ∷ as') bs k (tail-IsAscending b bs l) in
        let none_there = not_below b a as' greater k in
        rw (not_less, greater, set_intersection)
          (ground (arith, ih), ground (arith, ih, none_there))
    | inr not_greater ↦
        let ih =
          In-set_intersection e as' bs (tail-IsAscending a as' k) (tail-IsAscending b bs l) in
        let same_edge = edge_lt_total a b not_less not_greater in
        rw (not_less, not_greater, set_intersection)
          (ground (arith, ih, same_edge), ground (arith, ih, same_edge))
  ]
]

-- An edge is in the sorted intersection of two lists of edges if and only if it is in both lists.
pub In-sort_and_intersect :
    (e : Edge) (a b : List Edge) → In e (sort_and_intersect a b) ↔ (In e a × In e b)
unfolding sort_and_intersect
In-sort_and_intersect e a b =
    let both =
      In-set_intersection e (sort_edges a) (sort_edges b) (sort-IsAscending a)
        (sort-IsAscending b) in
    let left = In-sort e a in
    let right = In-sort e b in
    (λ i. (left.0 ((both.0 i).0), right.0 ((both.0 i).1)), λ i. both.1 (left.1 i.0, right.1 i.1))
