-- ===== src/Refs/Union.antt =====
-- The meaning of `simplify_union` of saengra-server/src/refs.cpp. From each of the refs, a chain
-- of larger ones leads to a maximal one.
use saengra.Prelude.{
  ℕ, zero, suc, ◌+◌, ◌≤◌, ◌<◌, ◌≡◌, ◌≢◌, ◌⊎◌, inl, inr, refl, sym, ◌∙◌, Bool, true, false, List, [],
  ◌∷◌, arith, if◌then◌else◌, Bool-cases, subst,
}
use saengra.Refs.{
  Refs, implies, refs_eq, refs_lt, insert_refs, sort_refs, unique, any_implied, keep_maximal,
  simplify_union,
}
use saengra.Refs.Order.{refs_eq_sound, refs_eq_refl, refs_lt_irrefl}
use saengra.Refs.Implies.{In, IsNormal, implies_refl, implies_trans, implies_antisym}
use saengra.Refs.Meaning.{Values, covers, covers_any, implies-covers}
use saengra.Refs.Sorting.{
  Above, IsStrict, sort-IsSorted, unique-IsStrict, covers_any-sort, covers_any-unique, In-sort,
  In-unique,
}

module _ (ρ : Values) where
  covers_any-In : (m : Refs) (rs : List Refs) → In m rs → covers ρ m ≡ true → covers_any ρ rs ≡ true
  unfolding covers_any
  covers_any-In m [] i c = absurd i
  covers_any-In m (r ∷ rs) i c = ground (arith, covers_any-In m rs)

  pub In-covers_any :
      (rs : List Refs) → covers_any ρ rs ≡ true → (m : Refs) × In m rs × (covers ρ m ≡ true)
  unfolding covers_any
  In-covers_any [] c = cc
  In-covers_any (r ∷ rs) c = elim (Bool-cases (covers ρ r)) [
    | inl here ↦ (r, inl refl, here)
    | inr not_here ↦ let (m, i, k) = In-covers_any rs (ground arith) in (m, inr i, k)
  ]

  -- What stays was there.
  covers_any-keep_maximal :
      (before rs : List Refs)
      → covers_any ρ (keep_maximal before rs) ≡ true
      → covers_any ρ rs ≡ true
  unfolding keep_maximal covers_any
  covers_any-keep_maximal before [] h = h
  covers_any-keep_maximal before (r ∷ rs) h =
      ground (arith, covers_any-keep_maximal (r ∷ before) rs)

any_implied-none :
    (m : Refs) (rs : List Refs)
    → ((s : Refs) → In s rs → implies m s ≡ false)
    → any_implied m rs ≡ false
unfolding any_implied
any_implied-none m [] h = refl
any_implied-none m (r ∷ rs) h =
    ground (arith, h r (inl refl), any_implied-none m rs (λ s i. h s (inr i)))

Above-ne : (x y : Refs) (ys : List Refs) → Above x ys → In y ys → y ≢ x
Above-ne x y [] a i e = absurd i
Above-ne x y (z ∷ ys) a (inl j) e = ground (arith, refs_lt_irrefl x, a.0, j, e)
Above-ne x y (z ∷ ys) a (inr j) e = Above-ne x y ys a.1 j e

-- One that implies no other one stays.
keep_maximal-In :
    (m : Refs) (before rs : List Refs)
    → IsStrict rs
    → In m rs
    → ((s : Refs) → In s before → implies m s ≡ false)
    → ((s : Refs) → In s rs → s ≢ m → implies m s ≡ false)
    → In m (keep_maximal before rs)
unfolding keep_maximal
keep_maximal-In m before [] d i b h = i
keep_maximal-In m before (r ∷ rs) d (inl e) b h =
    let none_before = any_implied-none m before b in
    let none_behind =
      any_implied-none m rs (λ s j. h s (inr j) (λ k. Above-ne r s rs d.0 j (k ∙ e))) in
    ground (arith, none_before, none_behind, e)
keep_maximal-In m before (r ∷ rs) d (inr i) b h =
    let r_ne : r ≢ m = λ e. Above-ne r m rs d.0 i (sym e) in
    let later =
      keep_maximal-In m (r ∷ before) rs d.1 i (λ s j. before_or_here s j r_ne)
        (λ s j. h s (inr j)) in
    ground (arith, later)
  where
    before_or_here : (s : Refs) → In s (r ∷ before) → r ≢ m → implies m s ≡ false
    before_or_here s (inl e) ne = h s (inl e) (λ k. ne (sym e ∙ k))
    before_or_here s (inr j) ne = b s j

-- How many of the refs one of them implies.
score : Refs → List Refs → ℕ
score u [] = 0
score u (x ∷ xs) = (if implies u x then 1 else 0) + score u xs

score-le :
    (u s : Refs) (xs : List Refs)
    → ((x : Refs) → implies s x ≡ true → implies u x ≡ true)
    → score s xs ≤ score u xs
unfolding score
score-le u s [] h = omega arith
score-le u s (x ∷ xs) h = ground (arith, h x, score-le u s xs h)

score-lt :
    (u s : Refs) (xs : List Refs)
    → ((x : Refs) → implies s x ≡ true → implies u x ≡ true)
    → In u xs
    → implies s u ≡ false
    → score s xs < score u xs
unfolding score
score-lt u s [] h i n = absurd i
score-lt u s (x ∷ xs) h (inl e) n = ground (arith, e, n, implies_refl u, score-le u s xs h)
score-lt u s (x ∷ xs) h (inr i) n = ground (arith, h x, score-lt u s xs h i n)

abbrev IsMaximal : Refs → List Refs → Type 0
IsMaximal m xs = (s : Refs) → In s xs → s ≢ m → implies m s ≡ false

find_above :
    (u : Refs) (xs : List Refs)
    → ((s : Refs) × In s xs × (s ≢ u) × (implies u s ≡ true)) ⊎ IsMaximal u xs
find_above u [] = inr (λ s i. absurd i)
find_above u (x ∷ xs) = elim (find_above u xs) [
  | inl (s, i, ne, up) ↦ inl (s, inr i, ne, up)
  | inr none_behind ↦ elim (Bool-cases (implies u x)) [
    | inr no_it ↦ inr (λ s i ne. ground (arith, i, no_it, none_behind s))
    | inl up ↦ elim (Bool-cases (refs_eq x u)) [
      | inl eq ↦ inr (λ s i ne. ground (arith, i, refs_eq_sound x u eq, none_behind s))
      | inr other ↦ inl (x, inl refl, λ e. ground (arith, e, other, refs_eq_refl u), up)
    ]
  ]
]

module _ (xs : List Refs) (normal : (r : Refs) → In r xs → IsNormal r) where
  -- From one of the refs a chain of larger ones leads to a maximal one.
  climb :
      (fuel : ℕ) (u : Refs)
      → In u xs
      → score u xs < fuel
      → (m : Refs) × In m xs × (implies u m ≡ true) × IsMaximal m xs
  climb zero u i h = absurd (omega arith)
  climb (suc fuel) u i h = elim (find_above u xs) [
    | inr top ↦ (u, i, implies_refl u, top)
    | inl (s, s_in, ne, up) ↦
        let not_back : implies s u ≡ false = elim (Bool-cases (implies s u)) [
          | inl back ↦ absurd (ne (implies_antisym s u (normal s s_in) (normal u i) back up))
          | inr no_back ↦ no_back
        ] in
        let less = score-lt u s xs (λ x k. implies_trans u s x up k) i not_back in
        let (m, m_in, above, top) = climb fuel s s_in (omega arith) in
        (m, m_in, implies_trans u s m up above, top)
  ]

  keep_all-In :
      IsStrict xs
      → (u : Refs) → In u xs
      → (m : Refs) × In m (keep_maximal [] xs) × (implies u m ≡ true)
  keep_all-In strict u i =
      let (m, m_in, above, top) = climb (suc (score u xs)) u i (omega arith) in
      (m, keep_maximal-In m [] xs strict m_in (λ s j. absurd j) top, above)

  covers_any-keep_all :
      (ρ : Values) → IsStrict xs → covers_any ρ xs ≡ true → covers_any ρ (keep_maximal [] xs) ≡ true
  covers_any-keep_all ρ strict c =
      let (u, i, u_covers) = In-covers_any ρ xs c in
      let (m, m_in, above) = keep_all-In strict u i in
      covers_any-In ρ m (keep_maximal [] xs) m_in (implies-covers ρ u m above u_covers)

same_bool : (a b : Bool) → (a ≡ true → b ≡ true) → (b ≡ true → a ≡ true) → a ≡ b
same_bool a b f g = ground arith

-- A union of refs in normal form covers the same values after duplicates and refs that imply others
-- were dropped.
pub covers_any-simplify_union :
    (ρ : Values) (rs : List Refs)
    → ((r : Refs) → In r rs → IsNormal r)
    → covers_any ρ (simplify_union rs) ≡ covers_any ρ rs
unfolding simplify_union
covers_any-simplify_union ρ rs normal =
    let all = unique (sort_refs rs) in
    let ok = λ (r : Refs) (i : In r all). normal r (In-sort r rs (In-unique r (sort_refs rs) i)) in
    same_bool (covers_any ρ (keep_maximal [] all)) (covers_any ρ all)
      (covers_any-keep_maximal ρ [] all)
      (covers_any-keep_all all ok ρ (unique-IsStrict (sort_refs rs) (sort-IsSorted rs)))
    ∙ covers_any-unique ρ (sort_refs rs)
    ∙ covers_any-sort ρ rs

In-keep_maximal : (x : Refs) (before rs : List Refs) → In x (keep_maximal before rs) → In x rs
unfolding keep_maximal
In-keep_maximal x before [] h = h
In-keep_maximal x before (r ∷ rs) h = ground (arith, In-keep_maximal x (r ∷ before) rs)

pub In-simplify_union : (x : Refs) (rs : List Refs) → In x (simplify_union rs) → In x rs
unfolding simplify_union
In-simplify_union x rs h =
    let all = sort_refs rs in In-sort x rs (In-unique x all (In-keep_maximal x [] (unique all) h))

insert-some :
    (r : Refs) (rs : List Refs) → (x : Refs) × (xs : List Refs) × (insert_refs r rs ≡ x ∷ xs)
unfolding insert_refs
insert-some r [] = (r, [], refl)
insert-some r (s ∷ rs) = elim (Bool-cases (refs_lt r s)) [
  | inl lt ↦ (r, s ∷ rs, rw lt refl)
  | inr ge ↦ (s, insert_refs r rs, rw ge refl)
]

-- Something is left of something.
pub simplify_union-some :
    (t : Refs) (ts : List Refs)
    → ((r : Refs) → In r (t ∷ ts) → IsNormal r)
    → (m : Refs) × In m (simplify_union (t ∷ ts))
unfolding simplify_union sort_refs unique
simplify_union-some t ts normal =
    let (x, xs, e) = insert-some t (sort_refs ts) in
    let all = unique (sort_refs (t ∷ ts)) in
    let ok = λ (r : Refs) (i : In r all).
      normal r (In-sort r (t ∷ ts) (In-unique r (sort_refs (t ∷ ts)) i)) in
    let here : In x all = subst (λ ys. In x (unique ys)) (sym e) (inl refl) in
    let (m, m_in, above) =
      keep_all-In all ok (unique-IsStrict (sort_refs (t ∷ ts)) (sort-IsSorted (t ∷ ts))) x here in
    (m, m_in)
