-- ===== src/Interner/Laws.antt =====
-- The addresses of interned texts.
use saengra.Prelude.{
  ℕ, zero, suc, ◌≡◌, refl, true, false, none, some, List, [], ◌∷◌, ◌++◌, arith, length, get_elem?,
  contains, contains-append, IsSetList, Option-cases, inl, inr,
}
use mathlib.Core.Option as Options
use saengra.Text.{Text, text_eq}
use saengra.Interner.{find, internalize}

get_elem?-find :
    (text : Text) (pool : List Text) (i : ℕ)
    → find text pool ≡ some i
    → get_elem? pool i ≡ some text
unfolding find Options.map
get_elem?-find text [] i h = cc
get_elem?-find text (x ∷ pool) zero h = ground arith
get_elem?-find text (x ∷ pool) (suc i) h = ground (arith, get_elem?-find text pool i)

get_elem?-end :
    (text : Text) (pool : List Text) → get_elem? (pool ++ text ∷ []) (length pool) ≡ some text
get_elem?-end text [] = refl
get_elem?-end text (x ∷ pool) = get_elem?-end text pool

get_elem?-front :
    (t text : Text) (pool : List Text) (i : ℕ)
    → get_elem? pool i ≡ some t
    → get_elem? (pool ++ text ∷ []) i ≡ some t
get_elem?-front t text [] i h = cc
get_elem?-front t text (x ∷ pool) zero h = h
get_elem?-front t text (x ∷ pool) (suc i) h = get_elem?-front t text pool i h

get_elem?-contains :
    (t : Text) (pool : List Text) (i : ℕ) → get_elem? pool i ≡ some t → contains pool t ≡ true
unfolding contains
get_elem?-contains t [] i h = cc
get_elem?-contains t (x ∷ pool) zero h = ground arith
get_elem?-contains t (x ∷ pool) (suc i) h = ground (arith, get_elem?-contains t pool i h)

find-get_elem? :
    (text : Text) (pool : List Text) (i : ℕ)
    → IsSetList pool
    → get_elem? pool i ≡ some text
    → find text pool ≡ some i
unfolding find Options.map
find-get_elem? text [] i d h = cc
find-get_elem? text (x ∷ pool) zero d h = ground arith
find-get_elem? text (x ∷ pool) (suc i) d h =
    ground (arith, find-get_elem? text pool i d.1 h, get_elem?-contains text pool i h, d.0)

-- Interning a text gives an address at which the text is found.
pub get_elem?-internalize :
    (text : Text) (pool : List Text)
    → get_elem? (internalize text pool).1 (internalize text pool).0 ≡ some text
unfolding internalize
get_elem?-internalize text pool = elim (Option-cases (find text pool)) [
  | inl e ↦ rw (e, internalize) (get_elem?-end text pool)
  | inr (i, e) ↦ rw (e, internalize) (get_elem?-find text pool i e)
]

-- An address that holds a text holds it still after any text was interned.
pub internalize-keeps :
    (t text : Text) (pool : List Text) (i : ℕ)
    → get_elem? pool i ≡ some t
    → get_elem? (internalize text pool).1 i ≡ some t
unfolding internalize
internalize-keeps t text pool i h = elim (Option-cases (find text pool)) [
  | inl e ↦ rw (e, internalize) (get_elem?-front t text pool i h)
  | inr (j, e) ↦ rw (e, internalize) h
]

-- Of interned texts that all differ, one that has an address is given that address again, and
-- nothing is inserted.
pub internalize_again :
    (text : Text) (pool : List Text) (i : ℕ)
    → IsSetList pool
    → get_elem? pool i ≡ some text
    → internalize text pool ≡ (i, pool)
unfolding internalize
internalize_again text pool i d h = rw (find-get_elem? text pool i d h, internalize) refl

find-none : (text : Text) (pool : List Text) → find text pool ≡ none → contains pool text ≡ false
unfolding find contains Options.map
find-none text [] h = refl
find-none text (x ∷ pool) h = ground (arith, find-none text pool)

end-IsSetList :
    (text : Text) (pool : List Text)
    → IsSetList pool
    → contains pool text ≡ false
    → IsSetList (pool ++ text ∷ [])
unfolding contains
end-IsSetList text [] d h = (refl, tt)
end-IsSetList text (x ∷ pool) d h = (
  ground (arith, contains-append x pool (text ∷ []), d.0),
  end-IsSetList text pool d.1 (ground arith),
)

-- Interned texts that all differ do so after one more was interned.
pub internalize-IsSetList :
    (text : Text) (pool : List Text) → IsSetList pool → IsSetList (internalize text pool).1
unfolding internalize
internalize-IsSetList text pool d = elim (Option-cases (find text pool)) [
  | inl e ↦ rw (e, internalize) (end-IsSetList text pool d (find-none text pool e))
  | inr (i, e) ↦ rw (e, internalize) d
]
