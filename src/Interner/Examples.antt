-- ===== src/Interner/Examples.antt =====
-- Interning beside one text.
use saengra.Prelude.{◌≡◌, refl, List, [], ◌∷◌, IsSetList, contains, ℕ_discrete}
use saengra.Text.{Text, Text-discrete, text_eq}
use saengra.Interner.{internalize}
use saengra.Interner.Laws.{internalize_again}

abbrev pool : List Text
pool = (1 ∷ []) ∷ (2 ∷ []) ∷ []

pool-IsSetList : IsSetList pool
unfolding contains Text-discrete ℕ_discrete
pool-IsSetList = (refl, (refl, tt))

internalize_again_example : internalize (2 ∷ []) pool ≡ (1, pool)
internalize_again_example = internalize_again (2 ∷ []) pool 1 pool-IsSetList refl
