-- ===== src/Interner.antt =====
-- Interned texts (`internalize_label` of saengra-server/src/edges_container.cpp and
-- `internalize_type_name` of saengra-server/src/vertices_container.cpp). The address of a text in
-- the node hash set, which never moves, is its place in the order of insertion.
pub mod Laws
mod Examples
use saengra.Prelude.{ℕ, suc, Option, none, some, List, [], ◌∷◌, ◌++◌, ite, length}
use mathlib.Core.Option as Options
use saengra.Text.{Text, Text-discrete}

unfoldable pub find : Text → List Text → Option ℕ
find text [] = none
find text (x ∷ pool) = ite (Text-discrete x text) (some 0) (Options.map suc (find text pool))

-- The address of the text, which is inserted if it was not found.
unfoldable pub internalize : Text → List Text → ℕ × List Text
unfolding find
internalize text pool = elim (find text pool) [
  | none ↦ (length pool, pool ++ text ∷ [])
  | some i ↦ (i, pool)
]
