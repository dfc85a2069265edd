-- ===== src/Refs/Cells/Excluded.antt =====
-- `Refs::excluded_values` of saengra-server/src/refs.cpp.
use saengra.Prelude.{false, [], ◌∷◌, ◌≡◌, refl, arith}
use saengra.Refs.{Refs, has_negatives}
use saengra.Refs.Cells.{excluded_values}

pub excluded_values-none : (r : Refs) → has_negatives r ≡ false → excluded_values r ≡ []
unfolding has_negatives excluded_values
excluded_values-none [] h = refl
excluded_values-none (l ∷ r) h = ground (arith, excluded_values-none r)
