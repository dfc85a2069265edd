-- ===== src/UndoLog/Net.antt =====
-- Net changes: the first and the last change of each item, as `iter_just_changed` of
-- saengra-server/src/edges_container.cpp and saengra-server/src/vertices_container.cpp finds them.
pub mod Correct
use saengra.Prelude.{
  Bool, true, false, not, ◌&&◌, Option, none, some, List, [], ◌∷◌, Eq, lookup, insert,
  if◌then◌else◌,
}
use saengra.UndoLog.Change.{Change}

abbrev pub same_flag : Bool → Bool → Bool
same_flag true b = b
same_flag false b = not b

-- The entry of `first_and_last` after a change: `try_emplace`, and the update of the last change
-- where the item was there.
abbrev pub entry : Option (Bool × Bool) → Bool → Bool × Bool
entry none added = (added, added)
entry (some (first, last)) added = (first, added)

module _ {K : Type 0} ⦃e : Eq K⦄ where
  track : List (K × (Bool × Bool)) → Change K → List (K × (Bool × Bool))
  track m c = insert c.item (entry (lookup c.item m) c.added) m

  first_and_last : List (K × (Bool × Bool)) → List (Change K) → List (K × (Bool × Bool))
  first_and_last m [] = m
  first_and_last m (c ∷ cs) = first_and_last (track m c) cs

  collect : Bool → List (K × (Bool × Bool)) → List K
  collect added [] = []
  collect added ((k, (first, last)) ∷ m) =
      if same_flag first added && same_flag last added then k ∷ collect added m else collect added m

  unfoldable pub net_changes : Bool → List (Change K) → List K
  unfolding track first_and_last collect
  net_changes added log = collect added (first_and_last [] log)
