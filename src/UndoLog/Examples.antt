-- ===== src/UndoLog/Examples.antt =====
-- Net changes of a short log.
use saengra.Prelude.{
  ℕ, ◌≡◌, refl, false, true, List, [], ◌∷◌, contains, nat_eq, ◌==◌, arith, ℕ_discrete,
}
use saengra.UndoLog.Change.{Change}
use saengra.UndoLog.Net.{net_changes}
use saengra.UndoLog.Net.Correct.{net_changes_lem}

-- One number comes and goes, another comes.
abbrev log : List (Change ℕ)
log =
    record { item = 4; added = true }
    ∷ record { item = 9; added = true }
    ∷ record { item = 4; added = false }
    ∷ []

net_changes_lem_example : contains (net_changes true log) 9 ≡ true
unfolding ℕ_discrete
net_changes_lem_example =
    net_changes_lem (λ k. false) (λ k. k == 9) true log 9 (refl, (refl, (refl, λ k. ground arith)))
