-- ===== src/UndoLog/Net/Correct.antt =====
-- The net changes, beside the set before the log and the set behind it.
use saengra.Prelude.{
  ◌≡◌, refl, ◌∙◌, Bool, true, false, not, ◌&&◌, Option, none, some, List, [], ◌∷◌, arith, Eq,
  lookup, contains, IsMap, IsMap-insert, lookup-insert,
}
use saengra.UndoLog.Change.{Change, Replays, changed}
use saengra.UndoLog.Net.{track, first_and_last, collect, net_changes, same_flag, entry}

-- What an entry says of its item, given whether it was in the set and whether it is now.
abbrev Records : Option (Bool × Bool) → Bool → Bool → Type 0
Records none before now = before ≡ now
Records (some (first, last)) before now = (first ≡ not before) × (last ≡ now)

entry-Records :
    (o : Option (Bool × Bool)) (before now added : Bool)
    → now ≡ not added
    → Records o before now
    → Records (some (entry o added)) before added
entry-Records none before now added h r = ground arith
entry-Records (some (first, last)) before now added h r = ground arith

abbrev chosen : Bool → Option (Bool × Bool) → Bool
chosen added none = false
chosen added (some (first, last)) = same_flag first added && same_flag last added

chosen-Records :
    (added : Bool) (o : Option (Bool × Bool)) (before now : Bool)
    → Records o before now
    → chosen added o ≡ same_flag added now && same_flag (not added) before
chosen-Records true none before now r = ground arith
chosen-Records false none before now r = ground arith
chosen-Records true (some (first, last)) before now r = ground arith
chosen-Records false (some (first, last)) before now r = ground arith

module _ {K : Type 0} ⦃e : Eq K⦄ where
  track-IsMap : (m : List (K × (Bool × Bool))) (c : Change K) → IsMap m → IsMap (track m c)
  unfolding track
  track-IsMap m c h = IsMap-insert c.item (entry (lookup c.item m) c.added) m h

  track-Records :
      (s u : K → Bool) (m : List (K × (Bool × Bool))) (c : Change K) (k : K)
      → u c.item ≡ not c.added
      → ((k : K) → Records (lookup k m) (s k) (u k))
      → Records (lookup k (track m c)) (s k) (changed c u k)
  unfolding track
  track-Records s u m c k was h =
      rw lookup-insert (ground (arith, h k, entry-Records (lookup k m) (s k) (u k) c.added))

  first_and_last-Records :
      (s u t : K → Bool) (m : List (K × (Bool × Bool))) (cs : List (Change K))
      → IsMap m
      → ((k : K) → Records (lookup k m) (s k) (u k))
      → Replays u cs t
      → IsMap (first_and_last m cs)
        × ((k : K) → Records (lookup k (first_and_last m cs)) (s k) (t k))
  unfolding first_and_last
  first_and_last-Records s u t m [] d h r = (d, λ k. rw (← r k) (h k))
  first_and_last-Records s u t m (c ∷ cs) d h r =
      first_and_last-Records s (changed c u) t (track m c) cs (track-IsMap m c d)
        (λ k. track-Records s u m c k r.0 h) r.1

  collect_absent :
      (added : Bool) (m : List (K × (Bool × Bool))) (k : K)
      → lookup k m ≡ none
      → contains (collect added m) k ≡ false
  unfolding collect contains lookup
  collect_absent added [] k h = refl
  collect_absent added ((j, (first, last)) ∷ m) k h = ground (arith, collect_absent added m k)

  contains-collect :
      (added : Bool) (m : List (K × (Bool × Bool))) (k : K)
      → IsMap m
      → contains (collect added m) k ≡ chosen added (lookup k m)
  unfolding collect contains lookup
  contains-collect added [] k d = refl
  contains-collect added ((j, (first, last)) ∷ m) k d =
      ground (arith, contains-collect added m k d.1, collect_absent added m k)

  -- If a log leads from one set to another, each entry a change of its item, then the net changes
  -- that add items are those in the second set and not in the first, and the net changes that remove
  -- items are those in the first set and not in the second.
  pub net_changes_lem :
      (s t : K → Bool) (added : Bool) (log : List (Change K)) (k : K)
      → Replays s log t
      → contains (net_changes added log) k ≡ same_flag added (t k) && same_flag (not added) (s k)
  unfolding net_changes lookup
  net_changes_lem s t added log k r =
      let (d, h) = first_and_last-Records s s t [] log tt (λ k. refl) r in
      contains-collect added (first_and_last [] log) k d
      ∙ chosen-Records added (lookup k (first_and_last [] log)) (s k) (t k) (h k)
