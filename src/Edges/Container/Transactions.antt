-- ===== src/Edges/Container/Transactions.antt =====
-- The transaction control of `MutableEdgesContainer`, and the changes that it reports.
use saengra.Prelude.{
  ◌≡◌, refl, sym, Bool, true, false, not, ◌&&◌, List, [], ◌∷◌, arith, ite, contains, nat_eq,
  Bool-cases, inl, inr, drop,
}
use saengra.UndoLog.Change.{Change, changed, Replays, Replays-end}
use saengra.UndoLog.Net.Correct.{net_changes_lem}
use saengra.UndoLog.Layers.{
  Layers, Tracks-apply, Tracks-commit, Tracks-Replays, Tracks-empty, Tracks-pending,
  Tracks-unchanged, Tracks-applied, apply_layers, commit_layers, rollback_layers,
}
use saengra.Edge.{Edge, Edge-discrete, edge_eq, link_eq}
use saengra.Edges.Container.{
  EdgesContainer, apply, commit, undo, undo_all, rollback, iter_just_added, iter_just_removed,
  iter_just_changed, has_unapplied_changes,
}
use saengra.Edges.Container.Sync.{
  contents, InSync, contents-insert, insert-InSync, contents-erase, erase-InSync,
}
use saengra.Edges.Container.Refines.{Refines}

module _ (c : EdgesContainer) (l : Layers Edge) (r : Refines c l) where
  open r use {in_sync, tracks, now}

  pub apply-Refines : Refines (apply c) (apply_layers l)
  unfolding apply
  apply-Refines = record {
    in_sync = in_sync;
    tracks = Tracks-apply c.log c.applied l tracks;
    now = now;
  }

  -- If an edges container refines some layers, then after a commit it refines the layers in which
  -- what is applied is committed.
  pub commit-Refines : Refines (commit c) (commit_layers l)
  unfolding commit
  commit-Refines = record {
    in_sync = in_sync;
    tracks = Tracks-commit c.log c.applied l tracks;
    now = now;
  }

undo-InSync :
    (change : Change Edge) (c : EdgesContainer)
    → InSync c.forward c.inverse
    → InSync (undo change c).forward (undo change c).inverse
unfolding undo
undo-InSync change c h = elim (Bool-cases change.added) [
  | inl a ↦ rw (a, undo) (erase-InSync change.item c h)
  | inr a ↦ rw (a, undo) (insert-InSync change.item c h)
]

contents-undo :
    (change : Change Edge) (c : EdgesContainer) (k : Edge)
    → contents (undo change c) k
      ≡ ite (Edge-discrete change.item k) (not change.added) (contents c k)
unfolding undo
contents-undo change c k =
    ground (arith, contents-erase change.item c k, contents-insert change.item c k)

-- Undoing the log leads back to where it began.
undo_all_lem :
    (s : Edge → Bool) (log : List (Change Edge)) (c : EdgesContainer)
    → InSync c.forward c.inverse
    → Replays s log (contents c)
    → InSync (undo_all log c).forward (undo_all log c).inverse
      × ((k : Edge) → contents (undo_all log c) k ≡ s k)
unfolding undo_all
undo_all_lem s [] c h r = (h, λ k. sym (r k))
undo_all_lem s (change ∷ log) c h r =
    let (ok, same) = undo_all_lem (changed change s) log c h r.1 in
    (
      undo-InSync change (undo_all log c) ok,
      λ k. ground (arith, contents-undo change (undo_all log c) k, same k, r.0),
    )

-- If an edges container refines some layers, then after a rollback it refines the layers in which
-- both what is applied and what is there now are what is committed.
pub rollback-Refines :
    (c : EdgesContainer) (l : Layers Edge) → Refines c l → Refines (rollback c) (rollback_layers l)
unfolding rollback
rollback-Refines c l r =
    let log =
      Replays-end l.committed l.current (contents c) c.log
        (Tracks-Replays c.log c.applied l r.tracks) r.now in
    let (ok, same) = undo_all_lem l.committed c.log c r.in_sync log in
    record {
      in_sync = ok;
      tracks = Tracks-empty (rollback_layers l) (λ k. refl) (λ k. refl);
      now = λ k. sym (same k);
    }

-- If an edges container refines some layers, an edge is reported as added exactly if it is there now
-- and was not when changes were last applied.
pub iter_just_added_lem :
    (c : EdgesContainer) (l : Layers Edge) (k : Edge)
    → Refines c l
    → contains (iter_just_added c) k ≡ (l.current k && not (l.applied k))
unfolding iter_just_added iter_just_changed
iter_just_added_lem c l k r =
    net_changes_lem l.applied l.current true (drop c.applied c.log) k
      (Tracks-pending c.log c.applied l r.tracks)

-- If an edges container refines some layers, an edge is reported as removed exactly if it is not
-- there now and was when changes were last applied.
pub iter_just_removed_lem :
    (c : EdgesContainer) (l : Layers Edge) (k : Edge)
    → Refines c l
    → contains (iter_just_removed c) k ≡ (not (l.current k) && l.applied k)
unfolding iter_just_removed iter_just_changed
iter_just_removed_lem c l k r =
    net_changes_lem l.applied l.current false (drop c.applied c.log) k
      (Tracks-pending c.log c.applied l r.tracks)

-- With no unapplied changes, nothing differs from what was applied last.
pub has_unapplied_changes_lem :
    (c : EdgesContainer) (l : Layers Edge)
    → Refines c l
    → has_unapplied_changes c ≡ false
    → (k : Edge) → l.current k ≡ l.applied k
unfolding has_unapplied_changes
has_unapplied_changes_lem c l r none_there k =
    sym (Tracks-unchanged c.log c.applied l r.tracks (ground arith) k)

-- With no unapplied changes, applying them does nothing.
pub unapplied-Refines :
    (c : EdgesContainer) (l : Layers Edge)
    → Refines c l
    → has_unapplied_changes c ≡ false
    → Refines c (apply_layers l)
unapplied-Refines c l r none_there = record {
  in_sync = r.in_sync;
  tracks =
      Tracks-applied c.log c.applied l r.tracks
        (λ k. sym (has_unapplied_changes_lem c l r none_there k));
  now = r.now;
}
