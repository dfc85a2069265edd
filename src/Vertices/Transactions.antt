-- ===== src/Vertices/Transactions.antt =====
-- The transaction control of `MutableVerticesContainer`, and the changes that it reports.
use saengra.Prelude.{
  is_some, ◌≡◌, refl, sym, ◌∙◌, Bool, true, false, not, ◌&&◌, Option, none, some, List, [], ◌∷◌,
  arith, contains, nat_eq, length, drop, get_elem?,
}
use saengra.UndoLog.Change.{Change, changed, Replays, Replays-end}
use saengra.UndoLog.Net.Correct.{net_changes_lem}
use saengra.UndoLog.Layers.{
  Layers, Tracks-apply, Tracks-commit, Tracks-Replays, Tracks-empty, Tracks-pending,
  Tracks-unchanged, Tracks-applied, apply_layers, commit_layers, rollback_layers,
}
use saengra.Edge.{VertexId}
use saengra.Vertex.{StoredVertex, vertex_data_eq}
use saengra.Vertices.{
  VerticesContainer, is_present, apply, commit, undo_all, rollback, iter_just_added,
  iter_just_removed, iter_just_changed, has_unapplied_changes,
}
use saengra.Vertices.Valid.{IsValid, set_present-IsValid}
use saengra.Vertices.Refines.{
  Refines, Logged, is_stored, with_log-IsValid, is_present-set_present, is_stored-set_present,
  Logged-drop,
}

module _ (c : VerticesContainer) (l : Layers VertexId) (r : Refines c l) where
  pub apply-Refines : Refines (apply c) (apply_layers l)
  unfolding apply
  apply-Refines = record {
    valid = with_log-IsValid c c.log (length c.log) r.valid;
    tracks = Tracks-apply c.log c.applied l r.tracks;
    logged = r.logged;
    now = r.now;
  }

  pub commit-Refines : Refines (commit c) (commit_layers l)
  unfolding commit
  commit-Refines = record {
    valid = with_log-IsValid c (drop c.applied c.log) 0 r.valid;
    tracks = Tracks-commit c.log c.applied l r.tracks;
    logged = Logged-drop c.stored c.applied c.log r.logged;
    now = r.now;
  }

  pub iter_just_added_lem :
      (id : VertexId) → contains (iter_just_added c) id ≡ (l.current id && not (l.applied id))
  unfolding iter_just_added iter_just_changed
  iter_just_added_lem id =
      net_changes_lem l.applied l.current true (drop c.applied c.log) id
        (Tracks-pending c.log c.applied l r.tracks)

  pub iter_just_removed_lem :
      (id : VertexId) → contains (iter_just_removed c) id ≡ (not (l.current id) && l.applied id)
  unfolding iter_just_removed iter_just_changed
  iter_just_removed_lem id =
      net_changes_lem l.applied l.current false (drop c.applied c.log) id
        (Tracks-pending c.log c.applied l r.tracks)

  pub has_unapplied_changes_lem :
      has_unapplied_changes c ≡ false → (id : VertexId) → l.current id ≡ l.applied id
  unfolding has_unapplied_changes
  has_unapplied_changes_lem none_there id =
      sym (Tracks-unchanged c.log c.applied l r.tracks (ground arith) id)

stored-cases : (o : Option StoredVertex) → is_some o ≡ true → (s : StoredVertex) × (o ≡ some s)
stored-cases none h = cc
stored-cases (some s) h = (s, refl)

-- Undoing the log: every logged vertex is stored, so each step sets its flag.
undo_all_lem :
    (s : VertexId → Bool) (log : List (Change VertexId)) (c : VerticesContainer)
    → IsValid c
    → Replays s log (is_present c)
    → Logged c.stored log
    → IsValid (undo_all log c)
      × ((id : VertexId) → is_present (undo_all log c) id ≡ s id)
      × ((id : VertexId) → is_stored (undo_all log c).stored id ≡ is_stored c.stored id)
unfolding undo_all
undo_all_lem s [] c h r known = (h, λ k. sym (r k), λ k. refl)
undo_all_lem s (change ∷ log) c h r known =
    let (ok, same, kept) = undo_all_lem (changed change s) log c h r.1 known.1 in
    let d = undo_all log c in
    let id = change.item in
    let (sv, there) = stored-cases (get_elem? d.stored id) (kept id ∙ known.0) in
    (
      set_present-IsValid id (not change.added) d sv there ok,
      λ k. ground (arith, is_present-set_present id (not change.added) d sv there k, same k, r.0),
      λ k. is_stored-set_present id (not change.added) d sv there k ∙ kept k,
    )

pub rollback-Refines :
    (c : VerticesContainer) (l : Layers VertexId)
    → Refines c l
    → Refines (rollback c) (rollback_layers l)
unfolding rollback
rollback-Refines c l r =
    let log =
      Replays-end l.committed l.current (is_present c) c.log
        (Tracks-Replays c.log c.applied l r.tracks) r.now in
    let (ok, same, kept) = undo_all_lem l.committed c.log c r.valid log r.logged in
    record {
      valid = with_log-IsValid (undo_all c.log c) [] 0 ok;
      tracks = Tracks-empty (rollback_layers l) (λ k. refl) (λ k. refl);
      logged = tt;
      now = λ k. sym (same k);
    }

-- With no unapplied changes, applying them does nothing.
pub unapplied-Refines :
    (c : VerticesContainer) (l : Layers VertexId)
    → Refines c l
    → has_unapplied_changes c ≡ false
    → Refines c (apply_layers l)
unapplied-Refines c l r none_there = record {
  valid = r.valid;
  tracks =
      Tracks-applied c.log c.applied l r.tracks
        (λ k. sym (has_unapplied_changes_lem c l r none_there k));
  logged = r.logged;
  now = r.now;
}
