-- ===== src/UndoLog/Layers.antt =====
-- A transactional set, and how a log with a mark for what is applied represents it.
use saengra.Prelude.{
  ℕ, ◌≤◌, ◌≡◌, refl, sym, ap, ◌∙◌, Bool, not, List, [], ◌∷◌, ◌++◌, arith, length, drop,
  length-append, drop-length, append_assoc, append-nil, Eq, subst,
}
use saengra.UndoLog.Change.{
  Change, changed, Replays, Replays-append, Replays-push, Replays-end, Replays-start,
}

-- Membership in what is committed, in what was applied last, and in what is there now.
pub record Layers (K : Type 0) : Type 0 where
  pub committed : K → Bool
  pub applied : K → Bool
  pub current : K → Bool

module _ {K : Type 0} where
  abbrev pub apply_layers : Layers K → Layers K
  apply_layers l = record l { applied = l.current }

  abbrev pub commit_layers : Layers K → Layers K
  commit_layers l = record l { committed = l.applied }

  abbrev pub rollback_layers : Layers K → Layers K
  rollback_layers l = record l { applied = l.committed; current = l.committed }

module _ {K : Type 0} ⦃e : Eq K⦄ where
  -- The first `count` entries of the log lead from what is committed to what was applied, and the
  -- others from there to what is there now.
  pub record Tracks (log : List (Change K)) (count : ℕ) (l : Layers K) : Type 0 where
    pub before : List (Change K)
    pub since : List (Change K)
    pub split : log ≡ before ++ since
    pub mark : count ≡ length before
    pub until_applied : Replays l.committed before l.applied
    pub until_now : Replays l.applied since l.current

  pub Tracks-push :
      (log : List (Change K)) (n : ℕ) (l : Layers K) (c : Change K) (now : K → Bool)
      → Tracks log n l
      → l.current c.item ≡ not c.added
      → ((k : K) → now k ≡ changed c l.current k)
      → Tracks (log ++ c ∷ []) n (record l { current = now })
  Tracks-push log n l c now t was h = record {
    before = t.before;
    since = t.since ++ c ∷ [];
    split = ap (λ xs. xs ++ c ∷ []) t.split ∙ append_assoc t.before t.since (c ∷ []);
    mark = t.mark;
    until_applied = t.until_applied;
    until_now = Replays-push l.applied l.current now t.since c t.until_now was h;
  }

  pub Tracks-append :
      (log ys : List (Change K)) (n : ℕ) (l : Layers K) (now : K → Bool)
      → Tracks log n l
      → Replays l.current ys now
      → Tracks (log ++ ys) n (record l { current = now })
  Tracks-append log ys n l now t r = record {
    before = t.before;
    since = t.since ++ ys;
    split = ap (λ xs. xs ++ ys) t.split ∙ append_assoc t.before t.since ys;
    mark = t.mark;
    until_applied = t.until_applied;
    until_now = Replays-append l.applied l.current now t.since ys t.until_now r;
  }

  -- Another description of what is there now.
  pub Tracks-current :
      (log : List (Change K)) (n : ℕ) (l : Layers K) (now : K → Bool)
      → Tracks log n l
      → ((k : K) → l.current k ≡ now k)
      → Tracks log n (record l { current = now })
  Tracks-current log n l now t h = record {
    before = t.before;
    since = t.since;
    split = t.split;
    mark = t.mark;
    until_applied = t.until_applied;
    until_now = Replays-end l.applied l.current now t.since t.until_now h;
  }

  pub Tracks-apply :
      (log : List (Change K)) (n : ℕ) (l : Layers K)
      → Tracks log n l
      → Tracks log (length log) (apply_layers l)
  Tracks-apply log n l t = record {
    before = log;
    since = [];
    split = sym (append-nil log);
    mark = refl;
    until_applied =
        subst (λ xs. Replays l.committed xs l.current) (sym t.split)
          (Replays-append l.committed l.applied l.current t.before t.since t.until_applied
            t.until_now);
    until_now = λ k. refl;
  }

  pub Tracks-commit :
      (log : List (Change K)) (n : ℕ) (l : Layers K)
      → Tracks log n l
      → Tracks (drop n log) 0 (commit_layers l)
  Tracks-commit log n l t = record {
    before = [];
    since = t.since;
    split = rw (t.split, t.mark) (drop-length t.before t.since);
    mark = refl;
    until_applied = λ k. refl;
    until_now = t.until_now;
  }

  -- The whole log leads from what is committed to what is there now.
  pub Tracks-Replays :
      (log : List (Change K)) (n : ℕ) (l : Layers K)
      → Tracks log n l
      → Replays l.committed log l.current
  Tracks-Replays log n l t =
      subst (λ xs. Replays l.committed xs l.current) (sym t.split)
        (Replays-append l.committed l.applied l.current t.before t.since t.until_applied
          t.until_now)

  pub Tracks-pending :
      (log : List (Change K)) (n : ℕ) (l : Layers K)
      → Tracks log n l
      → Replays l.applied (drop n log) l.current
  unfolding Tracks-commit
  Tracks-pending log n l t =
      subst (λ xs. Replays l.applied xs l.current) (sym (Tracks-commit log n l t).split) t.until_now

  pub Tracks-empty :
      (l : Layers K)
      → ((k : K) → l.committed k ≡ l.applied k)
      → ((k : K) → l.applied k ≡ l.current k)
      → Tracks [] 0 l
  Tracks-empty l h j = record {
    before = [];
    since = [];
    split = refl;
    mark = refl;
    until_applied = h;
    until_now = j;
  }

  unchanged_since :
      (before since : List (Change K)) (s t : K → Bool)
      → length (before ++ since) ≤ length before
      → Replays s since t
      → (k : K) → s k ≡ t k
  unchanged_since before [] s t h r = r
  unchanged_since before (c ∷ cs) s t h r = absurd (omega (arith, length-append before (c ∷ cs)))

  -- With no entry behind the mark, nothing differs from what was applied last.
  pub Tracks-unchanged :
      (log : List (Change K)) (n : ℕ) (l : Layers K)
      → Tracks log n l
      → length log ≤ n
      → (k : K) → l.applied k ≡ l.current k
  Tracks-unchanged log n l t h =
      unchanged_since t.before t.since l.applied l.current
        (omega (arith, ap length t.split, t.mark)) t.until_now

  -- Then the mark may as well stand at the end.
  pub Tracks-applied :
      (log : List (Change K)) (n : ℕ) (l : Layers K)
      → Tracks log n l
      → ((k : K) → l.applied k ≡ l.current k)
      → Tracks log n (apply_layers l)
  Tracks-applied log n l t same = record {
    before = t.before;
    since = t.since;
    split = t.split;
    mark = t.mark;
    until_applied = Replays-end l.committed l.applied l.current t.before t.until_applied same;
    until_now = Replays-start l.current l.applied l.current t.since (λ k. sym (same k)) t.until_now;
  }
