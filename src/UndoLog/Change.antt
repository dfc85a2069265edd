-- ===== src/UndoLog/Change.antt =====
-- Entries of the log, and replaying them.
use saengra.Prelude.{
  ◌≡◌, Bool, true, false, not, ◌&&◌, List, [], ◌∷◌, ◌++◌, arith, Eq, ite, contains, IsSetList,
}

pub record Change (K : Type 0) : Type 0 where
  pub item : K
  pub added : Bool

module _ {K : Type 0} ⦃e : Eq K⦄ where
  -- The set after a change.
  abbrev pub changed : Change K → (K → Bool) → K → Bool
  changed c s k = ite (e.dec c.item k) c.added (s k)

  -- The changes lead from one set to the other, and each of them is a change of its item.
  abbrev pub Replays : (K → Bool) → List (Change K) → (K → Bool) → Type 0
  Replays s [] t = (k : K) → s k ≡ t k
  Replays s (c ∷ cs) t = (s c.item ≡ not c.added) × Replays (changed c s) cs t

  changed-cong :
      (s t : K → Bool) (c : Change K)
      → ((k : K) → s k ≡ t k)
      → (k : K) → changed c s k ≡ changed c t k
  changed-cong s t c h k = ground (arith, h k)

  pub Replays-start :
      (s t u : K → Bool) (ys : List (Change K))
      → ((k : K) → s k ≡ t k)
      → Replays t ys u
      → Replays s ys u
  Replays-start s t u [] h r = λ j. ground (arith, h j, r j)
  Replays-start s t u (c ∷ ys) h r = (
    ground (arith, h c.item),
    Replays-start (changed c s) (changed c t) u ys (changed-cong s t c h) r.1,
  )

  pub Replays-append :
      (s t u : K → Bool) (xs ys : List (Change K))
      → Replays s xs t
      → Replays t ys u
      → Replays s (xs ++ ys) u
  Replays-append s t u [] ys h r = Replays-start s t u ys h r
  Replays-append s t u (x ∷ xs) ys h r = (h.0, Replays-append (changed x s) t u xs ys h.1 r)

  -- One more change at the end.
  pub Replays-push :
      (s t u : K → Bool) (xs : List (Change K)) (c : Change K)
      → Replays s xs t
      → t c.item ≡ not c.added
      → ((k : K) → u k ≡ changed c t k)
      → Replays s (xs ++ c ∷ []) u
  Replays-push s t u xs c h was now =
      Replays-append s t u xs (c ∷ []) h (was, λ k. ground (arith, now k))

  pub Replays-end :
      (s t u : K → Bool) (xs : List (Change K))
      → Replays s xs t
      → ((k : K) → t k ≡ u k)
      → Replays s xs u
  Replays-end s t u [] r h = λ k. ground (arith, r k, h k)
  Replays-end s t u (x ∷ xs) r h = (r.0, Replays-end (changed x s) t u xs r.1 h)

  -- Entries for removed items.
  abbrev pub removals : List K → List (Change K)
  removals [] = []
  removals (k ∷ ks) = record { item = k; added = false } ∷ removals ks

  pub Replays-removals :
      (s t : K → Bool) (ks : List K)
      → IsSetList ks
      → ((k : K) → contains ks k ≡ true → s k ≡ true)
      → ((k : K) → t k ≡ (not (contains ks k) && s k))
      → Replays s (removals ks) t
  unfolding contains
  Replays-removals s t [] d there now = λ k. ground (arith, now k)
  Replays-removals s t (x ∷ ks) d there now = (
    ground (arith, there x),
    Replays-removals (changed (record { item = x; added = false }) s) t ks d.1
        (λ k h. ground (arith, there k, d.0)) (λ k. ground (arith, now k)),
  )
