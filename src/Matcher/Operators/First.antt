-- ===== src/Matcher/Operators/First.antt =====
-- The operators of the matcher (saengra-server/src/matcher.cpp) on operands of which only the first
-- subgraph is found.
use saengra.Prelude.{
  ℕ, zero, suc, Bool, true, false, ◌&&◌, Option, none, some, List, [], ◌∷◌, ◌++◌, leb, ◌≡◌, refl,
  sym, ap, ◌∙◌, arith, ap₂, subst, Bool-cases, inl, inr,
}
use saengra.Refs.{RefName, Refs, restricted_to, intersect_with}
use saengra.Subgraph.{Position, Subgraph, observable, QuerySetObservable}
use saengra.Matcher.{
  MatchMode, Start, Found, nothing, found, depends, failed, also, silent, is_empty, or_enough,
  collect, when_matched, dep,
}
use saengra.Matcher.Groups.Emptiness.{is_empty-append}
use saengra.Matcher.Operators.{
  at_vertex, concat_all, continued_at, continued, behind_head, Operands, indexed, no_operands,
  first_operand, if_complete, with_subgraphs, at_nested, nested_start, cached, cached_with, emits,
  round, next_step, repeat,
}

-- If the second visit returns, then so does the first one, and it finds something if and only if the
-- second one does.
pub Tells : Found → Found → Type 0
Tells a b = b.returns ≡ true → (a.returns ≡ true) × (is_empty a.subgraphs ≡ is_empty b.subgraphs)

pub telling :
    (a b : Found)
    → Tells a b
    → b.returns ≡ true
    → (a.returns ≡ true) × (is_empty a.subgraphs ≡ is_empty b.subgraphs)
unfolding Tells
telling a b t h = t h

pub same-Tells : (a : Found) → Tells a a
unfolding Tells
same-Tells a h = (h, refl)

pub also-Tells : (a b a' b' : Found) → Tells a a' → Tells b b' → Tells (also a b) (also a' b')
unfolding Tells
also-Tells a b a' b' s t h =
    let s' = s (ground arith) in
    let t' = t (ground arith) in
    (
      ground (arith, s'.0, t'.0),
      is_empty-append a.subgraphs b.subgraphs
          ∙ ap₂ ◌&&◌ s'.1 t'.1
          ∙ sym (is_empty-append a'.subgraphs b'.subgraphs),
    )

pub or_enough-Tells :
    (a b a' b' : Found)
    → Tells a a'
    → Tells b b'
    → Tells (or_enough MatchMode.first a b) (or_enough MatchMode.refs_only a' b')
unfolding Tells or_enough
or_enough-Tells a b a' b' s t h =
    let s' = s (ground arith) in
    let t' = t (ground arith) in
    let joined = is_empty-append a.subgraphs b.subgraphs in
    let joined' = is_empty-append a'.subgraphs b'.subgraphs in
    (ground (arith, s'.0, t'.0), ground (arith, s'.1, t'.1, joined, joined'))

pub collect-Tells {ℓ} :
    {A : Type ℓ} (f g : A → Found)
    → ((x : A) → Tells (f x) (g x))
    → (xs : List A) → Tells (collect MatchMode.first f xs) (collect MatchMode.refs_only g xs)
unfolding collect
collect-Tells f g h [] = same-Tells nothing
collect-Tells f g h (x ∷ xs) =
    or_enough-Tells (f x) (collect MatchMode.first f xs) (g x) (collect MatchMode.refs_only g xs)
      (h x) (collect-Tells f g h xs)

pub when_matched-Tells :
    (matched : Option (Refs × List QuerySetObservable)) (f g : Refs → Found)
    → ((refs : Refs) → Tells (f refs) (g refs))
    → Tells (when_matched matched f) (when_matched matched g)
unfolding when_matched
when_matched-Tells none f g h = same-Tells nothing
when_matched-Tells (some (refs, deps)) f g h =
    also-Tells (depends deps) (f refs) (depends deps) (g refs) (same-Tells (depends deps)) (h refs)

pub with_subgraphs-Tells :
    (f : List Subgraph → List Subgraph) (a b : Found)
    → ((sgs : List Subgraph) → is_empty (f sgs) ≡ is_empty sgs)
    → Tells a b
    → Tells (with_subgraphs f a) (with_subgraphs f b)
unfolding Tells with_subgraphs
with_subgraphs-Tells f a b h t k =
    let t' = t k in (t'.0, h a.subgraphs ∙ t'.1 ∙ sym (h b.subgraphs))

pub with_some-Tells :
    (f : List Subgraph → List Subgraph) (a b : Found)
    → ((sgs : List Subgraph) → is_empty (f sgs) ≡ false)
    → Tells a b
    → Tells (with_subgraphs f a) (with_subgraphs f b)
unfolding Tells with_subgraphs
with_some-Tells f a b h t k = let t' = t k in (t'.0, h a.subgraphs ∙ sym (h b.subgraphs))

is_empty-concat_all :
    (sg : Subgraph) (sgs : List Subgraph) → is_empty (concat_all sg sgs) ≡ is_empty sgs
unfolding concat_all
is_empty-concat_all sg [] = refl
is_empty-concat_all sg (x ∷ xs) = refl

module _ (f g : Start → Found) (h : (s : Start) → Tells (f s) (g s)) (origin : Position) where
  continued_at-Tells :
      (sg : Subgraph) (position : Position)
      → Tells (continued_at f origin sg position) (continued_at g origin sg position)
  unfolding continued_at with_subgraphs
  continued_at-Tells sg position =
      with_subgraphs-Tells (concat_all sg) _ _ (is_empty-concat_all sg)
        (h (record { origin = origin; position = position; refs = sg.refs }))

  pub behind_head-Tells :
      (head : Found)
      → Tells
          (behind_head MatchMode.first f origin head)
          (behind_head MatchMode.refs_only g origin head)
  unfolding behind_head continued
  behind_head-Tells head = also-Tells (silent head) _ (silent head) _ (same-Tells (silent head)) (
      collect-Tells (continued MatchMode.first f origin) (continued MatchMode.refs_only g origin)
        (λ sg.
          collect-Tells (continued_at f origin sg) (continued_at g origin sg)
            (continued_at-Tells sg) sg.end_positions)
        head.subgraphs)

-- The same for the operands of a conjunction.
pub TellsAll : Operands → Operands → Type 0
TellsAll a b =
    b.returns ≡ true
    → (a.returns ≡ true) × (a.complete ≡ b.complete) × (is_empty a.items ≡ is_empty b.items)

pub no_operands-TellsAll : TellsAll no_operands no_operands
unfolding TellsAll
no_operands-TellsAll h = (h, refl, refl)

is_empty-indexed : (i : ℕ) (sgs : List Subgraph) → is_empty (indexed i sgs) ≡ is_empty sgs
unfolding indexed
is_empty-indexed i [] = refl
is_empty-indexed i (sg ∷ sgs) = refl

pub first_operand-TellsAll :
    (i : ℕ) (a b : Found) (rest rest' : Operands)
    → Tells a b
    → TellsAll rest rest'
    → TellsAll (first_operand i a rest) (first_operand i b rest')
unfolding Tells TellsAll first_operand
first_operand-TellsAll i a b rest rest' s t h =
    let s' = s (ground arith) in
    let e = is_empty-append (indexed i a.subgraphs) rest.items in
    let e' = is_empty-append (indexed i b.subgraphs) rest'.items in
    let k = is_empty-indexed i a.subgraphs in
    let k' = is_empty-indexed i b.subgraphs in
    elim (Bool-cases (is_empty b.subgraphs)) [
      | inl none_found ↦ ground (arith, s'.0, s'.1, none_found)
      | inr some_found ↦
          let t' = t (ground arith) in
          ground (arith, s'.0, s'.1, t'.0, t'.1, t'.2, e, e', k, k', some_found)
    ]

pub if_complete-Tells :
    (f : List (ℕ × Subgraph) → List Subgraph) (a b : Operands)
    → ((items : List (ℕ × Subgraph)) → is_empty (f items) ≡ is_empty items)
    → TellsAll a b
    → Tells (if_complete f a) (if_complete f b)
unfolding Tells TellsAll if_complete
if_complete-Tells f a b h t k =
    let t' = t k in
    let e = h a.items in let e' = h b.items in (t'.0, ground (arith, e, e', t'.1, t'.2))

cached-Tells :
    (s : Start) (sg : Subgraph) (refs : Option Refs)
    → Tells (cached_with MatchMode.first s sg refs) (cached_with MatchMode.refs_only s sg refs)
unfolding cached_with
cached-Tells s sg none = same-Tells nothing
cached-Tells s sg (some refs) = same-Tells (found _)

pub at_nested-Tells :
    (id : ℕ) (names : List RefName) (s : Start)
    (results : Option (ℕ → Position → Refs → List Subgraph)) (a b : Found)
    → Tells a b
    → Tells
        (at_nested MatchMode.first id names s results a)
        (at_nested MatchMode.refs_only id names s results b)
unfolding at_nested cached
at_nested-Tells id names s none a b h = h
at_nested-Tells id names s (some results) a b h =
    let deps = depends (dep s.origin (observable (nested_start id names s)) ∷ []) in
    also-Tells deps _ deps _ (same-Tells deps) (
      collect-Tells (cached MatchMode.first s) (cached MatchMode.refs_only s)
        (λ sg. cached-Tells s sg (intersect_with s.refs sg.refs))
        (results id s.position (restricted_to names s.refs)))

module _ (step : Subgraph → Found) where
  round-continued :
      (is_long : Bool) (chains : List Subgraph)
      → (round MatchMode.first is_long step chains).continued
        ≡ (round MatchMode.refs_only is_long step chains).continued
  unfolding round
  round-continued is_long [] = refl
  round-continued is_long (chain ∷ chains) =
      ap (λ cs. (step chain).subgraphs ++ cs) (round-continued is_long chains)

  round-Tells :
      (is_long : Bool) (chains : List Subgraph)
      → Tells
          (round MatchMode.first is_long step chains).emitted
          (round MatchMode.refs_only is_long step chains).emitted
  unfolding round
  round-Tells is_long [] = same-Tells nothing
  round-Tells is_long (chain ∷ chains) =
      or_enough-Tells (emits is_long chain (step chain)) _ (emits is_long chain (step chain)) _
        (same-Tells _) (round-Tells is_long chains)

pub repeat-Tells :
    (step : Subgraph → Found) (min : ℕ) (max : Option ℕ) (rounds repeats : ℕ)
    (chains : List Subgraph)
    → Tells
        (repeat MatchMode.first step min max rounds repeats chains)
        (repeat MatchMode.refs_only step min max rounds repeats chains)
unfolding repeat
repeat-Tells step min max rounds repeats [] = same-Tells nothing
repeat-Tells step min max zero repeats (chain ∷ chains) = same-Tells failed
repeat-Tells step min max (suc rounds) repeats (chain ∷ chains) =
    let now = next_step max repeats step in
    let this = round MatchMode.first (leb min repeats) now (chain ∷ chains) in
    let this' = round MatchMode.refs_only (leb min repeats) now (chain ∷ chains) in
    or_enough-Tells this.emitted _ this'.emitted _
      (round-Tells now (leb min repeats) (chain ∷ chains))
      (subst
        (λ cs.
          Tells (repeat MatchMode.first step min max rounds (suc repeats) this.continued)
            (repeat MatchMode.refs_only step min max rounds (suc repeats) cs))
        (round-continued now (leb min repeats) (chain ∷ chains))
        (repeat-Tells step min max rounds (suc repeats) this.continued))

pub at_vertex-Tells :
    (s : Start) (matched : Option (Refs × List QuerySetObservable))
    → Tells (at_vertex MatchMode.first s matched) (at_vertex MatchMode.refs_only s matched)
unfolding at_vertex
at_vertex-Tells s matched = same-Tells (at_vertex MatchMode.first s matched)
