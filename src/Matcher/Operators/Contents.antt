-- ===== src/Matcher/Operators/Contents.antt =====
-- What the operators of the matcher (saengra-server/src/matcher.cpp) make of operands that are found
-- without vertices and edges.
use saengra.Prelude.{
  ℕ, Bool, true, false, ◌&&◌, Option, none, some, List, [], ◌∷◌, ◌++◌, map, if◌then◌else◌, ◌≡◌,
  refl, sym, ap, ap₂, ◌∙◌, arith,
}
use saengra.Refs.{RefName, Refs, intersect_with, restricted_to}
use saengra.Subgraph.{Position, Subgraph, observable, QuerySetObservable}
use saengra.Matcher.{
  MatchMode, is_first, Start, Found, nothing, found, depends, failed, also, silent, or_enough,
  collect, when_matched, dep,
}
use saengra.Matcher.Groups.{clear_contents, without_contents, concat_subgraph}
use saengra.Matcher.Groups.Maps.{map-append}
use saengra.Matcher.Operators.{
  at_vertex, concat_all, continued_at, continued, behind_head, with_subgraphs, cached_with, cached,
  nested_start, at_nested,
}

-- What is found, without vertices and edges.
unfoldable pub strip : Found → Found
unfolding with_subgraphs
strip a = with_subgraphs without_contents a

pub nothing-strip : strip nothing ≡ nothing
unfolding strip without_contents with_subgraphs
nothing-strip = refl

pub failed-strip : strip failed ≡ failed
unfolding strip without_contents with_subgraphs
failed-strip = refl

pub depends-strip : (deps : List QuerySetObservable) → strip (depends deps) ≡ depends deps
unfolding strip without_contents with_subgraphs
depends-strip deps = refl

pub found-strip : (sg : Subgraph) → strip (found sg) ≡ found (clear_contents sg)
unfolding strip without_contents with_subgraphs
found-strip sg = refl

pub strip-also : (a b : Found) → strip (also a b) ≡ also (strip a) (strip b)
unfolding strip without_contents
strip-also a b =
    ap
      (λ sgs. record { subgraphs = sgs; deps = a.deps ++ b.deps; returns = a.returns && b.returns })
      (map-append clear_contents a.subgraphs b.subgraphs)

pub when_matched-strip :
    (matched : Option (Refs × List QuerySetObservable)) (f g : Refs → Found)
    → ((refs : Refs) → strip (f refs) ≡ g refs)
    → strip (when_matched matched f) ≡ when_matched matched g
unfolding when_matched
when_matched-strip none f g h = nothing-strip
when_matched-strip (some (refs, deps)) f g h =
    strip-also (depends deps) (f refs) ∙ ap₂ also (depends-strip deps) (h refs)

pub or_nothing-strip :
    (b : Bool) (a a' : Found)
    → strip a ≡ a'
    → strip (if b then nothing else a) ≡ (if b then nothing else a')
or_nothing-strip true a a' h = nothing-strip
or_nothing-strip false a a' h = h

pub or_enough-also : (m : MatchMode) (a b : Found) → is_first m ≡ false → or_enough m a b ≡ also a b
unfolding or_enough
or_enough-also MatchMode.normal a b p = refl
or_enough-also MatchMode.first a b p = ground arith
or_enough-also MatchMode.refs_only a b p = refl

pub map_same {ℓ} : {A : Type ℓ} (xs : List A) → map (λ x. x) xs ≡ xs
map_same [] = refl
map_same (x ∷ xs) = ap (◌∷◌ x) (map_same xs)

module _ (m m' : MatchMode) (p : is_first m ≡ false) (p' : is_first m' ≡ false) where
  pub strip-or_enough :
      (a b a' b' : Found)
      → strip a ≡ a'
      → strip b ≡ b'
      → strip (or_enough m a b) ≡ or_enough m' a' b'
  strip-or_enough a b a' b' h k =
      ap strip (or_enough-also m a b p)
      ∙ strip-also a b
      ∙ ap₂ also h k
      ∙ sym (or_enough-also m' a' b' p')

  pub strip-collect {ℓ ℓ'} :
      {A : Type ℓ} {B : Type ℓ'} (c : A → B) (f : A → Found) (g : B → Found)
      → ((x : A) → strip (f x) ≡ g (c x))
      → (xs : List A) → strip (collect m f xs) ≡ collect m' g (map c xs)
  unfolding collect strip without_contents
  strip-collect c f g h [] = refl
  strip-collect c f g h (x ∷ xs) =
      strip-or_enough (f x) (collect m f xs) (g (c x)) (collect m' g (map c xs)) (h x)
        (strip-collect c f g h xs)

  clear-concat_all :
      (sg : Subgraph) (sgs : List Subgraph)
      → map clear_contents (concat_all sg sgs)
        ≡ concat_all (clear_contents sg) (map clear_contents sgs)
  unfolding concat_all clear_contents concat_subgraph
  clear-concat_all sg [] = refl
  clear-concat_all sg (x ∷ xs) =
      ap (◌∷◌ (clear_contents (concat_subgraph sg x))) (clear-concat_all sg xs)

  module _ (f g : Start → Found) (h : (s : Start) → strip (f s) ≡ g s) (origin : Position) where
    continued_at-strip :
        (sg : Subgraph) (position : Position)
        → strip (continued_at f origin sg position)
          ≡ continued_at g origin (clear_contents sg) position
    unfolding strip continued_at without_contents clear_contents with_subgraphs
    continued_at-strip sg position =
        let s : Start = record { origin = origin; position = position; refs = sg.refs } in
        ap (λ sgs. with_subgraphs (λ old. sgs) (f s)) (clear-concat_all sg (f s).subgraphs)
        ∙ ap (with_subgraphs (concat_all (clear_contents sg))) (h s)

    pub continued-strip :
        (sg : Subgraph)
        → strip (continued m f origin sg) ≡ continued m' g origin (clear_contents sg)
    unfolding continued clear_contents
    continued-strip sg =
        strip-collect (λ position. position) (continued_at f origin sg)
          (continued_at g origin (clear_contents sg)) (continued_at-strip sg) sg.end_positions
        ∙ ap (collect m' (continued_at g origin (clear_contents sg))) (map_same sg.end_positions)

    pub behind_head-strip :
        (head : Found) → strip (behind_head m f origin head) ≡ behind_head m' g origin (strip head)
    unfolding behind_head strip without_contents
    behind_head-strip head =
        strip-also (silent head) (collect m (continued m f origin) head.subgraphs)
        ∙ ap (also (silent head)) (
            strip-collect clear_contents (continued m f origin) (continued m' g origin)
              continued-strip head.subgraphs)

module _ (s : Start) where
  pub at_vertex-strip :
      (matched : Option (Refs × List QuerySetObservable))
      → strip (at_vertex MatchMode.normal s matched) ≡ at_vertex MatchMode.refs_only s matched
  unfolding at_vertex clear_contents
  at_vertex-strip matched = when_matched-strip matched _ _ (λ refs. found-strip _)

  cached_with-strip :
      (sg : Subgraph) (refs : Option Refs)
      → strip (cached_with MatchMode.normal s sg refs) ≡ cached_with MatchMode.refs_only s sg refs
  unfolding cached_with clear_contents
  cached_with-strip sg none = nothing-strip
  cached_with-strip sg (some refs) = found-strip _

  cached-strip :
      (sg : Subgraph) → strip (cached MatchMode.normal s sg) ≡ cached MatchMode.refs_only s sg
  unfolding cached
  cached-strip sg = cached_with-strip sg (intersect_with s.refs sg.refs)

  pub at_nested-strip :
      (id : ℕ) (names : List RefName) (results : Option (ℕ → Position → Refs → List Subgraph))
      (a b : Found)
      → strip a ≡ b
      → strip (at_nested MatchMode.normal id names s results a)
        ≡ at_nested MatchMode.refs_only id names s results b
  unfolding at_nested
  at_nested-strip id names none a b h = h
  at_nested-strip id names (some results) a b h =
      let sgs = results id s.position (restricted_to names s.refs) in
      let deps = depends (dep s.origin (observable (nested_start id names s)) ∷ []) in
      strip-also deps (collect MatchMode.normal (cached MatchMode.normal s) sgs)
      ∙ ap₂ also (depends-strip _) (
          strip-collect MatchMode.normal MatchMode.refs_only refl refl (λ sg. sg)
            (cached MatchMode.normal s) (cached MatchMode.refs_only s) cached-strip sgs
          ∙ ap (collect MatchMode.refs_only (cached MatchMode.refs_only s)) (map_same sgs))
