-- ===== src/Matcher/Operators/Rounds.antt =====
-- What conjunctions and repetitions (saengra-server/src/matcher.cpp) make of operands that are found
-- without vertices and edges.
use saengra.Prelude.{
  ℕ, zero, suc, Bool, true, false, ◌&&◌, Option, List, [], ◌∷◌, ◌++◌, map, if◌then◌else◌, leb, ◌≡◌,
  refl, sym, ap, ap₂, ◌∙◌,
}
use saengra.Subgraph.{Subgraph}
use saengra.Matcher.{MatchMode, is_first, Found, nothing, found, also, silent, is_empty}
use saengra.Matcher.Groups.{clear_contents, without_contents}
use saengra.Matcher.Groups.Contents.{clear_item}
use saengra.Matcher.Groups.Maps.{map-append}
use saengra.Matcher.Operators.{
  Operands, indexed, no_operands, first_operand, if_complete, with_subgraphs, Round, emits, round,
  is_last, next_step, repeat,
}
use saengra.Matcher.Operators.Contents.{strip, strip-also, strip-or_enough, or_nothing-strip}

-- The operands of a conjunction, without vertices and edges.
pub clear_operands : Operands → Operands
clear_operands a = record a { items = map clear_item a.items }

is_empty-map {ℓ ℓ'} :
    {A : Type ℓ} {B : Type ℓ'} (f : A → B) (xs : List A) → is_empty (map f xs) ≡ is_empty xs
is_empty-map f [] = refl
is_empty-map f (x ∷ xs) = refl

indexed-clear :
    (i : ℕ) (sgs : List Subgraph)
    → map clear_item (indexed i sgs) ≡ indexed i (map clear_contents sgs)
unfolding indexed
indexed-clear i [] = refl
indexed-clear i (sg ∷ sgs) = ap (◌∷◌ (i, clear_contents sg)) (indexed-clear i sgs)

complete_with : Found → Operands → List (ℕ × Subgraph) → Operands
complete_with a rest items = record {
  items = items;
  deps = a.deps ++ rest.deps;
  returns = a.returns && rest.returns;
  complete = rest.complete;
}

first_operand_from :
    (sgs : List Subgraph) (i : ℕ) (a : Found) (rest : Operands)
    → a.subgraphs ≡ sgs
    → clear_operands (first_operand i (with_subgraphs (λ old. sgs) a) rest)
      ≡ first_operand i (with_subgraphs (λ old. map clear_contents sgs) a) (clear_operands rest)
unfolding clear_operands first_operand with_subgraphs complete_with
first_operand_from [] i a rest h = refl
first_operand_from (sg ∷ sgs) i a rest h = ap (complete_with a rest) (
    map-append clear_item (indexed i (sg ∷ sgs)) rest.items
    ∙ ap (λ xs. xs ++ map clear_item rest.items) (indexed-clear i (sg ∷ sgs)))

pub first_operand-strip :
    (i : ℕ) (a : Found) (rest : Operands)
    → clear_operands (first_operand i a rest) ≡ first_operand i (strip a) (clear_operands rest)
unfolding strip with_subgraphs without_contents
first_operand-strip i a rest = first_operand_from a.subgraphs i a rest refl

pub no_operands-strip : clear_operands no_operands ≡ no_operands
unfolding clear_operands no_operands
no_operands-strip = refl

complete_found : Bool → Operands → List Subgraph → Found
complete_found b a sgs = record {
  subgraphs = if b then sgs else [];
  deps = a.deps;
  returns = a.returns;
}

complete_found-strip :
    (b : Bool) (a : Operands) (sgs : List Subgraph)
    → strip (complete_found b a sgs) ≡ complete_found b a (without_contents sgs)
unfolding complete_found strip with_subgraphs without_contents
complete_found-strip true a sgs = refl
complete_found-strip false a sgs = refl

pub if_complete-strip :
    (f : List (ℕ × Subgraph) → List Subgraph) (a : Operands)
    → ((items : List (ℕ × Subgraph)) → f (map clear_item items) ≡ without_contents (f items))
    → strip (if_complete f a) ≡ if_complete f (clear_operands a)
unfolding if_complete clear_operands complete_found
if_complete-strip f a h =
    complete_found-strip a.complete a (f a.items)
    ∙ ap (complete_found a.complete a) (sym (h a.items))

-- A round of a repetition, without vertices and edges.
round_of : Found → List Subgraph → Round
round_of a sgs = record { emitted = a; continued = sgs }

clear_round : Round → Round
clear_round r = record { emitted = strip r.emitted; continued = without_contents r.continued }

emits-strip :
    (is_long : Bool) (chain : Subgraph) (a : Found)
    → strip (emits is_long chain a) ≡ emits is_long (clear_contents chain) (strip a)
unfolding emits strip with_subgraphs without_contents
emits-strip is_long chain a =
    strip-also (silent a) (if is_empty a.subgraphs && is_long then found chain else nothing)
    ∙ ap (also (silent a)) (emitted (is_empty a.subgraphs && is_long))
    ∙ ap (λ b. also (silent a) (if b && is_long then found (clear_contents chain) else nothing))
        (sym (is_empty-map clear_contents a.subgraphs))
  where
    emitted :
        (b : Bool)
        → strip (if b then found chain else nothing)
          ≡ (if b then found (clear_contents chain) else nothing)
    emitted true = refl
    emitted false = refl

module _ (m m' : MatchMode) (p : is_first m ≡ false) (p' : is_first m' ≡ false) where
  module _ (step step' : Subgraph → Found)
      (h : (chain : Subgraph) → strip (step chain) ≡ step' (clear_contents chain)) where
    next_step-strip :
        (max : Option ℕ) (repeats : ℕ) (chain : Subgraph)
        → strip (next_step max repeats step chain)
          ≡ next_step max repeats step' (clear_contents chain)
    unfolding next_step
    next_step-strip max repeats chain =
        or_nothing-strip (is_last max repeats) (step chain) (step' (clear_contents chain)) (h chain)

  round-strip :
      (step step' : Subgraph → Found)
      → ((chain : Subgraph) → strip (step chain) ≡ step' (clear_contents chain))
      → (is_long : Bool) (chains : List Subgraph)
      → clear_round (round m is_long step chains)
        ≡ round m' is_long step' (map clear_contents chains)
  unfolding round_of clear_round round strip without_contents with_subgraphs
  round-strip step step' h is_long [] = refl
  round-strip step step' h is_long (chain ∷ chains) =
      let rest = round m is_long step chains in
      let rest' = round m' is_long step' (map clear_contents chains) in
      let e = round-strip step step' h is_long chains in
      ap₂ round_of
        (strip-or_enough m m' p p' (emits is_long chain (step chain)) rest.emitted
          (emits is_long (clear_contents chain) (step' (clear_contents chain))) rest'.emitted
          (emits-strip is_long chain (step chain)
            ∙ ap (emits is_long (clear_contents chain)) (h chain))
          (ap (λ r. r.emitted) e))
        (map-append clear_contents (step chain).subgraphs rest.continued
          ∙ ap₂ ◌++◌ (ap (λ a. a.subgraphs) (h chain)) (ap (λ r. r.continued) e))

  pub repeat-strip :
      (step step' : Subgraph → Found)
      → ((chain : Subgraph) → strip (step chain) ≡ step' (clear_contents chain))
      → (min : ℕ) (max : Option ℕ) (rounds repeats : ℕ) (chains : List Subgraph)
      → strip (repeat m step min max rounds repeats chains)
        ≡ repeat m' step' min max rounds repeats (map clear_contents chains)
  unfolding repeat strip without_contents with_subgraphs clear_round
  repeat-strip step step' h min max rounds repeats [] = refl
  repeat-strip step step' h min max zero repeats (chain ∷ chains) = refl
  repeat-strip step step' h min max (suc rounds) repeats (chain ∷ chains) =
      let this = round m (leb min repeats) (next_step max repeats step) (chain ∷ chains) in
      let this' =
        round m' (leb min repeats) (next_step max repeats step')
          (map clear_contents (chain ∷ chains)) in
      let e =
        round-strip (next_step max repeats step) (next_step max repeats step')
          (next_step-strip step step' h max repeats) (leb min repeats) (chain ∷ chains) in
      strip-or_enough m m' p p' this.emitted
        (repeat m step min max rounds (suc repeats) this.continued) this'.emitted
        (repeat m' step' min max rounds (suc repeats) this'.continued) (ap (λ r. r.emitted) e)
        (repeat-strip step step' h min max rounds (suc repeats) this.continued
          ∙ ap (repeat m' step' min max rounds (suc repeats)) (ap (λ r. r.continued) e))
