-- ===== src/Matcher/Results/Finalized.antt =====
-- The subgraphs of query sets (`QuerySetDraft::finalize` of saengra-server/src/matcher.cpp).
use saengra.Prelude.{
  Bool, true, false, List, [], ◌∷◌, map, ◌≡◌, refl, ◌↔◌, arith, Bool-cases, inl, inr, ap₂, ap,
}
use saengra.Edge.{VertexId, edge_lt}
use saengra.Refs.{refs_lt}
use saengra.Refs.Order.{refs_eq_sound, refs_lt_irrefl, refs_lt_trans}
use saengra.Refs.Implies.{In}
use saengra.Plan.{PositionKind}
use saengra.Subgraph.{Position, Subgraph, QuerySetObservable}
use saengra.Matcher.{Found}
use saengra.Matcher.Sorting.{IsRising, sort_and_deduplicate-IsRising, In-sort_and_deduplicate}
use saengra.Matcher.Results.{
  lex, list_lt, list_eq, id_lt, id_eq, position_lt, position_eq, edge_eq, subgraph_lt, subgraph_eq,
  finalized, finalize,
}

-- Comparisons of which at most one direction holds.
abbrev IsAsym : {A : Type 0} → (A → A → Bool) → Type 0
IsAsym {A = A} lt = (a b : A) → lt a b ≡ true → lt b a ≡ false

-- Tests that hold for equal items only.
abbrev IsSound : {A : Type 0} → (A → A → Bool) → Type 0
IsSound {A = A} eq = (a b : A) → eq a b ≡ true → a ≡ b

lex_asym :
    (less greater rest rest' : Bool)
    → (less ≡ true → greater ≡ false)
    → (rest ≡ true → rest' ≡ false)
    → lex less greater rest ≡ true
    → lex greater less rest' ≡ false
lex_asym less greater rest rest' h k l = ground (arith, h, k)

module _ {A : Type 0} (lt eq : A → A → Bool) where
  list_lt-IsAsym : IsAsym lt → IsAsym (list_lt lt eq)
  unfolding list_lt
  list_lt-IsAsym h [] [] k = refl
  list_lt-IsAsym h [] (b ∷ bs) k = refl
  list_lt-IsAsym h (a ∷ as') [] k = ground arith
  list_lt-IsAsym h (a ∷ as') (b ∷ bs) k =
      lex_asym (lt a b) (lt b a) (list_lt lt eq as' bs) (list_lt lt eq bs as') (h a b)
        (list_lt-IsAsym h as' bs) k

  list_eq-IsSound : IsSound eq → IsSound (list_eq lt eq)
  unfolding list_eq
  list_eq-IsSound h [] [] k = refl
  list_eq-IsSound h [] (b ∷ bs) k = ground arith
  list_eq-IsSound h (a ∷ as') [] k = ground arith
  list_eq-IsSound h (a ∷ as') (b ∷ bs) k =
      ap₂ (λ (x : A) (xs : List A). x ∷ xs) (h a b (ground arith))
        (list_eq-IsSound h as' bs (ground arith))

id_lt-IsAsym : IsAsym id_lt
unfolding id_lt
id_lt-IsAsym a b h = ground arith

id_eq-IsSound : IsSound id_eq
unfolding id_eq
id_eq-IsSound a b h = ground arith

position_of : VertexId → PositionKind → Position
position_of id kind = record { vertex_id = id; kind = kind }

position_lt-IsAsym : IsAsym position_lt
unfolding position_lt
position_lt-IsAsym a b h = ground arith

position_eq-IsSound : IsSound position_eq
unfolding position_eq position_of
position_eq-IsSound a b h = kinds a.kind b.kind (ground arith) h
  where
    kinds :
        (k l : PositionKind)
        → a.vertex_id ≡ b.vertex_id
        → position_eq (position_of a.vertex_id k) (position_of b.vertex_id l) ≡ true
        → position_of a.vertex_id k ≡ position_of b.vertex_id l
    kinds PositionKind.core PositionKind.core e t = ap (λ id. position_of id PositionKind.core) e
    kinds PositionKind.core PositionKind.orbit e t = ground arith
    kinds PositionKind.orbit PositionKind.core e t = ground arith
    kinds PositionKind.orbit PositionKind.orbit e t = ap (λ id. position_of id PositionKind.orbit) e

edge_lt-IsAsym : IsAsym edge_lt
unfolding edge_lt
edge_lt-IsAsym a b h = ground arith

edge_eq-IsSound : IsSound edge_eq
unfolding edge_eq
edge_eq-IsSound a b h = ground arith

refs_lt-IsAsym : IsAsym refs_lt
refs_lt-IsAsym a b h = elim (Bool-cases (refs_lt b a)) [
  | inl back ↦ ground (arith, refs_lt_trans a b a h back, refs_lt_irrefl a)
  | inr no_back ↦ no_back
]

subgraph_lt-IsAsym : IsAsym subgraph_lt
unfolding subgraph_lt
subgraph_lt-IsAsym a b h =
    lex_asym _ _ _ _ (position_lt-IsAsym a.start_position b.start_position)
      (lex_asym _ _ _ _
        (list_lt-IsAsym position_lt position_eq position_lt-IsAsym a.end_positions b.end_positions)
        (lex_asym _ _ _ _ (list_lt-IsAsym id_lt id_eq id_lt-IsAsym a.vertices b.vertices) (
          lex_asym _ _ _ _ (list_lt-IsAsym edge_lt edge_eq edge_lt-IsAsym a.edges b.edges)
            (refs_lt-IsAsym a.refs b.refs))))
      h

subgraph_eq-IsSound : IsSound subgraph_eq
unfolding subgraph_eq
subgraph_eq-IsSound a b h =
    let start = position_eq-IsSound a.start_position b.start_position in
    let ends =
      list_eq-IsSound position_lt position_eq position_eq-IsSound a.end_positions b.end_positions in
    let vertices = list_eq-IsSound id_lt id_eq id_eq-IsSound a.vertices b.vertices in
    let edges = list_eq-IsSound edge_lt edge_eq edge_eq-IsSound a.edges b.edges in
    let refs = refs_eq_sound a.refs b.refs in ground (arith, start, ends, vertices, edges, refs)

-- A finalized query set has exactly the finalized subgraphs of the draft, in an order in which each
-- subgraph is neither less than the one before it nor equal to it.
pub finalize_lem :
    (a : Found) (start_deps : List QuerySetObservable)
    → IsRising subgraph_lt subgraph_eq (finalize a start_deps).subgraphs
      × ((sg : Subgraph)
          → In sg (finalize a start_deps).subgraphs ↔ In sg (map finalized a.subgraphs))
unfolding finalize
finalize_lem a start_deps = (
  sort_and_deduplicate-IsRising subgraph_lt subgraph_eq subgraph_lt-IsAsym subgraph_eq-IsSound
      (map finalized a.subgraphs),
  λ sg.
      In-sort_and_deduplicate subgraph_lt subgraph_eq subgraph_eq-IsSound sg
        (map finalized a.subgraphs),
)
