-- ===== src/Matcher/Steps/Known/Returns.antt =====
-- When matching an edge to a known vertex (saengra-server/src/matcher.cpp) returns.
use saengra.Prelude.{
  Bool, true, false, not, ◌&&◌, Option, none, some, List, [], ◌∷◌, ◌≡◌, refl, get_elem?, is_some,
  arith, if◌then◌else◌,
}
use saengra.Refs.{RefName, Refs}
use saengra.Refs.Cells.{positives}
use saengra.Plan.{MatchVertex, MatchEdge}
use saengra.Edge.{VertexId, Edge}
use saengra.Vertex.{VertexData}
use saengra.Subgraph.{Position, is_orbit}
use saengra.Matcher.{MatchMode, Query, Found, nothing}
use saengra.Matcher.Operators.Returns.{
  Returns, nothing-Returns, found-Returns, depends-Returns, also-Returns, collect-Returns,
  when_matched-Returns,
}
use saengra.Matcher.Steps.{edge_phases, EdgeMatch}
use saengra.Matcher.Steps.Returns.{run_phases-Returns}
use saengra.Matcher.Steps.Known.{
  Target, value_of, ref_target, placeholder_target, target_of, matched_edges, emit, emit_all,
  at_end, to_target, match_edge_to_vertex,
}

-- Whether the vertex has a reference, or a placeholder that has a value.
pub has_target : Query → MatchVertex → Bool
has_target q v = elim v.placeholder_idx [
  | none ↦ is_some v.match_ref
  | some i ↦
      is_some (get_elem? q.placeholder_value_ids i) && is_some (get_elem? q.placeholder_values i)
]

is_broken : Target → Bool
is_broken Target.broken = true
is_broken (Target.missing value) = false
is_broken (Target.known id) = false
is_broken Target.not_set = false

value_of-broken :
    (name : RefName) (bindings : List (RefName × VertexId))
    → is_broken (value_of name bindings) ≡ false
unfolding value_of is_broken
value_of-broken name [] = refl
value_of-broken name ((n, id) ∷ bindings) = ground (arith, value_of-broken name bindings)

ref_target-broken :
    (ref : Option RefName) (bindings : List (RefName × VertexId))
    → is_some ref ≡ true
    → is_broken (ref_target ref bindings) ≡ false
unfolding ref_target is_broken
ref_target-broken ref [] h = refl
ref_target-broken none (b ∷ bindings) h = ground arith
ref_target-broken (some name) (b ∷ bindings) h = value_of-broken name (b ∷ bindings)

placeholder_target-broken :
    (id : Option (Option VertexId)) (value : Option VertexData)
    → (is_some id && is_some value) ≡ true
    → is_broken (placeholder_target id value) ≡ false
unfolding placeholder_target is_broken
placeholder_target-broken (some (some id)) value h = refl
placeholder_target-broken (some none) (some value) h = refl
placeholder_target-broken (some none) none h = ground arith
placeholder_target-broken none value h = ground arith

target_of-broken :
    (q : Query) (v : MatchVertex) (refs : Refs)
    → has_target q v ≡ true
    → is_broken (target_of q v refs) ≡ false
unfolding target_of has_target
target_of-broken q v refs h = target_from v.placeholder_idx h
  where
    target_from :
        (i : Option _)
        → (elim i [
          | none ↦ is_some v.match_ref
          | some i ↦
              is_some (get_elem? q.placeholder_value_ids i)
              && is_some (get_elem? q.placeholder_values i)
        ])
          ≡ true
        → is_broken (elim i [
          | none ↦ ref_target v.match_ref (positives refs)
          | some i ↦
              placeholder_target
                (get_elem? q.placeholder_value_ids i)
                (get_elem? q.placeholder_values i)
        ])
          ≡ false
    target_from none k = ref_target-broken v.match_ref (positives refs) k
    target_from (some i) k = placeholder_target-broken _ _ k

or_nothing-Returns : (b : Bool) (a : Found) → Returns a → Returns (if b then nothing else a)
or_nothing-Returns true a h = nothing-Returns
or_nothing-Returns false a h = h

module _ (q : Query) (origin start : Position) (mode : MatchMode) where
  emit-Returns :
      (vertices : List VertexId) (edges : List Edge) (refs : Refs) (m : EdgeMatch)
      → Returns (emit q origin mode start vertices edges refs m)
  unfolding emit
  emit-Returns vertices edges refs m = found-Returns _

  at_end-Returns :
      (v : MatchVertex) (refs : Refs) (to : VertexId) (f : Refs → Found)
      → ((new_refs : Refs) → Returns (f new_refs))
      → Returns (at_end q origin v refs to f)
  unfolding at_end
  at_end-Returns v refs to f h = when_matched-Returns _ f h

  emit_all-Returns :
      (vertices : List VertexId) (edges : List Edge) (v : MatchVertex) (refs : Refs) (to : VertexId)
      (ms : List EdgeMatch)
      → Returns (emit_all q origin mode start vertices edges v refs to ms)
  unfolding emit_all
  emit_all-Returns vertices edges v refs to [] = nothing-Returns
  emit_all-Returns vertices edges v refs to (m ∷ ms) =
      at_end-Returns v refs to _
        (λ new_refs. collect-Returns mode _ (emit-Returns vertices edges new_refs) (m ∷ ms))

  to_target-Returns :
      (e : MatchEdge) (v : MatchVertex) (target : Target) (position : Position) (refs : Refs)
      (vertices : List VertexId) (edges : List Edge)
      → is_broken target ≡ false
      → Returns (to_target q origin mode e v start target position refs vertices edges)
  unfolding to_target is_broken
  to_target-Returns e v (Target.missing value) position refs vertices edges h = depends-Returns _
  to_target-Returns e v Target.broken position refs vertices edges h = ground arith
  to_target-Returns e v Target.not_set position refs vertices edges h =
      run_phases-Returns mode _
        (λ m. at_end-Returns v refs m.to _ (λ new_refs. emit-Returns vertices edges new_refs m))
        (edge_phases q origin e position)
  to_target-Returns e v (Target.known to) position refs vertices edges h =
      also-Returns _ _ (depends-Returns _) (
        emit_all-Returns vertices edges v refs to
          (matched_edges q origin e e.direction position.vertex_id to))

  pub match_edge_to_vertex-Returns :
      (e : MatchEdge) (v : MatchVertex) (position : Position) (refs : Refs)
      (vertices : List VertexId) (edges : List Edge)
      → has_target q v ≡ true
      → Returns (match_edge_to_vertex q origin mode e v start position refs vertices edges)
  unfolding match_edge_to_vertex
  match_edge_to_vertex-Returns e v position refs vertices edges h =
      or_nothing-Returns (not (is_orbit position.kind)) _ (
        to_target-Returns e v (target_of q v refs) position refs vertices edges
          (target_of-broken q v refs h))
