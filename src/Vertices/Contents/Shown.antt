-- ===== src/Vertices/Contents/Shown.antt =====
-- What the vertices container of saengra-server/src/vertices_container.cpp shows after any
-- operations: its iterators, and the changes that it reports.
use saengra.Prelude.{
  ◌≡◌, sym, ◌∙◌, subst, ◌↔◌, ap, true, not, some, List, arith, get_elem?, lookup, contains, nat_eq,
  Option-cases, inl, inr, ◌&&◌,
}
use saengra.UndoLog.Layers.{Layers}
use saengra.Edge.{VertexId}
use saengra.Vertex.{VertexTypeName, VertexData, data_of, vertex_data_eq}
use saengra.Vertices.{
  VerticesContainer, empty, get_vertex_id, iter_present_by_type_name, iter_just_added,
  iter_just_removed, iter_present,
}
use saengra.Vertices.Agrees.{known_in}
use saengra.Vertices.Transactions.{iter_just_added_lem, iter_just_removed_lem}
use saengra.Vertices.Contents.{Operation, run, set_run, no_vertices, Holds, empty-Holds, run-Holds}

-- What the container shows of a set of vertices: it lists those in the set, and no others of those
-- it knows, the index of each type has exactly those of the type that are in the set, and the
-- reported changes are those since the last `apply`.
pub record Shows (c : VerticesContainer) (l : Layers VertexData) : Type 0 where
  pub lists_all :
      (v : VertexData) → known_in (contains (iter_present c)) (get_vertex_id v c) ≡ l.current v
  pub lists :
      (v : VertexData)
      → known_in (contains (iter_present_by_type_name v.type_name c)) (get_vertex_id v c)
        ≡ l.current v
  pub lists_exactly :
      (t : VertexTypeName) (id : VertexId)
      → (contains (iter_present_by_type_name t c) id ≡ true) ↔ (
          (v : VertexData) × (get_vertex_id v c ≡ some id)
          × (v.type_name ≡ t)
          × (l.current v ≡ true))
  pub reports_added :
      (v : VertexData)
      → known_in (contains (iter_just_added c)) (get_vertex_id v c)
        ≡ (l.current v && not (l.applied v))
  pub reports_removed :
      (v : VertexData)
      → known_in (contains (iter_just_removed c)) (get_vertex_id v c)
        ≡ (not (l.current v) && l.applied v)

Holds-lists_all :
    (c : VerticesContainer) (l : Layers VertexData)
    → Holds c l
    → (v : VertexData) → known_in (contains (iter_present c)) (get_vertex_id v c) ≡ l.current v
unfolding iter_present get_vertex_id
Holds-lists_all c l h v = elim (Option-cases (lookup v c.vertex_id_by_vertex)) [
  | inl e ↦ rw e (ground (arith, h.current.same v))
  | inr (id, e) ↦
      rw e (ground (arith, h.current.same v, h.refines.now id, h.refines.valid.listed id, e))
]

Holds-lists :
    (c : VerticesContainer) (l : Layers VertexData)
    → Holds c l
    → (v : VertexData)
    → known_in (contains (iter_present_by_type_name v.type_name c)) (get_vertex_id v c)
      ≡ l.current v
unfolding iter_present_by_type_name get_vertex_id
Holds-lists c l h v = elim (Option-cases (lookup v c.vertex_id_by_vertex)) [
  | inl e ↦ rw e (ground (arith, h.current.same v))
  | inr (id, e) ↦
      let (s, there, is) = h.refines.valid.known v id e in
      ground (
        arith,
        h.current.same v,
        h.refines.now id,
        there,
        h.refines.valid.listed_by_type v.type_name id,
        ap (λ w. w.type_name) is,
      )
]

Holds-lists_no_others :
    (c : VerticesContainer) (l : Layers VertexData)
    → Holds c l
    → (t : VertexTypeName) (id : VertexId) → contains (iter_present_by_type_name t c) id ≡ true
    → (v : VertexData) × (get_vertex_id v c ≡ some id) × (v.type_name ≡ t) × (l.current v ≡ true)
unfolding iter_present_by_type_name get_vertex_id
Holds-lists_no_others c l h t id listed =
    let valid = h.refines.valid in
    elim (Option-cases (get_elem? c.stored id)) [
      | inl e ↦ ground (arith, valid.listed_by_type t id)
      | inr (s, e) ↦
          let found = valid.unique id s e in
          (
            data_of s,
            found,
            ground (arith, valid.listed_by_type t id),
            ground (
              arith,
              found,
              h.current.same (data_of s),
              h.refines.now id,
              valid.listed_by_type t id,
            ),
          )
    ]

Holds-listed :
    (c : VerticesContainer) (l : Layers VertexData)
    → Holds c l
    → (t : VertexTypeName) (id : VertexId) (v : VertexData) → get_vertex_id v c ≡ some id
    → v.type_name ≡ t
    → l.current v ≡ true
    → contains (iter_present_by_type_name t c) id ≡ true
Holds-listed c l h t id v found type_is is_in =
    subst (λ u. contains (iter_present_by_type_name u c) id ≡ true) type_is
      (ap (known_in (contains (iter_present_by_type_name v.type_name c))) (sym found)
        ∙ Holds-lists c l h v
        ∙ is_in)

module _ (c : VerticesContainer) (l : Layers VertexData) (h : Holds c l) (v : VertexData) where
  Holds-reports_added :
      known_in (contains (iter_just_added c)) (get_vertex_id v c)
      ≡ (l.current v && not (l.applied v))
  unfolding get_vertex_id
  Holds-reports_added = elim (Option-cases (lookup v c.vertex_id_by_vertex)) [
    | inl e ↦ rw e (ground (arith, h.current.same v))
    | inr (id, e) ↦ rw e (
        ground
          (arith, h.current.same v, h.applied.same v, iter_just_added_lem c h.layers h.refines id))
  ]

  Holds-reports_removed :
      known_in (contains (iter_just_removed c)) (get_vertex_id v c)
      ≡ (not (l.current v) && l.applied v)
  unfolding get_vertex_id
  Holds-reports_removed = elim (Option-cases (lookup v c.vertex_id_by_vertex)) [
    | inl e ↦ rw e (ground (arith, h.current.same v, h.applied.same v))
    | inr (id, e) ↦ rw e (
        ground (
          arith,
          h.current.same v,
          h.applied.same v,
          iter_just_removed_lem c h.layers h.refines id,
        ))
  ]

-- After any additions, removals, applications, commits and rollbacks on an empty vertices container,
-- it shows what the same operations make of a set of vertices in three layers. A vertex is listed,
-- among all present vertices and by its type, under its identifier if and only if it is in the set;
-- the index of a type has exactly the identifiers of the vertices of the type that are in the set;
-- and a vertex is reported as added or removed if and only if it is in the set now but was not at
-- the last `apply`, or the other way round.
pub run-Shows : (os : List Operation) → Shows (run os empty) (set_run os no_vertices)
run-Shows os =
    let c = run os empty in
    let l = set_run os no_vertices in
    let h = run-Holds os empty no_vertices empty-Holds in
    record {
      lists_all = Holds-lists_all c l h;
      lists = Holds-lists c l h;
      lists_exactly = λ t id. (
        Holds-lists_no_others c l h t id,
        λ (v, found, type_is, is_in). Holds-listed c l h t id v found type_is is_in,
      );
      reports_added = Holds-reports_added c l h;
      reports_removed = Holds-reports_removed c l h;
    }
