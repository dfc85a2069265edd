-- ===== src/Vertices/Agrees.antt =====
-- A set of identifiers of the vertices container and the set of vertices by their contents that it
-- stands for.
use saengra.Prelude.{
  subst, ◌≡◌, refl, sym, ap, ◌∙◌, Bool, true, false, not, Option, none, some, List, [], ◌∷◌, arith,
  ite, ℕ_discrete, length, get_elem?, lookup, lookup-insert, nat_eq, Option-cases, Bool-cases, inl,
  inr,
}
use saengra.UndoLog.Change.{Change}
use saengra.Edge.{VertexId}
use saengra.Vertex.{VertexData, StoredVertex, vertex_data_eq, VertexData-discrete}
use saengra.Vertices.{
  VerticesContainer, set_present, is_present, emplace, log_present, add_vertex, discard_vertex,
  undo_all,
}
use saengra.Vertices.Valid.{
  IsValid, emplaced-known, emplace-IsValid, is_stored-emplace, set_present_rest,
}
use saengra.Vertices.Refines.{is_stored, id_of, is_stored-set_present}

abbrev pub known_in : (VertexId → Bool) → Option VertexId → Bool
known_in f none = false
known_in f (some id) = f id

-- The identifiers stand for the vertices, and those that are not in use for none.
pub record AgreesOn (c : VerticesContainer) (f : VertexId → Bool) (F : VertexData → Bool)
    : Type 0 where
  pub same : (v : VertexData) → F v ≡ known_in f (lookup v c.vertex_id_by_vertex)
  pub unused : (id : VertexId) → is_stored c.stored id ≡ false → f id ≡ false

-- Flags, indices and log may differ, what is stored under which identifier may not.
abbrev SameKeys : VerticesContainer → VerticesContainer → Type 0
SameKeys d c =
    (d.vertex_id_by_vertex ≡ c.vertex_id_by_vertex)
    × ((id : VertexId) → is_stored d.stored id ≡ is_stored c.stored id)

set_present-SameKeys :
    (id : VertexId) (b : Bool) (c : VerticesContainer) → SameKeys (set_present id b c) c
unfolding set_present
set_present-SameKeys id b c = elim (Option-cases (get_elem? c.stored id)) [
  | inl e ↦ (ground arith, λ j. ground arith)
  | inr (s, e) ↦ ((set_present_rest id b c s e).0, is_stored-set_present id b c s e)
]

log_present-SameKeys :
    (id : VertexId) (b : Bool) (c : VerticesContainer) → SameKeys (log_present id b c) c
unfolding log_present
log_present-SameKeys id b c = set_present-SameKeys id b c

pub add_vertex-SameKeys :
    (v : VertexData) (c : VerticesContainer) → SameKeys (add_vertex v c) (emplace v c).1
unfolding add_vertex
add_vertex-SameKeys v c = elim (Bool-cases (is_present (emplace v c).1 (emplace v c).0)) [
  | inl is ↦ rw is (refl, λ j. refl)
  | inr is ↦ rw is (log_present-SameKeys (emplace v c).0 true (emplace v c).1)
]

pub discard_vertex-SameKeys :
    (v : VertexData) (c : VerticesContainer) → SameKeys (discard_vertex v c) c
unfolding discard_vertex
discard_vertex-SameKeys v c = elim (Option-cases (lookup v c.vertex_id_by_vertex)) [
  | inl e ↦ rw (discard_vertex, e) (refl, λ j. refl)
  | inr (id, e) ↦ elim (Bool-cases (is_present c id)) [
    | inl is ↦ rw (discard_vertex, e, is) (log_present-SameKeys id false c)
    | inr is ↦ rw (discard_vertex, e, is) (refl, λ j. refl)
  ]
]

pub undo_all-SameKeys :
    (log : List (Change VertexId)) (c : VerticesContainer) → SameKeys (undo_all log c) c
unfolding undo_all
undo_all-SameKeys [] c = (refl, λ j. refl)
undo_all-SameKeys (change ∷ rest) c =
    let once = set_present-SameKeys change.item (not change.added) (undo_all rest c) in
    let others = undo_all-SameKeys rest c in (once.0 ∙ others.0, λ j. once.1 j ∙ others.1 j)

pub AgreesOn-same :
    (c d : VerticesContainer) (f : VertexId → Bool) (F : VertexData → Bool)
    → SameKeys d c
    → AgreesOn c f F
    → AgreesOn d f F
AgreesOn-same c d f F (ids, stored) a = record {
  same = λ v. a.same v ∙ ap (λ m. known_in f (lookup v m)) (sym ids);
  unused = λ id h. a.unused id (sym (stored id) ∙ h);
}

no_such : (xs : List StoredVertex) → is_stored xs (length xs) ≡ false
no_such [] = refl
no_such (x ∷ xs) = no_such xs

emplaced :
    (v : VertexData) (c : VerticesContainer) (f : VertexId → Bool) (F : VertexData → Bool)
    → AgreesOn c f F
    → (w : VertexData) → F w ≡ known_in f (lookup w (emplace v c).1.vertex_id_by_vertex)
unfolding emplace
emplaced v c f F a w = elim (Option-cases (lookup v c.vertex_id_by_vertex)) [
  | inl e ↦ ground (
    arith,
    lookup-insert v w (length c.stored) c.vertex_id_by_vertex,
    a.same v,
    a.same w,
    a.unused (length c.stored) (no_such c.stored),
  )
  | inr (id, e) ↦ rw (e, emplace) (a.same w)
]

pub AgreesOn-emplace :
    (v : VertexData) (c : VerticesContainer) (f : VertexId → Bool) (F : VertexData → Bool)
    → IsValid c
    → AgreesOn c f F
    → AgreesOn (emplace v c).1 f F
AgreesOn-emplace v c f F h a = record {
  same = emplaced v c f F a;
  unused = λ id k. a.unused id (ground (arith, k, is_stored-emplace v c h id));
}

-- An identifier and the vertex that it stands for change together.
pub AgreesOn-with :
    (c : VerticesContainer) (f : VertexId → Bool) (F : VertexData → Bool) (v : VertexData)
    (id : VertexId) (b : Bool)
    → IsValid c
    → lookup v c.vertex_id_by_vertex ≡ some id
    → AgreesOn c f F
    → AgreesOn c (λ j. ite (ℕ_discrete id j) b (f j)) (λ w. ite (VertexData-discrete v w) b (F w))
AgreesOn-with c f F v id b h found a = record {
  same = λ w. elim (Option-cases (lookup w c.vertex_id_by_vertex)) [
    | inl e ↦ ground (arith, a.same w)
    | inr (j, e) ↦
        let (s, there, is) = h.known v id found in
        let (t, here, it) = h.known w j e in ground (arith, a.same w)
  ];
  unused = λ j k. let (s, there, is) = h.known v id found in ground (arith, a.unused j k, k, there);
}

-- A vertex without identifier is not in the set.
pub AgreesOn-unknown :
    (c : VerticesContainer) (f : VertexId → Bool) (F : VertexData → Bool) (v : VertexData)
    → lookup v c.vertex_id_by_vertex ≡ none
    → AgreesOn c f F
    → AgreesOn c f (λ w. ite (VertexData-discrete v w) false (F w))
AgreesOn-unknown c f F v e a = record { same = λ w. ground (arith, a.same w, e); unused = a.unused }

pub id_of-known :
    (v : VertexData) (c : VerticesContainer)
    → IsValid c
    → lookup v (emplace v c).1.vertex_id_by_vertex ≡ some (id_of v c)
id_of-known v c h =
    let (s, there, is_v) = emplaced-known v c h in
    subst (λ w. lookup w (emplace v c).1.vertex_id_by_vertex ≡ some (id_of v c)) is_v
      ((emplace-IsValid v c h).unique (id_of v c) s there)
