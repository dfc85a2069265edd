-- ===== src/Vertices/Refines.antt =====
-- What it means that the container of saengra-server/src/vertices_container.cpp implements a
-- transactional set of vertices, with `add_vertex` and `discard_vertex`.
use saengra.Prelude.{
  ℕ, zero, suc, is_some, ◌≡◌, refl, sym, ◌∙◌, Bool, true, false, not, some, List, [], ◌∷◌, ◌++◌,
  arith, ite, ℕ_discrete, lookup, contains, nat_eq, Bool-cases, inl, inr, drop, get_elem?,
}
use saengra.UndoLog.Change.{Change}
use saengra.UndoLog.Layers.{Layers, Tracks, Tracks-push, Tracks-current, Tracks-empty}
use saengra.Text.{Text}
use saengra.Edge.{VertexId}
use saengra.Vertex.{VertexData, StoredVertex, vertex_data_eq}
use saengra.Vertices.{
  VerticesContainer, empty, internalize_type_name, set_present, is_present, emplace, log_present,
  add_vertex, discard_vertex, get_vertex_id,
}
use saengra.Vertices.Valid.{
  IsValid, stored-set_present, set_present_rest, set_present-IsValid, emplaced-known,
  is_present-emplace, emplace_rest, emplace-IsValid, is_stored-emplace,
}

-- Every vertex that the log names is stored.
abbrev pub is_stored : List StoredVertex → VertexId → Bool
is_stored stored id = is_some (get_elem? stored id)

abbrev pub Logged : List StoredVertex → List (Change VertexId) → Type 0
Logged stored [] = Unit
Logged stored (c ∷ cs) = (is_stored stored c.item ≡ true) × Logged stored cs

Logged-mono :
    (xs ys : List StoredVertex) (log : List (Change VertexId))
    → ((id : VertexId) → is_stored xs id ≡ true → is_stored ys id ≡ true)
    → Logged xs log
    → Logged ys log
Logged-mono xs ys [] grows h = tt
Logged-mono xs ys (c ∷ log) grows h = (grows c.item h.0, Logged-mono xs ys log grows h.1)

Logged-push :
    (stored : List StoredVertex) (log : List (Change VertexId)) (c : Change VertexId)
    → Logged stored log
    → is_stored stored c.item ≡ true
    → Logged stored (log ++ c ∷ [])
Logged-push stored [] c h is = (is, tt)
Logged-push stored (x ∷ log) c h is = (h.0, Logged-push stored log c h.1 is)

pub Logged-drop :
    (stored : List StoredVertex) (n : ℕ) (log : List (Change VertexId))
    → Logged stored log
    → Logged stored (drop n log)
Logged-drop stored zero log h = h
Logged-drop stored (suc n) [] h = tt
Logged-drop stored (suc n) (x ∷ log) h = Logged-drop stored n log h.1

pub record Refines (c : VerticesContainer) (l : Layers VertexId) : Type 0 where
  pub valid : IsValid c
  pub tracks : Tracks c.log c.applied l
  pub logged : Logged c.stored c.log
  pub now : (id : VertexId) → l.current id ≡ is_present c id

abbrev pub with_item : VertexId → Bool → Layers VertexId → Layers VertexId
with_item id b l = record l { current = λ j. ite (ℕ_discrete id j) b (l.current j) }

pub is_present-set_present :
    (id : VertexId) (b : Bool) (c : VerticesContainer) (s : StoredVertex)
    → get_elem? c.stored id ≡ some s
    → (j : VertexId) → is_present (set_present id b c) j ≡ ite (ℕ_discrete id j) b (is_present c j)
is_present-set_present id b c s there j = ground (arith, stored-set_present id b c s there j)

pub is_stored-set_present :
    (id : VertexId) (b : Bool) (c : VerticesContainer) (s : StoredVertex)
    → get_elem? c.stored id ≡ some s
    → (j : VertexId) → is_stored (set_present id b c).stored j ≡ is_stored c.stored j
is_stored-set_present id b c s there j = ground (arith, stored-set_present id b c s there j, there)

-- Well-formedness does not depend on the log.
pub with_log-IsValid :
    (c : VerticesContainer) (log : List (Change VertexId)) (n : ℕ)
    → IsValid c
    → IsValid (record c { log = log; applied = n })
with_log-IsValid c log n h = record {
  known = h.known;
  unique = h.unique;
  listed = h.listed;
  listed_by_type = h.listed_by_type;
}

-- A flag that changes is logged.
log_present-Refines :
    (c : VerticesContainer) (l : Layers VertexId) (id : VertexId) (b : Bool) (s : StoredVertex)
    → Refines c l
    → get_elem? c.stored id ≡ some s
    → is_present c id ≡ not b
    → Refines (log_present id b c) (with_item id b l)
unfolding log_present
log_present-Refines c l id b s r there was =
    let (_, log, applied) = set_present_rest id b c s there in
    record {
      valid =
          with_log-IsValid (set_present id b c) _ _ (set_present-IsValid id b c s there r.valid);
      tracks =
          rw (log, applied)
            (Tracks-push c.log c.applied l (record { item = id; added = b }) _ r.tracks
              (r.now id ∙ was) (λ k. refl));
      logged = rw log (
          Logged-push (set_present id b c).stored c.log (record { item = id; added = b })
            (Logged-mono c.stored (set_present id b c).stored c.log
              (λ j is. is_stored-set_present id b c s there j ∙ is) r.logged)
            (is_stored-set_present id b c s there id ∙ ground (arith, there)));
      now = λ j. ground (arith, is_present-set_present id b c s there j, r.now j);
    }

emplace-Refines :
    (v : VertexData) (c : VerticesContainer) (l : Layers VertexId)
    → Refines c l
    → Refines (emplace v c).1 l
emplace-Refines v c l r = record {
  valid = emplace-IsValid v c r.valid;
  tracks = rw ((emplace_rest v c r.valid).0, (emplace_rest v c r.valid).1) r.tracks;
  logged =
      rw ((emplace_rest v c r.valid).0) (
        Logged-mono c.stored (emplace v c).1.stored c.log (is_stored-emplace v c r.valid) r.logged);
  now = λ j. r.now j ∙ sym (is_present-emplace v c r.valid j);
}

-- An item that is already as wanted.
unchanged_Refines :
    (c : VerticesContainer) (l : Layers VertexId) (id : VertexId) (b : Bool)
    → Refines c l
    → is_present c id ≡ b
    → Refines c (with_item id b l)
unchanged_Refines c l id b r is = record {
  valid = r.valid;
  tracks = Tracks-current c.log c.applied l _ r.tracks (λ k. ground (arith, r.now k, is, r.now id));
  logged = r.logged;
  now = λ k. ground (arith, r.now k, is);
}

-- The identifier that a vertex has once it was added.
abbrev pub id_of : VertexData → VerticesContainer → VertexId
id_of v c = (emplace v c).0

module _ (c : VerticesContainer) (l : Layers VertexId) (r : Refines c l) where
  -- If a vertices container refines some layers, then after a vertex is added it refines the layers
  -- in which the identifier of the vertex is there now, and nothing else differs.
  pub add_vertex-Refines :
      (v : VertexData) → Refines (add_vertex v c) (with_item (id_of v c) true l)
  unfolding add_vertex
  add_vertex-Refines v =
      let d = (emplace v c).1 in
      let id = (emplace v c).0 in
      let (s, there, _) = emplaced-known v c r.valid in
      let kept = emplace-Refines v c l r in
      elim (Bool-cases (is_present d id)) [
        | inl is ↦ rw is (unchanged_Refines d l id true kept is)
        | inr is ↦ rw is (log_present-Refines d l id true s kept there is)
      ]

  -- If a vertices container refines some layers and knows a vertex under an identifier, then after
  -- the vertex is discarded it refines the layers in which the identifier is not there now, and
  -- nothing else differs.
  pub discard_vertex-Refines :
      (v : VertexData) (id : VertexId)
      → get_vertex_id v c ≡ some id
      → Refines (discard_vertex v c) (with_item id false l)
  unfolding discard_vertex get_vertex_id
  discard_vertex-Refines v id found =
      let (s, there, _) = r.valid.known v id found in
      elim (Bool-cases (is_present c id)) [
        | inl is ↦ rw (found, discard_vertex, is) (log_present-Refines c l id false s r there is)
        | inr is ↦ rw (found, discard_vertex, is) (unchanged_Refines c l id false r is)
      ]

pub empty-Refines :
    Refines empty (record { committed = λ k. false; applied = λ k. false; current = λ k. false })
unfolding empty lookup contains
empty-Refines = record {
  valid = record {
    known = λ v id e. cc;
    unique = λ id s e. cc;
    listed = λ id. refl;
    listed_by_type = λ t id. refl;
  };
  tracks = Tracks-empty _ (λ k. refl) (λ k. refl);
  logged = tt;
  now = λ k. refl;
}

-- Interning a name changes no vertex.
pub internalize_type_name-Refines :
    (text : Text) (c : VerticesContainer) (l : Layers VertexId)
    → Refines c l
    → Refines (internalize_type_name text c).1 l
unfolding internalize_type_name
internalize_type_name-Refines text c l r = record {
  valid = record {
    known = r.valid.known;
    unique = r.valid.unique;
    listed = r.valid.listed;
    listed_by_type = r.valid.listed_by_type;
  };
  tracks = r.tracks;
  logged = r.logged;
  now = r.now;
}
