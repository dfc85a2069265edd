-- ===== src/Vertices/Valid.antt =====
-- The well-formedness of `MutableVerticesContainer`: stored vertices and the indices of present
-- ones.
use saengra.Prelude.{
  ℕ, zero, suc, is_some, ◌<◌, ◌≡◌, refl, sym, ◌∙◌, Bool, true, false, Option, none, some, List, [],
  ◌∷◌, ◌++◌, arith, ite, ℕ_discrete, length, set, get_elem?, lookup, insert, contains,
  lookup-insert, contains-insert, contains-erase, set_insert, set_erase, nat_eq, Option-cases, inl,
  inr,
}
use saengra.Edge.{VertexId}
use saengra.Vertex.{
  VertexTypeName, VertexData, StoredVertex, vertex_data_eq, VertexData-discrete, data_of,
}
use saengra.Vertices.{
  VerticesContainer, or_empty, insert_by_type, erase_by_type, set_present, flag, is_present,
  emplace,
}

-- The flag of a stored vertex of the type.
abbrev pub flag_of : VertexTypeName → Option StoredVertex → Bool
flag_of t none = false
flag_of t (some s) = ite (ℕ_discrete s.type_name t) s.present false

pub record IsValid (c : VerticesContainer) : Type 0 where
  -- An identifier leads to its vertex, and every stored vertex is found by its contents.
  pub known :
      (v : VertexData) (id : VertexId)
      → lookup v c.vertex_id_by_vertex ≡ some id
      → (s : StoredVertex) × (get_elem? c.stored id ≡ some s) × (data_of s ≡ v)
  pub unique :
      (id : VertexId) (s : StoredVertex)
      → get_elem? c.stored id ≡ some s
      → lookup (data_of s) c.vertex_id_by_vertex ≡ some id
  -- The sets of present vertices, of all types and of each type.
  pub listed : (id : VertexId) → contains c.present id ≡ flag (get_elem? c.stored id)
  pub listed_by_type :
      (t : VertexTypeName) (id : VertexId)
      → contains (or_empty (lookup t c.vertices_by_type_name)) id
        ≡ flag_of t (get_elem? c.stored id)

get_elem?-append :
    (xs : List StoredVertex) (x : StoredVertex) (i : ℕ)
    → get_elem? (xs ++ x ∷ []) i ≡ ite (ℕ_discrete (length xs) i) (some x) (get_elem? xs i)
get_elem?-append [] x zero = ground arith
get_elem?-append [] x (suc i) = ground arith
get_elem?-append (y ∷ xs) x zero = ground arith
get_elem?-append (y ∷ xs) x (suc i) = ground (arith, get_elem?-append xs x i)

get_elem?_bound :
    (xs : List StoredVertex) (i : ℕ) (s : StoredVertex) → get_elem? xs i ≡ some s → i < length xs
get_elem?_bound [] i s h = cc
get_elem?_bound (x ∷ xs) zero s h = omega arith
get_elem?_bound (x ∷ xs) (suc i) s h = omega (arith, get_elem?_bound xs i s h)

get_elem?-set :
    (xs : List StoredVertex) (i j : ℕ) (s x : StoredVertex)
    → get_elem? xs i ≡ some s
    → get_elem? (set xs i x) j ≡ ite (ℕ_discrete i j) (some x) (get_elem? xs j)
get_elem?-set [] i j s x h = cc
get_elem?-set (y ∷ xs) zero zero s x h = ground arith
get_elem?-set (y ∷ xs) zero (suc j) s x h = ground arith
get_elem?-set (y ∷ xs) (suc i) zero s x h = ground arith
get_elem?-set (y ∷ xs) (suc i) (suc j) s x h = ground (arith, get_elem?-set xs i j s x h)

by_type_insert :
    (t u : VertexTypeName) (id j : VertexId) (m : List (VertexTypeName × List VertexId))
    → contains (or_empty (lookup u (insert_by_type t id m))) j
      ≡ ite
          (ℕ_discrete t u)
          (ite (ℕ_discrete id j) true (contains (or_empty (lookup u m)) j))
          (contains (or_empty (lookup u m)) j)
unfolding insert_by_type
by_type_insert t u id j m = ground (
  arith,
  lookup-insert t u (set_insert id (or_empty (lookup t m))) m,
  contains-insert id j (or_empty (lookup t m)),
)

by_type_erase :
    (t u : VertexTypeName) (id j : VertexId) (m : List (VertexTypeName × List VertexId))
    → contains (or_empty (lookup u (erase_by_type t id m))) j
      ≡ ite
          (ℕ_discrete t u)
          (ite (ℕ_discrete id j) false (contains (or_empty (lookup u m)) j))
          (contains (or_empty (lookup u m)) j)
unfolding erase_by_type contains
by_type_erase t u id j m = elim (Option-cases (lookup t m)) [
  | inl e ↦ ground arith
  | inr (ids, e) ↦ ground (arith, lookup-insert t u (set_erase id ids) m, contains-erase id j ids)
]

module _ (id : VertexId) (b : Bool) (c : VerticesContainer) (s : StoredVertex)
    (there : get_elem? c.stored id ≡ some s) where
  -- What `set_present` does to the stored vertices, and what it leaves alone.
  pub stored-set_present :
      (j : VertexId)
      → get_elem? (set_present id b c).stored j
        ≡ ite (ℕ_discrete id j) (some (record s { present = b })) (get_elem? c.stored j)
  unfolding set_present
  stored-set_present j = ground (
    arith,
    there,
    get_elem?-set c.stored id j s (record s { present = true }) there,
    get_elem?-set c.stored id j s (record s { present = false }) there,
  )

  pub set_present_rest :
      ((set_present id b c).vertex_id_by_vertex ≡ c.vertex_id_by_vertex)
      × ((set_present id b c).log ≡ c.log)
      × ((set_present id b c).applied ≡ c.applied)
  unfolding set_present
  set_present_rest = (ground arith, ground arith, ground arith)

  present-set_present :
      (j : VertexId)
      → contains (set_present id b c).present j ≡ ite (ℕ_discrete id j) b (contains c.present j)
  unfolding set_present
  present-set_present j =
      ground (arith, there, contains-insert id j c.present, contains-erase id j c.present)

  by_type-set_present :
      (t : VertexTypeName) (j : VertexId)
      → contains (or_empty (lookup t (set_present id b c).vertices_by_type_name)) j
        ≡ ite
            (ℕ_discrete s.type_name t)
            (ite (ℕ_discrete id j) b (contains (or_empty (lookup t c.vertices_by_type_name)) j))
            (contains (or_empty (lookup t c.vertices_by_type_name)) j)
  unfolding set_present
  by_type-set_present t j = ground (
    arith,
    there,
    by_type_insert s.type_name t id j c.vertices_by_type_name,
    by_type_erase s.type_name t id j c.vertices_by_type_name,
  )

  known-set_present :
      IsValid c
      → (v : VertexData) (j : VertexId) → lookup v c.vertex_id_by_vertex ≡ some j
      → (x : StoredVertex) × (get_elem? (set_present id b c).stored j ≡ some x) × (data_of x ≡ v)
  known-set_present h v j found =
      let (old, at_j, is_v) = h.known v j found in
      elim (ℕ_discrete id j) [
        | yes e ↦ (
          record s { present = b },
          ground (arith, stored-set_present j),
          ground (arith, there, at_j, is_v, e),
        )
        | no n ↦ (old, ground (arith, stored-set_present j), is_v)
      ]

  pub set_present-IsValid : IsValid c → IsValid (set_present id b c)
  set_present-IsValid h = record {
    known = λ v j found. known-set_present h v j (rw set_present_rest.0 at found);
    unique = λ j x at_j.
        rw set_present_rest.0
          (ground (arith, stored-set_present j, there, h.unique id s, h.unique j x));
    listed = λ j. ground (arith, present-set_present j, stored-set_present j, h.listed j);
    listed_by_type = λ t j.
        ground (arith, by_type-set_present t j, stored-set_present j, h.listed_by_type t j, there);
  }

abbrev pub absent : VertexData → StoredVertex
absent v = record { type_name = v.type_name; value = v.value; present = false }

-- A vertex that is not known yet is stored behind the others.
module _ (v : VertexData) (c : VerticesContainer) (h : IsValid c)
    (new : lookup v c.vertex_id_by_vertex ≡ none) where
  flag-append :
      (P : Option StoredVertex → Bool)
      → P none ≡ P (some (absent v))
      → (j : VertexId) → P (get_elem? (c.stored ++ absent v ∷ []) j) ≡ P (get_elem? c.stored j)
  flag-append P e j = elim (Option-cases (get_elem? c.stored j)) [
    | inl out ↦ ground (arith, get_elem?-append c.stored (absent v) j)
    | inr (s, at_j) ↦
        ground
          (arith, get_elem?-append c.stored (absent v) j, get_elem?_bound c.stored j s at_j, at_j)
  ]

  known-append :
      (w : VertexData) (j : VertexId)
      → lookup w (insert v (length c.stored) c.vertex_id_by_vertex) ≡ some j
      → (s : StoredVertex) × (get_elem? (c.stored ++ absent v ∷ []) j ≡ some s) × (data_of s ≡ w)
  known-append w j found = elim (VertexData-discrete v w) [
    | yes e ↦ (
      absent v,
      ground (
        arith,
        found,
        get_elem?-append c.stored (absent v) j,
        lookup-insert v w (length c.stored) c.vertex_id_by_vertex,
      ),
      e,
    )
    | no n ↦
        let old : lookup w c.vertex_id_by_vertex ≡ some j =
          ground (arith, found, lookup-insert v w (length c.stored) c.vertex_id_by_vertex) in
        let (s, at_j, is_w) = h.known w j old in
        (
          s,
          ground (
            arith,
            get_elem?-append c.stored (absent v) j,
            get_elem?_bound c.stored j s at_j,
            at_j,
          ),
          is_w,
        )
  ]

  unique-append :
      (j : VertexId) (s : StoredVertex)
      → get_elem? (c.stored ++ absent v ∷ []) j ≡ some s
      → lookup (data_of s) (insert v (length c.stored) c.vertex_id_by_vertex) ≡ some j
  unique-append j s at_j = ground (
    arith,
    at_j,
    new,
    get_elem?-append c.stored (absent v) j,
    h.unique j s,
    lookup-insert v (data_of s) (length c.stored) c.vertex_id_by_vertex,
  )

module _ (v : VertexData) (c : VerticesContainer) (h : IsValid c) where
  -- The identifier that `emplace` returns leads to the vertex, and no flag changes.
  pub emplaced-known :
      (s : StoredVertex) × (get_elem? (emplace v c).1.stored (emplace v c).0 ≡ some s)
      × (data_of s ≡ v)
  unfolding emplace
  emplaced-known = elim (Option-cases (lookup v c.vertex_id_by_vertex)) [
    | inl e ↦
        (absent v, ground (arith, get_elem?-append c.stored (absent v) (length c.stored)), refl)
    | inr (id, e) ↦ let (s, at_id, is_v) = h.known v id e in (s, ground arith, is_v)
  ]

  pub is_present-emplace : (j : VertexId) → is_present (emplace v c).1 j ≡ is_present c j
  unfolding emplace
  is_present-emplace j = elim (Option-cases (lookup v c.vertex_id_by_vertex)) [
    | inl e ↦ rw (e, emplace) (flag-append v c h e flag refl j)
    | inr (id, e) ↦ rw (e, emplace)
  ]

  pub is_stored-emplace :
      (j : VertexId)
      → is_some (get_elem? c.stored j) ≡ true
      → is_some (get_elem? (emplace v c).1.stored j) ≡ true
  unfolding emplace
  is_stored-emplace j is = elim (Option-cases (lookup v c.vertex_id_by_vertex)) [
    | inl e ↦ ground (arith, get_elem?-append c.stored (absent v) j)
    | inr (id, e) ↦ ground arith
  ]

  pub emplace_rest : ((emplace v c).1.log ≡ c.log) × ((emplace v c).1.applied ≡ c.applied)
  unfolding emplace
  emplace_rest = (ground arith, ground arith)

  pub emplace-IsValid : IsValid (emplace v c).1
  unfolding emplace
  emplace-IsValid = elim (Option-cases (lookup v c.vertex_id_by_vertex)) [
    | inl e ↦
        rw (e, emplace)
          (record {
            known = known-append v c h e;
            unique = unique-append v c h e;
            listed = λ j. h.listed j ∙ sym (flag-append v c h e flag refl j);
            listed_by_type = λ t j.
                h.listed_by_type t j ∙ sym (flag-append v c h e (flag_of t) (ground arith) j);
          })
    | inr (id, e) ↦ rw (e, emplace) h
  ]
