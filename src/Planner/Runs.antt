-- ===== src/Planner/Runs.antt =====
-- The loop of `PlanVisitor::add_paths` of saengra-server/src/planner.cpp.
use saengra.Prelude.{
  ◌+◌, ◌≤◌, ◌≡◌, refl, sym, ap, ◌∙◌, true, false, ◌||◌, List, [], ◌∷◌, ◌++◌, length, arith,
  Bool-cases, inl, inr, subst, append_assoc, append-nil, length-append,
}
use saengra.Plan.{
  MatchVertex, MatchEdge, Plans, match_vertex, match_edge, match_path, match_path_to_vertex,
}
use saengra.Planner.{
  Item, vertex, edge, max_length, is_known, same_index, is_vertex, make_path, single, add_path,
  back_is, is_empty, must_cut, is_prefix, empty_path, add_path_to_vertex, next_path, next_plans,
  add_paths_behind, add_paths,
}
use saengra.Planner.Paths.{
  path_items, weave_from, steps, all_steps, Alternates, AreSupported, path_items-make_path,
  all_steps-push_back, push_back-AreSupported, make_path-IsWoven,
}

-- What holds of the path that is begun.
abbrev pub IsBegun : List Item → Type 0
IsBegun path = Alternates path × (length path ≤ max_length)

all_steps-add_path :
    (path : List Item) (ps : Plans)
    → Alternates path
    → all_steps (add_path path ps) ≡ all_steps ps ++ path
unfolding add_path steps single
all_steps-add_path [] ps h = sym (append-nil (all_steps ps))
all_steps-add_path (vertex v ∷ []) ps h = all_steps-push_back ps (match_vertex v)
all_steps-add_path (edge e ∷ []) ps h = all_steps-push_back ps (match_edge e)
all_steps-add_path (a ∷ b ∷ items) ps h =
    all_steps-push_back ps (match_path (make_path (a ∷ b ∷ items)))
    ∙ ap (λ x. all_steps ps ++ x) (path_items-make_path (a ∷ b ∷ items) h)

add_path-AreSupported :
    (path : List Item) (ps : Plans)
    → IsBegun path
    → AreSupported ps
    → AreSupported (add_path path ps)
unfolding add_path single
add_path-AreSupported [] ps h k = k
add_path-AreSupported (vertex v ∷ []) ps h k = push_back-AreSupported ps (match_vertex v) k tt
add_path-AreSupported (edge e ∷ []) ps h k = push_back-AreSupported ps (match_edge e) k tt
add_path-AreSupported (a ∷ b ∷ items) ps h k =
    let all = a ∷ b ∷ items in
    let same_length = ap length (path_items-make_path all h.0) in
    push_back-AreSupported ps (match_path (make_path all)) k
      ((make_path-IsWoven all h.0, omega (arith, same_length), omega (arith, same_length, h.1)))

snoc-Alternates :
    (path : List Item) (x : Item)
    → Alternates path
    → back_is (λ last. same_index last x) path ≡ false
    → Alternates (path ++ (x ∷ []))
unfolding back_is
snoc-Alternates [] x h n = tt
snoc-Alternates (a ∷ []) x h n = (n, tt)
snoc-Alternates (a ∷ b ∷ path) x h n = (h.0, snoc-Alternates (b ∷ path) x h.1 n)

cut_lem :
    (path : List Item) (x : Item)
    → must_cut path x ≡ false
    → length path ≤ max_length
    → (back_is (λ last. same_index last x) path ≡ false) × (length path + 1 ≤ max_length)
unfolding must_cut is_empty back_is
cut_lem [] x h k = (refl, omega arith)
cut_lem (a ∷ path) x h k = ground arith

next_path-IsBegun : (path : List Item) (x : Item) → IsBegun path → IsBegun (next_path path x)
unfolding next_path
next_path-IsBegun path x h = elim (Bool-cases (must_cut path x)) [
  | inl cut ↦ rw cut (tt, omega arith)
  | inr keep ↦
      let (differs, short) = cut_lem path x keep h.1 in
      rw keep
        (snoc-Alternates path x h.0 differs, omega (arith, length-append path (x ∷ []), short))
]

next-steps :
    (path : List Item) (x : Item) (ps : Plans)
    → IsBegun path
    → all_steps (next_plans path x ps) ++ next_path path x ≡ (all_steps ps ++ path) ++ (x ∷ [])
unfolding next_path next_plans
next-steps path x ps h = elim (Bool-cases (must_cut path x)) [
  | inl cut ↦ rw cut (ap (λ s. s ++ (x ∷ [])) (all_steps-add_path path ps h.0))
  | inr keep ↦ rw keep (sym (append_assoc (all_steps ps) path (x ∷ [])))
]

next_plans-AreSupported :
    (path : List Item) (x : Item) (ps : Plans)
    → IsBegun path
    → AreSupported ps
    → AreSupported (next_plans path x ps)
unfolding next_plans
next_plans-AreSupported path x ps h k = elim (Bool-cases (must_cut path x)) [
  | inl cut ↦ rw cut (add_path-AreSupported path ps h k)
  | inr keep ↦ rw keep k
]

add_path_to_vertex-steps :
    (path : List Item) (e : MatchEdge) (v : MatchVertex) (ps : Plans)
    → IsBegun path
    → all_steps (add_path_to_vertex path e v ps)
      ≡ (all_steps ps ++ path) ++ (edge e ∷ vertex v ∷ [])
unfolding add_path_to_vertex steps empty_path path_items weave_from
add_path_to_vertex-steps path e v ps h = elim (Bool-cases (is_prefix path)) [
  | inl fits ↦ rw fits (
      all_steps-push_back ps (match_path_to_vertex (make_path path) e v)
      ∙ ap (λ s. all_steps ps ++ (s ++ (edge e ∷ vertex v ∷ []))) (path_items-make_path path h.0)
      ∙ sym (append_assoc (all_steps ps) path (edge e ∷ vertex v ∷ [])))
  | inr not_fit ↦ rw not_fit (
      all_steps-push_back (add_path path ps) (match_path_to_vertex empty_path e v)
      ∙ ap (λ s. s ++ (edge e ∷ vertex v ∷ [])) (all_steps-add_path path ps h.0))
]

prefix_lem :
    (path : List Item)
    → is_prefix path ≡ true
    → (length path + 2 ≤ max_length) × (is_empty path || back_is is_vertex path ≡ true)
unfolding is_prefix is_empty back_is
prefix_lem path h = ground arith

add_path_to_vertex-AreSupported :
    (path : List Item) (e : MatchEdge) (v : MatchVertex) (ps : Plans)
    → IsBegun path
    → is_known v ≡ true
    → AreSupported ps
    → AreSupported (add_path_to_vertex path e v ps)
unfolding add_path_to_vertex empty_path path_items weave_from is_empty
add_path_to_vertex-AreSupported path e v ps h known k = elim (Bool-cases (is_prefix path)) [
  | inl fits ↦
      let (short, ends) = prefix_lem path fits in
      let same_items = path_items-make_path path h.0 in
      rw fits (
        push_back-AreSupported ps (match_path_to_vertex (make_path path) e v) k (
          make_path-IsWoven path h.0,
          known,
          subst (λ items. length items + 2 ≤ max_length) (sym same_items) short,
          subst (λ items. is_empty items || back_is is_vertex items ≡ true) (sym same_items) ends,
        ))
  | inr not_fit ↦ rw not_fit (
      push_back-AreSupported (add_path path ps) (match_path_to_vertex empty_path e v)
        (add_path-AreSupported path ps h k) (refl, known, omega arith, refl))
]

one_more :
    (path : List Item) (x : Item) (ps : Plans) (items : List Item)
    → IsBegun path
    → (all_steps (next_plans path x ps) ++ next_path path x) ++ items
      ≡ (all_steps ps ++ path) ++ (x ∷ items)
one_more path x ps items h =
    ap (λ s. s ++ items) (next-steps path x ps h)
    ∙ append_assoc (all_steps ps ++ path) (x ∷ []) items

behind-steps :
    (path : List Item) (ps : Plans) (items : List Item)
    → IsBegun path
    → all_steps (add_paths_behind path ps items) ≡ (all_steps ps ++ path) ++ items
unfolding add_paths_behind
behind-steps path ps [] h = all_steps-add_path path ps h.0 ∙ sym (append-nil (all_steps ps ++ path))
behind-steps path ps (vertex v ∷ items) h =
    behind-steps (next_path path (vertex v)) (next_plans path (vertex v) ps) items
      (next_path-IsBegun path (vertex v) h)
    ∙ one_more path (vertex v) ps items h
behind-steps path ps (edge e ∷ []) h =
    all_steps-add_path (next_path path (edge e)) (next_plans path (edge e) ps)
      (next_path-IsBegun path (edge e) h).0
    ∙ next-steps path (edge e) ps h
behind-steps path ps (edge e ∷ edge f ∷ items) h =
    behind-steps (next_path path (edge e)) (next_plans path (edge e) ps) (edge f ∷ items)
      (next_path-IsBegun path (edge e) h)
    ∙ one_more path (edge e) ps (edge f ∷ items) h
behind-steps path ps (edge e ∷ vertex v ∷ items) h =
    let known =
      behind-steps [] (add_path_to_vertex path e v ps) items (tt, omega arith)
      ∙ ap (λ s. s ++ items)
          (append-nil (all_steps (add_path_to_vertex path e v ps))
            ∙ add_path_to_vertex-steps path e v ps h)
      ∙ append_assoc (all_steps ps ++ path) (edge e ∷ vertex v ∷ []) items in
    let unknown =
      behind-steps (next_path path (edge e)) (next_plans path (edge e) ps) (vertex v ∷ items)
        (next_path-IsBegun path (edge e) h)
      ∙ one_more path (edge e) ps (vertex v ∷ items) h in
    elim (Bool-cases (is_known v)) [
      | inl yes_known ↦ rw (yes_known, add_paths_behind) known
      | inr not_known ↦ rw (not_known, add_paths_behind) unknown
    ]

behind-AreSupported :
    (path : List Item) (ps : Plans) (items : List Item)
    → IsBegun path
    → AreSupported ps
    → AreSupported (add_paths_behind path ps items)
unfolding add_paths_behind
behind-AreSupported path ps [] h k = add_path-AreSupported path ps h k
behind-AreSupported path ps (vertex v ∷ items) h k =
    behind-AreSupported (next_path path (vertex v)) (next_plans path (vertex v) ps) items
      (next_path-IsBegun path (vertex v) h) (next_plans-AreSupported path (vertex v) ps h k)
behind-AreSupported path ps (edge e ∷ []) h k =
    add_path-AreSupported (next_path path (edge e)) (next_plans path (edge e) ps)
      (next_path-IsBegun path (edge e) h) (next_plans-AreSupported path (edge e) ps h k)
behind-AreSupported path ps (edge e ∷ edge f ∷ items) h k =
    behind-AreSupported (next_path path (edge e)) (next_plans path (edge e) ps) (edge f ∷ items)
      (next_path-IsBegun path (edge e) h) (next_plans-AreSupported path (edge e) ps h k)
behind-AreSupported path ps (edge e ∷ vertex v ∷ items) h k =
    let known_case = λ (is : is_known v ≡ true).
      behind-AreSupported [] (add_path_to_vertex path e v ps) items (tt, omega arith)
        (add_path_to_vertex-AreSupported path e v ps h is k) in
    let unknown =
      behind-AreSupported (next_path path (edge e)) (next_plans path (edge e) ps) (vertex v ∷ items)
        (next_path-IsBegun path (edge e) h) (next_plans-AreSupported path (edge e) ps h k) in
    elim (Bool-cases (is_known v)) [
      | inl is ↦ rw (is, add_paths_behind) (known_case is)
      | inr is_not ↦ rw (is_not, add_paths_behind) unknown
    ]

-- The plans made so far, followed by the plans that are added for a run of vertices and edges, go
-- over the steps of the plans made so far and then over the vertices and edges of the run in its
-- order.
pub add_paths-steps :
    (items : List Item) (plans : Plans)
    → all_steps (add_paths items plans) ≡ all_steps plans ++ items
unfolding add_paths
add_paths-steps items plans =
    behind-steps [] plans items (tt, omega arith)
    ∙ ap (λ s. s ++ items) (append-nil (all_steps plans))

-- If the plans made so far have a form that the matcher supports, so have they with the plans added
-- for a run: the vertices and edges of each path stand by turns, a path has two to five of them, and
-- one in front of an edge to a known vertex has three at most and is empty or ends with a vertex.
pub add_paths-AreSupported :
    (items : List Item) (plans : Plans) → AreSupported plans → AreSupported (add_paths items plans)
unfolding add_paths
add_paths-AreSupported items plans h = behind-AreSupported [] plans items (tt, omega arith) h
