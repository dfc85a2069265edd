-- ===== src/Planner/Paths.antt =====
-- The steps that a plan goes over, and the form of a path, for `PlanVisitor::make_path` of
-- saengra-server/src/planner.cpp.
use saengra.Prelude.{
  ◌+◌, ◌≤◌, ◌≡◌, refl, sym, ap, ◌∙◌, true, false, ◌||◌, List, [], ◌∷◌, ◌++◌, length, arith,
  append_assoc, append-nil,
}
use saengra.Plan.{
  PositionKind, MatchVertex, MatchEdge, MatchPath, Plan, Plans, push_back, nothing, first,
  match_vertex, match_edge, match_path, match_path_to_vertex,
}
use saengra.Planner.{
  Item, vertex, edge, max_length, is_known, same_index, is_vertex, vertices_of, edges_of, start_of,
  make_path, back_is, is_empty,
}

-- The vertices and edges that a path visits, by turns, beginning with a vertex.
unfoldable pub weave : List MatchVertex → List MatchEdge → List Item
weave [] es = []
weave (v ∷ vs) [] = vertex v ∷ []
weave (v ∷ vs) (e ∷ es) = vertex v ∷ edge e ∷ weave vs es

unfoldable pub weave_from : PositionKind → List MatchVertex → List MatchEdge → List Item
weave_from PositionKind.core vs es = weave vs es
weave_from PositionKind.orbit vs [] = []
weave_from PositionKind.orbit vs (e ∷ es) = edge e ∷ weave vs es

unfoldable pub path_items : MatchPath → List Item
path_items p = weave_from p.start p.vertices p.edges

unfoldable pub steps : Plan → List Item
steps (match_vertex v) = vertex v ∷ []
steps (match_edge e) = edge e ∷ []
steps (match_path p) = path_items p
steps (match_path_to_vertex p e v) = path_items p ++ (edge e ∷ vertex v ∷ [])
steps _ = []

unfoldable pub all_steps : Plans → List Item
all_steps nothing = []
all_steps (first p ps) = steps p ++ all_steps ps

abbrev pub Alternates : List Item → Type 0
Alternates [] = Unit
Alternates (a ∷ []) = Unit
Alternates (a ∷ b ∷ items) = (same_index a b ≡ false) × Alternates (b ∷ items)

-- A path has two to five items by turns; the one before an edge to a known vertex has three at most,
-- and ends with a vertex unless it is empty.
abbrev pub IsWoven : MatchPath → Type 0
IsWoven p = length (path_items p) ≡ length p.vertices + length p.edges

abbrev pub IsSupported : Plan → Type 0
IsSupported (match_path p) =
    IsWoven p × (2 ≤ length (path_items p)) × (length (path_items p) ≤ max_length)
IsSupported (match_path_to_vertex p e v) =
    IsWoven p
    × (is_known v ≡ true)
    × (length (path_items p) + 2 ≤ max_length)
    × (is_empty (path_items p) || back_is is_vertex (path_items p) ≡ true)
IsSupported _ = Unit

abbrev pub AreSupported : Plans → Type 0
AreSupported nothing = Unit
AreSupported (first p ps) = IsSupported p × AreSupported ps

mutual
  unfolding weave same_index vertices_of edges_of

  weave-vertex :
      (v : MatchVertex) (items : List Item)
      → Alternates (vertex v ∷ items)
      → weave (vertices_of (vertex v ∷ items)) (edges_of (vertex v ∷ items)) ≡ vertex v ∷ items
  weave-vertex v [] h = refl
  weave-vertex v (vertex w ∷ items) h = cc
  weave-vertex v (edge e ∷ items) h = ap (λ x. vertex v ∷ edge e ∷ x) (weave-edge e items h.1)

  weave-edge :
      (e : MatchEdge) (items : List Item)
      → Alternates (edge e ∷ items)
      → weave (vertices_of items) (edges_of items) ≡ items
  weave-edge e [] h = refl
  weave-edge e (edge f ∷ items) h = cc
  weave-edge e (vertex w ∷ items) h = weave-vertex w items h.1

pub path_items-make_path :
    (items : List Item) → Alternates items → path_items (make_path items) ≡ items
unfolding make_path start_of vertices_of edges_of weave_from path_items
path_items-make_path [] h = refl
path_items-make_path (vertex v ∷ items) h = weave-vertex v items h
path_items-make_path (edge e ∷ items) h = ap (◌∷◌ (edge e)) (weave-edge e items h)

pub all_steps-push_back :
    (ps : Plans) (p : Plan) → all_steps (push_back ps p) ≡ all_steps ps ++ steps p
unfolding all_steps push_back
all_steps-push_back nothing p = append-nil (steps p)
all_steps-push_back (first q ps) p =
    ap (λ x. steps q ++ x) (all_steps-push_back ps p)
    ∙ sym (append_assoc (steps q) (all_steps ps) (steps p))

pub push_back-AreSupported :
    (ps : Plans) (p : Plan) → AreSupported ps → IsSupported p → AreSupported (push_back ps p)
unfolding push_back
push_back-AreSupported nothing p h k = (k, tt)
push_back-AreSupported (first q ps) p h k = (h.0, push_back-AreSupported ps p h.1 k)

length-items :
    (items : List Item) → length (vertices_of items) + length (edges_of items) ≡ length items
unfolding vertices_of edges_of
length-items [] = refl
length-items (vertex v ∷ items) = omega (arith, length-items items)
length-items (edge e ∷ items) = omega (arith, length-items items)

pub make_path-IsWoven : (items : List Item) → Alternates items → IsWoven (make_path items)
unfolding make_path
make_path-IsWoven items h = ap length (path_items-make_path items h) ∙ sym (length-items items)
