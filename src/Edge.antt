-- ===== src/Edge.antt =====
-- Vertex identifiers, edge labels and edges (saengra-server/include/vertex.h,
-- saengra-server/include/edge.h). Pointers to stored vertices and to interned texts are numbers:
-- the program compares them only for equality and by address.
pub mod Intersection
use saengra.Prelude.{
  ℕ, List, [], ◌∷◌, Bool, ◌&&◌, ◌||◌, ltb, ◌==◌, Eq, ℕ_discrete, true, false, if◌then◌else◌,
}

abbrev pub VertexId : Type 0
VertexId = ℕ

abbrev pub EdgeLabel : Type 0
EdgeLabel = ℕ

pub record Edge : Type 0 where
  pub from : VertexId
  pub label : EdgeLabel
  pub to : VertexId

unfoldable pub Edge-discrete : Discrete Edge
Edge-discrete = hlevel ℕ_discrete

instance abbrev pub edge_eq : Eq Edge
edge_eq = record { dec = Edge-discrete }

-- A label and the vertex at the other end.
abbrev pub Link : Type 0
Link = EdgeLabel × VertexId

unfoldable pub Link-discrete : Discrete Link
Link-discrete = hlevel ℕ_discrete

instance abbrev pub link_eq : Eq Link
link_eq = record { dec = Link-discrete }

unfoldable pub reverse : Edge → Edge
reverse e = record { from = e.to; label = e.label; to = e.from }

-- `operator<` of edges.
unfoldable pub edge_lt : Edge → Edge → Bool
edge_lt a b =
    ltb a.from b.from
    || ((a.from == b.from && ltb a.label b.label)
        || (a.from == b.from && (a.label == b.label && ltb a.to b.to)))

unfoldable pub reverse_all : List Edge → List Edge
unfolding reverse
reverse_all [] = []
reverse_all (e ∷ es) = reverse e ∷ reverse_all es

unfoldable pub insert_edge : Edge → List Edge → List Edge
unfolding edge_lt
insert_edge e [] = e ∷ []
insert_edge e (x ∷ xs) = if edge_lt e x then e ∷ x ∷ xs else x ∷ insert_edge e xs

unfoldable pub sort_edges : List Edge → List Edge
unfolding insert_edge
sort_edges [] = []
sort_edges (e ∷ es) = insert_edge e (sort_edges es)

-- `std::set_intersection`.
unfoldable pub set_intersection : List Edge → List Edge → List Edge
unfolding edge_lt
set_intersection [] bs = []
set_intersection (a ∷ as') [] = []
set_intersection (a ∷ as') (b ∷ bs) = elim (edge_lt a b) [
  | true ↦ set_intersection as' (b ∷ bs)
  | false ↦ elim (edge_lt b a) [
    | true ↦ set_intersection (a ∷ as') bs
    | false ↦ a ∷ set_intersection as' bs
  ]
]

unfoldable pub sort_and_intersect : List Edge → List Edge → List Edge
unfolding sort_edges set_intersection
sort_and_intersect a b = set_intersection (sort_edges a) (sort_edges b)
