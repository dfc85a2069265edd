-- ===== src/Vertices.antt =====
-- `MutableVerticesContainer` (saengra-server/include/vertices_container.h and
-- saengra-server/src/vertices_container.cpp): the vertices of a graph, with an undo log. A
-- `VertexID` points to a stored vertex, which never moves: it is the place in `stored`, the vertices
-- in the order in which they were allocated. A log that grew large is freed on commit and rollback;
-- that shows in its capacity only.
pub mod Valid
pub mod Refines
pub mod Transactions
pub mod Agrees
pub mod Contents
mod Examples
use saengra.Prelude.{
  ℕ, Bool, true, false, not, Option, none, some, List, [], ◌∷◌, ◌++◌, length, drop, ltb, set,
  get_elem?, if◌then◌else◌, lookup, insert, contains, set_insert, set_erase, nat_eq,
}
use saengra.Text.{Text}
use saengra.Interner
use saengra.UndoLog.Change.{Change}
use saengra.UndoLog.Net.{net_changes}
use saengra.Edge.{VertexId}
use saengra.Vertex.{VertexTypeName, VertexData, StoredVertex, vertex_data_eq}

pub record VerticesContainer : Type 0 where
  pub stored : List StoredVertex
  pub vertex_id_by_vertex : List (VertexData × VertexId)
  pub type_names : List Text
  pub present : List VertexId
  pub vertices_by_type_name : List (VertexTypeName × List VertexId)
  pub log : List (Change VertexId)
  pub applied : ℕ

unfoldable pub empty : VerticesContainer
empty = record {
  stored = [];
  vertex_id_by_vertex = [];
  type_names = [];
  present = [];
  vertices_by_type_name = [];
  log = [];
  applied = 0;
}

unfoldable pub internalize_type_name : Text → VerticesContainer → VertexTypeName × VerticesContainer
internalize_type_name text c =
    let r = Interner.internalize text c.type_names in (r.0, record c { type_names = r.1 })

-- `operator[]` of a map of sets.
abbrev pub or_empty : Option (List VertexId) → List VertexId
or_empty none = []
or_empty (some ids) = ids

unfoldable pub insert_by_type :
    VertexTypeName
    → VertexId
    → List (VertexTypeName × List VertexId)
    → List (VertexTypeName × List VertexId)
insert_by_type type_name id m = insert type_name (set_insert id (or_empty (lookup type_name m))) m

pub erase_by_type :
    VertexTypeName
    → VertexId
    → List (VertexTypeName × List VertexId)
    → List (VertexTypeName × List VertexId)
erase_by_type type_name id m = elim (lookup type_name m) [
  | none ↦ m
  | some ids ↦ insert type_name (set_erase id ids) m
]

-- The flag of a stored vertex, and the two indices. No identifier dangles, so the case of a missing
-- vertex does not arise (`Valid`).
unfoldable pub set_present : VertexId → Bool → VerticesContainer → VerticesContainer
set_present id is_present c = elim (get_elem? c.stored id) [
  | none ↦ c
  | some s ↦
      if is_present
      then record c {
        stored = set c.stored id (record s { present = true });
        present = set_insert id c.present;
        vertices_by_type_name = insert_by_type s.type_name id c.vertices_by_type_name;
      }
      else record c {
        stored = set c.stored id (record s { present = false });
        present = set_erase id c.present;
        vertices_by_type_name = erase_by_type s.type_name id c.vertices_by_type_name;
      }
]

-- `vertex_id->present`.
abbrev pub flag : Option StoredVertex → Bool
flag none = false
flag (some s) = s.present

abbrev pub is_present : VerticesContainer → VertexId → Bool
is_present c id = flag (get_elem? c.stored id)

-- The identifier of a vertex, which is stored, absent, if it was not known.
unfoldable pub emplace : VertexData → VerticesContainer → VertexId × VerticesContainer
emplace v c = elim (lookup v c.vertex_id_by_vertex) [
  | none ↦ (
    length c.stored,
    record c {
      stored =
          c.stored ++ record { type_name = v.type_name; value = v.value; present = false } ∷ [];
      vertex_id_by_vertex = insert v (length c.stored) c.vertex_id_by_vertex;
    },
  )
  | some id ↦ (id, c)
]

-- `set_present`, and `log_.push_back`.
unfoldable pub log_present : VertexId → Bool → VerticesContainer → VerticesContainer
log_present id added c =
    let d = set_present id added c in
    record d { log = d.log ++ record { item = id; added = added } ∷ [] }

unfoldable pub add_vertex : VertexData → VerticesContainer → VerticesContainer
add_vertex v c = let r = emplace v c in if is_present r.1 r.0 then r.1 else log_present r.0 true r.1

unfoldable pub get_vertex_id : VertexData → VerticesContainer → Option VertexId
get_vertex_id v c = lookup v c.vertex_id_by_vertex

pub discard_vertex : VertexData → VerticesContainer → VerticesContainer
discard_vertex v c = elim (lookup v c.vertex_id_by_vertex) [
  | none ↦ c
  | some id ↦ if is_present c id then log_present id false c else c
]

pub apply : VerticesContainer → VerticesContainer
apply c = record c { applied = length c.log }

pub commit : VerticesContainer → VerticesContainer
commit c = record c { log = drop c.applied c.log; applied = 0 }

-- The log is undone from its end.
pub undo_all : List (Change VertexId) → VerticesContainer → VerticesContainer
undo_all [] c = c
undo_all (change ∷ rest) c = set_present change.item (not change.added) (undo_all rest c)

pub rollback : VerticesContainer → VerticesContainer
rollback c = record (undo_all c.log c) { log = []; applied = 0 }

pub has_unapplied_changes : VerticesContainer → Bool
has_unapplied_changes c = ltb c.applied (length c.log)

pub iter_just_changed : Bool → VerticesContainer → List VertexId
iter_just_changed added c = net_changes added (drop c.applied c.log)

pub iter_just_added : VerticesContainer → List VertexId
iter_just_added c = iter_just_changed true c

pub iter_just_removed : VerticesContainer → List VertexId
iter_just_removed c = iter_just_changed false c

pub iter_present : VerticesContainer → List VertexId
iter_present c = c.present

pub iter_present_by_type_name : VertexTypeName → VerticesContainer → List VertexId
iter_present_by_type_name type_name c = or_empty (lookup type_name c.vertices_by_type_name)
