-- ===== src/Edges/Container.antt =====
-- `MutableEdgesContainer` (saengra-server/include/edges_container.h and
-- saengra-server/src/edges_container.cpp): the edges of a graph in two trunks, with an undo log.
-- A log that grew large is freed on commit and rollback; that shows in its capacity only.
pub mod Sync
pub mod Unlink
pub mod Refines
pub mod Bulk
pub mod Transactions
pub mod Queries
use saengra.Prelude.{
  ℕ, ◌<◌, Bool, true, false, not, Option, none, some, List, [], ◌∷◌, ◌++◌, length, drop, ltb,
  if◌then◌else◌,
}
use saengra.Text.{Text}
use saengra.Interner
use saengra.UndoLog.Change.{Change}
use saengra.UndoLog.Net.{net_changes}
use saengra.Edge.{VertexId, EdgeLabel, Edge, Link, edge_eq}
use saengra.Edges.Branch
use saengra.Edges.Branch.{Branch}
use saengra.Edges.Trunk
use saengra.Edges.Trunk.{Trunk}

pub record EdgesContainer : Type 0 where
  pub labels : List Text
  pub forward : Trunk
  pub inverse : Trunk
  pub log : List (Change Edge)
  pub applied : ℕ

pub empty : EdgesContainer
empty = record {
  labels = [];
  forward = Trunk.empty false;
  inverse = Trunk.empty true;
  log = [];
  applied = 0;
}

pub internalize_label : Text → EdgesContainer → EdgeLabel × EdgesContainer
internalize_label text c =
    let r = Interner.internalize text c.labels in (r.0, record c { labels = r.1 })

pub insert : Edge → EdgesContainer → Bool × EdgesContainer
insert e c =
    let r = Trunk.add e.from e.label e.to c.forward in
    if r.0
    then (true, record c { forward = r.1; inverse = (Trunk.add e.to e.label e.from c.inverse).1 })
    else (false, record c { forward = r.1 })

pub erase : Edge → EdgesContainer → Bool × EdgesContainer
erase e c =
    let r = Trunk.remove e.from e.label e.to c.forward in
    if r.0
    then (
      true,
      record c { forward = r.1; inverse = (Trunk.remove e.to e.label e.from c.inverse).1 },
    )
    else (false, record c { forward = r.1 })

-- `log_.push_back`.
pub push_change : Edge → Bool → EdgesContainer → EdgesContainer
push_change e added c = record c { log = c.log ++ record { item = e; added = added } ∷ [] }

pub add_edge : Edge → EdgesContainer → EdgesContainer
unfolding push_change
add_edge e c = let r = insert e c in if r.0 then push_change e true r.1 else r.1

pub remove_edge : Edge → EdgesContainer → EdgesContainer
unfolding push_change
remove_edge e c = let r = erase e c in if r.0 then push_change e false r.1 else r.1

-- The loop over removed targets: each of them leaves the inverse trunk, and is logged.
pub unlink_targets : VertexId → EdgeLabel → List VertexId → EdgesContainer → EdgesContainer
unfolding push_change
unlink_targets from label [] c = c
unlink_targets from label (to ∷ rest) c = unlink_targets from label rest (
    push_change (record { from = from; label = label; to = to }) false
      (record c { inverse = (Trunk.remove to label from c.inverse).1 }))

pub remove_edges_from_via_label : VertexId → EdgeLabel → EdgesContainer → EdgesContainer
remove_edges_from_via_label from label c =
    let r = Trunk.remove_all_via_label from label c.forward in
    unlink_targets from label r.0 (record c { forward = r.1 })

-- The loops of `remove_edges_of_vertex`, over the outgoing and over the incoming edges.
pub unlink_outgoing : VertexId → List Link → EdgesContainer → EdgesContainer
unfolding push_change
unlink_outgoing v [] c = c
unlink_outgoing v ((label, to) ∷ rest) c = unlink_outgoing v rest (
    push_change (record { from = v; label = label; to = to }) false
      (record c { inverse = (Trunk.remove to label v c.inverse).1 }))

pub unlink_incoming : VertexId → List Link → EdgesContainer → EdgesContainer
unfolding push_change
unlink_incoming v [] c = c
unlink_incoming v ((label, from) ∷ rest) c = unlink_incoming v rest (
    push_change (record { from = from; label = label; to = v }) false
      (record c { forward = (Trunk.remove from label v c.forward).1 }))

pub remove_outgoing : VertexId → EdgesContainer → EdgesContainer
remove_outgoing v c =
    let r = Trunk.remove_all v c.forward in unlink_outgoing v r.0 (record c { forward = r.1 })

pub remove_incoming : VertexId → EdgesContainer → EdgesContainer
remove_incoming v c =
    let r = Trunk.remove_all v c.inverse in unlink_incoming v r.0 (record c { inverse = r.1 })

pub remove_edges_of_vertex : VertexId → EdgesContainer → EdgesContainer
remove_edges_of_vertex v c = remove_incoming v (remove_outgoing v c)

pub apply : EdgesContainer → EdgesContainer
apply c = record c { applied = length c.log }

pub commit : EdgesContainer → EdgesContainer
commit c = record c { log = drop c.applied c.log; applied = 0 }

pub undo : Change Edge → EdgesContainer → EdgesContainer
undo change c = if change.added then (erase change.item c).1 else (insert change.item c).1

-- The log is undone from its end.
pub undo_all : List (Change Edge) → EdgesContainer → EdgesContainer
undo_all [] c = c
undo_all (change ∷ rest) c = undo change (undo_all rest c)

pub rollback : EdgesContainer → EdgesContainer
rollback c = record (undo_all c.log c) { log = []; applied = 0 }

pub has_unapplied_changes : EdgesContainer → Bool
has_unapplied_changes c = ltb c.applied (length c.log)

pub iter_just_changed : Bool → EdgesContainer → List Edge
iter_just_changed added c = net_changes added (drop c.applied c.log)

pub iter_just_added : EdgesContainer → List Edge
iter_just_added c = iter_just_changed true c

pub iter_just_removed : EdgesContainer → List Edge
iter_just_removed c = iter_just_changed false c

pub iter_present : EdgesContainer → List Edge
iter_present c = Trunk.iter_present c.forward

pub iter_present_from_vertex : VertexId → EdgesContainer → List Edge
iter_present_from_vertex from c = Trunk.edges_of (Trunk.get_branch from c.forward)

pub iter_present_to_vertex : VertexId → EdgesContainer → List Edge
iter_present_to_vertex to c = Trunk.edges_of (Trunk.get_branch to c.inverse)

pub iter_present_from_vertex_via_labels : VertexId → List EdgeLabel → EdgesContainer → List Edge
iter_present_from_vertex_via_labels from labels c =
    Trunk.edges_via labels (Trunk.get_branch from c.forward)

pub iter_present_to_vertex_via_labels : VertexId → List EdgeLabel → EdgesContainer → List Edge
iter_present_to_vertex_via_labels to labels c =
    Trunk.edges_via labels (Trunk.get_branch to c.inverse)

pub iter_present_via_labels : List EdgeLabel → EdgesContainer → List Edge
iter_present_via_labels labels c = Trunk.iter_present_via_labels labels c.forward

pub iter_present_from_vertex_to_vertex :
    VertexId → VertexId → List EdgeLabel → EdgesContainer → List Edge
iter_present_from_vertex_to_vertex from to labels c =
    Trunk.edges_between to labels (Trunk.get_branch from c.forward)
