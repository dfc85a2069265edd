-- ===== src/Edges/Container/Refines.antt =====
-- What it means that the container of saengra-server/src/edges_container.cpp implements a
-- transactional set of edges, with `add_edge` and `remove_edge`.
use saengra.Prelude.{
  ◌≡◌, refl, sym, ◌∙◌, Bool, true, false, not, arith, ite, ℕ_discrete, if◌then◌else◌, nat_eq,
}
use saengra.UndoLog.Layers.{Layers, Tracks, Tracks-push, Tracks-current, Tracks-empty}
use saengra.Text.{Text}
use saengra.Edge.{VertexId, EdgeLabel, Edge, Edge-discrete, edge_eq, link_eq}
use saengra.Edges.Trunk.Laws as TrunkLaws
use saengra.Edges.Container.{
  EdgesContainer, empty, internalize_label, insert, erase, push_change, add_edge, remove_edge,
}
use saengra.Edges.Container.Sync.{
  contents, InSync, contents-insert, inserted-insert, insert-InSync, contents-erase, erased-erase,
  erase-InSync, insert_log, erase_log,
}

-- The container is well formed, and its log tracks the layers.
pub record Refines (c : EdgesContainer) (l : Layers Edge) : Type 0 where
  pub in_sync : InSync c.forward c.inverse
  pub tracks : Tracks c.log c.applied l
  pub now : (k : Edge) → l.current k ≡ contents c k

abbrev pub with_edge : Edge → Layers Edge → Layers Edge
with_edge e l = record l { current = λ k. ite (Edge-discrete e k) true (l.current k) }

abbrev pub without_edge : Edge → Layers Edge → Layers Edge
without_edge e l = record l { current = λ k. ite (Edge-discrete e k) false (l.current k) }

abbrev pub without_edges_via : VertexId → EdgeLabel → Layers Edge → Layers Edge
without_edges_via from label l = record l {
  current = λ k.
      ite (ℕ_discrete from k.from) (ite (ℕ_discrete label k.label) false (l.current k))
        (l.current k);
}

abbrev pub without_edges_from : VertexId → Layers Edge → Layers Edge
without_edges_from v l = record l { current = λ k. ite (ℕ_discrete v k.from) false (l.current k) }

abbrev pub without_vertex : VertexId → Layers Edge → Layers Edge
without_vertex v l = record l {
  current = λ k. ite (ℕ_discrete v k.from) false (ite (ℕ_discrete v k.to) false (l.current k));
}

pub empty-Refines :
    Refines empty (record { committed = λ k. false; applied = λ k. false; current = λ k. false })
unfolding empty
empty-Refines = record {
  in_sync = record {
    forward_ok = TrunkLaws.empty-IsTrunk false;
    inverse_ok = TrunkLaws.empty-IsTrunk true;
    forward_dir = TrunkLaws.empty_is_inverse false;
    inverse_dir = TrunkLaws.empty_is_inverse true;
    mirrored = λ f l t. TrunkLaws.has-empty true t l f ∙ sym (TrunkLaws.has-empty false f l t);
  };
  tracks = Tracks-empty _ (λ k. refl) (λ k. refl);
  now = λ k. sym (TrunkLaws.has-empty false k.from k.label k.to);
}

module _ (c : EdgesContainer) (l : Layers Edge) (r : Refines c l) (e : Edge) where
  -- A container whose trunks were changed, and the log of the change that was made, if any.
  logged_Refines :
      (d : EdgesContainer) (b added : Bool) (now : Edge → Bool)
      → (b ≡ true → contents c e ≡ not added)
      → (b ≡ false → contents c e ≡ added)
      → InSync d.forward d.inverse
      → (d.log ≡ c.log) × (d.applied ≡ c.applied)
      → ((k : Edge) → contents d k ≡ ite (Edge-discrete e k) added (contents c k))
      → ((k : Edge) → now k ≡ ite (Edge-discrete e k) added (l.current k))
      → Refines (if b then push_change e added d else d) (record l { current = now })
  unfolding push_change
  logged_Refines d true added now was _ ok same has is = record {
    in_sync = ok;
    tracks =
        rw (same.0, same.1)
          (Tracks-push c.log c.applied l (record { item = e; added = added }) now r.tracks
            (r.now e ∙ was refl) is);
    now = λ k. ground (arith, is k, has k, r.now k);
  }
  logged_Refines d false added now _ was ok same has is = record {
    in_sync = ok;
    tracks =
        rw (same.0, same.1)
          (Tracks-current c.log c.applied l now r.tracks
            (λ k. ground (arith, is k, r.now k, r.now e, was refl)));
    now = λ k. ground (arith, is k, has k, r.now k);
  }

  -- If an edges container refines some layers, then after an edge is added it refines the layers in
  -- which the edge is there now, and nothing else differs.
  pub add_edge-Refines : Refines (add_edge e c) (with_edge e l)
  unfolding add_edge
  add_edge-Refines =
      logged_Refines (insert e c).1 (insert e c).0 true _ (λ h. ground (arith, inserted-insert e c))
        (λ h. ground (arith, inserted-insert e c)) (insert-InSync e c r.in_sync) (insert_log e c)
        (contents-insert e c) (λ k. refl)

  -- If an edges container refines some layers, then after an edge is removed it refines the layers
  -- in which the edge is not there now, and nothing else differs.
  pub remove_edge-Refines : Refines (remove_edge e c) (without_edge e l)
  unfolding remove_edge
  remove_edge-Refines =
      logged_Refines (erase e c).1 (erase e c).0 false _ (λ h. ground (arith, erased-erase e c))
        (λ h. ground (arith, erased-erase e c)) (erase-InSync e c r.in_sync) (erase_log e c)
        (contents-erase e c) (λ k. refl)

-- The same layers, otherwise described.
pub Refines-current :
    (c : EdgesContainer) (l : Layers Edge) (now : Edge → Bool)
    → Refines c l
    → ((k : Edge) → l.current k ≡ now k)
    → Refines c (record l { current = now })
Refines-current c l now r h = record {
  in_sync = r.in_sync;
  tracks = Tracks-current c.log c.applied l now r.tracks h;
  now = λ k. sym (h k) ∙ r.now k;
}

-- Interning a label changes no edge.
pub internalize_label-Refines :
    (text : Text) (c : EdgesContainer) (l : Layers Edge)
    → Refines c l
    → Refines (internalize_label text c).1 l
unfolding internalize_label
internalize_label-Refines text c l r = record {
  in_sync = r.in_sync;
  tracks = r.tracks;
  now = r.now;
}
