-- ===== src/Edges/Container/Bulk.antt =====
-- The bulk removals of `MutableEdgesContainer`.
use saengra.Prelude.{
  ◌≡◌, ◌∙◌, Bool, true, false, not, ◌&&◌, List, arith, ite, ℕ_discrete, contains, IsSetList, nat_eq,
}
use saengra.UndoLog.Change.{removals, Replays-removals}
use saengra.UndoLog.Layers.{Layers, Tracks-append}
use saengra.Edge.{VertexId, EdgeLabel, Edge, edge_eq, link_eq}
use saengra.Edges.Trunk
use saengra.Edges.Trunk.{Trunk, IsTrunk}
use saengra.Edges.Trunk.Laws as TrunkLaws
use saengra.Edges.Trunk.Items as TrunkItems
use saengra.Edges.Container.{
  EdgesContainer, remove_edges_from_via_label, remove_edges_of_vertex, remove_outgoing,
  remove_incoming,
}
use saengra.Edges.Container.Sync.{contents}
use saengra.Edges.Container.Unlink as Unlink
use saengra.Edges.Container.Refines.{
  Refines, Refines-current, without_edges_via, without_edges_from, without_vertex,
}

module _ (c : EdgesContainer) (l : Layers Edge) (r : Refines c l) where
  open r use {in_sync, tracks, now}

  -- Edges that left the forward trunk at once, and then the inverse trunk one by one.
  forward_first :
      (es : List Edge) (f : Trunk) (gone : Edge → Bool)
      → IsSetList es
      → IsTrunk f × (f.is_inverse ≡ false)
      → ((k : Edge) → contains es k ≡ (gone k && contents c k))
      → ((k : Edge) → Trunk.has f k.from k.label k.to ≡ (not (gone k) && contents c k))
      → Refines
          (Unlink.unlink_inverse es (record c { forward = f }))
          (record l { current = λ k. not (gone k) && l.current k })
  forward_first es f gone distinct f_ok listed left =
      let u = Unlink.unlink_inverse_lem es (record c { forward = f }) in
      record {
        in_sync = record {
          forward_ok = rw u.forward_same f_ok.0;
          inverse_ok = u.inverse_ok in_sync.inverse_ok;
          forward_dir = rw u.forward_same f_ok.1;
          inverse_dir = u.inverse_dir ∙ in_sync.inverse_dir;
          mirrored = λ a b d.
              let k : Edge = record { from = a; label = b; to = d } in
              rw u.forward_same
                (ground (arith, u.inverse_has k, left k, listed k, in_sync.mirrored a b d));
        };
        tracks =
            rw (u.log_grows, u.applied_same)
              (Tracks-append c.log (removals es) c.applied l _ tracks (
                Replays-removals l.current _ es distinct (λ k h. ground (arith, now k, listed k))
                  (λ k. ground (arith, now k, listed k))));
        now = λ k. rw u.forward_same (ground (arith, left k, now k));
      }

  inverse_first :
      (es : List Edge) (f : Trunk) (gone : Edge → Bool)
      → IsSetList es
      → IsTrunk f × (f.is_inverse ≡ true)
      → ((k : Edge) → contains es k ≡ (gone k && contents c k))
      → ((k : Edge) → Trunk.has f k.to k.label k.from ≡ (not (gone k) && contents c k))
      → Refines
          (Unlink.unlink_forward es (record c { inverse = f }))
          (record l { current = λ k. not (gone k) && l.current k })
  inverse_first es f gone distinct f_ok listed left =
      let u = Unlink.unlink_forward_lem es (record c { inverse = f }) in
      record {
        in_sync = record {
          inverse_ok = rw u.inverse_same f_ok.0;
          forward_ok = u.forward_ok in_sync.forward_ok;
          inverse_dir = rw u.inverse_same f_ok.1;
          forward_dir = u.forward_dir ∙ in_sync.forward_dir;
          mirrored = λ a b d.
              let k : Edge = record { from = a; label = b; to = d } in
              rw u.inverse_same (ground (arith, u.forward_has k, left k, listed k));
        };
        tracks =
            rw (u.log_grows, u.applied_same)
              (Tracks-append c.log (removals es) c.applied l _ tracks (
                Replays-removals l.current _ es distinct (λ k h. ground (arith, now k, listed k))
                  (λ k. ground (arith, now k, listed k))));
        now = λ k. ground (arith, u.forward_has k, listed k, now k);
      }

module _ (c : EdgesContainer) (l : Layers Edge) (r : Refines c l) where
  open r use {in_sync, tracks, now}

  -- If an edges container refines some layers, then after all edges from a vertex with one label are
  -- removed it refines the layers in which exactly those edges are gone from what is there now.
  pub remove_edges_from_via_label-Refines :
      (from : VertexId) (label : EdgeLabel)
      → Refines (remove_edges_from_via_label from label c) (without_edges_via from label l)
  unfolding remove_edges_from_via_label
  remove_edges_from_via_label-Refines from label =
      let removed = Trunk.remove_all_via_label from label c.forward in
      rw (Unlink.unlink_targets-eq from label removed.0 (record c { forward = removed.1 })) (
        Refines-current _ _ _
          (forward_first c l r (Unlink.edges_to from label removed.0) removed.1
            (λ k. ite (ℕ_discrete from k.from) (ite (ℕ_discrete label k.label) true false) false)
            (Unlink.edges_to-IsSetList from label removed.0
              (TrunkItems.remove_all_via_label-IsSetList c.forward from label in_sync.forward_ok))
            (
              TrunkLaws.remove_all_via_label-IsTrunk c.forward from label in_sync.forward_ok,
              TrunkLaws.remove_all_via_label_is_inverse c.forward from label ∙ in_sync.forward_dir,
            )
            (λ k. ground (
              arith,
              Unlink.contains-edges_to from label removed.0 k,
              TrunkItems.contains-remove_all_via_label c.forward from label k.to,
            ))
            (λ k.
              ground (
                arith,
                TrunkLaws.has-remove_all_via_label c.forward from label k.from k.label k.to,
              )))
          (λ k. ground arith))

  remove_outgoing-Refines : (v : VertexId) → Refines (remove_outgoing v c) (without_edges_from v l)
  unfolding remove_outgoing
  remove_outgoing-Refines v =
      let removed = Trunk.remove_all v c.forward in
      rw (Unlink.unlink_outgoing-eq v removed.0 (record c { forward = removed.1 })) (
        Refines-current _ _ _
          (forward_first c l r (Unlink.outgoing v removed.0) removed.1
            (λ k. ite (ℕ_discrete v k.from) true false)
            (Unlink.outgoing-IsSetList v removed.0
              (TrunkItems.remove_all-IsSetList c.forward v in_sync.forward_ok))
            (
              TrunkLaws.remove_all-IsTrunk c.forward v in_sync.forward_ok,
              TrunkLaws.remove_all_is_inverse c.forward v ∙ in_sync.forward_dir,
            )
            (λ k. ground (
              arith,
              Unlink.contains-outgoing v removed.0 k,
              TrunkItems.contains-remove_all c.forward v k.label k.to in_sync.forward_ok,
            ))
            (λ k. ground (arith, TrunkLaws.has-remove_all c.forward v k.from k.label k.to)))
          (λ k. ground arith))

  remove_incoming-Refines :
      (v : VertexId)
      → Refines
          (remove_incoming v c)
          (record l { current = λ k. ite (ℕ_discrete v k.to) false (l.current k) })
  unfolding remove_incoming
  remove_incoming-Refines v =
      let removed = Trunk.remove_all v c.inverse in
      rw (Unlink.unlink_incoming-eq v removed.0 (record c { inverse = removed.1 })) (
        Refines-current _ _ _
          (inverse_first c l r (Unlink.incoming v removed.0) removed.1
            (λ k. ite (ℕ_discrete v k.to) true false)
            (Unlink.incoming-IsSetList v removed.0
              (TrunkItems.remove_all-IsSetList c.inverse v in_sync.inverse_ok))
            (
              TrunkLaws.remove_all-IsTrunk c.inverse v in_sync.inverse_ok,
              TrunkLaws.remove_all_is_inverse c.inverse v ∙ in_sync.inverse_dir,
            )
            (λ k. ground (
              arith,
              Unlink.contains-incoming v removed.0 k,
              TrunkItems.contains-remove_all c.inverse v k.label k.from in_sync.inverse_ok,
              in_sync.mirrored k.from k.label k.to,
            ))
            (λ k. ground (
              arith,
              TrunkLaws.has-remove_all c.inverse v k.to k.label k.from,
              in_sync.mirrored k.from k.label k.to,
            )))
          (λ k. ground arith))

-- If an edges container refines some layers, then after all edges of a vertex are removed it refines
-- the layers in which, of what is there now, every edge that starts or ends at the vertex is gone.
pub remove_edges_of_vertex-Refines :
    (c : EdgesContainer) (l : Layers Edge)
    → Refines c l
    → (v : VertexId) → Refines (remove_edges_of_vertex v c) (without_vertex v l)
unfolding remove_edges_of_vertex
remove_edges_of_vertex-Refines c l r v =
    Refines-current _ _ _
      (remove_incoming-Refines (remove_outgoing v c) (without_edges_from v l)
        (remove_outgoing-Refines c l r v) v)
      (λ k. ground arith)
