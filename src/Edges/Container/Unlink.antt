-- ===== src/Edges/Container/Unlink.antt =====
-- The loops that take removed edges out of the other trunk and log them.
use saengra.Prelude.{
  ◌≡◌, refl, sym, ◌∙◌, false, not, ◌&&◌, List, [], ◌∷◌, ◌++◌, arith, ite, ℕ_discrete, contains,
  IsSetList, append_assoc, append-nil, nat_eq,
}
use saengra.UndoLog.Change.{removals}
use saengra.Edge.{VertexId, EdgeLabel, Edge, edge_eq, Link, link_eq}
use saengra.Edges.Trunk
use saengra.Edges.Trunk.{Trunk, IsTrunk}
use saengra.Edges.Trunk.Laws as TrunkLaws
use saengra.Edges.Container.{
  EdgesContainer, push_change, unlink_targets, unlink_outgoing, unlink_incoming,
}

-- The same loops over edges.
pub unlink_inverse : List Edge → EdgesContainer → EdgesContainer
unlink_inverse [] c = c
unlink_inverse (e ∷ es) c =
    unlink_inverse es
      (push_change e false (record c { inverse = (Trunk.remove e.to e.label e.from c.inverse).1 }))

pub unlink_forward : List Edge → EdgesContainer → EdgesContainer
unlink_forward [] c = c
unlink_forward (e ∷ es) c =
    unlink_forward es
      (push_change e false (record c { forward = (Trunk.remove e.from e.label e.to c.forward).1 }))

abbrev pub edges_to : VertexId → EdgeLabel → List VertexId → List Edge
edges_to from label [] = []
edges_to from label (to ∷ rest) =
    record { from = from; label = label; to = to } ∷ edges_to from label rest

abbrev pub outgoing : VertexId → List Link → List Edge
outgoing v [] = []
outgoing v ((label, to) ∷ rest) = record { from = v; label = label; to = to } ∷ outgoing v rest

abbrev pub incoming : VertexId → List Link → List Edge
incoming v [] = []
incoming v ((label, from) ∷ rest) = record { from = from; label = label; to = v } ∷ incoming v rest

pub unlink_targets-eq :
    (from : VertexId) (label : EdgeLabel) (ts : List VertexId) (c : EdgesContainer)
    → unlink_targets from label ts c ≡ unlink_inverse (edges_to from label ts) c
unfolding unlink_targets unlink_inverse
unlink_targets-eq from label [] c = refl
unlink_targets-eq from label (t ∷ ts) c = unlink_targets-eq from label ts _

pub unlink_outgoing-eq :
    (v : VertexId) (links : List Link) (c : EdgesContainer)
    → unlink_outgoing v links c ≡ unlink_inverse (outgoing v links) c
unfolding unlink_outgoing unlink_inverse
unlink_outgoing-eq v [] c = refl
unlink_outgoing-eq v ((l, t) ∷ links) c = unlink_outgoing-eq v links _

pub unlink_incoming-eq :
    (v : VertexId) (links : List Link) (c : EdgesContainer)
    → unlink_incoming v links c ≡ unlink_forward (incoming v links) c
unfolding unlink_incoming unlink_forward
unlink_incoming-eq v [] c = refl
unlink_incoming-eq v ((l, t) ∷ links) c = unlink_incoming-eq v links _

pub contains-edges_to :
    (from : VertexId) (label : EdgeLabel) (ts : List VertexId) (k : Edge)
    → contains (edges_to from label ts) k
      ≡ ite (ℕ_discrete from k.from) (ite (ℕ_discrete label k.label) (contains ts k.to) false) false
unfolding contains
contains-edges_to from label [] k = ground arith
contains-edges_to from label (t ∷ ts) k = ground (arith, contains-edges_to from label ts k)

pub contains-outgoing :
    (v : VertexId) (links : List Link) (k : Edge)
    → contains (outgoing v links) k
      ≡ ite (ℕ_discrete v k.from) (contains links (k.label, k.to)) false
unfolding contains
contains-outgoing v [] k = ground arith
contains-outgoing v ((l, t) ∷ links) k = ground (arith, contains-outgoing v links k)

pub contains-incoming :
    (v : VertexId) (links : List Link) (k : Edge)
    → contains (incoming v links) k
      ≡ ite (ℕ_discrete v k.to) (contains links (k.label, k.from)) false
unfolding contains
contains-incoming v [] k = ground arith
contains-incoming v ((l, t) ∷ links) k = ground (arith, contains-incoming v links k)

pub edges_to-IsSetList :
    (from : VertexId) (label : EdgeLabel) (ts : List VertexId)
    → IsSetList ts
    → IsSetList (edges_to from label ts)
edges_to-IsSetList from label [] h = tt
edges_to-IsSetList from label (t ∷ ts) h = (
  ground
      (arith, contains-edges_to from label ts (record { from = from; label = label; to = t }), h.0),
  edges_to-IsSetList from label ts h.1,
)

pub outgoing-IsSetList :
    (v : VertexId) (links : List Link) → IsSetList links → IsSetList (outgoing v links)
outgoing-IsSetList v [] h = tt
outgoing-IsSetList v ((l, t) ∷ links) h = (
  ground (arith, contains-outgoing v links (record { from = v; label = l; to = t }), h.0),
  outgoing-IsSetList v links h.1,
)

pub incoming-IsSetList :
    (v : VertexId) (links : List Link) → IsSetList links → IsSetList (incoming v links)
incoming-IsSetList v [] h = tt
incoming-IsSetList v ((l, t) ∷ links) h = (
  ground (arith, contains-incoming v links (record { from = t; label = l; to = v }), h.0),
  incoming-IsSetList v links h.1,
)

-- What the loop over the inverse trunk leaves.
pub record UnlinkedInverse (es : List Edge) (c d : EdgesContainer) : Type 0 where
  pub forward_same : d.forward ≡ c.forward
  pub log_grows : d.log ≡ c.log ++ removals es
  pub applied_same : d.applied ≡ c.applied
  pub inverse_ok : IsTrunk c.inverse → IsTrunk d.inverse
  pub inverse_dir : d.inverse.is_inverse ≡ c.inverse.is_inverse
  pub inverse_has :
      (k : Edge)
      → Trunk.has d.inverse k.to k.label k.from
        ≡ (not (contains es k) && Trunk.has c.inverse k.to k.label k.from)

pub unlink_inverse_lem :
    (es : List Edge) (c : EdgesContainer) → UnlinkedInverse es c (unlink_inverse es c)
unfolding unlink_inverse push_change contains
unlink_inverse_lem [] c = record {
  forward_same = refl;
  log_grows = sym (append-nil c.log);
  applied_same = refl;
  inverse_ok = λ h. h;
  inverse_dir = refl;
  inverse_has = λ k. ground arith;
}
unlink_inverse_lem (e ∷ es) c =
    let removed = (Trunk.remove e.to e.label e.from c.inverse).1 in
    let rest = unlink_inverse_lem es (push_change e false (record c { inverse = removed })) in
    record {
      forward_same = rest.forward_same;
      log_grows =
          rest.log_grows
          ∙ append_assoc c.log (record { item = e; added = false } ∷ []) (removals es);
      applied_same = rest.applied_same;
      inverse_ok = λ h. rest.inverse_ok (TrunkLaws.remove-IsTrunk c.inverse e.to e.label e.from h);
      inverse_dir = rest.inverse_dir ∙ TrunkLaws.remove_is_inverse c.inverse e.to e.label e.from;
      inverse_has = λ k. ground (
        arith,
        rest.inverse_has k,
        TrunkLaws.has-remove c.inverse e.to e.label e.from k.to k.label k.from,
      );
    }

pub record UnlinkedForward (es : List Edge) (c d : EdgesContainer) : Type 0 where
  pub inverse_same : d.inverse ≡ c.inverse
  pub log_grows : d.log ≡ c.log ++ removals es
  pub applied_same : d.applied ≡ c.applied
  pub forward_ok : IsTrunk c.forward → IsTrunk d.forward
  pub forward_dir : d.forward.is_inverse ≡ c.forward.is_inverse
  pub forward_has :
      (k : Edge)
      → Trunk.has d.forward k.from k.label k.to
        ≡ (not (contains es k) && Trunk.has c.forward k.from k.label k.to)

pub unlink_forward_lem :
    (es : List Edge) (c : EdgesContainer) → UnlinkedForward es c (unlink_forward es c)
unfolding unlink_forward push_change contains
unlink_forward_lem [] c = record {
  inverse_same = refl;
  log_grows = sym (append-nil c.log);
  applied_same = refl;
  forward_ok = λ h. h;
  forward_dir = refl;
  forward_has = λ k. ground arith;
}
unlink_forward_lem (e ∷ es) c =
    let removed = (Trunk.remove e.from e.label e.to c.forward).1 in
    let rest = unlink_forward_lem es (push_change e false (record c { forward = removed })) in
    record {
      inverse_same = rest.inverse_same;
      log_grows =
          rest.log_grows
          ∙ append_assoc c.log (record { item = e; added = false } ∷ []) (removals es);
      applied_same = rest.applied_same;
      forward_ok = λ h. rest.forward_ok (TrunkLaws.remove-IsTrunk c.forward e.from e.label e.to h);
      forward_dir = rest.forward_dir ∙ TrunkLaws.remove_is_inverse c.forward e.from e.label e.to;
      forward_has = λ k. ground (
        arith,
        rest.forward_has k,
        TrunkLaws.has-remove c.forward e.from e.label e.to k.from k.label k.to,
      );
    }
