-- ===== src/Edges/Container/Sync.antt =====
-- The two trunks of `MutableEdgesContainer` beside each other, through `insert` and `erase`.
use saengra.Prelude.{◌≡◌, Bool, true, false, not, arith, ite}
use saengra.Edge.{VertexId, EdgeLabel, Edge, Edge-discrete}
use saengra.Edges.Trunk
use saengra.Edges.Trunk.{Trunk, IsTrunk}
use saengra.Edges.Trunk.Laws as TrunkLaws
use saengra.Edges.Container.{EdgesContainer, insert, erase}

-- The edges of the container.
abbrev pub contents : EdgesContainer → Edge → Bool
contents c e = Trunk.has c.forward e.from e.label e.to

pub record InSync (forward inverse : Trunk) : Type 0 where
  pub forward_ok : IsTrunk forward
  pub inverse_ok : IsTrunk inverse
  pub forward_dir : forward.is_inverse ≡ false
  pub inverse_dir : inverse.is_inverse ≡ true
  pub mirrored :
      (f : VertexId) (l : EdgeLabel) (t : VertexId)
      → Trunk.has inverse t l f ≡ Trunk.has forward f l t

module _ (e : Edge) (c : EdgesContainer) where
  pub contents-insert :
      (k : Edge) → contents (insert e c).1 k ≡ ite (Edge-discrete e k) true (contents c k)
  unfolding insert
  contents-insert k =
      ground (arith, TrunkLaws.has-add c.forward e.from e.label e.to k.from k.label k.to)

  pub inserted-insert : (insert e c).0 ≡ not (contents c e)
  unfolding insert
  inserted-insert = ground (arith, TrunkLaws.added-add c.forward e.from e.label e.to)

  pub insert-InSync :
      InSync c.forward c.inverse → InSync (insert e c).1.forward (insert e c).1.inverse
  unfolding insert
  insert-InSync h = record {
    forward_ok = ground (arith, TrunkLaws.add-IsTrunk c.forward e.from e.label e.to h.forward_ok);
    inverse_ok =
        ground
          (arith, TrunkLaws.add-IsTrunk c.inverse e.to e.label e.from h.inverse_ok, h.inverse_ok);
    forward_dir =
        ground (arith, TrunkLaws.add_is_inverse c.forward e.from e.label e.to, h.forward_dir);
    inverse_dir =
        ground (arith, TrunkLaws.add_is_inverse c.inverse e.to e.label e.from, h.inverse_dir);
    mirrored = λ f l t. ground (
      arith,
      h.mirrored f l t,
      TrunkLaws.added-add c.forward e.from e.label e.to,
      TrunkLaws.has-add c.forward e.from e.label e.to f l t,
      TrunkLaws.has-add c.inverse e.to e.label e.from t l f,
    );
  }

  pub contents-erase :
      (k : Edge) → contents (erase e c).1 k ≡ ite (Edge-discrete e k) false (contents c k)
  unfolding erase
  contents-erase k =
      ground (arith, TrunkLaws.has-remove c.forward e.from e.label e.to k.from k.label k.to)

  pub erased-erase : (erase e c).0 ≡ contents c e
  unfolding erase
  erased-erase = ground (arith, TrunkLaws.removed-remove c.forward e.from e.label e.to)

  pub erase-InSync : InSync c.forward c.inverse → InSync (erase e c).1.forward (erase e c).1.inverse
  unfolding erase
  erase-InSync h = record {
    forward_ok =
        ground (arith, TrunkLaws.remove-IsTrunk c.forward e.from e.label e.to h.forward_ok);
    inverse_ok =
        ground (
          arith,
          TrunkLaws.remove-IsTrunk c.inverse e.to e.label e.from h.inverse_ok,
          h.inverse_ok,
        );
    forward_dir =
        ground (arith, TrunkLaws.remove_is_inverse c.forward e.from e.label e.to, h.forward_dir);
    inverse_dir =
        ground (arith, TrunkLaws.remove_is_inverse c.inverse e.to e.label e.from, h.inverse_dir);
    mirrored = λ f l t. ground (
      arith,
      h.mirrored f l t,
      TrunkLaws.removed-remove c.forward e.from e.label e.to,
      TrunkLaws.has-remove c.forward e.from e.label e.to f l t,
      TrunkLaws.has-remove c.inverse e.to e.label e.from t l f,
    );
  }

  pub insert_log : ((insert e c).1.log ≡ c.log) × ((insert e c).1.applied ≡ c.applied)
  unfolding insert
  insert_log = ground arith

  pub erase_log : ((erase e c).1.log ≡ c.log) × ((erase e c).1.applied ≡ c.applied)
  unfolding erase
  erase_log = ground arith
