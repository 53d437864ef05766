-- ===== src/Build/SingBox/Tls/Kept.antt =====
-- What applyTransport and applyMultiplex leave of an inbound: every field but their own.
use xboard_node_plus.Prelude.{
  ◌≡◌, refl, false, Option, none, some, str_beq, codes, Bool-cases, inl, inr, [], ◌||◌,
}
use xboard_node_plus.Model.{NodeSpec, MultiplexConfig}
use xboard_node_plus.Build.{M, at}
use xboard_node_plus.Build.Fields.{at-put, at-when}
use xboard_node_plus.Build.SingBox.Tls.{apply_transport, apply_multiplex, multiplex_of}
use Prim.Native.String.{[], String}

module _ (i : String) (nc : NodeSpec) (m : M) where
  pub at-apply_transport :
      str_beq (codes "transport") (codes i) ≡ false → at i (apply_transport nc m) ≡ at i m
  unfolding apply_transport
  at-apply_transport other =
      elim (Bool-cases (str_beq nc.network [] || str_beq nc.network (codes "tcp"))) [
        | inl plain ↦ rw plain refl
        | inr net ↦ rw net (at-put "transport" i _ m other)
      ]

module _ (i : String) (m : M) (other : str_beq (codes "multiplex") (codes i) ≡ false) where
  at-multiplex_of : (o : Option MultiplexConfig) → at i (multiplex_of o m) ≡ at i m
  at-multiplex_of none = refl
  at-multiplex_of (some x) = at-when "multiplex" i x.enabled _ m other

  pub at-apply_multiplex : (nc : NodeSpec) → at i (apply_multiplex nc m) ≡ at i m
  unfolding apply_multiplex
  at-apply_multiplex nc = at-multiplex_of nc.multiplex
