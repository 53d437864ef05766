-- ===== src/Build/Xray/Inbound/Node.antt =====
-- What the xray builder of an inbound does to the node that it is given.
use xboard_node_plus.Prelude.{
  ◌≡◌, refl, ap, ◌⊎◌, inl, inr, Bool, true, false, Str, List, Option, none, some, All, str_eq,
  lookup,
}
use xboard_node_plus.Model.{NodeSpec, UserSpec}
use xboard_node_plus.Service.Core.{TlsCert}
use xboard_node_plus.Build.{M, at, table_of}
use xboard_node_plus.Build.Fields.{lookup-All}
use xboard_node_plus.Build.Library.{Library}
use xboard_node_plus.Build.Xray.Inbound.{
  build_inbound, build_trojan, builders, built, base_inbound, forced, secured, security_of,
  trojan_first,
}

module _ (lib : Library) (nc : NodeSpec) (users : List UserSpec) (tc : TlsCert) where
  -- The node is as it was, or its TLS was set to 1 after the streams were made.
  abbrev KeepsNode : NodeSpec → Type 0
  KeepsNode n = (n ≡ nc) ⊎ (n ≡ forced lib nc users tc)

  secured-KeepsNode : (b : Bool) (m : M) → KeepsNode (secured lib nc users tc b m).1
  secured-KeepsNode true m = inl refl
  secured-KeepsNode false m = inr refl

  abbrev BuildKeepsNode : Str → (M → Option M × NodeSpec) → Type 0
  BuildKeepsNode protocol build = (base : M) → KeepsNode (build base).1

  trojan-KeepsNode : (base : M) → KeepsNode (build_trojan lib nc users tc base).1
  unfolding build_trojan
  trojan-KeepsNode base =
      secured-KeepsNode
        (security_of lib nc users tc
          (table_of (at "streamSettings" (trojan_first lib nc users tc base))))
        (trojan_first lib nc users tc base)

  builders-KeepNode : All (λ e. BuildKeepsNode e.0 e.1) (builders lib nc users tc)
  builders-KeepNode = (
    λ b. inl refl,
    (
      λ b. inl refl,
      (trojan-KeepsNode, (λ b. inl refl, (λ b. inl refl, (λ b. inl refl, (λ b. inl refl, tt))))),
    ),
  )

  built-KeepsNode :
      (o : Option (M → Option M × NodeSpec))
      → lookup nc.protocol (builders lib nc users tc) ≡ o
      → KeepsNode (built lib nc users tc o).1
  built-KeepsNode none found = inl refl
  built-KeepsNode (some build) found =
      lookup-All BuildKeepsNode nc.protocol (builders lib nc users tc) builders-KeepNode found
        (base_inbound lib nc users tc)

  pub build_inbound-KeepsNode : KeepsNode (build_inbound lib nc users tc).1
  unfolding build_inbound
  build_inbound-KeepsNode = built-KeepsNode (lookup nc.protocol (builders lib nc users tc)) refl

  -- Its routes are not touched.
  pub routes-build_inbound :
      ((build_inbound lib nc users tc).1.routes ≡ nc.routes)
      × ((build_inbound lib nc users tc).1.custom_route_rules ≡ nc.custom_route_rules)
  routes-build_inbound = elim build_inbound-KeepsNode [
    | inl same ↦ (ap (λ n. n.routes) same, ap (λ n. n.custom_route_rules) same)
    | inr tls ↦ (ap (λ n. n.routes) tls, ap (λ n. n.custom_route_rules) tls)
  ]
