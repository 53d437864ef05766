-- ===== src/Build/Targets.antt =====
-- Both kernels send what a custom route rule matches to the same outbound.
use xboard_node_plus.Prelude.{
  ◌≡◌, refl, false, Str, [], some, All, str_beq, str_beq_iff, codes, if◌then◌else◌, not, ◌&&◌,
  arith, Bool-cases, inl, inr,
}
use xboard_node_plus.Model.{CustomRouteRule, RouteAction}
use xboard_node_plus.Build.{str, at}
use xboard_node_plus.Build.SingBox.Routes as SingBox
use xboard_node_plus.Build.SingBox.Routes.Targets as SingBoxTargets
use xboard_node_plus.Build.Xray.Routes as Xray
use xboard_node_plus.Build.Xray.Routes.Targets as XrayTargets

-- The tag that an action names: "direct", the target of a route that has one, else "block".
abbrev pub named_tag : RouteAction → Str
named_tag a =
    if str_beq a.action_type (codes "route") && not (str_beq a.target [])
    then a.target
    else if str_beq a.action_type (codes "direct")
    then codes "direct"
    else codes "block"

outbound-named_tag :
    (a : RouteAction)
    → (SingBox.singbox_outbound_for_action a ≡ named_tag a)
      × (Xray.xray_outbound_for_action a ≡ named_tag a)
unfolding SingBox.singbox_outbound_for_action Xray.xray_outbound_for_action str_beq
outbound-named_tag a = elim (Bool-cases (str_beq a.action_type (codes "direct"))) [
  | inl direct ↦
      let same = (str_beq_iff a.action_type (codes "direct")).0 direct in rw same (refl, refl)
  | inr other ↦ rw other (ground (arith, other), ground (arith, other))
]

-- The two kernels send all that an enabled custom rule matches to the same tag: every rule that
-- either compiles from it has the target of a "route" action that names one, "direct" for a
-- "direct" action, and else "block".
pub compile-GoesTo :
    (rule : CustomRouteRule)
    → rule.disabled ≡ false
    → All
        (λ m. at "outbound" m ≡ some (str (named_tag rule.action)))
        (SingBox.compile_custom_route_rule rule)
      × All
          (λ m. at "outboundTag" m ≡ some (str (named_tag rule.action)))
          (Xray.compile_custom_route_rule rule)
unfolding SingBox.compile_custom_route_rule Xray.compile_custom_route_rule
compile-GoesTo rule enabled =
    let tags = outbound-named_tag rule.action in
    rw enabled (
      rw tags.0 (SingBoxTargets.compile_match-GoesTo (str (named_tag rule.action)) rule.match),
      rw tags.1 (XrayTargets.compile_match-GoesTo (str (named_tag rule.action)) rule.match),
    )
