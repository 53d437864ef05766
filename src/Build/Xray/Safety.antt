-- ===== src/Build/Xray/Safety.antt =====
-- The outbounds and the rules of a built xray configuration, the custom file included.
use xboard_node_plus.Prelude.{
  ◌≡◌, refl, ◌∙◌, ap, Bool, true, false, Str, List, [], ◌∷◌, ◌++◌, Option, none, some, any, codes,
  sym, append_assoc, str_beq,
}
use xboard_node_plus.Model.Values.{items}
use xboard_node_plus.Model.{NodeSpec, UserSpec}
use xboard_node_plus.Validation.Spec.{KernelConfig}
use xboard_node_plus.Service.Core.{TlsCert}
use xboard_node_plus.Build.{M, Value, put, at, get, set, table, tables, ms}
use xboard_node_plus.Build.Added.{Has}
use xboard_node_plus.Build.Decision.{decide, decide-append, decide-all}
use xboard_node_plus.Build.Fields.{at-put, at-put_same}
use xboard_node_plus.Build.Library.{Library}
use xboard_node_plus.Build.Xray.{outbounds, raw_routes, build_config, first_part, put_inbound}
use xboard_node_plus.Build.Xray.Inbound.{build_inbound}
use xboard_node_plus.Build.Xray.Inbound.Node.{routes-build_inbound}
use xboard_node_plus.Build.Xray.Merge.Kept.{file_outbounds, file_rules, merge_custom_xray-Keeps}
use xboard_node_plus.Build.Xray.Routes.{
  build_routing, routing_rules, compile_custom, compile_panel, private_blocks,
}

module _ (lib : Library) (kcfg : KernelConfig) (nc : NodeSpec) where
  abbrev rules_with : NodeSpec → List M
  rules_with n =
      routing_rules (items n.routes) (items n.custom_route_rules) (raw_routes lib kcfg nc)

  abbrev pub built_rules : List M
  built_rules = rules_with nc

  abbrev before_routing : Option M → M
  before_routing inbound = put_inbound lib kcfg nc inbound (first_part lib kcfg nc)

  outbounds-before_routing :
      (o : Option M)
      → at "outbounds" (before_routing o) ≡ some (tables (ms (outbounds lib kcfg nc)))
  unfolding get str_beq set
  outbounds-before_routing none = refl
  outbounds-before_routing (some m) = refl

  -- The list of inbounds that an inbound makes.
  abbrev pub inbounds_of : Option M → Option Value
  inbounds_of none = none
  inbounds_of (some m) = some (tables (ms (m ∷ [])))

  inbounds-before_routing : (o : Option M) → at "inbounds" (before_routing o) ≡ inbounds_of o
  unfolding get str_beq set
  inbounds-before_routing none = refl
  inbounds-before_routing (some m) = refl

  abbrev routing : NodeSpec → M
  routing n = build_routing (items n.routes) (items n.custom_route_rules) (raw_routes lib kcfg nc)

  rules-routing : (n : NodeSpec) → at "rules" (routing n) ≡ some (tables (ms (rules_with n)))
  unfolding build_routing get str_beq
  rules-routing n = refl

  before_merge-Has :
      (o : Option M) (n : NodeSpec)
      → Has "routing"
          (outbounds lib kcfg nc)
          (rules_with n)
          (put "routing" (table (routing n)) (before_routing o))
  unfolding str_beq
  before_merge-Has o n = record {
    route = routing n;
    outbounds = at-put "routing" "outbounds" _ _ refl ∙ outbounds-before_routing o;
    routed = at-put_same "routing" _ _;
    ruled = rules-routing n;
  }

  inbounds-before_merge :
      (o : Option M) (n : NodeSpec)
      → at "inbounds" (put "routing" (table (routing n)) (before_routing o)) ≡ inbounds_of o
  unfolding str_beq
  inbounds-before_merge o n = at-put "routing" "inbounds" _ _ refl ∙ inbounds-before_routing o

  module _ (users : List UserSpec) (tc : TlsCert) where
    -- The node as buildInbound leaves it.
    abbrev after : NodeSpec
    after = (build_inbound lib nc users tc).1

    rules_with-after : rules_with after ≡ built_rules
    rules_with-after =
        let kept = routes-build_inbound lib nc users tc in
        λ i. routing_rules (items (kept.0 i)) (items (kept.1 i)) (raw_routes lib kcfg nc)

    pub build_config-Has :
        Has "routing"
          (outbounds lib kcfg nc ++ file_outbounds lib kcfg)
          (file_rules lib kcfg ++ built_rules)
          (build_config lib kcfg nc users tc).0
        × (at "inbounds" (build_config lib kcfg nc users tc).0
            ≡ inbounds_of (build_inbound lib nc users tc).0)
    unfolding build_config
    build_config-Has =
        let o = (build_inbound lib nc users tc).0 in
        let kept =
          merge_custom_xray-Keeps lib kcfg
            (put "routing" (table (routing after)) (before_routing o)) (before_merge-Has o after) in
        rw (sym rules_with-after) (kept.0, kept.1 ∙ inbounds-before_merge o after)

    private-all :
        {C : Type 0} (matches : M → C → Bool) (final : Str) (rest : List M) (c : C)
        → any (λ r. matches r c) private_blocks ≡ true
        → decide matches "outboundTag" final (private_blocks ++ rest) c ≡ codes "block"
    unfolding get str_beq
    private-all matches final rest c private =
        decide-all matches "outboundTag" final (codes "block") private_blocks rest c (refl, tt)
          private

    pub xray_private_blocked :
        {C : Type 0} (matches : M → C → Bool) (final : Str) (c : C)
        → any
            (λ r. matches r c)
            (file_rules lib kcfg
              ++ (compile_custom (items nc.custom_route_rules) ++ raw_routes lib kcfg nc))
          ≡ false
        → any (λ r. matches r c) private_blocks ≡ true
        → (route : M) × (rules : List M) × (at "routing" (build_config lib kcfg nc users tc).0
            ≡ some (table route))
          × (at "rules" route ≡ some (tables (ms rules)))
          × (decide matches "outboundTag" final rules c ≡ codes "block")
    unfolding routing_rules
    xray_private_blocked matches final c custom private =
        let h = build_config-Has.0 in
        let panel = compile_panel (items nc.routes) in
        let compiled = compile_custom (items nc.custom_route_rules) in
        let raw = raw_routes lib kcfg nc in
        (
          h.route,
          file_rules lib kcfg ++ built_rules,
          h.routed,
          h.ruled,
          ap (λ l. decide matches "outboundTag" final l c)
                (ap (λ l. file_rules lib kcfg ++ l)
                    (sym (append_assoc compiled raw (private_blocks ++ panel)))
                  ∙ sym (
                      append_assoc (file_rules lib kcfg) (compiled ++ raw)
                        (private_blocks ++ panel)))
              ∙ decide-append matches "outboundTag" final (file_rules lib kcfg ++ (compiled ++ raw))
                  (private_blocks ++ panel) c custom
              ∙ private-all matches final panel c private,
        )
