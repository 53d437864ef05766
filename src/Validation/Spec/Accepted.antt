-- ===== src/Validation/Spec/Accepted.antt =====
-- ValidateNodeSpec of internal/model/validate.go: which specifications a node is started with.
use xboard_node_plus.Prelude.{Str, List, Option, some, ok, Map, ◌≡◌, ◌↔◌, >>-ok, bind-ok, All}
use xboard_node_plus.Validation.Kernels.{resolve_effective_kernel_type}
use xboard_node_plus.Validation.Kernels.Choice.{resolve_effective-IsKernel}
use xboard_node_plus.Validation.Kernels.Chosen.{
  Chooses, strategy, Supports, resolve_effective_iff, validate_transport_kernel_iff,
  Chooses-IsKernel,
}
use xboard_node_plus.Validation.Tags.Local.{LocalTags, collect_iff}
use xboard_node_plus.Validation.Spec.Available.{available, IsAccepted-available}
use xboard_node_plus.Validation.Outbounds.{validate_custom_outbounds_for_kernel}
use xboard_node_plus.Validation.Outbounds.Accepted.{AreOutbounds}
use xboard_node_plus.Validation.Outbounds.Proxies.{validate_custom_outbounds_iff}
use xboard_node_plus.Validation.Rules.{validate_custom_route_rules}
use xboard_node_plus.Validation.Rules.Accepted.{IsAccepted, validate_custom_route_rules_iff}
use xboard_node_plus.Validation.Tags.{
  File, OutboundTagSource, collect_additional_outbound_tag_sources,
  validate_outbound_tag_collisions, additional_tag_names,
}
use xboard_node_plus.Validation.Tags.Collisions.{AreApart, validate_outbound_tag_collisions_iff}
use xboard_node_plus.Validation.Spec.{
  KernelConfig, build_available_outbound_tags, configured_kernel, validate_node_spec,
}
use xboard_node_plus.Model.Values.{Any, items}
use xboard_node_plus.Model.{NodeSpec}

module _ (read_file : Str → File) (decode_json decode_yaml : Str → Option (Map Str Any))
    (n : NodeSpec) (c : KernelConfig) where
  -- The node can be served: by a kernel, with the tags that the local configuration adds.
  pub record IsServable : Type 0 where
    pub kernel : Str
    pub chosen : Chooses n.network (strategy c.kernel_type n.kernel_type) kernel
    pub transport : Supports n.network kernel
    pub sources : List OutboundTagSource
    pub local :
        LocalTags read_file decode_json decode_yaml c.custom_config c.custom_outbound sources
    pub apart : AreApart (items n.custom_outbounds) sources
    pub outbounds : AreOutbounds kernel (additional_tag_names sources) (items n.custom_outbounds)
    pub rules :
        All
          (IsAccepted (some (available (additional_tag_names sources) (items n.custom_outbounds))))
          (items n.custom_route_rules)

  servable_sound :
      validate_node_spec read_file decode_json decode_yaml (some n) c ≡ ok tt → IsServable
  unfolding validate_node_spec
  servable_sound h =
      let (kernel, r, h1) =
        bind-ok (resolve_effective_kernel_type (some n) (configured_kernel n c)) _ h in
      let (sources, s, h2) =
        bind-ok
          (collect_additional_outbound_tag_sources read_file decode_json decode_yaml c.custom_config
            c.custom_outbound)
          _ h1 in
      let outbounds = items n.custom_outbounds in
      let tags = additional_tag_names sources in
      let collected = some (build_available_outbound_tags outbounds tags) in
      let is_kernel = resolve_effective-IsKernel (some n) (configured_kernel n c) r in
      let (a, h3) = >>-ok (validate_outbound_tag_collisions outbounds sources) _ h2 in
      let (o, h4) = >>-ok (validate_custom_outbounds_for_kernel outbounds kernel tags) _ h3 in
      let (q, t) =
        >>-ok (validate_custom_route_rules (items n.custom_route_rules) kernel collected) _ h4 in
      record {
        kernel = kernel;
        chosen = (resolve_effective_iff n c.kernel_type kernel).0 r;
        transport = (validate_transport_kernel_iff n.network kernel is_kernel).0 t;
        sources = sources;
        local =
            (collect_iff read_file decode_json decode_yaml c.custom_config c.custom_outbound
                sources).0
              s;
        apart = (validate_outbound_tag_collisions_iff outbounds sources).0 a;
        outbounds = (validate_custom_outbounds_iff outbounds kernel tags is_kernel).0 o;
        rules = (IsAccepted-available tags outbounds (items n.custom_route_rules)).0 (
            (validate_custom_route_rules_iff (items n.custom_route_rules) kernel collected
                is_kernel).0
              q);
      }

  servable_complete :
      IsServable → validate_node_spec read_file decode_json decode_yaml (some n) c ≡ ok tt
  unfolding validate_node_spec
  servable_complete s =
      let outbounds = items n.custom_outbounds in
      let tags = additional_tag_names s.sources in
      let collected = some (build_available_outbound_tags outbounds tags) in
      let is_kernel = Chooses-IsKernel n.network _ s.kernel s.chosen in
      rw
        (
          (resolve_effective_iff n c.kernel_type s.kernel).1 s.chosen,
          (collect_iff read_file decode_json decode_yaml c.custom_config c.custom_outbound
                s.sources).1
              s.local,
          (validate_outbound_tag_collisions_iff outbounds s.sources).1 s.apart,
          (validate_custom_outbounds_iff outbounds s.kernel tags is_kernel).1 s.outbounds,
          (validate_custom_route_rules_iff (items n.custom_route_rules) s.kernel collected
                is_kernel).1
              ((IsAccepted-available tags outbounds (items n.custom_route_rules)).1 s.rules),
        )
        ((validate_transport_kernel_iff n.network s.kernel is_kernel).1 s.transport)

  -- ValidateNodeSpec lets a specification pass exactly when its strategy, that of the local
  -- configuration or else of the node or else "auto", chooses a kernel that has the transport, the
  -- local custom configuration can be read, and the outbounds, the route rules and the tags of both
  -- are valid for that kernel.
  pub validate_node_spec_iff :
      (validate_node_spec read_file decode_json decode_yaml (some n) c ≡ ok tt) ↔ IsServable
  validate_node_spec_iff = (servable_sound, servable_complete)
