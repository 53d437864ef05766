-- ===== src/Tests/Checks.antt =====
-- The examples for the checks of node specifications.
use xboard_node_plus.Prelude.{
  atoi, split, insert, lookup, str_beq, trim_space, to_lower, Str, [], ◌∷◌, Option, none, some,
  codes, Map, ok, ◌≡◌, ◌↔◌, inl, inr, refl, false, All, KeySet,
}
use xboard_node_plus.Validation.{kernel_sing_box, kernel_xray}
use xboard_node_plus.Validation.Kernels.{
  validate_transport_kernel, resolve_effective_kernel_type, normalize_kernel_type,
}
use xboard_node_plus.Validation.Ports.{accepts_port, validate_networks, validate_port_specs}
use xboard_node_plus.Validation.Ports.Accepted.{NamesPorts, validate_port_specs_iff}
use xboard_node_plus.Validation.Rules.{
  validate_action, check_matchers, ensure_route_matcher_supported, has_route_match, validate_rule,
  validate_rules, validate_custom_route_rules,
}
use xboard_node_plus.Validation.Rules.Accepted.{IsAccepted, validate_custom_route_rules_iff}
use xboard_node_plus.Validation.Outbounds.{
  add_tags, check_proxy, check_proxies, check_filled, check_reserved, validate_outbound_settings,
  check_outbound, check_outbounds, validate_custom_outbounds_for_kernel,
}
use xboard_node_plus.Validation.Outbounds.Accepted.{AreOutbounds}
use xboard_node_plus.Validation.Outbounds.Proxies.{validate_custom_outbounds_iff}
use xboard_node_plus.Validation.Tags.{
  additional_tag_names, check_collisions, seen_sources, tag_sources,
  collect_raw_outbound_tag_sources, collect_custom_config_outbound_tag_sources,
  collect_additional_outbound_tag_sources, OutboundTagSource, custom_outbound, File, missing,
  validate_outbound_tag_collisions,
}
use xboard_node_plus.Validation.Tags.Collisions.{AreApart, validate_outbound_tag_collisions_iff}
use xboard_node_plus.Validation.Spec.{
  build_available_outbound_tags, KernelConfig, validate_node_spec,
}
use xboard_node_plus.Validation.Spec.Accepted.{IsServable, validate_node_spec_iff}
use xboard_node_plus.Model.Values.{Any, text, int}
use xboard_node_plus.Model.{RouteMatch, CustomRouteRule, OutboundConfig, NodeSpec}
use xboard_node_plus.Tests.Samples.{node}

abbrev web_match : RouteMatch
web_match = record {
  domains = some (codes "example.org" ∷ []);
  domain_suffixes = none;
  ip_cidrs = none;
  ports = some (codes " 80-443 " ∷ []);
  networks = some (codes "TCP" ∷ []);
  source_cidrs = none;
  source_ports = none;
}

abbrev to_relay : CustomRouteRule
to_relay = record {
  name = codes "web";
  disabled = false;
  match = web_match;
  action = record { action_type = codes "route"; target = codes "Relay" };
}

abbrev relay : OutboundConfig
relay = record {
  tag = codes "relay";
  protocol = codes "socks";
  settings =
      some ((codes "server", text (codes "10.0.0.1")) ∷ (codes "server_port", int 1080) ∷ []);
  proxy_tag = [];
}

abbrev behind_relay : OutboundConfig
behind_relay = record relay { tag = codes "far"; proxy_tag = codes "relay" }

abbrev tags : KeySet Str
tags = (codes "direct", tt) ∷ (codes "relay", tt) ∷ []

abbrev local_source : OutboundTagSource
local_source = record { tag = codes "local"; source = custom_outbound 0 }

abbrev routed_node : NodeSpec
routed_node = record node {
  custom_outbounds = some (relay ∷ behind_relay ∷ []);
  custom_route_rules = some (to_relay ∷ []);
}

abbrev auto_kernel : KernelConfig
auto_kernel = record {
  kernel_type = codes "auto";
  config_dir = [];
  log_level = [];
  geo_data_dir = [];
  custom_outbound = none;
  custom_route = none;
  custom_config = [];
}

abbrev no_file : Str → File
no_file path = missing

abbrev no_decoder : Str → Option (Map Str Any)
no_decoder s = none

validate_node_spec_iff_example :
    (validate_node_spec no_file no_decoder no_decoder (some routed_node) auto_kernel ≡ ok tt)
    ↔ IsServable no_file no_decoder no_decoder routed_node auto_kernel
validate_node_spec_iff_example =
    validate_node_spec_iff no_file no_decoder no_decoder routed_node auto_kernel

validate_custom_outbounds_iff_example :
    (validate_custom_outbounds_for_kernel (relay ∷ behind_relay ∷ []) kernel_xray [] ≡ ok tt)
    ↔ AreOutbounds kernel_xray [] (relay ∷ behind_relay ∷ [])
validate_custom_outbounds_iff_example =
    validate_custom_outbounds_iff (relay ∷ behind_relay ∷ []) kernel_xray [] (inr refl)

validate_custom_route_rules_iff_example :
    (validate_custom_route_rules (to_relay ∷ []) kernel_sing_box (some tags) ≡ ok tt)
    ↔ All (IsAccepted (some tags)) (to_relay ∷ [])
validate_custom_route_rules_iff_example =
    validate_custom_route_rules_iff (to_relay ∷ []) kernel_sing_box (some tags) (inl refl)

validate_port_specs_iff_example :
    (validate_port_specs 0 (codes "ports") (codes " 80-443 " ∷ codes "53" ∷ []) ≡ ok tt)
    ↔ All NamesPorts (codes " 80-443 " ∷ codes "53" ∷ [])
validate_port_specs_iff_example =
    validate_port_specs_iff 0 (codes "ports") (codes " 80-443 " ∷ codes "53" ∷ [])

validate_outbound_tag_collisions_iff_example :
    (validate_outbound_tag_collisions (relay ∷ []) (local_source ∷ []) ≡ ok tt)
    ↔ AreApart (relay ∷ []) (local_source ∷ [])
validate_outbound_tag_collisions_iff_example =
    validate_outbound_tag_collisions_iff (relay ∷ []) (local_source ∷ [])

-- The whole check lets the node pass.
accepted : validate_node_spec no_file no_decoder no_decoder (some routed_node) auto_kernel ≡ ok tt
unfolding validate_node_spec resolve_effective_kernel_type normalize_kernel_type to_lower trim_space
    str_beq lookup insert collect_additional_outbound_tag_sources
    collect_custom_config_outbound_tag_sources collect_raw_outbound_tag_sources tag_sources
    validate_outbound_tag_collisions seen_sources check_collisions
    validate_custom_outbounds_for_kernel check_outbounds check_outbound validate_outbound_settings
    check_reserved check_filled check_proxies check_proxy add_tags build_available_outbound_tags
    validate_custom_route_rules validate_rules validate_rule has_route_match
    ensure_route_matcher_supported check_matchers validate_action validate_port_specs
    validate_networks accepts_port split atoi additional_tag_names validate_transport_kernel
accepted = refl
