-- ===== src/Validation/Spec.antt =====
-- ValidateNodeSpec of internal/model/validate.go.
pub mod Accepted
pub mod Available
use xboard_node_plus.Prelude.{
  Str, List, [], ◌∷◌, Option, none, some, if◌then◌else◌, ok, err, ◌>>◌, ◌>>=◌, Map, KeySet,
  trim_space, map, str_beq,
}
use xboard_node_plus.Validation.{Invalid, Check}
use xboard_node_plus.Validation.Kernels.{resolve_effective_kernel_type, validate_transport_kernel}
use xboard_node_plus.Validation.Outbounds.{
  add_tags, built_in_tags, validate_custom_outbounds_for_kernel,
}
use xboard_node_plus.Validation.Rules.{validate_custom_route_rules}
use xboard_node_plus.Validation.Tags.{
  File, collect_additional_outbound_tag_sources, validate_outbound_tag_collisions,
  additional_tag_names,
}
use xboard_node_plus.Model.Values.{Any, AnyMap, Slice, items}
use xboard_node_plus.Model.{NodeSpec, OutboundConfig}

-- The fields of config.KernelConfig.
pub record KernelConfig : Type 0 where
  pub kernel_type : Str
  pub config_dir : Str
  pub log_level : Str
  pub geo_data_dir : Str
  pub custom_outbound : Slice AnyMap
  pub custom_route : Slice AnyMap
  pub custom_config : Str

unfoldable pub build_available_outbound_tags : List OutboundConfig → List Str → KeySet Str
build_available_outbound_tags structured raw =
    add_tags raw (add_tags (map (λ o. o.tag) structured) built_in_tags)

-- The kernel type of the local configuration comes before that of the node.
abbrev pub configured_kernel : NodeSpec → KernelConfig → Str
configured_kernel n c =
    if str_beq (trim_space c.kernel_type) []
    then trim_space n.kernel_type
    else trim_space c.kernel_type

module _ (read_file : Str → File) (decode_json decode_yaml : Str → Option (Map Str Any)) where
  unfoldable pub validate_node_spec : Option NodeSpec → KernelConfig → Check
  validate_node_spec none c = ok tt
  validate_node_spec (some n) c = do
    kernel ← resolve_effective_kernel_type (some n) (configured_kernel n c)
    sources ←
        collect_additional_outbound_tag_sources read_file decode_json decode_yaml c.custom_config
          c.custom_outbound
    let outbounds = items n.custom_outbounds
    let tags = additional_tag_names sources
    validate_outbound_tag_collisions outbounds sources
    validate_custom_outbounds_for_kernel outbounds kernel tags
    validate_custom_route_rules (items n.custom_route_rules) kernel
        (some (build_available_outbound_tags outbounds tags))
    validate_transport_kernel n.network kernel
