-- ===== src/Build/SingBox.antt =====
-- internal/kernel/singbox/config.go: buildConfig, the configuration of the sing-box kernel.
pub mod Outbounds
pub mod Routes
pub mod Fallback
pub mod Tls
pub mod Inbound
pub mod Merge
pub mod Blocked
pub mod Safety
use xboard_node_plus.Prelude.{
  Str, Bool, true, List, [], ◌∷◌, ◌++◌, Option, none, some, if◌then◌else◌, map, codes, ◌||◌,
}
use xboard_node_plus.Model.Values.{items}
use xboard_node_plus.Model.{NodeSpec, UserSpec}
use xboard_node_plus.Validation.Spec.{KernelConfig}
use xboard_node_plus.Service.Core.{TlsCert}
use xboard_node_plus.Build.{M, str, flag, put, doc, table, tables, ms, when, as_m_of}
use xboard_node_plus.Build.Geo.{
  needs_geo_ip, needs_geo_site, needs_geo_ip_rules, needs_geo_site_rules,
}
use xboard_node_plus.Build.Library.{Library}
use xboard_node_plus.Build.Tags.{with_defaults}
use Outbounds.{outbound_config_to_singbox}
use Routes.{build_routes}
use Fallback.{trojan_fallback_direct_routes}
use Inbound.{build_inbound}
use Merge.{merge_custom_singbox}

abbrev pub direct_outbound : M
direct_outbound = doc (("type", str (codes "direct")) ∷ ("tag", str (codes "direct")) ∷ [])

abbrev pub block_outbound : M
block_outbound = doc (("type", str (codes "block")) ∷ ("tag", str (codes "block")) ∷ [])

module _ (lib : Library) (kcfg : KernelConfig) (nc : NodeSpec) where
  unfoldable pub outbounds : List M
  outbounds =
      with_defaults (outbound_config_to_singbox lib) direct_outbound block_outbound
        (items nc.custom_outbounds) (items kcfg.custom_outbound)

  -- The raw rules, the one for the trojan fallback first.
  unfoldable pub raw_routes : List M
  raw_routes =
      trojan_fallback_direct_routes lib nc
      ++ (map as_m_of (items nc.custom_routes) ++ map as_m_of (items kcfg.custom_route))

  abbrev needs_geo : Bool
  needs_geo =
      needs_geo_ip (items nc.routes)
      || needs_geo_site (items nc.routes)
      || needs_geo_ip_rules (items nc.custom_route_rules)
      || needs_geo_site_rules (items nc.custom_route_rules)

  abbrev cache_file : M
  cache_file = doc (
      (
        "cache_file",
        table (
            doc (
              ("enabled", flag true)
              ∷ ("path", str (lib.join_path kcfg.config_dir (codes "cache.db")))
              ∷ [])),
      )
      ∷ [])

  abbrev put_inbound : Option M → M → M
  put_inbound none cfg = cfg
  put_inbound (some inbound) cfg = put "inbounds" (tables (ms (inbound ∷ []))) cfg

  abbrev log_and_outbounds : M
  log_and_outbounds = doc (
      ("log", table (doc (("level", str kcfg.log_level) ∷ ("timestamp", flag true) ∷ [])))
      ∷ ("outbounds", tables (ms outbounds))
      ∷ [])

  unfoldable pub build_config : List UserSpec → TlsCert → M
  build_config users tc = merge_custom_singbox lib kcfg (
      when needs_geo (put "experimental" (table cache_file)) (
        put "route"
          (table (build_routes (items nc.routes) (items nc.custom_route_rules) raw_routes))
          (put_inbound (build_inbound lib nc users tc) log_and_outbounds)))
