-- ===== src/Build/Xray.antt =====
-- internal/kernel/xray/config.go: buildConfig, the configuration of the xray kernel.
pub mod Routes
pub mod Stream
pub mod Inbound
pub mod Merge
pub mod Safety
use xboard_node_plus.Prelude.{
  Str, Bool, true, List, [], ◌∷◌, ◌++◌, Option, none, some, if◌then◌else◌, map, codes, ◌||◌, ◌&&◌,
  str_beq, not,
}
use xboard_node_plus.Model.Values.{items, AnyMap}
use xboard_node_plus.Model.{NodeSpec, UserSpec, OutboundConfig}
use xboard_node_plus.Validation.Spec.{KernelConfig}
use xboard_node_plus.Service.Core.{TlsCert}
use xboard_node_plus.Build.{M, empty, str, flag, put, doc, table, tables, ms, when, as_m, as_m_of}
use xboard_node_plus.Build.Library.{Library}
use xboard_node_plus.Build.Tags.{with_defaults}
use Routes.{build_routing}
use Inbound.{build_inbound}
use Merge.{merge_custom_xray}

abbrev put_settings : AnyMap → M → M
put_settings none m = m
put_settings (some []) m = m
put_settings (some (e ∷ l)) m = put "settings" (table (as_m (e ∷ l))) m

unfoldable pub outbound_config_to_xray : OutboundConfig → M
outbound_config_to_xray oc =
    when (not (str_beq oc.proxy_tag []))
      (put "proxySettings" (table (doc (("tag", str oc.proxy_tag) ∷ []))))
      (put_settings oc.settings (doc (("protocol", str oc.protocol) ∷ ("tag", str oc.tag) ∷ [])))

unfoldable pub xray_log_level : Str → Str
xray_log_level level =
    if str_beq level (codes "trace") || str_beq level (codes "debug")
    then codes "debug"
    else if str_beq level (codes "info")
    then codes "info"
    else if str_beq level (codes "warn")
    then codes "warning"
    else if str_beq level (codes "error")
        || str_beq level (codes "fatal")
        || str_beq level (codes "panic")
    then codes "error"
    else codes "warning"

abbrev pub direct_outbound : M
direct_outbound = doc (("protocol", str (codes "freedom")) ∷ ("tag", str (codes "direct")) ∷ [])

abbrev pub block_outbound : M
block_outbound = doc (("protocol", str (codes "blackhole")) ∷ ("tag", str (codes "block")) ∷ [])

module _ (lib : Library) (kcfg : KernelConfig) (nc : NodeSpec) where
  unfoldable pub outbounds : List M
  outbounds =
      with_defaults outbound_config_to_xray direct_outbound block_outbound
        (items nc.custom_outbounds) (items kcfg.custom_outbound)

  unfoldable pub raw_routes : List M
  raw_routes = map as_m_of (items nc.custom_routes) ++ map as_m_of (items kcfg.custom_route)

  abbrev policy : M
  policy = doc (
      (
        "levels",
        table (
            doc (
              (
                "0",
                table
                    (doc (("statsUserUplink", flag true) ∷ ("statsUserDownlink", flag true) ∷ [])),
              )
              ∷ [])),
      )
      ∷ (
        "system",
        table (
            doc (
              ("statsInboundUplink", flag true)
              ∷ ("statsInboundDownlink", flag true)
              ∷ ("statsOutboundUplink", flag true)
              ∷ ("statsOutboundDownlink", flag true)
              ∷ [])),
      )
      ∷ [])

  abbrev first_part : M
  first_part = doc (
      (
        "log",
        table (
            doc (
              ("loglevel", str (xray_log_level kcfg.log_level))
              ∷ ("error", str [])
              ∷ ("access", str [])
              ∷ [])),
      )
      ∷ ("stats", table empty)
      ∷ ("policy", table policy)
      ∷ ("outbounds", tables (ms outbounds))
      ∷ [])

  abbrev put_inbound : Option M → M → M
  put_inbound none cfg = cfg
  put_inbound (some inbound) cfg = put "inbounds" (tables (ms (inbound ∷ []))) cfg

  -- With the node as buildInbound leaves it.
  unfoldable pub build_config : List UserSpec → TlsCert → M × NodeSpec
  build_config users tc =
      let (inbound, after) = build_inbound lib nc users tc in
      (
        merge_custom_xray lib kcfg (
            put "routing"
              (table
                (build_routing (items after.routes) (items after.custom_route_rules) raw_routes))
              (put_inbound inbound first_part)),
        after,
      )
