-- ===== src/Build/SingBox/Tls.antt =====
-- What the inbounds share: applyTransport, applyMultiplex, buildTLSConfig, buildRealityConfig.
pub mod Kept
use xboard_node_plus.Prelude.{
  ℕ, Str, Bool, true, false, List, [], ◌∷◌, ◌++◌, Option, none, some, if◌then◌else◌, Map, map,
  str_beq, str_eq, lookup, codes, ◌||◌, ◌&&◌, not, is_some, is_pos, nat_beq, atoi,
}
use xboard_node_plus.Model.Values.{
  Any, Items, AnyMap, arr, obj, text, float, int, bool, null, nil, cons, items,
}
use xboard_node_plus.Model.{NodeSpec, MultiplexConfig, BrutalConfig}
use xboard_node_plus.Validation.Tags.{fields, text_of}
use xboard_node_plus.Service.Core.{TlsCert}
use xboard_node_plus.Service.Core.Config.{has_cert}
use xboard_node_plus.Build.{
  M, Value, str, num, flag, put, at, doc, table, strings, when, copy_found, is_empty_text, raw,
}
use xboard_node_plus.Build.Settings.{bool_of, name_or_host, printed}
use xboard_node_plus.Build.Atoi.{pattern_of}
use xboard_node_plus.Build.Library.{Library, RealitySettings}
use Prim.Native.String.{String}

module _ (settings : Map Str Any) where
  abbrev copy_key : String → String → M → M
  copy_key from to = copy_found to (lookup (codes from) settings)

  -- transport["headers"] == nil
  abbrev has_headers : Option Value → Bool
  has_headers none = false
  has_headers (some (raw null)) = false
  has_headers (some v) = true

  abbrev host_header : Option Any → M → M
  host_header none m = m
  host_header (some v) m =
      when (not (has_headers (at "headers" m))) (put "headers" (table (doc (("Host", raw v) ∷ []))))
        m

  abbrev ws_transport : M → M
  ws_transport m = copy_key "early_data_header_name" "early_data_header_name" (
      copy_key "max_early_data" "max_early_data" (
        host_header (lookup (codes "host") settings)
          (copy_key "headers" "headers" (copy_key "path" "path" m))))

  abbrev grpc_transport : M → M
  grpc_transport m =
      if is_some (lookup (codes "serviceName") settings)
      then copy_key "serviceName" "service_name" m
      else copy_key "service_name" "service_name" m

  abbrev path_and_host : M → M
  path_and_host m = copy_key "host" "host" (copy_key "path" "path" m)

  unfoldable pub transport_of : Str → M → M
  transport_of network m =
      if str_beq network (codes "ws")
      then ws_transport m
      else if str_beq network (codes "grpc")
      then grpc_transport m
      else if str_beq network (codes "httpupgrade")
      then path_and_host m
      else if str_beq network (codes "h2") || str_beq network (codes "http")
      then path_and_host (put "type" (str (codes "http")) m)
      else m

abbrev with_settings : AnyMap → Str → M → M
with_settings none network m = m
with_settings (some settings) network m = transport_of settings network m

unfoldable pub apply_transport : NodeSpec → M → M
apply_transport nc base =
    if str_beq nc.network [] || str_beq nc.network (codes "tcp")
    then base
    else put "transport"
        (table (with_settings nc.network_settings nc.network (doc (("type", str nc.network) ∷ []))))
        base

abbrev brutal_m : BrutalConfig → M
brutal_m b =
    when (is_pos b.down_mbps) (put "down_mbps" (num b.down_mbps))
      (when (is_pos b.up_mbps) (put "up_mbps" (num b.up_mbps)) (doc (("enabled", flag true) ∷ [])))

abbrev add_brutal : Option BrutalConfig → M → M
add_brutal none m = m
add_brutal (some b) m = when b.enabled (put "brutal" (table (brutal_m b))) m

abbrev multiplex_of : Option MultiplexConfig → M → M
multiplex_of none base = base
multiplex_of (some x) base =
    when x.enabled
      (put "multiplex" (
        table (
          add_brutal x.brutal
            (when x.padding (put "padding" (flag true)) (doc (("enabled", flag true) ∷ []))))))
      base

unfoldable pub apply_multiplex : NodeSpec → M → M
apply_multiplex nc = multiplex_of nc.multiplex

-- Its body is commented out.
unfoldable pub apply_proxy_protocol : NodeSpec → M → M
apply_proxy_protocol nc base = base

abbrev ech_m : Map Str Any → Option M
ech_m ech =
    let key = text_of (lookup (codes "key") ech) in
    let key_path = text_of (lookup (codes "key_path") ech) in
    if bool_of (lookup (codes "enabled") ech)
    then some (
        when (not (str_beq key_path [])) (put "key_path" (str key_path)) (
          when (not (str_beq key [])) (put "key" (strings (key ∷ [])))
            (doc (("enabled", flag true) ∷ []))))
    else none

abbrev ech_of : Option Any → Option M
ech_of (some (obj m)) = ech_m (fields m)
ech_of other = none

unfoldable pub extract_ech_inbound : Map Str Any → Option M
extract_ech_inbound settings = ech_of (lookup (codes "ech") settings)

abbrev put_ech : Option M → M → M
put_ech none t = t
put_ech (some ech) t = put "ech" (table ech) t

abbrev server_name_of : Option Any → M → M
server_name_of none t = t
server_name_of (some v) t = if is_empty_text v then t else put "server_name" (raw v) t

abbrev from_tls_settings : AnyMap → M → M
from_tls_settings none t = t
from_tls_settings (some settings) t = put_ech (extract_ech_inbound settings) (
    copy_found "alpn" (lookup (codes "alpn") settings)
      (server_name_of (lookup (codes "server_name") settings) t))

unfoldable pub build_tls_config : NodeSpec → TlsCert → Option M
build_tls_config nc tc =
    if has_cert tc
    then some (
        put "key" (strings (tc.key_pem ∷ [])) (
          put "certificate" (strings (tc.cert_pem ∷ [])) (
            from_tls_settings nc.tls_settings (
              when (not (str_beq (name_or_host nc) [])) (put "server_name" (str (name_or_host nc)))
                (doc (("enabled", flag true) ∷ []))))))
    else none

abbrev short_ids : Library → Any → M → M
short_ids lib (text s) m = put "short_id" (strings (s ∷ [])) m
short_ids lib (arr l) m = put "short_id" (strings (printed lib l)) m
short_ids lib other m = m

-- strings.SplitN(s, ":", 2): the two parts, if there is a colon.
abbrev cut_head : ℕ → Option (Str × Str) → Option (Str × Str)
cut_head c none = none
cut_head c (some (a, b)) = some (c ∷ a, b)

unfoldable pub cut_colon : Str → Option (Str × Str)
cut_colon [] = none
cut_colon (c ∷ s) =
    let rest = cut_colon s in if nat_beq c b':' then some ([], s) else cut_head c rest

abbrev port_of_dest : Str → M → M
port_of_dest port m = elim (atoi port) [
  | none ↦ m
  | some n ↦ put "server_port" (num (pattern_of n)) m
]

abbrev handshake_of : RealitySettings → Option (Str × Str) → M → M
handshake_of s (some (host, port)) m = port_of_dest port (put "server" (str host) m)
handshake_of s none m = when (is_pos s.server_port) (put "server_port" (num s.server_port)) m

abbrev add_handshake : RealitySettings → Str → M → M
add_handshake s dest m =
    when (not (str_beq dest []))
      (put "handshake" (
        table (
          handshake_of s (cut_colon dest)
            (doc (("server", str dest) ∷ ("server_port", num 443) ∷ [])))))
      m

abbrev reality_of : Library → RealitySettings → M
reality_of lib s = add_handshake s (if str_beq s.dest [] then s.server_name else s.dest) (
    short_ids lib s.short_id (
      when (not (str_beq s.private_key [])) (put "private_key" (str s.private_key))
        (doc (("enabled", flag true) ∷ []))))

abbrev reality_tls : Library → RealitySettings → M → M
reality_tls lib s tls =
    put "reality" (table (reality_of lib s))
      (when (not (str_beq s.server_name [])) (put "server_name" (str s.server_name)) tls)

abbrev reality_from : Library → AnyMap → M → M
reality_from lib none tls = tls
reality_from lib (some settings) tls = reality_tls lib (lib.decode_reality settings) tls

unfoldable pub build_reality_config : Library → NodeSpec → M
build_reality_config lib nc = reality_from lib nc.tls_settings (doc (("enabled", flag true) ∷ []))
