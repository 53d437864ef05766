-- ===== src/Build/Xray/Stream.antt =====
-- applyStreamSettings with the settings of the transports, of TLS and of Reality.
use xboard_node_plus.Prelude.{
  Str, Bool, true, false, [], ◌∷◌, ◌++◌, Option, none, some, if◌then◌else◌, Map, str_beq, str_eq,
  lookup, codes, ◌||◌, not, is_some, nat_beq, trim_space, has_prefix,
}
use xboard_node_plus.Model.Values.{
  Any, Fields, AnyMap, arr, obj, text, nil, cons, end, field, items,
}
use xboard_node_plus.Model.{NodeSpec}
use xboard_node_plus.Validation.Tags.{File, content, fields, text_of}
use xboard_node_plus.Service.Core.{TlsCert}
use xboard_node_plus.Service.Core.Config.{has_cert}
use xboard_node_plus.Build.{
  M, empty, entry, raw, str, flag, put, at, doc, table, tables, ms, strings, when, copy_found,
  copy_into, is_empty_text, table_of,
}
use xboard_node_plus.Build.Settings.{bool_of, name_or_host, printed, get_proxy_protocol}
use xboard_node_plus.Build.Library.{Library}
use Prim.Native.String.{String}

-- sanitizeEmptyArrays: empty lists are deleted at every depth of maps, but not inside lists.
unfoldable pub sanitize_empty_arrays : Fields → Fields
sanitize_empty_arrays end = end
sanitize_empty_arrays (field k (arr nil) m) = sanitize_empty_arrays m
sanitize_empty_arrays (field k (obj inner) m) =
    field k (obj (sanitize_empty_arrays inner)) (sanitize_empty_arrays m)
sanitize_empty_arrays (field k v m) = field k v (sanitize_empty_arrays m)

abbrev not_empty : M → Bool
not_empty empty = false
not_empty (entry k v m) = true

module _ (settings : Map Str Any) where
  abbrev copy_key : String → String → M → M
  copy_key from to = copy_found to (lookup (codes from) settings)

  abbrev map_fields : Option Any → Map Str Any
  map_fields (some (obj m)) = fields m
  map_fields other = []

  abbrev ws_headers : M
  ws_headers =
      copy_key "host" "Host" (copy_into empty (map_fields (lookup (codes "headers") settings)))

  abbrev ws_settings : M
  ws_settings =
      when (not_empty ws_headers) (put "headers" (table ws_headers)) (copy_key "path" "path" empty)

  abbrev grpc_settings : M
  grpc_settings =
      if is_some (lookup (codes "serviceName") settings)
      then copy_key "serviceName" "serviceName" empty
      else copy_key "service_name" "serviceName" empty

  abbrev path_and_host : M
  path_and_host = copy_key "host" "host" (copy_key "path" "path" empty)

  -- The host goes into a list.
  abbrev h2_host : Option Any → M → M
  h2_host none m = m
  h2_host (some v) m = put "host" (raw (arr (cons v nil))) m

  abbrev h2_settings : M
  h2_settings = h2_host (lookup (codes "host") settings) (copy_key "path" "path" empty)

  abbrev extra_of : Option Any → M → M
  extra_of (some (obj (field k v m))) out =
      put "extra" (raw (obj (sanitize_empty_arrays (field k v m)))) out
  extra_of other out = out

  abbrev xhttp_settings : M
  xhttp_settings = extra_of (lookup (codes "extra") settings) (copy_key "mode" "mode" path_and_host)

-- A nil map has no settings. The name of the network stands in the first part.
unfoldable pub transport_settings : Str → Map Str Any → M → M
transport_settings network s ss =
    if str_beq network (codes "ws")
    then put "wsSettings" (table (ws_settings s)) ss
    else if str_beq network (codes "grpc")
    then put "grpcSettings" (table (grpc_settings s)) ss
    else if str_beq network (codes "httpupgrade")
    then put "httpupgradeSettings" (table (path_and_host s)) ss
    else if str_beq network (codes "h2") || str_beq network (codes "http")
    then put "httpSettings" (table (h2_settings s)) (put "network" (str (codes "h2")) ss)
    else if str_beq network (codes "xhttp") || str_beq network (codes "splithttp")
    then put "xhttpSettings" (table (xhttp_settings s)) (put "network" (str (codes "xhttp")) ss)
    else ss

-- strings.Contains(s, "-----")
abbrev has_dashes : Str → Bool
has_dashes [] = false
has_dashes (c ∷ s) = if has_prefix (c ∷ s) (codes "-----") then true else has_dashes s

abbrev ech_block : Library → Option (Str × Str) → Str
ech_block lib none = []
ech_block lib (some (name, bytes)) =
    if str_beq name (codes "ECH KEYS") then lib.base64 bytes else []

unfoldable pub ech_pem_to_base64 : Library → Str → Str
ech_pem_to_base64 lib key =
    if has_dashes (trim_space key) then ech_block lib (lib.pem_decode key) else trim_space key

abbrev key_of_file : Library → File → Str
key_of_file lib (content s) = ech_pem_to_base64 lib s
key_of_file lib other = []

-- The inline key before the file.
abbrev ech_keys : Library → Map Str Any → Str
ech_keys lib ech =
    let key = text_of (lookup (codes "key") ech) in
    let key_path = text_of (lookup (codes "key_path") ech) in
    if not (bool_of (lookup (codes "enabled") ech))
    then []
    else if not (str_beq key [])
    then ech_pem_to_base64 lib key
    else if not (str_beq key_path [])
    then key_of_file lib (lib.read_file key_path)
    else []

abbrev ech_keys_of : Library → Option Any → Str
ech_keys_of lib (some (obj m)) = ech_keys lib (fields m)
ech_keys_of lib other = []

unfoldable pub extract_ech_server_keys : Library → Map Str Any → Str
extract_ech_server_keys lib settings = ech_keys_of lib (lookup (codes "ech") settings)

abbrev short_ids : Library → Option Any → M → M
short_ids lib (some (text s)) m = put "shortIds" (strings (s ∷ [])) m
short_ids lib (some (arr l)) m = put "shortIds" (strings (printed lib l)) m
short_ids lib other m = m

abbrev reality_dest : Library → Option Any → M → M
reality_dest lib none m = m
reality_dest lib (some v) m = put "dest" (str (lib.sprint v)) m

abbrev reality_names : Library → Option Any → M → M
reality_names lib none m = m
reality_names lib (some v) m =
    when (not (is_some (at "dest" m))) (put "dest" (str (lib.sprint v ++ codes ":443")))
      (put "serverNames" (strings (lib.sprint v ∷ [])) m)

abbrev reality_from : Library → AnyMap → M → M
reality_from lib none m = m
reality_from lib (some s) m = reality_names lib (lookup (codes "server_name") s) (
    reality_dest lib (lookup (codes "dest") s) (
      short_ids lib (lookup (codes "short_id") s)
        (copy_found "privateKey" (lookup (codes "private_key") s) m)))

unfoldable pub build_reality_settings : Library → NodeSpec → M
build_reality_settings lib nc = reality_from lib nc.tls_settings (doc (("show", flag false) ∷ []))

abbrev pub certificate : TlsCert → M
certificate tc =
    doc (("certificate", strings (tc.cert_pem ∷ [])) ∷ ("key", strings (tc.key_pem ∷ [])) ∷ [])

abbrev server_name_of : Option Any → M → M
server_name_of none t = t
server_name_of (some v) t = if is_empty_text v then t else put "serverName" (raw v) t

abbrev put_ech : Str → M → M
put_ech keys t = when (not (str_beq keys [])) (put "echServerKeys" (str keys)) t

abbrev from_tls_settings : Library → AnyMap → M → M
from_tls_settings lib none t = t
from_tls_settings lib (some s) t =
    put_ech (extract_ech_server_keys lib s) (server_name_of (lookup (codes "server_name") s) t)

unfoldable pub tls_settings : Library → NodeSpec → TlsCert → M
tls_settings lib nc tc =
    when (has_cert tc) (put "certificates" (tables (ms (certificate tc ∷ [])))) (
      from_tls_settings lib nc.tls_settings (
        when (not (str_beq (name_or_host nc) [])) (put "serverName" (str (name_or_host nc))) empty))

abbrev security : Library → NodeSpec → TlsCert → M → M
security lib nc tc ss =
    if nat_beq nc.tls 1
    then put "tlsSettings" (table (tls_settings lib nc tc)) (put "security" (str (codes "tls")) ss)
    else if nat_beq nc.tls 2
    then put "realitySettings" (table (build_reality_settings lib nc))
        (put "security" (str (codes "reality")) ss)
    else ss

-- base["streamSettings"].(M)["sockopt"].(M), empty where it is missing.
abbrev sockopt_of : Option M → M
sockopt_of none = empty
sockopt_of (some ss) = elim (table_of (at "sockopt" ss)) [ none ↦ empty | some m ↦ m ]

abbrev network_of : NodeSpec → Str
network_of nc = if str_beq nc.network [] then codes "tcp" else nc.network

-- The stream settings that base had are replaced. Its socket options are kept only under the proxy
-- protocol.
unfoldable pub apply_stream_settings : Library → NodeSpec → TlsCert → M → M
apply_stream_settings lib nc tc base =
    let ss = security lib nc tc (
      transport_settings (network_of nc) (items nc.network_settings)
        (doc (("network", str (network_of nc)) ∷ []))) in
    let sockopt = sockopt_of (table_of (at "streamSettings" base)) in
    put "streamSettings"
      (table (
        when (get_proxy_protocol nc)
          (put "sockopt" (table (put "acceptProxyProtocol" (flag true) sockopt))) ss))
      base

abbrev sanitized : Any → Any
sanitized (obj m) = obj (sanitize_empty_arrays m)
sanitized v = v

unfoldable pub sanitized_extra : Map Str Any → Map Str Any
sanitized_extra [] = []
sanitized_extra ((k, v) ∷ l) =
    let rest = sanitized_extra l in
    if str_beq k (codes "extra") then (k, sanitized v) ∷ rest else (k, v) ∷ rest

abbrev sanitized_settings : AnyMap → AnyMap
sanitized_settings none = none
sanitized_settings (some s) = some (sanitized_extra s)

-- The settings of the node as a call of applyStreamSettings leaves them: it empties the map `extra` of
-- xhttp in place.
unfoldable pub settings_after : NodeSpec → AnyMap
settings_after nc =
    if str_beq (network_of nc) (codes "xhttp") || str_beq (network_of nc) (codes "splithttp")
    then sanitized_settings nc.network_settings
    else nc.network_settings
