-- ===== src/Build/SingBox/Outbounds.antt =====
-- outboundConfigToSingbox and the list of outbounds of buildConfig.
use xboard_node_plus.Prelude.{
  Str, [], ◌∷◌, Option, none, some, if◌then◌else◌, Map, map, str_beq, lookup, str_eq, codes, not,
}
use xboard_node_plus.Model.Values.{Any, arr, text, items}
use xboard_node_plus.Model.{OutboundConfig}
use xboard_node_plus.Validation.Tags.{maps_of}
use xboard_node_plus.Build.{
  without, M, empty, raw, tables, ms, str, num, set, put, doc, copy_into, when,
}
use xboard_node_plus.Build.Atoi.{atoi_value}
use xboard_node_plus.Build.Library.{Library}

abbrev endpoint_of : Library → Str → Option (Str × Str) → M → M
endpoint_of lib ep none peer = put "address" (str ep) peer
endpoint_of lib ep (some (host, port)) peer =
    put "port" (num (atoi_value port)) (put "address" (str host) peer)

-- An endpoint that is no string is dropped.
abbrev peer_field : Library → Str → Any → M → M
peer_field lib k (text s) peer =
    if str_beq k (codes "endpoint")
    then endpoint_of lib s (lib.split_host_port s) peer
    else set k (raw (text s)) peer
peer_field lib k v peer = if str_beq k (codes "endpoint") then peer else set k (raw v) peer

unfoldable pub peer_of : Library → M → Map Str Any → M
peer_of lib peer [] = peer
peer_of lib peer ((k, v) ∷ l) = peer_of lib (peer_field lib k v peer) l

-- oc.Settings["peers"].([]any)
abbrev add_peers : Library → Option Any → M → M
add_peers lib (some (arr l)) m = put "peers" (tables (ms (map (peer_of lib empty) (maps_of l)))) m
add_peers lib other m = m

abbrev add_private_key : Option Any → M → M
add_private_key none m = m
add_private_key (some v) m = put "private_key" (raw v) m

abbrev settings_into : Library → Str → Map Str Any → M → M
settings_into lib protocol settings m =
    if str_beq protocol (codes "wireguard")
    then copy_into
        (add_peers lib (lookup (codes "peers") settings)
          (add_private_key (lookup (codes "secret_key") settings) m))
        (without (codes "secret_key" ∷ codes "peers" ∷ []) settings)
    else copy_into m settings

unfoldable pub outbound_config_to_singbox : Library → OutboundConfig → M
outbound_config_to_singbox lib oc =
    let m = doc (("type", str oc.protocol) ∷ ("tag", str oc.tag) ∷ []) in
    when (not (str_beq oc.proxy_tag [])) (put "proxy_tag" (str oc.proxy_tag))
      (settings_into lib oc.protocol (items oc.settings) m)
