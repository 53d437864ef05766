-- ===== src/Build/Settings.antt =====
-- What the builders of both kernels read of a node's settings.
use xboard_node_plus.Prelude.{
  Str, Bool, true, false, List, [], ◌∷◌, Option, some, if◌then◌else◌, str_beq, str_eq, lookup,
  codes,
}
use xboard_node_plus.Model.Values.{Any, Items, bool, nil, cons, items}
use xboard_node_plus.Model.{NodeSpec}
use xboard_node_plus.Build.Library.{Library}

-- v.(bool), false for another type
abbrev pub bool_of : Option Any → Bool
bool_of (some (bool b)) = b
bool_of other = false

-- The server name of the node, or else its host.
abbrev pub name_or_host : NodeSpec → Str
name_or_host nc = if str_beq nc.server_name [] then nc.host else nc.server_name

abbrev pub printed : Library → Items → List Str
printed lib nil = []
printed lib (cons v l) = lib.sprint v ∷ printed lib l

-- GetProxyProtocol of internal/model/types.go.
unfoldable pub get_proxy_protocol : NodeSpec → Bool
get_proxy_protocol n =
    if n.accept_proxy_protocol
    then true
    else bool_of (lookup (codes "acceptProxyProtocol") (items n.network_settings))
