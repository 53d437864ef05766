-- ===== src/Standalone.antt =====
-- A node that runs without a panel: internal/config/standalone.go and internal/model/standalone.go.
-- The records for routes, rules, multiplexing and users have the fields of those of internal/model,
-- and stand for both; a conversion copies their fields.
pub mod Accepted
use xboard_node_plus.Prelude.{
  ℕ, ◌+◌, Bool, true, false, Str, List, [], ◌∷◌, Option, none, some, map, Map, KeySet, not, ◌||◌,
  has, insert, is_pos, ltb, leb, str_beq, nat_eq, str_eq, Result, ok, err, ◌>>◌, reject_if,
  if◌then◌else◌, nat_beq, map_err,
}
use xboard_node_plus.Model.{
  NodeSpec, UserSpec, RouteRule, RouteMatch, CustomRouteRule, MultiplexConfig,
}
use xboard_node_plus.Model.Values.{Slice, AnyMap, Any, items, clone_nonempty}
use xboard_node_plus.Validation.{Invalid}
use xboard_node_plus.Validation.Spec.{KernelConfig, validate_node_spec}
use xboard_node_plus.Validation.Tags.{File}

pub record StandaloneNodeConfig : Type 0 where
  pub protocol : Str
  pub listen_ip : Str
  pub server_port : ℕ
  pub network : Str
  pub network_settings : AnyMap
  pub routes : Slice RouteRule
  pub custom_route_rules : Slice CustomRouteRule
  pub cipher : Str
  pub plugin : Str
  pub plugin_opt : Str
  pub server_key : Str
  pub tls : ℕ
  pub flow : Str
  pub decryption : Str
  pub tls_settings : AnyMap
  pub host : Str
  pub server_name : Str
  pub version : ℕ
  pub up_mbps : ℕ
  pub down_mbps : ℕ
  pub obfs : Str
  pub obfs_password : Str
  pub congestion_control : Str
  pub padding_scheme : Str
  pub transport : Str
  pub traffic_pattern : Str
  pub multiplex : Option MultiplexConfig
  pub accept_proxy_protocol : Bool

pub record StandaloneConfig : Type 0 where
  pub enabled : Bool
  pub node : StandaloneNodeConfig
  pub users : List UserSpec

-- What is read here of the configuration: the nodes by their number.
pub record Config : Type 0 where
  pub nodes : ℕ
  pub kernel : KernelConfig
  pub standalone : Option StandaloneConfig

unfoldable pub is_standalone : Config → Bool
is_standalone c = elim c.standalone [ none ↦ false | some s ↦ s.enabled ]

-- The errors of validateStandalone, with the index of a user.
pub data Refusal : Type 0 where
  standalone_required nodes_not_supported protocol_required bad_server_port bad_tls users_empty :
      Refusal
  bad_id uuid_required duplicate_id duplicate_uuid : ℕ → Refusal

-- The loop over the users from index i.
unfoldable pub check_standalone_users :
    ℕ → KeySet ℕ → KeySet Str → List UserSpec → Result Refusal (Unit {0})
check_standalone_users i ids uuids [] = ok tt
check_standalone_users i ids uuids (u ∷ l) =
    reject_if (not (is_pos u.id)) (bad_id i)
    >> (reject_if (str_beq u.uuid []) (uuid_required i)
        >> (reject_if (has u.id ids) (duplicate_id i)
            >> (reject_if (has u.uuid uuids) (duplicate_uuid i)
                >> check_standalone_users (i + 1) (insert u.id tt ids) (insert u.uuid tt uuids) l)))

abbrev no_users : List UserSpec → Bool
no_users [] = true
no_users (u ∷ l) = false

-- A port that is an int outside 1 to 65535, a TLS mode outside 0 to 2.
abbrev is_bad_port : ℕ → Bool
is_bad_port p = not (is_pos p) || ltb 65535 p

abbrev check_standalone : ℕ → StandaloneConfig → Result Refusal (Unit {0})
check_standalone nodes s =
    reject_if (ltb 0 nodes) nodes_not_supported
    >> (reject_if (str_beq s.node.protocol []) protocol_required
        >> (reject_if (is_bad_port s.node.server_port) bad_server_port
            >> (reject_if (ltb 2 s.node.tls) bad_tls
                >> (reject_if (no_users s.users) users_empty
                    >> check_standalone_users 0 [] [] s.users))))

unfoldable pub validate_standalone : Config → Result Refusal (Unit {0})
validate_standalone c = elim c.standalone [
  | none ↦ err standalone_required
  | some s ↦ check_standalone c.nodes s
]

abbrev cloned_route : RouteRule → RouteRule
cloned_route r = record {
  id = r.id;
  match = clone_nonempty r.match;
  action = r.action;
  action_value = r.action_value;
}

abbrev cloned_rule : CustomRouteRule → CustomRouteRule
cloned_rule r = record {
  name = r.name;
  disabled = r.disabled;
  match = record {
    domains = clone_nonempty r.match.domains;
    domain_suffixes = clone_nonempty r.match.domain_suffixes;
    ip_cidrs = clone_nonempty r.match.ip_cidrs;
    ports = clone_nonempty r.match.ports;
    networks = clone_nonempty r.match.networks;
    source_cidrs = clone_nonempty r.match.source_cidrs;
    source_ports = clone_nonempty r.match.source_ports;
  };
  action = r.action;
}

abbrev node_of : Config → StandaloneNodeConfig → NodeSpec
node_of cfg n = record {
  protocol = n.protocol;
  listen_ip = n.listen_ip;
  server_port = n.server_port;
  network = n.network;
  network_settings = clone_nonempty n.network_settings;
  routes = some (map cloned_route (items n.routes));
  kernel_type = cfg.kernel.kernel_type;
  kernel_log_level = cfg.kernel.log_level;
  custom_outbounds = none;
  custom_routes = none;
  custom_route_rules = some (map cloned_rule (items n.custom_route_rules));
  cert_config = none;
  auto_tls = false;
  domain = [];
  cipher = n.cipher;
  plugin = n.plugin;
  plugin_opt = n.plugin_opt;
  server_key = n.server_key;
  tls = n.tls;
  flow = n.flow;
  decryption = n.decryption;
  tls_settings = clone_nonempty n.tls_settings;
  host = n.host;
  server_name = n.server_name;
  version = n.version;
  up_mbps = n.up_mbps;
  down_mbps = n.down_mbps;
  obfs = n.obfs;
  obfs_password = n.obfs_password;
  congestion_control = n.congestion_control;
  padding_scheme = n.padding_scheme;
  transport = n.transport;
  traffic_pattern = n.traffic_pattern;
  multiplex = n.multiplex;
  accept_proxy_protocol = n.accept_proxy_protocol;
}

unfoldable pub node_spec_from_standalone : Config → Option NodeSpec
node_spec_from_standalone cfg = elim cfg.standalone [
  | none ↦ none
  | some s ↦ some (node_of cfg s.node)
]

unfoldable pub user_specs_from_standalone : Config → Slice UserSpec
user_specs_from_standalone cfg = elim cfg.standalone [ none ↦ none | some s ↦ some s.users ]

abbrev validated : Option NodeSpec → Result Invalid (Unit {0}) → Result Invalid (Option NodeSpec)
validated spec (ok u) = ok spec
validated spec (err e) = err e

unfoldable pub node_spec_from_standalone_validated :
    (Str → File)
    → (Str → Option (Map Str Any))
    → (Str → Option (Map Str Any))
    → Config
    → Result Invalid (Option NodeSpec)
node_spec_from_standalone_validated read_file decode_json decode_yaml cfg =
    let spec = node_spec_from_standalone cfg in
    validated spec (validate_node_spec read_file decode_json decode_yaml spec cfg.kernel)
