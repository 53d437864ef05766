-- ===== src/Model/Conversion.antt =====
-- internal/model/panel.go: between the panel's wire types and the node's own. A nil pointer is
-- `none`, on which both directions return nil.
pub mod RoundTrip
use mathlib.Core.Option
use xboard_node_plus.Panel
use xboard_node_plus.Prelude.{[], false, Option, some, map}
use xboard_node_plus.Model.Values.{Slice, items, clone_nonempty, clone_map_slice}
use xboard_node_plus.Model.{
  UserSpec, RouteMatch, CustomRouteRule, RouteRule, OutboundConfig, BrutalConfig, MultiplexConfig,
  CertConfig, NodeSpec,
}

pub route_match_from_panel : Panel.RouteMatch → RouteMatch
route_match_from_panel r = record {
  domains = clone_nonempty r.domains;
  domain_suffixes = clone_nonempty r.domain_suffixes;
  ip_cidrs = clone_nonempty r.ip_cidrs;
  ports = clone_nonempty r.ports;
  networks = clone_nonempty r.networks;
  source_cidrs = clone_nonempty r.source_cidrs;
  source_ports = clone_nonempty r.source_ports;
}

pub custom_route_rule_from_panel : Panel.CustomRouteRule → CustomRouteRule
unfolding route_match_from_panel
custom_route_rule_from_panel r = record {
  name = r.name;
  disabled = r.disabled;
  match = route_match_from_panel r.match;
  action = record { action_type = r.action.action_type; target = r.action.target };
}

pub route_rule_from_panel : Panel.RouteRule → RouteRule
route_rule_from_panel r = record {
  id = r.id;
  match = clone_nonempty r.match;
  action = r.action;
  action_value = r.action_value;
}

pub outbound_from_panel : Panel.OutboundConfig → OutboundConfig
outbound_from_panel o = record {
  tag = o.tag;
  protocol = o.protocol;
  settings = clone_nonempty o.settings;
  proxy_tag = o.proxy_tag;
}

pub brutal_from_panel : Panel.BrutalConfig → BrutalConfig
brutal_from_panel b = record { enabled = b.enabled; up_mbps = b.up_mbps; down_mbps = b.down_mbps }

pub multiplex_from_panel : Panel.MultiplexConfig → MultiplexConfig
multiplex_from_panel m = record {
  enabled = m.enabled;
  protocol = m.protocol;
  max_connections = m.max_connections;
  min_streams = m.min_streams;
  max_streams = m.max_streams;
  padding = m.padding;
  brutal = Option.map brutal_from_panel m.brutal;
}

pub cert_from_panel : Panel.CertConfig → CertConfig
cert_from_panel c = record {
  auto_tls = false;
  cert_dir = [];
  cert_mode = c.cert_mode;
  domain = c.domain;
  email = c.email;
  dns_provider = c.dns_provider;
  dns_env = c.dns_env;
  http_port = c.http_port;
  cert_file = c.cert_file;
  key_file = c.key_file;
  cert_content = c.cert_content;
  key_content = c.key_content;
}

pub node_spec_from_panel : Panel.NodeConfig → NodeSpec
node_spec_from_panel n = record {
  protocol = n.protocol;
  listen_ip = n.listen_ip;
  server_port = n.server_port;
  network = n.network;
  network_settings = clone_nonempty n.network_settings;
  routes = some (map route_rule_from_panel (items n.routes));
  kernel_type = n.kernel_type;
  kernel_log_level = n.kernel_log_level;
  custom_outbounds = some (map outbound_from_panel (items n.custom_outbounds));
  custom_routes = clone_map_slice n.custom_routes;
  custom_route_rules = some (map custom_route_rule_from_panel (items n.custom_route_rules));
  cert_config = Option.map cert_from_panel n.cert_config;
  auto_tls = n.auto_tls;
  domain = n.domain;
  cipher = n.cipher;
  plugin = n.plugin;
  plugin_opt = n.plugin_opt;
  server_key = n.server_key;
  tls = n.tls;
  flow = n.flow;
  decryption = n.decryption;
  tls_settings = clone_nonempty n.tls_settings;
  host = n.host;
  server_name = n.server_name;
  version = n.version;
  up_mbps = n.up_mbps;
  down_mbps = n.down_mbps;
  obfs = n.obfs;
  obfs_password = n.obfs_password;
  congestion_control = n.congestion_control;
  padding_scheme = n.padding_scheme;
  transport = n.transport;
  traffic_pattern = n.traffic_pattern;
  multiplex = Option.map multiplex_from_panel n.multiplex;
  accept_proxy_protocol = n.accept_proxy_protocol;
}

pub user_from_panel : Panel.User → UserSpec
user_from_panel u = record {
  id = u.id;
  uuid = u.uuid;
  speed_limit = u.speed_limit;
  device_limit = u.device_limit;
}

-- NodeSpecFromPanel, its nil check included
pub from_panel : Option Panel.NodeConfig → Option NodeSpec
unfolding node_spec_from_panel
from_panel nc = Option.map node_spec_from_panel nc

pub user_specs_from_panel : Slice Panel.User → Slice UserSpec
unfolding user_from_panel
user_specs_from_panel users = Option.map (map user_from_panel) users

pub route_match_to_panel : RouteMatch → Panel.RouteMatch
route_match_to_panel r = record {
  domains = clone_nonempty r.domains;
  domain_suffixes = clone_nonempty r.domain_suffixes;
  ip_cidrs = clone_nonempty r.ip_cidrs;
  ports = clone_nonempty r.ports;
  networks = clone_nonempty r.networks;
  source_cidrs = clone_nonempty r.source_cidrs;
  source_ports = clone_nonempty r.source_ports;
}

pub custom_route_rule_to_panel : CustomRouteRule → Panel.CustomRouteRule
unfolding route_match_to_panel
custom_route_rule_to_panel r = record {
  name = r.name;
  disabled = r.disabled;
  match = route_match_to_panel r.match;
  action = record { action_type = r.action.action_type; target = r.action.target };
}

pub route_rule_to_panel : RouteRule → Panel.RouteRule
route_rule_to_panel r = record {
  id = r.id;
  match = clone_nonempty r.match;
  action = r.action;
  action_value = r.action_value;
}

pub outbound_to_panel : OutboundConfig → Panel.OutboundConfig
outbound_to_panel o = record {
  tag = o.tag;
  protocol = o.protocol;
  settings = clone_nonempty o.settings;
  proxy_tag = o.proxy_tag;
}

pub brutal_to_panel : BrutalConfig → Panel.BrutalConfig
brutal_to_panel b = record { enabled = b.enabled; up_mbps = b.up_mbps; down_mbps = b.down_mbps }

pub multiplex_to_panel : MultiplexConfig → Panel.MultiplexConfig
multiplex_to_panel m = record {
  enabled = m.enabled;
  protocol = m.protocol;
  max_connections = m.max_connections;
  min_streams = m.min_streams;
  max_streams = m.max_streams;
  padding = m.padding;
  brutal = Option.map brutal_to_panel m.brutal;
}

pub cert_to_panel : CertConfig → Panel.CertConfig
cert_to_panel c = record {
  cert_mode = c.cert_mode;
  domain = c.domain;
  email = c.email;
  dns_provider = c.dns_provider;
  dns_env = c.dns_env;
  http_port = c.http_port;
  cert_file = c.cert_file;
  key_file = c.key_file;
  cert_content = c.cert_content;
  key_content = c.key_content;
}

pub node_spec_to_panel : NodeSpec → Panel.NodeConfig
node_spec_to_panel n = record {
  node_id = 0;
  base_config = record { push_interval = 0; pull_interval = 0 };
  protocol = n.protocol;
  listen_ip = n.listen_ip;
  server_port = n.server_port;
  network = n.network;
  network_settings = clone_nonempty n.network_settings;
  routes = some (map route_rule_to_panel (items n.routes));
  kernel_type = n.kernel_type;
  kernel_log_level = n.kernel_log_level;
  custom_outbounds = some (map outbound_to_panel (items n.custom_outbounds));
  custom_routes = clone_map_slice n.custom_routes;
  custom_route_rules = some (map custom_route_rule_to_panel (items n.custom_route_rules));
  cert_config = Option.map cert_to_panel n.cert_config;
  auto_tls = n.auto_tls;
  domain = n.domain;
  cipher = n.cipher;
  plugin = n.plugin;
  plugin_opt = n.plugin_opt;
  server_key = n.server_key;
  tls = n.tls;
  flow = n.flow;
  decryption = n.decryption;
  tls_settings = clone_nonempty n.tls_settings;
  host = n.host;
  server_name = n.server_name;
  version = n.version;
  up_mbps = n.up_mbps;
  down_mbps = n.down_mbps;
  obfs = n.obfs;
  obfs_password = n.obfs_password;
  congestion_control = n.congestion_control;
  padding_scheme = n.padding_scheme;
  transport = n.transport;
  traffic_pattern = n.traffic_pattern;
  multiplex = Option.map multiplex_to_panel n.multiplex;
  accept_proxy_protocol = n.accept_proxy_protocol;
}

pub user_to_panel : UserSpec → Panel.User
user_to_panel u = record {
  id = u.id;
  uuid = u.uuid;
  speed_limit = u.speed_limit;
  device_limit = u.device_limit;
}

-- (*NodeSpec).ToPanel, its nil check included
pub to_panel : Option NodeSpec → Option Panel.NodeConfig
unfolding node_spec_to_panel
to_panel n = Option.map node_spec_to_panel n

pub user_specs_to_panel : Slice UserSpec → Slice Panel.User
unfolding user_to_panel
user_specs_to_panel users = Option.map (map user_to_panel) users
