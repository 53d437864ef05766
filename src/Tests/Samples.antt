-- ===== src/Tests/Samples.antt =====
-- The users and the configurations of the tests.
use xboard_node_plus.Panel
use xboard_node_plus.Prelude.{false, none, some, codes, List, [], ◌∷◌}
use xboard_node_plus.Model.{NodeSpec, UserSpec}

abbrev pub panel_node : Panel.NodeConfig
panel_node = record {
  node_id = 0;
  base_config = record { push_interval = 0; pull_interval = 0 };
  protocol = codes "vless";
  listen_ip = [];
  server_port = 443;
  network = [];
  network_settings = none;
  routes = none;
  kernel_type = codes "xray";
  kernel_log_level = [];
  custom_outbounds = none;
  custom_routes = none;
  custom_route_rules = none;
  cert_config = none;
  auto_tls = false;
  domain = [];
  cipher = [];
  plugin = [];
  plugin_opt = [];
  server_key = [];
  tls = 0;
  flow = [];
  decryption = [];
  tls_settings = none;
  host = [];
  server_name = [];
  version = 0;
  up_mbps = 0;
  down_mbps = 0;
  obfs = [];
  obfs_password = [];
  congestion_control = [];
  padding_scheme = [];
  transport = [];
  traffic_pattern = [];
  multiplex = none;
  accept_proxy_protocol = false;
}

-- With an empty list of routes that is not nil.
abbrev pub node : NodeSpec
node = record {
  protocol = codes "trojan";
  listen_ip = [];
  server_port = 8443;
  network = [];
  network_settings = none;
  routes = some [];
  kernel_type = [];
  kernel_log_level = [];
  custom_outbounds = none;
  custom_routes = none;
  custom_route_rules = none;
  cert_config = none;
  auto_tls = false;
  domain = [];
  cipher = [];
  plugin = [];
  plugin_opt = [];
  server_key = [];
  tls = 0;
  flow = [];
  decryption = [];
  tls_settings = none;
  host = [];
  server_name = [];
  version = 0;
  up_mbps = 0;
  down_mbps = 0;
  obfs = [];
  obfs_password = [];
  congestion_control = [];
  padding_scheme = [];
  transport = [];
  traffic_pattern = [];
  multiplex = none;
  accept_proxy_protocol = false;
}

abbrev pub ann : UserSpec
ann = record { id = 1; uuid = codes "ann"; speed_limit = 10; device_limit = 1 }

abbrev pub bob : UserSpec
bob = record { id = 2; uuid = codes "bob"; speed_limit = 0; device_limit = 0 }

-- Ann with a new UUID.
abbrev pub new_ann : UserSpec
new_ann = record { id = 1; uuid = codes "anna"; speed_limit = 20; device_limit = 2 }

abbrev pub both : List UserSpec
both = ann ∷ bob ∷ []
