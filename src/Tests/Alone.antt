-- ===== src/Tests/Alone.antt =====
-- The theorem on standalone configurations, at one of them.
use xboard_node_plus.Prelude.{◌≡◌, ◌↔◌, refl, false, true, none, some, [], codes, ok}
use xboard_node_plus.Standalone.{
  Config, StandaloneConfig, StandaloneNodeConfig, validate_standalone,
}
use xboard_node_plus.Standalone.Accepted.{IsRunnable, validate_standalone_iff}
use xboard_node_plus.Tests.Samples.{both}

abbrev local_node : StandaloneNodeConfig
local_node = record {
  protocol = codes "vless";
  listen_ip = [];
  server_port = 443;
  network = [];
  network_settings = none;
  routes = none;
  custom_route_rules = none;
  cipher = [];
  plugin = [];
  plugin_opt = [];
  server_key = [];
  tls = 1;
  flow = [];
  decryption = [];
  tls_settings = none;
  host = [];
  server_name = [];
  version = 0;
  up_mbps = 0;
  down_mbps = 0;
  obfs = [];
  obfs_password = [];
  congestion_control = [];
  padding_scheme = [];
  transport = [];
  traffic_pattern = [];
  multiplex = none;
  accept_proxy_protocol = false;
}

abbrev alone : StandaloneConfig
alone = record { enabled = true; node = local_node; users = both }

abbrev config : Config
config = record {
  nodes = 0;
  kernel = record {
    kernel_type = [];
    config_dir = [];
    log_level = [];
    geo_data_dir = [];
    custom_outbound = none;
    custom_route = none;
    custom_config = [];
  };
  standalone = some alone;
}

validate_standalone_iff_example : (validate_standalone config ≡ ok tt) ↔ IsRunnable config alone
validate_standalone_iff_example = validate_standalone_iff config alone refl
