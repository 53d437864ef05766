-- ===== src/Panel.antt =====
-- The wire types of internal/panel/types.go, as the decoded JSON fills them.
use xboard_node_plus.Model.Values.{Slice, AnyMap}
use xboard_node_plus.Prelude.{ℕ, Bool, Option, Str, Map}

pub record User : Type 0 where
  pub id : ℕ
  pub uuid : Str
  pub speed_limit : ℕ
  pub device_limit : ℕ

pub record BaseConfig : Type 0 where
  pub push_interval : ℕ
  pub pull_interval : ℕ

pub record RouteMatch : Type 0 where
  pub domains : Slice Str
  pub domain_suffixes : Slice Str
  pub ip_cidrs : Slice Str
  pub ports : Slice Str
  pub networks : Slice Str
  pub source_cidrs : Slice Str
  pub source_ports : Slice Str

pub record RouteAction : Type 0 where
  pub action_type : Str
  pub target : Str

pub record CustomRouteRule : Type 0 where
  pub name : Str
  pub disabled : Bool
  pub match : RouteMatch
  pub action : RouteAction

pub record RouteRule : Type 0 where
  pub id : ℕ
  pub match : Slice Str
  pub action : Str
  pub action_value : Str

pub record OutboundConfig : Type 0 where
  pub tag : Str
  pub protocol : Str
  pub settings : AnyMap
  pub proxy_tag : Str

pub record BrutalConfig : Type 0 where
  pub enabled : Bool
  pub up_mbps : ℕ
  pub down_mbps : ℕ

pub record MultiplexConfig : Type 0 where
  pub enabled : Bool
  pub protocol : Str
  pub max_connections : ℕ
  pub min_streams : ℕ
  pub max_streams : ℕ
  pub padding : Bool
  pub brutal : Option BrutalConfig

pub record CertConfig : Type 0 where
  pub cert_mode : Str
  pub domain : Str
  pub email : Str
  pub dns_provider : Str
  pub dns_env : Option (Map Str Str)
  pub http_port : ℕ
  pub cert_file : Str
  pub key_file : Str
  pub cert_content : Str
  pub key_content : Str

pub record NodeConfig : Type 0 where
  pub node_id : ℕ
  pub base_config : BaseConfig
  pub protocol : Str
  pub listen_ip : Str
  pub server_port : ℕ
  pub network : Str
  pub network_settings : AnyMap
  pub routes : Slice RouteRule
  pub kernel_type : Str
  pub kernel_log_level : Str
  pub custom_outbounds : Slice OutboundConfig
  pub custom_routes : Slice AnyMap
  pub custom_route_rules : Slice CustomRouteRule
  pub cert_config : Option CertConfig
  pub auto_tls : Bool
  pub domain : Str
  pub cipher : Str
  pub plugin : Str
  pub plugin_opt : Str
  pub server_key : Str
  pub tls : ℕ
  pub flow : Str
  pub decryption : Str
  pub tls_settings : AnyMap
  pub host : Str
  pub server_name : Str
  pub version : ℕ
  pub up_mbps : ℕ
  pub down_mbps : ℕ
  pub obfs : Str
  pub obfs_password : Str
  pub congestion_control : Str
  pub padding_scheme : Str
  pub transport : Str
  pub traffic_pattern : Str
  pub multiplex : Option MultiplexConfig
  pub accept_proxy_protocol : Bool
