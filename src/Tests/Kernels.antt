-- ===== src/Tests/Kernels.antt =====
-- The theorems on the configurations of the kernels, at concrete nodes.
use xboard_node_plus.Prelude.{
  Str, Option, Map, inl, has_prefix, ◌+◌, ◌≡◌, ◌≢◌, refl, ◌≤◌, ℕ, Bool, true, false, List, [], ◌∷◌,
  ◌++◌, none, some, codes, str_beq, lookup, or_else, All, any, trim_space, atoi, split,
}
use xboard_node_plus.Model.{NodeSpec, CustomRouteRule}
use xboard_node_plus.Model.Values.{Any, text, null, items}
use xboard_node_plus.Service.Core.{TlsCert}
use xboard_node_plus.Validation.Spec.{KernelConfig}
use xboard_node_plus.Validation.Tags.{missing, content}
use xboard_node_plus.Build.{M, Value, strings, empty, at, get, str, table, tables, ms}
use xboard_node_plus.Build.Added.{Has}
use xboard_node_plus.Build.Decision.{decide, tagged}
use xboard_node_plus.Build.Library.{Library}
use xboard_node_plus.Build.SingBox as SingBox
use xboard_node_plus.Build.SingBox.Fallback.{
  Target, build_trojan_fallback, trojan_fallback_direct_routes, normalize_trojan_fallback,
  parse_trojan_fallback_address, make_trojan_fallback,
}
use xboard_node_plus.Build.SingBox.Fallback.Bounds.{build_trojan_fallback-bounds}
use xboard_node_plus.Build.SingBox.Inbound as SingBoxInbound
use xboard_node_plus.Build.SingBox.Inbound.Users.{ServesUsers, build_inbound-ServesUsers}
use xboard_node_plus.Build.SingBox.Merge.Kept as SingBoxKept
use xboard_node_plus.Build.SingBox.Routes as SingBoxRoutes
use xboard_node_plus.Build.SingBox.Safety.{
  build_config-Has, built_rules, inbounds_of, log_section, geo_cache, Unchanged, built,
}
use xboard_node_plus.Build.SingBox.Safety.Private.{
  singbox_private_blocked, MatchesRanges, private_ipv4, private_ipv6,
}
use xboard_node_plus.Build.SingBox.Blocked.{LeavesBlock}
use xboard_node_plus.Build.CustomFile.{FileSays}
use xboard_node_plus.Build.Fields.{from_file}
use xboard_node_plus.Build.Targets.{named_tag, compile-GoesTo}
use xboard_node_plus.Build.Xray.Inbound as XrayInbound
use xboard_node_plus.Build.Xray.Inbound.Security.{HasSecurity, build_trojan-HasSecurity}
use xboard_node_plus.Build.Xray.Inbound.Users.{ServesClients, build_inbound-ServesClients}
use xboard_node_plus.Build.Xray.Routes as XrayRoutes
use xboard_node_plus.Tests.Samples.{node, both}

-- Functions that stand for the libraries: no address is split, no file is there.
abbrev library : Library
library = record {
  sprint = λ v. [];
  truncate = λ b. b;
  itoa = λ n. (b'0' + n) ∷ [];
  equal_fold = str_beq;
  split_host_port = λ s. none;
  parse_ip = λ s. none;
  base64 = λ s. s;
  join_path = λ a b. a ++ b;
  decode_reality = λ m. record {
    private_key = [];
    short_id = null;
    dest = [];
    server_name = [];
    server_port = 0;
  };
  read_file = λ s. missing;
  decode_json = λ s. none;
  decode_yaml = λ s. none;
  pem_decode = λ s. none;
}

abbrev local : KernelConfig
local = record {
  kernel_type = codes "auto";
  config_dir = [];
  log_level = codes "info";
  geo_data_dir = [];
  custom_outbound = none;
  custom_route = none;
  custom_config = codes "custom.json";
}

abbrev no_cert : TlsCert
no_cert = record { cert_pem = []; key_pem = [] }

abbrev socks_node : NodeSpec
socks_node = record node { protocol = codes "socks" }

abbrev socks_inbound : M
socks_inbound = or_else (SingBoxInbound.build_inbound library socks_node both no_cert) empty

socks_built : SingBoxInbound.build_inbound library socks_node both no_cert ≡ some socks_inbound
unfolding SingBoxInbound.build_inbound lookup str_beq
socks_built = refl

build_inbound-ServesUsers_example :
    ServesUsers library socks_node both (codes "socks") socks_inbound
build_inbound-ServesUsers_example =
    build_inbound-ServesUsers library socks_node both no_cert socks_inbound socks_built

abbrev xray_inbound : M
xray_inbound = or_else (XrayInbound.build_inbound library socks_node both no_cert).0 empty

xray_built : (XrayInbound.build_inbound library socks_node both no_cert).0 ≡ some xray_inbound
unfolding XrayInbound.build_inbound lookup str_beq
xray_built = refl

build_inbound-ServesClients_example :
    ServesClients library socks_node both (codes "socks") xray_inbound
build_inbound-ServesClients_example =
    build_inbound-ServesClients library socks_node both no_cert xray_inbound xray_built

-- A rule matches the connection when it lists the first private range.
abbrev in_ten : Str → ℕ → Bool
in_ten range c = str_beq range (codes "10.0.0.0/8")

abbrev lists : Option Value → Bool
lists (some (strings l)) = any (λ r. in_ten r 7) l
lists other = false

abbrev by_address : M → ℕ → Bool
by_address rule c = lists (at "ip_cidr" rule)

by_address-MatchesRanges : MatchesRanges in_ten by_address
unfolding get str_beq
by_address-MatchesRanges tag ranges c = refl

-- A custom file with DNS settings alone.
abbrev dns_library : Library
dns_library = record library {
  read_file = λ s. content (codes "{}");
  decode_json = λ s. some ((codes "dns", null) ∷ []);
}

abbrev dns_file : Option (Map Str Any)
dns_file = some ((codes "dns", null) ∷ [])

dns_file-FileSays : FileSays dns_library local.custom_config dns_file
unfolding trim_space has_prefix
dns_file-FileSays = (codes "{}", (λ e. cc), (λ e. cc), refl, inl (refl, refl))

socks-LeavesBlock : LeavesBlock dns_library local socks_node
socks-LeavesBlock = record { structured = tt; static = tt }

no_custom_rule :
    any
      (λ r. by_address r 7)
      (SingBoxKept.file_rules dns_file
        ++ (SingBoxRoutes.compile_custom (items socks_node.custom_route_rules)
            ++ SingBox.raw_routes dns_library local socks_node))
    ≡ false
unfolding SingBoxRoutes.compile_custom SingBox.raw_routes lookup str_beq
    trojan_fallback_direct_routes
no_custom_rule = refl

in_private : any (λ r. in_ten r 7) (private_ipv4 ++ private_ipv6) ≡ true
unfolding str_beq
in_private = refl

singbox_private_blocked_example :
    (route : M) × (rules : List M) × (outs : List M) × (at "route"
        (SingBox.build_config dns_library local socks_node both no_cert)
      ≡ some (table route))
    × (at "rules" route ≡ some (tables (ms rules)))
    × (at "outbounds" (SingBox.build_config dns_library local socks_node both no_cert)
        ≡ some (tables (ms outs)))
    × (decide by_address "outbound" (codes "direct") rules 7 ≡ codes "block")
    × (tagged (codes "block") outs ≡ some SingBox.block_outbound)
singbox_private_blocked_example =
    singbox_private_blocked in_ten by_address dns_library local socks_node both no_cert dns_file
      dns_file-FileSays by_address-MatchesRanges socks-LeavesBlock 7 no_custom_rule in_private

build_config-Has_example :
    Has "route"
      (SingBox.outbounds dns_library local socks_node ++ SingBoxKept.file_outbounds dns_file)
      (SingBoxKept.file_rules dns_file ++ built_rules dns_library local socks_node)
      (SingBox.build_config dns_library local socks_node both no_cert)
    × (at "inbounds" (SingBox.build_config dns_library local socks_node both no_cert)
        ≡ inbounds_of dns_library local socks_node
            (SingBoxInbound.build_inbound dns_library socks_node both no_cert))
    × (at "log" (SingBox.build_config dns_library local socks_node both no_cert)
        ≡ some (table (log_section local)))
    × (at "dns" (SingBox.build_config dns_library local socks_node both no_cert)
        ≡ from_file (SingBoxKept.in_file "dns" dns_file) none)
    × (at "experimental" (SingBox.build_config dns_library local socks_node both no_cert)
        ≡ from_file
            (SingBoxKept.in_file "experimental" dns_file)
            (geo_cache dns_library local socks_node))
    × Unchanged dns_library local socks_node dns_file
        (built dns_library local socks_node both no_cert)
        (SingBox.build_config dns_library local socks_node both no_cert)
build_config-Has_example =
    build_config-Has dns_library local socks_node both no_cert dns_file dns_file-FileSays

abbrev site_node : NodeSpec
site_node = record node {
  tls_settings = some ((codes "fallback", text (codes "127.0.0.1:8080")) ∷ []);
}

abbrev site : Target
site = record { server = codes "127.0.0.1"; server_port = 8080 }

site_fallback : build_trojan_fallback library site_node ≡ some site
unfolding build_trojan_fallback normalize_trojan_fallback parse_trojan_fallback_address
    make_trojan_fallback lookup str_beq trim_space split atoi
site_fallback = refl

build_trojan_fallback-bounds_example :
    (site.server ≢ []) × (1 ≤ site.server_port) × (site.server_port ≤ 65535)
build_trojan_fallback-bounds_example =
    build_trojan_fallback-bounds library site_node site site_fallback

build_trojan-HasSecurity_example :
    HasSecurity (XrayInbound.build_trojan library node both no_cert empty).0
build_trojan-HasSecurity_example = build_trojan-HasSecurity library node both no_cert empty

abbrev relay_rule : CustomRouteRule
relay_rule = record {
  name = [];
  disabled = false;
  match = record {
    domains = some (codes "example.org" ∷ []);
    domain_suffixes = none;
    ip_cidrs = none;
    ports = some (codes "80-443" ∷ []);
    networks = none;
    source_cidrs = none;
    source_ports = none;
  };
  action = record { action_type = codes "route"; target = codes "relay" };
}

compile-GoesTo_example :
    All
      (λ m. at "outbound" m ≡ some (str (named_tag relay_rule.action)))
      (SingBoxRoutes.compile_custom_route_rule relay_rule)
    × All
        (λ m. at "outboundTag" m ≡ some (str (named_tag relay_rule.action)))
        (XrayRoutes.compile_custom_route_rule relay_rule)
compile-GoesTo_example = compile-GoesTo relay_rule refl
