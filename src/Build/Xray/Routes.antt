-- ===== src/Build/Xray/Routes.antt =====
-- buildRouting and the rules that it compiles.
pub mod Targets
use xboard_node_plus.Prelude.{
  Str, Bool, false, List, [], ◌∷◌, ◌++◌, none, some, if◌then◌else◌, map, str_beq, trim_space, codes,
  ◌||◌, contains_byte, has_prefix, filter, not,
}
use xboard_node_plus.Model.Values.{Slice, items}
use xboard_node_plus.Model.{RouteRule, RouteAction, RouteMatch, CustomRouteRule}
use xboard_node_plus.Build.{true, M, Value, str, doc, tables, ms, strings, texts, trim_star}
use Prim.Native.String.{String}

unfoldable pub xray_outbound_for_action : RouteAction → Str
xray_outbound_for_action a =
    if str_beq a.action_type (codes "direct")
    then codes "direct"
    else if str_beq a.action_type (codes "route")
    then if str_beq a.target [] then codes "block" else a.target
    else codes "block"

-- The entries that are not blank, trimmed.
unfoldable pub trimmed : List Str → List Str
trimmed [] = []
trimmed (s ∷ l) =
    let rest = trimmed l in if str_beq (trim_space s) [] then rest else trim_space s ∷ rest

-- strings.Join(l, ",")
unfoldable pub join_commas : List Str → Str
join_commas [] = []
join_commas (s ∷ []) = s
join_commas (s ∷ t ∷ l) = s ++ (codes "," ++ join_commas (t ∷ l))

module _ (outbound : Value) where
  abbrev field_rule : String → Value → M
  field_rule k v = doc (("type", str (codes "field")) ∷ (k, v) ∷ ("outboundTag", outbound) ∷ [])

  abbrev strings_rule : String → List Str → List M
  strings_rule k [] = []
  strings_rule k (s ∷ l) = field_rule k (strings (s ∷ l)) ∷ []

  abbrev joined_rule : String → List Str → List M
  joined_rule k [] = []
  joined_rule k (s ∷ l) = field_rule k (str (join_commas (s ∷ l))) ∷ []

  -- One rule for the domains and one for each other kind of matcher that has values.
  unfoldable pub compile_match : RouteMatch → List M
  compile_match m =
      strings_rule "domain" (
        trimmed (items m.domains)
        ++ map (λ s. codes "domain:" ++ s) (trimmed (items m.domain_suffixes)))
      ++ (strings_rule "ip" (items m.ip_cidrs)
          ++ (joined_rule "port" (items m.ports)
              ++ (joined_rule "network" (items m.networks)
                  ++ (strings_rule "source" (items m.source_cidrs)
                      ++ joined_rule "sourcePort" (items m.source_ports)))))

-- It does not look at rule.Disabled.
unfoldable pub compile_custom_route_rule : CustomRouteRule → List M
compile_custom_route_rule rule =
    compile_match (str (xray_outbound_for_action rule.action)) rule.match

-- Where an entry of a panel rule goes.
pub data Kind : Type 0 where
  blank cidr site suffix : Kind

abbrev kind_of : Str → Kind
kind_of item =
    if str_beq item []
    then blank
    else if has_prefix item (codes "geoip:") || contains_byte b'/' item
    then cidr
    else if has_prefix item (codes "geosite:")
    then site
    else suffix

abbrev is_cidr : Kind → Bool
is_cidr cidr = true
is_cidr _ = false

abbrev is_site : Kind → Bool
is_site site = true
is_site _ = false

abbrev is_suffix : Kind → Bool
is_suffix suffix = true
is_suffix _ = false

abbrev panel_match : List Str → RouteMatch
panel_match l =
    let entries = map trim_space l in
    record {
      domains = some (filter (λ s. is_site (kind_of s)) entries);
      domain_suffixes = some (map trim_star (filter (λ s. is_suffix (kind_of s)) entries));
      ip_cidrs = some (filter (λ s. is_cidr (kind_of s)) entries);
      ports = none;
      networks = none;
      source_cidrs = none;
      source_ports = none;
    }

abbrev panel_action : RouteRule → RouteAction
panel_action rule =
    if str_beq rule.action (codes "direct")
    then record { action_type = codes "direct"; target = [] }
    else if str_beq rule.action (codes "proxy")
    then record { action_type = codes "route"; target = rule.action_value }
    else record { action_type = codes "block"; target = [] }

-- A rule without entries compiles to nothing as well.
unfoldable pub compile_panel_route_rule : RouteRule → List M
compile_panel_route_rule rule = compile_custom_route_rule (record {
  name = [];
  disabled = false;
  match = panel_match (items rule.match);
  action = panel_action rule;
})

unfoldable pub compile_custom : List CustomRouteRule → List M
compile_custom [] = []
compile_custom (rule ∷ rules) =
    let rest = compile_custom rules in
    if rule.disabled then rest else compile_custom_route_rule rule ++ rest

unfoldable pub compile_panel : List RouteRule → List M
compile_panel [] = []
compile_panel (rule ∷ l) = compile_panel_route_rule rule ++ compile_panel l

-- The block of private addresses.
abbrev pub private_blocks : List M
private_blocks =
    doc (
      ("type", str (codes "field"))
      ∷ (
        "ip",
        texts (
            "10.0.0.0/8" ∷ "100.64.0.0/10" ∷ "127.0.0.0/8" ∷ "169.254.0.0/16" ∷ "172.16.0.0/12"
            ∷ "192.0.0.0/24" ∷ "192.168.0.0/16" ∷ "198.18.0.0/15" ∷ "fc00::/7" ∷ "fe80::/10"
            ∷ "::1/128" ∷ []),
      )
      ∷ ("outboundTag", str (codes "block"))
      ∷ [])
    ∷ []

unfoldable pub routing_rules : List RouteRule → List CustomRouteRule → List M → List M
routing_rules rules custom_route_rules custom_rules =
    compile_custom custom_route_rules ++ (custom_rules ++ (private_blocks ++ compile_panel rules))

unfoldable pub build_routing : List RouteRule → List CustomRouteRule → List M → M
build_routing rules custom_route_rules custom_rules = doc (
    ("domainStrategy", str (codes "AsIs"))
    ∷ ("rules", tables (ms (routing_rules rules custom_route_rules custom_rules)))
    ∷ [])
