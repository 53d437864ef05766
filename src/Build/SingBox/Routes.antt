-- ===== src/Build/SingBox/Routes.antt =====
-- buildRoutes and the rules that it compiles.
pub mod Targets
use xboard_node_plus.Prelude.{
  ℕ, Str, Bool, true, false, List, [], ◌∷◌, ◌++◌, Option, none, some, if◌then◌else◌, map, str_beq,
  trim_space, codes, ◌||◌, not, nat_beq, contains_byte, has_prefix, atoi,
}
use xboard_node_plus.Model.Values.{Slice, AnyMap, items}
use xboard_node_plus.Model.{RouteRule, RouteAction, RouteMatch, CustomRouteRule}
use xboard_node_plus.Build.{
  M, Value, str, put, doc, tables, ms, strings, ints, texts, when, trim_star,
}
use xboard_node_plus.Build.Atoi.{pattern_of}

-- The CIDRs and the domains of the entries of a panel rule that are not blank.
abbrev sorted_entries : List Str → List Str × List Str
sorted_entries [] = ([], [])
sorted_entries (raw_item ∷ l) =
    let trimmed = trim_space raw_item in
    let item = trim_star trimmed in
    let rest = sorted_entries l in
    if str_beq trimmed []
    then rest
    else if contains_byte b'/' item
    then (rest.0, item ∷ rest.1)
    else (item ∷ rest.0, rest.1)

unfoldable pub panel_outbound : RouteRule → Str
panel_outbound pr =
    if str_beq pr.action (codes "direct")
    then codes "direct"
    else if str_beq pr.action (codes "dns")
    then if str_beq pr.action_value [] then codes "dns-out" else pr.action_value
    else if str_beq pr.action (codes "proxy")
    then if str_beq pr.action_value [] then codes "block" else pr.action_value
    else codes "block"

-- One matcher with the outbound, where it has values.
abbrev rule_of : List Str → (key : Value → M) → List M
rule_of [] make = []
rule_of (s ∷ l) make = make (strings (s ∷ l)) ∷ []

unfoldable pub compile_panel_route_rule : RouteRule → List M
compile_panel_route_rule pr =
    let outbound = str (panel_outbound pr) in
    let entries = sorted_entries (items pr.match) in
    rule_of entries.0 (λ v. doc (("domain_suffix", v) ∷ ("outbound", outbound) ∷ []))
    ++ rule_of entries.1 (λ v. doc (("ip_cidr", v) ∷ ("outbound", outbound) ∷ []))

unfoldable pub singbox_outbound_for_action : RouteAction → Str
singbox_outbound_for_action a =
    if str_beq a.action_type (codes "direct")
    then codes "direct"
    else if str_beq a.action_type (codes "route")
    then if str_beq a.target [] then codes "block" else a.target
    else codes "block"

abbrev is_range : Str → Bool
is_range s = contains_byte b':' s || contains_byte b'-' s

-- strings.ReplaceAll(value, "-", ":")
abbrev as_range : Str → Str
as_range = map (λ c. if nat_beq c b'-' then b':' else c)

-- An entry that is neither blank, a range nor a number is dropped.
unfoldable pub split_ports : List Str → List ℕ × List Str
split_ports [] = ([], [])
split_ports (entry ∷ l) =
    let value = trim_space entry in
    let rest = split_ports l in
    if str_beq value []
    then rest
    else if is_range value
    then (rest.0, as_range value ∷ rest.1)
    else elim (atoi value) [ none ↦ rest | some n ↦ (pattern_of n ∷ rest.0, rest.1) ]

abbrev add_ports : (List ℕ → M → M) → List ℕ → M → M
add_ports f [] m = m
add_ports f (n ∷ l) m = f (n ∷ l) m

abbrev add_ranges : (List Str → M → M) → List Str → M → M
add_ranges f [] m = m
add_ranges f (s ∷ l) m = f (s ∷ l) m

module _ (outbound : Value) where
  abbrev port_rule : List Str → List M
  port_rule [] = []
  port_rule (s ∷ l) =
      let (ports, ranges) = split_ports (s ∷ l) in
      add_ranges (λ r. put "port_range" (strings r)) ranges
        (add_ports (λ p. put "port" (ints p)) ports (doc (("outbound", outbound) ∷ [])))
      ∷ []

  abbrev source_port_rule : List Str → List M
  source_port_rule [] = []
  source_port_rule (s ∷ l) =
      let (ports, ranges) = split_ports (s ∷ l) in
      add_ranges (λ r. put "source_port_range" (strings r)) ranges
        (add_ports (λ p. put "source_port" (ints p)) ports (doc (("outbound", outbound) ∷ [])))
      ∷ []

  -- One rule for each kind of matcher that has values.
  unfoldable pub compile_match : RouteMatch → List M
  compile_match m =
      rule_of (items m.domains) (λ v. doc (("domain", v) ∷ ("outbound", outbound) ∷ []))
      ++ (rule_of (items m.domain_suffixes)
            (λ v. doc (("domain_suffix", v) ∷ ("outbound", outbound) ∷ []))
          ++ (rule_of (items m.ip_cidrs) (λ v. doc (("ip_cidr", v) ∷ ("outbound", outbound) ∷ []))
              ++ (port_rule (items m.ports)
                  ++ (rule_of (items m.networks)
                        (λ v. doc (("network", v) ∷ ("outbound", outbound) ∷ []))
                      ++ (rule_of (items m.source_cidrs)
                            (λ v. doc (("source_ip_cidr", v) ∷ ("outbound", outbound) ∷ []))
                          ++ source_port_rule (items m.source_ports))))))

unfoldable pub compile_custom_route_rule : CustomRouteRule → List M
compile_custom_route_rule rule =
    if rule.disabled
    then []
    else compile_match (str (singbox_outbound_for_action rule.action)) rule.match

unfoldable pub compile_custom : List CustomRouteRule → List M
compile_custom [] = []
compile_custom (rule ∷ rules) =
    let rest = compile_custom rules in
    if rule.disabled then rest else compile_custom_route_rule rule ++ rest

unfoldable pub compile_panel : List RouteRule → List M
compile_panel [] = []
compile_panel (pr ∷ l) = compile_panel_route_rule pr ++ compile_panel l

-- The blocks of private addresses.
abbrev pub private_blocks : List M
private_blocks =
    doc (
      ("outbound", str (codes "block"))
      ∷ (
        "ip_cidr",
        texts (
            "10.0.0.0/8" ∷ "100.64.0.0/10" ∷ "127.0.0.0/8" ∷ "169.254.0.0/16" ∷ "172.16.0.0/12"
            ∷ "192.0.0.0/24" ∷ "192.168.0.0/16" ∷ "198.18.0.0/15" ∷ []),
      )
      ∷ [])
    ∷ doc (
        ("outbound", str (codes "block"))
        ∷ ("ip_cidr", texts ("fc00::/7" ∷ "fe80::/10" ∷ "::1/128" ∷ []))
        ∷ [])
    ∷ []

unfoldable pub route_rules : List RouteRule → List CustomRouteRule → List M → List M
route_rules panel_routes custom_rules custom =
    compile_custom custom_rules ++ (custom ++ (private_blocks ++ compile_panel panel_routes))

unfoldable pub build_routes : List RouteRule → List CustomRouteRule → List M → M
build_routes panel_routes custom_rules custom = doc (
    ("final", str (codes "direct"))
    ∷ ("rules", tables (ms (route_rules panel_routes custom_rules custom)))
    ∷ [])
