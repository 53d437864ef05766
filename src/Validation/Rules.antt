-- ===== src/Validation/Rules.antt =====
-- internal/model/custom_route_validate.go and custom_route_support.go: the route rules.
pub mod Accepted
use xboard_node_plus.Prelude.{
  ℕ, Str, Bool, true, false, List, [], ◌∷◌, Option, none, some, if◌then◌else◌, ok, err, ◌>>◌, ◌>>=◌,
  Map, KeySet, trim_space, to_lower, codes, str_beq, reject_if, not, has, insert, lookup, any, map,
  ◌++◌, ◌&&◌, ◌||◌, Result, ◌+◌, str_eq,
}
use xboard_node_plus.Validation.{
  target_not_allowed, unknown_target, target_required, unsupported_action_type, match_required,
  unsupported_matcher, action_type_required, unsupported_kernel, Invalid, Check,
}
use xboard_node_plus.Validation.Ports.{validate_port_specs, validate_networks}
use xboard_node_plus.Model.Values.{items, Slice}
use xboard_node_plus.Model.{RouteMatch, RouteAction, CustomRouteRule}

pub record KernelRouteSupport : Type 0 where
  pub matchers : List Str
  pub actions : List Str

abbrev every_matcher : List Str
every_matcher =
    codes "domains"
    ∷ codes "domain_suffixes"
    ∷ codes "ip_cidrs"
    ∷ codes "ports"
    ∷ codes "networks"
    ∷ codes "source_cidrs"
    ∷ codes "source_ports"
    ∷ []

abbrev every_action : List Str
every_action = codes "block" ∷ codes "direct" ∷ codes "route" ∷ []

abbrev pub route_support_matrix : Map Str KernelRouteSupport
route_support_matrix =
    (codes "xray", record { matchers = every_matcher; actions = every_action })
    ∷ (codes "singbox", record { matchers = every_matcher; actions = every_action })
    ∷ []

-- The keys strings.ToLower(v) of the values.
abbrev lower_set : List Str → KeySet Str → KeySet Str
lower_set [] m = m
lower_set (v ∷ l) m = lower_set l (insert (to_lower v) tt m)

abbrev non_blank : Str → Bool
non_blank v = not (str_beq (trim_space v) [])

abbrev pub has_any_non_blank : Slice Str → Bool
has_any_non_blank values = any non_blank (items values)

abbrev fields_of : RouteMatch → List (Slice Str)
fields_of m =
    m.domains ∷ m.domain_suffixes ∷ m.ip_cidrs ∷ m.ports ∷ m.networks ∷ m.source_cidrs
    ∷ m.source_ports ∷ []

unfoldable pub has_route_match : RouteMatch → Bool
has_route_match m = any has_any_non_blank (fields_of m)

-- The map of the checks, in one of its orders.
abbrev checks_of : RouteMatch → Map Str (Slice Str)
checks_of m =
    (codes "domains", m.domains)
    ∷ (codes "domain_suffixes", m.domain_suffixes)
    ∷ (codes "ip_cidrs", m.ip_cidrs)
    ∷ (codes "ports", m.ports)
    ∷ (codes "networks", m.networks)
    ∷ (codes "source_cidrs", m.source_cidrs)
    ∷ (codes "source_ports", m.source_ports)
    ∷ []

unfoldable pub check_matchers : ℕ → Str → KeySet Str → Map Str (Slice Str) → Check
check_matchers i kernel support [] = ok tt
check_matchers i kernel support ((matcher, values) ∷ l) =
    let rest = check_matchers i kernel support l in
    if not (has_any_non_blank values)
    then rest
    else if not (has matcher support)
    then err (unsupported_matcher i matcher kernel)
    else rest

unfoldable pub ensure_route_matcher_supported : ℕ → Str → KeySet Str → RouteMatch → Check
unfolding check_matchers
ensure_route_matcher_supported i [] support m = ok tt
ensure_route_matcher_supported i (c ∷ kernel) support m =
    check_matchers i (c ∷ kernel) support (checks_of m)

-- The target's tag is not looked up when there are no tags to look in.
abbrev is_unknown : Str → Option (KeySet Str) → Bool
is_unknown target none = false
is_unknown target (some tags) = not (has (to_lower target) tags)

unfoldable pub validate_action : ℕ → Str → KeySet Str → Option (KeySet Str) → RouteAction → Check
validate_action i kernel support available a = do
  let action_type = to_lower (trim_space a.action_type)
  let target = trim_space a.target
  reject_if (str_beq action_type []) (action_type_required i)
  reject_if (not (str_beq kernel []) && not (has action_type support))
      (unsupported_action_type i a.action_type)
  if str_beq action_type (codes "route")
      then (reject_if (str_beq target []) (target_required i)
          >> reject_if (is_unknown target available) (unknown_target i a.target))
      else if str_beq action_type (codes "direct") || str_beq action_type (codes "block")
      then reject_if (not (str_beq target [])) (target_not_allowed i)
      else err (unsupported_action_type i a.action_type)

-- One round of the loop, for a rule that is not disabled.
unfoldable pub validate_rule :
    ℕ → Str → KeySet Str → KeySet Str → Option (KeySet Str) → CustomRouteRule → Check
unfolding ensure_route_matcher_supported validate_action
validate_rule i kernel matchers actions available rule = do
  reject_if (not (has_route_match rule.match)) (match_required i)
  ensure_route_matcher_supported i kernel matchers rule.match
  validate_port_specs i (codes "ports") (items rule.match.ports)
  validate_port_specs i (codes "source_ports") (items rule.match.source_ports)
  validate_networks i (items rule.match.networks)
  validate_action i kernel actions available rule.action

unfoldable pub validate_rules :
    ℕ → Str → KeySet Str → KeySet Str → Option (KeySet Str) → List CustomRouteRule → Check
validate_rules i kernel matchers actions available [] = ok tt
validate_rules i kernel matchers actions available (rule ∷ rules) =
    let rest = validate_rules (i + 1) kernel matchers actions available rules in
    if rule.disabled then rest else (validate_rule i kernel matchers actions available rule >> rest)

-- The support of a kernel: of none, without a name.
abbrev support_of : Str → Result Invalid (KeySet Str × KeySet Str)
support_of [] = ok ([], [])
support_of (c ∷ name) = elim (lookup (c ∷ name) route_support_matrix) [
  | none ↦ err (unsupported_kernel (c ∷ name))
  | some s ↦ ok (lower_set s.matchers [], lower_set s.actions [])
]

unfoldable pub validate_custom_route_rules :
    List CustomRouteRule → Str → Option (KeySet Str) → Check
validate_custom_route_rules [] kernel available = ok tt
validate_custom_route_rules (rule ∷ rules) kernel available = do
  let name = to_lower (trim_space kernel)
  (matchers, actions) ← support_of name
  validate_rules 0 name matchers actions available (rule ∷ rules)
