-- ===== src/Validation/Rules/Accepted.antt =====
-- ValidateCustomRouteRules of internal/model/custom_route_validate.go: which rules it lets pass.
use xboard_node_plus.Prelude.{
  not, Map, str_eq, ℕ, ◌+◌, Str, true, List, [], ◌∷◌, Option, none, some, ◌≡◌, ◌≢◌, ◌⊎◌, ◌↔◌, inl,
  inr, refl, arith, ok, ◌>>◌, trim_space, to_lower, codes, All, KeySet, has, >>-ok, reject_if,
  str_beq, str_beq_iff, lookup, insert, sym,
}
use mathlib.Core.Path.{subst}
use xboard_node_plus.Validation.{match_required, unknown_target, target_required}
use xboard_node_plus.Validation.Kernels.Choice.{IsKernel}
use xboard_node_plus.Validation.Ports.{validate_port_specs, validate_networks}
use xboard_node_plus.Validation.Ports.Accepted.{NamesPorts, validate_port_specs_iff}
use xboard_node_plus.Validation.Rules.{
  every_matcher, checks_of, every_action, is_unknown, lower_set, has_route_match, check_matchers,
  ensure_route_matcher_supported, validate_action, validate_rule, validate_rules,
  validate_custom_route_rules,
}
use xboard_node_plus.Model.Values.{Slice, items}
use xboard_node_plus.Model.{RouteMatch, RouteAction, CustomRouteRule}

-- A name of tcp or udp, or nothing.
abbrev pub IsNetwork : Str → Type 0
IsNetwork v =
    let name = to_lower (trim_space v) in
    (name ≡ []) ⊎ ((name ≡ codes "tcp") ⊎ (name ≡ codes "udp"))

IsNetwork-cases :
    (i : ℕ) (v : Str) (values : List Str)
    → (validate_networks i (v ∷ values) ≡ ok tt)
      ↔ (IsNetwork v × (validate_networks i values ≡ ok tt))
unfolding validate_networks
IsNetwork-cases i v values = ground (
  arith,
  str_beq_iff (to_lower (trim_space v)) (codes "tcp"),
  str_beq_iff (to_lower (trim_space v)) (codes "udp"),
)

validate_networks_iff :
    (i : ℕ) (values : List Str) → (validate_networks i values ≡ ok tt) ↔ All IsNetwork values
unfolding validate_networks
validate_networks_iff i [] = ground arith
validate_networks_iff i (v ∷ values) =
    ground (arith, IsNetwork-cases i v values, validate_networks_iff i values)

-- Only an action "route" has a target, which is one of the tags where these are known.
abbrev pub IsTarget : Option (KeySet Str) → Str → Type 0
IsTarget none target = target ≢ []
IsTarget (some tags) target = (target ≢ []) × (has (to_lower target) tags ≡ true)

abbrev pub IsAction : Option (KeySet Str) → RouteAction → Type 0
IsAction available a =
    let action = to_lower (trim_space a.action_type) in
    ((action ≡ codes "route") × IsTarget available (trim_space a.target))
    ⊎ (((action ≡ codes "direct") ⊎ (action ≡ codes "block")) × (trim_space a.target ≡ []))

pub record IsRule (available : Option (KeySet Str)) (rule : CustomRouteRule) : Type 0 where
  pub matches : has_route_match rule.match ≡ true
  pub ports : All NamesPorts (items rule.match.ports)
  pub source_ports : All NamesPorts (items rule.match.source_ports)
  pub networks : All IsNetwork (items rule.match.networks)
  pub action : IsAction available rule.action

abbrev known : KeySet Str
known = lower_set every_action []

known-has :
    (x : Str)
    → (has x known ≡ true) ↔ ((x ≡ codes "route") ⊎ ((x ≡ codes "direct") ⊎ (x ≡ codes "block")))
unfolding lookup insert to_lower str_beq
known-has x = ground (
  arith,
  str_beq_iff (codes "route") x,
  str_beq_iff (codes "direct") x,
  str_beq_iff (codes "block") x,
)

IsTarget-cases :
    (i : ℕ) (available : Option (KeySet Str)) (target raw : Str)
    → ((reject_if (str_beq target []) (target_required i)
          >> reject_if (is_unknown target available) (unknown_target i raw))
        ≡ ok tt)
      ↔ IsTarget available target
IsTarget-cases i none target raw = ground (arith, str_beq_iff target [])
IsTarget-cases i (some tags) target raw = ground (arith, str_beq_iff target [])

module _ (i : ℕ) (c : ℕ) (kernel : Str) (available : Option (KeySet Str)) where
  validate_action_iff :
      (a : RouteAction)
      → (validate_action i (c ∷ kernel) known available a ≡ ok tt) ↔ IsAction available a
  unfolding validate_action
  validate_action_iff a = ground (
    arith,
    IsTarget-cases i available (trim_space a.target) a.target,
    str_beq_iff (trim_space a.target) [],
    str_beq_iff (to_lower (trim_space a.action_type)) (codes "route"),
    str_beq_iff (to_lower (trim_space a.action_type)) (codes "direct"),
    str_beq_iff (to_lower (trim_space a.action_type)) (codes "block"),
    str_beq_iff (to_lower (trim_space a.action_type)) [],
    known-has (to_lower (trim_space a.action_type)),
  )

abbrev known_matchers : KeySet Str
known_matchers = lower_set every_matcher []

check_matchers-ok :
    (i : ℕ) (kernel : Str) (support : KeySet Str) (l : Map Str (Slice Str))
    → All (λ e. has e.0 support ≡ true) l
    → check_matchers i kernel support l ≡ ok tt
unfolding check_matchers
check_matchers-ok i kernel support [] h = refl
check_matchers-ok i kernel support ((matcher, values) ∷ l) (h, hs) =
    ground (arith, h, check_matchers-ok i kernel support l hs)

ensure-ok :
    (i c : ℕ) (kernel : Str) (m : RouteMatch)
    → ensure_route_matcher_supported i (c ∷ kernel) known_matchers m ≡ ok tt
unfolding ensure_route_matcher_supported lookup insert to_lower str_beq
ensure-ok i c kernel m =
    check_matchers-ok i (c ∷ kernel) known_matchers (checks_of m)
      (refl, (refl, (refl, (refl, (refl, (refl, (refl, tt)))))))

-- A disabled rule is not looked at.
abbrev pub IsAccepted : Option (KeySet Str) → CustomRouteRule → Type 0
IsAccepted available rule = (rule.disabled ≡ true) ⊎ IsRule available rule

module _ (c : ℕ) (kernel : Str) (available : Option (KeySet Str)) where
  IsRule-sound :
      (i : ℕ) (rule : CustomRouteRule)
      → validate_rule i (c ∷ kernel) known_matchers known available rule ≡ ok tt
      → IsRule available rule
  unfolding validate_rule
  IsRule-sound i rule h =
      let (a, h1) = >>-ok (reject_if (not (has_route_match rule.match)) (match_required i)) _ h in
      let (b, h2) =
        >>-ok (ensure_route_matcher_supported i (c ∷ kernel) known_matchers rule.match) _ h1 in
      let (p, h3) = >>-ok (validate_port_specs i (codes "ports") (items rule.match.ports)) _ h2 in
      let (q, h4) =
        >>-ok (validate_port_specs i (codes "source_ports") (items rule.match.source_ports)) _ h3 in
      let (n, z) = >>-ok (validate_networks i (items rule.match.networks)) _ h4 in
      record {
        matches = ground (arith, a);
        ports = (validate_port_specs_iff i (codes "ports") (items rule.match.ports)).0 p;
        source_ports =
            (validate_port_specs_iff i (codes "source_ports") (items rule.match.source_ports)).0 q;
        networks = (validate_networks_iff i (items rule.match.networks)).0 n;
        action = (validate_action_iff i c kernel available rule.action).0 z;
      }

  IsRule-complete :
      (i : ℕ) (rule : CustomRouteRule)
      → IsRule available rule
      → validate_rule i (c ∷ kernel) known_matchers known available rule ≡ ok tt
  unfolding validate_rule
  IsRule-complete i rule r =
      rw
        (
          r.matches,
          ensure-ok i c kernel rule.match,
          (validate_port_specs_iff i (codes "ports") (items rule.match.ports)).1 r.ports,
          (validate_port_specs_iff i (codes "source_ports") (items rule.match.source_ports)).1
              r.source_ports,
          (validate_networks_iff i (items rule.match.networks)).1 r.networks,
        )
        ((validate_action_iff i c kernel available rule.action).1 r.action)

  validate_rules_iff :
      (i : ℕ) (rules : List CustomRouteRule)
      → (validate_rules i (c ∷ kernel) known_matchers known available rules ≡ ok tt)
        ↔ All (IsAccepted available) rules
  unfolding validate_rules
  validate_rules_iff i [] = ground arith
  validate_rules_iff i (rule ∷ rules) =
      ground (arith, IsRule-sound i rule, IsRule-complete i rule, validate_rules_iff (i + 1) rules)

-- For sing-box and for xray ValidateCustomRouteRules returns no error exactly when every rule that
-- is not disabled has a match that is not blank, valid ports and networks in it, and the action
-- "direct" or "block" without a target or "route" with a target, one of the tags when these are
-- given.
pub validate_custom_route_rules_iff :
    (rules : List CustomRouteRule) (kernel : Str) (available : Option (KeySet Str))
    → IsKernel kernel
    → (validate_custom_route_rules rules kernel available ≡ ok tt)
      ↔ All (IsAccepted available) rules
unfolding validate_custom_route_rules to_lower trim_space lookup str_beq
validate_custom_route_rules_iff [] kernel available k = ground arith
validate_custom_route_rules_iff (rule ∷ rules) kernel available (inl e) =
    subst
      (λ k.
        (validate_custom_route_rules (rule ∷ rules) k available ≡ ok tt)
        ↔ All (IsAccepted available) (rule ∷ rules))
      (sym e) (validate_rules_iff _ _ available 0 (rule ∷ rules))
validate_custom_route_rules_iff (rule ∷ rules) kernel available (inr e) =
    subst
      (λ k.
        (validate_custom_route_rules (rule ∷ rules) k available ≡ ok tt)
        ↔ All (IsAccepted available) (rule ∷ rules))
      (sym e) (validate_rules_iff _ _ available 0 (rule ∷ rules))
