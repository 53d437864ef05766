-- ===== src/Validation/Spec/Available.antt =====
-- The tags that a rule of a specification may name.
use xboard_node_plus.Prelude.{
  Str, List, [], ◌∷◌, some, KeySet, has, ◌≡◌, ◌≢◌, ◌↔◌, inl, inr, arith, trim_space, to_lower, map,
  codes, All, str_eq, lookup, to_lower-filled, ◌++◌, ◌∙◌, sym,
}
use xboard_node_plus.Validation.Outbounds.{add_tags, tag_key, built_in_tags}
use xboard_node_plus.Validation.Outbounds.Accepted.{
  add_keys, has-add_keys, has-add_tags, is_in-append, known_tags, tag_keys,
}
use xboard_node_plus.Validation.Rules.Accepted.{IsTarget, IsAction, IsAccepted}
use xboard_node_plus.Validation.Spec.{build_available_outbound_tags}
use xboard_node_plus.Model.{OutboundConfig, RouteAction, CustomRouteRule}

-- The tags of the outbounds, the additional ones, "direct" and "block".
abbrev pub available : List Str → List OutboundConfig → KeySet Str
available additional l = add_keys (known_tags additional l) []

tag_keys-map : (l : List OutboundConfig) → map tag_key (map (λ o. o.tag) l) ≡ tag_keys l
tag_keys-map [] = λ i. []
tag_keys-map (o ∷ l) = λ i. tag_key o.tag ∷ tag_keys-map l i

has-available :
    (additional : List Str) (l : List OutboundConfig) (x : Str)
    → x ≢ []
    → has x (build_available_outbound_tags l additional) ≡ has x (available additional l)
unfolding build_available_outbound_tags lookup
has-available additional l x h = ground (
  arith,
  h,
  tag_keys-map l,
  has-add_tags x additional (add_tags (map (λ o. o.tag) l) built_in_tags) h,
  has-add_tags x (map (λ o. o.tag) l) built_in_tags h,
  has-add_keys x (known_tags additional l) [],
  is_in-append x (tag_keys l) (map tag_key additional ++ (codes "direct" ∷ codes "block" ∷ [])),
  is_in-append x (map tag_key additional) (codes "direct" ∷ codes "block" ∷ []),
)

module _ (a b : KeySet Str) (agree : (x : Str) → x ≢ [] → has x a ≡ has x b) where
  IsTarget-agree : (target : Str) → IsTarget (some a) target → IsTarget (some b) target
  IsTarget-agree target (filled, known) =
      (filled, sym (agree (to_lower target) (to_lower-filled target filled)) ∙ known)

  IsAction-agree : (r : RouteAction) → IsAction (some a) r → IsAction (some b) r
  IsAction-agree r (inl (route, t)) = inl (route, IsTarget-agree (trim_space r.target) t)
  IsAction-agree r (inr other) = inr other

  pub IsAccepted-agree :
      (l : List CustomRouteRule) → All (IsAccepted (some a)) l → All (IsAccepted (some b)) l
  IsAccepted-agree [] h = tt
  IsAccepted-agree (r ∷ l) (inl disabled, h) = (inl disabled, IsAccepted-agree l h)
  IsAccepted-agree (r ∷ l) (inr rule, h) = (
    inr (record {
      matches = rule.matches;
      ports = rule.ports;
      source_ports = rule.source_ports;
      networks = rule.networks;
      action = IsAction-agree r.action rule.action;
    }),
    IsAccepted-agree l h,
  )

-- A rule is accepted with the tags that buildAvailableOutboundTags collects as with these.
pub IsAccepted-available :
    (additional : List Str) (l : List OutboundConfig) (rules : List CustomRouteRule)
    → All (IsAccepted (some (build_available_outbound_tags l additional))) rules
      ↔ All (IsAccepted (some (available additional l))) rules
IsAccepted-available additional l rules = (
  IsAccepted-agree (build_available_outbound_tags l additional) (available additional l)
      (has-available additional l) rules,
  IsAccepted-agree (available additional l) (build_available_outbound_tags l additional)
      (λ x h. sym (has-available additional l x h)) rules,
)
