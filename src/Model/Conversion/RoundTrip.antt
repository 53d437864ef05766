-- ===== src/Model/Conversion/RoundTrip.antt =====
-- internal/model/panel.go: a trip to the panel's form and back keeps what came from the panel.
use mathlib.Core.Option
use xboard_node_plus.Panel
use xboard_node_plus.Prelude.{◌≡◌, refl, ap, List, [], ◌∷◌, Option, none, some, map}
use xboard_node_plus.Model.Values.{items, Slice, AnyMap, clone_nonempty, clone_map_slice}
use xboard_node_plus.Model.{UserSpec}
use xboard_node_plus.Model.Conversion.{
  route_match_from_panel, route_match_to_panel, custom_route_rule_from_panel,
  custom_route_rule_to_panel, route_rule_from_panel, route_rule_to_panel, outbound_from_panel,
  outbound_to_panel, brutal_from_panel, brutal_to_panel, multiplex_from_panel, multiplex_to_panel,
  cert_from_panel, cert_to_panel, node_spec_from_panel, node_spec_to_panel, from_panel, to_panel,
  user_from_panel, user_to_panel, user_specs_from_panel, user_specs_to_panel,
}

clone_idem {ℓ} : {A : Type ℓ} (s : Slice A) → clone_nonempty (clone_nonempty s) ≡ clone_nonempty s
clone_idem none = refl
clone_idem (some []) = refl
clone_idem (some (x ∷ l)) = refl

map_clone_idem {ℓ} :
    {A : Type ℓ} (l : List (Slice A))
    → map clone_nonempty (map clone_nonempty l) ≡ map clone_nonempty l
map_clone_idem [] = refl
map_clone_idem (x ∷ l) = cc (clone_idem x, map_clone_idem l)

clone_map_slice_idem : (s : Slice AnyMap) → clone_map_slice (clone_map_slice s) ≡ clone_map_slice s
clone_map_slice_idem none = refl
clone_map_slice_idem (some []) = refl
clone_map_slice_idem (some (x ∷ l)) = cc (clone_idem x, map_clone_idem l)

map_trip {ℓ κ} :
    {A : Type ℓ} {B : Type κ} (f : A → B) (g : B → A)
    → ((a : A) → f (g (f a)) ≡ f a)
    → (l : List A) → map f (map g (map f l)) ≡ map f l
map_trip f g h [] = refl
map_trip f g h (x ∷ l) = cc (h x, map_trip f g h l)

option_trip {ℓ κ} :
    {A : Type ℓ} {B : Type κ} (f : A → B) (g : B → A)
    → ((a : A) → f (g (f a)) ≡ f a)
    → (o : Option A) → Option.map f (Option.map g (Option.map f o)) ≡ Option.map f o
option_trip f g h none = refl
option_trip f g h (some x) = ap some (h x)

route_match_trip :
    (r : Panel.RouteMatch)
    → route_match_from_panel (route_match_to_panel (route_match_from_panel r))
      ≡ route_match_from_panel r
unfolding route_match_from_panel route_match_to_panel
route_match_trip r = simp clone_idem

custom_route_rule_trip :
    (r : Panel.CustomRouteRule)
    → custom_route_rule_from_panel (custom_route_rule_to_panel (custom_route_rule_from_panel r))
      ≡ custom_route_rule_from_panel r
unfolding custom_route_rule_from_panel custom_route_rule_to_panel
custom_route_rule_trip r = simp clone_idem

route_rule_trip :
    (r : Panel.RouteRule)
    → route_rule_from_panel (route_rule_to_panel (route_rule_from_panel r))
      ≡ route_rule_from_panel r
unfolding route_rule_from_panel route_rule_to_panel
route_rule_trip r = simp clone_idem

outbound_trip :
    (o : Panel.OutboundConfig)
    → outbound_from_panel (outbound_to_panel (outbound_from_panel o)) ≡ outbound_from_panel o
unfolding outbound_from_panel outbound_to_panel
outbound_trip o = simp clone_idem

brutal_trip :
    (b : Panel.BrutalConfig)
    → brutal_from_panel (brutal_to_panel (brutal_from_panel b)) ≡ brutal_from_panel b
unfolding brutal_from_panel brutal_to_panel
brutal_trip b = refl

multiplex_trip :
    (m : Panel.MultiplexConfig)
    → multiplex_from_panel (multiplex_to_panel (multiplex_from_panel m)) ≡ multiplex_from_panel m
unfolding multiplex_from_panel multiplex_to_panel
multiplex_trip m = simp (option_trip brutal_from_panel brutal_to_panel brutal_trip)

cert_trip :
    (c : Panel.CertConfig) → cert_from_panel (cert_to_panel (cert_from_panel c)) ≡ cert_from_panel c
unfolding cert_from_panel cert_to_panel
cert_trip c = refl

user_trip : (u : UserSpec) → user_from_panel (user_to_panel u) ≡ u
unfolding user_from_panel user_to_panel
user_trip u = refl

node_spec_trip :
    (nc : Panel.NodeConfig)
    → node_spec_from_panel (node_spec_to_panel (node_spec_from_panel nc)) ≡ node_spec_from_panel nc
unfolding node_spec_from_panel node_spec_to_panel
node_spec_trip nc = simp (
  clone_idem,
  clone_map_slice_idem,
  map_trip route_rule_from_panel route_rule_to_panel route_rule_trip,
  map_trip outbound_from_panel outbound_to_panel outbound_trip,
  map_trip custom_route_rule_from_panel custom_route_rule_to_panel custom_route_rule_trip,
  option_trip multiplex_from_panel multiplex_to_panel multiplex_trip,
  option_trip cert_from_panel cert_to_panel cert_trip,
)

-- What NodeSpecFromPanel makes of a panel configuration, nil included, comes back unchanged from
-- ToPanel followed by NodeSpecFromPanel.
pub from_panel-to_panel :
    (nc : Option Panel.NodeConfig) → from_panel (to_panel (from_panel nc)) ≡ from_panel nc
unfolding from_panel to_panel
from_panel-to_panel nc = option_trip node_spec_from_panel node_spec_to_panel node_spec_trip nc

-- UserSpecsToPanel followed by UserSpecsFromPanel gives back every list of users, nil included.
user_specs_trip :
    (users : Slice UserSpec) → user_specs_from_panel (user_specs_to_panel users) ≡ users
unfolding user_specs_from_panel user_specs_to_panel
user_specs_trip none = refl
user_specs_trip (some l) = ap some (go l)
  where
    go : (l : List UserSpec) → map user_from_panel (map user_to_panel l) ≡ l
    go [] = refl
    go (u ∷ l) = cc (user_trip u, go l)

-- Without routes in the panel's form, the list of routes is empty and not nil.
pub routes_empty :
    (nc : Panel.NodeConfig) → items nc.routes ≡ [] → (node_spec_from_panel nc).routes ≡ some []
unfolding node_spec_from_panel
routes_empty nc h = rw h
