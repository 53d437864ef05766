-- ===== src/ControlPlane/Clone/Same.antt =====
-- Whether a clone of internal/controlplane/mailbox.go is what it was made from.
use mathlib.Core.Option
use xboard_node_plus.Panel
use xboard_node_plus.Prelude.{
  ℕ, ◌≡◌, ◌≢◌, ◌↔◌, refl, ap, List, [], ◌∷◌, Option, none, some, map, Map, Str,
}
use xboard_node_plus.Model.{NodeSpec, UserSpec, CertConfig, MultiplexConfig}
use xboard_node_plus.Model.Values.{Slice, Any, items}
use xboard_node_plus.Model.Conversion.{node_spec_from_panel}
use xboard_node_plus.Model.Conversion.RoundTrip.{routes_empty}
use xboard_node_plus.ControlPlane.Clone.{
  copy, append_nil, clone_brutal, clone_multiplex, clone_cert, clone_node_spec, clone_users,
  clone_device_users,
}

copy_lem {ℓ} : {A : Type ℓ} (l : List A) → copy l ≡ l
unfolding copy
copy_lem [] = refl
copy_lem (x ∷ l) = ap (◌∷◌ x) (copy_lem l)

option_copy {ℓ} :
    {A : Type ℓ} (f : A → A) → ((a : A) → f a ≡ a) → (o : Option A) → Option.map f o ≡ o
option_copy f h none = refl
option_copy f h (some a) = ap some (h a)

map_copy {ℓ} : {A : Type ℓ} (f : A → A) → ((a : A) → f a ≡ a) → (l : List A) → map f l ≡ l
map_copy f h [] = refl
map_copy f h (a ∷ l) = cc (h a, map_copy f h l)

clone_multiplex_lem : (m : MultiplexConfig) → clone_multiplex m ≡ m
unfolding clone_multiplex clone_brutal
clone_multiplex_lem m = simp (option_copy clone_brutal (λ b. refl))

clone_cert_lem : (c : CertConfig) → clone_cert c ≡ c
unfolding clone_cert
clone_cert_lem c = simp (option_copy (copy {A = Str × Str}) copy_lem)

-- No list of rules is empty without being nil.
record HasNoEmpty (n : NodeSpec) : Type 0 where
  pub routes : n.routes ≢ some []
  pub custom_outbounds : n.custom_outbounds ≢ some []
  pub custom_route_rules : n.custom_route_rules ≢ some []

append_nil_lem {ℓ} : {A : Type ℓ} (l : Slice A) → l ≢ some [] → append_nil l ≡ l
unfolding append_nil
append_nil_lem none h = refl
append_nil_lem (some []) h = absurd (h refl)
append_nil_lem (some (x ∷ l)) h = ap some (copy_lem (x ∷ l))

append_nil_inv {ℓ} : {A : Type ℓ} (l : Slice A) → append_nil l ≡ l → l ≢ some []
unfolding append_nil
append_nil_inv none h = λ e. cc
append_nil_inv (some []) h = λ e. cc
append_nil_inv (some (x ∷ l)) h = λ e. cc

-- A cloned configuration is the configuration, nil fields included, exactly when no list of routes,
-- outbounds or route rules is empty without being nil.
clone_node_spec_iff : (n : NodeSpec) → (clone_node_spec n ≡ n) ↔ HasNoEmpty n
unfolding clone_node_spec
clone_node_spec_iff n = (
  λ e. record {
    routes = append_nil_inv n.routes (ap (λ m. m.routes) e);
    custom_outbounds = append_nil_inv n.custom_outbounds (ap (λ m. m.custom_outbounds) e);
    custom_route_rules = append_nil_inv n.custom_route_rules (ap (λ m. m.custom_route_rules) e);
  },
  λ h. simp (
    append_nil_lem n.routes h.routes,
    append_nil_lem n.custom_outbounds h.custom_outbounds,
    append_nil_lem n.custom_route_rules h.custom_route_rules,
    option_copy (copy {A = Str × Any}) copy_lem,
    option_copy clone_multiplex clone_multiplex_lem,
    option_copy clone_cert clone_cert_lem,
    option_copy (map (Option.map (copy {A = Str × Any}))) (
        map_copy (Option.map (copy {A = Str × Any})) (option_copy (copy {A = Str × Any}) copy_lem)),
  ),
)

-- A panel configuration without routes does not survive cloning as it is: its empty list of routes
-- becomes nil.
clone_from_panel_ne :
    (nc : Panel.NodeConfig)
    → items nc.routes ≡ []
    → clone_node_spec (node_spec_from_panel nc) ≢ node_spec_from_panel nc
clone_from_panel_ne nc h =
    λ e. ((clone_node_spec_iff (node_spec_from_panel nc)).0 e).routes (routes_empty nc h)

pub clone_users_lem : (users : Slice UserSpec) → clone_users users ≡ users
unfolding clone_users
clone_users_lem users = option_copy copy copy_lem users

pub clone_device_users_lem :
    (devices : Option (Map ℕ (List Str))) → clone_device_users devices ≡ devices
unfolding clone_device_users
clone_device_users_lem devices =
    option_copy (map (λ e. (e.0, copy e.1)))
      (map_copy (λ e. (e.0, copy e.1)) (λ e. ap (λ l. (e.0, l)) (copy_lem e.1))) devices
