-- ===== src/ControlPlane/Clone.antt =====
-- cloneNodeSpec, cloneUsers and cloneDeviceUsers of internal/controlplane/mailbox.go: fresh copies
-- field by field.
pub mod Same
use mathlib.Core.Option
use xboard_node_plus.Prelude.{ℕ, ◌≡◌, refl, ap, List, [], ◌∷◌, Option, none, some, map, Map, Str}
use xboard_node_plus.Model.{NodeSpec, UserSpec, CertConfig, MultiplexConfig, BrutalConfig}
use xboard_node_plus.Model.Values.{Slice, AnyMap}

-- A fresh map or slice with the same entries.
pub copy {ℓ} : {A : Type ℓ} → List A → List A
copy [] = []
copy (x ∷ l) = x ∷ copy l

-- append([]A(nil), l...)
pub append_nil {ℓ} : {A : Type ℓ} → Slice A → Slice A
unfolding copy
append_nil none = none
append_nil (some []) = none
append_nil (some (x ∷ l)) = some (copy (x ∷ l))

pub clone_brutal : BrutalConfig → BrutalConfig
clone_brutal b = record { enabled = b.enabled; up_mbps = b.up_mbps; down_mbps = b.down_mbps }

pub clone_multiplex : MultiplexConfig → MultiplexConfig
clone_multiplex m = record m { brutal = Option.map clone_brutal m.brutal }

pub clone_cert : CertConfig → CertConfig
clone_cert c = record c { dns_env = Option.map copy c.dns_env }

pub clone_node_spec : NodeSpec → NodeSpec
clone_node_spec n = record n {
  network_settings = Option.map copy n.network_settings;
  tls_settings = Option.map copy n.tls_settings;
  routes = append_nil n.routes;
  custom_outbounds = append_nil n.custom_outbounds;
  custom_routes = Option.map (map (Option.map copy)) n.custom_routes;
  custom_route_rules = append_nil n.custom_route_rules;
  cert_config = Option.map clone_cert n.cert_config;
  multiplex = Option.map clone_multiplex n.multiplex;
}

pub clone_users : Slice UserSpec → Slice UserSpec
clone_users users = Option.map copy users

pub clone_device_users : Option (Map ℕ (List Str)) → Option (Map ℕ (List Str))
clone_device_users devices = Option.map (map (λ e. (e.0, copy e.1))) devices
