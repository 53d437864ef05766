-- ===== src/ControlPlane.antt =====
-- internal/controlplane: where a node's configuration and users come from. types.go and mailbox.go.
pub mod Delta
pub mod Clone
pub mod Mailbox
use xboard_node_plus.Prelude.{ℕ, Option, List, Str, Map}
use xboard_node_plus.Model.{NodeSpec, UserSpec}
use xboard_node_plus.Model.Values.{Slice}

pub data EventType : Type 0 where
  sync_config sync_users sync_user_delta sync_devices : EventType
  other : Str → EventType

-- The device map of an event: user ID to addresses; `none` is nil.
abbrev pub Devices : Type 0
Devices = Option (Map ℕ (List Str))

pub record Event : Type 0 where
  pub event_type : EventType
  pub config : Option NodeSpec
  pub users : Slice UserSpec
  pub delta_action : Str
  pub delta_users : Slice UserSpec
  pub device_users : Devices
