-- ===== src/ControlPlane/Mailbox.antt =====
-- NodeMailbox of internal/controlplane/mailbox.go: the events for a node that is not ready yet are
-- joined to one state. The mutex makes each method one step; `notified` is the one-place channel.
pub mod View
pub mod Delivery
use mathlib.Core.Option
use xboard_node_plus.Prelude.{
  Bool, true, false, ◌&&◌, not, Option, none, some, List, [], ◌∷◌, is_some, if◌then◌else◌,
}
use xboard_node_plus.Model.{NodeSpec, UserSpec}
use xboard_node_plus.Model.Values.{Slice, items}
use xboard_node_plus.ControlPlane.{
  Devices, Event, EventType, sync_config, sync_users, sync_user_delta, sync_devices, other,
}
use xboard_node_plus.ControlPlane.Clone.{clone_node_spec, clone_users, clone_device_users}
use xboard_node_plus.ControlPlane.Delta.{apply_user_delta}

pub record MailboxState : Type 0 where
  pub config : Option NodeSpec
  pub users : Slice UserSpec
  pub device_users : Devices
  pub has_config : Bool
  pub has_users : Bool
  pub has_devices : Bool
  pub needs_reconcile : Bool

pub record NodeMailbox : Type 0 where
  pub ready : Bool
  pub config : Option NodeSpec
  pub users : Slice UserSpec
  pub device_users : Devices
  pub dirty_config : Bool
  pub dirty_users : Bool
  pub dirty_devices : Bool
  pub needs_reconcile : Bool
  pub has_full_user_state : Bool
  pub notified : Bool

abbrev pub new_node_mailbox : NodeMailbox
new_node_mailbox = record {
  ready = false;
  config = none;
  users = none;
  device_users = none;
  dirty_config = false;
  dirty_users = false;
  dirty_devices = false;
  needs_reconcile = false;
  has_full_user_state = false;
  notified = false;
}

pub notify : NodeMailbox → NodeMailbox
notify m = record m { notified = true }

pub mark_ready : NodeMailbox → NodeMailbox
unfolding notify
mark_ready m = notify (record m { ready = true })

pub seed_users : Slice UserSpec → NodeMailbox → NodeMailbox
seed_users none m = m
seed_users (some users) m =
    if m.has_full_user_state
    then m
    else record m { users = clone_users (some users); has_full_user_state = true }

pub seed_config : Option NodeSpec → NodeMailbox → NodeMailbox
seed_config none m = m
seed_config (some config) m =
    if is_some m.config then m else record m { config = some (clone_node_spec config) }

pub seed_baseline : Slice UserSpec → Option NodeSpec → NodeMailbox → NodeMailbox
unfolding seed_users seed_config
seed_baseline users config m = seed_config config (seed_users users m)

pub apply_config : Option NodeSpec → NodeMailbox → NodeMailbox
unfolding notify
apply_config none m = m
apply_config (some c) m =
    notify (record m { config = some (clone_node_spec c); dirty_config = true })

pub apply_users : Slice UserSpec → NodeMailbox → NodeMailbox
unfolding notify
apply_users none m = m
apply_users (some users) m =
    notify (record m {
      users = clone_users (some users);
      dirty_users = true;
      has_full_user_state = true;
    })

pub apply_devices : Devices → NodeMailbox → NodeMailbox
unfolding notify
apply_devices none m = m
apply_devices (some d) m =
    notify (record m { device_users = clone_device_users (some d); dirty_devices = true })

-- An empty delta is dropped; one that cannot be applied asks for a reconciliation.
pub apply_delta : Event → List UserSpec → NodeMailbox → NodeMailbox
unfolding notify
apply_delta event [] m = m
apply_delta event (u ∷ l) m =
    if not m.has_full_user_state
    then notify (record m { needs_reconcile = true })
    else elim (apply_user_delta m.users event.delta_action (u ∷ l)) [
      | none ↦ notify (record m { needs_reconcile = true })
      | some users ↦ notify (record m { users = users; dirty_users = true })
    ]

pub dispatch : EventType → Event → NodeMailbox → NodeMailbox
unfolding apply_config apply_users apply_devices apply_delta
dispatch sync_config event m = apply_config event.config m
dispatch sync_users event m = apply_users event.users m
dispatch sync_devices event m = apply_devices event.device_users m
dispatch sync_user_delta event m = apply_delta event (items event.delta_users) m
dispatch (other name) event m = m

pub apply : Event → NodeMailbox → NodeMailbox
unfolding dispatch
apply event m = dispatch event.event_type event m

abbrev pub empty_state : MailboxState
empty_state = record {
  config = none;
  users = none;
  device_users = none;
  has_config = false;
  has_users = false;
  has_devices = false;
  needs_reconcile = false;
}

pub drain_if_ready : NodeMailbox → MailboxState × NodeMailbox
drain_if_ready m =
    let has_config = m.dirty_config && is_some m.config in
    let has_devices = m.dirty_devices && is_some m.device_users in
    if not m.ready then (empty_state, m) else (
      record {
        config = if has_config then Option.map clone_node_spec m.config else none;
        users = if m.dirty_users then clone_users m.users else none;
        device_users = if has_devices then clone_device_users m.device_users else none;
        has_config = has_config;
        has_users = m.dirty_users;
        has_devices = has_devices;
        needs_reconcile = m.needs_reconcile;
      },
      record m {
        dirty_config = m.dirty_config && not has_config;
        dirty_users = false;
        dirty_devices = m.dirty_devices && not has_devices;
        needs_reconcile = false;
      },
    )
