-- ===== src/ControlPlane/Mailbox/Delivery.antt =====
-- What DrainIfReady of internal/controlplane/mailbox.go hands over, against the abstract mailbox.
use mathlib.Core.Option
use xboard_node_plus.Prelude.{
  sym, ◌≡◌, refl, Bool, true, false, ◌&&◌, not, Option, none, some, List, [], ◌∷◌, is_some,
  if◌then◌else◌, arith, str_eq, ◌∙◌,
}
use xboard_node_plus.Model.{NodeSpec, UserSpec}
use xboard_node_plus.Model.Values.{Slice, items}
use xboard_node_plus.ControlPlane.{
  Devices, Event, EventType, sync_config, sync_users, sync_user_delta, sync_devices, other,
}
use xboard_node_plus.ControlPlane.Clone.{clone_users, clone_node_spec, clone_device_users}
use xboard_node_plus.ControlPlane.Clone.Same.{clone_users_lem, clone_device_users_lem}
use xboard_node_plus.ControlPlane.Mailbox.{
  MailboxState, NodeMailbox, notify, apply_config, apply_users, apply_devices, apply_delta,
  dispatch, apply, drain_if_ready,
}
use xboard_node_plus.ControlPlane.Mailbox.View.{table_of, View, view, run, view_run, view-run}

-- What a delivery says of the abstract mailbox.
pub record Delivers (s : MailboxState) (v : View) : Type 0 where
  pub config : s.config ≡ Option.map clone_node_spec v.config
  pub has_config : s.has_config ≡ is_some v.config
  pub devices : s.device_users ≡ v.devices
  pub has_devices : s.has_devices ≡ is_some v.devices
  pub has_users : s.has_users ≡ v.touched
  pub users :
      (if v.touched then v.table else none)
      ≡ (if v.touched && is_some v.table then some (table_of (items s.users)) else none)
  pub reconcile : s.needs_reconcile ≡ v.reconcile

-- The abstract mailbox after a delivery: the table is kept, and there is no news.
abbrev pub delivered : View → View
delivered v = record v { config = none; devices = none; touched = false; reconcile = false }

-- What the flag and the pointer say together, and what is left of them.
module _ {A : Type 0} where
  flagged :
      (b : Bool) (o : Option A) (f : Option A → Option A)
      → f none ≡ none
      → (if b && is_some o then f o else none) ≡ f (if b then o else none)
  flagged true none f e = sym e
  flagged true (some a) f e = refl
  flagged false o f e = sym e

  flag : (b : Bool) (o : Option A) → (b && is_some o) ≡ is_some (if b then o else none)
  flag true o = refl
  flag false o = refl

  unflagged : (b : Bool) (o : Option A) → (if b && not (b && is_some o) then o else none) ≡ none
  unflagged true none = refl
  unflagged true (some a) = refl
  unflagged false o = refl

users_lem :
    (dirty full : Bool) (l : Slice UserSpec)
    → (if dirty then (if full then some (table_of (items l)) else none) else none) ≡ (
        if dirty && is_some (if full then some (table_of (items l)) else none)
        then some (table_of (items (if dirty then clone_users l else none)))
        else none)
users_lem true true l = rw (clone_users_lem l) refl
users_lem true false l = refl
users_lem false full l = refl

module _ (m : NodeMailbox) where
  Delivers-drain : m.ready ≡ true → Delivers (drain_if_ready m).0 (view m)
  unfolding drain_if_ready
  Delivers-drain ready = rw ready (record {
    config = flagged m.dirty_config m.config (Option.map clone_node_spec) refl;
    has_config = flag m.dirty_config m.config;
    devices =
        flagged m.dirty_devices m.device_users clone_device_users (clone_device_users_lem none)
        ∙ clone_device_users_lem _;
    has_devices = flag m.dirty_devices m.device_users;
    has_users = refl;
    users = users_lem m.dirty_users m.has_full_user_state m.users;
    reconcile = refl;
  })

  view-drain : m.ready ≡ true → view (drain_if_ready m).1 ≡ delivered (view m)
  unfolding drain_if_ready
  view-drain ready =
      simp (ready, unflagged m.dirty_config m.config, unflagged m.dirty_devices m.device_users)

ready-apply : (e : Event) (m : NodeMailbox) → (apply e m).ready ≡ m.ready
unfolding apply dispatch apply_delta notify
ready-apply e m = go e.event_type
  where
    config : (c : Option NodeSpec) → (apply_config c m).ready ≡ m.ready
    config none = refl
    config (some c) = refl

    users : (us : Slice UserSpec) → (apply_users us m).ready ≡ m.ready
    users none = refl
    users (some us) = refl

    devices : (d : Devices) → (apply_devices d m).ready ≡ m.ready
    devices none = refl
    devices (some d) = refl

    delta : (l : List UserSpec) → (apply_delta e l m).ready ≡ m.ready
    delta [] = refl
    delta (u ∷ l) = ground arith

    go : (t : EventType) → (dispatch t e m).ready ≡ m.ready
    go sync_config = config e.config
    go sync_users = users e.users
    go sync_devices = devices e.device_users
    go sync_user_delta = delta (items e.delta_users)
    go (other name) = refl

ready-run : (es : List Event) (m : NodeMailbox) → (run es m).ready ≡ m.ready
unfolding run
ready-run [] m = refl
ready-run (e ∷ es) m = ready-run es (apply e m) ∙ ready-apply e m

-- A drain of a ready mailbox, after any events since it was ready, hands over what the abstract
-- mailbox holds after these events, and leaves the abstract mailbox without news and with the same
-- table. The configuration is handed over as a clone.
pub drain-run :
    (es : List Event) (m : NodeMailbox)
    → m.ready ≡ true
    → Delivers (drain_if_ready (run es m)).0 (view_run es (view m))
      × (view (drain_if_ready (run es m)).1 ≡ delivered (view_run es (view m)))
drain-run es m ready =
    let still = ready-run es m ∙ ready in
    rw (← view-run es m) (Delivers-drain (run es m) still, view-drain (run es m) still)
