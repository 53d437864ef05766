-- ===== src/Service/Core/Setup.antt =====
-- internal/service/service.go: the first setup of a node, the drain of its mailbox in machine mode, and
-- the changes of its push connection.
pub mod Synced
use xboard_node_plus.Prelude.{
  ℕ, Str, Bool, true, false, List, [], ◌∷◌, ◌++◌, Option, none, some, Result, ok, err, ◌>>=◌,
  map_err, if◌then◌else◌, nat_beq, is_pos, ◌&&◌,
}
use xboard_node_plus.ControlPlane.{Devices, Event, EventType, sync_config, sync_users, sync_devices}
use xboard_node_plus.ControlPlane.Mailbox.{
  MailboxState, NodeMailbox, seed_baseline, mark_ready, drain_if_ready,
}
use xboard_node_plus.Service.Core.{Env, Core, ensure_kernel_type, start_kernel, prepare_user_state}
use xboard_node_plus.Service.Core.Config.{
  apply_local_overrides, validate_config_for_kernel, apply_remote_overrides,
}
use xboard_node_plus.Service.Core.Events.{handle_ws_event}
use xboard_node_plus.Service.Core.Polling.Resync.{Action, requested, due}
use xboard_node_plus.Service.Runtime.{Unfit}
use xboard_node_plus.Model.Values.{Slice, items, clone_nonempty}
use xboard_node_plus.Model.{NodeSpec, UserSpec}

pub record Bootstrap : Type 0 where
  pub push_interval : ℕ
  pub pull_interval : ℕ
  pub has_push : Bool
  pub config : Option NodeSpec
  pub users : Slice UserSpec
  pub mailbox : Option NodeMailbox

-- controlplane.StatusChange
pub record StatusChange : Type 0 where
  pub connected : Bool
  pub needs_resync : Bool

pub data SetupError : Type 0 where
  no_config : SetupError
  unfit : Unfit → SetupError
  not_started : SetupError

-- The local interval, else that of the panel, else a minute.
unfoldable pub interval : ℕ → ℕ → ℕ
interval local remote =
    let chosen = if nat_beq local 0 && is_pos remote then remote else local in
    if nat_beq chosen 0 then 60 else chosen

abbrev event_of : EventType → Option NodeSpec → Slice UserSpec → Devices → Event
event_of t config users devices = record {
  event_type = t;
  config = config;
  users = users;
  delta_action = [];
  delta_users = none;
  device_users = devices;
}

module _ {K C B : Type 0} (env : Env K C B) where
  abbrev handle_if : Bool → ℕ → Event → Core K C B → Core K C B
  handle_if false now e s = s
  handle_if true now e s = handle_ws_event env now e s

  -- The state after the drain, and whether the node asks for a resynchronisation.
  unfoldable pub drain_machine_mailbox : ℕ → MailboxState → Core K C B → Bool × Core K C B
  drain_machine_mailbox now m s =
      let s1 = handle_if m.has_config now (event_of sync_config m.config none none) s in
      let s2 = handle_if m.has_users now (event_of sync_users none m.users none) s1 in
      let s3 = handle_if m.has_devices now (event_of sync_devices none none m.device_users) s2 in
      (m.needs_reconcile, s3)

  abbrev Drained : Type 0
  Drained = Bool × Option NodeMailbox × Core K C B

  unfoldable pub mark_mailbox_ready_and_drain : ℕ → Option NodeMailbox → Core K C B → Drained
  unfolding drain_machine_mailbox
  mark_mailbox_ready_and_drain now none s = (false, none, s)
  mark_mailbox_ready_and_drain now (some m) s =
      let seeded =
        mark_ready (seed_baseline (clone_nonempty (some s.last_users)) s.last_config m) in
      let (state, left) = drain_if_ready seeded in
      let (resync, t) = drain_machine_mailbox now state s in (resync, some left, t)

  -- The kernel's type, the configuration and the users of the first snapshot.
  unfoldable pub first_state : Str → NodeSpec → Slice UserSpec → Core K C B → Core K C B
  unfolding prepare_user_state
  first_state kernel_type nc users s =
      (prepare_user_state env (items users) (record (ensure_kernel_type env kernel_type s) {
        last_config = some nc;
        last_config_hash = env.config_hash nc;
      })).2

  abbrev drain_started : ℕ → Option NodeMailbox → Bool × Core K C B → Result SetupError Drained
  drain_started now mailbox (false, s) = err not_started
  drain_started now mailbox (true, s) = ok (mark_mailbox_ready_and_drain now mailbox s)

  abbrev start_first :
      ℕ → Option NodeMailbox → NodeSpec → List UserSpec → Core K C B → Result SetupError Drained
  start_first now mailbox nc [] s = ok (mark_mailbox_ready_and_drain now mailbox s)
  start_first now mailbox nc (u ∷ l) s =
      drain_started now mailbox
        (start_kernel env now (some nc) (u ∷ l) (apply_remote_overrides env nc s).1)

  abbrev setup_resolved :
      ℕ → Bootstrap → NodeSpec → Result Unfit Str → Core K C B → Result SetupError Drained
  setup_resolved now b nc (err e) s = err (unfit e)
  setup_resolved now b nc (ok kernel_type) s =
      start_first now b.mailbox nc (items b.users) (first_state kernel_type nc b.users s)

  abbrev setup_with : ℕ → Bootstrap → Option NodeSpec → Core K C B → Result SetupError Drained
  setup_with now b none s = if b.has_push then ok (false, b.mailbox, s) else err no_config
  setup_with now b (some config) s =
      let nc = apply_local_overrides env config s in
      setup_resolved now b nc (validate_config_for_kernel env nc s) s

  -- After the intervals are chosen.
  unfoldable pub initial_setup : ℕ → Bootstrap → Core K C B → Result SetupError Drained
  unfolding mark_mailbox_ready_and_drain first_state
  initial_setup now b s = setup_with now b b.config s

  -- What it asks of the polls: Polling/Resync acts on it.
  unfoldable pub handle_ws_status : StatusChange → Core K C B → List Action × Core K C B
  handle_ws_status c s =
      let asked = if c.needs_resync then requested ∷ [] else [] in
      if c.connected
      then (asked ++ (due ∷ []), s)
      else (asked ++ (due ∷ []), record s { kernel = env.clear_global_devices s.kernel })
