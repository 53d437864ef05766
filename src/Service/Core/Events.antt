-- ===== src/Service/Core/Events.antt =====
-- internal/service/service.go: what the main loop does with a push event and with a polled snapshot.
pub mod Synced
pub mod Run
use xboard_node_plus.Prelude.{
  ◌&&◌, ℕ, ◌-◌, ◌*◌, Str, Bool, true, false, List, [], ◌∷◌, Option, none, some, Result, ok, err,
  if◌then◌else◌, str_beq, ltb, not, codes,
}
use xboard_node_plus.ControlPlane.{
  Event, EventType, sync_config, sync_users, sync_user_delta, sync_devices, other,
}
use xboard_node_plus.Service.Core.{
  Env, Core, ensure_kernel_type, start_kernel, ensure_running, prepare_user_state,
  restore_user_state,
}
use xboard_node_plus.Service.Core.Users.{
  begin_user_sync, apply_user_update, apply_user_update_with_diagnostics, apply_user_delta,
  with_hash, or_restored,
}
use xboard_node_plus.Service.Core.Config.{
  apply_local_overrides, validate_config_for_kernel, apply_remote_overrides, apply_changes,
}
use xboard_node_plus.Service.Core.Polling.{Snapshot}
use xboard_node_plus.Service.Runtime.{Unfit}
use xboard_node_plus.Model.Values.{Slice, items}
use xboard_node_plus.Model.{NodeSpec, UserSpec}

pub record PullResult : Type 0 where
  pub config : Option NodeSpec
  pub users : Slice UserSpec
  pub config_hash : Str
  pub user_hash : Str
  pub cert_changed : Bool

-- xrayUserReconcileInterval, in nanoseconds
abbrev xray_user_reconcile_interval : ℕ
xray_user_reconcile_interval = 5 * 60 * 1000000000

module _ {K C B : Type 0} (env : Env K C B) where
  -- A configuration that was validated becomes the last one.
  unfoldable pub take_config : Str → NodeSpec → Str → Core K C B → Bool × Core K C B
  take_config kernel_type nc hash s =
      apply_remote_overrides env nc (record (ensure_kernel_type env kernel_type s) {
        last_config = some nc;
        last_config_hash = hash;
      })

  abbrev validated : ℕ → NodeSpec → Result Unfit Str → Core K C B → Core K C B
  validated now nc (err e) s = s
  validated now nc (ok kernel_type) s =
      (apply_changes env now true (take_config kernel_type nc (env.config_hash nc) s).1).1

  unfoldable pub handle_config : ℕ → NodeSpec → Core K C B → Core K C B
  unfolding take_config
  handle_config now config s =
      let nc = apply_local_overrides env config s in
      if str_beq (env.config_hash nc) s.last_config_hash
      then s
      else validated now nc (validate_config_for_kernel env nc s) s

  unfoldable pub handle_users : ℕ → List UserSpec → Core K C B → Core K C B
  handle_users now users s =
      if str_beq (env.user_hash users) s.last_user_hash
      then s
      else apply_user_update env now users (env.user_hash users) s

  abbrev handle_as : ℕ → EventType → Event → Core K C B → Core K C B
  handle_as now sync_config e s = elim e.config [
    | none ↦ s
    | some config ↦ handle_config now config s
  ]
  handle_as now sync_users e s = elim e.users [ none ↦ s | some users ↦ handle_users now users s ]
  handle_as now sync_user_delta e s =
      apply_user_delta env now e.delta_action (items e.delta_users) s
  handle_as now sync_devices e s = elim e.device_users [
    | none ↦ s
    | some devices ↦ record s { kernel = env.update_global_devices devices s.kernel }
  ]
  handle_as now (other name) e s = s

  unfoldable pub handle_ws_event : ℕ → Event → Core K C B → Core K C B
  unfolding handle_config handle_users
  handle_ws_event now e s = handle_as now e.event_type e s

  abbrev reconciled : ℕ → Bool × Core K C B → Core K C B
  reconciled now (true, s) = record s { last_reconcile = some now }
  reconciled now (false, s) = s

  abbrev restarted : ℕ → Str → List UserSpec → Str → Bool × Core K C B → Core K C B
  restarted now hash prev prev_hash (true, s) = record (with_hash env hash s) {
    last_reconcile = some now;
  }
  restarted now hash prev prev_hash (false, s) = restore_user_state env prev prev_hash s

  abbrev recent : ℕ → Option ℕ → Bool
  recent now none = false
  recent now (some t) = ltb (now - t) xray_user_reconcile_interval

  abbrev reconcile_with : ℕ → Option NodeSpec → List UserSpec → Str → Core K C B → Core K C B
  reconcile_with now none users hash s = s
  reconcile_with now (some nc) [] hash s = s
  reconcile_with now (some nc) (u ∷ l) hash s =
      if recent now s.last_reconcile
      then s
      else if not (env.is_running s.kernel)
      then reconciled now (ensure_running env now s)
      else let (prev, prev_hash, s1) = prepare_user_state env (u ∷ l) s in
        restarted now hash prev prev_hash (start_kernel env now s1.last_config (u ∷ l) s1)

  -- An xray kernel is started again now and then with users that did not change.
  unfoldable pub reconcile_unchanged_users : ℕ → List UserSpec → Str → Core K C B → Core K C B
  reconcile_unchanged_users now users hash s =
      if not (str_beq (env.name s.kernel) (codes "xray"))
      then s
      else reconcile_with now s.last_config users hash s

  abbrev taken : Bool → NodeSpec → Str → Result Unfit Str → Core K C B → Bool × Core K C B
  taken cert_changed nc hash (err e) s = (cert_changed, s)
  taken cert_changed nc hash (ok kernel_type) s = (true, (take_config kernel_type nc hash s).1)

  -- The configuration of a snapshot, and whether the kernel has to be reloaded.
  abbrev pulled_config : Bool → Option NodeSpec → Str → Core K C B → Bool × Core K C B
  pulled_config cert_changed none hash s = (cert_changed, s)
  pulled_config cert_changed (some nc) hash s =
      taken cert_changed nc hash (validate_config_for_kernel env nc s) s

  -- The users of a snapshot that were not refused.
  abbrev pulled_users : ℕ → Slice UserSpec → Str → Bool → Core K C B → Core K C B
  pulled_users now none hash config_changed s = s
  pulled_users now (some users) hash config_changed s =
      if str_beq hash s.last_user_hash
      then if config_changed then s else reconcile_unchanged_users now users hash s
      else if config_changed
      then (prepare_user_state env users s).2
      else apply_user_update_with_diagnostics env now users hash s

  abbrev accepted : Slice UserSpec → Core K C B → Slice UserSpec
  accepted none s = none
  accepted (some users) s = if begin_user_sync env users s then some users else none

  -- wsResyncPending, which it clears, is a flag of Polling/Resync.
  unfoldable pub apply_pull_result : ℕ → PullResult → Core K C B → Core K C B
  unfolding take_config reconcile_unchanged_users
  apply_pull_result now r s =
      let users = accepted r.users s in
      let (config_changed, s1) = pulled_config r.cert_changed r.config r.config_hash s in
      (apply_changes env now config_changed
        (pulled_users now users r.user_hash config_changed s1)).1

  -- The configuration is left out when it is the one that the node had when the poll began.
  abbrev unless_same : Bool → NodeSpec → Option NodeSpec
  unless_same true nc = none
  unless_same false nc = some nc

  abbrev pulled_spec : Str → Bool → Option NodeSpec → Option NodeSpec × Str
  pulled_spec current cert_changed none = (none, [])
  pulled_spec current cert_changed (some nc) =
      let hash = env.config_hash nc in
      (unless_same (str_beq hash current && not cert_changed) nc, hash)

  abbrev local_spec : Option NodeSpec → Core K C B → Option NodeSpec
  local_spec none s = none
  local_spec (some nc) s = some (apply_local_overrides env nc s)

  abbrev pulled_hash : Slice UserSpec → Str
  pulled_hash none = []
  pulled_hash (some users) = env.user_hash users

  -- What the goroutine of a poll makes of a snapshot, from the hash of the configuration and the
  -- state of the certificate when it began.
  unfoldable pub pull_result : Str → Bool → Snapshot → Core K C B → PullResult
  pull_result current cert_changed shot s =
      let (config, hash) = pulled_spec current cert_changed (local_spec shot.config s) in
      record {
        config = config;
        users = shot.users;
        config_hash = hash;
        user_hash = pulled_hash shot.users;
        cert_changed = cert_changed;
      }
