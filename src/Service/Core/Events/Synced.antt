-- ===== src/Service/Core/Events/Synced.antt =====
-- internal/service/service.go: the users, their limits and their hash stay in step along a run of the
-- main loop.
use xboard_node_plus.Prelude.{
  ℕ, Str, Bool, true, false, List, some, Result, ok, err, ◌≡◌, inl, inr, refl, Bool-cases,
  Option-cases, str_beq,
}
use xboard_node_plus.ControlPlane.{Event, EventType}
use xboard_node_plus.Service.Core.{Env, Core, ensure_kernel_type, restore_user_state}
use xboard_node_plus.Service.Core.Synced.{
  IsSynced, Keeps-IsSynced, set_users-IsSynced, ensure_kernel_type-Keeps,
}
use xboard_node_plus.Service.Core.Config.{
  apply_local_overrides, validate_config_for_kernel, apply_remote_overrides, apply_changes,
}
use xboard_node_plus.Service.Core.Config.Kept.{apply_remote_overrides-Keeps, apply_changes-Keeps}
use xboard_node_plus.Service.Core.Users.Synced.{
  IsHash, with_hash-IsSynced, apply_user_update-IsSynced, apply_user_delta-IsSynced,
}
use xboard_node_plus.Service.Core.Events.{
  take_config, validated, handle_config, handle_users, handle_as, handle_ws_event, reconciled,
  restarted,
}
use xboard_node_plus.Service.Runtime.{Unfit}
use xboard_node_plus.Model.Values.{items}
use xboard_node_plus.Model.{NodeSpec, UserSpec}

module _ {K C B : Type 0} (env : Env K C B) where
  pub take_config-IsSynced :
      (name : Str) (nc : NodeSpec) (hash : Str) (s : Core K C B)
      → IsSynced env s
      → IsSynced env (take_config env name nc hash s).1
  unfolding take_config
  take_config-IsSynced name nc hash s c =
      let s1 = record (ensure_kernel_type env name s) {
        last_config = some nc;
        last_config_hash = hash;
      } in
      Keeps-IsSynced env s1 (apply_remote_overrides env nc s1).1
        (apply_remote_overrides-Keeps env nc s1)
        (Keeps-IsSynced env s s1 (ensure_kernel_type-Keeps env name s) c)

  pub changes-IsSynced :
      (now : ℕ) (changed : Bool) (s : Core K C B)
      → IsSynced env s
      → IsSynced env (apply_changes env now changed s).1
  changes-IsSynced now changed s c =
      Keeps-IsSynced env s (apply_changes env now changed s).1
        (apply_changes-Keeps env now changed s) c

  validated-IsSynced :
      (now : ℕ) (nc : NodeSpec) (r : Result Unfit Str) (s : Core K C B)
      → IsSynced env s
      → IsSynced env (validated env now nc r s)
  validated-IsSynced now nc (err e) s c = c
  validated-IsSynced now nc (ok name) s c =
      changes-IsSynced now true (take_config env name nc (env.config_hash nc) s).1
        (take_config-IsSynced name nc (env.config_hash nc) s c)

  handle_config-IsSynced :
      (now : ℕ) (config : NodeSpec) (s : Core K C B)
      → IsSynced env s
      → IsSynced env (handle_config env now config s)
  unfolding handle_config
  handle_config-IsSynced now config s c =
      let nc = apply_local_overrides env config s in
      elim (Bool-cases (str_beq (env.config_hash nc) s.last_config_hash)) [
        | inl e ↦ rw (e) c
        | inr e ↦ rw (e) (validated-IsSynced now nc (validate_config_for_kernel env nc s) s c)
      ]

  handle_users-IsSynced :
      (now : ℕ) (users : List UserSpec) (s : Core K C B)
      → IsSynced env s
      → IsSynced env (handle_users env now users s)
  unfolding handle_users
  handle_users-IsSynced now users s c =
      elim (Bool-cases (str_beq (env.user_hash users) s.last_user_hash)) [
        | inl e ↦ rw (e) c
        | inr e ↦
            rw (e) (apply_user_update-IsSynced env now users (env.user_hash users) s (inr refl) c)
      ]

  handle_as-IsSynced :
      (now : ℕ) (t : EventType) (e : Event) (s : Core K C B)
      → IsSynced env s
      → IsSynced env (handle_as env now t e s)
  handle_as-IsSynced now EventType.sync_config e s c = elim (Option-cases e.config) [
    | inl absent ↦ rw (absent) c
    | inr (config, there) ↦ rw (there) (handle_config-IsSynced now config s c)
  ]
  handle_as-IsSynced now EventType.sync_users e s c = elim (Option-cases e.users) [
    | inl absent ↦ rw (absent) c
    | inr (users, there) ↦ rw (there) (handle_users-IsSynced now users s c)
  ]
  handle_as-IsSynced now EventType.sync_user_delta e s c =
      apply_user_delta-IsSynced env now e.delta_action (items e.delta_users) s c
  handle_as-IsSynced now EventType.sync_devices e s c = elim (Option-cases e.device_users) [
    | inl absent ↦ rw (absent) c
    | inr (devices, there) ↦ rw (there) (
        Keeps-IsSynced env s (record s { kernel = env.update_global_devices devices s.kernel })
          (refl, refl, refl, refl) c)
  ]
  handle_as-IsSynced now (EventType.other name) e s c = c

  pub handle_ws_event-IsSynced :
      (now : ℕ) (e : Event) (s : Core K C B)
      → IsSynced env s
      → IsSynced env (handle_ws_event env now e s)
  unfolding handle_ws_event
  handle_ws_event-IsSynced now e s c = handle_as-IsSynced now e.event_type e s c

  pub reconciled-IsSynced :
      (now : ℕ) (r : Bool × Core K C B) → IsSynced env r.1 → IsSynced env (reconciled env now r)
  reconciled-IsSynced now (true, s) c =
      Keeps-IsSynced env s (record s { last_reconcile = some now }) (refl, refl, refl, refl) c
  reconciled-IsSynced now (false, s) c = c

  pub restarted-IsSynced :
      (now : ℕ) (hash : Str) (prev : List UserSpec) (prev_hash : Str) (r : Bool × Core K C B)
      → IsSynced env r.1
      → IsHash env r.1.last_users hash
      → prev_hash ≡ env.user_hash prev
      → IsSynced env (restarted env now hash prev prev_hash r)
  unfolding restore_user_state
  restarted-IsSynced now hash prev prev_hash (true, s) c h p =
      let c1 = with_hash-IsSynced env hash s h c in
      record { limits = c1.limits; buckets = c1.buckets; hash = c1.hash }
  restarted-IsSynced now hash prev prev_hash (false, s) c h p =
      set_users-IsSynced env prev prev_hash s p
