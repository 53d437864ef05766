-- ===== src/Service/Core/Events/Run.antt =====
-- internal/service/service.go: the users, their limits and their hash stay in step with a polled
-- snapshot, and along every run of the main loop.
use mathlib.Core.Path.{subst}
use xboard_node_plus.Prelude.{
  ℕ, Str, Bool, true, false, List, [], ◌∷◌, Option, none, some, Result, ok, err, ◌≡◌, inl, inr,
  refl, sym, Bool-cases, str_beq, codes,
}
use xboard_node_plus.ControlPlane.{Event}
use xboard_node_plus.Service.Core.{
  Env, Core, start_kernel, ensure_running, set_users, prepare_user_state,
}
use xboard_node_plus.Service.Core.Synced.{
  IsSynced, Keeps-IsSynced, set_users-IsSynced, start_kernel-Keeps, ensure_running-Keeps,
}
use xboard_node_plus.Service.Core.Config.{validate_config_for_kernel}
use xboard_node_plus.Service.Core.Users.{begin_user_sync}
use xboard_node_plus.Service.Core.Users.Synced.{IsHash, with_diagnostics-IsSynced}
use xboard_node_plus.Service.Core.Events.{
  pulled_hash, pull_result, PullResult, handle_ws_event, recent, taken, reconcile_with,
  reconcile_unchanged_users, pulled_config, pulled_users, accepted, apply_pull_result,
}
use xboard_node_plus.Service.Runtime.{Unfit}
use xboard_node_plus.Model.Values.{Slice}
use xboard_node_plus.Model.{NodeSpec, UserSpec}
use xboard_node_plus.ControlPlane.Mailbox.{MailboxState}
use xboard_node_plus.Service.Core.Polling.{Snapshot}
use xboard_node_plus.Service.Core.Setup.{StatusChange, drain_machine_mailbox, handle_ws_status}
use xboard_node_plus.Service.Core.Setup.Synced.{drain-IsSynced, status-IsSynced}
use xboard_node_plus.Service.Core.Events.Synced.{
  take_config-IsSynced, changes-IsSynced, handle_ws_event-IsSynced, reconciled-IsSynced,
  restarted-IsSynced,
}

-- What the main loop takes from its channels, with the time: a push event, a
-- polled snapshot, what the mailbox holds, or a change of the push connection.
pub data Message : Type 0 where
  pushed : ℕ → Event → Message
  polled : ℕ → Str → Bool → Snapshot → Message
  drained : ℕ → MailboxState → Message
  status_changed : StatusChange → Message

module _ {K C B : Type 0} (env : Env K C B) where
  reconcile_with-IsSynced :
      (now : ℕ) (config : Option NodeSpec) (users : List UserSpec) (hash : Str) (s : Core K C B)
      → IsHash env users hash
      → IsSynced env s
      → IsSynced env (reconcile_with env now config users hash s)
  unfolding prepare_user_state set_users
  reconcile_with-IsSynced now none users hash s h c = c
  reconcile_with-IsSynced now (some nc) [] hash s h c = c
  reconcile_with-IsSynced now (some nc) (u ∷ l) hash s h c =
      elim (Bool-cases (recent env now s.last_reconcile)) [
        | inl e ↦ rw (e) c
        | inr e ↦ elim (Bool-cases (env.is_running s.kernel)) [
          | inl running ↦
              let s1 = set_users env (u ∷ l) (env.user_hash (u ∷ l)) s in
              let kept = start_kernel-Keeps env now s1.last_config (u ∷ l) s1 in
              rw (e, running)
                (restarted-IsSynced env now hash s.last_users s.last_user_hash
                  (start_kernel env now s1.last_config (u ∷ l) s1)
                  (Keeps-IsSynced env s1 (start_kernel env now s1.last_config (u ∷ l) s1).1 kept
                    (set_users-IsSynced env (u ∷ l) (env.user_hash (u ∷ l)) s refl))
                  (subst (λ users. IsHash env users hash) (sym kept.2) h) c.hash)
          | inr stopped ↦
              rw (e, stopped)
                (reconciled-IsSynced env now (ensure_running env now s) (
                  Keeps-IsSynced env s (ensure_running env now s).1 (ensure_running-Keeps env now s)
                    c))
        ]
      ]

  reconcile-IsSynced :
      (now : ℕ) (users : List UserSpec) (hash : Str) (s : Core K C B)
      → IsHash env users hash
      → IsSynced env s
      → IsSynced env (reconcile_unchanged_users env now users hash s)
  unfolding reconcile_unchanged_users
  reconcile-IsSynced now users hash s h c =
      elim (Bool-cases (str_beq (env.name s.kernel) (codes "xray"))) [
        | inl e ↦ rw (e) (reconcile_with-IsSynced now s.last_config users hash s h c)
        | inr e ↦ rw (e) c
      ]

  taken-IsSynced :
      (cert_changed : Bool) (nc : NodeSpec) (hash : Str) (r : Result Unfit Str) (s : Core K C B)
      → IsSynced env s
      → IsSynced env (taken env cert_changed nc hash r s).1
  taken-IsSynced cert_changed nc hash (err e) s c = c
  taken-IsSynced cert_changed nc hash (ok name) s c = take_config-IsSynced env name nc hash s c

  pulled_config-IsSynced :
      (cert_changed : Bool) (config : Option NodeSpec) (hash : Str) (s : Core K C B)
      → IsSynced env s
      → IsSynced env (pulled_config env cert_changed config hash s).1
  pulled_config-IsSynced cert_changed none hash s c = c
  pulled_config-IsSynced cert_changed (some nc) hash s c =
      taken-IsSynced cert_changed nc hash (validate_config_for_kernel env nc s) s c

  -- The hash of a snapshot is that of its users.
  abbrev pub IsHashed : Slice UserSpec → Str → Type 0
  IsHashed none hash = Unit
  IsHashed (some users) hash = hash ≡ env.user_hash users

  pulled_users-IsSynced :
      (now : ℕ) (users : Slice UserSpec) (hash : Str) (changed : Bool) (s : Core K C B)
      → IsHashed users hash
      → IsSynced env s
      → IsSynced env (pulled_users env now users hash changed s)
  unfolding prepare_user_state
  pulled_users-IsSynced now none hash changed s h c = c
  pulled_users-IsSynced now (some users) hash true s h c =
      elim (Bool-cases (str_beq hash s.last_user_hash)) [
        | inl same ↦ rw (same) c
        | inr other ↦ rw (other) (set_users-IsSynced env users (env.user_hash users) s refl)
      ]
  pulled_users-IsSynced now (some users) hash false s h c =
      elim (Bool-cases (str_beq hash s.last_user_hash)) [
        | inl same ↦ rw (same) (reconcile-IsSynced now users hash s (inr h) c)
        | inr other ↦ rw (other) (with_diagnostics-IsSynced env now users hash s (inr h) c)
      ]

  accepted-IsHashed :
      (users : Slice UserSpec) (hash : Str) (s : Core K C B)
      → IsHashed users hash
      → IsHashed (accepted env users s) hash
  accepted-IsHashed none hash s h = h
  accepted-IsHashed (some users) hash s h = elim (Bool-cases (begin_user_sync env users s)) [
    | inl e ↦ rw (e) h
    | inr e ↦ rw (e) tt
  ]

  apply_pull_result-IsSynced :
      (now : ℕ) (r : PullResult) (s : Core K C B)
      → IsHashed r.users r.user_hash
      → IsSynced env s
      → IsSynced env (apply_pull_result env now r s)
  unfolding apply_pull_result
  apply_pull_result-IsSynced now r s h c =
      let users = accepted env r.users s in
      let p = pulled_config env r.cert_changed r.config r.config_hash s in
      changes-IsSynced env now p.0 (pulled_users env now users r.user_hash p.0 p.1) (
        pulled_users-IsSynced now users r.user_hash p.0 p.1
          (accepted-IsHashed r.users r.user_hash s h)
          (pulled_config-IsSynced r.cert_changed r.config r.config_hash s c))

  unfoldable pub handle : Message → Core K C B → Core K C B
  handle (pushed now e) s = handle_ws_event env now e s
  handle (polled now current cert_changed shot) s =
      apply_pull_result env now (pull_result env current cert_changed shot s) s
  handle (drained now m) s = (drain_machine_mailbox env now m s).1
  handle (status_changed c) s = (handle_ws_status env c s).1

  unfoldable pub run : List Message → Core K C B → Core K C B
  run [] s = s
  run (m ∷ l) s = run l (handle m s)

  pull_result-IsHashed :
      (current : Str) (cert_changed : Bool) (shot : Snapshot) (s : Core K C B)
      → IsHashed
          (pull_result env current cert_changed shot s).users
          (pull_result env current cert_changed shot s).user_hash
  unfolding pull_result
  pull_result-IsHashed current cert_changed shot s = hashed shot.users
    where
      hashed : (users : Slice UserSpec) → IsHashed users (pulled_hash env users)
      hashed none = tt
      hashed (some users) = refl

  -- Whatever the panel sends and the kernel answers, along every run of push events, polled
  -- snapshots, drains of the mailbox and changes of the push connection the device limits, the index
  -- of the speed buckets and the hash stay those of the users of the node, from a state where they
  -- are.
  pub run-IsSynced : (l : List Message) (s : Core K C B) → IsSynced env s → IsSynced env (run l s)
  unfolding run handle
  run-IsSynced [] s c = c
  run-IsSynced (pushed now e ∷ l) s c = run-IsSynced l _ (handle_ws_event-IsSynced env now e s c)
  run-IsSynced (polled now current cert_changed shot ∷ l) s c = run-IsSynced l _ (
      apply_pull_result-IsSynced now (pull_result env current cert_changed shot s) s
        (pull_result-IsHashed current cert_changed shot s) c)
  run-IsSynced (drained now m ∷ l) s c = run-IsSynced l _ (drain-IsSynced env now m s c)
  run-IsSynced (status_changed x ∷ l) s c = run-IsSynced l _ (status-IsSynced env x s c)
