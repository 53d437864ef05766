-- ===== src/Service/Core/Setup/Synced.antt =====
-- internal/service/service.go: the users, their limits and their hash are in step after the first setup,
-- and stay so through the drain of the mailbox.
use mathlib.Core.Path.{subst}
use xboard_node_plus.Prelude.{
  ℕ, Str, Bool, true, false, List, [], ◌∷◌, Option, none, some, Result, ok, err, ◌≡◌, refl, inl,
  inr, Bool-cases,
}
use xboard_node_plus.ControlPlane.{Event}
use xboard_node_plus.ControlPlane.Mailbox.{
  mark_ready, drain_if_ready, seed_baseline, MailboxState, NodeMailbox,
}
use xboard_node_plus.Service.Core.{Env, Core, start_kernel, prepare_user_state, ensure_kernel_type}
use xboard_node_plus.Service.Core.Synced.{
  IsSynced, Keeps-IsSynced, set_users-IsSynced, start_kernel-Keeps,
}
use xboard_node_plus.Service.Core.Config.{
  validate_config_for_kernel, apply_local_overrides, apply_remote_overrides,
}
use xboard_node_plus.Service.Core.Config.Kept.{apply_remote_overrides-Keeps}
use xboard_node_plus.Service.Core.Events.Synced.{handle_ws_event-IsSynced}
use xboard_node_plus.Service.Core.Setup.{
  Bootstrap, StatusChange, SetupError, handle_if, drain_machine_mailbox, Drained,
  mark_mailbox_ready_and_drain, first_state, drain_started, start_first, setup_resolved, setup_with,
  initial_setup, handle_ws_status,
}
use xboard_node_plus.Service.Runtime.{Unfit}
use xboard_node_plus.Model.Values.{clone_nonempty, Slice, items}
use xboard_node_plus.Model.{NodeSpec, UserSpec}

module _ {K C B : Type 0} (env : Env K C B) where
  handle_if-IsSynced :
      (b : Bool) (now : ℕ) (e : Event) (s : Core K C B)
      → IsSynced env s
      → IsSynced env (handle_if env b now e s)
  handle_if-IsSynced false now e s c = c
  handle_if-IsSynced true now e s c = handle_ws_event-IsSynced env now e s c

  pub drain-IsSynced :
      (now : ℕ) (m : MailboxState) (s : Core K C B)
      → IsSynced env s
      → IsSynced env (drain_machine_mailbox env now m s).1
  unfolding drain_machine_mailbox
  drain-IsSynced now m s c =
      handle_if-IsSynced m.has_devices now _ _
        (handle_if-IsSynced m.has_users now _ _ (handle_if-IsSynced m.has_config now _ s c))

  pub status-IsSynced :
      (change : StatusChange) (s : Core K C B)
      → IsSynced env s
      → IsSynced env (handle_ws_status env change s).1
  unfolding handle_ws_status
  status-IsSynced change s c = elim (Bool-cases change.connected) [
    | inl e ↦ rw (e) c
    | inr e ↦ rw (e) (
        Keeps-IsSynced env s (record s { kernel = env.clear_global_devices s.kernel })
          (refl, refl, refl, refl) c)
  ]

  mark_ready-IsSynced :
      (now : ℕ) (mailbox : Option NodeMailbox) (s : Core K C B)
      → IsSynced env s
      → IsSynced env (mark_mailbox_ready_and_drain env now mailbox s).2
  unfolding mark_mailbox_ready_and_drain
  mark_ready-IsSynced now none s c = c
  mark_ready-IsSynced now (some m) s c =
      let seeded = seed_baseline (clone_nonempty (some s.last_users)) s.last_config m in
      drain-IsSynced now (drain_if_ready (mark_ready seeded)).0 s c

  first_state-IsSynced :
      (name : Str) (nc : NodeSpec) (users : Slice UserSpec) (s : Core K C B)
      → IsSynced env (first_state env name nc users s)
  unfolding first_state prepare_user_state
  first_state-IsSynced name nc users s =
      set_users-IsSynced env (items users) (env.user_hash (items users))
        (record (ensure_kernel_type env name s) {
          last_config = some nc;
          last_config_hash = env.config_hash nc;
        })
        refl

  -- A setup that fails has no state after it.
  abbrev Holds : Result SetupError (Drained env) → Type 0
  Holds (err e) = Unit
  Holds (ok d) = IsSynced env d.2

  drain_started-Holds :
      (now : ℕ) (mailbox : Option NodeMailbox) (r : Bool × Core K C B)
      → IsSynced env r.1
      → Holds (drain_started env now mailbox r)
  drain_started-Holds now mailbox (false, s) c = tt
  drain_started-Holds now mailbox (true, s) c = mark_ready-IsSynced now mailbox s c

  start_first-Holds :
      (now : ℕ) (mailbox : Option NodeMailbox) (nc : NodeSpec) (users : List UserSpec)
      (s : Core K C B)
      → IsSynced env s
      → Holds (start_first env now mailbox nc users s)
  start_first-Holds now mailbox nc [] s c = mark_ready-IsSynced now mailbox s c
  start_first-Holds now mailbox nc (u ∷ l) s c =
      let s1 = (apply_remote_overrides env nc s).1 in
      drain_started-Holds now mailbox (start_kernel env now (some nc) (u ∷ l) s1) (
        Keeps-IsSynced env s1 (start_kernel env now (some nc) (u ∷ l) s1).1
          (start_kernel-Keeps env now (some nc) (u ∷ l) s1)
          (Keeps-IsSynced env s s1 (apply_remote_overrides-Keeps env nc s) c))

  resolved-Holds :
      (now : ℕ) (b : Bootstrap) (nc : NodeSpec) (r : Result Unfit Str) (s : Core K C B)
      → Holds (setup_resolved env now b nc r s)
  resolved-Holds now b nc (err e) s = tt
  resolved-Holds now b nc (ok name) s =
      start_first-Holds now b.mailbox nc (items b.users) (first_state env name nc b.users s)
        (first_state-IsSynced name nc b.users s)

  -- A first setup that succeeds with a configuration leaves the device limits, the index of the
  -- buckets and the hash those of the users of the node, the drain of its mailbox included, whatever
  -- the state before.
  pub initial_setup-IsSynced :
      (now : ℕ) (b : Bootstrap) (nc : NodeSpec) (s t : Core K C B) (resync : Bool)
      (mailbox : Option NodeMailbox)
      → b.config ≡ some nc
      → initial_setup env now b s ≡ ok (resync, mailbox, t)
      → IsSynced env t
  unfolding initial_setup
  initial_setup-IsSynced now b nc s t resync mailbox e h =
      let nc1 = apply_local_overrides env nc s in
      let same : setup_with env now b (some nc) s ≡ ok (resync, mailbox, t) =
        subst (λ c. setup_with env now b c s ≡ ok (resync, mailbox, t)) e h in
      subst Holds same (resolved-Holds now b nc1 (validate_config_for_kernel env nc1 s) s)
