-- ===== src/Service/Core/Users/Stopped.antt =====
-- internal/service/service.go: the updates of the users on a kernel that does not run.
use xboard_node_plus.Prelude.{
  Option-cases, ℕ, Str, false, List, [], ◌∷◌, ◌≡◌, inl, inr, refl, Bool-cases, str_beq, codes,
}
use xboard_node_plus.Service.Core.{Env, Core, ensure_running}
use xboard_node_plus.Service.Core.Users.{
  begin_user_sync, apply_user_update_with_diagnostics, apply_user_update, apply_user_delta,
}
use xboard_node_plus.Model.{UserSpec}

module _ {K C B : Type 0} (env : Env K C B) (now : ℕ) (s : Core K C B)
    (stopped : env.is_running s.kernel ≡ false) (no_users : s.last_users ≡ []) where
  not_running : ensure_running env now s ≡ (false, s)
  unfolding ensure_running
  not_running = elim (Option-cases s.last_config) [
    | inl e ↦ rw (stopped, no_users, e) refl
    | inr (nc, e) ↦ rw (stopped, no_users, e) refl
  ]

  update-stopped : (users : List UserSpec) (hash : Str) → apply_user_update env now users hash s ≡ s
  unfolding apply_user_update apply_user_update_with_diagnostics
  update-stopped users hash = elim (Bool-cases (begin_user_sync env users s)) [
    | inl e ↦ rw (e, not_running) refl
    | inr e ↦ rw (e) refl
  ]

  delta-stopped :
      (action : Str) (delta : List UserSpec) → apply_user_delta env now action delta s ≡ s
  unfolding apply_user_delta
  delta-stopped action [] = refl
  delta-stopped action (d ∷ l) = elim (Bool-cases (str_beq action (codes "add"))) [
    | inl add ↦ rw (add, not_running) refl
    | inr not_add ↦ elim (Bool-cases (str_beq action (codes "remove"))) [
      | inl remove ↦ rw (not_add, remove, stopped) refl
      | inr other ↦ rw (not_add, other) refl
    ]
  ]

  -- While the kernel is stopped and the node has no users, neither an update of all users nor a
  -- difference changes anything: the users of both are dropped.
  pub updates-stopped :
      (users : List UserSpec) (hash action : Str)
      → (apply_user_update env now users hash s ≡ s) × (apply_user_delta env now action users s ≡ s)
  updates-stopped users hash action = (update-stopped users hash, delta-stopped action users)
