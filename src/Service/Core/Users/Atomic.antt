-- ===== src/Service/Core/Users/Atomic.antt =====
-- internal/service/service.go: an update of the users happens whole or not at all.
use mathlib.Core.Path.{subst}
use xboard_node_plus.Prelude.{
  if◌then◌else◌, codes, str_beq, ℕ, Str, Bool, true, false, List, [], ◌∷◌, Option, none, some, ◌≡◌,
  ◌⊎◌, inl, inr, refl, ◌∙◌, Bool-cases,
}
use xboard_node_plus.Service.Core.{
  Env, Core, start_kernel, ensure_running, set_users, prepare_user_state, restore_user_state,
}
use xboard_node_plus.Service.Core.Synced.{start_kernel-Keeps, ensure_running-Keeps}
use xboard_node_plus.Service.Core.Users.{
  begin_user_sync, apply_user_update_with_diagnostics, apply_user_update, apply_user_delta, updated,
  or_restored, with_hash, update_running, add_running, remove_running, or_update_all, slice,
}
use xboard_node_plus.Service.Users.{merge_users, subtract_users}
use xboard_node_plus.Model.Values.{items}
use xboard_node_plus.Model.{UserSpec}

module _ {K C B : Type 0} (env : Env K C B) where
  abbrev pub OneOf : List UserSpec → List UserSpec → List UserSpec → Type 0
  OneOf a b l = (l ≡ a) ⊎ (l ≡ b)

  with_hash-users : (hash : Str) (s : Core K C B) → (with_hash env hash s).last_users ≡ s.last_users
  with_hash-users [] s = refl
  with_hash-users (c ∷ h) s = refl

  or_restored-OneOf :
      (users before : List UserSpec) (hash : Str) (r : Bool × Core K C B)
      → r.1.last_users ≡ users
      → OneOf users before (or_restored env before hash r).last_users
  unfolding restore_user_state set_users
  or_restored-OneOf users before hash (true, t) e = inl e
  or_restored-OneOf users before hash (false, t) e = inr refl

  updated-OneOf :
      (now : ℕ) (users : List UserSpec) (new_hash : Str) (before : List UserSpec) (hash : Str)
      (r : Bool × K) (s : Core K C B)
      → s.last_users ≡ users
      → OneOf users before (updated env now users new_hash before hash r s).last_users
  updated-OneOf now users new_hash before hash (true, k) s e =
      inl (with_hash-users new_hash (record s { kernel = k }) ∙ e)
  updated-OneOf now users new_hash before hash (false, k) s e =
      let kept = start_kernel-Keeps env now s.last_config users (record s { kernel = k }) in
      or_restored-OneOf users before hash
        (start_kernel env now s.last_config users (record s { kernel = k })) (kept.2 ∙ e)

  update_running-OneOf :
      (now : ℕ) (users : List UserSpec) (new_hash : Str) (r : Bool × Core K C B)
      → OneOf users r.1.last_users (update_running env now users new_hash r).last_users
  unfolding prepare_user_state set_users
  update_running-OneOf now users new_hash (false, s) = inr refl
  update_running-OneOf now users new_hash (true, s) = updated-OneOf now users new_hash _ _ _ _ refl

  or_update_all-OneOf :
      (users before : List UserSpec) (hash : Str) (r : Option ℕ × K) (s : Core K C B)
      → s.last_users ≡ users
      → OneOf users before (or_update_all env users before hash r s).last_users
  unfolding restore_user_state set_users
  or_update_all-OneOf users before hash (some n, k) s e = inl e
  or_update_all-OneOf users before hash (none, k) s e =
      elim (Bool-cases (env.update_users users k).0) [
        | inl done ↦ rw (done) (inl e)
        | inr failed ↦ rw (failed) (inr refl)
      ]

  -- Whatever the kernel answers, after an update of all users the node has the users of the update
  -- or those before.
  pub apply_user_update-OneOf :
      (now : ℕ) (users : List UserSpec) (new_hash : Str) (s : Core K C B)
      → OneOf users s.last_users (apply_user_update env now users new_hash s).last_users
  unfolding apply_user_update apply_user_update_with_diagnostics
  apply_user_update-OneOf now users new_hash s = elim (Bool-cases (begin_user_sync env users s)) [
    | inl e ↦ rw (e) (
        subst
          (λ before.
            OneOf users before
              (apply_user_update_with_diagnostics env now users new_hash s).last_users)
          (ensure_running-Keeps env now s).2
          (update_running-OneOf now users new_hash (ensure_running env now s)))
    | inr e ↦ rw (e) (inr refl)
  ]

  -- The list that a difference leaves, read by its action.
  abbrev pub target : Str → List UserSpec → List UserSpec → List UserSpec
  target action delta before =
      if str_beq action (codes "add")
      then items (merge_users (slice env before) (some delta))
      else if str_beq action (codes "remove")
      then items (subtract_users (slice env before) (some delta))
      else before

  add_running-OneOf :
      (delta merged : List UserSpec) (r : Bool × Core K C B)
      → OneOf merged r.1.last_users (add_running env delta merged r).last_users
  unfolding prepare_user_state set_users
  add_running-OneOf delta merged (false, s) = inr refl
  add_running-OneOf delta merged (true, s) =
      or_update_all-OneOf merged s.last_users s.last_user_hash _ _ refl

  remove_running-OneOf :
      (delta filtered : List UserSpec) (s : Core K C B)
      → OneOf filtered s.last_users (remove_running env delta filtered s).last_users
  unfolding prepare_user_state set_users
  remove_running-OneOf delta filtered s =
      or_update_all-OneOf filtered s.last_users s.last_user_hash _ _ refl

  -- After a difference of users the node has the users before with the difference merged or taken
  -- out, by its action, or it still has those before.
  apply_user_delta-OneOf :
      (now : ℕ) (action : Str) (delta : List UserSpec) (s : Core K C B)
      → OneOf
          (target action delta s.last_users)
          s.last_users
          (apply_user_delta env now action delta s).last_users
  unfolding apply_user_delta
  apply_user_delta-OneOf now action [] s = inr refl
  apply_user_delta-OneOf now action (d ∷ l) s =
      let merged = items (merge_users (slice env s.last_users) (some (d ∷ l))) in
      let filtered = items (subtract_users (slice env s.last_users) (some (d ∷ l))) in
      elim (Bool-cases (str_beq action (codes "add"))) [
        | inl add ↦ rw (add) (
            subst
              (λ before.
                OneOf merged before
                  (add_running env (d ∷ l) merged (ensure_running env now s)).last_users)
              (ensure_running-Keeps env now s).2
              (add_running-OneOf (d ∷ l) merged (ensure_running env now s)))
        | inr not_add ↦ elim (Bool-cases (str_beq action (codes "remove"))) [
          | inl remove ↦ elim (Bool-cases (env.is_running s.kernel)) [
            | inl running ↦ rw (not_add, remove, running) (remove_running-OneOf (d ∷ l) filtered s)
            | inr stopped ↦ rw (not_add, remove, stopped) (inr refl)
          ]
          | inr other ↦ rw (not_add, other) (inr refl)
        ]
      ]
