-- ===== src/Service/Core/Users/Synced.antt =====
-- internal/service/service.go: whatever a kernel answers, the updates of the users leave the limits,
-- the index of the buckets and the hash in step with the users.
use xboard_node_plus.Prelude.{
  ℕ, Str, Bool, true, false, List, [], ◌∷◌, Option, none, some, ◌≡◌, ◌⊎◌, inl, inr, refl,
  Bool-cases, str_beq, codes,
}
use xboard_node_plus.Service.Core.{
  Env, Core, start_kernel, ensure_running, set_users, prepare_user_state, restore_user_state,
}
use xboard_node_plus.Service.Core.Synced.{
  IsSynced, Keeps-IsSynced, set_users-IsSynced, start_kernel-Keeps, ensure_running-Keeps,
}
use xboard_node_plus.Service.Core.Users.{
  begin_user_sync, apply_user_update_with_diagnostics, apply_user_update, apply_user_delta, updated,
  or_restored, with_hash, update_running, add_running, remove_running, or_update_all, slice,
  remove_old,
}
use xboard_node_plus.Service.Users.{merge_users, subtract_users}
use xboard_node_plus.Model.Values.{items}
use xboard_node_plus.Model.{UserSpec}

module _ {K C B : Type 0} (env : Env K C B) where
  abbrev pub IsHash : List UserSpec → Str → Type 0
  IsHash users hash = (hash ≡ []) ⊎ (hash ≡ env.user_hash users)

  pub with_hash-IsSynced :
      (hash : Str) (s : Core K C B)
      → IsHash s.last_users hash
      → IsSynced env s
      → IsSynced env (with_hash env hash s)
  with_hash-IsSynced [] s h c = c
  with_hash-IsSynced (b ∷ hash) s (inl e) c = absurd (cc)
  with_hash-IsSynced (b ∷ hash) s (inr e) c = record {
    limits = c.limits;
    buckets = c.buckets;
    hash = e;
  }

  pub or_restored-IsSynced :
      (before : List UserSpec) (hash : Str) (r : Bool × Core K C B)
      → IsSynced env r.1
      → hash ≡ env.user_hash before
      → IsSynced env (or_restored env before hash r)
  unfolding restore_user_state
  or_restored-IsSynced before hash (true, t) synced h = synced
  or_restored-IsSynced before hash (false, t) synced h = set_users-IsSynced env before hash t h

  updated-IsSynced :
      (now : ℕ) (users : List UserSpec) (new_hash : Str) (before : List UserSpec) (hash : Str)
      (r : Bool × K) (s : Core K C B)
      → IsSynced env s
      → s.last_users ≡ users
      → IsHash users new_hash
      → hash ≡ env.user_hash before
      → IsSynced env (updated env now users new_hash before hash r s)
  updated-IsSynced now users new_hash before hash (true, k) s synced e n h =
      with_hash-IsSynced new_hash (record s { kernel = k }) (rw (e) n)
        (Keeps-IsSynced env s (record s { kernel = k }) (refl, refl, refl, refl) synced)
  updated-IsSynced now users new_hash before hash (false, k) s synced e n h =
      let s1 = record s { kernel = k } in
      or_restored-IsSynced before hash (start_kernel env now s.last_config users s1)
        (Keeps-IsSynced env s (start_kernel env now s.last_config users s1).1
          (start_kernel-Keeps env now s.last_config users s1) synced)
        h

  update_running-IsSynced :
      (now : ℕ) (users : List UserSpec) (new_hash : Str) (r : Bool × Core K C B)
      → IsSynced env r.1
      → IsHash users new_hash
      → IsSynced env (update_running env now users new_hash r)
  unfolding prepare_user_state
  update_running-IsSynced now users new_hash (false, s) synced h = synced
  update_running-IsSynced now users new_hash (true, s) synced h =
      updated-IsSynced now users new_hash s.last_users s.last_user_hash _
        (set_users env users (env.user_hash users) s)
        (set_users-IsSynced env users (env.user_hash users) s refl) refl h synced.hash

  pub with_diagnostics-IsSynced :
      (now : ℕ) (users : List UserSpec) (new_hash : Str) (s : Core K C B)
      → IsHash users new_hash
      → IsSynced env s
      → IsSynced env (apply_user_update_with_diagnostics env now users new_hash s)
  unfolding apply_user_update_with_diagnostics
  with_diagnostics-IsSynced now users new_hash s h c =
      update_running-IsSynced now users new_hash (ensure_running env now s)
        (Keeps-IsSynced env s (ensure_running env now s).1 (ensure_running-Keeps env now s) c) h

  pub apply_user_update-IsSynced :
      (now : ℕ) (users : List UserSpec) (new_hash : Str) (s : Core K C B)
      → IsHash users new_hash
      → IsSynced env s
      → IsSynced env (apply_user_update env now users new_hash s)
  unfolding apply_user_update
  apply_user_update-IsSynced now users new_hash s h c =
      elim (Bool-cases (begin_user_sync env users s)) [
        | inl e ↦ rw (e) (with_diagnostics-IsSynced now users new_hash s h c)
        | inr e ↦ rw (e) c
      ]

  or_update_all-IsSynced :
      (users before : List UserSpec) (hash : Str) (r : Option ℕ × K) (s : Core K C B)
      → IsSynced env s
      → hash ≡ env.user_hash before
      → IsSynced env (or_update_all env users before hash r s)
  unfolding restore_user_state
  or_update_all-IsSynced users before hash (some n, k) s c h =
      Keeps-IsSynced env s (record s { kernel = k }) (refl, refl, refl, refl) c
  or_update_all-IsSynced users before hash (none, k) s c h =
      elim (Bool-cases (env.update_users users k).0) [
        | inl done ↦ rw (done) (
            Keeps-IsSynced env s (record s { kernel = (env.update_users users k).1 })
              (refl, refl, refl, refl) c)
        | inr failed ↦ rw (failed) (
            set_users-IsSynced env before hash (record s { kernel = (env.update_users users k).1 })
              h)
      ]

  add_running-IsSynced :
      (delta merged : List UserSpec) (r : Bool × Core K C B)
      → IsSynced env r.1
      → IsSynced env (add_running env delta merged r)
  unfolding prepare_user_state
  add_running-IsSynced delta merged (false, s) c = c
  add_running-IsSynced delta merged (true, s) c =
      or_update_all-IsSynced merged s.last_users s.last_user_hash _ _
        (set_users-IsSynced env merged (env.user_hash merged)
          (record s { kernel = remove_old env delta s.last_users s.kernel }) refl)
        c.hash

  remove_running-IsSynced :
      (delta filtered : List UserSpec) (s : Core K C B)
      → IsSynced env s
      → IsSynced env (remove_running env delta filtered s)
  unfolding prepare_user_state
  remove_running-IsSynced delta filtered s c =
      or_update_all-IsSynced filtered s.last_users s.last_user_hash _ _
        (set_users-IsSynced env filtered (env.user_hash filtered) s refl) c.hash

  pub apply_user_delta-IsSynced :
      (now : ℕ) (action : Str) (delta : List UserSpec) (s : Core K C B)
      → IsSynced env s
      → IsSynced env (apply_user_delta env now action delta s)
  unfolding apply_user_delta
  apply_user_delta-IsSynced now action [] s c = c
  apply_user_delta-IsSynced now action (d ∷ l) s c =
      elim (Bool-cases (str_beq action (codes "add"))) [
        | inl add ↦ rw (add) (
            add_running-IsSynced (d ∷ l)
              (items (merge_users (slice env s.last_users) (some (d ∷ l))))
              (ensure_running env now s)
              (Keeps-IsSynced env s (ensure_running env now s).1 (ensure_running-Keeps env now s)
                c))
        | inr not_add ↦ elim (Bool-cases (str_beq action (codes "remove"))) [
          | inl remove ↦ elim (Bool-cases (env.is_running s.kernel)) [
            | inl running ↦
                rw (not_add, remove, running)
                  (remove_running-IsSynced (d ∷ l)
                    (items (subtract_users (slice env s.last_users) (some (d ∷ l)))) s c)
            | inr stopped ↦ rw (not_add, remove, stopped) c
          ]
          | inr other ↦ rw (not_add, other) c
        ]
      ]
