-- ===== src/Service/Core/Synced.antt =====
-- internal/service/service.go: the limits, the user list and its hash stay in step.
use xboard_node_plus.Prelude.{
  ℕ, Str, Bool, true, false, List, [], ◌∷◌, Option, none, some, Result, ok, err, ◌≡◌, refl, arith,
  inl, inr, Bool-cases,
}
use xboard_node_plus.Limiter
use xboard_node_plus.Limiter.{Limiter}
use xboard_node_plus.Limiter.Removal.{update_users-fresh}
use xboard_node_plus.Limiter.Speed.{uuid_index}
use xboard_node_plus.Limiter.Speed.Buckets.{uuid_map-update_buckets}
use xboard_node_plus.Service.Core.{
  resolve_kernel_type, start_resolved, Invalid, start_last, started, Env, Core, start_kernel,
  ensure_running, ensure_kernel_type, set_users,
}
use xboard_node_plus.Model.Users.{values}
use xboard_node_plus.Model.{NodeSpec, UserSpec}

-- The limits that UpdateUsers derives from a list of users.
abbrev pub limits_of : List UserSpec → Limiter
limits_of users = (Limiter.update_users users Limiter.new).1

module _ {K C B : Type 0} (env : Env K C B) where
  -- The device limits, the index of the buckets and the hash are those of the users.
  pub record IsSynced (s : Core K C B) : Type 0 where
    pub limits : s.limiter ≡ limits_of s.last_users
    pub buckets :
        s.speed_tracker.uuid_map
        ≡ uuid_index env.new_limiter env.set_limit env.set_burst (values s.limiter.users) []
    pub hash : s.last_user_hash ≡ env.user_hash s.last_users

  -- The part of the state that concerns the users is the same.
  abbrev pub Keeps : Core K C B → Core K C B → Type 0
  Keeps s t =
      (t.limiter ≡ s.limiter)
      × (t.speed_tracker ≡ s.speed_tracker)
      × (t.last_users ≡ s.last_users)
      × (t.last_user_hash ≡ s.last_user_hash)

  pub Keeps-IsSynced : (s t : Core K C B) → Keeps s t → IsSynced s → IsSynced t
  Keeps-IsSynced s t (a, b, c, d) h = record {
    limits = rw (a, c) h.limits;
    buckets = rw (a, b) h.buckets;
    hash = rw (c, d) h.hash;
  }

  pub set_users-IsSynced :
      (users : List UserSpec) (hash : Str) (s : Core K C B)
      → hash ≡ env.user_hash users
      → IsSynced (set_users env users hash s)
  unfolding set_users
  set_users-IsSynced users hash s h = record {
    limits = update_users-fresh users s.limiter;
    buckets = uuid_map-update_buckets env.new_limiter env.set_limit env.set_burst _ s.speed_tracker;
    hash = h;
  }

  pub ensure_kernel_type-Keeps :
      (name : Str) (s : Core K C B) → Keeps s (ensure_kernel_type env name s)
  unfolding ensure_kernel_type
  ensure_kernel_type-Keeps name s = ground arith

  started-Keeps :
      (now : ℕ) (nc : Option NodeSpec) (users : List UserSpec) (r : Bool × K) (s t : Core K C B)
      → Keeps s t
      → Keeps s (started env now nc users r t).1
  started-Keeps now nc users (false, k) s t h = h
  started-Keeps now nc users (true, k) s t h = h

  pub start_kernel-Keeps :
      (now : ℕ) (nc : Option NodeSpec) (users : List UserSpec) (s : Core K C B)
      → Keeps s (start_kernel env now nc users s).1
  unfolding start_kernel
  start_kernel-Keeps now nc users s = resolved (resolve_kernel_type env nc s)
    where
      resolved : (r : Result Invalid Str) → Keeps s (start_resolved env now nc users r s).1
      resolved (err e) = (refl, refl, refl, refl)
      resolved (ok name) = started-Keeps now nc users _ s _ (ensure_kernel_type-Keeps name s)

  start_last-Keeps :
      (now : ℕ) (users : List UserSpec) (nc : Option NodeSpec) (s : Core K C B)
      → Keeps s (start_last env now users nc s).1
  start_last-Keeps now users none s = (refl, refl, refl, refl)
  start_last-Keeps now [] (some nc) s = (refl, refl, refl, refl)
  start_last-Keeps now (u ∷ l) (some nc) s = start_kernel-Keeps now (some nc) (u ∷ l) s

  pub ensure_running-Keeps : (now : ℕ) (s : Core K C B) → Keeps s (ensure_running env now s).1
  unfolding ensure_running
  ensure_running-Keeps now s = elim (Bool-cases (env.is_running s.kernel)) [
    | inl e ↦ rw (e) (refl, refl, refl, refl)
    | inr e ↦ rw (e) (start_last-Keeps now s.last_users s.last_config s)
  ]
