-- ===== src/Service/Core/Config/Kept.antt =====
-- internal/service/service.go: a change of the configuration keeps the users.
use xboard_node_plus.Prelude.{
  Option-cases, ℕ, Str, Bool, true, false, List, [], ◌∷◌, Option, none, some, Result, ok, err, refl,
  ◌∙◌, inl, inr, Bool-cases,
}
use xboard_node_plus.Service.Core.{Env, Core, ensure_kernel_type, start_kernel}
use xboard_node_plus.Service.Core.Synced.{Keeps, ensure_kernel_type-Keeps, start_kernel-Keeps}
use xboard_node_plus.Service.Core.Config.{
  Reload, reconfigured, apply_node_cert, apply_remote_overrides, restarted, reloaded,
  apply_resolved, apply_to, apply_changes,
}
use xboard_node_plus.Service.Runtime.{Unfit}
use xboard_node_plus.Model.{NodeSpec, UserSpec, CertConfig}

module _ {K C B : Type 0} (env : Env K C B) where
  pub Keeps-trans : (s t u : Core K C B) → Keeps env s t → Keeps env t u → Keeps env s u
  Keeps-trans s t u (a, b, c, d) (e, f, g, h) = (e ∙ a, f ∙ b, g ∙ c, h ∙ d)

  reconfigured-Keeps :
      (c : CertConfig) (r : Option Bool × C) (s : Core K C B)
      → Keeps env s (reconfigured env c r s).1
  reconfigured-Keeps c (none, cert) s = (refl, refl, refl, refl)
  reconfigured-Keeps c (some changed, cert) s = (refl, refl, refl, refl)

  pub apply_remote_overrides-Keeps :
      (nc : NodeSpec) (s : Core K C B) → Keeps env s (apply_remote_overrides env nc s).1
  unfolding apply_remote_overrides apply_node_cert
  apply_remote_overrides-Keeps nc s = elim (Option-cases nc.cert_config) [
    | inl e ↦ rw (e) (refl, refl, refl, refl)
    | inr (c, e) ↦ rw (e) (reconfigured-Keeps _ _ _)
  ]

  restarted-Keeps :
      (done : Reload) (r : Bool × Core K C B) (s : Core K C B)
      → Keeps env s r.1
      → Keeps env s (restarted env done r).1
  restarted-Keeps done (true, t) s h = h
  restarted-Keeps done (false, t) s h = h

  start-after :
      (now : ℕ) (nc : Option NodeSpec) (users : List UserSpec) (s t : Core K C B)
      → Keeps env s t
      → Keeps env s (start_kernel env now nc users t).1
  start-after now nc users s t h =
      Keeps-trans s t (start_kernel env now nc users t).1 h (start_kernel-Keeps env now nc users t)

  reloaded-Keeps :
      (now : ℕ) (r : Bool × K) (s t : Core K C B)
      → Keeps env s t
      → Keeps env s (reloaded env now r t).1
  reloaded-Keeps now (true, k) s t h = h
  reloaded-Keeps now (false, k) s t h =
      restarted-Keeps _ _ s
        (start-after now t.last_config t.last_users s (record t { kernel = k }) h)

  apply_resolved-Keeps :
      (now : ℕ) (r : Result Unfit Str) (s : Core K C B) → Keeps env s (apply_resolved env now r s).1
  apply_resolved-Keeps now (err e) s = (refl, refl, refl, refl)
  apply_resolved-Keeps now (ok name) s =
      let s1 = ensure_kernel_type env name s in
      let kept = ensure_kernel_type-Keeps env name s in
      elim (Bool-cases (env.is_running s1.kernel)) [
        | inl e ↦ rw (e) (reloaded-Keeps now _ s s1 kept)
        | inr e ↦
            rw (e) (restarted-Keeps _ _ s (start-after now s1.last_config s1.last_users s s1 kept))
      ]

  apply_to-Keeps :
      (now : ℕ) (config : Option NodeSpec) (users : List UserSpec) (s : Core K C B)
      → Keeps env s (apply_to env now config users s).1
  apply_to-Keeps now config [] s = (refl, refl, refl, refl)
  apply_to-Keeps now none (u ∷ l) s = (refl, refl, refl, refl)
  apply_to-Keeps now (some nc) (u ∷ l) s = apply_resolved-Keeps now _ s

  pub apply_changes-Keeps :
      (now : ℕ) (changed : Bool) (s : Core K C B) → Keeps env s (apply_changes env now changed s).1
  unfolding apply_changes
  apply_changes-Keeps now false s = (refl, refl, refl, refl)
  apply_changes-Keeps now true s = apply_to-Keeps now s.last_config s.last_users s
