-- ===== src/Service/Core/Config.antt =====
-- internal/service/service.go: a new configuration of a node, with the overrides of both sides.
pub mod Kept
use xboard_node_plus.Prelude.{
  ℕ, Str, Bool, true, false, List, [], ◌∷◌, Option, none, some, Result, ok, err, ◌>>=◌, map_err,
  if◌then◌else◌, str_beq, str_eq, not, ◌&&◌, ◌||◌, codes, to_lower, trim_space, insert,
}
use xboard_node_plus.Service.Core.{
  Env, Core, TlsCert, resolve_kernel_type, ensure_kernel_type, start_kernel,
}
use xboard_node_plus.Service.Runtime.{Unfit, no_kernel, validate_node_runtime}
use xboard_node_plus.Model.Values.{items, text}
use xboard_node_plus.Model.{NodeSpec, UserSpec, CertConfig}

pub data Reload : Type 0 where
  skipped : Reload
  stopped_no_users : Reload
  skipped_no_config : Reload
  failed : Reload
  restart_success : Reload
  start_success : Reload
  success : Reload

abbrev pub is_empty : Str → Bool
is_empty s = str_beq s []

abbrev pub has_cert : TlsCert → Bool
has_cert t = not (is_empty t.cert_pem) && not (is_empty t.key_pem)

module _ {K C B : Type 0} (env : Env K C B) where
  -- The local fallback of a trojan node. strings.EqualFold: no letter of "trojan" folds to one
  -- that is not ASCII.
  unfoldable pub apply_local_overrides : NodeSpec → Core K C B → NodeSpec
  apply_local_overrides nc s =
      let fallback = trim_space s.trojan_fallback in
      if is_empty fallback || not (str_beq (to_lower nc.protocol) (codes "trojan"))
      then nc
      else record nc {
        tls_settings = some (insert (codes "fallback") (text fallback) (items nc.tls_settings));
      }

  unfoldable pub validate_config_for_kernel : NodeSpec → Core K C B → Result Unfit Str
  validate_config_for_kernel nc s = do
    kernel_type ← map_err (λ e. no_kernel) (resolve_kernel_type env (some nc) s)
    checked ←
        validate_node_runtime env.knows_dns_provider (env.protocols (env.new_kernel kernel_type))
          (some nc) (has_cert (env.tls_cert s.cert))
    ok kernel_type

  abbrev reconfigured : CertConfig → Option Bool × C → Core K C B → Bool × Core K C B
  reconfigured c (none, cert) s = (false, record s { cert = cert })
  reconfigured c (some changed, cert) s = (changed, record s { cert = cert; cert_config = c })

  -- The certificate directory stays the local one.
  unfoldable pub apply_node_cert : CertConfig → Core K C B → Bool × Core K C B
  apply_node_cert c s =
      let copy = record c { cert_dir = s.cert_config.cert_dir } in
      reconfigured copy (env.reconfigure copy s.cert) s

  -- The deprecated fields, for a node without a certificate configuration.
  abbrev legacy_cert : NodeSpec → CertConfig → CertConfig
  legacy_cert nc c = record c {
    auto_tls = nc.auto_tls;
    domain = if is_empty nc.domain then c.domain else nc.domain;
  }

  -- Whether the certificate changed.
  unfoldable pub apply_remote_overrides : NodeSpec → Core K C B → Bool × Core K C B
  unfolding apply_node_cert
  apply_remote_overrides nc s =
      let level = if is_empty nc.kernel_log_level then s.log_level else nc.kernel_log_level in
      let s1 = record s { log_level = level } in
      elim nc.cert_config [
        | none ↦ (false, record s1 { cert_config = legacy_cert nc s1.cert_config })
        | some c ↦ apply_node_cert c s1
      ]

  abbrev restarted : Reload → Bool × Core K C B → Reload × Core K C B
  restarted done (true, s) = (done, s)
  restarted done (false, s) = (failed, s)

  abbrev reloaded : ℕ → Bool × K → Core K C B → Reload × Core K C B
  reloaded now (true, k) s = (
    success,
    record s { kernel = k; applied_config = s.last_config; applied_users = s.last_users },
  )
  reloaded now (false, k) s =
      let s1 = record s { kernel = k } in
      restarted restart_success (start_kernel env now s1.last_config s1.last_users s1)

  abbrev apply_resolved : ℕ → Result Unfit Str → Core K C B → Reload × Core K C B
  apply_resolved now (err e) s = (failed, s)
  apply_resolved now (ok kernel_type) s =
      let s1 = ensure_kernel_type env kernel_type s in
      if env.is_running s1.kernel
      then reloaded now (env.reload s1.last_config s1.last_users (env.tls_cert s1.cert) s1.kernel)
          s1
      else restarted start_success (start_kernel env now s1.last_config s1.last_users s1)

  abbrev apply_to : ℕ → Option NodeSpec → List UserSpec → Core K C B → Reload × Core K C B
  apply_to now config [] s =
      (stopped_no_users, record s { kernel = env.stop s.kernel; applied_users = [] })
  apply_to now none (u ∷ l) s = (skipped_no_config, s)
  apply_to now (some nc) (u ∷ l) s =
      apply_resolved now (map_err (λ e. no_kernel) (resolve_kernel_type env (some nc) s)) s

  unfoldable pub apply_changes : ℕ → Bool → Core K C B → Reload × Core K C B
  apply_changes now false s = (skipped, s)
  apply_changes now true s = apply_to now s.last_config s.last_users s
