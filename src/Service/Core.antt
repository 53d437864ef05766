-- ===== src/Service/Core.antt =====
-- internal/service/service.go: the state of a node's main loop and the kernel that it drives. The
-- kernel (the interface of internal/kernel/kernel.go), the certificate manager, the token buckets of
-- golang.org/x/time/rate, the digests and the parts of the control plane are parameters: `Env`
-- holds their operations. Logging and the callbacks that a kernel is given are not modelled.
pub mod Users
pub mod Synced
pub mod Serving
pub mod Config
pub mod Events
pub mod Polling
pub mod Setup
use xboard_node_plus.Prelude.{
  ℕ, Str, Bool, true, false, List, [], ◌∷◌, Option, none, some, if◌then◌else◌, Result, ok, err,
  str_beq, ltb, length, Map,
}
use xboard_node_plus.Limiter.{Limiter}
use xboard_node_plus.Limiter
use xboard_node_plus.Limiter.Speed.{SpeedTracker, update_buckets}
use xboard_node_plus.Model.{NodeSpec, UserSpec, CertConfig}
use xboard_node_plus.Validation.{Invalid, kernel_sing_box}
use xboard_node_plus.Validation.Kernels.{resolve_effective_kernel_type}

-- kernel.TLSCert
pub record TlsCert : Type 0 where
  pub cert_pem : Str
  pub key_pem : Str

-- K is a kernel with its state, C a certificate manager, B a token bucket. An operation gives
-- whether it succeeded, or the counts of a success, and the state after it.
pub record Env (K C B : Type 0) : Type 0 where
  pub new_kernel : Str → K
  pub name : K → Str
  pub protocols : K → List Str
  pub is_running : K → Bool
  pub start : Option NodeSpec → List UserSpec → TlsCert → K → Bool × K
  pub reload : Option NodeSpec → List UserSpec → TlsCert → K → Bool × K
  pub stop : K → K
  pub add_users : List UserSpec → K → Option ℕ × K
  pub remove_users : List UserSpec → K → Option ℕ × K
  pub update_users : List UserSpec → K → Bool × K
  pub update_global_devices : Map ℕ (List Str) → K → K
  pub clear_global_devices : K → K
  pub tls_cert : C → TlsCert
  pub cert_renewed : C → Bool × C
  pub reconfigure : CertConfig → C → Option Bool × C
  pub knows_dns_provider : Str → Bool
  pub new_limiter : ℕ → ℕ → B
  pub set_limit : ℕ → B → B
  pub set_burst : ℕ → B → B
  pub user_hash : List UserSpec → Str
  pub config_hash : NodeSpec → Str

-- The fields of Service that its updates use; those of the polls are in Polling. Users are a list:
-- nil when there are none.
pub record Core (K C B : Type 0) : Type 0 where
  pub kernel_mode : Str
  pub kernel : K
  pub kernel_type : Str
  pub limiter : Limiter
  pub speed_tracker : SpeedTracker B
  pub cert : C
  pub cert_config : CertConfig
  pub log_level : Str
  pub trojan_fallback : Str
  pub last_config : Option NodeSpec
  pub last_users : List UserSpec
  pub applied_config : Option NodeSpec
  pub applied_users : List UserSpec
  pub last_user_hash : Str
  pub last_config_hash : Str
  pub last_reconcile : Option ℕ

module _ {K C B : Type 0} (env : Env K C B) where
  abbrev pub resolve_kernel_type : Option NodeSpec → Core K C B → Result Invalid Str
  resolve_kernel_type nc s = resolve_effective_kernel_type nc s.kernel_mode

  abbrev kernel_name : Str → Str
  kernel_name [] = kernel_sing_box
  kernel_name (c ∷ t) = c ∷ t

  -- The kernel is never nil after newService.
  unfoldable pub ensure_kernel_type : Str → Core K C B → Core K C B
  ensure_kernel_type kernel_type s =
      let wanted = kernel_name kernel_type in
      if str_beq s.kernel_type wanted
      then s
      else record s { kernel = env.new_kernel wanted; kernel_type = wanted }

  -- Stopping the old kernel, whose state is dropped, has no effect here.
  abbrev started : ℕ → Option NodeSpec → List UserSpec → Bool × K → Core K C B → Bool × Core K C B
  started now nc users (false, k) s = (false, record s { kernel = k })
  started now nc users (true, k) s = (
    true,
    record s { kernel = k; applied_config = nc; applied_users = users; last_reconcile = some now },
  )

  abbrev start_resolved :
      ℕ → Option NodeSpec → List UserSpec → Result Invalid Str → Core K C B → Bool × Core K C B
  start_resolved now nc users (err e) s = (false, s)
  start_resolved now nc users (ok kernel_type) s =
      let s1 = ensure_kernel_type kernel_type s in
      started now nc users (env.start nc users (env.tls_cert s1.cert) s1.kernel) s1

  unfoldable pub start_kernel : ℕ → Option NodeSpec → List UserSpec → Core K C B → Bool × Core K C B
  unfolding ensure_kernel_type
  start_kernel now nc users s = start_resolved now nc users (resolve_kernel_type nc s) s

  abbrev start_last : ℕ → List UserSpec → Option NodeSpec → Core K C B → Bool × Core K C B
  start_last now users none s = (false, s)
  start_last now [] (some nc) s = (false, s)
  start_last now (u ∷ l) (some nc) s = start_kernel now (some nc) (u ∷ l) s

  unfoldable pub ensure_running : ℕ → Core K C B → Bool × Core K C B
  ensure_running now s =
      if env.is_running s.kernel then (true, s) else start_last now s.last_users s.last_config s

  -- The limits and buckets of a list of users.
  unfoldable pub set_users : List UserSpec → Str → Core K C B → Core K C B
  set_users users hash s =
      let limiter = (Limiter.update_users users s.limiter).1 in
      record s {
        limiter = limiter;
        speed_tracker =
            update_buckets env.new_limiter env.set_limit env.set_burst limiter.users
              s.speed_tracker;
        last_users = users;
        last_user_hash = hash;
      }

  unfoldable pub prepare_user_state : List UserSpec → Core K C B → List UserSpec × Str × Core K C B
  unfolding set_users
  prepare_user_state users s =
      (s.last_users, s.last_user_hash, set_users users (env.user_hash users) s)

  unfoldable pub restore_user_state : List UserSpec → Str → Core K C B → Core K C B
  unfolding set_users
  restore_user_state users hash s = set_users users hash s
