-- ===== src/Tests/Loop.antt =====
-- The examples for the main loop of the service.
use xboard_node_plus.Service.Core.Config.{
  apply_local_overrides, validate_config_for_kernel, apply_remote_overrides,
}
use xboard_node_plus.Validation.Kernels.{resolve_effective_kernel_type, normalize_kernel_type}
use xboard_node_plus.Service.Runtime.{
  validate_node_runtime, validate_tls_requirements, needs_cert, has_usable_tls_config,
  validate_runtime_cert_config,
}
use xboard_node_plus.Service.Core.{start_kernel, ensure_kernel_type, prepare_user_state}
use xboard_node_plus.Service.Core.Setup.{mark_mailbox_ready_and_drain, first_state}
use xboard_node_plus.Prelude.{to_lower, trim_space, str_beq, ok, err}
use xboard_node_plus.Prelude.{
  err, ok, ltb, ℕ, ◌≤◌, Bool, true, false, List, [], ◌∷◌, Option, none, some, codes, ◌≡◌, ◌↔◌, refl,
  map, if◌then◌else◌,
}
use xboard_node_plus.Limiter
use xboard_node_plus.ControlPlane.{Event, sync_users}
use xboard_node_plus.Service.Core.{set_users, Env, Core}
use xboard_node_plus.Service.Core.Synced.{set_users-IsSynced, IsSynced}
use xboard_node_plus.Service.Core.Users.{apply_user_update, apply_user_delta}
use xboard_node_plus.Service.Core.Users.Stopped.{updates-stopped}
use xboard_node_plus.Service.Core.Setup.{Bootstrap, initial_setup}
use xboard_node_plus.Service.Core.Setup.Synced.{initial_setup-IsSynced}
use xboard_node_plus.Service.Core.Events.Run.{pushed, polled, run, run-IsSynced}
use xboard_node_plus.Service.Core.Polling.{
  Snapshot, got, Found, poll_control_plane_with_retry, poll_control_plane_iff,
}
use xboard_node_plus.Service.Core.Polling.Resync.{
  Puller, requested, due, failed, starts, starts-le, dues, dues-active,
}
use xboard_node_plus.Model.{UserSpec, CertConfig}
use xboard_node_plus.Tests.Samples.{node, both}

-- A kernel that keeps its users. When it is broken it loses them at an update and does not start.
record Box : Type 0 where
  running : Bool
  broken : Bool
  users : List UserSpec

abbrev update : Bool → List UserSpec → Box → Bool × Box
update true users k = (false, record k { users = [] })
update false users k = (true, record k { users = users })

abbrev start : Bool → List UserSpec → Box → Bool × Box
start true users k = (false, k)
start false users k = (true, record k { running = true; users = users })

abbrev box_env : Env Box ℕ ℕ
box_env = record {
  new_kernel = λ name. record { running = false; broken = false; users = [] };
  name = λ k. codes "singbox";
  protocols = λ k. codes "trojan" ∷ [];
  is_running = λ k. k.running;
  start = λ nc users tls k. start k.broken users k;
  reload = λ nc users tls k. (true, record k { users = users });
  stop = λ k. record k { running = false };
  add_users = λ users k. (none, k);
  remove_users = λ users k. (none, k);
  update_users = λ users k. update k.broken users k;
  update_global_devices = λ devices k. k;
  clear_global_devices = λ k. k;
  tls_cert = λ c. record { cert_pem = codes "c"; key_pem = codes "k" };
  cert_renewed = λ c. (false, c);
  reconfigure = λ config c. (some false, c);
  knows_dns_provider = λ s. true;
  new_limiter = λ rate burst. burst;
  set_limit = λ rate b. b;
  set_burst = λ burst b. burst;
  user_hash = λ users. map (λ u. u.id) users;
  config_hash = λ n. n.protocol;
}

abbrev no_cert : CertConfig
no_cert = record {
  auto_tls = false;
  cert_dir = [];
  cert_mode = [];
  domain = [];
  email = [];
  dns_provider = [];
  dns_env = none;
  http_port = 0;
  cert_file = [];
  key_file = [];
  cert_content = [];
  key_content = [];
}

-- The state before the first users are set.
abbrev blank_core : Core Box ℕ ℕ
blank_core = record {
  kernel_mode = codes "singbox";
  kernel = record { running = false; broken = false; users = [] };
  kernel_type = codes "singbox";
  limiter = Limiter.new;
  speed_tracker = record { buckets = []; uuid_map = []; has_limits = false };
  cert = 0;
  cert_config = no_cert;
  log_level = [];
  trojan_fallback = [];
  last_config = some node;
  last_users = [];
  applied_config = none;
  applied_users = [];
  last_user_hash = [];
  last_config_hash = codes "trojan";
  last_reconcile = none;
}

-- A node without users, whose kernel does not run.
abbrev idle : Core Box ℕ ℕ
idle = set_users box_env [] [] blank_core

idle-IsSynced : IsSynced box_env idle
idle-IsSynced = set_users-IsSynced box_env [] [] blank_core refl

-- The node with a running kernel that fails at every call.
abbrev failing : Core Box ℕ ℕ
failing =
    set_users box_env [] []
      (record blank_core { kernel = record { running = true; broken = true; users = [] } })

idle_stopped : box_env.is_running idle.kernel ≡ false
unfolding set_users
idle_stopped = refl

idle_no_users : idle.last_users ≡ []
unfolding set_users
idle_no_users = refl

updates-stopped_example :
    (apply_user_update box_env 5 both (1 ∷ 2 ∷ []) idle ≡ idle)
    × (apply_user_delta box_env 5 (codes "add") both idle ≡ idle)
updates-stopped_example =
    updates-stopped box_env 5 idle idle_stopped idle_no_users both (1 ∷ 2 ∷ []) (codes "add")

abbrev all_users : Event
all_users = record {
  event_type = sync_users;
  config = none;
  users = some both;
  delta_action = [];
  delta_users = none;
  device_users = none;
}

abbrev snapshot : Snapshot
snapshot = record { config = some node; users = some both }

run-IsSynced_example :
    IsSynced box_env (run box_env (polled 1 [] false snapshot ∷ pushed 2 all_users ∷ []) idle)
run-IsSynced_example =
    run-IsSynced box_env (polled 1 [] false snapshot ∷ pushed 2 all_users ∷ []) idle idle-IsSynced

abbrev bootstrap : Bootstrap
bootstrap = record {
  push_interval = 30;
  pull_interval = 0;
  has_push = false;
  config = some node;
  users = some both;
  mailbox = none;
}

-- The node after its setup, which starts the kernel.
abbrev after_setup : Core Box ℕ ℕ
after_setup = elim (initial_setup box_env 7 bootstrap blank_core) [
  | ok d ↦ d.2
  | err e ↦ blank_core
]

setup_succeeds : initial_setup box_env 7 bootstrap blank_core ≡ ok (false, none, after_setup)
unfolding initial_setup apply_local_overrides validate_config_for_kernel
    resolve_effective_kernel_type normalize_kernel_type to_lower trim_space str_beq
    validate_node_runtime validate_tls_requirements needs_cert has_usable_tls_config
    validate_runtime_cert_config start_kernel ensure_kernel_type apply_remote_overrides
    mark_mailbox_ready_and_drain first_state prepare_user_state set_users
setup_succeeds = refl

initial_setup-IsSynced_example : IsSynced box_env after_setup
initial_setup-IsSynced_example =
    initial_setup-IsSynced box_env 7 bootstrap node blank_core after_setup false none refl
      setup_succeeds

abbrev empty_snapshot : Snapshot
empty_snapshot = record { config = none; users = none }

-- The second attempt succeeds.
abbrev second : ℕ → Option Snapshot
second n = if ltb n 2 then none else some empty_snapshot

abbrev never : ℕ → Bool
never n = false

poll_control_plane_iff_example :
    (((poll_control_plane_with_retry second never).0 ≡ got empty_snapshot)
      ↔ Found second never empty_snapshot)
    × (1 ≤ (poll_control_plane_with_retry second never).1)
    × ((poll_control_plane_with_retry second never).1 ≤ 3)
poll_control_plane_iff_example = poll_control_plane_iff second never empty_snapshot

abbrev resting : Puller
resting = record { resync_pending = false; pull_active = false; pull_backoff = 1 }

starts-le_example : starts true (due ∷ requested ∷ failed ∷ requested ∷ []) resting ≤ 1
starts-le_example =
    starts-le true (due ∷ requested ∷ failed ∷ requested ∷ []) resting
      (refl, (refl, (refl, (refl, tt))))

dues-active_example : (dues 2 resting).pull_active ≡ true
dues-active_example = dues-active resting refl
