-- ===== src/ConnTracker/Gate.antt =====
-- Which connections checkDeviceGate of internal/kernel/singbox/conntracker.go refuses.
use xboard_node_plus.ConnTracker.{ConnTracker, ip_set, is_stale}
use xboard_node_plus.Prelude.{
  nat_eq, str_eq, ℕ, ◌||◌, Bool, not, [], Map, Str, lookup, keys, is_some,
}

-- The distinct addresses of a user, on this node or on another one.
abbrev pub all_ips : Map Str ℕ → Map Str Bool → Map Str Bool
all_ips local global = ip_set (keys global) (ip_set (keys local) [])

-- Whether the panel's view of the user is missing or more than a minute old.
abbrev pub is_blind : ℕ → ℕ → ConnTracker → Bool
is_blind now uid t =
    is_stale now t.global_last_update || not (is_some (lookup uid t.global_devices))
