-- ===== src/ConnTracker.antt =====
-- internal/kernel/singbox/conntracker.go: the per-user statistics of the sing-box kernel and the
-- device gate. The clock is a parameter: the time of the last update and the present time are
-- nanoseconds, and the update time is `none` for the zero time, which is always stale.
pub mod Gate
pub mod Users
use xboard_node_plus.Prelude.{
  is_some, nat_eq, str_eq, ℕ, ◌+◌, ◌-◌, Bool, true, false, not, ◌||◌, List, [], ◌∷◌, ◌++◌, Option,
  none, some, Map, Str, lookup, insert, remove, has, keys, map, length, take, or_else,
  if◌then◌else◌, is_in, leb, ltb, add64, sub64, is_pos, sort, str_leb,
}

pub record UserStats : Type 0 where
  pub upload : ℕ
  pub download : ℕ
  pub ips : Map Str ℕ
  pub user_conn_count : ℕ

abbrev pub new_user_stats : UserStats
new_user_stats = record { upload = 0; download = 0; ips = []; user_conn_count = 0 }

-- u.ips[sourceIP]++; u.connCount++
abbrev pub add_conn : Str → UserStats → UserStats
add_conn ip u = record u {
  ips = insert ip (add64 (or_else (lookup ip u.ips) 0) 1) u.ips;
  user_conn_count = add64 u.user_conn_count 1;
}

abbrev pub remove_conn : Str → UserStats → UserStats
remove_conn ip u =
    let n = sub64 (or_else (lookup ip u.ips) 0) 1 in
    record u {
      ips = if not (is_pos n) then remove ip u.ips else insert ip n u.ips;
      user_conn_count = sub64 u.user_conn_count 1;
    }

pub record ConnTracker : Type 0 where
  pub users : Map ℕ UserStats
  pub uuid_map : Map Str ℕ
  pub global_devices : Map ℕ (Map Str Bool)
  pub global_last_update : Option ℕ

-- ips[ip] = true over a list
pub ip_set : List Str → Map Str Bool → Map Str Bool
ip_set [] m = m
ip_set (ip ∷ l) m = ip_set l (insert ip true m)

pub device_sets : Map ℕ (List Str) → Map ℕ (Map Str Bool) → Map ℕ (Map Str Bool)
unfolding ip_set
device_sets [] m = m
device_sets ((uid, ips) ∷ l) m = device_sets l (insert uid (ip_set ips []) m)

pub update_global_devices : ℕ → Map ℕ (List Str) → ConnTracker → ConnTracker
unfolding device_sets
update_global_devices now users t = record t {
  global_devices = device_sets users [];
  global_last_update = some now;
}

pub clear_global_devices : ConnTracker → ConnTracker
clear_global_devices t = record t { global_devices = []; global_last_update = none }

-- time.Since(t.globalLastUpdate) > 60 * time.Second
abbrev pub is_stale : ℕ → Option ℕ → Bool
is_stale now none = true
is_stale now (some t) = ltb 60000000000 (now - t)

-- The first `limit` addresses of the sorted list with the new one.
abbrev pub is_selected : ℕ → Str → List Str → Bool
is_selected limit ip ips = is_in ip (take limit (sort str_leb (ips ++ ip ∷ [])))

-- Whether a connection is refused; `stats` is `none` for nil.
pub check_device_gate : ℕ → Option UserStats → ℕ → Str → ℕ → ConnTracker → Bool
unfolding ip_set
check_device_gate now none uid ip limit t = false
check_device_gate now (some us) uid ip limit t =
    let local = us.ips in
    let global = lookup uid t.global_devices in
    let all = ip_set (keys (or_else global [])) (ip_set (keys local) []) in
    if not (is_pos limit)
    then false
    else if has ip local
    then false
    else if is_stale now t.global_last_update || not (is_some global)
    then if ltb (length local) limit then false else not (is_selected limit ip (keys local))
    else if has ip (or_else global [])
    then false
    else if ltb (length all) limit
    then false
    else not (is_selected limit ip (keys all))

-- The three results of GetUserTraffic.
pub record Reading : Type 0 where
  pub traffic : Map ℕ (ℕ × ℕ)
  pub alive_ips : Map ℕ (Map Str Bool)
  pub conn_count : ℕ

-- aliveIPList, of which `none` is nil
abbrev pub alive_ip_list : UserStats → Option (Map Str Bool)
alive_ip_list u = if leb (length u.ips) 0 then none else some (map (λ e. (e.0, true)) u.ips)

abbrev pub read_user : ℕ → UserStats → Reading → Reading
read_user uid us r = record {
  traffic =
      if is_pos us.upload || is_pos us.download
      then insert uid (us.upload, us.download) r.traffic
      else r.traffic;
  alive_ips = elim (alive_ip_list us) [
    | none ↦ r.alive_ips
    | some ips ↦ insert uid ips r.alive_ips
  ];
  conn_count = add64 r.conn_count us.user_conn_count;
}

pub read_users : Map ℕ UserStats → Reading → Reading
read_users [] r = r
read_users ((uid, us) ∷ m) r = read_users m (read_user uid us r)

pub get_user_traffic : ConnTracker → Reading
unfolding read_users
get_user_traffic t = read_users t.users (record { traffic = []; alive_ips = []; conn_count = 0 })

-- The users that SetUserMap adds, over the UUIDs.
pub add_stats : Map Str ℕ → Map ℕ UserStats → Map ℕ UserStats
add_stats [] users = users
add_stats ((uuid, uid) ∷ m) users =
    add_stats m (if has uid users then users else insert uid new_user_stats users)

pub set_user_map : Map Str ℕ → ConnTracker → ConnTracker
unfolding add_stats
set_user_map m t = record t { uuid_map = m; users = add_stats m t.users }
