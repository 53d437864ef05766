-- ===== src/Tracker.antt =====
-- internal/tracker/tracker.go: the per-user traffic accounts between two reports to the panel.
-- The mutex and the atomic snapshot make each method one step, so a method is a function of the
-- state. Byte counters are `int64` patterns. The two external functions are parameters: SHA-256
-- with its hexadecimal print is `digest`, and the order of `sort` is that of `Sorting`.
mod Amounts
pub mod Traffic
pub mod Keeps
pub mod HashOrder
pub mod Alive
use xboard_node_plus.Prelude.{
  nat_eq, ◌^◌, ltb, any, sdiv64, ℕ, ◌/◌, ◌%◌, Bool, ◌||◌, List, [], ◌∷◌, ◌++◌, Option, none, some,
  Map, lookup, insert, keys, length, or_else, if◌then◌else◌, add64, sub64, is_neg, is_pos, Str,
  str_beq, sort, int_leb, str_leb,
}

-- [2]int64: upload and download
abbrev pub Pair : Type 0
Pair = ℕ × ℕ

pub record Snapshot : Type 0 where
  pub traffic : Map ℕ Pair
  pub alive_ips : Map ℕ (Map Str Bool)
  pub online : Map ℕ ℕ
  pub conn_count : ℕ
  pub in_speed : ℕ
  pub out_speed : ℕ

pub record Tracker : Type 0 where
  pub last_seen : Map ℕ Pair
  pub pending_traffic : Map ℕ Pair
  pub live : Snapshot
  pub alive_ips_buf : Map ℕ (List Str)
  pub last_alive_ips_hash : Str

unfoldable pub new : Tracker
new = record {
  last_seen = [];
  pending_traffic = [];
  live = record {
    traffic = [];
    alive_ips = [];
    online = [];
    conn_count = 0;
    in_speed = 0;
    out_speed = 0;
  };
  alive_ips_buf = [];
  last_alive_ips_hash = [];
}

abbrev pub zero_pair : Pair
zero_pair = (0, 0)

-- cum - prev, or cum when the counter was reset
pub delta : ℕ → ℕ → ℕ
delta cum prev = let d = sub64 cum prev in if is_neg d then cum else d

-- The variables of Process's loop over the users.
pub record Cycle : Type 0 where
  pub seen : Map ℕ Pair
  pub pending : Map ℕ Pair
  pub cycle_in : ℕ
  pub cycle_out : ℕ

-- cur := m[uid]; cur[0] += d[0]; cur[1] += d[1]; m[uid] = cur
pub add_pair : ℕ → Pair → Map ℕ Pair → Map ℕ Pair
add_pair uid d m =
    let cur = or_else (lookup uid m) zero_pair in insert uid (add64 cur.0 d.0, add64 cur.1 d.1) m

pub process_user : ℕ → Pair → Cycle → Cycle
process_user uid cum c =
    let prev = or_else (lookup uid c.seen) zero_pair in
    let up = delta cum.0 prev.0 in
    let down = delta cum.1 prev.1 in
    let c' = record c { seen = insert uid cum c.seen } in
    if is_pos up || is_pos down
    then record c' {
      pending = add_pair uid (up, down) c.pending;
      cycle_out = add64 c.cycle_out up;
      cycle_in = add64 c.cycle_in down;
    }
    else c'

pub process_users : Map ℕ Pair → Cycle → Cycle
process_users [] c = c
process_users ((uid, cum) ∷ m) c = process_users m (process_user uid cum c)

pub online_counts : Map ℕ (Map Str Bool) → Map ℕ ℕ → Map ℕ ℕ
online_counts [] online = online
online_counts ((uid, ips) ∷ m) online = online_counts m (insert uid (length ips) online)

pub process : Map ℕ Pair → Map ℕ (Map Str Bool) → ℕ → Tracker → Tracker
process cum_traffic kernel_alive_ips conn_count t =
    let c =
      process_users cum_traffic
        (record { seen = t.last_seen; pending = t.pending_traffic; cycle_in = 0; cycle_out = 0 }) in
    record t {
      last_seen = c.seen;
      pending_traffic = c.pending;
      live = record {
        traffic = c.pending;
        alive_ips = kernel_alive_ips;
        online = online_counts kernel_alive_ips [];
        conn_count = conn_count;
        in_speed = c.cycle_in;
        out_speed = c.cycle_out;
      };
    }

pub flush_traffic : Tracker → Map ℕ Pair × Tracker
flush_traffic t = (t.pending_traffic, record t { pending_traffic = [] })

pub add_pairs : Map ℕ Pair → Map ℕ Pair → Map ℕ Pair
add_pairs [] m = m
add_pairs ((uid, d) ∷ ds) m = add_pairs ds (add_pair uid d m)

pub restore_traffic : Map ℕ Pair → Tracker → Tracker
restore_traffic ds t = record t { pending_traffic = add_pairs ds t.pending_traffic }

pub has_traffic : Tracker → Bool
has_traffic t = ltb 0 (length t.pending_traffic)

-- The bytes that calcAliveIPsHash writes: four for each user ID, and the sorted addresses.
pub hash_ips : List Str → Str
hash_ips [] = []
hash_ips (ip ∷ l) = ip ++ hash_ips l

pub hash_users : List ℕ → Map ℕ (Map Str Bool) → Str
unfolding hash_ips sort
hash_users [] m = []
hash_users (uid ∷ l) m =
    ((uid / 2 ^ 24) % 256)
    ∷ ((uid / 2 ^ 16) % 256)
    ∷ ((uid / 2 ^ 8) % 256)
    ∷ (uid % 256)
    ∷ (hash_ips (sort str_leb (keys (or_else (lookup uid m) []))) ++ hash_users l m)

-- The loop that fills the emptied buffer.
pub fill_buf : Map ℕ (Map Str Bool) → Map ℕ (List Str) → Map ℕ (List Str)
fill_buf [] buf = buf
fill_buf ((uid, ips) ∷ m) buf = fill_buf m (insert uid (keys ips) buf)

module _ (digest : Str → Str) where
  unfoldable pub calc_alive_ips_hash : Map ℕ (Map Str Bool) → Str
  unfolding hash_users sort
  calc_alive_ips_hash [] = []
  calc_alive_ips_hash (e ∷ m) = digest (hash_users (sort int_leb (keys (e ∷ m))) (e ∷ m))

  -- `none` is the nil map of an unchanged set.
  pub flush_alive_ips : Tracker → Option (Map ℕ (List Str)) × Tracker
  unfolding calc_alive_ips_hash fill_buf
  flush_alive_ips t =
      let current = calc_alive_ips_hash t.live.alive_ips in
      let buf = fill_buf t.live.alive_ips [] in
      if str_beq current t.last_alive_ips_hash
      then (none, t)
      else (some buf, record t { last_alive_ips_hash = current; alive_ips_buf = buf })

-- Appends the addresses that are not there yet.
pub append_new : List Str → List Str → List Str
append_new ips [] = ips
append_new ips (ip ∷ l) = append_new (if any (λ x. str_beq x ip) ips then ips else ips ++ ip ∷ []) l

pub merge_ips : Map ℕ (List Str) → Map ℕ (List Str) → Map ℕ (List Str)
unfolding append_new
merge_ips [] buf = buf
merge_ips ((uid, l) ∷ m) buf =
    merge_ips m (insert uid (append_new (or_else (lookup uid buf) []) l) buf)

pub restore_alive_ips : Map ℕ (List Str) → Tracker → Tracker
unfolding merge_ips
restore_alive_ips m t = record t { alive_ips_buf = merge_ips m t.alive_ips_buf }

pub current_online : Tracker → Map ℕ ℕ
current_online t = t.live.online

pub active_connections : Tracker → ℕ
active_connections t = t.live.conn_count

pub inbound_speed : Tracker → ℕ
inbound_speed t = sdiv64 t.live.in_speed 10

pub outbound_speed : Tracker → ℕ
outbound_speed t = sdiv64 t.live.out_speed 10
