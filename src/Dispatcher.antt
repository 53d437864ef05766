-- ===== src/Dispatcher.antt =====
-- internal/kernel/xray/dispatcher.go: the connections that the LimitDispatcher counts, and the
-- admission of a new one. A refcount is an `int` pattern. checkDeviceLimit reads under one lock and
-- writes under another; `route` is what it reads and `admit` what it then writes, so that another
-- goroutine's call can stand between them. `none` is a panic, of an assignment into a nil map.
pub mod Admission
pub mod Counting
pub mod Race
use xboard_node_plus.Prelude.{
  str_eq, ℕ, Bool, true, false, not, ◌||◌, List, [], ◌∷◌, ◌++◌, Option, none, some, Map, Str,
  lookup, insert, remove, has, keys, length, take, or_else, is_some, is_in, if◌then◌else◌, leb, ltb,
  add64, sub64, is_pos, sort, str_leb,
}

pub record Dispatcher : Type 0 where
  -- email → source address → refcount
  pub limited_ips : Map Str (Map Str ℕ)
  pub device_limits : Map Str ℕ
  pub email_to_uid : Map Str ℕ
  pub unlimited_ips : Map Str (Map Str ℕ)
  pub conn_count : ℕ

pub new : Dispatcher
new = record {
  limited_ips = [];
  device_limits = [];
  email_to_uid = [];
  unlimited_ips = [];
  conn_count = 0;
}

pub update_limits : Map Str ℕ → Map Str ℕ → Dispatcher → Dispatcher
update_limits email_to_uid device_limits d = record d {
  email_to_uid = email_to_uid;
  device_limits = device_limits;
}

pub reset_conns : Dispatcher → Dispatcher
reset_conns d = record d { limited_ips = []; unlimited_ips = []; conn_count = 0 }

-- ips[sourceIP], 0 when it is absent
abbrev pub refcount : Str → Map Str ℕ → ℕ
refcount ip ips = or_else (lookup ip ips) 0

-- ips[sourceIP]++
abbrev pub bump : Str → Map Str ℕ → Map Str ℕ
bump ip ips = insert ip (add64 (refcount ip ips) 1) ips

-- ips[sourceIP]-- and the deletion at 0
abbrev pub drop : Str → Map Str ℕ → Map Str ℕ
drop ip ips =
    let n = sub64 (refcount ip ips) 1 in if not (is_pos n) then remove ip ips else insert ip n ips

abbrev pub ips_of : Str → Map Str (Map Str ℕ) → Map Str ℕ
ips_of email m = or_else (lookup email m) []

-- deviceLimits[email], 0 for no limit
abbrev pub limit_of : Str → Dispatcher → ℕ
limit_of email d = or_else (lookup email d.device_limits) 0

pub data Route : Type 0 where
  unlimited : Route
  known : Route
  room : Route
  contended : ℕ → Route

-- What checkDeviceLimit reads before it writes.
pub route : Str → Str → Dispatcher → Route
route email ip d =
    let limit = limit_of email d in
    let ips = ips_of email d.limited_ips in
    if not (is_pos limit)
    then unlimited
    else if is_pos (refcount ip ips)
    then known
    else if has email d.limited_ips
    then if ltb (length ips) limit then room else contended limit
    else contended limit

-- The check under the write lock: the answer, whether the connection is counted, for the set `ips`.
pub over_limit : ℕ → Str → Map Str ℕ → Bool
over_limit limit ip ips =
    if is_pos (refcount ip ips)
    then false
    else if ltb (length ips) limit
    then false
    else not (is_in ip (take limit (sort str_leb (keys ips ++ ip ∷ []))))

pub admit : Route → Str → Str → Bool → Dispatcher → Option (Bool × Dispatcher)
unfolding over_limit
admit unlimited email ip is_tcp d =
    if is_tcp
    then some (
      false,
      record d {
        unlimited_ips = insert email (bump ip (ips_of email d.unlimited_ips)) d.unlimited_ips;
      },
    )
    else some (false, d)
admit known email ip is_tcp d =
    if not is_tcp
    then some (false, d)
    else if has email d.limited_ips
    then some (
      false,
      record d { limited_ips = insert email (bump ip (ips_of email d.limited_ips)) d.limited_ips },
    )
    else none
admit room email ip is_tcp d =
    if is_tcp
    then some (
      false,
      record d { limited_ips = insert email (bump ip (ips_of email d.limited_ips)) d.limited_ips },
    )
    else some (false, d)
admit (contended limit) email ip is_tcp d =
    let ips = ips_of email d.limited_ips in
    let refused = over_limit limit ip ips in
    let counted = if refused then ips else if is_tcp then bump ip ips else ips in
    some (refused, record d { limited_ips = insert email counted d.limited_ips })

-- checkDeviceLimit with no other goroutine between its locks
pub check_device_limit : Str → Str → Bool → Dispatcher → Option (Bool × Dispatcher)
unfolding route admit
check_device_limit email ip is_tcp d = admit (route email ip d) email ip is_tcp d

pub del_conn : Str → Str → Dispatcher → Dispatcher
del_conn email ip d =
    let ips = ips_of email d.unlimited_ips in
    let limited = drop ip (ips_of email d.limited_ips) in
    if has email d.unlimited_ips
    then if has ip ips
      then record d { unlimited_ips = insert email (drop ip ips) d.unlimited_ips }
      else d
    else if has email d.limited_ips
    then record d {
      limited_ips =
          if leb (length limited) 0
          then remove email d.limited_ips
          else insert email limited d.limited_ips;
    }
    else d
