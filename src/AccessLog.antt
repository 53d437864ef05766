-- ===== src/AccessLog.antt =====
-- internal/accesslog/access.go: the traffic of one access target, handed out when it changed. The
-- counters are atomic; each method is one step.
pub mod Reports
use xboard_node_plus.Prelude.{
  ℕ, ◌-◌, Str, Bool, true, false, Option, none, some, if◌then◌else◌, add64, word, is_pos, nat_beq,
  ◌&&◌,
}

pub record Event : Type 0 where
  pub session_id : Str
  pub user_id : ℕ
  pub xray_email : Str
  pub source : Str
  pub network : Str
  pub destination : Str
  pub timestamp : ℕ
  pub upload : ℕ
  pub download : ℕ

pub record Activity : Type 0 where
  pub base : Event
  pub upload : ℕ
  pub download : ℕ
  pub last_upload : ℕ
  pub last_download : ℕ
  pub closed : Bool

-- -1
abbrev pub minus_one : ℕ
minus_one = word - 1

unfoldable pub new_activity : Event → Activity
new_activity e = record {
  base = e;
  upload = 0;
  download = 0;
  last_upload = minus_one;
  last_download = minus_one;
  closed = false;
}

-- The methods take a nil receiver, `none`.
unfoldable pub add_upload : ℕ → Option Activity → Option Activity
add_upload n none = none
add_upload n (some a) = some (record a { upload = if is_pos n then add64 a.upload n else a.upload })

unfoldable pub add_download : ℕ → Option Activity → Option Activity
add_download n none = none
add_download n (some a) =
    some (record a { download = if is_pos n then add64 a.download n else a.download })

unfoldable pub close : Option Activity → Option Activity
close none = none
close (some a) = some (record a { closed = true })

unfoldable pub is_closed : Option Activity → Bool
is_closed none = true
is_closed (some a) = a.closed

abbrev changed_event : Activity → Option Event
changed_event a =
    if nat_beq a.last_upload a.upload && nat_beq a.last_download a.download
    then none
    else some (record a.base { upload = a.upload; download = a.download })

-- The event, when there is one, and the activity after it.
unfoldable pub snapshot_if_changed : Option Activity → Option Event × Option Activity
snapshot_if_changed none = (none, none)
snapshot_if_changed (some a) =
    (changed_event a, some (record a { last_upload = a.upload; last_download = a.download }))
