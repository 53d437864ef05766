-- ===== src/Dispatcher/Race.antt =====
-- Two goroutines between the locks of checkDeviceLimit of internal/kernel/xray/dispatcher.go.
use xboard_node_plus.Dispatcher.{Dispatcher, limit_of, route, admit, del_conn}
use xboard_node_plus.Prelude.{
  str_eq, true, false, [], ◌∷◌, none, some, Str, has, lookup, remove, lookup-remove, is_pos, ◌≡◌,
  refl, str_beq_iff,
}

-- When a user's one counted TCP connection closes after checkDeviceLimit read its address as known
-- and before it took the write lock, a second connection from that address panics: it assigns into
-- the nil map that the deleted entry reads as. The user has a limit and is not in the table of the
-- users without one.
pub admit-race :
    (email ip : Str) (d : Dispatcher)
    → is_pos (limit_of email d) ≡ true
    → has email d.unlimited_ips ≡ false
    → lookup email d.limited_ips ≡ some ((ip, 1) ∷ [])
    → admit (route email ip d) email ip true (del_conn email ip d) ≡ none
unfolding admit route del_conn lookup remove
admit-race email ip d limited bound only =
    let same = (str_beq_iff ip ip).1 refl in
    let gone = lookup-remove email email d.limited_ips in
    rw (limited, only, same, bound, gone, (str_beq_iff email email).1 refl) refl
