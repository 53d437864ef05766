-- ===== src/Dispatcher/Counting.antt =====
-- How long an address stays counted in internal/kernel/xray/dispatcher.go: the connections of the
-- users one after another, with changes of the limits between them.
use mathlib.Core.Path.{subst}
use mathlib.Core.Option
use xboard_node_plus.Dispatcher.{
  Dispatcher, bump, drop, refcount, ips_of, route, over_limit, admit, check_device_limit, del_conn,
  update_limits, Route, unlimited, known, room, contended,
}
use xboard_node_plus.Prelude.{
  word, ◌%◌, or_else, str_eq, ℕ, ◌+◌, Bool, true, false, List, [], ◌∷◌, Option, Map, Str, has,
  insert, remove, lookup-insert, lookup-remove, ◌≡◌, arith, sym, inl, inr, Bool-cases, str_beq,
  str_beq_iff, if◌then◌else◌,
}

pub data Op : Type 0 where
  open_conn : Str → Str → Bool → Op
  close_conn : Str → Str → Op
  limits : Map Str ℕ → Map Str ℕ → Op

pub step : Op → Dispatcher → Dispatcher
step (open_conn email ip is_tcp) d =
    or_else (Option.map (λ r. r.1) (check_device_limit email ip is_tcp d)) d
step (close_conn email ip) d = del_conn email ip d
step (limits email_to_uid device_limits) d = update_limits email_to_uid device_limits d

pub run : List Op → Dispatcher → Dispatcher
run [] d = d
run (op ∷ ops) d = run ops (step op d)

-- An address that counts against the limit of its user.
abbrev pub is_tracked : Str → Str → Dispatcher → Bool
is_tracked email ip d = has ip (ips_of email d.limited_ips)

-- A user whom the lock-free table of the users without a limit knows.
abbrev pub is_free : Str → Dispatcher → Bool
is_free email d = has email d.unlimited_ips

has-bump : (ip j : Str) (ips : Map Str ℕ) → has j ips ≡ true → has j (bump ip ips) ≡ true
has-bump ip j ips h = ground (arith, h, lookup-insert ip j ((refcount ip ips + 1) % word) ips)

-- Writing a set that keeps the address keeps it tracked.
has-write :
    (e email ip : Str) (ips : Map Str ℕ) (m : Map Str (Map Str ℕ))
    → (has ip (ips_of e m) ≡ true → has ip ips ≡ true)
    → has ip (ips_of email m) ≡ true
    → has ip (ips_of email (insert e ips m)) ≡ true
has-write e email ip ips m k h = elim (Bool-cases (str_beq e email)) [
  | inl same ↦
      rw (lookup-insert e email ips m, same)
        (k (subst (λ i. has ip (ips_of i m) ≡ true) (sym ((str_beq_iff e email).0 same)) h))
  | inr other ↦ rw (lookup-insert e email ips m, other) h
]

has-insert :
    (e email : Str) (ips : Map Str ℕ) (m : Map Str (Map Str ℕ))
    → has email m ≡ true
    → has email (insert e ips m) ≡ true
has-insert e email ips m h = ground (arith, h, lookup-insert e email ips m)

abbrev IsStuck : Str → Str → Dispatcher → Type 0
IsStuck email ip d = (is_free email d ≡ true) × (is_tracked email ip d ≡ true)

abbrev StuckResult : Str → Str → Dispatcher → Option (Bool × Dispatcher) → Type 0
StuckResult email ip d o = IsStuck email ip (or_else (Option.map (λ r. r.1) o) d)

has-if :
    (b : Bool) (ip : Str) (x y : Map Str ℕ)
    → has ip x ≡ true
    → has ip y ≡ true
    → has ip (if b then x else y) ≡ true
has-if true ip x y h k = h
has-if false ip x y h k = k

admit-IsStuck :
    (r : Route) (email ip e i : Str) (is_tcp : Bool) (d : Dispatcher)
    → IsStuck email ip d
    → StuckResult email ip d (admit r e i is_tcp d)
unfolding admit
admit-IsStuck unlimited email ip e i true d h = (has-insert e email _ d.unlimited_ips h.0, h.1)
admit-IsStuck unlimited email ip e i false d h = h
admit-IsStuck known email ip e i false d h = h
admit-IsStuck known email ip e i true d h = elim (Bool-cases (has e d.limited_ips)) [
  | inl there ↦
      rw (there)
        (h.0, has-write e email ip _ d.limited_ips (has-bump i ip (ips_of e d.limited_ips)) h.1)
  | inr missing ↦ rw (missing) h
]
admit-IsStuck room email ip e i true d h =
    (h.0, has-write e email ip _ d.limited_ips (has-bump i ip (ips_of e d.limited_ips)) h.1)
admit-IsStuck room email ip e i false d h = h
admit-IsStuck (contended limit) email ip e i is_tcp d h =
    let ips = ips_of e d.limited_ips in
    (
      h.0,
      has-write e email ip _ d.limited_ips
          (λ k.
            has-if (over_limit limit i ips) ip _ _ k (has-if is_tcp ip _ _ (has-bump i ip ips k) k))
          h.1,
    )

other_email :
    (e email : Str) (m : Map Str (Map Str ℕ))
    → has e m ≡ false
    → has email m ≡ true
    → str_beq e email ≡ false
other_email e email m h k = elim (Bool-cases (str_beq e email)) [
  | inl same ↦ ground (arith, h, subst (λ i. has i m ≡ true) (sym ((str_beq_iff e email).0 same)) k)
  | inr other ↦ other
]

has-delete :
    (b : Bool) (e email ip : Str) (ips : Map Str ℕ) (m : Map Str (Map Str ℕ))
    → str_beq e email ≡ false
    → has ip (ips_of email m) ≡ true
    → has ip (ips_of email (if b then remove e m else insert e ips m)) ≡ true
has-delete true e email ip ips m other h = rw (lookup-remove e email m, other) h
has-delete false e email ip ips m other h = rw (lookup-insert e email ips m, other) h

del_conn-IsStuck :
    (email ip e i : Str) (d : Dispatcher) → IsStuck email ip d → IsStuck email ip (del_conn e i d)
unfolding del_conn
del_conn-IsStuck email ip e i d h = elim (Bool-cases (has e d.unlimited_ips)) [
  | inl free ↦ elim (Bool-cases (has i (ips_of e d.unlimited_ips))) [
    | inl there ↦
        rw (free, there)
          (has-insert e email (drop i (ips_of e d.unlimited_ips)) d.unlimited_ips h.0, h.1)
    | inr missing ↦ rw (free, missing) h
  ]
  | inr bound ↦ elim (Bool-cases (has e d.limited_ips)) [
    | inl there ↦
        let other = other_email e email d.unlimited_ips bound h.0 in
        rw (bound, there)
          (h.0, has-delete _ e email ip (drop i (ips_of e d.limited_ips)) d.limited_ips other h.1)
    | inr missing ↦ rw (bound, missing) h
  ]
]

step-IsStuck :
    (email ip : Str) (op : Op) (d : Dispatcher) → IsStuck email ip d → IsStuck email ip (step op d)
unfolding step check_device_limit update_limits
step-IsStuck email ip (open_conn e i is_tcp) d h =
    admit-IsStuck (route e i d) email ip e i is_tcp d h
step-IsStuck email ip (close_conn e i) d h = del_conn-IsStuck email ip e i d h
step-IsStuck email ip (limits uids device_limits) d h = h

run-IsStuck :
    (email ip : Str) (ops : List Op) (d : Dispatcher)
    → IsStuck email ip d
    → IsStuck email ip (run ops d)
unfolding run
run-IsStuck email ip [] d h = h
run-IsStuck email ip (op ∷ ops) d h =
    run-IsStuck email ip ops (step op d) (step-IsStuck email ip op d h)

-- Once a user has had a connection without a device limit, an address that is counted against a
-- later limit stays counted whatever connections open and close, its own included, and however the
-- limits change, as long as ResetConns is not called.
pub tracked-run :
    (email ip : Str) (ops : List Op) (d : Dispatcher)
    → is_free email d ≡ true
    → is_tracked email ip d ≡ true
    → is_tracked email ip (run ops d) ≡ true
tracked-run email ip ops d free tracked = (run-IsStuck email ip ops d (free, tracked)).1
