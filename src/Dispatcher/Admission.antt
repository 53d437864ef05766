-- ===== src/Dispatcher/Admission.antt =====
-- Which connections checkDeviceLimit of internal/kernel/xray/dispatcher.go refuses.

use xboard_node_plus.Dispatcher.{
  Dispatcher, refcount, ips_of, limit_of, route, over_limit, admit, check_device_limit,
}
use mathlib.Core.Option
use mathlib.Core.Path.{subst}
use xboard_node_plus.Prelude.{
  is_in-first, below-keys, or_else, Option-cases, str_eq, ℕ, Bool, true, false, [], Option, some,
  Map, Str, lookup, keys, length, below, ltb, leb, is_pos, has, if◌then◌else◌, ◌≡◌, refl, arith, ap,
  ◌∙◌, inl, inr, Bool-cases,
}

over_limit-below :
    (limit : ℕ) (ip : Str) (ips : Map Str ℕ)
    → over_limit limit ip ips
      ≡ (if is_pos (refcount ip ips) then false else leb limit (below ip (keys ips)))
unfolding over_limit
over_limit-below limit ip ips = ground (arith, is_in-first ip limit (keys ips), below-keys ip ips)

known-has :
    (email ip : Str) (m : Map Str (Map Str ℕ))
    → is_pos (refcount ip (ips_of email m)) ≡ true
    → has email m ≡ true
unfolding lookup
known-has email ip m h = elim (Option-cases (lookup email m)) [
  | inl missing ↦ ground (arith, subst (λ o. is_pos (refcount ip (or_else o [])) ≡ true) missing h)
  | inr there ↦ rw there.1 refl
]

abbrev pub answer : Option (Bool × Dispatcher) → Option Bool
answer = Option.map (λ r. r.0)

-- A connection of a user with a device limit is refused exactly when its address has no refcount
-- and at least `limit` of the user's addresses sort below it, and the check always answers.
pub check_device_limit-answer :
    (email ip : Str) (is_tcp : Bool) (d : Dispatcher)
    → is_pos (limit_of email d) ≡ true
    → answer (check_device_limit email ip is_tcp d)
      ≡ some (
          if is_pos (refcount ip (ips_of email d.limited_ips))
          then false
          else leb (limit_of email d) (below ip (keys (ips_of email d.limited_ips))))
unfolding check_device_limit route admit
check_device_limit-answer email ip is_tcp d h =
    let ips = ips_of email d.limited_ips in
    let limit = limit_of email d in
    let o = over_limit-below limit ip ips in
    elim (Bool-cases (is_pos (refcount ip ips))) [
      | inl counted ↦ rw (h, counted, known-has email ip d.limited_ips counted) (ground arith)
      | inr uncounted ↦ elim (Bool-cases (has email d.limited_ips)) [
        | inl there ↦ elim (Bool-cases (ltb (length ips) limit)) [
          | inl has_room ↦
              rw (h, uncounted, there, has_room) (ground (arith, has_room, below-keys ip ips))
          | inr full ↦ rw (h, uncounted, there, full) (ap some (o ∙ rw (uncounted) refl))
        ]
        | inr missing ↦ rw (h, uncounted, missing) (ap some (o ∙ rw (uncounted) refl))
      ]
    ]
