-- ===== src/Tracker/Alive.antt =====
-- The device reports of internal/tracker/tracker.go: what FlushAliveIPs hands out, and what
-- RestoreAliveIPs can and cannot bring back.
use mathlib.Core.Option
use xboard_node_plus.Prelude.{
  ℕ, Str, List, [], ◌∷◌, Bool, false, Map, Distinct, keys, lookup, insert, lookup-insert, Option,
  none, some, ◌≡◌, refl, str_beq, str_beq_iff, Bool-cases, inl, inr, nat_eq, nat_beq_iff, arith,
  ◌==◌, ◌∙◌, sym, ap,
}
use xboard_node_plus.Tracker.{
  Pair, Tracker, process, fill_buf, calc_alive_ips_hash, flush_alive_ips, restore_alive_ips,
}
use mathlib.Core.Path.{subst}

-- The addresses of a user's entry, in a map of address sets.
abbrev pub ips_of : ℕ → Map ℕ (Map Str Bool) → Option (List Str)
ips_of uid m = Option.map keys (lookup uid m)

abbrev either : Option (List Str) → Option (List Str) → Option (List Str)
either (some l) o = some l
either none o = o

lookup-fill_buf :
    (uid : ℕ) (m : Map ℕ (Map Str Bool)) (buf : Map ℕ (List Str))
    → Distinct m
    → lookup uid (fill_buf m buf) ≡ either (ips_of uid m) (lookup uid buf)
unfolding fill_buf lookup
lookup-fill_buf uid [] buf d = refl
lookup-fill_buf uid ((k, ips) ∷ m) buf d = elim (Bool-cases (k == uid)) [
  | inl same ↦
      let e = (nat_beq_iff k uid).0 same in
      let gone : lookup uid m ≡ none = subst (λ i. lookup i m ≡ none) e d.0 in
      lookup-fill_buf uid m (insert k (keys ips) buf) d.1
      ∙ ground (arith, e, gone, lookup-insert k uid (keys ips) buf)
  | inr other ↦
      lookup-fill_buf uid m (insert k (keys ips) buf) d.1
      ∙ ground (arith, other, lookup-insert k uid (keys ips) buf)
]

either-none : (o : Option (List Str)) → either o none ≡ o
either-none none = refl
either-none (some l) = refl

module _ (digest : Str → Str) where
  flush-hash :
      (t : Tracker)
      → (flush_alive_ips digest t).1.last_alive_ips_hash
        ≡ calc_alive_ips_hash digest t.live.alive_ips
  unfolding flush_alive_ips
  flush-hash t =
      elim (Bool-cases
        (str_beq (calc_alive_ips_hash digest t.live.alive_ips) t.last_alive_ips_hash)) [
          | inl same ↦ rw (same) (
              sym (
                (str_beq_iff (calc_alive_ips_hash digest t.live.alive_ips) t.last_alive_ips_hash).0
                  same))
          | inr other ↦ rw (other) refl
        ]

  flush-none :
      (t : Tracker)
      → t.last_alive_ips_hash ≡ calc_alive_ips_hash digest t.live.alive_ips
      → (flush_alive_ips digest t).0 ≡ none
  unfolding flush_alive_ips
  flush-none t e =
      rw
        ((str_beq_iff (calc_alive_ips_hash digest t.live.alive_ips) t.last_alive_ips_hash).1
          (sym e))
        refl

  -- After a flush of the device report, a restore of any report and a Process with the same
  -- addresses, the next flush hands out nothing.
  pub flush_alive_ips-restore :
      (t : Tracker) (m : Map ℕ (List Str)) (cum_traffic : Map ℕ Pair) (conns : ℕ)
      → (flush_alive_ips digest (
          process cum_traffic t.live.alive_ips conns
            (restore_alive_ips m (flush_alive_ips digest t).1))).0
        ≡ none
  unfolding process restore_alive_ips
  flush_alive_ips-restore t m cum_traffic conns =
      flush-none
        (process cum_traffic t.live.alive_ips conns
          (restore_alive_ips m (flush_alive_ips digest t).1))
        (flush-hash t)

  -- A device report lists, for every user, the addresses of the last reading of the kernel, and no
  -- other user, when the set of addresses differs from the last report's by its hash. No user stands
  -- twice in the reading.
  lookup-flush_alive_ips :
      (t : Tracker) (uid : ℕ)
      → Distinct t.live.alive_ips
      → str_beq (calc_alive_ips_hash digest t.live.alive_ips) t.last_alive_ips_hash ≡ false
      → Option.map (lookup uid) (flush_alive_ips digest t).0 ≡ some (ips_of uid t.live.alive_ips)
  unfolding flush_alive_ips lookup
  lookup-flush_alive_ips t uid d changed = rw (changed) (
      ap some
        (lookup-fill_buf uid t.live.alive_ips [] d ∙ either-none (ips_of uid t.live.alive_ips)))
