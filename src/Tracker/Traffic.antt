-- ===== src/Tracker/Traffic.antt =====
-- The traffic accounts of internal/tracker/tracker.go: what Process adds for each user, and what a
-- flush and a restore do to the account.
pub use xboard_node_plus.Tracker.Amounts.{
  amount, ◌⊕◌, IsCounter, IsWord, gain, gain_pair, delta-gain, ⊕_zero, ⊕_assoc, ⊕_comm, ⊕-IsWord,
  amount-add_pair, amount-add_pairs, add_pairs-Distinct,
}
use mathlib.Core.Path.{subst}
use xboard_node_plus.Prelude.{
  Str, ℕ, ◌≡◌, refl, inl, inr, Bool, ◌||◌, [], ◌∷◌, none, some, arith, Map, has, All, lookup,
  Distinct, if◌then◌else◌, is_pos, ◌==◌, nat_eq, nat_beq_iff, lookup-insert, insert-Distinct,
  Bool-cases,
}
use xboard_node_plus.Tracker.{
  Pair, Tracker, Cycle, delta, add_pair, process_user, process_users, process, restore_traffic,
}

-- One round of the loop of Process, for every user.
pending-process_user :
    (uid j : ℕ) (cum : Pair) (c : Cycle)
    → IsCounter cum
    → IsCounter (amount uid c.seen)
    → IsWord (amount uid c.pending)
    → amount j (process_user uid cum c).pending ≡ (
        if uid == j
        then amount j c.pending ⊕ gain_pair cum (amount j c.seen)
        else amount j c.pending)
unfolding process_user
pending-process_user uid j cum c hc hs hw =
    let e0 = delta-gain cum.0 (amount uid c.seen).0 hc.0 hs.0 in
    let e1 = delta-gain cum.1 (amount uid c.seen).1 hc.1 hs.1 in
    elim (Bool-cases (uid == j)) [
      | inl same ↦
          let e = (nat_beq_iff uid j).0 same in
          ground
            (arith, e, e0, e1, amount-add_pair uid j (gain_pair cum (amount uid c.seen)) c.pending)
      | inr other ↦ ground (
        arith,
        e0,
        e1,
        other,
        amount-add_pair uid j (gain_pair cum (amount uid c.seen)) c.pending,
      )
    ]

seen-process_user :
    (uid j : ℕ) (cum : Pair) (c : Cycle)
    → lookup j (process_user uid cum c).seen ≡ (if uid == j then some cum else lookup j c.seen)
unfolding process_user
seen-process_user uid j cum c = ground (arith, lookup-insert uid j cum c.seen)

-- What holds before and after each round.
pub record IsSound (seen pending : Map ℕ Pair) : Type 0 where
  pub counters : (j : ℕ) → IsCounter (amount j seen)
  pub words : (j : ℕ) → IsWord (amount j pending)
  pub distinct : Distinct pending

process_user-Distinct :
    (uid : ℕ) (cum : Pair) (c : Cycle)
    → Distinct c.pending
    → Distinct (process_user uid cum c).pending
unfolding process_user add_pair
process_user-Distinct uid cum c d = elim (Bool-cases (is_pos up || is_pos down)) [
  | inl moved ↦ rw (moved, process_user) (insert-Distinct uid _ c.pending d)
  | inr still ↦ rw (still, process_user) d
]
  where
    prev : Pair
    prev = amount uid c.seen

    up : ℕ
    up = delta cum.0 prev.0

    down : ℕ
    down = delta cum.1 prev.1

process_user-IsSound :
    (uid : ℕ) (cum : Pair) (c : Cycle)
    → IsCounter cum
    → IsSound c.seen c.pending
    → IsSound (process_user uid cum c).seen (process_user uid cum c).pending
process_user-IsSound uid cum c hc h = record {
  counters = λ j. ground (arith, seen-process_user uid j cum c, h.counters j);
  words = λ j. ground (
    arith,
    pending-process_user uid j cum c hc (h.counters uid) (h.words uid),
    h.words j,
    ⊕-IsWord (amount j c.pending) (gain_pair cum (amount j c.seen)),
  );
  distinct = process_user-Distinct uid cum c h.distinct;
}

seen-process_users :
    (j : ℕ) (m : Map ℕ Pair) (c : Cycle)
    → Distinct m
    → amount j (process_users m c).seen ≡ (if has j m then amount j m else amount j c.seen)
unfolding process_users lookup
seen-process_users j [] c d = refl
seen-process_users j ((k, v) ∷ m) c d = elim (Bool-cases (k == j)) [
  | inl same ↦
      let e = (nat_beq_iff k j).0 same in
      let none_left : lookup j m ≡ none = subst (λ i. lookup i m ≡ none) e d.0 in
      ground (
        arith,
        same,
        none_left,
        seen-process_users j m (process_user k v c) d.1,
        seen-process_user k j v c,
      )
  | inr other ↦
      ground
        (arith, other, seen-process_users j m (process_user k v c) d.1, seen-process_user k j v c)
]

pending-process_users :
    (j : ℕ) (m : Map ℕ Pair) (c : Cycle)
    → Distinct m
    → All (λ e. IsCounter e.1) m
    → IsSound c.seen c.pending
    → amount j (process_users m c).pending ≡ (
        if has j m
        then amount j c.pending ⊕ gain_pair (amount j m) (amount j c.seen)
        else amount j c.pending)
unfolding process_users lookup
pending-process_users j [] c d a h = refl
pending-process_users j ((k, v) ∷ m) c d a h =
    let rest =
      pending-process_users j m (process_user k v c) d.1 a.1 (process_user-IsSound k v c a.0 h) in
    elim (Bool-cases (k == j)) [
      | inl same ↦
          let e = (nat_beq_iff k j).0 same in
          let none_left : lookup j m ≡ none = subst (λ i. lookup i m ≡ none) e d.0 in
          ground (
            arith,
            rest,
            same,
            none_left,
            pending-process_user k j v c a.0 (h.counters k) (h.words k),
          )
      | inr other ↦ ground (
        arith,
        rest,
        other,
        pending-process_user k j v c a.0 (h.counters k) (h.words k),
        seen-process_user k j v c,
      )
    ]

process_users-IsSound :
    (m : Map ℕ Pair) (c : Cycle)
    → All (λ e. IsCounter e.1) m
    → IsSound c.seen c.pending
    → IsSound (process_users m c).seen (process_users m c).pending
unfolding process_users
process_users-IsSound [] c a h = h
process_users-IsSound ((k, v) ∷ m) c a h =
    process_users-IsSound m (process_user k v c) a.1 (process_user-IsSound k v c a.0 h)

module _ (cum_traffic : Map ℕ Pair) (alive_ips : Map ℕ (Map Str Bool)) (conns : ℕ) (t : Tracker)
    (distinct : Distinct cum_traffic) (counters : All (λ e. IsCounter e.1) cum_traffic)
    (sound : IsSound t.last_seen t.pending_traffic) where
  -- One Process adds to the account of each reported user, and of no other, the bytes since the
  -- reading that the tracker remembers, and then remembers the new reading. The maps of the
  -- tracker hold counters and words, no key of `cum_traffic` stands twice, and its readings are
  -- nonnegative.
  pub amount-process :
      (uid : ℕ)
      → (amount uid (process cum_traffic alive_ips conns t).pending_traffic ≡ (
          if has uid cum_traffic
          then amount uid t.pending_traffic
            ⊕ gain_pair (amount uid cum_traffic) (amount uid t.last_seen)
          else amount uid t.pending_traffic))
        × (amount uid (process cum_traffic alive_ips conns t).last_seen
            ≡ (if has uid cum_traffic then amount uid cum_traffic else amount uid t.last_seen))
  unfolding process
  amount-process uid = (
    pending-process_users uid cum_traffic _ distinct counters sound,
    seen-process_users uid cum_traffic _ distinct,
  )

  pub process-IsSound :
      IsSound
        (process cum_traffic alive_ips conns t).last_seen
        (process cum_traffic alive_ips conns t).pending_traffic
  unfolding process
  process-IsSound = process_users-IsSound cum_traffic _ counters sound

pub amount-restore :
    (j : ℕ) (ds : Map ℕ Pair) (t : Tracker)
    → Distinct ds
    → IsWord (amount j t.pending_traffic)
    → amount j (restore_traffic ds t).pending_traffic ≡ (amount j t.pending_traffic ⊕ amount j ds)
unfolding restore_traffic
amount-restore j ds t d w = amount-add_pairs j ds t.pending_traffic d w

pub restore-IsSound :
    (ds : Map ℕ Pair) (t : Tracker)
    → Distinct ds
    → IsSound t.last_seen t.pending_traffic
    → IsSound (restore_traffic ds t).last_seen (restore_traffic ds t).pending_traffic
unfolding restore_traffic
restore-IsSound ds t d h = record {
  counters = h.counters;
  words = λ j. ground (
    arith,
    amount-add_pairs j ds t.pending_traffic d (h.words j),
    ⊕-IsWord (amount j t.pending_traffic) (amount j ds),
  );
  distinct = add_pairs-Distinct ds t.pending_traffic h.distinct;
}
