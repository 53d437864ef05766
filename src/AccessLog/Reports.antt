-- ===== src/AccessLog/Reports.antt =====
-- internal/accesslog/access.go: the last event that was handed out is up to date.
use xboard_node_plus.Prelude.{
  ◌∙◌, ap, sym, ℕ, Bool, true, List, [], ◌∷◌, Option, none, some, ◌≡◌, ◌⊎◌, inl, inr, refl, arith,
  nat_beq, ◌&&◌, Bool-cases,
}
use xboard_node_plus.AccessLog.{
  Event, Activity, minus_one, new_activity, add_upload, add_download, close, snapshot_if_changed,
}

pub data Action : Type 0 where
  uploaded : ℕ → Action
  downloaded : ℕ → Action
  ended : Action
  asked : Action

abbrev or_last : Option Event → Option Event → Option Event
or_last none last = last
or_last (some e) last = some e

-- An activity and the last event that it handed out.
abbrev pub Log : Type 0
Log = Option Event × Option Activity

unfoldable pub act : Action → Log → Log
act (uploaded n) (last, a) = (last, add_upload n a)
act (downloaded n) (last, a) = (last, add_download n a)
act ended (last, a) = (last, close a)
act asked (last, a) = let (e, b) = snapshot_if_changed a in (or_last e last, b)

unfoldable pub run : List Action → Log → Log
run [] l = l
run (a ∷ l) log = run l (act a log)

-- The last event has the totals of the last snapshot, or there was none since the start.
abbrev Reported : Event → Log → Type 0
Reported base (last, none) = ⊥
Reported base (none, some a) =
    (a.base ≡ base) × (a.last_upload ≡ minus_one) × (a.last_download ≡ minus_one)
Reported base (some e, some a) =
    (a.base ≡ base) × (e ≡ record base { upload = a.last_upload; download = a.last_download })

is_same : Activity → Bool
is_same a = nat_beq a.last_upload a.upload && nat_beq a.last_download a.download

is_same-totals :
    (a : Activity) → is_same a ≡ true → (a.last_upload ≡ a.upload) × (a.last_download ≡ a.download)
unfolding is_same
is_same-totals a h = ground arith

asked-Reported :
    (base : Event) (last : Option Event) (a : Activity)
    → Reported base (last, some a)
    → Reported base (act asked (last, some a))
unfolding act snapshot_if_changed is_same
asked-Reported base none a h = elim (Bool-cases (is_same a)) [
  | inl same ↦ let (u, d) = is_same-totals a same in rw (same, sym u, sym d) h
  | inr other ↦
      rw (other)
        (h.0, ap {A = Event} (λ b. record b { upload = a.upload; download = a.download }) h.0)
]
asked-Reported base (some e) a h = elim (Bool-cases (is_same a)) [
  | inl same ↦ let (u, d) = is_same-totals a same in rw (same, sym u, sym d) h
  | inr other ↦
      rw (other)
        (h.0, ap {A = Event} (λ b. record b { upload = a.upload; download = a.download }) h.0)
]

act-Reported :
    (base : Event) (x : Action) (log : Log) → Reported base log → Reported base (act x log)
unfolding act add_upload add_download close
act-Reported base x (last, none) h = absurd h
act-Reported base (uploaded n) (none, some a) h = h
act-Reported base (uploaded n) (some e, some a) h = h
act-Reported base (downloaded n) (none, some a) h = h
act-Reported base (downloaded n) (some e, some a) h = h
act-Reported base ended (none, some a) h = h
act-Reported base ended (some e, some a) h = h
act-Reported base asked (last, some a) h = asked-Reported base last a h

run-Reported :
    (base : Event) (l : List Action) (log : Log) → Reported base log → Reported base (run l log)
unfolding run
run-Reported base [] log h = h
run-Reported base (x ∷ l) log h = run-Reported base l (act x log) (act-Reported base x log h)

-- The last event has the totals of now, or none was handed out and both totals are -1.
abbrev pub IsUpToDate : Event → Log → Type 0
IsUpToDate base (last, none) = ⊥
IsUpToDate base (last, some a) =
    (last ≡ some (record base { upload = a.upload; download = a.download }))
    ⊎ ((last ≡ none) × (a.upload ≡ minus_one) × (a.download ≡ minus_one))

asked-IsUpToDate : (base : Event) (log : Log) → Reported base log → IsUpToDate base (act asked log)
unfolding act snapshot_if_changed is_same
asked-IsUpToDate base (last, none) h = absurd h
asked-IsUpToDate base (none, some a) h = elim (Bool-cases (is_same a)) [
  | inl same ↦
      let (u, d) = is_same-totals a same in rw (same) (inr (refl, sym u ∙ h.1, sym d ∙ h.2))
  | inr other ↦ rw (other, h.0) (inl refl)
]
asked-IsUpToDate base (some e, some a) h = elim (Bool-cases (is_same a)) [
  | inl same ↦ let (u, d) = is_same-totals a same in rw (same, sym u, sym d) (inl (ap some h.1))
  | inr other ↦ rw (other, h.0) (inl refl)
]

-- Whatever bytes are counted and however often SnapshotIfChanged is called, after a call the last
-- event that was handed out has the totals of now, or there was none and both totals are -1, as only
-- a wrap-around makes them.
pub snapshot-IsUpToDate :
    (base : Event) (l : List Action)
    → IsUpToDate base (act asked (run l (none, some (new_activity base))))
unfolding new_activity
snapshot-IsUpToDate base l =
    asked-IsUpToDate base _
      (run-Reported base l (none, some (new_activity base)) (refl, refl, refl))
