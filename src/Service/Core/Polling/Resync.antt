-- ===== src/Service/Core/Polling/Resync.antt =====
-- internal/service/service.go: the flags by which polls are started, from the ticker, on the changes of
-- the push connection and by a request to resynchronise.
use xboard_node_plus.Prelude.{
  ℕ, zero, suc, ◌≤◌, Bool, true, false, List, [], ◌∷◌, ◌≡◌, refl, arith, if◌then◌else◌, All, not,
  ◌&&◌, Bool-cases, inl, inr,
}
use xboard_node_plus.Service.Backoff.{should_skip, on_success, on_failure}

pub record Puller : Type 0 where
  pub resync_pending : Bool
  pub pull_active : Bool
  pub pull_backoff : ℕ

pub data Action : Type 0 where
  -- requestWSResync
  requested : Action
  -- pullViaAPIAsync from the ticker, from handleWSStatus or from wsDiscovery
  due : Action
  -- the goroutine's end, without and with a snapshot
  failed : Action
  fetched : Action
  -- applyPullResult
  applied : Action

-- Whether a poll starts; `supports` is source.SupportsPolling().
unfoldable pub pull_via_api_async : Bool → Puller → Bool × Puller
unfolding should_skip
pull_via_api_async supports p =
    let (skip, backoff) = should_skip p.pull_backoff in
    if not supports
    then (false, p)
    else if p.pull_active
    then (false, p)
    else if skip
    then (false, record p { pull_backoff = backoff })
    else (true, record p { pull_active = true; pull_backoff = backoff })

unfoldable pub request_ws_resync : Bool → Puller → Bool × Puller
unfolding pull_via_api_async
request_ws_resync supports p =
    if p.resync_pending
    then (false, p)
    else pull_via_api_async supports (record p { resync_pending = true })

unfoldable pub act : Bool → Action → Puller → Bool × Puller
unfolding request_ws_resync pull_via_api_async on_failure on_success
act supports requested p = request_ws_resync supports p
act supports due p = pull_via_api_async supports p
act supports failed p =
    (false, record p { pull_active = false; pull_backoff = on_failure p.pull_backoff })
act supports fetched p =
    (false, record p { pull_active = false; pull_backoff = on_success p.pull_backoff })
act supports applied p = (false, record p { resync_pending = false })

abbrev is_requested : Action → Bool
is_requested requested = true
is_requested due = false
is_requested failed = false
is_requested fetched = false
is_requested applied = false

abbrev pub is_applied : Action → Bool
is_applied requested = false
is_applied due = false
is_applied failed = false
is_applied fetched = false
is_applied applied = true

-- How many polls the requests of a run start.
unfoldable pub starts : Bool → List Action → Puller → ℕ
starts supports [] p = 0
starts supports (a ∷ l) p =
    let (started, q) = act supports a p in
    let rest = starts supports l q in if started && is_requested a then suc rest else rest

-- No poll runs and none is skipped.
unfoldable pub dues : ℕ → Puller → Puller
dues zero p = p
dues (suc n) p = dues n (pull_via_api_async true p).1

room : Bool → ℕ
room true = 0
room false = 1

pull-pending :
    (supports : Bool) (p : Puller)
    → (pull_via_api_async supports p).1.resync_pending ≡ p.resync_pending
unfolding pull_via_api_async should_skip
pull-pending supports p = ground arith

request-pending :
    (supports : Bool) (p : Puller) → (request_ws_resync supports p).1.resync_pending ≡ true
unfolding request_ws_resync
request-pending supports p =
    ground (arith, pull-pending supports (record p { resync_pending = true }))

request-room :
    (supports : Bool) (p : Puller)
    → p.resync_pending ≡ true
    → (request_ws_resync supports p).0 ≡ false
unfolding request_ws_resync
request-room supports p h = rw (h)

starts-room :
    (supports : Bool) (l : List Action) (p : Puller)
    → All (λ a. is_applied a ≡ false) l
    → starts supports l p ≤ room p.resync_pending
unfolding starts act request_ws_resync pull_via_api_async room
starts-room supports [] p h = omega arith
starts-room supports (requested ∷ l) p h =
    let rest = starts-room supports l (request_ws_resync supports p).1 h.1 in
    let none_left = request-pending supports p in
    elim (Bool-cases p.resync_pending) [
      | inl e ↦ ground (arith, e, rest, none_left, request-room supports p e)
      | inr e ↦ ground (arith, e, rest, none_left)
    ]
starts-room supports (due ∷ l) p h =
    ground
      (arith, starts-room supports l (pull_via_api_async supports p).1 h.1, pull-pending supports p)
starts-room supports (failed ∷ l) p h =
    ground (arith, starts-room supports l (act supports failed p).1 h.1)
starts-room supports (fetched ∷ l) p h =
    ground (arith, starts-room supports l (act supports fetched p).1 h.1)
starts-room supports (applied ∷ l) p h = absurd (cc)

-- While no snapshot is applied, the requests to resynchronise start at most one poll, whatever else
-- starts polls and however they end.
pub starts-le :
    (supports : Bool) (l : List Action) (p : Puller)
    → All (λ a. is_applied a ≡ false) l
    → starts supports l p ≤ 1
unfolding room
starts-le supports l p h = ground (arith, starts-room supports l p h)

pull-now :
    (p : Puller)
    → p.pull_active ≡ false
    → p.pull_backoff ≡ 0
    → (pull_via_api_async true p).1.pull_active ≡ true
unfolding pull_via_api_async should_skip
pull-now p h e = ground (arith, h, e)

pull-later :
    (p : Puller) (n : ℕ)
    → p.pull_active ≡ false
    → p.pull_backoff ≡ suc n
    → ((pull_via_api_async true p).1.pull_active ≡ false)
      × ((pull_via_api_async true p).1.pull_backoff ≡ n)
unfolding pull_via_api_async should_skip
pull-later p n h e = ground (arith, h, e)

dues-starts :
    (n : ℕ) (p : Puller)
    → p.pull_active ≡ false
    → p.pull_backoff ≡ n
    → (dues (suc n) p).pull_active ≡ true
unfolding dues
dues-starts zero p h e = pull-now p h e
dues-starts (suc n) p h e =
    let (quiet, less) = pull-later p n h e in dues-starts n (pull_via_api_async true p).1 quiet less

-- A node that polls the panel and has no poll running starts one within one round more than its
-- backoff counts.
pub dues-active :
    (p : Puller) → p.pull_active ≡ false → (dues (suc p.pull_backoff) p).pull_active ≡ true
dues-active p h = dues-starts p.pull_backoff p h refl
