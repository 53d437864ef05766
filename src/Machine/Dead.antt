-- ===== src/Machine/Dead.antt =====
-- A node whose service ended by itself.
use xboard_node_plus.Prelude.{
  ◌≡◌, ap, ◌∙◌, sym, ℕ, ◌<◌, true, false, List, [], ◌∷◌, none, some, lookup, lookup-insert,
  lookup-remove, nat_eq, nat_beq, nat_beq_iff, arith, has, All, Option-cases, Bool-cases, inl, inr,
  is_some, keys,
}
use xboard_node_plus.ControlPlane.Mailbox.{new_node_mailbox, apply}
use xboard_node_plus.Machine.{
  Orchestrator, Act, PushEvent, sync_nodes, node_event, discovered, ended_service, registered,
  pushed, start_node, stop_node, start_each, stop_each, rediscover, is_listed, unwanted,
  service_ended, detach, unregister_node, register_node, on_ws_event, act, run,
}
use xboard_node_plus.Machine.Discovery.{is_listed-unwanted}
use xboard_node_plus.Machine.Race.{fresh, over, service_ended-over}

-- The node id is known by an instance g that has ended, and has no mailbox.
pub record IsDead (id g : ℕ) (o : Orchestrator) : Type 0 where
  pub known : lookup id o.nodes ≡ some g
  pub over : lookup g o.running ≡ none
  pub unheard : lookup id o.mailboxes ≡ none
  pub old : g < o.next

module _ (id g : ℕ) where
  fresh-IsDead :
      (j : ℕ) (o : Orchestrator) → nat_beq j id ≡ false → IsDead id g o → IsDead id g (fresh j o)
  fresh-IsDead j o apart d = record {
    known = ground (arith, apart, d.known, lookup-insert j id o.next o.nodes);
    over = ground (arith, d.over, d.old, lookup-insert o.next g j o.running, nat_beq_iff o.next g);
    unheard =
        ground (arith, apart, d.unheard, lookup-insert j id (o.next, new_node_mailbox) o.mailboxes);
    old = omega (arith, d.old);
  }

  start_node-IsDead : (j : ℕ) (o : Orchestrator) → IsDead id g o → IsDead id g (start_node j o)
  unfolding start_node
  start_node-IsDead j o d = elim (Bool-cases (has j o.nodes)) [
    | inl running ↦ rw running d
    | inr absent ↦ elim (Bool-cases (nat_beq j id)) [
      | inl same ↦ absurd (
          cc (
            sym absent
            ∙ ap (λ k. has k o.nodes) ((nat_beq_iff j id).0 same)
            ∙ ap (λ v. is_some v) d.known))
      | inr apart ↦ rw absent (fresh-IsDead j o apart d)
    ]
  ]

  over-IsDead : (h j : ℕ) (o : Orchestrator) → IsDead id g o → IsDead id g (over h j o)
  unfolding unregister_node
  over-IsDead h j o d = record {
    known = d.known;
    over = ground (arith, d.over, lookup-remove h g o.running);
    unheard = ground (arith, d.unheard, lookup-remove j id o.mailboxes);
    old = d.old;
  }

  service_ended-IsDead :
      (h : ℕ) (o : Orchestrator) → IsDead id g o → IsDead id g (service_ended h o)
  unfolding service_ended
  service_ended-IsDead h o d = elim (Option-cases (lookup h o.running)) [
    | inl gone ↦ rw gone d
    | inr (j, runs) ↦ rw runs (over-IsDead h j o d)
  ]

  detach-IsDead :
      (j : ℕ) (o : Orchestrator) → nat_beq j id ≡ false → IsDead id g o → IsDead id g (detach j o)
  unfolding detach
  detach-IsDead j o apart d = record {
    known = ground (arith, apart, d.known, lookup-remove j id o.nodes);
    over = d.over;
    unheard = ground (arith, d.unheard, lookup-remove j id o.mailboxes);
    old = d.old;
  }

  stop_node-IsDead :
      (j : ℕ) (o : Orchestrator)
      → nat_beq j id ≡ false
      → IsDead id g o
      → IsDead id g (stop_node j o)
  unfolding stop_node
  stop_node-IsDead j o apart d = elim (Option-cases (lookup j o.nodes)) [
    | inl absent ↦ rw absent d
    | inr (h, here) ↦ rw here (service_ended-IsDead h (detach j o) (detach-IsDead j o apart d))
  ]

  start_each-IsDead :
      (ids : List ℕ) (o : Orchestrator) → IsDead id g o → IsDead id g (start_each ids o)
  unfolding start_each
  start_each-IsDead [] o d = d
  start_each-IsDead (j ∷ ids) o d = start_each-IsDead ids (start_node j o) (start_node-IsDead j o d)

  stop_each-IsDead :
      (ids : List ℕ) (o : Orchestrator)
      → is_listed ids id ≡ false
      → IsDead id g o
      → IsDead id g (stop_each ids o)
  unfolding stop_each
  stop_each-IsDead [] o apart d = d
  stop_each-IsDead (j ∷ ids) o apart d =
      stop_each-IsDead ids (stop_node j o) (ground (arith, apart))
        (stop_node-IsDead j o (ground (arith, apart, nat_beq_iff j id, nat_beq_iff id j)) d)

  rediscover-IsDead :
      (wanted : List ℕ) (o : Orchestrator)
      → is_listed wanted id ≡ true
      → IsDead id g o
      → IsDead id g (rediscover wanted o)
  unfolding rediscover
  rediscover-IsDead wanted o listed d = start_each-IsDead wanted _ (
      stop_each-IsDead (unwanted wanted (keys o.nodes)) o
        (ground (arith, listed, is_listed-unwanted wanted (keys o.nodes) id)) d)

  on_ws_event-IsDead :
      (e : PushEvent) (o : Orchestrator) → IsDead id g o → IsDead id g (on_ws_event e o)
  unfolding on_ws_event
  on_ws_event-IsDead sync_nodes o d = d
  on_ws_event-IsDead (node_event j none) o d = d
  on_ws_event-IsDead (node_event j (some e)) o d = elim (Bool-cases (nat_beq j 0)) [
    | inl no_node ↦ rw no_node d
    | inr node ↦ rw node (elim (Option-cases (lookup j o.mailboxes)) [
      | inl unknown ↦ rw unknown d
      | inr ((h, mb), found) ↦ rw found (record {
        known = d.known;
        over = d.over;
        unheard = elim (Bool-cases (nat_beq j id)) [
          | inl same ↦ absurd (
              cc (
                sym found ∙ ap (λ k. lookup k o.mailboxes) ((nat_beq_iff j id).0 same) ∙ d.unheard))
          | inr apart ↦
              ground (arith, apart, d.unheard, lookup-insert j id (h, apply e mb) o.mailboxes)
        ];
        old = d.old;
      })
    ])
  ]

  -- A rediscovery in which the panel lists the node.
  abbrev pub Lists : Act → Type 0
  Lists (discovered wanted) = is_listed wanted id ≡ true
  Lists (ended_service h) = Unit
  Lists (registered j) = Unit
  Lists (pushed e) = Unit

  act-IsDead : (a : Act) (o : Orchestrator) → Lists a → IsDead id g o → IsDead id g (act a o)
  unfolding act register_node
  act-IsDead (discovered wanted) o listed d = rediscover-IsDead wanted o listed d
  act-IsDead (ended_service h) o listed d = service_ended-IsDead h o d
  act-IsDead (registered j) o listed d = record {
    known = d.known;
    over = d.over;
    unheard = d.unheard;
    old = d.old;
  }
  act-IsDead (pushed e) o listed d = on_ws_event-IsDead e o d

  run-IsDead :
      (acts : List Act) (o : Orchestrator)
      → All Lists acts
      → IsDead id g o
      → IsDead id g (run acts o)
  unfolding run
  run-IsDead [] o listed d = d
  run-IsDead (a ∷ acts) o (l, listed) d = run-IsDead acts (act a o) listed (act-IsDead a o l d)

  ended-IsDead :
      (o : Orchestrator) → lookup id o.nodes ≡ some g → g < o.next → IsDead id g (over g id o)
  unfolding unregister_node
  ended-IsDead o known old = record {
    known = known;
    over = ground (arith, lookup-remove g g o.running, nat_beq_iff g g);
    unheard = ground (arith, lookup-remove id id o.mailboxes, nat_beq_iff id id);
    old = old;
  }

  -- When the service of a node ends by itself, no service is started for the node and no event
  -- reaches it, whatever happens to the machine, for as long as the panel goes on listing it.
  pub run-ended :
      (acts : List Act) (o : Orchestrator)
      → lookup id o.nodes ≡ some g
      → lookup g o.running ≡ some id
      → g < o.next
      → All Lists acts
      → IsDead id g (run acts (service_ended g o))
  run-ended acts o known runs old listed =
      run-IsDead acts (service_ended g o) listed
        (rw (service_ended-over g id o runs) (ended-IsDead o known old))
