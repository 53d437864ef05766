-- ===== src/Machine/Race.antt =====
-- A node that is started again while its old service still ends.
use xboard_node_plus.Prelude.{
  ◌≡◌, refl, ap, ◌∙◌, ℕ, suc, ◌<◌, false, none, some, lookup, insert, remove, lookup-insert,
  lookup-remove, nat_eq, nat_beq_iff, arith, has,
}
use xboard_node_plus.ControlPlane.Mailbox.{new_node_mailbox}
use xboard_node_plus.Machine.{Orchestrator, start_node, detach, service_ended, unregister_node}

-- A start of a node that is not known.
abbrev pub fresh : ℕ → Orchestrator → Orchestrator
fresh id o = record o {
  nodes = insert id o.next o.nodes;
  mailboxes = insert id (o.next, new_node_mailbox) o.mailboxes;
  running = insert o.next id o.running;
  next = suc o.next;
}

pub start_node-fresh :
    (id : ℕ) (o : Orchestrator) → has id o.nodes ≡ false → start_node id o ≡ fresh id o
unfolding start_node
start_node-fresh id o unknown = rw unknown refl

-- The end of an instance that runs.
abbrev pub over : ℕ → ℕ → Orchestrator → Orchestrator
over g id o = record (unregister_node id o) { running = remove g o.running }

pub service_ended-over :
    (g id : ℕ) (o : Orchestrator) → lookup g o.running ≡ some id → service_ended g o ≡ over g id o
unfolding service_ended
service_ended-over g id o runs = rw runs refl

module _ (o : Orchestrator) (id g : ℕ) where
  has-detach : has id (detach id o).nodes ≡ false
  unfolding detach
  has-detach = ground (arith, lookup-remove id id o.nodes, nat_beq_iff id id)

  running-fresh :
      lookup g o.running ≡ some id
      → g < o.next
      → lookup g (fresh id (detach id o)).running ≡ some id
  unfolding detach
  running-fresh runs known =
      ground (arith, runs, known, lookup-insert o.next g id o.running, nat_beq_iff o.next g)

  -- The end of the old service after the new one was started.
  abbrev restarted : Orchestrator
  restarted = service_ended g (start_node id (detach id o))

  restarted-over :
      lookup g o.running ≡ some id → g < o.next → restarted ≡ over g id (fresh id (detach id o))
  restarted-over runs known =
      ap (service_ended g) (start_node-fresh id (detach id o) has-detach)
      ∙ service_ended-over g id (fresh id (detach id o)) (running-fresh runs known)

  over-fresh :
      g < o.next
      → (lookup id (over g id (fresh id (detach id o))).nodes ≡ some o.next)
        × (lookup o.next (over g id (fresh id (detach id o))).running ≡ some id)
        × (lookup id (over g id (fresh id (detach id o))).mailboxes ≡ none)
  unfolding detach unregister_node
  over-fresh known = (
    ground (arith, lookup-insert id id o.next (remove id o.nodes), nat_beq_iff id id),
    ground (
      arith,
      known,
      lookup-remove g o.next (insert o.next id o.running),
      lookup-insert o.next o.next id o.running,
      nat_beq_iff g o.next,
      nat_beq_iff o.next o.next,
    ),
    ground (
      arith,
      lookup-remove id id (insert id (o.next, new_node_mailbox) (remove id o.mailboxes)),
      nat_beq_iff id id,
    ),
  )

  -- When a node is started again between the moment that stopNode forgot it and the end of its old
  -- service, the new service runs and the node is known, but it has no mailbox.
  mailbox-restarted :
      lookup g o.running ≡ some id
      → g < o.next
      → (lookup id restarted.nodes ≡ some o.next)
        × (lookup o.next restarted.running ≡ some id)
        × (lookup id restarted.mailboxes ≡ none)
  mailbox-restarted runs known = rw (restarted-over runs known) (over-fresh known)
