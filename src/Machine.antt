-- ===== src/Machine.antt =====
-- internal/machine/machine.go: the nodes of a machine, their services and their mailboxes. A service
-- is an instance with a number; it ends when its Run returns, by itself or because it was cancelled.
pub mod Discovery
pub mod Dead
pub mod Race
use xboard_node_plus.Prelude.{
  ℕ, suc, ◌+◌, ◌*◌, ◌%◌, Bool, true, false, Str, List, [], ◌∷◌, Option, none, some, Map, KeySet,
  keys, lookup, insert, remove, has, nat_eq, nat_beq, not, if◌then◌else◌, any, filter, str_beq,
  ◌&&◌, ltb, is_neg, word, ◌||◌,
}
use xboard_node_plus.ControlPlane.{Event}
use xboard_node_plus.ControlPlane.Mailbox.{NodeMailbox, new_node_mailbox, apply}
use xboard_node_plus.Validation.Kernels.{resolve_kernel_for_transport}
use xboard_node_plus.Validation.{kernel_auto}

-- The instance of each node, the mailbox of a node with the instance that it was made for, the nodes
-- with a channel for the status, the node of each instance that has not ended, and the next instance.
pub record Orchestrator : Type 0 where
  pub nodes : Map ℕ ℕ
  pub mailboxes : Map ℕ (ℕ × NodeMailbox)
  pub statuses : KeySet ℕ
  pub running : Map ℕ ℕ
  pub next : ℕ

abbrev pub new : Orchestrator
new = record { nodes = []; mailboxes = []; statuses = []; running = []; next = 0 }

-- The kernel type of a node's service: what the transport of its configuration needs, unless it is
-- "auto" or the configuration cannot be fetched.
abbrev pub node_kernel : Option Str → Str → Str
node_kernel none configured = configured
node_kernel (some network) configured =
    if str_beq configured kernel_auto
    then configured
    else resolve_kernel_for_transport network configured

unfoldable pub start_node : ℕ → Orchestrator → Orchestrator
start_node id o = if has id o.nodes then o else record o {
  nodes = insert id o.next o.nodes;
  mailboxes = insert id (o.next, new_node_mailbox) o.mailboxes;
  running = insert o.next id o.running;
  next = suc o.next;
}

unfoldable pub register_node : ℕ → Orchestrator → Orchestrator
register_node id o = record o { statuses = insert id tt o.statuses }

unfoldable pub unregister_node : ℕ → Orchestrator → Orchestrator
unregister_node id o = record o {
  mailboxes = remove id o.mailboxes;
  statuses = remove id o.statuses;
}

abbrev ended : ℕ → Option ℕ → Orchestrator → Orchestrator
ended instance_id none o = o
ended instance_id (some id) o = record (unregister_node id o) {
  running = remove instance_id o.running;
}

-- The goroutine of an instance after svc.Run.
unfoldable pub service_ended : ℕ → Orchestrator → Orchestrator
service_ended instance_id o = ended instance_id (lookup instance_id o.running) o

-- The critical sections of stopNode.
unfoldable pub detach : ℕ → Orchestrator → Orchestrator
detach id o = record o { nodes = remove id o.nodes; mailboxes = remove id o.mailboxes }

abbrev stopped : ℕ → Option ℕ → Orchestrator → Orchestrator
stopped id none o = o
stopped id (some instance_id) o = service_ended instance_id (detach id o)

-- It waits for the end of the service, and nothing else happens meanwhile.
unfoldable pub stop_node : ℕ → Orchestrator → Orchestrator
stop_node id o = stopped id (lookup id o.nodes) o

unfoldable pub stop_each : List ℕ → Orchestrator → Orchestrator
stop_each [] o = o
stop_each (id ∷ ids) o = stop_each ids (stop_node id o)

unfoldable pub start_each : List ℕ → Orchestrator → Orchestrator
start_each [] o = o
start_each (id ∷ ids) o = start_each ids (start_node id o)

abbrev pub is_listed : List ℕ → ℕ → Bool
is_listed ids id = any (nat_beq id) ids

abbrev pub unwanted : List ℕ → List ℕ → List ℕ
unwanted wanted = filter (λ id. not (is_listed wanted id))

-- With the nodes that the panel lists.
unfoldable pub rediscover : List ℕ → Orchestrator → Orchestrator
rediscover wanted o = start_each wanted (stop_each (unwanted wanted (keys o.nodes)) o)

-- An event of the shared push connection: for the machine, or for a node, with what TranslateWSEvent
-- gives for it.
pub data PushEvent : Type 0 where
  sync_nodes : PushEvent
  node_event : ℕ → Option Event → PushEvent

abbrev delivered : ℕ → Event → Option (ℕ × NodeMailbox) → Orchestrator → Orchestrator
delivered id e none o = o
delivered id e (some (instance_id, mb)) o = record o {
  mailboxes = insert id (instance_id, apply e mb) o.mailboxes;
}

-- The rediscovery that sync.nodes starts is an event of its own.
unfoldable pub on_ws_event : PushEvent → Orchestrator → Orchestrator
on_ws_event sync_nodes o = o
on_ws_event (node_event id none) o = o
on_ws_event (node_event id (some e)) o =
    if nat_beq id 0 then o else delivered id e (lookup id o.mailboxes) o

-- What happens to the machine, one at a time.
pub data Act : Type 0 where
  discovered : List ℕ → Act
  ended_service : ℕ → Act
  registered : ℕ → Act
  pushed : PushEvent → Act

unfoldable pub act : Act → Orchestrator → Orchestrator
act (discovered wanted) o = rediscover wanted o
act (ended_service instance_id) o = service_ended instance_id o
act (registered id) o = register_node id o
act (pushed e) o = on_ws_event e o

unfoldable pub run : List Act → Orchestrator → Orchestrator
run [] o = o
run (a ∷ acts) o = run acts (act a o)

-- A number of seconds as a time.Duration, with its wrap-around, or a minute if it is less.
abbrev interval : ℕ → ℕ → ℕ
interval least seconds =
    let d = (seconds * 1000000000) % word in
    if is_neg d || ltb d (least * 1000000000) then 60000000000 else d

-- The intervals of discovery and of status reports.
unfoldable pub apply_intervals : (pull push : ℕ) → ℕ × ℕ
apply_intervals pull push = (interval 30 pull, interval 10 push)
