-- ===== src/Machine/Discovery.antt =====
-- A rediscovery leaves exactly the nodes that the panel lists.
use xboard_node_plus.Prelude.{
  ◌≡◌, refl, ℕ, true, false, List, [], ◌∷◌, Map, keys, lookup, has, lookup-insert, lookup-remove,
  nat_eq, nat_beq, nat_beq_iff, if◌then◌else◌, Option-cases, Bool-cases, inl, inr, arith,
}
use xboard_node_plus.Machine.{
  Orchestrator, start_node, stop_node, start_each, stop_each, rediscover, is_listed, unwanted,
  service_ended, detach, unregister_node,
}

has-start_node :
    (id j : ℕ) (o : Orchestrator)
    → has j (start_node id o).nodes ≡ (if nat_beq j id then true else has j o.nodes)
unfolding start_node
has-start_node id j o =
    ground (arith, lookup-insert id j o.next o.nodes, nat_beq_iff j id, nat_beq_iff id j)

nodes-service_ended : (g : ℕ) (o : Orchestrator) → (service_ended g o).nodes ≡ o.nodes
unfolding service_ended unregister_node
nodes-service_ended g o = elim (Option-cases (lookup g o.running)) [
  | inl over ↦ rw over refl
  | inr (id, runs) ↦ rw runs refl
]

has-stop_node :
    (id j : ℕ) (o : Orchestrator)
    → has j (stop_node id o).nodes ≡ (if nat_beq j id then false else has j o.nodes)
unfolding stop_node detach
has-stop_node id j o = elim (Option-cases (lookup id o.nodes)) [
  | inl absent ↦ ground (arith, absent, nat_beq_iff j id)
  | inr (g, here) ↦ rw here (
      rw (nodes-service_ended g (detach id o))
        (ground (arith, lookup-remove id j o.nodes, nat_beq_iff j id, nat_beq_iff id j)))
]

has-start_each :
    (ids : List ℕ) (j : ℕ) (o : Orchestrator)
    → has j (start_each ids o).nodes ≡ (if is_listed ids j then true else has j o.nodes)
unfolding start_each
has-start_each [] j o = refl
has-start_each (id ∷ ids) j o =
    ground (arith, has-start_each ids j (start_node id o), has-start_node id j o)

has-stop_each :
    (ids : List ℕ) (j : ℕ) (o : Orchestrator)
    → has j (stop_each ids o).nodes ≡ (if is_listed ids j then false else has j o.nodes)
unfolding stop_each
has-stop_each [] j o = refl
has-stop_each (id ∷ ids) j o =
    ground (arith, has-stop_each ids j (stop_node id o), has-stop_node id j o)

pub is_listed-unwanted :
    (wanted ids : List ℕ) (j : ℕ)
    → is_listed (unwanted wanted ids) j ≡ (if is_listed wanted j then false else is_listed ids j)
is_listed-unwanted wanted [] j = ground arith
is_listed-unwanted wanted (id ∷ ids) j = elim (Bool-cases (nat_beq j id)) [
  | inl same ↦ rw ((nat_beq_iff j id).0 same) (ground (arith, is_listed-unwanted wanted ids id))
  | inr other ↦ ground (arith, other, is_listed-unwanted wanted ids j)
]

is_listed-keys : {V : Type 0} (m : Map ℕ V) (j : ℕ) → is_listed (keys m) j ≡ has j m
unfolding lookup
is_listed-keys [] j = refl
is_listed-keys ((k, v) ∷ m) j = ground (arith, is_listed-keys m j, nat_beq_iff j k, nat_beq_iff k j)

-- After a rediscovery a node is known exactly when the panel lists it.
pub has-rediscover :
    (wanted : List ℕ) (j : ℕ) (o : Orchestrator)
    → has j (rediscover wanted o).nodes ≡ is_listed wanted j
unfolding rediscover
has-rediscover wanted j o = ground (
  arith,
  has-start_each wanted j (stop_each (unwanted wanted (keys o.nodes)) o),
  has-stop_each (unwanted wanted (keys o.nodes)) j o,
  is_listed-unwanted wanted (keys o.nodes) j,
  is_listed-keys o.nodes j,
)
