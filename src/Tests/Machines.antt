-- ===== src/Tests/Machines.antt =====
-- The theorems on the machine's nodes, at concrete machines.
use xboard_node_plus.Prelude.{
  ◌≡◌, refl, ◌<◌, List, [], ◌∷◌, some, lookup, insert, has, nat_eq, arith,
}
use xboard_node_plus.Machine.{
  Orchestrator, new, start_node, start_each, rediscover, is_listed, service_ended, Act, discovered,
  ended_service, registered, run,
}
use xboard_node_plus.Machine.Dead.{IsDead, run-ended}
use xboard_node_plus.Machine.Discovery.{has-rediscover}

-- The nodes 7 and 8, served by the instances 0 and 1.
abbrev machine : Orchestrator
machine = start_each (7 ∷ 8 ∷ []) new

known_seven : lookup 7 machine.nodes ≡ some 0
unfolding start_each start_node lookup insert
known_seven = refl

runs_seven : lookup 0 machine.running ≡ some 7
unfolding start_each start_node lookup insert
runs_seven = refl

old_seven : 0 < machine.next
unfolding start_each start_node lookup insert
old_seven = omega arith

has-rediscover_example : has 8 (rediscover (7 ∷ 9 ∷ []) machine).nodes ≡ is_listed (7 ∷ 9 ∷ []) 8
has-rediscover_example = has-rediscover (7 ∷ 9 ∷ []) 8 machine

-- Another rediscovery and the end of the other service.
abbrev later : List Act
later = discovered (7 ∷ 9 ∷ []) ∷ ended_service 1 ∷ registered 7 ∷ discovered (9 ∷ 7 ∷ []) ∷ []

run-ended_example : IsDead 7 0 (run later (service_ended 0 machine))
run-ended_example =
    run-ended 7 0 later machine known_seven runs_seven old_seven (refl, (tt, (tt, (refl, tt))))
