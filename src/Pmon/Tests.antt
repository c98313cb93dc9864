-- ===== src/Pmon/Tests.antt =====
-- A monitor with a core process and a node, and the theorems at it.
use xc_ros.Prelude.{◌≡◌, refl, true, false, List, [], ◌∷◌, ◌++◌, none, some, arith}
use xc_ros.Prelude.Text.{codes, same}
use xc_ros.Prelude.Int.{pos}
use xc_ros.Prelude.Result.{err}
use xc_ros.Pmon.{
  duplicate_name, after_shutdown, Proc, new_monitor, has_name, has_process, first_named,
  get_process, register, shutdown, kill_process, unregister, has_proc, remove_proc, not_in,
  post_run, get_process_names_with_spawn_count,
}
use xc_ros.Pmon.Loop.{
  alive, died, poll_one, bury, check_all_dead, on_object, restart, finished, tick, do_register,
  do_complete, do_shutdown, call, Event, thread, other, core_registers, core_appends, pick, step,
  run, start,
}
use xc_ros.Pmon.Unique.{IsUnique, run-IsUnique}
use xc_ros.Pmon.Final.{IsOver, cores, run-IsOver}
use xc_ros.Pmon.Stops.{run_down}

abbrev master : Proc
master = record {
  id = 1;
  name = codes "master";
  respawn = false;
  required = true;
  exit_code = none;
  spawn_count = 1;
}

abbrev node : Proc
node = record {
  id = 2;
  name = codes "node";
  respawn = true;
  required = false;
  exit_code = none;
  spawn_count = 1;
}

abbrev setup : List Event
setup = core_registers master ∷ core_appends 0 ∷ other (do_register node) ∷ other do_complete ∷ []

abbrev up : Event
up = thread (record { poll = alive; stops = true })

abbrev down : Event
down = thread (record { poll = died (some (pos 1)) true; stops = true })

-- The node dies and is started again.
abbrev respawned : List Event
respawned = setup ++ up ∷ up ∷ down ∷ up ∷ up ∷ up ∷ []

-- Then the master dies, and a third process comes too late.
abbrev ended : List Event
ended =
    respawned
    ++ up
      ∷ up
      ∷ down
      ∷ up
      ∷ up
      ∷ up
      ∷ up
      ∷ other (do_register (record node { id = 3; name = codes "late" }))
      ∷ []

program : Unit {0}
unfolding same has_name has_process first_named get_process register kill_process unregister
    has_proc remove_proc not_in post_run poll_one bury check_all_dead on_object restart tick call
    pick step run
program = tt

spawned_twice :
    (get_process_names_with_spawn_count (run respawned start).monitor
      ≡ ((codes "master", 1) ∷ (codes "node", 2) ∷ [], []))
    × ((run respawned start).monitor.told ≡ (codes "node", some (pos 1)) ∷ [])
unfolding program
spawned_twice = (refl, refl)

refused :
    (register (record master { id = 4 }) (run respawned start).monitor ≡ err duplicate_name)
    × (register (record master { id = 4; name = codes "other" }) (shutdown new_monitor)
        ≡ err after_shutdown)
    × (kill_process (codes "node") (run respawned start).monitor ≡ true)
unfolding program
refused = (refl, refl, refl)

ends : ((run ended start).monitor.done ≡ true) × ((run ended start).phase ≡ finished)
unfolding program
ends = (refl, refl)

-- A monitor is shut down while a core process is registered and not yet appended.
abbrev overtaken : List Event
overtaken = core_registers master ∷ other do_shutdown ∷ up ∷ up ∷ []

left_behind :
    ((run overtaken start).monitor.done ≡ true)
    × ((run (core_appends 0 ∷ []) (run overtaken start)).monitor.core_procs ≡ master ∷ [])
unfolding program
left_behind = (refl, refl)

run-IsUnique_example : IsUnique (run respawned start).monitor.procs
run-IsUnique_example = run-IsUnique respawned

run-IsOver_example :
    IsOver (run (core_appends 0 ∷ []) (run overtaken start)).monitor
    × (cores (run (core_appends 0 ∷ []) (run overtaken start)) ≡ cores (run overtaken start))
run-IsOver_example = run-IsOver overtaken (core_appends 0 ∷ []) (left_behind.0)

run_down_example :
    (run (up ∷ other (do_register node) ∷ up ∷ []) (run (other do_shutdown ∷ setup) start)).phase
    ≡ finished
run_down_example =
    run_down (up ∷ other (do_register node) ∷ up ∷ []) (run (other do_shutdown ∷ setup) start)
      (unfold program in refl) (unfold program in omega arith)
