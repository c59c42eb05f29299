-- ===== src/Attempt/Supervisor/Examples.antt =====
-- A workload that is launched, runs, and ends before the shutdown, and one that does not.
use fault_affinity.Prelude.{◌≡◌, refl, ◌↔◌, true, false, List, [], ◌∷◌, none, some, ok}
use fault_affinity.Text.{codes, decimal}
use fault_affinity.Attempt.Launch.{Launch, one_cpu, valid_string, validate_launch}
use fault_affinity.Attempt.Supervisor.{
  Observed, Event, sent, spawned, disconnected, workload_started, workload_exit, exited,
  launch_message, shutdown_message, message, workload_spawned, workload_ended, channel_closed,
  kill_timer, exit_timer, exit_immediate, ready, emergency_cleanup, launch, on_spawn, on_exit,
  shutdown, step, supervisor_error_exit,
}
use fault_affinity.Attempt.Supervisor.Traces.{Enabled, at_start, after}
use fault_affinity.Attempt.Supervisor.Invariant.{IsSafe}
use fault_affinity.Attempt.Supervisor.Safety.{Reachable-IsSafe}
use fault_affinity.Attempt.Supervisor.Launching.{MaySpawn, launch_spawns_iff}
use fault_affinity.Attempt.Supervisor.Orphan.{has_timer, run, orphan_ends}

abbrev command : Launch
command = record {
  version = 4;
  executable = codes "/usr/bin/node";
  args = codes "child.mjs" ∷ [];
  cwd = codes "/srv";
  environment = record { name = codes "LANG"; value = codes "C" } ∷ [];
  grace_ms = 250;
  cpu_affinity = one_cpu 5;
  provenance = record {
    executable_path = some (codes "/usr/bin/node");
    provenance_cwd = some (codes "/srv");
  };
  stdin_payload = none;
}

abbrev seen : Observed
seen = record { own_cpus = some (codes "5"); provenance = ok tt; spawn = ok tt }

abbrev start_event : Event
start_event = message (launch_message (some command) seen)

abbrev spawn_event : Event
spawn_event =
    workload_spawned 40 (some (record { own_group = true; start_ticks = codes "7" }))
      (some (codes "5")) none

valid : validate_launch command ≡ true
unfolding validate_launch valid_string
valid = refl

abbrev whole_run : List Event
whole_run =
    start_event
    ∷ spawn_event
    ∷ workload_ended (some 0) none
    ∷ message shutdown_message
    ∷ exit_immediate
    ∷ []

whole_run_ends : (run whole_run ready).ended ≡ some (exited 0)
unfolding step launch validate_launch valid_string decimal on_spawn on_exit shutdown
whole_run_ends = refl

whole_run_log :
    (run whole_run ready).log
    ≡ disconnected
      ∷ sent (workload_exit (some 0) none)
      ∷ sent (workload_started 40 (some (codes "7")) (codes "5"))
      ∷ spawned command
      ∷ []
unfolding step launch validate_launch valid_string decimal on_spawn on_exit shutdown
whole_run_log = refl

early_shutdown :
    (run (start_event ∷ spawn_event ∷ message shutdown_message ∷ []) ready).exit_due ≡ false
unfolding step launch validate_launch valid_string decimal on_spawn shutdown emergency_cleanup
early_shutdown = refl

Reachable-IsSafe_example : IsSafe (step start_event ready)
Reachable-IsSafe_example =
    Reachable-IsSafe (step start_event ready) (after start_event at_start refl (refl, refl))

launch_spawns_iff_example :
    ((launch (some command) seen ready).awaiting_report ≡ true) ↔ MaySpawn command seen ready
launch_spawns_iff_example = launch_spawns_iff command seen ready refl

orphan_ends_example :
    (has_timer (run (kill_timer false ∷ []) (step channel_closed ready)).log ≡ true)
    × Enabled exit_timer (run (kill_timer false ∷ []) (step channel_closed ready))
    × ((step exit_timer (run (kill_timer false ∷ []) (step channel_closed ready))).ended
        ≡ some (exited supervisor_error_exit))
orphan_ends_example = orphan_ends ready (kill_timer false ∷ []) at_start refl
