-- ===== src/Attempt/Supervisor/Traces.antt =====
-- Runs of the supervisor. When an event may come is Node's documented behaviour: a spawned process
-- emits `spawn` or `error` on the next tick, before anything else; `exit` comes once, after
-- `spawn`; no message arrives on a channel that is closed; a timer fires once it is set.
use fault_affinity.Prelude.{◌≡◌, true, false, none}
use fault_affinity.Attempt.Supervisor.{
  Supervisor, Event, message, workload_spawned, workload_failed, workload_ended, channel_closed,
  uncaught_exception, unhandled_rejection, kill_timer, exit_timer, exit_immediate, ready, step,
}

abbrev pub Enabled : Event → Supervisor → Type 0
Enabled (message _) s = (s.connected ≡ true) × (s.awaiting_report ≡ false)
Enabled (workload_spawned _ _ _ _) s = (s.awaiting_report ≡ true)
Enabled (workload_failed _) s = (s.launch_received ≡ true)
Enabled (workload_ended _ _) s = (s.started ≡ true) × (s.has_exited ≡ false)
Enabled channel_closed s = (s.awaiting_report ≡ false)
Enabled uncaught_exception s = Unit
Enabled unhandled_rejection s = Unit
Enabled (kill_timer _) s = (s.emergency_started ≡ true)
Enabled exit_timer s = (s.emergency_started ≡ true)
Enabled exit_immediate s = (s.exit_due ≡ true)

-- The states that a run from `ready` passes through.
pub data Reachable : Supervisor → Type 0 where
  at_start : Reachable ready
  after :
      {s : Supervisor} (event : Event)
      → Reachable s
      → s.ended ≡ none
      → Enabled event s
      → Reachable (step event s)
