-- ===== src/Attempt/Supervisor/Safety.antt =====
-- What holds in every state that the supervisor reaches.
use fault_affinity.Prelude.{refl, some, arith}
use fault_affinity.Text.{codes}
use fault_affinity.Attempt.Supervisor.{
  Supervisor, exited, Event, message, workload_spawned, workload_failed, workload_ended,
  channel_closed, uncaught_exception, unhandled_rejection, kill_timer, exit_timer, exit_immediate,
  ready, step, supervisor_error_exit,
}
use fault_affinity.Attempt.Supervisor.Traces.{Enabled, Reachable, at_start, after}
use fault_affinity.Attempt.Supervisor.Invariant.{IsSafe, fail_hard-IsSafe}
use fault_affinity.Attempt.Supervisor.Handled.{
  on_spawn-IsSafe, on_error-IsSafe, on_exit-IsSafe, on_disconnect-IsSafe, on_message-IsSafe,
  ended-IsSafe, kill_group-IsSafe,
}

step-IsSafe : (event : Event) (s : Supervisor) → Enabled event s → IsSafe s → IsSafe (step event s)
unfolding step
step-IsSafe (message control) s (live, settled) h = on_message-IsSafe control s live settled h
step-IsSafe (workload_spawned pid identity observed own) s waiting h =
    on_spawn-IsSafe pid identity observed own s waiting h
step-IsSafe (workload_failed code) s received h = on_error-IsSafe code s received h
step-IsSafe (workload_ended exit_code signal) s _ h = on_exit-IsSafe exit_code signal s h
step-IsSafe channel_closed s _ h = on_disconnect-IsSafe s h
step-IsSafe uncaught_exception s _ h = fail_hard-IsSafe (codes "SUPERVISOR_EXCEPTION") s h
step-IsSafe unhandled_rejection s _ h = fail_hard-IsSafe (codes "SUPERVISOR_REJECTION") s h
step-IsSafe (kill_timer reached) s _ h = kill_group-IsSafe reached s h
step-IsSafe exit_timer s _ h =
    ended-IsSafe (some (exited supervisor_error_exit)) s (λ e. absurd (ground arith)) h
step-IsSafe exit_immediate s due h = ended-IsSafe (some (exited 0)) s (λ _. h.due due) h

ready-IsSafe : IsSafe ready
ready-IsSafe = record {
  spawns = ground arith;
  terms = refl;
  no_launch = λ _. (refl, refl);
  quiet = λ e. cc;
  due = λ e. cc;
  zero = λ e. cc;
}

-- In every state that the supervisor reaches it has spawned the workload at most once, and not
-- before it accepted a launch; it has sent its group TERM once if it has begun its emergency cleanup
-- and never otherwise; and once it has agreed to shut down, or has exited with 0, the workload is
-- not running and no message can start one.
pub Reachable-IsSafe : (s : Supervisor) → Reachable s → IsSafe s
Reachable-IsSafe _ at_start = ready-IsSafe
Reachable-IsSafe _ (after {s} event reached _ enabled) =
    step-IsSafe event s enabled (Reachable-IsSafe s reached)
