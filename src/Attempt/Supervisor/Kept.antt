-- ===== src/Attempt/Supervisor/Kept.antt =====
-- What no handler of the supervisor undoes: a predicate on whether the emergency cleanup has begun,
-- and on the log of effects.
use fault_affinity.Prelude.{
  ℕ, ◌+◌, Bool, true, false, List, ◌∷◌, Option, none, some, not, ◌&&◌, ◌||◌, Outcome, ok, throw,
  by_branch,
}
use fault_affinity.Text.{Text, codes}
use fault_affinity.Attempt.Launch.{Launch, validate_launch, expected_cpu_list, normalize_error_code}
use fault_affinity.Attempt.Supervisor.{
  Supervisor, Message, Effect, sent, spawned, group_term, group_kill, disconnected, kill_after,
  exit_after, fatal, workload_launch_error, workload_started, workload_exit, Event, Control,
  launch_message, shutdown_message, unknown_message, message, workload_spawned, workload_failed,
  workload_ended, channel_closed, uncaught_exception, unhandled_rejection, kill_timer, exit_timer,
  exit_immediate, Observed, Identity, send, emergency_cleanup, fail_hard, is_mismatch,
  spawn_workload, check_provenance, accept_launch, received, launch, allowed_list, outside_group,
  report_start, on_spawn, on_error, on_exit, shutdown, on_message, on_disconnect, step, ticks_of,
  supervisor_error_exit,
}

-- Every effect that is logged keeps it, and the cleanup, once it begins, brings it about.
module _ (P : Bool → List Effect → Type 0)
    (grows : (effect : Effect) (begun : Bool) (log : List Effect)
      → P begun log
      → P begun (effect ∷ log))
    (begins : (grace_ms : ℕ) (log : List Effect)
      → P true (
          exit_after (grace_ms + 1_000) supervisor_error_exit
          ∷ kill_after grace_ms
          ∷ group_term
          ∷ log)) where
  abbrev pub Kept : Supervisor → Type 0
  Kept s = P s.emergency_started s.log

  send-Kept : (m : Message) (s : Supervisor) → Kept s → Kept (send m s)
  send-Kept m s h =
      by_branch Kept s.connected (λ _. grows (sent m) s.emergency_started s.log h) (λ _. h)

  pub emergency_cleanup-Kept : (s : Supervisor) → Kept s → Kept (emergency_cleanup s)
  unfolding emergency_cleanup
  emergency_cleanup-Kept s h =
      by_branch Kept s.emergency_started (λ _. h) (λ _. begins s.grace_ms s.log)

  fail_hard-Kept : (code : Text) (s : Supervisor) → Kept s → Kept (fail_hard code s)
  fail_hard-Kept code s h =
      emergency_cleanup-Kept (send (fatal code) s) (send-Kept (fatal code) s h)

  report_start-Kept :
      (pid : ℕ) (identity : Option Identity) (observed allowed : Option Text) (s : Supervisor)
      → Kept s
      → Kept (report_start pid identity observed allowed s)
  report_start-Kept pid identity observed none s h = fail_hard-Kept _ s h
  report_start-Kept pid identity observed (some cpus) s h =
      by_branch Kept (is_mismatch s.expected_cpus observed) (λ _. fail_hard-Kept _ s h)
        (λ _. send-Kept (workload_started pid (ticks_of identity) cpus) s h)

  accept_launch-Kept :
      (m : Launch) (seen : Observed) (s : Supervisor) → Kept s → Kept (accept_launch m seen s)
  accept_launch-Kept m seen s h =
      by_branch Kept (is_mismatch (expected_cpu_list m.cpu_affinity) seen.own_cpus)
        (λ _. send-Kept (workload_launch_error (codes "AFFINITY_MISMATCH")) s h)
        (λ _. checked seen.provenance)
    where
      run : (o : Outcome (Option Text) (Unit {0})) → Kept (spawn_workload m o s)
      run (throw code) = send-Kept _ s h
      run (ok _) = grows (spawned m) s.emergency_started s.log h

      checked : (o : Outcome (Option Text) (Unit {0})) → Kept (check_provenance m seen o s)
      checked (throw code) = send-Kept _ s h
      checked (ok _) = run seen.spawn

  on_message-Kept : (control : Control) (s : Supervisor) → Kept s → Kept (on_message control s)
  unfolding launch shutdown
  on_message-Kept (launch_message none seen) s h = fail_hard-Kept _ s h
  on_message-Kept (launch_message (some m) seen) s h =
      by_branch Kept (s.launch_received || not (validate_launch m)) (λ _. fail_hard-Kept _ s h)
        (λ _. accept_launch-Kept m seen (received m s) h)
  on_message-Kept shutdown_message s h =
      by_branch Kept s.intentional_shutdown (λ _. h)
        (λ _.
          by_branch Kept (s.started && not s.has_exited)
            (λ _.
              let asked = record s { intentional_shutdown = true } in
              let told = send (fatal (codes "SHUTDOWN_WITH_LIVE_WORKLOAD")) asked in
              emergency_cleanup-Kept (record told { intentional_shutdown = false })
                (send-Kept (fatal (codes "SHUTDOWN_WITH_LIVE_WORKLOAD")) asked h))
            (λ _. grows disconnected s.emergency_started s.log h))
  on_message-Kept unknown_message s h = fail_hard-Kept _ s h

  pub step-Kept : (event : Event) (s : Supervisor) → Kept s → Kept (step event s)
  unfolding step on_spawn on_error on_exit on_disconnect
  step-Kept (message control) s h = on_message-Kept control s h
  step-Kept (workload_spawned pid identity observed own) s h =
      let running = record s { started = true; awaiting_report = false } in
      by_branch Kept (outside_group identity) (λ _. fail_hard-Kept _ running h)
        (λ _. report_start-Kept pid identity observed (allowed_list observed own) running h)
  step-Kept (workload_failed code) s h =
      let heard = record s { error_heard = true; awaiting_report = false } in
      by_branch Kept s.error_heard (λ _. fail_hard-Kept _ s h)
        (λ _.
          by_branch Kept s.started
            (λ _. send-Kept (fatal (normalize_error_code code (codes "WORKLOAD_ERROR"))) heard h)
            (λ _.
              send-Kept (workload_launch_error (normalize_error_code code (codes "SPAWN_ERROR")))
                heard h))
  step-Kept (workload_ended exit_code signal) s h =
      send-Kept (workload_exit exit_code signal) (record s { has_exited = true }) h
  step-Kept channel_closed s h =
      by_branch Kept s.intentional_shutdown (λ _. h)
        (λ _. emergency_cleanup-Kept (record s { connected = false }) h)
  step-Kept uncaught_exception s h = fail_hard-Kept _ s h
  step-Kept unhandled_rejection s h = fail_hard-Kept _ s h
  step-Kept (kill_timer true) s h = grows group_kill s.emergency_started s.log h
  step-Kept (kill_timer false) s h = h
  step-Kept exit_timer s h = h
  step-Kept exit_immediate s h = h
