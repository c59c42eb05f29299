-- ===== src/Load/Examples/Sessions.antt =====
-- The run of the session, with the clock for its world; and one whose attempts fail.
use fault_affinity.Prelude.{
  ℕ, ◌+◌, ◌≡◌, refl, ◌⊎◌, Bool, true, false, ◌∷◌, [], Option, Outcome, none, some, ok, throw,
}
use fault_affinity.Text.{Text, codes, decimal, parse_decimal}
use fault_affinity.ExactCpu.Phase.{affinity_mode}
use fault_affinity.Load.Managed.{validate_readiness, parse_managed_result}
use fault_affinity.Load.Workers.{
  bounded_decimal, is_worker_cpu_list, is_taskset_path, is_witness, is_boundary_worker,
  check_start_workers, parse_start, parse_boundary,
}
use fault_affinity.Load.Stopping.{check_result, check_stopped, check_stopped_workers, parse_stop}
use fault_affinity.Load.Session.{
  session_schedule_identity, validate_execution, validate_load_schedule, parse_session_manifest,
}
use fault_affinity.Load.Envelope.{
  SessionEnvelope, LegTimes, ConditionTimes, check_load_attempt, check_load_attempts, parse_leg,
  parse_bound_start, parse_bound_boundary, parse_bound_stop, parse_condition, check_order,
  validate_session_envelope,
}
use fault_affinity.Load.Envelope.Order.{AreWholeLegs, IsAroundB}
use fault_affinity.Load.Envelope.Sound.{IsCondition}
use fault_affinity.Load.Build.{
  Recorded, Attempts, bound_attempt, bound_attempts, bound_condition, build_session_envelope,
}
use fault_affinity.Load.Runner.{
  Driver, Measuring, WholeCondition, SessionResult, run_leg, conclude, run_recovery, run_stop,
  run_b, run_load, run_session,
}
use fault_affinity.Load.Runner.Course.{IsCourse}
use fault_affinity.Load.Runner.Endings.{IsDriver}
use fault_affinity.Load.Runner.Stopped.{run_session_stopped}
use fault_affinity.Load.Runner.Committed.{run_session_committed}
use fault_affinity.Load.Runner.Succeeding.{IsWilling, run_session_succeeds}
use fault_affinity.Load.Examples.{
  affinity, workload, manifest, Evidence, evidences, digests, builds, timely, start, boundary, stop,
}

abbrev pub driver : Driver ℕ ℕ ℕ
driver = record {
  is_aborted = λ w. false;
  run_attempt = λ w. (ok w, w + 10);
  start_worker_set = λ w. (ok start, w + 10);
  verify = λ name w. (ok (boundary name w), w + 10);
  stop = λ reason w. (ok (stop reason w), w + 10);
  wait = λ ms w. (ok true, w);
}

abbrev pub measuring : Measuring Evidence ℕ
measuring = record { build = λ w. ok (w, w + 5); cpu_affinity = λ w. some affinity }

abbrev ended : Outcome (Option Text) (SessionResult Evidence ℕ) × ℕ
ended = run_session driver evidences measuring builds digests workload workload manifest 10

abbrev recorded : ℕ → Recorded Evidence
recorded w = record {
  evidence = (w, w + 5);
  affinity = some (record affinity { mode = affinity_mode });
}

abbrev legs_run : Attempts Evidence
legs_run = record { a1 = recorded 10 ∷ []; b = recorded 40 ∷ []; a2 = recorded 70 ∷ [] }

abbrev whole_run : WholeCondition ℕ
whole_run = record {
  start = start;
  before = boundary (codes "before-b") 30;
  after = boundary (codes "after-b") 50;
  stop = stop (codes "complete") 60;
}

abbrev session : SessionResult Evidence ℕ
session =
    conclude driver evidences measuring builds digests workload workload manifest legs_run whole_run

session_ended : ended.0 ≡ ok session
unfolding run_session run_load run_b run_stop run_recovery run_leg decimal
session_ended = refl

pub session_committed : session.committed ≡ true
unfolding run_session run_load run_b run_stop run_recovery run_leg conclude build_session_envelope
    bound_attempts bound_attempt bound_condition parse_session_manifest validate_load_schedule
    session_schedule_identity validate_execution validate_session_envelope parse_condition
    parse_bound_start parse_bound_boundary parse_bound_stop parse_leg check_load_attempts
    check_load_attempt check_order parse_start parse_boundary parse_stop check_start_workers
    check_stopped_workers check_stopped check_result parse_managed_result validate_readiness
    is_boundary_worker is_witness is_worker_cpu_list is_taskset_path bounded_decimal parse_decimal
    decimal
session_committed = refl

run_session_committed_example :
    ((session.committed ≡ false) × (session.envelope ≡ none))
    ⊎ ((session.committed ≡ true)
        × (whole : WholeCondition ℕ) × (envelope : SessionEnvelope Evidence ℕ) × (legs : LegTimes)
        × (times : ConditionTimes) × IsCourse driver evidences measuring manifest 10
            session.attempts whole ended.1
        × (session.envelope ≡ some envelope)
        × (build_session_envelope evidences builds digests workload workload manifest
              session.attempts whole.start whole.before whole.after whole.stop
            ≡ ok envelope)
        × AreWholeLegs evidences manifest envelope.legs legs
        × IsCondition builds digests workload manifest envelope.condition times
        × IsAroundB evidences manifest legs times)
run_session_committed_example =
    run_session_committed driver evidences measuring builds digests workload workload manifest 10
      timely session_ended

pub willing : IsWilling driver evidences measuring builds digests workload workload manifest
unfolding decimal
willing = record {
  unaborted = λ w. refl;
  keeps = λ w. ((w, w + 5), record affinity { mode = affinity_mode }, refl);
  waits = λ ms w. refl;
  starts = λ w. (start, refl);
  verifies = λ name w. (boundary name w, refl);
  stops = λ reason w. (stop reason w, refl, refl);
}

run_session_succeeds_example :
    (attempts : Attempts Evidence) × (whole : WholeCondition ℕ) × (last : ℕ) × IsCourse driver
      evidences measuring manifest 10 attempts whole last
    × (ended ≡ (
      ok (
          conclude driver evidences measuring builds digests workload workload manifest attempts
            whole),
      last,
    ))
run_session_succeeds_example =
    run_session_succeeds driver evidences measuring builds digests workload workload manifest 10
      willing

-- The world tells whether workers run; the warm-up is rejected.
abbrev pub failing : Driver Bool ℕ ℕ
failing = record {
  is_aborted = λ w. false;
  run_attempt = λ w. (ok 10, w);
  start_worker_set = λ w. (ok start, true);
  verify = λ name w. (ok (boundary name 30), w);
  stop = λ reason w. (ok (stop reason 60), false);
  wait = λ ms w. (throw none, w);
}

pub failing-IsDriver : IsDriver failing (λ w. w ≡ false)
failing-IsDriver = record {
  attempt = λ w h. h;
  wait = λ ms w h. h;
  start = λ w h e. cc e;
  stop = λ reason w. refl;
}

run_session_stopped_example :
    (run_session failing evidences measuring builds digests workload workload manifest false).1
    ≡ false
run_session_stopped_example =
    run_session_stopped failing evidences measuring builds digests workload workload manifest
      (λ w. w ≡ false) failing-IsDriver false refl
