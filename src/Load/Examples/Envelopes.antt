-- ===== src/Load/Examples/Envelopes.antt =====
-- The envelope of the session.
use fault_affinity.Prelude.{ℕ, ◌+◌, ◌≡◌, refl, [], ◌∷◌, ok}
use fault_affinity.Text.{Text, codes, decimal, replicate_char, parse_decimal}
use fault_affinity.ExactCpu.Phase.{affinity_mode}
use fault_affinity.Load.Managed.{validate_readiness, parse_managed_result}
use fault_affinity.Load.Workers.{
  load_binding, bounded_decimal, is_worker_cpu_list, is_taskset_path, is_witness,
  is_boundary_worker, check_start_workers, parse_start, parse_boundary,
}
use fault_affinity.Load.Stopping.{check_result, check_stopped, check_stopped_workers, parse_stop}
use fault_affinity.Load.Session.{session_phase}
use fault_affinity.Load.Envelope.{
  Bound, SessionEnvelope, LegTimes, ConditionTimes, LoadAttempt, check_load_attempt,
  check_load_attempts, parse_leg, parse_bound_start, parse_bound_boundary, parse_bound_stop,
  parse_condition, check_order, validate_session_envelope,
}
use fault_affinity.Load.Envelope.Order.{AreWholeLegs, IsAroundB}
use fault_affinity.Load.Envelope.Sound.{IsCondition, validate_session_envelope_sound}
use fault_affinity.Load.Examples.{
  hex, workload, manifest, binding, Evidence, evidences, digests, builds, timely, start, boundary,
  stop, affinity,
}

abbrev sealed : {A : Type 0} → A → ℕ → Bound A
sealed evidence n = record { binding = binding n; evidence = evidence }

abbrev attempt : ℕ → Text → ℕ → LoadAttempt Evidence
attempt ordinal leg started = record {
  slot = record { ordinal = ordinal; leg = leg; position = 1 };
  affinity = record affinity { mode = affinity_mode };
  binding = binding started;
  evidence = (started, started + 5);
}

abbrev envelope : SessionEnvelope Evidence ℕ
envelope = record {
  version = 1;
  phase = session_phase;
  generation = replicate_char 32 b'0';
  measured_workload = load_binding workload;
  auxiliary_workload = load_binding workload;
  schedule_digest = hex;
  legs =
      (record {
        leg = codes "a1";
        condition = codes "without-load";
        attempts = attempt 1 (codes "a1") 10 ∷ [];
      })
      ∷ (record {
        leg = codes "b";
        condition = codes "with-load";
        attempts = attempt 2 (codes "b") 40 ∷ [];
      })
      ∷ (record {
        leg = codes "a2";
        condition = codes "after-recovery";
        attempts = attempt 3 (codes "a2") 70 ∷ [];
      })
      ∷ [];
  condition = record {
    worker_set_start = sealed start 1;
    before_b = sealed (boundary (codes "before-b") 30) 2;
    after_b = sealed (boundary (codes "after-b") 50) 2;
    worker_set_stop = sealed (stop (codes "complete") 60) 3;
  };
}

valid :
    validate_session_envelope evidences builds digests workload workload manifest envelope ≡ ok tt
unfolding validate_session_envelope parse_condition parse_bound_start parse_bound_boundary
    parse_bound_stop parse_leg check_load_attempts check_load_attempt check_order parse_start
    parse_boundary parse_stop check_start_workers check_stopped_workers check_stopped check_result
    parse_managed_result validate_readiness is_boundary_worker is_witness is_worker_cpu_list
    is_taskset_path bounded_decimal parse_decimal decimal
valid = refl

validate_session_envelope_sound_example :
    (legs : LegTimes) × (times : ConditionTimes) × AreWholeLegs evidences manifest envelope.legs
      legs
    × IsCondition builds digests workload manifest envelope.condition times
    × IsAroundB evidences manifest legs times
validate_session_envelope_sound_example =
    validate_session_envelope_sound evidences builds digests workload workload manifest envelope
      timely valid
