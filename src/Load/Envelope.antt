-- ===== src/Load/Envelope.antt =====
-- The envelope of a controlled-load session: `validateEnvelope` of
-- diagnose-lib/controlled-load-session.mjs. Attempt evidence and digests are parameters.
pub mod Intervals
pub mod Timeline
pub mod Order
pub mod Sound
use fault_affinity.Prelude.{
  ℕ, zero, suc, ◌+◌, ◌*◌, ◌≤◌, Bool, true, false, List, [], ◌∷◌, length, leb, ◌==◌, not, ◌&&◌,
  Option, none, some, Outcome, ok, throw, ◌>>=◌, ◌>>◌, require, present,
}
use fault_affinity.Text.{Text, text_eq, codes, decimal, is_hex_of}
use fault_affinity.ExactCpu.Phase.{Binding, Workload, same_binding, same_workload, same_numbers}
use fault_affinity.ExactCpu.Envelope.{AffinityWitness}
use fault_affinity.Load.Managed.{ManagedResult, is_present}
use fault_affinity.Load.Workers.{
  ResolvedLoad, WorkerSetError, load_binding, bounded_decimal, StartEvidence, BoundaryEvidence,
  StopEvidence, parse_start, parse_boundary,
}
use fault_affinity.Load.Stopping.{parse_stop}
use fault_affinity.Load.Session.{
  SessionError, other_measured, other_auxiliary, bad_version, other_generation, other_schedule,
  other_legs, bad_leg, missing_attempts, bad_slot, bad_evidence, invalid_outcome, other_affinity,
  other_binding, bad_time, not_sequential, bad_boundary, bad_stop, other_workers, early_workers,
  outside_before, outside_after, early_recovery, worker_set_error, session_version, session_phase,
  LegIdentity, leg_a1, leg_b, leg_a2, LoadIdentity, SessionManifest, parse_session_manifest,
}

-- Attempt evidence: its parser, whether its outcome is valid, its binding, and the times at which the
-- attempt started and was cleaned up.
pub record MeasuredEvidences (Evidence : Type 0) : Type 0 where
  pub parse : Evidence → Option Evidence
  pub is_valid : Evidence → Bool
  pub binding : Evidence → Binding
  pub started_ns : Evidence → Text
  pub cleanup_ns : Evidence → Text

-- The SHA-256 digest and the size of a record's canonical line.
pub record LoadDigests (Lifecycle : Type 0) : Type 0 where
  pub identity_sha256 : LoadIdentity → Text
  pub start_binding : StartEvidence → Binding
  pub boundary_binding : BoundaryEvidence → Binding
  pub stop_binding : StopEvidence Lifecycle → Binding

pub record LoadSlot : Type 0 where
  pub ordinal : ℕ
  pub leg : Text
  pub position : ℕ

pub record LoadAttempt (Evidence : Type 0) : Type 0 where
  pub slot : LoadSlot
  pub affinity : AffinityWitness
  pub binding : Binding
  pub evidence : Evidence

pub record LegEnvelope (Evidence : Type 0) : Type 0 where
  pub leg : Text
  pub condition : Text
  pub attempts : List (LoadAttempt Evidence)

pub record Bound (A : Type 0) : Type 0 where
  pub binding : Binding
  pub evidence : A

pub record LoadCondition (Lifecycle : Type 0) : Type 0 where
  pub worker_set_start : Bound StartEvidence
  pub before_b : Bound BoundaryEvidence
  pub after_b : Bound BoundaryEvidence
  pub worker_set_stop : Bound (StopEvidence Lifecycle)

pub record SessionEnvelope (Evidence Lifecycle : Type 0) : Type 0 where
  pub version : ℕ
  pub phase : Text
  pub generation : Text
  pub measured_workload : Workload
  pub auxiliary_workload : Workload
  pub schedule_digest : Text
  pub legs : List (LegEnvelope Evidence)
  pub condition : LoadCondition Lifecycle

-- When an attempt started and was cleaned up.
pub record Interval : Type 0 where
  pub started : ℕ
  pub cleanup : ℕ

abbrev pub validate_load_binding : Binding → Binding → Outcome SessionError (Unit {0})
validate_load_binding value expected =
    require (is_hex_of 64 value.sha256 && same_binding value expected) other_binding

abbrev pub is_measured_affinity : AffinityWitness → SessionManifest → Bool
is_measured_affinity affinity manifest =
    let expected = decimal manifest.execution.target_cpu in
    text_eq affinity.mode manifest.execution.target_affinity_mode
    && (affinity.requested_cpu == manifest.execution.target_cpu
        && (text_eq affinity.supervisor_allowed_cpu_list expected
            && text_eq affinity.workload_allowed_cpu_list expected))

-- `expectedSlot`
abbrev pub expected_load_slot : ℕ → ℕ → LegIdentity → ℕ → LoadSlot
expected_load_slot count leg_index leg position = record {
  ordinal = leg_index * count + position;
  leg = leg.leg;
  position = position;
}

abbrev pub same_slot : LoadSlot → LoadSlot → Bool
same_slot left right =
    left.ordinal == right.ordinal && (text_eq left.leg right.leg && left.position == right.position)

-- `previousCleanup === null || previousCleanup <= started`
abbrev pub follows : Option ℕ → ℕ → Bool
follows none started = true
follows (some cleanup) started = leb cleanup started

abbrev pub first_started : List Interval → Option ℕ
first_started [] = none
first_started (attempt ∷ attempts) = some attempt.started

abbrev pub last_cleanup : List Interval → Option ℕ
last_cleanup [] = none
last_cleanup (attempt ∷ []) = some attempt.cleanup
last_cleanup (attempt ∷ next ∷ attempts) = last_cleanup (next ∷ attempts)

abbrev pub time : Text → Outcome SessionError ℕ
time text = present (bounded_decimal text) bad_time

abbrev pub from_worker_set {ℓ} : {A : Type ℓ} → Outcome WorkerSetError A → Outcome SessionError A
from_worker_set (throw e) = throw (worker_set_error e)
from_worker_set (ok value) = ok value

module _ {Evidence : Type 0} (evidences : MeasuredEvidences Evidence)
    (manifest : SessionManifest) where
  unfoldable pub check_load_attempt :
      ℕ → LegIdentity → ℕ → Option ℕ → LoadAttempt Evidence → Outcome SessionError Interval
  check_load_attempt leg_index leg position previous bound = do
    let count = manifest.schedule.identity.attempts_per_leg
    require (same_slot bound.slot (expected_load_slot count leg_index leg position)) bad_slot
    evidence ← present (evidences.parse bound.evidence) bad_evidence
    require (evidences.is_valid evidence) invalid_outcome
    require (is_measured_affinity bound.affinity manifest) other_affinity
    validate_load_binding bound.binding (evidences.binding evidence)
    started ← time (evidences.started_ns evidence)
    cleanup ← time (evidences.cleanup_ns evidence)
    require (follows previous started) not_sequential
    ok (record { started = started; cleanup = cleanup })

  -- The loop, from a position on and after the cleanup of the attempt before.
  unfoldable pub check_load_attempts :
      ℕ
      → LegIdentity
      → ℕ
      → Option ℕ
      → List (LoadAttempt Evidence)
      → Outcome SessionError (List Interval)
  check_load_attempts leg_index leg position previous [] = ok []
  check_load_attempts leg_index leg position previous (bound ∷ rest) =
      check_load_attempt leg_index leg position previous bound >>= (λ here.
        check_load_attempts leg_index leg (position + 1) (some here.cleanup) rest
        >>= (λ later. ok (here ∷ later)))

  unfoldable pub parse_leg :
      ℕ → LegIdentity → LegEnvelope Evidence → Outcome SessionError (List Interval)
  parse_leg leg_index expected value = do
    require (text_eq value.leg expected.leg && text_eq value.condition expected.condition) bad_leg
    require (length value.attempts == manifest.schedule.identity.attempts_per_leg) missing_attempts
    check_load_attempts leg_index expected 1 none value.attempts

-- The times of the three legs.
pub record LegTimes : Type 0 where
  pub a1 : List Interval
  pub b : List Interval
  pub a2 : List Interval

abbrev pub parse_legs :
    {Evidence : Type 0}
    → MeasuredEvidences Evidence
    → SessionManifest
    → List (LegEnvelope Evidence)
    → Outcome SessionError LegTimes
parse_legs evidences manifest (a1 ∷ b ∷ a2 ∷ []) = do
  first ← parse_leg evidences manifest 0 leg_a1 a1
  second ← parse_leg evidences manifest 1 leg_b b
  third ← parse_leg evidences manifest 2 leg_a2 a2
  ok (record { a1 = first; b = second; a2 = third })
parse_legs evidences manifest _ = throw other_legs

-- The times of the worker set.
pub record ConditionTimes : Type 0 where
  pub ready : ℕ
  pub before : ℕ
  pub after : ℕ
  pub stopped : ℕ

module _ {Lifecycle : Type 0} (builds : ManagedResult Lifecycle → Bool)
    (digests : LoadDigests Lifecycle) (auxiliary : ResolvedLoad) where
  unfoldable pub parse_bound_start : Bound StartEvidence → Outcome SessionError StartEvidence
  parse_bound_start value = do
    evidence ← from_worker_set (parse_start auxiliary value.evidence)
    validate_load_binding value.binding (digests.start_binding evidence)
    ok evidence

  unfoldable pub parse_bound_boundary :
      StartEvidence → Bound BoundaryEvidence → Text → Outcome SessionError BoundaryEvidence
  parse_bound_boundary start value name = do
    evidence ← from_worker_set (parse_boundary auxiliary start value.evidence)
    require (text_eq evidence.boundary name) bad_boundary
    validate_load_binding value.binding (digests.boundary_binding evidence)
    ok evidence

  unfoldable pub parse_bound_stop :
      StartEvidence → Bound (StopEvidence Lifecycle) → Outcome SessionError (StopEvidence Lifecycle)
  parse_bound_stop start value = do
    evidence ← from_worker_set (parse_stop builds auxiliary start value.evidence)
    require
        (text_eq evidence.reason (codes "complete")
          && (evidence.valid && not (is_present evidence.failure_code)))
        bad_stop
    validate_load_binding value.binding (digests.stop_binding evidence)
    ok evidence

  unfoldable pub parse_condition :
      SessionManifest → LoadCondition Lifecycle → Outcome SessionError ConditionTimes
  parse_condition manifest value = do
    start ← parse_bound_start value.worker_set_start
    require
        (text_eq start.taskset_path manifest.execution.taskset_path
          && same_numbers start.cpus manifest.execution.worker_cpus)
        other_workers
    before ← parse_bound_boundary start value.before_b (codes "before-b")
    after ← parse_bound_boundary start value.after_b (codes "after-b")
    stop ← parse_bound_stop start value.worker_set_stop
    ready_ns ← time start.ready_monotonic_ns
    before_ns ← time before.monotonic_ns
    after_ns ← time after.monotonic_ns
    stopped_ns ← time stop.stopped_monotonic_ns
    ok (record { ready = ready_ns; before = before_ns; after = after_ns; stopped = stopped_ns })

-- A leg has at least one attempt, so that both of its ends are there.
unfoldable pub check_order :
    LoadIdentity → LegTimes → ConditionTimes → Outcome SessionError (Unit {0})
check_order schedule legs times = do
  a1_last ← present (last_cleanup legs.a1) missing_attempts
  b_first ← present (first_started legs.b) missing_attempts
  b_last ← present (last_cleanup legs.b) missing_attempts
  a2_first ← present (first_started legs.a2) missing_attempts
  require (leb a1_last times.ready) early_workers
  require
      (leb (times.ready + schedule.warmup_ms * 1_000_000) times.before && leb times.before b_first)
      outside_before
  require (leb b_last times.after && leb times.after times.stopped) outside_after
  require (leb (times.stopped + schedule.recovery_ms * 1_000_000) a2_first) early_recovery

module _ {Evidence Lifecycle : Type 0} (evidences : MeasuredEvidences Evidence)
    (builds : ManagedResult Lifecycle → Bool) (digests : LoadDigests Lifecycle)
    (measured auxiliary : ResolvedLoad) where
  unfoldable pub validate_session_envelope :
      SessionManifest → SessionEnvelope Evidence Lifecycle → Outcome SessionError (Unit {0})
  validate_session_envelope manifest value = do
    require (value.version == session_version) bad_version
    require (text_eq value.phase session_phase && text_eq value.generation manifest.generation)
        other_generation
    require (same_workload value.measured_workload (load_binding measured)) other_measured
    require (same_workload value.auxiliary_workload (load_binding auxiliary)) other_auxiliary
    require (text_eq value.schedule_digest manifest.schedule.digest) other_schedule
    legs ← parse_legs evidences manifest value.legs
    times ← parse_condition builds digests auxiliary manifest value.condition
    check_order manifest.schedule.identity legs times

  unfoldable pub parse_session_envelope :
      SessionManifest
      → SessionEnvelope Evidence Lifecycle
      → Outcome SessionError (SessionEnvelope Evidence Lifecycle)
  parse_session_envelope manifest_value value = do
    manifest ← parse_session_manifest digests.identity_sha256 measured auxiliary manifest_value
    validate_session_envelope manifest value
    ok value
