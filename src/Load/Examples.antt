-- ===== src/Load/Examples.antt =====
-- A session of one attempt a leg on CPU 5, with one worker on CPU 3.
mod Sessions
mod Envelopes
use fault_affinity.Prelude.{
  ℕ, ◌+◌, ◌≡◌, refl, sym, ap, ◌∙◌, ◌↔◌, ◌⊎◌, inl, inr, Bool, true, false, [], ◌∷◌, length, none,
  some, some_inj, leb, leb→le, if◌then◌else◌, Bool-cases, ok, throw, arith,
}
use fault_affinity.Text.{Text, codes, decimal, replicate_char, parse_decimal, is_hex_of}
use fault_affinity.Text.Decimals.{parse_decimal-decimal}
use fault_affinity.ExactCpu.Phase.{Binding, affinity_mode}
use fault_affinity.ExactCpu.Envelope.{AffinityWitness}
use fault_affinity.Load.Managed.{
  ManagedResult, discard, external_cancel, validate_readiness, parse_managed_result,
}
use fault_affinity.Load.Workers.{
  ResolvedLoad, Readiness, StartEvidence, BoundaryEvidence, StopEvidence, load_binding,
  bounded_decimal, is_worker_cpu_list, is_taskset_path, is_witness, is_boundary_worker,
  check_start_workers, parse_start, parse_boundary,
}
use fault_affinity.Load.Stopping.{check_result, check_stopped, check_stopped_workers, parse_stop}
use fault_affinity.Load.Session.{
  session_version, session_phase, session_algorithm, leg_identities, LoadIdentity, SessionManifest,
  SessionOptions, session_schedule_identity, validate_execution, validate_load_schedule,
  parse_session_manifest, build_session_manifest,
}
use fault_affinity.Load.Session.Bounds.{InBounds, IsWorkerList, parse_session_manifest-InBounds}
use fault_affinity.Load.Session.Building.{IsSessionOptions, build_session_manifest_iff}
use fault_affinity.Load.Envelope.{
  MeasuredEvidences, LoadDigests, Bound, SessionEnvelope, LegTimes, ConditionTimes, LoadAttempt,
  check_load_attempt, check_load_attempts, parse_leg, parse_bound_start, parse_bound_boundary,
  parse_bound_stop, parse_condition, check_order, validate_session_envelope,
}
use fault_affinity.Load.Envelope.Order.{IsTimely, AreWholeLegs, IsAroundB}
use fault_affinity.Load.Envelope.Sound.{IsCondition, validate_session_envelope_sound}
use fault_affinity.Load.Build.{
  Attempts, bound_attempt, bound_attempts, bound_condition, build_session_envelope,
}
use fault_affinity.Load.Runner.{
  Driver, Measuring, WholeCondition, SessionResult, run_leg, conclude, run_recovery, run_stop,
  run_b, run_load, run_session,
}
use fault_affinity.Load.Runner.Endings.{IsDriver}
use fault_affinity.Load.Runner.Stopped.{run_session_stopped}
use fault_affinity.Load.Runner.Committed.{run_session_committed}
use fault_affinity.Load.Runner.Succeeding.{IsWilling, run_session_succeeds}

abbrev pub hex : Text
hex = replicate_char 64 b'a'

abbrev pub sha : LoadIdentity → Text
sha identity = hex

pub sha_hex : (i : LoadIdentity) → is_hex_of 64 (sha i) ≡ true
sha_hex i = refl

abbrev pub workload : ResolvedLoad
workload = record { version = 1; id = codes "churn"; digest = hex; survives_window = true }

abbrev pub path : Text
path = codes "/usr/bin/taskset"

abbrev pub options : SessionOptions
options = record {
  generation = replicate_char 32 b'0';
  attempts_per_leg = 1;
  target_cpu = 5;
  worker_cpus = 3 ∷ [];
  taskset_path = path;
  warmup_ms = 0;
  recovery_ms = 0;
}

abbrev pub manifest : SessionManifest
manifest = record {
  version = session_version;
  phase = session_phase;
  generation = replicate_char 32 b'0';
  measured_workload = load_binding workload;
  auxiliary_workload = load_binding workload;
  execution = record {
    target_cpu = 5;
    target_affinity_mode = affinity_mode;
    worker_cpus = 3 ∷ [];
    taskset_path = path;
    worker_output_mode = discard;
  };
  schedule = record {
    identity = record {
      version = session_version;
      algorithm = session_algorithm;
      legs = leg_identities;
      attempts_per_leg = 1;
      attempt_count = 3;
      warmup_ms = 0;
      recovery_ms = 0;
    };
    digest = hex;
  };
}

pub parsed : parse_session_manifest sha workload workload manifest ≡ ok manifest
unfolding parse_session_manifest validate_load_schedule session_schedule_identity validate_execution
    is_worker_cpu_list is_taskset_path
parsed = refl

parse_session_manifest-InBounds_example :
    InBounds 1 0 0 5 (3 ∷ [])
    × IsWorkerList (3 ∷ [])
    × (3 ≡ 1 + 2)
    × (true ≡ true)
    × (is_taskset_path path ≡ true)
    × (manifest ≡ manifest)
parse_session_manifest-InBounds_example =
    parse_session_manifest-InBounds sha workload workload manifest parsed

build_session_manifest_iff_example :
    ((m : SessionManifest) × (build_session_manifest sha workload workload options ≡ ok m)
      × (parse_session_manifest sha workload workload m ≡ ok m))
    ↔ IsSessionOptions sha workload workload options
build_session_manifest_iff_example =
    build_session_manifest_iff sha workload workload options sha_hex

abbrev pub binding : ℕ → Binding
binding n = record { sha256 = hex; bytes = n }

abbrev pub Evidence : Type 0
Evidence = ℕ × ℕ

abbrev pub evidences : MeasuredEvidences Evidence
evidences = record {
  parse = λ e. if leb e.0 e.1 then some e else none;
  is_valid = λ e. true;
  binding = λ e. binding e.0;
  started_ns = λ e. decimal e.0;
  cleanup_ns = λ e. decimal e.1;
}

abbrev pub digests : LoadDigests ℕ
digests = record {
  identity_sha256 = sha;
  start_binding = λ e. binding 1;
  boundary_binding = λ e. binding 2;
  stop_binding = λ e. binding 3;
}

abbrev pub builds : ManagedResult ℕ → Bool
builds result = true

pub read_back : (n s : ℕ) → bounded_decimal (decimal n) ≡ some s → n ≡ s
unfolding bounded_decimal
read_back n s h = elim (Bool-cases (leb (length (decimal n)) 32)) [
  | inl e ↦
      let read : parse_decimal (decimal n) ≡ some s = rw e at h in
      some_inj (sym (parse_decimal-decimal n) ∙ read)
  | inr e ↦ cc (e, h)
]

pub timely : IsTimely evidences
timely value found started cleanup accepted start_read cleanup_read =
    elim (Bool-cases (leb value.0 value.1)) [
      | inr e ↦ cc (e, accepted)
      | inl e ↦
          let same : value ≡ found = some_inj (rw e at accepted) in
          let order = leb→le value.0 value.1 e in
          let first : value.0 ≡ started =
            ap (λ (p : Evidence). p.0) same ∙ read_back found.0 started start_read in
          let second : value.1 ≡ cleanup =
            ap (λ (p : Evidence). p.1) same ∙ read_back found.1 cleanup cleanup_read in
          omega (arith, order, first, second)
    ]

abbrev pub witness : Text → Readiness
witness ns = record {
  monotonic_ns = ns;
  supervisor = record {
    pid = 40;
    process_group_id = 40;
    session_id = 40;
    start_ticks = codes "7";
    allowed_cpu_list = codes "3";
  };
  workload = record { pid = 41; start_ticks = codes "8"; allowed_cpu_list = codes "3" };
}

abbrev pub start : StartEvidence
start = record {
  version = 1;
  workload = load_binding workload;
  taskset_path = path;
  output_mode = discard;
  cpus = 3 ∷ [];
  ready_monotonic_ns = codes "20";
  workers = (record { cpu = 3; readiness = witness (codes "18") }) ∷ [];
}

abbrev pub boundary : Text → ℕ → BoundaryEvidence
boundary name now = record {
  version = 1;
  boundary = name;
  monotonic_ns = decimal now;
  workers =
      (record {
        cpu = 3;
        supervisor = record { pid = 40; start_ticks = codes "7"; allowed_cpu_list = codes "3" };
        workload = record { pid = 41; start_ticks = codes "8"; allowed_cpu_list = codes "3" };
      })
      ∷ [];
}

abbrev pub ended : ManagedResult ℕ
ended = record {
  version = 1;
  workload_digest = hex;
  output_mode = discard;
  is_reported = true;
  readiness_error = none;
  cpu_affinity = some (record {
    requested_cpu = 3;
    supervisor_allowed_cpu_list = codes "3";
    workload_allowed_cpu_list = codes "3";
  });
  supervisor = some (record { pid = 40; start_ticks = codes "7" });
  workload = some (record { pid = 41; start_ticks = codes "8" });
  workload_started_ns = some (codes "18");
  cleanup_finished_ns = codes "55";
  terminal_reason = external_cancel;
  is_cleanup_complete = true;
  is_group_drained = true;
  is_output_drained = true;
  rest = 0;
}

abbrev pub stop : Text → ℕ → StopEvidence ℕ
stop reason now = record {
  version = 1;
  reason = reason;
  valid = true;
  failure_code = none;
  stopped_monotonic_ns = decimal now;
  workers = (record { cpu = 3; error_code = none; result = some ended }) ∷ [];
}

-- Ten nanoseconds pass with each call; a result is the time at which the attempt started.

abbrev pub affinity : AffinityWitness
affinity = record {
  mode = [];
  requested_cpu = 5;
  supervisor_allowed_cpu_list = codes "5";
  workload_allowed_cpu_list = codes "5";
}
