-- ===== src/Load/Session.antt =====
-- The manifest of a controlled-load session: diagnose-lib/controlled-load-session.mjs.
pub mod Bounds
pub mod Building
use fault_affinity.Prelude.{
  ℕ, ◌*◌, ◌/◌, Bool, true, false, List, [], ◌∷◌, length, leb, ◌==◌, includes, not, ◌&&◌, Outcome,
  ok, throw, ◌>>=◌, ◌>>◌, require, Option, none, some,
}
use fault_affinity.Text.{Text, text_eq, codes, is_hex_of}
use fault_affinity.Schedule.Orders.{max_schedule_entries}
use fault_affinity.ExactCpu.Phase.{Workload, same_workload, affinity_mode}
use fault_affinity.Load.Managed.{discard}
use fault_affinity.Load.Workers.{
  ResolvedLoad, WorkerSetError, error_code_of, load_binding, is_worker_cpu_list, is_taskset_path,
  cpu_max,
}

-- Each is a ControlledLoadSessionError, but an error of the worker set's parsers has its own code.
pub data SessionError : Type 0 where
  bad_generation other_measured other_auxiliary not_surviving : SessionError
  bad_attempts bad_warmup bad_recovery : SessionError
  bad_schedule_version bad_digest other_schedule other_digest : SessionError
  bad_target bad_mode bad_cpus target_among_workers bad_taskset bad_output : SessionError
  bad_version bad_phase : SessionError
  other_generation other_legs bad_leg missing_attempts bad_slot bad_evidence : SessionError
  invalid_outcome other_affinity other_binding bad_time not_sequential : SessionError
  bad_boundary bad_stop other_workers early_workers outside_before outside_after : SessionError
  early_recovery : SessionError
  worker_set_error : WorkerSetError → SessionError

abbrev pub session_error_code : SessionError → Text
session_error_code (worker_set_error e) = error_code_of e
session_error_code _ = codes "INVALID_CONTROLLED_LOAD_SESSION"

abbrev pub session_version : ℕ
session_version = 1

abbrev pub max_attempts_per_leg : ℕ
max_attempts_per_leg = max_schedule_entries / 3

abbrev pub max_interval_ms : ℕ
max_interval_ms = 3_600_000

abbrev pub session_phase : Text
session_phase = codes "controlled-load-aba"

abbrev pub session_algorithm : Text
session_algorithm = codes "fixed-single-workload-aba-v1"

pub record LegIdentity : Type 0 where
  pub leg : Text
  pub condition : Text

abbrev pub leg_a1 : LegIdentity
leg_a1 = record { leg = codes "a1"; condition = codes "without-load" }

abbrev pub leg_b : LegIdentity
leg_b = record { leg = codes "b"; condition = codes "with-load" }

abbrev pub leg_a2 : LegIdentity
leg_a2 = record { leg = codes "a2"; condition = codes "after-recovery" }

-- `LEGS`
abbrev pub leg_identities : List LegIdentity
leg_identities = leg_a1 ∷ leg_b ∷ leg_a2 ∷ []

abbrev pub same_leg_identity : LegIdentity → LegIdentity → Bool
same_leg_identity left right = text_eq left.leg right.leg && text_eq left.condition right.condition

abbrev pub same_leg_identities : List LegIdentity → List LegIdentity → Bool
same_leg_identities [] [] = true
same_leg_identities [] (y ∷ ys) = false
same_leg_identities (x ∷ xs) [] = false
same_leg_identities (x ∷ xs) (y ∷ ys) = same_leg_identity x y && same_leg_identities xs ys

pub record LoadIdentity : Type 0 where
  pub version : ℕ
  pub algorithm : Text
  pub legs : List LegIdentity
  pub attempts_per_leg : ℕ
  pub attempt_count : ℕ
  pub warmup_ms : ℕ
  pub recovery_ms : ℕ

pub record LoadSchedule : Type 0 where
  pub identity : LoadIdentity
  pub digest : Text

pub record LoadExecution : Type 0 where
  pub target_cpu : ℕ
  pub target_affinity_mode : Text
  pub worker_cpus : List ℕ
  pub taskset_path : Text
  pub worker_output_mode : Text

pub record SessionManifest : Type 0 where
  pub version : ℕ
  pub phase : Text
  pub generation : Text
  pub measured_workload : Workload
  pub auxiliary_workload : Workload
  pub execution : LoadExecution
  pub schedule : LoadSchedule

pub record SessionOptions : Type 0 where
  pub generation : Text
  pub attempts_per_leg : ℕ
  pub target_cpu : ℕ
  pub worker_cpus : List ℕ
  pub taskset_path : Text
  pub warmup_ms : ℕ
  pub recovery_ms : ℕ

unfoldable pub session_schedule_identity : ℕ → ℕ → ℕ → Outcome SessionError LoadIdentity
session_schedule_identity attempts warmup recovery = do
  require (leb 1 attempts && leb attempts max_attempts_per_leg) bad_attempts
  require (leb warmup max_interval_ms) bad_warmup
  require (leb recovery max_interval_ms) bad_recovery
  ok (record {
    version = session_version;
    algorithm = session_algorithm;
    legs = leg_identities;
    attempts_per_leg = attempts;
    attempt_count = attempts * length leg_identities;
    warmup_ms = warmup;
    recovery_ms = recovery;
  })

-- Equality of the two canonical JSON texts.
abbrev pub same_load_identity : LoadIdentity → LoadIdentity → Bool
same_load_identity left right =
    left.version == right.version
    && (text_eq left.algorithm right.algorithm
        && (same_leg_identities left.legs right.legs
            && (left.attempts_per_leg == right.attempts_per_leg
                && (left.attempt_count == right.attempt_count
                    && (left.warmup_ms == right.warmup_ms
                        && left.recovery_ms == right.recovery_ms)))))

unfoldable pub validate_execution : LoadExecution → Outcome SessionError (Unit {0})
validate_execution value = do
  require (leb value.target_cpu cpu_max) bad_target
  require (text_eq value.target_affinity_mode affinity_mode) bad_mode
  require (is_worker_cpu_list value.worker_cpus) bad_cpus
  require (not (includes value.worker_cpus value.target_cpu)) target_among_workers
  require (is_taskset_path value.taskset_path) bad_taskset
  require (text_eq value.worker_output_mode discard) bad_output

-- The digest of a schedule's identity as a canonical line.
module _ (identity_sha256 : LoadIdentity → Text) where
  unfoldable pub validate_load_schedule : LoadSchedule → Outcome SessionError LoadIdentity
  validate_load_schedule value = do
    let found = value.identity
    require (found.version == session_version && text_eq found.algorithm session_algorithm)
        bad_schedule_version
    require (is_hex_of 64 value.digest) bad_digest
    identity ← session_schedule_identity found.attempts_per_leg found.warmup_ms found.recovery_ms
    require (same_load_identity found identity) other_schedule
    require (text_eq value.digest (identity_sha256 identity)) other_digest
    ok identity

  unfoldable pub parse_session_manifest :
      ResolvedLoad → ResolvedLoad → SessionManifest → Outcome SessionError SessionManifest
  parse_session_manifest measured auxiliary value = do
    require (value.version == session_version) bad_version
    require (text_eq value.phase session_phase) bad_phase
    require (is_hex_of 32 value.generation) bad_generation
    require (same_workload value.measured_workload (load_binding measured)) other_measured
    require (same_workload value.auxiliary_workload (load_binding auxiliary)) other_auxiliary
    require auxiliary.survives_window not_surviving
    validate_execution value.execution
    identity ← validate_load_schedule value.schedule
    ok value

  unfoldable pub build_session_manifest :
      ResolvedLoad → ResolvedLoad → SessionOptions → Outcome SessionError SessionManifest
  build_session_manifest measured auxiliary options = do
    require (is_hex_of 32 options.generation) bad_generation
    identity ←
        session_schedule_identity options.attempts_per_leg options.warmup_ms options.recovery_ms
    parse_session_manifest measured auxiliary (record {
      version = session_version;
      phase = session_phase;
      generation = options.generation;
      measured_workload = load_binding measured;
      auxiliary_workload = load_binding auxiliary;
      execution = record {
        target_cpu = options.target_cpu;
        target_affinity_mode = affinity_mode;
        worker_cpus = options.worker_cpus;
        taskset_path = options.taskset_path;
        worker_output_mode = discard;
      };
      schedule = record { identity = identity; digest = identity_sha256 identity };
    })
