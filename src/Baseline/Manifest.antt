-- ===== src/Baseline/Manifest.antt =====
-- The manifest of a baseline phase of diagnose-lib/baseline-phase.mjs and its wave schedule.
pub mod Parsed
mod Examples
use fault_affinity.Prelude.{ℕ, ◌*◌, Bool, leb, ◌==◌, ◌&&◌, Outcome, ok, ◌>>=◌, ◌>>◌, require}
use fault_affinity.Text.{Text, text_eq, codes, is_hex_of}
use fault_affinity.Schedule.Orders.{max_schedule_entries}
use fault_affinity.ExactCpu.Phase.{Resolved, Workload, same_workload}

-- Each is a BaselinePhaseError with its message.
pub data BaselineError : Type 0 where
  bad_integer too_many_attempts not_baseline other_workload bad_generation : BaselineError
  bad_schedule_version bad_algorithm bad_digest other_identity other_digest : BaselineError
  bad_concurrency bad_version bad_phase : BaselineError
  bad_envelope_version other_generation other_schedule bad_child_count bad_attempt_count :
      BaselineError
  other_slot bad_evidence invalid_outcome other_binding long_prefix not_contiguous : BaselineError

abbrev pub max_baseline_children : ℕ
max_baseline_children = 64

abbrev pub max_baseline_waves : ℕ
max_baseline_waves = 65_536

abbrev pub baseline_phase : Text
baseline_phase = codes "baseline-concurrent"

abbrev pub wave_algorithm : Text
wave_algorithm = codes "fixed-concurrent-waves-v1"

abbrev pub concurrency_mode : Text
concurrency_mode = codes "independent-supervisors-v1"

abbrev pub canonical_integer : ℕ → ℕ → Outcome BaselineError (Unit {0})
canonical_integer value maximum = require (leb 1 value && leb value maximum) bad_integer

unfoldable pub baseline_binding : Resolved → Outcome BaselineError Workload
baseline_binding resolved = do
  require resolved.baseline not_baseline
  ok (record { contract_version = resolved.version; id = resolved.id; digest = resolved.digest })

unfoldable pub validate_baseline_workload : Resolved → Workload → Outcome BaselineError (Unit {0})
validate_baseline_workload resolved value = do
  expected ← baseline_binding resolved
  require (same_workload value expected) other_workload

pub record WaveIdentity : Type 0 where
  pub version : ℕ
  pub algorithm : Text
  pub children_per_wave : ℕ
  pub waves : ℕ
  pub attempt_count : ℕ

pub record WaveSchedule : Type 0 where
  pub identity : WaveIdentity
  pub digest : Text

pub record WaveManifest : Type 0 where
  pub version : ℕ
  pub phase : Text
  pub generation : Text
  pub workload : Workload
  pub mode : Text
  pub schedule : WaveSchedule

unfoldable pub wave_identity : ℕ → ℕ → Outcome BaselineError WaveIdentity
wave_identity children_per_wave waves = do
  canonical_integer children_per_wave max_baseline_children
  canonical_integer waves max_baseline_waves
  require (leb (children_per_wave * waves) max_schedule_entries) too_many_attempts
  ok (record {
    version = 1;
    algorithm = wave_algorithm;
    children_per_wave = children_per_wave;
    waves = waves;
    attempt_count = children_per_wave * waves;
  })

-- Equality of the two canonical JSON texts.
abbrev pub same_wave_identity : WaveIdentity → WaveIdentity → Bool
same_wave_identity left right =
    left.version == right.version
    && (text_eq left.algorithm right.algorithm
        && (left.children_per_wave == right.children_per_wave
            && (left.waves == right.waves && left.attempt_count == right.attempt_count)))

-- `sha256` is the digest of the identity's canonical line.
module _ (sha256 : WaveIdentity → Text) where
  unfoldable pub validate_wave_schedule : WaveSchedule → Outcome BaselineError WaveIdentity
  validate_wave_schedule value = do
    let found = value.identity
    require (found.version == 1) bad_schedule_version
    require (text_eq found.algorithm wave_algorithm) bad_algorithm
    require (is_hex_of 64 value.digest) bad_digest
    identity ← wave_identity found.children_per_wave found.waves
    require (same_wave_identity found identity) other_identity
    require (text_eq value.digest (sha256 identity)) other_digest
    ok identity

  unfoldable pub validate_wave_manifest :
      Resolved → WaveManifest → Outcome BaselineError WaveIdentity
  validate_wave_manifest resolved value = do
    require (value.version == 1) bad_version
    require (text_eq value.phase baseline_phase) bad_phase
    require (is_hex_of 32 value.generation) bad_generation
    validate_baseline_workload resolved value.workload
    require (text_eq value.mode concurrency_mode) bad_concurrency
    validate_wave_schedule value.schedule

  unfoldable pub build_wave_manifest : Resolved → Text → ℕ → ℕ → Outcome BaselineError WaveManifest
  build_wave_manifest resolved generation children_per_wave waves = do
    require (is_hex_of 32 generation) bad_generation
    identity ← wave_identity children_per_wave waves
    workload ← baseline_binding resolved
    let manifest : WaveManifest = record {
      version = 1;
      phase = baseline_phase;
      generation = generation;
      workload = workload;
      mode = concurrency_mode;
      schedule = record { identity = identity; digest = sha256 identity };
    }
    validate_wave_manifest resolved manifest >>= λ _. ok manifest
