-- ===== src/ExactCpu/Phase.antt =====
-- The manifest of an isolated exact-CPU phase: diagnose-lib/exact-cpu-phase.mjs.
use fault_affinity.Prelude.{
  ℕ, ◌*◌, Bool, true, false, List, [], ◌∷◌, length, every, leb, ◌==◌, not, ◌&&◌, Outcome, ok, throw,
  ◌>>=◌, ◌>>◌, require,
}
use fault_affinity.Text.{Text, text_eq, codes, is_hex_of}
use fault_affinity.Attempt.Launch.{byte_length, starts_with_slash}
use fault_affinity.ExactCpu.Plan.{Slot, IsolatedPlan, PlanError, build_isolated_plan}

-- Each is an ExactCpuPhaseError with its message.
pub data PhaseError : Type 0 where
  not_isolated other_workload bad_generation bad_taskset : PhaseError
  bad_schedule_version bad_algorithm bad_digest bad_parameters other_plan other_digest : PhaseError
  bad_affinity_mode bad_version bad_phase : PhaseError
  bad_envelope_version other_generation other_schedule bad_ordinal bad_slot other_slot : PhaseError
  other_affinity bad_evidence invalid_outcome other_binding : PhaseError
  long_prefix not_contiguous no_witness : PhaseError

pub record Binding : Type 0 where
  pub sha256 : Text
  pub bytes : ℕ

-- The resolved workload: its identity, and its `isolated` and `baseline` capabilities.
pub record Resolved : Type 0 where
  pub version : ℕ
  pub id : Text
  pub digest : Text
  pub isolated : Bool
  pub baseline : Bool

pub record Workload : Type 0 where
  pub contract_version : ℕ
  pub id : Text
  pub digest : Text

unfoldable pub workload_binding : Resolved → Outcome PhaseError Workload
workload_binding resolved = do
  require resolved.isolated not_isolated
  ok (record { contract_version = resolved.version; id = resolved.id; digest = resolved.digest })

abbrev pub same_workload : Workload → Workload → Bool
same_workload left right =
    left.contract_version == right.contract_version
    && (text_eq left.id right.id && text_eq left.digest right.digest)

unfoldable pub validate_workload_binding : Resolved → Workload → Outcome PhaseError (Unit {0})
validate_workload_binding resolved value = do
  expected ← workload_binding resolved
  require (same_workload value expected) other_workload

-- `^[a-f0-9]{32}$`
abbrev pub validate_generation : Text → Outcome PhaseError (Unit {0})
validate_generation value = require (is_hex_of 32 value) bad_generation

abbrev pub validate_taskset_path : Text → Outcome PhaseError (Unit {0})
validate_taskset_path value =
    require
      (starts_with_slash value
        && (every (λ c. not (c == 0)) value && leb (byte_length value) (16 * 1024)))
      bad_taskset

pub record ScheduleIdentity : Type 0 where
  pub version : ℕ
  pub algorithm : Text
  pub seed : ℕ
  pub cpus : List ℕ
  pub rounds : ℕ
  pub attempt_count : ℕ
  pub plan : Binding
  pub record_count : ℕ

pub record Schedule : Type 0 where
  pub identity : ScheduleIdentity
  pub digest : Text

pub record Manifest : Type 0 where
  pub version : ℕ
  pub phase : Text
  pub generation : Text
  pub workload : Workload
  pub affinity_mode : Text
  pub taskset_path : Text
  pub schedule : Schedule

abbrev pub phase_version : ℕ
phase_version = 1

abbrev pub phase_name : Text
phase_name = codes "isolated-exact-cpu"

abbrev pub schedule_algorithm : Text
schedule_algorithm = codes "balanced-cyclic-v1"

abbrev pub affinity_mode : Text
affinity_mode = codes "inherited-singleton-v1"

abbrev pub same_numbers : List ℕ → List ℕ → Bool
same_numbers [] [] = true
same_numbers [] (y ∷ ys) = false
same_numbers (x ∷ xs) [] = false
same_numbers (x ∷ xs) (y ∷ ys) = x == y && same_numbers xs ys

abbrev pub same_binding : Binding → Binding → Bool
same_binding left right = text_eq left.sha256 right.sha256 && left.bytes == right.bytes

-- Equality of the two canonical JSON texts.
abbrev pub same_identity : ScheduleIdentity → ScheduleIdentity → Bool
same_identity left right =
    left.version == right.version
    && (text_eq left.algorithm right.algorithm
        && (left.seed == right.seed
            && (same_numbers left.cpus right.cpus
                && (left.rounds == right.rounds
                    && (left.attempt_count == right.attempt_count
                        && (same_binding left.plan right.plan
                            && left.record_count == right.record_count))))))

abbrev pub from_plan {ℓ} : {A : Type ℓ} → Outcome PlanError A → Outcome PhaseError A
from_plan (throw e) = throw bad_parameters
from_plan (ok value) = ok value

-- The two digests: of a plan's TSV file, and of a schedule's identity as a canonical line.
pub record Digests : Type 0 where
  pub plan_binding : List Slot → Binding
  pub identity_sha256 : ScheduleIdentity → Text

module _ (digests : Digests) where
  abbrev pub schedule_identity : IsolatedPlan → ScheduleIdentity
  schedule_identity plan = record {
    version = 1;
    algorithm = schedule_algorithm;
    seed = plan.seed;
    cpus = plan.cpus;
    rounds = plan.rounds;
    attempt_count = length plan.records;
    plan = digests.plan_binding plan.records;
    record_count = length plan.records;
  }

  unfoldable pub validate_schedule : Schedule → Outcome PhaseError IsolatedPlan
  validate_schedule value = do
    let found = value.identity
    require (found.version == 1) bad_schedule_version
    require (text_eq found.algorithm schedule_algorithm) bad_algorithm
    require (is_hex_of 64 value.digest) bad_digest
    plan ← from_plan (build_isolated_plan found.cpus found.rounds found.seed)
    require (same_identity found (schedule_identity plan)) other_plan
    require (text_eq value.digest (digests.identity_sha256 (schedule_identity plan))) other_digest
    ok plan

  unfoldable pub validate_manifest : Resolved → Manifest → Outcome PhaseError IsolatedPlan
  validate_manifest resolved value = do
    require (value.version == phase_version) bad_version
    require (text_eq value.phase phase_name) bad_phase
    validate_generation value.generation
    validate_workload_binding resolved value.workload
    require (text_eq value.affinity_mode affinity_mode) bad_affinity_mode
    validate_taskset_path value.taskset_path
    validate_schedule value.schedule
