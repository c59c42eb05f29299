-- ===== src/Load/Workers.antt =====
-- The records of a controlled-load worker set, and their three parsers: the start, boundary and stop
-- evidence of diagnose-lib/controlled-load-workers.mjs. A record whose keys or kinds of values are
-- not the format's is not of the record type at all.
pub mod Parsed
use fault_affinity.Prelude.{
  ℕ, Bool, true, false, List, [], ◌∷◌, Option, none, some, every, length, leb, ltb, ◌==◌,
  if◌then◌else◌, not, ◌&&◌, ◌||◌, Outcome, ok, throw, ◌>>=◌, ◌>>◌, require, present,
}
use fault_affinity.Prelude.Increasing.{is_increasing}
use fault_affinity.Text.{Text, text_eq, codes, decimal, parse_decimal, is_digit, is_error_code}
use fault_affinity.Attempt.Launch.{byte_length, starts_with_slash}
use fault_affinity.ExactCpu.Phase.{Workload, same_workload, same_numbers}
use fault_affinity.Load.Managed.{
  ProcessIdentity, ExecutionAffinity, ManagedResult, ManagedError, discard, is_code_or_null,
  is_present, is_valid_stop, parse_managed_result,
}

-- The resolved workload: its identity, and `attempt.mode === "survive-window"`.
pub record ResolvedLoad : Type 0 where
  pub version : ℕ
  pub id : Text
  pub digest : Text
  pub survives_window : Bool

-- Each is a ControlledLoadWorkerSetError; the last four have a code of their own.
pub data WorkerSetError : Type 0 where
  bad_version other_workload bad_taskset bad_output bad_cpus bad_time : WorkerSetError
  not_surviving bad_workers other_cpu bad_witness late_readiness : WorkerSetError
  bad_boundary_id early_boundary other_identity : WorkerSetError
  bad_status early_stop no_result other_affinity bad_worker_status bad_summary : WorkerSetError
  bad_result : ManagedError → WorkerSetError
  identity_mismatch affinity_mismatch : WorkerSetError
  coded : Text → WorkerSetError

abbrev pub error_code_of : WorkerSetError → Text
error_code_of (coded code) = code
error_code_of identity_mismatch = codes "CONTROLLED_LOAD_WORKER_IDENTITY_MISMATCH"
error_code_of affinity_mismatch = codes "CONTROLLED_LOAD_WORKER_AFFINITY_MISMATCH"
error_code_of (bad_result e) = codes "INVALID_MANAGED_WORKLOAD_RESULT"
error_code_of _ = codes "INVALID_CONTROLLED_LOAD_WORKER_SET"

abbrev pub worker_set_version : ℕ
worker_set_version = 1

abbrev pub max_load_workers : ℕ
max_load_workers = 256

abbrev pub cpu_max : ℕ
cpu_max = 65_535

abbrev pub load_binding : ResolvedLoad → Workload
load_binding resolved = record {
  contract_version = resolved.version;
  id = resolved.id;
  digest = resolved.digest;
}

-- `^(0|[1-9][0-9]{0,31})$`, read as a BigInt.
unfoldable pub bounded_decimal : Text → Option ℕ
bounded_decimal text = if leb (length text) 32 then parse_decimal text else none

unfoldable pub is_worker_cpu_list : List ℕ → Bool
is_worker_cpu_list cpus =
    (leb 1 (length cpus) && leb (length cpus) max_load_workers)
    && (every (λ cpu. leb cpu cpu_max) cpus && is_increasing cpus)

unfoldable pub is_taskset_path : Text → Bool
is_taskset_path path =
    starts_with_slash path && (every (λ c. not (c == 0)) path && leb (byte_length path) 16_384)

-- `^[0-9]+$`
abbrev pub is_ticks : Text → Bool
is_ticks text = not (length text == 0) && every is_digit text

-- `^[a-z][a-z0-9-]{0,63}$`
abbrev pub is_lower : ℕ → Bool
is_lower c = leb b'a' c && leb c b'z'

abbrev pub is_boundary_id : Text → Bool
is_boundary_id [] = false
is_boundary_id (c ∷ rest) =
    is_lower c
    && (leb (length rest) 63 && every (λ d. is_lower d || (is_digit d || d == b'-')) rest)

pub record SupervisorWitness : Type 0 where
  pub pid : ℕ
  pub process_group_id : ℕ
  pub session_id : ℕ
  pub start_ticks : Text
  pub allowed_cpu_list : Text

pub record ProcessWitness : Type 0 where
  pub pid : ℕ
  pub start_ticks : Text
  pub allowed_cpu_list : Text

pub record Readiness : Type 0 where
  pub monotonic_ns : Text
  pub supervisor : SupervisorWitness
  pub workload : ProcessWitness

pub record StartWorker : Type 0 where
  pub cpu : ℕ
  pub readiness : Readiness

pub record StartEvidence : Type 0 where
  pub version : ℕ
  pub workload : Workload
  pub taskset_path : Text
  pub output_mode : Text
  pub cpus : List ℕ
  pub ready_monotonic_ns : Text
  pub workers : List StartWorker

pub record BoundaryWorker : Type 0 where
  pub cpu : ℕ
  pub supervisor : ProcessWitness
  pub workload : ProcessWitness

pub record BoundaryEvidence : Type 0 where
  pub version : ℕ
  pub boundary : Text
  pub monotonic_ns : Text
  pub workers : List BoundaryWorker

pub record StoppedWorker (Lifecycle : Type 0) : Type 0 where
  pub cpu : ℕ
  pub error_code : Option Text
  pub result : Option (ManagedResult Lifecycle)

pub record StopEvidence (Lifecycle : Type 0) : Type 0 where
  pub version : ℕ
  pub reason : Text
  pub valid : Bool
  pub failure_code : Option Text
  pub stopped_monotonic_ns : Text
  pub workers : List (StoppedWorker Lifecycle)

unfoldable pub is_witness : Readiness → ℕ → Bool
is_witness value cpu =
    is_present (bounded_decimal value.monotonic_ns)
    && ((ltb 1 value.supervisor.pid
          && (value.supervisor.process_group_id == value.supervisor.pid
              && value.supervisor.session_id == value.supervisor.pid))
        && ((is_ticks value.supervisor.start_ticks
              && (ltb 1 value.workload.pid && is_ticks value.workload.start_ticks))
            && (text_eq value.supervisor.allowed_cpu_list (decimal cpu)
                && text_eq value.workload.allowed_cpu_list (decimal cpu))))

-- The loop over the workers, beside the CPUs that they must be on.
unfoldable pub check_start_workers :
    ℕ → List ℕ → List StartWorker → Outcome WorkerSetError (Unit {0})
check_start_workers ready [] [] = ok tt
check_start_workers ready [] (worker ∷ workers) = throw bad_workers
check_start_workers ready (cpu ∷ cpus) [] = throw bad_workers
check_start_workers ready (cpu ∷ cpus) (worker ∷ workers) =
    let later = check_start_workers ready cpus workers in
    require (worker.cpu == cpu) other_cpu
    >> (require (is_witness worker.readiness worker.cpu) bad_witness
        >> (present (bounded_decimal worker.readiness.monotonic_ns) bad_time
            >>= (λ own. require (leb own ready) late_readiness >> later)))

unfoldable pub parse_start : ResolvedLoad → StartEvidence → Outcome WorkerSetError StartEvidence
parse_start resolved value = do
  require (value.version == worker_set_version) bad_version
  require (same_workload value.workload (load_binding resolved)) other_workload
  require (is_taskset_path value.taskset_path) bad_taskset
  require (text_eq value.output_mode discard) bad_output
  require (is_worker_cpu_list value.cpus) bad_cpus
  ready ← present (bounded_decimal value.ready_monotonic_ns) bad_time
  require (length value.workers == length value.cpus) bad_workers
  check_start_workers ready value.cpus value.workers
  ok value

abbrev pub same_process : ProcessWitness → ℕ → Text → ℕ → Bool
same_process found pid ticks cpu =
    found.pid == pid
    && (text_eq found.start_ticks ticks && text_eq found.allowed_cpu_list (decimal cpu))

unfoldable pub is_boundary_worker : StartWorker → BoundaryWorker → Bool
is_boundary_worker expected worker =
    let supervisor = expected.readiness.supervisor in
    let workload = expected.readiness.workload in
    worker.cpu == expected.cpu
    && (same_process worker.supervisor supervisor.pid supervisor.start_ticks worker.cpu
        && same_process worker.workload workload.pid workload.start_ticks worker.cpu)

abbrev pub check_pairs {ℓ} : {A B : Type ℓ} → (A → B → Bool) → List A → List B → Bool
check_pairs p [] [] = true
check_pairs p [] (y ∷ ys) = false
check_pairs p (x ∷ xs) [] = false
check_pairs p (x ∷ xs) (y ∷ ys) = p x y && check_pairs p xs ys

unfoldable pub parse_boundary :
    ResolvedLoad → StartEvidence → BoundaryEvidence → Outcome WorkerSetError BoundaryEvidence
parse_boundary resolved start_value value = do
  require (value.version == worker_set_version) bad_version
  start ← parse_start resolved start_value
  require (is_boundary_id value.boundary) bad_boundary_id
  now ← present (bounded_decimal value.monotonic_ns) bad_time
  ready ← present (bounded_decimal start.ready_monotonic_ns) bad_time
  require (leb ready now) early_boundary
  require (length value.workers == length start.workers) bad_workers
  require (check_pairs is_boundary_worker start.workers value.workers) other_identity
  ok value
