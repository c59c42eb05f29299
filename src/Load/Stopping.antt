-- ===== src/Load/Stopping.antt =====
-- The stop evidence of a worker set: `parseControlledLoadWorkerSetStopEvidence` of
-- diagnose-lib/controlled-load-workers.mjs.
use fault_affinity.Prelude.{
  ℕ, Bool, true, false, List, [], ◌∷◌, Option, none, some, some_of, length, leb, ◌==◌,
  if◌then◌else◌, not, ◌&&◌, Outcome, ok, throw, ◌>>=◌, ◌>>◌, require, present,
}
use fault_affinity.Text.{Text, text_eq, decimal}
use fault_affinity.Load.Managed.{
  ProcessIdentity, ExecutionAffinity, ManagedResult, ManagedError, is_code_or_null, is_present,
  is_valid_stop, parse_managed_result,
}
use fault_affinity.Load.Workers.{
  ResolvedLoad, WorkerSetError, bad_version, bad_boundary_id, bad_status, bad_time, early_stop,
  bad_workers, other_cpu, no_result, other_affinity, other_identity, bad_worker_status, bad_summary,
  bad_result, worker_set_version, bounded_decimal, is_boundary_id, StartWorker, StartEvidence,
  StoppedWorker, StopEvidence, parse_start,
}

abbrev pub is_process : Option ProcessIdentity → ℕ → Text → Bool
is_process none pid ticks = false
is_process (some found) pid ticks = found.pid == pid && text_eq found.start_ticks ticks

abbrev pub has_text : Option Text → Text → Bool
has_text none expected = false
has_text (some found) expected = text_eq found expected

abbrev pub is_singleton_affinity : Option ExecutionAffinity → ℕ → Bool
is_singleton_affinity none cpu = false
is_singleton_affinity (some affinity) cpu =
    affinity.requested_cpu == cpu
    && (text_eq affinity.supervisor_allowed_cpu_list (decimal cpu)
        && text_eq affinity.workload_allowed_cpu_list (decimal cpu))

abbrev pub from_managed {ℓ} : {A : Type ℓ} → Outcome ManagedError A → Outcome WorkerSetError A
from_managed (throw e) = throw (bad_result e)
from_managed (ok value) = ok value

-- `recordFailure`
abbrev pub has_record_failure : {Lifecycle : Type 0} → List (StoppedWorker Lifecycle) → Bool
has_record_failure workers = some_of (λ worker. is_present worker.error_code) workers

abbrev pub is_summary : Bool → Option Text → Bool → Bool
is_summary true failure failed = not (is_present failure) && not failed
is_summary false failure failed = is_present failure

module _ {Lifecycle : Type 0} (builds : ManagedResult Lifecycle → Bool)
    (resolved : ResolvedLoad) where
  abbrev pub is_ready_process : StartWorker → ManagedResult Lifecycle → Bool
  is_ready_process expected result =
      let ready = expected.readiness in
      is_process result.supervisor ready.supervisor.pid ready.supervisor.start_ticks
      && (is_process result.workload ready.workload.pid ready.workload.start_ticks
          && has_text result.workload_started_ns ready.monotonic_ns)

  -- A worker with a result; its status tells whether it stopped as it was told to.
  unfoldable pub check_result :
      ℕ
      → StartWorker
      → StoppedWorker Lifecycle
      → ManagedResult Lifecycle
      → Outcome WorkerSetError (Unit {0})
  check_result stopped expected worker found = do
    result ← from_managed (parse_managed_result builds resolved.digest found)
    require (is_singleton_affinity result.cpu_affinity worker.cpu) other_affinity
    require (is_ready_process expected result) other_identity
    require
        (if is_valid_stop result
          then not (is_present worker.error_code)
          else is_present worker.error_code)
        bad_worker_status
    cleanup ← present (bounded_decimal result.cleanup_finished_ns) bad_time
    require (leb cleanup stopped) early_stop

  abbrev pub check_optional_result :
      ℕ
      → StartWorker
      → StoppedWorker Lifecycle
      → Option (ManagedResult Lifecycle)
      → Outcome WorkerSetError (Unit {0})
  check_optional_result stopped expected worker none =
      require (is_present worker.error_code) no_result
  check_optional_result stopped expected worker (some result) =
      check_result stopped expected worker result

  unfoldable pub check_stopped :
      ℕ → StartWorker → StoppedWorker Lifecycle → Outcome WorkerSetError (Unit {0})
  check_stopped stopped expected worker = do
    require (worker.cpu == expected.cpu && is_code_or_null worker.error_code) other_cpu
    check_optional_result stopped expected worker worker.result

  unfoldable pub check_stopped_workers :
      ℕ → List StartWorker → List (StoppedWorker Lifecycle) → Outcome WorkerSetError (Unit {0})
  check_stopped_workers stopped [] [] = ok tt
  check_stopped_workers stopped [] (worker ∷ workers) = throw bad_workers
  check_stopped_workers stopped (expected ∷ others) [] = throw bad_workers
  check_stopped_workers stopped (expected ∷ others) (worker ∷ workers) =
      let later = check_stopped_workers stopped others workers in
      check_stopped stopped expected worker >> later

  unfoldable pub parse_stop :
      StartEvidence → StopEvidence Lifecycle → Outcome WorkerSetError (StopEvidence Lifecycle)
  parse_stop start_value value = do
    start ← parse_start resolved start_value
    require (value.version == worker_set_version) bad_version
    require (is_boundary_id value.reason) bad_boundary_id
    require (is_code_or_null value.failure_code) bad_status
    stopped ← present (bounded_decimal value.stopped_monotonic_ns) bad_time
    ready ← present (bounded_decimal start.ready_monotonic_ns) bad_time
    require (leb ready stopped) early_stop
    require (length value.workers == length start.workers) bad_workers
    check_stopped_workers stopped start.workers value.workers
    require (is_summary value.valid value.failure_code (has_record_failure value.workers))
        bad_summary
    ok value
