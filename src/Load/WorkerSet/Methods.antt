-- ===== src/Load/WorkerSet/Methods.antt =====
-- `verify` and `stop` of a worker set: diagnose-lib/controlled-load-workers.mjs.
use fault_affinity.Prelude.{
  ℕ, Bool, true, false, List, [], ◌∷◌, map, Option, none, some, ◌==◌, if◌then◌else◌, not, ◌&&◌,
  Outcome, ok, throw, ◌>>=◌, ◌>>◌, require,
}
use fault_affinity.Text.{Text, text_eq, codes, decimal}
use fault_affinity.Load.Managed.{ManagedResult, is_present, is_valid_stop, parse_managed_result}
use fault_affinity.Load.Workers.{
  ResolvedLoad, WorkerSetError, bad_boundary_id, identity_mismatch, affinity_mismatch, coded,
  error_code_of, worker_set_version, is_boundary_id, Readiness, StartEvidence, BoundaryWorker,
  BoundaryEvidence, StoppedWorker, StopEvidence, parse_boundary,
}
use fault_affinity.Load.Stopping.{from_managed, parse_stop}
use fault_affinity.Load.WorkerSet.{
  stopping, stopped, Worker, WorkerSet, LiveIdentity, Host, normalized_error_code, code_or,
  is_set_running, is_invalid, runner_error, abort_worker, invalidate,
}

abbrev pub identity_matches : Option LiveIdentity → ℕ → Text → ℕ → ℕ → Bool
identity_matches none pid ticks group session = false
identity_matches (some actual) pid ticks group session =
    actual.live
    && (actual.pid == pid
        && (text_eq actual.start_ticks ticks
            && (actual.process_group_id == group && actual.session_id == session)))

-- A list that cannot be read is no CPU's.
abbrev pub is_cpu_list : Option Text → ℕ → Bool
is_cpu_list none cpu = false
is_cpu_list (some list) cpu = text_eq list (decimal cpu)

-- `currentWorkerWitness`, for a worker that has its readiness.
unfoldable pub current_witness : Host → ℕ → Readiness → Outcome WorkerSetError BoundaryWorker
current_witness host cpu ready = do
  let supervisor = ready.supervisor
  let workload = ready.workload
  require
      (identity_matches (host.read_identity supervisor.pid) supervisor.pid supervisor.start_ticks
          supervisor.pid supervisor.session_id
        && identity_matches (host.read_identity workload.pid) workload.pid workload.start_ticks
            supervisor.pid supervisor.pid)
      identity_mismatch
  require
      (is_cpu_list (host.read_allowed_cpu_list supervisor.pid) cpu
        && is_cpu_list (host.read_allowed_cpu_list workload.pid) cpu)
      affinity_mismatch
  ok (record {
    cpu = cpu;
    supervisor = record {
      pid = supervisor.pid;
      start_ticks = supervisor.start_ticks;
      allowed_cpu_list = decimal cpu;
    };
    workload = record {
      pid = workload.pid;
      start_ticks = workload.start_ticks;
      allowed_cpu_list = decimal cpu;
    };
  })

abbrev pub final_failure : Option Text → Option Text → Option Text
final_failure none later = later
final_failure (some code) later = some code

abbrev pub optional_witness : Host → ℕ → Option Readiness → Outcome WorkerSetError BoundaryWorker
optional_witness host cpu none = throw identity_mismatch
optional_witness host cpu (some ready) = current_witness host cpu ready

module _ {Lifecycle : Type 0} where
  unfoldable pub current_witnesses :
      Host → List (Worker Lifecycle) → Outcome WorkerSetError (List BoundaryWorker)
  current_witnesses host [] = ok []
  current_witnesses host (worker ∷ workers) =
      let later = current_witnesses host workers in
      optional_witness host worker.cpu worker.readiness
      >>= (λ found. later >>= (λ rest. ok (found ∷ rest)))

  -- The snapshot, inside the `try`.
  abbrev pub snapshot :
      ResolvedLoad
      → StartEvidence
      → Text
      → ℕ
      → Host
      → WorkerSet Lifecycle
      → Outcome WorkerSetError BoundaryEvidence
  snapshot resolved start boundary now host s = current_witnesses host s.workers >>= (λ found.
      parse_boundary resolved start (record {
        version = worker_set_version;
        boundary = boundary;
        monotonic_ns = decimal now;
        workers = found;
      }))

  -- An error of the snapshot invalidates the set.
  abbrev pub or_invalidate :
      Outcome WorkerSetError BoundaryEvidence
      → WorkerSet Lifecycle
      → Outcome WorkerSetError BoundaryEvidence × WorkerSet Lifecycle
  or_invalidate (ok found) s = (ok found, s)
  or_invalidate (throw e) s = (
    throw e,
    invalidate
        (normalized_error_code (some (error_code_of e))
          (codes "CONTROLLED_LOAD_WORKER_BOUNDARY_INVALID"))
        s,
  )

  unfoldable pub verify :
      ResolvedLoad
      → StartEvidence
      → Text
      → ℕ
      → Host
      → WorkerSet Lifecycle
      → Outcome WorkerSetError BoundaryEvidence × WorkerSet Lifecycle
  verify resolved start boundary now host s =
      if is_boundary_id boundary
      then (if is_set_running s.state
          then or_invalidate (snapshot resolved start boundary now host s) s
          else (
            throw (coded (code_or s.failure_code (codes "CONTROLLED_LOAD_WORKER_SET_NOT_RUNNING"))),
            s,
          ))
      else (throw bad_boundary_id, s)

  -- The call of `stop`, which throws at a reason that is no identifier; the promise that it returns is settled by `on_all_completed`.
  unfoldable pub stop : Text → WorkerSet Lifecycle → WorkerSet Lifecycle
  stop reason s =
      if is_boundary_id reason && not (is_present s.stop_reason)
      then record s {
        stop_requested = true;
        state = if is_invalid s.state then s.state else stopping;
        stop_reason = some reason;
        workers = map abort_worker s.workers;
      }
      else s

  abbrev pub failed_record : ℕ → Text → StoppedWorker Lifecycle
  failed_record cpu code = record { cpu = cpu; error_code = some code; result = none }

  abbrev pub parsed_record :
      ℕ → Outcome WorkerSetError (ManagedResult Lifecycle) → StoppedWorker Lifecycle
  parsed_record cpu (throw e) = failed_record cpu (
      normalized_error_code (some (error_code_of e))
        (codes "CONTROLLED_LOAD_WORKER_RESULT_INVALID"))
  parsed_record cpu (ok result) = record {
    cpu = cpu;
    error_code =
        if is_valid_stop result then none else some (codes "CONTROLLED_LOAD_WORKER_STOP_INVALID");
    result = some result;
  }

  -- `records.find((record) => record.errorCode !== null)?.errorCode ?? null`
  abbrev pub record_failure : List (StoppedWorker Lifecycle) → Option Text
  record_failure [] = none
  record_failure (worker ∷ workers) =
      let later = record_failure workers in final_failure worker.error_code later

  abbrev pub settle_stop :
      Outcome WorkerSetError (StopEvidence Lifecycle) → WorkerSet Lifecycle → WorkerSet Lifecycle
  settle_stop (throw e) s = record s { listening = false; stop_result = some (throw e) }
  settle_stop (ok found) s = record s {
    listening = false;
    state = stopped;
    stop_result = some (ok found);
  }

  module _ (builds : ManagedResult Lifecycle → Bool) (resolved : ResolvedLoad) where
    abbrev pub completed_record :
        ℕ → Outcome (Option Text) (ManagedResult Lifecycle) → StoppedWorker Lifecycle
    completed_record cpu (throw code) = failed_record cpu (normalized_error_code code runner_error)
    completed_record cpu (ok found) =
        parsed_record cpu (from_managed (parse_managed_result builds resolved.digest found))

    abbrev pub add_record :
        ℕ
        → Option (Outcome (Option Text) (ManagedResult Lifecycle))
        → List (StoppedWorker Lifecycle)
        → List (StoppedWorker Lifecycle)
    add_record cpu none later = later
    add_record cpu (some completion) later = completed_record cpu completion ∷ later

    -- The caller has checked that every worker has ended.
    abbrev pub stop_records : List (Worker Lifecycle) → List (StoppedWorker Lifecycle)
    stop_records [] = []
    stop_records (worker ∷ workers) =
        let later = stop_records workers in add_record worker.cpu worker.completion later

    abbrev pub stop_record : Text → ℕ → WorkerSet Lifecycle → StopEvidence Lifecycle
    stop_record reason now s =
        let records = stop_records s.workers in
        let failure = final_failure s.failure_code (record_failure records) in
        record {
          version = worker_set_version;
          reason = reason;
          valid = not (is_present failure);
          failure_code = failure;
          stopped_monotonic_ns = decimal now;
          workers = records;
        }

    -- `stopPromise`'s continuation, when every worker has ended.
    unfoldable pub on_all_completed :
        StartEvidence → Text → ℕ → WorkerSet Lifecycle → WorkerSet Lifecycle
    on_all_completed start reason now s =
        settle_stop (parse_stop builds resolved start (stop_record reason now s)) s
