-- ===== src/Load/WorkerSet.antt =====
-- `startControlledLoadWorkerSet` of diagnose-lib/controlled-load-workers.mjs: its state, and a
-- function for each continuation, callback and method. A promise that has settled ignores what
-- settles it again.
pub mod Methods
pub mod Steps
pub mod Invariant
pub mod Callbacks
pub mod Preserved
pub mod Guarantee
pub mod Verified
pub mod Stopped
pub mod Started
mod Examples
use fault_affinity.Prelude.{
  ℕ, zero, suc, Bool, true, false, List, [], ◌∷◌, Option, none, some, map, every, ltb, leb, ◌==◌,
  if◌then◌else◌, not, ◌&&◌, ◌||◌, Outcome, ok, throw, ◌>>=◌, ◌>>◌, require, present,
}
use fault_affinity.Text.{Text, text_eq, codes, decimal, is_error_code}
use fault_affinity.Load.Managed.{
  ManagedResult, is_present, is_valid_stop, discard, parse_managed_result,
}
use fault_affinity.Load.Workers.{
  ResolvedLoad, WorkerSetError, not_surviving, bad_cpus, bad_taskset, is_worker_cpu_list,
  is_taskset_path, coded, error_code_of, worker_set_version, load_binding, is_boundary_id,
  SupervisorWitness, ProcessWitness, Readiness, StartWorker, StartEvidence, BoundaryWorker,
  BoundaryEvidence, StoppedWorker, StopEvidence, is_witness, parse_start, parse_boundary,
}
use fault_affinity.Load.Stopping.{from_managed, parse_stop}

pub data SetState : Type 0 where
  starting running invalid stopping stopped : SetState

-- What `worker.first` comes to.
pub data First : Type 0 where
  was_ready was_finished : First
  was_failed : Option Text → First

-- An error has a code or none.
pub record Worker (Lifecycle : Type 0) : Type 0 where
  pub cpu : ℕ
  pub aborted : Bool
  pub readiness : Option Readiness
  pub first : Option First
  pub completion : Option (Outcome (Option Text) (ManagedResult Lifecycle))

-- `failing` is the wait before the start throws, `stop_reason` that of the call that made
-- `stopPromise`, `listening` whether the abort listener is installed; the results are those of the
-- two promises.
pub record WorkerSet (Lifecycle : Type 0) : Type 0 where
  pub state : SetState
  pub failure_code : Option Text
  pub stop_requested : Bool
  pub failing : Bool
  pub listening : Bool
  pub stop_reason : Option Text
  pub workers : List (Worker Lifecycle)
  pub start_result : Option (Outcome WorkerSetError StartEvidence)
  pub stop_result : Option (Outcome WorkerSetError (StopEvidence Lifecycle))

-- A process as `readLinuxProcessIdentity` finds it.
pub record LiveIdentity : Type 0 where
  pub live : Bool
  pub pid : ℕ
  pub start_ticks : Text
  pub process_group_id : ℕ
  pub session_id : ℕ

-- What the two readers find of a process.
pub record Host : Type 0 where
  pub read_identity : ℕ → Option LiveIdentity
  pub read_allowed_cpu_list : ℕ → Option Text

abbrev pub normalized_error_code : Option Text → Text → Text
normalized_error_code none fallback = fallback
normalized_error_code (some code) fallback = if is_error_code code then code else fallback

abbrev pub code_or : Option Text → Text → Text
code_or none fallback = fallback
code_or (some code) fallback = code

abbrev pub is_active : SetState → Bool
is_active starting = true
is_active running = true
is_active _ = false

abbrev pub is_set_running : SetState → Bool
is_set_running running = true
is_set_running _ = false

abbrev pub is_invalid : SetState → Bool
is_invalid invalid = true
is_invalid _ = false

abbrev pub invalidated : SetState → SetState
invalidated stopping = stopping
invalidated stopped = stopped
invalidated _ = invalid

abbrev pub runner_error : Text
runner_error = codes "CONTROLLED_LOAD_WORKER_RUNNER_ERROR"

abbrev pub is_ready_first : Option First → Bool
is_ready_first (some was_ready) = true
is_ready_first _ = false

abbrev pub settle_first : First → Option First → First
settle_first found none = found
settle_first found (some earlier) = earlier

abbrev pub add_start : ℕ → Option Readiness → List StartWorker → List StartWorker
add_start cpu none later = later
add_start cpu (some found) later = (record { cpu = cpu; readiness = found }) ∷ later

module _ {Lifecycle : Type 0} where
  abbrev pub new_worker : ℕ → Worker Lifecycle
  new_worker cpu = record {
    cpu = cpu;
    aborted = false;
    readiness = none;
    first = none;
    completion = none;
  }

  abbrev pub new_set : List ℕ → Bool → WorkerSet Lifecycle
  new_set cpus has_signal = record {
    state = starting;
    failure_code = none;
    stop_requested = false;
    failing = false;
    listening = has_signal;
    stop_reason = none;
    workers = map new_worker cpus;
    start_result = none;
    stop_result = none;
  }

  -- The checks before any worker is started.
  unfoldable pub start_set :
      ResolvedLoad → List ℕ → Text → Bool → Outcome WorkerSetError (WorkerSet Lifecycle)
  start_set resolved cpus taskset_path has_signal = do
    require resolved.survives_window not_surviving
    require (is_worker_cpu_list cpus) bad_cpus
    require (is_taskset_path taskset_path) bad_taskset
    ok (new_set cpus has_signal)

  abbrev pub abort_worker : Worker Lifecycle → Worker Lifecycle
  abort_worker worker = record worker { aborted = true }

  abbrev pub invalidate : Text → WorkerSet Lifecycle → WorkerSet Lifecycle
  invalidate code s = record s {
    failure_code = some (code_or s.failure_code code);
    state = invalidated s.state;
    workers = map abort_worker s.workers;
  }

  abbrev pub on_external_abort : WorkerSet Lifecycle → WorkerSet Lifecycle
  on_external_abort s =
      invalidate (codes "CONTROLLED_LOAD_EXTERNAL_CANCEL") (record s { listening = false })

  abbrev pub update_at :
      ℕ → (Worker Lifecycle → Worker Lifecycle) → List (Worker Lifecycle) → List (Worker Lifecycle)
  update_at i f [] = []
  update_at zero f (worker ∷ workers) = f worker ∷ workers
  update_at (suc i) f (worker ∷ workers) = worker ∷ update_at i f workers

  -- `onStarted`: a witness that is not the worker's throws before anything is set.
  abbrev pub start_worker : Readiness → Worker Lifecycle → Worker Lifecycle
  start_worker witness worker =
      if is_witness witness worker.cpu
      then record worker {
        readiness = some witness;
        first = some (settle_first was_ready worker.first);
      }
      else worker

  abbrev pub on_started : ℕ → Readiness → WorkerSet Lifecycle → WorkerSet Lifecycle
  on_started i witness s = record s { workers = update_at i (start_worker witness) s.workers }

  abbrev pub first_of : Outcome (Option Text) (ManagedResult Lifecycle) → First
  first_of (throw code) = was_failed code
  first_of (ok result) = was_finished

  abbrev pub complete_worker :
      Outcome (Option Text) (ManagedResult Lifecycle) → Worker Lifecycle → Worker Lifecycle
  complete_worker completion worker =
      if is_present worker.completion then worker else record worker {
        completion = some completion;
        first = some (settle_first (first_of completion) worker.first);
      }

  abbrev pub terminal_code : Outcome (Option Text) (ManagedResult Lifecycle) → Text
  terminal_code (ok result) = codes "CONTROLLED_LOAD_WORKER_EARLY_TERMINAL"
  terminal_code (throw code) = normalized_error_code code runner_error

  -- A worker that ends while the set starts or runs invalidates it.
  abbrev pub on_completed :
      ℕ
      → Outcome (Option Text) (ManagedResult Lifecycle)
      → WorkerSet Lifecycle
      → WorkerSet Lifecycle
  on_completed i completion s =
      let seen = record s { workers = update_at i (complete_worker completion) s.workers } in
      if not s.stop_requested && is_active s.state
      then invalidate (terminal_code completion) seen
      else seen

  -- `first.find((entry) => entry.kind !== "ready")`
  abbrev pub incomplete : List (Worker Lifecycle) → Option (Worker Lifecycle)
  incomplete [] = none
  incomplete (worker ∷ workers) =
      let later = incomplete workers in if is_ready_first worker.first then later else some worker

  abbrev pub incomplete_code : Option (Worker Lifecycle) → Text
  incomplete_code none = codes "CONTROLLED_LOAD_WORKER_START_FAILED"
  incomplete_code (some worker) = elim worker.first [
    | some (was_failed code) ↦ normalized_error_code code runner_error
    | _ ↦ codes "CONTROLLED_LOAD_WORKER_START_FAILED"
  ]

  -- A worker that is not ready has no entry; the caller has checked that there is none.
  abbrev pub start_records : List (Worker Lifecycle) → List StartWorker
  start_records [] = []
  start_records (worker ∷ workers) =
      let later = start_records workers in add_start worker.cpu worker.readiness later

  abbrev pub worker_cpus : List (Worker Lifecycle) → List ℕ
  worker_cpus workers = map (λ worker. worker.cpu) workers

  abbrev pub start_record : ResolvedLoad → Text → ℕ → WorkerSet Lifecycle → StartEvidence
  start_record resolved taskset_path now s = record {
    version = worker_set_version;
    workload = load_binding resolved;
    taskset_path = taskset_path;
    output_mode = discard;
    cpus = worker_cpus s.workers;
    ready_monotonic_ns = decimal now;
    workers = start_records s.workers;
  }

  -- What follows `await Promise.all(workers.map((worker) => worker.first))`.
  unfoldable pub on_first_settled :
      ResolvedLoad → Text → ℕ → WorkerSet Lifecycle → WorkerSet Lifecycle
  on_first_settled resolved taskset_path now s =
      let late = incomplete s.workers in
      if is_present late || is_invalid s.state
      then record (invalidate (code_or s.failure_code (incomplete_code late)) s) {
        stop_requested = true;
        failing = true;
      }
      else record s {
        state = running;
        start_result = some (parse_start resolved (start_record resolved taskset_path now s));
      }

  abbrev pub all_completed : WorkerSet Lifecycle → Bool
  all_completed s = every (λ worker. is_present worker.completion) s.workers

  -- A start that fails throws when every worker has ended.
  abbrev pub on_start_drained : WorkerSet Lifecycle → WorkerSet Lifecycle
  on_start_drained s = record s {
    listening = false;
    start_result = some (throw (coded (code_or s.failure_code [])));
  }
