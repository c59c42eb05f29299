-- ===== src/Load/WorkerSet/Steps.antt =====
-- What can happen to a worker set, in any order: the events of
-- diagnose-lib/controlled-load-workers.mjs, and when each can come.
use fault_affinity.Prelude.{ℕ, ◌≡◌, Bool, true, false, List, Option, none, some, every, Outcome, ok}
use fault_affinity.Text.{Text}
use fault_affinity.Load.Managed.{ManagedResult, is_present}
use fault_affinity.Load.Workers.{ResolvedLoad, Readiness, StartEvidence}
use fault_affinity.Load.WorkerSet.{
  WorkerSet, Host, new_set, on_external_abort, on_started, on_completed, on_first_settled,
  on_start_drained, all_completed,
}
use fault_affinity.Load.WorkerSet.Methods.{verify, stop, on_all_completed}

-- The number is the worker's index or what the clock shows.
pub data SetEvent (Lifecycle : Type 0) : Type 0 where
  external_abort start_drained : SetEvent Lifecycle
  worker_started : ℕ → Readiness → SetEvent Lifecycle
  worker_completed : ℕ → Outcome (Option Text) (ManagedResult Lifecycle) → SetEvent Lifecycle
  first_settled : ℕ → SetEvent Lifecycle
  verify_called : StartEvidence → Text → ℕ → Host → SetEvent Lifecycle
  stop_called : Text → SetEvent Lifecycle
  all_settled : StartEvidence → Text → ℕ → SetEvent Lifecycle

module _ {Lifecycle : Type 0} (builds : ManagedResult Lifecycle → Bool) (resolved : ResolvedLoad)
    (taskset_path : Text) where
  abbrev pub set_step : SetEvent Lifecycle → WorkerSet Lifecycle → WorkerSet Lifecycle
  set_step external_abort s = on_external_abort s
  set_step start_drained s = on_start_drained s
  set_step (worker_started i witness) s = on_started i witness s
  set_step (worker_completed i completion) s = on_completed i completion s
  set_step (first_settled now) s = on_first_settled resolved taskset_path now s
  set_step (verify_called start boundary now host) s = (verify resolved start boundary now host s).1
  set_step (stop_called reason) s = stop reason s
  set_step (all_settled start reason now) s = on_all_completed builds resolved start reason now s

  -- The start's continuation runs once, when each first promise has settled; the methods are there
  -- once it has returned the handle; a promise's callback runs once.
  abbrev pub Enabled : SetEvent Lifecycle → WorkerSet Lifecycle → Type 0
  Enabled external_abort s = s.listening ≡ true
  Enabled start_drained s = (s.failing ≡ true) × (all_completed s ≡ true) × (s.start_result ≡ none)
  Enabled (worker_started i witness) s = Unit
  Enabled (worker_completed i completion) s = Unit
  Enabled (first_settled now) s =
      (every (λ worker. is_present worker.first) s.workers ≡ true)
      × (s.start_result ≡ none)
      × (s.failing ≡ false)
  Enabled (verify_called start boundary now host) s = s.start_result ≡ some (ok start)
  Enabled (stop_called reason) s = (start : StartEvidence) × (s.start_result ≡ some (ok start))
  Enabled (all_settled start reason now) s =
      (s.stop_reason ≡ some reason)
      × (all_completed s ≡ true)
      × (s.stop_result ≡ none)
      × (s.start_result ≡ some (ok start))

  pub data Reachable (cpus : List ℕ) (has_signal : Bool) : WorkerSet Lifecycle → Type 0 where
    at_start : Reachable cpus has_signal (new_set cpus has_signal)
    after :
        (e : SetEvent Lifecycle) {s : WorkerSet Lifecycle}
        → Reachable cpus has_signal s
        → Enabled e s
        → Reachable cpus has_signal (set_step e s)
