-- ===== src/Load/WorkerSet/Guarantee.antt =====
-- The invariant at every state that the set can reach.
use fault_affinity.Prelude.{ℕ, ◌≡◌, refl, ap, Bool, false, List, [], ◌∷◌, All, map}
use fault_affinity.Text.{Text}
use fault_affinity.Load.Managed.{ManagedResult}
use fault_affinity.Load.WorkerSet.{WorkerSet, worker_cpus}
use fault_affinity.Load.WorkerSet.Invariant.{IsIdle, IsWitnessed, IsSound, invalidate-IsSound}
use fault_affinity.Load.Workers.{ResolvedLoad}
use fault_affinity.Load.Stopping.{parse_stop}
use fault_affinity.Load.WorkerSet.{new_set, new_worker}
use fault_affinity.Load.WorkerSet.Methods.{stop_record, on_all_completed}
use fault_affinity.Load.WorkerSet.Steps.{
  SetEvent, external_abort, start_drained, worker_started, worker_completed, first_settled,
  verify_called, stop_called, all_settled, set_step, Enabled, Reachable, at_start, after,
}
use fault_affinity.Load.WorkerSet.Callbacks.{on_started-IsSound, on_completed-IsSound}
use fault_affinity.Load.WorkerSet.Preserved.{
  on_first_settled-IsSound, verify-IsSound, stop-IsSound, settle_stop-IsSound, asked_is_down,
  drained-IsSound,
}

new_workers-IsIdle :
    (Lifecycle : Type 0) (cpus : List ℕ)
    → All (IsIdle {Lifecycle = Lifecycle}) (map new_worker cpus)
new_workers-IsIdle Lifecycle [] = tt
new_workers-IsIdle Lifecycle (cpu ∷ cpus) = ((refl, refl), new_workers-IsIdle Lifecycle cpus)

new_workers-IsWitnessed :
    (Lifecycle : Type 0) (cpus : List ℕ)
    → All (IsWitnessed {Lifecycle = Lifecycle}) (map new_worker cpus)
new_workers-IsWitnessed Lifecycle [] = tt
new_workers-IsWitnessed Lifecycle (cpu ∷ cpus) = (λ e. cc, new_workers-IsWitnessed Lifecycle cpus)

new_workers-cpus :
    (Lifecycle : Type 0) (cpus : List ℕ)
    → worker_cpus (map (new_worker {Lifecycle = Lifecycle}) cpus) ≡ cpus
new_workers-cpus Lifecycle [] = refl
new_workers-cpus Lifecycle (cpu ∷ cpus) = ap (◌∷◌ cpu) (new_workers-cpus Lifecycle cpus)

module _ {Lifecycle : Type 0} (builds : ManagedResult Lifecycle → Bool) (resolved : ResolvedLoad)
    (path : Text) (cpus : List ℕ) where
  new_set-IsSound :
      (has_signal : Bool) → IsSound {Lifecycle = Lifecycle} cpus (new_set cpus has_signal)
  new_set-IsSound has_signal = record {
    based = record {
      before = λ e. refl;
      witnessed = new_workers-IsWitnessed Lifecycle cpus;
      same = new_workers-cpus Lifecycle cpus;
      asked = λ e. cc;
    };
    quiet = λ e. (refl, refl);
    idle = λ e. new_workers-IsIdle Lifecycle cpus;
    ready = λ e. cc;
    aborted = λ e. cc;
    explained = λ e. cc;
  }

  set_step-IsSound :
      (e : SetEvent Lifecycle) (s : WorkerSet Lifecycle)
      → Enabled builds resolved path e s
      → IsSound cpus s
      → IsSound cpus (set_step builds resolved path e s)
  unfolding on_all_completed
  set_step-IsSound external_abort s enabled h =
      invalidate-IsSound cpus _ (record s { listening = false })
        (record {
          before = h.based.before;
          witnessed = h.based.witnessed;
          same = h.based.same;
          asked = h.based.asked;
        })
  set_step-IsSound start_drained s enabled h = drained-IsSound cpus s h
  set_step-IsSound (worker_started i witness) s enabled h = on_started-IsSound cpus i witness s h
  set_step-IsSound (worker_completed i completion) s enabled h =
      on_completed-IsSound cpus i completion s h
  set_step-IsSound (first_settled now) s enabled h =
      on_first_settled-IsSound cpus resolved path now s enabled.1 h
  set_step-IsSound (verify_called start boundary now host) s enabled h =
      verify-IsSound cpus resolved start boundary now host s h
  set_step-IsSound (stop_called reason) s enabled h = stop-IsSound cpus reason s enabled.1 h
  set_step-IsSound (all_settled start reason now) s enabled h =
      settle_stop-IsSound cpus
        (parse_stop builds resolved start (stop_record builds resolved reason now s)) s enabled.3
        (asked_is_down cpus s reason enabled.0 h) h

  -- In every state that a worker set reaches, in whatever order its workers, its callers and the signal
  -- act: while it starts or runs, nothing has failed, stop has not been called, and no worker has
  -- ended or been told to; when it runs, every worker was ready before it ended, with a witness of its own CPU;
  -- once it neither starts nor runs, every worker is told to end; an invalid set has a failure code;
  -- and the workers are those of the CPUs.
  pub Reachable-IsSound :
      {has_signal : Bool} (s : WorkerSet Lifecycle)
      → Reachable builds resolved path cpus has_signal s
      → IsSound cpus s
  Reachable-IsSound s at_start = new_set-IsSound _
  Reachable-IsSound s (after e {s = earlier} reached enabled) =
      set_step-IsSound e earlier enabled (Reachable-IsSound earlier reached)
