-- ===== src/Load/WorkerSet/Stopped.antt =====
-- What the stop evidence of a worker set says of its workers.
use fault_affinity.Prelude.{◌≡◌, Bool, true, Option, some, Outcome, ok}
use fault_affinity.Text.{Text}
use fault_affinity.Load.Managed.{ManagedResult, is_valid_stop, parse_managed_result}
use fault_affinity.Load.Workers.{ResolvedLoad}
use fault_affinity.Load.WorkerSet.{Worker, WorkerSet}

module _ {Lifecycle : Type 0} (builds : ManagedResult Lifecycle → Bool)
    (resolved : ResolvedLoad) where
  -- A run that gave a managed result which its parser accepts, of a worker that was canceled, cleaned
  -- up and drained.
  abbrev pub IsCleanStop : Outcome (Option Text) (ManagedResult Lifecycle) → Type 0
  IsCleanStop completion =
      (result : ManagedResult Lifecycle) × (completion ≡ ok result)
      × (parse_managed_result builds resolved.digest result ≡ ok result)
      × (is_valid_stop result ≡ true)

  abbrev pub StoppedCleanly : Worker Lifecycle → Type 0
  StoppedCleanly w =
      (completion : Outcome (Option Text) (ManagedResult Lifecycle)) × (w.completion
        ≡ some completion)
      × IsCleanStop completion
