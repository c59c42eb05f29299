-- ===== src/Load/Runner/Stopped.antt =====
-- No worker runs on when a session ends, whichever way it ends.
use fault_affinity.Prelude.{Bool}
use fault_affinity.Load.Managed.{ManagedResult}
use fault_affinity.Load.Workers.{ResolvedLoad}
use fault_affinity.Load.Session.{SessionManifest}
use fault_affinity.Load.Envelope.{MeasuredEvidences, LoadDigests}
use fault_affinity.Load.Runner.Endings.{IsDriver, run_session_ends}
use fault_affinity.Load.Runner.{Driver, Measuring, run_session}

module _ {World Result Evidence Lifecycle : Type 0} (driver : Driver World Result Lifecycle)
    (evidences : MeasuredEvidences Evidence) (measuring : Measuring Evidence Result)
    (builds : ManagedResult Lifecycle → Bool) (digests : LoadDigests Lifecycle)
    (measured auxiliary : ResolvedLoad) (manifest : SessionManifest) (P : World → Type 0)
    (safe : IsDriver driver P) where
  -- Where a stop leaves no worker running, also one that throws, a start that throws leaves none
  -- either, and attempts and waits start none, no worker runs when a session ends, at whichever of its
  -- stages it fails, whichever of its calls throw, and also where its recovery wait rejects and the
  -- session with it.
  pub run_session_stopped :
      (w : World)
      → P w
      → P (run_session driver evidences measuring builds digests measured auxiliary manifest w).1
  run_session_stopped w down =
      run_session_ends driver evidences measuring builds digests measured auxiliary manifest P safe
        (λ e. P e.1) (λ _ _ _ _ _ w stopped. stopped) (λ _ w stopped. stopped) w down
        (λ _ _ _ _ stopped. stopped)
