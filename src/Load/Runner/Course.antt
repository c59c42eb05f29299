-- ===== src/Load/Runner/Course.antt =====
-- The calls that a whole session makes, one after another, each in the world that the one before it
-- left.
use fault_affinity.Prelude.{ℕ, zero, suc, ◌≡◌, true, false, List, [], ◌∷◌, some, ok}
use fault_affinity.Text.{codes}
use fault_affinity.ExactCpu.Envelope.{AffinityWitness}
use fault_affinity.Load.Session.{SessionManifest}
use fault_affinity.Load.Envelope.{MeasuredEvidences}
use fault_affinity.Load.Build.{Recorded, Attempts}
use fault_affinity.Load.Runner.{Driver, Measuring, kept, WholeCondition, judge}

module _ {World Result Evidence Lifecycle : Type 0} (driver : Driver World Result Lifecycle)
    (evidences : MeasuredEvidences Evidence) (measuring : Measuring Evidence Result)
    (manifest : SessionManifest) where
  -- `n` attempts from a world to another, each while the signal is not aborted, each kept and recorded.
  abbrev pub IsLeg : ℕ → World → List (Recorded Evidence) → World → Type 0
  IsLeg zero w [] last = (w ≡ last)
  IsLeg zero w (recorded ∷ rest) last = ⊥
  IsLeg (suc n) w [] last = ⊥
  IsLeg (suc n) w (recorded ∷ rest) last =
      (driver.is_aborted w ≡ false)
      × (evidence : Evidence) × (affinity : AffinityWitness) × (judge evidences measuring manifest
            (driver.run_attempt w).0
          ≡ kept evidence affinity)
      × (recorded ≡ record { evidence = evidence; affinity = some affinity })
      × IsLeg n (driver.run_attempt w).1 rest last

  -- The recovery interval, completed, and A2.
  pub record Recovers (w : World) (a2 : List (Recorded Evidence)) (last : World) : Type 0 where
    pub recovered : (driver.wait manifest.schedule.identity.recovery_ms w).0 ≡ ok true
    pub unaborted :
        driver.is_aborted (driver.wait manifest.schedule.identity.recovery_ms w).1 ≡ false
    pub ran :
        IsLeg manifest.schedule.identity.attempts_per_leg
          (driver.wait manifest.schedule.identity.recovery_ms w).1
          a2
          last

  -- The verification after B, and the stop.
  pub record Stops (w : World) (whole : WholeCondition Lifecycle) (a2 : List (Recorded Evidence))
      (last : World) : Type 0 where
    pub verified : (driver.verify (codes "after-b") w).0 ≡ ok whole.after
    pub stopped :
        (driver.stop (codes "complete") (driver.verify (codes "after-b") w).1).0 ≡ ok whole.stop
    pub valid : whole.stop.valid ≡ true
    pub later :
        Recovers (driver.stop (codes "complete") (driver.verify (codes "after-b") w).1).1 a2 last

  -- The verification before B, and B.
  pub record Compares (w : World) (b : List (Recorded Evidence)) (whole : WholeCondition Lifecycle)
      (a2 : List (Recorded Evidence)) (last : World) : Type 0 where
    pub verified : (driver.verify (codes "before-b") w).0 ≡ ok whole.before
    pub after_b : World
    pub ran :
        IsLeg manifest.schedule.identity.attempts_per_leg
          (driver.verify (codes "before-b") w).1
          b
          after_b
    pub later : Stops after_b whole a2 last

  -- The start of the worker set, and the warm-up, completed.
  pub record Loads (w : World) (b : List (Recorded Evidence)) (whole : WholeCondition Lifecycle)
      (a2 : List (Recorded Evidence)) (last : World) : Type 0 where
    pub started : (driver.start_worker_set w).0 ≡ ok whole.start
    pub warmed :
        (driver.wait manifest.schedule.identity.warmup_ms (driver.start_worker_set w).1).0 ≡ ok true
    pub unaborted :
        driver.is_aborted
          (driver.wait manifest.schedule.identity.warmup_ms (driver.start_worker_set w).1).1
        ≡ false
    pub later :
        Compares
          (driver.wait manifest.schedule.identity.warmup_ms (driver.start_worker_set w).1).1
          b
          whole
          a2
          last

  -- A1 before the worker set is started at all.
  pub record IsCourse (w : World) (attempts : Attempts Evidence) (whole : WholeCondition Lifecycle)
      (last : World) : Type 0 where
    pub after_a1 : World
    pub ran : IsLeg manifest.schedule.identity.attempts_per_leg w attempts.a1 after_a1
    pub later : Loads after_a1 attempts.b whole attempts.a2 last
