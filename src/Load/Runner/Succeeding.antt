-- ===== src/Load/Runner/Succeeding.antt =====
-- A session whose calls all succeed comes to its envelope.
use fault_affinity.Prelude.{
  ℕ, zero, suc, ◌≡◌, refl, ap, Bool, true, false, List, Option, Outcome, ◌∙◌, sym, none, ok,
}
use fault_affinity.Text.{Text, codes}
use fault_affinity.ExactCpu.Envelope.{AffinityWitness}
use fault_affinity.Load.Managed.{ManagedResult}
use fault_affinity.Load.Workers.{ResolvedLoad, StartEvidence, BoundaryEvidence, StopEvidence}
use fault_affinity.Load.Session.{SessionManifest}
use fault_affinity.Load.Envelope.{MeasuredEvidences, LoadDigests}
use fault_affinity.Load.Build.{Recorded, Attempts}
use fault_affinity.Load.Runner.Course.{IsLeg, Recovers, Stops, Compares, Loads, IsCourse}
use fault_affinity.Load.Runner.{
  Driver, Measuring, kept, WholeCondition, SessionResult, judge, run_leg, conclude, run_recovery,
  after_stop, run_stop, run_b, run_load, run_session,
}

module _ {World Result Evidence Lifecycle : Type 0} (driver : Driver World Result Lifecycle)
    (evidences : MeasuredEvidences Evidence) (measuring : Measuring Evidence Result)
    (builds : ManagedResult Lifecycle → Bool) (digests : LoadDigests Lifecycle)
    (measured auxiliary : ResolvedLoad) (manifest : SessionManifest) where
  -- The signal is not aborted, each attempt is kept, and the worker set starts, is verified and stops as
  -- it should.
  pub record IsWilling : Type 0 where
    pub unaborted : (w : World) → driver.is_aborted w ≡ false
    pub keeps :
        (w : World)
        → (evidence : Evidence) × (affinity : AffinityWitness) × (judge evidences measuring manifest
              (driver.run_attempt w).0
            ≡ kept evidence affinity)
    pub waits : (ms : ℕ) (w : World) → (driver.wait ms w).0 ≡ ok true
    pub starts : (w : World) → (start : StartEvidence) × ((driver.start_worker_set w).0 ≡ ok start)
    pub verifies :
        (name : Text) (w : World)
        → (found : BoundaryEvidence) × ((driver.verify name w).0 ≡ ok found)
    pub stops :
        (reason : Text) (w : World)
        → (found : StopEvidence Lifecycle) × ((driver.stop reason w).0 ≡ ok found)
          × (found.valid ≡ true)

  run_leg_keeps :
      (willing : IsWilling) (n : ℕ) (w : World)
      → let leg =
          run_leg driver evidences measuring builds digests measured auxiliary manifest n w in
        (leg.0.0 ≡ none) × IsLeg driver evidences measuring manifest n w leg.0.1 leg.1
  unfolding run_leg
  run_leg_keeps willing zero w = (refl, refl)
  run_leg_keeps willing (suc n) w =
      let fine = willing.unaborted w in
      let (evidence, affinity, judged) = willing.keeps w in
      let (more, rest) = run_leg_keeps willing n (driver.run_attempt w).1 in
      (
        rw (fine, run_leg, judged) more,
        rw (fine, run_leg, judged) (fine, evidence, affinity, judged, refl, rest),
      )

  abbrev Ended : Type 0
  Ended = Outcome (Option Text) (SessionResult Evidence Lifecycle) × World

  abbrev Concluded : Attempts Evidence → WholeCondition Lifecycle → World → Ended → Type 0
  Concluded attempts whole last ended = ended ≡ (
    ok (
        conclude driver evidences measuring builds digests measured auxiliary manifest attempts
          whole),
    last,
  )

  run_recovery_concludes :
      (willing : IsWilling) (a1 b : List (Recorded Evidence)) (whole : WholeCondition Lifecycle)
      (w : World)
      → (a2 : List (Recorded Evidence)) × (last : World) × Recovers driver evidences measuring
          manifest w a2 last
        × Concluded
            (record { a1 = a1; b = b; a2 = a2 })
            whole
            last
            (run_recovery driver evidences measuring builds digests measured auxiliary manifest a1 b
              whole w)
  unfolding run_recovery
  run_recovery_concludes willing a1 b whole w =
      let n = manifest.schedule.identity.attempts_per_leg in
      let rest = manifest.schedule.identity.recovery_ms in
      let w₁ = (driver.wait rest w).1 in
      let leg =
        run_leg driver evidences measuring builds digests measured auxiliary manifest n w₁ in
      let (fine, ran) = run_leg_keeps willing n w₁ in
      (
        leg.0.1,
        leg.1,
        record { recovered = willing.waits rest w; unaborted = willing.unaborted w₁; ran = ran },
        rw (willing.waits rest w, run_recovery, willing.unaborted w₁, fine) refl,
      )

  after_stop_concludes :
      (willing : IsWilling) (valid : Bool) (a1 b : List (Recorded Evidence))
      (whole : WholeCondition Lifecycle) (w : World)
      → valid ≡ true
      → (a2 : List (Recorded Evidence)) × (last : World) × Recovers driver evidences measuring
          manifest w a2 last
        × Concluded
            (record { a1 = a1; b = b; a2 = a2 })
            whole
            last
            (after_stop driver evidences measuring builds digests measured auxiliary manifest valid
              a1 b whole w)
  after_stop_concludes willing true a1 b whole w e = run_recovery_concludes willing a1 b whole w
  after_stop_concludes willing false a1 b whole w e = cc

  run_stop_concludes :
      (willing : IsWilling) (a1 b : List (Recorded Evidence)) (start : StartEvidence)
      (before : BoundaryEvidence) (w : World)
      → (whole : WholeCondition Lifecycle) × (a2 : List (Recorded Evidence)) × (last : World)
        × (whole.start ≡ start)
        × (whole.before ≡ before)
        × Stops driver evidences measuring manifest w whole a2 last
        × Concluded
            (record { a1 = a1; b = b; a2 = a2 })
            whole
            last
            (run_stop driver evidences measuring builds digests measured auxiliary manifest a1 b
              start before w)
  unfolding run_stop
  run_stop_concludes willing a1 b start before w =
      let (after, verified) = willing.verifies (codes "after-b") w in
      let w₁ = (driver.verify (codes "after-b") w).1 in
      let (stop, stopped, valid) = willing.stops (codes "complete") w₁ in
      let whole : WholeCondition Lifecycle = record {
        start = start;
        before = before;
        after = after;
        stop = stop;
      } in
      let (a2, last, course, made) =
        after_stop_concludes willing stop.valid a1 b whole (driver.stop (codes "complete") w₁).1
          valid in
      (
        whole,
        a2,
        last,
        refl,
        refl,
        record { verified = verified; stopped = stopped; valid = valid; later = course },
        rw (verified, run_stop, stopped) made,
      )

  run_b_concludes :
      (willing : IsWilling) (a1 : List (Recorded Evidence)) (start : StartEvidence) (w : World)
      → (b : List (Recorded Evidence)) × (whole : WholeCondition Lifecycle) × (a2 : List
          (Recorded Evidence))
        × (last : World) × (whole.start ≡ start)
        × Compares driver evidences measuring manifest w b whole a2 last
        × Concluded
            (record { a1 = a1; b = b; a2 = a2 })
            whole
            last
            (run_b driver evidences measuring builds digests measured auxiliary manifest a1 start w)
  unfolding run_b
  run_b_concludes willing a1 start w =
      let n = manifest.schedule.identity.attempts_per_leg in
      let (before, verified) = willing.verifies (codes "before-b") w in
      let w₁ = (driver.verify (codes "before-b") w).1 in
      let leg =
        run_leg driver evidences measuring builds digests measured auxiliary manifest n w₁ in
      let (fine, ran) = run_leg_keeps willing n w₁ in
      let (whole, a2, last, same_start, same_before, course, made) =
        run_stop_concludes willing a1 leg.0.1 start before leg.1 in
      (
        leg.0.1,
        whole,
        a2,
        last,
        same_start,
        record {
          verified = verified ∙ ap ok (sym same_before);
          after_b = leg.1;
          ran = ran;
          later = course;
        },
        rw (verified, run_b, fine) made,
      )

  run_load_concludes :
      (willing : IsWilling) (a1 : List (Recorded Evidence)) (w : World)
      → (b : List (Recorded Evidence)) × (whole : WholeCondition Lifecycle) × (a2 : List
          (Recorded Evidence))
        × (last : World) × Loads driver evidences measuring manifest w b whole a2 last
        × Concluded
            (record { a1 = a1; b = b; a2 = a2 })
            whole
            last
            (run_load driver evidences measuring builds digests measured auxiliary manifest a1 w)
  unfolding run_load
  run_load_concludes willing a1 w =
      let warmup = manifest.schedule.identity.warmup_ms in
      let (start, started) = willing.starts w in
      let w₁ = (driver.start_worker_set w).1 in
      let w₂ = (driver.wait warmup w₁).1 in
      let (b, whole, a2, last, same_start, course, made) = run_b_concludes willing a1 start w₂ in
      (
        b,
        whole,
        a2,
        last,
        record {
          started = started ∙ ap ok (sym same_start);
          warmed = willing.waits warmup w₁;
          unaborted = willing.unaborted w₂;
          later = course;
        },
        rw (started, run_load, willing.waits warmup w₁, willing.unaborted w₂) made,
      )

  -- A session of a manifest, whose calls all succeed and whose signal is not aborted, makes them in this
  -- order: every attempt of A1, the start of the worker set, the warm-up, the verification before B,
  -- every attempt of B, the verification after B, the stop, the recovery interval and every attempt of
  -- A2; and it comes to the build of its envelope of what these calls returned.
  pub run_session_succeeds :
      (w : World)
      → IsWilling
      → (attempts : Attempts Evidence) × (whole : WholeCondition Lifecycle) × (last : World)
        × IsCourse driver evidences measuring manifest w attempts whole last
        × (run_session driver evidences measuring builds digests measured auxiliary manifest w ≡ (
          ok (
              conclude driver evidences measuring builds digests measured auxiliary manifest
                attempts whole),
          last,
        ))
  unfolding run_session
  run_session_succeeds w willing =
      let n = manifest.schedule.identity.attempts_per_leg in
      let leg = run_leg driver evidences measuring builds digests measured auxiliary manifest n w in
      let (fine, ran) = run_leg_keeps willing n w in
      let (b, whole, a2, last, course, made) = run_load_concludes willing leg.0.1 leg.1 in
      (
        record { a1 = leg.0.1; b = b; a2 = a2 },
        whole,
        last,
        record { after_a1 = leg.1; ran = ran; later = course },
        rw (fine, run_session) made,
      )
