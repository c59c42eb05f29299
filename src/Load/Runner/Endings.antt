-- ===== src/Load/Runner/Endings.antt =====
-- The ways in which a session ends: what holds of each of them holds of the session.
use fault_affinity.Prelude.{
  ℕ, zero, suc, ◌≡◌, ◌∙◌, ap, sym, none, some, Outcome, ok, arith, refl, ◌⊎◌, inl, inr, Bool, true,
  false, List, Option, not, ◌||◌, throw, Bool-cases, Option-cases, Outcome-cases,
}
use fault_affinity.Text.{Text, codes}
use fault_affinity.ExactCpu.Envelope.{AffinityWitness}
use fault_affinity.Load.Managed.{ManagedResult}
use fault_affinity.Load.Workers.{ResolvedLoad, StartEvidence, BoundaryEvidence}
use fault_affinity.Load.Session.{SessionManifest}
use fault_affinity.Load.Envelope.{MeasuredEvidences, LoadDigests}
use fault_affinity.Load.Build.{Recorded, Attempts}
use fault_affinity.Load.Runner.Course.{IsLeg, Recovers, Stops, Compares, Loads, IsCourse}
use fault_affinity.Load.Runner.{
  canceled, Driver, Measuring, LegFailure, Judged, refused, rejected, kept, RunCondition,
  WholeCondition, judge, run_leg, stop_and_fail, run_recovery, after_stop, run_stop, run_b,
  run_load, run_session, SessionResult, failed_session, conclude,
}

Judged-cases :
    {Evidence : Type 0} (j : Judged Evidence)
    → ((f : LegFailure) × (j ≡ refused f))
      ⊎ (((f : LegFailure) × (e : Evidence) × (j ≡ rejected f e))
          ⊎ ((e : Evidence) × (a : AffinityWitness) × (j ≡ kept e a)))
Judged-cases (refused f) = inl (f, refl)
Judged-cases (rejected f e) = inr (inl (f, e, refl))
Judged-cases (kept e a) = inr (inr (e, a, refl))

-- `P w`: no worker runs in the world w. A start that throws leaves none, and neither does a stop, also
-- one that throws; attempts and waits start none.
pub record IsDriver {World Result Lifecycle : Type 0} (driver : Driver World Result Lifecycle)
    (P : World → Type 0) : Type 0 where
  pub attempt : (w : World) → P w → P (driver.run_attempt w).1
  pub wait : (ms : ℕ) (w : World) → P w → P (driver.wait ms w).1
  pub start :
      (w : World) {code : Option Text}
      → P w
      → (driver.start_worker_set w).0 ≡ throw code
      → P (driver.start_worker_set w).1
  pub stop : (reason : Text) (w : World) → P (driver.stop reason w).1

module _ {World Result Evidence Lifecycle : Type 0} (driver : Driver World Result Lifecycle)
    (evidences : MeasuredEvidences Evidence) (measuring : Measuring Evidence Result)
    (builds : ManagedResult Lifecycle → Bool) (digests : LoadDigests Lifecycle)
    (measured auxiliary : ResolvedLoad) (manifest : SessionManifest) (P : World → Type 0)
    (safe : IsDriver driver P)
    (R : Outcome (Option Text) (SessionResult Evidence Lifecycle) × World → Type 0)
    (fails : (reason stage : Text) (code : Option Text) (attempts : Attempts Evidence)
        (condition : RunCondition Lifecycle) (w : World)
      → P w
      → R (
        ok (
            failed_session driver evidences measuring builds digests measured auxiliary manifest
              reason stage code attempts condition),
        w,
      ))
    (rejects : (code : Option Text) (w : World) → P w → R (throw code, w)) where
  -- What is to be shown where a session comes to its conclusion.
  abbrev Concludes : Attempts Evidence → WholeCondition Lifecycle → World → Type 0
  Concludes attempts whole last =
      P last
      → R (
        ok (
            conclude driver evidences measuring builds digests measured auxiliary manifest attempts
              whole),
        last,
      )

  run_leg_stopped :
      (n : ℕ) (w : World)
      → P w
      → P (run_leg driver evidences measuring builds digests measured auxiliary manifest n w).1
  unfolding run_leg
  run_leg_stopped zero w down = down
  run_leg_stopped (suc n) w down = elim (Bool-cases (driver.is_aborted w)) [
    | inl e ↦ rw (e, run_leg) down
    | inr e ↦
        let (result, w₁) = driver.run_attempt w in
        let next = safe.attempt w down in
        elim (Judged-cases (judge evidences measuring manifest result)) [
          | inl (failure, j) ↦ rw (e, run_leg, j) next
          | inr (inl (failure, evidence, j)) ↦ rw (e, run_leg, j) next
          | inr (inr (evidence, affinity, j)) ↦ rw (e, run_leg, j) (run_leg_stopped n w₁ next)
        ]
  ]

  run_leg-IsLeg :
      (n : ℕ) (w : World)
      → let leg =
          run_leg driver evidences measuring builds digests measured auxiliary manifest n w in
        leg.0.0 ≡ none → IsLeg driver evidences measuring manifest n w leg.0.1 leg.1
  unfolding run_leg
  run_leg-IsLeg zero w h = refl
  run_leg-IsLeg (suc n) w h = elim (Bool-cases (driver.is_aborted w)) [
    | inl e ↦ (let held : some canceled ≡ none = rw (e, run_leg) at h in absurd (cc held))
    | inr e ↦
        let (result, w₁) = driver.run_attempt w in
        elim (Judged-cases (judge evidences measuring manifest result)) [
          | inl (failure, j) ↦
              (let held : some failure ≡ none = rw (e, run_leg, j) at h in absurd (cc held))
          | inr (inl (failure, evidence, j)) ↦
              (let held : some failure ≡ none = rw (e, run_leg, j) at h in absurd (cc held))
          | inr (inr (evidence, affinity, j)) ↦
              let held = rw (e, run_leg, j) at h in
              rw (e, run_leg, j) (e, evidence, affinity, j, refl, run_leg-IsLeg n w₁ held)
        ]
  ]

  run_recovery_ends :
      (a1 b : List (Recorded Evidence)) (whole : WholeCondition Lifecycle) (w : World)
      → P w
      → ((a2 : List (Recorded Evidence)) (last : World)
          → Recovers driver evidences measuring manifest w a2 last
          → Concludes (record { a1 = a1; b = b; a2 = a2 }) whole last)
      → R (
          run_recovery driver evidences measuring builds digests measured auxiliary manifest a1 b
            whole w)
  unfolding run_recovery
  run_recovery_ends a1 b whole w down concludes =
      let (recovered, w₁) = driver.wait manifest.schedule.identity.recovery_ms w in
      let next = safe.wait manifest.schedule.identity.recovery_ms w down in
      let n = manifest.schedule.identity.attempts_per_leg in
      let leg =
        run_leg driver evidences measuring builds digests measured auxiliary manifest n w₁ in
      let last = run_leg_stopped n w₁ next in
      elim (Outcome-cases recovered) [
        | inl (code, h) ↦ rw (h, run_recovery) (rejects code w₁ next)
        | inr (lasted, h) ↦ elim (Bool-cases (not lasted || driver.is_aborted w₁)) [
          | inl e ↦ rw (h, run_recovery, e) (fails _ _ _ _ _ w₁ next)
          | inr e ↦ elim (Option-cases leg.0.0) [
            | inl f ↦
                let course : Recovers driver evidences measuring manifest w leg.0.1 leg.1 = record {
                  recovered = h ∙ ap ok (ground arith);
                  unaborted = ground arith;
                  ran = run_leg-IsLeg n w₁ f;
                } in
                rw (h, run_recovery, e, f) (concludes leg.0.1 leg.1 course last)
            | inr (found, f) ↦ rw (h, run_recovery, e, f) (fails _ _ _ _ _ leg.1 last)
          ]
        ]
      ]

  after_stop_ends :
      (valid : Bool) (a1 b : List (Recorded Evidence)) (whole : WholeCondition Lifecycle)
      (w : World)
      → P w
      → (valid ≡ true
          → (a2 : List (Recorded Evidence)) (last : World)
          → Recovers driver evidences measuring manifest w a2 last
          → Concludes (record { a1 = a1; b = b; a2 = a2 }) whole last)
      → R (
          after_stop driver evidences measuring builds digests measured auxiliary manifest valid a1
            b whole w)
  after_stop_ends true a1 b whole w down concludes =
      run_recovery_ends a1 b whole w down (concludes refl)
  after_stop_ends false a1 b whole w down concludes = fails _ _ _ _ _ w down

  stop_and_fail_ends :
      (reason stage : Text) (code : Option Text) (attempts : Attempts Evidence)
      (condition : RunCondition Lifecycle) (w : World)
      → R (
          stop_and_fail driver evidences measuring builds digests measured auxiliary manifest reason
            stage code attempts condition w)
  stop_and_fail_ends reason stage code attempts condition w =
      let (found, w₁) = driver.stop (codes "session-invalid") w in
      elim (Outcome-cases found) [
        | inl (e, h) ↦
            rw (h, stop_and_fail) (fails _ _ _ _ _ _ (safe.stop (codes "session-invalid") w₁))
        | inr (evidence, h) ↦
            rw (h, stop_and_fail) (fails _ _ _ _ _ _ (safe.stop (codes "session-invalid") w))
      ]

  run_stop_ends :
      (a1 b : List (Recorded Evidence)) (start : StartEvidence) (before : BoundaryEvidence)
      (w : World)
      → ((whole : WholeCondition Lifecycle) (a2 : List (Recorded Evidence)) (last : World)
          → whole.start ≡ start
          → whole.before ≡ before
          → Stops driver evidences measuring manifest w whole a2 last
          → Concludes (record { a1 = a1; b = b; a2 = a2 }) whole last)
      → R (
          run_stop driver evidences measuring builds digests measured auxiliary manifest a1 b start
            before w)
  unfolding run_stop
  run_stop_ends a1 b start before w concludes =
      let (after, w₁) = driver.verify (codes "after-b") w in
      elim (Outcome-cases after) [
        | inl (e, h) ↦ rw (h, run_stop) (fails _ _ _ _ _ _ (safe.stop (codes "session-invalid") w₁))
        | inr (found, h) ↦
            let (stopped, w₂) = driver.stop (codes "complete") w₁ in
            elim (Outcome-cases stopped) [
              | inl (e, k) ↦
                  rw (h, run_stop, k) (fails _ _ _ _ _ _ (safe.stop (codes "session-invalid") w₂))
              | inr (stop, k) ↦
                  let whole : WholeCondition Lifecycle = record {
                    start = start;
                    before = before;
                    after = found;
                    stop = stop;
                  } in
                  rw (h, run_stop, k)
                    (after_stop_ends stop.valid a1 b whole w₂ (safe.stop (codes "complete") w₁)
                      (λ valid a2 last course.
                        concludes whole a2 last refl refl
                          (record { verified = h; stopped = k; valid = valid; later = course })))
            ]
      ]

  run_b_ends :
      (a1 : List (Recorded Evidence)) (start : StartEvidence) (w : World)
      → ((b : List (Recorded Evidence)) (whole : WholeCondition Lifecycle)
            (a2 : List (Recorded Evidence)) (last : World)
          → whole.start ≡ start
          → Compares driver evidences measuring manifest w b whole a2 last
          → Concludes (record { a1 = a1; b = b; a2 = a2 }) whole last)
      → R (run_b driver evidences measuring builds digests measured auxiliary manifest a1 start w)
  unfolding run_b
  run_b_ends a1 start w concludes =
      let (before, w₁) = driver.verify (codes "before-b") w in
      elim (Outcome-cases before) [
        | inl (e, h) ↦ rw (h, run_b) (fails _ _ _ _ _ _ (safe.stop (codes "session-invalid") w₁))
        | inr (found, h) ↦
            let n = manifest.schedule.identity.attempts_per_leg in
            let leg =
              run_leg driver evidences measuring builds digests measured auxiliary manifest n w₁ in
            elim (Option-cases leg.0.0) [
              | inl f ↦
                  rw (h, run_b, f)
                    (run_stop_ends a1 leg.0.1 start found leg.1
                      (λ whole a2 last same_start same_before course.
                        concludes leg.0.1 whole a2 last same_start (record {
                          verified = h ∙ ap ok (sym same_before);
                          after_b = leg.1;
                          ran = run_leg-IsLeg n w₁ f;
                          later = course;
                        })))
              | inr (failed, f) ↦
                  rw (h, run_b, f)
                    (stop_and_fail_ends failed.reason (codes "b") failed.error_code _ _ leg.1)
            ]
      ]

  run_load_ends :
      (a1 : List (Recorded Evidence)) (w : World)
      → P w
      → ((b : List (Recorded Evidence)) (whole : WholeCondition Lifecycle)
            (a2 : List (Recorded Evidence)) (last : World)
          → Loads driver evidences measuring manifest w b whole a2 last
          → Concludes (record { a1 = a1; b = b; a2 = a2 }) whole last)
      → R (run_load driver evidences measuring builds digests measured auxiliary manifest a1 w)
  unfolding run_load
  run_load_ends a1 w down concludes =
      let (started, w₁) = driver.start_worker_set w in
      elim (Outcome-cases started) [
        | inl (e, h) ↦ rw (h, run_load) (fails _ _ _ _ _ _ (safe.start w down h))
        | inr (start, h) ↦
            let (warmed, w₂) = driver.wait manifest.schedule.identity.warmup_ms w₁ in
            elim (Outcome-cases warmed) [
              | inl (code, k) ↦
                  rw (h, run_load, k) (fails _ _ _ _ _ _ (safe.stop (codes "session-invalid") w₂))
              | inr (lasted, k) ↦ elim (Bool-cases (not lasted || driver.is_aborted w₂)) [
                | inl e ↦ rw (h, run_load, k, e) (stop_and_fail_ends _ _ _ _ _ w₂)
                | inr e ↦
                    rw (h, run_load, k, e)
                      (run_b_ends a1 start w₂ (λ b whole a2 last same course.
                        concludes b whole a2 last (record {
                          started = h ∙ ap ok (sym same);
                          warmed = k ∙ ap ok (ground arith);
                          unaborted = ground arith;
                          later = course;
                        })))
              ]
            ]
      ]

  -- What holds of every failure, and of every conclusion of a whole course, holds of the session.
  pub run_session_ends :
      (w : World)
      → P w
      → ((attempts : Attempts Evidence) (whole : WholeCondition Lifecycle) (last : World)
          → IsCourse driver evidences measuring manifest w attempts whole last
          → Concludes attempts whole last)
      → R (run_session driver evidences measuring builds digests measured auxiliary manifest w)
  unfolding run_session
  run_session_ends w down concludes =
      let n = manifest.schedule.identity.attempts_per_leg in
      let leg = run_leg driver evidences measuring builds digests measured auxiliary manifest n w in
      let next = run_leg_stopped n w down in
      elim (Option-cases leg.0.0) [
        | inl f ↦
            rw (f, run_session)
              (run_load_ends leg.0.1 leg.1 next (λ b whole a2 last course.
                concludes (record { a1 = leg.0.1; b = b; a2 = a2 }) whole last
                  (record { after_a1 = leg.1; ran = run_leg-IsLeg n w f; later = course })))
        | inr (found, f) ↦ rw (f, run_session) (fails _ _ _ _ _ leg.1 next)
      ]
