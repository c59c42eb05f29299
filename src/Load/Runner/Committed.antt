-- ===== src/Load/Runner/Committed.antt =====
-- What a session that is committed has shown.
use fault_affinity.Prelude.{
  ◌≡◌, refl, sym, ap₂, ◌∙◌, ◌⊎◌, inl, inr, Bool, true, false, Option, Outcome, none, some, ok,
  throw, subst, bind_returns, then_returns, ok_inj, Outcome-cases,
}
use fault_affinity.Text.{Text}
use fault_affinity.Load.Managed.{ManagedResult}
use fault_affinity.Load.Workers.{ResolvedLoad, StartEvidence, BoundaryEvidence, StopEvidence}
use fault_affinity.Load.Session.{leg_a1, leg_b, leg_a2, SessionManifest, parse_session_manifest}
use fault_affinity.Load.Session.Bounds.{parse_session_manifest-InBounds}
use fault_affinity.Load.Envelope.{
  MeasuredEvidences, LoadDigests, SessionEnvelope, LegTimes, ConditionTimes,
  validate_session_envelope,
}
use fault_affinity.Load.Envelope.Order.{IsTimely, AreWholeLegs, IsAroundB}
use fault_affinity.Load.Envelope.Sound.{IsCondition, validate_session_envelope_sound}
use fault_affinity.Load.Build.{Attempts, bound_leg, bound_condition, build_session_envelope}
use fault_affinity.Load.Runner.{
  Driver, Measuring, WholeCondition, SessionResult, conclude, run_session,
}
use fault_affinity.Load.Runner.Course.{IsCourse}
use fault_affinity.Load.Runner.Endings.{IsDriver, run_session_ends}

module _ {Evidence Lifecycle : Type 0} (evidences : MeasuredEvidences Evidence)
    (builds : ManagedResult Lifecycle → Bool) (digests : LoadDigests Lifecycle)
    (measured auxiliary : ResolvedLoad) where
  build_session_envelope-valid :
      (manifest : SessionManifest) (attempts : Attempts Evidence) (start : StartEvidence)
      (before after : BoundaryEvidence) (stop : StopEvidence Lifecycle)
      {envelope : SessionEnvelope Evidence Lifecycle}
      → build_session_envelope evidences builds digests measured auxiliary manifest attempts start
          before after stop
        ≡ ok envelope
      → validate_session_envelope evidences builds digests measured auxiliary manifest envelope
        ≡ ok tt
  unfolding build_session_envelope
  build_session_envelope-valid manifest attempts start before after stop {envelope} h =
      let (parsed, read, h₁) =
        bind_returns (parse_session_manifest digests.identity_sha256 measured auxiliary manifest) _
          h in
      let (_, _, h₂) =
        bind_returns
          (bound_leg evidences builds digests measured auxiliary parsed 0 leg_a1 attempts.a1) _
          h₁ in
      let (_, _, h₃) =
        bind_returns
          (bound_leg evidences builds digests measured auxiliary parsed 1 leg_b attempts.b) _ h₂ in
      let (_, _, h₄) =
        bind_returns
          (bound_leg evidences builds digests measured auxiliary parsed 2 leg_a2 attempts.a2) _
          h₃ in
      let (_, _, h₅) =
        bind_returns
          (bound_condition evidences builds digests measured auxiliary start before after stop) _
          h₄ in
      let (valid, last) =
        then_returns
          (validate_session_envelope evidences builds digests measured auxiliary parsed _) _ h₅ in
      let (_, _, _, _, _, same) =
        parse_session_manifest-InBounds digests.identity_sha256 measured auxiliary manifest read in
      ap₂ (validate_session_envelope evidences builds digests measured auxiliary) (sym same)
        (sym (ok_inj last))
      ∙ valid

-- Of no predicate but the one that always holds is anything asked.
any_driver :
    {World Result Lifecycle : Type 0} {driver : Driver World Result Lifecycle}
    → IsDriver driver (λ _. Unit {0})
any_driver = record {
  attempt = λ _ _. tt;
  wait = λ _ _ _. tt;
  start = λ _ _ _. tt;
  stop = λ _ _. tt;
}

module _ {World Result Evidence Lifecycle : Type 0} (driver : Driver World Result Lifecycle)
    (evidences : MeasuredEvidences Evidence) (measuring : Measuring Evidence Result)
    (builds : ManagedResult Lifecycle → Bool) (digests : LoadDigests Lifecycle)
    (measured auxiliary : ResolvedLoad) (manifest : SessionManifest) where
  -- Either the session is rejected, or it is not committed and has no envelope, or it is committed
  -- after a whole course, with the envelope that is built of what it recorded.
  abbrev pub IsHonest :
      World → Outcome (Option Text) (SessionResult Evidence Lifecycle) × World → Type 0
  IsHonest w (throw code, last) = Unit {0}
  IsHonest w (ok result, last) =
      ((result.committed ≡ false) × (result.envelope ≡ none))
      ⊎ ((result.committed ≡ true)
          × (whole : WholeCondition Lifecycle) × (envelope : SessionEnvelope Evidence Lifecycle)
          × IsCourse driver evidences measuring manifest w result.attempts whole last
          × (result.envelope ≡ some envelope)
          × (build_session_envelope evidences builds digests measured auxiliary manifest
                result.attempts whole.start whole.before whole.after whole.stop
              ≡ ok envelope))

  conclude-IsHonest :
      (w : World) (attempts : Attempts Evidence) (whole : WholeCondition Lifecycle) (last : World)
      → IsCourse driver evidences measuring manifest w attempts whole last
      → IsHonest w (
        ok (
            conclude driver evidences measuring builds digests measured auxiliary manifest attempts
              whole),
        last,
      )
  unfolding conclude
  conclude-IsHonest w attempts whole last course =
      let built =
        build_session_envelope evidences builds digests measured auxiliary manifest attempts
          whole.start whole.before whole.after whole.stop in
      elim (Outcome-cases built) [
        | inl (e, h) ↦ rw (h, conclude) (inl (refl, refl))
        | inr (envelope, h) ↦ rw (h, conclude) (inr (refl, whole, envelope, course, refl, h))
      ]

  run_session-IsHonest :
      (w : World)
      → IsHonest w
          (run_session driver evidences measuring builds digests measured auxiliary manifest w)
  run_session-IsHonest w =
      run_session_ends driver evidences measuring builds digests measured auxiliary manifest
        (λ _. Unit {0}) any_driver (λ e. IsHonest w e) (λ _ _ _ _ _ _ _. inl (refl, refl))
        (λ _ _ _. tt) w tt
        (λ attempts whole last course _. conclude-IsHonest w attempts whole last course)

  -- Where no accepted evidence is of an attempt that is cleaned up before it starts, a session that is
  -- committed has made its calls in this order, each with success: all attempts of A1, and only then
  -- the start of the worker set; the warm-up, the verification before B, all attempts of B, the
  -- verification after B, the stop as planned; the recovery interval, and all attempts of A2. Its
  -- envelope is built of what these calls returned, and has three whole legs on the target CPU alone,
  -- with a worker set on the manifest's CPUs that was ready after A1, verified around all of B, and
  -- stopped for the recovery interval before A2. A session that has a result and is not committed has
  -- no envelope.
  pub run_session_committed :
      (w : World) {result : SessionResult Evidence Lifecycle}
      → IsTimely evidences
      → (run_session driver evidences measuring builds digests measured auxiliary manifest w).0
        ≡ ok result
      → let last =
          (run_session driver evidences measuring builds digests measured auxiliary manifest w).1 in
        ((result.committed ≡ false) × (result.envelope ≡ none))
        ⊎ ((result.committed ≡ true)
            × (whole : WholeCondition Lifecycle) × (envelope : SessionEnvelope Evidence Lifecycle)
            × (legs : LegTimes) × (times : ConditionTimes) × IsCourse driver evidences measuring
                manifest w result.attempts whole last
            × (result.envelope ≡ some envelope)
            × (build_session_envelope evidences builds digests measured auxiliary manifest
                  result.attempts whole.start whole.before whole.after whole.stop
                ≡ ok envelope)
            × AreWholeLegs evidences manifest envelope.legs legs
            × IsCondition builds digests auxiliary manifest envelope.condition times
            × IsAroundB evidences manifest legs times)
  run_session_committed w {result} timely h =
      let ended =
        run_session driver evidences measuring builds digests measured auxiliary manifest w in
      let honest : IsHonest w (ok result, ended.1) =
        subst (λ o. IsHonest w (o, ended.1)) h (run_session-IsHonest w) in
      elim honest [
        | inl failed ↦ inl failed
        | inr (committed, whole, envelope, course, has, built) ↦
            let valid =
              build_session_envelope-valid evidences builds digests measured auxiliary manifest
                result.attempts whole.start whole.before whole.after whole.stop built in
            let (legs, times, legs_whole, condition, around) =
              validate_session_envelope_sound evidences builds digests measured auxiliary manifest
                envelope timely valid in
            inr (
              committed, whole, envelope, legs, times, course, has, built, legs_whole, condition,
              around,
            )
      ]
