-- ===== src/Baseline/Waves/Extension.antt =====
-- The prefix after a committed wave.
use fault_affinity.Prelude.{
  ℕ, ◌+◌, ◌<◌, ◌≡◌, refl, sym, ◌∙◌, ap, subst, inl, inr, false, List, [], ◌∷◌, ◌++◌, Option, none,
  Option-cases, length, array_from, ◌==◌, Bool-cases, Outcome, ok, require, bind_returns,
  then_returns, ok_inj, arith,
}
use fault_affinity.Text.{Text}
use fault_affinity.ExactCpu.Phase.{Resolved}
use fault_affinity.ExactCpu.Envelope.{Evidences}
use fault_affinity.Baseline.Manifest.{
  BaselineError, bad_attempt_count, baseline_phase, canonical_integer, baseline_binding,
  WaveIdentity, WaveManifest, validate_wave_manifest,
}
use fault_affinity.Baseline.Waves.{
  WaveEnvelope, WaveProgress, Settled, WaveAttempted, phase_complete, wave_failed, wave_committed,
  expected_slot, settle, is_failure, first_failure, evidence_of, bind_attempts,
  validate_wave_envelope, build_wave_envelope, assess_waves, assessed_waves, run_wave, attempt_wave,
  run_next_wave, run_next_baseline_wave,
}
use fault_affinity.Baseline.Waves.Numbering.{assess_waves_sound, extended_waves}
use fault_affinity.Baseline.Waves.Failures.{IsSettling, first_failure_iff}

module _ {Evidence Result : Type 0} (evidences : Evidences Evidence Result) (resolved : Resolved)
    (manifest : WaveManifest) where
  build_wave_envelope_sound :
      (schedule : WaveIdentity) (wave : ℕ) (values : List (Option Evidence))
      {envelope : WaveEnvelope Evidence}
      → build_wave_envelope evidences resolved manifest schedule wave values ≡ ok envelope
      → (envelope.ordinal ≡ wave)
        × (validate_wave_envelope evidences resolved manifest schedule envelope ≡ ok tt)
  unfolding build_wave_envelope
  build_wave_envelope_sound schedule wave values {envelope} h =
      let (_, h₁) = then_returns (canonical_integer wave schedule.waves) _ h in
      let (_, h₂) =
        then_returns (require (length values == schedule.children_per_wave) bad_attempt_count) _
          h₁ in
      let (attempts, _, h₃) = bind_returns (bind_attempts evidences schedule wave 0 values) _ h₂ in
      let (workload, _, h₄) = bind_returns (baseline_binding resolved) _ h₃ in
      let made : WaveEnvelope Evidence = record {
        version = 1;
        phase = baseline_phase;
        generation = manifest.generation;
        workload = workload;
        schedule_digest = manifest.schedule.digest;
        ordinal = wave;
        child_count = schedule.children_per_wave;
        attempts = attempts;
      } in
      let (valid, last) =
        then_returns (validate_wave_envelope evidences resolved manifest schedule made) _ h₄ in
      subst
        (λ (e : WaveEnvelope Evidence).
          (e.ordinal ≡ wave)
          × (validate_wave_envelope evidences resolved manifest schedule e ≡ ok tt))
        (ok_inj last) (refl, valid)

  committed_wave :
      {wave wave' : ℕ} {a b : WaveEnvelope Evidence}
      → ◌≡◌ {A = Outcome BaselineError (WaveAttempted Evidence)}
          (ok (wave_committed wave a))
          (ok (wave_committed wave' b))
      → (wave ≡ wave') × (a ≡ b)
  committed_wave {wave} {a} e =
      let inner = ok_inj e in
      (
        ap (λ (r : WaveAttempted Evidence). elim r [ wave_committed w v ↦ w | _ ↦ wave ]) inner,
        ap (λ (r : WaveAttempted Evidence). elim r [ wave_committed w v ↦ v | _ ↦ a ]) inner,
      )

  -- Which children fail, and what they come to.
  abbrev pub settled_children :
      WaveIdentity → ℕ → (ℕ → Outcome (Option Text) Result) → ℕ → Settled Evidence
  settled_children schedule wave results index =
      settle evidences (expected_slot schedule wave (index + 1)) (results index)

  run_wave_sound :
      (schedule : WaveIdentity) (wave : ℕ) (results : ℕ → Outcome (Option Text) Result)
      (order : List ℕ) {committed : ℕ} {envelope : WaveEnvelope Evidence}
      → run_wave evidences resolved manifest schedule wave results order
        ≡ ok (wave_committed committed envelope)
      → (first_failure (settled_children schedule wave results) order ≡ none)
        × (committed ≡ wave)
        × (envelope.ordinal ≡ wave)
        × (validate_wave_envelope evidences resolved manifest schedule envelope ≡ ok tt)
  unfolding run_wave
  run_wave_sound schedule wave results order {committed} {envelope} h =
      elim (Option-cases (first_failure (settled_children schedule wave results) order)) [
        | inr (failure, e) ↦
            let ended : ok (wave_failed failure) ≡ ok (wave_committed committed envelope) =
              rw (e, run_wave) at h in
            absurd (cc ended)
        | inl e ↦
            let rest = rw (e, run_wave) at h in
            let (built, made, last) =
              bind_returns
                (build_wave_envelope evidences resolved manifest schedule wave (
                  array_from schedule.children_per_wave
                    (λ index. evidence_of (settled_children schedule wave results index))))
                _ rest in
            let (own, whole) = committed_wave last in
            let (placed, valid) = build_wave_envelope_sound schedule wave _ made in
            (
              e,
              sym own,
              subst (λ (v : WaveEnvelope Evidence). v.ordinal ≡ wave) whole placed,
              subst (λ v. validate_wave_envelope evidences resolved manifest schedule v ≡ ok tt)
                  whole valid,
            )
      ]

  -- What a committed wave establishes.
  pub record Extends (results : ℕ → Outcome (Option Text) Result)
      (values : List (WaveEnvelope Evidence)) (wave : ℕ) (envelope : WaveEnvelope Evidence)
      (schedule : WaveIdentity) : Type 0 where
    pub next : wave ≡ length values + 1
    pub longer :
        assess_waves evidences resolved manifest schedule (values ++ envelope ∷ [])
        ≡ ok (assessed_waves schedule (length values + 1))
    pub none_failed :
        (index : ℕ)
        → index < schedule.children_per_wave
        → is_failure (settled_children schedule wave results index) ≡ false

  next_wave_sound :
      (schedule : WaveIdentity) (results : ℕ → Outcome (Option Text) Result) (order : List ℕ)
      (values : List (WaveEnvelope Evidence)) {wave : ℕ} {envelope : WaveEnvelope Evidence}
      → attempt_wave evidences resolved manifest schedule
          (assessed_waves schedule (length values)).next_wave
          results
          order
        ≡ ok (wave_committed wave envelope)
      → ((length values == schedule.waves) ≡ false)
        × (run_wave evidences resolved manifest schedule (length values + 1) results order
            ≡ ok (wave_committed wave envelope))
  next_wave_sound schedule results order values {wave} {envelope} h =
      elim (Bool-cases (length values == schedule.waves)) [
        | inl t ↦
            let ended : ok phase_complete ≡ ok (wave_committed wave envelope) = rw t at h in
            absurd (cc ended)
        | inr f ↦
            let rest : run_wave evidences resolved manifest schedule (length values + 1) results
                  order
                ≡ ok (wave_committed wave envelope) =
              rw f at h in
            (f, rest)
      ]

  -- A committed wave is the one after the stored waves, with it the prefix is assessed again, one
  -- wave longer, and none of its children failed, in whatever order they settled.
  pub run_next_baseline_wave-Extends :
      (digest : WaveIdentity → Text) (schedule : WaveIdentity)
      (results : ℕ → Outcome (Option Text) Result) (order : List ℕ)
      (values : List (WaveEnvelope Evidence)) {wave : ℕ} {envelope : WaveEnvelope Evidence}
      → validate_wave_manifest digest resolved manifest ≡ ok schedule
      → IsSettling schedule.children_per_wave order
      → run_next_baseline_wave evidences digest resolved manifest results order values
        ≡ ok (wave_committed wave envelope)
      → Extends results values wave envelope schedule
  unfolding run_next_baseline_wave run_next_wave
  run_next_baseline_wave-Extends digest schedule results order values {wave} {envelope} m settling
        h =
      let (found, m', h₁) = bind_returns (validate_wave_manifest digest resolved manifest) _ h in
      let same : found ≡ schedule = ok_inj (sym m' ∙ m) in
      let h₂ =
        subst
          (λ s.
            run_next_wave evidences resolved manifest s results order values
            ≡ ok (wave_committed wave envelope))
          same h₁ in
      let (progress, p, h₃) =
        bind_returns (assess_waves evidences resolved manifest schedule values) _ h₂ in
      let (_, fits, whole) = assess_waves_sound evidences resolved manifest schedule values p in
      let (left, ran) = next_wave_sound schedule results order values (
        subst
          (λ (q : WaveProgress).
            attempt_wave evidences resolved manifest schedule q.next_wave results order
            ≡ ok (wave_committed wave envelope))
          whole h₃) in
      let (quiet, own, placed, valid) =
        run_wave_sound schedule (length values + 1) results order ran in
      let passed =
        (first_failure_iff (settled_children schedule (length values + 1) results)
            schedule.children_per_wave order settling).0
          quiet in
      record {
        next = own;
        longer =
            extended_waves evidences resolved manifest schedule values envelope p valid placed
              (ground arith);
        none_failed =
            subst
              (λ w.
                (index : ℕ)
                → index < schedule.children_per_wave
                → is_failure (settled_children schedule w results index) ≡ false)
              (sym own) passed;
      }
