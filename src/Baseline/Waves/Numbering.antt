-- ===== src/Baseline/Waves/Numbering.antt =====
-- The waves of an assessed prefix, and a committed wave after them.
use fault_affinity.Prelude.{
  ℕ, ◌+◌, ◌-◌, ◌*◌, ◌≤◌, ◌<◌, ◌≡◌, refl, sym, ◌∙◌, ap, subst, true, List, [], ◌∷◌, ◌++◌, some,
  length, length-append, leb, leb→le, le→leb, ◌==◌, ==_iff, ◌&&◌, ok, require, present,
  bind_returns, then_returns, require_holds, present-some, ok_inj, arith,
}
use fault_affinity.Text.{text_eq}
use fault_affinity.ExactCpu.Phase.{Resolved}
use fault_affinity.ExactCpu.Envelope.{Evidences}
use fault_affinity.Baseline.Manifest.{
  bad_envelope_version, other_generation, other_schedule, bad_child_count, bad_attempt_count,
  bad_evidence, invalid_outcome, long_prefix, not_contiguous, baseline_phase, canonical_integer,
  validate_baseline_workload, WaveIdentity, WaveManifest,
}
use fault_affinity.Baseline.Waves.{
  WaveSlot, BoundAttempt, WaveEnvelope, WaveProgress, expected_slot, validate_wave_slot,
  validate_wave_binding, check_attempts, validate_wave_envelope, check_waves, assess_waves,
  assessed_waves,
}

-- The attempts take the numbers from `n` on, without a gap.
abbrev pub CountsFrom : {Evidence : Type 0} → ℕ → List (BoundAttempt Evidence) → Type 0
CountsFrom n [] = Unit
CountsFrom n (bound ∷ rest) = (bound.slot.ordinal ≡ n) × CountsFrom (n + 1) rest

slot_ordinal :
    (schedule : WaveIdentity) (slot : WaveSlot) (wave position : ℕ)
    → validate_wave_slot slot (expected_slot schedule wave position) ≡ ok tt
    → slot.ordinal ≡ (wave - 1) * schedule.children_per_wave + position
unfolding validate_wave_slot expected_slot
slot_ordinal schedule slot wave position h = ground arith

module _ {Evidence Result : Type 0} (evidences : Evidences Evidence Result) where
  -- The attempt's evidence parses to a valid outcome.
  abbrev pub IsValidAttempt : BoundAttempt Evidence → Type 0
  IsValidAttempt bound =
      (evidence : Evidence) × (evidences.parse bound.evidence ≡ some evidence)
      × (evidences.is_valid evidence ≡ true)

  abbrev pub AreValid : List (BoundAttempt Evidence) → Type 0
  AreValid [] = Unit
  AreValid (bound ∷ rest) = IsValidAttempt bound × AreValid rest

  check_attempts_sound :
      (schedule : WaveIdentity) (wave index : ℕ) (attempts : List (BoundAttempt Evidence))
      → check_attempts evidences schedule wave index attempts ≡ ok tt
      → CountsFrom ((wave - 1) * schedule.children_per_wave + index + 1) attempts
        × AreValid attempts
  unfolding check_attempts
  check_attempts_sound schedule wave index [] h = (tt, tt)
  check_attempts_sound schedule wave index (bound ∷ rest) h =
      let (slot, h₁) =
        then_returns (validate_wave_slot bound.slot (expected_slot schedule wave (index + 1))) _
          h in
      let (evidence, parsed, h₂) =
        bind_returns (present (evidences.parse bound.evidence) bad_evidence) _ h₁ in
      let (valid, h₃) = then_returns (require (evidences.is_valid evidence) invalid_outcome) _ h₂ in
      let (_, later) =
        then_returns (validate_wave_binding bound.binding (evidences.binding evidence)) _ h₃ in
      let (numbers, others) = check_attempts_sound schedule wave (index + 1) rest later in
      let first = slot_ordinal schedule bound.slot wave (index + 1) slot in
      (
        (omega (arith, first), subst (λ n. CountsFrom n rest) (omega arith) numbers),
        (
          (
            evidence,
            present-some (evidences.parse bound.evidence) bad_evidence parsed,
            require_holds _ invalid_outcome valid,
          ),
          others,
        ),
      )

  module _ (resolved : Resolved) (manifest : WaveManifest) (schedule : WaveIdentity) where
    -- Whole waves of valid attempts, numbered on from the waves before them.
    abbrev pub AreWaves : ℕ → List (WaveEnvelope Evidence) → Type 0
    AreWaves index [] = Unit
    AreWaves index (value ∷ rest) =
        (value.ordinal ≡ index + 1)
        × (length value.attempts ≡ schedule.children_per_wave)
        × CountsFrom (index * schedule.children_per_wave + 1) value.attempts
        × AreValid value.attempts
        × AreWaves (index + 1) rest

    envelope_sound :
        (value : WaveEnvelope Evidence)
        → validate_wave_envelope evidences resolved manifest schedule value ≡ ok tt
        → (length value.attempts ≡ schedule.children_per_wave)
          × (check_attempts evidences schedule value.ordinal 0 value.attempts ≡ ok tt)
    unfolding validate_wave_envelope
    envelope_sound value h =
        let (_, h₁) = then_returns (require (value.version == 1) bad_envelope_version) _ h in
        let (_, h₂) =
          then_returns
            (require
              (text_eq value.phase baseline_phase && text_eq value.generation manifest.generation)
              other_generation)
            _ h₁ in
        let (_, h₃) = then_returns (validate_baseline_workload resolved value.workload) _ h₂ in
        let (_, h₄) =
          then_returns
            (require (text_eq value.schedule_digest manifest.schedule.digest) other_schedule) _
            h₃ in
        let (_, h₅) = then_returns (canonical_integer value.ordinal schedule.waves) _ h₄ in
        let (_, h₆) =
          then_returns (require (value.child_count == schedule.children_per_wave) bad_child_count) _
            h₅ in
        let (size, checked) =
          then_returns
            (require (length value.attempts == schedule.children_per_wave) bad_attempt_count) _
            h₆ in
        ((==_iff _ _).0 (require_holds _ bad_attempt_count size), checked)

    check_waves_sound :
        (index : ℕ) (values : List (WaveEnvelope Evidence))
        → check_waves evidences resolved manifest schedule index values ≡ ok tt
        → AreWaves index values
    unfolding check_waves
    check_waves_sound index [] h = tt
    check_waves_sound index (value ∷ rest) h =
        let (valid, h₁) =
          then_returns (validate_wave_envelope evidences resolved manifest schedule value) _ h in
        let (next, later) =
          then_returns (require (value.ordinal == index + 1) not_contiguous) _ h₁ in
        let place : value.ordinal ≡ index + 1 =
          (==_iff _ _).0 (require_holds _ not_contiguous next) in
        let (size, checked) = envelope_sound value valid in
        let (numbers, attempts) =
          check_attempts_sound schedule value.ordinal 0 value.attempts checked in
        let before : value.ordinal - 1 ≡ index = omega (arith, place) in
        (
          place,
          size,
          subst (λ n. CountsFrom n value.attempts)
              (ap (λ w. w * schedule.children_per_wave + 0 + 1) before ∙ omega arith) numbers,
          attempts,
          check_waves_sound (index + 1) rest later,
        )

    -- A prefix that is assessed holds the first waves of the schedule: each has one valid attempt for
    -- every child, and the attempts of all waves are numbered from 1 without a gap.
    pub assess_waves_sound :
        (values : List (WaveEnvelope Evidence)) {progress : WaveProgress}
        → assess_waves evidences resolved manifest schedule values ≡ ok progress
        → AreWaves 0 values
          × (length values ≤ schedule.waves)
          × (progress ≡ assessed_waves schedule (length values))
    unfolding assess_waves
    assess_waves_sound values h =
        let (fits, h₁) =
          then_returns (require (leb (length values) schedule.waves) long_prefix) _ h in
        let (checked, last) =
          then_returns (check_waves evidences resolved manifest schedule 0 values) _ h₁ in
        (
          check_waves_sound 0 values checked,
          leb→le _ _ (require_holds _ long_prefix fits),
          sym (ok_inj last),
        )

    check_waves-append :
        (index : ℕ) (values : List (WaveEnvelope Evidence)) (last : WaveEnvelope Evidence)
        → check_waves evidences resolved manifest schedule index values ≡ ok tt
        → validate_wave_envelope evidences resolved manifest schedule last ≡ ok tt
        → last.ordinal ≡ index + length values + 1
        → check_waves evidences resolved manifest schedule index (values ++ last ∷ []) ≡ ok tt
    unfolding check_waves
    check_waves-append index [] last h valid next =
        rw (valid, (==_iff last.ordinal (index + 1)).1 (omega (arith, next))) refl
    check_waves-append index (value ∷ rest) last h valid next =
        let (valid_here, h₁) =
          then_returns (validate_wave_envelope evidences resolved manifest schedule value) _ h in
        let (next_here, later) =
          then_returns (require (value.ordinal == index + 1) not_contiguous) _ h₁ in
        rw (valid_here, next_here)
          (check_waves-append (index + 1) rest last later valid (omega (arith, next)))

    pub extended_waves :
        (values : List (WaveEnvelope Evidence)) (last : WaveEnvelope Evidence)
        {progress : WaveProgress}
        → assess_waves evidences resolved manifest schedule values ≡ ok progress
        → validate_wave_envelope evidences resolved manifest schedule last ≡ ok tt
        → last.ordinal ≡ length values + 1
        → length values < schedule.waves
        → assess_waves evidences resolved manifest schedule (values ++ last ∷ [])
          ≡ ok (assessed_waves schedule (length values + 1))
    unfolding assess_waves
    extended_waves values last h valid next room =
        let (_, h₁) = then_returns (require (leb (length values) schedule.waves) long_prefix) _ h in
        let (checked, _) =
          then_returns (check_waves evidences resolved manifest schedule 0 values) _ h₁ in
        let longer : length (values ++ last ∷ []) ≡ length values + 1 =
          length-append values (last ∷ []) ∙ omega arith in
        rw
          (
            longer,
            le→leb (length values + 1) schedule.waves (omega (arith, room)),
            check_waves-append 0 values last checked valid (omega (arith, next)),
          )
          refl
