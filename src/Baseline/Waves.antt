-- ===== src/Baseline/Waves.antt =====
-- The waves of a baseline phase of diagnose-lib/baseline-phase.mjs: `validateWaveEnvelope`,
-- `buildBaselineWaveEnvelope`, `assessBaselinePhasePrefix` and `runNextBaselinePhaseWave`.
pub mod Numbering
pub mod Failures
pub mod Extension
mod Examples
use fault_affinity.Prelude.{
  ℕ, zero, suc, ◌+◌, ◌-◌, ◌*◌, Bool, true, false, List, [], ◌∷◌, Option, none, some, length,
  array_from, leb, ◌==◌, if◌then◌else◌, ◌&&◌, Outcome, ok, throw, ◌>>=◌, ◌>>◌, require, present,
}
use fault_affinity.Text.{Text, text_eq, codes, is_hex_of}
use fault_affinity.Attempt.Launch.{normalize_error_code}
use fault_affinity.ExactCpu.Phase.{Resolved, Workload, Binding, same_binding}
use fault_affinity.ExactCpu.Envelope.{Evidences}
use fault_affinity.ExactCpu.Resume.{Status, status_of}
use fault_affinity.Baseline.Manifest.{
  BaselineError, bad_envelope_version, other_generation, other_schedule, bad_child_count,
  bad_attempt_count, other_slot, bad_evidence, invalid_outcome, other_binding, long_prefix,
  not_contiguous, baseline_phase, canonical_integer, baseline_binding, validate_baseline_workload,
  WaveIdentity, WaveManifest, validate_wave_manifest,
}

pub record WaveSlot : Type 0 where
  pub ordinal : ℕ
  pub wave : ℕ
  pub position : ℕ

unfoldable pub expected_slot : WaveIdentity → ℕ → ℕ → WaveSlot
expected_slot schedule wave_ordinal position = record {
  ordinal = (wave_ordinal - 1) * schedule.children_per_wave + position;
  wave = wave_ordinal;
  position = position;
}

unfoldable pub validate_wave_slot : WaveSlot → WaveSlot → Outcome BaselineError (Unit {0})
validate_wave_slot value expected =
    require
      (value.ordinal == expected.ordinal
        && (value.wave == expected.wave && value.position == expected.position))
      other_slot

abbrev pub validate_wave_binding : Binding → Binding → Outcome BaselineError (Unit {0})
validate_wave_binding value expected =
    require (is_hex_of 64 value.sha256 && same_binding value expected) other_binding

pub record BoundAttempt (Evidence : Type 0) : Type 0 where
  pub slot : WaveSlot
  pub binding : Binding
  pub evidence : Evidence

pub record WaveEnvelope (Evidence : Type 0) : Type 0 where
  pub version : ℕ
  pub phase : Text
  pub generation : Text
  pub workload : Workload
  pub schedule_digest : Text
  pub ordinal : ℕ
  pub child_count : ℕ
  pub attempts : List (BoundAttempt Evidence)

pub record WaveProgress : Type 0 where
  pub status : Status
  pub is_complete : Bool
  pub committed_waves : ℕ
  pub total_waves : ℕ
  pub committed_attempts : ℕ
  pub total_attempts : ℕ
  -- The ordinal and the first attempt ordinal of the next wave.
  pub next_wave : Option (ℕ × ℕ)

abbrev pub assessed_waves : WaveIdentity → ℕ → WaveProgress
assessed_waves schedule committed =
    let done = committed == schedule.waves in
    let attempts = committed * schedule.children_per_wave in
    record {
      status = status_of done committed;
      is_complete = done;
      committed_waves = committed;
      total_waves = schedule.waves;
      committed_attempts = attempts;
      total_attempts = schedule.attempt_count;
      next_wave = if done then none else some (committed + 1, attempts + 1);
    }

-- What one child of a wave comes to.
pub data Settled (Evidence : Type 0) : Type 0 where
  valid_child : WaveSlot → Evidence → Settled Evidence
  runner_failed : WaveSlot → Text → Settled Evidence
  invalid_child : WaveSlot → Evidence → Settled Evidence

abbrev pub is_failure : {Evidence : Type 0} → Settled Evidence → Bool
is_failure (valid_child slot evidence) = false
is_failure _ = true

pub data WaveAttempted (Evidence : Type 0) : Type 0 where
  phase_complete : WaveAttempted Evidence
  wave_failed : Settled Evidence → WaveAttempted Evidence
  wave_committed : ℕ → WaveEnvelope Evidence → WaveAttempted Evidence

-- `firstFailure`: of the children in the order in which they settle.
abbrev pub first_failure :
    {Evidence : Type 0} → (ℕ → Settled Evidence) → List ℕ → Option (Settled Evidence)
first_failure settled [] = none
first_failure settled (index ∷ order) =
    let later = first_failure settled order in
    if is_failure (settled index) then some (settled index) else later

abbrev pub evidence_of : {Evidence : Type 0} → Settled Evidence → Option Evidence
evidence_of (valid_child slot evidence) = some evidence
evidence_of (invalid_child slot evidence) = some evidence
evidence_of (runner_failed slot code) = none

abbrev pub parse_some :
    {Evidence : Type 0} → (Evidence → Option Evidence) → Option Evidence → Option Evidence
parse_some parse none = none
parse_some parse (some evidence) = parse evidence

module _ {Evidence Result : Type 0} (evidences : Evidences Evidence Result) where
  abbrev pub settle_built : WaveSlot → Outcome (Option Text) Evidence → Settled Evidence
  settle_built slot (throw code) =
      runner_failed slot (normalize_error_code code (codes "INVALID_ATTEMPT_RESULT"))
  settle_built slot (ok evidence) =
      if evidences.is_valid evidence then valid_child slot evidence else invalid_child slot evidence

  -- The child's runner, and then its evidence.
  abbrev pub settle : WaveSlot → Outcome (Option Text) Result → Settled Evidence
  settle slot (throw code) = runner_failed slot (normalize_error_code code (codes "RUNNER_ERROR"))
  settle slot (ok result) = settle_built slot (evidences.build result)

  -- The loop over a wave's attempts, from an index on.
  pub check_attempts :
      WaveIdentity → ℕ → ℕ → List (BoundAttempt Evidence) → Outcome BaselineError (Unit {0})
  check_attempts schedule wave index [] = ok tt
  check_attempts schedule wave index (bound ∷ rest) =
      let later = check_attempts schedule wave (index + 1) rest in
      validate_wave_slot bound.slot (expected_slot schedule wave (index + 1))
      >> (present (evidences.parse bound.evidence) bad_evidence >>= λ evidence.
          (require (evidences.is_valid evidence) invalid_outcome
            >> (validate_wave_binding bound.binding (evidences.binding evidence) >> later)))

  unfoldable pub validate_wave_envelope :
      Resolved
      → WaveManifest
      → WaveIdentity
      → WaveEnvelope Evidence
      → Outcome BaselineError (Unit {0})
  validate_wave_envelope resolved manifest schedule value = do
    require (value.version == 1) bad_envelope_version
    require (text_eq value.phase baseline_phase && text_eq value.generation manifest.generation)
        other_generation
    validate_baseline_workload resolved value.workload
    require (text_eq value.schedule_digest manifest.schedule.digest) other_schedule
    canonical_integer value.ordinal schedule.waves
    require (value.child_count == schedule.children_per_wave) bad_child_count
    require (length value.attempts == schedule.children_per_wave) bad_attempt_count
    check_attempts schedule value.ordinal 0 value.attempts

  -- The `map` over the evidence values, from an index on.
  pub bind_attempts :
      WaveIdentity
      → ℕ
      → ℕ
      → List (Option Evidence)
      → Outcome BaselineError (List (BoundAttempt Evidence))
  bind_attempts schedule wave index [] = ok []
  bind_attempts schedule wave index (value ∷ rest) =
      let later = bind_attempts schedule wave (index + 1) rest in
      present (parse_some evidences.parse value) bad_evidence >>= λ evidence. later >>= λ attempts.
      ok (
        record {
          slot = expected_slot schedule wave (index + 1);
          binding = evidences.binding evidence;
          evidence = evidence;
        }
        ∷ attempts)

  unfoldable pub build_wave_envelope :
      Resolved
      → WaveManifest
      → WaveIdentity
      → ℕ
      → List (Option Evidence)
      → Outcome BaselineError (WaveEnvelope Evidence)
  build_wave_envelope resolved manifest schedule wave_ordinal values = do
    canonical_integer wave_ordinal schedule.waves
    require (length values == schedule.children_per_wave) bad_attempt_count
    attempts ← bind_attempts schedule wave_ordinal 0 values
    workload ← baseline_binding resolved
    let envelope : WaveEnvelope Evidence = record {
      version = 1;
      phase = baseline_phase;
      generation = manifest.generation;
      workload = workload;
      schedule_digest = manifest.schedule.digest;
      ordinal = wave_ordinal;
      child_count = schedule.children_per_wave;
      attempts = attempts;
    }
    validate_wave_envelope resolved manifest schedule envelope
    ok envelope

  module _ (resolved : Resolved) (manifest : WaveManifest) (schedule : WaveIdentity) where
    -- The loop, from an index on.
    pub check_waves : ℕ → List (WaveEnvelope Evidence) → Outcome BaselineError (Unit {0})
    check_waves index [] = ok tt
    check_waves index (value ∷ rest) =
        let later = check_waves (index + 1) rest in
        validate_wave_envelope resolved manifest schedule value
        >> (require (value.ordinal == index + 1) not_contiguous >> later)

    unfoldable pub assess_waves : List (WaveEnvelope Evidence) → Outcome BaselineError WaveProgress
    assess_waves values = do
      require (leb (length values) schedule.waves) long_prefix
      check_waves 0 values
      ok (assessed_waves schedule (length values))

    -- `results` are the children's results, `order` the order in which they settle.
    unfoldable pub run_wave :
        ℕ
        → (ℕ → Outcome (Option Text) Result)
        → List ℕ
        → Outcome BaselineError (WaveAttempted Evidence)
    run_wave wave results order =
        let settled : ℕ → Settled Evidence =
          λ index. settle (expected_slot schedule wave (index + 1)) (results index) in
        elim (first_failure settled order) [
          | some failure ↦ ok (wave_failed failure)
          | none ↦
              build_wave_envelope resolved manifest schedule wave
                (array_from schedule.children_per_wave (λ index. evidence_of (settled index)))
              >>= λ envelope. ok (wave_committed wave envelope)
        ]

    abbrev pub attempt_wave :
        Option (ℕ × ℕ)
        → (ℕ → Outcome (Option Text) Result)
        → List ℕ
        → Outcome BaselineError (WaveAttempted Evidence)
    attempt_wave none results order = ok phase_complete
    attempt_wave (some (wave, first_attempt)) results order = run_wave wave results order

    unfoldable pub run_next_wave :
        (ℕ → Outcome (Option Text) Result)
        → List ℕ
        → List (WaveEnvelope Evidence)
        → Outcome BaselineError (WaveAttempted Evidence)
    run_next_wave results order values = do
      progress ← assess_waves values
      attempt_wave progress.next_wave results order

  -- `digest` is the digest of a schedule identity's canonical line.
  unfoldable pub run_next_baseline_wave :
      (WaveIdentity → Text)
      → Resolved
      → WaveManifest
      → (ℕ → Outcome (Option Text) Result)
      → List ℕ
      → List (WaveEnvelope Evidence)
      → Outcome BaselineError (WaveAttempted Evidence)
  run_next_baseline_wave digest resolved manifest results order values = do
    schedule ← validate_wave_manifest digest resolved manifest
    run_next_wave resolved manifest schedule results order values
