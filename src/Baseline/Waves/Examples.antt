-- ===== src/Baseline/Waves/Examples.antt =====
-- A phase of two waves of two children, with evidence that is a number: 0 is an invalid outcome.
use fault_affinity.Prelude.{
  ℕ, zero, suc, ◌+◌, ◌≤◌, ◌≡◌, refl, ◌↔◌, ◌<◌, Bool, true, false, [], ◌∷◌, Option, none, some,
  Outcome, ok, arith,
}
use fault_affinity.Text.{Text, codes, replicate_char}
use fault_affinity.ExactCpu.Phase.{Resolved, Workload}
use fault_affinity.ExactCpu.Envelope.{Evidences}
use fault_affinity.Baseline.Manifest.{
  WaveIdentity, WaveManifest, baseline_phase, wave_algorithm, concurrency_mode, baseline_binding,
  validate_baseline_workload, wave_identity, validate_wave_schedule, validate_wave_manifest,
}
use fault_affinity.Baseline.Waves.{
  WaveEnvelope, Settled, wave_committed, wave_failed, expected_slot, invalid_child,
  validate_wave_slot, check_attempts, validate_wave_envelope, bind_attempts, build_wave_envelope,
  check_waves, assess_waves, assessed_waves, run_wave, run_next_wave, run_next_baseline_wave,
}
use fault_affinity.Baseline.Waves.Numbering.{AreWaves, assess_waves_sound}
use fault_affinity.Baseline.Waves.Failures.{IsSettling, Failed, run_wave_fails_iff}
use fault_affinity.Baseline.Waves.Extension.{Extends, run_next_baseline_wave-Extends}

abbrev hex : Text
hex = replicate_char 64 b'a'

abbrev digest : WaveIdentity → Text
digest identity = hex

abbrev is_positive : ℕ → Bool
is_positive zero = false
is_positive (suc n) = true

abbrev evidences : Evidences ℕ ℕ
evidences = record {
  parse = λ evidence. some evidence;
  build = λ result. ok result;
  is_valid = is_positive;
  binding = λ evidence. record { sha256 = hex; bytes = evidence };
  cpu_affinity = λ result. none;
}

abbrev resolved : Resolved
resolved = record {
  version = 1;
  id = codes "churn";
  digest = hex;
  isolated = true;
  baseline = true;
}

abbrev workload : Workload
workload = record { contract_version = 1; id = codes "churn"; digest = hex }

abbrev schedule : WaveIdentity
schedule = record {
  version = 1;
  algorithm = wave_algorithm;
  children_per_wave = 2;
  waves = 2;
  attempt_count = 4;
}

abbrev manifest : WaveManifest
manifest = record {
  version = 1;
  phase = baseline_phase;
  generation = replicate_char 32 b'0';
  workload = workload;
  mode = concurrency_mode;
  schedule = record { identity = schedule; digest = hex };
}

accepted : validate_wave_manifest digest resolved manifest ≡ ok schedule
unfolding validate_wave_manifest validate_wave_schedule wave_identity validate_baseline_workload
    baseline_binding
accepted = refl

-- The children of a wave give 7 and 8.
abbrev results : ℕ → Outcome (Option Text) ℕ
results index = ok (7 + index)

abbrev envelope : ℕ → WaveEnvelope ℕ
envelope wave = record {
  version = 1;
  phase = baseline_phase;
  generation = replicate_char 32 b'0';
  workload = workload;
  schedule_digest = hex;
  ordinal = wave;
  child_count = 2;
  attempts =
      record {
        slot = expected_slot schedule wave 1;
        binding = record { sha256 = hex; bytes = 7 };
        evidence = 7;
      }
      ∷ record {
        slot = expected_slot schedule wave 2;
        binding = record { sha256 = hex; bytes = 8 };
        evidence = 8;
      }
      ∷ [];
}

stored :
    assess_waves evidences resolved manifest schedule (envelope 1 ∷ [])
    ≡ ok (assessed_waves schedule 1)
unfolding assess_waves check_waves validate_wave_envelope check_attempts validate_wave_slot
    expected_slot validate_baseline_workload baseline_binding
stored = refl

second_wave :
    run_next_baseline_wave evidences digest resolved manifest results (1 ∷ 0 ∷ []) (envelope 1 ∷ [])
    ≡ ok (wave_committed 2 (envelope 2))
unfolding run_next_baseline_wave run_next_wave run_wave build_wave_envelope bind_attempts
    assess_waves check_waves validate_wave_envelope check_attempts validate_wave_slot expected_slot
    validate_baseline_workload baseline_binding validate_wave_manifest validate_wave_schedule
    wave_identity
second_wave = refl

settling : IsSettling 2 (1 ∷ 0 ∷ [])
settling = record { every_child = λ index within. ground arith; only_children = ground arith }

-- One child's outcome is invalid.
failed_wave :
    run_next_baseline_wave evidences digest resolved manifest (λ index. ok index) (1 ∷ 0 ∷ []) []
    ≡ ok (wave_failed (invalid_child (expected_slot schedule 1 1) 0))
unfolding run_next_baseline_wave run_next_wave run_wave assess_waves check_waves expected_slot
    validate_baseline_workload baseline_binding validate_wave_manifest validate_wave_schedule
    wave_identity
failed_wave = refl

run_next_baseline_wave-Extends_example :
    Extends evidences resolved manifest results (envelope 1 ∷ []) 2 (envelope 2) schedule
run_next_baseline_wave-Extends_example =
    run_next_baseline_wave-Extends evidences resolved manifest digest schedule results (1 ∷ 0 ∷ [])
      (envelope 1 ∷ []) accepted settling second_wave

assess_waves_sound_example :
    AreWaves evidences resolved manifest schedule 0 (envelope 1 ∷ [])
    × (1 ≤ 2)
    × (assessed_waves schedule 1 ≡ assessed_waves schedule 1)
assess_waves_sound_example =
    assess_waves_sound evidences resolved manifest schedule (envelope 1 ∷ []) stored

run_wave_fails_iff_example :
    ((failure : Settled ℕ) × (run_wave evidences resolved manifest schedule 1 results (1 ∷ 0 ∷ [])
        ≡ ok (wave_failed failure)))
    ↔ ((index : ℕ) × (index < 2) × Failed evidences (results index))
run_wave_fails_iff_example =
    run_wave_fails_iff evidences resolved manifest schedule 1 results (1 ∷ 0 ∷ []) settling
