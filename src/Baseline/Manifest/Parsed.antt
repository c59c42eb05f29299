-- ===== src/Baseline/Manifest/Parsed.antt =====
-- The manifest that `buildBaselinePhaseManifest` makes, before its own parser.
use fault_affinity.Prelude.{ℕ, ◌*◌, ◌≤◌, ◌≡◌, refl, true, le→leb, ==_iff, ok}
use fault_affinity.Text.{Text, is_hex_of}
use fault_affinity.Text.Equality.{text_eq_refl}
use fault_affinity.Schedule.Orders.{max_schedule_entries}
use fault_affinity.ExactCpu.Phase.{Resolved, Workload}
use fault_affinity.Baseline.Manifest.{
  max_baseline_children, max_baseline_waves, wave_algorithm, baseline_phase, concurrency_mode,
  baseline_binding, validate_baseline_workload, WaveIdentity, WaveManifest, wave_identity,
  validate_wave_schedule, validate_wave_manifest, build_wave_manifest,
}

abbrev pub identity_of : ℕ → ℕ → WaveIdentity
identity_of children waves = record {
  version = 1;
  algorithm = wave_algorithm;
  children_per_wave = children;
  waves = waves;
  attempt_count = children * waves;
}

-- Counts within the limits of a baseline schedule.
pub record AreCounts (children waves : ℕ) : Type 0 where
  pub some_child : 1 ≤ children
  pub few_children : children ≤ max_baseline_children
  pub some_wave : 1 ≤ waves
  pub few_waves : waves ≤ max_baseline_waves
  pub few_attempts : children * waves ≤ max_schedule_entries

wave_identity_of :
    (children waves : ℕ)
    → AreCounts children waves
    → wave_identity children waves ≡ ok (identity_of children waves)
unfolding wave_identity
wave_identity_of children waves c =
    rw
      (
        le→leb 1 children c.some_child,
        le→leb children max_baseline_children c.few_children,
        le→leb 1 waves c.some_wave,
        le→leb waves max_baseline_waves c.few_waves,
        le→leb (children * waves) max_schedule_entries c.few_attempts,
      )
      refl

-- A workload that supports the baseline is bound to its own binding.
own_workload :
    (resolved : Resolved)
    → resolved.baseline ≡ true
    → (workload : Workload) × (baseline_binding resolved ≡ ok workload)
      × (validate_baseline_workload resolved workload ≡ ok tt)
unfolding validate_baseline_workload baseline_binding
own_workload resolved capable = (
  record { contract_version = resolved.version; id = resolved.id; digest = resolved.digest },
  rw capable refl,
  rw
      (
        capable,
        (==_iff resolved.version resolved.version).1 refl,
        text_eq_refl resolved.id,
        text_eq_refl resolved.digest,
      )
      refl,
)

module _ (sha256 : WaveIdentity → Text) where
  schedule_accepted :
      (children waves : ℕ)
      → AreCounts children waves
      → is_hex_of 64 (sha256 (identity_of children waves)) ≡ true
      → validate_wave_schedule sha256 (record {
        identity = identity_of children waves;
        digest = sha256 (identity_of children waves);
      })
        ≡ ok (identity_of children waves)
  unfolding validate_wave_schedule
  schedule_accepted children waves c hex =
      rw
        (
          hex,
          wave_identity_of children waves c,
          (==_iff children children).1 refl,
          (==_iff waves waves).1 refl,
          (==_iff (children * waves) (children * waves)).1 refl,
          text_eq_refl (sha256 (identity_of children waves)),
        )
        refl

  -- For a generation of 32 hexadecimal digits, counts within the limits, a workload that supports the
  -- baseline, and a digest of 64 hexadecimal digits, the builder returns a manifest, its own parser
  -- accepts it, and the schedule that the parser reads is the one of those counts.
  pub build_wave_manifest_accepted :
      (resolved : Resolved) (generation : Text) (children waves : ℕ)
      → is_hex_of 32 generation ≡ true
      → AreCounts children waves
      → resolved.baseline ≡ true
      → is_hex_of 64 (sha256 (identity_of children waves)) ≡ true
      → (manifest : WaveManifest) × (build_wave_manifest sha256 resolved generation children waves
          ≡ ok manifest)
        × (validate_wave_manifest sha256 resolved manifest ≡ ok (identity_of children waves))
  unfolding build_wave_manifest validate_wave_manifest
  build_wave_manifest_accepted resolved generation children waves hex c capable digest_hex =
      let identity = identity_of children waves in
      let (workload, bound, own) = own_workload resolved capable in
      let scheduled = schedule_accepted children waves c digest_hex in
      (
        record {
          version = 1;
          phase = baseline_phase;
          generation = generation;
          workload = workload;
          mode = concurrency_mode;
          schedule = record { identity = identity; digest = sha256 identity };
        },
        rw (hex, wave_identity_of children waves c, bound, own, scheduled) refl,
        rw (hex, own, scheduled) refl,
      )
