-- ===== src/Baseline/Manifest/Examples.antt =====
-- A manifest of four children and three waves.
use fault_affinity.Prelude.{◌≡◌, refl, true, ok, arith}
use fault_affinity.Text.{Text, codes, replicate_char}
use fault_affinity.ExactCpu.Phase.{Resolved}
use fault_affinity.Baseline.Manifest.{
  WaveIdentity, WaveManifest, validate_wave_manifest, build_wave_manifest,
}
use fault_affinity.Baseline.Manifest.Parsed.{AreCounts, identity_of, build_wave_manifest_accepted}

abbrev digest : WaveIdentity → Text
digest identity = replicate_char 64 b'c'

abbrev resolved : Resolved
resolved = record {
  version = 2;
  id = codes "wasm-churn";
  digest = replicate_char 64 b'd';
  isolated = true;
  baseline = true;
}

counts : AreCounts 4 3
counts = record {
  some_child = omega arith;
  few_children = omega arith;
  some_wave = omega arith;
  few_waves = omega arith;
  few_attempts = omega arith;
}

build_wave_manifest_accepted_example :
    (manifest : WaveManifest) × (build_wave_manifest digest resolved (replicate_char 32 b'0') 4 3
      ≡ ok manifest)
    × (validate_wave_manifest digest resolved manifest ≡ ok (identity_of 4 3))
build_wave_manifest_accepted_example =
    build_wave_manifest_accepted digest resolved (replicate_char 32 b'0') 4 3 refl counts refl refl
