-- ===== src/Load/Session/Building.antt =====
-- Which options make a manifest of a controlled-load session.
use fault_affinity.Prelude.{
  ◌*◌, ◌≡◌, refl, ap, ◌∙◌, ◌↔◌, true, leb, le→leb, ==_iff, includes, not, ◌&&◌, ok, require,
  bind_returns, then_returns, require_holds, arith,
}
use fault_affinity.Text.{Text, is_hex_of}
use fault_affinity.Text.Equality.{text_eq_refl}
use fault_affinity.ExactCpu.Phase.{affinity_mode}
use fault_affinity.Load.Managed.{discard}
use fault_affinity.Load.Workers.{ResolvedLoad, load_binding, is_taskset_path, cpu_max}
use fault_affinity.Load.WorkerSet.Started.{same_workload_refl}
use fault_affinity.Load.Session.{
  bad_generation, session_version, max_attempts_per_leg, max_interval_ms, session_phase,
  session_algorithm, leg_identities, LoadIdentity, SessionManifest, SessionOptions,
  session_schedule_identity, validate_execution, validate_load_schedule, parse_session_manifest,
  build_session_manifest,
}
use fault_affinity.Load.Session.Bounds.{
  InBounds, schedule_identity_bounds, parse_session_manifest-InBounds,
}

module _ (identity_sha256 : LoadIdentity → Text) (measured auxiliary : ResolvedLoad) where
  -- What the options of a session must be.
  abbrev pub IsSessionOptions : SessionOptions → Type 0
  IsSessionOptions o =
      (is_hex_of 32 o.generation ≡ true)
      × InBounds o.attempts_per_leg o.warmup_ms o.recovery_ms o.target_cpu o.worker_cpus
      × (is_taskset_path o.taskset_path ≡ true)
      × (auxiliary.survives_window ≡ true)

  abbrev identity_of : SessionOptions → LoadIdentity
  identity_of o = record {
    version = session_version;
    algorithm = session_algorithm;
    legs = leg_identities;
    attempts_per_leg = o.attempts_per_leg;
    attempt_count = o.attempts_per_leg * 3;
    warmup_ms = o.warmup_ms;
    recovery_ms = o.recovery_ms;
  }

  abbrev manifest_of : SessionOptions → LoadIdentity → SessionManifest
  manifest_of o identity = record {
    version = session_version;
    phase = session_phase;
    generation = o.generation;
    measured_workload = load_binding measured;
    auxiliary_workload = load_binding auxiliary;
    execution = record {
      target_cpu = o.target_cpu;
      target_affinity_mode = affinity_mode;
      worker_cpus = o.worker_cpus;
      taskset_path = o.taskset_path;
      worker_output_mode = discard;
    };
    schedule = record { identity = identity; digest = identity_sha256 identity };
  }

  -- A manifest that is built is one that is parsed.
  build_parses :
      (o : SessionOptions) {m : SessionManifest}
      → build_session_manifest identity_sha256 measured auxiliary o ≡ ok m
      → (identity : LoadIdentity) × (is_hex_of 32 o.generation ≡ true)
        × (session_schedule_identity o.attempts_per_leg o.warmup_ms o.recovery_ms ≡ ok identity)
        × (parse_session_manifest identity_sha256 measured auxiliary (manifest_of o identity)
            ≡ ok m)
  unfolding build_session_manifest
  build_parses o h =
      let (generation, h₁) =
        then_returns (require (is_hex_of 32 o.generation) bad_generation) _ h in
      let (identity, made, parsed) =
        bind_returns (session_schedule_identity o.attempts_per_leg o.warmup_ms o.recovery_ms) _
          h₁ in
      (identity, require_holds _ bad_generation generation, made, parsed)

  options_in_range :
      (o : SessionOptions) {m : SessionManifest}
      → build_session_manifest identity_sha256 measured auxiliary o ≡ ok m
      → IsSessionOptions o
  options_in_range o h =
      let (identity, generation, made, parsed) = build_parses o h in
      let (low, high, warm, cool, _, _) =
        schedule_identity_bounds o.attempts_per_leg o.warmup_ms o.recovery_ms made in
      let (bounds, _, _, survives, path, _) =
        parse_session_manifest-InBounds identity_sha256 measured auxiliary (manifest_of o identity)
          parsed in
      (
        generation,
        record {
          some_attempt = low;
          few_attempts = high;
          warmup_bound = warm;
          recovery_bound = cool;
          target_bound = bounds.target_bound;
          workers = bounds.workers;
          apart = bounds.apart;
        },
        path,
        survives,
      )

  parsed_made :
      (o : SessionOptions) {m : SessionManifest}
      → build_session_manifest identity_sha256 measured auxiliary o ≡ ok m
      → parse_session_manifest identity_sha256 measured auxiliary m ≡ ok m
  parsed_made o {m} h =
      let (identity, _, _, parsed) = build_parses o h in
      let (_, _, _, _, _, same) =
        parse_session_manifest-InBounds identity_sha256 measured auxiliary (manifest_of o identity)
          parsed in
      ap (parse_session_manifest identity_sha256 measured auxiliary) same ∙ parsed

  identity_made :
      (o : SessionOptions)
      → IsSessionOptions o
      → session_schedule_identity o.attempts_per_leg o.warmup_ms o.recovery_ms ≡ ok (identity_of o)
  unfolding session_schedule_identity
  identity_made o (_, bounds, _, _) =
      let n = o.attempts_per_leg in
      let count : (leb 1 n && leb n max_attempts_per_leg) ≡ true =
        (let low = bounds.some_attempt in let high = bounds.few_attempts in ground arith) in
      let warm = le→leb o.warmup_ms max_interval_ms bounds.warmup_bound in
      let cool = le→leb o.recovery_ms max_interval_ms bounds.recovery_bound in
      rw (count, warm, cool) refl

  options_accepted :
      (o : SessionOptions)
      → ((i : LoadIdentity) → is_hex_of 64 (identity_sha256 i) ≡ true)
      → IsSessionOptions o
      → build_session_manifest identity_sha256 measured auxiliary o
        ≡ ok (manifest_of o (identity_of o))
  unfolding build_session_manifest parse_session_manifest validate_load_schedule validate_execution
  options_accepted o hex good =
      let (generation, bounds, path, survives) = good in
      let n = o.attempts_per_leg in
      let target = le→leb o.target_cpu cpu_max bounds.target_bound in
      let apart : not (includes o.worker_cpus o.target_cpu) ≡ true = ap not bounds.apart in
      rw
        (
          generation,
          identity_made o good,
          same_workload_refl (load_binding measured),
          same_workload_refl (load_binding auxiliary),
          survives,
          target,
          bounds.workers,
          apart,
          path,
          hex (identity_of o),
          identity_made o good,
          (==_iff n n).1 refl,
          (==_iff (n * 3) (n * 3)).1 refl,
          (==_iff o.warmup_ms o.warmup_ms).1 refl,
          (==_iff o.recovery_ms o.recovery_ms).1 refl,
          text_eq_refl (identity_sha256 (identity_of o)),
        )
        refl

  -- Of options in range a manifest is built that its own parser accepts, and of no others, if the digests
  -- are 64 hexadecimal digits.
  pub build_session_manifest_iff :
      (o : SessionOptions)
      → ((i : LoadIdentity) → is_hex_of 64 (identity_sha256 i) ≡ true)
      → ((m : SessionManifest) × (build_session_manifest identity_sha256 measured auxiliary o
            ≡ ok m)
          × (parse_session_manifest identity_sha256 measured auxiliary m ≡ ok m))
        ↔ IsSessionOptions o
  build_session_manifest_iff o hex = (
    λ built. options_in_range o built.1,
    λ good.
        let made = manifest_of o (identity_of o) in
        let built = options_accepted o hex good in (made, built, parsed_made o built),
  )
