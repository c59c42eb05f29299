-- ===== src/Load/Session/Bounds.antt =====
-- The bounds of a session.
use fault_affinity.Prelude.{
  ℕ, ◌*◌, ◌≤◌, ◌≡◌, refl, sym, ap, ◌∙◌, Bool, true, false, List, [], ◌∷◌, All, length, every, leb,
  leb→le, ◌==◌, ==_iff, includes, not, ◌&&◌, ok, require, bind_returns, then_returns, require_holds,
  ok_inj, arith,
}
use fault_affinity.Prelude.Increasing.{Increasing, is_increasing-Increasing}
use fault_affinity.Text.{Text, text_eq, is_hex_of}
use fault_affinity.Schedule.Orders.{max_schedule_entries}
use fault_affinity.ExactCpu.Phase.{affinity_mode, same_workload}
use fault_affinity.Load.Workers.{
  ResolvedLoad, load_binding, is_worker_cpu_list, is_taskset_path, cpu_max,
}
use fault_affinity.Load.Session.{
  bad_generation, other_measured, other_auxiliary, not_surviving, bad_attempts, bad_warmup,
  bad_recovery, bad_schedule_version, bad_digest, other_schedule, bad_target, bad_mode, bad_cpus,
  target_among_workers, bad_taskset, bad_version, bad_phase, session_version, max_attempts_per_leg,
  max_interval_ms, session_phase, session_algorithm, LoadIdentity, LoadSchedule, LoadExecution,
  SessionManifest, session_schedule_identity, same_load_identity, validate_execution,
  validate_load_schedule, parse_session_manifest,
}

-- The numbers of a session.
pub record InBounds (attempts warmup recovery target : ℕ) (cpus : List ℕ) : Type 0 where
  pub some_attempt : 1 ≤ attempts
  pub few_attempts : attempts * 3 ≤ max_schedule_entries
  pub warmup_bound : warmup ≤ max_interval_ms
  pub recovery_bound : recovery ≤ max_interval_ms
  pub target_bound : target ≤ cpu_max
  pub workers : is_worker_cpu_list cpus ≡ true
  pub apart : includes cpus target ≡ false

pub schedule_identity_bounds :
    (attempts warmup recovery : ℕ) {identity : LoadIdentity}
    → session_schedule_identity attempts warmup recovery ≡ ok identity
    → (1 ≤ attempts)
      × (attempts * 3 ≤ max_schedule_entries)
      × (warmup ≤ max_interval_ms)
      × (recovery ≤ max_interval_ms)
      × (identity.attempts_per_leg ≡ attempts)
      × (identity.attempt_count ≡ attempts * 3)
unfolding session_schedule_identity
schedule_identity_bounds attempts warmup recovery h =
    let (count, h₁) =
      then_returns (require (leb 1 attempts && leb attempts max_attempts_per_leg) bad_attempts) _
        h in
    let (warm, h₂) = then_returns (require (leb warmup max_interval_ms) bad_warmup) _ h₁ in
    let (cool, last) = then_returns (require (leb recovery max_interval_ms) bad_recovery) _ h₂ in
    let count =
      require_holds (leb 1 attempts && leb attempts max_attempts_per_leg) bad_attempts count in
    let low = leb→le 1 attempts (ground arith) in
    let high = leb→le attempts max_attempts_per_leg (ground arith) in
    (
      low,
      omega arith,
      leb→le warmup max_interval_ms (require_holds _ bad_warmup warm),
      leb→le recovery max_interval_ms (require_holds _ bad_recovery cool),
      ap (λ (i : LoadIdentity). i.attempts_per_leg) (sym (ok_inj last)),
      ap (λ (i : LoadIdentity). i.attempt_count) (sym (ok_inj last)),
    )

pub not-true : (b : Bool) → not b ≡ true → b ≡ false
not-true true h = cc
not-true false h = refl

pub execution_bounds :
    (value : LoadExecution)
    → validate_execution value ≡ ok tt
    → (value.target_cpu ≤ cpu_max)
      × (is_worker_cpu_list value.worker_cpus ≡ true)
      × (includes value.worker_cpus value.target_cpu ≡ false)
      × (is_taskset_path value.taskset_path ≡ true)
      × (text_eq value.target_affinity_mode affinity_mode ≡ true)
unfolding validate_execution
execution_bounds value h =
    let (target, h₁) = then_returns (require (leb value.target_cpu cpu_max) bad_target) _ h in
    let (mode, h₂) =
      then_returns (require (text_eq value.target_affinity_mode affinity_mode) bad_mode) _ h₁ in
    let (list, h₃) = then_returns (require (is_worker_cpu_list value.worker_cpus) bad_cpus) _ h₂ in
    let (apart, h₄) =
      then_returns
        (require (not (includes value.worker_cpus value.target_cpu)) target_among_workers) _ h₃ in
    let (path, _) = then_returns (require (is_taskset_path value.taskset_path) bad_taskset) _ h₄ in
    (
      leb→le value.target_cpu cpu_max (require_holds _ bad_target target),
      require_holds _ bad_cpus list,
      not-true _ (require_holds _ target_among_workers apart),
      require_holds _ bad_taskset path,
      require_holds _ bad_mode mode,
    )

-- 1 to 256 CPUs, each up to 65535, in increasing order.
pub record IsWorkerList (cpus : List ℕ) : Type 0 where
  pub some_worker : 1 ≤ length cpus
  pub few_workers : length cpus ≤ 256
  pub in_range : All (λ cpu. cpu ≤ 65_535) cpus
  pub increasing : Increasing cpus

every_in_range :
    (cpus : List ℕ) → every (λ cpu. leb cpu cpu_max) cpus ≡ true → All (λ cpu. cpu ≤ 65_535) cpus
every_in_range [] h = tt
every_in_range (cpu ∷ cpus) h =
    (ground (arith, leb→le cpu cpu_max), every_in_range cpus (ground arith))

is_worker_cpu_list-IsWorkerList :
    (cpus : List ℕ) → is_worker_cpu_list cpus ≡ true → IsWorkerList cpus
unfolding is_worker_cpu_list
is_worker_cpu_list-IsWorkerList cpus h = record {
  some_worker = ground arith;
  few_workers = ground arith;
  in_range = every_in_range cpus (ground arith);
  increasing = is_increasing-Increasing cpus (ground arith);
}

module _ (identity_sha256 : LoadIdentity → Text) (measured auxiliary : ResolvedLoad) where
  pub schedule_bounds :
      (value : LoadSchedule) {identity : LoadIdentity}
      → validate_load_schedule identity_sha256 value ≡ ok identity
      → let found = value.identity in
        (1 ≤ found.attempts_per_leg)
        × (found.attempts_per_leg * 3 ≤ max_schedule_entries)
        × (found.warmup_ms ≤ max_interval_ms)
        × (found.recovery_ms ≤ max_interval_ms)
        × (found.attempt_count ≡ found.attempts_per_leg * 3)
  unfolding validate_load_schedule
  schedule_bounds value h =
      let found = value.identity in
      let (_, h₁) =
        then_returns
          (require (found.version == session_version && text_eq found.algorithm session_algorithm)
            bad_schedule_version)
          _ h in
      let (_, h₂) = then_returns (require (is_hex_of 64 value.digest) bad_digest) _ h₁ in
      let (made, built, h₃) =
        bind_returns
          (session_schedule_identity found.attempts_per_leg found.warmup_ms found.recovery_ms) _
          h₂ in
      let (same, _) = then_returns (require (same_load_identity found made) other_schedule) _ h₃ in
      let same = require_holds (same_load_identity found made) other_schedule same in
      let (low, high, warm, cool, attempts, count) =
        schedule_identity_bounds found.attempts_per_leg found.warmup_ms found.recovery_ms built in
      let counted : found.attempt_count ≡ made.attempt_count = (==_iff _ _).0 (ground arith) in
      (low, high, warm, cool, counted ∙ count)

  -- A session's manifest that is parsed is returned as it is, and its numbers are within bounds: at least
  -- one attempt a leg, three legs of them within the limit of a schedule, as many as it says; a
  -- warm-up and a recovery of an hour at most; 1 to 256 worker CPUs, in increasing order and each up
  -- to 65535, none of them the target's; a path of taskset; and a load that survives its window.
  pub parse_session_manifest-InBounds :
      (value : SessionManifest) {found : SessionManifest}
      → parse_session_manifest identity_sha256 measured auxiliary value ≡ ok found
      → let schedule = value.schedule.identity in
        InBounds schedule.attempts_per_leg schedule.warmup_ms schedule.recovery_ms
          value.execution.target_cpu value.execution.worker_cpus
        × IsWorkerList value.execution.worker_cpus
        × (schedule.attempt_count ≡ schedule.attempts_per_leg * 3)
        × (auxiliary.survives_window ≡ true)
        × (is_taskset_path value.execution.taskset_path ≡ true)
        × (found ≡ value)
  unfolding parse_session_manifest
  parse_session_manifest-InBounds value h =
      let (_, h₁) = then_returns (require (value.version == session_version) bad_version) _ h in
      let (_, h₂) = then_returns (require (text_eq value.phase session_phase) bad_phase) _ h₁ in
      let (_, h₃) = then_returns (require (is_hex_of 32 value.generation) bad_generation) _ h₂ in
      let (_, h₄) =
        then_returns
          (require (same_workload value.measured_workload (load_binding measured)) other_measured) _
          h₃ in
      let (_, h₅) =
        then_returns
          (require (same_workload value.auxiliary_workload (load_binding auxiliary))
            other_auxiliary)
          _ h₄ in
      let (survives, h₆) = then_returns (require auxiliary.survives_window not_surviving) _ h₅ in
      let (executes, h₇) = then_returns (validate_execution value.execution) _ h₆ in
      let (identity, valid, last) =
        bind_returns (validate_load_schedule identity_sha256 value.schedule) _ h₇ in
      let (low, high, warm, cool, count) = schedule_bounds value.schedule valid in
      let (target, list, apart, path, _) = execution_bounds value.execution executes in
      (
        record {
          some_attempt = low;
          few_attempts = high;
          warmup_bound = warm;
          recovery_bound = cool;
          target_bound = target;
          workers = list;
          apart = apart;
        },
        is_worker_cpu_list-IsWorkerList value.execution.worker_cpus list,
        count,
        require_holds _ not_surviving survives,
        path,
        sym (ok_inj last),
      )
