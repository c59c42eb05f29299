-- ===== src/Attempt/Supervisor/Launching.antt =====
-- When the supervisor spawns the workload.
use fault_affinity.Prelude.{
  ◌≡◌, refl, ◌∙◌, ◌↔◌, true, false, Option, some, not, ◌||◌, Outcome, ok, throw, by_branch, arith,
}
use fault_affinity.Text.{Text, codes}
use fault_affinity.Attempt.Launch.{Launch, validate_launch, expected_cpu_list, normalize_error_code}
use fault_affinity.Attempt.Supervisor.{
  Supervisor, Message, fatal, workload_launch_error, Observed, send, emergency_cleanup, fail_hard,
  is_mismatch, spawn_workload, check_provenance, accept_launch, received, launch,
}

-- Everything that must hold for the launch handler to spawn.
pub record MaySpawn (m : Launch) (seen : Observed) (s : Supervisor) : Type 0 where
  pub first : s.launch_received ≡ false
  pub valid : validate_launch m ≡ true
  pub pinned : is_mismatch (expected_cpu_list m.cpu_affinity) seen.own_cpus ≡ false
  pub provenance : seen.provenance ≡ ok tt
  pub spawn : seen.spawn ≡ ok tt

send_awaiting : (m : Message) (s : Supervisor) → (send m s).awaiting_report ≡ s.awaiting_report
send_awaiting m s =
    by_branch (λ (x : Supervisor). x.awaiting_report ≡ s.awaiting_report) s.connected (λ _. refl)
      (λ _. refl)

cleanup_awaiting : (s : Supervisor) → (emergency_cleanup s).awaiting_report ≡ s.awaiting_report
unfolding emergency_cleanup
cleanup_awaiting s =
    by_branch (λ (x : Supervisor). x.awaiting_report ≡ s.awaiting_report) s.emergency_started
      (λ _. refl) (λ _. refl)

spawn_workload_iff :
    (m : Launch) (spawn : Outcome (Option Text) (Unit {0})) (s : Supervisor)
    → s.awaiting_report ≡ false
    → ((spawn_workload m spawn s).awaiting_report ≡ true) ↔ (spawn ≡ ok tt)
spawn_workload_iff m (throw code) s settled =
    let kept =
      send_awaiting (workload_launch_error (normalize_error_code code (codes "SPAWN_THROW"))) s in
    (λ h. absurd (cc (h, kept, settled)), λ e. cc)
spawn_workload_iff m (ok tt) s settled = (λ _. refl, λ _. refl)

check_provenance_iff :
    (m : Launch) (seen : Observed) (checked : Outcome (Option Text) (Unit {0})) (s : Supervisor)
    → s.awaiting_report ≡ false
    → ((check_provenance m seen checked s).awaiting_report ≡ true)
      ↔ ((checked ≡ ok tt) × (seen.spawn ≡ ok tt))
check_provenance_iff m seen (throw code) s settled =
    let kept =
      send_awaiting
        (workload_launch_error (normalize_error_code code (codes "WORKLOAD_PROVENANCE_ERROR"))) s in
    (λ h. absurd (cc (h, kept, settled)), λ e. (let c = e.0 in cc))
check_provenance_iff m seen (ok tt) s settled =
    let split = spawn_workload_iff m seen.spawn s settled in
    (λ h. (refl, split.0 h), λ e. split.1 e.1)

accept_launch_iff :
    (m : Launch) (seen : Observed) (s : Supervisor)
    → s.awaiting_report ≡ false
    → ((accept_launch m seen s).awaiting_report ≡ true) ↔ (
        (is_mismatch (expected_cpu_list m.cpu_affinity) seen.own_cpus ≡ false)
        × (seen.provenance ≡ ok tt)
        × (seen.spawn ≡ ok tt))
accept_launch_iff m seen s settled =
    let mismatch = is_mismatch (expected_cpu_list m.cpu_affinity) seen.own_cpus in
    by_branch
      (λ (x : Supervisor).
        (x.awaiting_report ≡ true)
        ↔ ((mismatch ≡ false) × (seen.provenance ≡ ok tt) × (seen.spawn ≡ ok tt)))
      mismatch
      (λ t.
        (let kept = send_awaiting (workload_launch_error (codes "AFFINITY_MISMATCH")) s in
          (λ h. absurd (cc (h, kept, settled)), λ e. (let c = e.0 in absurd (cc (c, t))))))
      (λ f.
        (let split = check_provenance_iff m seen seen.provenance s settled in
          (λ h. (let got = split.0 h in (f, got.0, got.1)), λ e. split.1 (e.1, e.2))))

fail_hard_awaiting :
    (code : Text) (s : Supervisor)
    → s.awaiting_report ≡ false
    → (fail_hard code s).awaiting_report ≡ false
fail_hard_awaiting code s settled =
    cleanup_awaiting (send (fatal code) s) ∙ (send_awaiting (fatal code) s ∙ settled)

-- The launch handler has spawned the workload exactly when this is the first launch, the message is
-- valid, the supervisor's own CPU affinity is the requested one, the provenance check passes, and
-- `spawn` does not throw.
pub launch_spawns_iff :
    (m : Launch) (seen : Observed) (s : Supervisor)
    → s.awaiting_report ≡ false
    → ((launch (some m) seen s).awaiting_report ≡ true) ↔ MaySpawn m seen s
unfolding launch
launch_spawns_iff m seen s settled =
    by_branch (λ (x : Supervisor). (x.awaiting_report ≡ true) ↔ MaySpawn m seen s)
      (s.launch_received || not (validate_launch m))
      (λ refused.
        (let kept = fail_hard_awaiting (codes "INVALID_LAUNCH_MESSAGE") s settled in
          (
            λ h. absurd (cc (h, kept)),
            λ may. (let first = may.first in let valid = may.valid in absurd (ground arith)),
          )))
      (λ accepted.
        (let split = accept_launch_iff m seen (received m s) settled in
          (
            λ h.
                (let (pinned, checked, done) = split.0 h in
                  record {
                    first = ground arith;
                    valid = ground arith;
                    pinned = pinned;
                    provenance = checked;
                    spawn = done;
                  }),
            λ may. split.1 (may.pinned, may.provenance, may.spawn),
          )))
