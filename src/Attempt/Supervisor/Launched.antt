-- ===== src/Attempt/Supervisor/Launched.antt =====
-- The invariant at the launch handler.
use fault_affinity.Prelude.{
  ◌≡◌, refl, true, false, Option, none, some, not, ◌||◌, Outcome, ok, throw, by_branch, arith,
}
use fault_affinity.Text.{Text, codes}
use fault_affinity.Attempt.Launch.{Launch, validate_launch, expected_cpu_list}
use fault_affinity.Attempt.Supervisor.{
  Supervisor, Observed, is_mismatch, spawn_workload, check_provenance, accept_launch, launch,
}
use fault_affinity.Attempt.Supervisor.Invariant.{
  count_spawns, IsSafe, send-IsSafe, fail_hard-IsSafe,
}

pub spawn_workload-IsSafe :
    (m : Launch) (spawn : Outcome (Option Text) (Unit {0})) (s : Supervisor)
    → count_spawns s.log ≡ 0
    → s.launch_received ≡ true
    → s.connected ≡ true
    → IsSafe s
    → IsSafe (spawn_workload m spawn s)
spawn_workload-IsSafe m (throw code) s none_yet received live h = send-IsSafe _ s h
spawn_workload-IsSafe m (ok _) s none_yet received live h = record {
  spawns = ground arith;
  terms = h.terms;
  no_launch = λ e. absurd (ground arith);
  quiet = λ e. (let q = (h.quiet e).1 in absurd (ground arith));
  due = h.due;
  zero = h.zero;
}

pub check_provenance-IsSafe :
    (m : Launch) (seen : Observed) (checked : Outcome (Option Text) (Unit {0})) (s : Supervisor)
    → count_spawns s.log ≡ 0
    → s.launch_received ≡ true
    → s.connected ≡ true
    → IsSafe s
    → IsSafe (check_provenance m seen checked s)
check_provenance-IsSafe m seen (throw code) s none_yet received live h = send-IsSafe _ s h
check_provenance-IsSafe m seen (ok _) s none_yet received live h =
    spawn_workload-IsSafe m seen.spawn s none_yet received live h

pub accept_launch-IsSafe :
    (m : Launch) (seen : Observed) (s : Supervisor)
    → count_spawns s.log ≡ 0
    → s.launch_received ≡ true
    → s.connected ≡ true
    → IsSafe s
    → IsSafe (accept_launch m seen s)
accept_launch-IsSafe m seen s none_yet received live h =
    by_branch IsSafe (is_mismatch (expected_cpu_list m.cpu_affinity) seen.own_cpus)
      (λ _. send-IsSafe _ s h)
      (λ _. check_provenance-IsSafe m seen seen.provenance s none_yet received live h)

pub launch-IsSafe :
    (m : Option Launch) (seen : Observed) (s : Supervisor)
    → s.connected ≡ true
    → s.awaiting_report ≡ false
    → IsSafe s
    → IsSafe (launch m seen s)
unfolding launch
launch-IsSafe none seen s live settled h = fail_hard-IsSafe (codes "INVALID_LAUNCH_MESSAGE") s h
launch-IsSafe (some m) seen s live settled h =
    by_branch IsSafe (s.launch_received || not (validate_launch m))
      (λ _. fail_hard-IsSafe (codes "INVALID_LAUNCH_MESSAGE") s h)
      (λ f.
        (let fresh : s.launch_received ≡ false = ground arith in
          let spawns = h.spawns in
          let none_yet : count_spawns s.log ≡ 0 = ground arith in
          accept_launch-IsSafe m seen _ none_yet refl live (record {
            spawns = ground arith;
            terms = h.terms;
            no_launch = λ e. absurd (ground arith);
            quiet = h.quiet;
            due = h.due;
            zero = h.zero;
          })))
