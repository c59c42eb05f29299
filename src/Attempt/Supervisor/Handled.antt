-- ===== src/Attempt/Supervisor/Handled.antt =====
-- The invariant at the other handlers.
use fault_affinity.Prelude.{
  ℕ, ◌≡◌, refl, Bool, true, false, Option, none, some, not, ◌&&◌, by_branch, arith,
}
use fault_affinity.Text.{Text, codes}
use fault_affinity.Attempt.Supervisor.{
  Supervisor, Message, fatal, workload_started, Ending, exited, Control, Identity, launch_message,
  shutdown_message, unknown_message, send, is_mismatch, allowed_list, outside_group, ticks_of,
  report_start, on_spawn, on_error, on_exit, shutdown, on_message, on_disconnect, kill_group,
}
use fault_affinity.Attempt.Supervisor.Invariant.{
  IsSafe, send-IsSafe, emergency_cleanup-IsSafe, fail_hard-IsSafe,
}
use fault_affinity.Attempt.Supervisor.Launched.{launch-IsSafe}

pub report_start-IsSafe :
    (pid : ℕ) (identity : Option Identity) (observed allowed : Option Text) (s : Supervisor)
    → IsSafe s
    → IsSafe (report_start pid identity observed allowed s)
report_start-IsSafe pid identity observed none s h = fail_hard-IsSafe _ s h
report_start-IsSafe pid identity observed (some cpus) s h =
    by_branch IsSafe (is_mismatch s.expected_cpus observed)
      (λ _. fail_hard-IsSafe (codes "WORKLOAD_AFFINITY_MISMATCH") s h)
      (λ _. send-IsSafe (workload_started pid (ticks_of identity) cpus) s h)

pub on_spawn-IsSafe :
    (pid : ℕ) (identity : Option Identity) (observed own : Option Text) (s : Supervisor)
    → s.awaiting_report ≡ true
    → IsSafe s
    → IsSafe (on_spawn pid identity observed own s)
unfolding on_spawn
on_spawn-IsSafe pid identity observed own s waiting h =
    let running : IsSafe (record s { started = true; awaiting_report = false }) = record {
      spawns = h.spawns;
      terms = h.terms;
      no_launch = λ e. (let w = (h.no_launch e).0 in absurd (ground arith));
      quiet = λ e. (let q = (h.quiet e).0 in absurd (ground arith));
      due = h.due;
      zero = h.zero;
    } in
    by_branch IsSafe (outside_group identity) (λ _. fail_hard-IsSafe _ _ running)
      (λ _. report_start-IsSafe pid identity observed (allowed_list observed own) _ running)

pub on_error-IsSafe :
    (code : Option Text) (s : Supervisor)
    → s.launch_received ≡ true
    → IsSafe s
    → IsSafe (on_error code s)
unfolding on_error
on_error-IsSafe code s received h =
    let heard : IsSafe (record s { error_heard = true; awaiting_report = false }) = record {
      spawns = h.spawns;
      terms = h.terms;
      no_launch = λ e. absurd (ground arith);
      quiet = λ e. (let q = h.quiet e in (ground (arith, q), q.1));
      due = h.due;
      zero = h.zero;
    } in
    by_branch IsSafe s.error_heard (λ _. fail_hard-IsSafe _ s h)
      (λ _. by_branch IsSafe s.started (λ _. send-IsSafe _ _ heard) (λ _. send-IsSafe _ _ heard))

pub on_exit-IsSafe :
    (exit_code : Option ℕ) (signal : Option Text) (s : Supervisor)
    → IsSafe s
    → IsSafe (on_exit exit_code signal s)
unfolding on_exit
on_exit-IsSafe exit_code signal s h = send-IsSafe _ _ (record {
  spawns = h.spawns;
  terms = h.terms;
  no_launch = h.no_launch;
  quiet = λ e. (let q = h.quiet e in (ground (arith, q), q.1));
  due = h.due;
  zero = h.zero;
})

-- A shutdown that is refused leaves the flag as it was.
pub refused-IsSafe :
    (m : Message) (s : Supervisor)
    → s.intentional_shutdown ≡ false
    → IsSafe s
    → IsSafe (record (send m (record s { intentional_shutdown = true })) {
      intentional_shutdown = false;
    })
refused-IsSafe m s first h =
    by_branch (λ x. IsSafe (record x { intentional_shutdown = false })) s.connected
      (λ _. record {
        spawns = h.spawns;
        terms = h.terms;
        no_launch = h.no_launch;
        quiet = λ e. absurd (ground arith);
        due = λ e. (let d = h.due e in absurd (ground arith));
        zero = λ e. (let z = h.zero e in absurd (ground arith));
      })
      (λ _. record {
        spawns = h.spawns;
        terms = h.terms;
        no_launch = h.no_launch;
        quiet = λ e. absurd (ground arith);
        due = λ e. (let d = h.due e in absurd (ground arith));
        zero = λ e. (let z = h.zero e in absurd (ground arith));
      })

pub shutdown-IsSafe : (s : Supervisor) → s.awaiting_report ≡ false → IsSafe s → IsSafe (shutdown s)
unfolding shutdown
shutdown-IsSafe s settled h =
    by_branch IsSafe s.intentional_shutdown (λ _. h)
      (λ first.
        by_branch IsSafe (s.started && not s.has_exited)
          (λ _.
            emergency_cleanup-IsSafe _
              (refused-IsSafe (fatal (codes "SHUTDOWN_WITH_LIVE_WORKLOAD")) s first h))
          (λ quiet. record {
            spawns = h.spawns;
            terms = h.terms;
            no_launch = h.no_launch;
            quiet = λ _. (ground arith, refl);
            due = λ _. refl;
            zero = λ _. refl;
          }))

pub on_disconnect-IsSafe : (s : Supervisor) → IsSafe s → IsSafe (on_disconnect s)
unfolding on_disconnect
on_disconnect-IsSafe s h =
    let apart : IsSafe (record s { connected = false }) = record {
      spawns = h.spawns;
      terms = h.terms;
      no_launch = h.no_launch;
      quiet = λ e. ((h.quiet e).0, refl);
      due = h.due;
      zero = h.zero;
    } in
    by_branch IsSafe s.intentional_shutdown (λ _. apart) (λ _. emergency_cleanup-IsSafe _ apart)

pub on_message-IsSafe :
    (control : Control) (s : Supervisor)
    → s.connected ≡ true
    → s.awaiting_report ≡ false
    → IsSafe s
    → IsSafe (on_message control s)
on_message-IsSafe (launch_message m seen) s live settled h = launch-IsSafe m seen s live settled h
on_message-IsSafe shutdown_message s live settled h = shutdown-IsSafe s settled h
on_message-IsSafe unknown_message s live settled h = fail_hard-IsSafe _ s h

-- A process that ends otherwise than by the agreed exit.
pub ended-IsSafe :
    (how : Option Ending) (s : Supervisor)
    → (how ≡ some (exited 0) → s.intentional_shutdown ≡ true)
    → IsSafe s
    → IsSafe (record s { ended = how })
ended-IsSafe how s agreed h = record {
  spawns = h.spawns;
  terms = h.terms;
  no_launch = h.no_launch;
  quiet = h.quiet;
  due = h.due;
  zero = agreed;
}

pub kill_group-IsSafe : (reached : Bool) (s : Supervisor) → IsSafe s → IsSafe (kill_group reached s)
kill_group-IsSafe true s h = record {
  spawns = h.spawns;
  terms = h.terms;
  no_launch = h.no_launch;
  quiet = h.quiet;
  due = h.due;
  zero = λ e. cc;
}
kill_group-IsSafe false s h = h
