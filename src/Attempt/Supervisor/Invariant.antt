-- ===== src/Attempt/Supervisor/Invariant.antt =====
-- The supervisor's invariant, and the parts of the handlers that send and clean up.
use fault_affinity.Prelude.{
  ℕ, suc, ◌≤◌, ◌≡◌, Bool, true, false, List, [], ◌∷◌, some, not, ◌&&◌, ◌||◌, by_branch, arith,
}
use fault_affinity.Text.{Text}
use fault_affinity.Attempt.Supervisor.{
  Supervisor, Effect, spawned, group_term, Message, fatal, exited, send, emergency_cleanup,
  fail_hard,
}

abbrev pub count_spawns : List Effect → ℕ
count_spawns [] = 0
count_spawns (spawned _ ∷ rest) = suc (count_spawns rest)
count_spawns (_ ∷ rest) = count_spawns rest

abbrev pub count_terms : List Effect → ℕ
count_terms [] = 0
count_terms (group_term ∷ rest) = suc (count_terms rest)
count_terms (_ ∷ rest) = count_terms rest

abbrev pub is_running : Supervisor → Bool
is_running s = s.awaiting_report || (s.started && not s.has_exited)

abbrev pub count_of : Bool → ℕ
count_of true = 1
count_of false = 0

-- The workload is spawned at most once, and only for an accepted launch; the group gets one TERM
-- exactly if the cleanup has begun; a shutdown that was agreed to left no workload.
pub record IsSafe (s : Supervisor) : Type 0 where
  pub spawns : count_spawns s.log ≤ count_of s.launch_received
  pub terms : count_terms s.log ≡ count_of s.emergency_started
  pub no_launch : s.launch_received ≡ false → (s.awaiting_report ≡ false) × (s.started ≡ false)
  pub quiet : s.intentional_shutdown ≡ true → (is_running s ≡ false) × (s.connected ≡ false)
  pub due : s.exit_due ≡ true → s.intentional_shutdown ≡ true
  pub zero : s.ended ≡ some (exited 0) → s.intentional_shutdown ≡ true

pub send-IsSafe : (m : Message) (s : Supervisor) → IsSafe s → IsSafe (send m s)
send-IsSafe m s h =
    by_branch IsSafe s.connected
      (λ _. record {
        spawns = h.spawns;
        terms = h.terms;
        no_launch = h.no_launch;
        quiet = h.quiet;
        due = h.due;
        zero = h.zero;
      })
      (λ _. h)

pub emergency_cleanup-IsSafe : (s : Supervisor) → IsSafe s → IsSafe (emergency_cleanup s)
unfolding emergency_cleanup
emergency_cleanup-IsSafe s h =
    by_branch IsSafe s.emergency_started (λ _. h)
      (λ fresh. record {
        spawns = h.spawns;
        terms = ground (arith, h.terms);
        no_launch = h.no_launch;
        quiet = h.quiet;
        due = h.due;
        zero = h.zero;
      })

pub fail_hard-IsSafe : (code : Text) (s : Supervisor) → IsSafe s → IsSafe (fail_hard code s)
fail_hard-IsSafe code s h =
    emergency_cleanup-IsSafe (send (fatal code) s) (send-IsSafe (fatal code) s h)
