-- ===== src/Attempt/Supervisor/Orphan.antt =====
-- How the supervisor ends once its parent is gone.
use fault_affinity.Prelude.{
  ◌≡◌, refl, Bool, true, false, List, [], ◌∷◌, some_of, ◌==◌, some, inl, inr, Bool-cases, by_branch,
}
use fault_affinity.Attempt.Supervisor.{
  Supervisor, Effect, exit_after, exited, Event, channel_closed, exit_timer, emergency_cleanup,
  on_disconnect, step, supervisor_error_exit,
}
use fault_affinity.Attempt.Supervisor.Traces.{Enabled, Reachable, at_start, after}
use fault_affinity.Attempt.Supervisor.Kept.{step-Kept}

-- A timer whose callback exits with the error code.
abbrev pub is_error_timer : Effect → Bool
is_error_timer (exit_after delay_ms code) = code == supervisor_error_exit
is_error_timer _ = false

-- One of the effects has set such a timer.
abbrev pub has_timer : List Effect → Bool
has_timer log = some_of is_error_timer log

abbrev IsTimed : Bool → List Effect → Type 0
IsTimed begun log = (has_timer log ≡ true)

IsTimed-grows :
    (effect : Effect) (begun : Bool) (log : List Effect)
    → IsTimed begun log
    → IsTimed begun (effect ∷ log)
IsTimed-grows effect begun log h = elim (Bool-cases (is_error_timer effect)) [
  | inl t ↦ rw t refl
  | inr n ↦ rw n h
]

-- A cleanup that has begun has set its timer.
abbrev IsArmed : Bool → List Effect → Type 0
IsArmed begun log = begun ≡ true → has_timer log ≡ true

Reachable-IsArmed :
    {s : Supervisor} → Reachable s → s.emergency_started ≡ true → has_timer s.log ≡ true
Reachable-IsArmed at_start e = cc e
Reachable-IsArmed (after {s = before} event reached _ _) e =
    step-Kept IsArmed (λ effect begun log h e. IsTimed-grows effect begun log (h e)) (λ _ _ _. refl)
      event before (Reachable-IsArmed reached) e

cleanup_timed :
    (s : Supervisor)
    → IsArmed s.emergency_started s.log
    → has_timer (emergency_cleanup s).log ≡ true
unfolding emergency_cleanup
cleanup_timed s armed =
    by_branch (λ (t : Supervisor). has_timer t.log ≡ true) s.emergency_started (λ e. armed e)
      (λ _. refl)

cleanup_begun : (s : Supervisor) → (emergency_cleanup s).emergency_started ≡ true
unfolding emergency_cleanup
cleanup_begun s =
    by_branch (λ (t : Supervisor). t.emergency_started ≡ true) s.emergency_started (λ e. e)
      (λ _. refl)

abbrev pub run : List Event → Supervisor → Supervisor
run [] s = s
run (event ∷ events) s = run events (step event s)

run_kept :
    (events : List Event) (s : Supervisor)
    → s.emergency_started ≡ true
    → has_timer s.log ≡ true
    → ((run events s).emergency_started ≡ true) × (has_timer (run events s).log ≡ true)
run_kept [] s begun timed = (begun, timed)
run_kept (event ∷ events) s begun timed =
    run_kept events (step event s)
      (step-Kept (λ b log. b ≡ true) (λ _ _ _ h. h) (λ _ _. refl) event s begun)
      (step-Kept IsTimed IsTimed-grows (λ _ _. refl) event s timed)

-- A supervisor that loses its parent without having agreed to shut down does not outlive its
-- timers: whatever happens next, it has set a timer that exits with the error code, which may fire,
-- and then ends it with that code.
pub orphan_ends :
    (s : Supervisor) (events : List Event)
    → Reachable s
    → s.intentional_shutdown ≡ false
    → let later = run events (step channel_closed s) in
      (has_timer later.log ≡ true)
      × Enabled exit_timer later
      × ((step exit_timer later).ended ≡ some (exited supervisor_error_exit))
unfolding step on_disconnect
orphan_ends s events reached unasked =
    let apart = record s { connected = false } in
    let lost : step channel_closed s ≡ emergency_cleanup apart = rw unasked refl in
    let (begun, timed) =
      run_kept events (emergency_cleanup apart) (cleanup_begun apart)
        (cleanup_timed apart (Reachable-IsArmed reached)) in
    rw lost (timed, begun, refl)
