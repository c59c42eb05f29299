-- ===== src/Load/Wait/Lasting.antt =====
-- A wait that completes has lasted, and its timer never asks for less than is left.
use fault_affinity.Prelude.{
  ℕ, ◌+◌, ◌-◌, ◌*◌, ◌/◌, ◌≤◌, ◌≡◌, refl, inl, inr, Bool, true, false, Option, none, some, some_inj,
  leb, leb→le, ◌==◌, ==_iff, ◌||◌, by_branch, Bool-cases, arith,
}
use fault_affinity.Load.Wait.{
  Waiting, resolve_with, finish_wait, max_of, start_wait, wait_for_remainder, on_wait_abort,
}

-- The states that a wait that is not resolved at once passes through, with what the clock showed last:
-- its timer fires, at a time that is not earlier than the last, or the signal is aborted.
pub data Waits (milliseconds start : ℕ) : ℕ → Waiting → Type 0 where
  armed : Waits milliseconds start start (start_wait milliseconds false start)
  fired :
      (aborted : Bool) (last now : ℕ) {s : Waiting}
      → Waits milliseconds start last s
      → s.outcome ≡ none
      → last ≤ now
      → Waits milliseconds start now (wait_for_remainder aborted now s)
  signaled :
      (last : ℕ) {s : Waiting}
      → Waits milliseconds start last s
      → Waits milliseconds start last (on_wait_abort s)

-- What holds of each of them.
pub record IsLasting (milliseconds start last : ℕ) (s : Waiting) : Type 0 where
  pub deadline : s.deadline_ns ≡ start + milliseconds * 1_000_000
  pub lasted : s.outcome ≡ some true → start + milliseconds * 1_000_000 ≤ last
  pub armed :
      s.outcome ≡ none
      → (t : ℕ) × (s.timer ≡ some t)
        × (1 ≤ t)
        × (start + milliseconds * 1_000_000 ≤ last + t * 1_000_000)

at_least_one : (n : ℕ) → 1 ≤ max_of 1 n
at_least_one n = by_branch (λ m. 1 ≤ m) (leb 1 n) (λ h. leb→le 1 n h) (λ h. omega arith)

small_quotient : (left : ℕ) → leb 1 ((left + 999_999) / 1_000_000) ≡ false → left ≤ 1_000_000
small_quotient left h = elim (Bool-cases (leb left 1_000_000)) [
  | inl e ↦ leb→le left 1_000_000 e
  | inr e ↦ absurd (ground arith)
]

covers : (left : ℕ) → left ≤ max_of 1 ((left + 999_999) / 1_000_000) * 1_000_000
covers left =
    by_branch (λ m. left ≤ m * 1_000_000) (leb 1 ((left + 999_999) / 1_000_000)) (λ h. omega arith)
      (λ h. (let low = small_quotient left h in omega arith))

start_wait-IsLasting :
    (milliseconds start : ℕ)
    → IsLasting milliseconds start start (start_wait milliseconds false start)
unfolding start_wait
start_wait-IsLasting milliseconds start =
    by_branch (IsLasting milliseconds start start) (false || milliseconds == 0)
      (λ zero. record {
        deadline = refl;
        lasted = λ _. (let none_left = (==_iff milliseconds 0).0 zero in omega arith);
        armed = λ e. cc;
      })
      (λ more. record {
        deadline = refl;
        lasted = λ e. cc;
        armed = λ _. (milliseconds, refl, ground arith, omega arith);
      })

finish_wait-IsLasting :
    (milliseconds start last : ℕ) (completed : Bool) (s : Waiting)
    → s.outcome ≡ none
    → (completed ≡ true → start + milliseconds * 1_000_000 ≤ last)
    → s.deadline_ns ≡ start + milliseconds * 1_000_000
    → IsLasting milliseconds start last (finish_wait completed s)
finish_wait-IsLasting milliseconds start last completed s unsettled reached deadline =
    rw unsettled
      (record { deadline = deadline; lasted = λ e. reached (some_inj e); armed = λ e. cc })

wait_for_remainder-IsLasting :
    (milliseconds start last now : ℕ) (aborted : Bool) (s : Waiting)
    → s.outcome ≡ none
    → IsLasting milliseconds start last s
    → IsLasting milliseconds start now (wait_for_remainder aborted now s)
unfolding wait_for_remainder
wait_for_remainder-IsLasting milliseconds start last now aborted s unsettled h =
    let deadline = h.deadline in
    by_branch (IsLasting milliseconds start now) aborted
      (λ _. finish_wait-IsLasting milliseconds start now false s unsettled (λ e. cc) deadline)
      (λ _.
        by_branch (IsLasting milliseconds start now) (leb s.deadline_ns now)
          (λ due.
            finish_wait-IsLasting milliseconds start now true s unsettled
              (λ _. (let late = leb→le s.deadline_ns now due in omega (arith, late, deadline)))
              deadline)
          (λ early.
            let left = s.deadline_ns - now in
            let enough = covers left in
            record {
              deadline = deadline;
              lasted = λ e. cc (unsettled, e);
              armed = λ _. (
                max_of 1 ((left + 999_999) / 1_000_000),
                refl,
                at_least_one ((left + 999_999) / 1_000_000),
                omega (arith, enough, deadline),
              );
            }))

signaled-IsLasting :
    (milliseconds start last : ℕ) (s : Waiting) (o : Option Bool)
    → s.outcome ≡ o
    → IsLasting milliseconds start last s
    → IsLasting milliseconds start last (resolve_with false o s)
signaled-IsLasting milliseconds start last s (some b) e h = h
signaled-IsLasting milliseconds start last s none e h = record {
  deadline = h.deadline;
  lasted = λ k. cc;
  armed = λ k. cc;
}

-- Whenever its timer fires and its signal is aborted, and whether or not the timer is early: a wait that
-- is resolved with true has lasted its interval; one that is not resolved has a timer set, of at least one
-- millisecond, and if that fires on time then the interval is over.
pub Waits-IsLasting :
    (milliseconds start last : ℕ) (s : Waiting)
    → Waits milliseconds start last s
    → IsLasting milliseconds start last s
Waits-IsLasting milliseconds start last s armed = start_wait-IsLasting milliseconds start
Waits-IsLasting milliseconds start last s
      (fired aborted earlier now {s = before} waits unsettled later) =
    wait_for_remainder-IsLasting milliseconds start earlier now aborted before unsettled
      (Waits-IsLasting milliseconds start earlier before waits)
Waits-IsLasting milliseconds start last s (signaled now {s = before} waits) =
    signaled-IsLasting milliseconds start now before before.outcome refl
      (Waits-IsLasting milliseconds start now before waits)
