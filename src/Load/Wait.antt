-- ===== src/Load/Wait.antt =====
-- `waitForMonotonicInterval` of diagnose-lib/controlled-load-session.mjs: the promise and its timer.
pub mod Lasting
mod Examples
use fault_affinity.Prelude.{
  ℕ, ◌+◌, ◌-◌, ◌*◌, ◌/◌, Bool, true, false, Option, none, some, leb, ◌==◌, if◌then◌else◌, not, ◌||◌,
}

-- `outcome` is what the promise is resolved with, `timer` the milliseconds of the timer that is set.
pub record Waiting : Type 0 where
  pub deadline_ns : ℕ
  pub outcome : Option Bool
  pub timer : Option ℕ

-- A promise that is resolved stays so.
abbrev pub resolve_with : Bool → Option Bool → Waiting → Waiting
resolve_with completed (some earlier) s = s
resolve_with completed none s = record s { outcome = some completed; timer = none }

abbrev pub finish_wait : Bool → Waiting → Waiting
finish_wait completed s = resolve_with completed s.outcome s

abbrev pub max_of : ℕ → ℕ → ℕ
max_of a b = if leb a b then b else a

-- The call, with whether the signal is aborted and what the clock shows.
unfoldable pub start_wait : ℕ → Bool → ℕ → Waiting
start_wait milliseconds aborted now =
    let deadline = now + milliseconds * 1_000_000 in
    if aborted || milliseconds == 0
    then record { deadline_ns = deadline; outcome = some (not aborted); timer = none }
    else record { deadline_ns = deadline; outcome = none; timer = some milliseconds }

-- `waitForRemainder`, when the timer fires.
unfoldable pub wait_for_remainder : Bool → ℕ → Waiting → Waiting
wait_for_remainder aborted now s =
    if aborted
    then finish_wait false s
    else if leb s.deadline_ns now
    then finish_wait true s
    else record s { timer = some (max_of 1 ((s.deadline_ns - now + 999_999) / 1_000_000)) }

abbrev pub on_wait_abort : Waiting → Waiting
on_wait_abort s = finish_wait false s
