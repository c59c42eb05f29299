-- ===== src/Load/Envelope/Intervals.antt =====
-- Intervals that follow one another in time.
use fault_affinity.Prelude.{ℕ, ◌≤◌, ◌≡◌, List, [], ◌∷◌, All, some, some_inj, arith}
use fault_affinity.Load.Envelope.{Interval, first_started, last_cleanup}

-- Each is over before the next starts, and the first starts at a time or later.
abbrev pub Sequential : ℕ → List Interval → Type 0
Sequential floor [] = Unit
Sequential floor (here ∷ later) =
    ((floor ≤ here.started) × (here.started ≤ here.cleanup)) × Sequential here.cleanup later

pub raised :
    (high low : ℕ)
    → low ≤ high
    → (xs : List Interval) → All (λ x. high ≤ x.started) xs
    → All (λ x. low ≤ x.started) xs
raised high low le [] h = tt
raised high low le (x ∷ xs) (first, later) = (omega arith, raised high low le xs later)

pub Sequential-after :
    (floor : ℕ) (xs : List Interval) → Sequential floor xs → All (λ x. floor ≤ x.started) xs
Sequential-after floor [] h = tt
Sequential-after floor (here ∷ later) ((low, inner), rest) =
    (low, raised here.cleanup floor (omega arith) later (Sequential-after here.cleanup later rest))

-- All of them start when the first does or later.
pub first_started-first :
    (floor first : ℕ) (xs : List Interval)
    → first_started xs ≡ some first
    → Sequential floor xs
    → All (λ x. first ≤ x.started) xs
first_started-first floor first [] e h = tt
first_started-first floor first (here ∷ later) e ((low, inner), rest) =
    let same : here.started ≡ first = some_inj e in
    Sequential-after first (here ∷ later) ((omega (arith, same), inner), rest)

-- All of them are over when the last is.
pub last_cleanup-last :
    (floor last : ℕ) (xs : List Interval)
    → last_cleanup xs ≡ some last
    → Sequential floor xs
    → All (λ x. x.cleanup ≤ last) xs
last_cleanup-last floor last [] e h = tt
last_cleanup-last floor last (here ∷ []) e h =
    let same : here.cleanup ≡ last = some_inj e in (omega (arith, same), tt)
last_cleanup-last floor last (here ∷ next ∷ later) e (_, rest) =
    let below = last_cleanup-last here.cleanup last (next ∷ later) e rest in
    let order = rest.0 in (omega (arith, below.0, order.0, order.1), below)
