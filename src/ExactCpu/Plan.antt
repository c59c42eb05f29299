-- ===== src/ExactCpu/Plan.antt =====
-- `buildIsolatedPlan` of diagnose-lib/pinned-protocol.mjs: the slots of an isolated schedule.
pub mod Rounds
pub mod Slots
mod Examples
use fault_affinity.Prelude.{
  ℕ, ◌+◌, ◌*◌, Bool, List, [], ◌∷◌, ◌++◌, length, every, leb, ◌==◌, not, ◌&&◌, Outcome, ok, throw,
  ◌>>=◌, ◌>>◌, require,
}
use fault_affinity.Prelude.Increasing.{is_increasing}
use fault_affinity.Schedule.Orders.{
  RunnerError, max_cpu_id, max_seed, max_schedule_entries, build_isolated_orders,
}

pub record Slot : Type 0 where
  pub ordinal : ℕ
  pub round : ℕ
  pub position : ℕ
  pub cpu : ℕ

pub record IsolatedPlan : Type 0 where
  pub records : List Slot
  pub cpus : List ℕ
  pub rounds : ℕ
  pub seed : ℕ

-- PinnedProtocolInputError, and what `buildIsolatedOrders` throws.
pub data PlanError : Type 0 where
  bad_cpus bad_rounds bad_seed too_many_records : PlanError
  runner : RunnerError → PlanError

unfoldable pub validate_canonical_cpu_array : List ℕ → Outcome PlanError (Unit {0})
validate_canonical_cpu_array cpus = do
  require (not (length cpus == 0) && leb (length cpus) (max_cpu_id + 1)) bad_cpus
  require (every (λ cpu. leb cpu max_cpu_id) cpus) bad_cpus
  require (is_increasing cpus) bad_cpus

unfoldable pub validate_rounds_and_seed : ℕ → ℕ → Outcome PlanError (Unit {0})
validate_rounds_and_seed rounds seed = do
  require (leb 1 rounds && leb rounds max_schedule_entries) bad_rounds
  require (leb seed max_seed) bad_seed

-- The inner `map`: the slots of one round, from an ordinal and a position on.
abbrev pub order_slots : ℕ → ℕ → ℕ → List ℕ → List Slot
order_slots ordinal round position [] = []
order_slots ordinal round position (cpu ∷ order) =
    record { ordinal = ordinal; round = round; position = position; cpu = cpu }
    ∷ order_slots (ordinal + 1) round (position + 1) order

-- The `flatMap`, from an ordinal and a round on.
abbrev pub slots_from : ℕ → ℕ → List (List ℕ) → List Slot
slots_from ordinal round [] = []
slots_from ordinal round (order ∷ orders) =
    order_slots ordinal round 1 order ++ slots_from (ordinal + length order) (round + 1) orders

abbrev pub from_runner {ℓ} : {A : Type ℓ} → Outcome RunnerError A → Outcome PlanError A
from_runner (throw e) = throw (runner e)
from_runner (ok value) = ok value

unfoldable pub build_isolated_plan : List ℕ → ℕ → ℕ → Outcome PlanError IsolatedPlan
build_isolated_plan cpus rounds seed = do
  validate_canonical_cpu_array cpus
  validate_rounds_and_seed rounds seed
  require (leb (length cpus * rounds) max_schedule_entries) too_many_records
  orders ← from_runner (build_isolated_orders cpus rounds seed)
  ok (record { records = slots_from 1 1 orders; cpus = cpus; rounds = rounds; seed = seed })
