-- ===== src/ExactCpu/Plan/Slots.antt =====
-- The slots of a plan that `buildIsolatedPlan` returns.
use mathlib.Core.List.{Perm}
use fault_affinity.Prelude.{
  ℕ, ◌+◌, ◌*◌, ◌≤◌, ◌<◌, leb→le, require_holds, ◌≡◌, sym, ◌∙◌, ap, subst, List, length, leb, All,
  Outcome, ok, throw, require, bind_returns, then_returns, ok_inj, arith,
}
use fault_affinity.Schedule.Orders.{RunnerError, max_schedule_entries, build_isolated_orders}
use fault_affinity.Schedule.Orders.Guarantee.{
  build_isolated_orders-Schedules, build_isolated_orders_accepts,
}
use fault_affinity.ExactCpu.Plan.{
  IsolatedPlan, too_many_records, validate_canonical_cpu_array, validate_rounds_and_seed,
  slots_from, from_runner, build_isolated_plan,
}
use fault_affinity.ExactCpu.Plan.Rounds.{
  IsPlacedSlot, Numbered, slots_from-Numbered, tally, rows-Balanced, cpus_of, tally-slots_from,
  length-slots_from, in_round, rounds-slots_from, slots_from-IsPlacedSlot,
}

pub record IsIsolatedPlan (cpus : List ℕ) (rounds : ℕ) (plan : IsolatedPlan) : Type 0 where
  pub numbered : Numbered 1 plan.records
  pub size : length plan.records ≡ rounds * length cpus
  pub few : length plan.records ≤ max_schedule_entries
  pub placed : All (IsPlacedSlot (length cpus)) plan.records
  pub each_round : (k : ℕ) → k < rounds → Perm (cpus_of (in_round (k + 1) plan.records)) cpus
  pub shares : (cpu : ℕ) → tally cpu (cpus_of plan.records) ≡ rounds * tally cpu cpus

from_runner_returns :
    {A : Type 0} (o : Outcome RunnerError A) {value : A} → from_runner o ≡ ok value → o ≡ ok value
from_runner_returns (throw e) h = cc
from_runner_returns (ok a) h = ap ok (ok_inj h)

-- A plan that `buildIsolatedPlan` returns has in each round, from 1 on, one slot for each CPU, and no
-- other slots; they are numbered from 1 without a gap, at most 1,000,000, in the order of their rounds
-- and within a round of their positions, which go from 1 to the number of CPUs; and every CPU has as
-- many slots as there are rounds.
pub build_isolated_plan-IsIsolatedPlan :
    (cpus : List ℕ) (rounds seed : ℕ) {plan : IsolatedPlan}
    → build_isolated_plan cpus rounds seed ≡ ok plan
    → IsIsolatedPlan cpus rounds plan
unfolding build_isolated_plan
build_isolated_plan-IsIsolatedPlan cpus rounds seed {plan} h =
    let (_, h₁) = then_returns (validate_canonical_cpu_array cpus) _ h in
    let (_, h₂) = then_returns (validate_rounds_and_seed rounds seed) _ h₁ in
    let (few, h₃) =
      then_returns (require (leb (length cpus * rounds) max_schedule_entries) too_many_records) _
        h₂ in
    let (orders, built, last) =
      bind_returns (from_runner (build_isolated_orders cpus rounds seed)) _ h₃ in
    let returned = from_runner_returns (build_isolated_orders cpus rounds seed) built in
    let (array, limits) = build_isolated_orders_accepts cpus rounds seed returned in
    let (found, same, balanced, count) =
      build_isolated_orders-Schedules cpus rounds seed array limits in
    let agree : orders ≡ found = ok_inj (sym returned ∙ same) in
    let rows = subst (All (λ order. Perm order cpus)) (sym agree) (rows-Balanced balanced) in
    let rounds_built : length orders ≡ rounds = ap length agree ∙ count in
    let size = length-slots_from 1 1 cpus orders rows ∙ ap (λ n. n * length cpus) rounds_built in
    let below = leb→le _ _ (require_holds _ too_many_records few) in
    subst (IsIsolatedPlan cpus rounds) (ok_inj last) (record {
      numbered = slots_from-Numbered 1 1 orders;
      size = size;
      few = grind (arith, size, below);
      placed = slots_from-IsPlacedSlot 1 1 cpus orders rows (omega arith);
      each_round = λ k h.
          subst (λ r. Perm (cpus_of (in_round r (slots_from 1 1 orders))) cpus) {x = 1 + k}
            {y = k + 1} (omega arith)
            (rounds-slots_from 1 1 k cpus orders rows (omega (arith, h, rounds_built)));
      shares = λ cpu.
          tally-slots_from cpu 1 1 cpus orders rows ∙ ap (λ n. n * tally cpu cpus) rounds_built;
    })
