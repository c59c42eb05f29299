-- ===== src/ExactCpu/Plan/Examples.antt =====
-- The plan of two CPUs and two rounds.
use fault_affinity.Prelude.{ℕ, ◌≡◌, refl, [], ◌∷◌, ok}
use fault_affinity.Schedule.Rng.{create_uint32_rng, next_uint32, output, random_below, draw}
use fault_affinity.Schedule.Orders.{
  validate_count, validate_seed, validate_cpu_array, validate_schedule_size, swap, shuffle_from,
  shuffle, block_orders, draw_block, build_blocks, build_cyclic_orders, build_isolated_orders,
}
use fault_affinity.ExactCpu.Plan.{
  Slot, IsolatedPlan, validate_canonical_cpu_array, validate_rounds_and_seed, build_isolated_plan,
}
use fault_affinity.ExactCpu.Plan.Slots.{IsIsolatedPlan, build_isolated_plan-IsIsolatedPlan}

abbrev slot : ℕ → ℕ → ℕ → ℕ → Slot
slot ordinal round position cpu = record {
  ordinal = ordinal;
  round = round;
  position = position;
  cpu = cpu;
}

abbrev plan : IsolatedPlan
plan = record {
  records = slot 1 1 1 2 ∷ slot 2 1 2 5 ∷ slot 3 2 1 5 ∷ slot 4 2 2 2 ∷ [];
  cpus = 2 ∷ 5 ∷ [];
  rounds = 2;
  seed = 7;
}

built : build_isolated_plan (2 ∷ 5 ∷ []) 2 7 ≡ ok plan
unfolding build_isolated_plan validate_canonical_cpu_array validate_rounds_and_seed
    build_isolated_orders build_cyclic_orders build_blocks draw_block block_orders shuffle
    shuffle_from swap random_below draw next_uint32 output create_uint32_rng validate_count
    validate_seed validate_cpu_array validate_schedule_size
built = refl

build_isolated_plan-IsIsolatedPlan_example : IsIsolatedPlan (2 ∷ 5 ∷ []) 2 plan
build_isolated_plan-IsIsolatedPlan_example =
    build_isolated_plan-IsIsolatedPlan (2 ∷ 5 ∷ []) 2 7 built
