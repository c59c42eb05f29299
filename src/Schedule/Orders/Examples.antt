-- ===== src/Schedule/Orders/Examples.antt =====
-- Concrete schedules: the values that diagnose-lib/tests/pinned-runner.test.mjs expects, and the
-- schedule theorems at those inputs.
use fault_affinity.Prelude.{ℕ, ◌<◌, ◌≡◌, refl, List, [], ◌∷◌, some, length, ok, throw, arith}
use fault_affinity.Schedule.Rng.{random_below, next_uint32, output, create_uint32_rng}
use fault_affinity.Schedule.Rng.Totality.{random_below_total}
use fault_affinity.Schedule.Orders.{
  build_isolated_orders, build_balanced_group_orders, build_concurrent_launch_orders,
  validate_cpu_array, schedule_too_large, validate_count, validate_seed, validate_schedule_size,
  build_cyclic_orders, build_blocks, draw_block, shuffle, swap,
}
use fault_affinity.Schedule.Orders.Validity.{IsCpuArray, validate_cpu_array_sound}
use fault_affinity.Schedule.Orders.Guarantee.{
  IsWithinLimits, Schedules, group_indices, build_isolated_orders-Schedules,
  build_isolated_orders_accepts, build_concurrent_launch_orders-Schedules,
  build_balanced_group_orders-Schedules,
}

abbrev four_cpus : List ℕ
four_cpus = 8 ∷ 9 ∷ 10 ∷ 11 ∷ []

abbrev six_orders : List (List ℕ)
six_orders =
    (10 ∷ 9 ∷ 11 ∷ 8 ∷ [])
    ∷ (8 ∷ 10 ∷ 9 ∷ 11 ∷ [])
    ∷ (11 ∷ 8 ∷ 10 ∷ 9 ∷ [])
    ∷ (9 ∷ 11 ∷ 8 ∷ 10 ∷ [])
    ∷ (9 ∷ 10 ∷ 8 ∷ 11 ∷ [])
    ∷ (10 ∷ 8 ∷ 11 ∷ 9 ∷ [])
    ∷ []

six_orders_built : build_isolated_orders four_cpus 6 7 ≡ ok six_orders
unfolding build_isolated_orders build_cyclic_orders validate_cpu_array validate_count validate_seed
    validate_schedule_size build_blocks draw_block shuffle swap random_below output
    create_uint32_rng next_uint32
six_orders_built = refl

-- One entry over the limit.
too_many_entries : build_isolated_orders (0 ∷ 1 ∷ []) 500_001 0 ≡ throw schedule_too_large
unfolding build_isolated_orders build_cyclic_orders validate_cpu_array validate_count validate_seed
    validate_schedule_size
too_many_entries = refl

four_cpus-IsCpuArray : IsCpuArray four_cpus
unfolding validate_cpu_array
four_cpus-IsCpuArray = (validate_cpu_array_sound four_cpus four_cpus refl).1

four_cpus-IsWithinLimits : IsWithinLimits (length four_cpus) 6 7
four_cpus-IsWithinLimits = omega arith

random_below_total_example :
    (value : ℕ) × (s' : ℕ) × (random_below 12345 6 ≡ some (value, s')) × (value < 6)
random_below_total_example = random_below_total 12345 6 (omega arith) (omega arith)

build_isolated_orders-Schedules_example :
    Schedules four_cpus 6 (build_isolated_orders four_cpus 6 7)
build_isolated_orders-Schedules_example =
    build_isolated_orders-Schedules four_cpus 6 7 four_cpus-IsCpuArray four_cpus-IsWithinLimits

build_isolated_orders_accepts_example : IsCpuArray four_cpus × IsWithinLimits (length four_cpus) 6 7
build_isolated_orders_accepts_example = build_isolated_orders_accepts four_cpus 6 7 six_orders_built

build_concurrent_launch_orders-Schedules_example :
    Schedules four_cpus 6 (build_concurrent_launch_orders four_cpus 6 7)
build_concurrent_launch_orders-Schedules_example =
    build_concurrent_launch_orders-Schedules four_cpus 6 7 four_cpus-IsCpuArray
      four_cpus-IsWithinLimits

build_balanced_group_orders-Schedules_example :
    Schedules (group_indices 3) 8 (build_balanced_group_orders 3 8 99)
build_balanced_group_orders-Schedules_example =
    build_balanced_group_orders-Schedules 3 8 99 (omega arith) (omega arith) (omega arith)
