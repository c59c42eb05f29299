-- ===== src/ExactCpu/Resume/Examples.antt =====
-- A phase of two CPUs and two rounds, with evidence that is a number: 0 is an invalid outcome.
use fault_affinity.Prelude.{
  ℕ, zero, suc, ◌+◌, ◌≡◌, refl, Bool, true, false, [], ◌∷◌, Option, some, length, get_elem?,
  Outcome, ok,
}
use fault_affinity.Text.{Text, codes, decimal, replicate_char}
use fault_affinity.Schedule.Rng.{create_uint32_rng, next_uint32, output, random_below, draw}
use fault_affinity.Schedule.Orders.{
  validate_count, validate_seed, validate_cpu_array, validate_schedule_size, swap, shuffle_from,
  shuffle, block_orders, draw_block, build_blocks, build_cyclic_orders, build_isolated_orders,
}
use fault_affinity.ExactCpu.Plan.{
  Slot, IsolatedPlan, validate_canonical_cpu_array, validate_rounds_and_seed, build_isolated_plan,
}
use fault_affinity.ExactCpu.Phase.{
  Resolved, Workload, Manifest, Digests, phase_name, schedule_algorithm, affinity_mode,
  workload_binding, validate_workload_binding, validate_schedule, validate_manifest,
}
use fault_affinity.ExactCpu.Envelope.{
  Evidences, Envelope, validate_slot, validate_affinity_witness, validate_attempt_envelope,
  build_attempt_envelope,
}
use fault_affinity.ExactCpu.Resume.{
  committed, assessed, check_prefix, assess_prefix_with_context, commit_result, run_next_attempt,
}
use fault_affinity.ExactCpu.Resume.Prefix.{
  FollowsFrom, IsProgress, assess_prefix_with_context_sound,
}
use fault_affinity.ExactCpu.Resume.Committed.{run_next_attempt_committed}

abbrev hex : Text
hex = replicate_char 64 b'a'

abbrev digests : Digests
digests = record {
  plan_binding = λ slots. record { sha256 = hex; bytes = length slots };
  identity_sha256 = λ identity. hex;
}

abbrev is_positive : ℕ → Bool
is_positive zero = false
is_positive (suc n) = true

-- A result is the CPU that the workload ran on.
abbrev evidences : Evidences ℕ ℕ
evidences = record {
  parse = λ evidence. some evidence;
  build = λ result. ok (result + 1);
  is_valid = is_positive;
  binding = λ evidence. record { sha256 = hex; bytes = evidence };
  cpu_affinity = λ result. some (record {
    mode = [];
    requested_cpu = result;
    supervisor_allowed_cpu_list = decimal result;
    workload_allowed_cpu_list = decimal result;
  });
}

abbrev resolved : Resolved
resolved = record {
  version = 1;
  id = codes "churn";
  digest = hex;
  isolated = true;
  baseline = true;
}

abbrev workload : Workload
workload = record { contract_version = 1; id = codes "churn"; digest = hex }

abbrev slot : ℕ → ℕ → ℕ → ℕ → Slot
slot ordinal round position cpu = record {
  ordinal = ordinal;
  round = round;
  position = position;
  cpu = cpu;
}

abbrev plan : IsolatedPlan
plan = record {
  records = slot 1 1 1 2 ∷ slot 2 1 2 5 ∷ slot 3 2 1 5 ∷ slot 4 2 2 2 ∷ [];
  cpus = 2 ∷ 5 ∷ [];
  rounds = 2;
  seed = 7;
}

abbrev manifest : Manifest
manifest = record {
  version = 1;
  phase = phase_name;
  generation = replicate_char 32 b'0';
  workload = workload;
  affinity_mode = affinity_mode;
  taskset_path = codes "/usr/bin/taskset";
  schedule = record {
    identity = record {
      version = 1;
      algorithm = schedule_algorithm;
      seed = 7;
      cpus = 2 ∷ 5 ∷ [];
      rounds = 2;
      attempt_count = 4;
      plan = record { sha256 = hex; bytes = 4 };
      record_count = 4;
    };
    digest = hex;
  };
}

manifest_plan : validate_manifest digests resolved manifest ≡ ok plan
unfolding validate_manifest validate_schedule validate_workload_binding workload_binding
    build_isolated_plan validate_canonical_cpu_array validate_rounds_and_seed build_isolated_orders
    build_cyclic_orders build_blocks draw_block block_orders shuffle shuffle_from swap random_below
    draw next_uint32 output create_uint32_rng validate_count validate_seed validate_cpu_array
    validate_schedule_size
manifest_plan = refl

abbrev envelope : Slot → Envelope ℕ
envelope slot = record {
  version = 1;
  phase = phase_name;
  generation = replicate_char 32 b'0';
  workload = workload;
  schedule_digest = hex;
  slot = slot;
  affinity = record {
    mode = affinity_mode;
    requested_cpu = slot.cpu;
    supervisor_allowed_cpu_list = decimal slot.cpu;
    workload_allowed_cpu_list = decimal slot.cpu;
  };
  binding = record { sha256 = hex; bytes = slot.cpu + 1 };
  evidence = slot.cpu + 1;
}

abbrev first_envelope : Envelope ℕ
first_envelope = envelope (slot 1 1 1 2)

abbrev second_envelope : Envelope ℕ
second_envelope = envelope (slot 2 1 2 5)

stored :
    assess_prefix_with_context evidences resolved manifest plan (first_envelope ∷ [])
    ≡ ok (assessed plan 1)
unfolding assess_prefix_with_context check_prefix validate_attempt_envelope validate_slot
    validate_affinity_witness validate_workload_binding workload_binding decimal
stored = refl

abbrev run_attempt : ℕ → Text → Outcome (Option Text) ℕ
run_attempt cpu taskset_path = ok cpu

second_committed :
    run_next_attempt evidences resolved manifest digests run_attempt (first_envelope ∷ [])
    ≡ ok (committed (slot 2 1 2 5) second_envelope)
unfolding run_next_attempt commit_result build_attempt_envelope assess_prefix_with_context
    check_prefix validate_attempt_envelope validate_slot validate_affinity_witness validate_manifest
    validate_schedule validate_workload_binding workload_binding build_isolated_plan
    validate_canonical_cpu_array validate_rounds_and_seed build_isolated_orders build_cyclic_orders
    build_blocks draw_block block_orders shuffle shuffle_from swap random_below draw next_uint32
    output create_uint32_rng validate_count validate_seed validate_cpu_array validate_schedule_size
    decimal
second_committed = refl

assess_prefix_with_context_sound_example :
    FollowsFrom evidences resolved manifest plan.records 0 (first_envelope ∷ [])
    × IsProgress plan 1 (assessed plan 1)
assess_prefix_with_context_sound_example =
    assess_prefix_with_context_sound evidences resolved manifest plan (first_envelope ∷ []) stored

run_next_attempt_committed_example :
    (found : IsolatedPlan) × (validate_manifest digests resolved manifest ≡ ok found)
    × (get_elem? found.records 1 ≡ some (slot 2 1 2 5))
    × (assess_prefix_with_context evidences resolved manifest found
          (first_envelope ∷ second_envelope ∷ [])
        ≡ ok (assessed found 2))
run_next_attempt_committed_example =
    run_next_attempt_committed evidences resolved manifest digests run_attempt (first_envelope ∷ [])
      second_committed
