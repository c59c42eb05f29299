-- ===== src/Discovery/Plan/Examples.antt =====
-- The plan for a machine with two performance and three efficient CPUs.
use fault_affinity.Prelude.{ℕ, ◌+◌, ◌*◌, ◌%◌, ◌≡◌, refl, [], ◌∷◌, false, none, some, All, ok, arith}
use fault_affinity.Prelude.Increasing.{sorted_unique}
use fault_affinity.Text.{codes, decimal, parse_decimal}
use fault_affinity.Campaign.Profiles.{quick, inherited}
use fault_affinity.Schedule.Orders.{validate_cpu_array}
use fault_affinity.CpuList.{
  validate_cpu, validate_string, parse_token, push_range, expand_tokens, expand_cpu_list,
}
use fault_affinity.Campaign.Sysfs.{
  absent, content, Sysfs, read_line, read_optional_line, parse_cpu_spec, intersection, union,
  first_outside,
}
use fault_affinity.Campaign.Units.{Context, PinnedContext, no_cluster}
use fault_affinity.Campaign.Topology.{
  cluster_for_cpu, clusters_of, efficient_contexts, pinned_contexts, CampaignTopology,
  classified_topology, usable_topology, discover_topology,
}
use fault_affinity.Discovery.Plan.Discovered.{build_plan-topology_of, IsOpen}
use fault_affinity.Discovery.Plan.{
  sysfs_hybrid, Topology, Session, Plan, Options, loaded_protocol, loaded_recipe, order_algorithm,
  selected_cpus, session_directory, check_choice, build_sessions, make_plan, cpu_list,
  check_sessions, parse_plan, build_plan,
}
use fault_affinity.Discovery.Plan.Lists.{IsTopology}
use fault_affinity.Discovery.Plan.Built.{build_plan-make_plan}
use fault_affinity.Discovery.Plan.Valid.{IsRunnable, parse_plan_sound}

abbrev digest : ℕ → ℕ → ℕ
digest seed cpu = (seed + 7 * cpu) % 10

abbrev topology : Topology
topology = record {
  usable = 0 ∷ 1 ∷ 4 ∷ 5 ∷ 6 ∷ [];
  performance = 0 ∷ 1 ∷ [];
  efficient = 4 ∷ 5 ∷ 6 ∷ [];
  source = sysfs_hybrid;
}

topology-IsTopology : IsTopology topology
topology-IsTopology = record { increasing = ground arith; in_range = refl; known_source = refl }

abbrev options : Options
options = record {
  recipe = loaded_recipe;
  profile = quick;
  target_cpus = none;
  load_cpus = none;
  seed = 17;
  taskset_path = codes "/usr/bin/taskset";
}

abbrev session : ℕ → ℕ → ℕ → Session
session ordinal target controller = record {
  ordinal = ordinal;
  target_cpu = target;
  controller_cpu = controller;
  directory = session_directory target;
}

abbrev plan : Plan
plan = record {
  version = 1;
  protocol = loaded_protocol;
  recipe = loaded_recipe;
  profile = quick;
  taskset_path = codes "/usr/bin/taskset";
  source = sysfs_hybrid;
  usable_cpus = 0 ∷ 1 ∷ 4 ∷ 5 ∷ 6 ∷ [];
  target_cpus = 4 ∷ 5 ∷ 6 ∷ [];
  load_cpus = 0 ∷ 1 ∷ [];
  algorithm = order_algorithm;
  seed = 17;
  attempts_per_leg = some 3;
  warmup_ms = some 0;
  recovery_ms = some 5_000;
  sessions = session 1 5 4 ∷ session 2 4 6 ∷ session 3 6 4 ∷ [];
}

built : build_plan digest topology options ≡ ok plan
unfolding build_plan make_plan parse_plan build_sessions check_sessions selected_cpus cpu_list
    check_choice sorted_unique decimal
built = refl

build_plan-make_plan_example :
    build_plan digest topology options ≡ make_plan digest topology options
build_plan-make_plan_example =
    build_plan-make_plan digest topology options topology-IsTopology (λ e. cc e)

parsed : parse_plan digest plan ≡ ok plan
unfolding parse_plan check_sessions cpu_list sorted_unique decimal
parsed = refl

-- With the profile `constructor`.
abbrev odd_options : Options
odd_options = record options { profile = inherited }

abbrev odd_plan : Plan
odd_plan = record plan {
  profile = inherited;
  attempts_per_leg = none;
  warmup_ms = none;
  recovery_ms = none;
}

parse_plan_sound_example : (plan ≡ plan) × IsRunnable digest plan
parse_plan_sound_example = parse_plan_sound digest plan parsed

-- The same machine, as its files describe it.
abbrev files : Sysfs
files = record {
  online = content (codes "0-1,4-6");
  performance = content (codes "0-1");
  efficient = content (codes "4-6");
  package_id = λ cpu. absent;
  core_id = λ cpu. absent;
  cluster_id = λ cpu. absent;
  shared_l2 = λ cpu. absent;
}

abbrev placed : Context → ℕ → PinnedContext
placed context controller = record {
  id = context.id;
  kind = context.kind;
  cpus = context.cpus;
  cluster = no_cluster;
  controller_cpu = some controller;
}

abbrev performance_cores : Context
performance_cores = record {
  id = codes "pcores";
  kind = codes "pcore";
  cpus = 0 ∷ 1 ∷ [];
  cluster = none;
}

abbrev efficiency_cores : Context
efficiency_cores = record {
  id = codes "ecores";
  kind = codes "ecore";
  cpus = 4 ∷ 5 ∷ 6 ∷ [];
  cluster = none;
}

abbrev found : CampaignTopology
found = record {
  online = topology.usable;
  allowed = topology.usable;
  usable = topology.usable;
  performance = topology.performance;
  efficient = topology.efficient;
  is_uniform = false;
  groups = performance_cores ∷ efficiency_cores ∷ [];
  pinned_concurrent = placed performance_cores 4 ∷ placed efficiency_cores 0 ∷ [];
}

discovered : discover_topology (λ label. label) files (some (codes "0-1,4-6")) ≡ ok found
unfolding discover_topology usable_topology classified_topology read_line read_optional_line
    parse_cpu_spec expand_cpu_list validate_cpu_array validate_cpu validate_string parse_token
    expand_tokens push_range parse_decimal intersection union sorted_unique efficient_contexts
    clusters_of cluster_for_cpu pinned_contexts first_outside
discovered = refl

build_plan-topology_of_example :
    All (IsOpen found) plan.target_cpus
    × All (IsOpen found) plan.load_cpus
    × All (λ (session : Session). IsOpen found session.controller_cpu) plan.sessions
build_plan-topology_of_example =
    build_plan-topology_of digest (λ label. label) files (some (codes "0-1,4-6")) options discovered
      built
