-- ===== src/Campaign/Topology/Examples.antt =====
-- A machine of two performance CPUs, and two efficiency CPUs of one cluster; and one whose four CPUs
-- are two cores, all of one kind.
use fault_affinity.Prelude.{
  ℕ, ◌≡◌, refl, true, false, List, [], ◌∷◌, ◌++◌, none, some, ok, throw, ltb, if◌then◌else◌,
}
use fault_affinity.Prelude.Increasing.{sorted_unique}
use fault_affinity.Text.{Text, codes, parse_decimal}
use fault_affinity.Schedule.Orders.{validate_cpu_array}
use fault_affinity.CpuList.{
  validate_cpu, validate_string, parse_token, push_range, expand_tokens, expand_cpu_list,
}
use fault_affinity.Campaign.Sysfs.{
  absent, content, few_cpus, unreadable_file, no_allowance, FileRead, Sysfs, read_line,
  read_optional_line, parse_cpu_spec, intersection, union, first_outside, core_unit_key,
}
use fault_affinity.Campaign.Units.{
  add_to_unit, core_units, PinnedContext, no_cluster, partition_context,
}
use fault_affinity.Campaign.Topology.{
  cluster_for_cpu, clusters_of, efficient_contexts, pinned_contexts, CampaignTopology,
  classified_topology, usable_topology, discover_topology,
}
use fault_affinity.Campaign.Topology.Sound.{IsDiscovered, discover_topology-IsDiscovered}

abbrev file : Text → FileRead
file line = content (line ++ (10 ∷ []))

abbrev hybrid_files : Sysfs
hybrid_files = record {
  online = file (codes "0-3");
  performance = file (codes "0-1");
  efficient = file (codes "2-3");
  package_id = λ cpu. file (codes "0");
  core_id = λ cpu. absent;
  cluster_id = λ cpu. file (codes "8");
  shared_l2 = λ cpu. absent;
}

abbrev hybrid_found : CampaignTopology
hybrid_found = record {
  online = 0 ∷ 1 ∷ 2 ∷ 3 ∷ [];
  allowed = 0 ∷ 1 ∷ 2 ∷ 3 ∷ [];
  usable = 0 ∷ 1 ∷ 2 ∷ 3 ∷ [];
  performance = 0 ∷ 1 ∷ [];
  efficient = 2 ∷ 3 ∷ [];
  is_uniform = false;
  groups =
      (record { id = codes "pcores"; kind = codes "pcore"; cpus = 0 ∷ 1 ∷ []; cluster = none })
      ∷ (record { id = codes "ecores"; kind = codes "ecore"; cpus = 2 ∷ 3 ∷ []; cluster = none })
      ∷ (record {
        id = codes "ecluster-topo-topo:0:8";
        kind = codes "ecluster";
        cpus = 2 ∷ 3 ∷ [];
        cluster = some (codes "topo:0:8");
      })
      ∷ [];
  pinned_concurrent =
      (record {
        id = codes "pcores";
        kind = codes "pcore";
        cpus = 0 ∷ 1 ∷ [];
        cluster = no_cluster;
        controller_cpu = some 2;
      })
      ∷ (record {
        id = codes "ecores";
        kind = codes "ecore";
        cpus = 2 ∷ 3 ∷ [];
        cluster = no_cluster;
        controller_cpu = some 0;
      })
      ∷ (record {
        id = codes "ecluster-topo-topo:0:8";
        kind = codes "ecluster";
        cpus = 2 ∷ 3 ∷ [];
        cluster = codes "topo:0:8";
        controller_cpu = some 0;
      })
      ∷ [];
}

-- The digest of a label is the label.
hybrid : discover_topology (λ label. label) hybrid_files (some (codes "0-3")) ≡ ok hybrid_found
unfolding discover_topology usable_topology classified_topology read_line read_optional_line
    parse_cpu_spec expand_cpu_list validate_cpu_array validate_cpu validate_string parse_token
    expand_tokens push_range parse_decimal intersection union sorted_unique efficient_contexts
    clusters_of cluster_for_cpu add_to_unit pinned_contexts first_outside
hybrid = refl

-- CPUs 0 and 2 are a core, and so are 1 and 3.
abbrev uniform_files : Sysfs
uniform_files = record {
  online = file (codes "0-3");
  performance = absent;
  efficient = absent;
  package_id = λ cpu. absent;
  core_id = λ cpu. file (
      if ltb cpu 2
      then codes (if ltb cpu 1 then "5" else "4")
      else codes (if ltb cpu 3 then "5" else "4"));
  cluster_id = λ cpu. absent;
  shared_l2 = λ cpu. absent;
}

abbrev half : Text → List ℕ → ℕ → PinnedContext
half suffix cpus controller = record {
  id = codes "all-cpus" ++ suffix;
  kind = codes "uniform-partition";
  cpus = cpus;
  cluster = no_cluster;
  controller_cpu = some controller;
}

abbrev uniform_found : CampaignTopology
uniform_found = record {
  online = 0 ∷ 1 ∷ 2 ∷ 3 ∷ [];
  allowed = 0 ∷ 1 ∷ 2 ∷ 3 ∷ [];
  usable = 0 ∷ 1 ∷ 2 ∷ 3 ∷ [];
  performance = [];
  efficient = [];
  is_uniform = true;
  groups =
      (record {
        id = codes "all-cpus";
        kind = codes "uniform";
        cpus = 0 ∷ 1 ∷ 2 ∷ 3 ∷ [];
        cluster = none;
      })
      ∷ [];
  pinned_concurrent = half (codes "-a") (1 ∷ 3 ∷ []) 0 ∷ half (codes "-b") (0 ∷ 2 ∷ []) 1 ∷ [];
}

uniform : discover_topology (λ label. label) uniform_files (some (codes "0-3")) ≡ ok uniform_found
unfolding discover_topology usable_topology classified_topology read_line read_optional_line
    parse_cpu_spec expand_cpu_list validate_cpu_array validate_cpu validate_string parse_token
    expand_tokens push_range parse_decimal intersection union sorted_unique efficient_contexts
    clusters_of pinned_contexts first_outside partition_context core_units core_unit_key add_to_unit
uniform = refl

-- One CPU allowed, no allowance at all, and no list of the CPUs that are online.
refused :
    (discover_topology (λ label. label) uniform_files (some (codes "2")) ≡ throw few_cpus)
    × (discover_topology (λ label. label) uniform_files none ≡ throw no_allowance)
    × (discover_topology
          (λ label. label)
          (record uniform_files { online = absent })
          (some (codes "2"))
        ≡ throw unreadable_file)
unfolding discover_topology usable_topology read_line read_optional_line parse_cpu_spec
    expand_cpu_list validate_cpu_array validate_cpu validate_string parse_token expand_tokens
    push_range parse_decimal intersection sorted_unique
refused = (refl, refl, refl)

discover_topology-IsDiscovered_example : IsDiscovered uniform_found
discover_topology-IsDiscovered_example =
    discover_topology-IsDiscovered (λ label. label) uniform_files (some (codes "0-3")) uniform
