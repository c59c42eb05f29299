-- ===== src/Campaign/Topology.antt =====
-- `discoverCampaignTopology` of src/fault-affinity/campaign-topology.mjs, over what its reads of sysfs
-- find.
pub mod Placed
pub mod Sound
mod Examples
use fault_affinity.Prelude.{
  ℕ, zero, suc, ◌+◌, ◌*◌, Bool, true, false, List, [], ◌∷◌, ◌++◌, map, Option, none, some, length,
  every, some_of, includes, select, ltb, leb, ◌==◌, if◌then◌else◌, not, ◌&&◌, ◌||◌, Outcome, ok,
  throw, ◌>>=◌, ◌>>◌, require, present,
}
use fault_affinity.Prelude.Sorting.{sort_by}
use fault_affinity.Prelude.Increasing.{sorted_unique}
use fault_affinity.Text.{Text, text_eq, codes, decimal, parse_decimal}
use fault_affinity.Attempt.Launch.{byte_length}
use fault_affinity.Schedule.Orders.{RunnerError, max_cpu_id}
use fault_affinity.CpuList.{expand_cpu_list, compress_cpu_list}
use fault_affinity.Campaign.Sysfs.{
  unreadable_file, bad_file, bad_line, bad_cpu_spec, no_allowance, few_cpus, overlapping_classes,
  uncovered_cpu, no_controller, unpartitioned, compression, absent, unreadable, content,
  TopologyError, FileRead, Sysfs, max_sysfs_text_bytes, drop_newline, is_line, line_of, some_line,
  read_line, read_optional_line, spec_result, parse_cpu_spec, intersection, union, same_cpu_list,
  is_uint, is_uint_text, first_outside, id_or, unknown_package, core_unit_key,
}
use fault_affinity.Campaign.Units.{
  CpuUnit, add_to_unit, text_ltb, key_first, ordered_units, core_units, alternate, Context,
  PinnedContext, no_cluster, partition_of, halves, partition_context,
}

pub record Cluster : Type 0 where
  pub key : Text
  pub label : Text

abbrev pub compressed {ℓ} : {A : Type ℓ} → Outcome RunnerError A → Outcome TopologyError A
compressed (throw e) = throw (compression e)
compressed (ok text) = ok text

-- The shared L2 list, where there is no cluster id.
abbrev pub l2_cluster : List ℕ → Text → Option Text → Outcome TopologyError (Option Cluster)
l2_cluster usable package_name none = ok none
l2_cluster usable package_name (some spec) = parse_cpu_spec spec >>= (λ listed.
    let shared = intersection listed usable in
    if length shared == 0
    then ok none
    else compressed (compress_cpu_list shared) >>= (λ text.
      let label = codes "l2:" ++ text in
      ok (some (record { key = package_name ++ (b'|' ∷ label); label = label }))))

abbrev pub cluster_of :
    Sysfs → List ℕ → ℕ → Text → Option Text → Outcome TopologyError (Option Cluster)
cluster_of sysfs usable cpu package_name none =
    read_optional_line (sysfs.shared_l2 cpu) >>= (λ text. l2_cluster usable package_name text)
cluster_of sysfs usable cpu package_name (some text) =
    let shared =
      read_optional_line (sysfs.shared_l2 cpu) >>= (λ l2. l2_cluster usable package_name l2) in
    if is_uint_text text
    then ok (
        some (record {
          key = package_name ++ (b'|' ∷ text);
          label = codes "topo:" ++ (package_name ++ (b':' ∷ text));
        }))
    else shared

unfoldable pub cluster_for_cpu : Sysfs → List ℕ → ℕ → Outcome TopologyError (Option Cluster)
cluster_for_cpu sysfs usable cpu = do
  package_text ← read_optional_line (sysfs.package_id cpu)
  cluster_text ← read_optional_line (sysfs.cluster_id cpu)
  cluster_of sysfs usable cpu (id_or package_text unknown_package) cluster_text

-- A CPU without a cluster is passed over.
abbrev pub add_cluster : Option Cluster → ℕ → List CpuUnit → List CpuUnit
add_cluster none cpu units = units
add_cluster (some cluster) cpu units = add_to_unit cluster.key cluster.label cpu units

unfoldable pub clusters_of :
    Sysfs → List ℕ → List ℕ → List CpuUnit → Outcome TopologyError (List CpuUnit)
clusters_of sysfs usable [] units = ok units
clusters_of sysfs usable (cpu ∷ cpus) units =
    cluster_for_cpu sysfs usable cpu
    >>= (λ cluster. clusters_of sysfs usable cpus (add_cluster cluster cpu units))

abbrev pub starts_with_l2 : Text → Bool
starts_with_l2 (b ∷ c ∷ d ∷ rest) = b == b'l' && (c == b'2' && d == b':')
starts_with_l2 _ = false

abbrev pub class_context : Text → Text → List ℕ → List Context
class_context id kind cpus =
    if length cpus == 0
    then []
    else (record { id = id; kind = kind; cpus = cpus; cluster = none }) ∷ []

abbrev pub or_uniform : List ℕ → List Context → List Context
or_uniform usable [] =
    (record { id = codes "all-cpus"; kind = codes "uniform"; cpus = usable; cluster = none }) ∷ []
or_uniform usable (context ∷ contexts) = context ∷ contexts

-- `short_digest` is the first 12 hexadecimal digits of a SHA-256 digest.
module _ (short_digest : Text → Text) where
  abbrev pub cluster_context : CpuUnit → Context
  cluster_context unit = record {
    id =
        (if starts_with_l2 unit.label then codes "ecluster-l2" else codes "ecluster-topo")
        ++ (b'-' ∷ short_digest unit.label);
    kind = codes "ecluster";
    cpus = sorted_unique unit.cpus;
    cluster = some unit.label;
  }

  unfoldable pub efficient_contexts : Sysfs → List ℕ → List ℕ → Outcome TopologyError (List Context)
  efficient_contexts sysfs usable e_cpus = clusters_of sysfs usable e_cpus [] >>= (λ units. ok (
      class_context (codes "ecores") (codes "ecore") e_cpus
      ++ map cluster_context (ordered_units units)))

abbrev pub cluster_or : Option Text → Text
cluster_or none = no_cluster
cluster_or (some label) = label

-- A context that leaves a usable CPU takes it for its controller; one that leaves none is halved.
abbrev pub pinned_of :
    Sysfs → List ℕ → Context → Option ℕ → Outcome TopologyError (List PinnedContext)
pinned_of sysfs usable context none = partition_context sysfs usable context
pinned_of sysfs usable context (some controller) = ok (
    (record {
      id = context.id;
      kind = context.kind;
      cpus = context.cpus;
      cluster = cluster_or context.cluster;
      controller_cpu = some controller;
    })
    ∷ [])

unfoldable pub pinned_contexts :
    Sysfs → List ℕ → List Context → Outcome TopologyError (List PinnedContext)
pinned_contexts sysfs usable [] = ok []
pinned_contexts sysfs usable (context ∷ contexts) =
    let later = pinned_contexts sysfs usable contexts in
    pinned_of sysfs usable context (first_outside usable context.cpus)
    >>= (λ here. later >>= (λ rest. ok (here ++ rest)))

-- The CPUs of a class among the usable ones; none where the file is not there.
abbrev pub class_cpus : List ℕ → Option Text → Outcome TopologyError (List ℕ)
class_cpus usable none = ok []
class_cpus usable (some spec) = parse_cpu_spec spec >>= (λ listed. ok (intersection listed usable))

abbrev pub is_there {ℓ} : {A : Type ℓ} → Option A → Bool
is_there none = false
is_there (some value) = true

pub record CampaignTopology : Type 0 where
  pub online : List ℕ
  pub allowed : List ℕ
  pub usable : List ℕ
  pub performance : List ℕ
  pub efficient : List ℕ
  pub is_uniform : Bool
  pub groups : List Context
  pub pinned_concurrent : List PinnedContext

-- What follows the reading of the two classes; `hybrid` tells whether either file is there.
unfoldable pub classified_topology :
    (Text → Text)
    → Sysfs
    → List ℕ
    → List ℕ
    → Bool
    → List ℕ
    → List ℕ
    → Outcome TopologyError CampaignTopology
classified_topology short_digest sysfs online allowed hybrid p_cpus e_cpus = do
  let usable = intersection online allowed
  require (not (some_of (λ cpu. includes e_cpus cpu) p_cpus)) overlapping_classes
  require (not hybrid || same_cpu_list (union p_cpus e_cpus) usable) uncovered_cpu
  clusters ← efficient_contexts short_digest sysfs usable e_cpus
  let contexts =
      or_uniform usable (class_context (codes "pcores") (codes "pcore") p_cpus ++ clusters)
  pinned ← pinned_contexts sysfs usable contexts
  ok (record {
    online = online;
    allowed = allowed;
    usable = usable;
    performance = p_cpus;
    efficient = e_cpus;
    is_uniform = not hybrid;
    groups = contexts;
    pinned_concurrent = pinned;
  })

-- What follows the reading of the online and of the allowed CPUs.
unfoldable pub usable_topology :
    (Text → Text) → Sysfs → List ℕ → List ℕ → Outcome TopologyError CampaignTopology
usable_topology short_digest sysfs online allowed = do
  let usable = intersection online allowed
  require (leb 2 (length usable)) few_cpus
  p_text ← read_optional_line sysfs.performance
  e_text ← read_optional_line sysfs.efficient
  p_cpus ← class_cpus usable p_text
  e_cpus ← class_cpus usable e_text
  classified_topology short_digest sysfs online allowed (is_there p_text || is_there e_text) p_cpus
      e_cpus

-- `allowed_spec` is the invoking process's list, null where it is unavailable.
unfoldable pub discover_topology :
    (Text → Text) → Sysfs → Option Text → Outcome TopologyError CampaignTopology
discover_topology short_digest sysfs allowed_spec = do
  online_spec ← read_line sysfs.online
  effective_allowed ← present allowed_spec no_allowance
  online ← parse_cpu_spec online_spec
  allowed ← parse_cpu_spec effective_allowed
  usable_topology short_digest sysfs online allowed
