-- ===== src/Campaign/Topology/Sound.antt =====
-- What a discovered topology is.
use fault_affinity.Prelude.{
  ℕ, ◌≤◌, ◌≡◌, sym, ap, ◌∙◌, subst, inl, inr, Bool, true, false, List, [], ◌∷◌, ◌++◌, All, length,
  every, some_of, includes, leb, leb→le, Option, none, some, not, ◌&&◌, ◌||◌, Outcome, ok, throw,
  require, present, bind_returns, then_returns, require_holds, ok_inj, ◌==◌, ==_iff, Bool-cases,
  arith,
}
use fault_affinity.Prelude.Increasing.{Increasing, sorted_unique-Increasing, every_subset}
use fault_affinity.Text.{Text, codes}
use fault_affinity.Schedule.Orders.{RunnerError, max_cpu_id}
use fault_affinity.Schedule.Orders.Validity.{All-every}
use fault_affinity.CpuList.{expand_cpu_list}
use fault_affinity.CpuList.RoundTrip.{expand_cpu_list-IsCpuArray}
use fault_affinity.Campaign.Sysfs.{
  Sysfs, few_cpus, no_allowance, overlapping_classes, uncovered_cpu, read_line, read_optional_line,
  parse_cpu_spec, spec_result, intersection, union, same_cpu_list,
}
use fault_affinity.Campaign.Units.Partition.{every_of, IsPlaced}
use fault_affinity.Campaign.Topology.{
  class_context, efficient_contexts, or_uniform, pinned_contexts, class_cpus, is_there,
  CampaignTopology, classified_topology, usable_topology, discover_topology,
}
use fault_affinity.Campaign.Topology.Placed.{
  includes-intersection, IsClass, IsGroup, contexts-IsGroup, pinned_contexts-IsPlaced,
}

intersection-Increasing : (left right : List ℕ) → Increasing (intersection left right)
unfolding intersection
intersection-Increasing left right = sorted_unique-Increasing _

usable-IsClass : (left right : List ℕ) → IsClass (intersection left right) (intersection left right)
usable-IsClass left right = record {
  within = λ a h. h;
  increasing = intersection-Increasing left right;
}

class_cpus-IsClass :
    (usable : List ℕ) (text : Option Text) {cpus : List ℕ}
    → class_cpus usable text ≡ ok cpus
    → IsClass usable cpus
class_cpus-IsClass usable none h =
    subst (IsClass usable) (ok_inj h) (record { within = λ a k. cc; increasing = tt })
class_cpus-IsClass usable (some spec) h =
    let (listed, _, last) = bind_returns (parse_cpu_spec spec) _ h in
    subst (IsClass usable) (ok_inj last) (record {
      within = λ a k. (let both = sym (includes-intersection listed usable a) ∙ k in ground arith);
      increasing = intersection-Increasing listed usable;
    })

disjoint :
    (xs ys : List ℕ)
    → some_of (λ cpu. includes ys cpu) xs ≡ false
    → (a : ℕ) → includes xs a ≡ true
    → includes ys a ≡ false
disjoint [] ys h a m = cc
disjoint (x ∷ xs) ys h a m = elim (Bool-cases (x == a)) [
  | inl e ↦
      let same : x ≡ a = (==_iff x a).0 e in subst (λ c. includes ys c ≡ false) same (ground arith)
  | inr n ↦ disjoint xs ys (ground arith) a (ground arith)
]

abbrev pub in_bounds : ℕ → Bool
in_bounds cpu = leb cpu max_cpu_id

-- Every CPU that an intersection keeps is in range, as those on its left are.
intersection-in_bounds :
    (left right : List ℕ)
    → every in_bounds left ≡ true
    → every in_bounds (intersection left right) ≡ true
intersection-in_bounds left right h = every_subset in_bounds (intersection left right) left h (
    every_of left (intersection left right)
      (λ a k. (let both = sym (includes-intersection left right a) ∙ k in ground arith)))

spec_result_ok :
    {A : Type 0} (read : Outcome RunnerError A) {value : A}
    → spec_result read ≡ ok value
    → read ≡ ok value
spec_result_ok (throw e) h = cc
spec_result_ok (ok found) h = ap ok (ok_inj h)

parse_cpu_spec-in_bounds :
    (spec : Text) {cpus : List ℕ} → parse_cpu_spec spec ≡ ok cpus → every in_bounds cpus ≡ true
unfolding parse_cpu_spec
parse_cpu_spec-in_bounds spec {cpus} h =
    All-every cpus
      (expand_cpu_list-IsCpuArray spec (spec_result_ok (expand_cpu_list spec) h)).in_range

-- The usable CPUs are those online and allowed, at least two, in increasing order and of ids in range;
-- the two classes are apart; the groups are contexts of usable CPUs, and each pinned context has a controller.
pub record IsDiscovered (t : CampaignTopology) : Type 0 where
  pub several : 2 ≤ length t.usable
  pub increasing : Increasing t.usable
  pub in_range : every in_bounds t.usable ≡ true
  pub common : (a : ℕ) → includes t.usable a ≡ (includes t.online a && includes t.allowed a)
  pub apart : (a : ℕ) → includes t.performance a ≡ true → includes t.efficient a ≡ false
  pub grouped : All (IsGroup t.usable) t.groups
  pub placed : All (IsPlaced t.usable) t.pinned_concurrent

classified_topology-IsDiscovered :
    (short_digest : Text → Text) (sysfs : Sysfs) (online allowed : List ℕ) (hybrid : Bool)
    (p_cpus e_cpus : List ℕ) {found : CampaignTopology}
    → every in_bounds online ≡ true
    → 2 ≤ length (intersection online allowed)
    → IsClass (intersection online allowed) p_cpus
    → IsClass (intersection online allowed) e_cpus
    → classified_topology short_digest sysfs online allowed hybrid p_cpus e_cpus ≡ ok found
    → IsDiscovered found
unfolding classified_topology
classified_topology-IsDiscovered short_digest sysfs online allowed hybrid p_cpus e_cpus {found} ids
      several p e h =
    let usable = intersection online allowed in
    let overlap = some_of (λ cpu. includes e_cpus cpu) p_cpus in
    let covered = not hybrid || same_cpu_list (union p_cpus e_cpus) usable in
    let (apart, h₁) = then_returns (require (not overlap) overlapping_classes) _ h in
    let (_, h₂) = then_returns (require covered uncovered_cpu) _ h₁ in
    let (clusters, clustered, h₃) =
      bind_returns (efficient_contexts short_digest sysfs usable e_cpus) _ h₂ in
    let contexts =
      or_uniform usable (class_context (codes "pcores") (codes "pcore") p_cpus ++ clusters) in
    let (pinned, placed, last) = bind_returns (pinned_contexts sysfs usable contexts) _ h₃ in
    let groups : All (IsGroup usable) contexts =
      contexts-IsGroup short_digest sysfs usable p_cpus e_cpus (usable-IsClass online allowed)
        (omega (arith, several)) p e clustered in
    let distinct = require_holds (not overlap) overlapping_classes apart in
    let made : CampaignTopology = record {
      online = online;
      allowed = allowed;
      usable = usable;
      performance = p_cpus;
      efficient = e_cpus;
      is_uniform = not hybrid;
      groups = contexts;
      pinned_concurrent = pinned;
    } in
    subst IsDiscovered {x = made} (ok_inj last) (record {
      several = several;
      increasing = intersection-Increasing online allowed;
      in_range = intersection-in_bounds online allowed ids;
      common = includes-intersection online allowed;
      apart = disjoint p_cpus e_cpus (ground arith);
      grouped = groups;
      placed = pinned_contexts-IsPlaced sysfs usable contexts groups placed;
    })

usable_topology-IsDiscovered :
    (short_digest : Text → Text) (sysfs : Sysfs) (online allowed : List ℕ)
    {found : CampaignTopology}
    → every in_bounds online ≡ true
    → usable_topology short_digest sysfs online allowed ≡ ok found
    → IsDiscovered found
unfolding usable_topology
usable_topology-IsDiscovered short_digest sysfs online allowed ids h =
    let usable = intersection online allowed in
    let (several, h₁) = then_returns (require (leb 2 (length usable)) few_cpus) _ h in
    let (p_text, _, h₂) = bind_returns (read_optional_line sysfs.performance) _ h₁ in
    let (e_text, _, h₃) = bind_returns (read_optional_line sysfs.efficient) _ h₂ in
    let (p_cpus, p_read, h₄) = bind_returns (class_cpus usable p_text) _ h₃ in
    let (e_cpus, e_read, h₅) = bind_returns (class_cpus usable e_text) _ h₄ in
    classified_topology-IsDiscovered short_digest sysfs online allowed
      (is_there p_text || is_there e_text) p_cpus e_cpus ids
      (leb→le 2 (length usable) (require_holds _ few_cpus several))
      (class_cpus-IsClass usable p_text p_read) (class_cpus-IsClass usable e_text e_read) h₅

-- A topology that is discovered has as usable CPUs those that are online and allowed, at least two, in
-- increasing order, with ids in range; its performance and efficiency CPUs are apart; each group is of usable CPUs, at least one,
-- in increasing order; and so is each pinned context, also one that was halved because it left no
-- CPU, and its controller is a usable CPU outside it.
pub discover_topology-IsDiscovered :
    (short_digest : Text → Text) (sysfs : Sysfs) (allowed_spec : Option Text)
    {found : CampaignTopology}
    → discover_topology short_digest sysfs allowed_spec ≡ ok found
    → IsDiscovered found
unfolding discover_topology
discover_topology-IsDiscovered short_digest sysfs allowed_spec h =
    let (online_spec, _, h₁) = bind_returns (read_line sysfs.online) _ h in
    let (effective, _, h₂) = bind_returns (present allowed_spec no_allowance) _ h₁ in
    let (online, listed, h₃) = bind_returns (parse_cpu_spec online_spec) _ h₂ in
    let (allowed, _, h₄) = bind_returns (parse_cpu_spec effective) _ h₃ in
    usable_topology-IsDiscovered short_digest sysfs online allowed
      (parse_cpu_spec-in_bounds online_spec listed) h₄
