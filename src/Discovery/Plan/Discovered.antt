-- ===== src/Discovery/Plan/Discovered.antt =====
-- Plans of topologies that `discoverCampaignTopology` of src/fault-affinity/campaign-topology.mjs
-- returns.
use fault_affinity.Prelude.{
  ℕ, ◌≡◌, refl, sym, ◌∙◌, Bool, true, false, Option, ok, List, [], ◌∷◌, All, every, includes, ◌&&◌,
  subst, arith, bind_returns,
}
use fault_affinity.Text.{Text}
use fault_affinity.Campaign.Sysfs.{Sysfs}
use fault_affinity.Campaign.Topology.{CampaignTopology, discover_topology}
use fault_affinity.Campaign.Topology.Sound.{IsDiscovered, discover_topology-IsDiscovered}
use fault_affinity.Discovery.Plan.{
  sysfs_hybrid, uniform, Source, Topology, Session, Plan, Options, is_source, make_plan, build_plan,
}
use fault_affinity.Discovery.Plan.Lists.{IsTopology}
use fault_affinity.Discovery.Plan.Made.{Made, make_plan-Made}
use fault_affinity.Discovery.Plan.Valid.{IsSeparate, IsRunnable, parse_plan_sound}

abbrev pub source_of : Bool → Source
source_of true = uniform
source_of false = sysfs_hybrid

-- What the plan's builder reads of a discovered topology.
abbrev pub topology_of : CampaignTopology → Topology
topology_of found = record {
  usable = found.usable;
  performance = found.performance;
  efficient = found.efficient;
  source = source_of found.is_uniform;
}

is_source-source_of : (is_uniform : Bool) → is_source (source_of is_uniform) ≡ true
is_source-source_of true = refl
is_source-source_of false = refl

pub discovered-IsTopology :
    {found : CampaignTopology} → IsDiscovered found → IsTopology (topology_of found)
discovered-IsTopology {found} good = record {
  increasing = good.increasing;
  in_range = good.in_range;
  known_source = is_source-source_of found.is_uniform;
}

-- The CPU is online, and the process that discovered it may run there.
abbrev pub IsOpen : CampaignTopology → ℕ → Type 0
IsOpen found cpu = (includes found.online cpu ≡ true) × (includes found.allowed cpu ≡ true)

usable-IsOpen :
    (found : CampaignTopology) (cpu : ℕ)
    → IsDiscovered found
    → includes found.usable cpu ≡ true
    → IsOpen found cpu
usable-IsOpen found cpu good h =
    let both : (includes found.online cpu && includes found.allowed cpu) ≡ true =
      sym (good.common cpu) ∙ h in
    (ground (arith, both), ground (arith, both))

all-IsOpen :
    (found : CampaignTopology) (cpus : List ℕ)
    → IsDiscovered found
    → every (λ cpu. includes found.usable cpu) cpus ≡ true
    → All (IsOpen found) cpus
all-IsOpen found [] good h = tt
all-IsOpen found (cpu ∷ cpus) good h =
    (usable-IsOpen found cpu good (ground arith), all-IsOpen found cpus good (ground arith))

controllers-IsOpen :
    (found : CampaignTopology) (plan : Plan) (sessions : List Session)
    → IsDiscovered found
    → plan.usable_cpus ≡ found.usable
    → All (IsSeparate plan) sessions
    → All (λ (session : Session). IsOpen found session.controller_cpu) sessions
controllers-IsOpen found plan [] good same h = tt
controllers-IsOpen found plan (session ∷ sessions) good same (own, others) = (
  usable-IsOpen found session.controller_cpu good
      (subst (λ usable. includes usable session.controller_cpu ≡ true) same own.controller_usable),
  controllers-IsOpen found plan sessions good same others,
)

module _ (digest : ℕ → ℕ → ℕ) where
  Made-IsOpen :
      (found : CampaignTopology) (plan : Plan)
      → IsDiscovered found
      → IsRunnable digest plan
      → Made digest (topology_of found) plan
      → All (IsOpen found) plan.target_cpus
        × All (IsOpen found) plan.load_cpus
        × All (λ (session : Session). IsOpen found session.controller_cpu) plan.sessions
  unfolding Made
  Made-IsOpen found plan good runnable (profile, m, built) = (
    all-IsOpen found plan.target_cpus good m.targets.within,
    all-IsOpen found plan.load_cpus good m.loads.within,
    controllers-IsOpen found plan plan.sessions good m.usable runnable.separate,
  )

  -- In a plan that is built from a topology that was discovered, every target CPU, every load worker's
  -- CPU and every session's controller CPU is online and allowed to the process that discovered it.
  pub build_plan-topology_of :
      (short_digest : Text → Text) (sysfs : Sysfs) (allowed_spec : Option Text) (options : Options)
      {found : CampaignTopology} {plan : Plan}
      → discover_topology short_digest sysfs allowed_spec ≡ ok found
      → build_plan digest (topology_of found) options ≡ ok plan
      → All (IsOpen found) plan.target_cpus
        × All (IsOpen found) plan.load_cpus
        × All (λ (session : Session). IsOpen found session.controller_cpu) plan.sessions
  unfolding build_plan
  build_plan-topology_of short_digest sysfs allowed_spec options {found} {plan} h built =
      let topology = topology_of found in
      let good = discover_topology-IsDiscovered short_digest sysfs allowed_spec h in
      let (made, e, parsed) = bind_returns (make_plan digest topology options) _ built in
      let (same, runnable) = parse_plan_sound digest made parsed in
      subst
        (λ (p : Plan).
          All (IsOpen found) p.target_cpus
          × All (IsOpen found) p.load_cpus
          × All (λ (session : Session). IsOpen found session.controller_cpu) p.sessions)
        (sym same)
        (Made-IsOpen found made good runnable (make_plan-Made digest topology options made e))
