-- ===== src/Discovery/Plan/Made.antt =====
-- What holds of a plan that the builder hands to the parser.
use fault_affinity.Prelude.{
  ℕ, ◌≤◌, ◌≡◌, refl, subst, true, some, length, every, includes, leb, leb→le, not, ok, require,
  present, bind_returns, then_returns, require_holds, present-some, ok_inj,
}
use fault_affinity.Text.{text_eq, is_absolute_path}
use fault_affinity.Campaign.Profiles.{NamedProfile, number_of, profile_by_name}
use fault_affinity.Schedule.Orders.{max_seed}
use fault_affinity.Discovery.Plan.{
  few_cpus, bad_recipe, bad_taskset, bad_profile, bad_seed, many_workers, overlap, is_given,
  Topology, Plan, Options, max_workers, loaded_protocol, loaded_recipe, order_algorithm,
  selected_cpus, target_order, build_sessions, check_choice, make_plan,
}
use fault_affinity.Discovery.Plan.Lists.{IsSelection, selected_cpus-IsSelection}

-- What the parser needs of a plan beside its sessions, once the builder's checks have passed.
pub record IsMade (topology : Topology) (plan : Plan) (profile : NamedProfile) : Type 0 where
  pub several : 3 ≤ length topology.usable
  pub usable : plan.usable_cpus ≡ topology.usable
  pub source : plan.source ≡ topology.source
  pub version : plan.version ≡ 1
  pub protocol : plan.protocol ≡ loaded_protocol
  pub recipe : text_eq plan.recipe loaded_recipe ≡ true
  pub taskset : is_absolute_path plan.taskset_path ≡ true
  pub named : profile_by_name plan.profile ≡ some profile
  pub seed : leb plan.seed max_seed ≡ true
  pub algorithm : plan.algorithm ≡ order_algorithm
  pub attempts : plan.attempts_per_leg ≡ number_of (λ p. p.attempts_per_leg) profile
  pub warmup : plan.warmup_ms ≡ number_of (λ p. p.warmup_ms) profile
  pub recovery : plan.recovery_ms ≡ number_of (λ p. p.recovery_ms) profile
  pub targets : IsSelection topology.usable plan.target_cpus
  pub loads : IsSelection topology.usable plan.load_cpus
  pub few_loads : length plan.load_cpus ≤ max_workers
  pub apart : every (λ cpu. not (includes plan.load_cpus cpu)) plan.target_cpus ≡ true

module _ (digest : ℕ → ℕ → ℕ) where
  unfoldable pub Made : Topology → Plan → Type 0
  Made topology plan =
      (profile : NamedProfile) × IsMade topology plan profile
      × (build_sessions plan.usable_cpus plan.load_cpus 0
            (target_order digest plan.target_cpus plan.seed)
          ≡ ok plan.sessions)

  pub make_plan-Made :
      (topology : Topology) (options : Options) (plan : Plan)
      → make_plan digest topology options ≡ ok plan
      → Made topology plan
  unfolding make_plan Made
  make_plan-Made topology options plan h =
      let (several, h₁) = then_returns (require (leb 3 (length topology.usable)) few_cpus) _ h in
      let (recipe, h₂) =
        then_returns (require (text_eq options.recipe loaded_recipe) bad_recipe) _ h₁ in
      let (taskset, h₃) =
        then_returns (require (is_absolute_path options.taskset_path) bad_taskset) _ h₂ in
      let (profile, named, h₄) =
        bind_returns (present (profile_by_name options.profile) bad_profile) _ h₃ in
      let (seed, h₅) = then_returns (require (leb options.seed max_seed) bad_seed) _ h₄ in
      let (_, h₆) =
        then_returns
          (check_choice topology.source (is_given options.target_cpus) (is_given options.load_cpus))
          _ h₅ in
      let (targets, t, h₇) =
        bind_returns (selected_cpus topology.usable options.target_cpus topology.efficient) _ h₆ in
      let (workers, w, h₈) =
        bind_returns (selected_cpus topology.usable options.load_cpus topology.performance) _ h₇ in
      let (few, h₉) = then_returns (require (leb (length workers) max_workers) many_workers) _ h₈ in
      let (apart, h₁₀) =
        then_returns (require (every (λ cpu. not (includes workers cpu)) targets) overlap) _ h₉ in
      let (sessions, built, last) =
        bind_returns
          (build_sessions topology.usable workers 0 (target_order digest targets options.seed)) _
          h₁₀ in
      subst (Made topology) (ok_inj last) (
        profile,
        record {
          several = leb→le _ _ (require_holds _ few_cpus several);
          usable = refl;
          source = refl;
          version = refl;
          protocol = refl;
          recipe = require_holds _ bad_recipe recipe;
          taskset = require_holds _ bad_taskset taskset;
          named = present-some (profile_by_name options.profile) bad_profile named;
          seed = require_holds _ bad_seed seed;
          algorithm = refl;
          attempts = refl;
          warmup = refl;
          recovery = refl;
          targets =
              selected_cpus-IsSelection topology.usable options.target_cpus topology.efficient
                targets t;
          loads =
              selected_cpus-IsSelection topology.usable options.load_cpus topology.performance
                workers w;
          few_loads = leb→le _ _ (require_holds _ many_workers few);
          apart = require_holds _ overlap apart;
        },
        built,
      )
