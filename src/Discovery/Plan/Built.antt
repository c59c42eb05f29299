-- ===== src/Discovery/Plan/Built.antt =====
-- The parser on the plans that the builder makes.
use fault_affinity.Prelude.{
  ℕ, ◌≡◌, ◌≢◌, leb, length, require, present, then_returns, bind_returns, ok_inj, refl, sym, ap,
  ◌∙◌, true, ◌==◌, ==_iff, Outcome, ok, throw, ◌>>=◌,
}
use fault_affinity.Text.Equality.{text_eq_complete}
use fault_affinity.Campaign.Profiles.{inherited, profile_by_name}
use fault_affinity.Text.{text_eq, is_absolute_path}
use fault_affinity.Schedule.Orders.{max_seed}
use fault_affinity.Discovery.Plan.{
  few_cpus, bad_recipe, bad_taskset, bad_profile, bad_seed, many_workers, overlap, loaded_recipe,
  check_choice, is_given, selected_cpus, max_workers, build_sessions, DiscoveryError, Topology,
  Plan, Options, is_source, loaded_protocol, order_algorithm, make_plan, parse_plan, build_plan,
}
use fault_affinity.Discovery.Plan.Lists.{IsTopology}
use fault_affinity.Discovery.Plan.Made.{Made, make_plan-Made}
use fault_affinity.Discovery.Plan.Checks.{made_lists, made_sets, profile_bounds, made_sessions}

parsed_again :
    {parse : Plan → Outcome DiscoveryError Plan} (made : Outcome DiscoveryError Plan)
    → ((plan : Plan) → made ≡ ok plan → parse plan ≡ ok plan)
    → (made >>= parse) ≡ made
parsed_again (throw e) h = refl
parsed_again (ok plan) h = h plan refl

module _ (digest : ℕ → ℕ → ℕ) where
  parse_plan-Made :
      (topology : Topology) (plan : Plan)
      → IsTopology topology
      → plan.profile ≢ inherited
      → Made digest topology plan
      → parse_plan digest plan ≡ ok plan
  unfolding parse_plan Made
  parse_plan-Made topology plan t own_name (profile, m, built) =
      let (usable_ok, targets_ok, loads_ok) = made_lists digest topology plan profile t m in
      let sets_ok = made_sets digest topology plan profile m in
      let (bounds_ok, profile_ok) =
        profile_bounds digest plan profile m.named own_name m.attempts m.warmup m.recovery in
      let (count_ok, sessions_ok, back_ok) = made_sessions digest topology plan profile m built in
      let version_ok : (plan.version == 1) ≡ true = (==_iff plan.version 1).1 m.version in
      let protocol_ok = text_eq_complete plan.protocol loaded_protocol m.protocol in
      let source_ok : is_source plan.source ≡ true = ap is_source m.source ∙ t.known_source in
      let algorithm_ok = text_eq_complete plan.algorithm order_algorithm m.algorithm in
      rw
        (
          version_ok, protocol_ok, m.recipe, m.named, m.taskset, source_ok, usable_ok, targets_ok,
          loads_ok, sets_ok, algorithm_ok, m.seed, bounds_ok, profile_ok, count_ok, sessions_ok,
          back_ok,
        )
        refl

  make_plan-profile :
      (topology : Topology) (options : Options) {plan : Plan}
      → make_plan digest topology options ≡ ok plan
      → plan.profile ≡ options.profile
  unfolding make_plan
  make_plan-profile topology options h =
      let (_, h₁) = then_returns (require (leb 3 (length topology.usable)) few_cpus) _ h in
      let (_, h₂) = then_returns (require (text_eq options.recipe loaded_recipe) bad_recipe) _ h₁ in
      let (_, h₃) =
        then_returns (require (is_absolute_path options.taskset_path) bad_taskset) _ h₂ in
      let (_, _, h₄) = bind_returns (present (profile_by_name options.profile) bad_profile) _ h₃ in
      let (_, h₅) = then_returns (require (leb options.seed max_seed) bad_seed) _ h₄ in
      let (_, h₆) =
        then_returns
          (check_choice topology.source (is_given options.target_cpus) (is_given options.load_cpus))
          _ h₅ in
      let (_, _, h₇) =
        bind_returns (selected_cpus topology.usable options.target_cpus topology.efficient) _ h₆ in
      let (workers, _, h₈) =
        bind_returns (selected_cpus topology.usable options.load_cpus topology.performance) _ h₇ in
      let (_, h₉) = then_returns (require (leb (length workers) max_workers) many_workers) _ h₈ in
      let (_, h₁₀) = then_returns (require _ overlap) _ h₉ in
      let (_, _, last) = bind_returns (build_sessions topology.usable workers 0 _) _ h₁₀ in
      sym (ap (λ (p : Plan). p.profile) (ok_inj last))

  -- For a topology of sorted distinct CPU ids, and a profile's name that is not one of
  -- Object.prototype's, the parser never refuses what the builder hands to it, nor changes it: building
  -- a plan throws only the builder's own errors.
  pub build_plan-make_plan :
      (topology : Topology) (options : Options)
      → IsTopology topology
      → options.profile ≢ inherited
      → build_plan digest topology options ≡ make_plan digest topology options
  unfolding build_plan
  build_plan-make_plan topology options t own_name =
      parsed_again (make_plan digest topology options) (λ plan e.
        parse_plan-Made topology plan t
          (λ same. own_name (sym (make_plan-profile topology options e) ∙ same))
          (make_plan-Made digest topology options plan e))
