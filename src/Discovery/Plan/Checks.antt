-- ===== src/Discovery/Plan/Checks.antt =====
-- Each group of checks of the parser, on a plan that the builder hands to it.
use fault_affinity.Prelude.{
  ℕ, ◌+◌, ◌≡◌, ◌≢◌, some_inj, sym, ap, ◌∙◌, subst, Bool, true, List, ◌++◌, some, length, length-map,
  every, includes, leb, ◌==◌, ==_iff, not, ◌&&◌, ok, arith, refl,
}
use fault_affinity.Prelude.Sorting.{length-sort_by}
use fault_affinity.Prelude.Increasing.{
  sorted_unique, sorted_unique-sort_by, every_subset, every-append,
}
use fault_affinity.Campaign.Profiles.{
  ProfileName, NamedProfile, number_of, quick, standard, full, inherited, unknown, profile_by_name,
}
use fault_affinity.Schedule.Orders.{max_cpu_id}
use fault_affinity.Discovery.Plan.{
  is_up_to, is_nonzero, same_number, Topology, Plan, max_workers, target_before, target_order,
  build_sessions, cpu_list, same_list, check_sessions,
}
use fault_affinity.Discovery.Plan.Lists.{
  IsTopology, same_list_refl, cpu_list_accepts, every-in_range,
}
use fault_affinity.Discovery.Plan.Sessions.{targets_of, build_sessions-Covers}
use fault_affinity.Discovery.Plan.Made.{IsMade}

module _ (digest : ℕ → ℕ → ℕ) where
  -- The three CPU lists of a made plan pass `cpuList`.
  pub made_lists :
      (topology : Topology) (plan : Plan) (profile : NamedProfile)
      → IsTopology topology
      → IsMade topology plan profile
      → (cpu_list plan.usable_cpus (max_cpu_id + 1) ≡ ok tt)
        × (cpu_list plan.target_cpus (max_cpu_id + 1) ≡ ok tt)
        × (cpu_list plan.load_cpus max_workers ≡ ok tt)
  made_lists topology plan profile t m =
      let usable = topology.usable in
      let in_range = λ (xs : List ℕ) (w : every (λ cpu. includes usable cpu) xs ≡ true).
        every_subset (λ cpu. leb cpu max_cpu_id) xs usable t.in_range w in
      let target_range = in_range plan.target_cpus m.targets.within in
      let several = m.several in
      (
        subst (λ l. cpu_list l (max_cpu_id + 1) ≡ ok tt) (sym m.usable)
            (cpu_list_accepts usable (max_cpu_id + 1) (ground arith)
              (every-in_range usable t.in_range t.increasing) t.in_range t.increasing),
        cpu_list_accepts plan.target_cpus (max_cpu_id + 1) m.targets.nonempty
            (every-in_range plan.target_cpus target_range m.targets.increasing) target_range
            m.targets.increasing,
        cpu_list_accepts plan.load_cpus max_workers m.loads.nonempty m.few_loads
            (in_range plan.load_cpus m.loads.within) m.loads.increasing,
      )

  pub made_sets :
      (topology : Topology) (plan : Plan) (profile : NamedProfile)
      → IsMade topology plan profile
      → (every (λ cpu. includes plan.usable_cpus cpu) (plan.target_cpus ++ plan.load_cpus)
          && every (λ cpu. not (includes plan.load_cpus cpu)) plan.target_cpus)
        ≡ true
  made_sets topology plan profile m =
      let within =
        every-append (λ cpu. includes topology.usable cpu) plan.target_cpus plan.load_cpus
          m.targets.within m.loads.within in
      both
        (subst (λ l. every (λ cpu. includes l cpu) (plan.target_cpus ++ plan.load_cpus) ≡ true)
          (sym m.usable) within)
        m.apart
    where
      both : {a b : Bool} → a ≡ true → b ≡ true → (a && b) ≡ true
      both p q = ground arith

  -- The numbers of a profile of the table are within the parser's bounds.
  abbrev Bounded : NamedProfile → Type 0
  Bounded profile =
      let attempts = number_of (λ p. p.attempts_per_leg) profile in
      let warmup = number_of (λ p. p.warmup_ms) profile in
      let recovery = number_of (λ p. p.recovery_ms) profile in
      ((is_up_to attempts 1_000_000 && (is_up_to warmup 3_600_000 && is_up_to recovery 3_600_000))
        ≡ true)
      × ((is_nonzero attempts
            && (same_number attempts attempts
                && (same_number warmup warmup && same_number recovery recovery)))
          ≡ true)

  own_bounds :
      (name : ProfileName) (profile : NamedProfile)
      → profile_by_name name ≡ some profile
      → name ≢ inherited
      → Bounded profile
  own_bounds quick profile h n = subst Bounded (some_inj h) (refl, refl)
  own_bounds standard profile h n = subst Bounded (some_inj h) (refl, refl)
  own_bounds full profile h n = subst Bounded (some_inj h) (refl, refl)
  own_bounds inherited profile h n = absurd (n refl)
  own_bounds unknown profile h n = cc

  pub profile_bounds :
      (plan : Plan) (profile : NamedProfile)
      → profile_by_name plan.profile ≡ some profile
      → plan.profile ≢ inherited
      → plan.attempts_per_leg ≡ number_of (λ p. p.attempts_per_leg) profile
      → plan.warmup_ms ≡ number_of (λ p. p.warmup_ms) profile
      → plan.recovery_ms ≡ number_of (λ p. p.recovery_ms) profile
      → ((is_up_to plan.attempts_per_leg 1_000_000
            && (is_up_to plan.warmup_ms 3_600_000 && is_up_to plan.recovery_ms 3_600_000))
          ≡ true)
        × ((is_nonzero plan.attempts_per_leg
              && (same_number plan.attempts_per_leg (number_of (λ p. p.attempts_per_leg) profile)
                  && (same_number plan.warmup_ms (number_of (λ p. p.warmup_ms) profile)
                      && same_number plan.recovery_ms (number_of (λ p. p.recovery_ms) profile))))
            ≡ true)
  profile_bounds plan profile n own_name a w r =
      rw (a, w, r) (own_bounds plan.profile profile n own_name)

  pub made_sessions :
      (topology : Topology) (plan : Plan) (profile : NamedProfile)
      → IsMade topology plan profile
      → build_sessions plan.usable_cpus plan.load_cpus 0
          (target_order digest plan.target_cpus plan.seed)
        ≡ ok plan.sessions
      → ((length plan.sessions == length plan.target_cpus) ≡ true)
        × (check_sessions plan 0 plan.sessions (target_order digest plan.target_cpus plan.seed)
            ≡ ok tt)
        × (same_list (sorted_unique (targets_of plan.sessions)) plan.target_cpus ≡ true)
  made_sessions topology plan profile m built =
      let order = target_order digest plan.target_cpus plan.seed in
      let (checked, same) = build_sessions-Covers plan 0 order plan.sessions built in
      let count : length plan.sessions ≡ length plan.target_cpus =
        sym (length-map plan.sessions (λ session. session.target_cpu))
        ∙ ap length same
        ∙ length-sort_by (target_before digest plan.seed) plan.target_cpus in
      let back : sorted_unique (targets_of plan.sessions) ≡ plan.target_cpus =
        ap sorted_unique same
        ∙ sorted_unique-sort_by (target_before digest plan.seed) plan.target_cpus
            m.targets.increasing in
      (
        (==_iff (length plan.sessions) (length plan.target_cpus)).1 count,
        checked,
        subst (λ l. same_list l plan.target_cpus ≡ true) (sym back)
            (same_list_refl plan.target_cpus),
      )
