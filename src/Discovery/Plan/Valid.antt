-- ===== src/Discovery/Plan/Valid.antt =====
-- What a plan that the parser returns promises to the discovery loop that runs its sessions.
use mathlib.Core.List.{Perm}
use fault_affinity.Prelude.{
  ℕ, ◌+◌, ◌≡◌, ◌≢◌, refl, sym, ap₂, ◌∙◌, subst, true, false, List, [], ◌∷◌, ◌++◌, length, every,
  includes, ◌==◌, ==_iff, not, ◌&&◌, All, ok, require, present, bind_returns, then_returns,
  require_holds, ok_inj, leb, arith,
}
use fault_affinity.Prelude.Sorting.{sort_by-perm, length-sort_by}
use fault_affinity.Text.{text_eq, is_absolute_path}
use fault_affinity.Text.Equality.{text_eq_sound}
use fault_affinity.Campaign.Profiles.{profile_by_name}
use fault_affinity.Schedule.Orders.{max_cpu_id, max_seed}
use fault_affinity.Discovery.Plan.{
  bad_version, recipe_or_profile, parsed_taskset, bad_source, bad_algorithm, parsed_seed,
  sets_do_not_fit, out_of_bounds, profile_mismatch, session_count, session_mismatch,
  session_targets, Session, Plan, session_directory, is_source, max_workers, loaded_protocol,
  loaded_recipe, order_algorithm, target_before, target_order, cpu_list, session_fits,
  check_sessions, parse_plan,
}
use fault_affinity.Discovery.Plan.Sessions.{targets_of}

-- The controller may run beside the target and the load workers.
pub record IsSeparate (plan : Plan) (session : Session) : Type 0 where
  pub controller_usable : includes plan.usable_cpus session.controller_cpu ≡ true
  pub controller_off_target : session.controller_cpu ≢ session.target_cpu
  pub controller_off_load : includes plan.load_cpus session.controller_cpu ≡ false
  pub own_directory : session.directory ≡ session_directory session.target_cpu

session_fits-IsSeparate :
    (plan : Plan) (index : ℕ) (session : Session) (target : ℕ)
    → session_fits plan index session target ≡ true
    → (session.target_cpu ≡ target) × IsSeparate plan session
session_fits-IsSeparate plan index session target h = (
  (==_iff session.target_cpu target).0 (ground arith),
  record {
    controller_usable = ground arith;
    controller_off_target = λ e.
        (let t = (==_iff session.controller_cpu session.target_cpu).1 e in absurd (ground arith));
    controller_off_load = ground arith;
    own_directory =
        text_eq_sound session.directory (session_directory session.target_cpu) (ground arith);
  },
)

check_sessions_sound :
    (plan : Plan) (index : ℕ) (sessions : List Session) (targets : List ℕ)
    → check_sessions plan index sessions targets ≡ ok tt
    → length sessions ≡ length targets
    → (targets_of sessions ≡ targets) × All (IsSeparate plan) sessions
unfolding check_sessions
check_sessions_sound plan index [] [] h same = (refl, tt)
check_sessions_sound plan index [] (target ∷ targets) h same = absurd (ground arith)
check_sessions_sound plan index (session ∷ sessions) [] h same = absurd (ground arith)
check_sessions_sound plan index (session ∷ sessions) (target ∷ targets) h same =
    let (fits, later) =
      then_returns (require (session_fits plan index session target) session_mismatch) _ h in
    let (own, separate) =
      session_fits-IsSeparate plan index session target (require_holds _ session_mismatch fits) in
    let (others, all_separate) =
      check_sessions_sound plan (index + 1) sessions targets later (ground arith) in
    (ap₂ ◌∷◌ own others, (separate, all_separate))

-- Every target is usable and carries no load.
abbrev pub KeepsApart : Plan → List ℕ → Type 0
KeepsApart plan =
    All (λ cpu. (includes plan.usable_cpus cpu ≡ true) × (includes plan.load_cpus cpu ≡ false))

apart_of :
    (plan : Plan) (cpus others : List ℕ)
    → every (λ cpu. includes plan.usable_cpus cpu) (cpus ++ others) ≡ true
    → every (λ cpu. not (includes plan.load_cpus cpu)) cpus ≡ true
    → KeepsApart plan cpus
apart_of plan [] others usable apart = tt
apart_of plan (cpu ∷ cpus) others usable apart =
    ((ground arith, ground arith), apart_of plan cpus others (ground arith) (ground arith))

module _ (digest : ℕ → ℕ → ℕ) where
  pub record IsRunnable (plan : Plan) : Type 0 where
    pub scheduled : targets_of plan.sessions ≡ target_order digest plan.target_cpus plan.seed
    pub each_once : Perm (targets_of plan.sessions) plan.target_cpus
    pub separate : All (IsSeparate plan) plan.sessions
    pub apart : KeepsApart plan plan.target_cpus

  runnable :
      (plan : Plan)
      → (length plan.sessions == length plan.target_cpus) ≡ true
      → check_sessions plan 0 plan.sessions (target_order digest plan.target_cpus plan.seed) ≡ ok tt
      → (every (λ cpu. includes plan.usable_cpus cpu) (plan.target_cpus ++ plan.load_cpus)
          && every (λ cpu. not (includes plan.load_cpus cpu)) plan.target_cpus)
        ≡ true
      → IsRunnable plan
  runnable plan count checked sets =
      let order = target_order digest plan.target_cpus plan.seed in
      let before = target_before digest plan.seed in
      let same : length plan.sessions ≡ length order =
        (==_iff _ _).0 count ∙ sym (length-sort_by before plan.target_cpus) in
      let (scheduled, separate) = check_sessions_sound plan 0 plan.sessions order checked same in
      record {
        scheduled = scheduled;
        each_once =
            subst (λ l. Perm l plan.target_cpus) (sym scheduled)
              (sort_by-perm before plan.target_cpus);
        separate = separate;
        apart = apart_of plan plan.target_cpus plan.load_cpus (ground arith) (ground arith);
      }

  -- What the parser returns is the plan that it read, and it can run as it stands: the sessions are
  -- the targets in their seeded order, each target once; every session has a usable controller CPU
  -- off its target and off the load workers; and no target carries load.
  pub parse_plan_sound :
      (plan : Plan) {parsed : Plan}
      → parse_plan digest plan ≡ ok parsed
      → (parsed ≡ plan) × IsRunnable plan
  unfolding parse_plan
  parse_plan_sound plan {parsed} h =
      let (_, h₁) =
        then_returns
          (require (plan.version == 1 && text_eq plan.protocol loaded_protocol) bad_version) _ h in
      let (_, h₂) =
        then_returns (require (text_eq plan.recipe loaded_recipe) recipe_or_profile) _ h₁ in
      let (profile, _, h₃) =
        bind_returns (present (profile_by_name plan.profile) recipe_or_profile) _ h₂ in
      let (_, h₄) =
        then_returns (require (is_absolute_path plan.taskset_path) parsed_taskset) _ h₃ in
      let (_, h₅) = then_returns (require (is_source plan.source) bad_source) _ h₄ in
      let (_, h₆) = then_returns (cpu_list plan.usable_cpus (max_cpu_id + 1)) _ h₅ in
      let (_, h₇) = then_returns (cpu_list plan.target_cpus (max_cpu_id + 1)) _ h₆ in
      let (_, h₈) = then_returns (cpu_list plan.load_cpus max_workers) _ h₇ in
      let (sets, h₉) = then_returns (require _ sets_do_not_fit) _ h₈ in
      let (_, i₁) =
        then_returns (require (text_eq plan.algorithm order_algorithm) bad_algorithm) _ h₉ in
      let (_, i₂) = then_returns (require (leb plan.seed max_seed) parsed_seed) _ i₁ in
      let (_, i₃) = then_returns (require _ out_of_bounds) _ i₂ in
      let (_, i₄) = then_returns (require _ profile_mismatch) _ i₃ in
      let (count, i₅) =
        then_returns (require (length plan.sessions == length plan.target_cpus) session_count) _
          i₄ in
      let order = target_order digest plan.target_cpus plan.seed in
      let (checked, i₆) = then_returns (check_sessions plan 0 plan.sessions order) _ i₅ in
      let (_, last) = then_returns (require _ session_targets) _ i₆ in
      (
        sym (ok_inj last),
        runnable plan (require_holds _ session_count count) checked
            (require_holds _ sets_do_not_fit sets),
      )
