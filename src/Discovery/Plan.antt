-- ===== src/Discovery/Plan.antt =====
-- `buildLoadedDiscoveryPlanFromTopology` and `parseLoadedDiscoveryPlan` of
-- src/fault-affinity/loaded-discovery.mjs. `digest seed cpu` is the SHA-256 digest that orders the
-- targets, as a number: `localeCompare` orders 64 hexadecimal digits so.
pub mod Lists
pub mod Sessions
pub mod Made
pub mod Checks
pub mod Valid
pub mod Built
pub mod Discovered
mod Examples
use fault_affinity.Prelude.{
  ℕ, zero, suc, ◌+◌, ◌%◌, Bool, true, false, List, [], ◌∷◌, ◌++◌, map, Option, none, some, length,
  get_or, every, some_of, select, includes, ltb, leb, ◌==◌, if◌then◌else◌, not, ◌&&◌, ◌||◌, Outcome,
  ok, throw, ◌>>=◌, ◌>>◌, require, present,
}
use fault_affinity.Prelude.Sorting.{sort_by}
use fault_affinity.Prelude.Increasing.{sorted_unique, is_increasing}
use fault_affinity.Text.{Text, text_eq, codes, decimal, pad_start, is_absolute_path}
use fault_affinity.Campaign.Profiles.{
  ProfileName, Profile, NamedProfile, own, inherited_value, number_of, profile_by_name,
}
use fault_affinity.Schedule.Orders.{max_cpu_id, max_seed}

pub data DiscoveryError : Type 0 where
  -- the builder's own
  few_cpus bad_recipe bad_taskset bad_profile bad_seed half_supplied not_hybrid : DiscoveryError
  no_selection unusable_cpu many_workers overlap no_controller : DiscoveryError
  -- the parser's
  bad_version recipe_or_profile parsed_taskset bad_source bad_cpu_list sets_do_not_fit :
      DiscoveryError
  bad_algorithm parsed_seed out_of_bounds profile_mismatch session_count : DiscoveryError
  session_mismatch session_targets : DiscoveryError

pub data Source : Type 0 where
  sysfs_hybrid uniform other : Source

abbrev pub is_hybrid : Source → Bool
is_hybrid sysfs_hybrid = true
is_hybrid _ = false

abbrev pub is_source : Source → Bool
is_source other = false
is_source _ = true

pub record Topology : Type 0 where
  pub usable : List ℕ
  pub performance : List ℕ
  pub efficient : List ℕ
  pub source : Source

pub record Session : Type 0 where
  pub ordinal : ℕ
  pub target_cpu : ℕ
  pub controller_cpu : ℕ
  pub directory : Text

-- A number of the schedule may be undefined.
pub record Plan : Type 0 where
  pub version : ℕ
  pub protocol : Text
  pub recipe : Text
  pub profile : ProfileName
  pub taskset_path : Text
  pub source : Source
  pub usable_cpus : List ℕ
  pub target_cpus : List ℕ
  pub load_cpus : List ℕ
  pub algorithm : Text
  pub seed : ℕ
  pub attempts_per_leg : Option ℕ
  pub warmup_ms : Option ℕ
  pub recovery_ms : Option ℕ
  pub sessions : List Session

pub record Options : Type 0 where
  pub recipe : Text
  pub profile : ProfileName
  pub target_cpus : Option (List ℕ)
  pub load_cpus : Option (List ℕ)
  pub seed : ℕ
  pub taskset_path : Text

abbrev pub loaded_protocol : Text
loaded_protocol = codes "loaded-target-screen-v1"

abbrev pub loaded_recipe : Text
loaded_recipe = codes "wasm-churn-aba"

abbrev pub order_algorithm : Text
order_algorithm = codes "sha256-seeded-target-order-v1"

-- CONTROLLED_LOAD_WORKER_SET_MAX_WORKERS
abbrev pub max_workers : ℕ
max_workers = 256

abbrev pub is_given : Option (List ℕ) → Bool
is_given none = false
is_given (some _) = true

-- `requested ?? fallback`
abbrev pub given_or : Option (List ℕ) → List ℕ → List ℕ
given_or none fallback = fallback
given_or (some cpus) fallback = cpus

unfoldable pub selected_cpus : List ℕ → Option (List ℕ) → List ℕ → Outcome DiscoveryError (List ℕ)
selected_cpus usable requested fallback = do
  let selected = sorted_unique (given_or requested fallback)
  require (not (length selected == 0)) no_selection
  require (every (λ cpu. includes usable cpu) selected) unusable_cpu
  ok selected

abbrev pub session_directory : ℕ → Text
session_directory cpu = codes "cpu-" ++ pad_start 5 b'0' (decimal cpu)

-- The two statements on the option pair, and the automatic choice's need of a hybrid topology.
unfoldable pub check_choice : Source → Bool → Bool → Outcome DiscoveryError (Unit {0})
check_choice source targets_given loads_given = do
  require ((targets_given && loads_given) || (not targets_given && not loads_given)) half_supplied
  require (targets_given || is_hybrid source) not_hybrid

abbrev pub available_controllers : List ℕ → List ℕ → ℕ → List ℕ
available_controllers usable workers target =
    select (λ cpu. not (cpu == target) && not (includes workers cpu)) usable

module _ (digest : ℕ → ℕ → ℕ) where
  abbrev pub target_before : ℕ → ℕ → ℕ → Bool
  target_before seed left right =
      if digest seed left == digest seed right
      then leb left right
      else ltb (digest seed left) (digest seed right)

  abbrev pub target_order : List ℕ → ℕ → List ℕ
  target_order targets seed = sort_by (target_before seed) targets

-- The sessions from an index on.
pub build_sessions : List ℕ → List ℕ → ℕ → List ℕ → Outcome DiscoveryError (List Session)
build_sessions usable workers index [] = ok []
build_sessions usable workers index (target ∷ targets) =
    let available = available_controllers usable workers target in
    let later = build_sessions usable workers (index + 1) targets in
    do
      require (not (length available == 0)) no_controller
      rest ← later
      ok (
          record {
            ordinal = index + 1;
            target_cpu = target;
            controller_cpu = get_or available (index % length available) 0;
            directory = session_directory target;
          }
          ∷ rest)

-- The object that the builder hands to the parser.
abbrev pub planned : Topology → Options → NamedProfile → List ℕ → List ℕ → List Session → Plan
planned topology options profile targets workers sessions = record {
  version = 1;
  protocol = loaded_protocol;
  recipe = options.recipe;
  profile = options.profile;
  taskset_path = options.taskset_path;
  source = topology.source;
  usable_cpus = topology.usable;
  target_cpus = targets;
  load_cpus = workers;
  algorithm = order_algorithm;
  seed = options.seed;
  attempts_per_leg = number_of (λ p. p.attempts_per_leg) profile;
  warmup_ms = number_of (λ p. p.warmup_ms) profile;
  recovery_ms = number_of (λ p. p.recovery_ms) profile;
  sessions = sessions;
}

module _ (digest : ℕ → ℕ → ℕ) where
  -- The builder as far as its call of the parser.
  unfoldable pub make_plan : Topology → Options → Outcome DiscoveryError Plan
  make_plan topology options = do
    require (leb 3 (length topology.usable)) few_cpus
    require (text_eq options.recipe loaded_recipe) bad_recipe
    require (is_absolute_path options.taskset_path) bad_taskset
    profile ← present (profile_by_name options.profile) bad_profile
    require (leb options.seed max_seed) bad_seed
    check_choice topology.source (is_given options.target_cpus) (is_given options.load_cpus)
    targets ← selected_cpus topology.usable options.target_cpus topology.efficient
    workers ← selected_cpus topology.usable options.load_cpus topology.performance
    require (leb (length workers) max_workers) many_workers
    require (every (λ cpu. not (includes workers cpu)) targets) overlap
    sessions ← build_sessions topology.usable workers 0 (target_order digest targets options.seed)
    ok (planned topology options profile targets workers sessions)

unfoldable pub cpu_list : List ℕ → ℕ → Outcome DiscoveryError (Unit {0})
cpu_list cpus maximum = do
  require (not (length cpus == 0) && leb (length cpus) maximum) bad_cpu_list
  require (every (λ cpu. leb cpu max_cpu_id) cpus) bad_cpu_list
  require (is_increasing cpus) bad_cpu_list

abbrev pub same_list : List ℕ → List ℕ → Bool
same_list [] [] = true
same_list [] (y ∷ ys) = false
same_list (x ∷ xs) [] = false
same_list (x ∷ xs) (y ∷ ys) = x == y && same_list xs ys

-- Numbers that may be undefined: an integer up to a maximum, one that is not 0, and `===`.
abbrev pub is_up_to : Option ℕ → ℕ → Bool
is_up_to none maximum = false
is_up_to (some value) maximum = leb value maximum

abbrev pub is_nonzero : Option ℕ → Bool
is_nonzero none = false
is_nonzero (some value) = leb 1 value

abbrev pub same_number : Option ℕ → Option ℕ → Bool
same_number none none = true
same_number none (some right) = false
same_number (some left) none = false
same_number (some left) (some right) = left == right

-- One session against its place in the schedule.
abbrev pub session_fits : Plan → ℕ → Session → ℕ → Bool
session_fits plan index session expected_target =
    session.ordinal == index + 1
    && (session.target_cpu == expected_target
        && (includes plan.usable_cpus session.controller_cpu
            && (not (session.controller_cpu == session.target_cpu)
                && (not (includes plan.load_cpus session.controller_cpu)
                    && text_eq session.directory (session_directory session.target_cpu)))))

unfoldable pub check_sessions : Plan → ℕ → List Session → List ℕ → Outcome DiscoveryError (Unit {0})
check_sessions plan index [] expected = ok tt
check_sessions plan index (session ∷ sessions) [] = throw session_mismatch
check_sessions plan index (session ∷ sessions) (target ∷ expected) =
    let later = check_sessions plan (index + 1) sessions expected in
    require (session_fits plan index session target) session_mismatch >> later

module _ (digest : ℕ → ℕ → ℕ) where
  unfoldable pub parse_plan : Plan → Outcome DiscoveryError Plan
  unfolding check_sessions
  parse_plan plan = do
    require (plan.version == 1 && text_eq plan.protocol loaded_protocol) bad_version
    require (text_eq plan.recipe loaded_recipe) recipe_or_profile
    profile ← present (profile_by_name plan.profile) recipe_or_profile
    require (is_absolute_path plan.taskset_path) parsed_taskset
    require (is_source plan.source) bad_source
    cpu_list plan.usable_cpus (max_cpu_id + 1)
    cpu_list plan.target_cpus (max_cpu_id + 1)
    cpu_list plan.load_cpus max_workers
    require
        (every (λ cpu. includes plan.usable_cpus cpu) (plan.target_cpus ++ plan.load_cpus)
          && every (λ cpu. not (includes plan.load_cpus cpu)) plan.target_cpus)
        sets_do_not_fit
    require (text_eq plan.algorithm order_algorithm) bad_algorithm
    require (leb plan.seed max_seed) parsed_seed
    require
        (is_up_to plan.attempts_per_leg 1_000_000
          && (is_up_to plan.warmup_ms 3_600_000 && is_up_to plan.recovery_ms 3_600_000))
        out_of_bounds
    require
        (is_nonzero plan.attempts_per_leg
          && (same_number plan.attempts_per_leg (number_of (λ p. p.attempts_per_leg) profile)
              && (same_number plan.warmup_ms (number_of (λ p. p.warmup_ms) profile)
                  && same_number plan.recovery_ms (number_of (λ p. p.recovery_ms) profile))))
        profile_mismatch
    require (length plan.sessions == length plan.target_cpus) session_count
    check_sessions plan 0 plan.sessions (target_order digest plan.target_cpus plan.seed)
    require
        (same_list (sorted_unique (map (λ session. session.target_cpu) plan.sessions))
          plan.target_cpus)
        session_targets
    ok plan

  unfoldable pub build_plan : Topology → Options → Outcome DiscoveryError Plan
  build_plan topology options = do plan ← make_plan digest topology options; parse_plan plan
