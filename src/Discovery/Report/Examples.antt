-- ===== src/Discovery/Report/Examples.antt =====
-- A screen of two targets, of which one sees faults under load.
use mathlib.Core.List.{Perm}
use fault_affinity.Prelude.{ℕ, ◌≡◌, refl, true, List, [], ◌∷◌, some, ok}
use fault_affinity.Prelude.Increasing.{sorted_unique}
use fault_affinity.Text.{codes, decimal}
use fault_affinity.Campaign.Profiles.{quick}
use fault_affinity.Discovery.Plan.{
  Session, Plan, uniform, loaded_protocol, loaded_recipe, order_algorithm, session_directory,
  cpu_list, check_sessions, parse_plan,
}
use fault_affinity.Discovery.Ranking.{
  Category, target_fault, pass, Row, outcome_stats, compare_rates, compare_loaded_rows, ranks_first,
  strongest_candidate,
}
use fault_affinity.Discovery.Ranking.Candidate.{IsStrongest}
use fault_affinity.Discovery.Report.{
  ControlledLoad, leg_a1, leg_b, matches_plan, row_of, report_rows, concluded, build_report,
}
use fault_affinity.Discovery.Report.Rows.{AreRows, cpus_of_rows, build_report_sound}

abbrev digest : ℕ → ℕ → ℕ
digest seed cpu = cpu

abbrev session : ℕ → ℕ → Session
session ordinal target = record {
  ordinal = ordinal;
  target_cpu = target;
  controller_cpu = 1;
  directory = session_directory target;
}

abbrev plan : Plan
plan = record {
  version = 1;
  protocol = loaded_protocol;
  recipe = loaded_recipe;
  profile = quick;
  taskset_path = codes "/usr/bin/taskset";
  source = uniform;
  usable_cpus = 0 ∷ 1 ∷ 2 ∷ 3 ∷ [];
  target_cpus = 2 ∷ 3 ∷ [];
  load_cpus = 0 ∷ [];
  algorithm = order_algorithm;
  seed = 17;
  attempts_per_leg = some 3;
  warmup_ms = some 0;
  recovery_ms = some 5_000;
  sessions = session 1 2 ∷ session 2 3 ∷ [];
}

abbrev bundle : ℕ → List Category → ControlledLoad
bundle target categories = record {
  target_cpu = target;
  worker_cpus = 0 ∷ [];
  attempts_per_leg = 3;
  warmup_ms = 0;
  recovery_ms = 5_000;
  legs =
      record { name = leg_a1; categories = [] }
      ∷ record { name = leg_b; categories = categories }
      ∷ [];
  is_complete = true;
}

abbrev quiet : ControlledLoad
quiet = bundle 2 (pass ∷ pass ∷ pass ∷ [])

abbrev faulty : ControlledLoad
faulty = bundle 3 (pass ∷ target_fault ∷ target_fault ∷ [])

abbrev rows : List Row
rows = row_of (session 1 2) quiet ∷ row_of (session 2 3) faulty ∷ []

reported : build_report digest plan (some quiet ∷ some faulty ∷ []) ≡ ok (concluded rows)
unfolding build_report report_rows matches_plan parse_plan check_sessions cpu_list sorted_unique
    outcome_stats decimal
reported = refl

named : strongest_candidate rows ≡ some (row_of (session 2 3) faulty)
unfolding strongest_candidate ranks_first compare_loaded_rows compare_rates outcome_stats
named = refl

build_report_sound_example :
    AreRows plan plan.sessions (some quiet ∷ some faulty ∷ []) rows
    × Perm (cpus_of_rows rows) (2 ∷ 3 ∷ [])
    × ((best : Row) → strongest_candidate rows ≡ some best → IsStrongest rows best)
build_report_sound_example = build_report_sound digest plan (some quiet ∷ some faulty ∷ []) reported
