-- ===== src/Discovery/Report.antt =====
-- `buildLoadedDiscoveryReport` of src/fault-affinity/loaded-discovery.mjs: the rows from the bundles
-- of the planned sessions, and what the report concludes from them.
pub mod Rows
mod Examples
use fault_affinity.Prelude.{
  ℕ, ◌+◌, Bool, true, false, List, [], ◌∷◌, Option, none, some, map, length, ◌==◌, if◌then◌else◌,
  ◌&&◌, Outcome, ok, throw, ◌>>=◌, ◌>>◌, require, present,
}
use fault_affinity.Discovery.Plan.{
  DiscoveryError, Session, Plan, same_list, same_number, parse_plan,
}
use fault_affinity.Discovery.Ranking.{
  Category, Row, outcome_stats, affected_rows, all_complete, strongest_candidate,
}

pub data LegName : Type 0 where
  leg_a1 leg_b leg_a2 leg_other : LegName

-- A leg of the envelope, with the outcome category of each attempt.
pub record Leg : Type 0 where
  pub name : LegName
  pub categories : List Category

-- `bundle.controlledLoad`
pub record ControlledLoad : Type 0 where
  pub target_cpu : ℕ
  pub worker_cpus : List ℕ
  pub attempts_per_leg : ℕ
  pub warmup_ms : ℕ
  pub recovery_ms : ℕ
  pub legs : List Leg
  pub is_complete : Bool

pub data ReportError : Type 0 where
  bad_plan : DiscoveryError → ReportError
  bundle_count bundle_mismatch : ReportError

abbrev pub same_leg : LegName → LegName → Bool
same_leg leg_a1 leg_a1 = true
same_leg leg_b leg_b = true
same_leg leg_a2 leg_a2 = true
same_leg leg_other leg_other = true
same_leg _ _ = false

-- `legs.get(name)?.attempts ?? []`: of equal names the last is in the map.
abbrev pub leg_categories : LegName → List Leg → List Category → List Category
leg_categories name [] found = found
leg_categories name (leg ∷ legs) found =
    leg_categories name legs (if same_leg leg.name name then leg.categories else found)

unfoldable pub matches_plan : Plan → Session → ControlledLoad → Bool
matches_plan plan session phase =
    phase.target_cpu == session.target_cpu
    && (same_list phase.worker_cpus plan.load_cpus
        && (same_number (some phase.attempts_per_leg) plan.attempts_per_leg
            && (same_number (some phase.warmup_ms) plan.warmup_ms
                && same_number (some phase.recovery_ms) plan.recovery_ms)))

abbrev pub row_of : Session → ControlledLoad → Row
row_of session phase = record {
  cpu = session.target_cpu;
  controller_cpu = session.controller_cpu;
  is_complete = phase.is_complete;
  without_load = outcome_stats (leg_categories leg_a1 phase.legs []);
  with_load = outcome_stats (leg_categories leg_b phase.legs []);
  after_recovery = outcome_stats (leg_categories leg_a2 phase.legs []);
  bundle = session.directory;
}

-- The `map` over the sessions; a bundle may have no controlled-load phase.
pub report_rows :
    Plan → List Session → List (Option ControlledLoad) → Outcome ReportError (List Row)
report_rows plan [] bundles = ok []
report_rows plan (session ∷ sessions) [] = throw bundle_mismatch
report_rows plan (session ∷ sessions) (bundle ∷ bundles) =
    let later = report_rows plan sessions bundles in
    present bundle bundle_mismatch >>= λ phase.
    (require (matches_plan plan session phase) bundle_mismatch
      >> (later >>= λ rows. ok (row_of session phase ∷ rows)))

pub record Report : Type 0 where
  pub is_complete : Bool
  pub rows : List Row
  pub affected_cpus : List ℕ
  pub strongest : Option Row

abbrev pub from_plan_parser {ℓ} : {A : Type ℓ} → Outcome DiscoveryError A → Outcome ReportError A
from_plan_parser (throw e) = throw (bad_plan e)
from_plan_parser (ok value) = ok value

abbrev pub concluded : List Row → Report
concluded rows = record {
  is_complete = all_complete rows;
  rows = rows;
  affected_cpus = map (λ row. row.cpu) (affected_rows rows);
  strongest = strongest_candidate rows;
}

unfoldable pub build_report :
    (ℕ → ℕ → ℕ) → Plan → List (Option ControlledLoad) → Outcome ReportError Report
build_report digest value bundles = do
  plan ← from_plan_parser (parse_plan digest value)
  require (length bundles == length plan.sessions) bundle_count
  rows ← report_rows plan plan.sessions bundles
  ok (concluded rows)
