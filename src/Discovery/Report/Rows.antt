-- ===== src/Discovery/Report/Rows.antt =====
-- The rows and the candidate of a report.
use mathlib.Core.List.{Perm}
use fault_affinity.Prelude.{
  ℕ, ◌≡◌, refl, ◌⊎◌, inl, inr, All, true, false, ap₂, none, ◌++◌, ==_iff, Bool-cases, require_holds,
  present-some, arith, sym, ◌∙◌, ap, subst, ◌==◌, List, [], ◌∷◌, Option, some, map, length, Outcome,
  ok, throw, require, present, bind_returns, then_returns, ok_inj,
}
use fault_affinity.Discovery.Plan.{
  DiscoveryError, Session, Plan, same_list, same_number, parse_plan,
}
use fault_affinity.Discovery.Plan.Sessions.{targets_of}
use fault_affinity.Discovery.Plan.Valid.{parse_plan_sound}
use fault_affinity.Discovery.Ranking.{Category, Row, outcome_stats}
use fault_affinity.Discovery.Ranking.Candidate.{IsStrongest, strongest_candidate-IsStrongest}
use fault_affinity.Discovery.Report.{
  LegName, leg_a1, leg_b, leg_a2, Leg, same_leg, leg_categories, row_of, ControlledLoad,
  bundle_count, bundle_mismatch, matches_plan, report_rows, Report, from_plan_parser, build_report,
}

abbrev pub cpus_of_rows : List Row → List ℕ
cpus_of_rows = map (λ row. row.cpu)

report_rows_targets :
    (plan : Plan) (sessions : List Session) (bundles : List (Option ControlledLoad))
    {rows : List Row}
    → report_rows plan sessions bundles ≡ ok rows
    → cpus_of_rows rows ≡ targets_of sessions
unfolding report_rows
report_rows_targets plan [] bundles h = ap cpus_of_rows (sym (ok_inj h))
report_rows_targets plan (session ∷ sessions) [] h = absurd (cc h)
report_rows_targets plan (session ∷ sessions) (bundle ∷ bundles) h =
    let (phase, _, h₁) = bind_returns (present bundle bundle_mismatch) _ h in
    let (_, h₂) = then_returns (require (matches_plan plan session phase) bundle_mismatch) _ h₁ in
    let (rest, later, whole) = bind_returns (report_rows plan sessions bundles) _ h₂ in
    ap cpus_of_rows (sym (ok_inj whole))
    ∙ ap (◌∷◌ session.target_cpu) (report_rows_targets plan sessions bundles later)

-- The attempts of a leg of the envelope: those of the last leg of that name, or none.
abbrev HasName : LegName → Leg → Type 0
HasName name leg = same_leg leg.name name ≡ true

abbrev Lacks : LegName → List Leg → Type 0
Lacks name legs = All (λ (leg : Leg). same_leg leg.name name ≡ false) legs

abbrev pub AreCategories : LegName → List Leg → List Category → Type 0
AreCategories name legs categories =
    (Lacks name legs × (categories ≡ []))
    ⊎ ((before : List Leg) × (leg : Leg) × (later : List Leg) × (legs ≡ before ++ leg ∷ later)
        × HasName name leg
        × Lacks name later
        × (categories ≡ leg.categories))

absent_leg :
    (name : LegName) (legs : List Leg) (found : List Category)
    → Lacks name legs
    → leg_categories name legs found ≡ found
absent_leg name [] found h = refl
absent_leg name (leg ∷ legs) found (first, later) = rw first (absent_leg name legs found later)

leg_last :
    (name : LegName) (legs : List Leg) (found : List Category)
    → (Lacks name legs × (leg_categories name legs found ≡ found))
      ⊎ ((before : List Leg) × (leg : Leg) × (later : List Leg) × (legs ≡ before ++ leg ∷ later)
          × HasName name leg
          × Lacks name later
          × (leg_categories name legs found ≡ leg.categories))
leg_last name [] found = inl (tt, refl)
leg_last name (leg ∷ legs) found = elim (Bool-cases (same_leg leg.name name)) [
  | inl t ↦ elim (leg_last name legs leg.categories) [
    | inl (lacks, e) ↦ inr ([], leg, legs, refl, t, lacks, rw t e)
    | inr (before, last, later, split, named, lacks, e) ↦
        inr (leg ∷ before, last, later, ap (◌∷◌ leg) split, named, lacks, rw t e)
  ]
  | inr n ↦ elim (leg_last name legs found) [
    | inl (lacks, e) ↦ inl ((n, lacks), rw n e)
    | inr (before, last, later, split, named, lacks, e) ↦
        inr (leg ∷ before, last, later, ap (◌∷◌ leg) split, named, lacks, rw n e)
  ]
]

-- The row of a session, from its bundle's phase.
pub record IsRowOf (plan : Plan) (session : Session) (phase : ControlledLoad) (row : Row)
    : Type 0 where
  pub same_target : phase.target_cpu ≡ session.target_cpu
  pub same_workers : phase.worker_cpus ≡ plan.load_cpus
  pub same_attempts : plan.attempts_per_leg ≡ some phase.attempts_per_leg
  pub same_warmup : plan.warmup_ms ≡ some phase.warmup_ms
  pub same_recovery : plan.recovery_ms ≡ some phase.recovery_ms
  pub target : row.cpu ≡ session.target_cpu
  pub controller : row.controller_cpu ≡ session.controller_cpu
  pub completeness : row.is_complete ≡ phase.is_complete
  pub directory : row.bundle ≡ session.directory
  pub without :
      (categories : List Category) × AreCategories leg_a1 phase.legs categories
      × (row.without_load ≡ outcome_stats categories)
  pub loaded :
      (categories : List Category) × AreCategories leg_b phase.legs categories
      × (row.with_load ≡ outcome_stats categories)
  pub recovered :
      (categories : List Category) × AreCategories leg_a2 phase.legs categories
      × (row.after_recovery ≡ outcome_stats categories)

-- One row for each session and its bundle, in their order.
abbrev pub AreRows : Plan → List Session → List (Option ControlledLoad) → List Row → Type 0
AreRows plan [] bundles [] = Unit {0}
AreRows plan (session ∷ sessions) (bundle ∷ bundles) (row ∷ rows) =
    ((phase : ControlledLoad) × (bundle ≡ some phase) × IsRowOf plan session phase row)
    × AreRows plan sessions bundles rows
AreRows plan _ _ _ = ⊥

same_list_sound : (xs ys : List ℕ) → same_list xs ys ≡ true → xs ≡ ys
same_list_sound [] [] h = refl
same_list_sound [] (y ∷ ys) h = cc
same_list_sound (x ∷ xs) [] h = cc
same_list_sound (x ∷ xs) (y ∷ ys) h =
    ap₂ ◌∷◌ ((==_iff x y).0 (ground arith)) (same_list_sound xs ys (ground arith))

same_number-some :
    (value : ℕ) (other : Option ℕ) → same_number (some value) other ≡ true → other ≡ some value
same_number-some value none h = cc
same_number-some value (some other) h = ap some (sym ((==_iff value other).0 h))

row_of-IsRowOf :
    (plan : Plan) (session : Session) (phase : ControlledLoad)
    → matches_plan plan session phase ≡ true
    → IsRowOf plan session phase (row_of session phase)
unfolding matches_plan
row_of-IsRowOf plan session phase h = record {
  same_target = (==_iff _ _).0 (ground arith);
  same_workers = same_list_sound phase.worker_cpus plan.load_cpus (ground arith);
  same_attempts = same_number-some phase.attempts_per_leg plan.attempts_per_leg (ground arith);
  same_warmup = same_number-some phase.warmup_ms plan.warmup_ms (ground arith);
  same_recovery = same_number-some phase.recovery_ms plan.recovery_ms (ground arith);
  target = refl;
  controller = refl;
  completeness = refl;
  directory = refl;
  without = (leg_categories leg_a1 phase.legs [], leg_last leg_a1 phase.legs [], refl);
  loaded = (leg_categories leg_b phase.legs [], leg_last leg_b phase.legs [], refl);
  recovered = (leg_categories leg_a2 phase.legs [], leg_last leg_a2 phase.legs [], refl);
}

report_rows-AreRows :
    (plan : Plan) (sessions : List Session) (bundles : List (Option ControlledLoad))
    {rows : List Row}
    → report_rows plan sessions bundles ≡ ok rows
    → AreRows plan sessions bundles rows
unfolding report_rows
report_rows-AreRows plan [] bundles h = subst (AreRows plan [] bundles) (ok_inj h) tt
report_rows-AreRows plan (session ∷ sessions) [] h = absurd (cc h)
report_rows-AreRows plan (session ∷ sessions) (bundle ∷ bundles) h =
    let (phase, there, h₁) = bind_returns (present bundle bundle_mismatch) _ h in
    let (fits, h₂) =
      then_returns (require (matches_plan plan session phase) bundle_mismatch) _ h₁ in
    let (rest, later, whole) = bind_returns (report_rows plan sessions bundles) _ h₂ in
    subst (AreRows plan (session ∷ sessions) (bundle ∷ bundles)) (ok_inj whole) (
      (
        phase,
        present-some bundle bundle_mismatch there,
        row_of-IsRowOf plan session phase
            (require_holds (matches_plan plan session phase) bundle_mismatch fits),
      ),
      report_rows-AreRows plan sessions bundles later,
    )

from_plan_parser_returns :
    {A : Type 0} (o : Outcome DiscoveryError A) {value : A}
    → from_plan_parser o ≡ ok value
    → o ≡ ok value
from_plan_parser_returns (throw e) h = cc
from_plan_parser_returns (ok a) h = ap ok (ok_inj h)

-- A report's bundles are of the plan: each of its session's target CPU, the plan's load workers and its
-- numbers. It has a row for each session, in order, and so one for each target CPU; a row tells
-- whether its bundle is complete, and counts the outcomes of each of its three legs apart. A candidate that it names is a complete
-- screen's row that saw a target fault under load and that no other such row outranks.
pub build_report_sound :
    (digest : ℕ → ℕ → ℕ) (plan : Plan) (bundles : List (Option ControlledLoad)) {report : Report}
    → build_report digest plan bundles ≡ ok report
    → AreRows plan plan.sessions bundles report.rows
      × Perm (cpus_of_rows report.rows) plan.target_cpus
      × ((best : Row) → report.strongest ≡ some best → IsStrongest report.rows best)
unfolding build_report
build_report_sound digest plan bundles {report} h =
    let (parsed, p, h₁) = bind_returns (from_plan_parser (parse_plan digest plan)) _ h in
    let (same, runnable) =
      parse_plan_sound digest plan (from_plan_parser_returns (parse_plan digest plan) p) in
    let (_, h₂) =
      then_returns (require (length bundles == length parsed.sessions) bundle_count) _ h₁ in
    let (rows, built, last) = bind_returns (report_rows parsed parsed.sessions bundles) _ h₂ in
    let targets : cpus_of_rows rows ≡ targets_of plan.sessions =
      report_rows_targets parsed parsed.sessions bundles built
      ∙ ap (λ q. targets_of q.sessions) same in
    subst
      (λ (r : Report).
        AreRows plan plan.sessions bundles r.rows
        × Perm (cpus_of_rows r.rows) plan.target_cpus
        × ((best : Row) → r.strongest ≡ some best → IsStrongest r.rows best))
      (ok_inj last)
      (
        subst (λ (q : Plan). AreRows q q.sessions bundles rows) same
            (report_rows-AreRows parsed parsed.sessions bundles built),
        subst (λ l. Perm l plan.target_cpus) (sym targets) runnable.each_once,
        λ best e. strongest_candidate-IsStrongest rows e,
      )
