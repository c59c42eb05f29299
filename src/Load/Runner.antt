-- ===== src/Load/Runner.antt =====
-- `runControlledLoadSession` of diagnose-lib/controlled-load-session.mjs, over a world that its calls
-- and the signal change.
pub mod Course
pub mod Endings
pub mod Stopped
pub mod Committed
pub mod Succeeding
use fault_affinity.Prelude.{
  ℕ, zero, suc, Bool, true, false, List, [], ◌∷◌, Option, none, some, if◌then◌else◌, not, ◌&&◌,
  ◌||◌, Outcome, ok, throw, ◌>>=◌, ◌>>◌, require, present,
}
use fault_affinity.Text.{Text, codes, is_error_code}
use fault_affinity.ExactCpu.Envelope.{AffinityWitness}
use fault_affinity.Load.Managed.{ManagedResult}
use fault_affinity.Load.Workers.{ResolvedLoad, StartEvidence, BoundaryEvidence, StopEvidence}
use fault_affinity.Load.WorkerSet.{normalized_error_code, code_or}
use fault_affinity.Load.Session.{
  SessionError, session_error_code, SessionManifest, parse_session_manifest,
}
use fault_affinity.Load.Envelope.{
  MeasuredEvidences, LoadDigests, SessionEnvelope, is_measured_affinity,
}
use fault_affinity.Load.Build.{Recorded, Attempts, build_session_envelope}

-- The calls of the session; an error that one throws has a code or none. `wait`, which may reject,
-- tells whether the interval is completed, `is_aborted` whether the signal is.
pub record Driver (World Result Lifecycle : Type 0) : Type 0 where
  pub is_aborted : World → Bool
  pub run_attempt : World → Outcome (Option Text) Result × World
  pub start_worker_set : World → Outcome (Option Text) StartEvidence × World
  pub verify : Text → World → Outcome (Option Text) BoundaryEvidence × World
  pub stop : Text → World → Outcome (Option Text) (StopEvidence Lifecycle) × World
  pub wait : ℕ → World → Outcome (Option Text) Bool × World

-- `buildAttemptEvidence` and the affinity witness of a result, if it has one.
pub record Measuring (Evidence Result : Type 0) : Type 0 where
  pub build : Result → Outcome (Option Text) Evidence
  pub cpu_affinity : Result → Option AffinityWitness

-- `ok: false`, with its reason and its code.
pub record LegFailure : Type 0 where
  pub reason : Text
  pub error_code : Option Text

-- What an attempt's result comes to: none of it is kept, its evidence is and the leg fails, or it is
-- kept with its witness.
pub data Judged (Evidence : Type 0) : Type 0 where
  refused : LegFailure → Judged Evidence
  rejected : LegFailure → Evidence → Judged Evidence
  kept : Evidence → AffinityWitness → Judged Evidence

pub record RunCondition (Lifecycle : Type 0) : Type 0 where
  pub worker_set_start : Option StartEvidence
  pub before_b : Option BoundaryEvidence
  pub after_b : Option BoundaryEvidence
  pub worker_set_stop : Option (StopEvidence Lifecycle)

pub record SessionResult (Evidence Lifecycle : Type 0) : Type 0 where
  pub committed : Bool
  pub reason : Text
  pub stage : Text
  pub error_code : Option Text
  pub envelope : Option (SessionEnvelope Evidence Lifecycle)
  pub attempts : Attempts Evidence
  pub condition : RunCondition Lifecycle

-- What the session has recorded when its worker set has stopped.
pub record WholeCondition (Lifecycle : Type 0) : Type 0 where
  pub start : StartEvidence
  pub before : BoundaryEvidence
  pub after : BoundaryEvidence
  pub stop : StopEvidence Lifecycle

abbrev pub no_condition : {Lifecycle : Type 0} → RunCondition Lifecycle
no_condition = record {
  worker_set_start = none;
  before_b = none;
  after_b = none;
  worker_set_stop = none;
}

abbrev pub whole_condition :
    {Lifecycle : Type 0} → WholeCondition Lifecycle → RunCondition Lifecycle
whole_condition whole = record {
  worker_set_start = some whole.start;
  before_b = some whole.before;
  after_b = some whole.after;
  worker_set_stop = some whole.stop;
}

abbrev pub external_cancel_code : Text
external_cancel_code = codes "CONTROLLED_LOAD_EXTERNAL_CANCEL"

abbrev pub canceled : LegFailure
canceled = record { reason = codes "external-cancel"; error_code = some external_cancel_code }

abbrev pub runner_failure : Option Text → LegFailure
runner_failure code = record {
  reason = codes "runner-error";
  error_code = some (normalized_error_code code (codes "CONTROLLED_LOAD_ATTEMPT_RUNNER_ERROR"));
}

abbrev pub evidence_failure : Option Text → LegFailure
evidence_failure code = record {
  reason = codes "evidence-invalid";
  error_code = some (normalized_error_code code (codes "CONTROLLED_LOAD_ATTEMPT_EVIDENCE_INVALID"));
}

abbrev pub operational_failure : LegFailure
operational_failure = record { reason = codes "operational-invalid"; error_code = none }

abbrev pub session_code : Option Text
session_code = some (codes "INVALID_CONTROLLED_LOAD_SESSION")

module _ {Evidence Result : Type 0} (evidences : MeasuredEvidences Evidence)
    (measuring : Measuring Evidence Result) (manifest : SessionManifest) where
  -- `measuredAffinityWitness`
  abbrev pub judge_affinity : Evidence → Option AffinityWitness → Judged Evidence
  judge_affinity evidence none = rejected (evidence_failure session_code) evidence
  judge_affinity evidence (some affinity) =
      let witness = record affinity { mode = manifest.execution.target_affinity_mode } in
      if is_measured_affinity witness manifest
      then kept evidence witness
      else rejected (evidence_failure session_code) evidence

  abbrev pub judge_evidence : Result → Outcome (Option Text) Evidence → Judged Evidence
  judge_evidence result (throw code) = refused (evidence_failure code)
  judge_evidence result (ok evidence) =
      if evidences.is_valid evidence
      then judge_affinity evidence (measuring.cpu_affinity result)
      else rejected operational_failure evidence

  abbrev pub judge : Outcome (Option Text) Result → Judged Evidence
  judge (throw code) = refused (runner_failure code)
  judge (ok result) = judge_evidence result (measuring.build result)

module _ {World Result Evidence Lifecycle : Type 0} (driver : Driver World Result Lifecycle)
    (evidences : MeasuredEvidences Evidence) (measuring : Measuring Evidence Result)
    (builds : ManagedResult Lifecycle → Bool) (digests : LoadDigests Lifecycle)
    (measured auxiliary : ResolvedLoad) (manifest : SessionManifest) where
  abbrev pub LegRun : Type 0
  LegRun = (Option LegFailure × List (Recorded Evidence)) × World

  -- The rest of a leg; its failure, if it fails, the attempts that it records, and the world after it.
  unfoldable pub run_leg : ℕ → World → LegRun
  run_leg zero w = ((none, []), w)
  run_leg (suc remaining) w = elim (driver.is_aborted w) [
    | true ↦ ((some canceled, []), w)
    | false ↦
        let (result, w₁) = driver.run_attempt w in
        elim (judge evidences measuring manifest result) [
          | refused failure ↦ ((some failure, []), w₁)
          | rejected failure evidence ↦
              ((some failure, record { evidence = evidence; affinity = none } ∷ []), w₁)
          | kept evidence affinity ↦
              let ((failure, later), w₂) = run_leg remaining w₁ in
              ((failure, record { evidence = evidence; affinity = some affinity } ∷ later), w₂)
        ]
  ]

  -- What the session's promise comes to, and the world: a result, or an error that no `catch` takes.
  abbrev pub Ended : Type 0
  Ended = Outcome (Option Text) (SessionResult Evidence Lifecycle) × World

  abbrev pub failed_session :
      Text
      → Text
      → Option Text
      → Attempts Evidence
      → RunCondition Lifecycle
      → SessionResult Evidence Lifecycle
  failed_session reason stage code attempts condition = record {
    committed = false;
    reason = reason;
    stage = stage;
    error_code = code;
    envelope = none;
    attempts = attempts;
    condition = condition;
  }

  abbrev pub condition_failed :
      Option Text → Attempts Evidence → RunCondition Lifecycle → SessionResult Evidence Lifecycle
  condition_failed code attempts condition =
      failed_session (codes "condition-invalid") (codes "condition")
        (some (normalized_error_code code (codes "CONTROLLED_LOAD_CONDITION_INVALID"))) attempts
        condition

  abbrev pub stopped_condition :
      Outcome (Option Text) (StopEvidence Lifecycle)
      → RunCondition Lifecycle
      → RunCondition Lifecycle
  stopped_condition (throw code) condition = condition
  stopped_condition (ok found) condition = record condition { worker_set_stop = some found }

  -- The `catch` while the handle is there: the set is stopped, and an error of that is dropped.
  abbrev pub caught : Option Text → Attempts Evidence → RunCondition Lifecycle → World → Ended
  caught code attempts condition w =
      let (found, w₁) = driver.stop (codes "session-invalid") w in
      (ok (condition_failed code attempts (stopped_condition found condition)), w₁)

  -- The set is stopped before the session fails; an error of that is caught in turn.
  abbrev pub stop_and_fail :
      Text → Text → Option Text → Attempts Evidence → RunCondition Lifecycle → World → Ended
  stop_and_fail reason stage code attempts condition w =
      let (found, w₁) = driver.stop (codes "session-invalid") w in
      elim found [
        | throw stop_code ↦ caught stop_code attempts condition w₁
        | ok evidence ↦ (
          ok (
              failed_session reason stage code attempts
                (record condition { worker_set_stop = some evidence })),
          w₁,
        )
      ]

  abbrev pub committed_session :
      SessionEnvelope Evidence Lifecycle
      → Attempts Evidence
      → RunCondition Lifecycle
      → SessionResult Evidence Lifecycle
  committed_session envelope attempts condition = record {
    committed = true;
    reason = codes "committed";
    stage = codes "complete";
    error_code = none;
    envelope = some envelope;
    attempts = attempts;
    condition = condition;
  }

  -- What follows the last attempt.
  unfoldable pub conclude :
      Attempts Evidence → WholeCondition Lifecycle → SessionResult Evidence Lifecycle
  conclude attempts whole =
      elim (build_session_envelope evidences builds digests measured auxiliary manifest attempts
        whole.start whole.before whole.after whole.stop) [
          | throw e ↦
              failed_session (codes "envelope-invalid") (codes "envelope")
                (some (
                  normalized_error_code (some (session_error_code e))
                    (codes "CONTROLLED_LOAD_ENVELOPE_INVALID")))
                attempts (whole_condition whole)
          | ok envelope ↦ committed_session envelope attempts (whole_condition whole)
        ]

  abbrev pub attempts_per_leg_of : ℕ
  attempts_per_leg_of = manifest.schedule.identity.attempts_per_leg

  -- The recovery interval and A2.
  unfoldable pub run_recovery :
      List (Recorded Evidence) → List (Recorded Evidence) → WholeCondition Lifecycle → World → Ended
  run_recovery a1 b whole w =
      let (recovered, w₁) = driver.wait manifest.schedule.identity.recovery_ms w in
      elim recovered [
        | throw code ↦ (throw code, w₁)
        | ok lasted ↦ elim (not lasted || driver.is_aborted w₁) [
          | true ↦ (
            ok (
                failed_session canceled.reason (codes "recovery") canceled.error_code
                  (record { a1 = a1; b = b; a2 = [] }) (whole_condition whole)),
            w₁,
          )
          | false ↦
              let ((failure, a2), w₂) = run_leg attempts_per_leg_of w₁ in
              let attempts : Attempts Evidence = record { a1 = a1; b = b; a2 = a2 } in
              elim failure [
                | some found ↦ (
                  ok (
                      failed_session found.reason (codes "a2") found.error_code attempts
                        (whole_condition whole)),
                  w₂,
                )
                | none ↦ (ok (conclude attempts whole), w₂)
              ]
        ]
      ]

  -- The set has stopped, and says whether as it should: `handle` is null from here on.
  abbrev pub after_stop :
      Bool
      → List (Recorded Evidence)
      → List (Recorded Evidence)
      → WholeCondition Lifecycle
      → World
      → Ended
  after_stop true a1 b whole w = run_recovery a1 b whole w
  after_stop false a1 b whole w = (
    ok (
        failed_session (codes "condition-invalid") (codes "worker-stop")
          (some (code_or whole.stop.failure_code (codes "CONTROLLED_LOAD_WORKER_STOP_INVALID")))
          (record { a1 = a1; b = b; a2 = [] }) (whole_condition whole)),
    w,
  )

  -- The verification after B, and the stop.
  unfoldable pub run_stop :
      List (Recorded Evidence)
      → List (Recorded Evidence)
      → StartEvidence
      → BoundaryEvidence
      → World
      → Ended
  run_stop a1 b start before w =
      let attempts : Attempts Evidence = record { a1 = a1; b = b; a2 = [] } in
      let condition : RunCondition Lifecycle = record no_condition {
        worker_set_start = some start;
        before_b = some before;
      } in
      let (after, w₁) = driver.verify (codes "after-b") w in
      elim after [
        | throw code ↦ caught code attempts condition w₁
        | ok found ↦
            let (stopped, w₂) = driver.stop (codes "complete") w₁ in
            elim stopped [
              | throw code ↦ caught code attempts (record condition { after_b = some found }) w₂
              | ok stop ↦
                  after_stop stop.valid a1 b
                    (record { start = start; before = before; after = found; stop = stop }) w₂
            ]
      ]

  -- The verification before B, and B.
  unfoldable pub run_b : List (Recorded Evidence) → StartEvidence → World → Ended
  run_b a1 start w =
      let condition : RunCondition Lifecycle = record no_condition {
        worker_set_start = some start;
      } in
      let (before, w₁) = driver.verify (codes "before-b") w in
      elim before [
        | throw code ↦ caught code (record { a1 = a1; b = []; a2 = [] }) condition w₁
        | ok found ↦
            let ((failure, b), w₂) = run_leg attempts_per_leg_of w₁ in
            elim failure [
              | some failed ↦
                  stop_and_fail failed.reason (codes "b") failed.error_code
                    (record { a1 = a1; b = b; a2 = [] })
                    (record condition { before_b = some found }) w₂
              | none ↦ run_stop a1 b start found w₂
            ]
      ]

  -- The start of the worker set, and the warm-up.
  unfoldable pub run_load : List (Recorded Evidence) → World → Ended
  run_load a1 w =
      let attempts : Attempts Evidence = record { a1 = a1; b = []; a2 = [] } in
      let (started, w₁) = driver.start_worker_set w in
      elim started [
        | throw code ↦ (ok (condition_failed code attempts no_condition), w₁)
        | ok start ↦
            let (warmed, w₂) = driver.wait manifest.schedule.identity.warmup_ms w₁ in
            elim warmed [
              | throw code ↦
                  caught code attempts (record no_condition { worker_set_start = some start }) w₂
              | ok lasted ↦ elim (not lasted || driver.is_aborted w₂) [
                | true ↦
                    stop_and_fail canceled.reason (codes "warmup") canceled.error_code attempts
                      (record no_condition { worker_set_start = some start }) w₂
                | false ↦ run_b a1 start w₂
              ]
            ]
      ]

  unfoldable pub run_session : World → Ended
  run_session w =
      let ((failure, a1), w₁) = run_leg attempts_per_leg_of w in
      elim failure [
        | some found ↦ (
          ok (
              failed_session found.reason (codes "a1") found.error_code
                (record { a1 = a1; b = []; a2 = [] }) no_condition),
          w₁,
        )
        | none ↦ run_load a1 w₁
      ]
