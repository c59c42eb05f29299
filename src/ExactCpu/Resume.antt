-- ===== src/ExactCpu/Resume.antt =====
-- `assessExactCpuPhasePrefix` and `runNextExactCpuPhaseAttempt` of diagnose-lib/exact-cpu-phase.mjs: a
-- phase is resumed from the envelopes that are stored, one attempt at a time.
pub mod Prefix
pub mod Scheduled
pub mod Committed
mod Examples
use fault_affinity.Prelude.{
  ℕ, zero, suc, ◌+◌, Bool, true, false, List, [], ◌∷◌, Option, none, some, length, get_elem?, leb,
  ◌==◌, if◌then◌else◌, Outcome, ok, throw, ◌>>=◌, ◌>>◌, require, present,
}
use fault_affinity.Text.{Text, codes}
use fault_affinity.Schedule.Orders.{max_schedule_entries}
use fault_affinity.ExactCpu.Plan.{Slot, IsolatedPlan}
use fault_affinity.ExactCpu.Phase.{
  PhaseError, bad_evidence, no_witness, long_prefix, not_contiguous, Resolved, Manifest, Digests,
  validate_manifest,
}
use fault_affinity.ExactCpu.Envelope.{
  AffinityWitness, Evidences, Envelope, validate_attempt_envelope, build_attempt_envelope,
  from_builder,
}

pub data Status : Type 0 where
  empty incomplete complete : Status

pub record PhaseProgress : Type 0 where
  pub status : Status
  pub is_complete : Bool
  pub committed_attempts : ℕ
  pub total_attempts : ℕ
  pub next_slot : Option Slot

abbrev pub status_of : Bool → ℕ → Status
status_of true committed = complete
status_of false zero = empty
status_of false (suc committed) = incomplete

abbrev pub assessed : IsolatedPlan → ℕ → PhaseProgress
assessed plan committed =
    let done = committed == length plan.records in
    record {
      status = status_of done committed;
      is_complete = done;
      committed_attempts = committed;
      total_attempts = length plan.records;
      next_slot = if done then none else get_elem? plan.records committed;
    }

-- `code.slice(0, 64)`, and the code of an error that has none.
abbrev pub truncate : ℕ → Text → Text
truncate zero text = []
truncate (suc n) [] = []
truncate (suc n) (c ∷ text) = c ∷ truncate n text

abbrev pub runner_error_code : Option Text → Text
runner_error_code none = codes "RUNNER_ERROR"
runner_error_code (some code) = truncate 64 code

pub data Attempted (Evidence : Type 0) : Type 0 where
  already_complete : Attempted Evidence
  runner_error : Text → Slot → Attempted Evidence
  operational_invalid : Slot → Evidence → Attempted Evidence
  committed : Slot → Envelope Evidence → Attempted Evidence

module _ {Evidence Result : Type 0} (evidences : Evidences Evidence Result) (resolved : Resolved)
    (manifest : Manifest) where
  -- The loop, from an index on.
  pub check_prefix : IsolatedPlan → ℕ → List (Envelope Evidence) → Outcome PhaseError (Unit {0})
  check_prefix plan index [] = ok tt
  check_prefix plan index (value ∷ rest) =
      let later = check_prefix plan (index + 1) rest in
      validate_attempt_envelope evidences resolved manifest plan value
      >> (require (value.slot.ordinal == index + 1) not_contiguous >> later)

  unfoldable pub assess_prefix_with_context :
      IsolatedPlan → List (Envelope Evidence) → Outcome PhaseError PhaseProgress
  assess_prefix_with_context plan envelopes = do
    require (leb (length envelopes) max_schedule_entries) long_prefix
    require (leb (length envelopes) (length plan.records)) long_prefix
    check_prefix plan 0 envelopes
    ok (assessed plan (length envelopes))

  -- What the runner's result comes to; an error that it throws has a code or none.
  unfoldable pub commit_result :
      Digests → Slot → Outcome (Option Text) Result → Outcome PhaseError (Attempted Evidence)
  commit_result digests slot (throw code) = ok (runner_error (runner_error_code code) slot)
  commit_result digests slot (ok result) = do
    evidence ← from_builder (evidences.build result)
    if evidences.is_valid evidence
        then (do
          affinity ← present (evidences.cpu_affinity result) no_witness
          envelope ←
              build_attempt_envelope evidences digests resolved manifest slot evidence
                (record affinity { mode = manifest.affinity_mode })
          ok (committed slot envelope))
        else ok (operational_invalid slot evidence)

  abbrev pub attempt_slot :
      Digests
      → (ℕ → Text → Outcome (Option Text) Result)
      → Option Slot
      → Outcome PhaseError (Attempted Evidence)
  attempt_slot digests run_attempt none = ok already_complete
  attempt_slot digests run_attempt (some slot) =
      commit_result digests slot (run_attempt slot.cpu manifest.taskset_path)

  -- `run_attempt` is given the CPU and the path of taskset.
  unfoldable pub run_next_attempt :
      Digests
      → (ℕ → Text → Outcome (Option Text) Result)
      → List (Envelope Evidence)
      → Outcome PhaseError (Attempted Evidence)
  run_next_attempt digests run_attempt envelopes = do
    plan ← validate_manifest digests resolved manifest
    progress ← assess_prefix_with_context plan envelopes
    if progress.is_complete
        then ok already_complete
        else attempt_slot digests run_attempt progress.next_slot
