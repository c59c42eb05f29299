-- ===== src/ExactCpu/Envelope.antt =====
-- The envelope of one committed attempt: `validateAttemptEnvelope` and
-- `buildExactCpuAttemptEnvelope` of diagnose-lib/exact-cpu-phase.mjs. The attempt's evidence is read
-- and built by diagnose-lib/attempt-evidence.mjs, which stands here as an interface.
use fault_affinity.Prelude.{
  ℕ, ◌-◌, Bool, Option, length, get_elem?, leb, ◌==◌, ◌&&◌, Outcome, ok, throw, ◌>>=◌, ◌>>◌,
  require, present,
}
use fault_affinity.Text.{Text, text_eq, decimal, is_hex_of}
use fault_affinity.ExactCpu.Plan.{Slot, IsolatedPlan}
use fault_affinity.ExactCpu.Phase.{
  PhaseError, bad_slot, other_slot, other_affinity, other_binding, bad_envelope_version,
  other_generation, other_schedule, bad_ordinal, bad_evidence, invalid_outcome, Binding, Resolved,
  Workload, Manifest, Digests, phase_name, same_binding, workload_binding,
  validate_workload_binding, validate_manifest,
}

pub record AffinityWitness : Type 0 where
  pub mode : Text
  pub requested_cpu : ℕ
  pub supervisor_allowed_cpu_list : Text
  pub workload_allowed_cpu_list : Text

-- `parse` is none where the parser throws; what `build` throws has a code or none; `cpu_affinity` is the
-- `execution.cpuAffinity` of a result, if it has one.
pub record Evidences (Evidence Result : Type 0) : Type 0 where
  pub parse : Evidence → Option Evidence
  pub build : Result → Outcome (Option Text) Evidence
  pub is_valid : Evidence → Bool
  pub binding : Evidence → Binding
  pub cpu_affinity : Result → Option AffinityWitness

abbrev pub from_builder {ℓ} : {A : Type ℓ} → Outcome (Option Text) A → Outcome PhaseError A
from_builder (throw code) = throw bad_evidence
from_builder (ok evidence) = ok evidence

pub record Envelope (Evidence : Type 0) : Type 0 where
  pub version : ℕ
  pub phase : Text
  pub generation : Text
  pub workload : Workload
  pub schedule_digest : Text
  pub slot : Slot
  pub affinity : AffinityWitness
  pub binding : Binding
  pub evidence : Evidence

-- A slot has no zero ordinal, round or position, and is the one that the schedule has.
unfoldable pub validate_slot : Slot → Slot → Outcome PhaseError (Unit {0})
validate_slot value expected = do
  require (leb 1 value.ordinal && (leb 1 value.round && leb 1 value.position)) bad_slot
  require
      (value.ordinal == expected.ordinal
        && (value.round == expected.round
            && (value.position == expected.position && value.cpu == expected.cpu)))
      other_slot

unfoldable pub validate_affinity_witness :
    AffinityWitness → Manifest → Slot → Outcome PhaseError (Unit {0})
validate_affinity_witness value manifest slot =
    require
      (text_eq value.mode manifest.affinity_mode
        && (value.requested_cpu == slot.cpu
            && (text_eq value.supervisor_allowed_cpu_list (decimal slot.cpu)
                && text_eq value.workload_allowed_cpu_list (decimal slot.cpu))))
      other_affinity

abbrev pub validate_attempt_binding : Binding → Binding → Outcome PhaseError (Unit {0})
validate_attempt_binding value expected =
    require (is_hex_of 64 value.sha256 && same_binding value expected) other_binding

module _ {Evidence Result : Type 0} (evidences : Evidences Evidence Result) where
  unfoldable pub validate_attempt_envelope :
      Resolved → Manifest → IsolatedPlan → Envelope Evidence → Outcome PhaseError (Unit {0})
  validate_attempt_envelope resolved manifest plan value = do
    require (value.version == 1) bad_envelope_version
    require (text_eq value.phase phase_name && text_eq value.generation manifest.generation)
        other_generation
    validate_workload_binding resolved value.workload
    require (text_eq value.schedule_digest manifest.schedule.digest) other_schedule
    require (leb 1 value.slot.ordinal && leb value.slot.ordinal (length plan.records)) bad_ordinal
    expected ← present (get_elem? plan.records (value.slot.ordinal - 1)) bad_ordinal
    validate_slot value.slot expected
    validate_affinity_witness value.affinity manifest expected
    evidence ← present (evidences.parse value.evidence) bad_evidence
    require (evidences.is_valid evidence) invalid_outcome
    validate_attempt_binding value.binding (evidences.binding evidence)

  unfoldable pub build_attempt_envelope :
      Digests
      → Resolved
      → Manifest
      → Slot
      → Evidence
      → AffinityWitness
      → Outcome PhaseError (Envelope Evidence)
  build_attempt_envelope digests resolved manifest slot found affinity = do
    plan ← validate_manifest digests resolved manifest
    evidence ← present (evidences.parse found) bad_evidence
    workload ← workload_binding resolved
    let envelope : Envelope Evidence = record {
      version = 1;
      phase = phase_name;
      generation = manifest.generation;
      workload = workload;
      schedule_digest = manifest.schedule.digest;
      slot = slot;
      affinity = affinity;
      binding = evidences.binding evidence;
      evidence = evidence;
    }
    validate_attempt_envelope resolved manifest plan envelope
    ok envelope
