-- ===== src/ExactCpu/Resume/Scheduled.antt =====
-- The plan that an accepted manifest carries.
use fault_affinity.Prelude.{
  ℕ, zero, suc, ◌+◌, ◌<◌, ◌≡◌, ap, subst, List, [], ◌∷◌, some, length, get_elem?, ◌==◌, Outcome, ok,
  throw, require, bind_returns, then_returns, ok_inj, some_inj, arith,
}
use fault_affinity.Text.{text_eq, is_hex_of}
use fault_affinity.ExactCpu.Plan.{Slot, IsolatedPlan, PlanError, build_isolated_plan}
use fault_affinity.ExactCpu.Plan.Rounds.{Numbered}
use fault_affinity.ExactCpu.Plan.Slots.{IsIsolatedPlan, build_isolated_plan-IsIsolatedPlan}
use fault_affinity.ExactCpu.Phase.{
  bad_version, bad_phase, bad_affinity_mode, bad_schedule_version, bad_algorithm, bad_digest,
  other_plan, other_digest, Resolved, Schedule, Manifest, Digests, phase_version, phase_name,
  schedule_algorithm, affinity_mode, same_identity, from_plan, schedule_identity,
  validate_workload_binding, validate_generation, validate_taskset_path, validate_schedule,
  validate_manifest,
}

from_plan_returns :
    {A : Type 0} (o : Outcome PlanError A) {value : A} → from_plan o ≡ ok value → o ≡ ok value
from_plan_returns (throw e) h = cc
from_plan_returns (ok a) h = ap ok (ok_inj h)

validate_schedule-IsIsolatedPlan :
    (digests : Digests) (value : Schedule) {plan : IsolatedPlan}
    → validate_schedule digests value ≡ ok plan
    → IsIsolatedPlan value.identity.cpus value.identity.rounds plan
unfolding validate_schedule
validate_schedule-IsIsolatedPlan digests value {plan} h =
    let found = value.identity in
    let (_, h₁) = then_returns (require (found.version == 1) bad_schedule_version) _ h in
    let (_, h₂) =
      then_returns (require (text_eq found.algorithm schedule_algorithm) bad_algorithm) _ h₁ in
    let (_, h₃) = then_returns (require (is_hex_of 64 value.digest) bad_digest) _ h₂ in
    let (built, made, h₄) =
      bind_returns (from_plan (build_isolated_plan found.cpus found.rounds found.seed)) _ h₃ in
    let (_, h₅) =
      then_returns (require (same_identity found (schedule_identity digests built)) other_plan) _
        h₄ in
    let (_, last) =
      then_returns
        (require (text_eq value.digest (digests.identity_sha256 (schedule_identity digests built)))
          other_digest)
        _ h₅ in
    subst (IsIsolatedPlan found.cpus found.rounds) (ok_inj last) (
      build_isolated_plan-IsIsolatedPlan found.cpus found.rounds found.seed
        (from_plan_returns (build_isolated_plan found.cpus found.rounds found.seed) made))

pub validate_manifest-IsIsolatedPlan :
    (digests : Digests) (resolved : Resolved) (value : Manifest) {plan : IsolatedPlan}
    → validate_manifest digests resolved value ≡ ok plan
    → IsIsolatedPlan value.schedule.identity.cpus value.schedule.identity.rounds plan
unfolding validate_manifest
validate_manifest-IsIsolatedPlan digests resolved value h =
    let (_, h₁) = then_returns (require (value.version == phase_version) bad_version) _ h in
    let (_, h₂) = then_returns (require (text_eq value.phase phase_name) bad_phase) _ h₁ in
    let (_, h₃) = then_returns (validate_generation value.generation) _ h₂ in
    let (_, h₄) = then_returns (validate_workload_binding resolved value.workload) _ h₃ in
    let (_, h₅) =
      then_returns (require (text_eq value.affinity_mode affinity_mode) bad_affinity_mode) _ h₄ in
    let (_, last) = then_returns (validate_taskset_path value.taskset_path) _ h₅ in
    validate_schedule-IsIsolatedPlan digests value.schedule last

pub Numbered-at :
    (n i : ℕ) (slots : List Slot) {slot : Slot}
    → Numbered n slots
    → get_elem? slots i ≡ some slot
    → (slot.ordinal ≡ n + i) × (i < length slots)
Numbered-at n i [] h e = cc
Numbered-at n zero (s ∷ slots) {slot} h e =
    let same : s ≡ slot = some_inj e in
    let first : slot.ordinal ≡ n = subst (λ x. x.ordinal ≡ n) same h.0 in
    (omega (arith, first), omega arith)
Numbered-at n (suc i) (s ∷ slots) h e =
    let later = Numbered-at (n + 1) i slots h.1 e in
    (omega (arith, later.0), omega (arith, later.1))
