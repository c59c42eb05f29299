-- ===== src/ExactCpu/Resume/Prefix.antt =====
-- What an assessed prefix holds.
use fault_affinity.Prelude.{
  ℕ, zero, suc, ◌+◌, ◌-◌, ◌≤◌, ◌<◌, ◌≡◌, refl, ap, ◌∙◌, ◌↔◌, sym, subst, Bool, true, false, none,
  if◌then◌else◌, List, [], ◌∷◌, some, length, get_elem?, leb, leb→le, ◌==◌, ==_iff, ◌&&◌, ok,
  require, present, bind_returns, then_returns, require_holds, present-some, ok_inj, arith,
}
use fault_affinity.Text.{text_eq, decimal}
use fault_affinity.Text.Equality.{text_eq_sound}
use fault_affinity.Schedule.Orders.{max_schedule_entries}
use fault_affinity.ExactCpu.Plan.{Slot, IsolatedPlan}
use fault_affinity.ExactCpu.Phase.{
  bad_envelope_version, other_generation, other_schedule, bad_ordinal, bad_evidence,
  invalid_outcome, long_prefix, not_contiguous, Resolved, Manifest, phase_name,
  validate_workload_binding,
}
use fault_affinity.ExactCpu.Envelope.{
  Evidences, Envelope, validate_slot, validate_affinity_witness, validate_attempt_envelope,
}
use fault_affinity.ExactCpu.Resume.{
  empty, complete, status_of, PhaseProgress, assessed, check_prefix, assess_prefix_with_context,
}

slot_eq : (a b : Slot) → validate_slot a b ≡ ok tt → a ≡ b
unfolding validate_slot
slot_eq a b h =
    let ordinals : a.ordinal ≡ b.ordinal = ground arith in
    let rounds : a.round ≡ b.round = ground arith in
    let positions : a.position ≡ b.position = ground arith in
    let cpus : a.cpu ≡ b.cpu = ground arith in cc (ordinals, rounds, positions, cpus)

-- The progress after `committed` attempts.
pub record IsProgress (plan : IsolatedPlan) (committed : ℕ) (progress : PhaseProgress)
    : Type 0 where
  pub within : committed ≤ length plan.records
  pub counted : progress.committed_attempts ≡ committed
  pub total : progress.total_attempts ≡ length plan.records
  pub finished : (progress.is_complete ≡ true) ↔ (committed ≡ length plan.records)
  pub next : progress.next_slot ≡ get_elem? plan.records committed
  pub started : (progress.status ≡ empty) ↔ ((committed ≡ 0) × (0 < length plan.records))
  pub ended : (progress.status ≡ complete) ↔ (committed ≡ length plan.records)

get_elem?_end : {A : Type 0} (xs : List A) → get_elem? xs (length xs) ≡ none
get_elem?_end [] = refl
get_elem?_end (x ∷ xs) = get_elem?_end xs

started_of :
    (plan : IsolatedPlan) (committed : ℕ) (done : Bool)
    → (committed == length plan.records) ≡ done
    → (status_of done committed ≡ empty) ↔ ((committed ≡ 0) × (0 < length plan.records))
started_of plan committed true e = (
  λ h. absurd (cc h),
  λ (none_yet, some_left).
      (let all = (==_iff committed (length plan.records)).0 e in
        absurd (omega (arith, all, none_yet, some_left))),
)
started_of plan zero false e = (λ h. (refl, ground arith), λ h. refl)
started_of plan (suc committed) false e =
    (λ h. absurd (cc h), λ (none_yet, some_left). absurd (omega (arith, none_yet)))

ended_of :
    (plan : IsolatedPlan) (committed : ℕ) (done : Bool)
    → (committed == length plan.records) ≡ done
    → (status_of done committed ≡ complete) ↔ (committed ≡ length plan.records)
ended_of plan committed true e = (λ h. (==_iff _ _).0 e, λ h. refl)
ended_of plan zero false e = (
  λ h. absurd (cc h),
  λ h. (let all = (==_iff zero (length plan.records)).1 h in absurd (cc (all, e))),
)
ended_of plan (suc committed) false e = (
  λ h. absurd (cc h),
  λ h. (let all = (==_iff (suc committed) (length plan.records)).1 h in absurd (cc (all, e))),
)

assessed-IsProgress :
    (plan : IsolatedPlan) (committed : ℕ)
    → committed ≤ length plan.records
    → IsProgress plan committed (assessed plan committed)
assessed-IsProgress plan committed fits = record {
  within = fits;
  counted = refl;
  total = refl;
  finished = ==_iff committed (length plan.records);
  next = next_of (committed == length plan.records) refl;
  started = started_of plan committed (committed == length plan.records) refl;
  ended = ended_of plan committed (committed == length plan.records) refl;
}
  where
    next_of :
        (done : Bool)
        → (committed == length plan.records) ≡ done
        → (if done then none else get_elem? plan.records committed)
          ≡ get_elem? plan.records committed
    next_of false e = refl
    next_of true e =
        sym (ap (get_elem? plan.records) ((==_iff _ _).0 e) ∙ get_elem?_end plan.records)

module _ {Evidence Result : Type 0} (evidences : Evidences Evidence Result) (resolved : Resolved)
    (manifest : Manifest) where
  -- The attempt ran on the slot's CPU alone, and its evidence parses to a valid outcome.
  pub record IsAttempt (slot : Slot) (value : Envelope Evidence) : Type 0 where
    pub own_slot : value.slot ≡ slot
    pub supervised : value.affinity.supervisor_allowed_cpu_list ≡ decimal slot.cpu
    pub pinned : value.affinity.workload_allowed_cpu_list ≡ decimal slot.cpu
    pub evidence : Evidence
    pub parsed : evidences.parse value.evidence ≡ some evidence
    pub valid : evidences.is_valid evidence ≡ true

  -- The attempts of the slots from an index on.
  abbrev pub FollowsFrom : List Slot → ℕ → List (Envelope Evidence) → Type 0
  FollowsFrom slots index [] = Unit
  FollowsFrom slots index (value ∷ rest) =
      ((slot : Slot) × (get_elem? slots index ≡ some slot) × IsAttempt slot value)
      × FollowsFrom slots (index + 1) rest

  pub envelope-IsAttempt :
      (plan : IsolatedPlan) (value : Envelope Evidence)
      → validate_attempt_envelope evidences resolved manifest plan value ≡ ok tt
      → (slot : Slot) × (get_elem? plan.records (value.slot.ordinal - 1) ≡ some slot)
        × IsAttempt slot value
  unfolding validate_attempt_envelope validate_affinity_witness
  envelope-IsAttempt plan value h =
      let (_, h₁) = then_returns (require (value.version == 1) bad_envelope_version) _ h in
      let (_, h₂) =
        then_returns
          (require (text_eq value.phase phase_name && text_eq value.generation manifest.generation)
            other_generation)
          _ h₁ in
      let (_, h₃) = then_returns (validate_workload_binding resolved value.workload) _ h₂ in
      let (_, h₄) =
        then_returns
          (require (text_eq value.schedule_digest manifest.schedule.digest) other_schedule) _ h₃ in
      let (_, h₅) =
        then_returns
          (require (leb 1 value.slot.ordinal && leb value.slot.ordinal (length plan.records))
            bad_ordinal)
          _ h₄ in
      let (slot, found, h₆) =
        bind_returns (present (get_elem? plan.records (value.slot.ordinal - 1)) bad_ordinal) _ h₅ in
      let (own, h₇) = then_returns (validate_slot value.slot slot) _ h₆ in
      let (affine, h₈) =
        then_returns (validate_affinity_witness value.affinity manifest slot) _ h₇ in
      let (evidence, parsed, h₉) =
        bind_returns (present (evidences.parse value.evidence) bad_evidence) _ h₈ in
      let (valid, _) = then_returns (require (evidences.is_valid evidence) invalid_outcome) _ h₉ in
      (
        slot,
        present-some _ bad_ordinal found,
        record {
          own_slot = slot_eq value.slot slot own;
          supervised = text_eq_sound _ _ (ground arith);
          pinned = text_eq_sound _ _ (ground arith);
          evidence = evidence;
          parsed = present-some _ bad_evidence parsed;
          valid = require_holds _ invalid_outcome valid;
        },
      )

  check_prefix-FollowsFrom :
      (plan : IsolatedPlan) (index : ℕ) (values : List (Envelope Evidence))
      → check_prefix evidences resolved manifest plan index values ≡ ok tt
      → FollowsFrom plan.records index values
  unfolding check_prefix
  check_prefix-FollowsFrom plan index [] h = tt
  check_prefix-FollowsFrom plan index (value ∷ rest) h =
      let (valid, h₁) =
        then_returns (validate_attempt_envelope evidences resolved manifest plan value) _ h in
      let (next, later) =
        then_returns (require (value.slot.ordinal == index + 1) not_contiguous) _ h₁ in
      let here : value.slot.ordinal - 1 ≡ index =
        (let same = (==_iff _ _).0 (require_holds _ not_contiguous next) in omega arith) in
      let (slot, found, attempt) = envelope-IsAttempt plan value valid in
      (
        (slot, subst (λ i. get_elem? plan.records i ≡ some slot) here found, attempt),
        check_prefix-FollowsFrom plan (index + 1) rest later,
      )

  pub prefix_assessed :
      (plan : IsolatedPlan) (values : List (Envelope Evidence)) {progress : PhaseProgress}
      → assess_prefix_with_context evidences resolved manifest plan values ≡ ok progress
      → FollowsFrom plan.records 0 values
        × (length values ≤ length plan.records)
        × (progress ≡ assessed plan (length values))
  unfolding assess_prefix_with_context
  prefix_assessed plan values h =
      let (_, h₁) =
        then_returns (require (leb (length values) max_schedule_entries) long_prefix) _ h in
      let (fits, h₂) =
        then_returns (require (leb (length values) (length plan.records)) long_prefix) _ h₁ in
      let (checked, last) =
        then_returns (check_prefix evidences resolved manifest plan 0 values) _ h₂ in
      (
        check_prefix-FollowsFrom plan 0 values checked,
        leb→le _ _ (require_holds _ long_prefix fits),
        sym (ok_inj last),
      )

  -- A prefix that is assessed holds the attempts of the first slots of the plan, in the plan's order
  -- and without a gap, each run on its slot's CPU alone with a valid outcome; the progress counts
  -- them and the plan's slots, is complete exactly if as many are filled as there are, is empty exactly
  -- if there are slots and none is filled, and names as the next slot the plan's slot after them.
  pub assess_prefix_with_context_sound :
      (plan : IsolatedPlan) (values : List (Envelope Evidence)) {progress : PhaseProgress}
      → assess_prefix_with_context evidences resolved manifest plan values ≡ ok progress
      → FollowsFrom plan.records 0 values × IsProgress plan (length values) progress
  assess_prefix_with_context_sound plan values h =
      let (follows, fits, same) = prefix_assessed plan values h in
      (
        follows,
        subst (IsProgress plan (length values)) (sym same) (assessed-IsProgress plan _ fits),
      )
