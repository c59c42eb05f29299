-- ===== src/ExactCpu/Resume/Committed.antt =====
-- The prefix after a committed attempt.
use fault_affinity.Prelude.{
  ℕ, ◌+◌, ◌≡◌, refl, sym, ◌∙◌, ap, subst, inl, inr, List, [], ◌∷◌, ◌++◌, Option, none, some, length,
  length-append, get_elem?, leb, le→leb, ◌==◌, ==_iff, if◌then◌else◌, Bool-cases, Outcome, ok,
  throw, require, present, bind_returns, then_returns, ok_inj, arith,
}
use fault_affinity.Text.{Text}
use fault_affinity.Schedule.Orders.{max_schedule_entries}
use fault_affinity.ExactCpu.Plan.{Slot, IsolatedPlan}
use fault_affinity.ExactCpu.Phase.{
  PhaseError, bad_evidence, no_witness, long_prefix, not_contiguous, Resolved, Manifest, Digests,
  phase_name, workload_binding, validate_manifest,
}
use fault_affinity.ExactCpu.Envelope.{
  AffinityWitness, Evidences, Envelope, validate_attempt_envelope, build_attempt_envelope,
  from_builder,
}
use fault_affinity.ExactCpu.Resume.{
  PhaseProgress, Attempted, already_complete, operational_invalid, committed, assessed,
  check_prefix, assess_prefix_with_context, commit_result, attempt_slot, run_next_attempt,
}
use fault_affinity.ExactCpu.Resume.Prefix.{prefix_assessed}
use fault_affinity.ExactCpu.Resume.Scheduled.{validate_manifest-IsIsolatedPlan, Numbered-at}

module _ {Evidence Result : Type 0} (evidences : Evidences Evidence Result) (resolved : Resolved)
    (manifest : Manifest) where
  check_prefix-append :
      (plan : IsolatedPlan) (index : ℕ) (values : List (Envelope Evidence))
      (last : Envelope Evidence)
      → check_prefix evidences resolved manifest plan index values ≡ ok tt
      → validate_attempt_envelope evidences resolved manifest plan last ≡ ok tt
      → last.slot.ordinal ≡ index + length values + 1
      → check_prefix evidences resolved manifest plan index (values ++ last ∷ []) ≡ ok tt
  unfolding check_prefix
  check_prefix-append plan index [] last h valid next =
      rw (valid, (==_iff last.slot.ordinal (index + 1)).1 (omega (arith, next))) refl
  check_prefix-append plan index (value ∷ rest) last h valid next =
      let (valid_here, h₁) =
        then_returns (validate_attempt_envelope evidences resolved manifest plan value) _ h in
      let (next_here, later) =
        then_returns (require (value.slot.ordinal == index + 1) not_contiguous) _ h₁ in
      rw (valid_here, next_here)
        (check_prefix-append plan (index + 1) rest last later valid (omega (arith, next)))

  -- What `commit_result` commits is an envelope of its slot that passes the check.
  build_attempt_envelope_sound :
      (digests : Digests) (plan : IsolatedPlan) (slot : Slot) (found : Evidence)
      (affinity : AffinityWitness) {envelope : Envelope Evidence}
      → validate_manifest digests resolved manifest ≡ ok plan
      → build_attempt_envelope evidences digests resolved manifest slot found affinity ≡ ok envelope
      → (envelope.slot ≡ slot)
        × (validate_attempt_envelope evidences resolved manifest plan envelope ≡ ok tt)
  unfolding build_attempt_envelope
  build_attempt_envelope_sound digests plan slot found affinity {envelope} m h =
      let (plan', m', h₁) = bind_returns (validate_manifest digests resolved manifest) _ h in
      let (evidence, _, h₂) = bind_returns (present (evidences.parse found) bad_evidence) _ h₁ in
      let (workload, _, h₃) = bind_returns (workload_binding resolved) _ h₂ in
      let made : Envelope Evidence = record {
        version = 1;
        phase = phase_name;
        generation = manifest.generation;
        workload = workload;
        schedule_digest = manifest.schedule.digest;
        slot = slot;
        affinity = affinity;
        binding = evidences.binding evidence;
        evidence = evidence;
      } in
      let (valid, last) =
        then_returns (validate_attempt_envelope evidences resolved manifest plan' made) _ h₃ in
      let same : plan' ≡ plan = ok_inj (sym m' ∙ m) in
      let whole : made ≡ envelope = ok_inj last in
      subst
        (λ e.
          (e.slot ≡ slot) × (validate_attempt_envelope evidences resolved manifest plan e ≡ ok tt))
        whole
        (
          refl,
          subst (λ p. validate_attempt_envelope evidences resolved manifest p made ≡ ok tt) same
              valid,
        )

  committed_parts :
      {slot slot' : Slot} {a b : Envelope Evidence}
      → ◌≡◌ {A = Outcome PhaseError (Attempted Evidence)}
          (ok (committed slot a))
          (ok (committed slot' b))
      → (slot ≡ slot') × (a ≡ b)
  committed_parts {slot} {a} e =
      let inner = ok_inj e in
      (
        ap (λ (r : Attempted Evidence). elim r [ committed s v ↦ s | _ ↦ slot ]) inner,
        ap (λ (r : Attempted Evidence). elim r [ committed s v ↦ v | _ ↦ a ]) inner,
      )

  commit_result_sound :
      (digests : Digests) (plan : IsolatedPlan) (slot : Slot)
      (result : Outcome (Option Text) Result) {done : Slot} {envelope : Envelope Evidence}
      → validate_manifest digests resolved manifest ≡ ok plan
      → commit_result evidences resolved manifest digests slot result ≡ ok (committed done envelope)
      → (done ≡ slot)
        × (envelope.slot ≡ slot)
        × (validate_attempt_envelope evidences resolved manifest plan envelope ≡ ok tt)
  unfolding commit_result
  commit_result_sound digests plan slot (throw code) m h = absurd (cc h)
  commit_result_sound digests plan slot (ok result) {done} {envelope} m h =
      let (evidence, _, h₁) = bind_returns (from_builder (evidences.build result)) _ h in
      elim (Bool-cases (evidences.is_valid evidence)) [
        | inr f ↦
            let ended : ok (operational_invalid slot evidence) ≡ ok (committed done envelope) =
              rw f at h₁ in
            absurd (cc ended)
        | inl t ↦
            let rest = rw t at h₁ in
            let (affinity, _, h₂) =
              bind_returns (present (evidences.cpu_affinity result) no_witness) _ rest in
            let (built, made, last) =
              bind_returns
                (build_attempt_envelope evidences digests resolved manifest slot evidence
                  (record affinity { mode = manifest.affinity_mode }))
                _ h₂ in
            let (own, whole) = committed_parts last in
            let (placed, valid) =
              build_attempt_envelope_sound digests plan slot evidence
                (record affinity { mode = manifest.affinity_mode }) m made in
            (
              sym own,
              subst (λ e. e.slot ≡ slot) whole placed,
              subst (λ e. validate_attempt_envelope evidences resolved manifest plan e ≡ ok tt)
                  whole valid,
            )
      ]

  -- The next attempt is made for the slot after the prefix.
  attempted :
      (digests : Digests) (plan : IsolatedPlan)
      (run_attempt : ℕ → Text → Outcome (Option Text) Result) (count : ℕ) {done : Slot}
      {envelope : Envelope Evidence}
      → (if count == length plan.records
          then ok already_complete
          else attempt_slot evidences resolved manifest digests run_attempt
              (if count == length plan.records then none else get_elem? plan.records count))
        ≡ ok (committed done envelope)
      → (slot : Slot) × (get_elem? plan.records count ≡ some slot)
        × (commit_result evidences resolved manifest digests slot
              (run_attempt slot.cpu manifest.taskset_path)
            ≡ ok (committed done envelope))
  attempted digests plan run_attempt count {done} {envelope} h =
      elim (Bool-cases (count == length plan.records)) [
        | inl t ↦
            let ended : ok already_complete ≡ ok (committed done envelope) = rw t at h in
            absurd (cc ended)
        | inr f ↦
            let rest : attempt_slot evidences resolved manifest digests run_attempt
                  (get_elem? plan.records count)
                ≡ ok (committed done envelope) =
              rw f at h in
            found (get_elem? plan.records count) rest
      ]
    where
      found :
          (next : Option Slot)
          → attempt_slot evidences resolved manifest digests run_attempt next
            ≡ ok (committed done envelope)
          → (slot : Slot) × (next ≡ some slot)
            × (commit_result evidences resolved manifest digests slot
                  (run_attempt slot.cpu manifest.taskset_path)
                ≡ ok (committed done envelope))
      found none e = absurd (cc e)
      found (some slot) e = (slot, refl, e)

  extended :
      (digests : Digests) (plan : IsolatedPlan) (values : List (Envelope Evidence))
      (envelope : Envelope Evidence) {progress : PhaseProgress}
      → validate_manifest digests resolved manifest ≡ ok plan
      → assess_prefix_with_context evidences resolved manifest plan values ≡ ok progress
      → get_elem? plan.records (length values) ≡ some envelope.slot
      → validate_attempt_envelope evidences resolved manifest plan envelope ≡ ok tt
      → assess_prefix_with_context evidences resolved manifest plan (values ++ envelope ∷ [])
        ≡ ok (assessed plan (length values + 1))
  unfolding assess_prefix_with_context
  extended digests plan values envelope m p next valid =
      let isolated = validate_manifest-IsIsolatedPlan digests resolved manifest m in
      let (at, room) = Numbered-at 1 (length values) plan.records isolated.numbered next in
      let few = isolated.few in
      let (_, h₁) =
        then_returns (require (leb (length values) max_schedule_entries) long_prefix) _ p in
      let (_, h₂) =
        then_returns (require (leb (length values) (length plan.records)) long_prefix) _ h₁ in
      let (checked, _) =
        then_returns (check_prefix evidences resolved manifest plan 0 values) _ h₂ in
      let longer : length (values ++ envelope ∷ []) ≡ length values + 1 =
        length-append values (envelope ∷ []) ∙ omega arith in
      let whole = check_prefix-append plan 0 values envelope checked valid (omega (arith, at)) in
      rw
        (
          longer,
          le→leb (length values + 1) max_schedule_entries (omega (arith, few, room)),
          le→leb (length values + 1) (length plan.records) (omega (arith, room)),
          whole,
        )
        refl

  -- A committed attempt is one of the plan's next slot, and its envelope extends the stored prefix:
  -- with it the prefix is assessed again, one attempt longer.
  pub run_next_attempt_committed :
      (digests : Digests) (run_attempt : ℕ → Text → Outcome (Option Text) Result)
      (values : List (Envelope Evidence)) {slot : Slot} {envelope : Envelope Evidence}
      → run_next_attempt evidences resolved manifest digests run_attempt values
        ≡ ok (committed slot envelope)
      → (plan : IsolatedPlan) × (validate_manifest digests resolved manifest ≡ ok plan)
        × (get_elem? plan.records (length values) ≡ some slot)
        × (assess_prefix_with_context evidences resolved manifest plan (values ++ envelope ∷ [])
            ≡ ok (assessed plan (length values + 1)))
  unfolding run_next_attempt
  run_next_attempt_committed digests run_attempt values {slot} {envelope} h =
      let (plan, m, h₁) = bind_returns (validate_manifest digests resolved manifest) _ h in
      let (progress, p, h₂) =
        bind_returns (assess_prefix_with_context evidences resolved manifest plan values) _ h₁ in
      let (_, _, same) = prefix_assessed evidences resolved manifest plan values p in
      let (next, found, committing) = attempted digests plan run_attempt (length values) (
        subst
          (λ (q : PhaseProgress).
            (if q.is_complete
              then ok already_complete
              else attempt_slot evidences resolved manifest digests run_attempt q.next_slot)
            ≡ ok (committed slot envelope))
          same h₂) in
      let (own, placed, valid) =
        commit_result_sound digests plan next (run_attempt next.cpu manifest.taskset_path) m
          committing in
      (
        plan,
        m,
        subst (λ s. get_elem? plan.records (length values) ≡ some s) (sym own) found,
        extended digests plan values envelope m p
            (subst (λ s. get_elem? plan.records (length values) ≡ some s) (sym placed) found) valid,
      )
