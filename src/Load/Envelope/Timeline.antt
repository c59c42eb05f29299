-- ===== src/Load/Envelope/Timeline.antt =====
-- What an envelope that is validated says of the order of its attempts and of the load.
use fault_affinity.Prelude.{
  ℕ, ◌+◌, ◌≡◌, subst, true, List, [], ◌∷◌, ==_iff, Option, some, ok, require, present, bind_returns,
  then_returns, require_holds, present-some, ok_inj, arith,
}
use fault_affinity.Text.{decimal}
use fault_affinity.Text.Equality.{text_eq_sound}
use fault_affinity.Load.Workers.{bounded_decimal}
use fault_affinity.Load.Session.{
  bad_slot, bad_evidence, invalid_outcome, other_affinity, bad_time, not_sequential, LegIdentity,
  SessionManifest,
}
use fault_affinity.Load.Envelope.{
  MeasuredEvidences, LoadSlot, LoadAttempt, Interval, validate_load_binding, is_measured_affinity,
  expected_load_slot, same_slot, follows, time, check_load_attempt, check_load_attempts,
}

slot_same : (a b : LoadSlot) → same_slot a b ≡ true → a ≡ b
slot_same a b h =
    let ordinals : a.ordinal ≡ b.ordinal = (==_iff _ _).0 (ground arith) in
    let legs : a.leg ≡ b.leg = text_eq_sound a.leg b.leg (ground arith) in
    let positions : a.position ≡ b.position = (==_iff _ _).0 (ground arith) in
    cc (ordinals, legs, positions)

module _ {Evidence : Type 0} (evidences : MeasuredEvidences Evidence)
    (manifest : SessionManifest) where
  -- An attempt of a slot: it ran on the target CPU alone, its evidence parses to a valid outcome, and
  -- the interval is that of its evidence.
  pub record IsMeasured (slot : LoadSlot) (bound : LoadAttempt Evidence) (interval : Interval)
      : Type 0 where
    pub own_slot : bound.slot ≡ slot
    pub evidence : Evidence
    pub parsed : evidences.parse bound.evidence ≡ some evidence
    pub valid : evidences.is_valid evidence ≡ true
    pub pinned : bound.affinity.workload_allowed_cpu_list ≡ decimal manifest.execution.target_cpu
    pub started : bounded_decimal (evidences.started_ns evidence) ≡ some interval.started
    pub cleanup : bounded_decimal (evidences.cleanup_ns evidence) ≡ some interval.cleanup

  -- The attempts of a leg from a position on, each with its interval.
  pub data IsLeg (leg_index : ℕ) (leg : LegIdentity)
      : ℕ → List (LoadAttempt Evidence) → List Interval → Type 0 where
    over : (position : ℕ) → IsLeg leg_index leg position [] []
    then_one :
        (position : ℕ) (bound : LoadAttempt Evidence) (here : Interval)
        (rest : List (LoadAttempt Evidence)) (later : List Interval)
        → IsMeasured
            (expected_load_slot manifest.schedule.identity.attempts_per_leg leg_index leg position)
            bound
            here
        → IsLeg leg_index leg (position + 1) rest later
        → IsLeg leg_index leg position (bound ∷ rest) (here ∷ later)

  pub attempt-IsMeasured :
      (leg_index : ℕ) (leg : LegIdentity) (position : ℕ) (previous : Option ℕ)
      (bound : LoadAttempt Evidence) {interval : Interval}
      → check_load_attempt evidences manifest leg_index leg position previous bound ≡ ok interval
      → IsMeasured
          (expected_load_slot manifest.schedule.identity.attempts_per_leg leg_index leg position)
          bound
          interval
        × (follows previous interval.started ≡ true)
  unfolding check_load_attempt
  attempt-IsMeasured leg_index leg position previous bound h =
      let slot =
        expected_load_slot manifest.schedule.identity.attempts_per_leg leg_index leg position in
      let (own, h₁) = then_returns (require (same_slot bound.slot slot) bad_slot) _ h in
      let (evidence, parsed, h₂) =
        bind_returns (present (evidences.parse bound.evidence) bad_evidence) _ h₁ in
      let (valid, h₃) = then_returns (require (evidences.is_valid evidence) invalid_outcome) _ h₂ in
      let (affine, h₄) =
        then_returns (require (is_measured_affinity bound.affinity manifest) other_affinity) _ h₃ in
      let (_, h₅) =
        then_returns (validate_load_binding bound.binding (evidences.binding evidence)) _ h₄ in
      let (started, start_read, h₆) = bind_returns (time (evidences.started_ns evidence)) _ h₅ in
      let (cleanup, cleanup_read, h₇) = bind_returns (time (evidences.cleanup_ns evidence)) _ h₆ in
      let (order, last) = then_returns (require (follows previous started) not_sequential) _ h₇ in
      let made : Interval = record { started = started; cleanup = cleanup } in
      let affine =
        require_holds (is_measured_affinity bound.affinity manifest) other_affinity affine in
      subst (λ (i : Interval). IsMeasured slot bound i × (follows previous i.started ≡ true))
        (ok_inj last)
        (
          record {
            own_slot = slot_same bound.slot slot (require_holds _ bad_slot own);
            evidence = evidence;
            parsed = present-some _ bad_evidence parsed;
            valid = require_holds _ invalid_outcome valid;
            pinned = text_eq_sound _ _ (ground arith);
            started = present-some _ bad_time start_read;
            cleanup = present-some _ bad_time cleanup_read;
          },
          require_holds _ not_sequential order,
        )

  pub attempts-IsLeg :
      (leg_index : ℕ) (leg : LegIdentity) (position : ℕ) (previous : Option ℕ)
      (bounds : List (LoadAttempt Evidence)) {intervals : List Interval}
      → check_load_attempts evidences manifest leg_index leg position previous bounds ≡ ok intervals
      → IsLeg leg_index leg position bounds intervals
  unfolding check_load_attempts
  attempts-IsLeg leg_index leg position previous [] h =
      subst (IsLeg leg_index leg position []) (ok_inj h) (over position)
  attempts-IsLeg leg_index leg position previous (bound ∷ rest) h =
      let (here, checked, h₁) =
        bind_returns (check_load_attempt evidences manifest leg_index leg position previous bound) _
          h in
      let (later, others, last) =
        bind_returns
          (check_load_attempts evidences manifest leg_index leg (position + 1) (some here.cleanup)
            rest)
          _ h₁ in
      let (measured, _) = attempt-IsMeasured leg_index leg position previous bound checked in
      subst (IsLeg leg_index leg position (bound ∷ rest)) (ok_inj last) (
        then_one position bound here rest later measured
          (attempts-IsLeg leg_index leg (position + 1) (some here.cleanup) rest others))
