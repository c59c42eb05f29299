-- ===== src/Load/Envelope/Sound.antt =====
-- What an envelope that is validated shows.
use fault_affinity.Prelude.{
  ℕ, ◌≡◌, refl, sym, ap, ap₂, ◌∙◌, subst, Bool, true, List, [], ◌∷◌, ◌==◌, ==_iff, not, ◌&&◌,
  Option, none, some, Outcome, ok, throw, require, bind_returns, then_returns, require_holds,
  present-some, ok_inj, arith,
}
use fault_affinity.Text.{Text, text_eq, codes}
use fault_affinity.Text.Equality.{text_eq_sound}
use fault_affinity.ExactCpu.Phase.{same_workload, same_numbers}
use fault_affinity.Load.Managed.{ManagedResult, is_present}
use fault_affinity.Load.Workers.{
  ResolvedLoad, WorkerSetError, load_binding, bounded_decimal, StartEvidence, BoundaryEvidence,
  StopEvidence, parse_start, parse_boundary,
}
use fault_affinity.Load.Workers.Parsed.{parse_start-same, parse_boundary-same, parse_stop-same}
use fault_affinity.Load.Stopping.{parse_stop}
use fault_affinity.Load.Session.{
  other_measured, other_auxiliary, bad_version, other_generation, other_schedule, bad_boundary,
  bad_stop, other_workers, bad_time, session_version, session_phase, SessionManifest,
}
use fault_affinity.Load.Envelope.{
  MeasuredEvidences, LoadDigests, Bound, LoadCondition, SessionEnvelope, LegTimes, ConditionTimes,
  validate_load_binding, time, from_worker_set, parse_legs, parse_bound_start, parse_bound_boundary,
  parse_bound_stop, parse_condition, validate_session_envelope,
}
use fault_affinity.Load.Envelope.Order.{
  IsTimely, AreWholeLegs, parse_legs-AreWholeLegs, IsAroundB, check_order-IsAroundB,
}

same_numbers_sound : (xs ys : List ℕ) → same_numbers xs ys ≡ true → xs ≡ ys
same_numbers_sound [] [] h = refl
same_numbers_sound [] (y ∷ ys) h = cc
same_numbers_sound (x ∷ xs) [] h = cc
same_numbers_sound (x ∷ xs) (y ∷ ys) h =
    ap₂ ◌∷◌ ((==_iff x y).0 (ground arith)) (same_numbers_sound xs ys (ground arith))

from_worker_set_returns :
    {A : Type 0} (o : Outcome WorkerSetError A) {value : A}
    → from_worker_set o ≡ ok value
    → o ≡ ok value
from_worker_set_returns (throw e) h = cc
from_worker_set_returns (ok a) h = ap ok (ok_inj h)

absent_code : (o : Option Text) → not (is_present o) ≡ true → o ≡ none
absent_code none h = refl
absent_code (some code) h = cc

module _ {Lifecycle : Type 0} (builds : ManagedResult Lifecycle → Bool)
    (digests : LoadDigests Lifecycle) (auxiliary : ResolvedLoad) where
  parse_bound_start-same :
      (value : Bound StartEvidence) {found : StartEvidence}
      → parse_bound_start builds digests auxiliary value ≡ ok found
      → value.evidence ≡ found
  unfolding parse_bound_start
  parse_bound_start-same value h =
      let (start, parsed, h₁) =
        bind_returns (from_worker_set (parse_start auxiliary value.evidence)) _ h in
      let (_, last) =
        then_returns (validate_load_binding value.binding (digests.start_binding start)) _ h₁ in
      parse_start-same auxiliary value.evidence (from_worker_set_returns _ parsed) ∙ ok_inj last

  parse_bound_boundary-same :
      (start : StartEvidence) (value : Bound BoundaryEvidence) (name : Text)
      {found : BoundaryEvidence}
      → parse_bound_boundary builds digests auxiliary start value name ≡ ok found
      → (value.evidence ≡ found)
        × (parse_boundary auxiliary start found ≡ ok found)
        × (value.evidence.boundary ≡ name)
  unfolding parse_bound_boundary
  parse_bound_boundary-same start value name h =
      let (found, parsed, h₁) =
        bind_returns (from_worker_set (parse_boundary auxiliary start value.evidence)) _ h in
      let (named, h₂) = then_returns (require (text_eq found.boundary name) bad_boundary) _ h₁ in
      let (_, last) =
        then_returns (validate_load_binding value.binding (digests.boundary_binding found)) _ h₂ in
      let own = from_worker_set_returns (parse_boundary auxiliary start value.evidence) parsed in
      let same = parse_boundary-same auxiliary start value.evidence own ∙ ok_inj last in
      let named =
        text_eq_sound found.boundary name
          (require_holds (text_eq found.boundary name) bad_boundary named) in
      (
        same,
        ap (parse_boundary auxiliary start) (sym same) ∙ own ∙ ap ok (ok_inj last),
        ap (λ (e : BoundaryEvidence). e.boundary)
              (parse_boundary-same auxiliary start value.evidence own)
            ∙ named,
      )

  parse_bound_stop-same :
      (start : StartEvidence) (value : Bound (StopEvidence Lifecycle))
      {found : StopEvidence Lifecycle}
      → parse_bound_stop builds digests auxiliary start value ≡ ok found
      → (value.evidence ≡ found)
        × (value.evidence.valid ≡ true)
        × (value.evidence.failure_code ≡ none)
        × (value.evidence.reason ≡ codes "complete")
  unfolding parse_bound_stop
  parse_bound_stop-same start value h =
      let (found, parsed, h₁) =
        bind_returns (from_worker_set (parse_stop builds auxiliary start value.evidence)) _ h in
      let planned =
        text_eq found.reason (codes "complete")
        && (found.valid && not (is_present found.failure_code)) in
      let (good, h₂) = then_returns (require planned bad_stop) _ h₁ in
      let (_, last) =
        then_returns (validate_load_binding value.binding (digests.stop_binding found)) _ h₂ in
      let good = require_holds planned bad_stop good in
      let own =
        parse_stop-same builds auxiliary start value.evidence (from_worker_set_returns _ parsed) in
      (
        own ∙ ok_inj last,
        ap (λ (e : StopEvidence Lifecycle). e.valid) own ∙ ground arith,
        ap (λ (e : StopEvidence Lifecycle). e.failure_code) own ∙ absent_code _ (ground arith),
        ap (λ (e : StopEvidence Lifecycle). e.reason) own
            ∙ text_eq_sound found.reason (codes "complete") (ground arith),
      )

  -- The worker set's records: on the manifest's CPUs, verified before and after B and stopped as planned,
  -- at these times.
  pub record IsCondition (manifest : SessionManifest) (value : LoadCondition Lifecycle)
      (times : ConditionTimes) : Type 0 where
    pub cpus : value.worker_set_start.evidence.cpus ≡ manifest.execution.worker_cpus
    pub valid : value.worker_set_stop.evidence.valid ≡ true
    pub unfailed : value.worker_set_stop.evidence.failure_code ≡ none
    pub planned : value.worker_set_stop.evidence.reason ≡ codes "complete"
    pub named_before : value.before_b.evidence.boundary ≡ codes "before-b"
    pub named_after : value.after_b.evidence.boundary ≡ codes "after-b"
    pub before_parsed :
        parse_boundary auxiliary value.worker_set_start.evidence value.before_b.evidence
        ≡ ok value.before_b.evidence
    pub after_parsed :
        parse_boundary auxiliary value.worker_set_start.evidence value.after_b.evidence
        ≡ ok value.after_b.evidence
    pub ready :
        bounded_decimal value.worker_set_start.evidence.ready_monotonic_ns ≡ some times.ready
    pub before : bounded_decimal value.before_b.evidence.monotonic_ns ≡ some times.before
    pub after : bounded_decimal value.after_b.evidence.monotonic_ns ≡ some times.after
    pub stopped :
        bounded_decimal value.worker_set_stop.evidence.stopped_monotonic_ns ≡ some times.stopped

  parse_condition-IsCondition :
      (manifest : SessionManifest) (value : LoadCondition Lifecycle) {times : ConditionTimes}
      → parse_condition builds digests auxiliary manifest value ≡ ok times
      → IsCondition manifest value times
  unfolding parse_condition
  parse_condition-IsCondition manifest value h =
      let (start, e₁, h₁) =
        bind_returns (parse_bound_start builds digests auxiliary value.worker_set_start) _ h in
      let own =
        text_eq start.taskset_path manifest.execution.taskset_path
        && same_numbers start.cpus manifest.execution.worker_cpus in
      let (matches, h₂) = then_returns (require own other_workers) _ h₁ in
      let (before, e₃, h₃) =
        bind_returns
          (parse_bound_boundary builds digests auxiliary start value.before_b (codes "before-b")) _
          h₂ in
      let (after, e₄, h₄) =
        bind_returns
          (parse_bound_boundary builds digests auxiliary start value.after_b (codes "after-b")) _
          h₃ in
      let (stop, e₅, h₅) =
        bind_returns (parse_bound_stop builds digests auxiliary start value.worker_set_stop) _ h₄ in
      let (ready_ns, e₆, h₆) = bind_returns (time start.ready_monotonic_ns) _ h₅ in
      let (before_ns, e₇, h₇) = bind_returns (time before.monotonic_ns) _ h₆ in
      let (after_ns, e₈, h₈) = bind_returns (time after.monotonic_ns) _ h₇ in
      let (stopped_ns, e₉, last) = bind_returns (time stop.stopped_monotonic_ns) _ h₈ in
      let matches = require_holds own other_workers matches in
      let same_start = parse_bound_start-same value.worker_set_start e₁ in
      let (same_before, before_ok, before_named) =
        parse_bound_boundary-same start value.before_b (codes "before-b") e₃ in
      let (same_after, after_ok, after_named) =
        parse_bound_boundary-same start value.after_b (codes "after-b") e₄ in
      let (same_stop, valid, unfailed, planned) =
        parse_bound_stop-same start value.worker_set_stop e₅ in
      subst (IsCondition manifest value) (ok_inj last) (record {
        cpus =
            ap (λ (e : StartEvidence). e.cpus) same_start
            ∙ same_numbers_sound start.cpus manifest.execution.worker_cpus (ground arith);
        valid = valid;
        unfailed = unfailed;
        planned = planned;
        named_before = before_named;
        named_after = after_named;
        before_parsed =
            ap₂ (parse_boundary auxiliary) same_start same_before
            ∙ before_ok
            ∙ ap ok (sym same_before);
        after_parsed =
            ap₂ (parse_boundary auxiliary) same_start same_after
            ∙ after_ok
            ∙ ap ok (sym same_after);
        ready =
            ap (λ (e : StartEvidence). bounded_decimal e.ready_monotonic_ns) same_start
            ∙ present-some _ bad_time e₆;
        before =
            ap (λ (e : BoundaryEvidence). bounded_decimal e.monotonic_ns) same_before
            ∙ present-some _ bad_time e₇;
        after =
            ap (λ (e : BoundaryEvidence). bounded_decimal e.monotonic_ns) same_after
            ∙ present-some _ bad_time e₈;
        stopped =
            ap (λ (e : StopEvidence Lifecycle). bounded_decimal e.stopped_monotonic_ns) same_stop
            ∙ present-some _ bad_time e₉;
      })

module _ {Evidence Lifecycle : Type 0} (evidences : MeasuredEvidences Evidence)
    (builds : ManagedResult Lifecycle → Bool) (digests : LoadDigests Lifecycle)
    (measured auxiliary : ResolvedLoad) where
  -- Where no accepted evidence is of an attempt that is cleaned up before it starts, an envelope that is
  -- validated has the three legs, with an attempt for each slot of the schedule in order, each
  -- valid, on the target CPU alone and over before the next starts; a worker set on the manifest's
  -- CPUs that was verified before and after B and stopped as planned; and in time, all of A1 is over
  -- before the workers are ready, all of B lies between the two verifications, of which the first
  -- comes after the warm-up and the second before the stop, and all of A2 starts after the recovery
  -- interval that follows the stop.
  pub validate_session_envelope_sound :
      (manifest : SessionManifest) (value : SessionEnvelope Evidence Lifecycle)
      (timely : IsTimely evidences)
      → validate_session_envelope evidences builds digests measured auxiliary manifest value ≡ ok tt
      → (legs : LegTimes) × (times : ConditionTimes) × AreWholeLegs evidences manifest value.legs
          legs
        × IsCondition builds digests auxiliary manifest value.condition times
        × IsAroundB evidences manifest legs times
  unfolding validate_session_envelope
  validate_session_envelope_sound manifest value timely h =
      let (_, h₁) = then_returns (require (value.version == session_version) bad_version) _ h in
      let (_, h₂) =
        then_returns
          (require
            (text_eq value.phase session_phase && text_eq value.generation manifest.generation)
            other_generation)
          _ h₁ in
      let (_, h₃) =
        then_returns
          (require (same_workload value.measured_workload (load_binding measured)) other_measured) _
          h₂ in
      let (_, h₄) =
        then_returns
          (require (same_workload value.auxiliary_workload (load_binding auxiliary))
            other_auxiliary)
          _ h₃ in
      let (_, h₅) =
        then_returns
          (require (text_eq value.schedule_digest manifest.schedule.digest) other_schedule) _ h₄ in
      let (legs, read, h₆) = bind_returns (parse_legs evidences manifest value.legs) _ h₅ in
      let (times, condition, ordered) =
        bind_returns (parse_condition builds digests auxiliary manifest value.condition) _ h₆ in
      let whole = parse_legs-AreWholeLegs evidences manifest timely value.legs read in
      let (_, _, _, _, one, two, three) = whole in
      (
        legs,
        times,
        whole,
        parse_condition-IsCondition builds digests auxiliary manifest value.condition condition,
        check_order-IsAroundB evidences manifest timely legs times one.sequential two.sequential
            three.sequential ordered,
      )
