-- ===== src/Load/Envelope/Order.antt =====
-- The order of the legs' attempts, and of the load.
use fault_affinity.Prelude.{
  ℕ, ◌+◌, ◌*◌, ◌≤◌, ◌≡◌, refl, subst, true, List, [], ◌∷◌, All, length, leb, leb→le, ◌==◌, ==_iff,
  ◌&&◌, Option, none, some, ok, require, present, bind_returns, then_returns, require_holds,
  present-some, ok_inj, arith,
}
use fault_affinity.Text.{text_eq}
use fault_affinity.Text.Equality.{text_eq_sound}
use fault_affinity.Load.Workers.{bounded_decimal}
use fault_affinity.Load.Session.{
  bad_leg, missing_attempts, early_workers, outside_before, outside_after, early_recovery,
  LegIdentity, leg_a1, leg_b, leg_a2, SessionManifest,
}
use fault_affinity.Load.Envelope.{
  MeasuredEvidences, LoadAttempt, LegEnvelope, Interval, LegTimes, ConditionTimes, follows,
  first_started, last_cleanup, check_load_attempt, check_load_attempts, parse_leg, parse_legs,
  check_order,
}
use fault_affinity.Load.Envelope.Intervals.{
  Sequential, raised, first_started-first, last_cleanup-last,
}
use fault_affinity.Load.Envelope.Timeline.{IsLeg, attempt-IsMeasured, attempts-IsLeg}

-- The floor that the cleanup of the attempt before sets.
abbrev floor_of : Option ℕ → ℕ
floor_of none = 0
floor_of (some cleanup) = cleanup

follows-floor :
    (previous : Option ℕ) (started : ℕ)
    → follows previous started ≡ true
    → floor_of previous ≤ started
follows-floor none started h = omega arith
follows-floor (some cleanup) started h = leb→le cleanup started h

module _ {Evidence : Type 0} (evidences : MeasuredEvidences Evidence) where
  -- No evidence that its parser accepts is of an attempt that is cleaned up before it starts.
  abbrev pub IsTimely : Type 0
  IsTimely =
      (value found : Evidence) (started cleanup : ℕ)
      → evidences.parse value ≡ some found
      → bounded_decimal (evidences.started_ns found) ≡ some started
      → bounded_decimal (evidences.cleanup_ns found) ≡ some cleanup
      → started ≤ cleanup

  module _ (manifest : SessionManifest) where
    -- A leg that is whole: every slot of the schedule's is there, in order.
    pub record IsWholeLeg (leg_index : ℕ) (leg : LegIdentity) (value : LegEnvelope Evidence)
        (intervals : List Interval) : Type 0 where
      pub named : value.leg ≡ leg.leg
      pub conditioned : value.condition ≡ leg.condition
      pub counted : length value.attempts ≡ manifest.schedule.identity.attempts_per_leg
      pub slots : IsLeg evidences manifest leg_index leg 1 value.attempts intervals
      pub sequential : Sequential 0 intervals

    -- The three legs, A1, B and A2.
    abbrev pub AreWholeLegs : List (LegEnvelope Evidence) → LegTimes → Type 0
    AreWholeLegs values legs =
        (a1 : LegEnvelope Evidence) × (b : LegEnvelope Evidence) × (a2 : LegEnvelope Evidence)
        × (values ≡ a1 ∷ b ∷ a2 ∷ [])
        × IsWholeLeg 0 leg_a1 a1 legs.a1
        × IsWholeLeg 1 leg_b b legs.b
        × IsWholeLeg 2 leg_a2 a2 legs.a2

    -- The load runs around all of B, and around nothing else.
    pub record IsAroundB (legs : LegTimes) (times : ConditionTimes) : Type 0 where
      pub a1_over : All (λ x. x.cleanup ≤ times.ready) legs.a1
      pub warm : times.ready + manifest.schedule.identity.warmup_ms * 1_000_000 ≤ times.before
      pub b_inside :
          All (λ x. times.before ≤ x.started) legs.b × All (λ x. x.cleanup ≤ times.after) legs.b
      pub b_over : times.after ≤ times.stopped
      pub recovered :
          All
            (λ x. times.stopped + manifest.schedule.identity.recovery_ms * 1_000_000 ≤ x.started)
            legs.a2

  module _ (manifest : SessionManifest) (timely : IsTimely) where
    attempts-Sequential :
        (leg_index : ℕ) (leg : LegIdentity) (position : ℕ) (previous : Option ℕ)
        (bounds : List (LoadAttempt Evidence)) {intervals : List Interval}
        → check_load_attempts evidences manifest leg_index leg position previous bounds
          ≡ ok intervals
        → Sequential (floor_of previous) intervals
    unfolding check_load_attempts
    attempts-Sequential leg_index leg position previous [] h =
        subst (Sequential (floor_of previous)) (ok_inj h) tt
    attempts-Sequential leg_index leg position previous (bound ∷ rest) h =
        let (here, checked, h₁) =
          bind_returns (check_load_attempt evidences manifest leg_index leg position previous bound)
            _ h in
        let (later, others, last) =
          bind_returns
            (check_load_attempts evidences manifest leg_index leg (position + 1) (some here.cleanup)
              rest)
            _ h₁ in
        let (m, order) =
          attempt-IsMeasured evidences manifest leg_index leg position previous bound checked in
        subst (Sequential (floor_of previous)) (ok_inj last) (
          (
            follows-floor previous here.started order,
            timely bound.evidence m.evidence here.started here.cleanup m.parsed m.started m.cleanup,
          ),
          attempts-Sequential leg_index leg (position + 1) (some here.cleanup) rest others,
        )

    parse_leg-IsWholeLeg :
        (leg_index : ℕ) (leg : LegIdentity) (value : LegEnvelope Evidence)
        {intervals : List Interval}
        → parse_leg evidences manifest leg_index leg value ≡ ok intervals
        → IsWholeLeg manifest leg_index leg value intervals
    unfolding parse_leg
    parse_leg-IsWholeLeg leg_index leg value h =
        let (name, h₁) =
          then_returns
            (require (text_eq value.leg leg.leg && text_eq value.condition leg.condition) bad_leg) _
            h in
        let (count, h₂) =
          then_returns
            (require (length value.attempts == manifest.schedule.identity.attempts_per_leg)
              missing_attempts)
            _ h₁ in
        let name =
          require_holds (text_eq value.leg leg.leg && text_eq value.condition leg.condition) bad_leg
            name in
        record {
          named = text_eq_sound _ _ (ground arith);
          conditioned = text_eq_sound _ _ (ground arith);
          counted = (==_iff _ _).0 (require_holds _ missing_attempts count);
          slots = attempts-IsLeg evidences manifest leg_index leg 1 none value.attempts h₂;
          sequential = attempts-Sequential leg_index leg 1 none value.attempts h₂;
        }

    pub parse_legs-AreWholeLegs :
        (values : List (LegEnvelope Evidence)) {legs : LegTimes}
        → parse_legs evidences manifest values ≡ ok legs
        → AreWholeLegs manifest values legs
    parse_legs-AreWholeLegs [] h = cc
    parse_legs-AreWholeLegs (a1 ∷ []) h = cc
    parse_legs-AreWholeLegs (a1 ∷ b ∷ []) h = cc
    parse_legs-AreWholeLegs (a1 ∷ b ∷ a2 ∷ more ∷ values) h = cc
    parse_legs-AreWholeLegs (a1 ∷ b ∷ a2 ∷ []) h =
        let (first, one, h₁) = bind_returns (parse_leg evidences manifest 0 leg_a1 a1) _ h in
        let (second, two, h₂) = bind_returns (parse_leg evidences manifest 1 leg_b b) _ h₁ in
        let (third, three, last) = bind_returns (parse_leg evidences manifest 2 leg_a2 a2) _ h₂ in
        subst (AreWholeLegs manifest (a1 ∷ b ∷ a2 ∷ [])) (ok_inj last) (
          a1,
          b,
          a2,
          refl,
          parse_leg-IsWholeLeg 0 leg_a1 a1 one,
          parse_leg-IsWholeLeg 1 leg_b b two,
          parse_leg-IsWholeLeg 2 leg_a2 a2 three,
        )

    below_bound :
        (high low : ℕ)
        → low ≤ high
        → (xs : List Interval) → All (λ x. x.cleanup ≤ low) xs
        → All (λ x. x.cleanup ≤ high) xs
    below_bound high low le [] h = tt
    below_bound high low le (x ∷ xs) (first, later) =
        (omega arith, below_bound high low le xs later)

    pub check_order-IsAroundB :
        (legs : LegTimes) (times : ConditionTimes)
        → Sequential 0 legs.a1
        → Sequential 0 legs.b
        → Sequential 0 legs.a2
        → check_order manifest.schedule.identity legs times ≡ ok tt
        → IsAroundB manifest legs times
    unfolding check_order
    check_order-IsAroundB legs times one two three h =
        let schedule = manifest.schedule.identity in
        let (a1_last, e₁, h₁) =
          bind_returns (present (last_cleanup legs.a1) missing_attempts) _ h in
        let (b_first, e₂, h₂) =
          bind_returns (present (first_started legs.b) missing_attempts) _ h₁ in
        let (b_last, e₃, h₃) = bind_returns (present (last_cleanup legs.b) missing_attempts) _ h₂ in
        let (a2_first, e₄, h₄) =
          bind_returns (present (first_started legs.a2) missing_attempts) _ h₃ in
        let (early, h₅) = then_returns (require (leb a1_last times.ready) early_workers) _ h₄ in
        let warmed = leb (times.ready + schedule.warmup_ms * 1_000_000) times.before in
        let (outside, h₆) =
          then_returns (require (warmed && leb times.before b_first) outside_before) _ h₅ in
        let (inside, last) =
          then_returns
            (require (leb b_last times.after && leb times.after times.stopped) outside_after) _
            h₆ in
        let outside = require_holds (warmed && leb times.before b_first) outside_before outside in
        let inside =
          require_holds (leb b_last times.after && leb times.after times.stopped) outside_after
            inside in
        let low : times.before ≤ b_first = leb→le _ _ (ground arith) in
        let high : b_last ≤ times.after = leb→le _ _ (ground arith) in
        record {
          a1_over =
              below_bound times.ready a1_last (leb→le _ _ (require_holds _ early_workers early))
                legs.a1
                (last_cleanup-last 0 a1_last legs.a1 (present-some _ missing_attempts e₁) one);
          warm = leb→le _ _ (ground arith);
          b_inside = (
            raised b_first times.before low legs.b
                (first_started-first 0 b_first legs.b (present-some _ missing_attempts e₂) two),
            below_bound times.after b_last high legs.b
                (last_cleanup-last 0 b_last legs.b (present-some _ missing_attempts e₃) two),
          );
          b_over = leb→le _ _ (ground arith);
          recovered =
              raised a2_first (times.stopped + schedule.recovery_ms * 1_000_000)
                (leb→le _ _ (require_holds _ early_recovery last)) legs.a2
                (first_started-first 0 a2_first legs.a2 (present-some _ missing_attempts e₄) three);
        }
